-- ===== src/Machine/Runs.antt =====
-- Runs that only add to the trace: what they return, and what an observer sees of them.
use mega_os.Prelude.{
  ℕ, ◌≡◌, refl, sym, ◌∙◌, List, [], ◌++◌, append_assoc, append-nil, M, Outcome, done, bind, pure,
}
use mega_os.Machine.{Machine, Event}
use mega_os.Machine.Trace.{shown, written}

-- `outcome`, begun in `m`, returns `value`; the terminal then shows `chars` more and the port has
-- been sent `bytes` more. Nothing else of the state has changed.
pub record Runs {ℓ} {A : Type ℓ} (port : ℕ) (outcome : Outcome Machine A) (value : A) (m : Machine)
    (chars bytes : List ℕ) : Type ℓ where
  pub final : List Event
  pub returns : outcome ≡ done value (record m { trace = final })
  pub shows : shown final ≡ shown m.trace ++ chars
  pub sends : written port final ≡ written port m.trace ++ bytes

module _ {ℓ} {A : Type ℓ} (port : ℕ) where
  pub Runs-pure : (value : A) (m : Machine) → Runs port (pure value m) value m [] []
  Runs-pure value m = record {
    final = m.trace;
    returns = refl;
    shows = sym (append-nil _);
    sends = sym (append-nil _);
  }

  pub Runs-bind {κ} :
      {B : Type κ} {o : Outcome Machine A} {value : A} {m : Machine} {a b : List ℕ}
      (f : A → M Machine B) (result : B) (c d : List ℕ)
      → Runs port o value m a b
      → ((t : List Event)
          → Runs port (f value (record m { trace = t })) result (record m { trace = t }) c d)
      → Runs port (bind o f) result m (a ++ c) (b ++ d)
  Runs-bind {m} {a} {b} f result c d first next =
      let second = next first.final in
      record {
        final = second.final;
        returns = rw first.returns second.returns;
        shows = second.shows ∙ rw first.shows (append_assoc (shown m.trace) a c);
        sends = second.sends ∙ rw first.sends (append_assoc (written port m.trace) b d);
      }
