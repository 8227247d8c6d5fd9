-- ===== src/Serial/Send.antt =====
-- `serial::send` on a port whose transmitter becomes empty in the end.
use mega_os.Prelude.{
  ℕ, zero, suc, ◌<◌, ◌%◌, ◌^◌, ◌≡◌, refl, sym, Bool, false, List, [], ◌∷◌, append-nil, arith, ◌==◌,
  bit_and, Bool-cases, inl, inr,
}
use mega_os.Machine.{Env, Machine, Event, in_byte, out_byte, inb, outb}
use mega_os.Machine.Runs.{Runs, Runs-bind}
use mega_os.Serial.{data_reg, line_sr, temt_mask, wait_ready, send}

module _ (env : Env) where
  -- The transmitter is found busy after these events.
  abbrev pub is_busy : List Event → Bool
  is_busy t = bit_and (env.reads t line_sr) temt_mask == 0

  -- The events after `k` more reads of the status.
  abbrev pub polled : ℕ → List Event → List Event
  polled zero t = t
  polled (suc k) t = polled k (in_byte line_sr (env.reads t line_sr) ∷ t)

  -- After any events the transmitter is found empty within the bound on the rounds.
  abbrev pub Responsive : Type 0
  Responsive = (t : List Event) → (k : ℕ) × (k < env.polls) × (is_busy (polled k t) ≡ false)

  wait_ready-Runs :
      (rounds k : ℕ) (m : Machine)
      → k < rounds
      → is_busy (polled k m.trace) ≡ false
      → Runs data_reg (wait_ready env rounds m) tt m [] []
  unfolding wait_ready inb
  wait_ready-Runs zero k m h e = elim h [ ]
  wait_ready-Runs (suc rounds) zero m h e = rw e (record {
    final = in_byte line_sr (env.reads m.trace line_sr) ∷ m.trace;
    returns = refl;
    shows = sym (append-nil _);
    sends = sym (append-nil _);
  })
  wait_ready-Runs (suc rounds) (suc k) m h e = elim (Bool-cases (is_busy m.trace)) [
    | inl busy ↦
        let m' = record m { trace = in_byte line_sr (env.reads m.trace line_sr) ∷ m.trace } in
        let rest = wait_ready-Runs rounds k m' (omega arith) e in
        rw busy (record {
          final = rest.final;
          returns = rest.returns;
          shows = rest.shows;
          sends = rest.sends;
        })
    | inr empty ↦ rw empty (record {
      final = in_byte line_sr (env.reads m.trace line_sr) ∷ m.trace;
      returns = refl;
      shows = sym (append-nil _);
      sends = sym (append-nil _);
    })
  ]

  -- On a port whose transmitter becomes empty within the bound on the rounds, `serial::send`
  -- returns, has sent that one byte, and has changed nothing else.
  pub send-Runs :
      Responsive → (c : ℕ) (m : Machine) → Runs data_reg (send env c m) tt m [] (c % 2 ^ 8 ∷ [])
  unfolding send outb
  send-Runs responsive c m =
      let (k, below, ready) = responsive m.trace in
      Runs-bind data_reg _ tt [] (c % 2 ^ 8 ∷ []) (wait_ready-Runs env.polls k m below ready) (λ t.
        record {
          final = out_byte data_reg (c % 2 ^ 8) ∷ t;
          returns = refl;
          shows = sym (append-nil _);
          sends = refl;
        })
