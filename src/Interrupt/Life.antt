-- ===== src/Interrupt/Life.antt =====
-- The kernel behind `_start`: requests of the two interrupt controllers, which `pic::remap` has put at
-- the vectors 32 to 47, in any order and number. The scan codes that are read choose what happens.
use mega_os.Prelude.{
  ℕ, ◌<◌, ◌≤◌, ◌≢◌, ◌≡◌, refl, sym, ap, ◌∙◌, subst, true, false, List, [], ◌∷◌, ◌++◌, append-nil,
  append_assoc, Outcome, done, stopped, ◌==◌, if◌then◌else◌, arith, Bool-cases, inl, inr, ==_iff,
}
use mega_os.Machine.{Env, Machine, Event, out_byte}
use mega_os.Pic.{mpic_command, spic_command, eoi}
use mega_os.Machine.Trace.{shown}
use mega_os.Serial.Send.{Responsive}
use mega_os.Frames.{Context, return_words, irq_stub, frame_at}
use mega_os.Frames.Resume.{leave_stub-restores}
use mega_os.Keyboard.{data_port}
use mega_os.Keyboard.Shift.{Switches, bits_of, turned, typed}
use mega_os.Isr.{irq_interrupt_handler}
use mega_os.Isr.Dispatch.{
  installed, Acknowledges, irq_unhandled-Acknowledges, irq_keyboard-Acknowledges,
}
use mega_os.Interrupt.{take_irq, is_open}

-- The switches after some scan codes, and what the codes type.
abbrev pub turned_all : List ℕ → Switches → Switches
turned_all [] k = k
turned_all (code ∷ codes) k = turned_all codes (turned code k)

abbrev pub typed_all : List ℕ → Switches → List ℕ
typed_all [] k = []
typed_all (code ∷ codes) k = typed code k ++ typed_all codes (turned code k)

turned_all-append :
    (xs ys : List ℕ) (k : Switches) → turned_all (xs ++ ys) k ≡ turned_all ys (turned_all xs k)
turned_all-append [] ys k = refl
turned_all-append (x ∷ xs) ys k = turned_all-append xs ys (turned x k)

typed_all-append :
    (xs ys : List ℕ) (k : Switches)
    → typed_all (xs ++ ys) k ≡ typed_all xs k ++ typed_all ys (turned_all xs k)
typed_all-append [] ys k = refl
typed_all-append (x ∷ xs) ys k =
    rw (typed_all-append xs ys (turned x k))
      (sym (append_assoc (typed x k) (typed_all xs (turned x k)) _))

-- A kernel that is up, with these switches and after these events; `m` has all the rest.
abbrev pub up : Machine → Switches → List Event → Machine
up m k t = record m {
  handlers = installed;
  use_serial = false;
  interrupts_on = true;
  key_up = bits_of k;
  trace = t;
}

-- The scan codes that the request of a vector reads.
abbrev pub codes_read : Env → ℕ → List Event → List ℕ
codes_read env vector t = if vector == 33 then env.reads t data_port ∷ [] else []

-- The request is served, and reads these scan codes: the program goes on with its context, the
-- kernel stays up, and the terminal shows what is typed.
pub record Serves (env : Env) (file : List ℕ) (vector : ℕ) (c : Context) (m : Machine)
    (k : Switches) (t : List Event) (codes : List ℕ) : Type 0 where
  pub after : List Event
  pub returns : take_irq env file vector c (up m k t) ≡ done c (up m (turned_all codes k) after)
  pub shows : shown after ≡ shown t ++ typed_all codes k

-- A program's request as the handler's run.
abbrev handled : Env → List ℕ → ℕ → Context → Machine → Outcome Machine (Unit {0})
handled env file vector c =
    irq_interrupt_handler env file (frame_at (irq_stub vector c.gprs (return_words c.back)))

module _ (env : Env) (file : List ℕ) (responsive : Responsive env) where
  -- From what the handler does to what the whole request does.
  Acknowledges-Serves :
      (vector : ℕ) (c : Context) (m : Machine) (k : Switches) (t : List Event) (codes sent : List ℕ)
      → is_open c ≡ true
      → Acknowledges
          (handled env file vector c (record (up m k t) { interrupts_on = false }))
          (record (up m k t) { interrupts_on = false })
          (record (up m (turned_all codes k) t) { interrupts_on = false })
          (typed_all codes k)
          sent
      → Serves env file vector c m k t codes
  unfolding take_irq
  Acknowledges-Serves vector c m k t codes sent flag served = (record {
    after = out_byte mpic_command eoi ∷ out_byte spic_command eoi ∷ served.before;
    returns = rw (served.returns, (leave_stub-restores vector 0 c).0, flag) refl;
    shows = served.shows;
  })

  -- Every request of the vectors 32 to 254 is served.
  take_irq-Serves :
      (vector : ℕ) (c : Context) (m : Machine) (k : Switches) (t : List Event)
      → 32 ≤ vector
      → vector < 255
      → is_open c ≡ true
      → m.write ≢ 0
      → Serves env file vector c m k t (codes_read env vector t)
  take_irq-Serves vector c m k t h lt flag can = elim (Bool-cases (vector == 33)) [
    | inl keyboard ↦
        rw (keyboard, (==_iff vector 33).0 keyboard)
          (Acknowledges-Serves 33 c m k t (env.reads t data_port ∷ []) [] flag (
            subst
              (λ typed_chars.
                Acknowledges (handled env file 33 c (record (up m k t) { interrupts_on = false }))
                  (record (up m k t) { interrupts_on = false })
                  (record (up m (turned (env.reads t data_port) k) t) { interrupts_on = false })
                  typed_chars [])
              (sym (append-nil (typed (env.reads t data_port) k)))
              (irq_keyboard-Acknowledges env file responsive c.gprs c.back k
                (record (up m k t) { interrupts_on = false }) refl (λ e. refl) can)))
    | inr other ↦ rw other (
        Acknowledges-Serves vector c m k t [] _ flag (
          irq_unhandled-Acknowledges env file responsive vector c.gprs c.back
            (record (up m k t) { interrupts_on = false }) h lt (λ e. ground arith) refl))
  ]

-- One request of the interrupt controllers, in a program with interrupts on.
pub data Step (env : Env) (file : List ℕ) (m : Machine) : List ℕ → Machine → Type 0 where
  irq :
      (vector : ℕ) (c c' : Context) {m' : Machine}
      → 32 ≤ vector
      → vector < 48
      → m.interrupts_on ≡ true
      → is_open c ≡ true
      → take_irq env file vector c m ≡ done c' m'
      → Step env file m (codes_read env vector m.trace) m'

-- Any number of requests; the list has the scan codes that they have read.
pub data Reach (env : Env) (file : List ℕ) (m : Machine) : List ℕ → Machine → Type 0 where
  here : Reach env file m [] m
  next :
      {codes more : List ℕ} {u v : Machine}
      → Reach env file m codes u
      → Step env file u more v
      → Reach env file m (codes ++ more) v

abbrev pub last_state {ℓ} : {A : Type ℓ} → Outcome Machine A → Machine
last_state (done a m) = m
last_state (stopped w m) = m

-- The kernel is up, with the switches and the terminal that the scan codes make.
pub record Lives (m : Machine) (k : Switches) (t : List Event) (codes : List ℕ) (u : Machine)
    : Type 0 where
  pub trace : List Event
  pub is_up : u ≡ up m (turned_all codes k) trace
  pub shows : shown trace ≡ shown t ++ typed_all codes k

module _ (env : Env) (file : List ℕ) (responsive : Responsive env) (m : Machine) (k : Switches)
    (t : List Event) (terminal : m.write ≢ 0) where
  step_up :
      (codes : List ℕ) (t' : List Event) {more : List ℕ} {v : Machine}
      → shown t' ≡ shown t ++ typed_all codes k
      → Step env file (up m (turned_all codes k) t') more v
      → Lives m k t (codes ++ more) v
  step_up codes t' shows (irq vector c c' low high on flag e) =
      let k' = turned_all codes k in
      let read = codes_read env vector t' in
      let run =
        take_irq-Serves env file responsive vector c m k' t' low (omega arith) flag terminal in
      record {
        trace = run.after;
        is_up =
            ap last_state (sym e ∙ run.returns)
            ∙ ap (λ switches. up m switches run.after) (sym (turned_all-append codes read k));
        shows =
            run.shows
            ∙ rw (shows, typed_all-append codes read k)
                (append_assoc (shown t) (typed_all codes k) (typed_all read k'));
      }

  Step-Lives :
      {codes more : List ℕ} {u v : Machine}
      → Lives m k t codes u
      → Step env file u more v
      → Lives m k t (codes ++ more) v
  Step-Lives {codes} {more} {v} lives step =
      step_up codes lives.trace lives.shows (subst (λ u'. Step env file u' more v) lives.is_up step)

  -- On a responsive port, from a state in which the handlers are installed, the terminal is set,
  -- `use_serial` is false and interrupts are on, every state that requests of vectors 32 to 47,
  -- taken while interrupts are on, lead to is again such a state, differs from the first one in
  -- the trace and the switches of the keyboard only, has the switches that the scan codes read
  -- make, and has shown what they type.
  pub Reach-Lives :
      {codes : List ℕ} {u : Machine} → Reach env file (up m k t) codes u → Lives m k t codes u
  Reach-Lives here = record { trace = t; is_up = refl; shows = sym (append-nil _) }
  Reach-Lives (next r step) = Step-Lives (Reach-Lives r) step

  -- On a responsive port, in every state that requests lead to from one in which the kernel is up
  -- with its terminal set, a further request of a vector from 32 to 47, in a program that has
  -- interrupts on, is served: the stub returns into the program with all its registers, its stack
  -- and its flags, and the step to the state behind it exists.
  pub Reach-serves :
      {codes : List ℕ} {u : Machine} (vector : ℕ) (c : Context)
      → Reach env file (up m k t) codes u
      → 32 ≤ vector
      → vector < 48
      → is_open c ≡ true
      → (v : Machine) × (take_irq env file vector c u ≡ done c v)
        × Step env file u (codes_read env vector u.trace) v
  Reach-serves {codes} {u} vector c r low high flag =
      let lives = Reach-Lives r in
      let run =
        take_irq-Serves env file responsive vector c m (turned_all codes k) lives.trace low
          (omega arith) flag terminal in
      let served = ap (take_irq env file vector c) lives.is_up ∙ run.returns in
      (
        _,
        served,
        irq vector c c low high (ap (λ (u' : Machine). u'.interrupts_on) lives.is_up) flag served,
      )
