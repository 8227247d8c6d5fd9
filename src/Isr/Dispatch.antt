-- ===== src/Isr/Dispatch.antt =====
-- What the two handlers of interrupts do with the frame that the stubs build, once `isr::install` has
-- run.
use mega_os.Prelude.{
  ℕ, ◌<◌, ◌≤◌, ◌≢◌, ◌^◌, ◌%◌, ◌≡◌, refl, sym, ap, ◌∙◌, Bool, true, false, ◌&&◌, List, [], ◌∷◌, ◌++◌,
  some, none, Option, arith, codes, Outcome, stopped, done, fault, ltb, leb, if◌then◌else◌,
  get_elem?, holds_under, holds_under-at, lt→ltb, set, replicate, Bool-cases, inl, inr,
  get_elem?-set_ne,
}
use mega_os.Machine.{Env, Machine, Event, out_byte, Handler, keyboard_irq_handler, outb}
use mega_os.Machine.Trace.{shown, written}
use mega_os.Serial.{data_reg}
use mega_os.Serial.Send.{Responsive}
use mega_os.Printf.Directive.{word}
use mega_os.Printf.Format.Pieces.{plain, dec, nothing, within, Writes, dec_text}
use mega_os.Log.Delivery.{serial_bytes, visible}
use mega_os.Log.Printf.{dprintf-Writes}
use mega_os.Panic.{exception_desc}
use mega_os.Panic.Halts.{Halts, kpanic_frame-Halts}
use mega_os.Panic.Report.{banner, cause_line, frame_report, registers_report, description}
use mega_os.Frames.{
  Registers, InterruptFrame, Return, return_words, exception_stub_noerr, irq_stub, frame_at,
}
use mega_os.Frames.Layout.{frame, frame_at-irq_stub, frame_at-exception_stub}
use mega_os.Keyboard.{data_port}
use mega_os.Keyboard.Shift
use mega_os.Keyboard.Shift.{Switches, turned, typed, with_switches}
use mega_os.Pic.{mpic_command, spic_command, eoi, send_eoi}
use mega_os.Isr.{
  handler_count, get_class_type, is_cpu_exception, is_irq_interrupt, check, is_abort,
  handle_exception, cpu_exception_handler, handle_irq, irq_interrupt_handler,
}

-- `handlers` as `isr::install` leaves it.
abbrev pub installed : List (Option Handler)
installed = set (replicate handler_count none) 33 (some keyboard_irq_handler)

-- What an exception's panic names as its cause.
abbrev pub exception_cause : ℕ → List ℕ
exception_cause int_no =
    if is_abort (get_class_type int_no)
    then codes "CPU interrupt of class abort."
    else codes "CPU interrupt with no handler"

-- The whole report of a panic on the serial port.
abbrev pub report : List ℕ → InterruptFrame → List ℕ
report cause f =
    serial_bytes (visible (frame_report f))
    ++ (serial_bytes (visible (description (get_elem? exception_desc f.int_no)))
        ++ (serial_bytes (visible (registers_report f.gprs))
            ++ serial_bytes (visible (cause_line cause))))

-- A Boolean test over the handlers.
is_unhandled : Option (Option Handler) → Bool
is_unhandled (some none) = true
is_unhandled _ = false

is_unhandled-some : (o : Option (Option Handler)) → is_unhandled o ≡ true → o ≡ some none
unfolding is_unhandled
is_unhandled-some none h = ground arith
is_unhandled-some (some none) h = refl
is_unhandled-some (some (some x)) h = ground arith

unhandled : (int_no : ℕ) → int_no < 255 → int_no ≢ 33 → get_elem? installed int_no ≡ some none
unfolding holds_under is_unhandled
unhandled int_no h ne =
    get_elem?-set_ne (replicate handler_count none) 33 int_no _ (λ e. ne (sym e))
    ∙ is_unhandled-some _ (
        holds_under-at 255 (λ i. is_unhandled (get_elem? (replicate handler_count none) i)) int_no
          refl h)

-- From `m` the run comes to the state `after` but for its trace, and ends the interrupt on both
-- controllers last of all.
pub record Acknowledges (outcome : Outcome Machine (Unit {0})) (m after : Machine)
    (chars sent : List ℕ) : Type 0 where
  pub before : List Event
  pub returns :
      outcome
      ≡ done tt
          (record after { trace = out_byte mpic_command eoi ∷ out_byte spic_command eoi ∷ before })
  pub shows : shown before ≡ shown m.trace ++ chars
  pub sends : written data_reg before ≡ written data_reg m.trace ++ sent

abbrev pub irq_line : ℕ → List ℕ
irq_line vector = codes "IRQ " ++ (dec_text vector ++ codes " received but has no handler\n")

module _ (env : Env) (file : List ℕ) (responsive : Responsive env) where
  -- After `isr::install`, on a responsive port and with the terminal set, an exception frame whose
  -- interrupt number is below 32 ends with the processor halted and interrupts off, after the
  -- panic's line on the terminal and the report of the frame, its exception, its registers and its
  -- cause on the serial port.
  pub cpu_exception_handler-Halts :
      (f : InterruptFrame) (m : Machine)
      → f.int_no < 32
      → m.handlers ≡ installed
      → m.write ≢ 0
      → Halts
          (cpu_exception_handler env file (some f) m)
          m
          banner
          (report (exception_cause f.int_no) f)
  unfolding cpu_exception_handler handle_exception is_cpu_exception check
  cpu_exception_handler-Halts f m h e can =
      rw (lt→ltb f.int_no 32 h) (elim (Bool-cases (is_abort (get_class_type f.int_no))) [
        | inl abort ↦ rw abort (
            kpanic_frame-Halts env responsive (codes "CPU interrupt of class abort.") f m
              (omega arith) can)
        | inr other ↦
            let none_yet : get_elem? m.handlers f.int_no ≡ some none =
              ap (λ hs. get_elem? hs f.int_no) e
              ∙ unhandled f.int_no (omega arith) (λ eq. omega arith) in
            rw (other, none_yet)
              (kpanic_frame-Halts env responsive (codes "CPU interrupt with no handler") f m
                (omega arith) can)
      ])

  -- After `isr::install`, on a responsive port and with the terminal set, an exception without an
  -- error code, of whatever vector, halts with a report that takes the vector as the error code
  -- and 0 as the interrupt number, and has "CPU interrupt with no handler" as its cause, also for
  -- vectors of class abort.
  pub exception_noerr-Halts :
      (vector : ℕ) (r : Registers) (back : Return) (m : Machine)
      → m.handlers ≡ installed
      → m.write ≢ 0
      → Halts
          (cpu_exception_handler env file
            (frame_at (exception_stub_noerr vector r (return_words back)))
            m)
          m
          banner
          (report (codes "CPU interrupt with no handler") (frame r vector 0 back))
  unfolding get_class_type
  exception_noerr-Halts vector r back m e can =
      rw ((frame_at-exception_stub vector 0 r back).1)
        (cpu_exception_handler-Halts (frame r vector 0 back) m (omega arith) e can)

  irq_line-Writes :
      (vector : ℕ)
      → Writes
          (codes "IRQ %d received but has no handler\n")
          (word vector ∷ [])
          (irq_line vector)
          100
  irq_line-Writes vector = within (omega arith) (
      plain (codes "IRQ ") refl
        (dec vector (plain (codes " received but has no handler\n") refl nothing)))

  send_eoi_events :
      (vector : ℕ) (m : Machine)
      → 32 ≤ vector
      → vector < 256
      → send_eoi vector m
        ≡ done tt
            (record m { trace = out_byte mpic_command eoi ∷ out_byte spic_command eoi ∷ m.trace })
  unfolding send_eoi outb
  send_eoi_events vector m h lt =
      let slave : leb 8 (vector % 2 ^ 8) ≡ true = ground arith in rw slave refl

  -- After `isr::install`, on a responsive port, an IRQ whose vector is from 32 to 254 and is not
  -- the keyboard's 33 is reported on the serial port, and then, last of all, ended on both
  -- controllers; all else but `use_serial` stays.
  pub irq_unhandled-Acknowledges :
      (vector : ℕ) (r : Registers) (back : Return) (m : Machine)
      → 32 ≤ vector
      → vector < 255
      → vector ≢ 33
      → m.handlers ≡ installed
      → Acknowledges
          (irq_interrupt_handler env file (frame_at (irq_stub vector r (return_words back))) m)
          m
          (record m { use_serial = false })
          []
          (serial_bytes (visible (irq_line vector)))
  unfolding irq_interrupt_handler handle_irq check is_irq_interrupt
  irq_unhandled-Acknowledges vector r back m h lt ne e =
      let ok : (leb 32 vector && ltb vector 256) ≡ true = ground arith in
      let none_yet : get_elem? m.handlers vector ≡ some none =
        ap (λ hs. get_elem? hs vector) e ∙ unhandled vector lt ne in
      let line = dprintf-Writes env responsive m (irq_line-Writes vector) (omega arith) in
      rw (frame_at-irq_stub vector r back, ok, none_yet, line.returns)
        (record {
          before = line.final;
          returns = send_eoi_events vector _ h (omega arith);
          shows = line.shows;
          sends = line.sends;
        })

  -- After `isr::install`, on a responsive port, with the terminal set, and with `use_serial` false
  -- if the scan code read is the backspace's 0x0E, the IRQ of vector 33 turns the switches by the
  -- scan code that it reads, shows what the code types, sends nothing over the serial port, and is
  -- ended on both controllers last of all.
  pub irq_keyboard-Acknowledges :
      (r : Registers) (back : Return) (k : Switches) (m : Machine)
      → m.handlers ≡ installed
      → (env.reads m.trace data_port ≡ 0x0E → m.use_serial ≡ false)
      → m.write ≢ 0
      → Acknowledges
          (irq_interrupt_handler env file
            (frame_at (irq_stub 33 r (return_words back)))
            (with_switches k m))
          m
          (with_switches (turned (env.reads m.trace data_port) k) m)
          (typed (env.reads m.trace data_port) k)
          []
  unfolding irq_interrupt_handler handle_irq check is_irq_interrupt
  irq_keyboard-Acknowledges r back k m e terminal can =
      let keyboard : get_elem? m.handlers 33 ≡ some (some keyboard_irq_handler) =
        ap (λ hs. get_elem? hs 33) e in
      let run = Shift.irq_handler-Runs env responsive k m terminal can in
      rw (frame_at-irq_stub 33 r back, keyboard, run.returns)
        (record {
          before = run.final;
          returns = send_eoi_events 33 _ (omega arith) (omega arith);
          shows = run.shows;
          sends = run.sends;
        })

  -- After `isr::install` an IRQ of vector 255 passes the test for an IRQ, and reading its handler
  -- goes past the end of the array.
  pub irq_255-faults :
      (r : Registers) (back : Return) (m : Machine)
      → m.handlers ≡ installed
      → irq_interrupt_handler env file (frame_at (irq_stub 255 r (return_words back))) m
        ≡ stopped fault m
  unfolding irq_interrupt_handler handle_irq check is_irq_interrupt
  irq_255-faults r back m e =
      let beyond : get_elem? m.handlers 255 ≡ none = ap (λ hs. get_elem? hs 255) e in
      rw (frame_at-irq_stub 255 r back, beyond) refl
