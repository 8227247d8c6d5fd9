-- ===== src/Isr/Assertion.antt =====
-- The assertions of kernel/definitions.hpp in a build that has them, and what becomes of the exceptions
-- whose frame fails the one of `cpu_exception_handler`.
use mega_os.Prelude.{
  ℕ, ◌+◌, ◌<◌, ◌^◌, ◌≢◌, ◌≡◌, refl, false, List, [], ◌∷◌, ◌++◌, some, length, arith, codes, ltb,
  Outcome, bind, if◌then◌else◌, Bool-cases, inl, inr, ltb→lt, append-nil, subst,
}
use mega_os.Machine.{Env, Machine, Kernel, halt_cpu}
use mega_os.Serial.Send.{Responsive}
use mega_os.Printf.Directive.{word, str}
use mega_os.Printf.Format.Pieces.{plain, chars, dec, nothing, Writes, dec_text}
use mega_os.Log.Delivery.{serial_bytes, visible}
use mega_os.Log.Printf.{dprintf-Writes}
use mega_os.Panic.Halts.{Halts, Halts-after, halt_cpu-Halts}
use mega_os.Panic.Report.{banner}
use mega_os.Frames.{Registers, InterruptFrame, Return, return_words, exception_stub_err, frame_at}
use mega_os.Frames.Layout.{frame, frame_at-exception_stub}
use mega_os.Isr.{check, cpu_exception_handler, handle_exception, is_cpu_exception}
use mega_os.Isr.Dispatch.{installed, report, exception_cause, cpu_exception_handler-Halts}

-- The line that a failed assertion sends; it has no newline.
abbrev pub assertion_line : List ℕ → List ℕ → ℕ → List ℕ
assertion_line expr file line =
    codes "\u{1b}[31mAssertion failed: "
    ++ (expr ++ (codes " at " ++ (file ++ (codes ", line " ++ dec_text line))))

assertion_line-Writes :
    (expr file : List ℕ) (line : ℕ)
    → length expr < 2 ^ 32
    → length file < 2 ^ 32
    → Writes
        (codes "\u{1b}[31mAssertion failed: %s at %s, line %d")
        (str 0 expr ∷ str 0 file ∷ word line ∷ [])
        (assertion_line expr file line)
        (23 + (length expr + (4 + (length file + (7 + (32 + 0))))))
assertion_line-Writes expr file line he hf = plain (codes "\u{1b}[31mAssertion failed: ") refl (
    chars 0 expr he (
      plain (codes " at ") refl (
        chars 0 file hf (
          plain (codes ", line ") refl (
            subst (λ t. Writes (codes "%d" ++ []) (word line ∷ []) t (32 + 0)) (append-nil _)
              (dec line nothing))))))

-- What an exception's frame shows, and what it sends.
abbrev pub frame_banner : InterruptFrame → List ℕ
frame_banner f = if ltb f.int_no 32 then banner else []

abbrev pub frame_log : List ℕ → InterruptFrame → List ℕ
frame_log file f =
    if ltb f.int_no 32
    then report (exception_cause f.int_no) f
    else serial_bytes (visible (assertion_line (codes "is_cpu_exception(frame->int_no)") file 126))

-- What follows a halt does not run.
pub Halts-bind :
    {o : Outcome Machine (Unit {0})} {m : Machine} {chars sent : List ℕ}
    (f : Unit {0} → Kernel (Unit {0}))
    → Halts o m chars sent
    → Halts (bind o f) m chars sent
Halts-bind f h = record {
  final = h.final;
  halts = rw h.halts refl;
  shows = h.shows;
  sends = h.sends;
}

module _ (env : Env) (file : List ℕ) (responsive : Responsive env) where
  -- A failed assertion sends its line and halts.
  pub check-Halts :
      (expr : List ℕ) (line : ℕ) (m : Machine)
      → length expr < 2 ^ 32
      → length file < 2 ^ 32
      → Halts
          (check env file false expr line m)
          m
          []
          (serial_bytes (visible (assertion_line expr file line)))
  unfolding check
  check-Halts expr line m he hf =
      subst (Halts (check env file false expr line m) m []) (append-nil _) (
        Halts-after (λ ret. halt_cpu)
          (dprintf-Writes env responsive m (assertion_line-Writes expr file line he hf)
            (omega arith))
          (λ t. halt_cpu-Halts env responsive _ refl))

  -- A frame whose interrupt number is not below 32 fails the assertion, so the report is that line.
  failed-Halts :
      (f : InterruptFrame) (m : Machine)
      → ltb f.int_no 32 ≡ false
      → length file < 2 ^ 32
      → Halts (cpu_exception_handler env file (some f) m) m [] (
          serial_bytes
            (visible (assertion_line (codes "is_cpu_exception(frame->int_no)") file 126)))
  unfolding cpu_exception_handler handle_exception is_cpu_exception
  failed-Halts f m beyond hf =
      rw beyond (
        Halts-bind _ (check-Halts (codes "is_cpu_exception(frame->int_no)") 126 m (omega arith) hf))

  -- After `isr::install`, on a responsive port, with the terminal set and a file name shorter than
  -- 2^32, an exception with an error code halts, whatever its vector: with an error code below 32
  -- after the panic's line and a report that names the exception of that number, and otherwise
  -- with nothing on the terminal, after the line of the failed assertion on the serial port.
  pub exception_err-Halts :
      (vector error : ℕ) (r : Registers) (back : Return) (m : Machine)
      → m.handlers ≡ installed
      → m.write ≢ 0
      → length file < 2 ^ 32
      → Halts
          (cpu_exception_handler env file
            (frame_at (exception_stub_err vector r (error ∷ return_words back)))
            m)
          m
          (frame_banner (frame r vector error back))
          (frame_log file (frame r vector error back))
  exception_err-Halts vector error r back m e can hf =
      rw ((frame_at-exception_stub vector error r back).0) (elim (Bool-cases (ltb error 32)) [
        | inl named ↦ rw named (
            cpu_exception_handler-Halts env file responsive (frame r vector error back) m
              (ltb→lt _ _ named) e can)
        | inr beyond ↦ rw beyond (failed-Halts (frame r vector error back) m beyond hf)
      ])
