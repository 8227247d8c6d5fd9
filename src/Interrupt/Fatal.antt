-- ===== src/Interrupt/Fatal.antt =====
-- An exception while the kernel runs: `handle_isr_common` of kernel/arch/x86_64/isr.asm around the handler.
use mega_os.Prelude.{
  false, ℕ, ◌<◌, ◌≢◌, ◌^◌, refl, sym, subst, List, ◌∷◌, codes, length, pure, ◌>>=◌, ◌>>◌, Outcome,
}
use mega_os.Machine.{Env, Kernel, Machine, Event}
use mega_os.Serial.Send.{Responsive}
use mega_os.Panic.Halts.{Halts}
use mega_os.Panic.Report.{banner}
use mega_os.Frames.{
  Context, return_words, exception_stub_noerr, exception_stub_err, frame_at, leave_stub,
}
use mega_os.Frames.Layout.{frame}
use mega_os.Isr.{cpu_exception_handler}
use mega_os.Isr.Dispatch.{report, exception_noerr-Halts}
use mega_os.Isr.Assertion.{Halts-bind, frame_banner, frame_log, exception_err-Halts}
use mega_os.Keyboard.Shift.{Switches}
use mega_os.Interrupt.{enter, resume}
use mega_os.Interrupt.Life.{Reach, Reach-Lives, up, turned_all}

-- An exception, over the stack that its stub has built.
unfoldable pub take_exception : Env → List ℕ → List ℕ → Kernel (Unit {0})
take_exception env file words = do
  enter
  cpu_exception_handler env file (frame_at words)
  back ← resume (leave_stub words)
  pure tt

-- What the two kinds of exception show and send in a state.
pub record IsFatal (env : Env) (file : List ℕ) (vector error : ℕ) (c : Context) (u : Machine)
    : Type 0 where
  pub without_error :
      Halts
        (take_exception env file (exception_stub_noerr vector c.gprs (return_words c.back)) u)
        u
        banner
        (report (codes "CPU interrupt with no handler") (frame c.gprs vector 0 c.back))
  pub with_error :
      Halts
        (take_exception env file (exception_stub_err vector c.gprs (error ∷ return_words c.back)) u)
        u
        (frame_banner (frame c.gprs vector error c.back))
        (frame_log file (frame c.gprs vector error c.back))

entered :
    {o : Outcome Machine (Unit {0})} {u : Machine} {chars sent : List ℕ}
    → Halts o (record u { interrupts_on = false }) chars sent
    → Halts o u chars sent
entered h = record { final = h.final; halts = h.halts; shows = h.shows; sends = h.sends }

module _ (env : Env) (file : List ℕ) (responsive : Responsive env) (m : Machine) (k : Switches)
    (t : List Event) (terminal : m.write ≢ 0) where
  up-IsFatal :
      (vector error : ℕ) (c : Context) (k' : Switches) (t' : List Event)
      → length file < 2 ^ 32
      → IsFatal env file vector error c (up m k' t')
  unfolding take_exception
  up-IsFatal vector error c k' t' hf =
      let m' = record (up m k' t') { interrupts_on = false } in
      record {
        without_error = entered (
            Halts-bind _
              (exception_noerr-Halts env file responsive vector c.gprs c.back m' refl terminal));
        with_error = entered (
            Halts-bind _ (
              exception_err-Halts env file responsive vector error c.gprs c.back m' refl terminal
                hf));
      }

  -- On a responsive port, with a file name shorter than 2^32, in every state that requests lead to
  -- from one in which the kernel is up with its terminal set, an exception of any vector halts
  -- with interrupts off: without an error code after the panic's line and a report that has the
  -- vector as the error code; with an error code below 32 after the panic's line and a report that
  -- names the exception of that number, and otherwise after the line of the failed assertion on
  -- the serial port alone.
  pub Reach-IsFatal :
      {scanned : List ℕ} {u : Machine} (vector error : ℕ) (c : Context)
      → Reach env file (up m k t) scanned u
      → length file < 2 ^ 32
      → IsFatal env file vector error c u
  Reach-IsFatal {scanned} vector error c r hf =
      let lives = Reach-Lives env file responsive m k t terminal r in
      subst (IsFatal env file vector error c) (sym lives.is_up)
        (up-IsFatal vector error c (turned_all scanned k) lives.trace hf)
