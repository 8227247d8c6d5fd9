-- ===== src/Frames/Layout.antt =====
-- Which word of the stack each handler reads as which field.
use mega_os.Prelude.{ℕ, ◌≡◌, refl, ◌∷◌, some}
use mega_os.Frames.{
  Registers, InterruptFrame, Return, return_words, exception_stub_noerr, exception_stub_err,
  irq_stub, frame_at,
}

-- The frame with these two words, on return words and registers.
abbrev pub frame : Registers → ℕ → ℕ → Return → InterruptFrame
frame r err_code int_no back = record {
  gprs = r;
  err_code = err_code;
  int_no = int_no;
  rip = back.rip;
  cs = back.cs;
  rflags = back.rflags;
  rsp = back.rsp;
  ss = back.ss;
}

-- The frame of an IRQ has the vector as its interrupt number, the error code 0, and every register.
pub frame_at-irq_stub :
    (vector : ℕ) (r : Registers) (back : Return)
    → frame_at (irq_stub vector r (return_words back)) ≡ some (frame r 0 vector back)
unfolding frame_at irq_stub
frame_at-irq_stub vector r back = refl

-- The frame of an exception has the two words the other way round: the vector is read as the error
-- code, and the error code, or 0 where there is none, as the interrupt number.
pub frame_at-exception_stub :
    (vector error : ℕ) (r : Registers) (back : Return)
    → (frame_at (exception_stub_err vector r (error ∷ return_words back))
        ≡ some (frame r vector error back))
      × (frame_at (exception_stub_noerr vector r (return_words back))
          ≡ some (frame r vector 0 back))
unfolding frame_at exception_stub_err exception_stub_noerr
frame_at-exception_stub vector error r back = (refl, refl)
