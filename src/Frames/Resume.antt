-- ===== src/Frames/Resume.antt =====
-- What the stubs restore behind the call of a handler.
use mega_os.Prelude.{ℕ, ◌≡◌, refl, ◌∷◌, some}
use mega_os.Frames.{
  Context, return_words, exception_stub_noerr, exception_stub_err, irq_stub, leave_stub, popa64,
}

-- What follows the call in the stubs gives back, over the stack that any of the three kinds of
-- stub has built, the registers and the return words that it was built from, whatever the vector
-- and the error code.
pub leave_stub-restores :
    (vector error : ℕ) (c : Context)
    → (leave_stub (irq_stub vector c.gprs (return_words c.back)) ≡ some c)
      × (leave_stub (exception_stub_noerr vector c.gprs (return_words c.back)) ≡ some c)
      × (leave_stub (exception_stub_err vector c.gprs (error ∷ return_words c.back)) ≡ some c)
unfolding leave_stub popa64 irq_stub exception_stub_noerr exception_stub_err
leave_stub-restores vector error c = (refl, refl, refl)
