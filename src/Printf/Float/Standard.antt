-- ===== src/Printf/Float/Standard.antt =====
-- `_ftoa` (kernel/logging.cpp) on the values that it writes without an exponent.
use mega_os.Prelude.{ℕ, suc, ◌^◌, ◌≤◌, ◌<◌, ◌≡◌, ◌∙◌, Bool, true, false}
use mega_os.Printf.Double.{Double}
use mega_os.Printf.Output.{OutFct, Flags, emit}
use mega_os.Printf.Integer.Field.{padded_field}
use mega_os.Printf.Fixed.{ftoa_buffer_size, precision_of, magnitude, parts, ftoa_fixed}
use mega_os.Printf.Fixed.Text.{digits, fixed_text}
use mega_os.Printf.Fixed.Standard.{ftoa_fixed-standard}
use mega_os.Printf.Float.{max_float, ftoa}

module _ {ℓ} {W : Type ℓ} ⦃d : Double W⦄ where
  -- A number between -`PRINTF_MAX_FLOAT` and `PRINTF_MAX_FLOAT`.
  abbrev pub InRange : W → Type 0
  InRange value =
      (d.eq value value ≡ true)
      × (d.lt value (d.neg d.dbl_max) ≡ false)
      × (d.lt d.dbl_max value ≡ false)
      × (d.lt max_float value ≡ false)
      × (d.lt value (d.neg max_float) ≡ false)

  module _ {κ} {S : Type κ} (out : OutFct S) (maxlen fuel : ℕ) (adapt : Bool) (idx : ℕ) (value : W)
      (prec width : ℕ) (flags : Flags) (s : S) where
    pub ftoa-fixed :
        InRange value
        → ftoa out maxlen (suc fuel) adapt idx value prec width flags s
          ≡ ftoa_fixed out maxlen idx value prec width flags s
    unfolding ftoa
    ftoa-fixed (number, not_below, not_above, not_large, not_small) =
        rw (number, not_below, not_above, not_large, not_small)

    -- For every output function, index below 2^64, width below 2^32 (at most 32 with the flag `0`), a precision
    -- of at most 20 and a value in the range, if rounding gives a whole part below 10^10 and a fraction with
    -- no more digits than kept, `_ftoa` writes the field with these two.
    pub ftoa-standard :
        (whole frac : ℕ)
        → InRange value
        → idx < 2 ^ 64
        → width < 2 ^ 32
        → (flags.zeropad ≡ true → width ≤ ftoa_buffer_size)
        → precision_of prec flags ≤ 20
        → parts (magnitude value) (digits prec flags) (d.literal (10 ^ digits prec flags) 0)
          ≡ (whole, frac)
        → whole < 10 ^ 10
        → (0 < digits prec flags → frac < 10 ^ digits prec flags)
        → ftoa out maxlen (suc fuel) adapt idx value prec width flags s
          ≡ emit out maxlen
              (padded_field
                (d.lt value (d.literal 0 0))
                0
                width
                flags
                (fixed_text (precision_of prec flags) whole frac))
              idx
              s
    ftoa-standard whole frac range start narrow short_width short_prec rounds int below =
        ftoa-fixed range
        ∙ ftoa_fixed-standard out maxlen idx value prec width flags whole frac s start narrow
            short_width short_prec rounds int below
