-- ===== src/Printf/Float/General.antt =====
-- `_etoa` (kernel/logging.cpp) in the `%g` form, with FLAGS_ADAPT_EXP, in terms of the other two forms.
use mega_os.Prelude.{
  ℕ, ◌-◌, ◌≡◌, refl, Bool, true, false, ◌&&◌, not, arith, ltb, if◌then◌else◌, bind-pure, ℤ, exceeds,
  distance, as_int,
}
use mega_os.Printf.Double.{Double}
use mega_os.Printf.Output.{OutFct, Flags}
use mega_os.Printf.Fixed.{precision_of}
use mega_os.Printf.Exponential.{float_width, decimal_exponent, style, out_exponent, etoa_with}
use mega_os.Printf.Float.{ftoa, etoa}
use mega_os.Printf.Float.Special.{is_special}
use mega_os.Printf.Float.Reduced.{without_sign}

-- The decimals that so many significant figures leave for a number of this exponent.
abbrev pub decimals_of : ℕ → ℤ → ℕ
decimals_of figures e = if exceeds (as_int figures) e then distance (as_int figures) e - 1 else 0

float_width_zero : (width : ℕ) (flags : Flags) → float_width width 0 flags ≡ width
unfolding float_width
float_width_zero width flags = ground arith

module _ {ℓ} {W : Type ℓ} ⦃d : Double W⦄ where
  -- `(value >= 1e-4) && (value < 1e6)`
  abbrev pub in_window : W → Bool
  in_window value = not (d.lt value (d.literal 1 4)) && d.lt value (d.literal 1000000 0)

  module _ {κ} {S : Type κ} (out : OutFct S) (maxlen fuel idx : ℕ) (value : W) (prec width : ℕ)
      (flags : Flags) (s : S) (finite : is_special value ≡ false) where
    general-fixed :
        in_window (without_sign value) ≡ true
        → etoa out maxlen fuel true idx value prec width flags s
          ≡ ftoa out maxlen fuel false idx
              (if d.lt value (d.literal 0 0)
                then d.neg (without_sign value)
                else without_sign value)
              (decimals_of (precision_of prec flags) (decimal_exponent (without_sign value)).0)
              width
              (record flags { has_precision = true })
              s
    unfolding etoa etoa_with style out_exponent
    general-fixed window = rw (finite, window, float_width_zero width flags) (bind-pure _)

    general-scientific :
        in_window (without_sign value) ≡ false
        → etoa out maxlen fuel true idx value prec width flags s
          ≡ etoa out maxlen fuel false idx value
              (if flags.has_precision then prec - 1 else prec)
              width
              flags
              s
    unfolding etoa etoa_with style
    general-scientific outside =
        let same : (if ltb 0 (precision_of prec flags) && flags.has_precision
              then precision_of prec flags - 1
              else precision_of prec flags)
            ≡ precision_of (if flags.has_precision then prec - 1 else prec) flags =
          ground arith in
        rw (finite, outside, same) refl

    -- For a value that is no infinity and equals itself, `_etoa` with FLAGS_ADAPT_EXP is `_ftoa`
    -- with the decimals that the significant figures leave, if the value without its sign is at
    -- least 10^-4 and below 10^6, and is else `_etoa` without that flag and, if a precision is
    -- given, with one decimal less.
    pub etoa-general :
        (in_window (without_sign value) ≡ true
          → etoa out maxlen fuel true idx value prec width flags s
            ≡ ftoa out maxlen fuel false idx
                (if d.lt value (d.literal 0 0)
                  then d.neg (without_sign value)
                  else without_sign value)
                (decimals_of (precision_of prec flags) (decimal_exponent (without_sign value)).0)
                width
                (record flags { has_precision = true })
                s)
        × (in_window (without_sign value) ≡ false
            → etoa out maxlen fuel true idx value prec width flags s
              ≡ etoa out maxlen fuel false idx value
                  (if flags.has_precision then prec - 1 else prec)
                  width
                  flags
                  s)
    etoa-general = (general-fixed, general-scientific)
