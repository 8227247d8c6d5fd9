-- ===== src/Printf/Float/Reduced.antt =====
-- What `_etoa` (kernel/logging.cpp) hands to `_ftoa`, and how it goes on.
use mega_os.Prelude.{◌⊎◌, ℕ, suc, ◌≡◌, refl, true, false, if◌then◌else◌, bind, ℤ, is_zero}
use mega_os.Printf.Double.{Double}
use mega_os.Printf.Output.{OutFct, Flags}
use mega_os.Printf.Fixed.{precision_of}
use mega_os.Printf.Exponential.{float_width, decimal_exponent, style, out_exponent, etoa_with}
use mega_os.Printf.Float.{ftoa, etoa}
use mega_os.Printf.Float.Special.{is_special}
use mega_os.Printf.Float.Standard.{InRange}
use mega_os.Printf.Float.Exponent.{exponent_width, scientific}

module _ {ℓ} {W : Type ℓ} ⦃d : Double W⦄ where
  -- `if (negative) value = -value;` of `_etoa`
  abbrev pub without_sign : W → W
  without_sign value = if d.lt value (d.literal 0 0) then d.neg value else value

  -- The number that is written before the exponent: the value divided by its power of ten.
  abbrev pub significand : W → ℤ → W → W
  significand value e power =
      let scaled = if is_zero e then without_sign value else d.div (without_sign value) power in
      if d.lt value (d.literal 0 0) then d.neg scaled else scaled

  -- The value that `_etoa` hands to `_ftoa`.
  abbrev pub reduced : W → W
  reduced value =
      let (e, power) = decimal_exponent (without_sign value) in significand value e power

  -- A special value, or one that dividing by its power of ten brings into the range of `_ftoa`.
  abbrev pub IsReducible : W → Type 0
  IsReducible value = (is_special value ≡ true) ⊎ InRange (reduced value)

  module _ {κ} {S : Type κ} (out : OutFct S) (maxlen fuel idx : ℕ) (value : W) (prec width : ℕ)
      (flags : Flags) (s : S) (e : ℤ) (power : W) where
    abbrev p : ℕ
    p = precision_of prec flags

    pub etoa-bind :
        is_special value ≡ false
        → decimal_exponent (without_sign value) ≡ (e, power)
        → etoa out maxlen (suc fuel) false idx value prec width flags s
          ≡ bind
              (ftoa out maxlen
                (suc fuel)
                false
                idx
                (significand value e power)
                p
                (float_width width (exponent_width e) flags)
                flags
                s)
              (out_exponent out maxlen (scientific p e flags) idx width)
    unfolding etoa etoa_with style
    etoa-bind finite decimal = rw (finite, decimal) refl
