-- ===== src/Printf/Float/Faults.antt =====
-- What `_ftoa` (kernel/logging.cpp) does past its table of powers, and where a fraction that is rounded up
-- has one digit too many.
use native.Mathlib.Nat.{le_trans}
use Prim.Native.Nat.{suc-le-suc}
use mega_os.Prelude.{
  ℕ, suc, ◌+◌, ◌-◌, ◌*◌, ◌/◌, ◌%◌, ◌^◌, ◌≤◌, ◌<◌, ◌≡◌, refl, ◌∙◌, Bool, true, false, [], arith, ltb,
  min, stopped, fault,
}
use mega_os.Printf.Double.{Double}
use mega_os.Printf.Output.{OutFct, Flags, emit}
use mega_os.Printf.Output.Laws.{layout, out_rev-emit}
use mega_os.Printf.Integer.{sign_width}
use mega_os.Printf.Integer.Field.{sign_width-le}
use mega_os.Printf.Fixed.{precision_of, magnitude, pow10, parts, ftoa_fixed}
use mega_os.Printf.Fixed.Text.{limit_precision-replicate}
use mega_os.Printf.Fixed.Rounding.{IsExact, IsWhole, scaled, parts_tie}
use mega_os.Printf.Fixed.Overflow.{overflowed, length-overflowed, float_buffer-overflowed}
use mega_os.Printf.Float.{ftoa}
use mega_os.Printf.Float.Standard.{InRange, ftoa-fixed}

module _ {ℓ κ} {W : Type ℓ} ⦃d : Double W⦄ {S : Type κ} (out : OutFct S) (maxlen fuel : ℕ)
    (adapt : Bool) (idx : ℕ) (value : W) (prec width : ℕ) (flags : Flags) (s : S) where
  -- A value in the range with a precision of more than 41: the power is read past the end of the table, with
  -- nothing written.
  pub ftoa-past_table :
      InRange value
      → 41 < precision_of prec flags
      → ftoa out maxlen (suc fuel) adapt idx value prec width flags s ≡ stopped fault s
  unfolding ftoa_fixed pow10
  ftoa-past_table range past =
      let p = precision_of prec flags in
      let outside : ltb (p - min 32 (p - 9)) 10 ≡ false = ground arith in
      ftoa-fixed out maxlen fuel adapt idx value prec width flags s range
      ∙ rw (limit_precision-replicate 32 p [] (omega arith), outside) refl

  abbrev p : ℕ
  p = precision_of prec flags

  abbrev scale : W
  scale = d.literal (10 ^ p) 0

  ftoa_fixed-overflowed :
      idx < 2 ^ 64
      → width < 2 ^ 32
      → 0 < p
      → p ≤ 9
      → (whole : ℕ) → parts (magnitude value) p scale ≡ (whole, 10 ^ p)
      → ftoa_fixed out maxlen idx value prec width flags s
        ≡ emit out maxlen
            (layout (overflowed p) (sign_width (d.lt value (d.literal 0 0)) width flags) flags)
            idx
            s
  unfolding ftoa_fixed pow10
  ftoa_fixed-overflowed start narrow some_digits short whole rounds =
      let left : p - min 32 (p - 9) ≡ p = omega arith in
      let first : min 32 (p - 9) ≡ 0 = omega arith in
      let in_table : ltb p 10 ≡ true = ground arith in
      let negative = d.lt value (d.literal 0 0) in
      rw
        (
          limit_precision-replicate 32 p [] (omega arith),
          left,
          first,
          in_table,
          rounds,
          float_buffer-overflowed negative whole p (sign_width negative width flags) flags
              some_digits (omega arith),
        )
        (out_rev-emit out maxlen idx (overflowed p) _ flags s start
          (le_trans (suc-le-suc (sign_width-le negative width flags)) narrow)
          (omega (arith, length-overflowed p (omega arith))))

  -- For every output function, index below 2^64, width below 2^32, a precision from 1 to 9 and a
  -- value in the range that `_ftoa` writes without an exponent, if the fraction times its power of
  -- ten is exactly half a unit of a digit below the next whole number, `_ftoa` writes, between the
  -- spaces of the width, 32 characters without a point, zeros but for one 1, whatever the whole
  -- part and the sign.
  pub ftoa-overflowed :
      (unit num : ℕ)
      → InRange value
      → idx < 2 ^ 64
      → width < 2 ^ 32
      → 0 < p
      → p ≤ 9
      → 0 < unit
      → IsExact unit num (scaled (magnitude value) scale)
      → IsWhole (10 ^ p) scale
      → num < 10 ^ p * unit
      → 2 * (num % unit) ≡ unit
      → num / unit + 1 ≡ 10 ^ p
      → ftoa out maxlen (suc fuel) adapt idx value prec width flags s
        ≡ emit out maxlen
            (layout (overflowed p) (sign_width (d.lt value (d.literal 0 0)) width flags) flags)
            idx
            s
  ftoa-overflowed unit num range start narrow some_digits short some_unit exact base below tie
        last =
      ftoa-fixed out maxlen fuel adapt idx value prec width flags s range
      ∙ ftoa_fixed-overflowed start narrow some_digits short _ (
          parts_tie unit num p (magnitude value) scale some_unit some_digits exact base below tie
            last)
