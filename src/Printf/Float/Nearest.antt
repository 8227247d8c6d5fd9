-- ===== src/Printf/Float/Nearest.antt =====
-- `_ftoa` (kernel/logging.cpp) on a value with decimals: which number it writes.
use native.Mathlib.Nat.{mod-add-div', mod-lt, mul-lt-mul_of_pos_right, one-le-pow}
use mega_os.Prelude.{
  ℕ, suc, ◌+◌, ◌*◌, ◌/◌, ◌%◌, ◌^◌, ◌≤◌, ◌<◌, ◌≡◌, refl, Bool, true, arith, inl, inr, subst, ap,
}
use mega_os.Printf.Double.{Double}
use mega_os.Printf.Output.{OutFct, Flags, emit}
use mega_os.Printf.Integer.Field.{padded_field}
use mega_os.Printf.Fixed.{ftoa_buffer_size, precision_of, magnitude, parts}
use mega_os.Printf.Fixed.Text.{digits, fixed_text}
use mega_os.Printf.Fixed.Rounding.{
  IsExact, IsWhole, scaled, IsNearest, parts-IsNearest, parts-lt, parts-whole-le,
}
use mega_os.Printf.Float.{ftoa}
use mega_os.Printf.Float.Standard.{InRange, ftoa-standard}

-- How much each `Number` is worth, where these are the doubles from 0 up to some bound: a number of
-- `unit`s, as which it is read; what subtracting the whole part leaves; twice a number below 1; and
-- the product of two numbers, if that is a number. IEEE 754 has it so. The whole part, the fraction
-- and its double, again and again, are the binary digits of a number, so it has only one worth.
pub record IsValuation {ℓ} {W : Type ℓ} ⦃d : Double W⦄ (unit : ℕ) (Number : W → Type 0)
    (worth : W → ℕ) : Type ℓ where
  pub some_unit : 0 < unit
  pub reads : (x : W) → Number x → IsExact unit (worth x) x
  pub fraction :
      (x : W)
      → Number x
      → Number (d.sub x (d.of_nat (d.truncated x)))
        × (worth (d.sub x (d.of_nat (d.truncated x))) ≡ worth x % unit)
  pub doubled :
      (x : W)
      → Number x
      → worth x < unit
      → Number (d.mul x (d.of_nat 2)) × (worth (d.mul x (d.of_nat 2)) ≡ 2 * worth x)
  pub product :
      (x y z : W)
      → Number x
      → Number y
      → Number z
      → worth x * worth y ≡ worth z * unit
      → Number (d.mul x y) × (worth (d.mul x y) ≡ worth z)

module _ {ℓ κ} {W : Type ℓ} ⦃d : Double W⦄ {S : Type κ} (out : OutFct S) (maxlen fuel : ℕ)
    (adapt : Bool) (idx : ℕ) (value : W) (prec width : ℕ) (flags : Flags) (s : S) where
  abbrev base : ℕ
  base = 10 ^ digits prec flags

  abbrev scale : W
  scale = d.literal base 0

  abbrev whole : ℕ
  whole = d.truncated (magnitude value)

  -- A field is written with a decimal number that is within half of its last digit of the target.
  abbrev Written : ℕ → ℕ → Type κ
  Written unit target =
      (w f : ℕ) × IsNearest unit base target (w, f)
      × (f < base)
      × (ftoa out maxlen (suc fuel) adapt idx value prec width flags s
          ≡ emit out maxlen
              (padded_field (d.lt value (d.literal 0 0)) 0 width flags
                (fixed_text (precision_of prec flags) w f))
              idx s)

  rounded-IsNearest :
      (unit num : ℕ)
      → InRange value
      → idx < 2 ^ 64
      → width < 2 ^ 32
      → (flags.zeropad ≡ true → width ≤ ftoa_buffer_size)
      → 0 < precision_of prec flags
      → precision_of prec flags ≤ 20
      → whole ≤ 10 ^ 9
      → 0 < unit
      → IsExact unit num (scaled (magnitude value) scale)
      → IsWhole base scale
      → num < base * unit
      → (2 * (num % unit) ≡ unit → num / unit + 1 < base)
      → Written unit (whole * (base * unit) + num)
  rounded-IsNearest unit num range start narrow short_width some_digits short small some_unit exact
        power below no_tie =
      let some_kept : 0 < digits prec flags = omega arith in
      let rounded = parts (magnitude value) (digits prec flags) scale in
      let fraction : rounded.1 < base =
        elim (parts-lt unit num (digits prec flags) (magnitude value) scale some_unit some_kept
          exact power below) [
            | inl less ↦ less
            | inr (tie, last, overflow) ↦ absurd (omega (arith, no_tie tie))
          ] in
      let int : rounded.0 < 10 ^ 10 = omega (
        arith,
        parts-whole-le unit num (digits prec flags) (magnitude value) scale some_unit some_kept
            exact power below,
      ) in
      (
        rounded.0,
        rounded.1,
        parts-IsNearest unit num (digits prec flags) (magnitude value) scale some_unit some_kept
            exact power below,
        fraction,
        ftoa-standard out maxlen fuel adapt idx value prec width flags s rounded.0 rounded.1 range
            start narrow short_width short refl int (λ e. fraction),
      )

  module _ {unit : ℕ} {Number : W → Type 0} {worth : W → ℕ}
      (valuation : IsValuation unit Number worth) (z : W) (Number-value : Number (magnitude value))
      (Number-scale : Number scale) (Number-z : Number z) (worth-scale : worth scale ≡ base * unit)
      (worth-z : worth z ≡ worth (magnitude value) % unit * base) where
    product_eq :
        Number (scaled (magnitude value) scale) × (worth (scaled (magnitude value) scale) ≡ worth z)
    product_eq =
        let (Number-part, worth-part) = valuation.fraction (magnitude value) Number-value in
        valuation.product _ scale z Number-part Number-scale Number-z
          (rw (worth-part, worth-scale, worth-z) (omega arith))

    scaled-IsExact : IsExact unit (worth z) (scaled (magnitude value) scale)
    scaled-IsExact =
        subst (λ n. IsExact unit n (scaled (magnitude value) scale)) product_eq.1
          (valuation.reads _ product_eq.0)

    target_eq : whole * (base * unit) + worth z ≡ worth (magnitude value) * base
    target_eq =
        rw ((valuation.reads (magnitude value) Number-value).0, worth-z)
          (omega (arith, ap (λ (n : ℕ). n * base) (mod-add-div' (worth (magnitude value)) unit)))

    below : worth z < base * unit
    below =
        let less : worth (magnitude value) % unit * base < unit * base =
          mul-lt-mul_of_pos_right (mod-lt (worth (magnitude value)) valuation.some_unit)
            (one-le-pow (digits prec flags) 10 (omega arith)) in
        rw worth-z (omega (arith, less))

  -- For every output function, index below 2^64 and width below 2^32 (at most 32 with the flag
  -- `0`), a precision from 1 to 20 and a value in the range that `_ftoa` writes without an
  -- exponent, with a whole part of at most 10^9: if the doubles that are not negative are worth
  -- some number of units as IEEE 754 has it (`IsValuation`), the fraction of the value without its
  -- sign times the power of ten is itself such a double, so that the product is not rounded, and
  -- it is not just half a digit below the next whole number, `_ftoa` writes a field (sign,
  -- padding, the number) with a decimal number of that precision that is within half of its last
  -- digit (the ninth, beyond nine) of what the value without its sign is worth.
  pub ftoa-IsNearest :
      {unit : ℕ} {Number : W → Type 0} {worth : W → ℕ} (z : W)
      → IsValuation unit Number worth
      → InRange value
      → idx < 2 ^ 64
      → width < 2 ^ 32
      → (flags.zeropad ≡ true → width ≤ ftoa_buffer_size)
      → 0 < precision_of prec flags
      → precision_of prec flags ≤ 20
      → whole ≤ 10 ^ 9
      → Number (magnitude value)
      → Number scale
      → Number z
      → worth scale ≡ base * unit
      → IsWhole base scale
      → worth z ≡ worth (magnitude value) % unit * base
      → (2 * (worth z % unit) ≡ unit → worth z / unit + 1 < base)
      → (w f : ℕ) × IsNearest unit base (worth (magnitude value) * base) (w, f)
        × (f < base)
        × (ftoa out maxlen (suc fuel) adapt idx value prec width flags s
            ≡ emit out maxlen
                (padded_field
                  (d.lt value (d.literal 0 0))
                  0
                  width
                  flags
                  (fixed_text (precision_of prec flags) w f))
                idx
                s)
  ftoa-IsNearest {unit} {Number} {worth} z valuation range start narrow short_width some_digits
        short small is_value is_scale is_z scale_worth power z_worth no_tie =
      subst (Written unit) (target_eq valuation z is_value is_scale is_z scale_worth z_worth) (
        rounded-IsNearest unit (worth z) range start narrow short_width some_digits short small
          valuation.some_unit
          (scaled-IsExact valuation z is_value is_scale is_z scale_worth z_worth) power
          (below valuation z is_value is_scale is_z scale_worth z_worth) no_tie)
