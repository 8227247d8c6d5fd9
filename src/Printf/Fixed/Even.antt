-- ===== src/Printf/Fixed/Even.antt =====
-- How `_ftoa` rounds a value that it writes without decimals (kernel/logging.cpp).
use native.Mathlib.Nat.{mod-add-div', mod-lt, div-eq_of_lt}
use mega_os.Prelude.{
  ℕ, ◌+◌, ◌*◌, ◌/◌, ◌%◌, ◌<◌, ◌≡◌, ◌∙◌, false, ◌&&◌, ◌||◌, not, arith, ltb, ◌==◌, if◌then◌else◌,
  Bool-cases, inl, inr,
}
use mega_os.Printf.Double.{Double}
use mega_os.Printf.Fixed.{half, round_fraction, round_whole, parts}
use mega_os.Printf.Fixed.Rounding.{IsExact, IsWhole, scaled}

-- The whole number nearest to `num / unit`, and of two that are as near the even one.
abbrev pub half_even : ℕ → ℕ → ℕ
half_even unit num =
    if ltb (2 * (num % unit)) unit || (2 * (num % unit) == unit && num / unit % 2 == 0)
    then num / unit
    else num / unit + 1

module _ {ℓ} {W : Type ℓ} ⦃d : Double W⦄ where
  round_whole_eq :
      (unit num whole : ℕ) (value : W)
      → IsExact unit num value
      → round_whole value whole ≡ (
          if not (ltb (2 * num) (2 * (whole * unit) + unit)) && whole % 2 == 1
          then whole + 1
          else whole)
  unfolding round_whole
  round_whole_eq unit num whole value exact =
      rw ((exact.1 whole).0, (exact.1 whole).1) (ground arith)

  -- Without decimals the first rounding goes up only above one half.
  round_fraction-none :
      (unit rest whole : ℕ) (diff scale : W)
      → d.lt half diff ≡ ltb unit (2 * rest)
      → d.lt (d.of_nat 1) scale ≡ false
      → (round_fraction diff scale whole 0).0 ≡ (if ltb unit (2 * rest) then whole + 1 else whole)
  unfolding round_fraction
  round_fraction-none unit rest whole diff scale above one =
      let next : 0 + 1 ≡ 1 = omega arith in rw next (ground (arith, above, one))

  -- Without decimals `_ftoa` rounds a value that is a number of units exactly, and whose fraction
  -- is one, to the nearest whole number, and to the even one of two that are as near.
  pub parts-half_even :
      (unit num : ℕ) (value scale : W)
      → 0 < unit
      → IsExact unit num value
      → IsExact unit (num % unit) (scaled value scale)
      → IsWhole 1 scale
      → (parts value 0 scale).0 ≡ half_even unit num
  unfolding parts
  parts-half_even unit num value scale some_unit exact remainder one =
      let rest = num % unit in
      let whole = num / unit in
      let none : rest / unit ≡ 0 = div-eq_of_lt (mod-lt num some_unit) in
      let zero_whole : 0 * unit ≡ 0 = omega arith in
      let above : d.lt half (d.sub (scaled value scale) (d.of_nat 0)) ≡ ltb unit (2 * rest) =
        (remainder.1 0).1 ∙ ground (arith, zero_whole) in
      let once = if ltb unit (2 * rest) then whole + 1 else whole in
      rw
        (
          remainder.0,
          none,
          round_fraction-none unit rest (d.truncated value) _ scale above (one 1),
          exact.0,
          round_whole_eq unit num once value exact,
        )
        (elim (Bool-cases (ltb unit (2 * rest))) [
          | inl up ↦ rw up (ground (arith, mod-add-div' num unit))
          | inr down ↦ rw down (ground (arith, mod-add-div' num unit))
        ])
