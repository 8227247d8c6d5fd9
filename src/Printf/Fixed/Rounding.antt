-- ===== src/Printf/Fixed/Rounding.antt =====
-- How `_ftoa` rounds (kernel/logging.cpp).
use native.Mathlib.Nat.{mod-add-div', mod-lt, div-lt_iff_lt-mul, pow-succ'}
use mega_os.Prelude.{
  ℕ, ◌+◌, ◌-◌, ◌*◌, ◌/◌, ◌%◌, ◌^◌, ◌≤◌, ◌<◌, ◌≡◌, ap, ◌∙◌, true, false, ◌||◌, arith, ltb, ◌==◌,
  Bool-cases, ◌⊎◌, inl, inr,
}
use mega_os.Printf.Double.{Double}
use mega_os.Printf.Fixed.{half, round_fraction, parts}

-- `(w, f)`, with `base` fractions to the whole, is no further than half a fraction from a number of
-- `unit`s of a fraction: no other such pair is nearer.
abbrev pub IsNearest : ℕ → ℕ → ℕ → ℕ × ℕ → Type 0
IsNearest unit base target (w, f) =
    (2 * ((w * base + f) * unit) ≤ 2 * target + unit)
    × (2 * target ≤ 2 * ((w * base + f) * unit) + unit)

module _ (unit rest base whole frac : ℕ) where
  abbrev target : ℕ
  target = (whole * base + frac) * unit + rest

  same-IsNearest : 2 * rest ≤ unit → IsNearest unit base target (whole, frac)
  same-IsNearest h = (omega arith, omega arith)

  next-IsNearest :
      (w f : ℕ)
      → w * base + f ≡ whole * base + frac + 1
      → unit ≤ 2 * rest
      → rest < unit
      → IsNearest unit base target (w, f)
  next-IsNearest w f e h below =
      let up : (w * base + f) * unit ≡ (whole * base + frac) * unit + unit =
        ap (λ (n : ℕ). n * unit) e ∙ omega arith in
      rw up (omega arith, omega arith)

module _ {ℓ} {W : Type ℓ} ⦃d : Double W⦄ where
  module _ (unit rest base whole frac : ℕ) (diff scale : W) (within : rest < unit)
      (above_half : d.lt half diff ≡ ltb unit (2 * rest))
      (below_half : d.lt diff half ≡ ltb (2 * rest) unit)
      (rolls : d.lt (d.of_nat (frac + 1)) scale ≡ ltb (frac + 1) base) (digits : frac < base) where
    round_fraction-IsNearest :
        IsNearest unit base
          (target unit rest base whole frac)
          (round_fraction diff scale whole frac)
    unfolding round_fraction
    round_fraction-IsNearest = elim (Bool-cases (ltb unit (2 * rest))) [
      | inl above ↦
          rw (above_half, above, rolls)
            (elim (Bool-cases (ltb (frac + 1) base)) [
              | inl fits ↦ rw fits (
                  next-IsNearest unit rest base whole frac whole (frac + 1) (omega arith)
                    (ground arith) within)
              | inr full ↦
                  let last : frac + 1 ≡ base = ground arith in
                  rw full (
                    next-IsNearest unit rest base whole frac (whole + 1) 0 (omega arith)
                      (ground arith) within)
            ])
      | inr not_above ↦
          rw (above_half, not_above, below_half)
            (elim (Bool-cases (ltb (2 * rest) unit)) [
              | inl below ↦ rw below (same-IsNearest unit rest base whole frac (ground arith))
              | inr tie ↦ rw tie (elim (Bool-cases (frac == 0 || frac % 2 == 1)) [
                | inl odd ↦ rw odd (
                    next-IsNearest unit rest base whole frac whole (frac + 1) (omega arith)
                      (ground arith) within)
                | inr even ↦ rw even (same-IsNearest unit rest base whole frac (ground arith))
              ])
            ])
    ]

    -- The fraction stays one, but for half a unit behind the last one.
    round_fraction-lt :
        ((round_fraction diff scale whole frac).1 < base)
        ⊎ ((2 * rest ≡ unit)
            × (frac + 1 ≡ base)
            × (round_fraction diff scale whole frac ≡ (whole, base)))
    unfolding round_fraction
    round_fraction-lt = elim (Bool-cases (ltb unit (2 * rest))) [
      | inl above ↦ inl (
          rw (above_half, above, rolls)
            (elim (Bool-cases (ltb (frac + 1) base)) [
              | inl fits ↦ rw fits (ground arith)
              | inr full ↦ rw full (omega arith)
            ]))
      | inr not_above ↦
          rw (above_half, not_above, below_half)
            (elim (Bool-cases (ltb (2 * rest) unit)) [
              | inl below ↦ inl (rw below digits)
              | inr tie ↦ rw tie (elim (Bool-cases (frac == 0 || frac % 2 == 1)) [
                | inl odd ↦ rw odd (elim (Bool-cases (ltb (frac + 1) base)) [
                  | inl fits ↦ inl (ground arith)
                  | inr full ↦
                      let last : frac + 1 ≡ base = ground arith in
                      inr (ground arith, last, ap (λ (n : ℕ). (whole, n)) last)
                ])
                | inr even ↦ inl (rw even digits)
              ])
            ])
    ]

  -- A `double` that is `num / unit`: its conversion to an integer takes the whole part, and whether a whole
  -- number less than it is above or below one half comes out right.
  abbrev pub IsExact : ℕ → ℕ → W → Type 0
  IsExact unit num value =
      (d.truncated value ≡ num / unit)
      × ((k : ℕ)
          → (d.lt (d.sub value (d.of_nat k)) half ≡ ltb (2 * num) (2 * (k * unit) + unit))
            × (d.lt half (d.sub value (d.of_nat k)) ≡ ltb (2 * (k * unit) + unit) (2 * num)))

  -- A `double` that is the whole number `base`.
  abbrev pub IsWhole : ℕ → W → Type 0
  IsWhole base scale = (k : ℕ) → d.lt (d.of_nat k) scale ≡ ltb k base

  abbrev pub scaled : W → W → W
  scaled value scale = d.mul (d.sub value (d.of_nat (d.truncated value))) scale

  module _ (unit num prec : ℕ) (value scale : W) (some_unit : 0 < unit) (some_digits : 0 < prec)
      (exact : IsExact unit num (scaled value scale)) (scale_base : IsWhole (10 ^ prec) scale)
      (fraction : num < 10 ^ prec * unit) where
    abbrev whole : ℕ
    whole = d.truncated value

    abbrev rounded : ℕ × ℕ
    rounded =
        round_fraction (d.sub (scaled value scale) (d.of_nat (num / unit))) scale whole (num / unit)

    parts-round_fraction : parts value prec scale ≡ rounded
    unfolding parts
    parts-round_fraction =
        let positive : (prec == 0) ≡ false = ground arith in rw (positive, exact.0)

    below_eq :
        d.lt (d.sub (scaled value scale) (d.of_nat (num / unit))) half ≡ ltb (2 * (num % unit)) unit
    below_eq = (exact.1 (num / unit)).0 ∙ ground (arith, mod-add-div' num unit)

    above_eq :
        d.lt half (d.sub (scaled value scale) (d.of_nat (num / unit))) ≡ ltb unit (2 * (num % unit))
    above_eq = (exact.1 (num / unit)).1 ∙ ground (arith, mod-add-div' num unit)

    target_eq :
        target unit (num % unit) (10 ^ prec) whole (num / unit) ≡ whole * (10 ^ prec * unit) + num
    target_eq = omega (arith, mod-add-div' num unit)

    digits : num / unit < 10 ^ prec
    digits = (div-lt_iff_lt-mul some_unit).1 fraction

    pub parts-IsNearest :
        IsNearest unit (10 ^ prec) (whole * (10 ^ prec * unit) + num) (parts value prec scale)
    parts-IsNearest =
        rw (parts-round_fraction, ← target_eq)
          (round_fraction-IsNearest unit (num % unit) (10 ^ prec) whole (num / unit) _ scale
            (mod-lt num some_unit) above_eq below_eq (scale_base (num / unit + 1)) digits)

    pub parts-lt :
        ((parts value prec scale).1 < 10 ^ prec)
        ⊎ ((2 * (num % unit) ≡ unit)
            × (num / unit + 1 ≡ 10 ^ prec)
            × (parts value prec scale ≡ (whole, 10 ^ prec)))
    parts-lt = rw parts-round_fraction (
        round_fraction-lt unit (num % unit) (10 ^ prec) whole (num / unit) _ scale
          (mod-lt num some_unit) above_eq below_eq (scale_base (num / unit + 1)) digits)

    pub parts_tie :
        2 * (num % unit) ≡ unit
        → num / unit + 1 ≡ 10 ^ prec
        → parts value prec scale ≡ (whole, 10 ^ prec)
    unfolding round_fraction
    parts_tie tie last =
        let power : 10 ^ prec ≡ 10 * 10 ^ (prec - 1) =
          ap (λ (n : ℕ). 10 ^ n) (omega arith) ∙ pow-succ' 10 (prec - 1) in
        let not_above : ltb unit (2 * (num % unit)) ≡ false = ground arith in
        let not_below : ltb (2 * (num % unit)) unit ≡ false = ground arith in
        let odd : (num / unit == 0 || num / unit % 2 == 1) ≡ true = ground arith in
        rw (parts-round_fraction, above_eq, not_above, below_eq, not_below, odd)
          (ap (λ (n : ℕ). (whole, n)) last)

    pub parts-whole-le : (parts value prec scale).0 ≤ whole + 1
    unfolding round_fraction
    parts-whole-le = rw parts-round_fraction (ground arith)
