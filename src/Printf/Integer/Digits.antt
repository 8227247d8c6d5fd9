-- ===== src/Printf/Integer/Digits.antt =====
-- The digits that the integer conversions write, least significant first, and the number they spell.
use native.Mathlib.Nat.{
  le_trans, mul-div-le, mul-le-mul, mul-le-mul_left, pow-succ', pow-zero, mod-one, mod-eq_of_lt,
  zero-mod, div-div-eq-div-mul, mod-add-div,
}
use mega_os.Prelude.{
  ℕ, zero, suc, ◌+◌, ◌-◌, ◌*◌, ◌/◌, ◌%◌, ◌^◌, ◌≤◌, ◌<◌, ◌≡◌, sym, ap, ◌∙◌, Bool, List, [], ◌∷◌,
  ◌++◌, append_assoc, append-nil, arith, ltb, ◌==◌, if◌then◌else◌, length, All, Bool-cases, inl,
  inr, ◌⊎◌, ==_iff,
}
use mega_os.Printf.Integer.{digit_char, write_digits}

-- The value of a digit of any base up to 16, in either case.
abbrev pub digit_value : ℕ → ℕ
digit_value c = if ltb c 58 then c - b'0' else if ltb c 91 then c - 55 else c - 87

-- The number that digits spell, the least significant first.
abbrev pub spelled : ℕ → List ℕ → ℕ
spelled base [] = 0
spelled base (c ∷ cs) = digit_value c + base * spelled base cs

digit_value-digit_char : (upper : Bool) (d : ℕ) → d < 16 → digit_value (digit_char upper d) ≡ d
unfolding digit_char
digit_value-digit_char upper d h = ground arith

-- The buffer that the loop starts with stays in front.
pub write_digits-append :
    (n v base : ℕ) (upper : Bool) (buf : List ℕ)
    → write_digits n v base upper buf ≡ buf ++ write_digits n v base upper []
unfolding write_digits
write_digits-append zero v base upper buf = sym (append-nil buf)
write_digits-append (suc n) v base upper buf =
    let d = digit_char upper (v % base) in
    elim (Bool-cases (v / base == 0)) [
      | inl last ↦ rw last
      | inr more ↦ rw more (
          write_digits-append n (v / base) base upper (buf ++ d ∷ [])
          ∙ append_assoc buf (d ∷ []) (write_digits n (v / base) base upper [])
          ∙ ap (λ l. buf ++ l) (sym (write_digits-append n (v / base) base upper (d ∷ []))))
    ]

-- One round of the loop.
pub write_digits-suc :
    (n v base : ℕ) (upper : Bool)
    → write_digits (suc n) v base upper []
      ≡ digit_char upper (v % base)
        ∷ (if v / base == 0 then [] else write_digits n (v / base) base upper [])
unfolding write_digits
write_digits-suc n v base upper =
    let d = digit_char upper (v % base) in
    elim (Bool-cases (v / base == 0)) [
      | inl last ↦ rw last
      | inr more ↦ rw more (write_digits-append n (v / base) base upper (d ∷ []))
    ]

pub mod_mul : (v b m : ℕ) → v % b + b * (v / b % m) ≡ v % (b * m)
mod_mul v b m = omega (
  arith,
  div-div-eq-div-mul v b m,
  mod-add-div v (b * m),
  mod-add-div v b,
  ap (λ (t : ℕ). b * t) (mod-add-div (v / b) m),
  ap (λ (t : ℕ). b * m * t) (div-div-eq-div-mul v b m),
)

-- What the rounds after the first add.
abbrev more_digits : ℕ → ℕ → ℕ → Bool → List ℕ
more_digits n v base upper = if v / base == 0 then [] else write_digits n (v / base) base upper []

-- In a base from 2 to 16 the digits that the loop of `_ntoa_long` writes into `n` cells spell the
-- value modulo the base to the power `n`.
pub spelled-write_digits :
    (n v base : ℕ) (upper : Bool)
    → 2 ≤ base
    → base ≤ 16
    → spelled base (write_digits n v base upper []) ≡ v % base ^ n
spelled-write_digits zero v base upper lo hi = unfold write_digits in rw pow-zero (sym (mod-one v))
spelled-write_digits (suc n) v base upper lo hi =
    let rest : spelled base (more_digits n v base upper) ≡ v / base % base ^ n =
      elim (Bool-cases (v / base == 0)) [
        | inl last ↦ rw (last, (==_iff _ _).0 last) (sym (zero-mod (base ^ n)))
        | inr more ↦ rw more (spelled-write_digits n (v / base) base upper lo hi)
      ] in
    rw
      (
        write_digits-suc,
        pow-succ' base n,
        ← mod_mul v base (base ^ n),
        digit_value-digit_char upper (v % base) (omega arith),
      )
      (ap (λ (t : ℕ). v % base + base * t) rest)

-- With enough cells nothing is lost.
pub spelled-write_digits_exact :
    (n v base : ℕ) (upper : Bool)
    → 2 ≤ base
    → base ≤ 16
    → v < base ^ n
    → spelled base (write_digits n v base upper []) ≡ v
spelled-write_digits_exact n v base upper lo hi h =
    spelled-write_digits n v base upper lo hi ∙ mod-eq_of_lt h

-- A digit of the base, in the case that the flag asks for.
abbrev pub IsDigitOf : ℕ → Bool → ℕ → Type 0
IsDigitOf base upper c =
    ((b'0' ≤ c) × (c ≤ b'9')
      ⊎ ((if upper then b'A' else b'a') ≤ c) × (c < (if upper then b'A' else b'a') + 6))
    × (digit_value c < base)

digit_char-IsDigitOf :
    (base : ℕ) (upper : Bool) (d : ℕ)
    → d < base
    → base ≤ 16
    → IsDigitOf base upper (digit_char upper d)
unfolding digit_char
digit_char-IsDigitOf base upper d h hi = ground arith

-- In a base from 2 to 16 every character that the loop of `_ntoa_long` writes is a digit of that
-- base, in the case that the flag asks for.
pub write_digits-IsDigitOf :
    (n v base : ℕ) (upper : Bool)
    → 2 ≤ base
    → base ≤ 16
    → All (IsDigitOf base upper) (write_digits n v base upper [])
write_digits-IsDigitOf zero v base upper lo hi = unfold write_digits in tt
write_digits-IsDigitOf (suc n) v base upper lo hi =
    let rest : All (IsDigitOf base upper) (more_digits n v base upper) =
      elim (Bool-cases (v / base == 0)) [
        | inl last ↦ rw last tt
        | inr more ↦ rw more (write_digits-IsDigitOf n (v / base) base upper lo hi)
      ] in
    rw write_digits-suc (digit_char-IsDigitOf base upper (v % base) (omega arith) hi, rest)

pub length-write_digits :
    (n v base : ℕ) (upper : Bool) → length (write_digits n v base upper []) ≤ n
length-write_digits zero v base upper = unfold write_digits in omega arith
length-write_digits (suc n) v base upper = rw write_digits-suc (elim (Bool-cases (v / base == 0)) [
  | inl last ↦ rw last (omega arith)
  | inr more ↦ rw more (omega (arith, length-write_digits n (v / base) base upper))
])

-- For a value that is not 0, in a base of at least 2, the loop of `_ntoa_long` writes no digit too
-- many: the base to the power of their number is at most the base times the value.
pub write_digits_minimal :
    (n v base : ℕ) (upper : Bool)
    → 0 < v
    → 2 ≤ base
    → base ^ length (write_digits n v base upper []) ≤ base * v
write_digits_minimal zero v base upper h lo =
    unfold write_digits in rw pow-zero (omega (arith, mul-le-mul lo h))
write_digits_minimal (suc n) v base upper h lo =
    let rest : base ^ length (more_digits n v base upper) ≤ v = elim (Bool-cases (v / base == 0)) [
      | inl last ↦ rw (last, pow-zero base) h
      | inr more ↦ rw more (
          le_trans (write_digits_minimal n (v / base) base upper (ground arith) lo)
            (mul-div-le v base))
    ] in
    rw (write_digits-suc, pow-succ' base (length (more_digits n v base upper)))
      (mul-le-mul_left base rest)
