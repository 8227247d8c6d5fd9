-- ===== src/Printf/Integer/Readback.antt =====
-- Reading numbers: `_atoi` of kernel/logging.cpp, and digits behind one another in any base.
use native.Mathlib.Nat.{mod-eq_of_lt, pow-succ', pow-zero}
use mega_os.Prelude.{
  ℕ, ◌+◌, ◌-◌, ◌*◌, ◌%◌, ◌^◌, ◌≤◌, ◌<◌, ◌≡◌, refl, sym, ap, ◌∙◌, Bool, true, false, List, [], ◌∷◌,
  ◌++◌, arith, length, All, All-reverse, reverse, reverse-append,
}
use mega_os.Printf.Integer.{write_digits}
use mega_os.Printf.Integer.Digits.{
  digit_value, spelled, spelled-write_digits_exact, IsDigitOf, write_digits-IsDigitOf,
}
use mega_os.Printf.Directive.{atoi, is_digit, peek}

-- The number that digits stand for, the most significant first, behind those that stand for `i`.
abbrev pub read_number : ℕ → List ℕ → ℕ → ℕ
read_number base [] i = i
read_number base (c ∷ cs) i = read_number base cs (i * base + digit_value c)

pub read_number-append :
    (base : ℕ) (xs ys : List ℕ) (i : ℕ)
    → read_number base (xs ++ ys) i ≡ read_number base ys (read_number base xs i)
read_number-append base [] ys i = refl
read_number-append base (x ∷ xs) ys i = read_number-append base xs ys (i * base + digit_value x)

-- Digits that were written the least significant first are read the other way round.
pub read_number-reverse :
    (base : ℕ) (cs : List ℕ) (i : ℕ)
    → read_number base (reverse cs) i ≡ spelled base cs + base ^ length cs * i
read_number-reverse base [] i = rw (pow-zero base) (omega arith)
read_number-reverse base (c ∷ cs) i =
    ap (λ l. read_number base l i) (reverse-append (c ∷ []) cs)
    ∙ read_number-append base (reverse cs) (c ∷ []) i
    ∙ rw (read_number-reverse base cs i, pow-succ' base (length cs)) (omega arith)

le-read_number : (cs : List ℕ) (i : ℕ) → i ≤ read_number 10 cs i
le-read_number [] i = omega arith
le-read_number (c ∷ cs) i = omega (arith, le-read_number cs (i * 10 + digit_value c))

-- Decimal digits.
abbrev pub Decimal : List ℕ → Type 0
Decimal cs = All (λ c. is_digit c ≡ true) cs

-- `_atoi` reads the number that decimal digits stand for, if it is one of an `unsigned int`, up to
-- the first character that is no digit.
pub atoi-read_number :
    (cs rest : List ℕ) (i : ℕ)
    → Decimal cs
    → is_digit (peek rest) ≡ false
    → read_number 10 cs i < 2 ^ 32
    → atoi (cs ++ rest) i ≡ (read_number 10 cs i, rest)
unfolding atoi
atoi-read_number [] [] i digits ends h = refl
atoi-read_number [] (c ∷ rest) i digits ends h = rw ends refl
atoi-read_number (c ∷ cs) rest i (digit, digits) ends h =
    let value : digit_value c ≡ c - b'0' = ground arith in
    let small : (i * 10 + (c - b'0')) % 2 ^ 32 ≡ i * 10 + digit_value c =
      mod-eq_of_lt (omega (arith, le-read_number cs (i * 10 + digit_value c)))
      ∙ ap (λ v. i * 10 + v) (sym value) in
    rw (digit, small) (atoi-read_number cs rest (i * 10 + digit_value c) digits ends h)

All-Decimal : (upper : Bool) (cs : List ℕ) → All (IsDigitOf 10 upper) cs → Decimal cs
All-Decimal upper [] h = tt
All-Decimal upper (c ∷ cs) (p, h) = (ground arith, All-Decimal upper cs h)

-- The decimal digits that the loop of `_ntoa_long` writes for a number below 2^32, put the right
-- way round, are read back by `_atoi` as that number, up to the first character that is no digit.
pub atoi-write_digits :
    (n : ℕ) (upper : Bool) (rest : List ℕ)
    → n < 2 ^ 32
    → is_digit (peek rest) ≡ false
    → atoi (reverse (write_digits 32 n 10 upper []) ++ rest) 0 ≡ (n, rest)
atoi-write_digits n upper rest h ends =
    let digits = write_digits 32 n 10 upper [] in
    let back : read_number 10 (reverse digits) 0 ≡ n =
      read_number-reverse 10 digits 0
      ∙ rw (spelled-write_digits_exact 32 n 10 upper (omega arith) (omega arith) (omega arith))
          (omega arith) in
    atoi-read_number (reverse digits) rest 0
      (All-reverse _ digits (
        All-Decimal upper digits
          (write_digits-IsDigitOf 32 n 10 upper (omega arith) (omega arith))))
      ends (rw back h)
    ∙ ap (λ v. (v, rest)) back
