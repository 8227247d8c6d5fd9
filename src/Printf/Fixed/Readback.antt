-- ===== src/Printf/Fixed/Readback.antt =====
-- Reading back the text that `_ftoa` writes (kernel/logging.cpp).
use native.Mathlib.Nat.{pow-succ', pow-zero, mod-eq_of_lt}
use mega_os.Prelude.{
  ℕ, zero, suc, ◌+◌, ◌-◌, ◌*◌, ◌/◌, ◌^◌, ◌<◌, ◌≡◌, ap, ◌≤◌, refl, ◌∙◌, true, false, List, [], ◌∷◌,
  ◌++◌, arith, ◌==◌, length, replicate, length-append, length-replicate, length-reverse,
  All-reverse, reverse, min,
}
use mega_os.Printf.Directive.{atoi}
use mega_os.Printf.Integer.Digits.{digit_value}
use mega_os.Printf.Integer.Readback.{
  read_number, read_number-append, read_number-reverse, Decimal, atoi-write_digits,
}
use mega_os.Printf.Fixed.Digits.{digits_up, length-digits_up, spelled-digits_up}
use mega_os.Printf.Fixed.Text.{number, number_eq, reverse_number, fixed_text}

-- The decimals of a number.
abbrev pub decimals : ℕ → ℕ → List ℕ
decimals prec frac = reverse (digits_up (min prec 9) frac) ++ replicate (prec - 9) b'0'

length-decimals : (prec frac : ℕ) → length (decimals prec frac) ≡ prec
length-decimals prec frac = omega (
  arith,
  length-append (reverse (digits_up (min prec 9) frac)) (replicate (prec - 9) b'0'),
  length-reverse (digits_up (min prec 9) frac),
  length-digits_up (min prec 9) frac,
  length-replicate {A = ℕ} (prec - 9) b'0',
)

digits_up-Decimal : (n frac : ℕ) → Decimal (digits_up n frac)
digits_up-Decimal zero frac = tt
digits_up-Decimal (suc n) frac = (ground arith, digits_up-Decimal n (frac / 10))

append-Decimal : (xs ys : List ℕ) → Decimal xs → Decimal ys → Decimal (xs ++ ys)
append-Decimal [] ys h k = k
append-Decimal (x ∷ xs) ys (p, h) k = (p, append-Decimal xs ys h k)

zeros-Decimal : (n : ℕ) → Decimal (replicate n b'0')
zeros-Decimal zero = tt
zeros-Decimal (suc n) = (refl, zeros-Decimal n)

decimals-Decimal : (prec frac : ℕ) → Decimal (decimals prec frac)
decimals-Decimal prec frac =
    append-Decimal (reverse (digits_up (min prec 9) frac)) _
      (All-reverse _ (digits_up (min prec 9) frac) (digits_up-Decimal (min prec 9) frac))
      (zeros-Decimal (prec - 9))

read_number_zeros : (n i : ℕ) → read_number 10 (replicate n b'0') i ≡ i * 10 ^ n
read_number_zeros zero i = rw (pow-zero 10) (omega arith)
read_number_zeros (suc n) i =
    let value : digit_value b'0' ≡ 0 = ground arith in
    rw (read_number_zeros n (i * 10 + digit_value b'0'), pow-succ' 10 n, value) (omega arith)

read_number-decimals :
    (prec frac : ℕ)
    → frac < 10 ^ min prec 9
    → read_number 10 (decimals prec frac) 0 ≡ frac * 10 ^ (prec - 9)
read_number-decimals prec frac h =
    let digits = digits_up (min prec 9) frac in
    let back : read_number 10 (reverse digits) 0 ≡ frac =
      read_number-reverse 10 digits 0
      ∙ rw (spelled-digits_up (min prec 9) frac, mod-eq_of_lt h) (omega arith) in
    read_number-append 10 (reverse digits) (replicate (prec - 9) b'0') 0
    ∙ rw back (read_number_zeros (prec - 9) frac)

atoi-fixed_text :
    (prec whole frac : ℕ)
    → 0 < prec
    → whole < 2 ^ 32
    → frac < 10 ^ min prec 9
    → (ds : List ℕ) × (atoi (fixed_text prec whole frac) 0 ≡ (whole, b'.' ∷ ds))
      × Decimal ds
      × (length ds ≡ prec)
      × (read_number 10 ds 0 ≡ frac * 10 ^ (prec - 9))
atoi-fixed_text prec whole frac some_digits int below =
    let positive : (prec == 0) ≡ false = ground arith in
    (
      decimals prec frac,
      rw positive (atoi-write_digits whole true (b'.' ∷ decimals prec frac) int refl),
      decimals-Decimal prec frac,
      length-decimals prec frac,
      read_number-decimals prec frac below,
    )

-- For a precision from 1 to 20, what the loops of `_ftoa` leave in the buffer for a whole part
-- below 2^32 and a fraction with no more digits than they keep, put the right way round, is read
-- back: `_atoi` reads the whole part up to the point, behind which stand as many decimal digits as
-- the precision says, and read as a number they are the fraction, with a zero for each digit
-- beyond the ninth.
pub atoi-number :
    (prec whole frac : ℕ)
    → 0 < prec
    → prec ≤ 20
    → whole < 2 ^ 32
    → frac < 10 ^ min prec 9
    → (ds : List ℕ) × (atoi (reverse (number (min prec 9) frac whole (replicate (prec - 9) b'0'))) 0
        ≡ (whole, b'.' ∷ ds))
      × Decimal ds
      × (length ds ≡ prec)
      × (read_number 10 ds 0 ≡ frac * 10 ^ (prec - 9))
atoi-number prec whole frac some_digits short int below =
    let text : reverse (number (min prec 9) frac whole (replicate (prec - 9) b'0'))
        ≡ fixed_text prec whole frac =
      ap reverse (
        number_eq (min prec 9) frac whole (replicate (prec - 9) b'0') (λ e. below) (omega arith)
          (omega (arith, length-replicate {A = ℕ} (prec - 9) b'0')))
      ∙ reverse_number prec whole frac in
    rw text (atoi-fixed_text prec whole frac some_digits int below)
