-- ===== src/Printf/Float/Exponent.antt =====
-- The exponent part that `_etoa` writes (kernel/logging.cpp).
use mega_os.Prelude.{
  ℕ, ◌-◌, ◌≤◌, ◌<◌, ◌≡◌, Bool, false, List, [], ◌∷◌, ◌++◌, arith, ltb, if◌then◌else◌, length,
  replicate, reverse, length-append, length-replicate, length-reverse, Bool-cases, inl, inr, ℤ, abs,
  is_below_zero,
}
use mega_os.Printf.Output.{Flags, blank}
use mega_os.Printf.Integer.{write_digits}
use mega_os.Printf.Integer.Digits.{length-write_digits}
use mega_os.Printf.Fixed.Digits.{write_digits_enough}
use mega_os.Printf.Exponential.{Style}

-- `%+03d` of an exponent of two digits, `%+04d` of one of three: the characters that the code sets aside.
abbrev pub exponent_width : ℤ → ℕ
exponent_width e = if ltb (abs e) 100 then 4 else 5

abbrev exponent_digits : ℤ → List ℕ
exponent_digits e = reverse (write_digits 32 (abs e) 10 false [])

-- The sign and at least two digits.
abbrev exponent_signed : ℤ → List ℕ
exponent_signed e =
    (if is_below_zero e then b'-' else b'+')
    ∷ (replicate (exponent_width e - 2 - length (exponent_digits e)) b'0' ++ exponent_digits e)

-- The letter, the sign, and at least two digits.
abbrev pub exponent_text : Bool → ℤ → List ℕ
exponent_text upper e = (if upper then b'E' else b'e') ∷ exponent_signed e

length-exponent_digits : (e : ℤ) → abs e < 1000 → length (exponent_digits e) ≤ exponent_width e - 2
length-exponent_digits e small =
    let same = length-reverse (write_digits 32 (abs e) 10 false []) in
    elim (Bool-cases (ltb (abs e) 100)) [
      | inl short ↦
          let enough = write_digits_enough 1 31 (abs e) false (ground arith) (omega arith) in
          let two : length (write_digits 32 (abs e) 10 false []) ≤ 2 =
            rw (← enough) (length-write_digits 2 (abs e) 10 false) in
          rw short (omega (arith, same, two))
      | inr long ↦
          let enough = write_digits_enough 2 31 (abs e) false small (omega arith) in
          let three : length (write_digits 32 (abs e) 10 false []) ≤ 3 =
            rw (← enough) (length-write_digits 3 (abs e) 10 false) in
          rw long (omega (arith, same, three))
    ]

pub length-exponent_text :
    (upper : Bool) (e : ℤ) → abs e < 1000 → length (exponent_text upper e) ≡ exponent_width e
length-exponent_text upper e small = ground (
  arith,
  length-append {A = ℕ} (replicate (exponent_width e - 2 - length (exponent_digits e)) b'0')
      (exponent_digits e),
  length-replicate {A = ℕ} (exponent_width e - 2 - length (exponent_digits e)) b'0',
  length-exponent_digits e small,
)

-- How `_etoa` goes on where it writes an exponent.
abbrev pub scientific : ℕ → ℤ → Flags → Style
scientific prec e flags = record {
  precision = prec;
  minwidth = exponent_width e;
  flags = flags;
  exponent = e;
}

-- The spaces behind a text of so many characters that started the field.
abbrev pub trailing : ℕ → ℕ → Flags → List ℕ
trailing width len flags = if flags.left then replicate (width - len) blank else []
