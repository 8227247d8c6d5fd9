-- ===== src/Printf/Fixed/Text.antt =====
-- The text that `_ftoa` writes (kernel/logging.cpp) for a value with all its digits, against the field
-- of the C standard: spaces, the sign, zeros, the number, spaces.
use mega_os.Prelude.{
  ℕ, zero, suc, ◌+◌, ◌-◌, ◌^◌, ◌≤◌, ◌<◌, ◌≡◌, refl, sym, ap, ◌∙◌, Bool, true, false, ◌&&◌, List, [],
  ◌∷◌, ◌++◌, append_assoc, append-nil, arith, ltb, ◌==◌, if◌then◌else◌, length, replicate,
  length-append, Bool-cases, inl, inr, min, reverse, reverse-append, reverse-replicate,
}
use mega_os.Printf.Output.{Flags}
use mega_os.Printf.Integer.{
  write_digits, write_zeros, put, pad_zeros, put_hash, put_sign, format_buffer,
}
use mega_os.Printf.Integer.Digits.{write_digits-append, length-write_digits}
use mega_os.Printf.Fixed.{
  ftoa_buffer_size, precision_of, limit_precision, whole_digits, put_fraction, room_of,
  float_buffer,
}
use mega_os.Printf.Fixed.Digits.{
  digits_up, length-digits_up, fraction-digits_up, whole_digits-append, write_digits_enough,
}

-- The zeros that the code writes first for a precision, and the precision that is left.
abbrev pub beyond : ℕ → ℕ
beyond prec = min ftoa_buffer_size (prec - 9)

pub limit_precision-replicate :
    (fuel prec : ℕ) (buf : List ℕ)
    → length buf + fuel ≡ ftoa_buffer_size
    → limit_precision fuel prec buf
      ≡ (prec - min fuel (prec - 9), buf ++ replicate (min fuel (prec - 9)) b'0')
unfolding limit_precision
limit_precision-replicate zero prec buf e =
    let none_left : min 0 (prec - 9) ≡ 0 = omega arith in
    let same : prec - 0 ≡ prec = omega arith in rw (none_left, same, append-nil buf) refl
limit_precision-replicate (suc fuel) prec buf e =
    elim (Bool-cases (ltb (length buf) ftoa_buffer_size && ltb 9 prec)) [
      | inl more ↦
          let split : min (suc fuel) (prec - 9) ≡ suc (min fuel (prec - 1 - 9)) = ground arith in
          let less : prec - suc (min fuel (prec - 1 - 9)) ≡ prec - 1 - min fuel (prec - 1 - 9) =
            omega arith in
          rw (more, split, less)
            (limit_precision-replicate fuel (prec - 1) (buf ++ b'0' ∷ [])
                (omega (arith, length-append buf (b'0' ∷ [])))
              ∙ ap (λ l. (prec - 1 - min fuel (prec - 1 - 9), l)) (append_assoc buf (b'0' ∷ []) _))
      | inr full ↦
          let none_left : min (suc fuel) (prec - 9) ≡ 0 = ground arith in
          let same : prec - 0 ≡ prec = omega arith in
          rw (full, none_left, same, append-nil buf) refl
    ]

-- The decimals of a fraction and the point, the last first.
abbrev pub decimals_up : ℕ → ℕ → List ℕ
decimals_up prec frac = if prec == 0 then [] else digits_up prec frac ++ b'.' ∷ []

put_fraction-decimals_up :
    (prec frac : ℕ) (buf : List ℕ)
    → (0 < prec → frac < 10 ^ prec)
    → length buf + prec + 1 ≤ ftoa_buffer_size
    → put_fraction prec frac buf ≡ buf ++ decimals_up prec frac
unfolding put_fraction put
put_fraction-decimals_up zero frac buf h fits = sym (append-nil buf)
put_fraction-decimals_up (suc n) frac buf h fits =
    let room : n < room_of buf = omega arith in
    let positive : (suc n == 0) ≡ false = ground arith in
    let whole_room : ltb (length (buf ++ digits_up (suc n) frac)) ftoa_buffer_size ≡ true =
      ground (arith, length-append buf (digits_up (suc n) frac), length-digits_up (suc n) frac) in
    rw
      (
        positive,
        fraction-digits_up n (room_of buf) frac buf (h (omega arith)) room (omega arith),
        whole_room,
      )
      (append_assoc buf _ _)

pub length-decimals_up : (prec frac : ℕ) → length (decimals_up prec frac) ≤ prec + 1
length-decimals_up prec frac =
    ground (arith, length-append (digits_up prec frac) (b'.' ∷ []), length-digits_up prec frac)

-- The digits of a number, the last first.
abbrev pub whole_up : ℕ → List ℕ
whole_up whole = write_digits ftoa_buffer_size whole 10 true []

pub length-whole_up : (whole : ℕ) → whole < 10 ^ 10 → length (whole_up whole) ≤ 10
length-whole_up whole h =
    rw (← write_digits_enough 9 31 whole true h (omega arith))
      (length-write_digits 10 whole 10 true)

whole_digits-whole_up :
    (whole : ℕ) (buf : List ℕ)
    → whole < 10 ^ 10
    → length buf + 10 ≤ ftoa_buffer_size
    → whole_digits (room_of buf) whole buf ≡ buf ++ whole_up whole
whole_digits-whole_up whole buf h fits =
    let room : room_of buf ≡ suc (31 - length buf) = omega arith in
    rw (room, whole_digits-append _ whole true buf, write_digits-append _ whole 10 true buf)
      (ap (λ l. buf ++ l)
        (sym (write_digits_enough 9 (31 - length buf) whole true h (omega arith))
          ∙ write_digits_enough 9 31 whole true h (omega arith)))

-- What is in the buffer before the padding.
abbrev pub number : ℕ → ℕ → ℕ → List ℕ → List ℕ
number prec frac whole buf =
    let fraction = put_fraction prec frac buf in whole_digits (room_of fraction) whole fraction

pub number_eq :
    (prec frac whole : ℕ) (buf : List ℕ)
    → (0 < prec → frac < 10 ^ prec)
    → whole < 10 ^ 10
    → length buf + prec ≤ 20
    → number prec frac whole buf ≡ (buf ++ decimals_up prec frac) ++ whole_up whole
number_eq prec frac whole buf hf hw fits =
    rw (put_fraction-decimals_up prec frac buf hf (omega arith)) (
      whole_digits-whole_up whole _ hw
        (omega (arith, length-append buf (decimals_up prec frac), length-decimals_up prec frac)))

-- The digits of the fraction that the code computes.
abbrev pub digits : ℕ → Flags → ℕ
digits prec flags = min (precision_of prec flags) 9

-- A number with its decimals: `whole`, the point, and the fraction in so many digits, at most nine of which
-- the code takes from `frac`.
abbrev pub fixed_text : ℕ → ℕ → ℕ → List ℕ
fixed_text prec whole frac =
    reverse (whole_up whole)
    ++ (if prec == 0
        then []
        else b'.' ∷ (reverse (digits_up (min prec 9) frac) ++ replicate (prec - 9) b'0'))

pub reverse_number :
    (prec whole frac : ℕ)
    → reverse ((replicate (prec - 9) b'0' ++ decimals_up (min prec 9) frac) ++ whole_up whole)
      ≡ fixed_text prec whole frac
reverse_number prec whole frac =
    reverse-append (replicate (prec - 9) b'0' ++ decimals_up (min prec 9) frac) (whole_up whole)
    ∙ ap (λ l. reverse (whole_up whole) ++ l)
        (reverse-append (replicate (prec - 9) b'0') (decimals_up (min prec 9) frac)
          ∙ rw (reverse-replicate {A = ℕ} (prec - 9) b'0') decimals)
  where
    decimals : reverse (decimals_up (min prec 9) frac) ++ replicate (prec - 9) b'0' ≡ (
        if prec == 0
        then []
        else b'.' ∷ (reverse (digits_up (min prec 9) frac) ++ replicate (prec - 9) b'0'))
    decimals = elim (Bool-cases (prec == 0)) [
      | inl none ↦
          let empty : (min prec 9 == 0) ≡ true = ground arith in
          let short : prec - 9 ≡ 0 = ground arith in rw (none, empty, short) refl
      | inr some_digits ↦
          let full : (min prec 9 == 0) ≡ false = ground arith in
          rw (some_digits, full, reverse-append (digits_up (min prec 9) frac) (b'.' ∷ [])) refl
    ]

write_zeros_none : (fuel : ℕ) (buf : List ℕ) → write_zeros fuel 0 buf ≡ buf
unfolding write_zeros
write_zeros_none zero buf = refl
write_zeros_none (suc fuel) buf =
    let full : ltb (length buf) 0 ≡ false = ground arith in rw full refl

-- The flags without `#`, which `_ftoa` does not read.
abbrev pub plain : Flags → Flags
plain flags = record flags { hash = false }

-- The buffer is padded like the one of an integer without a precision.
pub float_buffer-format_buffer :
    (negative : Bool) (whole frac prec width : ℕ) (flags : Flags) (buf : List ℕ)
    → float_buffer negative whole frac prec width flags buf
      ≡ format_buffer negative 10 0 width (plain flags) (number prec frac whole buf)
unfolding float_buffer format_buffer pad_zeros put_hash put_sign
float_buffer-format_buffer negative whole frac prec width flags buf =
    rw (write_zeros_none 32 (number prec frac whole buf))
      (elim (Bool-cases flags.left) [ inl left ↦ rw left refl | inr right ↦ rw right refl ])
