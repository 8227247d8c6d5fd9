-- ===== src/Printf/Format/Field.antt =====
-- The integer conversions as the C standard describes them, without the functions of the program: the
-- value of the argument, its digits, and its field.
use mega_os.Prelude.{
  ℕ, zero, suc, ◌+◌, ◌-◌, ◌/◌, ◌%◌, ◌^◌, ◌≤◌, ◌<◌, ◌≡◌, refl, ap, ◌∙◌, Bool, true, false, ◌&&◌,
  ◌||◌, not, List, [], ◌∷◌, ◌++◌, append_assoc, append-nil, arith, ltb, ◌==◌, if◌then◌else◌, length,
  max, replicate, length-append, length-replicate, reverse, reverse-append, Bool-cases, inl, inr,
}
use mega_os.Printf.Output.{Flags}
use mega_os.Printf.Integer.{digit_char, write_digits}
use mega_os.Printf.Integer.Digits.{write_digits-suc}
use mega_os.Printf.Integer.Field.{sign_chars}

-- The width in bits of the type that the length modifier names.
abbrev pub type_bits : Flags → ℕ
type_bits flags =
    if flags.long_size || flags.long_long_size
    then 64
    else if flags.char_size
    then 8
    else if flags.short_size
    then 16
    else 32

-- A conversion without a sign takes the low bits of the argument as a number; one with a sign takes
-- them as two's complement: as a number below half of the range, or as minus one up to that half.
pub data Denotes (size bits : ℕ) (signed : Bool) : Bool → ℕ → Type 0 where
  unsigned_value : signed ≡ false → Denotes size bits signed false (bits % 2 ^ size)
  non_negative :
      signed ≡ true
      → bits % 2 ^ size < 2 ^ (size - 1)
      → Denotes size bits signed false (bits % 2 ^ size)
  below_zero :
      {n : ℕ}
      → signed ≡ true
      → n ≤ 2 ^ (size - 1)
      → n + bits % 2 ^ size ≡ 2 ^ size
      → Denotes size bits signed true n

-- The specifiers of integers: whether the type has a sign, the base, and whether digits are capitals.
pub data Specifier : ℕ → Bool → ℕ → Bool → Type 0 where
  decimal : Specifier b'd' true 10 false
  integer : Specifier b'i' true 10 false
  unsigned : Specifier b'u' false 10 false
  hexadecimal : Specifier b'x' false 16 false
  capital_hexadecimal : Specifier b'X' false 16 true
  octal : Specifier b'o' false 8 false
  binary : Specifier b'b' false 2 false

abbrev pub numeral_digit : Bool → ℕ → ℕ
numeral_digit upper n =
    if ltb n 10 then b'0' + n else if upper then b'A' + (n - 10) else b'a' + (n - 10)

-- The digits of a number, the most significant first, at most `room` of them.
unfoldable pub numeral : ℕ → ℕ → Bool → ℕ → List ℕ
numeral zero base upper n = []
numeral (suc room) base upper n =
    (if n / base == 0 then [] else numeral room base upper (n / base))
    ++ numeral_digit upper (n % base) ∷ []

-- With a precision, 0 has no digits: what is written are the zeros of the precision.
abbrev pub digits_of : ℕ → Flags → Bool → ℕ → List ℕ
digits_of base flags upper n = if flags.has_precision && n == 0 then [] else numeral 32 base upper n

-- The field of the C standard: `-` puts the spaces behind, and overrides `0`, which fills up with
-- zeros behind the sign.
abbrev pub field : Bool → Bool → ℕ → ℕ → List ℕ → List ℕ → List ℕ
field left zeros precision width sign ds =
    let least = if zeros && not left then max precision (width - length sign) else precision in
    let body = sign ++ (replicate (least - length ds) b'0' ++ ds) in
    let blanks = replicate (width - length body) b' ' in
    if left then body ++ blanks else blanks ++ body

-- Only a signed conversion has a sign, and a precision overrides the flag `0`.
abbrev pub standard_field : Bool → Bool → ℕ → ℕ → Flags → List ℕ → List ℕ
standard_field signed minus precision width flags ds =
    field flags.left (flags.zeropad && not flags.has_precision) precision width
      (if signed then sign_chars minus flags else []) ds

pub numeral-write_digits :
    (room base : ℕ) (upper : Bool) (n : ℕ)
    → reverse (write_digits room n base upper []) ≡ numeral room base upper n
unfolding numeral
numeral-write_digits zero base upper n = unfold write_digits in refl
numeral-write_digits (suc room) base upper n =
    let digit : digit_char upper (n % base) ≡ numeral_digit upper (n % base) =
      unfold digit_char in ground arith in
    let more_digits = write_digits room (n / base) base upper [] in
    elim (Bool-cases (n / base == 0)) [
      | inl last ↦ rw (write_digits-suc, last) (ap (λ c. c ∷ []) digit)
      | inr more ↦
          rw (write_digits-suc, more)
            (reverse-append (digit_char upper (n % base) ∷ []) more_digits
              ∙ rw digit (
                  ap (λ l. l ++ numeral_digit upper (n % base) ∷ [])
                    (numeral-write_digits room base upper (n / base))))
    ]

module _ (prec width : ℕ) (sign ds : List ℕ) where
  length-body : (n : ℕ) → length (sign ++ (replicate n b'0' ++ ds)) ≡ length sign + (n + length ds)
  length-body n = omega (
    arith,
    length-append sign (replicate n b'0' ++ ds),
    length-append (replicate n b'0') ds,
    length-replicate {A = ℕ} n b'0',
  )

  -- The same field, with the count of each of its parts.
  pub field_parts :
      (left zeros : Bool)
      → field left zeros prec width sign ds
        ≡ replicate (if left || zeros then 0 else width - (length sign + max prec (length ds))) b' '
          ++ (sign
              ++ (replicate
                    (if not left && zeros
                      then max prec (width - length sign) - length ds
                      else prec - length ds)
                    b'0'
                  ++ (ds
                      ++ replicate
                          (if left then width - (length sign + max prec (length ds)) else 0)
                          b' ')))
  field_parts true zeros =
      let none : (zeros && false) ≡ false = ground arith in
      let count : length (sign ++ (replicate (prec - length ds) b'0' ++ ds))
          ≡ length sign + max prec (length ds) =
        omega (arith, length-body (prec - length ds)) in
      rw (none, count) (append_assoc sign _ _ ∙ ap (λ l. sign ++ l) (append_assoc _ ds _))
  field_parts false true =
      let count : width
            - length (sign ++ (replicate (max prec (width - length sign) - length ds) b'0' ++ ds))
          ≡ 0 =
        omega (arith, length-body (max prec (width - length sign) - length ds)) in
      rw (count, append-nil ds) refl
  field_parts false false =
      let count : length (sign ++ (replicate (prec - length ds) b'0' ++ ds))
          ≡ length sign + max prec (length ds) =
        omega (arith, length-body (prec - length ds)) in
      rw (count, append-nil ds) refl
