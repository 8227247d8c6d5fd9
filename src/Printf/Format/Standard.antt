-- ===== src/Printf/Format/Standard.antt =====
-- `case 'd'` to `case 'b'` of `_vsnprintf` against the C standard (Format/Field).
use mega_os.Prelude.{
  ℕ, ◌-◌, ◌*◌, ◌%◌, ◌^◌, ◌≤◌, ◌<◌, ◌≡◌, refl, sym, ap, ◌∙◌, Bool, true, false, ◌&&◌, ◌||◌, not,
  List, [], some, arith, leb, ◌==◌, if◌then◌else◌, length, length-reverse, reverse, Bool-cases, inl,
  inr,
}
use mega_os.Prelude.{bind, pure}
use mega_os.Printf.Output.{OutFct, Flags, emit}
use mega_os.Printf.Integer.{value_digits}
use mega_os.Printf.Integer.Field.{sign_chars}
use mega_os.Printf.Integer.Standard.{long_buffer-padded}
use mega_os.Printf.Directive.{Arg, va_arg, Directive}
use mega_os.Printf.Format.{
  is_integer, is_signed, base_of, integer_flags, size_bits, is_negative, magnitude, convert_integer,
}
use mega_os.Printf.Format.Render.{long_text, integer_text}
use mega_os.Printf.Format.Converts.{convert_integer-emit}
use mega_os.Printf.Format.Field.{
  type_bits, Denotes, unsigned_value, non_negative, below_zero, Specifier, decimal, integer,
  unsigned, hexadecimal, capital_hexadecimal, octal, binary, digits_of, standard_field,
  numeral-write_digits, field_parts,
}

-- The size is one of four.
size_bits-type_bits : (c : ℕ) (flags : Flags) → size_bits (integer_flags c flags) ≡ type_bits flags
unfolding size_bits integer_flags
size_bits-type_bits c flags = ground arith

halves : (flags : Flags) → 2 * 2 ^ (type_bits flags - 1) ≡ 2 ^ type_bits flags
halves flags = ground arith

Denotes-plain :
    {size bits n : ℕ} {signed minus : Bool}
    → Denotes size bits signed minus n
    → signed ≡ false
    → minus ≡ false
Denotes-plain (unsigned_value plain) e = refl
Denotes-plain (non_negative signed small) e = refl
Denotes-plain (below_zero signed small total) e = sym signed ∙ e

Specifier-flags :
    {c base : ℕ} {signed upper : Bool}
    → Specifier c signed base upper
    → (is_signed c ≡ signed) × (base_of c ≡ base) × ((c == b'X') ≡ upper)
unfolding base_of
Specifier-flags decimal = (refl, refl, refl)
Specifier-flags integer = (refl, refl, refl)
Specifier-flags unsigned = (refl, refl, refl)
Specifier-flags hexadecimal = (refl, refl, refl)
Specifier-flags capital_hexadecimal = (refl, refl, refl)
Specifier-flags octal = (refl, refl, refl)
Specifier-flags binary = (refl, refl, refl)

pub Specifier-is_integer :
    {c base : ℕ} {signed upper : Bool} → Specifier c signed base upper → is_integer c ≡ true
Specifier-is_integer decimal = refl
Specifier-is_integer integer = refl
Specifier-is_integer unsigned = refl
Specifier-is_integer hexadecimal = refl
Specifier-is_integer capital_hexadecimal = refl
Specifier-is_integer octal = refl
Specifier-is_integer binary = refl

module _ {c base : ℕ} {signed upper : Bool} (specifier : Specifier c signed base upper)
    (d : Directive) (lower : d.flags.uppercase ≡ false)
    (no_prefix : d.flags.hash ≡ true → base ≡ 10) (short_precision : d.precision < 32)
    (short_width : d.flags.zeropad ≡ true → d.flags.has_precision ≡ false → d.width ≤ 32) where
  abbrev ds : ℕ → List ℕ
  ds n = digits_of base d.flags upper n

  abbrev flags' : Flags
  flags' = integer_flags c d.flags

  shape : (is_signed c ≡ signed) × (base_of c ≡ base) × ((c == b'X') ≡ upper)
  shape = Specifier-flags specifier

  reverse-value_digits : (n : ℕ) → reverse (value_digits n base flags') ≡ ds n
  unfolding value_digits integer_flags
  reverse-value_digits n = elim (Bool-cases (d.flags.has_precision && n == 0)) [
    | inl none ↦
        let written : (not d.flags.has_precision || not (n == 0)) ≡ false = ground arith in
        rw (none, written) refl
    | inr written_out ↦
        let written : (not d.flags.has_precision || not (n == 0)) ≡ true = ground arith in
        let capital : (c == b'X' || d.flags.uppercase) ≡ upper = ground (arith, shape, lower) in
        rw (written_out, written, capital) (numeral-write_digits 32 base upper n)
  ]

  long_text-field :
      (minus : Bool) (n : ℕ)
      → (signed ≡ false → minus ≡ false)
      → length (ds n) < 32
      → (d.flags.left ≡ true → d.precision ≤ length (ds n))
      → long_text n minus base d.precision d.width flags'
        ≡ standard_field signed minus d.precision d.width d.flags (ds n)
  unfolding integer_flags
  long_text-field minus n plain short left =
      let same_length : length (value_digits n base flags') ≡ length (ds n) =
        sym (length-reverse (value_digits n base flags'))
        ∙ ap (λ (l : List ℕ). length l) (reverse-value_digits n) in
      let sign : sign_chars minus flags' ≡ (if signed then sign_chars minus d.flags else []) =
        ground (arith, plain, shape.0) in
      long_buffer-padded n minus base d.precision d.width flags'
        (ground (arith, no_prefix, shape.1)) short_precision (omega arith)
        (λ z. ground (arith, short_width)) (λ l. omega (arith, left l))
      ∙ rw (reverse-value_digits n, sign)
          (sym (
            field_parts d.precision d.width (if signed then sign_chars minus d.flags else []) (ds n)
              d.flags.left (d.flags.zeropad && not d.flags.has_precision)))

  -- The number that `_ntoa_long` is given is the one that the argument denotes.
  integer_text-long_text :
      {bits n : ℕ} {minus : Bool}
      → Denotes (type_bits d.flags) bits signed minus n
      → integer_text c d bits ≡ long_text n minus base d.precision d.width flags'
  unfolding is_negative magnitude
  integer_text-long_text (unsigned_value plain) =
      rw (shape.0, shape.1, plain, size_bits-type_bits c d.flags) refl
  integer_text-long_text {bits} (non_negative has_sign small) =
      let sign : leb (2 ^ (type_bits d.flags - 1)) (bits % 2 ^ type_bits d.flags) ≡ false =
        ground (arith, small) in
      rw (shape.0, shape.1, has_sign, size_bits-type_bits c d.flags, sign) refl
  integer_text-long_text {bits} {n} (below_zero has_sign small total) =
      let sign : leb (2 ^ (type_bits d.flags - 1)) (bits % 2 ^ type_bits d.flags) ≡ true =
        ground (arith, halves d.flags, small, total) in
      let value : 2 ^ type_bits d.flags - bits % 2 ^ type_bits d.flags ≡ n = omega (arith, total) in
      rw (shape.0, shape.1, has_sign, size_bits-type_bits c d.flags, sign, value) refl

  pub integer_text-standard :
      {bits n : ℕ} {minus : Bool}
      → Denotes (type_bits d.flags) bits signed minus n
      → length (ds n) < 32
      → (d.flags.left ≡ true → d.precision ≤ length (ds n))
      → integer_text c d bits ≡ standard_field signed minus d.precision d.width d.flags (ds n)
  integer_text-standard {bits} {n} {minus} value short left =
      integer_text-long_text value ∙ long_text-field minus n (Denotes-plain value) short left

  -- For every output function, index below 2^64 and width below 2^32, the integer case of
  -- `_vsnprintf` with one of its seven specifiers takes one argument and writes the field of the C
  -- standard for the value that the argument has in the type of the length modifier, two's
  -- complement if it is signed: blanks, the sign, zeros, the digits, blanks, where `0` is ignored
  -- with `-` or a precision. It holds if no flag asks for capitals, without `#` beside a base
  -- other than 10, with a precision below 32, fewer than 32 digits, a width of at most 32 if `0`
  -- is given without a precision, and a precision of no more than the digits if `-` is given.
  pub convert_integer-standard {ℓ} :
      {S : Type ℓ} (out : OutFct S) (maxlen idx : ℕ) (s : S) (bits : ℕ) (va : List Arg)
      (minus : Bool) (n : ℕ)
      → idx < 2 ^ 64
      → d.width < 2 ^ 32
      → va_arg d.va ≡ some (bits, va)
      → Denotes (type_bits d.flags) bits signed minus n
      → length (digits_of base d.flags upper n) < 32
      → (d.flags.left ≡ true → d.precision ≤ length (digits_of base d.flags upper n))
      → convert_integer out maxlen c d idx s
        ≡ bind
            (emit out maxlen
              (standard_field signed minus d.precision d.width d.flags
                (digits_of base d.flags upper n))
              idx
              s)
            (λ idx'. pure (idx', va))
  convert_integer-standard out maxlen idx s bits va minus n start narrow read value short left =
      convert_integer-emit out maxlen c d bits va idx s narrow start read
      ∙ ap (λ text. bind (emit out maxlen text idx s) (λ idx'. pure (idx', va)))
          (integer_text-standard value short left)
