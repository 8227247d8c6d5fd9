-- ===== src/Printf/Format/Converts.antt =====
-- One conversion of `_vsnprintf` as a relation, and that the code does what it says.
use mega_os.Prelude.{
  ℕ, ◌%◌, ◌^◌, ◌<◌, ◌≡◌, refl, sym, ap, ◌∙◌, Bool, true, false, ◌||◌, List, [], ◌∷◌, some, ◌==◌,
  if◌then◌else◌, length, arith, Bool-cases, inl, inr,
}
use mega_os.Prelude.{M, pure, bind, ◌>>◌, bind_assoc}
use mega_os.Printf.Output.{OutFct, Flags, next_idx, emit}
use mega_os.Printf.Integer.{ntoa_long}
use mega_os.Printf.Integer.Standard.{ntoa_long-emit}
use mega_os.Printf.Directive.{Arg, str, va_arg, peek, Directive}
use mega_os.Printf.Directive.Read.{IsRead}
use mega_os.Printf.Format.{
  is_integer, is_signed, base_of, integer_flags, size_bits, is_negative, magnitude, convert_integer,
  convert_char, convert_string, convert_pointer, convert, convert_string_arg,
}
use mega_os.Printf.Format.Render.{
  long_text, integer_text, field_text, string_text, out_string-emit, out_field-emit,
  string_length-text,
}

-- The specifiers with a case of their own that takes an argument.
abbrev pub takes_argument : ℕ → Bool
takes_argument c = is_integer c || (c == b'c' || (c == b's' || c == b'p'))

-- The conversion that `d` and its specifier ask for writes a text, and leaves these arguments.
pub data Converts (d : Directive) : List ℕ → List Arg → Type 0 where
  integer :
      {bits : ℕ} {va : List Arg}
      → is_integer (peek d.rest) ≡ true
      → va_arg d.va ≡ some (bits, va)
      → Converts d (integer_text (peek d.rest) d bits) va
  char :
      {bits : ℕ} {va : List Arg}
      → peek d.rest ≡ b'c'
      → va_arg d.va ≡ some (bits, va)
      → Converts d (field_text d.flags d.width (bits % 2 ^ 8 ∷ [])) va
  string :
      {address : ℕ} {p : List ℕ} {va : List Arg}
      → peek d.rest ≡ b's'
      → d.va ≡ str address p ∷ va
      → length p < 2 ^ 32
      → Converts d (field_text d.flags d.width (string_text d p)) va
  pointer :
      {bits : ℕ} {va : List Arg}
      → peek d.rest ≡ b'p'
      → va_arg d.va ≡ some (bits, va)
      → Converts d
          (long_text
            (bits % 2 ^ 64)
            false
            16
            d.precision
            16
            (record d.flags { zeropad = true; uppercase = true }))
          va
  other : takes_argument (peek d.rest) ≡ false → Converts d (peek d.rest ∷ []) d.va

pub ||-false : (a b : Bool) → (a || b) ≡ false → (a ≡ false) × (b ≡ false)
||-false a b h = ground arith

module _ {ℓ} {S : Type ℓ} (out : OutFct S) (maxlen : ℕ) where
  -- A text is written, and the arguments that are left are returned with the index.
  abbrev pub emit_with : List ℕ → List Arg → ℕ → M S (ℕ × List Arg)
  emit_with text va idx s = bind (emit out maxlen text idx s) (λ i. pure (i, va))

  pub convert_integer-emit :
      (c : ℕ) (d : Directive) (bits : ℕ) (va : List Arg) (idx : ℕ) (s : S)
      → d.width < 2 ^ 32
      → idx < 2 ^ 64
      → va_arg d.va ≡ some (bits, va)
      → convert_integer out maxlen c d idx s ≡ emit_with (integer_text c d bits) va idx s
  unfolding convert_integer
  convert_integer-emit c d bits va idx s hw hi e =
      rw e (ap (λ o. bind o (λ i. pure (i, va))) branches)
    where
      flags : Flags
      flags = integer_flags c d.flags

      branches :
          (if is_signed c
              then ntoa_long out maxlen idx
                  (magnitude (size_bits flags) bits)
                  (is_negative (size_bits flags) bits)
                  (base_of c)
                  d.precision
                  d.width
                  flags
              else ntoa_long out maxlen idx
                  (bits % 2 ^ size_bits flags)
                  false
                  (base_of c)
                  d.precision
                  d.width
                  flags)
            s
          ≡ emit out maxlen (integer_text c d bits) idx s
      branches = elim (Bool-cases (is_signed c)) [
        | inl signed ↦ rw signed (ntoa_long-emit out maxlen idx _ _ _ _ _ _ s hi hw)
        | inr unsigned ↦ rw unsigned (ntoa_long-emit out maxlen idx _ _ _ _ _ _ s hi hw)
      ]

  -- One character, as the cases `'c'`, `'%'` and `default` write it.
  abbrev one_char : ℕ → ℕ → M S ℕ
  one_char c i = out c i maxlen >> pure (next_idx i)

  one_char-emit : (c i : ℕ) (s : S) → one_char c i s ≡ emit out maxlen (c ∷ []) i s
  unfolding emit
  one_char-emit c i s = refl

  convert_char-emit :
      (d : Directive) (bits : ℕ) (va : List Arg) (idx : ℕ) (s : S)
      → va_arg d.va ≡ some (bits, va)
      → convert_char out maxlen d idx s
        ≡ emit_with (field_text d.flags d.width (bits % 2 ^ 8 ∷ [])) va idx s
  unfolding convert_char
  convert_char-emit d bits va idx s e = rw e (
      ap (λ o. bind o (λ i. pure (i, va)))
        (out_field-emit out maxlen d.flags d.width (bits % 2 ^ 8 ∷ []) (one_char (bits % 2 ^ 8)) idx
          s (one_char-emit (bits % 2 ^ 8))))

  convert_string-emit :
      (d : Directive) (address : ℕ) (p : List ℕ) (va : List Arg) (idx : ℕ) (s : S)
      → IsRead d
      → d.va ≡ str address p ∷ va
      → length p < 2 ^ 32
      → convert_string out maxlen d idx s
        ≡ emit_with (field_text d.flags d.width (string_text d p)) va idx s
  unfolding convert_string
  convert_string-emit d address p va idx s read e h =
      ap (λ left. convert_string_arg out maxlen d left idx s) e
      ∙ ap (λ o. bind o (λ i. pure (i, va)))
          (rw (string_length-text d p h read.precision-lt read.no_precision) (
            out_field-emit out maxlen d.flags d.width (string_text d p) _ idx s
              (out_string-emit out maxlen d.flags.has_precision d.precision p)))

  convert_pointer-emit :
      (d : Directive) (bits : ℕ) (va : List Arg) (idx : ℕ) (s : S)
      → idx < 2 ^ 64
      → va_arg d.va ≡ some (bits, va)
      → convert_pointer out maxlen d idx s
        ≡ emit_with
            (long_text
              (bits % 2 ^ 64)
              false
              16
              d.precision
              16
              (record d.flags { zeropad = true; uppercase = true }))
            va
            idx
            s
  unfolding convert_pointer
  convert_pointer-emit d bits va idx s hi e = rw e (
      ap (λ o. bind o (λ i. pure (i, va)))
        (ntoa_long-emit out maxlen idx _ _ _ _ _ _ s hi (omega arith)))

  -- For every output function, index below 2^64 and directive in range, the code of a conversion
  -- emits the text that the relation on conversions gives for it, and leaves the arguments that it
  -- gives.
  pub convert-emit :
      {d : Directive} {text : List ℕ} {va : List Arg} (idx : ℕ) (s : S)
      → IsRead d
      → idx < 2 ^ 64
      → Converts d text va
      → convert out maxlen d idx s ≡ emit_with text va idx s
  unfolding convert
  convert-emit {d} idx s read hi (integer {bits} {va} h e) =
      rw h (convert_integer-emit (peek d.rest) d bits va idx s read.width-lt hi e)
  convert-emit {d} idx s read hi (char {bits} {va} h e) = rw h (convert_char-emit d bits va idx s e)
  convert-emit {d} idx s read hi (string {address} {p} {va} h e l) =
      rw h (convert_string-emit d address p va idx s read e l)
  convert-emit {d} idx s read hi (pointer {bits} {va} h e) =
      rw h (convert_pointer-emit d bits va idx s hi e)
  convert-emit {d} idx s read hi (other h) =
      let (no_integer, rest₁) = ||-false (is_integer (peek d.rest)) _ h in
      let (no_char, rest₂) = ||-false (peek d.rest == b'c') _ rest₁ in
      let (no_string, no_pointer) = ||-false (peek d.rest == b's') (peek d.rest == b'p') rest₂ in
      rw (no_integer, no_char, no_string, no_pointer)
        (unfold emit in sym (bind_assoc (out (peek d.rest) idx maxlen s) _ _))
