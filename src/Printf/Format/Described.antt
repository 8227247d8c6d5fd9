-- ===== src/Printf/Format/Described.antt =====
-- `_vsnprintf` as a whole against the C standard, on the formats and arguments where it follows it. The
-- text of a format is described without the functions of the program.
use mega_os.Prelude.{
  ℕ, ◌-◌, ◌%◌, ◌^◌, ◌<◌, ◌≤◌, ◌≡◌, ◌≢◌, refl, subst, ap, ◌∙◌, Bool, true, false, List, [], ◌∷◌,
  ◌++◌, some, arith, if◌then◌else◌, length, take, ltb, replicate, Bool-cases, inl, inr, append-nil,
}
use mega_os.Prelude.{bind, pure}
use mega_os.Printf.Output.{OutFct, Flags, no_flags, emit}
use mega_os.Printf.Directive.{
  Arg, word, str, Directive, va_arg, eval_directive, eval_flags, eval_width, eval_precision,
  eval_length,
}
use mega_os.Printf.Format.{format_out, end_idx}
use mega_os.Printf.Format.Formats.{Formats, end, char, directive, format_out-emit}
use mega_os.Printf.Format.Converts.{Converts, other}
use mega_os.Printf.Format.Render.{field_text, string_text}
use mega_os.Printf.Format.Field.{
  Denotes, Specifier, standard_field, digits_of, type_bits, decimal, integer, unsigned, hexadecimal,
  capital_hexadecimal, octal, binary,
}
use mega_os.Printf.Format.Standard.{integer_text-standard, Specifier-is_integer}
use mega_os.Printf.Format.Reading.{eval_directive-spelled_text}
use mega_os.Printf.Format.Spelled.{
  Spelling, IsSpelling, spelled_text, spelled_flags, spelled_width, spelled_precision, at,
  spelled_flags-lower, IsSpecifier,
}

-- Where the program writes the integer of a directive as the standard has it.
pub record IsCovered (sp : Spelling) (base : ℕ) (ds : List ℕ) : Type 0 where
  pub no_prefix : (spelled_flags sp).hash ≡ true → base ≡ 10
  pub short_precision : spelled_precision sp < 32
  pub short_width :
      (spelled_flags sp).zeropad ≡ true
      → (spelled_flags sp).has_precision ≡ false
      → spelled_width sp ≤ 32
  pub short_digits : length ds < 32
  pub left_digits : (spelled_flags sp).left ≡ true → spelled_precision sp ≤ length ds

-- A text in a field of spaces.
abbrev space_field : Bool → ℕ → List ℕ → List ℕ
space_field left width text =
    let blanks = replicate (width - length text) b' ' in
    if left then text ++ blanks else blanks ++ text

-- The text of a format: plain characters, and directives for integers, characters, strings and `%`.
pub data Describes : List ℕ → List Arg → List ℕ → Type 0 where
  nothing : {va : List Arg} → Describes [] va []
  plain :
      {c : ℕ} {cs : List ℕ} {va : List Arg} {text : List ℕ}
      → c ≢ b'%'
      → Describes cs va text
      → Describes (c ∷ cs) va (c ∷ text)
  percent :
      {cs : List ℕ} {va : List Arg} {text : List ℕ}
      → Describes cs va text
      → Describes (b'%' ∷ b'%' ∷ cs) va (b'%' ∷ text)
  number :
      {sp : Spelling} {c base bits n : ℕ} {signed upper below : Bool} {cs : List ℕ} {va : List Arg}
      {text : List ℕ}
      → IsSpelling sp
      → Specifier c signed base upper
      → Denotes (type_bits (spelled_flags sp)) bits signed below n
      → IsCovered sp base (digits_of base (spelled_flags sp) upper n)
      → Describes cs va text
      → Describes (b'%' ∷ spelled_text sp (c ∷ cs)) (word bits ∷ va) (
          standard_field signed below
            (spelled_precision sp)
            (spelled_width sp)
            (spelled_flags sp)
            (digits_of base (spelled_flags sp) upper n)
          ++ text)
  character :
      {sp : Spelling} {bits : ℕ} {cs : List ℕ} {va : List Arg} {text : List ℕ}
      → IsSpelling sp
      → Describes cs va text
      → Describes
          (b'%' ∷ spelled_text sp (b'c' ∷ cs))
          (word bits ∷ va)
          (space_field (spelled_flags sp).left (spelled_width sp) (bits % 256 ∷ []) ++ text)
  string :
      {sp : Spelling} {address : ℕ} {p cs : List ℕ} {va : List Arg} {text : List ℕ}
      → IsSpelling sp
      → length p < 2 ^ 32
      → Describes cs va text
      → Describes (b'%' ∷ spelled_text sp (b's' ∷ cs)) (str address p ∷ va) (
          space_field
            (spelled_flags sp).left
            (spelled_width sp)
            (if (spelled_flags sp).has_precision then take (spelled_precision sp) p else p)
          ++ text)

Specifier-IsSpecifier :
    {c base : ℕ} {signed upper : Bool} → Specifier c signed base upper → IsSpecifier c
Specifier-IsSpecifier decimal = ground arith
Specifier-IsSpecifier integer = ground arith
Specifier-IsSpecifier unsigned = ground arith
Specifier-IsSpecifier hexadecimal = ground arith
Specifier-IsSpecifier capital_hexadecimal = ground arith
Specifier-IsSpecifier octal = ground arith
Specifier-IsSpecifier binary = ground arith

abbrev spelled_directive : Spelling → ℕ → List ℕ → List Arg → Directive
spelled_directive sp c rest va =
    at (spelled_flags sp) (spelled_width sp) (spelled_precision sp) (c ∷ rest) va

number-Converts :
    {sp : Spelling} {c base bits n : ℕ} {signed upper below : Bool} {cs : List ℕ} {va : List Arg}
    → Specifier c signed base upper
    → Denotes (type_bits (spelled_flags sp)) bits signed below n
    → IsCovered sp base (digits_of base (spelled_flags sp) upper n)
    → Converts
        (spelled_directive sp c cs (word bits ∷ va))
        (standard_field signed below
          (spelled_precision sp)
          (spelled_width sp)
          (spelled_flags sp)
          (digits_of base (spelled_flags sp) upper n))
        va
unfolding va_arg
number-Converts {sp} {c} {base} {bits} {n} {signed} {upper} {below} {cs} {va} specifier value
      covered =
    let d = spelled_directive sp c cs (word bits ∷ va) in
    subst (λ field. Converts d field va)
      (integer_text-standard specifier d (spelled_flags-lower sp) covered.no_prefix
        covered.short_precision covered.short_width value covered.short_digits covered.left_digits)
      (Converts.integer (Specifier-is_integer specifier) refl)

blank_field :
    (flags : Flags) (width : ℕ) (text : List ℕ)
    → field_text flags width text ≡ space_field flags.left width text
blank_field flags width text = elim (Bool-cases flags.left) [
  | inl left ↦ rw left refl
  | inr right ↦ rw (right, append-nil text) refl
]

percent_read :
    (cs : List ℕ) (va : List Arg)
    → eval_directive (b'%' ∷ cs) va ≡ some (at no_flags 0 0 (b'%' ∷ cs) va)
unfolding eval_directive eval_flags eval_width eval_precision eval_length
percent_read cs va = refl

Describes-Formats :
    {format : List ℕ} {va : List Arg} {text : List ℕ}
    → Describes format va text
    → Formats format va text
unfolding va_arg
Describes-Formats nothing = end
Describes-Formats (plain ne rest) = char ne (Describes-Formats rest)
Describes-Formats (percent {cs} {va} rest) =
    directive refl (percent_read cs va) refl (other refl) (Describes-Formats rest)
Describes-Formats
      (number {sp} {c} {base} {bits} {cs = cs} {va = va} spelling specifier value covered rest) =
    directive refl
      (eval_directive-spelled_text sp c cs (word bits ∷ va) spelling
        (Specifier-IsSpecifier specifier))
      refl (number-Converts specifier value covered) (Describes-Formats rest)
Describes-Formats (character {sp} {bits} {cs} {va} spelling rest) =
    directive refl (eval_directive-spelled_text sp b'c' cs (word bits ∷ va) spelling (ground arith))
      refl
      (subst (λ field. Converts (spelled_directive sp b'c' cs (word bits ∷ va)) field va)
        (blank_field (spelled_flags sp) (spelled_width sp) (bits % 256 ∷ []))
        (Converts.char refl refl))
      (Describes-Formats rest)
Describes-Formats (string {sp} {address} {p} {cs} {va} spelling short rest) =
    let d = spelled_directive sp b's' cs (str address p ∷ va) in
    directive refl
      (eval_directive-spelled_text sp b's' cs (str address p ∷ va) spelling (ground arith)) refl
      (subst (λ field. Converts d field va)
        (blank_field (spelled_flags sp) (spelled_width sp) (string_text d p))
        (Converts.string refl refl short))
      (Describes-Formats rest)

end_idx_eq :
    (maxlen idx : ℕ)
    → 0 < maxlen
    → maxlen < 2 ^ 64
    → end_idx maxlen idx ≡ (if ltb idx maxlen then idx else maxlen - 1)
end_idx_eq maxlen idx some_room fits = ground arith

-- For every output function and a buffer size from 1 up to 2^64 - 1, if a format of plain
-- characters, `%%`, and directives for integers, characters and strings, without `*`, has a text
-- shorter than 2^64, `_vsnprintf` emits that text character by character, then a NUL at the index
-- behind it if the buffer has that, else at its last index, and returns the length modulo 2^32.
-- The text is that of the C standard (with `%b`): the flags, width, precision and length are read
-- off the spelling, and an integer is the two's complement value of its argument. Directives are
-- left out where the program does otherwise (`IsCovered`): `#` beside a base other than 10, a
-- precision or digits of 32 or more, `0` without a precision with a width above 32, and `-` with a
-- precision above the digits.
pub format_out-Describes {ℓ} :
    {S : Type ℓ} (out : OutFct S) (maxlen : ℕ) {format : List ℕ} {va : List Arg} {text : List ℕ}
    (s : S)
    → 0 < maxlen
    → maxlen < 2 ^ 64
    → Describes format va text
    → length text < 2 ^ 64
    → format_out out maxlen format va s
      ≡ bind (emit out maxlen text 0 s) (λ _ s'.
        bind
          (out 0 (if ltb (length text) maxlen then length text else maxlen - 1) maxlen s')
          (λ _. pure (length text % 2 ^ 32)))
format_out-Describes out maxlen {format} {va} {text} s some_room fits described short =
    format_out-emit out maxlen s (Describes-Formats described) short
    ∙ ap
        (λ (nul : ℕ).
          bind (emit out maxlen text 0 s)
            (λ _ s'. bind (out 0 nul maxlen s') (λ _. pure (length text % 2 ^ 32))))
        (end_idx_eq maxlen (length text) some_room fits)
