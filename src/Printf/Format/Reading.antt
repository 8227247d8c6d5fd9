-- ===== src/Printf/Format/Reading.antt =====
-- `_vsnprintf` reads a directive as it is spelled (Format/Spelled).
use mega_os.Prelude.{
  ℕ, ◌≤◌, ◌<◌, ◌^◌, ◌≡◌, ◌≢◌, refl, ap, ◌∙◌, true, false, ◌||◌, List, [], ◌∷◌, ◌++◌, some, ◌==◌,
  arith, inl, inr, ◌⊎◌,
}
use mega_os.Printf.Output.{Flags, no_flags}
use mega_os.Printf.Integer.Readback.{read_number, Decimal, atoi-read_number}
use mega_os.Printf.Directive.{
  Arg, Directive, eval_directive, eval_flags, set_flag, eval_width, eval_precision, eval_digits,
  eval_length, atoi, is_digit, is_flag, peek,
}
use mega_os.Printf.Format.Spelled.{
  Flag, minus, plus, space, zero, hash, flag_text, with_flags, Modifier, no_modifier, hh, h, l, ll,
  t, j, z, modifier_text, with_modifier, IsSpecifier, Precision, no_precision, dot, precision_text,
  precision_value, with_precision, IsPrecision, Spelling, IsSpelling, spelled_text, spelled_flags,
  spelled_width, spelled_precision, at,
}

eval_flags-flag_text :
    (fs : List Flag) (rest : List ℕ) (flags : Flags)
    → is_flag (peek rest) ≡ false
    → eval_flags (flag_text fs ++ rest) flags ≡ (with_flags fs flags, rest)
unfolding eval_flags set_flag
eval_flags-flag_text [] [] flags ends = refl
eval_flags-flag_text [] (c ∷ rest) flags ends = rw ends refl
eval_flags-flag_text (minus ∷ fs) rest flags ends = eval_flags-flag_text fs rest _ ends
eval_flags-flag_text (plus ∷ fs) rest flags ends = eval_flags-flag_text fs rest _ ends
eval_flags-flag_text (space ∷ fs) rest flags ends = eval_flags-flag_text fs rest _ ends
eval_flags-flag_text (zero ∷ fs) rest flags ends = eval_flags-flag_text fs rest _ ends
eval_flags-flag_text (hash ∷ fs) rest flags ends = eval_flags-flag_text fs rest _ ends

module _ (c : ℕ) (rest : List ℕ) (letter : IsSpecifier c) where
  modified-letter : (m : Modifier) → 65 ≤ peek (modifier_text m ++ c ∷ rest)
  modified-letter no_modifier = letter.0
  modified-letter hh = omega arith
  modified-letter h = omega arith
  modified-letter l = omega arith
  modified-letter ll = omega arith
  modified-letter t = omega arith
  modified-letter j = omega arith
  modified-letter z = omega arith

  not_l : (c == b'l') ≡ false
  not_l = ground (arith, letter)

  not_h : (c == b'h') ≡ false
  not_h = ground (arith, letter)

  no_other : (c == b't' || (c == b'j' || c == b'z')) ≡ false
  no_other = ground (arith, letter)

  eval_length-modifier_text :
      (m : Modifier) (flags : Flags) (width precision : ℕ) (va : List Arg)
      → eval_length (at flags width precision (modifier_text m ++ c ∷ rest) va)
        ≡ at (with_modifier m flags) width precision (c ∷ rest) va
  unfolding eval_length
  eval_length-modifier_text no_modifier flags width precision va = rw (not_l, not_h, no_other) refl
  eval_length-modifier_text hh flags width precision va = refl
  eval_length-modifier_text h flags width precision va = rw not_h refl
  eval_length-modifier_text l flags width precision va = rw not_l refl
  eval_length-modifier_text ll flags width precision va = refl
  eval_length-modifier_text t flags width precision va = refl
  eval_length-modifier_text j flags width precision va = refl
  eval_length-modifier_text z flags width precision va = refl

-- `atoi` of digits, of which there may be none.
module _ (ds rest : List ℕ) (digits : Decimal ds) (ends : 65 ≤ peek rest ⊎ (peek rest ≡ b'.'))
    (small : read_number 10 ds 0 < 2 ^ 32) where
  no_digit : is_digit (peek rest) ≡ false
  no_digit = ground (arith, ends)

  atoi-digits : atoi (ds ++ rest) 0 ≡ (read_number 10 ds 0, rest)
  atoi-digits = atoi-read_number ds rest 0 digits no_digit small

eval_width-digits :
    (ds rest : List ℕ) (flags : Flags) (va : List Arg)
    → Decimal ds
    → 65 ≤ peek rest ⊎ (peek rest ≡ b'.')
    → read_number 10 ds 0 < 2 ^ 32
    → eval_width (at flags 0 0 (ds ++ rest) va) ≡ some (at flags (read_number 10 ds 0) 0 rest va)
unfolding eval_width
eval_width-digits [] rest flags va digits ends small =
    let digit : is_digit (peek rest) ≡ false = ground (arith, ends) in
    let star : (peek rest == b'*') ≡ false = ground (arith, ends) in rw (digit, star) refl
eval_width-digits (x ∷ ds) rest flags va digits ends small =
    rw (digits.0, atoi-digits (x ∷ ds) rest digits ends small) refl

eval_digits-digits :
    (ds rest : List ℕ) (flags : Flags) (width : ℕ) (va : List Arg)
    → Decimal ds
    → 65 ≤ peek rest
    → read_number 10 ds 0 < 2 ^ 32
    → eval_digits (at flags width 0 (ds ++ rest) va)
      ≡ some (at flags width (read_number 10 ds 0) rest va)
unfolding eval_digits
eval_digits-digits [] rest flags width va digits ends small =
    let digit : is_digit (peek rest) ≡ false = ground (arith, ends) in
    let star : (peek rest == b'*') ≡ false = ground (arith, ends) in rw (digit, star) refl
eval_digits-digits (x ∷ ds) rest flags width va digits ends small =
    rw (digits.0, atoi-digits (x ∷ ds) rest digits (inl ends) small) refl

eval_precision-text :
    (p : Precision) (rest : List ℕ) (flags : Flags) (width : ℕ) (va : List Arg)
    → IsPrecision p
    → 65 ≤ peek rest
    → eval_precision (at flags width 0 (precision_text p ++ rest) va)
      ≡ some (at (with_precision p flags) width (precision_value p) rest va)
unfolding eval_precision
eval_precision-text no_precision rest flags width va precise ends =
    let no_dot : (peek rest == b'.') ≡ false = ground (arith, ends) in rw no_dot refl
eval_precision-text (dot ds) rest flags width va (digits, small) ends =
    eval_digits-digits ds rest (record flags { has_precision = true }) width va digits ends small

precision-ends :
    (p : Precision) (rest : List ℕ)
    → 65 ≤ peek rest
    → 65 ≤ peek (precision_text p ++ rest) ⊎ (peek (precision_text p ++ rest) ≡ b'.')
precision-ends no_precision rest ends = inl ends
precision-ends (dot ds) rest ends = inr refl

no_flag :
    (ds rest : List ℕ)
    → Decimal ds
    → peek ds ≢ b'0'
    → 65 ≤ peek rest ⊎ (peek rest ≡ b'.')
    → is_flag (peek (ds ++ rest)) ≡ false
no_flag [] rest digits no_zero ends = ground (arith, ends)
no_flag (x ∷ ds) rest (digit, digits) no_zero ends = ground (arith, no_zero, digit)

eval_directive-steps :
    (format rest : List ℕ) (va : List Arg) (flags : Flags) (d e : Directive)
    → eval_flags format no_flags ≡ (flags, rest)
    → eval_width (at flags 0 0 rest va) ≡ some d
    → eval_precision d ≡ some e
    → eval_directive format va ≡ some (eval_length e)
unfolding eval_directive
eval_directive-steps format rest va flags d e flags_read width_read precision_read =
    rw (eval_directive, flags_read, width_read, precision_read) refl

-- The program reads a directive as it is spelled.
pub eval_directive-spelled_text :
    (sp : Spelling) (c : ℕ) (rest : List ℕ) (va : List Arg)
    → IsSpelling sp
    → IsSpecifier c
    → eval_directive (spelled_text sp (c ∷ rest)) va
      ≡ some (at (spelled_flags sp) (spelled_width sp) (spelled_precision sp) (c ∷ rest) va)
eval_directive-spelled_text sp c rest va spelling letter =
    let letters = modified-letter c rest letter sp.modifier in
    let tail = modifier_text sp.modifier ++ c ∷ rest in
    let ends = precision-ends sp.precision tail letters in
    let flags = with_flags sp.flags no_flags in
    eval_directive-steps (spelled_text sp (c ∷ rest)) _ va flags
      (at flags (spelled_width sp) 0 (precision_text sp.precision ++ tail) va)
      (at (with_precision sp.precision flags) (spelled_width sp) (spelled_precision sp) tail va)
      (eval_flags-flag_text sp.flags (sp.width ++ (precision_text sp.precision ++ tail)) no_flags
        (no_flag sp.width _ spelling.digits spelling.no_zero ends))
      (eval_width-digits sp.width (precision_text sp.precision ++ tail) flags va spelling.digits
        ends spelling.narrow)
      (eval_precision-text sp.precision tail flags (spelled_width sp) va spelling.precise letters)
    ∙ ap (λ d. some d)
        (eval_length-modifier_text c rest letter sp.modifier (with_precision sp.precision flags)
          (spelled_width sp) (spelled_precision sp) va)
