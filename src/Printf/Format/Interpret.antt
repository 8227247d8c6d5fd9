-- ===== src/Printf/Format/Interpret.antt =====
-- The text of one conversion as a function, which agrees with the relation on conversions.
use mathlib.Core.Option.{none-ne-some, some-injective}
use mega_os.Prelude.{
  ℕ, ◌%◌, ◌^◌, ◌<◌, ◌≡◌, refl, sym, ap, ◌∙◌, subst, true, false, List, [], ◌∷◌, Option, none, some,
  ltb, ◌==◌, if◌then◌else◌, length, Bool-cases, Option-cases, inl, inr, ==_iff, ltb→lt, lt→ltb,
}
use mega_os.Printf.Directive.{Arg, word, str, va_arg, peek, Directive}
use mega_os.Printf.Format.{is_integer}
use mega_os.Printf.Format.Render.{long_text, integer_text, field_text, string_text}
use mega_os.Printf.Format.Converts.{Converts, ||-false, integer, char, string, pointer, other}

abbrev pub char_text : Directive → ℕ → List ℕ
char_text d bits = field_text d.flags d.width (bits % 2 ^ 8 ∷ [])

abbrev pub pointer_text : Directive → ℕ → List ℕ
pointer_text d bits =
    long_text (bits % 2 ^ 64) false 16 d.precision 16
      (record d.flags { zeropad = true; uppercase = true })

-- The text of a conversion that takes a word.
abbrev word_field : (ℕ → List ℕ) → Option (ℕ × List Arg) → Option (List ℕ × List Arg)
word_field f none = none
word_field f (some (bits, va)) = some (f bits, va)

-- The text of one that takes a string.
abbrev string_field : Directive → List Arg → Option (List ℕ × List Arg)
string_field d [] = none
string_field d (word w ∷ va) = none
string_field d (str address p ∷ va) =
    if ltb (length p) (2 ^ 32)
    then some (field_text d.flags d.width (string_text d p), va)
    else none

-- What a conversion writes, and the arguments that it leaves.
abbrev pub field_of : Directive → Option (List ℕ × List Arg)
field_of d =
    let c = peek d.rest in
    if is_integer c
    then word_field (integer_text c d) (va_arg d.va)
    else if c == b'c'
    then word_field (char_text d) (va_arg d.va)
    else if c == b's'
    then string_field d d.va
    else if c == b'p'
    then word_field (pointer_text d) (va_arg d.va)
    else some (c ∷ [], d.va)

word_field-Converts :
    (d : Directive) (f : ℕ → List ℕ) (x : List ℕ × List Arg)
    → ((bits : ℕ) (va : List Arg) → va_arg d.va ≡ some (bits, va) → Converts d (f bits) va)
    → word_field f (va_arg d.va) ≡ some x
    → Converts d x.0 x.1
word_field-Converts d f x make h = elim (Option-cases (va_arg d.va)) [
  | inl missing ↦ absurd (none-ne-some _ (ap (word_field f) (sym missing) ∙ h))
  | inr (y, found) ↦
      subst (λ z. Converts d z.0 z.1)
        (some-injective (f y.0, y.1) x (ap (word_field f) (sym found) ∙ h)) (make y.0 y.1 found)
]

string_field-Converts :
    (d : Directive) (args : List Arg) (x : List ℕ × List Arg)
    → ((address : ℕ) (p : List ℕ) (va : List Arg)
        → args ≡ str address p ∷ va
        → length p < 2 ^ 32
        → Converts d (field_text d.flags d.width (string_text d p)) va)
    → string_field d args ≡ some x
    → Converts d x.0 x.1
string_field-Converts d [] x make h = absurd (none-ne-some _ h)
string_field-Converts d (word w ∷ va) x make h = absurd (none-ne-some _ h)
string_field-Converts d (str address p ∷ va) x make h =
    elim (Bool-cases (ltb (length p) (2 ^ 32))) [
      | inl short ↦
          subst (λ z. Converts d z.0 z.1)
            (some-injective (field_text d.flags d.width (string_text d p), va) x (rw short at h))
            (make address p va refl (ltb→lt _ _ short))
      | inr long ↦ absurd (none-ne-some _ (rw long at h))
    ]

-- Every conversion with a text is one of the relation.
pub field_of-Converts :
    (d : Directive) (x : List ℕ × List Arg) → field_of d ≡ some x → Converts d x.0 x.1
field_of-Converts d x h = elim (Bool-cases (is_integer (peek d.rest))) [
  | inl i ↦
      word_field-Converts d (integer_text (peek d.rest) d) x (λ bits va e. integer i e) (rw i at h)
  | inr not_i ↦ elim (Bool-cases (peek d.rest == b'c')) [
    | inl c ↦
        word_field-Converts d (char_text d) x (λ bits va e. char ((==_iff _ _).0 c) e)
          (rw (not_i, c) at h)
    | inr not_c ↦ elim (Bool-cases (peek d.rest == b's')) [
      | inl s ↦
          string_field-Converts d d.va x (λ address p va e l. string ((==_iff _ _).0 s) e l)
            (rw (not_i, not_c, s) at h)
      | inr not_s ↦ elim (Bool-cases (peek d.rest == b'p')) [
        | inl p ↦
            word_field-Converts d (pointer_text d) x (λ bits va e. pointer ((==_iff _ _).0 p) e)
              (rw (not_i, not_c, not_s, p) at h)
        | inr not_p ↦
            subst (λ z. Converts d z.0 z.1)
              (some-injective (peek d.rest ∷ [], d.va) x (rw (not_i, not_c, not_s, not_p) at h))
              (other (rw (not_i, not_c, not_s, not_p) refl))
      ]
    ]
  ]
]

-- And every conversion of the relation has its text.
pub Converts-field_of :
    (d : Directive) {text : List ℕ} {va : List Arg}
    → Converts d text va
    → field_of d ≡ some (text, va)
Converts-field_of d (integer {bits} {va} i e) =
    rw i (ap (word_field (integer_text (peek d.rest) d)) e)
Converts-field_of d (char {bits} {va} c e) = rw c (ap (word_field (char_text d)) e)
Converts-field_of d (string {address} {p} {va} s e l) =
    rw s (ap (string_field d) e ∙ rw (lt→ltb _ _ l) refl)
Converts-field_of d (pointer {bits} {va} p e) = rw p (ap (word_field (pointer_text d)) e)
Converts-field_of d (other h) =
    let (not_i, h₁) = ||-false (is_integer (peek d.rest)) _ h in
    let (not_c, h₂) = ||-false (peek d.rest == b'c') _ h₁ in
    let (not_s, not_p) = ||-false (peek d.rest == b's') (peek d.rest == b'p') h₂ in
    rw (not_i, not_c, not_s, not_p) refl
