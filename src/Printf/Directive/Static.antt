-- ===== src/Printf/Directive/Static.antt =====
-- How a directive is read as far as the format alone tells: how many arguments its stars take, and
-- where its specifier stands. `_vsnprintf` of kernel/logging.cpp, lines 745 to 859.
use mega_os.Prelude.{
  ℕ, ◌+◌, ◌^◌, ◌%◌, ◌≤◌, ◌≡◌, refl, ap, ◌∙◌, true, false, ◌||◌, List, [], ◌∷◌, Option, none, some,
  leb, ◌==◌, if◌then◌else◌, length, drop, length-drop, drop-add, arith, Bool-cases, inl, inr,
}
use mega_os.Printf.Output.{Flags, no_flags}
use mega_os.Printf.Directive.{
  Arg, arg_bits, va_arg, peek, advance, is_digit, atoi, eval_flags, Directive, eval_width,
  eval_digits, eval_precision, eval_length, eval_directive,
}

-- A number or a star: the arguments that it takes, and what is behind it.
unfoldable pub star_field : List ℕ → ℕ × List ℕ
star_field cs =
    if is_digit (peek cs)
    then (0, (atoi cs 0).1)
    else if peek cs == b'*'
    then (1, advance cs)
    else (0, cs)

unfoldable pub precision_field : List ℕ → ℕ × List ℕ
precision_field cs = if peek cs == b'.' then star_field (advance cs) else (0, cs)

unfoldable pub length_field : List ℕ → List ℕ
length_field cs =
    if peek cs == b'l'
    then (if peek (advance cs) == b'l' then advance (advance cs) else advance cs)
    else if peek cs == b'h'
    then (if peek (advance cs) == b'h' then advance (advance cs) else advance cs)
    else if peek cs == b't' || (peek cs == b'j' || peek cs == b'z')
    then advance cs
    else cs

-- The number of stars of a directive, and the format from its specifier on.
unfoldable pub static : List ℕ → ℕ × List ℕ
static cs =
    let (n, rest) = star_field (eval_flags cs no_flags).1 in
    let (m, rest') = precision_field rest in (n + m, length_field rest')

-- A reading that agrees with the static one.
abbrev pub Agrees : Option Directive → ℕ → List ℕ → List Arg → Type 0
Agrees o n rest va = (e : Directive) × ((o ≡ some e) × (e.rest ≡ rest) × (e.va ≡ drop n va))

-- A field that takes an argument has one.
has_argument : (va : List Arg) → 1 ≤ length va → (a : Arg) × (rest : List Arg) × (va ≡ a ∷ rest)
has_argument [] h = elim h [ ]
has_argument (a ∷ va) h = (a, va, refl)

star_takes :
    (rest : List ℕ) (va : List Arg)
    → is_digit (peek rest) ≡ false
    → (peek rest == b'*') ≡ true
    → (star_field rest).0 ≤ length va
    → (a : Arg) × (va' : List Arg) × (va ≡ a ∷ va')
unfolding star_field
star_takes rest va no_digits star h = has_argument va (rw (no_digits, star) at h)

eval_width-Agrees :
    (flags : Flags) (width precision : ℕ) (rest : List ℕ) (va : List Arg)
    → (star_field rest).0 ≤ length va
    → Agrees
        (eval_width
          (record { flags = flags; width = width; precision = precision; rest = rest; va = va }))
        (star_field rest).0
        (star_field rest).1
        va
unfolding eval_width star_field va_arg
eval_width-Agrees flags width precision rest va h = elim (Bool-cases (is_digit (peek rest))) [
  | inl digits ↦ rw digits (_, (refl, refl, refl))
  | inr no_digits ↦ elim (Bool-cases (peek rest == b'*')) [
    | inl star ↦
        let (a, va', e) = star_takes rest va no_digits star h in
        rw (no_digits, star, e)
          (elim (Bool-cases (leb (2 ^ 31) (arg_bits a % 2 ^ 32))) [
            | inl negative ↦ rw negative (_, (refl, refl, refl))
            | inr positive ↦ rw positive (_, (refl, refl, refl))
          ])
    | inr plain ↦ rw (no_digits, plain) (_, (refl, refl, refl))
  ]
]

eval_digits-Agrees :
    (flags : Flags) (width precision : ℕ) (rest : List ℕ) (va : List Arg)
    → (star_field rest).0 ≤ length va
    → Agrees
        (eval_digits
          (record { flags = flags; width = width; precision = precision; rest = rest; va = va }))
        (star_field rest).0
        (star_field rest).1
        va
unfolding eval_digits star_field va_arg
eval_digits-Agrees flags width precision rest va h = elim (Bool-cases (is_digit (peek rest))) [
  | inl digits ↦ rw digits (_, (refl, refl, refl))
  | inr no_digits ↦ elim (Bool-cases (peek rest == b'*')) [
    | inl star ↦
        let (a, va', e) = star_takes rest va no_digits star h in
        rw (no_digits, star, e) (_, (refl, refl, refl))
    | inr plain ↦ rw (no_digits, plain) (_, (refl, refl, refl))
  ]
]

eval_precision-Agrees :
    (d : Directive)
    → (precision_field d.rest).0 ≤ length d.va
    → Agrees (eval_precision d) (precision_field d.rest).0 (precision_field d.rest).1 d.va
unfolding eval_precision precision_field
eval_precision-Agrees d h = elim (Bool-cases (peek d.rest == b'.')) [
  | inl dot ↦ rw dot (
      eval_digits-Agrees (record d.flags { has_precision = true }) d.width d.precision
        (advance d.rest) d.va (rw dot at h))
  | inr no_dot ↦ rw no_dot (_, (refl, refl, refl))
]

eval_length-rest : (d : Directive) → (eval_length d).rest ≡ length_field d.rest
unfolding eval_length length_field
eval_length-rest d = ground arith

eval_length-va : (d : Directive) → (eval_length d).va ≡ d.va
unfolding eval_length
eval_length-va d = ground arith

-- What `eval_directive` does with the width, and then with the precision.
abbrev after_precision : Option Directive → Option Directive
after_precision o = elim o [ none ↦ none | some e ↦ some (eval_length e) ]

abbrev after_width : Option Directive → Option Directive
after_width o = elim o [ none ↦ none | some d ↦ after_precision (eval_precision d) ]

-- The number of stars and the specifier are those of the static reading, if the stars have arguments.
pub eval_directive-Agrees :
    (cs : List ℕ) (va : List Arg)
    → (static cs).0 ≤ length va
    → Agrees (eval_directive cs va) (static cs).0 (static cs).1 va
unfolding eval_directive static
eval_directive-Agrees cs va h =
    let flags = (eval_flags cs no_flags).0 in
    let rest = (eval_flags cs no_flags).1 in
    let n = (star_field rest).0 in
    let m = (precision_field (star_field rest).1).0 in
    let (d, (read, at, left)) = eval_width-Agrees flags 0 0 rest va (omega arith) in
    let fields : precision_field d.rest ≡ precision_field (star_field rest).1 =
      ap precision_field at in
    let fits : (precision_field d.rest).0 ≤ length d.va =
      rw (fields, left) (omega (arith, length-drop n va)) in
    let (e, (read', at', left')) = eval_precision-Agrees d fits in
    (
      eval_length e,
      (
        ap after_width read ∙ ap after_precision read',
        eval_length-rest e ∙ ap length_field (at' ∙ ap (λ f. f.1) fields),
        eval_length-va e ∙ left' ∙ rw (fields, left) (drop-add n m va),
      ),
    )
