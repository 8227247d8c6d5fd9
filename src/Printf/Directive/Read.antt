-- ===== src/Printf/Directive/Read.antt =====
-- What holds of each directive that is read.
use mathlib.Core.Option.{none-ne-some}
use mega_os.Prelude.{
  ℕ, ◌+◌, ◌-◌, ◌*◌, ◌%◌, ◌^◌, ◌≤◌, ◌<◌, ◌≡◌, refl, true, false, List, [], ◌∷◌, Option, none, some,
  length, arith,
}
use mega_os.Printf.Output.{Flags, no_flags}
use mega_os.Printf.Directive.{
  Arg, va_arg, advance, atoi, set_flag, eval_flags, Directive, eval_width, eval_digits,
  eval_precision, eval_length, eval_directive,
}

-- Every width and precision is that of an `unsigned int`, and there is none but by its field.
pub record IsRead (d : Directive) : Type 0 where
  pub width-lt : d.width < 2 ^ 32
  pub precision-lt : d.precision < 2 ^ 32
  pub no_precision : d.flags.has_precision ≡ false → d.precision ≡ 0

atoi-lt : (cs : List ℕ) (i : ℕ) → i < 2 ^ 32 → (atoi cs i).0 < 2 ^ 32
unfolding atoi
atoi-lt [] i h = h
atoi-lt (c ∷ cs) i h = ground (arith, atoi-lt cs ((i * 10 + (c - b'0')) % 2 ^ 32))

length-atoi : (cs : List ℕ) (i : ℕ) → length (atoi cs i).1 ≤ length cs
unfolding atoi
length-atoi [] i = omega arith
length-atoi (c ∷ cs) i = ground (arith, length-atoi cs ((i * 10 + (c - b'0')) % 2 ^ 32))

length-advance : (cs : List ℕ) → length (advance cs) ≤ length cs
length-advance [] = omega arith
length-advance (c ∷ cs) = omega arith

set_flag-has_precision :
    (c : ℕ) (flags : Flags) → (set_flag c flags).has_precision ≡ flags.has_precision
unfolding set_flag
set_flag-has_precision c flags = ground arith

eval_flags-has_precision :
    (cs : List ℕ) (flags : Flags) → (eval_flags cs flags).0.has_precision ≡ flags.has_precision
unfolding eval_flags
eval_flags-has_precision [] flags = refl
eval_flags-has_precision (c ∷ cs) flags =
    ground (arith, eval_flags-has_precision cs (set_flag c flags), set_flag-has_precision c flags)

length-eval_flags : (cs : List ℕ) (flags : Flags) → length (eval_flags cs flags).1 ≤ length cs
unfolding eval_flags
length-eval_flags [] flags = omega arith
length-eval_flags (c ∷ cs) flags = ground (arith, length-eval_flags cs (set_flag c flags))

eval_width-IsRead :
    (d e : Directive)
    → IsRead d
    → eval_width d ≡ some e
    → IsRead e × (length e.rest ≤ length d.rest) × (e.precision ≡ d.precision)
unfolding eval_width va_arg
eval_width-IsRead d e read h =
    ground (arith, atoi-lt d.rest 0, length-atoi d.rest 0, length-advance d.rest)

eval_digits-IsRead :
    (d e : Directive)
    → d.width < 2 ^ 32
    → d.flags.has_precision ≡ true
    → d.precision ≡ 0
    → eval_digits d ≡ some e
    → IsRead e × (length e.rest ≤ length d.rest)
unfolding eval_digits va_arg
eval_digits-IsRead d e hw hf hp h =
    ground (arith, atoi-lt d.rest 0, length-atoi d.rest 0, length-advance d.rest)

eval_precision-IsRead :
    (d e : Directive)
    → IsRead d
    → d.precision ≡ 0
    → eval_precision d ≡ some e
    → IsRead e × (length e.rest ≤ length d.rest)
unfolding eval_precision
eval_precision-IsRead d e read hp h = ground (
  arith,
  eval_digits-IsRead
      (record d { flags = record d.flags { has_precision = true }; rest = advance d.rest }) e,
  length-advance d.rest,
)

eval_length-IsRead :
    (d : Directive)
    → IsRead d
    → IsRead (eval_length d) × (length (eval_length d).rest ≤ length d.rest)
unfolding eval_length
eval_length-IsRead d read = ground (arith, length-advance d.rest, length-advance (advance d.rest))

-- The directive that the parser starts with, behind the flags.
abbrev start : List ℕ → List Arg → Directive
start cs va = record {
  flags = (eval_flags cs no_flags).0;
  width = 0;
  precision = 0;
  rest = (eval_flags cs no_flags).1;
  va = va;
}

-- A successful parse goes through all of its steps.
eval_directive_steps :
    (cs : List ℕ) (va : List Arg) (d : Directive)
    → eval_directive cs va ≡ some d
    → (e f : Directive) × (eval_width (start cs va) ≡ some e)
      × (eval_precision e ≡ some f)
      × (eval_length f ≡ d)
unfolding eval_directive
eval_directive_steps cs va d h = steps (eval_width (start cs va)) refl h
  where
    precision_step :
        (e : Directive) (o : Option Directive)
        → eval_precision e ≡ o
        → (elim o [ none ↦ none | some f ↦ some (eval_length f) ]) ≡ some d
        → (f : Directive) × (eval_precision e ≡ some f) × (eval_length f ≡ d)
    precision_step e none q k = absurd (none-ne-some d k)
    precision_step e (some f) q k = (f, q, cc)

    steps :
        (o : Option Directive)
        → eval_width (start cs va) ≡ o
        → (elim o [
          | none ↦ none
          | some e ↦ elim (eval_precision e) [ none ↦ none | some f ↦ some (eval_length f) ]
        ])
          ≡ some d
        → (e f : Directive) × (eval_width (start cs va) ≡ some e)
          × (eval_precision e ≡ some f)
          × (eval_length f ≡ d)
    steps none p k = absurd (none-ne-some d k)
    steps (some e) p k =
        let (f, q, r) = precision_step e (eval_precision e) refl k in (e, f, p, q, r)

-- Every directive that is read has a width and a precision below 2^32, has no precision without
-- its flag, and leaves no more of the format than it was read from.
pub eval_directive-IsRead :
    (cs : List ℕ) (va : List Arg) (d : Directive)
    → eval_directive cs va ≡ some d
    → IsRead d × (length d.rest ≤ length cs)
eval_directive-IsRead cs va d h =
    let (e, f, p, q, r) = eval_directive_steps cs va d h in
    let fits = length-eval_flags cs no_flags in
    let (e-IsRead, e_fits, no_precision) = eval_width-IsRead (start cs va) e (omega arith) p in
    let (f-IsRead, f_fits) = eval_precision-IsRead e f e-IsRead no_precision q in
    let (g-IsRead, g_fits) = eval_length-IsRead f f-IsRead in rw (← r) (g-IsRead, omega arith)
