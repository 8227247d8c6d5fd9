-- ===== src/Printf/Format/Typed.antt =====
-- A check of a call's arguments against its format, by the format's characters alone, as a compiler
-- does it for the printf family of kernel/logging.hpp.
use mega_os.Prelude.{
  ℕ, zero, suc, ◌^◌, ◌≤◌, ◌≡◌, refl, ap, ◌∙◌, Bool, true, false, ◌&&◌, ◌||◌, List, [], ◌∷◌, ◌++◌,
  append_assoc, Option, none, some, ltb, ◌==◌, if◌then◌else◌, length, drop, replicate, arith,
  Bool-cases, inl, inr, ==_iff, ltb→lt,
}
use mathlib.Core.Option.{none-ne-some, some-injective}
use mega_os.Printf.Directive.{Arg, word, str, va_arg, arg_bits, peek, Directive, eval_directive}
use mega_os.Printf.Directive.Static.{static, eval_directive-Agrees}
use mega_os.Printf.Format.{is_integer}
use mega_os.Printf.Format.Interpret.{field_of, field_of-Converts, Converts-field_of}
use mega_os.Printf.Format.Converts.{string}
use mega_os.Printf.Format.Formats.{Formats, end, char, directive}

-- What an argument must be: anything, or a string shorter than 2^32.
pub data Kind : Type 0 where
  any text : Kind

-- What a specifier takes.
abbrev pub kinds_of : ℕ → List Kind
kinds_of c =
    if is_integer c || (c == b'c' || c == b'p')
    then any ∷ []
    else if c == b's'
    then text ∷ []
    else []

abbrev in_front : List Kind → Option (List Kind) → Option (List Kind)
in_front kinds none = none
in_front kinds (some more) = some (kinds ++ more)

-- The stars, the specifier, and the rest.
abbrev directive_wants : (List ℕ → Option (List Kind)) → ℕ × List ℕ → Option (List Kind)
directive_wants follow (stars, []) = none
directive_wants follow (stars, specifier ∷ rest) =
    in_front (replicate stars any ++ kinds_of specifier) (follow rest)

-- What the arguments of a format must be, in at most so many rounds; nothing if the format ends in a
-- directive.
unfoldable pub wants : ℕ → List ℕ → Option (List Kind)
wants fuel [] = some []
wants zero (c ∷ cs) = none
wants (suc fuel) (c ∷ cs) =
    let plain = wants fuel cs in
    if c == b'%' then directive_wants (wants fuel) (static cs) else plain

-- Whether the arguments are so; more of them do no harm.
abbrev pub fits : List Kind → List Arg → Bool
fits [] va = true
fits (k ∷ ks) [] = false
fits (any ∷ ks) (a ∷ va) = fits ks va
fits (text ∷ ks) (word w ∷ va) = false
fits (text ∷ ks) (str address p ∷ va) = ltb (length p) (2 ^ 32) && fits ks va

fits-any :
    (n : ℕ) (ks : List Kind) (va : List Arg)
    → fits (replicate n any ++ ks) va ≡ true
    → (n ≤ length va) × (fits ks (drop n va) ≡ true)
fits-any zero ks va h = (omega arith, h)
fits-any (suc n) ks [] h = ground arith
fits-any (suc n) ks (a ∷ va) h = let (enough, rest) = fits-any n ks va h in (omega arith, rest)

fits-word :
    (ks : List Kind) (args : List Arg)
    → fits (any ∷ ks) args ≡ true
    → (bits : ℕ) × (va : List Arg) × ((va_arg args ≡ some (bits, va)) × (fits ks va ≡ true))
unfolding va_arg
fits-word ks [] h = ground arith
fits-word ks (a ∷ va) h = (arg_bits a, va, (refl, h))

&&-both : (a b : Bool) → (a && b) ≡ true → (a ≡ true) × (b ≡ true)
&&-both a b h = ground arith

fits-text :
    (ks : List Kind) (args : List Arg)
    → fits (text ∷ ks) args ≡ true
    → (address : ℕ) × (p : List ℕ) × (va : List Arg) × ((args ≡ str address p ∷ va)
        × (ltb (length p) (2 ^ 32) ≡ true)
        × (fits ks va ≡ true))
fits-text ks [] h = ground arith
fits-text ks (word w ∷ va) h = ground arith
fits-text ks (str address p ∷ va) h =
    let (short, rest) = &&-both (ltb (length p) (2 ^ 32)) (fits ks va) h in
    (address, p, va, (refl, short, rest))

-- A conversion whose arguments fit has a text, and leaves arguments that fit the rest.
HasField : Directive → List Kind → Type 0
HasField d ks = (x : List ℕ × List Arg) × ((field_of d ≡ some x) × (fits ks x.1 ≡ true))

fits-field :
    (d : Directive) (ks : List Kind)
    → fits (kinds_of (peek d.rest) ++ ks) d.va ≡ true
    → HasField d ks
unfolding HasField
fits-field d ks h = elim (Bool-cases (is_integer (peek d.rest))) [
  | inl i ↦
      let (bits, va, (found, rest)) = fits-word ks d.va (rw i at h) in
      rw (i, found) ((_, va), (refl, rest))
  | inr not_i ↦ elim (Bool-cases (peek d.rest == b'c')) [
    | inl c ↦
        let (bits, va, (found, rest)) = fits-word ks d.va (rw (not_i, c) at h) in
        rw (not_i, c, found) ((_, va), (refl, rest))
    | inr not_c ↦ elim (Bool-cases (peek d.rest == b's')) [
      | inl s ↦
          let not_p : (peek d.rest == b'p') ≡ false = ground arith in
          let (address, p, va, (found, short, rest)) =
            fits-text ks d.va (rw (not_i, not_c, not_p, s) at h) in
          (_, (Converts-field_of d (string ((==_iff _ _).0 s) found (ltb→lt _ _ short)), rest))
      | inr not_s ↦ elim (Bool-cases (peek d.rest == b'p')) [
        | inl p ↦
            let (bits, va, (found, rest)) = fits-word ks d.va (rw (not_i, not_c, p) at h) in
            rw (not_i, not_c, not_s, p, found) ((_, va), (refl, rest))
        | inr not_p ↦
            rw (not_i, not_c, not_s, not_p)
              ((peek d.rest ∷ [], d.va), (refl, rw (not_i, not_c, not_s, not_p) at h))
      ]
    ]
  ]
]

in_front-cases :
    (kinds : List Kind) (o : Option (List Kind)) (all : List Kind)
    → in_front kinds o ≡ some all
    → (more : List Kind) × ((o ≡ some more) × (kinds ++ more ≡ all))
in_front-cases kinds none all h = absurd (none-ne-some _ h)
in_front-cases kinds (some more) all h = (more, (refl, some-injective (kinds ++ more) all h))

directive_wants-cases :
    (follow : List ℕ → Option (List Kind)) (stars : ℕ) (rest : List ℕ) (all : List Kind)
    → directive_wants follow (stars, rest) ≡ some all
    → (specifier : ℕ) × (rest' : List ℕ) × (more : List Kind) × ((rest ≡ specifier ∷ rest')
        × (follow rest' ≡ some more)
        × ((replicate stars any ++ kinds_of specifier) ++ more ≡ all))
directive_wants-cases follow stars [] all h = absurd (none-ne-some _ h)
directive_wants-cases follow stars (specifier ∷ rest) all h =
    let (more, (found, whole)) =
      in_front-cases (replicate stars any ++ kinds_of specifier) (follow rest) all h in
    (specifier, rest, more, (refl, found, whole))

-- A directive and its arguments, with what is checked behind it.
fits-directive :
    (cs : List ℕ) (va : List Arg) (specifier : ℕ) (rest : List ℕ) (more : List Kind)
    → (static cs).1 ≡ specifier ∷ rest
    → fits ((replicate (static cs).0 any ++ kinds_of specifier) ++ more) va ≡ true
    → (d : Directive) × ((eval_directive cs va ≡ some d)
        × (d.rest ≡ specifier ∷ rest)
        × HasField d more)
fits-directive cs va specifier rest more at h =
    let stars = (static cs).0 in
    let (enough, behind) =
      fits-any stars (kinds_of specifier ++ more) va
        (rw (append_assoc (replicate stars any) (kinds_of specifier) more) at h) in
    let (d, (reads, stands, left)) = eval_directive-Agrees cs va enough in
    let there = stands ∙ at in
    (
      d,
      (
        reads,
        there,
        fits-field d more (
            ap (λ l. fits (kinds_of (peek l) ++ more) d.va) there
            ∙ ap (fits (kinds_of specifier ++ more)) left
            ∙ behind),
      ),
    )

-- Arguments that fit what a format wants make a text with it.
pub fits-Formats :
    (fuel : ℕ) (format : List ℕ) (kinds : List Kind) (va : List Arg)
    → wants fuel format ≡ some kinds
    → fits kinds va ≡ true
    → (output : List ℕ) × Formats format va output
unfolding wants HasField
fits-Formats fuel [] kinds va w h = ([], end)
fits-Formats zero (c ∷ cs) kinds va w h = absurd (none-ne-some _ w)
fits-Formats (suc fuel) (c ∷ cs) kinds va w h = elim (Bool-cases (c == b'%')) [
  | inl percent ↦
      let (specifier, rest, more, (at, found, whole)) =
        directive_wants-cases (wants fuel) (static cs).0 (static cs).1 kinds (rw percent at w) in
      let (d, (reads, there, (x, (converts, left)))) =
        fits-directive cs va specifier rest more at (ap (λ ks. fits ks va) whole ∙ h) in
      let (tail, follows) = fits-Formats fuel rest more x.1 found left in
      (
        x.0 ++ tail,
        directive ((==_iff _ _).0 percent) reads there (field_of-Converts d x converts) follows,
      )
  | inr plain ↦
      let (tail, follows) = fits-Formats fuel cs kinds va (rw plain at w) h in
      (c ∷ tail, char (λ e. ground arith) follows)
]
