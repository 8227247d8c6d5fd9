-- ===== src/Printf/Directive.antt =====
-- What `_vsnprintf` of kernel/logging.cpp reads behind a `%`: flags, width, precision and length. A
-- format pointer is the list of the characters from it up to the terminating NUL, which is not in
-- the list.
pub mod Read
pub mod Static
mod Tests
use mega_os.Prelude.{
  ℕ, zero, suc, ◌+◌, ◌-◌, ◌*◌, ◌%◌, ◌^◌, Bool, true, false, ◌&&◌, ◌||◌, List, [], ◌∷◌, Option, none,
  some, ltb, leb, ◌==◌, if◌then◌else◌,
}
use mega_os.Printf.Output.{Flags, no_flags}

-- An argument of the call: a word of 64 bits, or a pointer to a string, with its address.
pub data Arg : Type 0 where
  word : ℕ → Arg
  str : ℕ → List ℕ → Arg

-- The 64 bits of an argument.
abbrev pub arg_bits : Arg → ℕ
arg_bits (word w) = w
arg_bits (str address chars) = address

-- `va_arg` of a type of at most 64 bits. There is no argument left: undefined behaviour.
unfoldable pub va_arg : List Arg → Option (ℕ × List Arg)
va_arg [] = none
va_arg (a ∷ va) = some (arg_bits a, va)

-- `*format`
abbrev pub peek : List ℕ → ℕ
peek [] = 0
peek (c ∷ cs) = c

-- `format++`, where `*format` is not the NUL.
abbrev pub advance : List ℕ → List ℕ
advance [] = []
advance (c ∷ cs) = cs

-- `_is_digit`
abbrev pub is_digit : ℕ → Bool
is_digit ch = leb b'0' ch && leb ch b'9'

-- `_atoi`, from the number read so far, on a 32-bit `unsigned int`
unfoldable pub atoi : List ℕ → ℕ → ℕ × List ℕ
atoi [] i = (i, [])
atoi (c ∷ cs) i =
    let rest = atoi cs ((i * 10 + (c - b'0')) % 2 ^ 32) in if is_digit c then rest else (i, c ∷ cs)

-- The characters that the flag loop takes.
abbrev pub is_flag : ℕ → Bool
is_flag c = c == b'0' || (c == b'-' || (c == b'+' || (c == b' ' || c == b'#')))

-- `flags |= …` for such a character
unfoldable pub set_flag : ℕ → Flags → Flags
set_flag c flags =
    if c == b'0'
    then record flags { zeropad = true }
    else if c == b'-'
    then record flags { left = true }
    else if c == b'+'
    then record flags { plus = true }
    else if c == b' '
    then record flags { space = true }
    else record flags { hash = true }

-- `// evaluate flags`
unfoldable pub eval_flags : List ℕ → Flags → Flags × List ℕ
eval_flags [] flags = (flags, [])
eval_flags (c ∷ cs) flags =
    let rest = eval_flags cs (set_flag c flags) in if is_flag c then rest else (flags, c ∷ cs)

-- What stands behind a `%`, and what is left of the format and of the arguments.
pub record Directive : Type 0 where
  pub flags : Flags
  pub width : ℕ
  pub precision : ℕ
  pub rest : List ℕ
  pub va : List Arg

-- `// evaluate width field`; the `int` is negative if its top bit is set.
unfoldable pub eval_width : Directive → Option Directive
eval_width d =
    if is_digit (peek d.rest)
    then (let (w, rest) = atoi d.rest 0 in some (record d { width = w; rest = rest }))
    else if peek d.rest == b'*'
    then elim (va_arg d.va) [
      | none ↦ none
      | some (bits, va) ↦
          let w = bits % 2 ^ 32 in
          if leb (2 ^ 31) w
          then some (record d {
            flags = record d.flags { left = true };
            width = 2 ^ 32 - w;
            rest = advance d.rest;
            va = va;
          })
          else some (record d { width = w; rest = advance d.rest; va = va })
    ]
    else some d

-- The digits or the `*` behind the dot.
unfoldable pub eval_digits : Directive → Option Directive
eval_digits d =
    if is_digit (peek d.rest)
    then (let (p, rest) = atoi d.rest 0 in some (record d { precision = p; rest = rest }))
    else if peek d.rest == b'*'
    then elim (va_arg d.va) [
      | none ↦ none
      | some (bits, va) ↦
          let p = bits % 2 ^ 32 in
          some (record d {
            precision = if leb (2 ^ 31) p then 0 else p;
            rest = advance d.rest;
            va = va;
          })
    ]
    else some d

-- `// evaluate precision field`
unfoldable pub eval_precision : Directive → Option Directive
eval_precision d =
    if peek d.rest == b'.'
    then eval_digits
        (record d { flags = record d.flags { has_precision = true }; rest = advance d.rest })
    else some d

-- `// evaluate length field`; `ptrdiff_t`, `intmax_t` and `size_t` have the size of `long`.
unfoldable pub eval_length : Directive → Directive
eval_length d =
    if peek d.rest == b'l'
    then (if peek (advance d.rest) == b'l'
        then record d {
          flags = record d.flags { long_size = true; long_long_size = true };
          rest = advance (advance d.rest);
        }
        else record d { flags = record d.flags { long_size = true }; rest = advance d.rest })
    else if peek d.rest == b'h'
    then (if peek (advance d.rest) == b'h'
        then record d {
          flags = record d.flags { short_size = true; char_size = true };
          rest = advance (advance d.rest);
        }
        else record d { flags = record d.flags { short_size = true }; rest = advance d.rest })
    else if peek d.rest == b't' || (peek d.rest == b'j' || peek d.rest == b'z')
    then record d { flags = record d.flags { long_size = true }; rest = advance d.rest }
    else d

-- All that is read between the `%` and the specifier.
unfoldable pub eval_directive : List ℕ → List Arg → Option Directive
eval_directive format va =
    let (flags, rest) = eval_flags format no_flags in
    elim (eval_width (record { flags = flags; width = 0; precision = 0; rest = rest; va = va })) [
      | none ↦ none
      | some d ↦ elim (eval_precision d) [ none ↦ none | some e ↦ some (eval_length e) ]
    ]
