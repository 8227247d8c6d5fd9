-- ===== src/Printf/Format.antt =====
-- `_vsnprintf` of kernel/logging.cpp. The build defines PRINTF_DISABLE_SUPPORT_FLOAT and
-- PRINTF_DISABLE_SUPPORT_EXPONENTIAL, so the floating point cases are not compiled, and their
-- specifiers fall under `default`.
pub mod Formats
pub mod Pieces
pub mod Interpret
pub mod Field
pub mod Standard
pub mod Spelled
pub mod Reading
pub mod Described
pub mod Typed
pub mod Total
pub mod Hex
pub mod Keeps
pub mod Render
pub mod Converts
mod Tests
use mega_os.Prelude.{
  ℕ, zero, suc, ◌+◌, ◌-◌, ◌*◌, ◌%◌, ◌^◌, Bool, true, false, ◌&&◌, ◌||◌, not, List, [], ◌∷◌, Option,
  none, some, ltb, leb, ◌==◌, if◌then◌else◌, length, min,
}
use mega_os.Prelude.{M, Stop, fault, spin, pure, stop, bind, ◌>>=◌, ◌>>◌}
use mega_os.Printf.Output.{OutFct, Flags, next_idx, out_spaces}
use mega_os.Printf.Integer.{ntoa_long}
use mega_os.Printf.Directive.{Arg, word, str, va_arg, peek, Directive, eval_directive}

-- A failed `va_arg` is undefined behaviour.
abbrev pub or_fault {ℓ κ} : {S : Type ℓ} {A : Type κ} → Option A → M S A
or_fault none = stop fault
or_fault (some a) = pure a

-- `format++` past a character; past the NUL, what follows is no longer the string.
abbrev pub skip {ℓ} : {S : Type ℓ} → List ℕ → M S (List ℕ)
skip [] = stop fault
skip (c ∷ cs) = pure cs

abbrev pub is_signed : ℕ → Bool
is_signed c = c == b'd' || c == b'i'

-- The specifiers of integers.
abbrev pub is_integer : ℕ → Bool
is_integer c = is_signed c || (c == b'u' || (c == b'x' || (c == b'X' || (c == b'o' || c == b'b'))))

-- `// set the base`
unfoldable pub base_of : ℕ → ℕ
base_of c =
    if c == b'x' || c == b'X' then 16 else if c == b'o' then 8 else if c == b'b' then 2 else 10

-- What the specifier makes of the flags.
unfoldable pub integer_flags : ℕ → Flags → Flags
integer_flags c flags = record flags {
  hash = flags.hash && not (base_of c == 10);
  uppercase = c == b'X' || flags.uppercase;
  plus = flags.plus && is_signed c;
  space = flags.space && is_signed c;
  zeropad = flags.zeropad && not flags.has_precision;
}

-- The width in bits of the type that the argument is converted to.
unfoldable pub size_bits : Flags → ℕ
size_bits flags =
    if flags.long_long_size || flags.long_size
    then 64
    else if flags.char_size
    then 8
    else if flags.short_size
    then 16
    else 32

-- The top bit of a two's complement value, and `value > 0 ? value : 0 - value` as unsigned.
unfoldable pub is_negative : ℕ → ℕ → Bool
is_negative width bits = leb (2 ^ (width - 1)) (bits % 2 ^ width)

unfoldable pub magnitude : ℕ → ℕ → ℕ
unfolding is_negative
magnitude width bits =
    if is_negative width bits then 2 ^ width - bits % 2 ^ width else bits % 2 ^ width

-- `_strnlen_s`, whose result is an `unsigned int`
unfoldable pub strnlen : List ℕ → ℕ → ℕ
strnlen [] maxsize = 0
strnlen (c ∷ cs) zero = 0
strnlen (c ∷ cs) (suc maxsize) = suc (strnlen cs maxsize)

-- `l` of the `%s` case
unfoldable pub string_length : Directive → List ℕ → ℕ
string_length d p =
    let l = strnlen p (if d.precision == 0 then 2 ^ 64 - 1 else d.precision) % 2 ^ 32 in
    if d.flags.has_precision then (if ltb l d.precision then l else d.precision) else l

-- `idx < maxlen ? idx : maxlen - 1U` of the termination
abbrev pub end_idx : ℕ → ℕ → ℕ
end_idx maxlen idx = if ltb idx maxlen then idx else (maxlen + 2 ^ 64 - 1) % 2 ^ 64

module _ {ℓ} {S : Type ℓ} (out : OutFct S) (maxlen : ℕ) where
  -- `while ((*p != 0) && (!(flags & FLAGS_PRECISION) || precision--)) out(*(p++), …);`
  unfoldable pub out_string : Bool → ℕ → List ℕ → ℕ → M S ℕ
  out_string has_precision precision [] idx = pure idx
  out_string has_precision precision (c ∷ cs) idx =
      if not has_precision || not (precision == 0)
      then (do out c idx maxlen; out_string has_precision (precision - 1) cs (next_idx idx))
      else pure idx

  -- A text of `l` characters that `write` puts out, between the spaces of the width.
  unfoldable pub out_field : Flags → ℕ → ℕ → (ℕ → M S ℕ) → ℕ → M S ℕ
  out_field flags width l write idx = do
    i ← if not flags.left then out_spaces out maxlen (width - l) idx else pure idx
    j ← write i
    if flags.left then out_spaces out maxlen (width - l) j else pure j

  -- `case 'd'` to `case 'b'`
  unfoldable pub convert_integer : ℕ → Directive → ℕ → M S (ℕ × List Arg)
  convert_integer c d idx = do
    (bits, va) ← or_fault (va_arg d.va)
    let flags = integer_flags c d.flags
    let size = size_bits flags
    idx' ←
        if is_signed c
        then ntoa_long out maxlen idx (magnitude size bits) (is_negative size bits) (base_of c)
            d.precision d.width flags
        else ntoa_long out maxlen idx (bits % 2 ^ size) false (base_of c) d.precision d.width flags
    pure (idx', va)

  -- `case 'c'`
  unfoldable pub convert_char : Directive → ℕ → M S (ℕ × List Arg)
  convert_char d idx = do
    (bits, va) ← or_fault (va_arg d.va)
    idx' ← out_field d.flags d.width 1 (λ i. out (bits % 2 ^ 8) i maxlen >> pure (next_idx i)) idx
    pure (idx', va)

  -- `case 's'`, on the arguments that are left
  convert_string_arg : Directive → List Arg → ℕ → M S (ℕ × List Arg)
  convert_string_arg d [] idx = stop fault
  convert_string_arg d (word w ∷ va) idx = stop fault
  convert_string_arg d (str address p ∷ va) idx = do
    idx' ←
        out_field d.flags d.width (string_length d p)
          (out_string d.flags.has_precision d.precision p) idx
    pure (idx', va)

  unfoldable pub convert_string : Directive → ℕ → M S (ℕ × List Arg)
  unfolding convert_string_arg
  convert_string d idx = convert_string_arg d d.va idx

  -- `case 'p'`
  unfoldable pub convert_pointer : Directive → ℕ → M S (ℕ × List Arg)
  convert_pointer d idx = do
    (bits, va) ← or_fault (va_arg d.va)
    idx' ←
        ntoa_long out maxlen idx (bits % 2 ^ 64) false 16 d.precision 16
          (record d.flags { zeropad = true; uppercase = true })
    pure (idx', va)

  -- `// evaluate specifier`; the last line is `case '%'` and `default`, which put the character out.
  unfoldable pub convert : Directive → ℕ → M S (ℕ × List Arg)
  convert d idx =
      let c = peek d.rest in
      if is_integer c
      then convert_integer c d idx
      else if c == b'c'
      then convert_char d idx
      else if c == b's'
      then convert_string d idx
      else if c == b'p'
      then convert_pointer d idx
      else out c idx maxlen >> pure (next_idx idx, d.va)

  -- `while (*format) { … }` with the conversions of a build; a round takes at least one character of the
  -- format, so its length is fuel enough.
  unfoldable pub format_loop_with :
      (Directive → ℕ → M S (ℕ × List Arg)) → ℕ → List ℕ → List Arg → ℕ → M S ℕ
  format_loop_with conversion fuel [] va idx = pure idx
  format_loop_with conversion zero (c ∷ cs) va idx = stop spin
  format_loop_with conversion (suc fuel) (c ∷ cs) va idx =
      if c == b'%'
      then (do
        d ← or_fault (eval_directive cs va)
        (idx', va') ← conversion d idx
        rest ← skip d.rest
        format_loop_with conversion fuel rest va' idx')
      else (do out c idx maxlen; format_loop_with conversion fuel cs va (next_idx idx))

  -- The loop of a build without floats.
  unfoldable pub format_loop : ℕ → List ℕ → List Arg → ℕ → M S ℕ
  format_loop = format_loop_with convert

  -- `_vsnprintf` around its loop
  unfoldable pub format_around : (ℕ → List ℕ → List Arg → ℕ → M S ℕ) → List ℕ → List Arg → M S ℕ
  format_around loop format va = do
    idx ← loop (length format) format va 0
    out 0 (end_idx maxlen idx) maxlen
    pure (idx % 2 ^ 32)

  -- `_vsnprintf` with an output function; the result is the bit pattern of an `int`.
  unfoldable pub format_out : List ℕ → List Arg → M S ℕ
  unfolding format_around
  format_out = format_around format_loop

-- `_out_null`
abbrev pub out_null {ℓ} : {S : Type ℓ} → OutFct S
out_null character idx maxlen = pure tt

-- `_vsnprintf`: without a buffer the output function is `_out_null`.
unfoldable pub vsnprintf_out {ℓ} : {S : Type ℓ} → OutFct S → Bool → ℕ → List ℕ → List Arg → M S ℕ
vsnprintf_out out has_buffer maxlen format va =
    if has_buffer then format_out out maxlen format va else format_out out_null maxlen format va
