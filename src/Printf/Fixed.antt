-- ===== src/Printf/Fixed.antt =====
-- `_ftoa` of kernel/logging.cpp for the values that it writes with all their digits. The code stands under
-- `PRINTF_SUPPORT_FLOAT`.
pub mod Digits
pub mod Text
pub mod Standard
pub mod Rounding
pub mod Even
pub mod Overflow
pub mod Readback
use mega_os.Prelude.{
  ℕ, zero, suc, ◌+◌, ◌-◌, ◌*◌, ◌/◌, ◌%◌, ◌^◌, Bool, true, false, ◌&&◌, ◌||◌, not, List, [], ◌∷◌,
  ◌++◌, Option, none, some, ltb, ◌==◌, if◌then◌else◌, length, M, fault, stop,
}
use mega_os.Printf.Double.{Double}
use mega_os.Printf.Output.{OutFct, Flags, out_rev}
use mega_os.Printf.Integer.{write_zeros, put, put_sign, sign_width}

-- `PRINTF_FTOA_BUFFER_SIZE`
abbrev pub ftoa_buffer_size : ℕ
ftoa_buffer_size = 32

-- `PRINTF_DEFAULT_FLOAT_PRECISION`
abbrev pub default_precision : ℕ
default_precision = 6

-- `if (!(flags & FLAGS_PRECISION)) prec = PRINTF_DEFAULT_FLOAT_PRECISION;`
abbrev pub precision_of : ℕ → Flags → ℕ
precision_of prec flags = if flags.has_precision then prec else default_precision

-- `while ((len < PRINTF_FTOA_BUFFER_SIZE) && (prec > 9U)) { buf[len++] = '0'; prec--; }` in at most
-- `fuel` rounds
unfoldable pub limit_precision : ℕ → ℕ → List ℕ → ℕ × List ℕ
limit_precision zero prec buf = (prec, buf)
limit_precision (suc fuel) prec buf =
    let rest = limit_precision fuel (prec - 1) (buf ++ b'0' ∷ []) in
    if ltb (length buf) ftoa_buffer_size && ltb 9 prec then rest else (prec, buf)

-- The loop of the fractional part with room for so many more cells, and `count`, an `unsigned int`.
unfoldable pub frac_digits : ℕ → ℕ → ℕ → List ℕ → ℕ × List ℕ
frac_digits zero frac count buf = (count, buf)
frac_digits (suc room) frac count buf =
    let count' = (count + 2 ^ 32 - 1) % 2 ^ 32 in
    let buf' = buf ++ (b'0' + frac % 10) ∷ [] in
    let rest = frac_digits room (frac / 10) count' buf' in
    if frac / 10 == 0 then (count', buf') else rest

-- `while ((len < PRINTF_FTOA_BUFFER_SIZE) && (count-- > 0U)) buf[len++] = '0';` in at most `fuel`
-- rounds
unfoldable pub extra_zeros : ℕ → ℕ → List ℕ → List ℕ
extra_zeros zero count buf = buf
extra_zeros (suc fuel) count buf =
    let rest = extra_zeros fuel (count - 1) (buf ++ b'0' ∷ []) in
    if ltb (length buf) ftoa_buffer_size && not (count == 0) then rest else buf

-- The loop of the whole part, with room for so many more cells.
unfoldable pub whole_digits : ℕ → ℕ → List ℕ → List ℕ
whole_digits zero whole buf = buf
whole_digits (suc room) whole buf =
    let buf' = buf ++ (b'0' + whole % 10) ∷ [] in
    let rest = whole_digits room (whole / 10) buf' in if whole / 10 == 0 then buf' else rest

-- `room` for a loop over the rest of the buffer
abbrev pub room_of : List ℕ → ℕ
room_of buf = ftoa_buffer_size - length buf

-- The fractional part, if there is a precision: digits, zeros and the point.
unfoldable pub put_fraction : ℕ → ℕ → List ℕ → List ℕ
put_fraction prec frac buf =
    if prec == 0
    then buf
    else (let (count, digits) = frac_digits (room_of buf) frac prec buf in
        put b'.' (extra_zeros ftoa_buffer_size count digits))

-- All that `_ftoa` does to the buffer; `width` is the one already taken down.
unfoldable pub float_buffer : Bool → ℕ → ℕ → ℕ → ℕ → Flags → List ℕ → List ℕ
float_buffer negative whole frac prec width flags buf =
    let fraction = put_fraction prec frac buf in
    let number = whole_digits (room_of fraction) whole fraction in
    put_sign negative flags (
      if not flags.left && flags.zeropad then write_zeros ftoa_buffer_size width number else number)

module _ {ℓ} {W : Type ℓ} ⦃d : Double W⦄ where
  -- `0.5`
  abbrev pub half : W
  half = d.literal 5 1

  -- `if (value < 0) value = 0 - value;`
  abbrev pub magnitude : W → W
  magnitude value = if d.lt value (d.literal 0 0) then d.sub (d.literal 0 0) value else value

  -- `pow10[prec]`; an index past the table is a fault
  unfoldable pub pow10 : ℕ → Option W
  pow10 prec = if ltb prec 10 then some (d.literal (10 ^ prec) 0) else none

  -- What follows `diff = tmp - frac`: the whole part and the fractional part.
  unfoldable pub round_fraction : W → W → ℕ → ℕ → ℕ × ℕ
  round_fraction diff scale whole frac =
      if d.lt half diff
      then (if not (d.lt (d.of_nat (frac + 1)) scale) then (whole + 1, 0) else (whole, frac + 1))
      else if d.lt diff half
      then (whole, frac)
      else if frac == 0 || frac % 2 == 1
      then (whole, frac + 1)
      else (whole, frac)

  -- The branch of `prec == 0U`.
  unfoldable pub round_whole : W → ℕ → ℕ
  round_whole value whole =
      let diff = d.sub value (d.of_nat whole) in
      if (not (d.lt diff half) || d.lt half diff) && whole % 2 == 1 then whole + 1 else whole

  -- The two parts of a value that is not negative, for a precision and its power of ten.
  unfoldable pub parts : W → ℕ → W → ℕ × ℕ
  parts value prec scale =
      let whole = d.truncated value in
      let tmp = d.mul (d.sub value (d.of_nat whole)) scale in
      let frac = d.truncated tmp in
      let (whole', frac') = round_fraction (d.sub tmp (d.of_nat frac)) scale whole frac in
      (if prec == 0 then round_whole value whole' else whole', frac')

  module _ {κ} {S : Type κ} (out : OutFct S) (maxlen : ℕ) where
    -- `_ftoa` from the power of ten on, for a value that is not negative and a precision that has been taken down.
    abbrev pub ftoa_parts : Option W → ℕ → W → Bool → ℕ → List ℕ → ℕ → Flags → M S ℕ
    ftoa_parts none idx value negative prec buf width flags = stop fault
    ftoa_parts (some scale) idx value negative prec buf width flags =
        let (whole, frac) = parts value prec scale in
        let width' = sign_width negative width flags in
        out_rev out maxlen idx (float_buffer negative whole frac prec width' flags buf) width' flags

    -- `_ftoa` from `// test for negative` on
    unfoldable pub ftoa_fixed : ℕ → W → ℕ → ℕ → Flags → M S ℕ
    ftoa_fixed idx value prec width flags =
        let (limited, buf) = limit_precision ftoa_buffer_size (precision_of prec flags) [] in
        ftoa_parts (pow10 limited) idx (magnitude value) (d.lt value (d.literal 0 0)) limited buf
          width flags
