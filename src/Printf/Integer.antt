-- ===== src/Printf/Integer.antt =====
-- `_ntoa_format`, `_ntoa_long` and `_ntoa_long_long` of kernel/logging.cpp. On x86-64 `long` and
-- `long long` are both 64 bits wide and the two `_ntoa_long*` have the same text. A buffer is the
-- list of its cells below `len`: `buf[len++] = c` adds a cell at the end, `len--` drops the last.
pub mod Digits
pub mod Padding
pub mod Field
pub mod Standard
pub mod Readback
mod Tests
use mega_os.Prelude.{
  ℕ, zero, suc, ◌+◌, ◌-◌, ◌*◌, ◌/◌, ◌%◌, ◌^◌, Bool, true, false, ◌&&◌, ◌||◌, not, List, [], ◌∷◌,
  ◌++◌, ltb, ◌==◌, if◌then◌else◌, length, drop_last, M,
}
use mega_os.Printf.Output.{OutFct, Flags, out_rev}

-- `PRINTF_NTOA_BUFFER_SIZE`
abbrev pub buffer_size : ℕ
buffer_size = 32

-- `digit < 10 ? '0' + digit : (flags & FLAGS_UPPERCASE ? 'A' : 'a') + digit - 10`
unfoldable pub digit_char : Bool → ℕ → ℕ
digit_char upper digit =
    if ltb digit 10 then b'0' + digit else (if upper then b'A' else b'a') + digit - 10

-- `do { … } while (value && (len < PRINTF_NTOA_BUFFER_SIZE));` with room for so many more cells.
unfoldable pub write_digits : ℕ → ℕ → ℕ → Bool → List ℕ → List ℕ
unfolding digit_char
write_digits zero value base upper buf = buf
write_digits (suc room) value base upper buf =
    let buf' = buf ++ digit_char upper (value % base) ∷ [] in
    let rest = write_digits room (value / base) base upper buf' in
    if value / base == 0 then buf' else rest

-- `while ((len < limit) && (len < PRINTF_NTOA_BUFFER_SIZE)) buf[len++] = '0';` in at most `fuel`
-- rounds.
unfoldable pub write_zeros : ℕ → ℕ → List ℕ → List ℕ
write_zeros zero limit buf = buf
write_zeros (suc fuel) limit buf =
    let rest = write_zeros fuel limit (buf ++ b'0' ∷ []) in
    if ltb (length buf) limit && ltb (length buf) buffer_size then rest else buf

-- `if (len < PRINTF_NTOA_BUFFER_SIZE) buf[len++] = c;`
unfoldable pub put : ℕ → List ℕ → List ℕ
put c buf = if ltb (length buf) buffer_size then buf ++ c ∷ [] else buf

-- `if (width && (flags & FLAGS_ZEROPAD) && (negative || …)) width--;` of the left branch.
unfoldable pub sign_width : Bool → ℕ → Flags → ℕ
sign_width negative width flags =
    if not flags.left
      && (not (width == 0) && flags.zeropad && (negative || (flags.plus || flags.space)))
    then width - 1
    else width

-- `// pad leading zeros`, after the width is taken down
unfoldable pub pad_zeros : ℕ → ℕ → Flags → List ℕ → List ℕ
pad_zeros prec width flags buf =
    if flags.left
    then buf
    else let padded = write_zeros buffer_size prec buf in
      if flags.zeropad then write_zeros buffer_size width padded else padded

-- `// handle hash`, the first half: room is made for the prefix in the padding
unfoldable pub make_room : ℕ → ℕ → ℕ → Flags → List ℕ → List ℕ
make_room base prec width flags buf =
    if not flags.has_precision
      && (not (length buf == 0) && (length buf == prec || length buf == width))
    then (let shorter = drop_last buf in
        if not (length shorter == 0) && base == 16 then drop_last shorter else shorter)
    else buf

-- `// handle hash`
unfoldable pub put_hash : ℕ → ℕ → ℕ → Flags → List ℕ → List ℕ
put_hash base prec width flags buf =
    if flags.hash
    then (let room = make_room base prec width flags buf in
        put b'0' (if base == 16 then put b'x' room else if base == 2 then put b'b' room else room))
    else buf

-- the sign, the `+` or the space
unfoldable pub put_sign : Bool → Flags → List ℕ → List ℕ
put_sign negative flags buf =
    if negative
    then put b'-' buf
    else if flags.plus
    then put b'+' buf
    else if flags.space
    then put b' ' buf
    else buf

-- All that `_ntoa_format` does to the buffer; `width` is the one already taken down.
unfoldable pub format_buffer : Bool → ℕ → ℕ → ℕ → Flags → List ℕ → List ℕ
format_buffer negative base prec width flags buf =
    put_sign negative flags (put_hash base prec width flags (pad_zeros prec width flags buf))

-- `if (!value) flags &= ~FLAGS_HASH;`
unfoldable pub value_flags : ℕ → Flags → Flags
value_flags value flags = if value == 0 then record flags { hash = false } else flags

-- the digits, written if the precision is not given or the value is not 0
unfoldable pub value_digits : ℕ → ℕ → Flags → List ℕ
value_digits value base flags =
    if not flags.has_precision || not (value == 0)
    then write_digits buffer_size value base flags.uppercase []
    else []

module _ {ℓ} {S : Type ℓ} (out : OutFct S) (maxlen : ℕ) where
  -- `_ntoa_format`
  unfoldable pub ntoa_format : ℕ → List ℕ → Bool → ℕ → ℕ → ℕ → Flags → M S ℕ
  ntoa_format idx buf negative base prec width flags =
      let width' = sign_width negative width flags in
      out_rev out maxlen idx (format_buffer negative base prec width' flags buf) width' flags

  -- `_ntoa_long`, and `_ntoa_long_long`
  unfoldable pub ntoa_long : ℕ → ℕ → Bool → ℕ → ℕ → ℕ → Flags → M S ℕ
  ntoa_long idx value negative base prec width flags =
      let flags' = value_flags value flags in
      ntoa_format idx (value_digits value base flags') negative base prec width flags'
