-- ===== src/Log/Buffer.antt =====
-- `snprintf`, `vsnprintf` and `sprintf`: what they leave in the buffer, and that they stay in it.
use mega_os.Prelude.{
  ℕ, suc, ◌-◌, ◌<◌, ◌≤◌, ◌%◌, ◌^◌, ◌≡◌, refl, List, [], ◌∷◌, ◌++◌, length, take, take_above,
  drop-suc, get_or, drop, arith, done, min,
}
use mega_os.Printf.Directive.{Arg}
use mega_os.Printf.Format.{vsnprintf_out, end_idx, out_null}
use mega_os.Printf.Format.Formats.{Formats, format_out-emit}
use mega_os.Log.{out_buffer, snprintf, snprintf_null, sprintf, size_max}
use mega_os.Log.Cells.{
  over, set-append, emit_past_end, emit-out_buffer, set_end, le-length-over, out_buffer-set,
  emit-out_null,
}

-- If a format with its arguments describes a text shorter than 2^64, `snprintf` with a count that
-- is not 0, is below 2^64 and is at most the size of the buffer writes as much of the text as fits
-- in front of a NUL, changes nothing behind the NUL, and returns the length of the whole text
-- modulo 2^32.
pub snprintf_lem :
    {format : List ℕ} {va : List Arg} {text : List ℕ} (count : ℕ) (buffer : List ℕ)
    → Formats format va text
    → length text < 2 ^ 64
    → 0 < count
    → count ≤ length buffer
    → count < 2 ^ 64
    → snprintf count format va buffer
      ≡ done
          (length text % 2 ^ 32)
          (take (count - 1) text ++ 0 ∷ drop (suc (min (length text) (count - 1))) buffer)
unfolding snprintf vsnprintf_out
snprintf_lem {text} count buffer formats h pos fits small =
    let n = count - 1 in
    let all : count - 0 ≡ suc n = omega arith in
    let end : end_idx count (length text) ≡ min (length text) n = ground arith in
    rw
      (
        format_out-emit out_buffer count buffer formats h,
        emit-out_buffer count text [] buffer (omega arith) (omega arith),
        all,
        end,
        out_buffer-set count 0 (min (length text) n) (over (take (suc n) text) buffer) (omega arith)
            (omega (arith, le-length-over (take (suc n) text) buffer)),
        set_end n text buffer (omega arith),
      )
      refl

-- If a format with its arguments describes a text shorter than 2^64, `snprintf` with a count of 0
-- writes nothing and returns the length of the text modulo 2^32.
snprintf_zero :
    {format : List ℕ} {va : List Arg} {text : List ℕ} (buffer : List ℕ)
    → Formats format va text
    → length text < 2 ^ 64
    → snprintf 0 format va buffer ≡ done (length text % 2 ^ 32) buffer
unfolding snprintf vsnprintf_out
snprintf_zero {text} buffer formats h =
    let end : end_idx 0 (length text) ≡ 2 ^ 64 - 1 = ground arith in
    rw
      (
        format_out-emit out_buffer 0 buffer formats h,
        emit_past_end 0 text 0 buffer (omega arith) (omega arith),
        end,
      )
      (unfold out_buffer in refl)

-- If a format with its arguments describes a text shorter than the buffer, and the buffer is
-- shorter than 2^64, `sprintf` writes the text and a NUL, changes nothing behind them, and returns
-- the length of the text modulo 2^32.
pub sprintf_lem :
    {format : List ℕ} {va : List Arg} {text : List ℕ} (buffer : List ℕ)
    → Formats format va text
    → length text < length buffer
    → length buffer < 2 ^ 64
    → sprintf format va buffer
      ≡ done (length text % 2 ^ 32) (text ++ 0 ∷ drop (suc (length text)) buffer)
unfolding sprintf vsnprintf_out
sprintf_lem {text} buffer formats fits small =
    let at : min (length text) (size_max - 1) ≡ length text = omega arith in
    let end : end_idx size_max (length text) ≡ length text = ground arith in
    let whole : take (size_max - 0) text ≡ text = take_above (size_max - 0) text (omega arith) in
    rw
      (
        format_out-emit out_buffer size_max buffer formats (omega arith),
        emit-out_buffer size_max text [] buffer (omega arith) (omega arith),
        whole,
        end,
        out_buffer-set size_max 0 (length text) (over text buffer) (omega arith)
            (omega (arith, le-length-over text buffer)),
        drop-suc (length text) buffer 0 (omega arith),
        set-append text (drop (suc (length text)) buffer) (get_or buffer (length text) 0) 0,
      )
      refl

-- If a format with its arguments describes a text shorter than 2^64, `snprintf` with a null buffer
-- writes nowhere, whatever the count, and returns the length of the text modulo 2^32.
snprintf_null_lem :
    {format : List ℕ} {va : List Arg} {text : List ℕ} (count : ℕ)
    → Formats format va text
    → length text < 2 ^ 64
    → snprintf_null count format va tt ≡ done (length text % 2 ^ 32) tt
unfolding snprintf_null vsnprintf_out
snprintf_null_lem {text} count formats h =
    rw (format_out-emit {0} out_null count tt formats h, emit-out_null {0} count text 0 tt) refl

-- If a format with its arguments describes a text shorter than 2^64, `snprintf` with a count of 0
-- leaves the buffer as it is, and with a null buffer it writes nowhere whatever the count; both
-- return the length of the text modulo 2^32.
pub snprintf_nowhere :
    {format : List ℕ} {va : List Arg} {text : List ℕ} (buffer : List ℕ) (count : ℕ)
    → Formats format va text
    → length text < 2 ^ 64
    → (snprintf 0 format va buffer ≡ done (length text % 2 ^ 32) buffer)
      × (snprintf_null count format va tt ≡ done (length text % 2 ^ 32) tt)
snprintf_nowhere buffer count formats h =
    (snprintf_zero buffer formats h, snprintf_null_lem count formats h)
