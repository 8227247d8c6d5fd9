-- ===== src/Printf/Integer/Padding.antt =====
-- The buffer of `_ntoa_format` stays within its 32 cells, and what the zero padding adds to it.
use native.Mathlib.Nat.{le_trans}
use mega_os.Prelude.{
  ℕ, zero, suc, ◌+◌, ◌-◌, ◌≤◌, ◌≡◌, sym, ◌∙◌, Bool, ◌&&◌, List, [], ◌∷◌, ◌++◌, append_assoc,
  append-nil, arith, ltb, length, replicate, drop_last, Bool-cases, inl, inr, min, length-append,
  length-replicate, length-drop_last,
}
use mega_os.Printf.Output.{Flags}
use mega_os.Printf.Integer.{
  buffer_size, write_zeros, put, sign_width, pad_zeros, make_room, put_hash, put_sign,
  format_buffer, value_flags, value_digits,
}
use mega_os.Printf.Integer.Digits.{length-write_digits}

-- A padding loop adds zeros up to its limit or the end of the buffer.
pub write_zeros-replicate :
    (fuel limit : ℕ) (buf : List ℕ)
    → buffer_size ≤ length buf + fuel
    → write_zeros fuel limit buf ≡ buf ++ replicate (min limit buffer_size - length buf) b'0'
unfolding write_zeros
write_zeros-replicate zero limit buf h =
    let none_left : min limit buffer_size - length buf ≡ 0 = omega arith in
    rw none_left (sym (append-nil buf))
write_zeros-replicate (suc fuel) limit buf h =
    elim (Bool-cases (ltb (length buf) limit && ltb (length buf) buffer_size)) [
      | inl more ↦
          let split : min limit buffer_size - length buf
              ≡ suc (min limit buffer_size - length (buf ++ b'0' ∷ [])) =
            ground (arith, length-append buf (b'0' ∷ [])) in
          rw (more, split)
            (write_zeros-replicate fuel limit (buf ++ b'0' ∷ [])
                (omega (arith, length-append buf (b'0' ∷ [])))
              ∙ append_assoc buf (b'0' ∷ []) _)
      | inr full ↦
          let none_left : min limit buffer_size - length buf ≡ 0 = ground arith in
          rw (full, none_left) (sym (append-nil buf))
    ]

length-write_zeros :
    (fuel limit : ℕ) (buf : List ℕ)
    → buffer_size ≤ length buf + fuel
    → length buf ≤ buffer_size
    → length (write_zeros fuel limit buf) ≤ buffer_size
length-write_zeros fuel limit buf h le = rw (write_zeros-replicate fuel limit buf h) (
    omega (
      arith,
      length-append buf (replicate (min limit buffer_size - length buf) b'0'),
      length-replicate {A = ℕ} (min limit buffer_size - length buf) b'0',
    ))

length-put : (c : ℕ) (buf : List ℕ) → length buf ≤ buffer_size → length (put c buf) ≤ buffer_size
unfolding put
length-put c buf h = ground (arith, length-append buf (c ∷ []))

length-pad_zeros :
    (prec width : ℕ) (flags : Flags) (buf : List ℕ)
    → length buf ≤ buffer_size
    → length (pad_zeros prec width flags buf) ≤ buffer_size
unfolding pad_zeros
length-pad_zeros prec width flags buf h =
    let once : length (write_zeros buffer_size prec buf) ≤ buffer_size =
      length-write_zeros buffer_size prec buf (omega arith) h in
    ground (
      arith,
      once,
      length-write_zeros buffer_size width (write_zeros buffer_size prec buf) (omega arith) once,
    )

length-make_room :
    (base prec width : ℕ) (flags : Flags) (buf : List ℕ)
    → length (make_room base prec width flags buf) ≤ length buf
unfolding make_room
length-make_room base prec width flags buf =
    ground (arith, length-drop_last buf, length-drop_last (drop_last buf))

length-put_hash :
    (base prec width : ℕ) (flags : Flags) (buf : List ℕ)
    → length buf ≤ buffer_size
    → length (put_hash base prec width flags buf) ≤ buffer_size
unfolding put_hash
length-put_hash base prec width flags buf h =
    let room = make_room base prec width flags buf in
    let fits : length room ≤ buffer_size =
      le_trans (length-make_room base prec width flags buf) h in
    ground (
      arith,
      length-put b'x' room fits,
      length-put b'b' room fits,
      length-put b'0' room fits,
      length-put b'0' (put b'x' room),
      length-put b'0' (put b'b' room),
    )

length-put_sign :
    (negative : Bool) (flags : Flags) (buf : List ℕ)
    → length buf ≤ buffer_size
    → length (put_sign negative flags buf) ≤ buffer_size
unfolding put_sign
length-put_sign negative flags buf h =
    ground (arith, length-put b'-' buf h, length-put b'+' buf h, length-put b' ' buf h)

-- Whatever the digits and the arguments, `_ntoa_format` keeps `len` within the buffer.
pub length-format_buffer :
    (negative : Bool) (base prec width : ℕ) (flags : Flags) (buf : List ℕ)
    → length buf ≤ buffer_size
    → length (format_buffer negative base prec width flags buf) ≤ buffer_size
length-format_buffer negative base prec width flags buf h =
    unfold format_buffer in
    length-put_sign negative flags _
      (length-put_hash base prec width flags _ (length-pad_zeros prec width flags buf h))

length-value_digits :
    (value base : ℕ) (flags : Flags) → length (value_digits value base flags) ≤ buffer_size
unfolding value_digits
length-value_digits value base flags =
    ground (arith, length-write_digits buffer_size value base flags.uppercase)

-- What `_ntoa_long` has in the buffer when it calls `_out_rev`.
abbrev pub long_buffer : ℕ → Bool → ℕ → ℕ → ℕ → Flags → List ℕ
long_buffer value negative base prec width flags =
    let flags' = value_flags value flags in
    format_buffer negative base prec (sign_width negative width flags') flags'
      (value_digits value base flags')

-- For any value, base, precision, width and flags, `_ntoa_long` and `_ntoa_format` never use more
-- than the 32 cells of the buffer.
pub length-long_buffer :
    (value : ℕ) (negative : Bool) (base prec width : ℕ) (flags : Flags)
    → length (long_buffer value negative base prec width flags) ≤ buffer_size
length-long_buffer value negative base prec width flags =
    length-format_buffer negative base prec _ _ _ (length-value_digits value base _)
