-- ===== src/Printf/Integer/Standard.antt =====
-- What `_ntoa_long` writes, as a field: spaces, the sign, zeros, the digits, spaces.
use Prim.Native.Nat.{suc-le-suc}
use native.Mathlib.Nat.{le_trans}
use mega_os.Prelude.{
  ℕ, ◌+◌, ◌-◌, ◌≤◌, ◌<◌, ◌^◌, ◌≡◌, ap, ◌∙◌, Bool, true, false, ◌&&◌, not, List, [], ◌++◌,
  append_assoc, arith, if◌then◌else◌, length, replicate, length-append, length-replicate, reverse,
  length-reverse,
}
use mega_os.Printf.Output.{OutFct, Flags, blank, emit}
use mega_os.Printf.Output.Laws.{layout, out_rev-emit}
use mega_os.Printf.Integer.{
  buffer_size, sign_width, format_buffer, value_flags, value_digits, ntoa_format, ntoa_long,
}
use mega_os.Printf.Integer.Padding.{long_buffer, length-long_buffer}
use mega_os.Printf.Integer.Field.{
  sign_chars, front_blanks, back_blanks, sign_width-le, leading_zeros, padded_field, pad_count,
  pad_zeros-replicate, put_sign-append, put_hash_none, reverse_field,
}

module _ (negative : Bool) (base prec width : ℕ) (flags : Flags) (buf : List ℕ)
    (no_hash : flags.hash ≡ false) (short_prec : prec < buffer_size)
    (short_digits : length buf < buffer_size)
    (short_width : flags.zeropad ≡ true → width ≤ buffer_size)
    (left_prec : flags.left ≡ true → prec ≤ length buf) where
  abbrev zeros : ℕ
  zeros = pad_count prec (sign_width negative width flags) flags (length buf)

  zeros_eq : zeros ≡ leading_zeros negative prec width flags (reverse buf)
  unfolding sign_width
  zeros_eq = ground (arith, length-reverse buf)

  zeros_fit : length buf + zeros + length (sign_chars negative flags) ≤ buffer_size
  unfolding sign_width
  zeros_fit = ground arith

  -- What `_ntoa_format` leaves in the buffer.
  buffer_eq :
      format_buffer negative base prec (sign_width negative width flags) flags buf
      ≡ (buf ++ replicate zeros b'0') ++ sign_chars negative flags
  unfolding format_buffer
  buffer_eq =
      rw
        (
          put_hash_none base prec _ flags _ no_hash,
          pad_zeros-replicate prec (sign_width negative width flags) flags buf (omega arith)
              (λ e. le_trans (sign_width-le negative width flags) (short_width e)),
        )
        (put_sign-append negative flags (buf ++ replicate zeros b'0') (
          omega (
            arith,
            zeros_fit,
            length-append buf (replicate zeros b'0'),
            length-replicate {A = ℕ} zeros b'0',
          )))

  abbrev total : ℕ
  total = length ((buf ++ replicate zeros b'0') ++ sign_chars negative flags)

  total_eq : total ≡ length buf + zeros + length (sign_chars negative flags)
  total_eq = omega (
    arith,
    length-append (buf ++ replicate zeros b'0') (sign_chars negative flags),
    length-append buf (replicate zeros b'0'),
    length-replicate {A = ℕ} zeros b'0',
  )

  front_eq :
      (if not flags.left && not flags.zeropad
        then replicate (sign_width negative width flags - total) blank
        else [])
      ≡ replicate (front_blanks negative prec width flags (reverse buf)) blank
  unfolding sign_width
  front_eq = ground (arith, total_eq, length-reverse buf)

  back_eq :
      (if flags.left then replicate (sign_width negative width flags - total) blank else [])
      ≡ replicate (back_blanks negative prec width flags (reverse buf)) blank
  unfolding sign_width
  back_eq = ground (arith, total_eq, length-reverse buf)

  pub field_eq :
      layout
        (format_buffer negative base prec (sign_width negative width flags) flags buf)
        (sign_width negative width flags)
        flags
      ≡ padded_field negative prec width flags (reverse buf)
  field_eq =
      rw (buffer_eq, front_eq, back_eq, reverse_field buf zeros negative flags, zeros_eq)
        (ap (λ l. replicate (front_blanks negative prec width flags (reverse buf)) blank ++ l)
          (append_assoc (sign_chars negative flags) _ _
            ∙ ap (λ l. sign_chars negative flags ++ l) (append_assoc _ (reverse buf) _)))

-- For every output function, `_ntoa_long` is the emission of its buffer's layout.
pub ntoa_long-emit {ℓ} :
    {S : Type ℓ} (out : OutFct S) (maxlen idx value : ℕ) (negative : Bool) (base prec width : ℕ)
    (flags : Flags) (s : S)
    → idx < 2 ^ 64
    → width < 2 ^ 32
    → ntoa_long out maxlen idx value negative base prec width flags s
      ≡ emit out maxlen
          (layout
            (long_buffer value negative base prec width flags)
            (sign_width negative width (value_flags value flags))
            (value_flags value flags))
          idx
          s
unfolding ntoa_long ntoa_format
ntoa_long-emit out maxlen idx value negative base prec width flags s hi hw =
    out_rev-emit out maxlen idx _ _ _ s hi
      (le_trans (suc-le-suc (sign_width-le negative width (value_flags value flags))) hw)
      (omega (arith, length-long_buffer value negative base prec width flags))

value_flags_none :
    (value : ℕ) (flags : Flags) → flags.hash ≡ false → value_flags value flags ≡ flags
unfolding value_flags
value_flags_none value flags h = ground arith

-- Without `#`, with fewer than 32 digits, a precision below 32, a width of at most 32 if `0` is
-- given and a precision of no more than the digits if `-` is, `_ntoa_long` writes spaces, the sign,
-- zeros up to the precision and, with `0`, up to the width, the digits, and spaces.
pub long_buffer-padded :
    (value : ℕ) (negative : Bool) (base prec width : ℕ) (flags : Flags)
    → flags.hash ≡ false
    → prec < buffer_size
    → length (value_digits value base flags) < buffer_size
    → (flags.zeropad ≡ true → width ≤ buffer_size)
    → (flags.left ≡ true → prec ≤ length (value_digits value base flags))
    → layout
        (long_buffer value negative base prec width flags)
        (sign_width negative width (value_flags value flags))
        (value_flags value flags)
      ≡ padded_field negative prec width flags (reverse (value_digits value base flags))
long_buffer-padded value negative base prec width flags nh hp hd hz hl =
    rw (value_flags_none value flags nh)
      (field_eq negative base prec width flags (value_digits value base flags) nh hp hd hz hl)
