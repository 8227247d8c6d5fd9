-- ===== src/Printf/Fixed/Standard.antt =====
-- `_ftoa` (kernel/logging.cpp) for a value that it writes with all its digits, against a field: spaces,
-- the sign, zeros, the number, spaces.
use native.Mathlib.Nat.{le_trans}
use Prim.Native.Nat.{suc-le-suc}
use mega_os.Prelude.{
  ℕ, ◌-◌, ◌^◌, ◌≤◌, ◌<◌, ◌≡◌, refl, ap, ◌∙◌, Bool, true, List, [], ◌++◌, arith, ltb, length,
  replicate, length-append, length-replicate, length-reverse, min,
}
use mega_os.Printf.Double.{Double}
use mega_os.Printf.Output.{OutFct, Flags, emit}
use mega_os.Printf.Output.Laws.{layout, out_rev-emit}
use mega_os.Printf.Integer.{sign_width}
use mega_os.Printf.Integer.Field.{padded_field, sign_width-le}
use mega_os.Printf.Integer.Standard.{field_eq}
use mega_os.Printf.Integer.Padding.{length-format_buffer}
use mega_os.Printf.Fixed.{
  ftoa_buffer_size, precision_of, magnitude, float_buffer, pow10, parts, ftoa_fixed,
}
use mega_os.Printf.Fixed.Text.{
  decimals_up, length-decimals_up, whole_up, length-whole_up, number, number_eq, fixed_text, digits,
  reverse_number, plain, limit_precision-replicate, float_buffer-format_buffer,
}

module _ (negative : Bool) (whole frac prec width : ℕ) (flags : Flags)
    (short_width : flags.zeropad ≡ true → width ≤ ftoa_buffer_size) (short_prec : prec ≤ 20)
    (below : 0 < min prec 9 → frac < 10 ^ min prec 9) (int : whole < 10 ^ 10) where
  abbrev zeros : List ℕ
  zeros = replicate (prec - 9) b'0'

  abbrev text : List ℕ
  text = (zeros ++ decimals_up (min prec 9) frac) ++ whole_up whole

  text_eq : number (min prec 9) frac whole zeros ≡ text
  text_eq =
      number_eq (min prec 9) frac whole zeros below int
        (omega (arith, length-replicate {A = ℕ} (prec - 9) b'0'))

  length-text : length text < ftoa_buffer_size
  length-text = omega (
    arith,
    length-append (zeros ++ decimals_up (min prec 9) frac) (whole_up whole),
    length-append zeros (decimals_up (min prec 9) frac),
    length-replicate {A = ℕ} (prec - 9) b'0',
    length-decimals_up (min prec 9) frac,
    length-whole_up whole int,
  )

  pub length-fixed_text : length (fixed_text prec whole frac) < ftoa_buffer_size
  length-fixed_text =
      rw (← reverse_number prec whole frac) (omega (arith, length-reverse text, length-text))

  abbrev buffer : List ℕ
  buffer =
      float_buffer negative whole frac (min prec 9) (sign_width negative width flags) flags zeros

  pub length-buffer : length buffer ≤ ftoa_buffer_size
  length-buffer =
      rw (float_buffer-format_buffer negative whole frac (min prec 9) _ flags zeros, text_eq)
        (length-format_buffer negative 10 0 _ (plain flags) text (omega (arith, length-text)))

  pub buffer_field :
      layout buffer (sign_width negative width flags) flags
      ≡ padded_field negative 0 width flags (fixed_text prec whole frac)
  unfolding sign_width
  buffer_field =
      rw (float_buffer-format_buffer negative whole frac (min prec 9) _ flags zeros, text_eq)
        (field_eq negative 10 0 width (plain flags) text refl (omega arith) length-text short_width
            (λ e. omega arith)
          ∙ ap (λ t. padded_field negative 0 width flags t) (reverse_number prec whole frac))

module _ {ℓ κ} {W : Type ℓ} ⦃d : Double W⦄ {S : Type κ} (out : OutFct S) (maxlen idx : ℕ)
    (value : W) (prec width : ℕ) (flags : Flags) (whole frac : ℕ) (s : S) (start : idx < 2 ^ 64)
    (narrow : width < 2 ^ 32) where
  -- For every output function, the part of `_ftoa` behind the tests for special and for large values writes
  -- the field.
  pub ftoa_fixed-standard :
      (flags.zeropad ≡ true → width ≤ ftoa_buffer_size)
      → precision_of prec flags ≤ 20
      → parts (magnitude value) (digits prec flags) (d.literal (10 ^ digits prec flags) 0)
        ≡ (whole, frac)
      → whole < 10 ^ 10
      → (0 < digits prec flags → frac < 10 ^ digits prec flags)
      → ftoa_fixed out maxlen idx value prec width flags s
        ≡ emit out maxlen
            (padded_field
              (d.lt value (d.literal 0 0))
              0
              width
              flags
              (fixed_text (precision_of prec flags) whole frac))
            idx
            s
  unfolding ftoa_fixed pow10
  ftoa_fixed-standard short_width short_prec rounds int below =
      let p = precision_of prec flags in
      let negative = d.lt value (d.literal 0 0) in
      let left : p - min 32 (p - 9) ≡ (digits prec flags) = omega arith in
      let first : min 32 (p - 9) ≡ p - 9 = omega arith in
      let in_table : ltb (digits prec flags) 10 ≡ true = ground arith in
      rw (limit_precision-replicate 32 p [] (omega arith), left, first, in_table, rounds)
        (out_rev-emit out maxlen idx _ _ flags s start
            (le_trans (suc-le-suc (sign_width-le negative width flags)) narrow)
            (omega (
              arith,
              length-buffer negative whole frac p width flags short_width short_prec below int,
            ))
          ∙ ap (λ cs. emit out maxlen cs idx s)
              (buffer_field negative whole frac p width flags short_width short_prec below int))
