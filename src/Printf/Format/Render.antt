-- ===== src/Printf/Format/Render.antt =====
-- What each conversion writes, as a text, and that the code writes just that.
use mega_os.Prelude.{
  ℕ, zero, suc, ◌-◌, ◌%◌, ◌^◌, ◌<◌, ◌≡◌, refl, sym, ap, ◌∙◌, Bool, true, false, not, List, [], ◌∷◌,
  ◌++◌, append_assoc, ◌==◌, if◌then◌else◌, length, min, take, replicate, length-take, arith,
}
use mega_os.Prelude.{M, pure, bind, ◌>>=◌, bind_ext}
use mega_os.Printf.Output.{OutFct, Flags, next_idx, blank, emit, out_spaces}
use mega_os.Printf.Output.Laws.{layout, spaces_if, emit-append₃, emit-append}
use mega_os.Printf.Integer.{sign_width, value_flags}
use mega_os.Printf.Integer.Padding.{long_buffer}
use mega_os.Printf.Directive.{Directive}
use mega_os.Printf.Format.{
  is_signed, base_of, integer_flags, size_bits, is_negative, magnitude, string_length, out_string,
  out_field, strnlen,
}

-- The text of `_ntoa_long`.
abbrev pub long_text : ℕ → Bool → ℕ → ℕ → ℕ → Flags → List ℕ
long_text value negative base prec width flags =
    layout (long_buffer value negative base prec width flags)
      (sign_width negative width (value_flags value flags)) (value_flags value flags)

abbrev pub integer_text : ℕ → Directive → ℕ → List ℕ
integer_text c d bits =
    let flags = integer_flags c d.flags in
    let size = size_bits flags in
    if is_signed c
    then long_text (magnitude size bits) (is_negative size bits) (base_of c) d.precision d.width
        flags
    else long_text (bits % 2 ^ size) false (base_of c) d.precision d.width flags

-- A text between the spaces of a field.
abbrev pub field_text : Flags → ℕ → List ℕ → List ℕ
field_text flags width text =
    (if not flags.left then replicate (width - length text) blank else [])
    ++ (text ++ (if flags.left then replicate (width - length text) blank else []))

-- The characters of a string that `%s` takes.
abbrev pub string_text : Directive → List ℕ → List ℕ
string_text d p = if d.flags.has_precision then take d.precision p else p

module _ {ℓ} {S : Type ℓ} (out : OutFct S) (maxlen : ℕ) where
  pub out_string-emit :
      (has_precision : Bool) (precision : ℕ) (p : List ℕ) (idx : ℕ) (s : S)
      → out_string out maxlen has_precision precision p idx s
        ≡ emit out maxlen (if has_precision then take precision p else p) idx s
  unfolding out_string emit
  out_string-emit true zero [] idx s = refl
  out_string-emit true (suc n) [] idx s = refl
  out_string-emit false n [] idx s = refl
  out_string-emit true zero (c ∷ p) idx s = refl
  out_string-emit true (suc n) (c ∷ p) idx s =
      let some_left : (suc n == 0) ≡ false = ground arith in
      let one_less : suc n - 1 ≡ n = omega arith in
      rw (some_left, one_less)
        (bind_ext (out c idx maxlen s) _ _ (λ _ s'. out_string-emit true n p (next_idx idx) s'))
  out_string-emit false n (c ∷ p) idx s =
      bind_ext (out c idx maxlen s) _ _ (λ _ s'. out_string-emit false (n - 1) p (next_idx idx) s')

  pub out_field-emit :
      (flags : Flags) (width : ℕ) (text : List ℕ) (write : ℕ → M S ℕ) (idx : ℕ) (s : S)
      → ((i : ℕ) (s' : S) → write i s' ≡ emit out maxlen text i s')
      → out_field out maxlen flags width (length text) write idx s
        ≡ emit out maxlen (field_text flags width text) idx s
  unfolding out_field
  out_field-emit flags width text write idx s h =
      ap (λ o. bind o after) (spaces_if out maxlen (not flags.left) n idx s)
      ∙ bind_ext (emit out maxlen pre idx s) _ _ (λ i s'. ap (λ o. bind o last) (h i s'))
      ∙ emit-append₃ out maxlen pre text idx s last
      ∙ bind_ext (emit out maxlen (pre ++ text) idx s) _ _
          (λ j s'. spaces_if out maxlen flags.left n j s')
      ∙ sym (emit-append out maxlen (pre ++ text) post idx s)
      ∙ ap (λ cs. emit out maxlen cs idx s) (append_assoc pre text post)
    where
      n : ℕ
      n = width - length text

      pre : List ℕ
      pre = if not flags.left then replicate n blank else []

      post : List ℕ
      post = if flags.left then replicate n blank else []

      last : ℕ → M S ℕ
      last j = if flags.left then out_spaces out maxlen n j else pure j

      after : ℕ → M S ℕ
      after i = write i >>= last

strnlen-length : (p : List ℕ) (maxsize : ℕ) → strnlen p maxsize ≡ min (length p) maxsize
unfolding strnlen
strnlen-length [] maxsize = omega arith
strnlen-length (c ∷ p) zero = omega arith
strnlen-length (c ∷ p) (suc n) = omega (arith, strnlen-length p n)

-- `l` is the length of what is written.
pub string_length-text :
    (d : Directive) (p : List ℕ)
    → length p < 2 ^ 32
    → d.precision < 2 ^ 32
    → (d.flags.has_precision ≡ false → d.precision ≡ 0)
    → string_length d p ≡ length (string_text d p)
unfolding string_length
string_length-text d p hp hd h =
    ground (
      arith,
      strnlen-length p (2 ^ 64 - 1),
      strnlen-length p d.precision,
      length-take d.precision p,
    )
