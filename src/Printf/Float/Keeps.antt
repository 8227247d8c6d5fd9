-- ===== src/Printf/Float/Keeps.antt =====
-- Properties of the state along the runs of a `_vsnprintf` with floats (kernel/logging.cpp), for any
-- format and any arguments.
use mega_os.Prelude.{ℕ, zero, suc, Bool, false, ◌||◌, not, List, Option, none, some, ◌==◌, M}
use mega_os.Printf.Double.{Double}
use mega_os.Printf.Output.{OutFct, Flags, next_idx}
use mega_os.Printf.Directive.{Arg, Directive, peek, va_arg}
use mega_os.Printf.Format.Keeps.{
  Keeps, Keeps-bind, Keeps-if, Keeps-or_fault, Keeps-out_rev, Keeps-out_until, Keeps-ntoa_long,
  Keeps-convert, Keeps-format_with,
}
use mega_os.Printf.Fixed.{ftoa_parts, ftoa_fixed}
use mega_os.Printf.Exponential.{Style, out_exponent, etoa_with}
use mega_os.Printf.Float.{
  max_float, ftoa, etoa, convert_fixed, convert_exponential, convert_float, format_float_out,
}

module _ {ℓ κ ι} (W : Type ℓ) ⦃d : Double W⦄ {S : Type κ} (P : S → Type ι) (out : OutFct S)
    (maxlen : ℕ) (keeps : (c idx : ℕ) (s : S) → P s → Keeps P (out c idx maxlen s)) where
  Keeps-ftoa_parts :
      (o : Option W) (idx : ℕ) (value : W) (negative : Bool) (prec : ℕ) (buf : List ℕ) (width : ℕ)
      (flags : Flags) (s : S)
      → P s
      → Keeps P (ftoa_parts out maxlen o idx value negative prec buf width flags s)
  Keeps-ftoa_parts none idx value negative prec buf width flags s h = h
  Keeps-ftoa_parts (some scale) idx value negative prec buf width flags s h =
      Keeps-out_rev P out maxlen keeps idx _ _ flags s h

  Keeps-ftoa_fixed :
      (idx : ℕ) (value : W) (prec width : ℕ) (flags : Flags) (s : S)
      → P s
      → Keeps P (ftoa_fixed out maxlen idx value prec width flags s)
  unfolding ftoa_fixed
  Keeps-ftoa_fixed idx value prec width flags s h = Keeps-ftoa_parts _ idx _ _ _ _ width flags s h

  Keeps-out_exponent :
      (st : Style) (start width idx : ℕ) (s : S)
      → P s
      → Keeps P (out_exponent out maxlen st start width idx s)
  unfolding out_exponent
  Keeps-out_exponent st start width idx s h = Keeps-if P (st.minwidth == 0) _ _ s h (
      Keeps-bind P _ _ (keeps _ idx s h) (λ _ s₁. λ h₁.
        Keeps-bind P _ _ (Keeps-ntoa_long P out maxlen keeps (next_idx idx) _ _ _ _ _ _ s₁ h₁)
          (λ i s₂. λ h₂.
            Keeps-if P st.flags.left _ _ s₂
              (Keeps-out_until P out maxlen keeps width start width i s₂ h₂) h₂)))

  Keeps-etoa_with :
      (call : Bool → ℕ → W → ℕ → ℕ → Flags → M S ℕ)
      → ((adapt : Bool) (idx : ℕ) (value : W) (prec width : ℕ) (flags : Flags) (s : S)
          → P s
          → Keeps P (call adapt idx value prec width flags s))
      → (adapt : Bool) (idx : ℕ) (value : W) (prec width : ℕ) (flags : Flags) (s : S) → P s
      → Keeps P (etoa_with out maxlen call adapt idx value prec width flags s)
  unfolding etoa_with
  Keeps-etoa_with call calls adapt idx value prec width flags s h =
      Keeps-if P (not (d.eq value value) || (d.lt d.dbl_max value || d.lt value (d.neg d.dbl_max)))
        _ _ s (calls adapt idx value prec width flags s h)
        (Keeps-bind P _ _ (calls false idx _ _ _ _ s h)
          (λ i s'. Keeps-out_exponent _ idx width i s'))

  Keeps-ftoa :
      (fuel : ℕ) (adapt : Bool) (idx : ℕ) (value : W) (prec width : ℕ) (flags : Flags) (s : S)
      → P s
      → Keeps P (ftoa out maxlen fuel adapt idx value prec width flags s)
  unfolding ftoa
  Keeps-ftoa zero adapt idx value prec width flags s h = h
  Keeps-ftoa (suc fuel) adapt idx value prec width flags s h =
      let rev = λ (buf : List ℕ). Keeps-out_rev P out maxlen keeps idx buf width flags s h in
      Keeps-if P (not (d.eq value value)) _ _ s (rev _) (
        Keeps-if P (d.lt value (d.neg d.dbl_max)) _ _ s (rev _) (
          Keeps-if P (d.lt d.dbl_max value) _ _ s (rev _) (
            Keeps-if P (d.lt max_float value || d.lt value (d.neg max_float)) _ _ s
              (Keeps-etoa_with (ftoa out maxlen fuel) (Keeps-ftoa fuel) adapt idx value prec width
                flags s h)
              (Keeps-ftoa_fixed idx value prec width flags s h))))

  Keeps-convert_float :
      (v : Directive) (idx : ℕ) (s : S) → P s → Keeps P (convert_float W out maxlen v idx s)
  unfolding convert_float convert_fixed convert_exponential etoa
  Keeps-convert_float v idx s h =
      let c = peek v.rest in
      Keeps-if P (c == b'f' || c == b'F') _ _ s
        (Keeps-bind P _ _ (Keeps-or_fault P (va_arg v.va) s h)
          (λ x s₁. λ h₁. Keeps-bind P _ _ (Keeps-ftoa 2 _ idx _ _ _ _ s₁ h₁) (λ i s₂. λ h₂. h₂)))
        (Keeps-if P (c == b'e' || (c == b'E' || (c == b'g' || c == b'G'))) _ _ s
          (Keeps-bind P _ _ (Keeps-or_fault P (va_arg v.va) s h) (λ x s₁. λ h₁.
            Keeps-bind P _ _
              (Keeps-etoa_with (ftoa out maxlen 2) (Keeps-ftoa 2) _ idx _ _ _ _ s₁ h₁)
              (λ i s₂. λ h₂. h₂)))
          (Keeps-convert P out maxlen keeps v idx s h))

  -- Every run of `_vsnprintf` with floats keeps what its output function keeps.
  pub Keeps-format_float_out :
      (format : List ℕ) (va : List Arg) (s : S)
      → P s
      → Keeps P (format_float_out W out maxlen format va s)
  unfolding format_float_out
  Keeps-format_float_out format va s h =
      Keeps-format_with P out maxlen keeps (convert_float W out maxlen) Keeps-convert_float format
        va s h
