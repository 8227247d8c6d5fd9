-- ===== src/Printf/Float/Returns.antt =====
-- The runs of `_ftoa` and `_etoa` (kernel/logging.cpp), which call each other.
use mega_os.Prelude.{
  ℕ, zero, suc, ◌-◌, ◌≤◌, ◌≡◌, refl, sym, subst, Bool, true, false, ◌||◌, ◌&&◌, not, List, [],
  arith, ltb, ◌==◌, if◌then◌else◌, length, codes, min, Bool-cases, inl, inr, Outcome, done, stopped,
  M, bind,
}
use mega_os.Printf.Double.{Double}
use mega_os.Printf.Output.{
  OutFct, Flags, next_idx, size_sub, out_spaces, out_backwards, out_until, out_rev,
}
use mega_os.Printf.Integer.{ntoa_format, ntoa_long}
use mega_os.Printf.Fixed.{precision_of, pow10, ftoa_fixed}
use mega_os.Printf.Fixed.Text.{limit_precision-replicate}
use mega_os.Printf.Exponential.{Style, decimal_exponent, out_exponent}
use mega_os.Printf.Float.{max_float, ftoa, etoa}
use mega_os.Printf.Float.Special.{is_special, etoa-special}
use mega_os.Printf.Float.Standard.{InRange, ftoa-fixed}
use mega_os.Printf.Float.Reduced.{without_sign, reduced, IsReducible, etoa-bind}

-- A run that returns, in a state with the property.
abbrev pub Ends {ℓ κ} : {S : Type ℓ} {A : Type κ} → (S → Type 0) → Outcome S A → Type 0
Ends P (done a s) = P s
Ends P (stopped w s) = ⊥

module _ {ℓ} {S : Type ℓ} (P : S → Type 0) where
  Ends-bind {κ ν} :
      {A : Type κ} {B : Type ν} (o : Outcome S A) (f : A → M S B)
      → Ends P o
      → ((a : A) (s : S) → P s → Ends P (f a s))
      → Ends P (bind o f)
  Ends-bind (done a s) f h next = next a s h
  Ends-bind (stopped w s) f h next = elim h [ ]

  Ends-if {κ} :
      {A : Type κ} (b : Bool) (x y : M S A) (s : S)
      → Ends P (x s)
      → Ends P (y s)
      → Ends P ((if b then x else y) s)
  Ends-if true x y s h k = h
  Ends-if false x y s h k = k

  module _ (out : OutFct S) (maxlen : ℕ)
      (writes : (c idx : ℕ) (s : S) → P s → Ends P (out c idx maxlen s)) where
    Ends-out_spaces : (n idx : ℕ) (s : S) → P s → Ends P (out_spaces out maxlen n idx s)
    unfolding out_spaces
    Ends-out_spaces zero idx s h = h
    Ends-out_spaces (suc n) idx s h =
        Ends-bind _ _ (writes _ idx s h) (λ _ s'. Ends-out_spaces n (next_idx idx) s')

    Ends-out_backwards :
        (buf : List ℕ) (len idx : ℕ) (s : S) → P s → Ends P (out_backwards out maxlen buf len idx s)
    unfolding out_backwards
    Ends-out_backwards buf zero idx s h = h
    Ends-out_backwards buf (suc len) idx s h =
        Ends-bind _ _ (writes _ idx s h) (λ _ s'. Ends-out_backwards buf len (next_idx idx) s')

    Ends-out_until :
        (fuel start width idx : ℕ) (s : S)
        → P s
        → Ends P (out_until out maxlen fuel start width idx s)
    unfolding out_until
    Ends-out_until zero start width idx s h = h
    Ends-out_until (suc fuel) start width idx s h =
        Ends-if (ltb (size_sub idx start) width) _ _ s
          (Ends-bind _ _ (writes _ idx s h)
            (λ _ s'. Ends-out_until fuel start width (next_idx idx) s'))
          h

    Ends-out_rev :
        (idx : ℕ) (buf : List ℕ) (width : ℕ) (flags : Flags) (s : S)
        → P s
        → Ends P (out_rev out maxlen idx buf width flags s)
    unfolding out_rev
    Ends-out_rev idx buf width flags s h =
        Ends-bind _ _
          (Ends-if (not flags.left && not flags.zeropad) _ _ s (Ends-out_spaces _ idx s h) h)
          (λ padded s'. λ h'.
            Ends-bind _ _ (Ends-out_backwards buf (length buf) padded s' h') (λ written s''. λ h''.
              Ends-if flags.left _ _ s'' (Ends-out_until width idx width written s'' h'') h''))

    Ends-out_exponent :
        (st : Style) (start width idx : ℕ) (s : S)
        → P s
        → Ends P (out_exponent out maxlen st start width idx s)
    unfolding out_exponent ntoa_long ntoa_format
    Ends-out_exponent st start width idx s h = Ends-if (st.minwidth == 0) _ _ s h (
        Ends-bind _ _ (writes _ idx s h) (λ _ s₁. λ h₁.
          Ends-bind _ _ (Ends-out_rev (next_idx idx) _ _ _ s₁ h₁) (λ i s₂.
            λ h₂. Ends-if st.flags.left _ _ s₂ (Ends-out_until width start width i s₂ h₂) h₂)))

    module _ {κ} {W : Type κ} ⦃d : Double W⦄ where
      Ends-ftoa_fixed :
          (idx : ℕ) (value : W) (prec width : ℕ) (flags : Flags) (s : S)
          → precision_of prec flags ≤ 41
          → P s
          → Ends P (ftoa_fixed out maxlen idx value prec width flags s)
      unfolding ftoa_fixed pow10
      Ends-ftoa_fixed idx value prec width flags s short h =
          let p = precision_of prec flags in
          let in_table : ltb (p - min 32 (p - 9)) 10 ≡ true = ground arith in
          rw (limit_precision-replicate 32 p [] (omega arith), in_table)
            (Ends-out_rev idx _ _ flags s h)

      pub Ends-ftoa_special :
          (fuel : ℕ) (adapt : Bool) (idx : ℕ) (value : W) (prec width : ℕ) (flags : Flags) (s : S)
          → is_special value ≡ true
          → P s
          → Ends P (ftoa out maxlen (suc fuel) adapt idx value prec width flags s)
      unfolding ftoa
      Ends-ftoa_special fuel adapt idx value prec width flags s special h =
          elim (Bool-cases (d.eq value value)) [
            | inr nan ↦ rw nan (Ends-out_rev idx (codes "nan") width flags s h)
            | inl number ↦ elim (Bool-cases (d.lt value (d.neg d.dbl_max))) [
              | inl below ↦ rw (number, below) (Ends-out_rev idx (codes "fni-") width flags s h)
              | inr not_below ↦
                  let above : d.lt d.dbl_max value ≡ true =
                    ground (arith, special, number, not_below) in
                  rw (number, not_below, above) (Ends-out_rev idx _ width flags s h)
            ]
          ]

      pub Ends-ftoa_direct :
          (fuel : ℕ) (adapt : Bool) (idx : ℕ) (value : W) (prec width : ℕ) (flags : Flags) (s : S)
          → InRange value
          → precision_of prec flags ≤ 41
          → P s
          → Ends P (ftoa out maxlen (suc fuel) adapt idx value prec width flags s)
      Ends-ftoa_direct fuel adapt idx value prec width flags s range short h =
          subst (Ends P) (sym (ftoa-fixed out maxlen fuel adapt idx value prec width flags s range))
            (Ends-ftoa_fixed idx value prec width flags s short h)

      Ends-etoa :
          (fuel idx : ℕ) (value : W) (prec width : ℕ) (flags : Flags) (s : S)
          → IsReducible value
          → precision_of prec flags ≤ 41
          → P s
          → Ends P (etoa out maxlen (suc fuel) false idx value prec width flags s)
      Ends-etoa fuel idx value prec width flags s reducible short h =
          elim (Bool-cases (is_special value)) [
            | inl special ↦
                subst (Ends P)
                  (sym (etoa-special out maxlen fuel false idx value prec width flags s special))
                  (Ends-ftoa_special fuel false idx value prec width flags s special h)
            | inr finite ↦
                let (e, power) = decimal_exponent (without_sign value) in
                let inside : InRange (reduced value) = elim reducible [
                  | inl special ↦ absurd (ground (arith, special, finite))
                  | inr range ↦ range
                ] in
                subst (Ends P)
                  (sym (etoa-bind out maxlen fuel idx value prec width flags s _ _ finite refl))
                  (Ends-bind _ _
                    (subst (Ends P)
                      (sym (
                        ftoa-fixed out maxlen fuel false idx (reduced value)
                          (precision_of prec flags) _ flags s inside))
                      (Ends-ftoa_fixed idx (reduced value) (precision_of prec flags) _ flags s
                        (ground (arith, short)) h))
                    (λ i s'. Ends-out_exponent _ idx width i s'))
          ]

      ftoa-finite :
          (fuel idx : ℕ) (value : W) (prec width : ℕ) (flags : Flags) (s : S)
          → is_special value ≡ false
          → ftoa out maxlen (suc fuel) false idx value prec width flags s
            ≡ (if d.lt max_float value || d.lt value (d.neg max_float)
                  then etoa out maxlen fuel false idx value prec width flags
                  else ftoa_fixed out maxlen idx value prec width flags)
                s
      unfolding ftoa etoa
      ftoa-finite fuel idx value prec width flags s finite =
          let number : d.eq value value ≡ true = ground (arith, finite) in
          let not_below : d.lt value (d.neg d.dbl_max) ≡ false = ground (arith, finite) in
          let not_above : d.lt d.dbl_max value ≡ false = ground (arith, finite) in
          rw (number, not_below, not_above) refl

      -- The two without FLAGS_ADAPT_EXP.
      pub ftoa-Ends :
          (fuel idx : ℕ) (value : W) (prec width : ℕ) (flags : Flags) (s : S)
          → IsReducible value
          → precision_of prec flags ≤ 41
          → P s
          → Ends P (ftoa out maxlen (suc (suc fuel)) false idx value prec width flags s)
            × Ends P (etoa out maxlen (suc (suc fuel)) false idx value prec width flags s)
      ftoa-Ends fuel idx value prec width flags s reducible short h = (
        elim (Bool-cases (is_special value)) [
          | inl special ↦ Ends-ftoa_special (suc fuel) false idx value prec width flags s special h
          | inr finite ↦
              subst (Ends P) (sym (ftoa-finite (suc fuel) idx value prec width flags s finite)) (
                Ends-if (d.lt max_float value || d.lt value (d.neg max_float))
                  (etoa out maxlen (suc fuel) false idx value prec width flags)
                  (ftoa_fixed out maxlen idx value prec width flags) s
                  (Ends-etoa fuel idx value prec width flags s reducible short h)
                  (Ends-ftoa_fixed idx value prec width flags s short h))
        ],
        Ends-etoa (suc fuel) idx value prec width flags s reducible short h,
      )
