-- ===== src/Printf/Float/Ends.antt =====
-- The runs of `_ftoa` and `_etoa` (kernel/logging.cpp) in all three forms.
use mega_os.Prelude.{
  ℕ, suc, ◌-◌, ◌≤◌, ◌≡◌, sym, subst, Bool, true, false, arith, if◌then◌else◌, Bool-cases, inl, inr,
}
use mega_os.Printf.Double.{Double}
use mega_os.Printf.Output.{OutFct, Flags}
use mega_os.Printf.Fixed.{precision_of}
use mega_os.Printf.Exponential.{decimal_exponent}
use mega_os.Printf.Float.{ftoa, etoa}
use mega_os.Printf.Float.Special.{is_special, etoa-special}
use mega_os.Printf.Float.Standard.{InRange}
use mega_os.Printf.Float.Reduced.{without_sign, IsReducible}
use mega_os.Printf.Float.General.{in_window, decimals_of, etoa-general}
use mega_os.Printf.Float.Returns.{Ends, Ends-ftoa_special, Ends-ftoa_direct, ftoa-Ends}

module _ {ℓ κ} {S : Type ℓ} (P : S → Type 0) (out : OutFct S) (maxlen : ℕ)
    (writes : (c idx : ℕ) (s : S) → P s → Ends P (out c idx maxlen s)) {W : Type κ} ⦃d : Double W⦄
    (fuel idx : ℕ) (value : W) (prec width : ℕ) (flags : Flags) (s : S) where
  -- What `%g` hands to `_ftoa` in its window is in the range, with a precision that the table has.
  abbrev pub IsWindowed : Type 0
  IsWindowed =
      in_window (without_sign value) ≡ true
      → InRange
          (if d.lt value (d.literal 0 0) then d.neg (without_sign value) else without_sign value)
        × (decimals_of (precision_of prec flags) (decimal_exponent (without_sign value)).0 ≤ 41)

  etoa_adapted-Ends :
      IsReducible value
      → IsWindowed
      → precision_of prec flags ≤ 41
      → P s
      → Ends P (etoa out maxlen (suc (suc fuel)) true idx value prec width flags s)
  etoa_adapted-Ends reducible windowed short h = elim (Bool-cases (is_special value)) [
    | inl special ↦
        subst (Ends P)
          (sym (etoa-special out maxlen (suc fuel) true idx value prec width flags s special))
          (Ends-ftoa_special P out maxlen writes (suc fuel) true idx value prec width flags s
            special h)
    | inr finite ↦
        let general =
          etoa-general out maxlen (suc (suc fuel)) idx value prec width flags s finite in
        elim (Bool-cases (in_window (without_sign value))) [
          | inl window ↦
              let (range, places) = windowed window in
              subst (Ends P) (sym (general.0 window)) (
                Ends-ftoa_direct P out maxlen writes (suc fuel) false idx _ _ width
                  (record flags { has_precision = true }) s range places h)
          | inr outside ↦
              subst (Ends P) (sym (general.1 outside))
                (ftoa-Ends P out maxlen writes fuel idx value
                  (if flags.has_precision then prec - 1 else prec) width flags s reducible
                  (ground (arith, short)) h).1
        ]
  ]

  -- If the output function returns and keeps a property of the state, then so do `_ftoa` and
  -- `_etoa`, which call each other, the first without FLAGS_ADAPT_EXP and the second with it or
  -- without, for a precision of at most 41 and a value that is special or that dividing by its
  -- power of ten brings into the range of `_ftoa`, if a value that `%g` writes without an exponent
  -- is in that range and is left at most 41 decimals.
  pub float-Ends :
      (adapt : Bool)
      → IsReducible value
      → IsWindowed
      → precision_of prec flags ≤ 41
      → P s
      → Ends P (ftoa out maxlen (suc (suc fuel)) false idx value prec width flags s)
        × Ends P (etoa out maxlen (suc (suc fuel)) adapt idx value prec width flags s)
  float-Ends false reducible windowed short h =
      ftoa-Ends P out maxlen writes fuel idx value prec width flags s reducible short h
  float-Ends true reducible windowed short h = (
    (ftoa-Ends P out maxlen writes fuel idx value prec width flags s reducible short h).0,
    etoa_adapted-Ends reducible windowed short h,
  )
