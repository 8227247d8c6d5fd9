-- ===== src/Printf/Float/Special.antt =====
-- `_ftoa` and `_etoa` (kernel/logging.cpp) on the values that are no numbers.
use mega_os.Prelude.{
  ℕ, suc, ◌^◌, ◌<◌, ◌≡◌, refl, ◌∙◌, Bool, true, false, ◌||◌, not, List, arith, if◌then◌else◌, codes,
  reverse, Bool-cases, inl, inr,
}
use mega_os.Printf.Double.{Double}
use mega_os.Printf.Output.{OutFct, Flags, emit, out_rev}
use mega_os.Printf.Output.Laws.{layout, out_rev-emit}
use mega_os.Printf.Exponential.{etoa_with}
use mega_os.Printf.Float.{ftoa, etoa}

module _ {ℓ} {W : Type ℓ} ⦃d : Double W⦄ where
  -- A value that is no number, or beyond the largest or smallest one.
  abbrev pub is_special : W → Bool
  is_special value =
      not (d.eq value value) || (d.lt d.dbl_max value || d.lt value (d.neg d.dbl_max))

  -- Its name, and the sign where there is one.
  abbrev pub special_text : W → Flags → List ℕ
  special_text value flags =
      if not (d.eq value value)
      then codes "nan"
      else if d.lt value (d.neg d.dbl_max)
      then codes "-inf"
      else if flags.plus
      then codes "+inf"
      else codes "inf"

  module _ {κ} {S : Type κ} (out : OutFct S) (maxlen fuel : ℕ) (adapt : Bool) (idx : ℕ) (value : W)
      (prec width : ℕ) (flags : Flags) (s : S) where
    infinity_written :
        (plus : Bool)
        → idx < 2 ^ 64
        → width < 2 ^ 32
        → out_rev out maxlen idx (if plus then codes "fni+" else codes "fni") width flags s
          ≡ emit out maxlen
              (layout (reverse (if plus then codes "+inf" else codes "inf")) width flags)
              idx
              s
    infinity_written true start narrow =
        out_rev-emit out maxlen idx (codes "fni+") width flags s start narrow (omega arith)
    infinity_written false start narrow =
        out_rev-emit out maxlen idx (codes "fni") width flags s start narrow (omega arith)

    -- The characters of a special value, in the order of the buffer.
    ftoa-special :
        idx < 2 ^ 64
        → width < 2 ^ 32
        → is_special value ≡ true
        → ftoa out maxlen (suc fuel) adapt idx value prec width flags s
          ≡ emit out maxlen (layout (reverse (special_text value flags)) width flags) idx s
    unfolding ftoa
    ftoa-special start narrow special = elim (Bool-cases (d.eq value value)) [
      | inr nan ↦
          rw nan
            (out_rev-emit out maxlen idx (codes "nan") width flags s start narrow (omega arith))
      | inl number ↦ elim (Bool-cases (d.lt value (d.neg d.dbl_max))) [
        | inl below ↦
            rw (number, below)
              (out_rev-emit out maxlen idx (codes "fni-") width flags s start narrow (omega arith))
        | inr not_below ↦
            let above : d.lt d.dbl_max value ≡ true = ground (arith, special, number, not_below) in
            rw (number, not_below, above) (infinity_written flags.plus start narrow)
      ]
    ]

    pub etoa-special :
        is_special value ≡ true
        → etoa out maxlen (suc fuel) adapt idx value prec width flags s
          ≡ ftoa out maxlen (suc fuel) adapt idx value prec width flags s
    unfolding etoa etoa_with
    etoa-special special = rw special refl

    -- For every output function, index below 2^64 and width below 2^32, `_ftoa` and `_etoa` write "nan" for a value
    -- that does not equal itself, "-inf" for one below the smallest number, and "inf", or "+inf" if the
    -- flags ask for the sign, for one above the largest, between the spaces that the width and the
    -- flags ask for.
    pub special-written :
        idx < 2 ^ 64
        → width < 2 ^ 32
        → is_special value ≡ true
        → (ftoa out maxlen (suc fuel) adapt idx value prec width flags s
            ≡ emit out maxlen (layout (reverse (special_text value flags)) width flags) idx s)
          × (etoa out maxlen (suc fuel) adapt idx value prec width flags s
              ≡ emit out maxlen (layout (reverse (special_text value flags)) width flags) idx s)
    special-written start narrow special =
        let written = ftoa-special start narrow special in (written, etoa-special special ∙ written)
