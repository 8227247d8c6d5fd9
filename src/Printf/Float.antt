-- ===== src/Printf/Float.antt =====
-- `_ftoa`, `_etoa` and their cases of `_vsnprintf` in kernel/logging.cpp, as a build without
-- `PRINTF_DISABLE_SUPPORT_FLOAT` and `PRINTF_DISABLE_SUPPORT_EXPONENTIAL` has them.
pub mod Special
pub mod Standard
pub mod Faults
pub mod Nearest
pub mod Exponent
pub mod Reduced
pub mod General
pub mod Returns
pub mod Ends
pub mod Keeps
use mega_os.Prelude.{
  ℕ, zero, suc, ◌%◌, ◌^◌, Bool, true, false, ◌||◌, not, List, ◌==◌, if◌then◌else◌, codes, M, spin,
  pure, stop, ◌>>=◌,
}
use mega_os.Printf.Double.{Double}
use mega_os.Printf.Output.{OutFct, Flags, out_rev}
use mega_os.Printf.Directive.{Arg, Directive, peek, va_arg}
use mega_os.Printf.Fixed.{ftoa_fixed}
use mega_os.Printf.Exponential.{etoa_with}
use mega_os.Printf.Format.{or_fault, convert, format_loop_with, format_around}

module _ {ℓ} {W : Type ℓ} ⦃d : Double W⦄ where
  -- `PRINTF_MAX_FLOAT`
  abbrev pub max_float : W
  max_float = d.literal 1000000000 0

  module _ {κ} {S : Type κ} (out : OutFct S) (maxlen : ℕ) where
    -- `_ftoa`, where it and `_etoa` call each other at most `fuel` times; `adapt` is the bit
    -- FLAGS_ADAPT_EXP of the flags.
    unfoldable pub ftoa : ℕ → Bool → ℕ → W → ℕ → ℕ → Flags → M S ℕ
    ftoa zero adapt idx value prec width flags = stop spin
    ftoa (suc fuel) adapt idx value prec width flags =
        if not (d.eq value value)
        then out_rev out maxlen idx (codes "nan") width flags
        else if d.lt value (d.neg d.dbl_max)
        then out_rev out maxlen idx (codes "fni-") width flags
        else if d.lt d.dbl_max value
        then out_rev out maxlen idx (if flags.plus then codes "fni+" else codes "fni") width flags
        else if d.lt max_float value || d.lt value (d.neg max_float)
        then etoa_with out maxlen (ftoa fuel) adapt idx value prec width flags
        else ftoa_fixed out maxlen idx value prec width flags

    -- `_etoa`
    unfoldable pub etoa : ℕ → Bool → ℕ → W → ℕ → ℕ → Flags → M S ℕ
    etoa fuel = etoa_with out maxlen (ftoa fuel)

module _ {ℓ κ} (W : Type ℓ) ⦃d : Double W⦄ {S : Type κ} (out : OutFct S) (maxlen : ℕ) where
  -- The `double` of an argument.
  abbrev value_of : ℕ → W
  value_of bits = d.of_bits (bits % 2 ^ 64)

  -- `case 'f'` and `case 'F'`
  unfoldable pub convert_fixed : ℕ → ℕ → Directive → ℕ → M S (ℕ × List Arg)
  convert_fixed fuel c v idx = do
    (bits, va) ← or_fault (va_arg v.va)
    let flags = record v.flags { uppercase = c == b'F' || v.flags.uppercase }
    idx' ← ftoa out maxlen fuel false idx (value_of bits) v.precision v.width flags
    pure (idx', va)

  -- `case 'e'`, `case 'E'`, `case 'g'` and `case 'G'`
  unfoldable pub convert_exponential : ℕ → ℕ → Directive → ℕ → M S (ℕ × List Arg)
  convert_exponential fuel c v idx = do
    (bits, va) ← or_fault (va_arg v.va)
    let adapt = c == b'g' || c == b'G'
    let flags = record v.flags { uppercase = c == b'E' || (c == b'G' || v.flags.uppercase) }
    idx' ← etoa out maxlen fuel adapt idx (value_of bits) v.precision v.width flags
    pure (idx', va)

  -- `// evaluate specifier` of such a build; `_ftoa` and `_etoa` have fuel for a value that one division
  -- brings into the range of `_ftoa`.
  unfoldable pub convert_float : Directive → ℕ → M S (ℕ × List Arg)
  convert_float v idx =
      let c = peek v.rest in
      if c == b'f' || c == b'F'
      then convert_fixed 2 c v idx
      else if c == b'e' || (c == b'E' || (c == b'g' || c == b'G'))
      then convert_exponential 2 c v idx
      else convert out maxlen v idx

  -- `_vsnprintf` of such a build, with an output function
  unfoldable pub format_float_out : List ℕ → List Arg → M S ℕ
  format_float_out = format_around out maxlen (format_loop_with out maxlen convert_float)
