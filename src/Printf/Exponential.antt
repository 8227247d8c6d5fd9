-- ===== src/Printf/Exponential.antt =====
-- `_etoa` of kernel/logging.cpp, which stands under `PRINTF_SUPPORT_EXPONENTIAL`. It calls `_ftoa`, which may
-- call it, so `_ftoa` is an argument here.
use mega_os.Prelude.{
  ℕ, ◌+◌, ◌-◌, ◌*◌, ◌/◌, ◌%◌, ◌^◌, Bool, true, false, ◌&&◌, ◌||◌, not, ltb, ◌==◌, if◌then◌else◌, M,
  pure, ◌>>=◌, ◌>>◌, ℤ, pos, difference, as_int, is_below_zero, is_zero, abs, ◌+ℤ◌, pred, exceeds,
  distance, to_u64,
}
use mega_os.Printf.Double.{Double}
use mega_os.Printf.Output.{OutFct, Flags, no_flags, next_idx, out_until}
use mega_os.Printf.Integer.{ntoa_long}
use mega_os.Printf.Fixed.{precision_of}

-- `FLAGS_ZEROPAD | FLAGS_PLUS`
abbrev pub exponent_flags : Flags
exponent_flags = record no_flags { zeropad = true; plus = true }

-- `// will everything fit?`
unfoldable pub float_width : ℕ → ℕ → Flags → ℕ
float_width width minwidth flags =
    if flags.left && not (minwidth == 0)
    then 0
    else if ltb minwidth width
    then width - minwidth
    else 0

-- What the code makes of the precision, and of the width of the exponent: 0 if it writes none.
pub record Style : Type 0 where
  pub precision : ℕ
  pub minwidth : ℕ
  pub flags : Flags
  pub exponent : ℤ

module _ {ℓ} {S : Type ℓ} (out : OutFct S) (maxlen : ℕ) where
  -- `// output the exponent part`
  unfoldable pub out_exponent : Style → ℕ → ℕ → ℕ → M S ℕ
  out_exponent st start width idx = if st.minwidth == 0 then pure idx else (do
    out (if st.flags.uppercase then b'E' else b'e') idx maxlen
    idx' ←
        ntoa_long out maxlen (next_idx idx) (abs st.exponent) (is_below_zero st.exponent) 10 0
          (st.minwidth - 1) exponent_flags
    if st.flags.left then out_until out maxlen width start width idx' else pure idx')

module _ {ℓ} {W : Type ℓ} ⦃d : Double W⦄ where
  -- The number of the `double` with the bits of a value's fraction, in [1, 2).
  abbrev pub mantissa : W → W
  mantissa value = d.of_bits (d.bits value % 2 ^ 52 + 1023 * 2 ^ 52)

  -- `conv.F *= 1 + 2 * z / (2 - z + (z2 / (6 + (z2 / (10 + z2 / 14)))))`
  abbrev pub exp_of : W → W
  exp_of z =
      let z2 = d.mul z z in
      let inner = d.add (d.literal 10 0) (d.div z2 (d.literal 14 0)) in
      let outer = d.div z2 (d.add (d.literal 6 0) (d.div z2 inner)) in
      d.add (d.literal 1 0)
        (d.div (d.mul (d.literal 2 0) z) (d.add (d.sub (d.literal 2 0) z) outer))

  -- `expval`, before it is corrected
  unfoldable pub log10_of : W → ℤ
  log10_of value =
      let exp2 = difference (d.bits value / 2 ^ 52 % 2 ^ 11) 1023 in
      d.to_int (
        d.add
          (d.add (d.literal 1760912590558 13)
            (d.mul (d.of_int exp2) (d.literal 301029995663981 15)))
          (d.mul (d.sub (mantissa value) (d.literal 15 1)) (d.literal 289529654602168 15)))

  -- `conv.F`, the power of ten of an exponent
  unfoldable pub power_of_ten : ℤ → W
  power_of_ten expval =
      let exp2 =
        d.to_int
          (d.add (d.mul (d.of_int expval) (d.literal 3321928094887362 15)) (d.literal 5 1)) in
      let z =
        d.sub (d.mul (d.of_int expval) (d.literal 2302585092994046 15))
          (d.mul (d.of_int exp2) (d.literal 6931471805599453 16)) in
      d.mul (d.of_bits (to_u64 (exp2 +ℤ 1023) * 2 ^ 52 % 2 ^ 64)) (exp_of z)

  -- `expval` and `conv.F` after `// correct for rounding errors`
  unfoldable pub decimal_exponent : W → ℤ × W
  decimal_exponent value =
      let expval = log10_of value in
      let power = power_of_ten expval in
      if d.lt value power then (pred expval, d.div power (d.literal 10 0)) else (expval, power)

  -- `// in "%g" mode …`
  unfoldable pub style : W → ℤ → Bool → ℕ → Flags → Style
  style value expval adapt prec flags =
      let room = if ltb (abs expval) 100 then 4 else 5 in
      if not adapt
      then record { precision = prec; minwidth = room; flags = flags; exponent = expval }
      else if not (d.lt value (d.literal 1 4)) && d.lt value (d.literal 1000000 0)
      then record {
        precision = if exceeds (as_int prec) expval then distance (as_int prec) expval - 1 else 0;
        minwidth = 0;
        flags = record flags { has_precision = true };
        exponent = pos 0;
      }
      else record {
        precision = if ltb 0 prec && flags.has_precision then prec - 1 else prec;
        minwidth = room;
        flags = flags;
        exponent = expval;
      }

  module _ {κ} {S : Type κ} (out : OutFct S) (maxlen : ℕ) where
    -- `_etoa`, where `ftoa` is `_ftoa`, and `adapt` is the bit FLAGS_ADAPT_EXP of the flags
    unfoldable pub etoa_with :
        (ftoa : Bool → ℕ → W → ℕ → ℕ → Flags → M S ℕ) → Bool → ℕ → W → ℕ → ℕ → Flags → M S ℕ
    etoa_with ftoa adapt idx value prec width flags =
        if not (d.eq value value) || (d.lt d.dbl_max value || d.lt value (d.neg d.dbl_max))
        then ftoa adapt idx value prec width flags
        else (let negative = d.lt value (d.literal 0 0) in
            let value' = if negative then d.neg value else value in
            let prec' = precision_of prec flags in
            let (expval, power) = decimal_exponent value' in
            let st = style value' expval adapt prec' flags in
            let scaled = if is_zero st.exponent then value' else d.div value' power in
            (do
              idx' ←
                  ftoa false idx (if negative then d.neg scaled else scaled) st.precision
                    (float_width width st.minwidth flags) st.flags
              out_exponent out maxlen st idx width idx'))
