-- ===== src/Tests/Float.antt =====
-- The theorems on `_ftoa` and `_etoa`, at concrete numbers; and runs of the two.
use native.Mathlib.Nat.{mod-add-div'}
use mega_os.Prelude.{
  Bool, ◌%◌, ◌/◌, leb, ap, ◌∙◌, reverse, replicate, ℕ, ◌*◌, ◌-◌, ◌^◌, ◌<◌, inr, length, ◌≡◌, refl,
  false, true, List, [], ◌∷◌, ◌++◌, codes, done, arith,
}
use mega_os.Printf.Output.{no_flags, Flags, out_rev, emit}
use mega_os.Printf.Integer.{
  format_buffer, sign_width, pad_zeros, write_zeros, put_hash, make_room, put, put_sign,
  value_flags, value_digits, write_digits, digit_char, ntoa_format, ntoa_long,
}
use mega_os.Printf.Fixed.{
  limit_precision, frac_digits, extra_zeros, whole_digits, put_fraction, float_buffer, pow10,
  round_fraction, round_whole, parts, ftoa_fixed,
}
use mega_os.Printf.Exponential.{
  float_width, out_exponent, log10_of, power_of_ten, decimal_exponent, style, etoa_with,
}
use mega_os.Printf.Directive.{
  Arg, word, eval_directive, eval_flags, set_flag, eval_width, eval_precision, eval_digits,
  eval_length, va_arg, atoi,
}
use mega_os.Printf.Format.{format_loop_with, format_around}
use mega_os.Printf.Integer.Field.{padded_field}
use mega_os.Printf.Integer.Readback.{read_number, Decimal}
use mega_os.Printf.Fixed.Text.{fixed_text, number}
use mega_os.Printf.Fixed.Rounding.{IsExact, IsWhole, IsNearest}
use mega_os.Printf.Fixed.Even.{half_even, parts-half_even}
use mega_os.Printf.Fixed.Overflow.{overflowed}
use mega_os.Printf.Fixed.Readback.{atoi-number}
use mega_os.Printf.Float.{
  ftoa, etoa, convert_fixed, convert_exponential, convert_float, format_float_out,
}
use mega_os.Printf.Float.Nearest.{IsValuation, ftoa-IsNearest}
use mega_os.Printf.Float.Returns.{Ends}
use mega_os.Printf.Float.Ends.{float-Ends}
use mega_os.Printf.Float.Faults.{ftoa-overflowed}
use mega_os.Printf.Output.Laws.{layout}
use mega_os.Tests.{collect}
use mega_os.Tests.Units.{Units, no_number, decimal, signed, decimal_double, log2, one, to_bits}

-- `.2` of the conversion
abbrev two_places : Flags
two_places = record no_flags { has_precision = true }

fixed_run :
    ftoa collect 100 2 false 0 (decimal 314159265 8) 0 0 no_flags [] ≡ done 8 (codes "3.141593")
unfolding limit_precision frac_digits extra_zeros whole_digits put_fraction float_buffer pow10
    round_fraction round_whole parts ftoa_fixed ftoa write_zeros put put_sign sign_width out_rev
fixed_run = refl

negative_run :
    ftoa collect 100 2 false 0 (signed true 1500000000000) 0 8 two_places []
    ≡ done 8 (codes "      -2")
unfolding limit_precision frac_digits extra_zeros whole_digits put_fraction float_buffer pow10
    round_fraction round_whole parts ftoa_fixed ftoa write_zeros put put_sign sign_width out_rev
negative_run = refl

scientific_run :
    ftoa collect 100 2 false 0 (decimal 2500000000 0) 2 0 two_places [] ≡ done 8 (codes "2.50e+09")
unfolding limit_precision frac_digits extra_zeros whole_digits put_fraction float_buffer pow10
    round_fraction round_whole parts ftoa_fixed ftoa write_zeros put put_sign sign_width out_rev
    float_width out_exponent log10_of power_of_ten decimal_exponent style etoa_with etoa log2
    format_buffer pad_zeros put_hash make_room value_flags value_digits write_digits digit_char
    ntoa_format ntoa_long
scientific_run = refl

general_run :
    etoa collect 100 2 true 0 (decimal 12345678 5) 5 0 two_places [] ≡ done 6 (codes "123.46")
unfolding limit_precision frac_digits extra_zeros whole_digits put_fraction float_buffer pow10
    round_fraction round_whole parts ftoa_fixed ftoa write_zeros put put_sign sign_width out_rev
    float_width out_exponent log10_of power_of_ten decimal_exponent style etoa_with etoa log2
    format_buffer pad_zeros put_hash make_room value_flags value_digits write_digits digit_char
    ntoa_format ntoa_long
general_run = refl

-- The exponent is fixed before the digits are rounded.
carry_run :
    etoa collect 100 2 false 0 (decimal 99999999 7) 0 0 no_flags []
    ≡ done 13 (codes "10.000000e+00")
unfolding limit_precision frac_digits extra_zeros whole_digits put_fraction float_buffer pow10
    round_fraction round_whole parts ftoa_fixed ftoa write_zeros put put_sign sign_width out_rev
    float_width out_exponent log10_of power_of_ten decimal_exponent style etoa_with etoa log2
    format_buffer pad_zeros put_hash make_room value_flags value_digits write_digits digit_char
    ntoa_format ntoa_long
carry_run = refl

-- The bits of 2.5 and of 1234567.
abbrev float_args : List Arg
float_args = word (to_bits (decimal 25 1)) ∷ word (to_bits (decimal 1234567 0)) ∷ []

format_run :
    format_float_out Units collect 100 (codes "%+07.2f|%.3G|") float_args []
    ≡ done 17 (codes "+002.50|1.23E+06|" ++ 0 ∷ [])
unfolding format_float_out format_around format_loop_with convert_float convert_fixed
    convert_exponential eval_directive eval_flags set_flag eval_width eval_precision eval_digits
    eval_length va_arg atoi limit_precision frac_digits extra_zeros whole_digits put_fraction
    float_buffer pow10 round_fraction round_whole parts ftoa_fixed ftoa write_zeros put put_sign
    sign_width out_rev float_width out_exponent log10_of power_of_ten decimal_exponent style
    etoa_with etoa log2 format_buffer pad_zeros put_hash make_room value_flags value_digits
    write_digits digit_char ntoa_format ntoa_long
format_run = refl

-- A number of units is exact.
units-IsExact : (n : ℕ) → IsExact one n (signed false n)
units-IsExact n = (refl, λ k. (ground arith, ground arith))

-- A whole number of ones is one.
ones-IsWhole : (b : ℕ) → IsWhole b (signed false (b * one))
ones-IsWhole b k = ground arith

abbrev large : Units
large = decimal 2500000000 0

-- A number that is not negative, and how many units it is.
abbrev is_amount : Units → Bool
is_amount (signed false n) = true
is_amount _ = false

abbrev Amount : Units → Type 0
Amount x = is_amount x ≡ true

abbrev units : Units → ℕ
units (signed b n) = n
units no_number = 0

fraction-Amount :
    (x : Units)
    → Amount x
    → Amount (decimal_double.sub x (decimal_double.of_nat (decimal_double.truncated x)))
      × (units (decimal_double.sub x (decimal_double.of_nat (decimal_double.truncated x)))
          ≡ units x % one)
fraction-Amount (signed false n) h =
    let low : leb (n / one * one) n ≡ true = ground (arith, mod-add-div' n one) in
    rw low (refl, omega (arith, mod-add-div' n one))
fraction-Amount (signed true n) h = absurd (ground (arith, h))
fraction-Amount no_number h = absurd (ground (arith, h))

product-Amount :
    (x y z : Units)
    → Amount x
    → Amount y
    → Amount z
    → units x * units y ≡ units z * one
    → Amount (decimal_double.mul x y) × (units (decimal_double.mul x y) ≡ units z)
product-Amount (signed false m) (signed false n) z h k l e =
    (refl, ap (λ (p : ℕ). p / one) e ∙ omega arith)
product-Amount (signed false m) (signed true n) z h k l e = absurd (ground (arith, k))
product-Amount (signed false m) no_number z h k l e = absurd (ground (arith, k))
product-Amount (signed true m) y z h k l e = absurd (ground (arith, h))
product-Amount no_number y z h k l e = absurd (ground (arith, h))

doubled-Amount :
    (x : Units)
    → Amount x
    → units x < one
    → Amount (decimal_double.mul x (decimal_double.of_nat 2))
      × (units (decimal_double.mul x (decimal_double.of_nat 2)) ≡ 2 * units x)
doubled-Amount (signed false n) h below = (refl, omega arith)
doubled-Amount (signed true n) h below = absurd (ground (arith, h))
doubled-Amount no_number h below = absurd (ground (arith, h))

Amount-IsExact : (x : Units) → Amount x → IsExact one (units x) x
Amount-IsExact (signed false n) h = units-IsExact n
Amount-IsExact (signed true n) h = absurd (ground (arith, h))
Amount-IsExact no_number h = absurd (ground (arith, h))

units-IsValuation : IsValuation one Amount units
units-IsValuation = record {
  some_unit = omega arith;
  reads = Amount-IsExact;
  fraction = fraction-Amount;
  doubled = doubled-Amount;
  product = product-Amount;
}

ftoa-IsNearest_example :
    (w f : ℕ) × IsNearest one (10 ^ 2) (3141592650000 * 10 ^ 2) (w, f)
    × (f < 10 ^ 2)
    × (ftoa collect 100 1 false 0 (decimal 314159265 8) 2 9 two_places []
        ≡ emit collect 100 (padded_field false 0 9 two_places (fixed_text 2 w f)) 0 [])
ftoa-IsNearest_example =
    ftoa-IsNearest collect 100 0 false 0 (decimal 314159265 8) 2 9 two_places []
      (signed false 14159265000000) units-IsValuation (refl, refl, refl, refl, refl) (omega arith)
      (omega arith) (λ e. ground arith) (omega arith) (omega arith) (omega arith) refl refl refl
      (omega arith) (ones-IsWhole (10 ^ 2)) (omega arith) (λ e. omega arith)

ftoa-overflowed_example :
    ftoa collect 100 1 false 0 (decimal 95 2) 1 0 two_places []
    ≡ emit collect 100 (layout (overflowed 1) 0 two_places) 0 []
unfolding sign_width
ftoa-overflowed_example =
    ftoa-overflowed collect 100 0 false 0 (decimal 95 2) 1 0 two_places [] one 9500000000000
      (refl, refl, refl, refl, refl) (omega arith) (omega arith) (omega arith) (omega arith)
      (omega arith) (units-IsExact 9500000000000) (ones-IsWhole 10) (omega arith) refl refl

parts-half_even_example : (parts (decimal 25 1) 0 (decimal 1 0)).0 ≡ half_even one 2500000000000
parts-half_even_example =
    parts-half_even one 2500000000000 (decimal 25 1) (decimal 1 0) (omega arith)
      (units-IsExact 2500000000000) (units-IsExact 500000000000) (ones-IsWhole 1)

atoi-number_example :
    (ds : List ℕ) × (atoi (reverse (number 9 141592653 3 (replicate 3 b'0'))) 0 ≡ (3, b'.' ∷ ds))
    × Decimal ds
    × (length ds ≡ 12)
    × (read_number 10 ds 0 ≡ 141592653 * 10 ^ (12 - 9))
atoi-number_example =
    atoi-number 12 3 141592653 (omega arith) (omega arith) (omega arith) (omega arith)

float-Ends_example :
    Ends (λ seen. Unit) (ftoa collect 100 2 false 0 large 2 0 two_places [])
    × Ends (λ seen. Unit) (etoa collect 100 2 true 0 large 2 0 two_places [])
unfolding decimal_exponent log10_of power_of_ten log2
float-Ends_example =
    float-Ends (λ seen. Unit) collect 100 (λ c idx s h. tt) 0 0 large 2 0 two_places [] true
      (inr (refl, refl, refl, refl, refl)) (λ e. absurd (ground (arith, e))) (omega arith) tt
