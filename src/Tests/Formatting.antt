-- ===== src/Tests/Formatting.antt =====
-- The theorems on the formatter, at concrete formats, numbers and flags.
use mega_os.Prelude.{
  ℕ, ◌-◌, ◌%◌, ◌^◌, ◌≤◌, ◌≡◌, refl, true, false, [], ◌∷◌, length, arith, codes, bind, pure, List,
  ◌++◌, ◌≢◌, take, drop, reverse,
}
use mega_os.Printf.Output.{no_flags, emit}
use mega_os.Printf.Integer.{buffer_size, write_digits}
use mega_os.Printf.Integer.Padding.{long_buffer, length-long_buffer}
use mega_os.Printf.Directive.{Arg, va_arg, word, str, eval_flags, atoi}
use mega_os.Printf.Format.{format_out, convert_integer}
use mega_os.Printf.Format.Field.{numeral, below_zero, unsigned_value, decimal, hexadecimal}
use mega_os.Printf.Format.Standard.{convert_integer-standard}
use mega_os.Printf.Format.Spelled.{
  Spelling, IsSpelling, spelled_flags, plus, zero, dot, no_precision, no_modifier, at,
}
use mega_os.Printf.Format.Described.{
  IsCovered, Describes, number, plain, percent, nothing, format_out-Describes,
}
use mega_os.Printf.Format.Typed.{wants, any, text}
use mega_os.Printf.Format.Total.{IsTotal, Returns, fits-Returns}
use mega_os.Printf.Format.Hex.{read_number-hex_text}
use mega_os.Printf.Format.Pieces.{hex_text}
use mega_os.Printf.Integer.Readback.{read_number, atoi-write_digits}
use mega_os.Printf.Directive.Static.{static, length_field, precision_field, star_field}
use mega_os.Tests.{collect}

-- A width, a number and a string.
abbrev x_args_rev : List Arg
x_args_rev = word 7 ∷ str 0 (codes "x") ∷ []

length-long_buffer_example : length (long_buffer 42 true 10 50 60 no_flags) ≤ buffer_size
length-long_buffer_example = length-long_buffer 42 true 10 50 60 no_flags

-- `%+05d` and `%.3x`
abbrev signed_spelling : Spelling
signed_spelling = record {
  flags = plus ∷ zero ∷ [];
  width = codes "5";
  precision = no_precision;
  modifier = no_modifier;
}

abbrev hex_spelling : Spelling
hex_spelling = record {
  flags = [];
  width = [];
  precision = dot (codes "3");
  modifier = no_modifier;
}

signed_spelling-IsSpelling : IsSpelling signed_spelling
signed_spelling-IsSpelling = record {
  digits = (refl, tt);
  no_zero = λ e. omega arith;
  narrow = omega arith;
  precise = tt;
}

hex_spelling-IsSpelling : IsSpelling hex_spelling
hex_spelling-IsSpelling = record {
  digits = tt;
  no_zero = λ e. omega arith;
  narrow = omega arith;
  precise = ((refl, tt), omega arith);
}

forty_two-IsCovered : IsCovered signed_spelling 10 (codes "42")
forty_two-IsCovered = record {
  no_prefix = λ e. refl;
  short_precision = omega arith;
  short_width = λ e f. omega arith;
  short_digits = omega arith;
  left_digits = λ e. omega arith;
}

ff-IsCovered : IsCovered hex_spelling 16 (codes "ff")
ff-IsCovered = record {
  no_prefix = λ e. ground arith;
  short_precision = omega arith;
  short_width = λ e f. omega arith;
  short_digits = omega arith;
  left_digits = λ e. ground arith;
}

-- Minus 42 as an `int`, 255, and a string.
abbrev mixed_args : List Arg
mixed_args = word (2 ^ 32 - 42) ∷ word 255 ∷ str 0 (codes "ok") ∷ []

abbrev mixed_format : List ℕ
mixed_format = codes "%+05d %.3x%%"

mixed-Describes : Describes mixed_format mixed_args (codes "-0042 0ff%")
unfolding numeral
mixed-Describes =
    number {sp = signed_spelling} {n = 42} signed_spelling-IsSpelling decimal
      (below_zero refl (omega arith) (omega arith)) forty_two-IsCovered
      (plain (λ e. ground arith)
        (number {sp = hex_spelling} hex_spelling-IsSpelling hexadecimal (unsigned_value refl)
          ff-IsCovered (percent nothing)))

format_out-Describes_example :
    format_out collect 10 mixed_format mixed_args []
    ≡ bind
        (emit collect 10 (codes "-0042 0ff%") 0 [])
        (λ _ s'. bind (collect 0 9 10 s') (λ _. pure 10))
format_out-Describes_example =
    format_out-Describes collect 10 [] (omega arith) (omega arith) mixed-Describes (omega arith)

convert_integer-standard_example :
    convert_integer collect 100 b'd'
      (at (spelled_flags signed_spelling) 5 0 (codes "d") mixed_args)
      0
      []
    ≡ bind
        (emit collect 100 (codes "-0042") 0 [])
        (λ idx'. pure (idx', word 255 ∷ str 0 (codes "ok") ∷ []))
unfolding va_arg numeral
convert_integer-standard_example =
    convert_integer-standard decimal (at (spelled_flags signed_spelling) 5 0 (codes "d") mixed_args)
      refl (λ e. refl) (omega arith) (λ e f. omega arith) collect 100 0 [] (2 ^ 32 - 42)
      (word 255 ∷ str 0 (codes "ok") ∷ []) true 42 (omega arith) (omega arith) refl
      (below_zero refl (omega arith) (omega arith)) (omega arith) (λ e. ground arith)

collect-IsTotal : IsTotal collect
collect-IsTotal c idx maxlen s = (tt, s ++ c ∷ [], refl)

fits-Returns_example : Returns (format_out collect 100 (codes "%*d:%s") (word 3 ∷ x_args_rev)) []
unfolding wants static length_field precision_field star_field eval_flags
fits-Returns_example =
    fits-Returns collect collect-IsTotal 100 (codes "%*d:%s") (any ∷ any ∷ text ∷ [])
      (word 3 ∷ x_args_rev) [] refl refl

atoi-write_digits_example :
    atoi (reverse (write_digits 32 4096 10 false []) ++ codes "d") 0 ≡ (4096, codes "d")
atoi-write_digits_example = atoi-write_digits 4096 false (codes "d") (omega arith) refl

read_number-hex_text_example :
    (read_number 16 (drop 2 (hex_text 0xBEEF)) 0 ≡ 0xBEEF % 2 ^ 64)
    × (0xBEEF % 2 ^ 64 ≢ 0 → take 2 (hex_text 0xBEEF) ≡ codes "0x")
read_number-hex_text_example = read_number-hex_text 0xBEEF
