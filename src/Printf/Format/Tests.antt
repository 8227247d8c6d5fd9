-- ===== src/Printf/Format/Tests.antt =====
-- Runs of the formatter.
use mega_os.Prelude.{ℕ, ◌≡◌, refl, [], ◌∷◌, ◌++◌, List, codes, done}
use mega_os.Printf.Output.{OutFct, out_rev}
use mega_os.Printf.Integer.{
  format_buffer, sign_width, pad_zeros, write_zeros, put_hash, make_room, put, put_sign,
  value_flags, value_digits, write_digits, ntoa_format, ntoa_long,
}
use mega_os.Printf.Directive.{
  word, str, eval_directive, eval_flags, set_flag, eval_width, eval_precision, eval_digits,
  eval_length, va_arg, atoi,
}
use mega_os.Printf.Format.{
  base_of, integer_flags, size_bits, magnitude, strnlen, string_length, out_string, out_field,
  convert_integer, convert_char, convert_string, convert_pointer, convert, format_loop,
  format_loop_with, format_out,
}

-- All that is put out, in order.
abbrev collect : OutFct (List ℕ)
collect c idx maxlen seen = done tt (seen ++ c ∷ [])

mixed :
    format_out collect 100
      (codes "%-4d|%5s|%#lX%%%c")
      (word 42 ∷ str 0 (codes "ab") ∷ word 0xBEEF ∷ word b'!' ∷ [])
      []
    ≡ done 19 (codes "42  |   ab|0xBEEF%!" ++ 0 ∷ [])
unfolding format_buffer sign_width pad_zeros write_zeros put_hash make_room put put_sign value_flags
    value_digits write_digits ntoa_format ntoa_long out_rev eval_directive eval_flags set_flag
    eval_width eval_precision eval_digits eval_length va_arg atoi base_of integer_flags size_bits
    magnitude strnlen string_length out_string out_field convert_integer convert_char convert_string
    convert_pointer convert format_loop format_loop_with format_out
mixed = refl
