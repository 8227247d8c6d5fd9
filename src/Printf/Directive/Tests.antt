-- ===== src/Printf/Directive/Tests.antt =====
-- Runs of the directive parser.
use mega_os.Prelude.{◌≡◌, refl, true, [], ◌∷◌, some, codes}
use mega_os.Printf.Output.{no_flags}
use mega_os.Printf.Directive.{
  word, eval_directive, eval_flags, set_flag, eval_width, eval_precision, eval_digits, eval_length,
  va_arg, atoi,
}

kernel_directive :
    eval_directive (codes "#lX\n") (word 7 ∷ [])
    ≡ some (record {
      flags = record no_flags { hash = true; long_size = true };
      width = 0;
      precision = 0;
      rest = codes "X\n";
      va = word 7 ∷ [];
    })
unfolding eval_directive eval_flags set_flag eval_width eval_precision eval_digits eval_length
    va_arg atoi
kernel_directive = refl

star_width :
    eval_directive (codes "0*.3hhd") (word 0xffff_fffe ∷ word 7 ∷ [])
    ≡ some (record {
      flags = record no_flags {
        zeropad = true;
        left = true;
        has_precision = true;
        short_size = true;
        char_size = true;
      };
      width = 2;
      precision = 3;
      rest = codes "d";
      va = word 7 ∷ [];
    })
unfolding eval_directive eval_flags set_flag eval_width eval_precision eval_digits eval_length
    va_arg atoi
star_width = refl
