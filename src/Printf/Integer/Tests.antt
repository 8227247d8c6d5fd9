-- ===== src/Printf/Integer/Tests.antt =====
-- Runs of the integer conversions.
use mega_os.Prelude.{◌≡◌, refl, false, true, codes, reverse}
use mega_os.Printf.Output.{no_flags}
use mega_os.Printf.Integer.{
  format_buffer, pad_zeros, write_zeros, put_hash, make_room, put, put_sign, value_digits,
  write_digits,
}

hex_buffer :
    reverse (
      format_buffer false 16 0 0
        (record no_flags { hash = true })
        (value_digits 0xBEEF 16 (record no_flags { uppercase = true })))
    ≡ codes "0xBEEF"
unfolding format_buffer pad_zeros write_zeros put_hash make_room put put_sign value_digits
    write_digits
hex_buffer = refl

hash_bug :
    reverse (
      format_buffer false 16 0 4
        (record no_flags { hash = true })
        (value_digits 0x1234 16 no_flags))
    ≡ codes "0x34"
unfolding format_buffer pad_zeros write_zeros put_hash make_room put put_sign value_digits
    write_digits
hash_bug = refl
