-- ===== src/Printf/Format/Hex.antt =====
-- What `%#lX` of kernel/logging.cpp writes, with which a panic shows the registers.
use native.Mathlib.Nat.{pow-le-pow_right}
use mega_os.Prelude.{
  ℕ, ◌*◌, ◌-◌, ◌%◌, ◌^◌, ◌≤◌, ◌<◌, ◌≡◌, ◌≢◌, refl, ap, ◌∙◌, true, false, List, [], ◌++◌, append-nil,
  append_assoc, arith, ltb, leb, ◌==◌, length, reverse, reverse-append, codes, Bool-cases, inl, inr,
  take, drop, length-append, min,
}
use mega_os.Printf.Output.{Flags, no_flags}
use mega_os.Printf.Output.Laws.{layout}
use mega_os.Printf.Integer.{
  digit_char, write_digits, value_flags, value_digits, format_buffer, pad_zeros, put_hash,
  make_room, put_sign, put, sign_width, write_zeros,
}
use mega_os.Printf.Integer.Padding.{write_zeros-replicate}
use mega_os.Printf.Integer.Digits.{
  spelled-write_digits_exact, write_digits_minimal, write_digits-suc,
}
use mega_os.Printf.Integer.Readback.{read_number, read_number-reverse}
use mega_os.Printf.Format.{integer_flags, size_bits, base_of}
use mega_os.Printf.Format.Render.{long_text}
use mega_os.Printf.Format.Pieces.{hex_text}

-- The flags of `%#lX`.
abbrev hex_flags : Flags
hex_flags = record no_flags { hash = true; long_size = true; uppercase = true }

hex_text-long_text : (w : ℕ) → hex_text w ≡ long_text (w % 2 ^ 64) false 16 0 0 hex_flags
unfolding integer_flags size_bits base_of
hex_text-long_text w = refl

-- A number of 64 bits has at most 16 digits.
few_digits : (v : ℕ) → 0 < v → v < 2 ^ 64 → length (write_digits 32 v 16 true []) ≤ 16
few_digits v h lt = elim (Bool-cases (leb (length (write_digits 32 v 16 true [])) 16)) [
  | inl few ↦ ground arith
  | inr many ↦
      let beyond : 16 ^ 17 ≤ 16 * v = omega (
        arith,
        pow-le-pow_right {n = 16} (omega arith) {i = 17} {j = length (write_digits 32 v 16 true [])}
            (ground arith),
        write_digits_minimal 32 v 16 true h (omega arith),
      ) in
      omega arith
]

some_digits : (v : ℕ) → 0 < length (write_digits 32 v 16 true [])
some_digits v = rw (write_digits-suc 31 v 16 true) (omega arith)

-- The `0`, the `x` and no padding.
hash_digits :
    (digits : List ℕ)
    → 0 < length digits
    → length digits ≤ 16
    → format_buffer false 16 0 0 hex_flags digits ≡ digits ++ codes "x0"
unfolding format_buffer pad_zeros put_hash make_room put_sign put
hash_digits digits lo hi =
    let zero_left : min 0 32 - length digits ≡ 0 = omega arith in
    let none : write_zeros 32 0 digits ≡ digits =
      write_zeros-replicate 32 0 digits (omega arith) ∙ rw zero_left (append-nil digits) in
    let some_left : (length digits == 0) ≡ false = ground arith in
    let room : ltb (length digits) 32 ≡ true = ground arith in
    let room' : ltb (length (digits ++ codes "x")) 32 ≡ true =
      ground (arith, length-append digits (codes "x")) in
    rw (none, some_left, room, room') (append_assoc digits (codes "x") (codes "0"))

unpadded : (buf : List ℕ) → layout buf 0 hex_flags ≡ reverse buf
unpadded buf =
    let none_left : 0 - length buf ≡ 0 = omega arith in rw none_left (append-nil (reverse buf))

-- `%#lX` writes a number that is not 0 as `0x` and its digits.
hex_text-digits :
    (w : ℕ)
    → w % 2 ^ 64 ≢ 0
    → hex_text w ≡ codes "0x" ++ reverse (write_digits 32 (w % 2 ^ 64) 16 true [])
unfolding value_flags value_digits sign_width
hex_text-digits w ne =
    let v = w % 2 ^ 64 in
    let not_zero : (v == 0) ≡ false = ground arith in
    let digits = write_digits 32 v 16 true [] in
    let written : hex_text w ≡ layout (format_buffer false 16 0 0 hex_flags digits) 0 hex_flags =
      hex_text-long_text w ∙ rw not_zero refl in
    written
    ∙ ap (λ b. layout b 0 hex_flags)
        (hash_digits digits (some_digits v) (few_digits v (omega arith) (omega arith)))
    ∙ unpadded (digits ++ codes "x0")
    ∙ reverse-append digits (codes "x0")

hex_text-zero : (w : ℕ) → w % 2 ^ 64 ≡ 0 → hex_text w ≡ codes "0"
unfolding value_flags value_digits sign_width format_buffer pad_zeros put_hash put_sign write_zeros
    write_digits digit_char
hex_text-zero w e = hex_text-long_text w ∙ rw e refl

-- What `%#lX` writes for a word is, read as hexadecimal digits behind its first two characters,
-- the word modulo 2^64; those two are `0x` if it is not 0.
pub read_number-hex_text :
    (w : ℕ)
    → (read_number 16 (drop 2 (hex_text w)) 0 ≡ w % 2 ^ 64)
      × (w % 2 ^ 64 ≢ 0 → take 2 (hex_text w) ≡ codes "0x")
read_number-hex_text w = elim (Bool-cases (w % 2 ^ 64 == 0)) [
  | inl zeros ↦
      let e : w % 2 ^ 64 ≡ 0 = ground arith in
      (rw (hex_text-zero w e, e) refl, λ ne. rw (hex_text-zero w e) (elim (ne e) [ ]))
  | inr some_bits ↦
      let ne : w % 2 ^ 64 ≢ 0 = λ e. ground arith in
      let digits = write_digits 32 (w % 2 ^ 64) 16 true [] in
      let back : read_number 16 (reverse digits) 0 ≡ w % 2 ^ 64 =
        read_number-reverse 16 digits 0
        ∙ rw
            (spelled-write_digits_exact 32 (w % 2 ^ 64) 16 true (omega arith) (omega arith)
              (omega arith))
            (omega arith) in
      (rw (hex_text-digits w ne) back, λ ne. rw (hex_text-digits w ne) refl)
]
