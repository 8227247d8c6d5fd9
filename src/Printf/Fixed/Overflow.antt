-- ===== src/Printf/Fixed/Overflow.antt =====
-- `_ftoa` (kernel/logging.cpp) where rounding leaves a fraction of one digit too many, and where the precision
-- is past the table of powers.
use native.Mathlib.Nat.{pow-succ', pow-zero}
use mega_os.Prelude.{
  ℕ, zero, suc, ◌+◌, ◌-◌, ◌/◌, ◌%◌, ◌^◌, ◌≤◌, ◌<◌, ◌≡◌, refl, sym, ap, ◌∙◌, Bool, true, false, ◌&&◌,
  not, List, [], ◌∷◌, ◌++◌, append_assoc, append-nil, arith, ltb, ◌==◌, if◌then◌else◌, length,
  replicate, length-append, length-replicate, Bool-cases, inl, inr, min,
}
use mega_os.Printf.Output.{Flags}
use mega_os.Printf.Integer.{put, put_sign, write_zeros}
use mega_os.Printf.Integer.Padding.{write_zeros-replicate}
use mega_os.Printf.Fixed.{
  ftoa_buffer_size, frac_digits, extra_zeros, whole_digits, put_fraction, float_buffer, room_of,
}

ten_power_positive : (n : ℕ) → 0 < 10 ^ n
ten_power_positive zero = rw (pow-zero 10) (omega arith)
ten_power_positive (suc n) = rw (pow-succ' 10 n) (omega (arith, ten_power_positive n))

-- The loop takes one digit more than it counts, and the count wraps around.
frac_digits_wraps :
    (n room : ℕ) (buf : List ℕ)
    → n < room
    → n < 2 ^ 32
    → frac_digits room (10 ^ n) n buf ≡ (2 ^ 32 - 1, buf ++ (replicate n b'0' ++ b'1' ∷ []))
unfolding frac_digits
frac_digits_wraps n zero buf h small = absurd (omega arith)
frac_digits_wraps zero (suc room) buf h small = refl
frac_digits_wraps (suc n) (suc room) buf h small =
    let digit : b'0' + 10 ^ suc n % 10 ≡ b'0' = rw (pow-succ' 10 n) (omega arith) in
    let rest : 10 ^ suc n / 10 ≡ 10 ^ n = rw (pow-succ' 10 n) (omega arith) in
    let more : (10 ^ n == 0) ≡ false = ground (arith, ten_power_positive n) in
    let count : (suc n + 2 ^ 32 - 1) % 2 ^ 32 ≡ n = omega arith in
    rw (digit, rest, more, count)
      (frac_digits_wraps n room (buf ++ b'0' ∷ []) (omega arith) (omega arith)
        ∙ ap (λ l. (2 ^ 32 - 1, l)) (append_assoc buf (b'0' ∷ []) _))

-- A count that is not used up fills the buffer.
extra_zeros_fill :
    (fuel count : ℕ) (buf : List ℕ)
    → ftoa_buffer_size ≤ length buf + fuel
    → fuel ≤ count
    → extra_zeros fuel count buf ≡ buf ++ replicate (ftoa_buffer_size - length buf) b'0'
unfolding extra_zeros
extra_zeros_fill zero count buf h enough =
    let none_left : ftoa_buffer_size - length buf ≡ 0 = omega arith in
    rw none_left (sym (append-nil buf))
extra_zeros_fill (suc fuel) count buf h enough =
    elim (Bool-cases (ltb (length buf) ftoa_buffer_size)) [
      | inl room ↦
          let more : not (count == 0) ≡ true = ground arith in
          let split : ftoa_buffer_size - length buf
              ≡ suc (ftoa_buffer_size - length (buf ++ b'0' ∷ [])) =
            ground (arith, length-append buf (b'0' ∷ [])) in
          rw (room, more, split)
            (extra_zeros_fill fuel (count - 1) (buf ++ b'0' ∷ [])
                (omega (arith, length-append buf (b'0' ∷ []))) (omega arith)
              ∙ append_assoc buf (b'0' ∷ []) _)
      | inr full ↦
          let none_left : ftoa_buffer_size - length buf ≡ 0 = ground arith in
          rw (full, none_left) (sym (append-nil buf))
    ]

-- The buffer that is left: the digits of ten to the power of the precision, and zeros.
abbrev pub overflowed : ℕ → List ℕ
overflowed prec = replicate prec b'0' ++ b'1' ∷ replicate (ftoa_buffer_size - 1 - prec) b'0'

pub length-overflowed :
    (prec : ℕ) → prec < ftoa_buffer_size → length (overflowed prec) ≡ ftoa_buffer_size
length-overflowed prec h = omega (
  arith,
  length-append {A = ℕ} (replicate prec b'0') (b'1' ∷ replicate (ftoa_buffer_size - 1 - prec) b'0'),
  length-replicate {A = ℕ} prec b'0',
  length-replicate {A = ℕ} (ftoa_buffer_size - 1 - prec) b'0',
)

put_fraction_overflows :
    (prec : ℕ)
    → 0 < prec
    → prec < ftoa_buffer_size
    → put_fraction prec (10 ^ prec) [] ≡ overflowed prec
unfolding put_fraction put
put_fraction_overflows prec some_digits h =
    let positive : (prec == 0) ≡ false = ground arith in
    let digits : List ℕ = replicate prec b'0' ++ b'1' ∷ [] in
    let len : length digits ≡ prec + 1 = omega (
      arith,
      length-append {A = ℕ} (replicate prec b'0') (b'1' ∷ []),
      length-replicate {A = ℕ} prec b'0',
    ) in
    let left : ftoa_buffer_size - length digits ≡ ftoa_buffer_size - 1 - prec = omega arith in
    let full : ltb (length (overflowed prec)) ftoa_buffer_size ≡ false =
      ground (arith, length-overflowed prec h) in
    rw
      (
        positive,
        frac_digits_wraps prec ftoa_buffer_size [] h (omega arith),
        extra_zeros_fill ftoa_buffer_size (2 ^ 32 - 1) digits (omega arith) (omega arith),
        left,
        append_assoc {A = ℕ} (replicate prec b'0') (b'1' ∷ [])
            (replicate (ftoa_buffer_size - 1 - prec) b'0'),
        full,
      )
      refl

write_zeros_full :
    (limit : ℕ) (buf : List ℕ)
    → length buf ≡ ftoa_buffer_size
    → write_zeros ftoa_buffer_size limit buf ≡ buf
write_zeros_full limit buf full =
    let none_left : min limit ftoa_buffer_size - length buf ≡ 0 = omega arith in
    write_zeros-replicate ftoa_buffer_size limit buf (omega arith) ∙ rw none_left (append-nil buf)

put_sign_full :
    (negative : Bool) (flags : Flags) (buf : List ℕ)
    → length buf ≡ ftoa_buffer_size
    → put_sign negative flags buf ≡ buf
unfolding put_sign put
put_sign_full negative flags buf len = ground (arith, len)

if_same {ℓ} : {A : Type ℓ} (b : Bool) (x : A) → (if b then x else x) ≡ x
if_same true x = refl
if_same false x = refl

-- Whatever the sign, the whole part, the width and the flags: with a fraction of one digit more than the
-- precision, the digits and zeros take the buffer up, and nothing else is put into it.
pub float_buffer-overflowed :
    (negative : Bool) (whole prec width : ℕ) (flags : Flags)
    → 0 < prec
    → prec < ftoa_buffer_size
    → float_buffer negative whole (10 ^ prec) prec width flags [] ≡ overflowed prec
unfolding float_buffer
float_buffer-overflowed negative whole prec width flags some_digits h =
    let len = length-overflowed prec h in
    let no_room : room_of (overflowed prec) ≡ 0 = omega (arith, len) in
    let no_whole : whole_digits 0 whole (overflowed prec) ≡ overflowed prec =
      unfold whole_digits in refl in
    rw
      (
        put_fraction_overflows prec some_digits h,
        no_room,
        no_whole,
        write_zeros_full width (overflowed prec) len,
        if_same (not flags.left && flags.zeropad) (overflowed prec),
      )
      (put_sign_full negative flags (overflowed prec) len)
