-- ===== src/Printf/Fixed/Digits.antt =====
-- The digits of the fraction and of the whole part that `_ftoa` writes (kernel/logging.cpp).
use native.Mathlib.Nat.{pow-succ', pow-zero, mod-one}
use mega_os.Prelude.{
  ℕ, zero, suc, ◌+◌, ◌-◌, ◌/◌, ◌%◌, ◌^◌, ◌≤◌, ◌<◌, ◌≡◌, refl, sym, ap, ◌∙◌, Bool, true, ◌&&◌, not,
  List, [], ◌∷◌, ◌++◌, append_assoc, append-nil, arith, ltb, ◌==◌, if◌then◌else◌, length, replicate,
  length-append, Bool-cases, inl, inr,
}
use mega_os.Printf.Integer.{write_digits, digit_char}
use mega_os.Printf.Integer.Digits.{spelled, digit_value, mod_mul, write_digits-suc}
use mega_os.Printf.Fixed.{ftoa_buffer_size, frac_digits, extra_zeros, whole_digits}

-- So many decimal digits of a number, the least significant first.
abbrev pub digits_up : ℕ → ℕ → List ℕ
digits_up zero frac = []
digits_up (suc n) frac = (b'0' + frac % 10) ∷ digits_up n (frac / 10)

pub length-digits_up : (n frac : ℕ) → length (digits_up n frac) ≡ n
length-digits_up zero frac = refl
length-digits_up (suc n) frac = ap suc (length-digits_up n (frac / 10))

digits_up_zero : (n : ℕ) → digits_up n 0 ≡ replicate n b'0'
digits_up_zero zero = refl
digits_up_zero (suc n) = ap (λ l. b'0' ∷ l) (digits_up_zero n)

pub extra_zeros-replicate :
    (fuel count : ℕ) (buf : List ℕ)
    → count ≤ fuel
    → length buf + count ≤ ftoa_buffer_size
    → extra_zeros fuel count buf ≡ buf ++ replicate count b'0'
unfolding extra_zeros
extra_zeros-replicate zero zero buf h fits = sym (append-nil buf)
extra_zeros-replicate zero (suc count) buf h fits = elim h [ ]
extra_zeros-replicate (suc fuel) zero buf h fits = ground (arith, append-nil buf)
extra_zeros-replicate (suc fuel) (suc count) buf h fits =
    let more : (ltb (length buf) ftoa_buffer_size && not (suc count == 0)) ≡ true = ground arith in
    let next : suc count - 1 ≡ count = omega arith in
    rw (more, next)
      (extra_zeros-replicate fuel count (buf ++ b'0' ∷ []) (omega arith)
          (omega (arith, length-append buf (b'0' ∷ [])))
        ∙ append_assoc buf (b'0' ∷ []) _)

-- The digits of the fraction and the zeros behind them are so many digits in all.
abbrev pub fraction : ℕ → ℕ → ℕ → List ℕ → List ℕ
fraction room frac count buf =
    let (count', digits) = frac_digits room frac count buf in
    extra_zeros ftoa_buffer_size count' digits

pub fraction-digits_up :
    (n room frac : ℕ) (buf : List ℕ)
    → frac < 10 ^ suc n
    → n < room
    → length buf + suc n ≤ ftoa_buffer_size
    → fraction room frac (suc n) buf ≡ buf ++ digits_up (suc n) frac
unfolding frac_digits
fraction-digits_up n zero frac buf h r fits = absurd (omega arith)
fraction-digits_up zero (suc room) frac buf h r fits =
    let last : (frac / 10 == 0) ≡ true = ground (arith, pow-succ' 10 0, pow-zero 10) in
    rw last (
      extra_zeros-replicate ftoa_buffer_size 0 (buf ++ (b'0' + frac % 10) ∷ []) (omega arith)
        (omega (arith, length-append buf ((b'0' + frac % 10) ∷ [])))
      ∙ append-nil _)
fraction-digits_up (suc n) (suc room) frac buf h r fits =
    let buf' = buf ++ (b'0' + frac % 10) ∷ [] in
    let next : (suc (suc n) + 2 ^ 32 - 1) % 2 ^ 32 ≡ suc n = omega arith in
    let fits' : length buf' + suc n ≤ ftoa_buffer_size =
      omega (arith, length-append buf ((b'0' + frac % 10) ∷ [])) in
    elim (Bool-cases (frac / 10 == 0)) [
      | inl last ↦
          let none_left : frac / 10 ≡ 0 = ground arith in
          rw (last, next)
            (extra_zeros-replicate ftoa_buffer_size (suc n) buf' (omega arith) fits'
              ∙ append_assoc buf _ _
              ∙ rw (none_left, digits_up_zero (suc n)) refl)
      | inr more ↦
          rw (more, next)
            (fraction-digits_up n room (frac / 10) buf' (omega (arith, pow-succ' 10 (suc n)))
                (omega arith) fits'
              ∙ append_assoc buf _ _)
    ]

pub whole_digits-append :
    (room whole : ℕ) (upper : Bool) (buf : List ℕ)
    → whole_digits room whole buf ≡ write_digits room whole 10 upper buf
unfolding whole_digits write_digits digit_char
whole_digits-append zero whole upper buf = refl
whole_digits-append (suc room) whole upper buf =
    let c : digit_char upper (whole % 10) ≡ b'0' + whole % 10 = unfold digit_char in ground arith in
    rw c (
      ap (λ l. if whole / 10 == 0 then buf ++ (b'0' + whole % 10) ∷ [] else l)
        (whole_digits-append room (whole / 10) upper (buf ++ (b'0' + whole % 10) ∷ [])))

-- A number with no more digits than cells is written the same with more cells.
pub write_digits_enough :
    (n m v : ℕ) (upper : Bool)
    → v < 10 ^ suc n
    → n ≤ m
    → write_digits (suc n) v 10 upper [] ≡ write_digits (suc m) v 10 upper []
write_digits_enough zero m v upper h le =
    let last : (v / 10 == 0) ≡ true = ground (arith, pow-succ' 10 0, pow-zero 10) in
    rw (write_digits-suc 0 v 10 upper, write_digits-suc m v 10 upper, last) refl
write_digits_enough (suc n) zero v upper h le = absurd (omega arith)
write_digits_enough (suc n) (suc m) v upper h le =
    let smaller : v / 10 < 10 ^ suc n = omega (arith, pow-succ' 10 (suc n)) in
    rw
      (
        write_digits-suc (suc n) v 10 upper,
        write_digits-suc (suc m) v 10 upper,
        write_digits_enough n m (v / 10) upper smaller (omega arith),
      )
      refl

-- The digits spell the number, as far as they go.
pub spelled-digits_up : (n frac : ℕ) → spelled 10 (digits_up n frac) ≡ frac % 10 ^ n
spelled-digits_up zero frac = rw pow-zero (sym (mod-one frac))
spelled-digits_up (suc n) frac =
    let c : digit_value (b'0' + frac % 10) ≡ frac % 10 = ground arith in
    rw (c, pow-succ' 10 n, spelled-digits_up n (frac / 10)) (mod_mul frac 10 (10 ^ n))
