-- ===== src/Printf/Integer/Field.antt =====
-- The field of a number: spaces, the sign, zeros, the digits, spaces; and what the padding of
-- `_ntoa_format` adds.
use mega_os.Prelude.{
  ℕ, ◌+◌, ◌-◌, ◌≤◌, ◌≡◌, refl, sym, ap, ◌∙◌, Bool, true, false, ◌&&◌, ◌||◌, not, List, [], ◌∷◌,
  ◌++◌, append_assoc, append-nil, arith, if◌then◌else◌, length, replicate, Bool-cases, inl, inr,
  min, max, length-append, length-replicate, reverse, reverse-append, reverse-replicate,
  replicate-add,
}
use mega_os.Printf.Output.{Flags, blank}
use mega_os.Printf.Integer.{
  buffer_size, write_zeros, put, sign_width, pad_zeros, put_hash, put_sign,
}
use mega_os.Printf.Integer.Padding.{write_zeros-replicate}

-- The sign, `+` or space of a signed conversion.
abbrev pub sign_chars : Bool → Flags → List ℕ
sign_chars negative flags =
    if negative
    then b'-' ∷ []
    else if flags.plus
    then b'+' ∷ []
    else if flags.space
    then b' ' ∷ []
    else []

-- The width of the field without its padding.
abbrev content_width : Bool → ℕ → Flags → List ℕ → ℕ
content_width negative prec flags ds = length (sign_chars negative flags) + max prec (length ds)

abbrev pub front_blanks : Bool → ℕ → ℕ → Flags → List ℕ → ℕ
front_blanks negative prec width flags ds =
    if flags.left || flags.zeropad then 0 else width - content_width negative prec flags ds

abbrev pub back_blanks : Bool → ℕ → ℕ → Flags → List ℕ → ℕ
back_blanks negative prec width flags ds =
    if flags.left then width - content_width negative prec flags ds else 0

pub sign_width-le :
    (negative : Bool) (width : ℕ) (flags : Flags) → sign_width negative width flags ≤ width
unfolding sign_width
sign_width-le negative width flags = ground arith

-- Up to the precision, or up to the width with the flag `0`, which `-` overrides.
abbrev pub leading_zeros : Bool → ℕ → ℕ → Flags → List ℕ → ℕ
leading_zeros negative prec width flags ds =
    if not flags.left && flags.zeropad
    then max prec (width - length (sign_chars negative flags)) - length ds
    else prec - length ds

-- The field of a conversion without `#`, where the flag `0` holds beside a precision, too; `ds` are
-- the digits, most significant first.
abbrev pub padded_field : Bool → ℕ → ℕ → Flags → List ℕ → List ℕ
padded_field negative prec width flags ds =
    replicate (front_blanks negative prec width flags ds) blank
    ++ (sign_chars negative flags
        ++ (replicate (leading_zeros negative prec width flags ds) b'0'
            ++ (ds ++ replicate (back_blanks negative prec width flags ds) blank)))

abbrev pub pad_count : ℕ → ℕ → Flags → ℕ → ℕ
pad_count prec width flags len =
    if flags.left then 0 else if flags.zeropad then max prec width - len else prec - len

zeros_below :
    (limit : ℕ) (buf : List ℕ)
    → limit ≤ buffer_size
    → write_zeros buffer_size limit buf ≡ buf ++ replicate (limit - length buf) b'0'
zeros_below limit buf h =
    let same : min limit buffer_size - length buf ≡ limit - length buf = omega arith in
    rw (← same) (write_zeros-replicate buffer_size limit buf (omega arith))

zeros_twice :
    (prec width : ℕ) (buf : List ℕ)
    → width ≤ buffer_size
    → write_zeros buffer_size width (buf ++ replicate (prec - length buf) b'0')
      ≡ buf ++ replicate (max prec width - length buf) b'0'
zeros_twice prec width buf h =
    let first = prec - length buf in
    let padded = buf ++ replicate first b'0' in
    let count : max prec width - length buf ≡ first + (width - length padded) =
      omega
        (arith, length-append buf (replicate first b'0'), length-replicate {A = ℕ} first b'0') in
    rw count (
      zeros_below width padded h
      ∙ append_assoc buf (replicate first b'0') _
      ∙ ap (λ l. buf ++ l) (replicate-add first (width - length padded) b'0'))

pub pad_zeros-replicate :
    (prec width : ℕ) (flags : Flags) (buf : List ℕ)
    → prec ≤ buffer_size
    → (flags.zeropad ≡ true → width ≤ buffer_size)
    → pad_zeros prec width flags buf
      ≡ buf ++ replicate (pad_count prec width flags (length buf)) b'0'
unfolding pad_zeros
pad_zeros-replicate prec width flags buf hp hw = elim (Bool-cases flags.left) [
  | inl left ↦ rw left (sym (append-nil buf))
  | inr right ↦
      rw (right, zeros_below prec buf hp)
        (elim (Bool-cases flags.zeropad) [
          | inl zeros ↦ rw zeros (zeros_twice prec width buf (hw zeros))
          | inr plain ↦ rw plain refl
        ])
]

pub put_sign-append :
    (negative : Bool) (flags : Flags) (buf : List ℕ)
    → length buf + length (sign_chars negative flags) ≤ buffer_size
    → put_sign negative flags buf ≡ buf ++ sign_chars negative flags
unfolding put_sign put
put_sign-append negative flags buf h = ground (arith, append-nil buf)

pub put_hash_none :
    (base prec width : ℕ) (flags : Flags) (buf : List ℕ)
    → flags.hash ≡ false
    → put_hash base prec width flags buf ≡ buf
unfolding put_hash
put_hash_none base prec width flags buf h = rw h

pub reverse_field :
    (buf : List ℕ) (n : ℕ) (negative : Bool) (flags : Flags)
    → reverse ((buf ++ replicate n b'0') ++ sign_chars negative flags)
      ≡ sign_chars negative flags ++ (replicate n b'0' ++ reverse buf)
reverse_field buf n negative flags =
    reverse-append (buf ++ replicate n b'0') (sign_chars negative flags)
    ∙ rw (reverse-append buf (replicate n b'0'), reverse-replicate {A = ℕ} n b'0')
        (ap (λ l. l ++ (replicate n b'0' ++ reverse buf)) sign)
  where
    sign : reverse (sign_chars negative flags) ≡ sign_chars negative flags
    sign = ground arith
