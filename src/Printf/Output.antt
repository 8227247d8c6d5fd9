-- ===== src/Printf/Output.antt =====
-- Output functions and `_out_rev` of kernel/logging.cpp.
pub mod Laws
use mega_os.Prelude.{
  ℕ, zero, suc, ◌+◌, ◌-◌, ◌%◌, ◌^◌, Bool, true, false, ◌&&◌, not, List, [], ◌∷◌, ltb, if◌then◌else◌,
  length, get_or, M, pure, ◌>>=◌, ◌>>◌,
}

-- The flag bits of one conversion, one field for each `FLAGS_` macro that integer conversions use.
pub record Flags : Type 0 where
  pub zeropad : Bool
  pub left : Bool
  pub plus : Bool
  pub space : Bool
  pub hash : Bool
  pub uppercase : Bool
  pub char_size : Bool
  pub short_size : Bool
  pub long_size : Bool
  pub long_long_size : Bool
  pub has_precision : Bool

-- `flags = 0U`
abbrev pub no_flags : Flags
no_flags = record {
  zeropad = false;
  left = false;
  plus = false;
  space = false;
  hash = false;
  uppercase = false;
  char_size = false;
  short_size = false;
  long_size = false;
  long_long_size = false;
  has_precision = false;
}

-- `out(character, buffer, idx, maxlen)`; the buffer, or what the function writes to, is the state.
abbrev pub OutFct {ℓ} : Type ℓ → Type ℓ
OutFct S = ℕ → ℕ → ℕ → M S (Unit {0})

-- `idx++` on a `size_t`.
abbrev pub next_idx : ℕ → ℕ
next_idx idx = (idx + 1) % 2 ^ 64

-- `a - b` on a `size_t`.
abbrev pub size_sub : ℕ → ℕ → ℕ
size_sub a b = (a + 2 ^ 64 - b) % 2 ^ 64

abbrev pub blank : ℕ
blank = b' '

module _ {ℓ} {S : Type ℓ} (out : OutFct S) (maxlen : ℕ) where
  -- The characters one after another, each at the next index; the result is the index after them.
  unfoldable pub emit : List ℕ → ℕ → M S ℕ
  emit [] idx = pure idx
  emit (c ∷ cs) idx = do out c idx maxlen; emit cs (next_idx idx)

  -- A loop that writes a space in each of its rounds.
  unfoldable pub out_spaces : ℕ → ℕ → M S ℕ
  out_spaces zero idx = pure idx
  out_spaces (suc rounds) idx = do out blank idx maxlen; out_spaces rounds (next_idx idx)

  -- `while (len) out(buf[--len], buffer, idx++, maxlen);`
  unfoldable pub out_backwards : List ℕ → ℕ → ℕ → M S ℕ
  out_backwards buf zero idx = pure idx
  out_backwards buf (suc len) idx = do
    out (get_or buf len 0) idx maxlen
    out_backwards buf len (next_idx idx)

  -- `while (idx - start_idx < width) out(' ', buffer, idx++, maxlen);` in at most `fuel` rounds.
  unfoldable pub out_until : ℕ → ℕ → ℕ → ℕ → M S ℕ
  out_until zero start width idx = pure idx
  out_until (suc fuel) start width idx =
      if ltb (size_sub idx start) width
      then (do out blank idx maxlen; out_until fuel start width (next_idx idx))
      else pure idx

  -- `_out_rev`. `buf` holds the first `len` cells of the array; each round of the last loop brings
  -- `idx - start_idx` one closer to `width`, so `width` rounds are enough.
  unfoldable pub out_rev : ℕ → List ℕ → ℕ → Flags → M S ℕ
  unfolding out_spaces out_backwards out_until
  out_rev idx buf width flags = do
    padded ←
        if not flags.left && not flags.zeropad
        then out_spaces (width - length buf) idx
        else pure idx
    written ← out_backwards buf (length buf) padded
    if flags.left then out_until width idx width written else pure written
