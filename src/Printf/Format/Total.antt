-- ===== src/Printf/Format/Total.antt =====
-- The runs of `_vsnprintf` (kernel/logging.cpp) on arguments that have been checked against the format.
use mega_os.Prelude.{ℕ, ◌%◌, ◌^◌, ◌≡◌, refl, true, List, [], ◌∷◌, some, length, arith, M, done}
use mega_os.Printf.Output.{OutFct, next_idx, emit}
use mega_os.Printf.Directive.{Arg}
use mega_os.Printf.Format.{format_out, end_idx}
use mega_os.Printf.Format.Formats.{format_loop-emit}
use mega_os.Printf.Format.Typed.{Kind, wants, fits, fits-Formats}

-- A run that returns.
abbrev pub Returns {ℓ κ} : {S : Type ℓ} {A : Type κ} → M S A → S → Type (ℓ ⊔ κ)
Returns {S} {A} run s = (a : A) × (s' : S) × (run s ≡ done a s')

-- An output function that always returns.
abbrev pub IsTotal {ℓ} : {S : Type ℓ} → OutFct S → Type ℓ
IsTotal {S} out = (c idx maxlen : ℕ) (s : S) → Returns (out c idx maxlen) s

module _ {ℓ} {S : Type ℓ} (out : OutFct S) (total : IsTotal out) (maxlen : ℕ) where
  emit-Returns : (cs : List ℕ) (idx : ℕ) (s : S) → Returns (emit out maxlen cs idx) s
  unfolding emit
  emit-Returns [] idx s = (idx, s, refl)
  emit-Returns (c ∷ cs) idx s =
      let (u, s', first) = total c idx maxlen s in
      let (i, s'', rest) = emit-Returns cs (next_idx idx) s' in (i, s'', rw first rest)

  -- If the arguments fit what the characters of a format ask for, in number and with a string
  -- shorter than 2^32 for each `%s`, `_vsnprintf` returns for every output function that always
  -- returns: no argument is missing or of the wrong kind, no directive is cut off, and the loop
  -- ends.
  pub fits-Returns :
      (format : List ℕ) (kinds : List Kind) (va : List Arg) (s : S)
      → wants (length format) format ≡ some kinds
      → fits kinds va ≡ true
      → Returns (format_out out maxlen format va) s
  unfolding format_out
  fits-Returns format kinds va s w h =
      let (text, formats) = fits-Formats (length format) format kinds va w h in
      let (i, s', written) = emit-Returns text 0 s in
      let (u, s'', ended) = total 0 (end_idx maxlen i) maxlen s' in
      (
        i % 2 ^ 32,
        s'',
        rw
            (
              format_loop-emit out maxlen (length format) 0 s formats (omega arith) (omega arith),
              written,
              ended,
            )
            refl,
      )
