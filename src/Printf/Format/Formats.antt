-- ===== src/Printf/Format/Formats.antt =====
-- `_vsnprintf` as a whole: the relation between a format with its arguments and a text, and that the
-- code emits that text and then the terminator.
use mega_os.Prelude.{
  ℕ, zero, suc, ◌+◌, ◌%◌, ◌^◌, ◌≤◌, ◌<◌, ◌≡◌, ◌≢◌, refl, subst, ap, ◌∙◌, true, false, List, [], ◌∷◌,
  ◌++◌, some, ◌==◌, length, arith,
}
use mega_os.Prelude.{M, pure, bind, ◌>>=◌, bind_assoc, bind_ext}
use mega_os.Printf.Output.{OutFct, next_idx, emit}
use mega_os.Printf.Output.Laws.{emit_index, emit_then}
use mega_os.Printf.Directive.{Arg, Directive, eval_directive}
use mega_os.Printf.Directive.Read.{eval_directive-IsRead}
use mega_os.Printf.Format.{skip, format_loop, format_loop_with, format_out, end_idx}
use mega_os.Printf.Format.Converts.{Converts, convert-emit}

-- A format, with arguments, describes a text.
pub data Formats : List ℕ → List Arg → List ℕ → Type 0 where
  end : {va : List Arg} → Formats [] va []
  char :
      {c : ℕ} {cs : List ℕ} {va : List Arg} {text : List ℕ}
      → c ≢ b'%'
      → Formats cs va text
      → Formats (c ∷ cs) va (c ∷ text)
  directive :
      {c specifier : ℕ} {cs rest : List ℕ} {va va' : List Arg} {d : Directive} {field text : List ℕ}
      → c ≡ b'%'
      → eval_directive cs va ≡ some d
      → d.rest ≡ specifier ∷ rest
      → Converts d field va'
      → Formats rest va' text
      → Formats (c ∷ cs) va (field ++ text)

module _ {ℓ} {S : Type ℓ} (out : OutFct S) (maxlen : ℕ) where
  -- With the length of the format as fuel, the loop emits the text.
  pub format_loop-emit :
      {format : List ℕ} {va : List Arg} {text : List ℕ} (fuel idx : ℕ) (s : S)
      → Formats format va text
      → length format ≤ fuel
      → idx < 2 ^ 64
      → format_loop out maxlen fuel format va idx s ≡ emit out maxlen text idx s
  unfolding format_loop format_loop_with emit
  format_loop-emit fuel idx s end h hi = refl
  format_loop-emit zero idx s (char ne rest) h hi = elim h [ ]
  format_loop-emit (suc fuel) idx s (char {c} {cs} {va} {text} ne rest) h hi =
      let plain : (c == b'%') ≡ false = ground arith in
      rw plain (
        bind_ext (out c idx maxlen s) _ _
          (λ _ s'. format_loop-emit fuel (next_idx idx) s' rest (omega arith) (omega arith)))
  format_loop-emit zero idx s (directive eq reads at converts rest) h hi = elim h [ ]
  format_loop-emit (suc fuel) idx s
        (directive {c} {specifier} {cs} {rest} {va} {va'} {d} {field} {text} eq reads at converts
          formats)
        h hi =
      let percent : (c == b'%') ≡ true = ground arith in
      let (d-IsRead, short) = eval_directive-IsRead cs va d reads in
      let shorter : suc (length rest) ≤ length cs = subst (λ l. length l ≤ length cs) at short in
      rw (percent, reads)
        (ap (λ o. bind o (after d)) (convert-emit out maxlen idx s d-IsRead hi converts)
          ∙ bind_assoc (emit out maxlen field idx s) (λ i. pure (i, va')) (after d)
          ∙ bind_ext (emit out maxlen field idx s) _ _ (λ i s'.
            ap (λ r. bind (skip r s') (λ rest'. format_loop out maxlen fuel rest' va' i)) at)
          ∙ emit_then out maxlen field text idx s (format_loop out maxlen fuel rest va') hi
              (λ s'. format_loop-emit fuel _ s' formats (omega arith) (omega arith)))
    where
      after : Directive → ℕ × List Arg → M S ℕ
      after d' x = skip d'.rest >>= λ rest'. format_loop out maxlen fuel rest' x.1 x.0

  -- For every output function, if a format with its arguments describes a text shorter than 2^64,
  -- `_vsnprintf` emits the text character by character, then a NUL at the index behind it or at
  -- the last index of the buffer, and returns its length modulo 2^32.
  pub format_out-emit :
      {format : List ℕ} {va : List Arg} {text : List ℕ} (s : S)
      → Formats format va text
      → length text < 2 ^ 64
      → format_out out maxlen format va s
        ≡ bind (emit out maxlen text 0 s) (λ _ s'.
          bind (out 0 (end_idx maxlen (length text)) maxlen s') (λ _. pure (length text % 2 ^ 32)))
  unfolding format_out
  format_out-emit {format} {va} {text} s formats h =
      let same : (0 + length text) % 2 ^ 64 ≡ length text = omega arith in
      rw (format_loop-emit (length format) 0 s formats (omega arith) (omega arith)) (
        emit_index out maxlen text 0 s finish (omega arith)
        ∙ ap (λ (n : ℕ). bind (emit out maxlen text 0 s) (λ _. finish n)) same)
    where
      finish : ℕ → M S ℕ
      finish idx s' = bind (out 0 (end_idx maxlen idx) maxlen s') (λ _. pure (idx % 2 ^ 32))
