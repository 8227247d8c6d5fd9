-- ===== src/Printf/Output/Laws.antt =====
-- What `_out_rev` writes: the buffer backwards, between the spaces that fill the width.
use mega_os.Prelude.{
  ℕ, zero, suc, ◌+◌, ◌-◌, ◌%◌, ◌^◌, ◌≤◌, ◌<◌, ◌≡◌, refl, sym, ap, ◌∙◌, Bool, true, false, ◌&&◌, not,
  List, [], ◌∷◌, ◌++◌, reverse, append_assoc, arith, ltb, if◌then◌else◌, length, replicate, take,
  take_all, reverse-take, Bool-cases, inl, inr, ltb→lt, ltb→le, length-reverse,
}
use mega_os.Prelude.{M, pure, bind, ◌>>=◌, bind_assoc, bind_ext}
use mega_os.Printf.Output.{
  OutFct, Flags, next_idx, size_sub, blank, emit, out_spaces, out_backwards, out_until, out_rev,
}

-- The characters that `_out_rev` writes.
abbrev pub layout : List ℕ → ℕ → Flags → List ℕ
layout buf width flags =
    (if not flags.left && not flags.zeropad then replicate (width - length buf) blank else [])
    ++ (reverse buf ++ (if flags.left then replicate (width - length buf) blank else []))

module _ {ℓ} {S : Type ℓ} (out : OutFct S) (maxlen : ℕ) where
  pub emit-append :
      (xs ys : List ℕ) (idx : ℕ) (s : S)
      → emit out maxlen (xs ++ ys) idx s ≡ bind (emit out maxlen xs idx s) (emit out maxlen ys)
  unfolding emit
  emit-append [] ys idx s = refl
  emit-append (c ∷ xs) ys idx s =
      bind_ext (out c idx maxlen s) _ _ (λ _ s'. emit-append xs ys (next_idx idx) s')
      ∙ sym (bind_assoc (out c idx maxlen s) _ _)

  -- The index after the characters is known without the run.
  pub emit_index {κ} :
      {A : Type κ} (cs : List ℕ) (idx : ℕ) (s : S) (f : ℕ → M S A)
      → idx < 2 ^ 64
      → bind (emit out maxlen cs idx s) f
        ≡ bind (emit out maxlen cs idx s) (λ _. f ((idx + length cs) % 2 ^ 64))
  unfolding emit
  emit_index [] idx s f h = ap (λ (i : ℕ). f i s) (omega arith)
  emit_index (c ∷ cs) idx s f h =
      bind_assoc (out c idx maxlen s) _ _
      ∙ bind_ext (out c idx maxlen s) _ _ (λ _ s'.
        emit_index cs (next_idx idx) s' f (omega arith)
        ∙ ap (λ (i : ℕ). bind (emit out maxlen cs (next_idx idx) s') (λ _. f i)) (omega arith))
      ∙ sym (bind_assoc (out c idx maxlen s) _ _)

  out_spaces-emit :
      (n idx : ℕ) (s : S)
      → out_spaces out maxlen n idx s ≡ emit out maxlen (replicate n blank) idx s
  unfolding emit out_spaces
  out_spaces-emit zero idx s = refl
  out_spaces-emit (suc n) idx s =
      bind_ext (out blank idx maxlen s) _ _ (λ _ s'. out_spaces-emit n (next_idx idx) s')

  out_backwards-emit :
      (buf : List ℕ) (len idx : ℕ) (s : S)
      → len ≤ length buf
      → out_backwards out maxlen buf len idx s ≡ emit out maxlen (reverse (take len buf)) idx s
  unfolding emit out_backwards
  out_backwards-emit buf zero idx s h = refl
  out_backwards-emit buf (suc len) idx s h = rw (reverse-take len buf 0 h) (
      bind_ext (out _ idx maxlen s) _ _
        (λ _ s'. out_backwards-emit buf len (next_idx idx) s' (omega arith)))

  -- The loop after a left-justified field ends by its own test.
  out_until-emit :
      (fuel start width idx k : ℕ) (s : S)
      → idx < 2 ^ 64
      → start < 2 ^ 64
      → width < 2 ^ 64
      → size_sub idx start ≡ k
      → width - k ≤ fuel
      → out_until out maxlen fuel start width idx s
        ≡ emit out maxlen (replicate (width - k) blank) idx s
  unfolding emit out_until
  out_until-emit zero start width idx k s hi hs hw e f =
      let none_left : width - k ≡ 0 = omega arith in rw none_left
  out_until-emit (suc fuel) start width idx k s hi hs hw e f =
      elim (Bool-cases (ltb (size_sub idx start) width)) [
        | inl more ↦
            let lt : size_sub idx start < width = ltb→lt _ _ more in
            let split : width - k ≡ suc (width - (k + 1)) = omega arith in
            rw (more, split)
              (bind_ext (out blank idx maxlen s) _ _ (λ _ s'.
                out_until-emit fuel start width (next_idx idx) (k + 1) s' (omega arith) hs hw
                  (omega arith) (omega arith)))
        | inr full ↦
            let le : width ≤ size_sub idx start = ltb→le _ _ full in
            let none_left : width - k ≡ 0 = omega arith in rw (full, none_left)
      ]

  pub spaces_if :
      (b : Bool) (n idx : ℕ) (s : S)
      → (if b then out_spaces out maxlen n idx else pure idx) s
        ≡ emit out maxlen (if b then replicate n blank else []) idx s
  spaces_if true n idx s = out_spaces-emit n idx s
  spaces_if false n idx s = unfold emit in refl

  pub spaces_after :
      (b : Bool) (width idx k w : ℕ) (s : S)
      → idx < 2 ^ 64
      → width < 2 ^ 32
      → k < 2 ^ 32
      → (b ≡ true → w ≡ (idx + k) % 2 ^ 64)
      → (if b then out_until out maxlen width idx width w else pure w) s
        ≡ emit out maxlen (if b then replicate (width - k) blank else []) w s
  spaces_after true width idx k w s hi hw hk e =
      let at : w ≡ (idx + k) % 2 ^ 64 = e refl in
      out_until-emit width idx width w k s (omega arith) hi (omega arith) (omega arith)
        (omega arith)
  spaces_after false width idx k w s hi hw hk e = unfold emit in refl

  pub emit-append₃ :
      (xs ys : List ℕ) (idx : ℕ) (s : S) (g : ℕ → M S ℕ)
      → bind (emit out maxlen xs idx s) (λ i. emit out maxlen ys i >>= g)
        ≡ bind (emit out maxlen (xs ++ ys) idx s) g
  emit-append₃ xs ys idx s g =
      sym (bind_assoc (emit out maxlen xs idx s) (emit out maxlen ys) g)
      ∙ ap (λ o. bind o g) (sym (emit-append xs ys idx s))

  -- What follows an emission and is itself one, at the index that it starts from.
  pub emit_then :
      (xs ys : List ℕ) (idx : ℕ) (s : S) (g : ℕ → M S ℕ)
      → idx < 2 ^ 64
      → ((s' : S)
          → g ((idx + length xs) % 2 ^ 64) s' ≡ emit out maxlen ys ((idx + length xs) % 2 ^ 64) s')
      → bind (emit out maxlen xs idx s) g ≡ emit out maxlen (xs ++ ys) idx s
  emit_then xs ys idx s g h e =
      emit_index xs idx s g h
      ∙ bind_ext (emit out maxlen xs idx s) _ _ (λ _ s'. e s')
      ∙ sym (emit_index xs idx s (emit out maxlen ys) h)
      ∙ sym (emit-append xs ys idx s)

  -- For every output function, index below 2^64, width below 2^32 and buffer shorter than 2^32,
  -- `_out_rev` emits the reversed buffer with the spaces that the width and the flags ask for
  -- before or behind it.
  pub out_rev-emit :
      (idx : ℕ) (buf : List ℕ) (width : ℕ) (flags : Flags) (s : S)
      → idx < 2 ^ 64
      → width < 2 ^ 32
      → length buf < 2 ^ 32
      → out_rev out maxlen idx buf width flags s ≡ emit out maxlen (layout buf width flags) idx s
  unfolding out_rev
  out_rev-emit idx buf width flags s hi hw hb =
      ap (λ o. bind o after) (spaces_if (not flags.left && not flags.zeropad) n idx s)
      ∙ bind_ext (emit out maxlen pre idx s) _ _
          (λ i s'. ap (λ o. bind o last) (out_backwards-emit buf (length buf) i s' (omega arith)))
      ∙ rw (take_all buf) (
          emit-append₃ pre (reverse buf) idx s last
          ∙ emit_then (pre ++ reverse buf) post idx s last hi
              (λ s'. spaces_after flags.left width idx (length buf) _ s' hi hw hb at_end)
          ∙ ap (λ cs. emit out maxlen cs idx s) (append_assoc pre (reverse buf) post))
    where
      n : ℕ
      n = width - length buf

      pre : List ℕ
      pre = if not flags.left && not flags.zeropad then replicate n blank else []

      post : List ℕ
      post = if flags.left then replicate n blank else []

      last : ℕ → M S ℕ
      last written =
          if flags.left then out_until out maxlen width idx width written else pure written

      after : ℕ → M S ℕ
      after padded = out_backwards out maxlen buf (length buf) padded >>= last

      at_end :
          flags.left ≡ true
          → (idx + length (pre ++ reverse buf)) % 2 ^ 64 ≡ (idx + length buf) % 2 ^ 64
      at_end e = rw e (ap (λ (m : ℕ). (idx + m) % 2 ^ 64) (length-reverse buf))
