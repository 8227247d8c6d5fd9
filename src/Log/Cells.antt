-- ===== src/Log/Cells.antt =====
-- The cells of the array that `_out_buffer` writes to (kernel/logging.cpp).
use mega_os.Prelude.{
  ℕ, zero, suc, ◌+◌, ◌-◌, ◌<◌, ◌≤◌, ◌^◌, ◌≡◌, refl, ap, ◌∙◌, List, [], ◌∷◌, ◌++◌, append_assoc,
  subst, length, length-append, take, take-nil, length-take, length-drop, take-suc, take_above,
  drop-suc, get_or, drop, set, arith, done, ltb, Bool-cases, inl, inr, min, lt→ltb, le→ltb, ltb→lt,
  ltb→le,
}
use mega_os.Printf.Output.{emit, next_idx}
use mega_os.Printf.Format.{out_null}
use mega_os.Log.{out_buffer}

-- `text` over the front of a buffer.
abbrev pub over : List ℕ → List ℕ → List ℕ
over text buffer = text ++ drop (length text) buffer

-- `idx++`, so often.
abbrev advanced : ℕ → ℕ → ℕ
advanced zero idx = idx
advanced (suc n) idx = advanced n (next_idx idx)

pub set-append : (xs ys : List ℕ) (y v : ℕ) → set (xs ++ y ∷ ys) (length xs) v ≡ xs ++ v ∷ ys
set-append [] ys y v = refl
set-append (x ∷ xs) ys y v = ap (λ l. x ∷ l) (set-append xs ys y v)

-- From `maxlen` on nothing is written.
pub emit_past_end :
    (maxlen : ℕ) (text : List ℕ) (idx : ℕ) (buffer : List ℕ)
    → maxlen ≤ idx
    → idx + length text < 2 ^ 64
    → emit out_buffer maxlen text idx buffer ≡ done (idx + length text) buffer
unfolding emit out_buffer
emit_past_end maxlen [] idx buffer h hl = let same : idx + 0 ≡ idx = omega arith in rw same
emit_past_end maxlen (c ∷ text) idx buffer h hl =
    let step : next_idx idx ≡ idx + 1 = omega arith in
    let same : idx + 1 + length text ≡ idx + suc (length text) = omega arith in
    rw (le→ltb idx maxlen h, step, ← same)
      (emit_past_end maxlen text (idx + 1) buffer (omega arith) (omega arith))

out_buffer_write :
    (maxlen c y : ℕ) (front back : List ℕ)
    → length front < maxlen
    → out_buffer c (length front) maxlen (front ++ y ∷ back) ≡ done tt (front ++ c ∷ back)
unfolding out_buffer
out_buffer_write maxlen c y front back h =
    let inside : length front < length (front ++ y ∷ back) =
      omega (arith, length-append front (y ∷ back)) in
    rw (lt→ltb _ _ h, lt→ltb _ _ inside, set-append front back y c)

-- One character, and then the rest behind it.
one_more :
    (maxlen c y : ℕ) (text front back : List ℕ)
    → length front < maxlen
    → length front + length (c ∷ text) < 2 ^ 64
    → emit out_buffer maxlen text (length (front ++ c ∷ [])) ((front ++ c ∷ []) ++ back)
      ≡ done
          (length (front ++ c ∷ []) + length text)
          ((front ++ c ∷ []) ++ over (take (maxlen - length (front ++ c ∷ [])) text) back)
    → emit out_buffer maxlen (c ∷ text) (length front) (front ++ y ∷ back)
      ≡ done
          (length front + length (c ∷ text))
          (front ++ over (take (maxlen - length front) (c ∷ text)) (y ∷ back))
unfolding emit
one_more maxlen c y text front back lt hl rest =
    let longer : length (front ++ c ∷ []) ≡ length front + 1 = length-append front (c ∷ []) in
    let step : next_idx (length front) ≡ length (front ++ c ∷ []) = omega arith in
    let total : length front + suc (length text) ≡ length (front ++ c ∷ []) + length text =
      omega arith in
    let left : maxlen - length front ≡ suc (maxlen - length (front ++ c ∷ [])) = omega arith in
    rw
      (
        out_buffer_write maxlen c y front back lt,
        step,
        total,
        left,
        ← append_assoc front (c ∷ []) back,
      )
      (rest
        ∙ ap (done (length (front ++ c ∷ []) + length text)) (
            append_assoc front (c ∷ [])
              (over (take (maxlen - length (front ++ c ∷ [])) text) back)))

-- Behind what is written already, the text is written up to `maxlen`.
pub emit-out_buffer :
    (maxlen : ℕ) (text front back : List ℕ)
    → min maxlen (length front + length text) ≤ length front + length back
    → length front + length text < 2 ^ 64
    → emit out_buffer maxlen text (length front) (front ++ back)
      ≡ done (length front + length text) (front ++ over (take (maxlen - length front) text) back)
emit-out_buffer maxlen [] front back h hl =
    let same : length front + 0 ≡ length front = omega arith in
    rw (same, take-nil ℕ (maxlen - length front)) (unfold emit in refl)
emit-out_buffer maxlen (c ∷ text) front [] h hl =
    let nothing : maxlen - length front ≡ 0 = omega arith in
    rw nothing (emit_past_end maxlen (c ∷ text) (length front) (front ++ []) (omega arith) hl)
emit-out_buffer maxlen (c ∷ text) front (y ∷ back) h hl =
    elim (Bool-cases (ltb (length front) maxlen)) [
      | inl room ↦ one_more maxlen c y text front back (ltb→lt _ _ room) hl (
          emit-out_buffer maxlen text (front ++ c ∷ []) back
            (omega (arith, length-append front (c ∷ [])))
            (omega (arith, length-append front (c ∷ []))))
      | inr full ↦
          let le : maxlen ≤ length front = ltb→le _ _ full in
          let nothing : maxlen - length front ≡ 0 = omega arith in
          rw nothing (emit_past_end maxlen (c ∷ text) (length front) (front ++ y ∷ back) le hl)
    ]

-- The terminator goes behind the text or into the last cell.
pub set_end :
    (n : ℕ) (text buffer : List ℕ)
    → n < length buffer
    → set (over (take (suc n) text) buffer) (min (length text) n) 0
      ≡ take n text ++ 0 ∷ drop (suc (min (length text) n)) buffer
set_end n text buffer h = elim (Bool-cases (ltb n (length text))) [
  | inl long ↦
      let lt : n < length text = ltb→lt _ _ long in
      let at : min (length text) n ≡ n = omega arith in
      let here : length (take n text) ≡ n = omega (arith, length-take n text) in
      let size : length (take (suc n) text) ≡ suc n = omega (arith, length-take (suc n) text) in
      rw
        (
          at,
          size,
          take-suc n text 0 lt,
          append_assoc (take n text) (get_or text n 0 ∷ []) (drop (suc n) buffer),
        )
        (subst
          (λ i.
            set (take n text ++ get_or text n 0 ∷ drop (suc n) buffer) i 0
            ≡ take n text ++ 0 ∷ drop (suc n) buffer)
          here (set-append (take n text) (drop (suc n) buffer) (get_or text n 0) 0))
  | inr short ↦
      let le : length text ≤ n = ltb→le _ _ short in
      let at : min (length text) n ≡ length text = omega arith in
      rw
        (
          at,
          take_above (suc n) text (omega arith),
          take_above n text le,
          drop-suc (length text) buffer 0 (omega arith),
        )
        (set-append text (drop (suc (length text)) buffer) (get_or buffer (length text) 0) 0)
]

pub le-length-over : (text buffer : List ℕ) → length buffer ≤ length (over text buffer)
le-length-over text buffer =
    omega (arith, length-append text (drop (length text) buffer), length-drop (length text) buffer)

pub out_buffer-set :
    (maxlen c idx : ℕ) (buffer : List ℕ)
    → idx < maxlen
    → idx < length buffer
    → out_buffer c idx maxlen buffer ≡ done tt (set buffer idx c)
unfolding out_buffer
out_buffer-set maxlen c idx buffer h inside = rw (lt→ltb _ _ h, lt→ltb _ _ inside)

pub emit-out_null {ℓ} :
    {S : Type ℓ} (maxlen : ℕ) (text : List ℕ) (idx : ℕ) (s : S)
    → emit out_null maxlen text idx s ≡ done (advanced (length text) idx) s
unfolding emit
emit-out_null maxlen [] idx s = refl
emit-out_null maxlen (c ∷ text) idx s = emit-out_null maxlen text (next_idx idx) s
