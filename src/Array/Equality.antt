-- ===== src/Array/Equality.antt =====
-- The loop of `operator==` of mkl/array.hpp against equality.
use mega_os.Prelude.{
  ℕ, zero, suc, ◌+◌, ◌≡◌, ◌↔◌, ◌≢◌, ◌⊎◌, refl, sym, ap, ◌∙◌, Bool, true, false, ◌&&◌, List, [], ◌∷◌,
  some, length, get_elem?, arith, Bool-cases, inl, inr,
}
use mega_os.Array.{Array, at, equal_from, equals, round}

&&-true : (a b : Bool) → (a && b) ≡ true → (a ≡ true) × (b ≡ true)
&&-true a b h = ground arith

-- The array with these elements.
abbrev array {ℓ} : {A : Type ℓ} → List A → Array A
array xs = record { elements = xs }

module _ {ℓ} {A : Type ℓ} (equal : A → A → Bool) where
  -- The same test by recursion on the elements.
  abbrev pub same : List A → List A → Bool
  same [] [] = true
  same (x ∷ xs) (y ∷ ys) = equal x y && same xs ys
  same _ _ = false

  -- From the second position on the loop does what it does on the rest of both arrays.
  equal_from-suc :
      (rounds i : ℕ) (x y : A) (xs ys : List A)
      → equal_from equal rounds (suc i) (array (x ∷ xs)) (array (y ∷ ys))
        ≡ equal_from equal rounds i (array xs) (array ys)
  unfolding equal_from at
  equal_from-suc zero i x y xs ys = refl
  equal_from-suc (suc rounds) i x y xs ys =
      let next : suc i + 1 ≡ suc (i + 1) = omega arith in
      rw next (
        ap (λ rest. round equal (get_elem? xs i) (get_elem? ys i) rest)
          (equal_from-suc rounds (i + 1) x y xs ys))

  equal_from-same :
      (xs ys : List A)
      → length ys ≡ length xs
      → equal_from equal (length xs) 0 (array xs) (array ys) ≡ some (same xs ys)
  unfolding equal_from at
  equal_from-same [] [] h = refl
  equal_from-same [] (y ∷ ys) h = let never : ⊥ = omega arith in elim never [ ]
  equal_from-same (x ∷ xs) [] h = let never : ⊥ = omega arith in elim never [ ]
  equal_from-same (x ∷ xs) (y ∷ ys) h =
      let rest : equal_from equal (length xs) 1 (array (x ∷ xs)) (array (y ∷ ys))
          ≡ some (same xs ys) =
        equal_from-suc (length xs) 0 x y xs ys ∙ equal_from-same xs ys (omega arith) in
      elim (Bool-cases (equal x y)) [ inl e ↦ rw (e, rest) refl | inr e ↦ rw e refl ]

  module _ (correct : (x y : A) → (equal x y ≡ true) ↔ (x ≡ y)) where
    same-eq : (xs ys : List A) → same xs ys ≡ true → xs ≡ ys
    same-eq [] [] h = refl
    same-eq [] (y ∷ ys) h = ground arith
    same-eq (x ∷ xs) [] h = ground arith
    same-eq (x ∷ xs) (y ∷ ys) h =
        let (heads, tails) = &&-true (equal x y) (same xs ys) h in
        ap (λ z. z ∷ xs) ((correct x y).0 heads) ∙ ap (λ zs. y ∷ zs) (same-eq xs ys tails)

    same_refl : (xs : List A) → same xs xs ≡ true
    same_refl [] = refl
    same_refl (x ∷ xs) = rw ((correct x x).1 refl) (same_refl xs)

    -- If the elements' own test says whether two elements are equal, the loop of `operator==`
    -- returns, over two arrays of the given size, true if the arrays are equal and false if they
    -- are not, and never reads past their ends.
    pub equals-decides :
        (size : ℕ) (a other : Array A)
        → length a.elements ≡ size
        → length other.elements ≡ size
        → (equals equal size a other ≡ some true) × (a ≡ other)
          ⊎ (equals equal size a other ≡ some false) × (a ≢ other)
    unfolding equals
    equals-decides size a other ha ho =
        let run : equal_from equal size 0 a other ≡ some (same a.elements other.elements) =
          ap (λ n. equal_from equal n 0 a other) (sym ha)
          ∙ equal_from-same a.elements other.elements (ho ∙ sym ha) in
        elim (Bool-cases (same a.elements other.elements)) [
          | inl e ↦ inl (run ∙ ap some e, ap array (same-eq a.elements other.elements e))
          | inr e ↦
              let differ : a ≢ other = λ p.
                let b : same a.elements other.elements ≡ true =
                  ap (λ (b : Array A). same a.elements b.elements) (sym p) ∙ same_refl a.elements in
                ground arith in
              inr (run ∙ ap some e, differ)
        ]
