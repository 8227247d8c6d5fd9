-- ===== src/Array.antt =====
-- mkl/array.hpp: an array of a fixed size, as the list of its elements. A pointer into it is an index.
pub mod Equality
use mega_os.Prelude.{
  ℕ, zero, suc, ◌+◌, ◌-◌, Bool, true, false, List, [], ◌∷◌, Option, none, some, ◌==◌, if◌then◌else◌,
  get_elem?, set,
}

-- `array`, whose initializer gives `Size` elements
pub record Array {ℓ} (A : Type ℓ) : Type ℓ where
  pub elements : List A

-- `begin`, `cbegin` and `data`
abbrev pub begin : ℕ
begin = 0

-- `end` and `cend`
unfoldable pub past_end : ℕ → ℕ
past_end size = begin + size

-- `empty`
unfoldable pub empty : ℕ → Bool
empty size = size == 0

module _ {ℓ} {A : Type ℓ} where
  -- `at` and `operator[]`, which do not test the position; no element is a read past the end
  unfoldable pub at : Array A → ℕ → Option A
  at a pos = get_elem? a.elements pos

  -- `at(pos) = x` and `a[pos] = x`, for a position in range
  unfoldable pub assign : Array A → ℕ → A → Array A
  assign a pos x = record { elements = set a.elements pos x }

  -- `front`
  unfoldable pub front : Array A → Option A
  front a = get_elem? a.elements 0

  -- `back`
  unfoldable pub back : ℕ → Array A → Option A
  back size a = get_elem? a.elements (size - 1)

  -- What the test `elements[i] != other[i]` makes of two reads and of the rounds that follow.
  abbrev pub round : (A → A → Bool) → Option A → Option A → Option Bool → Option Bool
  round equal (some x) (some y) rest = if equal x y then rest else some false
  round equal _ _ rest = none

  -- The loop of `operator==` from `i` on, with so many rounds left; no result is a read past the
  -- end. `equal` is the elements' own test.
  unfoldable pub equal_from : (A → A → Bool) → ℕ → ℕ → Array A → Array A → Option Bool
  unfolding at
  equal_from equal zero i a other = some true
  equal_from equal (suc rounds) i a other =
      let rest = equal_from equal rounds (i + 1) a other in round equal (at a i) (at other i) rest

  -- `operator==`
  unfoldable pub equals : (A → A → Bool) → ℕ → Array A → Array A → Option Bool
  equals equal size a other = equal_from equal size 0 a other
