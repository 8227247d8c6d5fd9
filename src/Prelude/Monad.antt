-- ===== src/Prelude/Monad.antt =====
-- Kernel code as functions on a state. A run returns a value, or stops for good: in `cpu::halt`, by
-- a fault (a null or dangling pointer, an access out of bounds), or waiting for ever.
use mathlib.Core.Path.{◌≡◌, refl}

pub data Stop : Type 0 where
  halt fault spin : Stop

pub data Outcome {ℓ κ} (S : Type ℓ) (A : Type κ) : Type (ℓ ⊔ κ) where
  done : A → S → Outcome S A
  stopped : Stop → S → Outcome S A

abbrev pub M {ℓ κ} : Type ℓ → Type κ → Type (ℓ ⊔ κ)
M S A = S → Outcome S A

abbrev pub pure {ℓ κ} : {S : Type ℓ} {A : Type κ} → A → M S A
pure a s = done a s

abbrev pub stop {ℓ κ} : {S : Type ℓ} {A : Type κ} → Stop → M S A
stop w s = stopped w s

abbrev pub bind {ℓ κ ι} :
    {S : Type ℓ} {A : Type κ} {B : Type ι} → Outcome S A → (A → M S B) → Outcome S B
bind (done a s) f = f a s
bind (stopped w s) f = stopped w s

infixl 5 ◌>>=◌ ◌>>◌
abbrev pub ◌>>=◌ {ℓ κ ι} : {S : Type ℓ} {A : Type κ} {B : Type ι} → M S A → (A → M S B) → M S B
◌>>=◌ m f s = bind (m s) f

abbrev pub ◌>>◌ {ℓ κ} : {S : Type ℓ} {B : Type κ} → M S (Unit {0}) → M S B → M S B
m >> k = m >>= λ _. k

module _ {ℓ} {S : Type ℓ} where
  pub bind-pure {κ} : {A : Type κ} (o : Outcome S A) → bind o pure ≡ o
  bind-pure (done a s) = refl
  bind-pure (stopped w s) = refl

  pub bind_assoc {κ ι ν} :
      {A : Type κ} {B : Type ι} {C : Type ν} (o : Outcome S A) (f : A → M S B) (g : B → M S C)
      → bind (bind o f) g ≡ bind o (λ a. f a >>= g)
  bind_assoc (done a s) f g = refl
  bind_assoc (stopped w s) f g = refl

  pub bind_ext {κ ι} :
      {A : Type κ} {B : Type ι} (o : Outcome S A) (f g : A → M S B)
      → ((a : A) (s : S) → f a s ≡ g a s)
      → bind o f ≡ bind o g
  bind_ext (done a s) f g h = h a s
  bind_ext (stopped w s) f g h = refl
