-- ===== src/Log/Callback.antt =====
-- `fctprintf` of kernel/logging.cpp and the caller's function.
use mega_os.Prelude.{ℕ, List, [], ◌∷◌, M, pure, ◌>>◌}
use mega_os.Printf.Format.Formats.{Formats}

-- The function is called with each character.
abbrev pub each {ℓ} : {S : Type ℓ} → (ℕ → M S (Unit {0})) → List ℕ → M S (Unit {0})
each fct [] = pure tt
each fct (c ∷ cs) = fct c >> each fct cs
