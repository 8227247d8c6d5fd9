-- ===== src/Serial/Init.antt =====
-- `serial::init`: the registers that it sets, and its test of the port.
use mega_os.Prelude.{
  ℕ, ◌<◌, arith, ◌≡◌, refl, sym, ap, true, List, [], ◌∷◌, ◌++◌, append-nil, append_assoc, ◌==◌,
  Bool-cases, inl, inr, ◌^◌,
}
use mega_os.Machine.{Env, Machine, Event, out_byte, inb, outb}
use mega_os.Machine.Runs.{Runs}
use mega_os.Serial.{data_reg, inte, inti, line_cr, modm_cr, test, init}

-- The events until the test byte is sent, with the port set to loop it back.
abbrev pub until_echo : List Event → List Event
until_echo t =
    out_byte data_reg 0xAE
    ∷ out_byte modm_cr 0x1E
    ∷ out_byte modm_cr 0x0B
    ∷ out_byte inti 0xC7
    ∷ out_byte line_cr 0x03
    ∷ out_byte inte 0x00
    ∷ out_byte data_reg 0x03
    ∷ out_byte line_cr 0x80
    ∷ out_byte inte 0x00
    ∷ t

-- A port that is read as the last byte it was sent.
abbrev pub LoopsBack : Env → Type 0
LoopsBack env =
    (t : List Event) (v : ℕ) → v < 2 ^ 8 → env.reads (out_byte data_reg v ∷ t) data_reg ≡ v

two_bytes : (t : List ℕ) (a b : ℕ) → (t ++ a ∷ []) ++ b ∷ [] ≡ t ++ a ∷ b ∷ []
two_bytes t a b = append_assoc t (a ∷ []) (b ∷ [])

three_bytes : (t : List ℕ) (a b c : ℕ) → ((t ++ a ∷ []) ++ b ∷ []) ++ c ∷ [] ≡ t ++ a ∷ b ∷ c ∷ []
three_bytes t a b c = simp append_assoc

module _ (env : Env) where
  -- `serial::init` returns whether the test byte comes back; either way it has sent the divisor
  -- and the test byte to the data register, shown nothing, and changed nothing else.
  pub init-Runs :
      (m : Machine)
      → Runs data_reg
          (init env m)
          (env.reads (until_echo m.trace) data_reg == 0xAE)
          m
          []
          (0x03 ∷ 0xAE ∷ [])
  unfolding init test inb outb
  init-Runs m = elim (Bool-cases (env.reads (until_echo m.trace) data_reg == 0xAE)) [
    | inl echo ↦
        rw echo (record {
          final = _;
          returns = refl;
          shows = sym (append-nil _);
          sends = two_bytes _ _ _;
        })
    | inr wrong ↦
        rw wrong (record {
          final = _;
          returns = refl;
          shows = sym (append-nil _);
          sends = two_bytes _ _ _;
        })
  ]

  -- On a port that loops bytes back, `serial::init` returns true and has sent the modem control
  -- register its set-up, the loop-back mode and at last the normal mode.
  pub init-LoopsBack :
      (m : Machine) → LoopsBack env → Runs modm_cr (init env m) true m [] (0x0B ∷ 0x1E ∷ 0x0F ∷ [])
  unfolding init test inb outb
  init-LoopsBack m h =
      let echo : (env.reads (until_echo m.trace) data_reg == 0xAE) ≡ true =
        ap (λ v. v == 0xAE) (h _ 0xAE (omega arith)) in
      rw echo (record {
        final = _;
        returns = refl;
        shows = sym (append-nil _);
        sends = three_bytes _ _ _ _;
      })
