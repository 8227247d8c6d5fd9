-- ===== src/Pic/Masks.antt =====
-- `set_irq_mask` and `clear_irq_mask`: the port that they use and the one bit that they change.
use mega_os.Prelude.{
  ℕ, ◌-◌, ◌/◌, ◌%◌, ◌^◌, ◌<◌, ◌≡◌, refl, Bool, true, false, not, ◌∷◌, ◌==◌, if◌then◌else◌, bit_and,
  bit_or, holds_under, holds_under-at, done, arith, Outcome,
}
use mega_os.Machine.{Env, Machine, inb, outb, in_byte, out_byte}
use mega_os.Pic.{data_port_of, line_of, set_irq_mask, clear_irq_mask}

-- Bit `i` of a byte.
abbrev pub has_bit : ℕ → ℕ → Bool
has_bit i bits = bits / 2 ^ i % 2 == 1

abbrev same : Bool → Bool → Bool
same true b = b
same false b = not b

-- The 8 bits of `after` are those of `before`, but that bit `line` is `value`.
unfoldable pub sets_bit : ℕ → Bool → ℕ → ℕ → Bool
sets_bit line value before after =
    holds_under 8 (λ i. same (has_bit i after) (if i == line then value else has_bit i before))

sets_bit_or :
    (line bits : ℕ)
    → line < 8
    → bits < 256
    → sets_bit line true bits (bit_or bits (2 ^ line) % 2 ^ 8) ≡ true
unfolding holds_under sets_bit
sets_bit_or line bits h hb =
    (holds_under-at 256 (λ b. sets_bit line true b (bit_or b (2 ^ line) % 2 ^ 8)) bits
      (holds_under-at 8 (λ l. holds_under 256 (λ b. sets_bit l true b (bit_or b (2 ^ l) % 2 ^ 8)))
        line refl h)
      hb)

sets_bit_and :
    (line bits : ℕ)
    → line < 8
    → bits < 256
    → sets_bit line false bits (bit_and bits (2 ^ 32 - 1 - 2 ^ line) % 2 ^ 8) ≡ true
unfolding holds_under sets_bit
sets_bit_and line bits h hb =
    (holds_under-at 256 (λ b. sets_bit line false b (bit_and b (2 ^ 32 - 1 - 2 ^ line) % 2 ^ 8))
      bits
      (holds_under-at 8
        (λ l. holds_under 256 (λ b. sets_bit l false b (bit_and b (2 ^ 32 - 1 - 2 ^ l) % 2 ^ 8)))
        line refl h)
      hb)

line_of-lt : (irq : ℕ) → irq < 16 → line_of irq < 8
unfolding line_of
line_of-lt irq h = ground arith

module _ (env : Env) where
  -- The run reads the mask at the port of `irq` and writes it back with that line set to `value`.
  pub record Masks (irq : ℕ) (value : Bool) (m : Machine) (o : Outcome Machine (Unit {0}))
      : Type 0 where
    pub mask : ℕ
    pub runs :
        o
        ≡ done tt (record m {
          trace =
              out_byte (data_port_of irq) mask
              ∷ in_byte (data_port_of irq) (env.reads m.trace (data_port_of irq))
              ∷ m.trace;
        })
    pub only : sets_bit (line_of irq) value (env.reads m.trace (data_port_of irq)) mask ≡ true

  -- For an IRQ below 16 `set_irq_mask` reads the mask of the controller of that IRQ and writes it
  -- back with the bit of that IRQ set and the other seven bits as they were.
  set_irq_mask-Masks :
      (irq : ℕ) (m : Machine) → irq < 16 → Masks irq true m (set_irq_mask env irq m)
  unfolding set_irq_mask inb outb
  set_irq_mask-Masks irq m h =
      let bits = env.reads m.trace (data_port_of irq) in
      let sets =
        sets_bit_or (line_of irq) bits (line_of-lt irq h)
          (env.reads-lt m.trace (data_port_of irq)) in
      let byte : bit_or bits (2 ^ line_of irq) % 2 ^ 8 % 2 ^ 8
          ≡ bit_or bits (2 ^ line_of irq) % 2 ^ 8 =
        omega arith in
      record { mask = bit_or bits (2 ^ line_of irq) % 2 ^ 8; runs = rw byte refl; only = sets }

  -- For an IRQ below 16 `clear_irq_mask` reads the mask of the controller of that IRQ and writes
  -- it back with the bit of that IRQ cleared and the other seven bits as they were.
  pub clear_irq_mask-Masks :
      (irq : ℕ) (m : Machine) → irq < 16 → Masks irq false m (clear_irq_mask env irq m)
  unfolding clear_irq_mask inb outb
  clear_irq_mask-Masks irq m h =
      let bits = env.reads m.trace (data_port_of irq) in
      let keep = 2 ^ 32 - 1 - 2 ^ line_of irq in
      let sets =
        sets_bit_and (line_of irq) bits (line_of-lt irq h)
          (env.reads-lt m.trace (data_port_of irq)) in
      let byte : bit_and bits keep % 2 ^ 8 % 2 ^ 8 ≡ bit_and bits keep % 2 ^ 8 = omega arith in
      record { mask = bit_and bits keep % 2 ^ 8; runs = rw byte refl; only = sets }

  -- For an IRQ below 16, `set_irq_mask` and `clear_irq_mask` read the mask of the controller of
  -- that IRQ and write it back with the bit of that IRQ set, or cleared, and the other seven bits
  -- as they were.
  pub set_and_clear-Masks :
      (irq : ℕ) (m : Machine)
      → irq < 16
      → Masks irq true m (set_irq_mask env irq m) × Masks irq false m (clear_irq_mask env irq m)
  set_and_clear-Masks irq m h = (set_irq_mask-Masks irq m h, clear_irq_mask-Masks irq m h)
