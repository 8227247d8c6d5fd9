-- ===== src/Idt/Table.antt =====
-- The table that the loops of `IDT::install` (kernel/arch/x86_64/idt.cpp) make.
use mega_os.Prelude.{
  ℕ, zero, suc, ◌+◌, ◌-◌, ◌*◌, ◌^◌, ◌<◌, ◌≤◌, ◌≡◌, refl, ◌∙◌, List, some, length, length-set,
  get_elem?, get_elem?-set_self, get_elem?-set_ne, arith, done, ltb, if◌then◌else◌, set, lt→ltb,
  ltb→lt, ltb→le, Bool-cases, inl, inr, ◌⊎◌, subst,
}
use mega_os.Machine.{Machine, IdtEntry}
use mega_os.Idt.{entry_count, gate, make_entry, type_attr, make_entries}

-- The address that the processor reads from an entry.
abbrev pub target : IdtEntry → ℕ
target e = e.offset_1 + 2 ^ 16 * e.offset_2 + 2 ^ 32 * e.offset_3

-- The three parts of the offset in a gate spell the address that the gate was made of, for every
-- address below 2^64.
pub target-gate : (isr flags : ℕ) → isr < 2 ^ 64 → target (gate isr flags) ≡ isr
target-gate isr flags h = omega arith

-- The table after so many rounds of the loop.
abbrev pub filled : (ℕ → ℕ) → ℕ → ℕ → ℕ → List IdtEntry → List IdtEntry
filled table zero vector index idt = idt
filled table (suc rounds) vector index idt =
    filled table rounds (vector + 1) (index + 1) (set idt vector (gate (table index) type_attr))

pub make_entries-filled :
    (table : ℕ → ℕ) (rounds vector index : ℕ) (m : Machine)
    → vector + rounds ≤ 256
    → make_entries table rounds vector index m
      ≡ done tt (record m { idt = filled table rounds vector index m.idt })
unfolding make_entries make_entry
make_entries-filled table zero vector index m h = refl
make_entries-filled table (suc rounds) vector index m h = rw (lt→ltb vector 256 (omega arith)) (
    make_entries-filled table rounds (vector + 1) (index + 1)
      (record m { idt = set m.idt vector (gate (table index) type_attr) }) (omega arith))

length-filled :
    (table : ℕ → ℕ) (rounds vector index : ℕ) (idt : List IdtEntry)
    → length (filled table rounds vector index idt) ≡ length idt
length-filled table zero vector index idt = refl
length-filled table (suc rounds) vector index idt =
    length-filled table rounds (vector + 1) (index + 1)
      (set idt vector (gate (table index) type_attr))
    ∙ length-set idt vector (gate (table index) type_attr)

-- Entries outside the range stay.
filled_outside :
    (table : ℕ → ℕ) (rounds vector index i : ℕ) (idt : List IdtEntry)
    → (i < vector) ⊎ (vector + rounds ≤ i)
    → get_elem? (filled table rounds vector index idt) i ≡ get_elem? idt i
filled_outside table zero vector index i idt h = refl
filled_outside table (suc rounds) vector index i idt h =
    filled_outside table rounds (vector + 1) (index + 1) i
      (set idt vector (gate (table index) type_attr)) (ground arith)
    ∙ get_elem?-set_ne idt vector i _ (λ e. ground arith)

-- In the range, each entry is the gate of its stub.
filled_inside :
    (table : ℕ → ℕ) (rounds vector index i : ℕ) (idt : List IdtEntry)
    → i < rounds
    → vector + rounds ≤ length idt
    → get_elem? (filled table rounds vector index idt) (vector + i)
      ≡ some (gate (table (index + i)) type_attr)
filled_inside table zero vector index i idt h fits = elim h [ ]
filled_inside table (suc rounds) vector index zero idt h fits =
    let here : vector + 0 ≡ vector = omega arith in
    let first : index + 0 ≡ index = omega arith in
    rw (here, first)
      (filled_outside table rounds (vector + 1) (index + 1) vector
          (set idt vector (gate (table index) type_attr)) (inl (omega arith))
        ∙ get_elem?-set_self idt vector _ (omega arith))
filled_inside table (suc rounds) vector index (suc i) idt h fits =
    let here : vector + suc i ≡ vector + 1 + i = omega arith in
    let next : index + suc i ≡ index + 1 + i = omega arith in
    rw (here, next)
      (filled_inside table rounds (vector + 1) (index + 1) i
        (set idt vector (gate (table index) type_attr)) (omega arith)
        (omega (arith, length-set idt vector (gate (table index) type_attr))))

-- The table after both loops.
abbrev pub kernel_idt : (ℕ → ℕ) → (ℕ → ℕ) → List IdtEntry → List IdtEntry
kernel_idt exceptions interrupts idt = filled interrupts 224 32 0 (filled exceptions 32 0 0 idt)

exceptions_inside :
    (exceptions : ℕ → ℕ) (idt : List IdtEntry) (vector : ℕ)
    → length idt ≡ entry_count
    → vector < 32
    → get_elem? (filled exceptions 32 0 0 idt) vector ≡ some (gate (exceptions vector) type_attr)
exceptions_inside exceptions idt vector h low =
    let same : 0 + vector ≡ vector = omega arith in
    subst (λ i. get_elem? (filled exceptions 32 0 0 idt) i ≡ some (gate (exceptions i) type_attr))
      same (filled_inside exceptions 32 0 0 vector idt low (omega arith))

-- After both loops every one of the 256 vectors has a gate to the stub that its table has for it.
pub kernel_idt-gates :
    (exceptions interrupts : ℕ → ℕ) (idt : List IdtEntry) (vector : ℕ)
    → length idt ≡ entry_count
    → vector < 256
    → get_elem? (kernel_idt exceptions interrupts idt) vector
      ≡ some
          (gate (if ltb vector 32 then exceptions vector else interrupts (vector - 32)) type_attr)
kernel_idt-gates exceptions interrupts idt vector h lt = elim (Bool-cases (ltb vector 32)) [
  | inl exception ↦
      let low : vector < 32 = ltb→lt _ _ exception in
      rw exception (
        filled_outside interrupts 224 32 0 vector (filled exceptions 32 0 0 idt) (inl low)
        ∙ exceptions_inside exceptions idt vector h low)
  | inr interrupt ↦
      let high : 32 ≤ vector = ltb→le _ _ interrupt in
      let same : 32 + (vector - 32) ≡ vector = omega arith in
      rw interrupt (
        subst
          (λ i.
            get_elem? (kernel_idt exceptions interrupts idt) i
            ≡ some (gate (interrupts (vector - 32)) type_attr))
          same
          (subst
            (λ i.
              get_elem? (kernel_idt exceptions interrupts idt) (32 + (vector - 32))
              ≡ some (gate (interrupts i) type_attr))
            (omega arith)
            (filled_inside interrupts 224 32 0 (vector - 32) (filled exceptions 32 0 0 idt)
              (omega arith) (omega (arith, length-filled exceptions 32 0 0 idt)))))
]
