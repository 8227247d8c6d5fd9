-- ===== src/Idt.antt =====
-- kernel/arch/x86_64/idt.hpp and idt.cpp: the interrupt descriptor table.
pub mod Table
pub mod Install
use mega_os.Prelude.{
  ℕ, zero, suc, ◌+◌, ◌-◌, ◌*◌, ◌/◌, ◌%◌, ◌^◌, Bool, true, false, List, [], ◌∷◌, Option, none, some,
  ltb, if◌then◌else◌, length, set, get_elem?, replicate, bit_or, bit_and, pure, stop, fault, ◌>>=◌,
  ◌>>◌, codes,
}
use mega_os.Machine.{Env, Kernel, Machine, IdtEntry, load_idt}
use mega_os.Log.{dprintf}
use mega_os.Printf.Directive.{word}
use mega_os.Gdt
use mega_os.Isr

-- `ENTRY_COUNT`
abbrev pub entry_count : ℕ
entry_count = 0x100

-- `sizeof(idt_entry)`, a packed structure
abbrev pub entry_size : ℕ
entry_size = 16

-- `IDT::size`, a `uint16_t`
abbrev pub table_size : ℕ
table_size = entry_count * entry_size % 2 ^ 16

abbrev pub zero_entry : IdtEntry
zero_entry = record {
  offset_1 = 0;
  selector = 0;
  ist = 0;
  flags = 0;
  offset_2 = 0;
  offset_3 = 0;
  reserved = 0;
}

-- `IDT::table` as the loader leaves it
abbrev pub initial_table : List IdtEntry
initial_table = replicate entry_count zero_entry

-- The entry that `make_entry` writes.
abbrev pub gate : ℕ → ℕ → IdtEntry
gate isr flags = record {
  offset_1 = isr % 2 ^ 16;
  selector = Gdt.kernel_cs;
  ist = 0;
  flags = flags;
  offset_2 = isr / 2 ^ 16 % 2 ^ 16;
  offset_3 = isr / 2 ^ 32 % 2 ^ 32;
  reserved = 0;
}

-- `IDT::make_entry`
unfoldable pub make_entry : ℕ → ℕ → ℕ → Kernel (Unit {0})
make_entry entry_vec isr flags m =
    if ltb entry_vec entry_count
    then pure tt (record m { idt = set m.idt entry_vec (gate isr flags) })
    else pure tt m

-- `type_attribute::PRESENT`
abbrev present : ℕ
present = 0x80

-- `DPL(x)`
abbrev dpl : ℕ → ℕ
dpl x = bit_and x 0b11 * 2 ^ 5

-- `gate_type`, and the bits of each
pub data GateType : Type 0 where
  task32 intr16 intr32 trap16 trap32 : GateType

abbrev gate_bits : GateType → ℕ
gate_bits task32 = 0b0101
gate_bits intr16 = 0b0110
gate_bits intr32 = 0b1110
gate_bits trap16 = 0b0111
gate_bits trap32 = 0b1111

-- `PRESENT | DPL0 | gate_type::intr32`
abbrev pub type_attr : ℕ
type_attr = bit_or (bit_or present (dpl 0)) (gate_bits intr32)

-- The words of an assembly table from its start on. The array has so many cells; behind them lies
-- what the linker puts there, `beyond`.
abbrev pub table_word : List ℕ → (ℕ → ℕ) → ℕ → ℕ
table_word [] beyond i = beyond i
table_word (w ∷ ws) beyond zero = w
table_word (w ∷ ws) beyond (suc i) = table_word ws beyond i

-- `for (uint16_t vector = first; …; ++vector) make_entry(vector, table[vector - first], type_attr)`
-- over so many vectors; `index` is `vector - first`.
unfoldable pub make_entries : (ℕ → ℕ) → ℕ → ℕ → ℕ → Kernel (Unit {0})
unfolding make_entry
make_entries table zero vector index = pure tt
make_entries table (suc rounds) vector index = do
  make_entry vector (table index) type_attr
  make_entries table rounds (vector + 1) (index + 1)

-- the format of the message
abbrev pub installed_format : List ℕ
installed_format = codes "IDT successfully installed: %#lX %#lX\n"

-- `lidt`
abbrev lidt : ℕ → ℕ → Kernel (Unit {0})
lidt size base m = pure tt (record m { trace = load_idt size base ∷ m.trace })

-- `IDT::install`, with the two tables of handlers and the address of the descriptor table.
unfoldable pub install : Env → (ℕ → ℕ) → (ℕ → ℕ) → ℕ → Kernel (Unit {0})
install env exceptions_handlers interrupts_handlers table_address m =
    if m.idt_installed
    then pure tt m
    else (do
      Isr.install env
      make_entries exceptions_handlers 32 0 0
      make_entries interrupts_handlers 224 32 0
      lidt ((table_size - 1) % 2 ^ 16) table_address
      λ s. pure tt (record s { idt_installed = true })
      ret ←
          dprintf env installed_format (word table_address ∷ word ((table_size - 1) % 2 ^ 16) ∷ [])
      pure tt)
        m
