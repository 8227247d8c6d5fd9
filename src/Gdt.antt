-- ===== src/Gdt.antt =====
-- kernel/arch/x86_64/gdt.hpp and gdt.cpp: the global descriptor table. An entry vector is the number
-- of an entry.
pub mod Table
pub mod Reload
use mega_os.Prelude.{
  ℕ, ◌+◌, ◌-◌, ◌*◌, ◌%◌, ◌^◌, Bool, true, false, List, [], ◌∷◌, Option, none, some, ltb,
  if◌then◌else◌, length, set, replicate, bit_or, pure, ◌>>=◌, ◌>>◌, codes,
}
use mega_os.Machine.{Env, Kernel, Machine, GdtEntry, load_gdt}
use mega_os.Log.{dprintf}
use mega_os.Printf.Directive.{word}

-- `ENTRY_COUNT`, which is `table.size()`
abbrev pub entry_count : ℕ
entry_count = 7

-- `sizeof(gdt_entry)`, a packed structure
abbrev pub entry_size : ℕ
entry_size = 8

-- `GDT::size`
abbrev pub table_size : ℕ
table_size = entry_count * entry_size

-- `GDT::get_selector`, a `uint8_t`
unfoldable pub get_selector : ℕ → ℕ
get_selector vec = vec * entry_size % 2 ^ 8

-- `GDT::kernel_cs`; `_64BIT_CS` is entry 5
unfoldable pub kernel_cs : ℕ
unfolding get_selector
kernel_cs = get_selector 5

abbrev zero_entry : GdtEntry
zero_entry = record { limit = 0; base1 = 0; base2 = 0; access = 0; flags = 0; base3 = 0 }

-- `GDT::table` as the loader leaves it
abbrev pub initial_table : List GdtEntry
initial_table = replicate entry_count zero_entry

-- `SEG_PRESENT | SEG_DPL0 | SEG_TYPE_CODE | SEG_EXEC | SEG_READ`
abbrev pub cs_access_bits : ℕ
cs_access_bits = bit_or (bit_or (bit_or (bit_or 0x80 0) 0x10) 0x08) 0x02

-- `SEG_PRESENT | SEG_DPL0 | SEG_TYPE_DATA | SEG_WRITE`
abbrev pub ds_access_bits : ℕ
ds_access_bits = bit_or (bit_or (bit_or 0x80 0) 0x10) 0x02

-- `GDT::make_entry`
unfoldable pub make_entry : ℕ → ℕ → ℕ → ℕ → Kernel (Unit {0})
make_entry entry_index access flags limit m =
    if ltb entry_index (length m.gdt)
    then pure tt (record m {
      gdt = set m.gdt entry_index (record {
        limit = limit;
        base1 = 0;
        base2 = 0;
        access = access;
        flags = flags;
        base3 = 0;
      });
    })
    else pure tt m

-- `asm_lgdt`
abbrev asm_lgdt : ℕ → ℕ → Kernel (Unit {0})
asm_lgdt size base m = pure tt (record m { trace = load_gdt size base ∷ m.trace })

-- The entries that `GDT::install` makes.
unfoldable pub make_entries : Kernel (Unit {0})
unfolding make_entry
make_entries = do
  make_entry 0 0 0 0
  make_entry 1 cs_access_bits 0b00000000 0xFFFF
  make_entry 2 ds_access_bits 0b00000000 0xFFFF
  make_entry 3 cs_access_bits 0b11001111 0xFFFF
  make_entry 4 ds_access_bits 0b11001111 0xFFFF
  make_entry 5 cs_access_bits 0x20 0
  make_entry 6 ds_access_bits 0x0 0

-- the format of the message
abbrev pub installed_format : List ℕ
installed_format = codes "GDT successfully installed: %#lX %#lX\n"

-- `GDT::install`, with the address of the table; `gdt_ptr.size` is 16 bits wide
unfoldable pub install : Env → ℕ → Kernel (Unit {0})
install env table_address m =
    if m.gdt_installed
    then pure tt m
    else (do
      make_entries
      asm_lgdt ((table_size - 1) % 2 ^ 16) table_address
      ret ←
          dprintf env installed_format (word table_address ∷ word ((table_size - 1) % 2 ^ 16) ∷ [])
      λ s. pure tt (record s { gdt_installed = true }))
        m
