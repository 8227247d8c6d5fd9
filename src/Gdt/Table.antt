-- ===== src/Gdt/Table.antt =====
-- The table that `GDT::install` makes, and the run of `install`.
use mega_os.Prelude.{
  ℕ, ◌/◌, ◌≡◌, refl, Bool, true, false, ◌&&◌, List, [], ◌∷◌, ◌++◌, some, length, get_elem?, codes,
  arith, done, ◌>>◌, ◌==◌, bit_and,
}
use mega_os.Machine.{Env, Machine, GdtEntry, load_gdt}
use mega_os.Machine.Runs.{Runs}
use mega_os.Serial.{data_reg}
use mega_os.Serial.Send.{Responsive}
use mega_os.Printf.Directive.{word}
use mega_os.Printf.Format.Pieces.{Writes, plain, hex, nothing, within, hex_text}
use mega_os.Log.Delivery.{serial_bytes, visible}
use mega_os.Log.Printf.{dprintf-Writes}
use mega_os.Gdt.{
  entry_count, entry_size, kernel_cs, make_entry, make_entries, install, installed_format,
  get_selector,
}

-- An entry of a limit with these bits.
abbrev pub entry : ℕ → ℕ → ℕ → GdtEntry
entry access flags limit = record {
  limit = limit;
  base1 = 0;
  base2 = 0;
  access = access;
  flags = flags;
  base3 = 0;
}

-- The null entry, then code and data for 16, 32 and 64 bits.
abbrev pub kernel_table : List GdtEntry
kernel_table =
    entry 0 0 0
    ∷ entry 0x9A 0 0xFFFF
    ∷ entry 0x92 0 0xFFFF
    ∷ entry 0x9A 0xCF 0xFFFF
    ∷ entry 0x92 0xCF 0xFFFF
    ∷ entry 0x9A 0x20 0
    ∷ entry 0x92 0 0
    ∷ []

-- A present segment of privilege level 0 that holds 64-bit code.
abbrev pub is_code64 : GdtEntry → Bool
is_code64 e =
    bit_and e.access 0xF8 == 0x98 && (bit_and e.flags 0x20 == 0x20 && bit_and e.flags 0x40 == 0)

pub make_entries-table :
    (table : List GdtEntry) (m : Machine)
    → length table ≡ entry_count
    → make_entries (record m { gdt = table }) ≡ done tt (record m { gdt = kernel_table })
unfolding make_entries make_entry
make_entries-table (a ∷ b ∷ c ∷ d ∷ e ∷ f ∷ g ∷ []) m h = refl
make_entries-table (a ∷ b ∷ c ∷ d ∷ e ∷ f ∷ g ∷ i ∷ table) m h = absurd (omega arith)
make_entries-table (a ∷ b ∷ c ∷ d ∷ e ∷ f ∷ []) m h = absurd (omega arith)
make_entries-table (a ∷ b ∷ c ∷ d ∷ e ∷ []) m h = absurd (omega arith)
make_entries-table (a ∷ b ∷ c ∷ d ∷ []) m h = absurd (omega arith)
make_entries-table (a ∷ b ∷ c ∷ []) m h = absurd (omega arith)
make_entries-table (a ∷ b ∷ []) m h = absurd (omega arith)
make_entries-table (a ∷ []) m h = absurd (omega arith)
make_entries-table [] m h = absurd (omega arith)

-- The message on the serial port.
abbrev pub gdt_line : ℕ → List ℕ
gdt_line address =
    codes "GDT successfully installed: "
    ++ (hex_text address ++ (codes " " ++ (hex_text 55 ++ codes "\n")))

gdt_line-Writes :
    (address : ℕ) → Writes installed_format (word address ∷ word 55 ∷ []) (gdt_line address) 1000
gdt_line-Writes address = within (omega arith) (
    plain (codes "GDT successfully installed: ") refl
      (hex address (plain (codes " ") refl (hex 55 (plain (codes "\n") refl nothing)))))

-- The selector that interrupt gates use is that of 64-bit code in the table.
abbrev pub HasCode64 : List GdtEntry → Type 0
HasCode64 table =
    (e : GdtEntry) × ((get_elem? table (kernel_cs / entry_size) ≡ some e) × (is_code64 e ≡ true))

module _ (env : Env) (responsive : Responsive env) where
  -- On a responsive port, over any table of 7 entries, the first `GDT::install` makes the kernel's
  -- table, loads it with its size less 1 as the limit, reports that on the serial port and marks
  -- it installed.
  pub install-kernel_table :
      (address : ℕ) (m : Machine)
      → length m.gdt ≡ entry_count
      → m.gdt_installed ≡ false
      → Runs data_reg
          (install env address m)
          tt
          (record m {
            gdt = kernel_table;
            gdt_installed = true;
            use_serial = false;
            trace = load_gdt 55 address ∷ m.trace;
          })
          []
          (serial_bytes (visible (gdt_line address)))
  unfolding install
  install-kernel_table address m h first =
      let made = make_entries-table m.gdt m h in
      let line =
        dprintf-Writes env responsive
          (record m { gdt = kernel_table; trace = load_gdt 55 address ∷ m.trace })
          (gdt_line-Writes address) (omega arith) in
      simp first (
        rw (made, line.returns)
          (record { final = line.final; returns = refl; shows = line.shows; sends = line.sends }))

  -- On a responsive port, from a table of 7 entries that is not installed, a second
  -- `GDT::install`, at any address, changes nothing.
  pub install_twice :
      (address address' : ℕ) (m : Machine)
      → length m.gdt ≡ entry_count
      → m.gdt_installed ≡ false
      → (install env address >> install env address') m ≡ install env address m
  install_twice address address' m h first =
      let run = install-kernel_table address m h first in rw run.returns (unfold install in refl)

-- The code selector of the interrupt gates names a present 64-bit code segment of level 0.
pub kernel_table-HasCode64 : HasCode64 kernel_table
unfolding kernel_cs get_selector
kernel_table-HasCode64 = (entry 0x9A 0x20 0, (refl, refl))
