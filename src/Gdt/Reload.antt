-- ===== src/Gdt/Reload.antt =====
-- kernel/arch/x86_64/lgdt.asm: the segment registers after `lgdt`. The processor faults on a selector whose
-- descriptor is outside of the table, not present or of the wrong kind.
use mega_os.Prelude.{
  ℕ, ◌+◌, ◌-◌, ◌/◌, ◌≡◌, refl, Bool, false, List, [], ◌∷◌, Option, none, some, ltb, ◌==◌,
  if◌then◌else◌, length, get_elem?, bit_and, M, fault, pure, stop, done, ◌>>◌,
}
use mega_os.Machine.{Machine, GdtEntry}
use mega_os.Gdt.{entry_count, entry_size, table_size, kernel_cs, get_selector, make_entries}
use mega_os.Gdt.Table.{kernel_table, is_code64, make_entries-table}

-- The registers that `asm_lgdt` uses, and the stack, its top first.
pub record Cpu : Type 0 where
  pub cs : ℕ
  pub ds : ℕ
  pub es : ℕ
  pub fs : ℕ
  pub gs : ℕ
  pub ss : ℕ
  pub rip : ℕ
  pub rdi : ℕ
  pub stack : List ℕ

-- A present segment of level 0 with data that can be written.
abbrev is_data : GdtEntry → Bool
is_data e = bit_and e.access 0xFA == 0x92

-- Whether a descriptor is there, and of the kind.
abbrev holds : Option GdtEntry → (GdtEntry → Bool) → Bool
holds none kind = false
holds (some e) kind = kind e

abbrev accepts : List GdtEntry → ℕ → (GdtEntry → Bool) → ℕ → Bool
accepts table limit kind selector =
    if ltb limit (selector + entry_size - 1)
    then false
    else holds (get_elem? table (selector / entry_size)) kind

module _ (table : List GdtEntry) (limit : ℕ) where
  -- A `mov` into a data segment register, which `put` writes.
  abbrev load_data : (Cpu → Cpu) → ℕ → M Cpu (Unit {0})
  load_data put selector cpu =
      if accepts table limit is_data selector then pure tt (put cpu) else stop fault cpu

  abbrev pop_rdi : M Cpu (Unit {0})
  pop_rdi cpu = popped cpu.stack cpu
    where
      popped : List ℕ → M Cpu (Unit {0})
      popped [] c = stop fault c
      popped (w ∷ stack) c = pure tt (record c { rdi = w; stack = stack })

  abbrev push : ℕ → M Cpu (Unit {0})
  push w cpu = pure tt (record cpu { stack = w ∷ cpu.stack })

  abbrev far_return : List ℕ → M Cpu (Unit {0})
  far_return (rip ∷ cs ∷ stack) cpu =
      if accepts table limit is_code64 cs
      then pure tt (record cpu { rip = rip; cs = cs; stack = stack })
      else stop fault cpu
  far_return stack cpu = stop fault cpu

  abbrev retfq : M Cpu (Unit {0})
  retfq cpu = far_return cpu.stack cpu

  -- `asm_lgdt`, from `;reload segment selectors` on
  unfoldable pub reload_segments : M Cpu (Unit {0})
  reload_segments = do
    load_data (λ c. record c { ds = 0x30 }) 0x30
    load_data (λ c. record c { es = 0x30 }) 0x30
    load_data (λ c. record c { fs = 0x30 }) 0x30
    load_data (λ c. record c { gs = 0x30 }) 0x30
    load_data (λ c. record c { ss = 0x30 }) 0x30
    pop_rdi
    push 0x28
    λ c. push c.rdi c
    retfq

-- After a call, with the return address on the stack.
abbrev pub called : Cpu → ℕ → List ℕ → Cpu
called cpu ret stack = record cpu { stack = ret ∷ stack }

-- Back behind the call, with the selectors of the kernel's segments.
abbrev pub reloaded : ℕ → List ℕ → Cpu
reloaded ret stack = record {
  cs = kernel_cs;
  ds = get_selector 6;
  es = get_selector 6;
  fs = get_selector 6;
  gs = get_selector 6;
  ss = get_selector 6;
  rip = ret;
  rdi = ret;
  stack = stack;
}

-- With the table that `GDT::install` makes over any table of 7 entries, and its limit, `asm_lgdt`,
-- on any stack with a return address on top, loads every segment register without a fault and
-- returns to its caller: each data segment register gets the selector of the entry for 64-bit
-- data, a present, writable data segment, and CS the one that the interrupt gates have, whose
-- entry holds 64-bit code.
pub make_entries-reload :
    (table : List GdtEntry) (m : Machine) (cpu : Cpu) (ret : ℕ) (stack : List ℕ)
    → length table ≡ entry_count
    → (t : List GdtEntry) × (make_entries (record m { gdt = table })
        ≡ done tt (record m { gdt = t }))
      × (reload_segments t (table_size - 1) (called cpu ret stack) ≡ done tt (reloaded ret stack))
unfolding reload_segments kernel_cs get_selector
make_entries-reload table m cpu ret stack h = (kernel_table, make_entries-table table m h, refl)
