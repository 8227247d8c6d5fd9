-- ===== src/Boot.antt =====
-- The boot of the kernel: `_start` of kernel/kernel.cpp, `log::init` of kernel/logging.cpp, and the
-- search of the bootloader's tags, `get_tag` of kernel/stivale2.hpp.
pub mod Tags
pub mod Start
pub mod Failure
pub mod Header
use mega_os.Prelude.{
  ℕ, zero, suc, ◌+◌, Bool, true, false, not, List, [], ◌∷◌, Option, none, some, ◌==◌, if◌then◌else◌,
  M, spin, fault, pure, stop, ◌>>=◌, ◌>>◌, codes,
}
use mega_os.Machine.{Env, Kernel, Machine, enable, halt_cpu}
use mega_os.Printf.Directive.{str}
use mega_os.Serial
use mega_os.Log.{kprintf, dputs}
use mega_os.Gdt
use mega_os.Idt
use mega_os.Pic
use mega_os.Isr.{check}

-- `STIVALE2_STRUCT_TAG_TERMINAL_ID`
abbrev pub terminal_id : ℕ
terminal_id = 0xc2b3f4c3233b0974

-- `st2::tag`, with the field `term_write` that the structure around a terminal's tag has
pub record Tag : Type 0 where
  pub identifier : ℕ
  pub next : ℕ
  pub term_write : ℕ

-- `st2::st2_struct`, whose two arrays hold strings, and the tags that the bootloader left in memory.
pub record BootInfo : Type 0 where
  pub brand : List ℕ
  pub version : List ℕ
  pub tags : ℕ
  pub memory : ℕ → Option Tag

-- What a search ends in: a tag, the null pointer, a dangling pointer, or none of these in so many
-- rounds.
pub data Search : Type 0 where
  found : Tag → Search
  missing dangling endless : Search

-- `get_tag`, in at most so many rounds
unfoldable pub get_tag : (ℕ → Option Tag) → ℕ → ℕ → ℕ → Search
get_tag memory zero curr_tag tag_id = endless
get_tag memory (suc rounds) curr_tag tag_id =
    if curr_tag == 0 then missing else elim (memory curr_tag) [
      | none ↦ dangling
      | some tag ↦
          let rest = get_tag memory rounds tag.next tag_id in
          if tag.identifier == tag_id then found tag else rest
    ]

-- What `get_write_function` makes of a search.
abbrev pub write_of : Search → Kernel ℕ
write_of (found tag) = pure tag.term_write
write_of missing = pure 0
write_of dangling = stop fault
write_of endless = stop spin

-- `get_write_function`
unfoldable pub get_write_function : BootInfo → ℕ → Kernel ℕ
get_write_function info rounds = write_of (get_tag info.memory rounds info.tags terminal_id)

-- `write = f`
abbrev set_write : ℕ → Kernel Bool
set_write f m = pure true (record m { write = f })

-- `log::init`, once the serial port works
unfoldable pub init_write : BootInfo → ℕ → Kernel Bool
init_write info rounds m =
    if not (m.write == 0)
    then pure false m
    else (get_write_function info rounds >>= (λ f. if f == 0 then pure false else set_write f)) m

-- `log::init`
unfoldable pub init : Env → BootInfo → ℕ → Kernel Bool
init env info rounds = do
  works ← Serial.init env
  if not works then pure false else init_write info rounds

-- What the linker lays out: the two tables of stubs of isr.asm, the descriptor tables.
pub record Layout : Type 0 where
  pub exceptions : ℕ → ℕ
  pub interrupts : ℕ → ℕ
  pub gdt_address : ℕ
  pub idt_address : ℕ

-- `_start`, behind the assertion
unfoldable pub run_kernel : Env → Layout → ℕ → BootInfo → Kernel (Unit {0})
run_kernel env layout rounds info = do
  ready ← init env info rounds
  if not ready then halt_cpu else pure tt
  ret ← kprintf env (codes "Mega OS - %s %s\n\n") (str 0 info.brand ∷ str 0 info.version ∷ [])
  Gdt.install env layout.gdt_address
  Idt.install env layout.exceptions layout.interrupts layout.idt_address
  Pic.remap env 32 40
  Pic.clear_irq_mask env 1
  enable
  sent ← dputs env (some (codes "Interrupts enabled"))
  stop spin

-- `_start`; no structure is a null pointer
unfoldable pub start : Env → List ℕ → Layout → ℕ → Option BootInfo → Kernel (Unit {0})
start env file layout rounds none = do check env file false (codes "boot_info") 55; stop fault
start env file layout rounds (some info) = run_kernel env layout rounds info
