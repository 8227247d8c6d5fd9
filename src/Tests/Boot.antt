-- ===== src/Tests/Boot.antt =====
-- The theorems on the boot, at a list of two tags.
use mega_os.Prelude.{
  ℕ, ◌≡◌, refl, [], ◌∷◌, Option, some, none, codes, arith, ◌==◌, if◌then◌else◌, inr,
}
use mega_os.Boot.{BootInfo, Layout, Tag, terminal_id, get_tag, start}
use mega_os.Boot.Tags.{Chain, end, link, first_with, get_tag-first_with}
use mega_os.Boot.Start.{loaded, Boots, start-Boots}
use mega_os.Boot.Failure.{start-Halts}
use mega_os.Panic.Halts.{Halts}
use mega_os.Tests.{fresh, echo_port, echo_port-Responsive}

abbrev pub framebuffer : Tag
framebuffer = record { identifier = 0x506461d2950408fa; next = 0x20; term_write = 0 }

abbrev pub terminal : Tag
terminal = record { identifier = terminal_id; next = 0; term_write = 0x7000 }

abbrev memory : ℕ → Option Tag
memory address =
    if address == 0x10 then some framebuffer else if address == 0x20 then some terminal else none

abbrev pub info : BootInfo
info = record { brand = codes "Limine"; version = codes "2.0"; tags = 0x10; memory = memory }

pub two_tags : Chain memory 0x10 (framebuffer ∷ terminal ∷ [])
two_tags = link (λ e. omega arith) refl (link (λ e. omega arith) refl end)

abbrev pub layout : Layout
layout = record {
  exceptions = λ i. i;
  interrupts = λ i. i;
  gdt_address = 0x4000;
  idt_address = 0x6000;
}

get_tag-first_with_example :
    get_tag memory 5 0x10 terminal_id ≡ first_with terminal_id (framebuffer ∷ terminal ∷ [])
get_tag-first_with_example = get_tag-first_with 5 terminal_id two_tags (omega arith)

start-Boots_example :
    Boots layout info terminal fresh
      (start echo_port (codes "kernel/kernel.cpp") layout 5 (some info) (loaded fresh))
start-Boots_example =
    start-Boots echo_port echo_port-Responsive (codes "kernel/kernel.cpp") layout info
      (framebuffer ∷ terminal ∷ []) terminal 5 fresh refl two_tags (omega arith) refl
      (λ e. omega arith) (omega arith) (omega arith) refl

-- The framebuffer's tag alone.
abbrev bare_memory : ℕ → Option Tag
bare_memory address = if address == 0x10 then some (record framebuffer { next = 0 }) else none

abbrev bare_info : BootInfo
bare_info = record info { memory = bare_memory }

start-Halts_example :
    Halts
      (start echo_port (codes "kernel/kernel.cpp") layout 5 (some bare_info) (loaded fresh))
      (loaded fresh)
      []
      (0x03 ∷ 0xAE ∷ [])
start-Halts_example =
    start-Halts echo_port (codes "kernel/kernel.cpp") layout bare_info
      (record framebuffer { next = 0 } ∷ []) 5 fresh (link (λ e. omega arith) refl end)
      (omega arith) (inr refl)
