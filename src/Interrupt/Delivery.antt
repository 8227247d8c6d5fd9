-- ===== src/Interrupt/Delivery.antt =====
-- Where the processor goes on an interrupt: by the gate of the vector and the segment of its selector, in
-- the tables that kernel/arch/x86_64/idt.cpp and gdt.cpp have made.
use mega_os.Prelude.{
  ℕ, ◌-◌, ◌/◌, ◌<◌, ◌^◌, ◌≡◌, ap, Bool, ◌&&◌, List, Option, some, none, ltb, ◌==◌, if◌then◌else◌,
  length, get_elem?, bit_and,
}
use mega_os.Machine.{Machine, GdtEntry, IdtEntry}
use mega_os.Gdt.{entry_size}
use mega_os.Gdt.Table.{kernel_table, is_code64, kernel_table-HasCode64}
use mega_os.Idt.{entry_count, gate, type_attr}
use mega_os.Idt.Table.{target, target-gate, kernel_idt-gates}
use mega_os.Boot.{BootInfo, Layout}
use mega_os.Interrupt.Session.{IsSession}

-- A present interrupt gate of 64 bits.
abbrev is_interrupt_gate : IdtEntry → Bool
is_interrupt_gate g = bit_and g.flags 0x80 == 0x80 && bit_and g.flags 0x1F == 0x0E

-- The address, if the segment holds 64-bit code of level 0.
abbrev through_segment : Option GdtEntry → ℕ → Option ℕ
through_segment none address = none
through_segment (some s) address = if is_code64 s then some address else none

abbrev through_gate : List GdtEntry → Option IdtEntry → Option ℕ
through_gate gdt none = none
through_gate gdt (some g) =
    if is_interrupt_gate g
    then through_segment (get_elem? gdt (g.selector / entry_size)) (target g)
    else none

-- The address that the processor goes to for a vector; nothing if it cannot.
abbrev pub delivered : Machine → ℕ → Option ℕ
delivered m vector = through_gate m.gdt (get_elem? m.idt vector)

-- The stub of a vector.
abbrev pub stub_of : Layout → ℕ → ℕ
stub_of layout vector =
    if ltb vector 32 then layout.exceptions vector else layout.interrupts (vector - 32)

through_gate-gate :
    (isr : ℕ) → isr < 2 ^ 64 → through_gate kernel_table (some (gate isr type_attr)) ≡ some isr
through_gate-gate isr h =
    let (segment, (found, code)) = kernel_table-HasCode64 in
    rw (found, code) (ap some (target-gate isr type_attr h))

-- In a session, as `Reach-IsSession` has it, over an interrupt table of 256 entries, the tables
-- take the processor for every one of the 256 vectors to the stub that the layout has for it, if
-- its address is below 2^64: the entry is a present interrupt gate of 64 bits, its selector is
-- that of a present segment of level 0 with 64-bit code, and its three parts spell the address.
pub IsSession-delivers :
    {layout : Layout} {info : BootInfo} {m u : Machine} {codes : List ℕ} (vector : ℕ)
    → IsSession layout info m u codes
    → length m.idt ≡ entry_count
    → vector < 256
    → stub_of layout vector < 2 ^ 64
    → delivered u vector ≡ some (stub_of layout vector)
IsSession-delivers {layout} {m} vector session h lt fits =
    rw
      (
        session.gdt,
        session.idt,
        kernel_idt-gates layout.exceptions layout.interrupts m.idt vector h lt,
      )
      (through_gate-gate (stub_of layout vector) fits)
