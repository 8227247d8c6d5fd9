-- ===== src/Machine.antt =====
-- The machine under the kernel (kernel/arch/x86_64/cpu.hpp) and the kernel's static variables. What
-- the kernel does to the outside is a trace of events; what it reads from the outside is a parameter.
pub mod Trace
pub mod Runs
use mega_os.Prelude.{
  ℕ, ◌+◌, ◌<◌, ◌%◌, ◌^◌, Bool, true, false, List, [], ◌∷◌, Option, none, some, replicate,
}
use mega_os.Prelude.{M, Stop, halt, pure, stop, ◌>>=◌, ◌>>◌}

-- `outb`, `inb`, the accesses of 16 or 32 bits (with that number first), a call of the bootloader's `term_write` with one character, `lgdt`, `lidt`.
pub data Event : Type 0 where
  out_byte in_byte : ℕ → ℕ → Event
  out_wide in_wide : ℕ → ℕ → ℕ → Event
  term : ℕ → Event
  load_gdt load_idt : ℕ → ℕ → Event

-- `GDT::gdt_entry`
pub record GdtEntry : Type 0 where
  pub limit : ℕ
  pub base1 : ℕ
  pub base2 : ℕ
  pub access : ℕ
  pub flags : ℕ
  pub base3 : ℕ

-- `IDT::idt_entry`; the field `zero` is named `reserved`.
pub record IdtEntry : Type 0 where
  pub offset_1 : ℕ
  pub selector : ℕ
  pub ist : ℕ
  pub flags : ℕ
  pub offset_2 : ℕ
  pub offset_3 : ℕ
  pub reserved : ℕ

-- The functions that are ever stored in `isr::handlers`.
pub data Handler : Type 0 where
  keyboard_irq_handler : Handler

-- The static variables: `log::write` (0 is null) and `log::use_serial`, `controller::key_up`, the
-- tables with their `installed`, `isr::handlers`; and the processor's interrupt flag. `trace` holds
-- the events so far, the last one first.
pub record Machine : Type 0 where
  pub trace : List Event
  pub write : ℕ
  pub use_serial : Bool
  pub key_up : ℕ
  pub gdt : List GdtEntry
  pub gdt_installed : Bool
  pub idt : List IdtEntry
  pub idt_installed : Bool
  pub handlers : List (Option Handler)
  pub interrupts_on : Bool

-- What the kernel does not implement: the devices, which answer a read of a port by the events so
-- far, the loader's choice of addresses, and the bootloader. `polls` bounds the rounds in which the
-- kernel waits for a device; a longer wait is one for ever.
pub record Env : Type 0 where
  pub reads : List Event → ℕ → ℕ
  pub reads-lt : (t : List Event) (port : ℕ) → reads t port < 2 ^ 8
  pub reads_wide : List Event → ℕ → ℕ → ℕ
  pub polls : ℕ

abbrev pub Kernel {ℓ} : Type ℓ → Type ℓ
Kernel A = M Machine A

-- `io::outb`
unfoldable pub outb : ℕ → ℕ → Kernel (Unit {0})
outb port value m = pure tt (record m { trace = out_byte port (value % 2 ^ 8) ∷ m.trace })

-- `io::outw`
unfoldable pub outw : ℕ → ℕ → Kernel (Unit {0})
outw port value m = pure tt (record m { trace = out_wide 16 port (value % 2 ^ 16) ∷ m.trace })

-- `io::outl`
unfoldable pub outl : ℕ → ℕ → Kernel (Unit {0})
outl port value m = pure tt (record m { trace = out_wide 32 port (value % 2 ^ 32) ∷ m.trace })

-- `io::wait`
unfoldable pub wait : Kernel (Unit {0})
unfolding outb
wait = outb 0x80 0

-- `cpu::halt`: `cli;hlt` for ever
unfoldable pub halt_cpu : {A : Type 0} → Kernel A
halt_cpu m = stop halt (record m { interrupts_on = false })

-- `interrupts::enabled`, which reads bit 9 of the flags
unfoldable pub enabled : Kernel Bool
enabled m = pure m.interrupts_on m

-- `interrupts::enable`: `sti`
abbrev pub enable : Kernel (Unit {0})
enable m = pure tt (record m { interrupts_on = true })

-- `interrupts::disable`: `cli`
abbrev pub disable : Kernel (Unit {0})
disable m = pure tt (record m { interrupts_on = false })

module _ (env : Env) where
  -- `io::inb`
  unfoldable pub inb : ℕ → Kernel ℕ
  inb port m =
      let value = env.reads m.trace port in
      pure value (record m { trace = in_byte port value ∷ m.trace })

  -- A read of more than a byte.
  unfoldable read_wide : ℕ → ℕ → Kernel ℕ
  read_wide bits port m =
      let value = env.reads_wide m.trace bits port % 2 ^ bits in
      pure value (record m { trace = in_wide bits port value ∷ m.trace })

  -- `io::inw`
  unfoldable pub inw : ℕ → Kernel ℕ
  unfolding read_wide
  inw port = read_wide 16 port

  -- `io::inl`
  unfoldable pub inl : ℕ → Kernel ℕ
  unfolding read_wide
  inl port = read_wide 32 port
