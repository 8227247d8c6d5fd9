-- ===== src/Pic.antt =====
-- The interrupt controllers: `interrupts::pic` of kernel/arch/x86_64/interrupts.cpp.
pub mod Masks
pub mod Remap
use mega_os.Prelude.{
  ℕ, ◌+◌, ◌-◌, ◌*◌, ◌%◌, ◌^◌, Bool, true, false, List, [], ◌∷◌, leb, ◌==◌, if◌then◌else◌, bit_or,
  bit_and, bit_xor, pure, ◌>>=◌, ◌>>◌, codes,
}
use mega_os.Machine.{Env, Kernel, inb, outb, wait}
use mega_os.Log.{dprintf}
use mega_os.Printf.Directive.{word}

-- `enum ports`
abbrev pub mpic_command : ℕ
mpic_command = 0x20

abbrev pub spic_command : ℕ
spic_command = 0xA0

abbrev pub mpic_data : ℕ
mpic_data = 0x21

abbrev pub spic_data : ℕ
spic_data = 0xA1

-- `commands::EOI`
abbrev pub eoi : ℕ
eoi = 0x20

-- `INIT | ICW4`
abbrev pub init_icw4 : ℕ
init_icw4 = bit_or 0x10 0x01

-- The data port and the line on its controller, for an IRQ number.
unfoldable pub data_port_of : ℕ → ℕ
data_port_of irq = if leb 8 irq then spic_data else mpic_data

unfoldable pub line_of : ℕ → ℕ
line_of irq = if leb 8 irq then irq - 8 else irq

-- `pic::disable`
unfoldable pub disable : Kernel (Unit {0})
disable = do outb mpic_data 0xFF; outb spic_data 0xFF

-- `pic::send_eoi`, whose argument is a `uint8_t`
unfoldable pub send_eoi : ℕ → Kernel (Unit {0})
send_eoi irq_no =
    if leb 8 (irq_no % 2 ^ 8)
    then (do outb spic_command eoi; outb mpic_command eoi)
    else outb mpic_command eoi

module _ (env : Env) where
  -- `pic::set_irq_mask`; the result of `|` is cut to 8 bits
  unfoldable pub set_irq_mask : ℕ → Kernel (Unit {0})
  set_irq_mask irq = do
    bits ← inb env (data_port_of irq)
    outb (data_port_of irq) (bit_or bits (2 ^ line_of irq) % 2 ^ 8)

  -- `pic::clear_irq_mask`; `~(1 << irq)` is an `int` of 32 bits
  unfoldable pub clear_irq_mask : ℕ → Kernel (Unit {0})
  clear_irq_mask irq = do
    bits ← inb env (data_port_of irq)
    outb (data_port_of irq) (bit_and bits (2 ^ 32 - 1 - 2 ^ line_of irq) % 2 ^ 8)

  -- `pic::remap_pic`
  unfoldable pub remap_pic : ℕ → ℕ → ℕ → Kernel (Unit {0})
  remap_pic command_port data_port pic_offset = do
    imr ← inb env data_port
    let icw3 = if command_port == mpic_command then 0x4 else 0x2
    outb command_port init_icw4
    wait
    outb data_port pic_offset
    wait
    outb data_port icw3
    wait
    outb data_port 0x1
    wait
    outb data_port imr

  -- `pic::remap`
  unfoldable pub remap : ℕ → ℕ → Kernel (Unit {0})
  remap mpic_offset spic_offset = do
    remap_pic mpic_command mpic_data mpic_offset
    remap_pic spic_command spic_data spic_offset
    ret ←
        dprintf env (codes "PIC remapped: PIC1 -> %d | PIC2 -> %d\n")
          (word mpic_offset ∷ word spic_offset ∷ [])
    pure tt
