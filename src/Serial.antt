-- ===== src/Serial.antt =====
-- kernel/serial.cpp and kernel/serial.hpp: the serial port COM1.
pub mod Send
pub mod Init
use mega_os.Prelude.{
  ℕ, zero, suc, Bool, true, false, ◌==◌, if◌then◌else◌, bit_and, M, spin, pure, stop, ◌>>=◌, ◌>>◌,
}
use mega_os.Machine.{Env, Kernel, inb, outb}

-- `TEMT_MASK`
abbrev pub temt_mask : ℕ
temt_mask = 0x20

-- `ports::COM1` and the registers that are used
abbrev pub com1 : ℕ
com1 = 0x3F8

-- `regs::DATA`, also `DIVL`
abbrev pub data_reg : ℕ
data_reg = 0x3F8

-- `regs::INTE`, also `DIVH`
abbrev pub inte : ℕ
inte = 0x3F9

abbrev pub inti : ℕ
inti = 0x3FA

abbrev pub line_cr : ℕ
line_cr = 0x3FB

abbrev pub modm_cr : ℕ
modm_cr = 0x3FC

abbrev pub line_sr : ℕ
line_sr = 0x3FD

module _ (env : Env) where
  -- `serial::test`
  unfoldable pub test : Kernel Bool
  unfolding inb outb
  test = do
    outb modm_cr 0x1E
    outb data_reg 0xAE
    echo ← inb env data_reg
    if echo == 0xAE then outb modm_cr 0x0F >> pure true else pure false

  -- `serial::init`
  unfoldable pub init : Kernel Bool
  unfolding test
  init = do
    outb inte 0x00
    outb line_cr 0x80
    outb data_reg 0x03
    outb inte 0x00
    outb line_cr 0x03
    outb inti 0xC7
    outb modm_cr 0x0B
    test

  -- `while (!(cpu::io::inb(regs::LINE_SR) & TEMT_MASK));`
  unfoldable pub wait_ready : ℕ → Kernel (Unit {0})
  unfolding inb
  wait_ready zero = stop spin
  wait_ready (suc rounds) = do
    status ← inb env line_sr
    if bit_and status temt_mask == 0 then wait_ready rounds else pure tt

  -- `serial::send`
  unfoldable pub send : ℕ → Kernel (Unit {0})
  unfolding wait_ready outb
  send c = do wait_ready env.polls; outb data_reg c
