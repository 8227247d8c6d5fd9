-- ===== src/Interrupt.antt =====
-- An interrupt request from its arrival to the return into the program that it interrupted:
-- `make_irq_handler` and `handle_irq_common` of kernel/arch/x86_64/isr.asm around the handler.
pub mod Life
pub mod Reentry
pub mod Session
pub mod Delivery
pub mod Fatal
use mega_os.Prelude.{
  ℕ, Bool, false, List, [], ◌∷◌, Option, none, some, ◌==◌, stop, fault, pure, ◌>>=◌, ◌>>◌, bit_and,
  not,
}
use mega_os.Machine.{Env, Kernel, Machine}
use mega_os.Frames.{Context, Return, return_words, irq_stub, frame_at, leave_stub}
use mega_os.Isr.{irq_interrupt_handler}

-- The interrupt flag, bit 9 of `rflags`
abbrev pub interrupt_flag : ℕ
interrupt_flag = 0x200

-- An interrupt gate clears the flag.
abbrev pub enter : Kernel (Unit {0})
enter m = pure tt (record m { interrupts_on = false })

-- `iretq` restores it with `rflags`.
abbrev pub resume : Option Context → Kernel Context
resume none = stop fault
resume (some c) =
    λ m. pure c (record m { interrupts_on = not (bit_and c.back.rflags interrupt_flag == 0) })

-- The interrupt request of a vector, in a program with this context.
unfoldable pub take_irq : Env → List ℕ → ℕ → Context → Kernel Context
take_irq env file vector c = do
  enter
  irq_interrupt_handler env file (frame_at (irq_stub vector c.gprs (return_words c.back)))
  resume (leave_stub (irq_stub vector c.gprs (return_words c.back)))

-- The program that is interrupted has interrupts on.
abbrev pub is_open : Context → Bool
is_open c = not (bit_and c.back.rflags interrupt_flag == 0)
