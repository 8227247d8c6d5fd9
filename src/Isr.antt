-- ===== src/Isr.antt =====
-- The dispatch of interrupts: `interrupts::isr` of kernel/arch/x86_64/interrupts.cpp, and the stubs of
-- kernel/arch/x86_64/isr.asm that call it.
pub mod Dispatch
pub mod Assertion
use mega_os.Prelude.{
  ℕ, ◌+◌, ◌-◌, ◌*◌, ◌%◌, ◌^◌, Bool, true, false, ◌&&◌, not, List, [], ◌∷◌, ◌++◌, Option, none, some,
  ltb, leb, ◌==◌, if◌then◌else◌, get_elem?, set, replicate, pure, stop, fault, ◌>>=◌, ◌>>◌, codes,
}
use mega_os.Machine.{Env, Kernel, Machine, Handler, keyboard_irq_handler, halt_cpu}
use mega_os.Log.{dprintf, dputs}
use mega_os.Printf.Directive.{word, str}
use mega_os.Panic.{kpanic_frame}
use mega_os.Frames.{InterruptFrame}
use mega_os.Keyboard
use mega_os.Pic

-- `EXCEPTION_COUNT`
abbrev pub exception_count : ℕ
exception_count = 32

-- `class_type`; the constructor for `class_type::fault` is `fault_class`.
pub data ClassType : Type 0 where
  fault_class trap abort interrupt reserved : ClassType

-- `int_type_lut`
abbrev pub int_type_lut : List ClassType
int_type_lut =
    fault_class ∷ fault_class ∷ interrupt ∷ trap ∷ trap ∷ fault_class ∷ fault_class ∷ fault_class
    ∷ abort ∷ fault_class ∷ fault_class ∷ fault_class ∷ fault_class ∷ fault_class ∷ fault_class
    ∷ reserved ∷ fault_class ∷ fault_class ∷ abort ∷ fault_class ∷ fault_class ∷ fault_class
    ∷ reserved ∷ reserved ∷ reserved ∷ reserved ∷ reserved ∷ reserved ∷ reserved ∷ reserved
    ∷ reserved ∷ reserved ∷ []

-- `get_class_type`; no class is a read past the end
unfoldable pub get_class_type : ℕ → Option ClassType
get_class_type int_no = get_elem? int_type_lut int_no

-- `is_cpu_exception`
unfoldable pub is_cpu_exception : ℕ → Bool
is_cpu_exception int_no = ltb int_no exception_count

-- `is_irq_interrupt`
unfoldable pub is_irq_interrupt : ℕ → Bool
is_irq_interrupt int_no = leb exception_count int_no && ltb int_no 256

-- the size of `handlers`
abbrev pub handler_count : ℕ
handler_count = 255

-- `isr::install`
unfoldable pub install : Env → Kernel (Unit {0})
install env = do
  λ m.
      pure tt
        (record m { handlers = set (replicate handler_count none) 33 (some keyboard_irq_handler) })
  ret ← dputs env (some (codes "ISR successfully installed"))
  pure tt

-- A call of a stored handler.
abbrev pub call_handler : Env → Handler → Kernel (Unit {0})
call_handler env keyboard_irq_handler = Keyboard.irq_handler env

-- The class test of `cpu_exception_handler`.
abbrev pub is_abort : Option ClassType → Bool
is_abort (some abort) = true
is_abort _ = false

module _ (env : Env) (file : List ℕ) where
  -- `assert(expr)` of a build without MEGA_RELEASE, in the file `file`; with it, as the release mode of
  -- xmake.lua has it, `assert` is empty.
  unfoldable pub check : Bool → List ℕ → ℕ → Kernel (Unit {0})
  check true expr line = pure tt
  check false expr line = do
    ret ←
        dprintf env (codes "\u{1b}[31mAssertion failed: %s at %s, line %d")
          (str 0 expr ∷ str 0 file ∷ word line ∷ [])
    halt_cpu

  -- `handlers[frame->int_no]`, and its call; an index past the array is a fault
  abbrev pub dispatch : Option (Option Handler) → Kernel (Unit {0}) → Kernel (Unit {0})
  dispatch none otherwise = stop fault
  dispatch (some none) otherwise = otherwise
  dispatch (some (some h)) otherwise = call_handler env h

  -- `cpu_exception_handler`, behind the test for a null pointer
  unfoldable pub handle_exception : InterruptFrame → Kernel (Unit {0})
  handle_exception frame = do
    check (is_cpu_exception frame.int_no) (codes "is_cpu_exception(frame->int_no)") 126
    λ m.
        (if is_abort (get_class_type frame.int_no)
            then kpanic_frame env (codes "CPU interrupt of class abort.") (some frame)
            else dispatch (get_elem? m.handlers frame.int_no)
                (kpanic_frame env (codes "CPU interrupt with no handler") (some frame)))
          m

  -- `cpu_exception_handler`
  unfoldable pub cpu_exception_handler : Option InterruptFrame → Kernel (Unit {0})
  cpu_exception_handler none = do check false (codes "frame") 125; stop fault
  cpu_exception_handler (some frame) = handle_exception frame

  -- `irq_interrupt_handler`, behind the test for a null pointer
  unfoldable pub handle_irq : InterruptFrame → Kernel (Unit {0})
  handle_irq frame = do
    check (is_irq_interrupt frame.int_no) (codes "is_irq_interrupt(frame->int_no)") 145
    λ m.
        dispatch (get_elem? m.handlers frame.int_no)
          (do
            ret ←
                dprintf env (codes "IRQ %d received but has no handler\n") (word frame.int_no ∷ [])
            pure tt)
          m
    Pic.send_eoi frame.int_no

  -- `irq_interrupt_handler`
  unfoldable pub irq_interrupt_handler : Option InterruptFrame → Kernel (Unit {0})
  irq_interrupt_handler none = do check false (codes "frame") 144; stop fault
  irq_interrupt_handler (some frame) = handle_irq frame
