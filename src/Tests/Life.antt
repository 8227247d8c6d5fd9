-- ===== src/Tests/Life.antt =====
-- The theorems on interrupts in a running kernel, on arrays and on the stubs.
use mega_os.Prelude.{
  ℕ, ◌≡◌, ◌≢◌, refl, true, false, List, [], ◌∷◌, ◌++◌, some, codes, arith, done, ◌==◌, ◌<◌, ◌^◌,
  if◌then◌else◌,
}
use mega_os.Machine.{Env, Machine}
use mega_os.Machine.Runs.{Runs}
use mega_os.Serial.{data_reg, line_sr, temt_mask}
use mega_os.Log.Delivery.{serial_bytes, visible}
use mega_os.Keyboard.Shift.{Switches, turned, typed}
use mega_os.Frames.{
  Context, return_words, exception_stub_err, exception_stub_noerr, irq_stub, leave_stub,
}
use mega_os.Frames.Resume.{leave_stub-restores}
use mega_os.Isr.Dispatch.{irq_line}
use mega_os.Interrupt.{take_irq}
use mega_os.Interrupt.Life.{
  Step, Reach, here, next, Lives, up, codes_read, Reach-Lives, Reach-serves,
}
use mega_os.Interrupt.Reentry.{interrupted, interrupted-Runs, interrupted_keyboard-Runs}
use mega_os.Interrupt.Delivery.{delivered, stub_of, IsSession-delivers}
use mega_os.Interrupt.Fatal.{IsFatal, Reach-IsFatal}
use mega_os.Keyboard.{data_port}
use mega_os.Interrupt.Session.{IsSession, Reach-IsSession}
use mega_os.Boot.Start.{loaded, Boots, start-Boots}
use mega_os.Boot.{start}
use mega_os.Gdt.Table.{kernel_table}
use mega_os.Idt.Table.{kernel_idt}
use mega_os.Array.{Array}
use mega_os.Tests.{fresh, echo_port, echo_port-Responsive}
use mega_os.Tests.Interrupts.{gprs, back, file}
use mega_os.Tests.Boot.{info, layout, framebuffer, terminal, two_tags}

abbrev program : Context
program = record { gprs = gprs; back = back }

abbrev at_rest : Switches
at_rest = record { shift = false; caps = false }

terminal_set : fresh.write ≢ 0
terminal_set e = omega arith

leave_stub-restores_example :
    (leave_stub (irq_stub 33 gprs (return_words back)) ≡ some program)
    × (leave_stub (exception_stub_noerr 33 gprs (return_words back)) ≡ some program)
    × (leave_stub (exception_stub_err 33 gprs (2 ∷ return_words back)) ≡ some program)
leave_stub-restores_example = leave_stub-restores 33 2 program

-- The keyboard's request at the start, which is served.
first_request :
    (v : Machine) × (take_irq echo_port file 33 program (up fresh at_rest []) ≡ done program v)
    × Step echo_port file (up fresh at_rest []) (codes_read echo_port 33 []) v
first_request =
    Reach-serves echo_port file echo_port-Responsive fresh at_rest [] terminal_set 33 program here
      (omega arith) (omega arith) refl

one_request :
    Reach echo_port file (up fresh at_rest []) ([] ++ codes_read echo_port 33 []) first_request.0
one_request = next here first_request.2

Reach-serves_example :
    (v : Machine) × (take_irq echo_port file 32 program first_request.0 ≡ done program v)
    × Step echo_port file first_request.0 (codes_read echo_port 32 first_request.0.trace) v
Reach-serves_example =
    Reach-serves echo_port file echo_port-Responsive fresh at_rest [] terminal_set 32 program
      one_request (omega arith) (omega arith) refl

Reach-Lives_example : Lives fresh at_rest [] ([] ++ codes_read echo_port 33 []) first_request.0
Reach-Lives_example =
    Reach-Lives echo_port file echo_port-Responsive fresh at_rest [] terminal_set one_request

interrupted-Runs_example :
    Runs data_reg
      (interrupted echo_port file 32 program (codes "Interr") (codes "upts") (up fresh at_rest []))
      tt
      (up fresh at_rest [])
      (codes "upts")
      (serial_bytes (codes "Interr") ++ serial_bytes (visible (irq_line 32)))
interrupted-Runs_example =
    interrupted-Runs echo_port file echo_port-Responsive 32 program (codes "Interr") (codes "upts")
      fresh at_rest [] (omega arith) (omega arith) (λ e. omega arith) refl terminal_set

abbrev triple : List ℕ → Array ℕ
triple xs = record { elements = xs }

-- The boot of the test's machine, and a keyboard's request behind it.
boot : Boots layout info terminal fresh (start echo_port file layout 5 (some info) (loaded fresh))
boot =
    start-Boots echo_port echo_port-Responsive file layout info (framebuffer ∷ terminal ∷ [])
      terminal 5 fresh refl two_tags (omega arith) refl (λ e. omega arith) (omega arith)
      (omega arith) refl

abbrev running : Machine
running = record fresh {
  write = terminal.term_write;
  gdt = kernel_table;
  gdt_installed = true;
  idt = kernel_idt layout.exceptions layout.interrupts fresh.idt;
  idt_installed = true;
}

next_request :
    (v : Machine) × (take_irq echo_port file 33 program (up running at_rest boot.final)
      ≡ done program v)
    × Step echo_port file (up running at_rest boot.final) (codes_read echo_port 33 boot.final) v
next_request =
    Reach-serves echo_port file echo_port-Responsive running at_rest boot.final (λ e. omega arith)
      33 program here (omega arith) (omega arith) refl

session : IsSession layout info fresh next_request.0 ([] ++ codes_read echo_port 33 boot.final)
session =
    Reach-IsSession echo_port echo_port-Responsive file layout info (framebuffer ∷ terminal ∷ [])
      terminal 5 fresh refl two_tags (omega arith) refl (λ e. omega arith) (omega arith)
      (omega arith) refl boot.ends (next here next_request.2)

IsSession-delivers_example : delivered next_request.0 33 ≡ some (stub_of layout 33)
IsSession-delivers_example = IsSession-delivers 33 session refl (omega arith) (omega arith)

Reach-IsSession_example :
    IsSession layout info fresh next_request.0 ([] ++ codes_read echo_port 33 boot.final)
Reach-IsSession_example =
    Reach-IsSession echo_port echo_port-Responsive file layout info (framebuffer ∷ terminal ∷ [])
      terminal 5 fresh refl two_tags (omega arith) refl (λ e. omega arith) (omega arith)
      (omega arith) refl boot.ends (next here next_request.2)

Reach-IsFatal_example : IsFatal echo_port file 14 2 program first_request.0
Reach-IsFatal_example =
    Reach-IsFatal echo_port file echo_port-Responsive fresh at_rest [] terminal_set 14 2 program
      one_request (omega arith)

-- A port with an empty transmitter, and a keyboard that holds a scan code.
abbrev held : ℕ → ℕ
held port = if port == line_sr then temt_mask else if port == data_port then 0x10 else 0

held-lt : (port : ℕ) → held port < 2 ^ 8
held-lt port = ground arith

abbrev keyboard_port : Env
keyboard_port = record {
  reads = λ t port. held port;
  reads-lt = λ t port. held-lt port;
  reads_wide = λ t bits port. 0;
  polls = 1;
}

interrupted_keyboard-Runs_example :
    Runs data_reg
      (interrupted keyboard_port file 33 program
        (codes "Interr")
        (codes "upts")
        (up fresh at_rest []))
      tt
      (up fresh (turned 0x10 at_rest) [])
      (typed 0x10 at_rest)
      (serial_bytes (codes "Interr") ++ serial_bytes (codes "upts"))
interrupted_keyboard-Runs_example =
    interrupted_keyboard-Runs keyboard_port file (λ t. (0, omega arith, refl)) 0x10 program
      (codes "Interr") (codes "upts") fresh at_rest [] (λ t. refl) (λ e. omega arith) refl
      terminal_set
