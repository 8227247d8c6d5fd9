-- ===== src/Tests/Interrupts.antt =====
-- The theorems on tables, interrupt controllers, interrupts and panics, at concrete frames.
use mega_os.Prelude.{
  pure, ℕ, ◌+◌, ◌-◌, ◌≡◌, ◌≢◌, refl, true, false, List, [], ◌∷◌, some, codes, arith, done, stopped,
  fault, get_elem?, if◌then◌else◌, ltb, replicate,
}
use mega_os.Machine.{Machine, load_gdt}
use mega_os.Machine.Runs.{Runs}
use mega_os.Serial.{data_reg}
use mega_os.Log.Delivery.{serial_bytes, visible}
use mega_os.Gdt
use mega_os.Gdt.{make_entries}
use mega_os.Gdt.Reload.{Cpu, reload_segments, called, reloaded, make_entries-reload}
use mega_os.Machine.{GdtEntry}
use mega_os.Gdt.Table.{kernel_table, gdt_line, install-kernel_table}
use mega_os.Idt
use mega_os.Idt.Install.{install-gate, install-vector_255}
use mega_os.Pic.{remap_pic, mpic_command, mpic_data, spic_command, spic_data}
use mega_os.Pic.Remap.{set_up, remap_pic-set_up}
use mega_os.Keyboard.{data_port}
use mega_os.Keyboard.Shift.{Switches, with_switches, turned, typed}
use mega_os.Frames.{
  Registers, InterruptFrame, Return, return_words, exception_stub_err, irq_stub, frame_at,
}
use mega_os.Frames.Layout.{frame}
use mega_os.Panic.{kpanic_frame}
use mega_os.Panic.Halts.{Halts, kpanic_frame-Halts}
use mega_os.Panic.Report.{banner}
use mega_os.Isr.{cpu_exception_handler, irq_interrupt_handler}
use mega_os.Isr.Dispatch.{
  installed, exception_cause, report, Acknowledges, irq_line, cpu_exception_handler-Halts,
  irq_unhandled-Acknowledges, irq_keyboard-Acknowledges, irq_255-faults,
}
use mega_os.Isr.Assertion.{frame_banner, frame_log, exception_err-Halts}
use mega_os.Tests.{fresh, answer, echo_port, echo_port-Responsive}

abbrev ready : Machine
ready = record fresh { handlers = installed }

terminal_set : ready.write ≢ 0
terminal_set e = omega arith

abbrev pub gprs : Registers
gprs = record {
  r15 = 15;
  r14 = 14;
  r13 = 13;
  r12 = 12;
  r11 = 11;
  r10 = 10;
  r9 = 9;
  r8 = 8;
  rsi = 7;
  rdi = 6;
  rbp = 5;
  rdx = 4;
  rcx = 3;
  rbx = 2;
  rax = 1;
}

abbrev pub back : Return
back = record { rip = 0x1000; cs = 0x28; rflags = 0x202; rsp = 0x8000; ss = 0x30 }

abbrev page_fault : InterruptFrame
page_fault = frame gprs 2 14 back

abbrev pub file : List ℕ
file = codes "kernel/arch/x86_64/interrupts.cpp"

abbrev capitals : Switches
capitals = record { shift = false; caps = true }

install-kernel_table_example :
    Runs data_reg
      (Gdt.install echo_port 0x4000 fresh)
      tt
      (record fresh {
        gdt = kernel_table;
        gdt_installed = true;
        use_serial = false;
        trace = load_gdt 55 0x4000 ∷ [];
      })
      []
      (serial_bytes (visible (gdt_line 0x4000)))
install-kernel_table_example =
    install-kernel_table echo_port echo_port-Responsive 0x4000 fresh refl refl

-- Stubs of so many bytes, one after another.
abbrev stubs : ℕ → ℕ → ℕ
stubs start i = start + i

install-gate_example :
    (m' : Machine) × (Idt.install echo_port (stubs 0x1000) (stubs 0x2000) 0x6000 fresh ≡ done tt m')
    × (get_elem? m'.idt 33
        ≡ some (
            Idt.gate (if ltb 33 32 then stubs 0x1000 33 else stubs 0x2000 (33 - 32)) Idt.type_attr))
install-gate_example =
    install-gate echo_port echo_port-Responsive (stubs 0x1000) (stubs 0x2000) 0x6000 fresh 33 refl
      refl (omega arith)

install-vector_255_example :
    (m' : Machine) × (Idt.install echo_port
        (stubs 0x1000)
        (Idt.table_word (replicate 223 0x2000) (stubs 0xdead))
        0x6000
        fresh
      ≡ done tt m')
    × (get_elem? m'.idt 255 ≡ some (Idt.gate 0xdead Idt.type_attr))
install-vector_255_example =
    install-vector_255 echo_port echo_port-Responsive (stubs 0x1000) (replicate 223 0x2000)
      (stubs 0xdead) 0x6000 fresh refl refl refl

kpanic_frame-Halts_example :
    Halts
      (kpanic_frame echo_port (codes "why") (some page_fault) fresh)
      fresh
      banner
      (report (codes "why") page_fault)
kpanic_frame-Halts_example =
    kpanic_frame-Halts echo_port echo_port-Responsive (codes "why") page_fault fresh (omega arith)
      terminal_set

cpu_exception_handler-Halts_example :
    Halts
      (cpu_exception_handler echo_port file (some page_fault) ready)
      ready
      banner
      (report (exception_cause 14) page_fault)
cpu_exception_handler-Halts_example =
    cpu_exception_handler-Halts echo_port file echo_port-Responsive page_fault ready (omega arith)
      refl terminal_set

irq_unhandled-Acknowledges_example :
    Acknowledges
      (irq_interrupt_handler echo_port file (frame_at (irq_stub 40 gprs (return_words back))) ready)
      ready
      (record ready { use_serial = false })
      []
      (serial_bytes (visible (irq_line 40)))
irq_unhandled-Acknowledges_example =
    irq_unhandled-Acknowledges echo_port file echo_port-Responsive 40 gprs back ready (omega arith)
      (omega arith) (λ e. omega arith) refl

irq_keyboard-Acknowledges_example :
    Acknowledges
      (irq_interrupt_handler echo_port file
        (frame_at (irq_stub 33 gprs (return_words back)))
        (with_switches capitals ready))
      ready
      (with_switches (turned (answer [] data_port) capitals) ready)
      (typed (answer [] data_port) capitals)
      []
irq_keyboard-Acknowledges_example =
    irq_keyboard-Acknowledges echo_port file echo_port-Responsive gprs back capitals ready refl
      (λ e. refl) terminal_set

irq_255-faults_example :
    irq_interrupt_handler echo_port file (frame_at (irq_stub 255 gprs (return_words back))) ready
    ≡ stopped fault ready
irq_255-faults_example = irq_255-faults echo_port file echo_port-Responsive gprs back ready refl

exception_err-Halts_example :
    Halts
      (cpu_exception_handler echo_port file
        (frame_at (exception_stub_err 13 gprs (0x50 ∷ return_words back)))
        ready)
      ready
      (frame_banner (frame gprs 13 0x50 back))
      (frame_log file (frame gprs 13 0x50 back))
exception_err-Halts_example =
    exception_err-Halts echo_port file echo_port-Responsive 13 0x50 gprs back ready refl
      terminal_set (omega arith)

remap_pic-set_up_example :
    (remap_pic echo_port mpic_command mpic_data 32 fresh
      ≡ pure tt (record fresh { trace = set_up 0x20 0x21 4 32 (answer [] 0x21) [] }))
    × (remap_pic echo_port spic_command spic_data 32 fresh
        ≡ pure tt (record fresh { trace = set_up 0xA0 0xA1 2 32 (answer [] 0xA1) [] }))
remap_pic-set_up_example = (remap_pic-set_up echo_port 32 fresh)

-- The segment registers as the loader leaves them.
abbrev loader_cpu : Cpu
loader_cpu = record {
  cs = 0x10;
  ds = 0x18;
  es = 0x18;
  fs = 0x18;
  gs = 0x18;
  ss = 0x18;
  rip = 0x2000;
  rdi = 0x9000;
  stack = 7 ∷ [];
}

make_entries-reload_example :
    (t : List GdtEntry) × (make_entries (record fresh { gdt = Gdt.initial_table })
      ≡ done tt (record fresh { gdt = t }))
    × (reload_segments t 55 (called loader_cpu 0x1234 (7 ∷ []))
        ≡ done tt (reloaded 0x1234 (7 ∷ [])))
make_entries-reload_example =
    make_entries-reload Gdt.initial_table fresh loader_cpu 0x1234 (7 ∷ []) refl
