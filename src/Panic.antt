-- ===== src/Panic.antt =====
-- kernel/panic.cpp: the report of a fatal error, after which the kernel halts.
pub mod Report
pub mod Halts
use mega_os.Prelude.{
  ℕ, Bool, true, false, List, [], ◌∷◌, ◌++◌, Option, none, some, ltb, if◌then◌else◌, get_elem?,
  pure, stop, fault, ◌>>=◌, ◌>>◌, codes,
}
use mega_os.Machine.{Env, Kernel, halt_cpu}
use mega_os.Log.{dprintf, kputs}
use mega_os.Printf.Directive.{Arg, word, str}
use mega_os.Frames.{Registers, InterruptFrame}

-- `exception_desc`
abbrev pub exception_desc : List (List ℕ)
exception_desc =
    codes "Divide Error"
    ∷ codes "Debug Exception"
    ∷ codes "NMI Interrupt"
    ∷ codes "Breakpoint"
    ∷ codes "Overflow"
    ∷ codes "BOUND Range Exceeded"
    ∷ codes "Invalid Opcode"
    ∷ codes "Device Not Available"
    ∷ codes "Double Fault"
    ∷ codes "Coprocessor Segment Overrun"
    ∷ codes "Invalid TSS"
    ∷ codes "Segment Not Present"
    ∷ codes "Stack-Segment-Fault"
    ∷ codes "General Protection"
    ∷ codes "Page Fault"
    ∷ codes "Intel Reserved (15)"
    ∷ codes "x87 FPU Floating-Point Error"
    ∷ codes "Alignment Check"
    ∷ codes "Machine Check"
    ∷ codes "SIMD Floating-Point Exception"
    ∷ codes "Virtualization Exception"
    ∷ codes "Control Protection Exception"
    ∷ codes "Intel Reserved (22)"
    ∷ codes "Intel Reserved (23)"
    ∷ codes "Intel Reserved (24)"
    ∷ codes "Intel Reserved (25)"
    ∷ codes "Intel Reserved (26)"
    ∷ codes "Intel Reserved (27)"
    ∷ codes "Intel Reserved (28)"
    ∷ codes "Intel Reserved (29)"
    ∷ codes "Intel Reserved (30)"
    ∷ codes "Intel Reserved (31)"
    ∷ []

-- `EXCEPTION_COUNT`
abbrev pub exception_count : ℕ
exception_count = 32

-- The formats of the report.
abbrev pub registers_format : List ℕ
registers_format =
    codes "General Purpose Registers:\n"
    ++ (codes "\t- rax = %#lX\n"
        ++ (codes "\t- rbx = %#lX\n"
            ++ (codes "\t- rcx = %#lX\n"
                ++ (codes "\t- rdx = %#lX\n"
                    ++ (codes "\t- rbp = %#lX\n"
                        ++ (codes "\t- rdi = %#lX\n"
                            ++ (codes "\t- rsi = %#lX\n"
                                ++ (codes "\t- r8  = %#lX\n"
                                    ++ (codes "\t- r9  = %#lX\n"
                                        ++ (codes "\t- r10 = %#lX\n"
                                            ++ (codes "\t- r11 = %#lX\n"
                                                ++ (codes "\t- r12 = %#lX\n"
                                                    ++ (codes "\t- r13 = %#lX\n"
                                                        ++ (codes "\t- r14 = %#lX\n"
                                                            ++ codes
                                                            "\t- r15 = %#lX\n\n"))))))))))))))

abbrev pub frame_format : List ℕ
frame_format =
    codes "Interrupt Stack Frame:\n"
    ++ (codes "\t- err_code = %d\n"
        ++ (codes "\t- int_no   = %d\n"
            ++ (codes "\t- rip      = %#lX\n"
                ++ (codes "\t- cs       = %#lX\n"
                    ++ (codes "\t- rflags   = %#lX\n"
                        ++ (codes "\t- rsp      = %#lX\n" ++ codes "\t- ss       = %#lX\n\n"))))))

-- The arguments that go with them.
abbrev pub registers_args : Registers → List Arg
registers_args r =
    word r.rax
    ∷ word r.rbx
    ∷ word r.rcx
    ∷ word r.rdx
    ∷ word r.rbp
    ∷ word r.rdi
    ∷ word r.rsi
    ∷ word r.r8
    ∷ word r.r9
    ∷ word r.r10
    ∷ word r.r11
    ∷ word r.r12
    ∷ word r.r13
    ∷ word r.r14
    ∷ word r.r15
    ∷ []

abbrev pub frame_args : InterruptFrame → List Arg
frame_args f =
    word f.err_code
    ∷ word f.int_no
    ∷ word f.rip
    ∷ word f.cs
    ∷ word f.rflags
    ∷ word f.rsp
    ∷ word f.ss
    ∷ []

-- A string argument of the kernel's own; its address is not printed.
abbrev pub text : List ℕ → Arg
text s = str 0 s

module _ (env : Env) where
  -- `kpanic(cause)`
  unfoldable pub kpanic : List ℕ → Kernel (Unit {0})
  kpanic cause = do
    shown ← kputs env (some (codes "\u{1b}[31mKERNEL PANIC OCCURED, CHECK LOGS ON HOST MACHINE !"))
    sent ← dprintf env (codes "\u{1b}[31mKERNEL PANIC: %s\n") (text cause ∷ [])
    halt_cpu

  -- `kpanic(cause, r)`; no registers are a null pointer
  unfoldable pub kpanic_registers : List ℕ → Option Registers → Kernel (Unit {0})
  kpanic_registers cause none = kpanic cause
  kpanic_registers cause (some r) = do
    sent ← dprintf env registers_format (registers_args r)
    kpanic cause

  -- the line that names the exception; an index past the table is a fault
  abbrev pub describe_line : Option (List ℕ) → Kernel (Unit {0})
  describe_line none = stop fault
  describe_line (some desc) = do
    sent ← dprintf env (codes "Interrupt description: %s\n") (text desc ∷ [])
    pure tt

  abbrev pub describe : ℕ → Kernel (Unit {0})
  describe int_no =
      if ltb int_no exception_count
      then describe_line (get_elem? exception_desc int_no)
      else pure tt

  -- `kpanic(cause, f)`
  unfoldable pub kpanic_frame : List ℕ → Option InterruptFrame → Kernel (Unit {0})
  kpanic_frame cause none = kpanic_registers cause none
  kpanic_frame cause (some f) = do
    sent ← dprintf env frame_format (frame_args f)
    describe f.int_no
    kpanic_registers cause (some f.gprs)
