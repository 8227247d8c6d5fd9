-- ===== src/Frames.antt =====
-- The interrupt frame of kernel/arch/x86_64/cpu.hpp and interrupts.hpp, and the stack that the stubs
-- of kernel/arch/x86_64/isr.asm build and hand to the handlers. A stack is the list of its 64-bit
-- words, the lowest address first.
pub mod Layout
pub mod Resume
use mega_os.Prelude.{ℕ, List, [], ◌∷◌, ◌++◌, Option, none, some}

-- `cpu::registers`
pub record Registers : Type 0 where
  pub r15 : ℕ
  pub r14 : ℕ
  pub r13 : ℕ
  pub r12 : ℕ
  pub r11 : ℕ
  pub r10 : ℕ
  pub r9 : ℕ
  pub r8 : ℕ
  pub rsi : ℕ
  pub rdi : ℕ
  pub rbp : ℕ
  pub rdx : ℕ
  pub rcx : ℕ
  pub rbx : ℕ
  pub rax : ℕ

-- `interrupt_frame`
pub record InterruptFrame : Type 0 where
  pub gprs : Registers
  pub err_code : ℕ
  pub int_no : ℕ
  pub rip : ℕ
  pub cs : ℕ
  pub rflags : ℕ
  pub rsp : ℕ
  pub ss : ℕ

-- What the processor pushes on an interrupt, without the error code.
pub record Return : Type 0 where
  pub rip : ℕ
  pub cs : ℕ
  pub rflags : ℕ
  pub rsp : ℕ
  pub ss : ℕ

abbrev pub return_words : Return → List ℕ
return_words r = r.rip ∷ r.cs ∷ r.rflags ∷ r.rsp ∷ r.ss ∷ []

-- `pusha64`: `rax` first, `r15` last
unfoldable pub pusha64 : Registers → List ℕ → List ℕ
pusha64 r stack =
    r.r15 ∷ r.r14 ∷ r.r13 ∷ r.r12 ∷ r.r11 ∷ r.r10 ∷ r.r9 ∷ r.r8 ∷ r.rsi ∷ r.rdi ∷ r.rbp ∷ r.rdx
    ∷ r.rcx ∷ r.rbx ∷ r.rax ∷ stack

-- `make_exception_handler_noerr` and `handle_isr_common`, up to the call
unfoldable pub exception_stub_noerr : ℕ → Registers → List ℕ → List ℕ
unfolding pusha64
exception_stub_noerr vector r stack = pusha64 r (vector ∷ 0 ∷ stack)

-- `make_exception_handler_err`, below which the processor has pushed the error code
unfoldable pub exception_stub_err : ℕ → Registers → List ℕ → List ℕ
unfolding pusha64
exception_stub_err vector r stack = pusha64 r (vector ∷ stack)

-- `make_irq_handler` and `handle_irq_common`, up to the call
unfoldable pub irq_stub : ℕ → Registers → List ℕ → List ℕ
unfolding pusha64
irq_stub vector r stack = pusha64 r (0 ∷ vector ∷ stack)

-- The structure that a pointer to the stack points to.
unfoldable pub frame_at : List ℕ → Option InterruptFrame
frame_at
      (r15 ∷ r14 ∷ r13 ∷ r12 ∷ r11 ∷ r10 ∷ r9 ∷ r8 ∷ rsi ∷ rdi ∷ rbp ∷ rdx ∷ rcx ∷ rbx ∷ rax
        ∷ err_code ∷ int_no ∷ rip ∷ cs ∷ rflags ∷ rsp ∷ ss ∷ stack) =
    some (record {
      gprs = record {
        r15 = r15;
        r14 = r14;
        r13 = r13;
        r12 = r12;
        r11 = r11;
        r10 = r10;
        r9 = r9;
        r8 = r8;
        rsi = rsi;
        rdi = rdi;
        rbp = rbp;
        rdx = rdx;
        rcx = rcx;
        rbx = rbx;
        rax = rax;
      };
      err_code = err_code;
      int_no = int_no;
      rip = rip;
      cs = cs;
      rflags = rflags;
      rsp = rsp;
      ss = ss;
    })
frame_at _ = none

-- What the program that was interrupted runs with.
pub record Context : Type 0 where
  pub gprs : Registers
  pub back : Return

-- `popa64`: `r15` first, `rax` last
unfoldable pub popa64 : List ℕ → Option (Registers × List ℕ)
popa64
      (r15 ∷ r14 ∷ r13 ∷ r12 ∷ r11 ∷ r10 ∷ r9 ∷ r8 ∷ rsi ∷ rdi ∷ rbp ∷ rdx ∷ rcx ∷ rbx ∷ rax
        ∷ stack) =
    some (
      record {
        r15 = r15;
        r14 = r14;
        r13 = r13;
        r12 = r12;
        r11 = r11;
        r10 = r10;
        r9 = r9;
        r8 = r8;
        rsi = rsi;
        rdi = rdi;
        rbp = rbp;
        rdx = rdx;
        rcx = rcx;
        rbx = rbx;
        rax = rax;
      },
      stack,
    )
popa64 _ = none

-- `add rsp, 16`
abbrev pub drop_two : List ℕ → List ℕ
drop_two (a ∷ b ∷ stack) = stack
drop_two _ = []

-- `iretq`
abbrev pub iretq : List ℕ → Option Return
iretq (rip ∷ cs ∷ rflags ∷ rsp ∷ ss ∷ stack) =
    some (record { rip = rip; cs = cs; rflags = rflags; rsp = rsp; ss = ss })
iretq _ = none

-- The end of `handle_isr_common` and of `handle_irq_common`, behind the call.
unfoldable pub leave_stub : List ℕ → Option Context
unfolding popa64
leave_stub stack = elim (popa64 stack) [
  | none ↦ none
  | some (r, rest) ↦ elim (iretq (drop_two rest)) [
    | none ↦ none
    | some back ↦ some (record { gprs = r; back = back })
  ]
]
