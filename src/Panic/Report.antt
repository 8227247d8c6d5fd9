-- ===== src/Panic/Report.antt =====
-- What a panic shows and sends, as texts, and that the formats of kernel/panic.cpp describe them.
use mega_os.Prelude.{
  ◌&&◌, ℕ, ◌+◌, ◌<◌, ◌^◌, ◌≡◌, refl, Bool, true, false, List, [], ◌∷◌, ◌++◌, length, some, none,
  Option, arith, codes, ltb, get_elem?, get_elem?-above, holds_under, holds_under-at, ltb→lt, ◌≤◌,
}
use mega_os.Printf.Directive.{Arg, word}
use mega_os.Printf.Format.Pieces.{
  is_plain, plain, hex, dec, chars, nothing, within, Writes, hex_text, dec_text,
}
use mega_os.Frames.{Registers, InterruptFrame}
use mega_os.Panic.{registers_format, registers_args, frame_format, frame_args, text, exception_desc}

-- The line on the terminal.
abbrev pub banner : List ℕ
banner = codes "\u{1b}[31mKERNEL PANIC OCCURED, CHECK LOGS ON HOST MACHINE !\n"

-- The line on the serial port.
abbrev pub cause_line : List ℕ → List ℕ
cause_line cause = codes "\u{1b}[31mKERNEL PANIC: " ++ (cause ++ b'\n' ∷ [])

pub cause_line-Writes :
    (cause : List ℕ)
    → length cause < 2 ^ 32
    → Writes
        (codes "\u{1b}[31mKERNEL PANIC: %s\n")
        (text cause ∷ [])
        (cause_line cause)
        (19 + (length cause + (1 + 0)))
cause_line-Writes cause h =
    plain (codes "\u{1b}[31mKERNEL PANIC: ") refl
      (chars 0 cause h (plain (codes "\n") refl nothing))

-- Labelled numbers, a line each, in front of a text, a format and arguments.
abbrev pub hex_lines : List (List ℕ × ℕ) → List ℕ → List ℕ
hex_lines [] text = text
hex_lines ((label, value) ∷ lines) text =
    label ++ (hex_text value ++ (codes "\n" ++ hex_lines lines text))

abbrev hex_format : List (List ℕ × ℕ) → List ℕ → List ℕ
hex_format [] format = format
hex_format ((label, value) ∷ lines) format =
    label ++ (codes "%#lX" ++ (codes "\n" ++ hex_format lines format))

abbrev hex_args : List (List ℕ × ℕ) → List Arg → List Arg
hex_args [] va = va
hex_args ((label, value) ∷ lines) va = word value ∷ hex_args lines va

abbrev labels_plain : List (List ℕ × ℕ) → Bool
labels_plain [] = true
labels_plain ((label, value) ∷ lines) = is_plain label && labels_plain lines

abbrev lines_size : List (List ℕ × ℕ) → ℕ → ℕ
lines_size [] n = n
lines_size ((label, value) ∷ lines) n = length label + (32 + (1 + lines_size lines n))

&&-true : (a b : Bool) → (a && b) ≡ true → (a ≡ true) × (b ≡ true)
&&-true a b h = ground arith

hex_lines-Writes :
    {format : List ℕ} {va : List Arg} {text : List ℕ} {n : ℕ} (lines : List (List ℕ × ℕ))
    → labels_plain lines ≡ true
    → Writes format va text n
    → Writes
        (hex_format lines format)
        (hex_args lines va)
        (hex_lines lines text)
        (lines_size lines n)
hex_lines-Writes [] h w = w
hex_lines-Writes ((label, value) ∷ lines) h w =
    let (here, there) = &&-true (is_plain label) (labels_plain lines) h in
    plain label here (hex value (plain (codes "\n") refl (hex_lines-Writes lines there w)))

-- The registers, labelled, in the order of the report.
abbrev pub register_lines : Registers → List (List ℕ × ℕ)
register_lines r =
    (codes "\t- rax = ", r.rax)
    ∷ (codes "\t- rbx = ", r.rbx)
    ∷ (codes "\t- rcx = ", r.rcx)
    ∷ (codes "\t- rdx = ", r.rdx)
    ∷ (codes "\t- rbp = ", r.rbp)
    ∷ (codes "\t- rdi = ", r.rdi)
    ∷ (codes "\t- rsi = ", r.rsi)
    ∷ (codes "\t- r8  = ", r.r8)
    ∷ (codes "\t- r9  = ", r.r9)
    ∷ (codes "\t- r10 = ", r.r10)
    ∷ (codes "\t- r11 = ", r.r11)
    ∷ (codes "\t- r12 = ", r.r12)
    ∷ (codes "\t- r13 = ", r.r13)
    ∷ (codes "\t- r14 = ", r.r14)
    ∷ (codes "\t- r15 = ", r.r15)
    ∷ []

-- The registers on the serial port.
abbrev pub registers_report : Registers → List ℕ
registers_report r =
    codes "General Purpose Registers:\n" ++ hex_lines (register_lines r) (codes "\n")

pub registers_report-Writes :
    (r : Registers) → Writes registers_format (registers_args r) (registers_report r) 1000
registers_report-Writes r = within (omega arith) (
    plain (codes "General Purpose Registers:\n") refl
      (hex_lines-Writes (register_lines r) refl (plain (codes "\n") refl nothing)))

abbrev pub return_lines : InterruptFrame → List (List ℕ × ℕ)
return_lines f =
    (codes "\t- rip      = ", f.rip)
    ∷ (codes "\t- cs       = ", f.cs)
    ∷ (codes "\t- rflags   = ", f.rflags)
    ∷ (codes "\t- rsp      = ", f.rsp)
    ∷ (codes "\t- ss       = ", f.ss)
    ∷ []

-- The frame on the serial port.
abbrev pub frame_report : InterruptFrame → List ℕ
frame_report f =
    codes "Interrupt Stack Frame:\n\t- err_code = "
    ++ (dec_text f.err_code
        ++ (codes "\n\t- int_no   = "
            ++ (dec_text f.int_no ++ (codes "\n" ++ hex_lines (return_lines f) (codes "\n")))))

pub frame_report-Writes :
    (f : InterruptFrame) → Writes frame_format (frame_args f) (frame_report f) 1000
frame_report-Writes f = within (omega arith) (
    plain (codes "Interrupt Stack Frame:\n\t- err_code = ") refl (
      dec f.err_code (
        plain (codes "\n\t- int_no   = ") refl (
          dec f.int_no (
            plain (codes "\n") refl
              (hex_lines-Writes (return_lines f) refl (plain (codes "\n") refl nothing)))))))

-- The exception's name on the serial port, if it has one.
abbrev pub description : Option (List ℕ) → List ℕ
description none = []
description (some desc) = codes "Interrupt description: " ++ (desc ++ b'\n' ∷ [])

pub description-Writes :
    (desc : List ℕ)
    → length desc < 100
    → Writes
        (codes "Interrupt description: %s\n")
        (text desc ∷ [])
        (description (some desc))
        (23 + (length desc + (1 + 0)))
description-Writes desc h =
    plain (codes "Interrupt description: ") refl
      (chars 0 desc (omega arith) (plain (codes "\n") refl nothing))

-- The names are short, and there is one for each of the 32 vectors.
has_name : Option (List ℕ) → Bool
has_name none = false
has_name (some desc) = ltb (length desc) 100

has_name-cases :
    (o : Option (List ℕ))
    → has_name o ≡ true
    → (desc : List ℕ) × ((o ≡ some desc) × (length desc < 100))
unfolding has_name
has_name-cases none h = absurd (ground arith)
has_name-cases (some desc) h = (desc, (refl, ltb→lt _ _ h))

pub exception_desc-name :
    (int_no : ℕ)
    → int_no < 32
    → (desc : List ℕ) × ((get_elem? exception_desc int_no ≡ some desc) × (length desc < 100))
unfolding holds_under has_name
exception_desc-name int_no h =
    has_name-cases _ (holds_under-at 32 (λ i. has_name (get_elem? exception_desc i)) int_no refl h)

pub no_name : (int_no : ℕ) → 32 ≤ int_no → get_elem? exception_desc int_no ≡ none
no_name int_no h = get_elem?-above exception_desc int_no h
