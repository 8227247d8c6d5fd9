-- ===== src/Tests.antt =====
-- Test data: a machine, a device that answers, and a format with its text; and what holds of them. The
-- children apply the theorems to them.
mod Formatting
mod Output
mod Interrupts
mod Boot
mod Life
mod Units
mod Float
use mega_os.Prelude.{
  ℕ, ◌<◌, ◌%◌, ◌^◌, ◌≡◌, refl, true, false, List, [], ◌∷◌, ◌++◌, none, codes, replicate, arith,
  ◌==◌, if◌then◌else◌, M, done,
}
use mega_os.Machine.{Env, Machine, Event, out_byte}
use mega_os.Serial.{data_reg, line_sr, temt_mask}
use mega_os.Serial.Send.{Responsive}
use mega_os.Serial.Init.{LoopsBack}
use mega_os.Printf.Output.{OutFct}
use mega_os.Printf.Directive.{Arg, word, str}
use mega_os.Printf.Format.Formats.{Formats}
use mega_os.Printf.Format.Pieces.{Writes, plain, dec, chars, nothing, dec_text}
use mega_os.Gdt
use mega_os.Idt

-- A port with an empty transmitter, which is read as the last byte sent to any port.
abbrev pub last_byte : List Event → ℕ
last_byte (out_byte p v ∷ t) = v % 2 ^ 8
last_byte t = 0x10

abbrev pub answer : List Event → ℕ → ℕ
answer t port = if port == line_sr then temt_mask else last_byte t

last_byte-lt : (t : List Event) → last_byte t < 2 ^ 8
last_byte-lt [] = omega arith
last_byte-lt (out_byte p v ∷ t) = omega arith
last_byte-lt (Event.in_byte p v ∷ t) = omega arith
last_byte-lt (Event.out_wide n p v ∷ t) = omega arith
last_byte-lt (Event.in_wide n p v ∷ t) = omega arith
last_byte-lt (Event.term c ∷ t) = omega arith
last_byte-lt (Event.load_gdt n a ∷ t) = omega arith
last_byte-lt (Event.load_idt n a ∷ t) = omega arith

pub answer-lt : (t : List Event) (port : ℕ) → answer t port < 2 ^ 8
answer-lt t port = ground (arith, last_byte-lt t)

abbrev pub echo_port : Env
echo_port = record {
  reads = answer;
  reads-lt = answer-lt;
  reads_wide = λ t bits port. 0;
  polls = 1;
}

pub echo_port-Responsive : Responsive echo_port
echo_port-Responsive t = (0, omega arith, refl)

pub echo_port-LoopsBack : LoopsBack echo_port
echo_port-LoopsBack t v h = omega arith

-- A machine with a terminal.
abbrev pub fresh : Machine
fresh = record {
  trace = [];
  write = 0x1000;
  use_serial = false;
  key_up = 0;
  gdt = Gdt.initial_table;
  gdt_installed = false;
  idt = Idt.initial_table;
  idt_installed = false;
  handlers = replicate 255 none;
  interrupts_on = false;
}

-- An output function that keeps all characters.
abbrev pub collect : OutFct (List ℕ)
collect c idx maxlen seen = done tt (seen ++ c ∷ [])

-- `"%s=%d\n"` of `"x"` and 7.
abbrev pub x_format : List ℕ
x_format = codes "%s=%d\n"

abbrev pub x_args : List Arg
x_args = str 0 (codes "x") ∷ word 7 ∷ []

abbrev pub x_text : List ℕ
x_text = codes "x" ++ (codes "=" ++ (dec_text 7 ++ codes "\n"))

pub x_Writes : Writes x_format x_args x_text 35
x_Writes =
    chars 0 (codes "x") (omega arith)
      (plain (codes "=") refl (dec 7 (plain (codes "\n") refl nothing)))

pub x_Formats : Formats x_format x_args x_text
x_Formats = x_Writes.formats
