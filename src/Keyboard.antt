-- ===== src/Keyboard.antt =====
-- kernel/devices/ps2keyboard.hpp and ps2keyboard.cpp: the handler of the keyboard's interrupt.
pub mod Shift
use mega_os.Prelude.{
  ℕ, ◌+◌, ◌-◌, ◌*◌, ◌%◌, ◌^◌, Bool, true, false, List, [], ◌∷◌, ◌++◌, Option, none, some, ltb, ◌==◌,
  if◌then◌else◌, bit_or, bit_and, bit_xor, pure, stop, fault, ◌>>=◌, ◌>>◌, codes, get_elem?,
}
use mega_os.Machine.{Env, Kernel, Machine, inb}
use mega_os.Log.{kputc, kprint}

-- `kmap_lower`
abbrev pub kmap_lower : List ℕ
kmap_lower =
    0 ∷ 0 ∷ b'&' ∷ 0 ∷ b'"' ∷ 39 ∷ b'(' ∷ b'-' ∷ 0 ∷ b'_' ∷ 0 ∷ 0 ∷ b')' ∷ b'=' ∷ 8 ∷ 9 ∷ b'a'
    ∷ b'z' ∷ b'e' ∷ b'r' ∷ b't' ∷ b'y' ∷ b'u' ∷ b'i' ∷ b'o' ∷ b'p' ∷ b'^' ∷ b'$' ∷ 0 ∷ 0 ∷ b'q'
    ∷ b's' ∷ b'd' ∷ b'f' ∷ b'g' ∷ b'h' ∷ b'j' ∷ b'k' ∷ b'l' ∷ b'm' ∷ 0 ∷ b'`' ∷ 0 ∷ b'*' ∷ b'w'
    ∷ b'x' ∷ b'c' ∷ b'v' ∷ b'b' ∷ b'n' ∷ b',' ∷ b';' ∷ b':' ∷ b'!' ∷ 0 ∷ 0 ∷ 0 ∷ b' ' ∷ []

-- `kmap_upper`
abbrev pub kmap_upper : List ℕ
kmap_upper =
    0 ∷ 0 ∷ b'1' ∷ b'2' ∷ b'3' ∷ b'4' ∷ b'5' ∷ b'6' ∷ b'7' ∷ b'8' ∷ b'9' ∷ b'0' ∷ 0 ∷ b'+' ∷ 8 ∷ 9
    ∷ b'A' ∷ b'Z' ∷ b'E' ∷ b'R' ∷ b'T' ∷ b'Y' ∷ b'U' ∷ b'I' ∷ b'O' ∷ b'P' ∷ 0 ∷ b'}' ∷ 0 ∷ 0 ∷ b'Q'
    ∷ b'S' ∷ b'D' ∷ b'F' ∷ b'G' ∷ b'H' ∷ b'J' ∷ b'K' ∷ b'L' ∷ b'M' ∷ b'%' ∷ b'~' ∷ 0 ∷ 92 ∷ b'W'
    ∷ b'X' ∷ b'C' ∷ b'V' ∷ b'B' ∷ b'N' ∷ b'?' ∷ b'.' ∷ b'/' ∷ 0 ∷ 0 ∷ 0 ∷ 0 ∷ b' ' ∷ []

abbrev pub data_port : ℕ
data_port = 0x60

abbrev set_key_up : ℕ → Kernel (Unit {0})
set_key_up k m = pure tt (record m { key_up = k })

-- `log::kputc(kmap[code])`
abbrev put_key : Option ℕ → Kernel (Unit {0})
put_key none = stop fault
put_key (some c) = kputc c

-- The `switch` and what follows it, for a scan code; an index past the map is a fault.
unfoldable pub handle_code : Env → ℕ → Kernel (Unit {0})
handle_code env code m =
    if code == 0x2A
    then set_key_up (bit_or m.key_up 0b01) m
    else if code == 0xAA
    then set_key_up (bit_and m.key_up 0b10) m
    else if code == 0x3A
    then set_key_up (bit_xor m.key_up 0b10) m
    else if code == 0x0E
    then (do ret ← kprint env (some (8 ∷ b' ' ∷ 8 ∷ [])); pure tt) m
    else if code == 0x0F
    then kputc 9 m
    else if code == 0x1C
    then kputc 10 m
    else if ltb code 58
    then put_key (get_elem? (if m.key_up == 0 then kmap_lower else kmap_upper) code) m
    else pure tt m

-- `controller::irq_handler`
unfoldable pub irq_handler : Env → Kernel (Unit {0})
irq_handler env = do code ← inb env data_port; handle_code env code
