-- ===== src/Tests/Output.antt =====
-- The theorems on the output functions, at concrete texts.
use mega_os.Prelude.{
  codes, M, ℕ, ◌-◌, suc, ◌%◌, ◌^◌, ◌≡◌, ◌≢◌, false, List, [], ◌∷◌, ◌++◌, length, take, drop, min,
  replicate, arith, done,
}
use mega_os.Machine.Runs.{Runs}
use mega_os.Serial.{data_reg}
use mega_os.Log.{snprintf, kprintf, dprintf}
use mega_os.Log.Buffer.{snprintf_lem}
use mega_os.Log.Delivery.{Puts, visible, serial_bytes}
use mega_os.Log.Bounds.{IsWithin, snprintf-IsWithin, IsTraced, kprintf-IsTraced}
use mega_os.Printf.Format.Keeps.{Keeps}
use mega_os.Log.Printf.{kprintf-Puts, dprintf-Runs}
use mega_os.Tests.{
  x_format, x_args, x_text, x_Formats, x_Writes, fresh, echo_port, echo_port-Responsive,
}

abbrev cells : List ℕ
cells = replicate 40 0xCC

snprintf_lem_example :
    snprintf 3 x_format x_args cells
    ≡ done
        (length x_text % 2 ^ 32)
        (take (3 - 1) x_text ++ 0 ∷ drop (suc (min (length x_text) (3 - 1))) cells)
snprintf_lem_example =
    snprintf_lem 3 cells x_Formats (omega (arith, x_Writes.short)) (omega arith) (omega arith)
      (omega arith)

terminal_set : fresh.write ≢ 0
terminal_set e = omega arith

kprintf-Puts_example :
    Puts (kprintf echo_port x_format x_args fresh) (length x_text % 2 ^ 32) fresh (visible x_text)
kprintf-Puts_example =
    kprintf-Puts echo_port echo_port-Responsive fresh x_Formats (omega (arith, x_Writes.short))
      (λ e. terminal_set)

dprintf-Runs_example :
    Runs data_reg
      (dprintf echo_port x_format x_args fresh)
      (length x_text % 2 ^ 32)
      (record fresh { use_serial = false })
      []
      (serial_bytes (visible x_text))
dprintf-Runs_example =
    dprintf-Runs echo_port echo_port-Responsive fresh x_Formats (omega (arith, x_Writes.short))

-- A callback that keeps all characters.
abbrev keep : ℕ → M (List ℕ) (Unit {0})
keep c seen = done tt (seen ++ c ∷ [])

-- The format is cut off, and there is no argument.
snprintf-IsWithin_example : Keeps (IsWithin 3 cells) (snprintf 3 (codes "a%d%") [] cells)
snprintf-IsWithin_example = snprintf-IsWithin 3 (codes "a%d%") [] cells

kprintf-IsTraced_example : Keeps (IsTraced fresh) (kprintf echo_port (codes "a%d%") [] fresh)
kprintf-IsTraced_example = kprintf-IsTraced echo_port fresh (codes "a%d%") []
