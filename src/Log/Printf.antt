-- ===== src/Log/Printf.antt =====
-- `kprintf`, `vprintf` and `dprintf`: the formatted text arrives whole.
use mega_os.Prelude.{ℕ, ◌<◌, ◌%◌, ◌^◌, true, false, List, [], append-nil, subst, length, arith}
use mega_os.Machine.{Env, Machine}
use mega_os.Machine.Runs.{Runs}
use mega_os.Serial.{data_reg}
use mega_os.Serial.Send.{Responsive}
use mega_os.Printf.Directive.{Arg}
use mega_os.Printf.Format.{vsnprintf_out}
use mega_os.Printf.Format.Formats.{Formats, format_out-emit}
use mega_os.Printf.Format.Pieces.{Writes}
use mega_os.Log.{kprintf, dprintf, out_char, size_max}
use mega_os.Log.Delivery.{
  serial_bytes, visible, CanPut, Puts, Puts-pure, Puts-bind, over_serial, emit-out_char,
}

module _ (env : Env) (responsive : Responsive env) where
  vsnprintf_out-Puts :
      {format : List ℕ} {va : List Arg} {text : List ℕ} (m : Machine)
      → Formats format va text
      → length text < 2 ^ 64
      → CanPut m
      → Puts
          (vsnprintf_out (out_char env) true size_max format va m)
          (length text % 2 ^ 32)
          m
          (visible text)
  unfolding vsnprintf_out out_char
  vsnprintf_out-Puts {text} m formats h can =
      rw (format_out-emit (out_char env) size_max m formats h) (
        subst (Puts _ (length text % 2 ^ 32) m) (append-nil (visible text)) (
          Puts-bind (visible text) [] _ _
            (emit-out_char env responsive size_max text 0 m (omega arith) can)
            (λ t. Puts-pure (length text % 2 ^ 32) _)))

  -- On a responsive port, with `log::write` set wherever `use_serial` is false, a format with its
  -- arguments that describes a text shorter than 2^64 makes `kprintf` put out the text without its
  -- NULs where `use_serial` says, change nothing else, and return the length of the text modulo
  -- 2^32.
  pub kprintf-Puts :
      {format : List ℕ} {va : List Arg} {text : List ℕ} (m : Machine)
      → Formats format va text
      → length text < 2 ^ 64
      → CanPut m
      → Puts (kprintf env format va m) (length text % 2 ^ 32) m (visible text)
  unfolding kprintf
  kprintf-Puts m formats h can = vsnprintf_out-Puts m formats h can

  -- On a responsive port `dprintf`, with a format that describes a text shorter than 2^64, sends
  -- the text without its NULs over the serial port whatever `use_serial` was, shows nothing on the
  -- terminal, leaves `use_serial` false and all else as it was, and returns the length of the text
  -- modulo 2^32.
  pub dprintf-Runs :
      {format : List ℕ} {va : List Arg} {text : List ℕ} (m : Machine)
      → Formats format va text
      → length text < 2 ^ 64
      → Runs data_reg
          (dprintf env format va m)
          (length text % 2 ^ 32)
          (record m { use_serial = false })
          []
          (serial_bytes (visible text))
  unfolding dprintf
  dprintf-Runs {format} {va} {text} m formats h =
      over_serial (vsnprintf_out (out_char env) true size_max format va) (length text % 2 ^ 32) m
        (visible text) (vsnprintf_out-Puts _ formats h (λ e. cc))

  pub dprintf-Writes :
      {format : List ℕ} {va : List Arg} {text : List ℕ} {n : ℕ} (m : Machine)
      → Writes format va text n
      → n < 2 ^ 64
      → Runs data_reg
          (dprintf env format va m)
          (length text % 2 ^ 32)
          (record m { use_serial = false })
          []
          (serial_bytes (visible text))
  dprintf-Writes m w h = dprintf-Runs m w.formats (omega (arith, w.short))
