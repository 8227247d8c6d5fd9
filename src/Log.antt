-- ===== src/Log.antt =====
-- The output functions of kernel/logging.cpp: characters and strings to the kernel's terminal
-- (`k…`) and to the serial port (`d…`), and the printf family.
pub mod Delivery
pub mod Printf
pub mod Cells
pub mod Buffer
pub mod Callback
pub mod Bounds
use mega_os.Prelude.{
  ℕ, ◌-◌, ◌^◌, Bool, true, false, List, [], ◌∷◌, Option, none, some, ◌==◌, if◌then◌else◌, M, fault,
  pure, stop, ◌>>=◌, ◌>>◌, set, length, ltb,
}
use mega_os.Machine.{Env, Kernel, Machine, term}
use mega_os.Serial
use mega_os.Printf.Output.{OutFct}
use mega_os.Printf.Directive.{Arg}
use mega_os.Printf.Format.{format_out, vsnprintf_out}

-- `kputc`: a call of the bootloader's function, or through a null pointer.
unfoldable pub kputc : ℕ → Kernel (Unit {0})
kputc c m = if m.write == 0 then stop fault m else pure tt (record m { trace = term c ∷ m.trace })

-- `use_serial = …`
abbrev pub set_serial : Bool → Kernel (Unit {0})
set_serial b m = pure tt (record m { use_serial = b })

-- `_out_fct` over a function of the caller
unfoldable pub out_fct {ℓ} : {S : Type ℓ} → (ℕ → M S (Unit {0})) → OutFct S
out_fct fct c idx maxlen = if c == 0 then pure tt else fct c

-- `_out_buffer`. The state is the array behind `buffer`; a write past its end is a fault.
unfoldable pub out_buffer : OutFct (List ℕ)
out_buffer c idx maxlen buffer =
    if ltb idx maxlen
    then (if ltb idx (length buffer) then pure tt (set buffer idx c) else stop fault buffer)
    else pure tt buffer

-- `(size_t) -1`
abbrev pub size_max : ℕ
size_max = 2 ^ 64 - 1

module _ (env : Env) where
  -- `dputc`
  unfoldable pub dputc : ℕ → Kernel (Unit {0})
  dputc c = if c == b'\n' then Serial.send env b'\r' >> Serial.send env c else Serial.send env c

  -- `putchar`: `out_char_funcs[use_serial](c)`
  unfoldable pub putchar : ℕ → Kernel (Unit {0})
  putchar c m = if m.use_serial then dputc c m else kputc c m

  -- `for (size_t i = 0; string[i] != '\0'; ++i) putchar(string[i]);`
  unfoldable pub put_string : List ℕ → Kernel (Unit {0})
  put_string [] = pure tt
  put_string (c ∷ cs) = do putchar c; put_string cs

  -- `kprint`; no string is the null pointer
  unfoldable pub kprint : Option (List ℕ) → Kernel ℕ
  unfolding put_string
  kprint none = pure 0
  kprint (some string) = do put_string string; pure 1

  -- `kputs`
  unfoldable pub kputs : Option (List ℕ) → Kernel ℕ
  unfolding put_string
  kputs none = pure 0
  kputs (some string) = do put_string string; putchar b'\n'; pure 1

  -- `dprint`
  unfoldable pub dprint : Option (List ℕ) → Kernel ℕ
  dprint string = do set_serial true; ret ← kprint string; set_serial false; pure ret

  -- `dputs`
  unfoldable pub dputs : Option (List ℕ) → Kernel ℕ
  dputs string = do set_serial true; ret ← kputs string; set_serial false; pure ret

  -- `_out_char`
  unfoldable pub out_char : OutFct Machine
  out_char c idx maxlen = if c == 0 then pure tt else putchar c

  -- `kprintf`, and `vprintf`, whose arguments come as a `va_list`
  unfoldable pub kprintf : List ℕ → List Arg → Kernel ℕ
  kprintf format va = vsnprintf_out out_char true size_max format va

  -- `dprintf`
  unfoldable pub dprintf : List ℕ → List Arg → Kernel ℕ
  dprintf format va = do
    set_serial true
    ret ← vsnprintf_out out_char true size_max format va
    set_serial false
    pure ret

-- `snprintf` and `vsnprintf` into a buffer, the state; `none` as a buffer has no state to write.
unfoldable pub snprintf : ℕ → List ℕ → List Arg → M (List ℕ) ℕ
snprintf count format va = vsnprintf_out out_buffer true count format va

-- `snprintf` and `vsnprintf` with a null buffer
unfoldable pub snprintf_null : ℕ → List ℕ → List Arg → M (Unit {0}) ℕ
snprintf_null count format va = vsnprintf_out (λ c idx maxlen s. stop fault s) false count format va

-- `sprintf`
unfoldable pub sprintf : List ℕ → List Arg → M (List ℕ) ℕ
sprintf format va = vsnprintf_out out_buffer true size_max format va

-- `fctprintf`
unfoldable pub fctprintf {ℓ} : {S : Type ℓ} → (ℕ → M S (Unit {0})) → List ℕ → List Arg → M S ℕ
fctprintf fct format va = vsnprintf_out (out_fct fct) true size_max format va
