-- ===== src/Idt/Install.antt =====
-- The run of `IDT::install` (kernel/arch/x86_64/idt.cpp), and the gates that it leaves.
use mega_os.Prelude.{
  ℕ, ◌-◌, ◌<◌, ◌≡◌, refl, ap, ◌∙◌, sym, true, false, List, [], ◌∷◌, ◌++◌, some, length, get_elem?,
  codes, arith, done, Outcome, ltb, if◌then◌else◌, subst, append-nil,
}
use mega_os.Machine.{Env, Machine, Event, load_idt}
use mega_os.Machine.Runs.{Runs}
use mega_os.Machine.Trace.{written, shown}
use mega_os.Serial.{data_reg}
use mega_os.Serial.Send.{Responsive}
use mega_os.Printf.Directive.{word}
use mega_os.Printf.Format.Pieces.{Writes, plain, hex, nothing, within, hex_text}
use mega_os.Log.Delivery.{serial_bytes, visible, dputs-Runs}
use mega_os.Log.Printf.{dprintf-Writes}
use mega_os.Isr
use mega_os.Isr.Dispatch.{installed}
use mega_os.Idt.{entry_count, gate, type_attr, table_word, install, installed_format}
use mega_os.Idt.Table.{kernel_idt, kernel_idt-gates, make_entries-filled, filled}

-- The message on the serial port.
abbrev pub idt_line : ℕ → List ℕ
idt_line address =
    codes "IDT successfully installed: "
    ++ (hex_text address ++ (codes " " ++ (hex_text 4095 ++ codes "\n")))

idt_line-Writes :
    (address : ℕ) → Writes installed_format (word address ∷ word 4095 ∷ []) (idt_line address) 1000
idt_line-Writes address = within (omega arith) (
    plain (codes "IDT successfully installed: ") refl
      (hex address (plain (codes " ") refl (hex 4095 (plain (codes "\n") refl nothing)))))

abbrev pub isr_line : List ℕ
isr_line = codes "ISR successfully installed\n"

-- The run of `IDT::install` has loaded a table of 256 gates with its limit (its size less 1) and set
-- up the handlers of `isr`; both report that on the serial port.
pub record Installs (exceptions interrupts : ℕ → ℕ) (address : ℕ) (m : Machine)
    (outcome : Outcome Machine (Unit {0})) : Type 0 where
  pub before : List Event
  pub quiet : shown before ≡ shown m.trace
  pub reported : written data_reg before ≡ written data_reg m.trace ++ serial_bytes isr_line
  pub runs :
      Runs data_reg outcome tt
        (record m {
          handlers = installed;
          idt = kernel_idt exceptions interrupts m.idt;
          idt_installed = true;
          use_serial = false;
          trace = load_idt 4095 address ∷ before;
        })
        []
        (serial_bytes (visible (idt_line address)))

table_word-beyond :
    (words : List ℕ) (beyond : ℕ → ℕ) → table_word words beyond (length words) ≡ beyond 0
table_word-beyond [] beyond = refl
table_word-beyond (w ∷ words) beyond = table_word-beyond words beyond

module _ (env : Env) (responsive : Responsive env) where
  first-Installs :
      (exceptions interrupts : ℕ → ℕ) (address : ℕ) (m : Machine)
      → Installs exceptions interrupts address
          (record m { idt_installed = false })
          (install env exceptions interrupts address (record m { idt_installed = false }))
  unfolding install Isr.install
  first-Installs exceptions interrupts address m =
      let m₀ = record m { idt_installed = false; handlers = installed } in
      let isr = dputs-Runs env responsive (codes "ISR successfully installed") m₀ in
      let m₁ = record m₀ { use_serial = false; trace = isr.final } in
      let made₁ = make_entries-filled exceptions 32 0 0 m₁ (omega arith) in
      let m₂ = record m₁ { idt = filled exceptions 32 0 0 m.idt } in
      let made₂ = make_entries-filled interrupts 224 32 0 m₂ (omega arith) in
      let m₃ = record m₂ {
        idt = kernel_idt exceptions interrupts m.idt;
        trace = load_idt 4095 address ∷ isr.final;
        idt_installed = true;
      } in
      let line = dprintf-Writes env responsive m₃ (idt_line-Writes address) (omega arith) in
      record {
        before = isr.final;
        quiet = isr.shows ∙ append-nil _;
        reported = isr.sends;
        runs =
            rw (isr.returns, made₁, made₂, line.returns)
              (record {
                final = line.final;
                returns = refl;
                shows = line.shows;
                sends = line.sends;
              });
      }

  -- On a responsive port the first `IDT::install` sets up the handlers of `isr` and reports that,
  -- then fills the table by its two loops, loads it with its size less 1 as the limit, marks it
  -- installed and reports that on the serial port.
  pub install-Installs :
      (exceptions interrupts : ℕ → ℕ) (address : ℕ) (m : Machine)
      → m.idt_installed ≡ false
      → Installs exceptions interrupts address m (install env exceptions interrupts address m)
  install-Installs exceptions interrupts address m first =
      subst
        (λ b.
          Installs exceptions interrupts address (record m { idt_installed = b })
            (install env exceptions interrupts address (record m { idt_installed = b })))
        (sym first) (first-Installs exceptions interrupts address m)

  -- On a responsive port the first `IDT::install` over a table of 256 entries returns, and for
  -- each of the 256 vectors the table then has the gate with the address that the stubs' table for
  -- exceptions (below 32) or for interrupts has for it.
  pub install-gate :
      (exceptions interrupts : ℕ → ℕ) (address : ℕ) (m : Machine) (vector : ℕ)
      → m.idt_installed ≡ false
      → length m.idt ≡ entry_count
      → vector < 256
      → (m' : Machine) × (install env exceptions interrupts address m ≡ done tt m')
        × (get_elem? m'.idt vector
            ≡ some (
                gate
                  (if ltb vector 32 then exceptions vector else interrupts (vector - 32))
                  type_attr))
  install-gate exceptions interrupts address m vector first h lt =
      let run = (install-Installs exceptions interrupts address m first).runs in
      (_, run.returns, kernel_idt-gates exceptions interrupts m.idt vector h lt)

  -- With the 223 stubs that isr.asm has for interrupts, on a responsive port, over a table of 256
  -- entries that is not installed, `IDT::install` gives vector 255 the word behind the end of
  -- their table as its address.
  pub install-vector_255 :
      (exceptions : ℕ → ℕ) (words : List ℕ) (beyond : ℕ → ℕ) (address : ℕ) (m : Machine)
      → m.idt_installed ≡ false
      → length m.idt ≡ entry_count
      → length words ≡ 223
      → (m' : Machine) × (install env exceptions (table_word words beyond) address m ≡ done tt m')
        × (get_elem? m'.idt 255 ≡ some (gate (beyond 0) type_attr))
  install-vector_255 exceptions words beyond address m first h e =
      let (m', runs, at) =
        install-gate exceptions (table_word words beyond) address m 255 first h (omega arith) in
      let outside : table_word words beyond 223 ≡ beyond 0 =
        subst (λ i. table_word words beyond i ≡ beyond 0) e (table_word-beyond words beyond) in
      (m', runs, at ∙ ap (λ w. some (gate w type_attr)) outside)
