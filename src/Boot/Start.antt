-- ===== src/Boot/Start.antt =====
-- The boot as a whole: from the state in which the loader leaves the kernel to the endless loop at the
-- end of `_start`.
use mega_os.Prelude.{
  ℕ, ◌<◌, ◌≢◌, ◌≡◌, refl, sym, ap, ◌∙◌, true, false, List, [], ◌∷◌, ◌++◌, append-nil, some, ◌==◌,
  length, arith, codes, Outcome, done, stopped, spin,
}
use mega_os.Machine.{Env, Machine, Event, inb, outb, wait, in_byte, out_byte}
use mega_os.Machine.Trace.{shown}
use mega_os.Serial.{data_reg}
use mega_os.Serial.Init.{until_echo, init-Runs}
use mega_os.Serial.Send.{Responsive}
use mega_os.Printf.Directive.{word, str}
use mega_os.Printf.Format.Pieces.{Writes, plain, chars, dec, nothing, within, dec_text}
use mega_os.Log.Delivery.{visible, dputs-Runs}
use mega_os.Log.Printf.{kprintf-Puts, dprintf-Writes}
use mega_os.Gdt.{entry_count}
use mega_os.Gdt.Table.{kernel_table, install-kernel_table}
use mega_os.Idt.Table.{kernel_idt}
use mega_os.Idt.Install.{install-Installs}
use mega_os.Isr.Dispatch.{installed}
use mega_os.Pic.{data_port_of, remap, remap_pic, mpic_command, mpic_data, spic_command, spic_data}
use mega_os.Pic.Masks.{clear_irq_mask-Masks}
use mega_os.Boot.{
  BootInfo, Layout, Tag, terminal_id, found, get_write_function, init, init_write, start,
  run_kernel,
}
use mega_os.Boot.Tags.{Chain, first_with, function_of, get_write_function-function_of}

-- The static variables as the loader leaves them, in a machine that is otherwise `m`.
abbrev pub loaded : Machine → Machine
loaded m = record m {
  write = 0;
  use_serial = false;
  key_up = 0;
  gdt_installed = false;
  idt_installed = false;
}

-- The greeting on the terminal.
abbrev pub greeting : BootInfo → List ℕ
greeting info = codes "Mega OS - " ++ (info.brand ++ (codes " " ++ (info.version ++ codes "\n\n")))

greeting-Writes :
    (info : BootInfo)
    → length info.brand < 64
    → length info.version < 64
    → Writes
        (codes "Mega OS - %s %s\n\n")
        (str 0 info.brand ∷ str 0 info.version ∷ [])
        (greeting info)
        1000
greeting-Writes info hb hv = within (omega arith) (
    plain (codes "Mega OS - ") refl (
      chars 0 info.brand (omega arith) (
        plain (codes " ") refl
          (chars 0 info.version (omega arith) (plain (codes "\n\n") refl nothing)))))

remap_line-Writes :
    Writes
      (codes "PIC remapped: PIC1 -> %d | PIC2 -> %d\n")
      (word 32 ∷ word 40 ∷ [])
      (codes "PIC remapped: PIC1 -> "
        ++ (dec_text 32 ++ (codes " | PIC2 -> " ++ (dec_text 40 ++ codes "\n"))))
      1000
remap_line-Writes = within (omega arith) (
    plain (codes "PIC remapped: PIC1 -> ") refl
      (dec 32 (plain (codes " | PIC2 -> ") refl (dec 40 (plain (codes "\n") refl nothing)))))

-- The run returns `value`, comes to the state `after` but for its trace, and shows `chars` more.
record Reaches {ℓ} {A : Type ℓ} (outcome : Outcome Machine A) (value : A) (m after : Machine)
    (chars : List ℕ) : Type ℓ where
  pub final : List Event
  pub returns : outcome ≡ done value (record after { trace = final })
  pub shows : shown final ≡ shown m.trace ++ chars

-- The run ends in the endless loop of `_start`.
pub record Boots (layout : Layout) (info : BootInfo) (tag : Tag) (m : Machine)
    (outcome : Outcome Machine (Unit {0})) : Type 0 where
  pub final : List Event
  pub ends :
      outcome
      ≡ stopped spin (record m {
        trace = final;
        write = tag.term_write;
        use_serial = false;
        key_up = 0;
        gdt = kernel_table;
        gdt_installed = true;
        idt = kernel_idt layout.exceptions layout.interrupts m.idt;
        idt_installed = true;
        handlers = installed;
        interrupts_on = true;
      })
  pub shows : shown final ≡ shown m.trace ++ visible (greeting info)

module _ (env : Env) (responsive : Responsive env) where
  -- `log::init` stores the bootloader's function.
  init-Reaches :
      (info : BootInfo) (tags : List Tag) (tag : Tag) (rounds : ℕ) (m : Machine)
      → env.reads (until_echo m.trace) data_reg ≡ 0xAE
      → Chain info.memory info.tags tags
      → length tags < rounds
      → first_with terminal_id tags ≡ found tag
      → tag.term_write ≢ 0
      → Reaches
          (init env info rounds (loaded m))
          true
          m
          (record (loaded m) { write = tag.term_write })
          []
  unfolding init init_write
  init-Reaches info tags tag rounds m echo chain enough e live =
      let serial = init-Runs env (loaded m) in
      let works : (env.reads (until_echo m.trace) data_reg == 0xAE) ≡ true =
        ap (λ v. v == 0xAE) echo in
      let function : get_write_function info rounds (record (loaded m) { trace = serial.final })
          ≡ done tag.term_write (record (loaded m) { trace = serial.final }) =
        get_write_function-function_of info rounds (record (loaded m) { trace = serial.final })
          chain enough
        ∙ ap (λ s. done (function_of s) (record (loaded m) { trace = serial.final })) e in
      let not_null : (tag.term_write == 0) ≡ false = ground arith in
      rw (serial.returns, works, function, not_null)
        (record { final = serial.final; returns = refl; shows = serial.shows })

  remap_pic-Reaches :
      (command port offset : ℕ) (m : Machine)
      → Reaches (remap_pic env command port offset m) tt m m []
  unfolding remap_pic inb outb wait
  remap_pic-Reaches command port offset m = record {
    final = _;
    returns = refl;
    shows = sym (append-nil _);
  }

  remap-Reaches :
      (m : Machine) → Reaches (remap env 32 40 m) tt m (record m { use_serial = false }) []
  unfolding remap
  remap-Reaches m =
      let master = remap_pic-Reaches mpic_command mpic_data 32 m in
      let slave = remap_pic-Reaches spic_command spic_data 40 (record m { trace = master.final }) in
      let line =
        dprintf-Writes env responsive (record m { trace = slave.final }) remap_line-Writes
          (omega arith) in
      rw (master.returns, slave.returns, line.returns)
        (record {
          final = line.final;
          returns = refl;
          shows =
              line.shows
              ∙ ap (λ cs. cs ++ []) (slave.shows ∙ append-nil _ ∙ master.shows ∙ append-nil _);
        })

  -- On a responsive serial port that returns the test byte, with a list of the bootloader's tags
  -- whose first terminal tag has a function that is not null, with brand and version below 64
  -- characters and a GDT of 7 entries, `_start` runs from the static state that the loader leaves
  -- to its endless loop. It has shown the greeting on the terminal and nothing else; the tables
  -- are made and marked installed, the handlers are set, `log::write` is the terminal's function
  -- and interrupts are on.
  pub start-Boots :
      (file : List ℕ) (layout : Layout) (info : BootInfo) (tags : List Tag) (tag : Tag) (rounds : ℕ)
      (m : Machine)
      → env.reads (until_echo m.trace) data_reg ≡ 0xAE
      → Chain info.memory info.tags tags
      → length tags < rounds
      → first_with terminal_id tags ≡ found tag
      → tag.term_write ≢ 0
      → length info.brand < 64
      → length info.version < 64
      → length m.gdt ≡ entry_count
      → Boots layout info tag m (start env file layout rounds (some info) (loaded m))
  unfolding start run_kernel
  start-Boots file layout info tags tag rounds m echo chain enough e live hb hv h =
      let ready = init-Reaches info tags tag rounds m echo chain enough e live in
      let m₁ = record (loaded m) { write = tag.term_write; trace = ready.final } in
      let greets = greeting-Writes info hb hv in
      let greeted =
        kprintf-Puts env responsive m₁ greets.formats (omega (arith, greets.short)) (λ _. live) in
      let m₂ = record m₁ { trace = greeted.final } in
      let gdt = install-kernel_table env responsive layout.gdt_address m₂ h refl in
      let m₃ = record m₂ { gdt = kernel_table; gdt_installed = true; trace = gdt.final } in
      let idt =
        install-Installs env responsive layout.exceptions layout.interrupts layout.idt_address m₃
          refl in
      let m₄ = record m₃ {
        handlers = installed;
        idt = kernel_idt layout.exceptions layout.interrupts m.idt;
        idt_installed = true;
        trace = idt.runs.final;
      } in
      let pic = remap-Reaches m₄ in
      let m₅ = record m₄ { trace = pic.final } in
      let mask = clear_irq_mask-Masks env 1 m₅ (omega arith) in
      let m₆ = record m₅ {
        trace =
            out_byte (data_port_of 1) mask.mask
            ∷ in_byte (data_port_of 1) (env.reads pic.final (data_port_of 1))
            ∷ pic.final;
        interrupts_on = true;
      } in
      let last = dputs-Runs env responsive (codes "Interrupts enabled") m₆ in
      rw
        (
          ready.returns, greeted.returns, gdt.returns, idt.runs.returns, pic.returns, mask.runs,
          last.returns,
        )
        (record {
          final = last.final;
          ends = refl;
          shows =
              last.shows
              ∙ append-nil _
              ∙ pic.shows
              ∙ append-nil _
              ∙ idt.runs.shows
              ∙ append-nil _
              ∙ idt.quiet
              ∙ gdt.shows
              ∙ append-nil _
              ∙ greeted.shows
              ∙ ap (λ cs. cs ++ visible (greeting info)) (ready.shows ∙ append-nil _);
        })
