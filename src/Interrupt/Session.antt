-- ===== src/Interrupt/Session.antt =====
-- The kernel from its start on: the boot, and then any number of requests.
use mega_os.Prelude.{
  ℕ, ◌<◌, ◌≢◌, ◌≡◌, sym, ap, ◌∙◌, subst, true, false, List, ◌++◌, append_assoc, some, length,
  stopped, spin,
}
use mega_os.Machine.{Env, Machine}
use mega_os.Machine.Trace.{shown}
use mega_os.Serial.Send.{Responsive}
use mega_os.Serial.{data_reg}
use mega_os.Serial.Init.{until_echo}
use mega_os.Log.Delivery.{visible}
use mega_os.Gdt.{entry_count}
use mega_os.Gdt.Table.{kernel_table}
use mega_os.Idt.Table.{kernel_idt}
use mega_os.Isr.Dispatch.{installed}
use mega_os.Boot.{BootInfo, Layout, Tag, terminal_id, found, start}
use mega_os.Boot.Tags.{Chain, first_with}
use mega_os.Boot.Start.{loaded, greeting, start-Boots}
use mega_os.Keyboard.Shift.{Switches}
use mega_os.Interrupt.Life.{Reach, Reach-Lives, typed_all, up, last_state}

-- No key is held down.
abbrev pub released : Switches
released = record { shift = false; caps = false }

-- The kernel shows the greeting and what is typed, and its tables and handlers are as the boot has
-- made them.
pub record IsSession (layout : Layout) (info : BootInfo) (m u : Machine) (codes : List ℕ)
    : Type 0 where
  pub shows : shown u.trace ≡ shown m.trace ++ (visible (greeting info) ++ typed_all codes released)
  pub gdt : u.gdt ≡ kernel_table
  pub idt : u.idt ≡ kernel_idt layout.exceptions layout.interrupts m.idt
  pub handlers : u.handlers ≡ installed

-- After a boot as in `start-Boots`, whatever interrupt requests of vectors 32 to 47 the kernel
-- takes while interrupts are on in it and in the program that is interrupted, the terminal shows
-- what it showed before, the greeting and what the scan codes read since then type, starting with
-- no key held down; the two tables and the handlers are as the boot has made them.
pub Reach-IsSession :
    (env : Env) (responsive : Responsive env) (file : List ℕ) (layout : Layout) (info : BootInfo)
    (tags : List Tag) (tag : Tag) (rounds : ℕ) (m : Machine) {codes : List ℕ} {booted u : Machine}
    → env.reads (until_echo m.trace) data_reg ≡ 0xAE
    → Chain info.memory info.tags tags
    → length tags < rounds
    → first_with terminal_id tags ≡ found tag
    → tag.term_write ≢ 0
    → length info.brand < 64
    → length info.version < 64
    → length m.gdt ≡ entry_count
    → start env file layout rounds (some info) (loaded m) ≡ stopped spin booted
    → Reach env file booted codes u
    → IsSession layout info m u codes
Reach-IsSession env responsive file layout info tags tag rounds m {codes} {booted} {u} echo chain
      enough e live hb hv h boots r =
    let boot =
      start-Boots env responsive file layout info tags tag rounds m echo chain enough e live hb hv
        h in
    let m' = record m {
      write = tag.term_write;
      gdt = kernel_table;
      gdt_installed = true;
      idt = kernel_idt layout.exceptions layout.interrupts m.idt;
      idt_installed = true;
    } in
    let same : booted ≡ up m' released boot.final = ap last_state (sym boots ∙ boot.ends) in
    let lives =
      Reach-Lives env file responsive m' released boot.final live
        (subst (λ b. Reach env file b codes u) same r) in
    record {
      shows =
          ap (λ (u' : Machine). shown u'.trace) lives.is_up
          ∙ lives.shows
          ∙ ap (λ cs. cs ++ typed_all codes released) boot.shows
          ∙ append_assoc (shown m.trace) (visible (greeting info)) (typed_all codes released);
      gdt = ap (λ (u' : Machine). u'.gdt) lives.is_up;
      idt = ap (λ (u' : Machine). u'.idt) lives.is_up;
      handlers = ap (λ (u' : Machine). u'.handlers) lives.is_up;
    }
