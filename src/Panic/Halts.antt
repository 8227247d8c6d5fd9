-- ===== src/Panic/Halts.antt =====
-- A panic reports and then halts: `kpanic` of kernel/panic.cpp in its three forms.
use mega_os.Prelude.{
  ◌>>◌, subst, pure, ℕ, ◌<◌, ◌∙◌, ◌≢◌, ◌^◌, ◌≡◌, refl, sym, ap, false, List, [], ◌++◌, append-nil,
  append_assoc, length, some, arith, codes, M, Outcome, stopped, halt, bind, ltb, Bool-cases, inl,
  inr, get_elem?, ltb→lt, ltb→le,
}
use mega_os.Machine.{Env, Machine, Event, halt_cpu}
use mega_os.Machine.Runs.{Runs, Runs-pure, Runs-bind}
use mega_os.Machine.Trace.{shown, written}
use mega_os.Serial.{data_reg}
use mega_os.Serial.Send.{Responsive}
use mega_os.Log.Delivery.{CanPut, serial_bytes, visible, to_terminal, to_serial, kputs-Puts}
use mega_os.Log.Printf.{dprintf-Writes}
use mega_os.Frames.{Registers, InterruptFrame}
use mega_os.Panic.{kpanic, kpanic_registers, kpanic_frame, describe, exception_desc, describe_line}
use mega_os.Panic.Report.{
  banner, cause_line, cause_line-Writes, registers_report, registers_report-Writes, frame_report,
  frame_report-Writes, description, description-Writes, exception_desc-name, no_name,
}

-- The run halts with interrupts off; the terminal then shows `banner` more and the serial port has
-- been sent `report` more.
pub record Halts (outcome : Outcome Machine (Unit {0})) (m : Machine) (banner report : List ℕ)
    : Type 0 where
  pub final : List Event
  pub halts :
      outcome ≡ stopped halt (record m { trace = final; use_serial = false; interrupts_on = false })
  pub shows : shown final ≡ shown m.trace ++ banner
  pub sends : written data_reg final ≡ written data_reg m.trace ++ report

-- What a `dprintf` sends comes before what the halting rest does.
pub Halts-after :
    {A : Type 0} {o : Outcome Machine A} {value : A} {m : Machine} {chars sent report : List ℕ}
    (f : A → M Machine (Unit {0}))
    → Runs data_reg o value (record m { use_serial = false }) [] sent
    → ((t : List Event)
        → Halts
            (f value (record m { trace = t; use_serial = false }))
            (record m { trace = t; use_serial = false })
            chars
            report)
    → Halts (bind o f) m chars (sent ++ report)
Halts-after {m} {chars} {sent} {report} f first next =
    let rest = next first.final in
    record {
      final = rest.final;
      halts = rw first.returns rest.halts;
      shows = rest.shows ∙ ap (λ cs. cs ++ chars) (first.shows ∙ append-nil (shown m.trace));
      sends = rest.sends ∙ rw first.sends (append_assoc (written data_reg m.trace) sent report);
    }

module _ (env : Env) (responsive : Responsive env) where
  pub halt_cpu-Halts : (m : Machine) → m.use_serial ≡ false → Halts (halt_cpu m) m [] []
  unfolding halt_cpu
  halt_cpu-Halts m e = record {
    final = m.trace;
    halts = rw e refl;
    shows = sym (append-nil _);
    sends = sym (append-nil _);
  }

  -- On a responsive port, with `log::write` set wherever `use_serial` is false, `kpanic` with a
  -- cause shorter than 2^32 puts its line where `use_serial` says, sends the cause over the serial
  -- port, and halts with interrupts off.
  kpanic-Halts :
      (cause : List ℕ) (m : Machine)
      → length cause < 2 ^ 32
      → CanPut m
      → Halts
          (kpanic env cause m)
          m
          (to_terminal m.use_serial banner)
          (to_serial m.use_serial banner ++ serial_bytes (visible (cause_line cause)))
  unfolding kpanic
  kpanic-Halts cause m h can =
      let first =
        kputs-Puts env responsive
          (codes "\u{1b}[31mKERNEL PANIC OCCURED, CHECK LOGS ON HOST MACHINE !") m can in
      let rest =
        Halts-after {m = record m { trace = first.final }} {chars = []} {report = []}
          (λ _. halt_cpu)
          (dprintf-Writes env responsive (record m { trace = first.final })
            (cause_line-Writes cause h) (omega arith))
          (λ t. halt_cpu-Halts _ refl) in
      record {
        final = rest.final;
        halts = rw first.returns rest.halts;
        shows = rest.shows ∙ append-nil _ ∙ first.shows;
        sends =
            rest.sends
            ∙ rw (append-nil (serial_bytes (visible (cause_line cause))), first.sends)
                (append_assoc (written data_reg m.trace) (to_serial m.use_serial banner)
                  (serial_bytes (visible (cause_line cause))));
      }

  -- With registers, `kpanic` sends them before the cause; its own line is on the terminal then.
  kpanic_registers-Halts :
      (cause : List ℕ) (r : Registers) (m : Machine)
      → length cause < 2 ^ 32
      → m.write ≢ 0
      → Halts
          (kpanic_registers env cause (some r) m)
          m
          banner
          (serial_bytes (visible (registers_report r)) ++ serial_bytes (visible (cause_line cause)))
  unfolding kpanic_registers
  kpanic_registers-Halts cause r m h can =
      Halts-after (λ sent. kpanic env cause)
        (dprintf-Writes env responsive m (registers_report-Writes r) (omega arith))
        (λ t. kpanic-Halts cause _ h (λ e. can))

  described :
      (desc : List ℕ) (m : Machine)
      → length desc < 100
      → Runs data_reg
          (describe_line env (some desc) (record m { use_serial = false }))
          tt
          (record m { use_serial = false })
          []
          (serial_bytes (visible (description (some desc))))
  described desc m h = subst (Runs data_reg _ tt _ []) (append-nil _) (
      Runs-bind data_reg (λ (_ : ℕ). pure tt) tt [] []
        (dprintf-Writes env responsive (record m { use_serial = false }) (description-Writes desc h)
          (omega arith))
        (λ t. Runs-pure data_reg tt _))

  -- What `describe` sends, where `use_serial` is false already.
  describe-Runs :
      (int_no : ℕ) (m : Machine)
      → Runs data_reg
          (describe env int_no (record m { use_serial = false }))
          tt
          (record m { use_serial = false })
          []
          (serial_bytes (visible (description (get_elem? exception_desc int_no))))
  describe-Runs int_no m = elim (Bool-cases (ltb int_no 32)) [
    | inl named ↦
        let (desc, (found, short)) = exception_desc-name int_no (ltb→lt _ _ named) in
        rw (named, found) (described desc m short)
    | inr unnamed ↦ rw (unnamed, no_name int_no (ltb→le _ _ unnamed)) (Runs-pure data_reg tt _)
  ]

  -- On a responsive port and with the terminal set, `kpanic` with a cause shorter than 2^32 and a
  -- frame shows its line on the terminal, sends the frame, the name of the exception with that
  -- number if it is one of the 32, the registers and the cause over the serial port, and halts
  -- with interrupts off.
  pub kpanic_frame-Halts :
      (cause : List ℕ) (f : InterruptFrame) (m : Machine)
      → length cause < 2 ^ 32
      → m.write ≢ 0
      → Halts (kpanic_frame env cause (some f) m) m banner (
          serial_bytes (visible (frame_report f))
          ++ (serial_bytes (visible (description (get_elem? exception_desc f.int_no)))
              ++ (serial_bytes (visible (registers_report f.gprs))
                  ++ serial_bytes (visible (cause_line cause)))))
  unfolding kpanic_frame
  kpanic_frame-Halts cause f m h can =
      Halts-after (λ sent. describe env f.int_no >> kpanic_registers env cause (some f.gprs))
        (dprintf-Writes env responsive m (frame_report-Writes f) (omega arith))
        (λ t.
          Halts-after (λ _. kpanic_registers env cause (some f.gprs))
            (describe-Runs f.int_no (record m { trace = t }))
            (λ u. kpanic_registers-Halts cause f.gprs _ h can))
