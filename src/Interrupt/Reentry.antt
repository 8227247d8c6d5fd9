-- ===== src/Interrupt/Reentry.antt =====
-- An interrupt request in the middle of a string that `dprint` puts out (kernel/logging.cpp); the `dputs` at
-- the end of `_start` (kernel/kernel.cpp) runs with interrupts on.
use mega_os.Prelude.{
  sym, ℕ, ◌<◌, ◌≤◌, ◌≢◌, ◌≡◌, refl, ap, ◌∙◌, true, false, List, ◌∷◌, ◌++◌, append-nil, append_assoc,
  ◌>>=◌, ◌>>◌,
}
use mega_os.Machine.{Env, Kernel, Machine, Event, out_byte}
use mega_os.Machine.Runs.{Runs}
use mega_os.Machine.Trace.{shown, written}
use mega_os.Serial.{data_reg}
use mega_os.Serial.Send.{Responsive}
use mega_os.Frames.{Context}
use mega_os.Frames.Resume.{leave_stub-restores}
use mega_os.Log.{set_serial, put_string}
use mega_os.Log.Delivery.{serial_bytes, visible, put_string-Puts}
use mega_os.Keyboard.Shift.{Switches, turned, typed}
use mega_os.Keyboard.{data_port}
use mega_os.Pic.{mpic_command, spic_command, eoi}
use mega_os.Isr.Dispatch.{irq_line, irq_unhandled-Acknowledges, irq_keyboard-Acknowledges}
use mega_os.Interrupt.{take_irq, is_open}
use mega_os.Interrupt.Life.{up}

-- The string of a `dprint`, with a request between its two parts.
abbrev pub interrupted : Env → List ℕ → ℕ → Context → List ℕ → List ℕ → Kernel (Unit {0})
interrupted env file vector c front back = do
  set_serial true
  put_string env front
  ret ← take_irq env file vector c
  put_string env back
  set_serial false

module _ (env : Env) (file : List ℕ) (responsive : Responsive env) where
  -- On a responsive port, with the terminal set and handlers installed, an IRQ of a vector from 32
  -- to 254 other than 33 that comes, with interrupts on in the program, between two parts of a
  -- string of `dprint` misdirects the second part: the first part and the report of the IRQ go to
  -- the serial port, and the second part is shown on the terminal.
  pub interrupted-Runs :
      (vector : ℕ) (c : Context) (front back : List ℕ) (m : Machine) (k : Switches) (t : List Event)
      → 32 ≤ vector
      → vector < 255
      → vector ≢ 33
      → is_open c ≡ true
      → m.write ≢ 0
      → Runs data_reg
          (interrupted env file vector c front back (up m k t))
          tt
          (up m k t)
          back
          (serial_bytes front ++ serial_bytes (visible (irq_line vector)))
  unfolding take_irq
  interrupted-Runs vector c front back m k t low high other flag can =
      let m₁ = record (up m k t) { use_serial = true } in
      let first = put_string-Puts env responsive front m₁ (λ e. can) in
      let m₂ = record m₁ { trace = first.final; interrupts_on = false } in
      let served =
        irq_unhandled-Acknowledges env file responsive vector c.gprs c.back m₂ low high other
          refl in
      let t₃ = out_byte mpic_command eoi ∷ out_byte spic_command eoi ∷ served.before in
      let last = put_string-Puts env responsive back (up m k t₃) (λ e. can) in
      record {
        final = last.final;
        returns =
            rw
              (
                first.returns,
                served.returns,
                (leave_stub-restores vector 0 c).0,
                flag,
                last.returns,
              )
              refl;
        shows =
            last.shows
            ∙ ap (λ cs. cs ++ back) (served.shows ∙ append-nil _ ∙ first.shows ∙ append-nil _);
        sends =
            last.sends
            ∙ append-nil _
            ∙ served.sends
            ∙ ap (λ bs. bs ++ serial_bytes (visible (irq_line vector))) first.sends
            ∙ append_assoc (written data_reg t) (serial_bytes front) _;
      }

  -- On a responsive port, with the terminal set and handlers installed, the keyboard's IRQ, with
  -- interrupts on in the program, between two parts of a string of `dprint`, for a scan code other
  -- than the backspace's 0x0E that the port holds, does no harm to it: the whole string goes to
  -- the serial port, what the code types is on the terminal, the switches are turned, and the
  -- state is otherwise as before.
  pub interrupted_keyboard-Runs :
      (code : ℕ) (c : Context) (front back : List ℕ) (m : Machine) (k : Switches) (t : List Event)
      → ((t' : List Event) → env.reads t' data_port ≡ code)
      → code ≢ 0x0E
      → is_open c ≡ true
      → m.write ≢ 0
      → Runs data_reg
          (interrupted env file 33 c front back (up m k t))
          tt
          (up m (turned code k) t)
          (typed code k)
          (serial_bytes front ++ serial_bytes back)
  unfolding take_irq
  interrupted_keyboard-Runs code c front back m k t held plain flag can =
      let m₁ = record (up m k t) { use_serial = true } in
      let first = put_string-Puts env responsive front m₁ (λ e. can) in
      let m₂ = record m₁ { trace = first.final; interrupts_on = false } in
      let served =
        irq_keyboard-Acknowledges env file responsive c.gprs c.back k m₂ refl
          (λ e. absurd (plain (sym (held first.final) ∙ e))) can in
      let t₃ = out_byte mpic_command eoi ∷ out_byte spic_command eoi ∷ served.before in
      let k' = turned (env.reads first.final data_port) k in
      let m₃ = record (up m k' t₃) { use_serial = true } in
      let last = put_string-Puts env responsive back m₃ (λ e. can) in
      record {
        final = last.final;
        returns =
            rw
              (
                first.returns,
                served.returns,
                (leave_stub-restores 33 0 c).0,
                flag,
                last.returns,
                held first.final,
              )
              refl;
        shows =
            last.shows
            ∙ append-nil _
            ∙ served.shows
            ∙ ap (λ cs. cs ++ typed (env.reads first.final data_port) k)
                (first.shows ∙ append-nil _)
            ∙ ap (λ x. shown t ++ typed x k) (held first.final);
        sends =
            last.sends
            ∙ ap (λ bs. bs ++ serial_bytes back) (served.sends ∙ append-nil _ ∙ first.sends)
            ∙ append_assoc (written data_reg t) (serial_bytes front) _;
      }
