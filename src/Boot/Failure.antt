-- ===== src/Boot/Failure.antt =====
-- The boots of `_start` (kernel/kernel.cpp) that do not get to the greeting.
use mega_os.Prelude.{
  ℕ, ◌<◌, ◌≢◌, ◌≡◌, ◌⊎◌, ◌^◌, refl, List, [], ◌∷◌, some, none, ◌==◌, length, arith, codes,
  Bool-cases, inl, inr, stop, fault,
}
use mega_os.Machine.{halt_cpu, Env, Machine}
use mega_os.Serial.{data_reg}
use mega_os.Serial.Init.{until_echo, init-Runs}
use mega_os.Serial.Send.{Responsive}
use mega_os.Log.Delivery.{serial_bytes, visible}
use mega_os.Panic.Halts.{Halts}
use mega_os.Isr.Assertion.{Halts-bind, check-Halts, assertion_line}
use mega_os.Boot.{BootInfo, Layout, Tag, terminal_id, init, init_write, start, run_kernel}
use mega_os.Boot.Tags.{Chain, first_with, function_of, get_write_function-function_of}
use mega_os.Boot.Start.{loaded}

-- If the serial port does not return the test byte, or if the list of the bootloader's tags has no
-- terminal tag or its first one has a null function, `_start` halts with interrupts off from the
-- static state that the loader leaves: it has shown nothing, and sent the data register the
-- divisor and the test byte only.
pub start-Halts :
    (env : Env) (file : List ℕ) (layout : Layout) (info : BootInfo) (tags : List Tag) (rounds : ℕ)
    (m : Machine)
    → Chain info.memory info.tags tags
    → length tags < rounds
    → (env.reads (until_echo m.trace) data_reg ≢ 0xAE)
      ⊎ (function_of (first_with terminal_id tags) ≡ 0)
    → Halts (start env file layout rounds (some info) (loaded m)) (loaded m) [] (0x03 ∷ 0xAE ∷ [])
unfolding start run_kernel init init_write halt_cpu
start-Halts env file layout info tags rounds m chain enough bad =
    let serial = init-Runs env (loaded m) in
    elim (Bool-cases (env.reads (until_echo m.trace) data_reg == 0xAE)) [
      | inr mute ↦
          rw (serial.returns, mute)
            (record {
              final = serial.final;
              halts = refl;
              shows = serial.shows;
              sends = serial.sends;
            })
      | inl echo ↦
          let null : function_of (first_with terminal_id tags) ≡ 0 = elim bad [
            | inl wrong ↦ ground arith
            | inr e ↦ e
          ] in
          rw
            (
              serial.returns,
              echo,
              get_write_function-function_of info rounds
                  (record (loaded m) { trace = serial.final }) chain enough,
              null,
            )
            (record {
              final = serial.final;
              halts = refl;
              shows = serial.shows;
              sends = serial.sends;
            })
    ]

-- Without the bootloader's structure, on a responsive port, the assertion on it fails: its line is sent and
-- the processor halts.
pub start_null-Halts :
    (env : Env) (file : List ℕ) (responsive : Responsive env) (layout : Layout) (rounds : ℕ)
    (m : Machine)
    → length file < 2 ^ 32
    → Halts
        (start env file layout rounds none m)
        m
        []
        (serial_bytes (visible (assertion_line (codes "boot_info") file 55)))
unfolding start
start_null-Halts env file responsive layout rounds m hf =
    Halts-bind (λ _. stop fault)
      (check-Halts env file responsive (codes "boot_info") 55 m (omega arith) hf)
