-- ===== src/Pic/Remap.antt =====
-- `remap_pic`, `remap` and `send_eoi`: what the controllers are sent.
use mega_os.Prelude.{
  ℕ, ◌%◌, ◌^◌, ◌<◌, ◌≤◌, ◌≡◌, refl, Bool, ◌∷◌, List, [], arith, append-nil, sym, leb, pure,
}
use mega_os.Machine.{Env, Machine, Event, out_byte, in_byte, inb, outb, wait}
use mega_os.Machine.Runs.{Runs}
use mega_os.Pic.{mpic_command, spic_command, mpic_data, spic_data, remap_pic, send_eoi, eoi}

-- The set-up of an 8259A, last access first: initialisation with a fourth word, the offset, the
-- wiring, 8086 mode, and the mask it had; a write to port 0x80 gives it time to settle.
abbrev pub set_up : ℕ → ℕ → ℕ → ℕ → ℕ → List Event → List Event
set_up command port wiring offset mask before =
    out_byte port mask
    ∷ out_byte 0x80 0
    ∷ out_byte port 0x01
    ∷ out_byte 0x80 0
    ∷ out_byte port wiring
    ∷ out_byte 0x80 0
    ∷ out_byte port (offset % 256)
    ∷ out_byte 0x80 0
    ∷ out_byte command 0x11
    ∷ in_byte port mask
    ∷ before

-- `remap_pic` returns, and all that it changes is what the ports have seen: in this order, a read
-- of the data port (0x21 or 0xA1), 0x11 to the command port (0x20 or 0xA0), and to the data port
-- the offset modulo 256, the wiring (4 for the first controller, 2 for the second), 1, and what
-- was read, with a write of 0 to port 0x80 behind each of the first four bytes sent.
pub remap_pic-set_up :
    (env : Env) (offset : ℕ) (m : Machine)
    → (remap_pic env mpic_command mpic_data offset m
        ≡ pure tt (record m { trace = set_up 0x20 0x21 4 offset (env.reads m.trace 0x21) m.trace }))
      × (remap_pic env spic_command spic_data offset m
          ≡ pure tt
              (record m { trace = set_up 0xA0 0xA1 2 offset (env.reads m.trace 0xA1) m.trace }))
unfolding remap_pic inb outb wait
remap_pic-set_up env offset m =
    let master : env.reads m.trace 0x21 % 2 ^ 8 ≡ env.reads m.trace 0x21 =
      omega (arith, env.reads-lt m.trace 0x21) in
    let slave : env.reads m.trace 0xA1 % 2 ^ 8 ≡ env.reads m.trace 0xA1 =
      omega (arith, env.reads-lt m.trace 0xA1) in
    (rw master refl, rw slave refl)

-- `send_eoi` of a vector from 32 to 255 always ends the interrupt on both controllers.
pub send_eoi-both :
    (vector : ℕ) (m : Machine)
    → 32 ≤ vector
    → vector < 256
    → Runs mpic_command (send_eoi vector m) tt m [] (eoi ∷ [])
      × Runs spic_command (send_eoi vector m) tt m [] (eoi ∷ [])
unfolding send_eoi outb
send_eoi-both vector m h lt =
    let slave : leb 8 (vector % 2 ^ 8) ≡ Bool.true = ground arith in
    rw slave (
      record { final = _; returns = refl; shows = sym (append-nil _); sends = refl },
      record { final = _; returns = refl; shows = sym (append-nil _); sends = refl },
    )
