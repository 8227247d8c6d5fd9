-- ===== src/Log/Bounds.antt =====
-- The printf family of kernel/logging.cpp on any format and any arguments, also those that describe no text.
use mega_os.Prelude.{
  zero, suc, bit_and, ◌==◌, ℕ, ◌≤◌, ◌≡◌, ◌≢◌, refl, ap, ◌∙◌, Bool, true, false, List, length,
  length-set, get_elem?, get_elem?-set_ne, ltb, ltb→lt, arith, Bool-cases, inl, inr, if◌then◌else◌,
  Outcome,
}
use mega_os.Printf.Directive.{Arg}
use mega_os.Printf.Format.{vsnprintf_out}
use mega_os.Printf.Format.Keeps.{Keeps, Keeps-if, Keeps-bind, Keeps-format_out}
use mega_os.Machine.{Env, Machine, Event, inb, outb}
use mega_os.Serial.{wait_ready, send, line_sr, temt_mask}
use mega_os.Log.{out_buffer, snprintf, kputc, dputc, putchar, out_char, kprintf, size_max}

-- An array of the same size, with the same cells from `count` on.
abbrev pub IsWithin : ℕ → List ℕ → List ℕ → Type 0
IsWithin count buffer after =
    (length after ≡ length buffer) × ((i : ℕ) → count ≤ i → get_elem? after i ≡ get_elem? buffer i)

out_buffer-IsWithin :
    (count : ℕ) (buffer : List ℕ) (c idx : ℕ) (cells : List ℕ)
    → IsWithin count buffer cells
    → Keeps (IsWithin count buffer) (out_buffer c idx count cells)
unfolding out_buffer
out_buffer-IsWithin count buffer c idx cells (same, rest) = elim (Bool-cases (ltb idx count)) [
  | inl below ↦
      let apart : (i : ℕ) → count ≤ i → idx ≢ i = λ i h e. omega (arith, ltb→lt _ _ below) in
      elim (Bool-cases (ltb idx (length cells))) [
        | inl inside ↦
            rw (below, inside)
              (
                length-set cells idx c ∙ same,
                λ i h. get_elem?-set_ne cells idx i c (apart i h) ∙ rest i h,
              )
        | inr outside ↦ rw (below, outside) (same, rest)
      ]
  | inr above ↦ rw above (same, rest)
]

-- Whatever the format, the arguments, the count and the buffer, and whether `snprintf` returns or
-- stops by a fault, the buffer it leaves has its size, and its cells from the count on are as
-- before.
pub snprintf-IsWithin :
    (count : ℕ) (format : List ℕ) (va : List Arg) (buffer : List ℕ)
    → Keeps (IsWithin count buffer) (snprintf count format va buffer)
unfolding snprintf vsnprintf_out
snprintf-IsWithin count format va buffer =
    Keeps-format_out (IsWithin count buffer) out_buffer count (out_buffer-IsWithin count buffer)
      format va buffer (refl, λ i h. refl)

-- The state of before but for the events.
abbrev pub IsTraced : Machine → Machine → Type 0
IsTraced m u = u ≡ record m { trace = u.trace }

module _ (env : Env) (m : Machine) where
  traced : (t : List Event) (u : Machine) → IsTraced m u → IsTraced m (record u { trace = t })
  traced t u h = ap (λ (v : Machine). record v { trace = t }) h

  chosen :
      (b : Bool) (o p : Outcome Machine (Unit {0}))
      → Keeps (IsTraced m) o
      → Keeps (IsTraced m) p
      → Keeps (IsTraced m) (if b then o else p)
  chosen true o p h k = h
  chosen false o p h k = k

  wait_ready-IsTraced :
      (rounds : ℕ) (u : Machine) → IsTraced m u → Keeps (IsTraced m) (wait_ready env rounds u)
  unfolding wait_ready inb
  wait_ready-IsTraced zero u h = h
  wait_ready-IsTraced (suc rounds) u h =
      Keeps-if (IsTraced m) (bit_and (env.reads u.trace line_sr) temt_mask == 0) _ _ _
        (wait_ready-IsTraced rounds _ (traced _ u h)) (traced _ u h)

  send-IsTraced : (c : ℕ) (u : Machine) → IsTraced m u → Keeps (IsTraced m) (send env c u)
  unfolding send outb
  send-IsTraced c u h =
      Keeps-bind (IsTraced m) _ _ (wait_ready-IsTraced env.polls u h) (λ _ v. λ k. traced _ v k)

  kputc-IsTraced : (c : ℕ) (u : Machine) → IsTraced m u → Keeps (IsTraced m) (kputc c u)
  unfolding kputc
  kputc-IsTraced c u h = elim (Bool-cases (u.write == 0)) [
    | inl null ↦ rw null h
    | inr live ↦ rw live (traced _ u h)
  ]

  dputc-IsTraced : (c : ℕ) (u : Machine) → IsTraced m u → Keeps (IsTraced m) (dputc env c u)
  unfolding dputc
  dputc-IsTraced c u h =
      Keeps-if (IsTraced m) (c == b'\n') _ _ u
        (Keeps-bind (IsTraced m) _ _ (send-IsTraced b'\r' u h) (λ _ v. send-IsTraced c v))
        (send-IsTraced c u h)

  out_char-IsTraced :
      (c idx : ℕ) (u : Machine) → IsTraced m u → Keeps (IsTraced m) (out_char env c idx size_max u)
  unfolding out_char putchar
  out_char-IsTraced c idx u h =
      Keeps-if (IsTraced m) (c == 0) _ _ u h
        (chosen u.use_serial _ _ (dputc-IsTraced c u h) (kputc-IsTraced c u h))

  -- Whatever the format and the arguments, whatever the serial port answers, and whether `kprintf`
  -- returns or stops, the state it leaves is the one it started in but for the events.
  pub kprintf-IsTraced :
      (format : List ℕ) (va : List Arg) → Keeps (IsTraced m) (kprintf env format va m)
  unfolding kprintf vsnprintf_out
  kprintf-IsTraced format va =
      Keeps-format_out (IsTraced m) (out_char env) size_max out_char-IsTraced format va m refl
