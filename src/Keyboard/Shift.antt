-- ===== src/Keyboard/Shift.antt =====
-- The keyboard's interrupt as a machine of two switches, and that the handler is that machine.
use mega_os.Prelude.{
  ℕ, ◌+◌, ◌<◌, ◌≢◌, ◌≡◌, refl, ap, subst, Bool, true, false, not, ◌||◌, List, [], ◌∷◌, some, none,
  Option, arith, Outcome, pure, ltb, ◌==◌, if◌then◌else◌, get_elem?, get_or, holds_under,
  holds_under-at, ltb→lt, ==_iff, Bool-cases, inl, inr, bit_and, bit_or, bit_xor,
}
use mega_os.Machine.{Env, Machine, inb, in_byte}
use mega_os.Machine.Runs.{Runs, Runs-pure, Runs-bind}
use mega_os.Serial.{data_reg}
use mega_os.Serial.Send.{Responsive}
use mega_os.Log.{kprint}
use mega_os.Log.Delivery.{kputc-Runs, kprint-Puts, to_terminal, to_serial}
use mega_os.Keyboard.{kmap_lower, kmap_upper, data_port, handle_code, irq_handler}

-- Whether shift is held down, and whether capitals are locked.
pub record Switches : Type 0 where
  pub shift : Bool
  pub caps : Bool

-- The switches as the bits of `key_up`.
abbrev pub bits_of : Switches → ℕ
bits_of k = (if k.shift then 1 else 0) + (if k.caps then 2 else 0)

-- A scan code turns the switches …
abbrev pub turned : ℕ → Switches → Switches
turned code k =
    if code == 0x2A
    then record k { shift = true }
    else if code == 0xAA
    then record k { shift = false }
    else if code == 0x3A
    then record k { caps = not k.caps }
    else k

-- … or types something.
abbrev pub is_switch : ℕ → Bool
is_switch code = code == 0x2A || (code == 0xAA || code == 0x3A)

abbrev pub typed : ℕ → Switches → List ℕ
typed code k =
    if is_switch code
    then []
    else if code == 0x0E
    then 8 ∷ b' ' ∷ 8 ∷ []
    else if code == 0x0F
    then b'\t' ∷ []
    else if code == 0x1C
    then b'\n' ∷ []
    else if ltb code 58
    then get_or (if k.shift || k.caps then kmap_upper else kmap_lower) code 0 ∷ []
    else []

-- Both maps have a character for each code that they are asked for.
has_key : Option ℕ → ℕ → Bool
has_key none c = false
has_key (some d) c = d == c

has_key-some : (o : Option ℕ) (c : ℕ) → has_key o c ≡ true → o ≡ some c
unfolding has_key
has_key-some none c h = ground arith
has_key-some (some d) c h = ap some (ground arith)

map_key :
    (upper : Bool) (code : ℕ)
    → code < 58
    → get_elem? (if upper then kmap_upper else kmap_lower) code
      ≡ some (get_or (if upper then kmap_upper else kmap_lower) code 0)
unfolding holds_under has_key
map_key true code h =
    has_key-some _ _ (
      holds_under-at 58 (λ i. has_key (get_elem? kmap_upper i) (get_or kmap_upper i 0)) code refl h)
map_key false code h =
    has_key-some _ _ (
      holds_under-at 58 (λ i. has_key (get_elem? kmap_lower i) (get_or kmap_lower i 0)) code refl h)

-- The operations on `key_up` are those on the switches.
press_shift :
    (s c : Bool)
    → bit_or (bits_of (record { shift = s; caps = c })) 0b01
      ≡ bits_of (record { shift = true; caps = c })
press_shift true true = refl
press_shift true false = refl
press_shift false true = refl
press_shift false false = refl

release_shift :
    (s c : Bool)
    → bit_and (bits_of (record { shift = s; caps = c })) 0b10
      ≡ bits_of (record { shift = false; caps = c })
release_shift true true = refl
release_shift true false = refl
release_shift false true = refl
release_shift false false = refl

press_caps :
    (s c : Bool)
    → bit_xor (bits_of (record { shift = s; caps = c })) 0b10
      ≡ bits_of (record { shift = s; caps = not c })
press_caps true true = refl
press_caps true false = refl
press_caps false true = refl
press_caps false false = refl

upper_map :
    (s c : Bool)
    → (if bits_of (record { shift = s; caps = c }) == 0 then kmap_lower else kmap_upper)
      ≡ (if s || c then kmap_upper else kmap_lower)
upper_map true true = refl
upper_map true false = refl
upper_map false true = refl
upper_map false false = refl

-- The state with these switches.
abbrev pub with_switches : Switches → Machine → Machine
with_switches k m = record m { key_up = bits_of k }

-- Runs that are chosen by a test.
if_Runs :
    (b : Bool) {o p : Outcome Machine (Unit {0})} {m : Machine} {cs ds : List ℕ}
    → (b ≡ true → Runs data_reg o tt m cs [])
    → (b ≡ false → Runs data_reg p tt m ds [])
    → Runs data_reg (if b then o else p) tt m (if b then cs else ds) []
if_Runs true then_Runs else_Runs = then_Runs refl
if_Runs false then_Runs else_Runs = else_Runs refl

module _ (env : Env) (responsive : Responsive env) where
  erase-Runs :
      (m : Machine)
      → m.use_serial ≡ false
      → m.write ≢ 0
      → Runs data_reg (kprint env (some (8 ∷ b' ' ∷ 8 ∷ [])) m) 1 m (8 ∷ b' ' ∷ 8 ∷ []) []
  erase-Runs m terminal can =
      let cs = 8 ∷ b' ' ∷ 8 ∷ [] in
      subst (λ b. Runs data_reg (kprint env (some cs) m) 1 m (to_terminal b cs) (to_serial b cs))
        terminal (kprint-Puts env responsive cs m (λ e. can))

  -- The codes that turn no switch.
  typing-Runs :
      (code : ℕ) (k : Switches) (m : Machine)
      → (code ≡ 0x0E → m.use_serial ≡ false)
      → m.write ≢ 0
      → is_switch code ≡ false
      → Runs data_reg
          (handle_code env code (with_switches k m))
          tt
          (with_switches k m)
          (typed code k)
          []
  unfolding handle_code
  typing-Runs code k m terminal can h =
      let not_shift : (code == 0x2A) ≡ false = ground arith in
      let not_release : (code == 0xAA) ≡ false = ground arith in
      let not_caps : (code == 0x3A) ≡ false = ground arith in
      rw (not_shift, not_release, not_caps, upper_map k.shift k.caps)
        (if_Runs (code == 0x0E)
          (λ e.
            Runs-bind data_reg (λ (_ : ℕ). pure tt) tt [] []
              (erase-Runs (with_switches k m) (terminal ((==_iff _ _).0 e)) can)
              (λ t. Runs-pure data_reg tt _))
          (λ e.
            if_Runs (code == 0x0F) (λ e. kputc-Runs 9 _ can)
              (λ e.
                if_Runs (code == 0x1C) (λ e. kputc-Runs 10 _ can)
                  (λ e.
                    if_Runs (ltb code 58)
                      (λ key.
                        rw (map_key (k.shift || k.caps) code (ltb→lt code 58 key))
                          (kputc-Runs _ _ can))
                      (λ e. Runs-pure data_reg tt _)))))

  -- The codes that turn a switch.
  switch-Runs :
      (code : ℕ) (k : Switches) (m : Machine)
      → is_switch code ≡ true
      → Runs data_reg
          (handle_code env code (with_switches k m))
          tt
          (with_switches (turned code k) m)
          (typed code k)
          []
  unfolding handle_code
  switch-Runs code k m switch = elim (Bool-cases (code == 0x2A)) [
    | inl h ↦ rw (switch, h, press_shift k.shift k.caps) (Runs-pure data_reg tt _)
    | inr not_shift ↦ elim (Bool-cases (code == 0xAA)) [
      | inl h ↦ rw (switch, not_shift, h, release_shift k.shift k.caps) (Runs-pure data_reg tt _)
      | inr not_release ↦
          let h : (code == 0x3A) ≡ true = ground arith in
          rw (switch, not_shift, not_release, h, press_caps k.shift k.caps)
            (Runs-pure data_reg tt _)
    ]
  ]

  handle_code-Runs :
      (code : ℕ) (k : Switches) (m : Machine)
      → (code ≡ 0x0E → m.use_serial ≡ false)
      → m.write ≢ 0
      → Runs data_reg
          (handle_code env code (with_switches k m))
          tt
          (with_switches (turned code k) m)
          (typed code k)
          []
  handle_code-Runs code k m terminal can = elim (Bool-cases (is_switch code)) [
    | inl switch ↦ switch-Runs code k m switch
    | inr other ↦
        let not_shift : (code == 0x2A) ≡ false = ground arith in
        let not_release : (code == 0xAA) ≡ false = ground arith in
        let not_caps : (code == 0x3A) ≡ false = ground arith in
        let same : turned code k ≡ k = rw (not_shift, not_release, not_caps) refl in
        rw same (typing-Runs code k m terminal can other)
  ]

  -- On a responsive port, with the terminal set, and with `use_serial` false if the scan code read
  -- is the backspace's 0x0E, the keyboard's handler turns two switches, shift and capitals, by the
  -- scan code that it reads, shows what the code types, sends nothing over the serial port, and
  -- changes nothing else.
  pub irq_handler-Runs :
      (k : Switches) (m : Machine)
      → (env.reads m.trace data_port ≡ 0x0E → m.use_serial ≡ false)
      → m.write ≢ 0
      → Runs data_reg
          (irq_handler env (with_switches k m))
          tt
          (with_switches (turned (env.reads m.trace data_port) k) m)
          (typed (env.reads m.trace data_port) k)
          []
  unfolding irq_handler inb
  irq_handler-Runs k m terminal can =
      let code = env.reads m.trace data_port in
      let rest =
        handle_code-Runs code k (record m { trace = in_byte data_port code ∷ m.trace }) terminal
          can in
      record { final = rest.final; returns = rest.returns; shows = rest.shows; sends = rest.sends }
