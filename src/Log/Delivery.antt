-- ===== src/Log/Delivery.antt =====
-- Where the characters of the output functions arrive.
use mega_os.Prelude.{
  ℕ, suc, ◌+◌, ◌<◌, ◌%◌, ◌^◌, ◌≡◌, refl, sym, Bool, true, false, List, [], ◌∷◌, ◌++◌, ◌==◌,
  if◌then◌else◌, append-nil, append_assoc, Bool-cases, inl, inr, bind, pure, M, Outcome, some, ◌≢◌,
  subst, length, ◌>>=◌, ◌>>◌, ==_iff, arith,
}
use mega_os.Machine.{Env, Machine, Event, term}
use mega_os.Machine.Runs.{Runs, Runs-pure, Runs-bind}
use mega_os.Serial.{data_reg}
use mega_os.Serial.Send.{Responsive, send-Runs}
use mega_os.Printf.Output.{next_idx, emit}
use mega_os.Log.{
  kputc, dputc, putchar, put_string, kprint, kputs, dprint, dputs, out_char, set_serial,
}

-- The bytes that the serial port is sent for some characters: a newline goes with a `\r` before it.
abbrev pub serial_bytes : List ℕ → List ℕ
serial_bytes [] = []
serial_bytes (c ∷ cs) =
    (if c == b'\n' then b'\r' ∷ b'\n' ∷ [] else c % 2 ^ 8 ∷ []) ++ serial_bytes cs

-- What arrives on the terminal, and on the serial port, with `use_serial` as given.
abbrev pub to_terminal : Bool → List ℕ → List ℕ
to_terminal use_serial cs = if use_serial then [] else cs

abbrev pub to_serial : Bool → List ℕ → List ℕ
to_serial use_serial cs = if use_serial then serial_bytes cs else []

-- `log::write` is set, where it is used.
abbrev pub CanPut : Machine → Type 0
CanPut m = m.use_serial ≡ false → m.write ≢ 0

pub kputc-Runs : (c : ℕ) (m : Machine) → m.write ≢ 0 → Runs data_reg (kputc c m) tt m (c ∷ []) []
unfolding kputc
kputc-Runs c m h = elim (Bool-cases (m.write == 0)) [
  | inl null ↦ absurd (h ((==_iff _ _).0 null))
  | inr live ↦ rw live (record {
    final = term c ∷ m.trace;
    returns = refl;
    shows = refl;
    sends = sym (append-nil _);
  })
]

serial_bytes-append :
    (xs ys : List ℕ) → serial_bytes (xs ++ ys) ≡ serial_bytes xs ++ serial_bytes ys
serial_bytes-append [] ys = refl
serial_bytes-append (c ∷ xs) ys =
    rw (serial_bytes-append xs ys) (sym (append_assoc _ (serial_bytes xs) (serial_bytes ys)))

to_terminal-append :
    (b : Bool) (xs ys : List ℕ) → to_terminal b (xs ++ ys) ≡ to_terminal b xs ++ to_terminal b ys
to_terminal-append true xs ys = refl
to_terminal-append false xs ys = refl

to_serial-append :
    (b : Bool) (xs ys : List ℕ) → to_serial b (xs ++ ys) ≡ to_serial b xs ++ to_serial b ys
to_serial-append true xs ys = serial_bytes-append xs ys
to_serial-append false xs ys = refl

-- The characters `cs` have gone where `use_serial` says.
abbrev pub Puts {ℓ} : {A : Type ℓ} → Outcome Machine A → A → Machine → List ℕ → Type ℓ
Puts o value m cs =
    Runs data_reg o value m (to_terminal m.use_serial cs) (to_serial m.use_serial cs)

pub Puts-pure {ℓ} : {A : Type ℓ} (value : A) (m : Machine) → Puts (pure value m) value m []
Puts-pure value m = elim (Bool-cases m.use_serial) [
  | inl serial ↦ rw serial (Runs-pure data_reg value _)
  | inr terminal ↦ rw terminal (Runs-pure data_reg value _)
]

pub Puts-bind {ℓ κ} :
    {A : Type ℓ} {B : Type κ} {o : Outcome Machine A} {value : A} {m : Machine} (xs ys : List ℕ)
    (f : A → M Machine B) (result : B)
    → Puts o value m xs
    → ((t : List Event)
        → Puts (f value (record m { trace = t })) result (record m { trace = t }) ys)
    → Puts (bind o f) result m (xs ++ ys)
Puts-bind {m} xs ys f result first next =
    rw (to_terminal-append m.use_serial xs ys, to_serial-append m.use_serial xs ys)
      (Runs-bind data_reg f result _ _ first next)

-- The characters but the NULs.
abbrev pub visible : List ℕ → List ℕ
visible [] = []
visible (c ∷ cs) = if c == 0 then visible cs else c ∷ visible cs

-- A function between `use_serial = true` and `use_serial = false`.
pub over_serial :
    (f : M Machine ℕ) (value : ℕ) (m : Machine) (cs : List ℕ)
    → Puts (f (record m { use_serial = true })) value (record m { use_serial = true }) cs
    → Runs data_reg
        ((do set_serial true; ret ← f; set_serial false; pure ret) m)
        value
        (record m { use_serial = false })
        []
        (serial_bytes cs)
over_serial f value m cs r = record {
  final = r.final;
  returns = rw r.returns refl;
  shows = r.shows;
  sends = r.sends;
}

module _ (env : Env) (responsive : Responsive env) where
  pub dputc-Runs :
      (c : ℕ) (m : Machine) → Runs data_reg (dputc env c m) tt m [] (serial_bytes (c ∷ []))
  unfolding dputc
  dputc-Runs c m = elim (Bool-cases (c == b'\n')) [
    | inl newline ↦
        rw (newline, (==_iff c b'\n').0 newline)
          (Runs-bind data_reg _ tt [] (b'\n' ∷ []) (send-Runs env responsive b'\r' m)
            (λ t. send-Runs env responsive b'\n' _))
    | inr plain ↦ rw plain (send-Runs env responsive c m)
  ]

  pub putchar-Runs : (c : ℕ) (m : Machine) → CanPut m → Puts (putchar env c m) tt m (c ∷ [])
  unfolding putchar
  putchar-Runs c m can = elim (Bool-cases m.use_serial) [
    | inl serial ↦ rw serial (dputc-Runs c _)
    | inr terminal ↦ rw terminal (kputc-Runs c _ (can terminal))
  ]

  pub put_string-Puts : (cs : List ℕ) (m : Machine) → CanPut m → Puts (put_string env cs m) tt m cs
  unfolding put_string
  put_string-Puts [] m can = Puts-pure tt m
  put_string-Puts (c ∷ cs) m can =
      Puts-bind (c ∷ []) cs _ tt (putchar-Runs c m can) (λ t. put_string-Puts cs _ can)

  -- `kprint` puts out the string, and returns 1.
  pub kprint-Puts : (cs : List ℕ) (m : Machine) → CanPut m → Puts (kprint env (some cs) m) 1 m cs
  unfolding kprint
  kprint-Puts cs m can =
      subst (Puts (kprint env (some cs) m) 1 m) (append-nil cs)
        (Puts-bind cs [] _ 1 (put_string-Puts cs m can) (λ t. Puts-pure 1 _))

  -- On a responsive port, with `log::write` set wherever `use_serial` is false, `kputs` puts the
  -- string and a newline where `use_serial` says, changes nothing else, and returns 1.
  pub kputs-Puts :
      (cs : List ℕ) (m : Machine) → CanPut m → Puts (kputs env (some cs) m) 1 m (cs ++ b'\n' ∷ [])
  unfolding kputs
  kputs-Puts cs m can =
      Puts-bind cs (b'\n' ∷ []) _ 1 (put_string-Puts cs m can)
        (λ t. Puts-bind (b'\n' ∷ []) [] _ 1 (putchar-Runs b'\n' _ can) (λ u. Puts-pure 1 _))

  -- `dprint` puts the string out on the serial port whatever `use_serial` was, and leaves it false.
  pub dprint-Runs :
      (cs : List ℕ) (m : Machine)
      → Runs data_reg
          (dprint env (some cs) m)
          1
          (record m { use_serial = false })
          []
          (serial_bytes cs)
  unfolding dprint
  dprint-Runs cs m = over_serial (kprint env (some cs)) 1 m cs (kprint-Puts cs _ (λ e. cc))

  -- On a responsive port `dputs` sends the string and a newline over the serial port whatever
  -- `use_serial` was, shows nothing, leaves `use_serial` false and all else as it was, and returns
  -- 1.
  pub dputs-Runs :
      (cs : List ℕ) (m : Machine)
      → Runs data_reg
          (dputs env (some cs) m)
          1
          (record m { use_serial = false })
          []
          (serial_bytes (cs ++ b'\n' ∷ []))
  unfolding dputs
  dputs-Runs cs m =
      over_serial (kputs env (some cs)) 1 m (cs ++ b'\n' ∷ []) (kputs-Puts cs _ (λ e. cc))

  -- `_out_char` drops NUL characters.
  pub emit-out_char :
      (maxlen : ℕ) (cs : List ℕ) (idx : ℕ) (m : Machine)
      → idx < 2 ^ 64
      → CanPut m
      → Puts (emit (out_char env) maxlen cs idx m) ((idx + length cs) % 2 ^ 64) m (visible cs)
  unfolding emit out_char
  emit-out_char maxlen [] idx m h can =
      let same : idx ≡ (idx + 0) % 2 ^ 64 = omega arith in rw (← same) (Puts-pure idx m)
  emit-out_char maxlen (c ∷ cs) idx m h can =
      let same : (next_idx idx + length cs) % 2 ^ 64 ≡ (idx + suc (length cs)) % 2 ^ 64 =
        omega arith in
      elim (Bool-cases (c == 0)) [
        | inl nul ↦ rw (nul, ← same) (emit-out_char maxlen cs (next_idx idx) m (omega arith) can)
        | inr plain ↦
            rw (plain, ← same)
              (Puts-bind (c ∷ []) (visible cs) (λ _. emit (out_char env) maxlen cs (next_idx idx)) _
                (putchar-Runs c m can)
                (λ t. emit-out_char maxlen cs (next_idx idx) _ (omega arith) can))
      ]
