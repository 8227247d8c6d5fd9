-- ===== src/Printf/Format/Keeps.antt =====
-- Properties of the state along the runs of `_vsnprintf` (kernel/logging.cpp), for any format and any
-- arguments, also those that describe no text.
use mega_os.Prelude.{
  ℕ, zero, suc, ◌-◌, Bool, true, false, not, ◌&&◌, ◌||◌, List, [], ◌∷◌, Option, none, some, ◌==◌,
  ◌≡◌, refl, if◌then◌else◌, length, ltb, Outcome, done, stopped, M, bind,
}
use mega_os.Printf.Output.{
  OutFct, Flags, next_idx, size_sub, out_spaces, out_backwards, out_until, out_rev,
}
use mega_os.Printf.Integer.{ntoa_format, ntoa_long}
use mega_os.Printf.Directive.{Arg, Directive, word, str, peek, va_arg, eval_directive}
use mega_os.Printf.Format.{
  or_fault, skip, out_string, out_field, convert_integer, convert_char, convert_string,
  convert_pointer, convert, is_integer, is_signed, format_loop, format_loop_with, format_around,
  format_out,
}

-- The state that a run comes to, or stops in, has the property.
abbrev pub Keeps {ℓ κ ι} : {S : Type ℓ} {A : Type κ} → (S → Type ι) → Outcome S A → Type ι
Keeps P (done a s) = P s
Keeps P (stopped w s) = P s

module _ {ℓ ι} {S : Type ℓ} (P : S → Type ι) where
  pub Keeps-bind {κ ν} :
      {A : Type κ} {B : Type ν} (o : Outcome S A) (f : A → M S B)
      → Keeps P o
      → ((a : A) (s : S) → P s → Keeps P (f a s))
      → Keeps P (bind o f)
  Keeps-bind (done a s) f h next = next a s h
  Keeps-bind (stopped w s) f h next = h

  pub Keeps-if {κ} :
      {A : Type κ} (b : Bool) (x y : M S A) (s : S)
      → Keeps P (x s)
      → Keeps P (y s)
      → Keeps P ((if b then x else y) s)
  Keeps-if true x y s h k = h
  Keeps-if false x y s h k = k

  pub Keeps-or_fault {κ} : {A : Type κ} (o : Option A) (s : S) → P s → Keeps P (or_fault o s)
  Keeps-or_fault none s h = h
  Keeps-or_fault (some a) s h = h

  module _ (out : OutFct S) (maxlen : ℕ)
      (keeps : (c idx : ℕ) (s : S) → P s → Keeps P (out c idx maxlen s)) where
    Keeps-out_spaces : (n idx : ℕ) (s : S) → P s → Keeps P (out_spaces out maxlen n idx s)
    unfolding out_spaces
    Keeps-out_spaces zero idx s h = h
    Keeps-out_spaces (suc n) idx s h =
        Keeps-bind _ _ (keeps _ idx s h) (λ _ s'. Keeps-out_spaces n (next_idx idx) s')

    Keeps-out_backwards :
        (buf : List ℕ) (len idx : ℕ) (s : S)
        → P s
        → Keeps P (out_backwards out maxlen buf len idx s)
    unfolding out_backwards
    Keeps-out_backwards buf zero idx s h = h
    Keeps-out_backwards buf (suc len) idx s h =
        Keeps-bind _ _ (keeps _ idx s h) (λ _ s'. Keeps-out_backwards buf len (next_idx idx) s')

    pub Keeps-out_until :
        (fuel start width idx : ℕ) (s : S)
        → P s
        → Keeps P (out_until out maxlen fuel start width idx s)
    unfolding out_until
    Keeps-out_until zero start width idx s h = h
    Keeps-out_until (suc fuel) start width idx s h =
        Keeps-if (ltb (size_sub idx start) width) _ _ s
          (Keeps-bind _ _ (keeps _ idx s h)
            (λ _ s'. Keeps-out_until fuel start width (next_idx idx) s'))
          h

    pub Keeps-out_rev :
        (idx : ℕ) (buf : List ℕ) (width : ℕ) (flags : Flags) (s : S)
        → P s
        → Keeps P (out_rev out maxlen idx buf width flags s)
    unfolding out_rev
    Keeps-out_rev idx buf width flags s h =
        Keeps-bind _ _
          (Keeps-if (not flags.left && not flags.zeropad) _ _ s (Keeps-out_spaces _ idx s h) h)
          (λ padded s'. λ h'.
            Keeps-bind _ _ (Keeps-out_backwards buf (length buf) padded s' h') (λ written s''.
              λ h''.
                Keeps-if flags.left _ _ s'' (Keeps-out_until width idx width written s'' h'') h''))

    pub Keeps-ntoa_long :
        (idx value : ℕ) (negative : Bool) (base prec width : ℕ) (flags : Flags) (s : S)
        → P s
        → Keeps P (ntoa_long out maxlen idx value negative base prec width flags s)
    unfolding ntoa_long ntoa_format
    Keeps-ntoa_long idx value negative base prec width flags s h = Keeps-out_rev idx _ _ _ s h

    Keeps-out_string :
        (has_precision : Bool) (precision : ℕ) (p : List ℕ) (idx : ℕ) (s : S)
        → P s
        → Keeps P (out_string out maxlen has_precision precision p idx s)
    unfolding out_string
    Keeps-out_string has_precision precision [] idx s h = h
    Keeps-out_string has_precision precision (c ∷ cs) idx s h =
        Keeps-if (not has_precision || not (precision == 0)) _ _ s
          (Keeps-bind _ _ (keeps c idx s h)
            (λ _ s'. Keeps-out_string has_precision (precision - 1) cs (next_idx idx) s'))
          h

    Keeps-out_field :
        (flags : Flags) (width l : ℕ) (write : ℕ → M S ℕ) (idx : ℕ) (s : S)
        → ((i : ℕ) (s' : S) → P s' → Keeps P (write i s'))
        → P s
        → Keeps P (out_field out maxlen flags width l write idx s)
    unfolding out_field
    Keeps-out_field flags width l write idx s writes h =
        Keeps-bind _ _ (Keeps-if (not flags.left) _ _ s (Keeps-out_spaces _ idx s h) h) (λ i s'.
          λ h'.
            Keeps-bind _ _ (writes i s' h')
              (λ j s''. λ h''. Keeps-if flags.left _ _ s'' (Keeps-out_spaces _ j s'' h'') h''))

    Keeps-convert_integer :
        (c : ℕ) (d : Directive) (idx : ℕ) (s : S)
        → P s
        → Keeps P (convert_integer out maxlen c d idx s)
    unfolding convert_integer
    Keeps-convert_integer c d idx s h = Keeps-bind _ _ (Keeps-or_fault (va_arg d.va) s h) (λ x s'.
        λ h'.
          Keeps-bind _ _
            (Keeps-if (is_signed c) _ _ s' (Keeps-ntoa_long idx _ _ _ _ _ _ s' h')
              (Keeps-ntoa_long idx _ _ _ _ _ _ s' h'))
            (λ idx' s''. λ h''. h''))

    Keeps-convert_char :
        (d : Directive) (idx : ℕ) (s : S) → P s → Keeps P (convert_char out maxlen d idx s)
    unfolding convert_char
    Keeps-convert_char d idx s h = Keeps-bind _ _ (Keeps-or_fault (va_arg d.va) s h) (λ x s'. λ h'.
        Keeps-bind _ _
          (Keeps-out_field d.flags d.width 1 _ idx s'
            (λ i s₁. λ h₁. Keeps-bind _ _ (keeps _ i s₁ h₁) (λ _ s₂. λ h₂. h₂)) h')
          (λ idx' s''. λ h''. h''))

    Keeps-convert_string :
        (d : Directive) (idx : ℕ) (s : S) (args : List Arg)
        → d.va ≡ args
        → P s
        → Keeps P (convert_string out maxlen d idx s)
    unfolding convert_string
    Keeps-convert_string d idx s [] e h = rw e h
    Keeps-convert_string d idx s (word w ∷ va) e h = rw e h
    Keeps-convert_string d idx s (str address p ∷ va) e h = rw e (
        Keeps-bind _ _
          (Keeps-out_field d.flags d.width _ _ idx s
            (λ i s'. Keeps-out_string d.flags.has_precision d.precision p i s') h)
          (λ idx' s''. λ h''. h''))

    Keeps-convert_pointer :
        (d : Directive) (idx : ℕ) (s : S) → P s → Keeps P (convert_pointer out maxlen d idx s)
    unfolding convert_pointer
    Keeps-convert_pointer d idx s h = Keeps-bind _ _ (Keeps-or_fault (va_arg d.va) s h) (λ x s'.
        λ h'. Keeps-bind _ _ (Keeps-ntoa_long idx _ _ _ _ _ _ s' h') (λ idx' s''. λ h''. h''))

    pub Keeps-convert :
        (d : Directive) (idx : ℕ) (s : S) → P s → Keeps P (convert out maxlen d idx s)
    unfolding convert
    Keeps-convert d idx s h =
        Keeps-if (is_integer (peek d.rest)) _ _ s (Keeps-convert_integer (peek d.rest) d idx s h) (
          Keeps-if (peek d.rest == b'c') _ _ s (Keeps-convert_char d idx s h) (
            Keeps-if (peek d.rest == b's') _ _ s (Keeps-convert_string d idx s d.va refl h) (
              Keeps-if (peek d.rest == b'p') _ _ s (Keeps-convert_pointer d idx s h)
                (Keeps-bind _ _ (keeps _ idx s h) (λ _ s'. λ h'. h')))))

    Keeps-skip : (cs : List ℕ) (s : S) → P s → Keeps P (skip cs s)
    Keeps-skip [] s h = h
    Keeps-skip (c ∷ cs) s h = h

    module _ (conversion : Directive → ℕ → M S (ℕ × List Arg))
        (converts : (d : Directive) (idx : ℕ) (s : S) → P s → Keeps P (conversion d idx s)) where
      Keeps-format_loop_with :
          (fuel : ℕ) (cs : List ℕ) (va : List Arg) (idx : ℕ) (s : S)
          → P s
          → Keeps P (format_loop_with out maxlen conversion fuel cs va idx s)
      unfolding format_loop_with
      Keeps-format_loop_with fuel [] va idx s h = h
      Keeps-format_loop_with zero (c ∷ cs) va idx s h = h
      Keeps-format_loop_with (suc fuel) (c ∷ cs) va idx s h =
          Keeps-if (c == b'%') _ _ s
            (Keeps-bind _ _ (Keeps-or_fault (eval_directive cs va) s h) (λ d s₁. λ h₁.
              Keeps-bind _ _ (converts d idx s₁ h₁) (λ x s₂. λ h₂.
                Keeps-bind _ _ (Keeps-skip d.rest s₂ h₂)
                  (λ rest s₃. Keeps-format_loop_with fuel rest x.1 x.0 s₃))))
            (Keeps-bind _ _ (keeps c idx s h)
              (λ _ s'. Keeps-format_loop_with fuel cs va (next_idx idx) s'))

      pub Keeps-format_with :
          (format : List ℕ) (va : List Arg) (s : S)
          → P s
          → Keeps P (format_around out maxlen (format_loop_with out maxlen conversion) format va s)
      unfolding format_around
      Keeps-format_with format va s h =
          Keeps-bind _ _ (Keeps-format_loop_with (length format) format va 0 s h)
            (λ idx s'. λ h'. Keeps-bind _ _ (keeps 0 _ s' h') (λ _ s''. λ h''. h''))

    -- Every run of `_vsnprintf` keeps what its output function keeps.
    pub Keeps-format_out :
        (format : List ℕ) (va : List Arg) (s : S)
        → P s
        → Keeps P (format_out out maxlen format va s)
    unfolding format_out format_loop
    Keeps-format_out format va s h =
        Keeps-format_with (convert out maxlen) Keeps-convert format va s h
