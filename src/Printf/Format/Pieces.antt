-- ===== src/Printf/Format/Pieces.antt =====
-- The formats that the kernel uses, put together from plain characters and four directives.
use mega_os.Prelude.{
  ℕ, ◌<◌, ◌-◌, ◌^◌, ◌≡◌, refl, Bool, true, false, ◌&&◌, not, List, [], ◌∷◌, ◌++◌, append-nil, subst,
  ◌==◌, length, arith, codes, replicate, ◌+◌, ◌≤◌, length-append, length-reverse, length-replicate,
  reverse, if◌then◌else◌,
}
use mega_os.Printf.Output.{Flags, no_flags, blank}
use mega_os.Printf.Output.Laws.{layout}
use mega_os.Printf.Integer.{sign_width, value_flags}
use mega_os.Printf.Integer.Padding.{long_buffer, length-long_buffer}
use mega_os.Printf.Directive.{
  Arg, word, str, Directive, eval_directive, eval_flags, set_flag, eval_width, eval_precision,
  eval_length, va_arg,
}
use mega_os.Printf.Format.Render.{long_text, integer_text, field_text}
use mega_os.Printf.Format.Converts.{integer, string}
use mega_os.Printf.Format.Formats.{Formats, end, char, directive}

-- No `%` is among the characters.
abbrev pub is_plain : List ℕ → Bool
is_plain [] = true
is_plain (c ∷ cs) = not (c == b'%') && is_plain cs

-- The directives `%#lX` and `%d` in front of `rest`.
abbrev hex_directive : List ℕ → List Arg → Directive
hex_directive rest va = record {
  flags = record no_flags { hash = true; long_size = true };
  width = 0;
  precision = 0;
  rest = b'X' ∷ rest;
  va = va;
}

abbrev simple_directive : ℕ → List ℕ → List Arg → Directive
simple_directive specifier rest va = record {
  flags = no_flags;
  width = 0;
  precision = 0;
  rest = specifier ∷ rest;
  va = va;
}

-- The texts of `%#lX` and of `%d`.
abbrev pub hex_text : ℕ → List ℕ
hex_text w = integer_text b'X' (hex_directive [] []) w

abbrev pub dec_text : ℕ → List ℕ
dec_text w = integer_text b'd' (simple_directive b'd' [] []) w

module _ {va : List Arg} {rest text : List ℕ} where
  plain-Formats :
      (cs : List ℕ)
      → is_plain cs ≡ true
      → Formats rest va text
      → Formats (cs ++ rest) va (cs ++ text)
  plain-Formats [] h formats = formats
  plain-Formats (c ∷ cs) h formats = char (ground arith) (plain-Formats cs (ground arith) formats)

  hex-Formats :
      (w : ℕ)
      → Formats rest va text
      → Formats (codes "%#lX" ++ rest) (word w ∷ va) (hex_text w ++ text)
  unfolding eval_directive eval_flags set_flag eval_width eval_precision eval_length va_arg
  hex-Formats w formats =
      directive {d = hex_directive rest (word w ∷ va)} {field = hex_text w} refl refl refl
        (integer refl refl) formats

  dec-Formats :
      (w : ℕ)
      → Formats rest va text
      → Formats (codes "%d" ++ rest) (word w ∷ va) (dec_text w ++ text)
  unfolding eval_directive eval_flags set_flag eval_width eval_precision eval_length va_arg
  dec-Formats w formats =
      directive {d = simple_directive b'd' rest (word w ∷ va)} {field = dec_text w} refl refl refl
        (integer refl refl) formats

  chars-Formats :
      (address : ℕ) (p : List ℕ)
      → length p < 2 ^ 32
      → Formats rest va text
      → Formats (codes "%s" ++ rest) (str address p ∷ va) (p ++ text)
  unfolding eval_directive eval_flags set_flag eval_width eval_precision eval_length va_arg
  chars-Formats address p h formats =
      let none_left : 0 - length p ≡ 0 = omega arith in
      let field : field_text no_flags 0 p ≡ p = rw none_left (append-nil p) in
      subst (λ f. Formats (codes "%s" ++ rest) (str address p ∷ va) (f ++ text)) field
        (directive {d = simple_directive b's' rest (str address p ∷ va)} refl refl refl
          (string refl refl h) formats)

no-sign_width : (negative : Bool) (flags : Flags) → sign_width negative 0 flags ≡ 0
unfolding sign_width
no-sign_width negative flags = ground arith

-- The spaces stand on one side only.
shared :
    (n : ℕ) (left zeropad : Bool)
    → length (if not left && not zeropad then replicate n blank else [])
        + length (if left then replicate n blank else [])
      ≤ n
shared n true zeropad = omega (arith, length-replicate {A = ℕ} n blank)
shared n false true = omega arith
shared n false false = omega (arith, length-replicate {A = ℕ} n blank)

length-layout :
    (buf : List ℕ) (width : ℕ) (flags : Flags)
    → length (layout buf width flags) ≤ (width - length buf) + length buf
length-layout buf width flags =
    let before =
      if not flags.left && not flags.zeropad then replicate (width - length buf) blank else [] in
    let after = if flags.left then replicate (width - length buf) blank else [] in
    let padding : length before + length after ≤ width - length buf =
      shared (width - length buf) flags.left flags.zeropad in
    omega (
      arith,
      length-append before (reverse buf ++ after),
      length-append (reverse buf) after,
      length-reverse buf,
    )

-- A text without a width is as short as the buffer.
length-long_text :
    (value : ℕ) (negative : Bool) (base prec : ℕ) (flags : Flags)
    → length (long_text value negative base prec 0 flags) ≤ 32
length-long_text value negative base prec flags =
    let w = sign_width negative 0 (value_flags value flags) in
    let no_width : w ≡ 0 = no-sign_width negative (value_flags value flags) in
    let buf = long_buffer value negative base prec 0 flags in
    let n = w - length buf in
    omega (
      arith,
      length-layout buf w (value_flags value flags),
      length-long_buffer value negative base prec 0 flags,
    )

length-hex_text : (w : ℕ) → length (hex_text w) ≤ 32
length-hex_text w = length-long_text _ false _ _ _

length-dec_text : (w : ℕ) → length (dec_text w) ≤ 32
length-dec_text w = length-long_text _ _ _ _ _

-- A format that describes a text of at most `n` characters.
pub record Writes (format : List ℕ) (va : List Arg) (text : List ℕ) (n : ℕ) : Type 0 where
  pub formats : Formats format va text
  pub short : length text ≤ n

pub nothing : {va : List Arg} → Writes [] va [] 0
nothing = record { formats = end; short = omega arith }

-- A larger bound will do.
pub within :
    {format : List ℕ} {va : List Arg} {text : List ℕ} {n m : ℕ}
    → n ≤ m
    → Writes format va text n
    → Writes format va text m
within h w = record { formats = w.formats; short = omega (arith, w.short) }

module _ {va : List Arg} {rest text : List ℕ} {n : ℕ} where
  pub plain :
      (cs : List ℕ)
      → is_plain cs ≡ true
      → Writes rest va text n
      → Writes (cs ++ rest) va (cs ++ text) (length cs + n)
  plain cs h w = record {
    formats = plain-Formats cs h w.formats;
    short = omega (arith, length-append cs text, w.short);
  }

  pub hex :
      (value : ℕ)
      → Writes rest va text n
      → Writes (codes "%#lX" ++ rest) (word value ∷ va) (hex_text value ++ text) (32 + n)
  hex value w = record {
    formats = hex-Formats value w.formats;
    short = omega (arith, length-append (hex_text value) text, length-hex_text value, w.short);
  }

  pub dec :
      (value : ℕ)
      → Writes rest va text n
      → Writes (codes "%d" ++ rest) (word value ∷ va) (dec_text value ++ text) (32 + n)
  dec value w = record {
    formats = dec-Formats value w.formats;
    short = omega (arith, length-append (dec_text value) text, length-dec_text value, w.short);
  }

  pub chars :
      (address : ℕ) (p : List ℕ)
      → length p < 2 ^ 32
      → Writes rest va text n
      → Writes (codes "%s" ++ rest) (str address p ∷ va) (p ++ text) (length p + n)
  chars address p h w = record {
    formats = chars-Formats address p h w.formats;
    short = omega (arith, length-append p text, w.short);
  }
