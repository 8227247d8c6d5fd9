-- ===== src/Printf/Format/Spelled.antt =====
-- How a directive of `_vsnprintf` is spelled.
use mega_os.Prelude.{ℕ, ◌≤◌, ◌<◌, ◌^◌, ◌≡◌, ◌≢◌, refl, true, false, List, [], ◌∷◌, ◌++◌}
use mega_os.Printf.Output.{Flags, no_flags}
use mega_os.Printf.Integer.Readback.{read_number, Decimal}
use mega_os.Printf.Directive.{Arg, Directive, peek}

-- The flags of a directive, in any order and number.
pub data Flag : Type 0 where
  minus plus space zero hash : Flag

abbrev pub flag_char : Flag → ℕ
flag_char minus = b'-'
flag_char plus = b'+'
flag_char space = b' '
flag_char zero = b'0'
flag_char hash = b'#'

abbrev pub with_flag : Flag → Flags → Flags
with_flag minus flags = record flags { left = true }
with_flag plus flags = record flags { plus = true }
with_flag space flags = record flags { space = true }
with_flag zero flags = record flags { zeropad = true }
with_flag hash flags = record flags { hash = true }

abbrev pub flag_text : List Flag → List ℕ
flag_text [] = []
flag_text (f ∷ fs) = flag_char f ∷ flag_text fs

abbrev pub with_flags : List Flag → Flags → Flags
with_flags [] flags = flags
with_flags (f ∷ fs) flags = with_flags fs (with_flag f flags)

-- The length modifiers.
pub data Modifier : Type 0 where
  no_modifier hh h l ll t j z : Modifier

abbrev pub modifier_text : Modifier → List ℕ
modifier_text no_modifier = []
modifier_text hh = b'h' ∷ b'h' ∷ []
modifier_text h = b'h' ∷ []
modifier_text l = b'l' ∷ []
modifier_text ll = b'l' ∷ b'l' ∷ []
modifier_text t = b't' ∷ []
modifier_text j = b'j' ∷ []
modifier_text z = b'z' ∷ []

abbrev pub with_modifier : Modifier → Flags → Flags
with_modifier no_modifier flags = flags
with_modifier hh flags = record flags { short_size = true; char_size = true }
with_modifier h flags = record flags { short_size = true }
with_modifier l flags = record flags { long_size = true }
with_modifier ll flags = record flags { long_size = true; long_long_size = true }
with_modifier t flags = record flags { long_size = true }
with_modifier j flags = record flags { long_size = true }
with_modifier z flags = record flags { long_size = true }

-- A specifier: a letter that is no length modifier, or `%`.
abbrev pub IsSpecifier : ℕ → Type 0
IsSpecifier c = (65 ≤ c) × (c ≢ b'h') × (c ≢ b'l') × (c ≢ b't') × (c ≢ b'j') × (c ≢ b'z')

-- A precision, if there is one: a dot and digits, none for 0.
pub data Precision : Type 0 where
  no_precision : Precision
  dot : List ℕ → Precision

abbrev pub precision_text : Precision → List ℕ
precision_text no_precision = []
precision_text (dot digits) = b'.' ∷ digits

abbrev pub precision_value : Precision → ℕ
precision_value no_precision = 0
precision_value (dot digits) = read_number 10 digits 0

abbrev pub with_precision : Precision → Flags → Flags
with_precision no_precision flags = flags
with_precision (dot digits) flags = record flags { has_precision = true }

abbrev pub IsPrecision : Precision → Type 0
IsPrecision no_precision = Unit {0}
IsPrecision (dot digits) = Decimal digits × (read_number 10 digits 0 < 2 ^ 32)

-- What stands between the `%` and the specifier.
pub record Spelling : Type 0 where
  pub flags : List Flag
  pub width : List ℕ
  pub precision : Precision
  pub modifier : Modifier

-- The width and the precision are decimal numbers below 2^32, the width without a `0` in front.
pub record IsSpelling (sp : Spelling) : Type 0 where
  pub digits : Decimal sp.width
  pub no_zero : peek sp.width ≢ b'0'
  pub narrow : read_number 10 sp.width 0 < 2 ^ 32
  pub precise : IsPrecision sp.precision

abbrev pub spelled_text : Spelling → List ℕ → List ℕ
spelled_text sp rest =
    flag_text sp.flags
    ++ (sp.width ++ (precision_text sp.precision ++ (modifier_text sp.modifier ++ rest)))

abbrev pub spelled_flags : Spelling → Flags
spelled_flags sp =
    with_modifier sp.modifier (with_precision sp.precision (with_flags sp.flags no_flags))

abbrev pub spelled_width : Spelling → ℕ
spelled_width sp = read_number 10 sp.width 0

abbrev pub spelled_precision : Spelling → ℕ
spelled_precision sp = precision_value sp.precision

with_flags-lower :
    (fs : List Flag) (flags : Flags)
    → flags.uppercase ≡ false
    → (with_flags fs flags).uppercase ≡ false
with_flags-lower [] flags lower = lower
with_flags-lower (minus ∷ fs) flags lower = with_flags-lower fs _ lower
with_flags-lower (plus ∷ fs) flags lower = with_flags-lower fs _ lower
with_flags-lower (space ∷ fs) flags lower = with_flags-lower fs _ lower
with_flags-lower (zero ∷ fs) flags lower = with_flags-lower fs _ lower
with_flags-lower (hash ∷ fs) flags lower = with_flags-lower fs _ lower

with_precision-lower :
    (p : Precision) (flags : Flags)
    → flags.uppercase ≡ false
    → (with_precision p flags).uppercase ≡ false
with_precision-lower no_precision flags lower = lower
with_precision-lower (dot ds) flags lower = lower

with_modifier-lower :
    (m : Modifier) (flags : Flags)
    → flags.uppercase ≡ false
    → (with_modifier m flags).uppercase ≡ false
with_modifier-lower no_modifier flags lower = lower
with_modifier-lower hh flags lower = lower
with_modifier-lower h flags lower = lower
with_modifier-lower l flags lower = lower
with_modifier-lower ll flags lower = lower
with_modifier-lower t flags lower = lower
with_modifier-lower j flags lower = lower
with_modifier-lower z flags lower = lower

-- No flag asks for capitals.
pub spelled_flags-lower : (sp : Spelling) → (spelled_flags sp).uppercase ≡ false
spelled_flags-lower sp =
    with_modifier-lower sp.modifier _
      (with_precision-lower sp.precision _ (with_flags-lower sp.flags no_flags refl))

-- What is read of a directive.
abbrev pub at : Flags → ℕ → ℕ → List ℕ → List Arg → Directive
at flags width precision rest va = record {
  flags = flags;
  width = width;
  precision = precision;
  rest = rest;
  va = va;
}
