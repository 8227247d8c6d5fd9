-- ===== src/Tests/Units.antt =====
-- A concrete `double` for the tests: a signed number of 10^-12ths, and one that is no number.
use mega_os.Prelude.{
  ℕ, zero, suc, ◌+◌, ◌-◌, ◌*◌, ◌/◌, ◌%◌, ◌^◌, Bool, true, false, not, ◌||◌, ltb, leb, ◌==◌,
  if◌then◌else◌, ℤ, pos, negsuc,
}
use mega_os.Printf.Double.{Double}

pub data Units : Type 0 where
  no_number : Units
  signed : Bool → ℕ → Units

abbrev pub one : ℕ
one = 10 ^ 12

abbrev less : Units → Units → Bool
less (signed false m) (signed false n) = ltb m n
less (signed false m) (signed true n) = false
less (signed true m) (signed false n) = not (m == 0) || not (n == 0)
less (signed true m) (signed true n) = ltb n m
less _ _ = false

abbrev same : Units → Units → Bool
same (signed b m) (signed c n) = m == n
same _ _ = false

abbrev negated : Units → Units
negated (signed b m) = signed (not b) m
negated x = x

-- `m - n`
abbrev minus : ℕ → ℕ → Units
minus m n = if leb n m then signed false (m - n) else signed true (n - m)

abbrev sum : Units → Units → Units
sum (signed false m) (signed false n) = signed false (m + n)
sum (signed true m) (signed true n) = signed true (m + n)
sum (signed false m) (signed true n) = minus m n
sum (signed true m) (signed false n) = minus n m
sum _ _ = no_number

abbrev xor : Bool → Bool → Bool
xor true b = not b
xor false b = b

abbrev product : Units → Units → Units
product (signed b m) (signed c n) = signed (xor b c) (m * n / one)
product _ _ = no_number

abbrev quotient : Units → Units → Units
quotient (signed b m) (signed c n) = signed (xor b c) (m * one / n)
quotient _ _ = no_number

abbrev amount : Units → ℕ
amount (signed b m) = m
amount x = 0

abbrev of_integer : ℤ → Units
of_integer (pos n) = signed false (n * one)
of_integer (negsuc n) = signed true (suc n * one)

abbrev to_integer : Units → ℤ
to_integer (signed true m) = if m / one == 0 then pos 0 else negsuc (m / one - 1)
to_integer x = pos (amount x / one)

-- The binary exponent of a number of at least one.
unfoldable pub log2 : ℕ → ℕ → ℕ
log2 zero n = 0
log2 (suc fuel) n = let rest = log2 fuel (n / 2) in if ltb n 2 then 0 else suc rest

abbrev pub to_bits : Units → ℕ
to_bits x =
    let e = log2 64 (amount x / one) in
    (1023 + e) * 2 ^ 52 + amount x * 2 ^ 52 / (2 ^ e * one) % 2 ^ 52

abbrev from_bits : ℕ → Units
from_bits n = signed false ((2 ^ 52 + n % 2 ^ 52) * 2 ^ (n / 2 ^ 52 - 1023) * one / 2 ^ 52)

instance abbrev pub decimal_double : Double Units
decimal_double = record {
  literal = λ m k. signed false (m * one / 10 ^ k);
  dbl_max = signed false (10 ^ 30);
  lt = less;
  eq = same;
  neg = negated;
  add = sum;
  sub = λ x y. sum x (negated y);
  mul = product;
  div = quotient;
  of_nat = λ n. signed false (n * one);
  of_int = of_integer;
  truncated = λ x. amount x / one;
  to_int = to_integer;
  bits = to_bits;
  of_bits = from_bits;
}

-- `m / 10^k`
abbrev pub decimal : ℕ → ℕ → Units
decimal m k = signed false (m * one / 10 ^ k)
