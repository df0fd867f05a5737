-- ===== src/Convert.antt =====
-- c_io.c: the conversions of numbers to digits, as lists of character codes. An `int` is its bit
-- pattern.
pub mod Decimal
pub mod Powers
use systems_os.Prelude.{
  Bool, true, false, not, ◌||◌, ◌*◌, ℕ, zero, suc, ◌+◌, ◌-◌, ◌/◌, ◌%◌, ◌^◌, Option, none, some,
  List, [], ◌∷◌, ◌++◌, ◌==◌, ltb, if◌then◌else◌,
}

-- The quotient and the digit that `cvtdec0` goes on with: the quotient of a negative number is
-- negative or 0, and the negative one is replaced, with the value, by those of 2147483648.
abbrev pub quotient : ℕ → ℕ
quotient w = if ltb w (2 ^ 31) then w / 10 else if ltb (2 ^ 32 - w) 10 then 0 else 214748364

abbrev pub digit : ℕ → ℕ
digit w =
    if ltb w (2 ^ 31) then w % 10 + 48 else if ltb (2 ^ 32 - w) 10 then 48 - (2 ^ 32 - w) else 56

abbrev pub and_digit : ℕ → Option (List ℕ) → Option (List ℕ)
and_digit d none = none
and_digit d (some ds) = some (ds ++ (d ∷ []))

-- `cvtdec0`, with the recursion on fuel.
unfoldable pub cvtdec0 : ℕ → ℕ → Option (List ℕ)
cvtdec0 zero w = none
cvtdec0 (suc fuel) w =
    let higher = cvtdec0 fuel (quotient w) in
    if quotient w == 0 then some (digit w ∷ []) else and_digit (digit w) higher

abbrev pub with_sign : Option (List ℕ) → Option (List ℕ)
with_sign none = none
with_sign (some ds) = some (45 ∷ ds)

-- `cvtdec`; no number has more than ten digits.
unfoldable pub cvtdec : ℕ → Option (List ℕ)
cvtdec w = if ltb w (2 ^ 31) then cvtdec0 10 w else with_sign (cvtdec0 10 ((2 ^ 32 - w) % 2 ^ 32))

-- `hexdigits`.
abbrev pub hexdigits : ℕ → ℕ
hexdigits d = if ltb d 10 then d + 48 else d + 55

-- The loop of `cvthex`, with the rounds that are left: zeros in front are passed over, but the last
-- digit is always stored.
unfoldable pub hex_loop : ℕ → Bool → ℕ → List ℕ
hex_loop zero stored value = []
hex_loop (suc n) stored value =
    let d = value / 2 ^ 28 % 2 ^ 4 in
    let after = hex_loop n true (value * 2 ^ 4 % 2 ^ 32) in
    let passed = hex_loop n false (value * 2 ^ 4 % 2 ^ 32) in
    if (n == 0) || not (d == 0) || stored then hexdigits d ∷ after else passed

-- `cvthex`.
unfoldable pub cvthex : ℕ → List ℕ
cvthex value = hex_loop 8 false value

-- The loop of `cvtoct`. The digit is computed a round ahead; a shift of an `int` to the right keeps
-- the sign, so the first digit of a negative number is more than its two bits.
unfoldable pub oct_loop : ℕ → Bool → ℕ → ℕ → List ℕ
oct_loop zero stored d value = []
oct_loop (suc n) stored d value =
    let shifted = value * 2 ^ 3 % 2 ^ 32 in
    let after = oct_loop n true (shifted / 2 ^ 29) shifted in
    let passed = oct_loop n false (shifted / 2 ^ 29) shifted in
    if (n == 0) || not (d == 0) || stored then hexdigits d ∷ after else passed

abbrev pub first_octal : ℕ → ℕ
first_octal value = if ltb value (2 ^ 31) then value / 2 ^ 30 else value / 2 ^ 30 + 4

-- `cvtoct`.
unfoldable pub cvtoct : ℕ → List ℕ
cvtoct value = oct_loop 11 false (first_octal value) value
