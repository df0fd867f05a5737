-- ===== src/Ulib.antt =====
-- ulibc.c: the conversions of numbers to text for user programs, into a buffer. A buffer is the list of
-- characters in front of the place that is written next; the number of characters that a conversion
-- returns is the length of its text. An `int` is its bit pattern.
pub mod Laws
use systems_os.Prelude.{
  ℕ, zero, suc, ◌+◌, ◌-◌, ◌*◌, ◌/◌, ◌%◌, ◌^◌, Bool, true, false, not, ◌||◌, Option, none, some,
  List, [], ◌∷◌, ◌++◌, ◌==◌, ltb, if◌then◌else◌,
}

abbrev pub int_min : ℕ
int_min = 2 ^ 31

-- The division and the remainder of an `int` by 10 round towards 0.
abbrev pub negated : ℕ → ℕ
negated w = (2 ^ 32 - w) % 2 ^ 32

abbrev pub div10 : ℕ → ℕ
div10 w = if ltb w int_min then w / 10 else negated (negated w / 10)

-- `itos10x`, with the recursion on fuel: a negative quotient is replaced, and the value with it.
abbrev pub is_negative : ℕ → Bool
is_negative w = not (ltb w int_min)

abbrev pub quotient_of : ℕ → ℕ
quotient_of value = if is_negative (div10 value) then 214748364 else div10 value

abbrev pub value_of : ℕ → ℕ
value_of value = if is_negative (div10 value) then 8 else value

abbrev pub last_digit : ℕ → ℕ
last_digit value = if ltb value int_min then value % 10 + 48 else 48 - negated value % 10

abbrev pub put_digit : ℕ → Option (List ℕ) → Option (List ℕ)
put_digit value none = none
put_digit value (some buf) = some (buf ++ (last_digit value ∷ []))

unfoldable pub itos10x : ℕ → List ℕ → ℕ → Option (List ℕ)
itos10x zero buf value = none
itos10x (suc fuel) buf value =
    let rest = itos10x fuel buf (quotient_of value) in
    put_digit (value_of value) (if quotient_of value == 0 then some buf else rest)

-- `itos10`; no number has more than ten digits.
unfoldable pub itos10 : ℕ → Option (List ℕ)
itos10 value =
    if is_negative value then itos10x 10 (45 ∷ []) (negated value) else itos10x 10 [] value

-- `mydigits`.
abbrev pub mydigits : ℕ → ℕ
mydigits d = if ltb d 10 then d + 48 else d + 55

-- The loop of `itos8` with the rounds that are left: a digit is computed a round ahead. The shift is
-- to the left.
abbrev pub next_octal : ℕ → ℕ
next_octal value = value / 2 ^ 29 * 2 ^ 29 * 2 ^ 29 % 2 ^ 32

unfoldable pub octal_loop : ℕ → List ℕ → Bool → ℕ → ℕ → List ℕ
octal_loop zero buf store_all val value = buf
octal_loop (suc n) buf store_all val value =
    let shifted = value * 2 ^ 3 % 2 ^ 32 in
    let stored =
      octal_loop n (buf ++ (mydigits (val % 2 ^ 3) ∷ [])) true (next_octal value) shifted in
    let passed = octal_loop n buf store_all (next_octal value) shifted in
    if (n == 0) || not (val == 0) || store_all then stored else passed

-- `itos8`.
unfoldable pub itos8 : ℕ → Bool → List ℕ
itos8 value store_all = octal_loop 11 [] store_all (value / 2 ^ 30) (value * 2 ^ 2 % 2 ^ 32)

-- The loop of `itos16`, and `itos16`.
unfoldable pub digits_loop : ℕ → List ℕ → Bool → ℕ → List ℕ
digits_loop zero buf store_all value = buf
digits_loop (suc n) buf store_all value =
    let val = value / 2 ^ 28 in
    let shifted = value * 2 ^ 4 % 2 ^ 32 in
    let stored = digits_loop n (buf ++ (mydigits (val % 2 ^ 4) ∷ [])) true shifted in
    let passed = digits_loop n buf store_all shifted in
    if (n == 0) || not (val == 0) || store_all then stored else passed

unfoldable pub itos16 : ℕ → Bool → List ℕ
itos16 value store_all = digits_loop 8 [] store_all value
