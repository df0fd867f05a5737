-- ===== src/Convert/Powers.antt =====
-- Reading hexadecimal and octal digits back.
use systems_os.Prelude.{
  ℕ, zero, suc, ◌+◌, ◌-◌, ◌*◌, ◌/◌, ◌%◌, ◌^◌, ◌<◌, ◌≤◌, ◌≡◌, refl, Bool, true, false, not, ◌||◌,
  List, [], ◌∷◌, arith, ltb, ◌==◌, if◌then◌else◌, ◌∙◌, ap, inl, inr, Bool-cases, length,
}
use systems_os.Convert.{hexdigits, hex_loop, cvthex, oct_loop, first_octal, cvtoct}

-- The number that digits in a base stand for, behind the number read so far.
abbrev pub digit_value : ℕ → ℕ
digit_value c = if ltb c 58 then c - 48 else c - 55

abbrev pub read_base : ℕ → ℕ → List ℕ → ℕ
read_base base n [] = n
read_base base n (c ∷ cs) = read_base base (base * n + digit_value c) cs

-- The digits of a number, the highest first, put together.
abbrev hex_tops : ℕ → ℕ → ℕ → ℕ
hex_tops zero v n = n
hex_tops (suc k) v n = hex_tops k (v * 2 ^ 4 % 2 ^ 32) (16 * n + v / 2 ^ 28 % 2 ^ 4)

hexdigits_lem : (d : ℕ) → d < 16 → digit_value (hexdigits d) ≡ d
hexdigits_lem d h = ground arith

hex_loop-read :
    (k : ℕ) (stored : Bool) (v n : ℕ)
    → (stored ≡ false → n ≡ 0)
    → read_base 16 n (hex_loop k stored v) ≡ hex_tops k v n
unfolding hex_loop
hex_loop-read zero stored v n z = refl
hex_loop-read (suc k) stored v n z =
    let d = v / 2 ^ 28 % 2 ^ 4 in
    let next = v * 2 ^ 4 % 2 ^ 32 in
    elim (Bool-cases ((k == 0) || not (d == 0) || stored)) [
      | inl t ↦ rw t (
          ap (λ x. read_base 16 (16 * n + x) (hex_loop k true next)) (hexdigits_lem d (omega arith))
          ∙ hex_loop-read k true next (16 * n + d) (λ f. ground (arith, f)))
      | inr t ↦
          let empty : n ≡ 0 = z (ground arith) in
          let same : n ≡ 16 * n + d = ground (arith, empty) in
          rw t (hex_loop-read k false next n (λ f. empty) ∙ ap (hex_tops k next) same)
    ]

hex_tops-8 : (v : ℕ) → v < 2 ^ 32 → hex_tops 8 v 0 ≡ v
hex_tops-8 v h = omega arith

length-hex_loop : (k : ℕ) (stored : Bool) (v : ℕ) → length (hex_loop k stored v) ≤ k
unfolding hex_loop
length-hex_loop zero stored v = omega arith
length-hex_loop (suc k) stored v = ground (
  arith,
  length-hex_loop k true (v * 2 ^ 4 % 2 ^ 32),
  length-hex_loop k false (v * 2 ^ 4 % 2 ^ 32),
)

-- For each bit pattern of an `int`, the characters that `cvthex` stores, read as hexadecimal
-- digits, give it back, and they are at most eight.
pub cvthex-read : (v : ℕ) → v < 2 ^ 32 → (read_base 16 0 (cvthex v) ≡ v) × (length (cvthex v) ≤ 8)
unfolding cvthex
cvthex-read v h =
    (hex_loop-read 8 false v 0 (λ _. refl) ∙ hex_tops-8 v h, length-hex_loop 8 false v)

abbrev oct_tops : ℕ → ℕ → ℕ → ℕ → ℕ
oct_tops zero d v n = n
oct_tops (suc k) d v n = oct_tops k (v * 2 ^ 3 % 2 ^ 32 / 2 ^ 29) (v * 2 ^ 3 % 2 ^ 32) (8 * n + d)

oct_loop-read :
    (k : ℕ) (stored : Bool) (d v n : ℕ)
    → d < 8
    → (stored ≡ false → n ≡ 0)
    → read_base 8 n (oct_loop k stored d v) ≡ oct_tops k d v n
unfolding oct_loop
oct_loop-read zero stored d v n b z = refl
oct_loop-read (suc k) stored d v n b z =
    let next = v * 2 ^ 3 % 2 ^ 32 in
    elim (Bool-cases ((k == 0) || not (d == 0) || stored)) [
      | inl t ↦ rw t (
          ap (λ x. read_base 8 (8 * n + x) (oct_loop k true (next / 2 ^ 29) next))
            (hexdigits_lem d (omega arith))
          ∙ oct_loop-read k true (next / 2 ^ 29) next (8 * n + d) (omega arith)
              (λ f. ground (arith, f)))
      | inr t ↦
          let empty : n ≡ 0 = z (ground arith) in
          let same : n ≡ 8 * n + d = ground (arith, empty) in
          rw t (
            oct_loop-read k false (next / 2 ^ 29) next n (omega arith) (λ f. empty)
            ∙ ap (oct_tops k (next / 2 ^ 29) next) same)
    ]

oct_tops-11 : (v : ℕ) → v < 2 ^ 29 → oct_tops 11 0 v 0 ≡ 2 * v
oct_tops-11 v h = omega arith

-- For each number below 2^29, the characters that `cvtoct` stores, read as octal digits, give
-- twice the number.
pub cvtoct-read : (v : ℕ) → v < 2 ^ 29 → read_base 8 0 (cvtoct v) ≡ 2 * v
unfolding cvtoct
cvtoct-read v h =
    let top : first_octal v ≡ 0 = ground arith in
    rw top (oct_loop-read 11 false 0 v 0 (omega arith) (λ _. refl) ∙ oct_tops-11 v h)
