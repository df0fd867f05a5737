-- ===== src/Convert/Decimal.antt =====
-- Reading the digits back.
use systems_os.Prelude.{
  ℕ, zero, suc, ◌+◌, ◌-◌, ◌*◌, ◌%◌, ◌^◌, ◌<◌, ◌≤◌, ◌≡◌, ◌≢◌, ◌⊎◌, refl, Option, some, List, [], ◌∷◌,
  ◌++◌, arith, ltb, ◌∙◌, inl, inr, ℕ_discrete, eq→eqb, ne→eqb, Bool-cases,
}
use systems_os.Convert.{quotient, digit, cvtdec0, cvtdec}

-- The number that a list of digits stands for, behind the number read so far.
abbrev pub read : ℕ → List ℕ → ℕ
read n [] = n
read n (c ∷ cs) = read (10 * n + (c - 48)) cs

read-append : (n d : ℕ) (cs : List ℕ) → read n (cs ++ (d ∷ [])) ≡ 10 * read n cs + (d - 48)
read-append n d [] = refl
read-append n d (c ∷ cs) = read-append (10 * n + (c - 48)) d cs

-- A power of ten.
abbrev tens : ℕ → ℕ
tens zero = 1
tens (suc n) = 10 * tens n

abbrev Reads : ℕ → Option (List ℕ) → Type 0
Reads w r = (ds : List ℕ) × (r ≡ some ds) × (read 0 ds ≡ w)

quotient-digit : (w : ℕ) → w ≤ 2 ^ 31 → 10 * quotient w + (digit w - 48) ≡ w
quotient-digit w h = ground arith

cvtdec0-one : (fuel w : ℕ) → w ≤ 2 ^ 31 → quotient w ≡ 0 → Reads w (cvtdec0 (suc fuel) w)
unfolding cvtdec0
cvtdec0-one fuel w h e =
    rw (eq→eqb (quotient w) 0 e) (digit w ∷ [], refl, omega (arith, quotient-digit w h))

cvtdec0-more :
    (fuel w : ℕ)
    → w ≤ 2 ^ 31
    → quotient w ≢ 0
    → Reads (quotient w) (cvtdec0 fuel (quotient w))
    → Reads w (cvtdec0 (suc fuel) w)
unfolding cvtdec0
cvtdec0-more fuel w h d (ds, same, value) =
    rw (ne→eqb (quotient w) 0 d, same)
      (
        ds ++ (digit w ∷ []),
        refl,
        read-append 0 (digit w) ds ∙ omega (arith, quotient-digit w h, value),
      )

cvtdec0-Reads : (fuel w : ℕ) → w ≤ 2 ^ 31 → w < tens (suc fuel) → Reads w (cvtdec0 (suc fuel) w)
cvtdec0-Reads zero w h lt = cvtdec0-one 0 w h (ground arith)
cvtdec0-Reads (suc fuel) w h lt = elim (ℕ_discrete (quotient w) 0) [
  | yes e ↦ cvtdec0-one (suc fuel) w h e
  | no d ↦ cvtdec0-more (suc fuel) w h d (
      cvtdec0-Reads fuel (quotient w) (omega (arith, quotient-digit w h))
        (omega (arith, quotient-digit w h)))
]

-- The sign and the magnitude of an `int`.
abbrev pub IsDecimal : ℕ → Option (List ℕ) → Type 0
IsDecimal w r =
    (ds : List ℕ) × (((w < 2 ^ 31) × (r ≡ some ds) × (read 0 ds ≡ w))
      ⊎ ((2 ^ 31 ≤ w) × (r ≡ some (45 ∷ ds)) × (read 0 ds ≡ 2 ^ 32 - w)))

-- For each bit pattern of an `int`, ten levels of recursion are enough for `cvtdec`, and its
-- digits, read back, give the number, or for a negative number its magnitude behind a minus
-- sign, the least number included.
pub cvtdec-IsDecimal : (w : ℕ) → w < 2 ^ 32 → IsDecimal w (cvtdec w)
unfolding cvtdec
cvtdec-IsDecimal w h = elim (Bool-cases (ltb w (2 ^ 31))) [
  | inl t ↦
      let (ds, same, value) = cvtdec0-Reads 9 w (ground arith) (ground arith) in
      rw (t, same) (ds, inl (ground arith, refl, value))
  | inr t ↦
      let neg : (2 ^ 32 - w) % 2 ^ 32 ≡ 2 ^ 32 - w = ground arith in
      let (ds, same, value) =
        cvtdec0-Reads 9 ((2 ^ 32 - w) % 2 ^ 32) (ground arith) (ground arith) in
      rw (t, same) (ds, inr (ground arith, refl, value ∙ neg))
]
