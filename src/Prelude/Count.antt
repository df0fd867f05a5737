-- ===== src/Prelude/Count.antt =====
-- A duplicate-free list of numbers below a bound is no longer than the bound.
use Prim.Native.Nat.{ℕ, zero, suc, ◌≤◌, ◌<◌}
use mathlib.Core.Path.{◌≡◌, refl}
use mathlib.Core.Logic.{◌≢◌}
use mathlib.Core.Bool.{true, false}
use mathlib.Core.List.{List, [], ◌∷◌}
use native.Mathlib.Omega.{arith}
use systems_os.Prelude.Tests.{◌==◌, if◌then◌else◌}
use systems_os.Prelude.Lists.{length, has, NoDup}

without : ℕ → List ℕ → List ℕ
without n [] = []
without n (x ∷ xs) = let rest = without n xs in if x == n then rest else x ∷ rest

has-without : (a n : ℕ) (xs : List ℕ) → has a (without n xs) ≡ true → (has a xs ≡ true) × (a ≢ n)
unfolding without
has-without a n [] h = ground arith
has-without a n (x ∷ xs) h = ground (arith, has-without a n xs)

not-has-without : (a n : ℕ) (xs : List ℕ) → has a xs ≡ false → has a (without n xs) ≡ false
unfolding without
not-has-without a n [] h = refl
not-has-without a n (x ∷ xs) h = ground (arith, not-has-without a n xs)

without-NoDup : (n : ℕ) (xs : List ℕ) → NoDup xs → NoDup (without n xs)
unfolding without
without-NoDup n [] d = tt
without-NoDup n (x ∷ xs) d = ground (arith, without-NoDup n xs d.1, not-has-without x n xs)

without-absent : (n : ℕ) (xs : List ℕ) → has n xs ≡ false → without n xs ≡ xs
unfolding without
without-absent n [] h = refl
without-absent n (x ∷ xs) h = ground (arith, without-absent n xs)

length-without : (n : ℕ) (xs : List ℕ) → NoDup xs → length xs ≤ suc (length (without n xs))
unfolding without
length-without n [] d = omega arith
length-without n (x ∷ xs) d = ground (arith, length-without n xs d.1, without-absent n xs)

pub length-le_of_bound :
    (n : ℕ) (xs : List ℕ) → NoDup xs → ((a : ℕ) → has a xs ≡ true → a < n) → length xs ≤ n
length-le_of_bound zero [] d h = omega arith
length-le_of_bound zero (x ∷ xs) d h = absurd (ground (arith, h x))
length-le_of_bound (suc n) xs d h =
    let ih =
      length-le_of_bound n (without n xs) (without-NoDup n xs d)
        λ a i. ground (arith, has-without a n xs i, h a) in
    omega (arith, length-without n xs d, ih)
