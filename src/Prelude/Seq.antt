-- ===== src/Prelude/Seq.antt =====
-- The first values of a function as a list, for the contents of arrays.
use Prim.Native.Nat.{ℕ, zero, suc, ◌<◌}
use mathlib.Core.Path.{◌≡◌, refl, ap, ap₂}
use mathlib.Core.List.{List, [], ◌∷◌, ◌++◌}
use native.Mathlib.Omega.{arith}
use systems_os.Prelude.Lists.{length, length-append}

module _ {A : Type 0} where
  abbrev pub seq : (ℕ → A) → ℕ → List A
  seq g zero = []
  seq g (suc n) = seq g n ++ (g n ∷ [])

  pub seq-cons : (g : ℕ → A) (n : ℕ) → seq g (suc n) ≡ g 0 ∷ seq (λ k. g (suc k)) n
  seq-cons g zero = refl
  seq-cons g (suc n) = ap (λ l. l ++ (g (suc n) ∷ [])) (seq-cons g n)

  pub seq-congr : (g h : ℕ → A) (n : ℕ) → ((k : ℕ) → k < n → g k ≡ h k) → seq g n ≡ seq h n
  seq-congr g h zero e = refl
  seq-congr g h (suc n) e =
      ap₂ (λ l x. l ++ (x ∷ [])) (seq-congr g h n λ k b. e k (omega arith)) (e n (omega arith))

  pub length-seq : (g : ℕ → A) (n : ℕ) → length (seq g n) ≡ n
  length-seq g zero = refl
  length-seq g (suc n) = omega (arith, length-append (seq g n) (g n ∷ []), length-seq g n)
