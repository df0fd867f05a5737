-- ===== src/Prelude/Lists.antt =====
-- Lists measured and indexed by native numbers, under the library's names, and duplicate-free
-- lists of addresses.
use Prim.Native.Nat.{ℕ, zero, suc, ◌+◌}
use mathlib.Core.Path.{◌≡◌, refl, ap}
use mathlib.Core.Logic.{◌⊎◌, inl, inr}
use mathlib.Core.Option.{Option, none, some}
use mathlib.Core.Bool.{Bool, true, false, ◌||◌}
use mathlib.Core.List.{List, [], ◌∷◌, ◌++◌, map}
use native.Mathlib.Omega.{arith}
use systems_os.Prelude.Tests.{◌==◌}

module _ {ℓ} {A : Type ℓ} where
  abbrev pub length : List A → ℕ
  length [] = 0
  length (x ∷ xs) = suc (length xs)

  abbrev pub take : ℕ → List A → List A
  take zero xs = []
  take (suc n) [] = []
  take (suc n) (x ∷ xs) = x ∷ take n xs

  abbrev pub drop : ℕ → List A → List A
  drop zero xs = xs
  drop (suc n) [] = []
  drop (suc n) (x ∷ xs) = drop n xs

  -- The first and the last element, or a default.
  abbrev pub head_or : A → List A → A
  head_or d [] = d
  head_or d (x ∷ xs) = x

  abbrev pub last_or : A → List A → A
  last_or d [] = d
  last_or d (x ∷ xs) = last_or x xs

  -- `x` before the element at position `i`.
  abbrev pub place : ℕ → A → List A → List A
  place i x xs = take i xs ++ (x ∷ drop i xs)

  pub length-append : (xs ys : List A) → length (xs ++ ys) ≡ length xs + length ys
  length-append [] ys = omega arith
  length-append (x ∷ xs) ys = omega (arith, length-append xs ys)

  pub take-append-drop : (n : ℕ) (xs : List A) → take n xs ++ drop n xs ≡ xs
  take-append-drop zero xs = refl
  take-append-drop (suc n) [] = refl
  take-append-drop (suc n) (x ∷ xs) = ap (◌∷◌ x) (take-append-drop n xs)

  pub length-place : (n : ℕ) (x : A) (xs : List A) → length (place n x xs) ≡ suc (length xs)
  length-place zero x xs = refl
  length-place (suc n) x [] = refl
  length-place (suc n) x (y ∷ xs) = ap suc (length-place n x xs)

  pub place-length : (x : A) (xs : List A) → place (length xs) x xs ≡ xs ++ (x ∷ [])
  place-length x [] = refl
  place-length x (y ∷ xs) = ap (◌∷◌ y) (place-length x xs)

  pub last_or-append : (d x : A) (xs ys : List A) → last_or d (xs ++ (x ∷ ys)) ≡ last_or x ys
  last_or-append d x [] ys = refl
  last_or-append d x (y ∷ xs) ys = last_or-append y x xs ys

module _ {ℓ κ} {A : Type ℓ} {B : Type κ} where
  pub map-place :
      (f : A → B) (n : ℕ) (x : A) (xs : List A) → map f (place n x xs) ≡ place n (f x) (map f xs)
  map-place f zero x xs = refl
  map-place f (suc n) x [] = refl
  map-place f (suc n) x (y ∷ xs) = ap (◌∷◌ (f y)) (map-place f n x xs)

  pub length-map : (f : A → B) (xs : List A) → length (map f xs) ≡ length xs
  length-map f [] = refl
  length-map f (x ∷ xs) = ap suc (length-map f xs)

abbrev pub has : ℕ → List ℕ → Bool
has a [] = false
has a (x ∷ xs) = (a == x) || has a xs

abbrev pub NoDup : List ℕ → Type 0
NoDup [] = Unit
NoDup (x ∷ xs) = (has x xs ≡ false) × NoDup xs

pub map-congr {ℓ} :
    {B : Type ℓ} (f g : ℕ → B) (xs : List ℕ)
    → ((a : ℕ) → has a xs ≡ true → f a ≡ g a)
    → map f xs ≡ map g xs
map-congr f g [] h = refl
map-congr f g (x ∷ xs) h = ground (arith, h x, map-congr f g xs (λ a i. h a (ground arith)))

pub has-append : (a : ℕ) (xs ys : List ℕ) → has a (xs ++ ys) ≡ (has a xs || has a ys)
has-append a [] ys = refl
has-append a (x ∷ xs) ys = ground (arith, has-append a xs ys)

pub has-place : (a i x : ℕ) (xs : List ℕ) → has a (place i x xs) ≡ ((a == x) || has a xs)
has-place a zero x xs = refl
has-place a (suc i) x [] = refl
has-place a (suc i) x (y ∷ xs) = ground (arith, has-place a i x xs)

pub place-NoDup : (i x : ℕ) (xs : List ℕ) → has x xs ≡ false → NoDup xs → NoDup (place i x xs)
place-NoDup zero x xs h d = (h, d)
place-NoDup (suc i) x [] h d = (refl, tt)
place-NoDup (suc i) x (y ∷ xs) h d =
    (ground (arith, has-place y i x xs), place-NoDup i x xs (ground arith) d.1)

pub has-last_or : (d : ℕ) (xs : List ℕ) → (has (last_or d xs) (d ∷ xs)) ≡ true
has-last_or d [] = ground arith
has-last_or d (x ∷ xs) = ground (arith, has-last_or x xs)

pub List-cases {ℓ} :
    {A : Type ℓ} (xs : List A) → (xs ≡ []) ⊎ ((x : A) × (ys : List A) × (xs ≡ x ∷ ys))
List-cases [] = inl refl
List-cases (x ∷ xs) = inr (x, xs, refl)

pub take-length {ℓ} : {A : Type ℓ} (xs : List A) → take (length xs) xs ≡ xs
take-length [] = refl
take-length (x ∷ xs) = ap (◌∷◌ x) (take-length xs)

pub drop-length {ℓ} : {A : Type ℓ} (xs : List A) → drop (length xs) xs ≡ []
drop-length [] = refl
drop-length (x ∷ xs) = drop-length xs

pub Option-cases {ℓ} : {A : Type ℓ} (o : Option A) → (o ≡ none) ⊎ ((a : A) × (o ≡ some a))
Option-cases none = inl refl
Option-cases (some a) = inr (a, refl)
