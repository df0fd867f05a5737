-- ===== src/Queue/Order.antt =====
-- The order that insertions keep: arrival in a queue without a comparison, time in the other.
use systems_os.Prelude.{
  ℕ, zero, suc, ◌+◌, ◌^◌, ◌≤◌, ◌<◌, ◌≡◌, refl, ◌≢◌, false, none, some, List, [], ◌∷◌, ◌++◌, arith,
  inl, inr, ap, leb, if◌then◌else◌, place, Bool-cases, place-length, eq→eqb,
}
use mathlib.Core.Path.{subst}
use systems_os.Machine.{Returns, mono}
use systems_os.Queue.{Store, insert, nonneg, compare_time}
use systems_os.Queue.View.{Entry, View, Represents}
use systems_os.Queue.Insert.{skip, rank, view_insert}
use systems_os.Queue.Insert.Law.{insert-view}

-- The keys rise, or stay, from each entry to the next.
abbrev pub Sorted : List Entry → Type 0
Sorted [] = Unit
Sorted ((k, x) ∷ []) = Unit
Sorted ((k, x) ∷ (j, y) ∷ es) = (k ≤ j) × Sorted ((j, y) ∷ es)

-- The keys lie in a window of less than half the range of a `uint32_t`.
abbrev pub InWindow : ℕ → List Entry → Type 0
InWindow lo [] = Unit
InWindow lo ((k, x) ∷ es) = (lo ≤ k) × (k < lo + 2 ^ 31) × InWindow lo es

-- Within the window the comparison is that of the numbers.
pub nonneg-compare_time :
    (lo a b : ℕ)
    → lo ≤ a
    → a < lo + 2 ^ 31
    → lo ≤ b
    → b < lo + 2 ^ 31
    → b < 2 ^ 32
    → nonneg (compare_time a b) ≡ leb b a
unfolding compare_time
nonneg-compare_time lo a b la ha lb hb wb = ground arith

skip-cons :
    (lo key k y : ℕ) (es : List Entry)
    → lo ≤ key
    → key < lo + 2 ^ 31
    → lo + 2 ^ 31 ≤ 2 ^ 32
    → InWindow lo ((k, y) ∷ es)
    → skip compare_time key ((k, y) ∷ es)
      ≡ (if leb k key then suc (skip compare_time key es) else 0)
skip-cons lo key k y es a b w i =
    ap (λ t. if t then suc (skip compare_time key es) else 0)
      (nonneg-compare_time lo key k a b i.0 i.1 (omega arith))

abbrev HeadAbove : ℕ → List Entry → Type 0
HeadAbove k [] = Unit
HeadAbove k ((j, z) ∷ es) = k ≤ j

cons-Sorted : (k y : ℕ) (es : List Entry) → HeadAbove k es → Sorted es → Sorted ((k, y) ∷ es)
cons-Sorted k y [] h s = tt
cons-Sorted k y ((j, z) ∷ es) h s = (h, s)

place-HeadAbove :
    (k key x n : ℕ) (es : List Entry) → k ≤ key → HeadAbove k es → HeadAbove k (place n (key, x) es)
place-HeadAbove k key x zero es a h = a
place-HeadAbove k key x (suc n) [] a h = a
place-HeadAbove k key x (suc n) ((j, z) ∷ es) a h = h

place-Sorted :
    (lo key x : ℕ) (es : List Entry)
    → lo ≤ key
    → key < lo + 2 ^ 31
    → lo + 2 ^ 31 ≤ 2 ^ 32
    → InWindow lo es
    → Sorted es
    → Sorted (place (skip compare_time key es) (key, x) es)
place-Sorted lo key x [] a b w i s = tt
place-Sorted lo key x ((k, y) ∷ []) a b w i s =
    rw (skip-cons lo key k y [] a b w i)
      (elim (Bool-cases (leb k key)) [ inl t ↦ rw t (ground arith) | inr t ↦ rw t (ground arith) ])
place-Sorted lo key x ((k, y) ∷ (j, z) ∷ es) a b w i s =
    let ih = place-Sorted lo key x ((j, z) ∷ es) a b w i.2 s.1 in
    rw (skip-cons lo key k y ((j, z) ∷ es) a b w i) (elim (Bool-cases (leb k key)) [
      | inl t ↦ rw t (
          cons-Sorted k y (place (skip compare_time key ((j, z) ∷ es)) (key, x) ((j, z) ∷ es))
            (place-HeadAbove k key x (skip compare_time key ((j, z) ∷ es)) ((j, z) ∷ es)
              (ground arith) s.0)
            ih)
      | inr t ↦ rw t (ground arith)
    ])

abbrev pub IsTimed : View → ℕ → Type 0
IsTimed v q = v.order q ≡ some compare_time

-- An insertion with a free node into a queue without a comparison returns and adds the entry
-- behind all others.
pub insert-last :
    (m : Store) (v : View) (q x key : ℕ)
    → Represents m v
    → q ≢ 0
    → 0 < v.free
    → v.order q ≡ none
    → Returns
        (λ _ m'. (v' : View) × Represents m' v' × (v'.items q ≡ v.items q ++ ((key, x) ∷ [])))
        (insert q x key m)
unfolding view_insert
insert-last m v q x key r used free e = mono (insert-view m v q x key r used free) λ _ m' r'.
    (view_insert q x key v, r', rw (eq→eqb q q refl, e, rank) (place-length (key, x) (v.items q)))

-- An insertion with a free node into a queue ordered by time whose keys rise returns and keeps
-- them rising, if they and the new key lie in one window of less than 2^31 that does not reach
-- beyond 2^32.
pub insert-Sorted :
    (m : Store) (v : View) (q x key lo : ℕ)
    → Represents m v
    → q ≢ 0
    → 0 < v.free
    → IsTimed v q
    → lo ≤ key
    → key < lo + 2 ^ 31
    → lo + 2 ^ 31 ≤ 2 ^ 32
    → InWindow lo (v.items q)
    → Sorted (v.items q)
    → Returns (λ _ m'. (v' : View) × Represents m' v' × Sorted (v'.items q)) (insert q x key m)
unfolding view_insert
insert-Sorted m v q x key lo r used free e a b w i s =
    mono (insert-view m v q x key r used free) λ _ m' r'. (
      view_insert q x key v,
      r',
      rw (eq→eqb q q refl, e, rank) (place-Sorted lo key x (v.items q) a b w i s),
    )

-- An insertion with a free node into a queue ordered by time, of a key 2^31 or more above the
-- first one, returns and puts the entry in front of all others, so that the keys no longer rise.
pub insert-misplaced :
    (m : Store) (v : View) (q x key j y : ℕ) (es : List Entry)
    → Represents m v
    → q ≢ 0
    → 0 < v.free
    → IsTimed v q
    → v.items q ≡ (j, y) ∷ es
    → j + 2 ^ 31 ≤ key
    → key < 2 ^ 32
    → Returns
        (λ _ m'.
          (v' : View) × Represents m' v'
          × (v'.items q ≡ (key, x) ∷ (j, y) ∷ es)
          × ¬ Sorted (v'.items q))
        (insert q x key m)
unfolding view_insert compare_time
insert-misplaced m v q x key j y es r used free e f far w =
    let negative : nonneg (compare_time key j) ≡ false = ground arith in
    let front : (view_insert q x key v).items q ≡ (key, x) ∷ (j, y) ∷ es =
      rw (eq→eqb q q refl, e, f, rank, negative) in
    mono (insert-view m v q x key r used free)
      λ _ m' r'. (view_insert q x key v, r', front, λ s. omega (arith, (subst Sorted front s).0))
