-- ===== src/Files/First.antt =====
-- The first number that a test accepts, as the loops over the entries find it.
use systems_os.Prelude.{
  ℕ, zero, suc, ◌+◌, ◌≤◌, ◌<◌, ◌≡◌, ◌≢◌, refl, Bool, true, false, Option, none, some, arith,
  if◌then◌else◌, ap, ap₂, sym, ◌∙◌, inl, inr, Bool-cases, ℕ_discrete,
}
use mathlib.Core.Path.{subst}

-- The first number from `k` on, of `n`, that a test accepts.
abbrev pub first : (ℕ → Bool) → ℕ → ℕ → Option ℕ
first m zero k = none
first m (suc n) k = let rest = first m n (k + 1) in if m k then some k else rest

pub first-congr :
    (m m' : ℕ → Bool) (n k : ℕ)
    → ((j : ℕ) → k ≤ j → j < k + n → m j ≡ m' j)
    → first m n k ≡ first m' n k
first-congr m m' zero k e = refl
first-congr m m' (suc n) k e =
    ap₂ (λ b r. if b then some k else r) (e k (omega arith) (omega arith))
      (first-congr m m' n (k + 1) λ j a b. e j (omega arith) (omega arith))

-- Where none was accepted, the one that is accepted now is found.
pub first-set :
    (m m' : ℕ → Bool) (n k i : ℕ)
    → k ≤ i
    → i < k + n
    → m' i ≡ true
    → ((j : ℕ) → j ≢ i → m' j ≡ m j)
    → first m n k ≡ none
    → first m' n k ≡ some i
first-set m m' zero k i a b t e r = absurd (omega arith)
first-set m m' (suc n) k i a b t e r = elim (ℕ_discrete k i) [
  | yes q ↦ subst (λ j. (if m' j then some j else first m' n (k + 1)) ≡ some i) (sym q) (rw t refl)
  | no d ↦
      let here : m k ≡ false = ground arith in
      let rest : first m n (k + 1) ≡ none =
        ap (λ b. if b then some k else first m n (k + 1)) (sym here) ∙ r in
      rw (e k d, here) (first-set m m' n (k + 1) i (omega arith) (omega arith) t e rest)
]

pub first-none :
    (m : ℕ → Bool) (n k : ℕ) → ((j : ℕ) → k ≤ j → j < k + n → m j ≡ false) → first m n k ≡ none
first-none m zero k e = refl
first-none m (suc n) k e =
    rw (e k (omega arith) (omega arith))
      (first-none m n (k + 1) λ j a b. e j (omega arith) (omega arith))

-- What is found is accepted.
pub first-some :
    (m : ℕ → Bool) (n k i : ℕ) → first m n k ≡ some i → (m i ≡ true) × (i < k + n) × (k ≤ i)
first-some m zero k i e = absurd (ground arith)
first-some m (suc n) k i e = elim (Bool-cases (m k)) [
  | inl t ↦
      let q : some k ≡ some i = ap (λ b. if b then some k else first m n (k + 1)) (sym t) ∙ e in
      let same_index : k ≡ i = cc in
      (ap m (sym same_index) ∙ t, omega (arith, same_index), omega (arith, same_index))
  | inr t ↦
      let q : first m n (k + 1) ≡ some i =
        ap (λ b. if b then some k else first m n (k + 1)) (sym t) ∙ e in
      let (a, b, c) = first-some m n (k + 1) i q in (a, omega arith, omega arith)
]

pub none-at : (m : ℕ → Bool) (n k j : ℕ) → first m n k ≡ none → k ≤ j → j < k + n → m j ≡ false
none-at m zero k j e a b = absurd (omega arith)
none-at m (suc n) k j e a b = elim (Bool-cases (m k)) [
  | inl t ↦ absurd (ground arith)
  | inr t ↦
      let rest : first m n (k + 1) ≡ none =
        ap (λ b. if b then some k else first m n (k + 1)) (sym t) ∙ e in
      elim (ℕ_discrete j k) [
        | yes q ↦ ap m q ∙ t
        | no d ↦ none-at m n (k + 1) j rest (omega arith) (omega arith)
      ]
]
