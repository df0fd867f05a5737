-- ===== src/Queue/Move.antt =====
-- A node moves from the front of one list of the layout into the middle of another.
use systems_os.Prelude.{
  ℕ, ◌≡◌, refl, ◌≢◌, true, false, List, [], ◌∷◌, ◌++◌, arith, eq→eqb, ne→eqb, Bool-cases,
  ℕ_discrete, inl, inr, ◌⊎◌, ap, ◌==◌, if◌then◌else◌, head_or, last_or, has, NoDup, has-append,
  has-last_or,
}
use systems_os.Queue.{Ptr, null, Store}
use systems_os.Queue.Chain.{Seg, frame, between, insert-NoDup}
use systems_os.Queue.View.{Layout, links, head, Owned, Chains}

last-has : (xs ys : List ℕ) → (last_or null xs ≡ null) ⊎ (has (last_or null xs) (xs ++ ys) ≡ true)
last-has [] ys = inl refl
last-has (x ∷ xs) ys = inr (ground (arith, has-append (last_or x xs) (x ∷ xs) ys, has-last_or x xs))

module _ (l : Layout) (o r : ℕ) (a : Ptr) (rest xs ys : List Ptr) (source : l o ≡ a ∷ rest)
    (target : l r ≡ xs ++ ys) (distinct : o ≢ r) (owned : Owned l) where
  abbrev pub moved : Layout
  moved s = if s == r then xs ++ (a ∷ ys) else if s == o then rest else l s

  at_source : has a (l o) ≡ true
  at_source = rw source (ground arith)

  pub not-has-target : has a (xs ++ ys) ≡ false
  not-has-target = elim (Bool-cases (has a (xs ++ ys))) [
    | inl i ↦ absurd (distinct (owned.unique a o r at_source (rw target i)))
    | inr i ↦ i
  ]

  has-moved :
      (b s : ℕ) → has b (moved s) ≡ true → ((b ≡ a) × (s ≡ r)) ⊎ ((b ≢ a) × (has b (l s) ≡ true))
  has-moved b s i = elim (ℕ_discrete s r) [
    | yes e ↦ elim (ℕ_discrete b a) [
      | yes x ↦ inl (x, e)
      | no x ↦ inr (
        x,
        ground (arith, ap (has b) target, ap l e, has-append b xs (a ∷ ys), has-append b xs ys),
      )
    ]
    | no e ↦ inr (
      (λ x. ground (
        arith,
        ap (has a) source,
        owned.nodup o,
        ap NoDup source,
        owned.unique a s o,
        at_source,
      )),
      ground (arith, ap (has b) source, ap l {x = s} {y = o}),
    )
  ]

  pub moved-Owned : Owned moved
  moved-Owned = record {
    nodup = λ q. ground (
      arith,
      insert-NoDup a xs ys,
      not-has-target,
      ap NoDup target,
      owned.nodup q,
      owned.nodup r,
      owned.nodup o,
      source,
    );
    unique = λ b q s i j. ground (arith, has-moved b q i, has-moved b s j, owned.unique b q s);
    range = λ b q i. ground (arith, has-moved b q i, owned.range b q, owned.range a o at_source);
  }

  pub moved_target : moved r ≡ xs ++ (a ∷ ys)
  moved_target = rw (eq→eqb r r refl)

  pub moved_source : moved o ≡ rest
  moved_source = rw (ne→eqb o r distinct, eq→eqb o o refl)

  pub moved_other : (s : ℕ) → s ≢ o → s ≢ r → moved s ≡ l s
  moved_other s d e = rw (ne→eqb s r e, ne→eqb s o d)

  elsewhere : (b s : ℕ) → s ≢ r → has b (l s) ≡ true → b ≢ last_or null xs
  elsewhere b s d i e = elim (last-has xs ys) [
    | inl z ↦ omega (arith, owned.range b s i, z)
    | inr z ↦ d (owned.unique b s r i (rw (target, e) z))
  ]

  -- The links and the heads that the move changes, and all others as they were.
  pub moved-Chains :
      (m m' : Store)
      → Chains m l
      → links m' a ≡ head_or null ys
      → ((b : Ptr) → b ≢ a → b ≢ last_or null xs → links m' b ≡ links m b)
      → (xs ≢ [] → links m' (last_or null xs) ≡ a)
      → head m' o ≡ links m a
      → head m' r ≡ (if last_or null xs == null then a else head m r)
      → ((s : ℕ) → s ≢ o → s ≢ r → head m' s ≡ head m s)
      → Chains m' moved
  moved-Chains m m' chain at_a same at_last at_o at_r others s = elim (ℕ_discrete s r) [
    | yes e ↦
        rw (e, moved_target)
          (between (links m) (links m') a (head m r) xs ys (rw target at (chain r))
            (rw target at (owned.nodup r)) not-has-target
            (λ b i. omega (arith, owned.range b r (rw target i))) at_a same at_last (head m' r)
            at_r)
    | no e ↦ elim (ℕ_discrete s o) [
      | yes f ↦
          let (_, tail) : Seg (links m) (head m o) (a ∷ rest) null = rw source at (chain o) in
          rw (f, moved_source, at_o)
            (frame (links m) (links m') (links m a) null rest
              (λ b i.
                same b (λ x. ground (arith, owned.nodup o, ap NoDup source))
                  (elsewhere b o distinct (rw source (ground arith))))
              tail)
      | no f ↦
          rw (moved_other s f e, others s f e)
            (frame (links m) (links m') (head m s) null (l s)
              (λ b i.
                same b (λ x. f (owned.unique a s o (rw (← x) i) at_source)) (elsewhere b s e i))
              (chain s))
    ]
  ]
