-- ===== src/Queue/Chain.antt =====
-- Chains of nodes: the addresses met by following `next`, and what a write does to them.
use systems_os.Prelude.{
  ℕ, ◌≡◌, refl, ◌∙◌, ap, ◌≢◌, true, false, List, [], ◌∷◌, ◌++◌, arith, ◌==◌, ne→eqb, if◌then◌else◌,
  head_or, last_or, has, NoDup, has-last_or, has-append,
}
use systems_os.Queue.{Ptr, null}

-- From `p` the links `nx` lead through the nodes `xs` to `z`.
abbrev pub Seg : (Ptr → Ptr) → Ptr → List Ptr → Ptr → Type 0
Seg nx p [] z = p ≡ z
Seg nx p (a ∷ l) z = (p ≡ a) × Seg nx (nx a) l z

module _ (nx : Ptr → Ptr) where
  pub head-Seg : (p z : Ptr) (xs : List Ptr) → Seg nx p xs z → p ≡ head_or z xs
  head-Seg p z [] s = s
  head-Seg p z (a ∷ l) s = s.0

  pub frame :
      (g : Ptr → Ptr) (p z : Ptr) (xs : List Ptr)
      → ((a : Ptr) → has a xs ≡ true → g a ≡ nx a)
      → Seg nx p xs z
      → Seg g p xs z
  frame g p z [] same s = s
  frame g p z (a ∷ l) same (e, s) =
      (e, rw (same a (ground arith)) (frame g (nx a) z l (λ b i. same b (ground arith)) s))

  pub split :
      (p z : Ptr) (xs ys : List Ptr)
      → Seg nx p (xs ++ ys) z
      → Seg nx p xs (head_or z ys) × Seg nx (head_or z ys) ys z
  split p z [] ys s = (head-Seg p z ys s, rw (← head-Seg p z ys s) s)
  split p z (a ∷ l) ys (e, s) = let (t, r) = split (nx a) z l ys s in ((e, t), r)

  pub join :
      (p z y : Ptr) (xs ys : List Ptr) → Seg nx p xs y → Seg nx y ys z → Seg nx p (xs ++ ys) z
  join p z y [] ys e s = rw e s
  join p z y (a ∷ l) ys (e, t) s = (e, join (nx a) z y l ys t s)

  -- Relinking the last node of a segment moves the segment's end.
  pub relink :
      (g : Ptr → Ptr) (p y z b : Ptr) (xs : List Ptr)
      → NoDup (b ∷ xs)
      → ((a : Ptr) → has a (b ∷ xs) ≡ true → a ≢ last_or b xs → g a ≡ nx a)
      → g (last_or b xs) ≡ z
      → Seg nx p (b ∷ xs) y
      → Seg g p (b ∷ xs) z
  relink g p y z b [] d same new (e, s) = (e, new)
  relink g p y z b (c ∷ xs) d same new (e, s) =
      let kept : g b ≡ nx b = same b (ground arith) (λ i. ground (arith, has-last_or c xs)) in
      (e, rw kept (relink g (nx b) y z c xs d.1 (λ a i. same a (ground arith)) new s))

  pub last-null : (p b : Ptr) (xs : List Ptr) → Seg nx p (b ∷ xs) null → nx (last_or b xs) ≡ null
  last-null p b [] (e, s) = s
  last-null p b (c ∷ xs) (e, s) = last-null (nx b) c xs s

apart : (a : ℕ) (xs ys : List ℕ) → NoDup (xs ++ ys) → has a xs ≡ true → has a ys ≡ false
apart a [] ys d i = cc
apart a (x ∷ xs) ys d i = ground (arith, has-append a xs ys, has-append x xs ys, apart a xs ys d.1)

NoDup-left : (xs ys : List ℕ) → NoDup (xs ++ ys) → NoDup xs
NoDup-left [] ys d = tt
NoDup-left (x ∷ xs) ys d = (ground (arith, has-append x xs ys), NoDup-left xs ys d.1)

-- The new node `n` between two parts of a chain: it leads to the second, and the last node of the
-- first, if there is one, leads to it.
module _ (nx g : Ptr → Ptr) (n : Ptr) where
  pub between :
      (p : Ptr) (xs ys : List Ptr)
      → Seg nx p (xs ++ ys) null
      → NoDup (xs ++ ys)
      → has n (xs ++ ys) ≡ false
      → ((a : Ptr) → has a (xs ++ ys) ≡ true → a ≢ null)
      → g n ≡ head_or null ys
      → ((a : Ptr) → a ≢ n → a ≢ last_or null xs → g a ≡ nx a)
      → (xs ≢ [] → g (last_or null xs) ≡ n)
      → (q : Ptr) → q ≡ (if last_or null xs == null then n else p)
      → Seg g q (xs ++ (n ∷ ys)) null
  between p [] ys s d new nonnull at_n same at_prev q e =
      let ends : (a : Ptr) → has a ys ≡ true → g a ≡ nx a =
        λ a i. same a (λ x. ground arith) (nonnull a i) in
      let start = frame nx g p null ys ends s in (e, rw (at_n, ← head-Seg g p null ys start) start)
  between p (b ∷ xs) ys s d new nonnull at_n same at_prev q e =
      let (front, back) = split nx p null (b ∷ xs) ys s in
      let prev = last_or b xs in
      let inside : has prev (b ∷ xs) ≡ true = has-last_or b xs in
      let not_null : prev ≢ null = nonnull prev (ground (arith, has-append prev (b ∷ xs) ys)) in
      let relinked =
        relink nx g p (head_or null ys) n b xs (NoDup-left (b ∷ xs) ys d)
          (λ a i o. same a (λ x. ground (arith, has-append a (b ∷ xs) ys)) o) (at_prev (λ x. cc))
          front in
      let kept : Seg g (head_or null ys) ys null =
        frame nx g (head_or null ys) null ys
          (λ a i.
            same a (λ x. ground (arith, has-append a (b ∷ xs) ys))
              (λ x. ground (arith, apart prev (b ∷ xs) ys d inside)))
          back in
      let q_eq : q ≡ p = e ∙ ap (λ t. if t then n else p) (ne→eqb prev null not_null) in
      rw q_eq (join g p null n (b ∷ xs) (n ∷ ys) relinked (refl, rw at_n kept))

pub insert-NoDup :
    (n : ℕ) (xs ys : List ℕ) → has n (xs ++ ys) ≡ false → NoDup (xs ++ ys) → NoDup (xs ++ (n ∷ ys))
insert-NoDup n [] ys h d = (h, d)
insert-NoDup n (x ∷ xs) ys h d = (
  ground (arith, has-append x xs (n ∷ ys), has-append x xs ys),
  insert-NoDup n xs ys (ground arith) d.1,
)
