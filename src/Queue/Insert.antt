-- ===== src/Queue/Insert.antt =====
-- `_queue_insert` against the view: the new entry stands behind those that it does not precede, or
-- last where the queue has no comparison.
pub mod Scan
pub mod Cases
pub mod Law
use mathlib.Core.Path.{fun_ext}
use systems_os.Prelude.{
  ℕ, zero, suc, ◌+◌, ◌-◌, ◌≤◌, ◌<◌, ◌≡◌, refl, ◌≢◌, Bool, true, false, Option, none, some, List, [],
  ◌∷◌, ◌++◌, map, arith, inl, inr, ap, ap₂, sym, ◌∙◌, ◌==◌, if◌then◌else◌, ℕ_discrete, length,
  head_or, last_or, has, take, drop, place, List-cases, map-congr, map-place, length-place,
  take-append-drop, length-append, last_or-append, eq→eqb, ne→eqb,
}
use systems_os.Queue.{Ptr, null, nonneg, Comparison, Store}
use systems_os.Queue.Chain.{Seg, head-Seg}
use systems_os.Queue.View.{
  Layout, links, head, Owned, IsStore, Entry, entry, View, Represents, length-layout,
}
use systems_os.Queue.Move.{moved, moved_target, moved-Owned, moved-Chains, not-has-target}

-- How many entries the walk of an ordered insertion passes.
abbrev pub skip : Comparison → ℕ → List Entry → ℕ
skip c key [] = 0
skip c key ((k, x) ∷ es) = if nonneg (c key k) then suc (skip c key es) else 0

-- The place of a new entry.
abbrev pub rank : Option Comparison → ℕ → List Entry → ℕ
rank none key es = length es
rank (some c) key es = skip c key es

unfoldable pub view_insert : Ptr → ℕ → ℕ → View → View
view_insert q x key v = record v {
  items = λ r.
      if r == q then place (rank (v.order q) key (v.items q)) (key, x) (v.items q) else v.items r;
  free = v.free - 1;
}

-- What the three ways of adding a node have in common: the node `a`, taken from the free list, stands
-- at the place `i` of the queue `q`.
pub record Inserted (m m' : Store) (l : Layout) (q : ℕ) (a : Ptr) (e : Entry) (i : ℕ) : Type 0 where
  pub at_a : links m' a ≡ head_or null (drop i (l q))
  pub same : (b : Ptr) → b ≢ a → b ≢ last_or null (take i (l q)) → links m' b ≡ links m b
  pub at_last : take i (l q) ≢ [] → links m' (last_or null (take i (l q))) ≡ a
  pub free : m'.free_qnodes ≡ links m a
  pub first :
      (m'.queue q).first ≡ (if last_or null (take i (l q)) == null then a else (m.queue q).first)
  pub others : (s : ℕ) → s ≢ q → m'.queue s ≡ m.queue s
  pub last : (m'.queue q).last ≡ last_or a (drop i (l q))
  pub size : (m'.queue q).size ≡ suc (length (l q))
  pub pool : m'.free_queues ≡ m.free_queues
  pub order : (m'.queue q).compare ≡ (m.queue q).compare
  pub own_entry : entry m' a ≡ e
  pub entries : (b : Ptr) → b ≢ a → entry m' b ≡ entry m b

module _ (m m' : Store) (l : Layout) (q : ℕ) (a : Ptr) (e : Entry) (i : ℕ) (rest : List Ptr)
    (s : IsStore m l) (used : q ≢ 0) (source : l 0 ≡ a ∷ rest) (put : Inserted m m' l q a e i) where
  abbrev target : l q ≡ take i (l q) ++ drop i (l q)
  target = sym (take-append-drop i (l q))

  abbrev distinct : 0 ≢ q
  distinct x = used (sym x)

  abbrev pub l' : Layout
  l' = moved l 0 q a rest (take i (l q)) (drop i (l q)) source target distinct s.owned

  new : has a (l q) ≡ false
  new =
      rw target
        (not-has-target l 0 q a rest (take i (l q)) (drop i (l q)) source target distinct s.owned)

  Inserted-ends : (r : ℕ) → r ≢ 0 → (m'.queue r).last ≡ last_or null (l' r)
  Inserted-ends r d = ground (
    arith,
    put.last,
    put.others r,
    s.ends r d,
    last_or-append null a (take i (l q)) (drop i (l q)),
  )

  Inserted-size : (r : ℕ) → r ≢ 0 → (m'.queue r).size ≡ length (l' r)
  Inserted-size r d = ground (arith, put.size, put.others r, s.size r d, length-place i a (l q))

  Inserted-IsStore : IsStore m' l'
  Inserted-IsStore = record {
    owned = moved-Owned l 0 q a rest (take i (l q)) (drop i (l q)) source target distinct s.owned;
    chain =
        moved-Chains l 0 q a rest (take i (l q)) (drop i (l q)) source target distinct s.owned m m'
          s.chain put.at_a put.same put.at_last put.free (ground (arith, put.first))
          (λ r d f. ground (arith, put.others r f));
    ends = Inserted-ends;
    size = Inserted-size;
  }

  Inserted-items : map (entry m') (place i a (l q)) ≡ place i e (map (entry m) (l q))
  Inserted-items =
      let same : map (entry m') (l q) ≡ map (entry m) (l q) =
        map-congr (entry m') (entry m) (l q) λ b j. put.entries b λ x. ground (arith, new) in
      map-place (entry m') i a (l q) ∙ ap₂ (place i) put.own_entry same

  Inserted-others : (r : ℕ) → r ≢ 0 → r ≢ q → map (entry m') (l r) ≡ map (entry m) (l r)
  Inserted-others r d f =
      map-congr (entry m') (entry m) (l r)
        λ b j. put.entries b λ x. ground (arith, s.owned.unique a r 0, ap (has a) source)

  pub Inserted-map :
      (r : ℕ)
      → r ≢ 0
      → map (entry m') (l' r)
        ≡ (if r == q then place i e (map (entry m) (l q)) else map (entry m) (l r))
  Inserted-map r d = elim (ℕ_discrete r q) [
    | yes f ↦ rw (f, eq→eqb q q refl) Inserted-items
    | no f ↦ rw (ne→eqb r q f, ne→eqb r 0 d) (Inserted-others r d f)
  ]

pub view_insert-other :
    (v : View) (q x key r : ℕ) → r ≢ q → (view_insert q x key v).items r ≡ v.items r
unfolding view_insert
view_insert-other v q x key r d = rw (ne→eqb r q d)

pub view_insert-some : (v : View) (q x key : ℕ) → (view_insert q x key v).items q ≢ []
unfolding view_insert
view_insert-some v q x key = rw (eq→eqb q q refl) (λ h.
    ground
      (arith, ap length h, length-place (rank (v.order q) key (v.items q)) (key, x) (v.items q)))
