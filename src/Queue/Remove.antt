-- ===== src/Queue/Remove.antt =====
-- `_queue_remove` against the view: the first entry leaves the queue and its node becomes free.
use systems_os.Prelude.{
  ℕ, suc, ◌<◌, ◌≡◌, refl, ◌≢◌, true, List, [], ◌∷◌, map, arith, inl, inr, ap, sym, ◌∙◌, ◌==◌,
  if◌then◌else◌, length, head_or, last_or, has, List-cases, eq→eqb, ne→eqb,
}
use mathlib.Core.Path.{fun_ext}
use systems_os.Machine.{Returns, returns}
use systems_os.Queue.{Ptr, null, Store, remove_first, remove}
use systems_os.Queue.Chain.{head-Seg}
use systems_os.Queue.View.{Layout, links, IsStore, Entry, entry, View, Represents, length-layout}
use systems_os.Queue.Move.{moved, moved-Owned, moved-Chains}

-- The first item of a queue, or NULL, and the view without it.
abbrev pub first_item : List Entry → ℕ
first_item [] = null
first_item ((k, x) ∷ es) = x

abbrev pub view_after : Ptr → View → List Entry → View
view_after q v [] = v
view_after q v (e ∷ es) = record v {
  items = λ r. if r == q then es else v.items r;
  free = suc v.free;
}

unfoldable pub view_remove : Ptr → View → View
view_remove q v = view_after q v (v.items q)

next_last :
    (a next last : Ptr) (rest : List Ptr)
    → next ≡ head_or null rest
    → last ≡ last_or null (a ∷ rest)
    → ((b : Ptr) → has b rest ≡ true → 0 < b)
    → (if next == null then null else last) ≡ last_or null rest
next_last a next last [] e f h = ground arith
next_last a next last (b ∷ bs) e f h = ground (arith, h b)

module _ (m : Store) (l : Layout) (q : ℕ) (a : Ptr) (rest : List Ptr) (s : IsStore m l)
    (used : q ≢ 0) (source : l q ≡ a ∷ rest) where
  abbrev m' : Store
  m' = remove_first q m

  abbrev l' : Layout
  l' = moved l q 0 a rest [] (l 0) source refl used s.owned

  first : (m.queue q).first ≡ a
  first = ground (arith, s.chain q, source)

  next : links m a ≡ head_or null rest
  next = head-Seg (links m) (links m a) null rest (rw source at (s.chain q)).1

  remove_ends : (r : ℕ) → r ≢ 0 → (m'.queue r).last ≡ last_or null (l' r)
  unfolding remove_first
  remove_ends r d = ground (
    arith,
    first,
    s.ends r d,
    ap (last_or null) source,
    next_last a (links m a) (m.queue q).last rest next (ground (arith, s.ends q used, source))
        (λ b i. (s.owned.range b q (rw source (ground arith))).0),
  )

  remove_size : (r : ℕ) → r ≢ 0 → (m'.queue r).size ≡ length (l' r)
  unfolding remove_first
  remove_size r d =
      ground (arith, s.size r d, s.size q used, ap (length) source, length-layout l q s.owned)

  remove-IsStore : IsStore m' l'
  unfolding remove_first
  remove-IsStore = record {
    owned = moved-Owned l q 0 a rest [] (l 0) source refl used s.owned;
    chain =
        moved-Chains l q 0 a rest [] (l 0) source refl used s.owned m m' s.chain
          (ground (arith, first, head-Seg (links m) m.free_qnodes null (l 0) (s.chain 0)))
          (λ b d e. ground (arith, first)) (λ e. absurd (e refl)) (ground (arith, first)) first
          (λ r d e. ground arith);
    ends = remove_ends;
    size = remove_size;
  }

  -- The other nodes keep their entries, and the removed node its own.
  remove-entry : (b : Ptr) → entry m' b ≡ entry m b
  unfolding remove_first
  remove-entry b = ground arith

  remove-pool : m'.free_queues ≡ m.free_queues
  unfolding remove_first
  remove-pool = refl

  remove-order : (r : ℕ) → (m'.queue r).compare ≡ (m.queue r).compare
  unfolding remove_first
  remove-order r = ground arith

-- On a store that represents a view, `_queue_remove` returns the item of the queue's first
-- entry, or NULL of an empty queue, and the store then represents the view without that entry
-- and with its node free.
pub remove-view :
    (m : Store) (v : View) (q : ℕ)
    → Represents m v
    → q ≢ 0
    → Returns (λ x m'. (x ≡ first_item (v.items q)) × Represents m' (view_remove q v)) (remove q m)
unfolding remove view_remove
remove-view m v q r used = elim (List-cases (r.layout q)) [
  | inl e ↦
      let nothing : v.items q ≡ [] = sym (r.items q used) ∙ ap (map (entry m)) e in
      let first : (m.queue q).first ≡ null = ground (arith, r.store.chain q, e) in
      rw (ne→eqb q 0 used, first, nothing, view_after) (returns (refl, r))
  | inr (a, rest, e) ↦
      let found : v.items q ≡ entry m a ∷ map (entry m) rest =
        sym (r.items q used) ∙ ap (map (entry m)) e in
      let start = first m r.layout q a rest r.store used e in
      let a_range = r.store.owned.range a q (rw e (ground arith)) in
      rw (ne→eqb q 0 used, start, ne→eqb a 0 (omega arith), found, view_after)
        (returns (
          refl,
          record {
            layout = l' m r.layout q a rest r.store used e;
            store = remove-IsStore m r.layout q a rest r.store used e;
            items = λ s d. rw (fun_ext (remove-entry m r.layout q a rest r.store used e)) (
                ground (
                  arith,
                  r.items s d,
                  ap (map (entry m)) {x = l' m r.layout q a rest r.store used e s} {y = rest},
                ));
            order = λ s d. remove-order m r.layout q a rest r.store used e s ∙ r.order s d;
            free = ap suc r.free;
            pool = remove-pool m r.layout q a rest r.store used e ∙ r.pool;
          },
        ))
]

pub view_remove-pool : (v : View) (q : ℕ) → (view_remove q v).pool ≡ v.pool
unfolding view_remove
view_remove-pool v q = elim (List-cases (v.items q)) [
  | inl e ↦ rw (e, view_after)
  | inr (x, es, e) ↦ rw (e, view_after)
]

pub view_remove-items :
    (v : View) (q : ℕ) (x : Entry) (es : List Entry)
    → v.items q ≡ x ∷ es
    → (view_remove q v).items q ≡ es
unfolding view_remove
view_remove-items v q x es e = rw (e, view_after, eq→eqb q q refl)

pub view_remove-other : (v : View) (q r : ℕ) → r ≢ q → (view_remove q v).items r ≡ v.items r
unfolding view_remove
view_remove-other v q r d = elim (List-cases (v.items q)) [
  | inl e ↦ rw (e, view_after)
  | inr (x, es, e) ↦ rw (e, view_after, ne→eqb r q d)
]
