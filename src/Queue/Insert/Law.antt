-- ===== src/Queue/Insert/Law.antt =====
-- `_queue_insert` against the view.
use systems_os.Prelude.{
  ℕ, ◌<◌, ◌≡◌, refl, ◌≢◌, false, List, ◌∷◌, map, arith, inl, inr, ap, ap₂, ◌∙◌, ◌==◌, length, has,
  place, List-cases, Bool-cases, ne→eqb,
}
use systems_os.Machine.{panic, Returns, mono}
use systems_os.Queue.{Ptr, null, Store, qnode_alloc, insert, insert_with, take_node}
use systems_os.Queue.View.{Entry, entry, View, Represents}
use systems_os.Queue.Insert
use systems_os.Queue.Insert.{rank, view_insert, Inserted, Inserted-IsStore, Inserted-map}
use systems_os.Queue.Insert.Cases.{insert_node-Inserted}

module _ {m : Store} {v : View} (q x key : ℕ) (r : Represents m v) (used : q ≢ 0) where
  put-Represents :
      (a : Ptr) (rest : List Ptr) (source : r.layout 0 ≡ a ∷ rest) (m' : Store)
      → Inserted m m' r.layout q a
          (key, x)
          (rank (m.queue q).compare key (map (entry m) (r.layout q)))
      → Represents m' (view_insert q x key v)
  unfolding view_insert
  put-Represents a rest source m' put =
      let i = rank (m.queue q).compare key (map (entry m) (r.layout q)) in
      let order = r.order q used in
      let items = r.items q used in
      let e : Entry = (key, x) in
      record {
        layout = Insert.l' m m' r.layout q a e i rest r.store used source put;
        store = Inserted-IsStore m m' r.layout q a e i rest r.store used source put;
        items = λ s d. ground (
          arith,
          Inserted-map m m' r.layout q a e i rest r.store used source put s d,
          ap₂ (λ o es. place (rank o key es) e es) order items,
          r.items s d,
        );
        order = λ s d. ground (arith, put.others s, put.order, r.order s d);
        free = ground (arith, r.free, ap length source);
        pool = put.pool ∙ r.pool;
      }

alloc-some : (m : Store) (a : Ptr) → m.free_qnodes ≡ a → a ≢ 0 → qnode_alloc m ≡ (a, take_node a m)
unfolding qnode_alloc
alloc-some m a e f = rw (e, ne→eqb a 0 f)

alloc-none : (m : Store) → m.free_qnodes ≡ null → qnode_alloc m ≡ (null, m)
unfolding qnode_alloc
alloc-none m e = rw e

-- On a store that represents a view with a free node, `_queue_insert` returns, and the store
-- then represents the view with the entry placed at the rank of its key in that queue and one
-- free node less; nothing else of the view changes.
pub insert-view :
    (m : Store) (v : View) (q x key : ℕ)
    → Represents m v
    → q ≢ 0
    → 0 < v.free
    → Returns (λ _ m'. Represents m' (view_insert q x key v)) (insert q x key m)
unfolding insert insert_with
insert-view m v q x key r used some_free = elim (List-cases (r.layout 0)) [
  | inl e ↦ absurd (ground (arith, r.free, ap length e))
  | inr (a, rest, e) ↦
      let top : m.free_qnodes ≡ a = ground (arith, r.store.chain 0, e) in
      let live : a ≢ 0 = ground (arith, r.store.owned.range a 0, ap (has a) e) in
      let new : has a (r.layout q) ≡ false = elim (Bool-cases (has a (r.layout q))) [
        | inl i ↦ absurd (used (r.store.owned.unique a q 0 i (rw e (ground arith))))
        | inr i ↦ i
      ] in
      rw (alloc-some m a top live, ne→eqb a 0 live, ne→eqb q 0 used)
        (mono
          (insert_node-Inserted m _ r.layout q a key x r.store used live new (record {
            next = ground arith;
            own_entry = ground arith;
            nodes = λ b f. ground arith;
            free = ground arith;
            pool = refl;
            queues = λ b. refl;
          }))
          λ _ m' put. put-Represents q x key r used a rest e m' put)
]

-- On a store that represents a view without a free node, `_queue_insert` panics.
pub insert-panic :
    (m : Store) (v : View) (q x key : ℕ) → Represents m v → v.free ≡ 0 → insert q x key m ≡ panic
unfolding insert insert_with
insert-panic m v q x key r e = elim (List-cases (r.layout 0)) [
  | inl f ↦
      let top : m.free_qnodes ≡ null = ground (arith, r.store.chain 0, f) in
      rw (alloc-none m top) (elim (Bool-cases (q == null)) [ inl t ↦ rw t | inr t ↦ rw t ])
  | inr (a, rest, f) ↦ absurd (ground (arith, r.free, ap length f))
]
