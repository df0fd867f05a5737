-- ===== src/Queue/Init.antt =====
-- The life of a queue: `_queue_init`, `_queue_dealloc`, `_queue_alloc` and `_queue_modinit`.
use mathlib.Core.Path.{subst}
use systems_os.Prelude.{
  ℕ, zero, suc, ◌<◌, ◌≡◌, refl, ◌≢◌, Option, none, List, [], ◌∷◌, map, arith, inl, inr, ap, sym,
  ◌∙◌, ◌==◌, if◌then◌else◌, length, last_or, List-cases, ℕ_discrete, eq→eqb, ne→eqb,
}
use systems_os.Machine.{ok, Returns, returns, bind}
use systems_os.Queue.{
  Ptr, null, Comparison, QueueHead, Store, set_queue, init, insert, dealloc, alloc, empty, remove,
}
use systems_os.Queue.View.{Entry, entry, View, Represents}
use systems_os.Queue.Remove.{
  first_item, view_remove, view_remove-pool, view_remove-items, remove-view,
}
use systems_os.Queue.Insert.{view_insert}
use systems_os.Queue.Insert.Law.{insert-view}
use systems_os.Queue.Peek.{is_nil, empty-view}

abbrev pub cleared : Option Comparison → QueueHead
cleared c = record { first = null; last = null; compare = c; size = 0 }

-- The view with another comparison for one queue.
abbrev pub view_reset : Ptr → Option Comparison → View → View
view_reset q c v = record v { order = λ r. if r == q then c else v.order r }

-- An empty queue may be set up anew.
pub reset-view :
    (m : Store) (v : View) (q : ℕ) (c : Option Comparison)
    → Represents m v
    → q ≢ 0
    → v.items q ≡ []
    → Represents (set_queue m q (cleared c)) (view_reset q c v)
reset-view m v q c r used nothing =
    let none_here : r.layout q ≡ [] = elim (List-cases (r.layout q)) [
      | inl e ↦ e
      | inr (a, as', e) ↦ absurd (ground (arith, r.items q used, ap (map (entry m)) e))
    ] in
    record {
      layout = r.layout;
      store = record {
        owned = r.store.owned;
        chain = λ s. elim (ℕ_discrete s q) [
          | yes f ↦ rw (f, none_here, ne→eqb q 0 used, eq→eqb q q refl)
          | no f ↦ rw (ne→eqb s q f) (r.store.chain s)
        ];
        ends = λ s d. ground (arith, r.store.ends s d, ap (last_or null) none_here);
        size = λ s d. ground (arith, r.store.size s d, ap length none_here);
      };
      items = r.items;
      order = λ s d. ground (arith, r.order s d);
      free = r.free;
      pool = r.pool;
    }

-- `_queue_init` of an empty queue sets its comparison; nothing else changes.
pub init-view :
    (m : Store) (v : View) (q : ℕ) (c : Option Comparison)
    → Represents m v
    → q ≢ 0
    → v.items q ≡ []
    → Returns (λ _ m'. Represents m' (view_reset q c v)) (init q c m)
unfolding init
init-view m v q c r used nothing =
    rw (ne→eqb q 0 used) (returns (reset-view m v q c r used nothing))

-- On a store that represents a view with a free node, `_queue_dealloc` of an empty queue
-- returns, and the store then represents the view in which that queue has no comparison and is
-- inserted into the queue of free queues.
pub dealloc-view :
    (m : Store) (v : View) (q : ℕ)
    → Represents m v
    → q ≢ 0
    → v.pool ≢ 0
    → v.items q ≡ []
    → 0 < v.free
    → Returns (λ _ m'. Represents m' (view_insert v.pool q 0 (view_reset q none v))) (dealloc q m)
unfolding dealloc
dealloc-view m v q r used pool nothing free = rw (ne→eqb q 0 used) (
    subst
      (λ p.
        Returns (λ _ m'. Represents m' (view_insert v.pool q 0 (view_reset q none v)))
          (insert p q 0 (set_queue m q (cleared none))))
      (sym r.pool)
      (insert-view (set_queue m q (cleared none)) (view_reset q none v) v.pool q 0
        (reset-view m v q none r used nothing) pool free))

-- What `_queue_alloc` takes from the queue of free queues: the first `num` that are there, up to a
-- NULL, and the view without them.
abbrev pub take_items : ℕ → List Entry → List Ptr
take_items zero es = []
take_items (suc n) [] = []
take_items (suc n) ((k, x) ∷ es) = if x == null then [] else x ∷ take_items n es

abbrev pub AllLive : List Entry → Type 0
AllLive [] = Unit
AllLive ((k, x) ∷ es) = (x ≢ 0) × AllLive es

unfoldable pub view_alloc : ℕ → View → View
view_alloc zero v = v
view_alloc (suc n) v = if is_nil (v.items v.pool) then v else view_alloc n (view_remove v.pool v)

-- On a store that represents a view whose queue of free queues holds no NULL, `_queue_alloc`
-- returns the first queues held there, as many as were asked for or as there are, and the store
-- then represents the view without them.
pub alloc-view :
    (num : ℕ) (m : Store) (v : View)
    → Represents m v
    → v.pool ≢ 0
    → AllLive (v.items v.pool)
    → Returns
        (λ qs m'. (qs ≡ take_items num (v.items v.pool)) × Represents m' (view_alloc num v))
        (alloc num m)
unfolding alloc view_alloc
alloc-view zero m v r pool live = returns (refl, r)
alloc-view (suc num) m v r pool live =
    let at_pool = r.pool in
    let none_left : empty m.free_queues m ≡ ok (is_nil (v.items v.pool)) m =
      rw (ap (λ p. empty p m) at_pool) (empty-view m v v.pool r pool) in
    let removed =
      subst
        (λ p.
          Returns (λ x m'. (x ≡ first_item (v.items v.pool)) × Represents m' (view_remove v.pool v))
            (remove p m))
        (sym at_pool) (remove-view m v v.pool r pool) in
    elim (List-cases (v.items v.pool)) [
      | inl e ↦ rw (none_left, e, is_nil) (returns (refl, r))
      | inr ((k, x), es, e) ↦
          let live' : (x ≢ 0) × AllLive es = subst AllLive e live in
          let pool' : (view_remove v.pool v).pool ≡ v.pool = view_remove-pool v v.pool in
          let items' : (view_remove v.pool v).items v.pool ≡ es =
            view_remove-items v v.pool (k, x) es e in
          rw (none_left, e, is_nil)
            (bind removed λ y m' (first, r').
              let same : y ≡ x = first ∙ ap first_item e in
              rw (same, ne→eqb x 0 live'.0)
                (bind
                  (alloc-view num m' (view_remove v.pool v) r' (rw pool' pool)
                    (rw (pool', items') live'.1))
                  λ qs m'' (got, r''). returns (
                    ap (◌∷◌ x) (
                        got
                        ∙ ap (λ p. take_items num ((view_remove v.pool v).items p)) pool'
                        ∙ ap (take_items num) items'),
                    r'',
                  )))
    ]
