-- ===== src/Queue/Boot.antt =====
-- `_queue_modinit`: from cleared variables to a store in which one queue holds all the others.
use mathlib.Core.Path.{subst}
use systems_os.Prelude.{
  ℕ, zero, suc, ◌+◌, ◌-◌, ◌≤◌, ◌<◌, ◌≡◌, refl, ◌≢◌, true, none, List, [], ◌∷◌, ◌++◌, arith, ap, sym,
  ◌∙◌, ◌==◌, if◌then◌else◌, ℕ_discrete, length, has, NoDup, place-length, append_assoc, append-nil,
  eq→eqb, ne→eqb,
}
use systems_os.Machine.{Returns, returns, bind, mono}
use systems_os.Queue.{null, n_qnodes, Store, qnode_dealloc, free_nodes, dealloc_from, modinit}
use systems_os.Queue.Chain.{Seg, frame}
use systems_os.Queue.View.{Layout, links, Owned, Entry, View, Represents}
use systems_os.Queue.Insert.{view_insert, rank}
use systems_os.Queue.Init.{cleared, view_reset, init-view, dealloc-view}

-- The numbers from `n` down to 1.
abbrev down : ℕ → List ℕ
down zero = []
down (suc n) = suc n ∷ down n

has-down : (a n : ℕ) → has a (down n) ≡ true → (0 < a) × (a ≤ n)
has-down a zero h = cc
has-down a (suc n) h = ground (arith, has-down a n)

down-NoDup : (n : ℕ) → NoDup (down n)
down-NoDup zero = tt
down-NoDup (suc n) = (ground (arith, has-down (suc n) n), down-NoDup n)

length-down : (n : ℕ) → length (down n) ≡ n
length-down zero = refl
length-down (suc n) = ap suc (length-down n)

-- The first `n` nodes are free, and no queue holds any.
record IsPool (m : Store) (n : ℕ) : Type 0 where
  chain : Seg (links m) m.free_qnodes (down n) null
  clear : (q : ℕ) → m.queue q ≡ cleared none

free-IsPool : (m : Store) (n : ℕ) → IsPool m n → IsPool (qnode_dealloc (suc n) m) (suc n)
unfolding qnode_dealloc
free-IsPool m n p = record {
  chain = (
    refl,
    rw (eq→eqb (suc n) (suc n) refl, links)
        (frame (links m) _ m.free_qnodes null (down n) (λ a i. ground (arith, has-down a n))
          p.chain),
  );
  clear = p.clear;
}

free_nodes-IsPool :
    (k n p j : ℕ) (m : Store) → p ≡ suc n → j ≡ k + n → IsPool m n → IsPool (free_nodes k p m) j
unfolding free_nodes
free_nodes-IsPool zero n p j m e f s = let g : j ≡ n = omega arith in rw g s
free_nodes-IsPool (suc k) n p j m e f s =
    free_nodes-IsPool k (suc n) (p + 1) j (qnode_dealloc p m) (omega arith) (omega arith)
      (rw e (free-IsPool m n s))

-- The store after the first loop, with its view.
abbrev blank : ℕ → View
blank n = record { items = λ q. []; order = λ q. none; free = n; pool = 1 }

abbrev pool_layout : ℕ → Layout
pool_layout n q = if q == 0 then down n else []

pool-Owned : (n : ℕ) → n ≤ n_qnodes → Owned (pool_layout n)
pool-Owned n h = record {
  nodup = λ q. elim (ℕ_discrete q 0) [ yes f ↦ rw f (down-NoDup n) | no f ↦ rw (ne→eqb q 0 f) tt ];
  unique = λ a q r i j. ground arith;
  range = λ a q i. ground (arith, has-down a n);
}

pool-Represents :
    (n : ℕ) (m : Store) → n ≤ n_qnodes → IsPool m n → m.free_queues ≡ 1 → Represents m (blank n)
pool-Represents n m h p e = record {
  layout = pool_layout n;
  store = record {
    owned = pool-Owned n h;
    chain =
        λ q. elim (ℕ_discrete q 0) [ yes f ↦ rw f p.chain | no f ↦ rw (ne→eqb q 0 f, p.clear q) ];
    ends = λ q d. rw (ne→eqb q 0 d, p.clear q);
    size = λ q d. rw (ne→eqb q 0 d, p.clear q);
  };
  items = λ q d. rw (ne→eqb q 0 d);
  order = λ q d. ap (λ h. h.compare) (p.clear q);
  free = length-down n;
  pool = e;
}

-- While queues are freed: the queue 1 holds the entries `es`, no other queue holds any.
record IsBoot (v : View) (es : List Entry) (f : ℕ) : Type 0 where
  pool : v.pool ≡ 1
  freed : v.items 1 ≡ es
  others : (r : ℕ) → r ≢ 1 → v.items r ≡ []
  order : (r : ℕ) → v.order r ≡ none
  free : v.free ≡ f

-- The entries that freeing `n` queues from `q` on adds.
abbrev pub queues_from : ℕ → ℕ → List Entry
queues_from zero q = []
queues_from (suc n) q = (0, q) ∷ queues_from n (q + 1)

freed-IsBoot :
    (v : View) (q : ℕ) (es : List Entry) (f : ℕ)
    → IsBoot v es f
    → q ≢ 1
    → IsBoot (view_insert v.pool q 0 (view_reset q none v)) (es ++ ((0, q) ∷ [])) (f - 1)
unfolding view_insert
freed-IsBoot v q es f b d =
    subst (λ p. IsBoot (view_insert p q 0 (view_reset q none v)) (es ++ ((0, q) ∷ [])) (f - 1))
      (sym b.pool)
      (record {
        pool = b.pool;
        freed =
            let o : (if 1 == q then none else v.order 1) ≡ none = ground (arith, b.order 1) in
            rw (o, rank) (place-length (0, q) (v.items 1) ∙ ap (λ l. l ++ ((0, q) ∷ [])) b.freed);
        others = λ r e. rw (ne→eqb r 1 e) (b.others r e);
        order = λ r. ground (arith, b.order r);
        free = omega (arith, b.free);
      })

dealloc_from-IsBoot :
    (n q f g : ℕ) (es : List Entry) (m : Store) (v : View)
    → Represents m v
    → IsBoot v es f
    → 1 < q
    → f ≡ n + g
    → Returns
        (λ _ m'. (v' : View) × Represents m' v' × IsBoot v' (es ++ queues_from n q) g)
        (dealloc_from n q m)
unfolding dealloc_from
dealloc_from-IsBoot zero q f g es m v r b h e = returns (
  v,
  r,
  record {
    pool = b.pool;
    freed = rw append-nil b.freed;
    others = b.others;
    order = b.order;
    free = omega (arith, b.free);
  },
)
dealloc_from-IsBoot (suc n) q f g es m v r b h e =
    bind
      (dealloc-view m v q r (omega arith) (omega (arith, b.pool)) (b.others q (omega arith))
        (omega (arith, b.free)))
      λ _ m' r'.
        mono
          (dealloc_from-IsBoot n (q + 1) (f - 1) g (es ++ ((0, q) ∷ [])) m' _ r'
            (freed-IsBoot v q es f b (omega arith)) (omega arith) (omega arith))
          λ _ m'' (v'', r'', b''). (v'', r'', rw append_assoc at b'')

-- If every queue head is cleared, `_queue_modinit` returns, and the store then represents a view
-- in which the first queue holds the nine others in the order of their addresses, all other
-- queues are empty, no queue has a comparison, and 54 of the 63 nodes are free.
pub modinit-view :
    (m : Store)
    → ((q : ℕ) → m.queue q ≡ cleared none)
    → Returns
        (λ _ m'.
          (v : View) × Represents m' v
          × (v.pool ≡ 1)
          × (v.items 1 ≡ queues_from 9 2)
          × ((q : ℕ) → q ≢ 1 → v.items q ≡ [])
          × ((q : ℕ) → v.order q ≡ none)
          × (v.free ≡ 54))
        (modinit m)
unfolding modinit
modinit-view m clear =
    let m0 : Store = record m { free_qnodes = null } in
    let pool =
      free_nodes-IsPool n_qnodes 0 1 n_qnodes m0 refl refl
        (record { chain = refl; clear = clear }) in
    let m1 = free_nodes n_qnodes 1 m0 in
    let m2 : Store = record m1 { free_queues = 1 } in
    let start =
      pool-Represents n_qnodes m2 (omega arith) (record { chain = pool.chain; clear = pool.clear })
        refl in
    bind (init-view m2 (blank n_qnodes) 1 none start (omega arith) refl) λ _ m3 r.
      mono
        (dealloc_from-IsBoot 9 2 63 54 [] m3 _ r
          (record {
            pool = refl;
            freed = refl;
            others = λ q d. refl;
            order = λ q. ground arith;
            free = refl;
          })
          (omega arith) (omega arith))
        λ _ m4 (v, r', b). (v, r', b.pool, b.freed, b.others, b.order, b.free)
