-- ===== src/Queue/Insert/Cases.antt =====
-- The three ways in which `_queue_insert` adds its node, and what they have in common.
use systems_os.Prelude.{
  ℕ, suc, ◌<◌, ◌≡◌, refl, ◌≢◌, true, false, none, some, List, [], ◌∷◌, map, arith, inl, inr, ap,
  sym, ◌∙◌, ◌==◌, if◌then◌else◌, length, head_or, last_or, has, take, drop, List-cases,
  Option-cases, map-congr, take-length, drop-length, has-last_or, length-map, ◌++◌, last_or-append,
  has-append, take-append-drop, ne→eqb,
}
use systems_os.Machine.{Returns, returns}
use systems_os.Queue.{Ptr, null, Comparison, Store, insert_node, add_by, link}
use systems_os.Queue.Chain.{Seg, frame}
use systems_os.Queue.View.{Layout, links, IsStore, Entry, entry, length-layout}
use systems_os.Queue.Insert.{skip, rank, Inserted}
use systems_os.Queue.Insert.Scan.{scan-skip}

-- The store after `_qnode_alloc` and the assignments to the fields of its node.
pub record Filled (m mf : Store) (a : Ptr) (e : Entry) : Type 0 where
  pub next : links mf a ≡ null
  pub own_entry : entry mf a ≡ e
  pub nodes : (b : Ptr) → b ≢ a → mf.node b ≡ m.node b
  pub free : mf.free_qnodes ≡ links m a
  pub pool : mf.free_queues ≡ m.free_queues
  pub queues : (q : Ptr) → mf.queue q ≡ m.queue q

last_link :
    (a : Ptr) (xs ys : List Ptr)
    → ((b : Ptr) → has b ys ≡ true → 0 < b)
    → (if head_or null ys == null then a else last_or null (xs ++ ys)) ≡ last_or a ys
last_link a xs [] h = refl
last_link a xs (y ∷ ys) h = ground (arith, h y, last_or-append null y xs ys)

last_live : (xs : List Ptr) → ((b : Ptr) → has b xs ≡ true → 0 < b) → xs ≢ [] → 0 < last_or null xs
last_live [] h e = absurd (e refl)
last_live (x ∷ xs) h e = h (last_or x xs) (has-last_or x xs)

module _ (m mf : Store) (l : Layout) (q : ℕ) (a : Ptr) (key x : ℕ) (s : IsStore m l) (used : q ≢ 0)
    (live : a ≢ 0) (new : has a (l q) ≡ false) (filled : Filled m mf a (key, x)) where
  abbrev Put : Store → ℕ → Type 0
  Put m' i = Inserted m m' l q a (key, x) i

  insert-nil :
      (i : ℕ)
      → l q ≡ []
      → take i (l q) ≡ []
      → drop i (l q) ≡ []
      → Returns (λ _ m'. Put m' i) (insert_node q a key mf)
  unfolding insert_node
  insert-nil i e t d =
      let first : (mf.queue q).first ≡ null = ground (arith, filled.queues q, s.chain q, e) in
      rw first (
        returns (record {
          at_a = rw (d, filled.next);
          same = λ b f g. ap (λ n. n.next) (filled.nodes b f);
          at_last = λ f. absurd (f t);
          free = filled.free;
          first = ground (arith, ap (last_or null) t);
          others = λ r f. ground (arith, filled.queues r);
          last = ground (arith, ap (last_or a) d);
          size = ground (arith, ap (λ n. suc (length n)) e);
          pool = filled.pool;
          order = ground (arith, filled.queues q);
          own_entry = filled.own_entry;
          entries = λ b f. ap (λ n. (n.key, n.item)) (filled.nodes b f);
        }))

  abbrev in_front : (i : ℕ) → List Ptr
  in_front i = take i (l q)

  whole : (i : ℕ) → take i (l q) ++ drop i (l q) ≡ l q
  whole i = take-append-drop i (l q)

  front_live : (i b : ℕ) → has b (take i (l q)) ≡ true → 0 < b
  front_live i b h =
      (s.owned.range b q (ground (arith, whole i, has-append b (take i (l q)) (drop i (l q))))).0

  back_live : (i b : ℕ) → has b (drop i (l q)) ≡ true → 0 < b
  back_live i b h =
      (s.owned.range b q (ground (arith, whole i, has-append b (take i (l q)) (drop i (l q))))).0

  prev_ne : (i : ℕ) → last_or null (take i (l q)) ≢ a
  prev_ne i e = elim (List-cases (take i (l q))) [
    | inl z ↦ live (sym e ∙ ap (last_or null) z)
    | inr (y, ys, z) ↦
        let inside : has a (take i (l q)) ≡ true =
          rw z (ground (arith, has-last_or y ys, ap (last_or null) z)) in
        ground (arith, whole i, has-append a (take i (l q)) (drop i (l q)))
  ]

  insert-link :
      (i : ℕ) → Put (link q a (last_or null (take i (l q))) (head_or null (drop i (l q))) mf) i
  unfolding link
  insert-link i =
      let z = last_link a (take i (l q)) (drop i (l q)) (back_live i) in
      let ne = prev_ne i in
      record {
        at_a = ground arith;
        same = λ b f g. ground (arith, filled.nodes b f);
        at_last = λ f. ground (arith, last_live (take i (l q)) (front_live i) f);
        free = ground (arith, filled.free);
        first = ground (arith, filled.queues q);
        others = λ r f. ground (arith, filled.queues r);
        last = ground (arith, filled.queues q, s.ends q used, ap (last_or null) (whole i));
        size = ground (arith, filled.queues q, s.size q used, length-layout l q s.owned);
        pool = ground (arith, filled.pool);
        order = ground (arith, filled.queues q);
        own_entry = ground (arith, filled.own_entry);
        entries = λ b f. ground (arith, filled.nodes b f);
      }

  first_live : l q ≢ [] → 0 < (m.queue q).first
  first_live e = elim (List-cases (l q)) [
    | inl z ↦ absurd (e z)
    | inr (y, ys, z) ↦ ground (arith, s.chain q, z, s.owned.range y q (rw z (ground arith)))
  ]

  other : (b : Ptr) → has b (l q) ≡ true → b ≢ a
  other b i f = ground (arith, new)

  kept_chain : Seg (links mf) (m.queue q).first (l q) null
  kept_chain =
      frame (links m) (links mf) (m.queue q).first null (l q)
        (λ b i. ap (λ n. n.next) (filled.nodes b (other b i))) (rw (ne→eqb q 0 used) at (s.chain q))

  kept_entries : map (entry mf) (l q) ≡ map (entry m) (l q)
  kept_entries =
      map-congr (entry mf) (entry m) (l q)
        λ b i. ap (λ n. (n.key, n.item)) (filled.nodes b (other b i))

  insert-some :
      (c : Comparison)
      → l q ≢ []
      → (m.queue q).compare ≡ some c
      → Returns (λ _ m'. Put m' (skip c key (map (entry m) (l q)))) (insert_node q a key mf)
  unfolding insert_node
  insert-some c e o =
      let walk =
        scan-skip c mf (suc (m.queue q).size) key null (m.queue q).first (l q) kept_chain
          (λ b i. (s.owned.range b q i).0) (omega (arith, s.size q used)) in
      rw
        (
          filled.queues q,
          ne→eqb (m.queue q).first 0 (omega (arith, first_live e)),
          o,
          add_by,
          filled.queues q,
          walk,
          kept_entries,
        )
        (returns (insert-link (skip c key (map (entry m) (l q)))))

  insert-none :
      l q ≢ []
      → (m.queue q).compare ≡ none
      → Returns (λ _ m'. Put m' (length (l q))) (insert_node q a key mf)
  unfolding insert_node
  insert-none e o =
      let live_last = last_live (l q) (λ b i. (s.owned.range b q i).0) e in
      let here = s.ends q used in
      let last_ne : last_or null (l q) ≢ a =
        λ z. prev_ne (length (l q)) (ap (last_or null) (take-length (l q)) ∙ z) in
      let t = take-length (l q) in
      let d = drop-length (l q) in
      rw
        (
          filled.queues q,
          ne→eqb (m.queue q).first 0 (omega (arith, first_live e)),
          o,
          add_by,
          filled.queues q,
          ne→eqb (m.queue q).last 0 (omega arith),
        )
        (returns (record {
          at_a = ground (arith, filled.next, here, last_ne, ap (head_or null) d);
          same = λ b f g. ground (arith, filled.nodes b f, here, ap (last_or null) t);
          at_last = λ f. ground (arith, here, ap (last_or null) t);
          free = filled.free;
          first = ground (arith, ap (last_or null) t, filled.queues q);
          others = λ r f. ground (arith, filled.queues r);
          last = ground (arith, ap (last_or a) d);
          size = ground (arith, s.size q used, length-layout l q s.owned);
          pool = filled.pool;
          order = ground (arith, filled.queues q);
          own_entry = ground (arith, here, last_ne, filled.own_entry);
          entries = λ b f. ground (arith, filled.nodes b f);
        }))

  -- In every case the node stands at the rank of its key.
  pub insert_node-Inserted :
      Returns
        (λ _ m'. Put m' (rank (m.queue q).compare key (map (entry m) (l q))))
        (insert_node q a key mf)
  insert_node-Inserted = elim (List-cases (l q)) [
    | inl e ↦ elim (Option-cases (m.queue q).compare) [
      | inl o ↦ rw (o, e, rank) (insert-nil 0 e refl e)
      | inr (c, o) ↦ rw (o, e, rank) (insert-nil 0 e refl e)
    ]
    | inr (y, ys, z) ↦
        let e : l q ≢ [] = λ t. cc in
        elim (Option-cases (m.queue q).compare) [
          | inl o ↦ rw (o, length-map (entry m) (l q)) (insert-none e o)
          | inr (c, o) ↦ rw o (insert-some c e o)
        ]
  ]
