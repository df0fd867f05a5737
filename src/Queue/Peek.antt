-- ===== src/Queue/Peek.antt =====
-- `_queue_empty`, `_queue_size`, `_queue_kpeek` and `_queue_dpeek` against the view.
use systems_os.Prelude.{
  ℕ, ◌≡◌, refl, ◌≢◌, Bool, true, false, List, [], ◌∷◌, map, arith, inl, inr, ap, sym, ◌∙◌, ◌==◌,
  if◌then◌else◌, length, List-cases, length-map, ne→eqb,
}
use systems_os.Machine.{ok}
use systems_os.Queue.{null, Store, empty, size, kpeek, dpeek}
use systems_os.Queue.View.{Entry, entry, View, Represents}
use systems_os.Queue.Remove.{first_item}

abbrev pub is_nil : List Entry → Bool
is_nil [] = true
is_nil (e ∷ es) = false

-- The first key of a queue, or NULL.
abbrev pub first_key : List Entry → ℕ
first_key [] = null
first_key ((k, x) ∷ es) = k

record FirstOf (m : Store) (q : ℕ) (es : List Entry) : Type 0 where
  none_left : ((m.queue q).first == null) ≡ is_nil es
  key : (if is_nil es then null else (m.node (m.queue q).first).key) ≡ first_key es
  item : (if is_nil es then null else (m.node (m.queue q).first).item) ≡ first_item es

first-of : (m : Store) (v : View) (q : ℕ) → Represents m v → q ≢ 0 → FirstOf m q (v.items q)
first-of m v q r used = elim (List-cases (r.layout q)) [
  | inl e ↦
      let nothing : v.items q ≡ [] = sym (r.items q used) ∙ ap (map (entry m)) e in
      let start : (m.queue q).first ≡ null = ground (arith, r.store.chain q, e) in
      rw nothing (record { none_left = rw start; key = refl; item = refl })
  | inr (a, rest, e) ↦
      let found : v.items q ≡ entry m a ∷ map (entry m) rest =
        sym (r.items q used) ∙ ap (map (entry m)) e in
      let start : (m.queue q).first ≡ a = ground (arith, r.store.chain q, e) in
      let live = (r.store.owned.range a q (rw e (ground arith))).0 in
      rw found (record {
        none_left = rw (start, ne→eqb a 0 (omega arith));
        key = rw start;
        item = rw start;
      })
]

module _ (m : Store) (v : View) (q : ℕ) (r : Represents m v) (used : q ≢ 0) where
  pub empty-view : empty q m ≡ ok (is_nil (v.items q)) m
  unfolding empty
  empty-view = rw (ne→eqb q 0 used, (first-of m v q r used).none_left)

  -- `_queue_size`.
  pub size-view : size q m ≡ ok (length (v.items q)) m
  unfolding size
  size-view =
      rw (ne→eqb q 0 used, r.store.size q used, ← r.items q used, length-map (entry m) (r.layout q))

  -- `_queue_kpeek`.
  pub kpeek-view : kpeek q m ≡ ok (first_key (v.items q)) m
  unfolding kpeek
  kpeek-view = rw (ne→eqb q 0 used, empty-view, (first-of m v q r used).key)

  -- `_queue_dpeek`.
  pub dpeek-view : dpeek q m ≡ ok (first_item (v.items q)) m
  unfolding dpeek
  dpeek-view = rw (ne→eqb q 0 used, empty-view, (first-of m v q r used).item)

  -- On a store that represents a view, `_queue_kpeek` returns the key of the queue's first
  -- entry, or 0 of an empty queue, `_queue_dpeek` its item, or NULL, and `_queue_size` the
  -- number of entries; none of them changes anything.
  pub peeks_lem :
      (kpeek q m ≡ ok (first_key (v.items q)) m)
      × (dpeek q m ≡ ok (first_item (v.items q)) m)
      × (size q m ≡ ok (length (v.items q)) m)
  peeks_lem = (kpeek-view, dpeek-view, size-view)

  pub size-length : (m.queue q).size ≡ length (v.items q)
  size-length =
      r.store.size q used ∙ sym (length-map (entry m) (r.layout q)) ∙ ap length (r.items q used)
