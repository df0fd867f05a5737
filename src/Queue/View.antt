-- ===== src/Queue/View.antt =====
-- What a store of queues stands for: for each queue its entries in order and its comparison, and
-- the number of free nodes, and the queue of free queues. The layout says which nodes each queue holds, and under the number 0
-- which are free.

use systems_os.Prelude.{
  ℕ, ◌+◌, ◌≤◌, ◌<◌, ◌≡◌, ◌≢◌, true, Option, List, map, arith, ◌==◌, if◌then◌else◌, length, last_or,
  has, NoDup, length-le_of_bound,
}
use systems_os.Queue.{Ptr, null, n_qnodes, Comparison, Store}
use systems_os.Queue.Chain.{Seg}

abbrev pub Layout : Type 0
Layout = ℕ → List Ptr

abbrev pub links : Store → Ptr → Ptr
links m a = (m.node a).next

-- The first node of a queue, or of the free list.
abbrev pub head : Store → Ptr → Ptr
head m q = if q == 0 then m.free_qnodes else (m.queue q).first

-- Each node of the pool has one place at most.
pub record Owned (l : Layout) : Type 0 where
  pub nodup : (q : ℕ) → NoDup (l q)
  pub unique : (a q r : ℕ) → has a (l q) ≡ true → has a (l r) ≡ true → q ≡ r
  pub range : (a q : ℕ) → has a (l q) ≡ true → (0 < a) × (a ≤ n_qnodes)

abbrev pub Chains : Store → Layout → Type 0
Chains m l = (q : ℕ) → Seg (links m) (head m q) (l q) null

pub record IsStore (m : Store) (l : Layout) : Type 0 where
  pub owned : Owned l
  pub chain : Chains m l
  pub ends : (q : ℕ) → q ≢ 0 → (m.queue q).last ≡ last_or null (l q)
  pub size : (q : ℕ) → q ≢ 0 → (m.queue q).size ≡ length (l q)

-- A key and the item stored under it.
abbrev pub Entry : Type 0
Entry = ℕ × ℕ

abbrev pub entry : Store → Ptr → Entry
entry m a = ((m.node a).key, (m.node a).item)

pub record View : Type 0 where
  pub items : ℕ → List Entry
  pub order : ℕ → Option Comparison
  pub free : ℕ
  pub pool : Ptr

pub record Represents (m : Store) (v : View) : Type 0 where
  pub layout : Layout
  pub store : IsStore m layout
  pub items : (q : ℕ) → q ≢ 0 → map (entry m) (layout q) ≡ v.items q
  pub order : (q : ℕ) → q ≢ 0 → (m.queue q).compare ≡ v.order q
  pub free : length (layout 0) ≡ v.free
  pub pool : m.free_queues ≡ v.pool

-- No list of the layout is longer than the pool, so no length wraps.
pub length-layout : (l : Layout) (q : ℕ) → Owned l → length (l q) ≤ n_qnodes + 1
length-layout l q o =
    length-le_of_bound (n_qnodes + 1) (l q) (o.nodup q) λ a i. omega (arith, o.range a q i)
