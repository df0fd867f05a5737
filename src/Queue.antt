-- ===== src/Queue.antt =====
-- queue.c: the kernel's queues over one pool of nodes. Pointers are numbers, with 0 for NULL:
-- `&_qnodes[i]` and `&_queues[i]` are `i + 1`, each in an address space of its own. A function
-- that is called with a pointer to the store's state returns the new store.
pub mod Chain
pub mod View
pub mod Move
pub mod Remove
pub mod Insert
pub mod Peek
pub mod Order
pub mod Init
pub mod Boot
use systems_os.Prelude.{
  true, false, ℕ, zero, suc, ◌+◌, ◌-◌, Bool, Option, none, some, List, [], ◌∷◌, ◌==◌, ltb,
  if◌then◌else◌,
}
use systems_os.Machine.{
  Run, ok, panic, fault, out_of_fuel, Cmd, pure, and_then, ◌>>=◌, add32, sub32,
}

abbrev pub Ptr : Type 0
Ptr = ℕ

abbrev pub null : Ptr
null = 0

-- `N_PROCS`, `N_STACKS`, `N_QUEUES` and `N_QNODES`.
abbrev pub n_procs : ℕ
n_procs = 25

abbrev pub n_stacks : ℕ
n_stacks = n_procs

abbrev pub n_queues : ℕ
n_queues = 10

abbrev pub n_qnodes : ℕ
n_qnodes = n_procs + n_stacks + n_queues + 3

-- `comparef_t`: the result is the bit pattern of an `int`.
abbrev pub Comparison : Type 0
Comparison = ℕ → ℕ → ℕ

-- `x >= 0` for an `int`.
abbrev pub nonneg : ℕ → Bool
nonneg w = ltb w 0x8000_0000

-- `_compare_time`.
unfoldable pub compare_time : Comparison
compare_time k1 k2 = sub32 k1 k2

-- `qnode_t`; `item` is the field `data`.
pub record Qnode : Type 0 where
  pub key : ℕ
  pub item : ℕ
  pub next : Ptr

-- `struct queue`.
pub record QueueHead : Type 0 where
  pub first : Ptr
  pub last : Ptr
  pub compare : Option Comparison
  pub size : ℕ

-- The module's variables: `_free_qnodes`, `_qnodes`, `_free_queues` and `_queues`.
pub record Store : Type 0 where
  pub free_qnodes : Ptr
  pub node : Ptr → Qnode
  pub free_queues : Ptr
  pub queue : Ptr → QueueHead

abbrev pub set_node : Store → Ptr → Qnode → Store
set_node m p n = record m { node = λ a. if a == p then n else m.node a }

abbrev pub set_queue : Store → Ptr → QueueHead → Store
set_queue m q h = record m { queue = λ r. if r == q then h else m.queue r }

-- `_qnode_dealloc`, which is called for nodes only.
unfoldable pub qnode_dealloc : Ptr → Store → Store
qnode_dealloc p m = record (set_node m p (record (m.node p) { next = m.free_qnodes })) {
  free_qnodes = p;
}

-- `_qnode_alloc`, in its successful branch and in full.
abbrev pub take_node : Ptr → Store → Store
take_node p m =
    set_node (record m { free_qnodes = (m.node p).next }) p (record (m.node p) { next = null })

unfoldable pub qnode_alloc : Store → Ptr × Store
qnode_alloc m =
    if m.free_qnodes == null then (null, m) else (m.free_qnodes, take_node m.free_qnodes m)

-- `_queue_empty`.
unfoldable pub empty : Ptr → Cmd Store Bool
empty q m = if q == null then fault else ok ((m.queue q).first == null) m

-- `_queue_size`.
unfoldable pub size : Ptr → Cmd Store ℕ
size q m = if q == null then fault else ok (m.queue q).size m

-- `_queue_init`.
unfoldable pub init : Ptr → Option Comparison → Cmd Store (Unit {0})
init q c m =
    if q == null
    then panic
    else ok tt (set_queue m q (record { first = null; last = null; compare = c; size = 0 }))

-- The store that `_queue_remove` leaves when the queue is not empty.
unfoldable pub remove_first : Ptr → Store → Store
unfolding qnode_dealloc
remove_first q m =
    let h = m.queue q in
    let next = (m.node h.first).next in
    let last = if next == null then null else h.last in
    qnode_dealloc h.first
      (set_queue m q (record h { first = next; last = last; size = sub32 h.size 1 }))

-- `_queue_remove`.
unfoldable pub remove : Ptr → Cmd Store ℕ
remove q m =
    let p = (m.queue q).first in
    if q == null
    then panic
    else if p == null
    then ok null m
    else ok (m.node p).item (remove_first q m)

-- The insertion's walk: `prev` and `curr` where it stops, `none` if the fuel runs out.
unfoldable pub scan : Comparison → Store → ℕ → ℕ → Ptr → Ptr → Option (Ptr × Ptr)
scan c m zero key prev curr = none
scan c m (suc fuel) key prev curr =
    let further = scan c m fuel key curr (m.node curr).next in
    if curr == null
    then some (prev, curr)
    else if nonneg (c key (m.node curr).key)
    then further
    else some (prev, curr)

-- The links that follow the walk.
unfoldable pub link : Ptr → Ptr → Ptr → Ptr → Store → Store
link q p prev curr m =
    let n = record (m.node p) { next = curr } in
    let m1 = set_node m p n in
    let h = m1.queue q in
    let last = if curr == null then p else h.last in
    let size = add32 h.size 1 in
    if prev == null
    then set_queue m1 q (record h { first = p; last = last; size = size })
    else set_queue (set_node m1 prev (record (m1.node prev) { next = p })) q
        (record h { last = last; size = size })

-- Adding the node `p` behind the last one, and where the walk stopped.
abbrev pub add_last : Ptr → Ptr → Cmd Store (Unit {0})
add_last q p m =
    let h = m.queue q in
    if h.last == null
    then fault
    else ok tt (
        set_queue (set_node m h.last (record (m.node h.last) { next = p })) q
          (record h { last = p; size = add32 h.size 1 }))

abbrev pub link_found : Ptr → Ptr → Option (Ptr × Ptr) → Cmd Store (Unit {0})
link_found q p none m = out_of_fuel
link_found q p (some (prev, curr)) m = ok tt (link q p prev curr m)

abbrev pub add_by : Option Comparison → Ptr → Ptr → ℕ → Cmd Store (Unit {0})
add_by none q p key m = add_last q p m
add_by (some c) q p key m =
    link_found q p (scan c m (suc (m.queue q).size) key null (m.queue q).first) m

-- The three ways in which `_queue_insert` adds its node.
unfoldable pub insert_node : Ptr → Ptr → ℕ → Cmd Store (Unit {0})
insert_node q p key m =
    let h = m.queue q in
    if h.first == null
    then ok tt (set_queue m q (record h { first = p; last = p; size = 1 }))
    else add_by h.compare q p key m

-- The rest of `_queue_insert`, with what `_qnode_alloc` returned.
unfoldable pub insert_with : Ptr → ℕ → ℕ → Ptr × Store → Run Store (Unit {0})
insert_with q item key (p, m) =
    if p == null
    then panic
    else insert_node q p key (set_node m p (record (m.node p) { key = key; item = item }))

-- `_queue_insert`.
unfoldable pub insert : Ptr → ℕ → ℕ → Cmd Store (Unit {0})
insert q item key m = if q == null then panic else insert_with q item key (qnode_alloc m)

-- `_queue_dealloc`; the `memset` clears the whole structure.
unfoldable pub dealloc : Ptr → Cmd Store (Unit {0})
dealloc q m =
    let cleared : QueueHead = record { first = null; last = null; compare = none; size = 0 } in
    if q == null then ok tt m else insert m.free_queues q 0 (set_queue m q cleared)

-- `_queue_alloc`: the queues in `locs` are returned as a list, and their number is its length. The
-- round after the test for an empty pool, and the loop.
abbrev pub keep : Cmd Store (List Ptr) → Ptr → Cmd Store (List Ptr)
keep rest q m = if q == null then ok [] m else and_then (rest m) λ qs s. ok (q ∷ qs) s

abbrev pub alloc_round : Cmd Store (List Ptr) → Bool → Cmd Store (List Ptr)
alloc_round rest true m = ok [] m
alloc_round rest false m = and_then (remove m.free_queues m) (keep rest)

unfoldable pub alloc : ℕ → Cmd Store (List Ptr)
alloc zero m = ok [] m
alloc (suc num) m = and_then (empty m.free_queues m) (alloc_round (alloc num))

-- `_queue_kpeek` and `_queue_dpeek`.
unfoldable pub kpeek : Ptr → Cmd Store ℕ
kpeek q m =
    if q == null
    then panic
    else and_then (empty q m)
        λ none_left s. ok (if none_left then null else (s.node (s.queue q).first).key) s

unfoldable pub dpeek : Ptr → Cmd Store ℕ
dpeek q m =
    if q == null
    then panic
    else and_then (empty q m)
        λ none_left s. ok (if none_left then null else (s.node (s.queue q).first).item) s

-- The two loops of `_queue_modinit`: nodes and queues are freed in the order of their addresses.
unfoldable pub free_nodes : ℕ → Ptr → Store → Store
free_nodes zero p m = m
free_nodes (suc n) p m = free_nodes n (p + 1) (qnode_dealloc p m)

unfoldable pub dealloc_from : ℕ → Ptr → Cmd Store (Unit {0})
dealloc_from zero q m = ok tt m
dealloc_from (suc n) q m = and_then (dealloc q m) λ _ s. dealloc_from n (q + 1) s

-- `_queue_modinit`.
unfoldable pub modinit : Cmd Store (Unit {0})
modinit m =
    let m1 = free_nodes n_qnodes 1 (record m { free_qnodes = null }) in
    and_then (init 1 none (record m1 { free_queues = 1 })) λ _ s. dealloc_from (n_queues - 1) 2 s
