-- ===== src/Kernel/Books.antt =====
-- The kernel's books: which queue has which role, and how many nodes, PCBs and stacks there are.
use systems_os.Prelude.{
  ℕ, zero, suc, ◌+◌, ◌-◌, ◌≤◌, ◌<◌, ◌≡◌, ◌≢◌, refl, none, some, List, [], ◌∷◌, arith, ◌==◌,
  if◌then◌else◌, length, length-place, place, ℕ_discrete, List-cases, eq→eqb, ne→eqb, inl, inr, ap,
  ◌∙◌,
}
use mathlib.Core.Path.{subst}
use systems_os.Machine.{Run, and_then, Returns, returns}
use systems_os.Queue.{Ptr, Store, n_qnodes, n_stacks, compare_time}
use systems_os.Queue.View.{Entry, View, Represents}
use systems_os.Queue.Insert.{rank, view_insert}
use systems_os.Queue.Remove.{view_remove, view_after}
use systems_os.Queue.Init.{AllLive}
use systems_os.Kernel.{Kernel, with_store, n_pcbs}

-- The kernel's pointers to its queues.
pub record Roles : Type 0 where
  pub free_pcbs : Ptr
  pub free_stacks : Ptr
  pub ready : ℕ → Ptr
  pub sleeping : Ptr

abbrev pub roles : Kernel → Roles
roles k = record {
  free_pcbs = k.free_pcbs;
  free_stacks = k.free_stacks;
  ready = k.ready;
  sleeping = k.sleeping;
}

-- The queues in the order in which the modules allocate them: 1 holds the free queues, 2 the free
-- PCBs, 3 the free stacks, 4 to 7 the ready processes by priority, 8 the sleeping ones.
pub record IsWired (k : Roles) (v : View) : Type 0 where
  pub free_pcbs : k.free_pcbs ≡ 2
  pub free_stacks : k.free_stacks ≡ 3
  pub ready : (i : ℕ) → i < 4 → k.ready i ≡ 4 + i
  pub sleeping : k.sleeping ≡ 8
  pub arrival : (q : ℕ) → q ≢ 8 → v.order q ≡ none
  pub timed : v.order 8 ≡ some compare_time

abbrev pub len : View → ℕ → ℕ
len v q = length (v.items q)

-- A queue of PCBs: the free ones, the ready ones, the sleeping ones.
pub record HoldsPcbs (q : ℕ) : Type 0 where
  pub low : 2 ≤ q
  pub high : q ≤ 8
  pub no_stacks : q ≢ 3

-- All nodes are free or in a queue; `out` PCBs and `lent` stacks are in no queue.
pub record IsBalanced (v : View) (out lent : ℕ) : Type 0 where
  pub nodes :
      v.free + (len v 1 + len v 2 + len v 3 + len v 4 + len v 5 + len v 6 + len v 7 + len v 8)
      ≡ n_qnodes
  pub queues : len v 1 ≤ 2
  pub pcbs : out + (len v 2 + len v 4 + len v 5 + len v 6 + len v 7 + len v 8) ≡ n_pcbs
  pub stacks : lent + len v 3 ≡ n_stacks

-- No insertion can run out of nodes.
pub free_node : (v : View) (out lent : ℕ) → IsBalanced v out lent → 0 < v.free
free_node v out lent b = omega arith

len-insert :
    (v : View) (q x key r : ℕ)
    → len (view_insert q x key v) r ≡ (if r == q then suc (len v q) else len v r)
unfolding view_insert
len-insert v q x key r =
    ground (arith, length-place (rank (v.order q) key (v.items q)) (key, x) (v.items q))

len-remove :
    (v : View) (q r : ℕ) (e : Entry) (es : List Entry)
    → v.items q ≡ e ∷ es
    → len (view_remove q v) r ≡ (if r == q then length es else len v r)
unfolding view_remove
len-remove v q r e es f = rw (f, view_after) (ground arith)

free-remove :
    (v : View) (q : ℕ) (e : Entry) (es : List Entry)
    → v.items q ≡ e ∷ es
    → (view_remove q v).free ≡ suc v.free
unfolding view_remove
free-remove v q e es f = rw (f, view_after)

free-insert : (v : View) (q x key : ℕ) → (view_insert q x key v).free ≡ v.free - 1
unfolding view_insert
free-insert v q x key = refl

pub insert-IsBalanced :
    (v : View) (q x key out lent : ℕ)
    → HoldsPcbs q
    → IsBalanced v (suc out) lent
    → IsBalanced (view_insert q x key v) out lent
insert-IsBalanced v q x key out lent h b = ground (
  arith,
  free_node v (suc out) lent b,
  free-insert v q x key,
  len-insert v q x key 1,
  len-insert v q x key 2,
  len-insert v q x key 3,
  len-insert v q x key 4,
  len-insert v q x key 5,
  len-insert v q x key 6,
  len-insert v q x key 7,
  len-insert v q x key 8,
)

pub remove-IsBalanced :
    (v : View) (q out lent : ℕ) (e : Entry) (es : List Entry)
    → HoldsPcbs q
    → v.items q ≡ e ∷ es
    → IsBalanced v out lent
    → IsBalanced (view_remove q v) (suc out) lent
remove-IsBalanced v q out lent e es h f b = ground (
  arith,
  ap length f,
  free-remove v q e es f,
  len-remove v q 1 e es f,
  len-remove v q 2 e es f,
  len-remove v q 3 e es f,
  len-remove v q 4 e es f,
  len-remove v q 5 e es f,
  len-remove v q 6 e es f,
  len-remove v q 7 e es f,
  len-remove v q 8 e es f,
)

pub insert_stack-IsBalanced :
    (v : View) (x key out lent : ℕ)
    → IsBalanced v out (suc lent)
    → IsBalanced (view_insert 3 x key v) out lent
insert_stack-IsBalanced v x key out lent b = omega (
  arith,
  free_node v out (suc lent) b,
  free-insert v 3 x key,
  len-insert v 3 x key 1,
  len-insert v 3 x key 2,
  len-insert v 3 x key 3,
  len-insert v 3 x key 4,
  len-insert v 3 x key 5,
  len-insert v 3 x key 6,
  len-insert v 3 x key 7,
  len-insert v 3 x key 8,
)

pub remove_stack-IsBalanced :
    (v : View) (out lent : ℕ) (e : Entry) (es : List Entry)
    → v.items 3 ≡ e ∷ es
    → IsBalanced v out lent
    → IsBalanced (view_remove 3 v) out (suc lent)
remove_stack-IsBalanced v out lent e es f b = omega (
  arith,
  ap length f,
  free-remove v 3 e es f,
  len-remove v 3 1 e es f,
  len-remove v 3 2 e es f,
  len-remove v 3 3 e es f,
  len-remove v 3 4 e es f,
  len-remove v 3 5 e es f,
  len-remove v 3 6 e es f,
  len-remove v 3 7 e es f,
  len-remove v 3 8 e es f,
)

-- No queue holds NULL.
abbrev pub IsLive : View → Type 0
IsLive v = (q : ℕ) → AllLive (v.items q)

place-AllLive : (n x key : ℕ) (es : List Entry) → x ≢ 0 → AllLive es → AllLive (place n (key, x) es)
place-AllLive zero x key es d l = (d, l)
place-AllLive (suc n) x key [] d l = (d, tt)
place-AllLive (suc n) x key ((j, y) ∷ es) d l = (l.0, place-AllLive n x key es d l.1)

pub insert-IsLive : (v : View) (q x key : ℕ) → x ≢ 0 → IsLive v → IsLive (view_insert q x key v)
unfolding view_insert
insert-IsLive v q x key d l r = elim (ℕ_discrete r q) [
  | yes e ↦
      rw (e, eq→eqb q q refl)
        (place-AllLive (rank (v.order q) key (v.items q)) x key (v.items q) d (l q))
  | no e ↦ rw (ne→eqb r q e) (l r)
]

pub remove-IsLive :
    (v : View) (q : ℕ) (e : Entry) (es : List Entry)
    → v.items q ≡ e ∷ es
    → IsLive v
    → IsLive (view_remove q v)
unfolding view_remove
remove-IsLive v q e es f l r =
    let rest : AllLive es = (subst AllLive f (l q)).1 in
    rw (f, view_after)
      (elim (ℕ_discrete r q) [
        | yes g ↦ rw (g, eq→eqb q q refl) rest
        | no g ↦ rw (ne→eqb r q g) (l r)
      ])

-- The whole invariant, and how a change of the store or of the view's entries keeps it.
pub record IsKernel (k : Kernel) (v : View) (out lent : ℕ) : Type 0 where
  pub view : Represents k.store v
  pub wired : IsWired (roles k) v
  pub balanced : IsBalanced v out lent
  pub live : IsLive v

pub insert-IsWired :
    (k : Roles) (v : View) (q x key : ℕ) → IsWired k v → IsWired k (view_insert q x key v)
unfolding view_insert
insert-IsWired k v q x key w = record {
  free_pcbs = w.free_pcbs;
  free_stacks = w.free_stacks;
  ready = w.ready;
  sleeping = w.sleeping;
  arrival = w.arrival;
  timed = w.timed;
}

order-remove : (v : View) (q r : ℕ) → (view_remove q v).order r ≡ v.order r
unfolding view_remove
order-remove v q r = elim (List-cases (v.items q)) [
  | inl e ↦ rw (e, view_after)
  | inr (x, es, e) ↦ rw (e, view_after)
]

pub remove-IsWired : (k : Roles) (v : View) (q : ℕ) → IsWired k v → IsWired k (view_remove q v)
remove-IsWired k v q w = record {
  free_pcbs = w.free_pcbs;
  free_stacks = w.free_stacks;
  ready = w.ready;
  sleeping = w.sleeping;
  arrival = λ r d. order-remove v q r ∙ w.arrival r d;
  timed = order-remove v q 8 ∙ w.timed;
}

-- A call of queue.c inside the kernel: what it promises of the store holds of the kernel's.
pub queued_bind :
    {A B : Type 0} {P : A → Store → Type 0} {Q : B → Kernel → Type 0} {r : Run Store A} (k : Kernel)
    (next : A → Kernel → Run Kernel B)
    → Returns P r
    → ((a : A) (s : Store) → P a s → Returns Q (next a (record k { store = s })))
    → Returns Q (and_then (with_store k r) next)
queued_bind k next (returns p) go = go _ _ p

pub queued_mono :
    {A : Type 0} {P : A → Store → Type 0} {Q : A → Kernel → Type 0} {r : Run Store A} (k : Kernel)
    → Returns P r
    → ((a : A) (s : Store) → P a s → Q a (record k { store = s }))
    → Returns Q (with_store k r)
queued_mono k (returns p) go = returns (go _ _ p)
