-- ===== src/Boot/Fill.antt =====
-- Queues that are allocated, set up and filled, and the view of a kernel that holds nothing else.
use systems_os.Prelude.{
  ℕ, zero, suc, ◌+◌, ◌≤◌, ◌≡◌, ◌≢◌, refl, none, List, [], ◌∷◌, ◌++◌, ◌-◌, place-length,
  append_assoc, append-nil, ℕ_discrete, arith, ◌==◌, if◌then◌else◌, ap, sym, ◌∙◌, ne→eqb, eq→eqb,
}
use mathlib.Core.Path.{subst}
use systems_os.Machine.{Returns, returns, bind, mono}
use systems_os.Queue
use systems_os.Queue.{Ptr, Store, n_stacks, compare_time}
use systems_os.Queue.View.{Entry, View, Represents}
use systems_os.Queue.Insert.{rank, view_insert, view_insert-other}
use systems_os.Queue.Insert.Law.{insert-view}
use systems_os.Queue.Remove.{view_remove}
use systems_os.Queue.Init.{view_reset, view_alloc, AllLive, alloc-view}
use systems_os.Queue.Boot.{queues_from}
use systems_os.Kernel.{Kernel, set_pcb, zero_pcb, stack_lwords}
use systems_os.Kernel.Books.{roles, queued_bind, queued_mono}
use systems_os.Process.{pcb_dealloc, pcb_dealloc_from}
use systems_os.Stack.{clear_stack, stack_dealloc, stack_dealloc_from}

-- The view after `n` insertions into the queue `q`, of `x`, `x + step` and so on.
unfoldable pub filled : ℕ → ℕ → ℕ → ℕ → View → View
filled q step zero x v = v
filled q step (suc n) x v = filled q step n (x + step) (view_insert q x 0 v)

free-insert : (v : View) (q x n : ℕ) → suc n ≤ v.free → n ≤ (view_insert q x 0 v).free
unfolding view_insert
free-insert v q x n h = omega arith

pub pcb_dealloc_from-filled :
    (n p : ℕ) (k : Kernel) (v : View)
    → Represents k.store v
    → k.free_pcbs ≡ 2
    → p ≢ 0
    → n ≤ v.free
    → Returns
        (λ _ k'. Represents k'.store (filled 2 1 n p v) × (roles k' ≡ roles k))
        (pcb_dealloc_from n p k)
unfolding pcb_dealloc_from filled pcb_dealloc
pcb_dealloc_from-filled zero p k v r e d h = returns (r, refl)
pcb_dealloc_from-filled (suc n) p k v r e d h =
    let inserted : Returns (λ _ s. Represents s (view_insert 2 p 0 v))
        (Queue.insert k.free_pcbs p 0 k.store) =
      subst (λ q. Returns (λ _ s. Represents s (view_insert 2 p 0 v)) (Queue.insert q p 0 k.store))
        (sym e) (insert-view k.store v 2 p 0 r (omega arith) (omega arith)) in
    let freed : Returns (λ _ k1. Represents k1.store (view_insert 2 p 0 v) × (roles k1 ≡ roles k))
        (pcb_dealloc p k) =
      rw (ne→eqb p 0 d)
        (queued_bind (set_pcb k p zero_pcb) _ inserted λ _ s r'. returns (r', refl)) in
    bind freed λ _ k1 (r1, same).
      mono
        (pcb_dealloc_from-filled n (p + 1) k1 (view_insert 2 p 0 v) r1
          (ap (λ b. b.free_pcbs) same ∙ e) (omega arith) (free-insert v 2 p n h))
        λ _ k2 (r2, same2). (r2, same2 ∙ same)

pub stack_dealloc_from-filled :
    (n s : ℕ) (k : Kernel) (v : View)
    → Represents k.store v
    → k.free_stacks ≡ 3
    → s ≢ 0
    → n ≤ v.free
    → Returns
        (λ _ k'.
          Represents k'.store (filled 3 stack_lwords n s v)
          × (roles k' ≡ roles k)
          × (k'.next_pid ≡ k.next_pid))
        (stack_dealloc_from n s k)
unfolding stack_dealloc_from filled stack_dealloc
stack_dealloc_from-filled zero s k v r e d h = returns (r, refl, refl)
stack_dealloc_from-filled (suc n) s k v r e d h =
    let inserted : Returns (λ _ m. Represents m (view_insert 3 s 0 v))
        (Queue.insert k.free_stacks s 0 k.store) =
      subst (λ q. Returns (λ _ m. Represents m (view_insert 3 s 0 v)) (Queue.insert q s 0 k.store))
        (sym e) (insert-view k.store v 3 s 0 r (omega arith) (omega arith)) in
    let freed : Returns
        (λ _ k1.
          Represents k1.store (view_insert 3 s 0 v)
          × (roles k1 ≡ roles k)
          × (k1.next_pid ≡ k.next_pid))
        (stack_dealloc s k) =
      rw (ne→eqb s 0 d) (queued_mono (clear_stack s k) inserted λ _ m r'. (r', refl, refl)) in
    bind freed λ _ k1 (r1, same, pid).
      mono
        (stack_dealloc_from-filled n (s + stack_lwords) k1 (view_insert 3 s 0 v) r1
          (ap (λ b. b.free_stacks) same ∙ e) (omega arith) (free-insert v 3 s n h))
        λ _ k2 (r2, same2, pid2). (r2, same2 ∙ same, pid2 ∙ pid)

-- The entries that they add.
abbrev pub entries : ℕ → ℕ → ℕ → List Entry
entries step zero x = []
entries step (suc n) x = (0, x) ∷ entries step n (x + step)

filled-items :
    (q step n x : ℕ) (v : View)
    → v.order q ≡ none
    → (filled q step n x v).items q ≡ v.items q ++ entries step n x
unfolding filled view_insert
filled-items q step zero x v o = sym (append-nil (v.items q))
filled-items q step (suc n) x v o =
    filled-items q step n (x + step) (view_insert q x 0 v) o
    ∙ rw (eq→eqb q q refl, o, rank)
        (ap (λ l. l ++ entries step n (x + step)) (place-length (0, x) (v.items q))
          ∙ append_assoc (v.items q) ((0, x) ∷ []) (entries step n (x + step)))

filled-other : (q step n x r : ℕ) (v : View) → r ≢ q → (filled q step n x v).items r ≡ v.items r
unfolding filled
filled-other q step zero x r v d = refl
filled-other q step (suc n) x r v d =
    filled-other q step n (x + step) r (view_insert q x 0 v) d ∙ view_insert-other v q x 0 r d

filled-order : (q step n x r : ℕ) (v : View) → (filled q step n x v).order r ≡ v.order r
unfolding filled view_insert
filled-order q step zero x r v = refl
filled-order q step (suc n) x r v = filled-order q step n (x + step) r (view_insert q x 0 v)

filled-pool : (q step n x : ℕ) (v : View) → (filled q step n x v).pool ≡ v.pool
unfolding filled view_insert
filled-pool q step zero x v = refl
filled-pool q step (suc n) x v = filled-pool q step n (x + step) (view_insert q x 0 v)

filled-free : (q step n x : ℕ) (v : View) → (filled q step n x v).free ≡ v.free - n
unfolding filled view_insert
filled-free q step zero x v = omega arith
filled-free q step (suc n) x v =
    omega (arith, filled-free q step n (x + step) (view_insert q x 0 v))

-- Two views that agree represent the same stores.
pub Represents-same :
    (m : Store) (v w : View)
    → ((q : ℕ) → v.items q ≡ w.items q)
    → ((q : ℕ) → v.order q ≡ w.order q)
    → v.free ≡ w.free
    → v.pool ≡ w.pool
    → Represents m v
    → Represents m w
Represents-same m v w items order free pool r = record {
  layout = r.layout;
  store = r.store;
  items = λ q d. r.items q d ∙ items q;
  order = λ q d. r.order q d ∙ order q;
  free = r.free ∙ free;
  pool = r.pool ∙ pool;
}

-- A view by its contents: free queues from `first` on, free PCBs, free stacks.
abbrev pub table : ℕ → ℕ → List Entry → List Entry → ℕ → View
table n first pcbs stacks free = record {
  items = λ q.
      if q == 1
      then queues_from n first
      else if q == 2
      then pcbs
      else if q == 3
      then stacks
      else [];
  order = λ q. none;
  free = free;
  pool = 1;
}

pub queues_from-AllLive : (n q : ℕ) → q ≢ 0 → AllLive (queues_from n q)
queues_from-AllLive zero q d = tt
queues_from-AllLive (suc n) q d = (d, queues_from-AllLive n (q + 1) (omega arith))

-- An allocation of one queue.
pub alloc_one :
    (m : Store) (n first free : ℕ) (pcbs stacks : List Entry)
    → first ≢ 0
    → Represents m (table (suc n) first pcbs stacks free)
    → Returns
        (λ qs m'. (qs ≡ first ∷ []) × Represents m' (table n (first + 1) pcbs stacks (suc free)))
        (Queue.alloc 1 m)
unfolding view_alloc view_remove
alloc_one m n first free pcbs stacks d r =
    mono
      (alloc-view 1 m (table (suc n) first pcbs stacks free) r (omega arith)
        (queues_from-AllLive (suc n) first d))
      λ qs m' (got, r'). (
        got ∙ rw (ne→eqb first 0 d),
        Represents-same m' _ (table n (first + 1) pcbs stacks (suc free)) (λ q. ground arith)
            (λ q. refl) refl refl r',
      )

-- A free queue that is set up and filled.
pub filled_pcbs :
    (m : Store) (n c first free : ℕ) (stacks : List Entry)
    → Represents m (filled 2 1 n 1 (view_reset 2 none (table c first [] stacks free)))
    → Represents m (table c first (entries 1 n 1) stacks (free - n))
filled_pcbs m n c first free stacks =
    let v : View = view_reset 2 none (table c first [] stacks free) in
    let w : View = table c first (entries 1 n 1) stacks (free - n) in
    Represents-same m (filled 2 1 n 1 v) w
      (λ q. elim (ℕ_discrete q 2) [
        | yes e ↦ ap (filled 2 1 n 1 v).items e ∙ filled-items 2 1 n 1 v refl ∙ sym (ap w.items e)
        | no d ↦ filled-other 2 1 n 1 q v d ∙ rw (ne→eqb q 2 d)
      ])
      (λ q. filled-order 2 1 n 1 q v ∙ ground arith) (filled-free 2 1 n 1 v) (filled-pool 2 1 n 1 v)

pub filled_stacks :
    (m : Store) (n c first free : ℕ) (pcbs : List Entry)
    → Represents m
        (filled 3 stack_lwords n stack_lwords (view_reset 3 none (table c first pcbs [] free)))
    → Represents m (table c first pcbs (entries stack_lwords n stack_lwords) (free - n))
filled_stacks m n c first free pcbs =
    let v : View = view_reset 3 none (table c first pcbs [] free) in
    let w : View = table c first pcbs (entries stack_lwords n stack_lwords) (free - n) in
    Represents-same m (filled 3 stack_lwords n stack_lwords v) w
      (λ q. elim (ℕ_discrete q 3) [
        | yes e ↦
            ap (filled 3 stack_lwords n stack_lwords v).items e
            ∙ filled-items 3 stack_lwords n stack_lwords v refl
            ∙ sym (ap w.items e)
        | no d ↦ filled-other 3 stack_lwords n stack_lwords q v d ∙ rw (ne→eqb q 3 d)
      ])
      (λ q. filled-order 3 stack_lwords n stack_lwords q v ∙ ground arith)
      (filled-free 3 stack_lwords n stack_lwords v) (filled-pool 3 stack_lwords n stack_lwords v)
