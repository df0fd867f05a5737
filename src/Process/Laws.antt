-- ===== src/Process/Laws.antt =====
-- What the allocation of PCBs and stacks does to the kernel's books.
use systems_os.Prelude.{
  ℕ, suc, ◌+◌, ◌⊎◌, ◌<◌, ◌≤◌, ◌≡◌, ◌≢◌, refl, List, [], ◌∷◌, arith, ap, sym, ◌∙◌, eq→eqb, ne→eqb,
}
use mathlib.Core.Path.{subst}
use systems_os.Machine.{Returns, returns, add32, sub32}
use systems_os.Queue
use systems_os.Queue.{Ptr, null, Store}
use systems_os.Queue.View.{Entry, View, Represents}
use systems_os.Queue.Insert.{view_insert}
use systems_os.Queue.Insert.Law.{insert-view}
use systems_os.Queue.Remove.{first_item, view_remove, remove-view, view_after}
use systems_os.Kernel.{Kernel, zero_pcb, set_pcb, stack_lwords, state_new}
use systems_os.Kernel.Books.{
  roles, IsKernel, free_node, insert-IsBalanced, remove-IsBalanced, insert_stack-IsBalanced,
  remove_stack-IsBalanced, insert-IsWired, remove-IsWired, insert-IsLive, remove-IsLive,
  queued_bind, queued_mono,
}
use systems_os.Stack.{clear_stack, stack_alloc, stack_dealloc}
use systems_os.Process.{pcb_alloc, pcb_dealloc}

-- What a function leaves of the variables outside the queues, the PCBs and the stacks.
pub record Calm (k k' : Kernel) : Type 0 where
  pub current : k'.current ≡ k.current
  pub time : k'.system_time ≡ k.system_time
  pub pid : k'.next_pid ≡ k.next_pid

-- `_pcb_dealloc`: the PCB is cleared and joins the free ones.
pub record Freed (k : Kernel) (p : Ptr) (k' : Kernel) : Type 0 where
  pub calm : Calm k k'
  pub own : k'.pcb p ≡ zero_pcb
  pub others : (q : Ptr) → q ≢ p → k'.pcb q ≡ k.pcb q
  pub words : k'.word ≡ k.word
  pub active : k'.system_active ≡ sub32 k.system_active 1

-- From the kernel's invariant with a PCB out of the queues, `_pcb_dealloc` of a PCB that is not
-- NULL returns: the PCB is all zero and last among the free ones, one active process less is
-- counted modulo 2^32, and no other PCB, no stack, neither the next PID, the time nor the
-- current process has changed.
pub pcb_dealloc-Freed :
    (k : Kernel) (v : View) (p : Ptr) (out lent : ℕ)
    → IsKernel k v (suc out) lent
    → p ≢ 0
    → Returns (λ _ k'. Freed k p k' × IsKernel k' (view_insert 2 p 0 v) out lent) (pcb_dealloc p k)
unfolding pcb_dealloc
pcb_dealloc-Freed k v p out lent i live =
    let inserted : Returns (λ _ s. Represents s (view_insert 2 p 0 v))
        (Queue.insert k.free_pcbs p 0 k.store) =
      subst (λ q. Returns (λ _ s. Represents s (view_insert 2 p 0 v)) (Queue.insert q p 0 k.store))
        (sym i.wired.free_pcbs)
        (insert-view k.store v 2 p 0 i.view (omega arith)
          (free_node v (suc out) lent i.balanced)) in
    rw (ne→eqb p 0 live) (
      queued_bind (set_pcb k p zero_pcb) _ inserted λ _ s r. returns (
        record {
          calm = record { current = refl; time = refl; pid = refl };
          own = rw (eq→eqb p p refl);
          others = λ q d. rw (ne→eqb q p d);
          words = refl;
          active = refl;
        },
        record {
          view = r;
          wired = insert-IsWired (roles k) v 2 p 0 i.wired;
          balanced = insert-IsBalanced v 2 p 0 out lent (omega arith) i.balanced;
          live = insert-IsLive v 2 p 0 live i.live;
        },
      ))

-- `_stack_dealloc`: the stack is cleared and joins the free ones.
pub record Cleared (k : Kernel) (s : Ptr) (k' : Kernel) : Type 0 where
  pub calm : Calm k k'
  pub pcbs : k'.pcb ≡ k.pcb
  pub zeros : (a : ℕ) → s ≤ a → a < s + stack_lwords → k'.word a ≡ 0
  pub words : (a : ℕ) → (a < s) ⊎ (s + stack_lwords ≤ a) → k'.word a ≡ k.word a
  pub active : k'.system_active ≡ k.system_active

-- From the kernel's invariant with a stack in use, `_stack_dealloc` of a stack that is not NULL
-- returns: its 1024 longwords are zero, it is last among the free stacks, and no other longword
-- and no PCB has changed.
pub stack_dealloc-Cleared :
    (k : Kernel) (v : View) (s : Ptr) (out lent : ℕ)
    → IsKernel k v out (suc lent)
    → s ≢ 0
    → Returns
        (λ _ k'. Cleared k s k' × IsKernel k' (view_insert 3 s 0 v) out lent)
        (stack_dealloc s k)
unfolding stack_dealloc
stack_dealloc-Cleared k v s out lent i live =
    let inserted : Returns (λ _ m. Represents m (view_insert 3 s 0 v))
        (Queue.insert k.free_stacks s 0 k.store) =
      subst (λ q. Returns (λ _ m. Represents m (view_insert 3 s 0 v)) (Queue.insert q s 0 k.store))
        (sym i.wired.free_stacks)
        (insert-view k.store v 3 s 0 i.view (omega arith)
          (free_node v out (suc lent) i.balanced)) in
    rw (ne→eqb s 0 live) (
      queued_mono (clear_stack s k) inserted λ _ m r. (
        record {
          calm = record { current = refl; time = refl; pid = refl };
          pcbs = refl;
          zeros = λ a l h. ground arith;
          words = λ a h. ground arith;
          active = refl;
        },
        record {
          view = r;
          wired = insert-IsWired (roles k) v 3 s 0 i.wired;
          balanced = insert_stack-IsBalanced v s 0 out lent i.balanced;
          live = insert-IsLive v 3 s 0 live i.live;
        },
      ))

-- `_pcb_alloc`: the first free PCB, if there is one.
pub record Got (k : Kernel) (p : Ptr) (k' : Kernel) : Type 0 where
  pub calm : Calm k k'
  pub own : k'.pcb p ≡ record (k.pcb p) { state = state_new }
  pub others : (q : Ptr) → q ≢ p → k'.pcb q ≡ k.pcb q
  pub words : k'.word ≡ k.word
  pub active : k'.system_active ≡ add32 k.system_active 1

removed :
    (k : Kernel) (v : View) (q r out lent : ℕ)
    → IsKernel k v out lent
    → q ≡ r
    → r ≢ 0
    → Returns
        (λ x s. (x ≡ first_item (v.items r)) × Represents s (view_remove r v))
        (Queue.remove q k.store)
removed k v q r out lent i e used =
    subst
      (λ n.
        Returns (λ x s. (x ≡ first_item (v.items r)) × Represents s (view_remove r v))
          (Queue.remove n k.store))
      (sym e) (remove-view k.store v r i.view used)

pub pcb_alloc-Got :
    (k : Kernel) (v : View) (p key : ℕ) (es : List Entry) (out lent : ℕ)
    → IsKernel k v out lent
    → v.items 2 ≡ (key, p) ∷ es
    → p ≢ 0
    → Returns
        (λ x k'. (x ≡ p) × Got k p k' × IsKernel k' (view_remove 2 v) (suc out) lent)
        (pcb_alloc k)
unfolding pcb_alloc
pcb_alloc-Got k v p key es out lent i e live =
    queued_bind k _ (removed k v k.free_pcbs 2 out lent i i.wired.free_pcbs (omega arith))
      λ x s (first, r).
        let same : x ≡ p = first ∙ ap first_item e in
        rw (same, ne→eqb p 0 live)
          (returns (
            refl,
            record {
              calm = record { current = refl; time = refl; pid = refl };
              own = rw (eq→eqb p p refl);
              others = λ q d. rw (ne→eqb q p d);
              words = refl;
              active = refl;
            },
            record {
              view = r;
              wired = remove-IsWired (roles k) v 2 i.wired;
              balanced = remove-IsBalanced v 2 out lent (key, p) es (omega arith) e i.balanced;
              live = remove-IsLive v 2 (key, p) es e i.live;
            },
          ))

view_remove-none : (v : View) (q : ℕ) → v.items q ≡ [] → view_remove q v ≡ v
unfolding view_remove
view_remove-none v q e = rw (e, view_after)

-- Without a free PCB it returns NULL, and still counts a process more.
pub pcb_alloc-none :
    (k : Kernel) (v : View) (out lent : ℕ)
    → IsKernel k v out lent
    → v.items 2 ≡ []
    → Returns
        (λ x k'.
          (x ≡ null)
          × Calm k k'
          × (k'.pcb ≡ k.pcb)
          × (k'.system_active ≡ add32 k.system_active 1)
          × IsKernel k' v out lent)
        (pcb_alloc k)
unfolding pcb_alloc
pcb_alloc-none k v out lent i e =
    queued_bind k _ (removed k v k.free_pcbs 2 out lent i i.wired.free_pcbs (omega arith))
      λ x s (first, r).
        let same : x ≡ 0 = first ∙ ap first_item e in
        rw same (
          returns (
            refl,
            record { current = refl; time = refl; pid = refl },
            refl,
            refl,
            record {
              view = subst (Represents s) (view_remove-none v 2 e) r;
              wired = i.wired;
              balanced = i.balanced;
              live = i.live;
            },
          ))

-- `_stack_alloc`: the first free stack, or NULL.
pub stack_alloc-found :
    (k : Kernel) (v : View) (s key : ℕ) (es : List Entry) (out lent : ℕ)
    → IsKernel k v out lent
    → v.items 3 ≡ (key, s) ∷ es
    → Returns
        (λ x k'.
          (x ≡ s)
          × ((m : Store) × (k' ≡ record k { store = m }))
          × IsKernel k' (view_remove 3 v) out (suc lent))
        (stack_alloc k)
unfolding stack_alloc
stack_alloc-found k v s key es out lent i e =
    queued_mono k (removed k v k.free_stacks 3 out lent i i.wired.free_stacks (omega arith))
      λ x m (first, r). (
        first ∙ ap first_item e,
        (m, refl),
        record {
          view = r;
          wired = remove-IsWired (roles k) v 3 i.wired;
          balanced = remove_stack-IsBalanced v out lent (key, s) es e i.balanced;
          live = remove-IsLive v 3 (key, s) es e i.live;
        },
      )

pub stack_alloc-none :
    (k : Kernel) (v : View) (out lent : ℕ)
    → IsKernel k v out lent
    → v.items 3 ≡ []
    → Returns
        (λ x k'.
          (x ≡ null) × ((m : Store) × (k' ≡ record k { store = m })) × IsKernel k' v out lent)
        (stack_alloc k)
unfolding stack_alloc
stack_alloc-none k v out lent i e =
    queued_mono k (removed k v k.free_stacks 3 out lent i i.wired.free_stacks (omega arith))
      λ x m (first, r). (
        first ∙ ap first_item e,
        (m, refl),
        record {
          view = subst (Represents m) (view_remove-none v 3 e) r;
          wired = i.wired;
          balanced = i.balanced;
          live = i.live;
        },
      )
