-- ===== src/Tests/Limits.antt =====
-- What happens when PCBs, stacks or nodes are used up, or a time is too far away.
use systems_os.Prelude.{ℕ, zero, suc, ◌+◌, ◌≡◌, ◌≢◌, refl, [], ◌∷◌, arith}
use systems_os.Machine.{panic, Returns}
use systems_os.Queue
use systems_os.Queue.{Ptr, null, Store, Qnode, compare_time, nonneg}
use systems_os.Queue.View.{View, Represents}
use systems_os.Queue.Insert.{view_insert}
use systems_os.Queue.Insert.Law.{insert-view, insert-panic}
use systems_os.Queue.Remove.{view_remove, view_remove-items}
use systems_os.Queue.Order.{Sorted, insert-misplaced}
use systems_os.Kernel.{Kernel}
use systems_os.Kernel.Books.{IsKernel}
use systems_os.Process.{pcb_alloc}
use systems_os.Process.Laws.{pcb_alloc-Got}
use systems_os.Boot.Fill.{entries}
use systems_os.Boot.Modules.{booted}
use systems_os.Tests.{at_rest, at_rest-IsKernel, promised, state_of}

-- A kernel all of whose PCBs are taken.
record Drained (q : ℕ) : Type 0 where
  kernel : Kernel
  view : View
  out : ℕ
  lent : ℕ
  books : IsKernel kernel view out lent
  pcbs : q ≢ 2 → view.items 2 ≡ entries 1 26 1
  none_left : view.items q ≡ []

abbrev drain_pcbs :
    (n p : ℕ) (k : Kernel) (v : View) (out lent : ℕ)
    → IsKernel k v out lent
    → v.items 2 ≡ entries 1 n p
    → p ≢ 0
    → Drained 2
drain_pcbs zero p k v out lent inv e d = record {
  kernel = k;
  view = v;
  out = out;
  lent = lent;
  books = inv;
  pcbs = λ h. absurd (h refl);
  none_left = e;
}
drain_pcbs (suc n) p k v out lent inv e d =
    let got = promised k (pcb_alloc-Got k v p 0 (entries 1 n (p + 1)) out lent inv e d) in
    drain_pcbs n (p + 1) (state_of k (pcb_alloc k)) (view_remove 2 v) (suc out) lent got.holds.2
      (view_remove-items v 2 (0, p) (entries 1 n (p + 1)) e) (omega arith)

abbrev no_pcbs : Drained 2
no_pcbs = drain_pcbs 26 1 at_rest booted 0 0 at_rest-IsKernel refl (omega arith)

-- A sleeper whose time is more than half the range away is put in front.
sleeper :
    Returns (λ _ m'. Represents m' (view_insert 8 1 10 booted)) (Queue.insert 8 1 10 at_rest.store)
sleeper = insert-view at_rest.store booted 8 1 10 at_rest-IsKernel.view (omega arith) (omega arith)

insert-misplaced_example :
    Returns
      (λ _ m'.
        (v' : View) × Represents m' v'
        × (v'.items 8 ≡ (0xf000_0000, 2) ∷ (10, 1) ∷ [])
        × ¬ Sorted (v'.items 8))
      (Queue.insert 8 2 0xf000_0000 (state_of at_rest.store (Queue.insert 8 1 10 at_rest.store)))
unfolding view_insert
insert-misplaced_example =
    insert-misplaced (state_of at_rest.store (Queue.insert 8 1 10 at_rest.store))
      (view_insert 8 1 10 booted) 8 2 0xf000_0000 10 1 [] (promised at_rest.store sleeper).holds
      (omega arith) (omega arith) refl refl (omega arith) (omega arith)

-- A store whose nodes are all used up.
record Full : Type 0 where
  store : Store
  view : View
  represents : Represents store view
  no_free : view.free ≡ 0

view_insert-free : (v : View) (n : ℕ) → v.free ≡ suc n → (view_insert 4 9 0 v).free ≡ n
unfolding view_insert
view_insert-free v n e = omega arith

abbrev use_up : (n : ℕ) (m : Store) (v : View) → Represents m v → v.free ≡ n → Full
use_up zero m v r e = record { store = m; view = v; represents = r; no_free = e }
use_up (suc n) m v r e =
    use_up n (state_of m (Queue.insert 4 9 0 m)) (view_insert 4 9 0 v)
      (promised m (insert-view m v 4 9 0 r (omega arith) (omega arith))).holds
      (view_insert-free v n e)

abbrev used_up : Full
used_up = use_up 10 at_rest.store booted at_rest-IsKernel.view refl

insert_used_up : Queue.insert 8 2 30 used_up.store ≡ panic
insert_used_up = insert-panic used_up.store used_up.view 8 2 30 used_up.represents used_up.no_free
