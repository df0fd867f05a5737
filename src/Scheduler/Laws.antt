-- ===== src/Scheduler/Laws.antt =====
-- What `_schedule` and `_dispatch` do to the processes and to the ready queues.
use systems_os.Prelude.{
  ℕ, zero, suc, ◌+◌, ◌≤◌, ◌<◌, ◌≡◌, ◌≢◌, refl, List, [], ◌∷◌, arith, ap, ◌∙◌, inl, inr, ℕ_discrete,
  List-cases, eq→eqb, ne→eqb,
}
use mathlib.Core.Path.{subst}
use systems_os.Machine.{ok, panic, and_then, Returns, returns, mono}
use systems_os.Queue
use systems_os.Queue.{Ptr, null, Store}
use systems_os.Queue.View.{Entry, View, Represents}
use systems_os.Queue.Peek.{is_nil, empty-view}
use systems_os.Queue.Insert.{view_insert}
use systems_os.Queue.Insert.Law.{insert-view}
use systems_os.Queue.Remove.{first_item, view_remove, view_remove-other, remove-view}
use systems_os.Queue.Init.{AllLive}
use systems_os.Kernel.{Kernel, Pcb, set_pcb, with_store, queued, n_prios}
use systems_os.Kernel.Books.{
  roles, IsKernel, free_node, insert-IsBalanced, remove-IsBalanced, insert-IsWired, remove-IsWired,
  insert-IsLive, remove-IsLive, queued_bind, queued_mono,
}
use systems_os.Scheduler.{readied, schedule, started, run_next, dispatch_from, dispatch}

pub readied-prio : (b : Pcb) → (readied b).prio < 4
readied-prio b = ground arith

-- What `_schedule` leaves: the process is ready, at a legal priority and last in its queue, and
-- nothing else has changed.
pub record Scheduled (k : Kernel) (v : View) (p : Ptr) (k' : Kernel) : Type 0 where
  pub legal : (k'.pcb p).prio < n_prios
  pub own : k'.pcb p ≡ readied (k.pcb p)
  pub others : (q : Ptr) → q ≢ p → k'.pcb q ≡ k.pcb q
  pub view : Represents k'.store (view_insert (4 + (readied (k.pcb p)).prio) p 0 v)
  pub current : k'.current ≡ k.current
  pub time : k'.system_time ≡ k.system_time
  pub words : k'.word ≡ k.word
  pub pid : k'.next_pid ≡ k.next_pid

-- From the kernel's invariant with a PCB out of the queues, `_schedule` of a PCB that is not
-- NULL returns: its state is ready, its priority is the old one if legal and the lowest
-- otherwise, and it is last in the ready queue of that priority; no other PCB, no stack and
-- neither the time nor the current process has changed.
pub schedule_lem :
    (k : Kernel) (v : View) (p : Ptr) (out lent : ℕ)
    → IsKernel k v (suc out) lent
    → p ≢ 0
    → Returns
        (λ _ k'.
          Scheduled k v p k'
          × IsKernel k' (view_insert (4 + (readied (k.pcb p)).prio) p 0 v) out lent)
        (schedule p k)
unfolding schedule
schedule_lem k v p out lent i live =
    let prio = (readied (k.pcb p)).prio in
    let legal : prio < 4 = readied-prio (k.pcb p) in
    let b = insert-IsBalanced v (4 + prio) p 0 out lent (omega arith) i.balanced in
    let w = insert-IsWired (roles k) v (4 + prio) p 0 i.wired in
    rw (ne→eqb p 0 live, i.wired.ready prio legal)
      (queued_mono (set_pcb k p (readied (k.pcb p)))
        (insert-view k.store v (4 + prio) p 0 i.view (omega arith)
          (free_node v (suc out) lent i.balanced))
        λ _ s r. (
          record {
            legal = rw (eq→eqb p p refl) legal;
            own = rw (eq→eqb p p refl);
            others = λ q d. rw (ne→eqb q p d);
            view = r;
            current = refl;
            time = refl;
            words = refl;
            pid = refl;
          },
          record {
            view = r;
            wired = w;
            balanced = b;
            live = insert-IsLive v (4 + prio) p 0 live i.live;
          },
        ))

-- What `_dispatch` leaves when it runs the process `p`.
pub record Running (k : Kernel) (p : Ptr) (k' : Kernel) : Type 0 where
  pub current : k'.current ≡ p
  pub own : k'.pcb p ≡ started (k.pcb p)
  pub others : (q : Ptr) → q ≢ p → k'.pcb q ≡ k.pcb q
  pub time : k'.system_time ≡ k.system_time
  pub active : k'.system_active ≡ k.system_active
  pub pid : k'.next_pid ≡ k.next_pid

module _ (k : Kernel) (v : View) (out lent : ℕ) (inv : IsKernel k v out lent) where
  ready_empty :
      (i : ℕ) → i < 4 → queued (Queue.empty (k.ready i)) k ≡ ok (is_nil (v.items (4 + i))) k
  ready_empty i h = ap (with_store k) (
      ap (λ q. Queue.empty q k.store) (inv.wired.ready i h)
      ∙ empty-view k.store v (4 + i) inv.view (omega arith))

  run-first :
      (j : ℕ) (e : Entry) (es : List Entry)
      → j < 4
      → v.items (4 + j) ≡ e ∷ es
      → e.1 ≢ 0
      → Returns
          (λ _ k'. Running k e.1 k' × IsKernel k' (view_remove (4 + j) v) (suc out) lent)
          (and_then (queued (Queue.remove (k.ready j)) k) run_next)
  run-first j e es h found live =
      let removed = remove-view k.store v (4 + j) inv.view (omega arith) in
      let bal = remove-IsBalanced v (4 + j) out lent e es (omega arith) found inv.balanced in
      let w = remove-IsWired (roles k) v (4 + j) inv.wired in
      rw (inv.wired.ready j h) (
        queued_bind k run_next removed λ x s (first, r).
          let same : x ≡ e.1 = first ∙ ap first_item found in
          rw (same, ne→eqb e.1 0 live)
            (returns (
              record {
                current = refl;
                own = rw (eq→eqb e.1 e.1 refl);
                others = λ q d. rw (ne→eqb q e.1 d);
                time = refl;
                active = refl;
                pid = refl;
              },
              record {
                view = r;
                wired = w;
                balanced = bal;
                live = remove-IsLive v (4 + j) e es found inv.live;
              },
            )))

  dispatch_from-first :
      (n i j : ℕ) (e : Entry) (es : List Entry)
      → i ≤ j
      → j < i + n
      → i + n ≡ 4
      → ((l : ℕ) → i ≤ l → l < j → v.items (4 + l) ≡ [])
      → v.items (4 + j) ≡ e ∷ es
      → e.1 ≢ 0
      → Returns
          (λ _ k'. Running k e.1 k' × IsKernel k' (view_remove (4 + j) v) (suc out) lent)
          (dispatch_from n i k)
  unfolding dispatch_from
  dispatch_from-first zero i j e es le lt end gap found live = absurd (omega arith)
  dispatch_from-first (suc n) i j e es le lt end gap found live = elim (ℕ_discrete i j) [
    | yes s ↦
        rw (ready_empty i (omega arith), ap (λ l. is_nil (v.items (4 + l))) s, found, is_nil)
          (rw s (run-first j e es (omega arith) found live))
    | no s ↦
        rw (ready_empty i (omega arith), gap i (omega arith) (omega arith), is_nil)
          (dispatch_from-first n (i + 1) j e es (omega arith) (omega arith) (omega arith)
            (λ l a b. gap l (omega arith) b) found live)
  ]

  -- From the kernel's invariant, `_dispatch` runs the first process of the first ready queue
  -- that is not empty, if that is not NULL: it becomes current, is running with a full
  -- quantum, and has left its queue; no other process has changed, and the invariant holds
  -- with one PCB more out of the queues.
  pub dispatch-first :
      (j : ℕ) (e : Entry) (es : List Entry)
      → j < 4
      → ((l : ℕ) → l < j → v.items (4 + l) ≡ [])
      → v.items (4 + j) ≡ e ∷ es
      → e.1 ≢ 0
      → Returns
          (λ _ k'. Running k e.1 k' × IsKernel k' (view_remove (4 + j) v) (suc out) lent)
          (dispatch k)
  unfolding dispatch
  dispatch-first j e es h gap found live =
      dispatch_from-first 4 0 j e es (omega arith) (omega arith) (omega arith) (λ l a b. gap l b)
        found live

  dispatch_from-panic :
      (n i : ℕ)
      → i + n ≡ 4
      → ((l : ℕ) → i ≤ l → l < 4 → v.items (4 + l) ≡ [])
      → dispatch_from n i k ≡ panic
  unfolding dispatch_from
  dispatch_from-panic zero i end gap = refl
  dispatch_from-panic (suc n) i end gap =
      rw (ready_empty i (omega arith), gap i (omega arith) (omega arith), is_nil)
        (dispatch_from-panic n (i + 1) (omega arith) (λ l a b. gap l (omega arith) b))

  -- From the kernel's invariant with all ready queues empty, `_dispatch` panics.
  pub dispatch-panic : ((l : ℕ) → l < 4 → v.items (4 + l) ≡ []) → dispatch k ≡ panic
  unfolding dispatch
  dispatch-panic gap = dispatch_from-panic 4 0 (omega arith) (λ l a b. gap l b)

-- The first ready queue that is not empty.
record FirstLevel (v : View) (i : ℕ) : Type 0 where
  level : ℕ
  bound : level ≤ i
  gap : (l : ℕ) → l < level → v.items (4 + l) ≡ []
  entry : Entry
  rest : List Entry
  found : v.items (4 + level) ≡ entry ∷ rest

first_level :
    (v : View) (n i : ℕ) (h : v.items (4 + i) ≢ [])
    → ((l : ℕ) → l < n → v.items (4 + l) ≡ [])
    → (d : ℕ) → i ≡ n + d
    → FirstLevel v i
first_level v n i h gap zero e = elim (List-cases (v.items (4 + n))) [
  | inl f ↦ let same : i ≡ n = omega arith in absurd (h (ap (λ j. v.items (4 + j)) same ∙ f))
  | inr (x, xs, f) ↦ record {
    level = n;
    bound = omega arith;
    gap = gap;
    entry = x;
    rest = xs;
    found = f;
  }
]
first_level v n i h gap (suc d) e = elim (List-cases (v.items (4 + n))) [
  | inl f ↦
      first_level v (n + 1) i h
        (λ l b. elim (ℕ_discrete l n) [
          | yes s ↦ ap (λ j. v.items (4 + j)) s ∙ f
          | no s ↦ gap l (omega arith)
        ])
        d (omega arith)
  | inr (x, xs, f) ↦ record {
    level = n;
    bound = omega arith;
    gap = gap;
    entry = x;
    rest = xs;
    found = f;
  }
]

-- Some process runs, the invariant holds with one more PCB out of the queues, and no process has
-- left the sleep queue.
abbrev pub Runs : Kernel → View → ℕ → ℕ → Kernel → Type 0
Runs k v out lent k' =
    (p : Ptr) × (p ≢ 0)
    × Running k p k'
    × (v' : View) × IsKernel k' v' (suc out) lent
    × (v'.items 8 ≡ v.items 8)

-- If a ready queue is not empty, `_dispatch` returns.
pub dispatch-Runs :
    (k : Kernel) (v : View) (out lent i : ℕ)
    → IsKernel k v out lent
    → i < 4
    → v.items (4 + i) ≢ []
    → Returns (λ _ k'. Runs k v out lent k') (dispatch k)
dispatch-Runs k v out lent i inv h e =
    let at = first_level v 0 i e (λ l b. absurd (omega arith)) i (omega arith) in
    let live : AllLive (at.entry ∷ at.rest) = subst AllLive at.found (inv.live (4 + at.level)) in
    mono
      (dispatch-first k v out lent inv at.level at.entry at.rest (omega (arith, at.bound)) at.gap
        at.found live.0)
      λ _ k' (r, inv'). (
        at.entry.1,
        live.0,
        r,
        view_remove (4 + at.level) v,
        inv',
        view_remove-other v (4 + at.level) 8 (omega (arith, at.bound)),
      )
