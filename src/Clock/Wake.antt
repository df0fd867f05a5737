-- ===== src/Clock/Wake.antt =====
-- The loop of the clock's handler that wakes the sleepers whose time has come.
use mathlib.Core.Path.{subst}
use systems_os.Prelude.{
  ℕ, zero, suc, ◌+◌, ◌<◌, ◌≡◌, ◌≢◌, refl, true, false, List, [], ◌∷◌, map, arith, leb,
  if◌then◌else◌, ap, sym, ◌∙◌, inl, inr, ℕ_discrete, length, has, List-cases, ne→eqb, Bool-cases,
}
use systems_os.Machine.{Cmd, ok, and_then, Returns, returns, bind, mono}
use systems_os.Queue
use systems_os.Queue.{Ptr, null, Store}
use systems_os.Queue.View.{Entry, View, Represents}
use systems_os.Queue.Peek.{is_nil, first_key, empty-view, kpeek-view}
use systems_os.Queue.Insert.{view_insert, view_insert-other}
use systems_os.Queue.Remove.{first_item, view_remove, remove-view, view_remove-items}
use systems_os.Queue.Init.{AllLive}
use systems_os.Kernel.{Kernel, Pcb, with_store, queued}
use systems_os.Kernel.Books.{
  roles, IsKernel, remove-IsBalanced, remove-IsWired, remove-IsLive, queued_bind,
}
use systems_os.Scheduler.{readied}
use systems_os.Scheduler.Laws.{readied-prio, schedule_lem}
use systems_os.Clock.{wake, wake_due, wake_one}

-- The entries at the front whose key is at most `t`, and those behind them.
abbrev pub due : ℕ → List Entry → List Entry
due t [] = []
due t ((key, x) ∷ es) = let rest = due t es in if leb key t then (key, x) ∷ rest else []

abbrev pub not_due : ℕ → List Entry → List Entry
not_due t [] = []
not_due t ((key, x) ∷ es) = let rest = not_due t es in if leb key t then rest else (key, x) ∷ es

abbrev pub processes : List Entry → List Ptr
processes es = map (λ e. e.1) es

-- What the loop leaves: the processes `ps` are ready at legal priorities, no other has changed.
pub record Woken (k : Kernel) (ps : List Ptr) (k' : Kernel) : Type 0 where
  pub ready : (p : Ptr) → has p ps ≡ true → k'.pcb p ≡ readied (k.pcb p)
  pub others : (p : Ptr) → has p ps ≡ false → k'.pcb p ≡ k.pcb p
  pub time : k'.system_time ≡ k.system_time
  pub current : k'.current ≡ k.current

abbrev pub Awake : Kernel → View → ℕ → ℕ → Kernel → Type 0
Awake k v out lent k' =
    Woken k (processes (due k.system_time (v.items 8))) k'
    × (v' : View) × IsKernel k' v' out lent
    × (v'.items 8 ≡ not_due k.system_time (v.items 8))

readied-readied : (b : Pcb) → readied (readied b) ≡ readied b
readied-readied b = ground arith

Woken-cons-ready :
    (k k1 k2 : Kernel) (x : Ptr) (ps : List Ptr)
    → k1.pcb x ≡ readied (k.pcb x)
    → ((p : Ptr) → p ≢ x → k1.pcb p ≡ k.pcb p)
    → Woken k1 ps k2
    → (p : Ptr) → has p (x ∷ ps) ≡ true
    → k2.pcb p ≡ readied (k.pcb p)
Woken-cons-ready k k1 k2 x ps own others w p h = elim (Bool-cases (has p ps)) [
  | inl t ↦ elim (ℕ_discrete p x) [
    | yes e ↦
        w.ready p t
        ∙ ap readied (ap k1.pcb e ∙ own ∙ ap (λ q. readied (k.pcb q)) (sym e))
        ∙ readied-readied (k.pcb p)
    | no d ↦ w.ready p t ∙ ap readied (others p d)
  ]
  | inr f ↦ elim (ℕ_discrete p x) [
    | yes e ↦ w.others p f ∙ ap k1.pcb e ∙ own ∙ ap (λ q. readied (k.pcb q)) (sym e)
    | no d ↦ absurd (ground arith)
  ]
]

Woken-cons :
    (k k1 k2 : Kernel) (x : Ptr) (ps : List Ptr)
    → k1.pcb x ≡ readied (k.pcb x)
    → ((p : Ptr) → p ≢ x → k1.pcb p ≡ k.pcb p)
    → k1.system_time ≡ k.system_time
    → k1.current ≡ k.current
    → Woken k1 ps k2
    → Woken k (x ∷ ps) k2
Woken-cons k k1 k2 x ps own others time current w = record {
  ready = Woken-cons-ready k k1 k2 x ps own others w;
  others = λ p h. ground (arith, w.others p, others p);
  time = w.time ∙ time;
  current = w.current ∙ current;
}

-- A round that takes the first sleeper, when the rounds after it behave.
wake_step :
    (again : Cmd Kernel (Unit {0})) (k : Kernel) (v : View) (out lent key x : ℕ) (es : List Entry)
    → IsKernel k v out lent
    → v.items 8 ≡ (key, x) ∷ es
    → ((k1 : Kernel) (v1 : View)
        → IsKernel k1 v1 out lent
        → v1.items 8 ≡ es
        → Returns (λ _ k2. Awake k1 v1 out lent k2) (again k1))
    → Returns
        (λ _ k'.
          Woken k (x ∷ processes (due k.system_time es)) k'
          × (v' : View) × IsKernel k' v' out lent
          × (v'.items 8 ≡ not_due k.system_time es))
        (and_then (queued (Queue.remove k.sleeping) k) (wake_one again))
wake_step again k v out lent key x es inv e rest =
    let live : AllLive ((key, x) ∷ es) = subst AllLive e (inv.live 8) in
    let bal = remove-IsBalanced v 8 out lent (key, x) es (omega arith) e inv.balanced in
    let w = remove-IsWired (roles k) v 8 inv.wired in
    let l = remove-IsLive v 8 (key, x) es e inv.live in
    let removed : Returns (λ y s. (y ≡ first_item (v.items 8)) × Represents s (view_remove 8 v))
        (Queue.remove k.sleeping k.store) =
      subst
        (λ q.
          Returns (λ y s. (y ≡ first_item (v.items 8)) × Represents s (view_remove 8 v))
            (Queue.remove q k.store))
        (sym inv.wired.sleeping) (remove-view k.store v 8 inv.view (omega arith)) in
    queued_bind k (wake_one again) removed λ y s (first, r).
      let same : y ≡ x = first ∙ ap first_item e in
      rw (same, ne→eqb x 0 live.0)
        (bind
          (schedule_lem (record k { store = s }) (view_remove 8 v) x out lent
            (record { view = r; wired = w; balanced = bal; live = l }) live.0)
          λ _ k1 (sch, inv1).
            let left =
              view_insert-other (view_remove 8 v) (4 + (readied (k.pcb x)).prio) x 0 8
                (omega (arith, readied-prio (k.pcb x)))
              ∙ view_remove-items v 8 (key, x) es e in
            let same_queue : (f : ℕ → List Entry → List Entry)
                → f k1.system_time
                    ((view_insert (4 + (readied (k.pcb x)).prio) x 0 (view_remove 8 v)).items 8)
                  ≡ f k.system_time es =
              λ f.
                ap
                  (λ n.
                    f n
                      ((view_insert (4 + (readied (k.pcb x)).prio) x 0 (view_remove 8 v)).items 8))
                  sch.time
                ∙ ap (f k.system_time) left in
            mono (rest k1 _ inv1 left) λ _ k2 (wk, v2, inv2, e2). (
              Woken-cons k k1 k2 x (processes (due k.system_time es)) sch.own sch.others sch.time
                  sch.current (subst (λ ds. Woken k1 (processes ds) k2) (same_queue due) wk),
              v2,
              inv2,
              e2 ∙ same_queue not_due,
            ))

Woken-nil : (k : Kernel) → Woken k [] k
Woken-nil k = record {
  ready = λ p h. ground arith;
  others = λ p h. refl;
  time = refl;
  current = refl;
}

-- From the kernel's invariant, with more fuel than there are sleepers, the loop that wakes
-- sleepers returns: the sleepers at the front of the queue whose key is at most the time are
-- ready with legal priorities, no other PCB has changed, the rest of the sleep queue is as it
-- was, and the invariant holds with the same numbers of PCBs and stacks in use.
pub wake-Awake :
    (fuel : ℕ) (k : Kernel) (v : View) (out lent : ℕ)
    → IsKernel k v out lent
    → length (v.items 8) < fuel
    → Returns (λ _ k'. Awake k v out lent k') (wake fuel k)
unfolding wake
wake-Awake zero k v out lent inv h = absurd (omega arith)
wake-Awake (suc fuel) k v out lent inv h =
    let none_left : queued (Queue.empty k.sleeping) k ≡ ok (is_nil (v.items 8)) k =
      ap (with_store k) (
        ap (λ q. Queue.empty q k.store) inv.wired.sleeping
        ∙ empty-view k.store v 8 inv.view (omega arith)) in
    let peeked : queued (Queue.kpeek k.sleeping) k ≡ ok (first_key (v.items 8)) k =
      ap (with_store k) (
        ap (λ q. Queue.kpeek q k.store) inv.wired.sleeping
        ∙ kpeek-view k.store v 8 inv.view (omega arith)) in
    elim (List-cases (v.items 8)) [
      | inl e ↦ rw (none_left, e, is_nil) (returns (Woken-nil k, v, inv, e))
      | inr ((key, x), es, e) ↦
          rw (none_left, e, is_nil, peeked, e, first_key, wake_due)
            (elim (Bool-cases (leb key k.system_time)) [
              | inl t ↦ rw t (
                  wake_step (wake fuel) k v out lent key x es inv e λ k1 v1 i1 e1.
                    wake-Awake fuel k1 v1 out lent i1 (omega (arith, ap length e, ap length e1)))
              | inr t ↦ rw t (returns (Woken-nil k, v, inv, e))
            ])
    ]
