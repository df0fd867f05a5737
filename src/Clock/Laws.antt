-- ===== src/Clock/Laws.antt =====
-- What `_clock_isr` does to the kernel: the sleepers that are due, and the process that runs.
use systems_os.Prelude.{
  ℕ, suc, ◌+◌, ◌%◌, ◌≡◌, ◌≢◌, refl, arith, ◌==◌, ltb, ap, sym, ◌∙◌, inl, inr, ne→eqb, Bool-cases,
}
use systems_os.Machine.{and_then, Returns, returns, bind, mono, add32}
use systems_os.Queue.View.{View}
use systems_os.Queue.Insert.{view_insert, view_insert-other, view_insert-some}
use systems_os.Queue.Peek.{size-length}
use systems_os.Kernel.{Kernel, Pcb, set_pcb}
use systems_os.Kernel.Books.{IsKernel}
use systems_os.Scheduler.{readied, schedule, dispatch}
use systems_os.Scheduler.Laws.{readied-prio, schedule_lem, dispatch-Runs}
use systems_os.Clock.{wake, charge, clock_isr}
use systems_os.Clock.Wake.{not_due, wake-Awake}

-- Some process is current, and the invariant holds with the given entries in the sleep queue.
abbrev pub Charged : Kernel → View → ℕ → Kernel → Type 0
Charged k v lent k' =
    (k'.current ≢ 0)
    × (k'.system_time ≡ k.system_time)
    × (v' : View) × IsKernel k' v' 1 lent
    × (v'.items 8 ≡ v.items 8)

-- The PCB of the process whose tick is counted.
abbrev pub ticked : Pcb → Pcb
ticked b = record b { quantum = (b.quantum + 255) % 256 }

charge-expired :
    (k : Kernel) (v : View) (lent : ℕ)
    → IsKernel k v 1 lent
    → k.current ≢ 0
    → Returns (λ _ k'. Charged k v lent k') (and_then (schedule k.current k) λ _ k2. dispatch k2)
charge-expired k v lent inv live =
    let level = (readied (k.pcb k.current)).prio in
    let v1 = view_insert (4 + level) k.current 0 v in
    bind (schedule_lem k v k.current 0 lent inv live) λ _ k1 (s, inv1).
      mono
        (dispatch-Runs k1 v1 0 lent level inv1 (readied-prio (k.pcb k.current))
          (view_insert-some v (4 + level) k.current 0))
        λ _ k2 (p, d, r, v2, inv2, same). (
          λ c. d (sym r.current ∙ c),
          r.time ∙ s.time,
          v2,
          inv2,
          same
              ∙ view_insert-other v (4 + level) k.current 0 8
                  (omega (arith, readied-prio (k.pcb k.current))),
        )

-- Counting a tick never stops the kernel.
pub charge-Charged :
    (k : Kernel) (v : View) (lent : ℕ)
    → IsKernel k v 1 lent
    → k.current ≢ 0
    → Returns (λ _ k'. Charged k v lent k') (charge k)
unfolding charge
charge-Charged k v lent inv live =
    let inv1 : IsKernel (set_pcb k k.current (ticked (k.pcb k.current))) v 1 lent = record {
      view = inv.view;
      wired = inv.wired;
      balanced = inv.balanced;
      live = inv.live;
    } in
    rw (ne→eqb k.current 0 live)
      (elim (Bool-cases (ltb (((k.pcb k.current).quantum + 255) % 256) 1)) [
        | inl t ↦
            rw t (charge-expired (set_pcb k k.current (ticked (k.pcb k.current))) v lent inv1 live)
        | inr t ↦ rw t (returns (live, refl, v, inv1, refl))
      ])

-- The clock as the handler advances it.
abbrev pub tomorrow : Kernel → ℕ
tomorrow k = add32 k.system_time 1

-- What the handler leaves: some process is current, the sleepers that are due have left the sleep
-- queue, no PCB is lost and every node and stack is where the books say.
abbrev pub Ticked : Kernel → View → ℕ → Kernel → Type 0
Ticked k v lent k' =
    (k'.current ≢ 0)
    × (k'.system_time ≡ tomorrow k)
    × (v' : View) × IsKernel k' v' 1 lent
    × (v'.items 8 ≡ not_due (tomorrow k) (v.items 8))

after_wake :
    (k k1 : Kernel) (v : View) (lent : ℕ)
    → IsKernel k1 v 1 lent
    → k1.current ≢ 0
    → k1.system_time ≡ tomorrow k
    → Returns
        (λ _ k'. Ticked k v lent k')
        (and_then (wake (suc (k1.store.queue k1.sleeping).size) k1) λ _ k2. charge k2)
after_wake k k1 v lent inv live time =
    bind
      (wake-Awake (suc (k1.store.queue k1.sleeping).size) k1 v 1 lent inv (
        omega (
          arith,
          ap (λ q. (k1.store.queue q).size) inv.wired.sleeping,
          size-length k1.store v 8 inv.view (omega arith),
        )))
      λ _ k2 (w, v2, inv2, e2).
        mono (charge-Charged k2 v2 lent inv2 λ c. live (sym w.current ∙ c))
          λ _ k3 (d, t, v3, inv3, e3).
            (d, t ∙ w.time ∙ time, v3, inv3, e3 ∙ e2 ∙ ap (λ t. not_due t (v.items 8)) time)

-- From the kernel's invariant with a current process, the clock's handler returns: some process
-- is current, the time is one more modulo 2^32, the invariant holds with the same numbers of
-- PCBs and stacks in use, and exactly the sleepers at the front whose time has come have left
-- the sleep queue.
pub clock_isr-Ticked :
    (k : Kernel) (v : View) (lent : ℕ)
    → IsKernel k v 1 lent
    → k.current ≢ 0
    → Returns (λ _ k'. Ticked k v lent k') (clock_isr k)
unfolding clock_isr
clock_isr-Ticked k v lent inv live = elim (Bool-cases (add32 k.pinwheel 1 == 100)) [
  | inl t ↦ rw t (
      after_wake k (record k { pinwheel = 0; pindex = add32 k.pindex 1; system_time = tomorrow k })
        v lent
        (record { view = inv.view; wired = inv.wired; balanced = inv.balanced; live = inv.live })
        live refl)
  | inr t ↦ rw t (
      after_wake k (record k { pinwheel = add32 k.pinwheel 1; system_time = tomorrow k }) v lent
        (record { view = inv.view; wired = inv.wired; balanced = inv.balanced; live = inv.live })
        live refl)
]
