-- ===== src/Scheduler.antt =====
-- scheduler.c: the ready queues and the choice of the process that runs.
pub mod Laws
use systems_os.Prelude.{
  ℕ, zero, suc, ◌+◌, true, false, none, List, [], ◌∷◌, Bool, ◌==◌, leb, if◌then◌else◌, length,
}
use systems_os.Machine.{ok, panic, fault, Cmd, and_then}
use systems_os.Queue
use systems_os.Queue.{Ptr, null}
use systems_os.Kernel.{
  Kernel, Pcb, set_pcb, queued, n_prios, prio_user_low, state_ready, state_running,
}

-- The PCB as `_schedule` leaves it: a legal priority, and ready.
abbrev pub readied : Pcb → Pcb
readied b = record b {
  prio = if leb n_prios b.prio then prio_user_low else b.prio;
  state = state_ready;
}

-- `_schedule`.
unfoldable pub schedule : Ptr → Cmd Kernel (Unit {0})
schedule p k =
    if p == null
    then panic
    else queued (Queue.insert (k.ready (readied (k.pcb p)).prio) p 0)
        (set_pcb k p (readied (k.pcb p)))

-- The PCB as `_dispatch` leaves it, and the state in which it runs.
abbrev pub started : Pcb → Pcb
started b = record b { state = state_running; quantum = b.default_quantum }

abbrev pub run_next : Ptr → Cmd Kernel (Unit {0})
run_next p k =
    if p == null then panic else ok tt (record (set_pcb k p (started (k.pcb p))) { current = p })

-- The loop of `_dispatch`, over `n` levels from `i` on.
unfoldable pub dispatch_from : ℕ → ℕ → Cmd Kernel (Unit {0})
dispatch_from zero i k = panic
dispatch_from (suc n) i k =
    let lower = dispatch_from n (i + 1) in
    and_then (queued (Queue.empty (k.ready i)) k) λ none_left k1.
      if none_left then lower k1 else and_then (queued (Queue.remove (k1.ready i)) k1) run_next

-- `_dispatch`.
unfoldable pub dispatch : Cmd Kernel (Unit {0})
dispatch = dispatch_from n_prios 0

-- The loop of `_sched_modinit`, and the whole of it.
unfoldable pub init_ready : ℕ → ℕ → Cmd Kernel (Unit {0})
init_ready zero i k = ok tt k
init_ready (suc n) i k =
    and_then (queued (Queue.init (k.ready i) none) k) λ _ k'. init_ready n (i + 1) k'

-- The locations that `_queue_alloc` fills, from `i` on.
abbrev pub fill_ready : List Ptr → ℕ → (ℕ → Ptr) → ℕ → Ptr
fill_ready [] i ready = ready
fill_ready (q ∷ qs) i ready = fill_ready qs (i + 1) (λ j. if j == i then q else ready j)

unfoldable pub sched_modinit : Cmd Kernel (Unit {0})
sched_modinit k = and_then (queued (Queue.alloc n_prios) k) λ qs k1.
    let k2 : Kernel = record k1 { ready = fill_ready qs 0 k1.ready } in
    if length qs == n_prios
    then (and_then (init_ready n_prios 0 k2) λ _ k3. ok tt (record k3 { current = null }))
    else panic
