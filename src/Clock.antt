-- ===== src/Clock.antt =====
-- clock.c: the handler of the clock's interrupt.
pub mod Wake
pub mod Laws
pub mod Turn
use systems_os.Prelude.{ℕ, zero, suc, ◌+◌, ◌%◌, Bool, true, false, ◌==◌, leb, ltb, if◌then◌else◌}
use systems_os.Machine.{ok, panic, fault, out_of_fuel, Cmd, and_then, add32}
use systems_os.Queue
use systems_os.Queue.{Ptr, null}
use systems_os.Kernel.{Kernel, Pcb, set_pcb, queued}
use systems_os.Scheduler.{schedule, dispatch}

-- The pinwheel turns every tenth of a second.
abbrev pub spin : Kernel → Kernel
spin k =
    let n = add32 k.pinwheel 1 in
    if n == 100
    then record k { pinwheel = 0; pindex = add32 k.pindex 1 }
    else record k { pinwheel = n }

-- A round of the loop that wakes sleepers: after the test for an empty queue, after the test of the
-- first key, and with the PCB that was removed.
abbrev pub wake_one : Cmd Kernel (Unit {0}) → Ptr → Cmd Kernel (Unit {0})
wake_one again p k = if p == null then panic else and_then (schedule p k) λ _ k'. again k'

abbrev pub wake_due : Cmd Kernel (Unit {0}) → ℕ → Cmd Kernel (Unit {0})
wake_due again key k =
    if leb key k.system_time
    then and_then (queued (Queue.remove k.sleeping) k) (wake_one again)
    else ok tt k

abbrev pub wake_round : Cmd Kernel (Unit {0}) → Bool → Cmd Kernel (Unit {0})
wake_round again true k = ok tt k
wake_round again false k = and_then (queued (Queue.kpeek k.sleeping) k) (wake_due again)

-- The loop.
unfoldable pub wake : ℕ → Cmd Kernel (Unit {0})
wake zero k = out_of_fuel
wake (suc fuel) k = and_then (queued (Queue.empty k.sleeping) k) (wake_round (wake fuel))

-- The current process has used a tick of its quantum, a `uint8_t`.
unfoldable pub charge : Cmd Kernel (Unit {0})
charge k =
    let p = k.current in
    let quantum = ((k.pcb p).quantum + 255) % 256 in
    let k' = set_pcb k p (record (k.pcb p) { quantum = quantum }) in
    if p == null
    then fault
    else if ltb quantum 1
    then (and_then (schedule p k') λ _ k2. dispatch k2)
    else ok tt k'

-- `_clock_isr`. The fuel of the loop is the length of the sleep queue and one more round for the test
-- that fails.
unfoldable pub clock_isr : Cmd Kernel (Unit {0})
clock_isr k =
    let k0 = spin k in
    let k1 : Kernel = record k0 { system_time = add32 k0.system_time 1 } in
    and_then (wake (suc (k1.store.queue k1.sleeping).size) k1) λ _ k2. charge k2
