-- ===== src/Syscall.antt =====
-- syscall.c: the handlers that end, create, delay and examine processes. Each is called with the PCB
-- of the process that made the call; arguments and results are longwords of its context.
pub mod Laws
pub mod Info
use systems_os.Prelude.{
  ℕ, zero, suc, ◌+◌, ◌-◌, ◌%◌, ◌^◌, true, false, ◌&&◌, not, some, List, [], ◌∷◌, ◌==◌, ltb,
  if◌then◌else◌, length, head_or,
}
use systems_os.Machine.{ok, panic, fault, Cmd, and_then, add32}
use systems_os.Queue
use systems_os.Queue.{Ptr, null, n_procs}
use systems_os.Kernel.{Kernel, Pcb, set_pcb, set_word, queued, state_sleeping}
use systems_os.Stack.{stack_dealloc}
use systems_os.Process.{pcb_dealloc, pcb_find}
use systems_os.Scheduler.{schedule, dispatch}
use systems_os.System.{Platform, create_process}
use systems_os.System.Context

-- `ARG` and `RET` of process.h.
abbrev pub arg : ℕ → Ptr → Kernel → ℕ
arg n p k = k.word ((k.pcb p).context + Context.lwords + n)

abbrev pub ret : ℕ → Ptr → Kernel → Kernel
ret w p k = set_word k ((k.pcb p).context + Context.eax) w

-- -1 as a longword, and the longword of an `int16_t`.
abbrev pub minus_one : ℕ
minus_one = 0xffff_ffff

unfoldable pub sext16 : ℕ → ℕ
sext16 w = if ltb w 0x8000 then w else w + 0xffff_0000

-- `_sys_exit`.
unfoldable pub sys_exit : Ptr → Cmd Kernel (Unit {0})
sys_exit p k =
    and_then (stack_dealloc (k.pcb p).stack k)
      λ _ k1. and_then (pcb_dealloc p k1) λ _ k2. if p == k2.current then dispatch k2 else ok tt k2

-- What `_sys_spawnp` does with the result of `_create_process`.
abbrev pub spawned : Ptr → Ptr → Cmd Kernel (Unit {0})
spawned p new k =
    if new == null
    then ok tt (ret minus_one p k)
    else (let k1 = set_pcb k new (record (k.pcb new) { ppid = (k.pcb p).pid }) in
        schedule new (ret (sext16 (k1.pcb new).pid) p k1))

-- `_sys_spawnp`; the priority is cut down to a `uint8_t`.
unfoldable pub sys_spawnp : Platform → Ptr → Cmd Kernel (Unit {0})
sys_spawnp env p k = and_then (create_process env (arg 1 p k) (arg 2 p k % 2 ^ 8) k) (spawned p)

-- The PCB that `_sys_sleep` puts to sleep.
abbrev pub asleep : ℕ → Pcb → Pcb
asleep wakeup b = record b { wakeup = wakeup; state = state_sleeping }

-- `_sys_sleep` before it picks another process; a millisecond is a tick.
unfoldable pub suspend : Ptr → Cmd Kernel (Unit {0})
suspend p k =
    let ms = arg 1 p k in
    let wakeup = add32 k.system_time ms in
    if ms == 0
    then schedule p k
    else queued (Queue.insert k.sleeping p wakeup) (set_pcb k p (asleep wakeup (k.pcb p)))

-- `_sys_sleep`.
unfoldable pub sys_sleep : Ptr → Cmd Kernel (Unit {0})
sys_sleep p k = and_then (suspend p k) λ _ k'. dispatch k'

-- The `switch` of `_sys_get_process_info`.
unfoldable pub process_info : ℕ → Pcb → ℕ
unfolding sext16
process_info code b =
    if code == 0
    then sext16 b.pid
    else if code == 1
    then sext16 b.ppid
    else if code == 2
    then b.state
    else if code == 3
    then b.wakeup
    else if code == 4
    then b.prio
    else if code == 5
    then b.quantum
    else if code == 6
    then b.default_quantum
    else minus_one

-- `_sys_get_process_info`; the PID is cut down to an `int16_t` where `_pcb_find` is called.
unfoldable pub sys_get_process_info : Ptr → Cmd Kernel (Unit {0})
sys_get_process_info p k =
    let pid = arg 2 p k in
    let found = pcb_find (pid % 2 ^ 16) k in
    let target = if pid == 0 then k.current else found in
    if pid == 0 && k.current == null
    then fault
    else if target == null
    then ok tt (ret minus_one p k)
    else ok tt (ret (process_info (arg 1 p k) (k.pcb target)) p k)

-- `_sys_get_system_info`.
unfoldable pub sys_get_system_info : Ptr → Cmd Kernel (Unit {0})
sys_get_system_info p k =
    let code = arg 1 p k in
    let value =
      if code == 0
      then k.system_time
      else if code == 1
      then k.system_active
      else if code == 2
      then n_procs
      else minus_one in
    ok tt (ret value p k)

-- The part of `_sys_modinit` that sets up the sleep queue.
unfoldable pub init_sleeping : Cmd Kernel (Unit {0})
init_sleeping k = and_then (queued (Queue.alloc 1) k) λ qs k1.
    let k2 : Kernel = record k1 { sleeping = head_or k1.sleeping qs } in
    if length qs == 1 && not (k2.sleeping == null)
    then queued (Queue.init k2.sleeping (some Queue.compare_time)) k2
    else panic
