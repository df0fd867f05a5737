-- ===== src/Process.antt =====
-- process.c: the process control blocks.
pub mod Laws
pub mod Find
use systems_os.Prelude.{
  ℕ, zero, suc, ◌+◌, ◌-◌, ◌%◌, ◌^◌, true, false, ◌&&◌, not, none, List, [], ◌∷◌, ◌==◌,
  if◌then◌else◌, length, head_or,
}
use systems_os.Machine.{ok, panic, Cmd, and_then, add32, sub32}
use systems_os.Queue
use systems_os.Queue.{Ptr, null, n_procs}
use systems_os.Kernel.{Kernel, Pcb, zero_pcb, set_pcb, queued, n_pcbs, state_free, state_new}

-- What `_pcb_alloc` does with the PCB that it got.
abbrev pub alloc_found : Ptr → Kernel → Kernel
alloc_found p k =
    let marked = if p == null then k else set_pcb k p (record (k.pcb p) { state = state_new }) in
    record marked { system_active = add32 marked.system_active 1 }

-- `_pcb_alloc`.
unfoldable pub pcb_alloc : Cmd Kernel Ptr
pcb_alloc k = and_then (queued (Queue.remove k.free_pcbs) k) λ p k'. ok p (alloc_found p k')

-- `_pcb_dealloc`.
unfoldable pub pcb_dealloc : Ptr → Cmd Kernel (Unit {0})
pcb_dealloc p k =
    if p == null
    then ok tt k
    else and_then (queued (Queue.insert k.free_pcbs p 0) (set_pcb k p zero_pcb))
        λ _ k'. ok tt (record k' { system_active = sub32 k'.system_active 1 })

-- The loop of `_pcb_find`, over `n` PCBs from `p` on.
unfoldable pub find_from : ℕ → Ptr → ℕ → Kernel → Ptr
find_from zero p pid k = null
find_from (suc n) p pid k =
    let rest = find_from n (p + 1) pid k in
    if not ((k.pcb p).state == state_free) && ((k.pcb p).pid == pid) then p else rest

-- `_pcb_find`.
unfoldable pub pcb_find : ℕ → Kernel → Ptr
pcb_find pid k = find_from n_procs 1 pid k

-- The loop of `_pcb_modinit`.
unfoldable pub pcb_dealloc_from : ℕ → Ptr → Cmd Kernel (Unit {0})
pcb_dealloc_from zero p k = ok tt k
pcb_dealloc_from (suc n) p k = and_then (pcb_dealloc p k) λ _ k'. pcb_dealloc_from n (p + 1) k'

-- `_pcb_modinit`; `PID_INIT` is 1.
unfoldable pub pcb_modinit : Cmd Kernel (Unit {0})
pcb_modinit k = and_then (queued (Queue.alloc 1) k) λ qs k1.
    let k2 : Kernel = record k1 { free_pcbs = head_or k1.free_pcbs qs } in
    if length qs == 1 && not (k2.free_pcbs == null)
    then (and_then (queued (Queue.init k2.free_pcbs none) k2) λ _ k3.
        and_then (pcb_dealloc_from n_pcbs 1 k3)
          λ _ k4. ok tt (record k4 { next_pid = 1; system_active = 0 }))
    else panic
