-- ===== src/Trap/Events.antt =====
-- Sequences of the two interrupts that drive the processes: the clock's and the system calls'.
use systems_os.Prelude.{
  ℕ, zero, suc, ◌+◌, ◌≤◌, ◌<◌, ◌≡◌, ◌≢◌, refl, List, [], ◌∷◌, arith, ap, sym, ◌∙◌, inl, inr, ◌⊎◌,
  length, ne→eqb,
}
use mathlib.Core.Path.{subst}
use systems_os.Machine.{Run, ok, Cmd, Returns, returns, mono, and_then}
use systems_os.Queue.{Ptr, n_stacks}
use systems_os.Queue.View.{View}
use systems_os.Queue.Peek.{size-length}
use systems_os.Kernel.{Kernel}
use systems_os.Kernel.Books.{IsKernel}
use systems_os.System.{Platform}
use systems_os.Sio.{Uart}
use systems_os.Clock.{clock_isr}
use systems_os.Clock.Laws.{clock_isr-Ticked}
use systems_os.Syscall.{
  ret, sys_get_process_info, sys_get_system_info, sys_spawnp, sys_sleep, sys_exit,
}
use systems_os.Syscall.Laws.{sys_exit-Ended, sys_spawnp-Kept, sys_sleep-Slept}
use systems_os.Syscall.Info.{result, sys_get_process_info-IsAsked}
use systems_os.Trap.{World, kernel_of, on_kernel, requested, legal, syscalls, sys_isr}
use systems_os.Trap.Laws.{on_kernel-Returns}

-- Some process runs, and the kernel's books are right.
abbrev pub IsRunning : Kernel → Type 0
IsRunning k = (k.current ≢ 0) × (v : View) × (lent : ℕ) × IsKernel k v 1 lent

pub data Event : Type 0 where
  tick : Event
  trap : Event

abbrev pub handle : Platform → Uart → Event → Cmd World (Unit {0})
handle env u tick w = on_kernel w (clock_isr (kernel_of w))
handle env u trap w = sys_isr env u w

abbrev pub run : Platform → Uart → List Event → Cmd World (Unit {0})
run env u [] w = ok tt w
run env u (e ∷ es) w = and_then (handle env u e w) λ _ w'. run env u es w'

-- Another process is ready, and the caller has a stack.
pub record HasReady (k : Kernel) : Type 0 where
  pub prio : ℕ
  pub legal_prio : prio < 4
  pub waits : (k.store.queue (k.ready prio)).size ≢ 0

abbrev pub HasStack : Kernel → Type 0
HasStack k = ((k.pcb k.current).stack ≢ 0) × ((k.store.queue k.free_stacks).size < n_stacks)

-- The clock may tick at any time. A process may call for a new process or for information at any
-- time, to sleep while another process is ready, and to end, or with an illegal code, if it also
-- has its stack.
pub data MayCome (w : World) : Event → Type 0 where
  clock : MayCome w tick
  spawnp : requested w ≡ 1 → MayCome w trap
  process_info : requested w ≡ 5 → MayCome w trap
  system_info : requested w ≡ 6 → MayCome w trap
  sleep : requested w ≡ 2 → HasReady (kernel_of w) → MayCome w trap
  ending :
      (requested w ≡ 0) ⊎ (13 ≤ requested w)
      → HasReady (kernel_of w)
      → HasStack (kernel_of w)
      → MayCome w trap

pub data AllMayCome (env : Platform) (u : Uart) : World → List Event → Type 0 where
  done : {w : World} → AllMayCome env u w []
  next :
      {w : World} {e : Event} {es : List Event}
      → MayCome w e
      → ((w' : World) → handle env u e w ≡ ok tt w' → AllMayCome env u w' es)
      → AllMayCome env u w (e ∷ es)

-- The books say that a queue which is not empty has items, and that a stack is in use.
ready-items :
    (k : Kernel) (v : View) (out lent : ℕ)
    → IsKernel k v out lent
    → (h : HasReady k) → v.items (4 + h.prio) ≢ []
ready-items k v out lent inv h e = h.waits (
    ap (λ q. (k.store.queue q).size) (inv.wired.ready h.prio h.legal_prio)
    ∙ size-length k.store v (4 + h.prio) inv.view (omega (arith, h.legal_prio))
    ∙ ap length e)

lent-some :
    (k : Kernel) (v : View) (out lent : ℕ)
    → IsKernel k v out lent
    → (k.store.queue k.free_stacks).size < n_stacks
    → lent ≢ 0
lent-some k v out lent inv h z = absurd (
    omega (
      arith,
      inv.balanced.stacks,
      z,
      ap (λ q. (k.store.queue q).size) inv.wired.free_stacks,
      size-length k.store v 3 inv.view (omega arith),
    ))

-- A result changes nothing of the books.
ret-IsRunning : (k : Kernel) (x : ℕ) (p : Ptr) → IsRunning k → IsRunning (ret x p k)
ret-IsRunning k x p (live, v, lent, inv) = (
  live,
  v,
  lent,
  record { view = inv.view; wired = inv.wired; balanced = inv.balanced; live = inv.live },
)

info-IsRunning :
    (k : Kernel) → IsRunning k → Returns (λ _ k'. IsRunning k') (sys_get_process_info k.current k)
info-IsRunning k h = mono (sys_get_process_info-IsAsked k k.current h.0) λ _ k' (only, _, _, _, _).
    subst IsRunning (sym only) (ret-IsRunning k (result k.current k') k.current h)

system_info-IsRunning :
    (k : Kernel) → IsRunning k → Returns (λ _ k'. IsRunning k') (sys_get_system_info k.current k)
unfolding sys_get_system_info
system_info-IsRunning k h = returns (ret-IsRunning k _ k.current h)

spawnp-IsRunning :
    (env : Platform) (k : Kernel)
    → IsRunning k
    → Returns (λ _ k'. IsRunning k') (sys_spawnp env k.current k)
spawnp-IsRunning env k (live, v, lent, inv) =
    mono (sys_spawnp-Kept env k v k.current 1 lent inv)
      λ _ k' (same, _, v', lent', inv'). (λ z. live (sym same ∙ z), v', lent', inv')

sleep-IsRunning :
    (k : Kernel) → IsRunning k → HasReady k → Returns (λ _ k'. IsRunning k') (sys_sleep k.current k)
sleep-IsRunning k (live, v, lent, inv) h =
    mono
      (sys_sleep-Slept k v k.current 0 lent h.prio inv live h.legal_prio
        (ready-items k v 1 lent inv h))
      λ _ k' (live', _, v', inv', _). (live', v', lent, inv')

exit-IsRunning :
    (k : Kernel)
    → IsRunning k
    → HasReady k
    → HasStack k
    → Returns (λ _ k'. IsRunning k') (sys_exit k.current k)
exit-IsRunning k (live, v, zero, inv) h (own, used) = absurd (lent-some k v 1 0 inv used refl)
exit-IsRunning k (live, v, suc lent, inv) h (own, used) =
    mono
      (sys_exit-Ended k v k.current 0 lent h.prio inv refl live own h.legal_prio
        (ready-items k v 1 (suc lent) inv h))
      λ _ k' (live', _, _, v', inv', _). (live', v', lent, inv')

-- A system call of a code whose handler keeps the books.
trap-IsRunning :
    (env : Platform) (u : Uart) (w : World)
    → (kernel_of w).current ≢ 0
    → Returns
        (λ _ w'. IsRunning (kernel_of w'))
        (syscalls env u (legal (requested w)) (kernel_of w).current w)
    → Returns (λ _ w'. IsRunning (kernel_of w')) (sys_isr env u w)
unfolding sys_isr
trap-IsRunning env u w live h = rw (ne→eqb (kernel_of w).current 0 live) h

lifted :
    (w : World) {r : Run Kernel (Unit {0})}
    → Returns (λ _ k'. IsRunning k') r
    → Returns (λ _ w'. IsRunning (kernel_of w')) (on_kernel w r)
lifted w h = mono (on_kernel-Returns {P = IsRunning} w h) λ _ w' (a, _). a

handle-IsRunning :
    (env : Platform) (u : Uart) (w : World) (e : Event)
    → IsRunning (kernel_of w)
    → MayCome w e
    → Returns (λ _ w'. IsRunning (kernel_of w')) (handle env u e w)
unfolding syscalls
handle-IsRunning env u w tick (live, v, lent, inv) clock = lifted w (
    mono (clock_isr-Ticked (kernel_of w) v lent inv live)
      λ _ k' (live', _, v', inv', _). (live', v', lent, inv'))
handle-IsRunning env u w trap h (spawnp c) =
    let code : legal (requested w) ≡ 1 = ground arith in
    trap-IsRunning env u w h.0 (rw code (lifted w (spawnp-IsRunning env (kernel_of w) h)))
handle-IsRunning env u w trap h (process_info c) =
    let code : legal (requested w) ≡ 5 = ground arith in
    trap-IsRunning env u w h.0 (rw code (lifted w (info-IsRunning (kernel_of w) h)))
handle-IsRunning env u w trap h (system_info c) =
    let code : legal (requested w) ≡ 6 = ground arith in
    trap-IsRunning env u w h.0 (rw code (lifted w (system_info-IsRunning (kernel_of w) h)))
handle-IsRunning env u w trap h (sleep c r) =
    let code : legal (requested w) ≡ 2 = ground arith in
    trap-IsRunning env u w h.0 (rw code (lifted w (sleep-IsRunning (kernel_of w) h r)))
handle-IsRunning env u w trap h (ending c r s) =
    let code : legal (requested w) ≡ 0 = elim c [ inl a ↦ ground arith | inr a ↦ ground arith ] in
    trap-IsRunning env u w h.0 (rw code (lifted w (exit-IsRunning (kernel_of w) h r s)))

-- The run behind a step that returned, with what it returned.
and_next :
    {P Q : World → Type 0} {r : Run World (Unit {0})} (k : Cmd World (Unit {0}))
    → Returns (λ _ w'. P w') r
    → ((w' : World) → r ≡ ok tt w' → P w' → Returns (λ _ w''. Q w'') (k w'))
    → Returns (λ _ w''. Q w'') (and_then r λ _ w'. k w')
and_next k (returns {s = w'} p) rest = rest w' refl p

-- When some process is current and the kernel's invariant holds with one PCB out of the queues,
-- a sequence of clock interrupts and system calls returns and leaves a current process and that
-- invariant, if each call comes when it may: the codes of spawnp and of the two information
-- calls at any time, the code of sleep while some ready queue is not empty, and the code of exit
-- or an illegal one while also the current process has a stack and not all stacks are free.
pub run-IsRunning :
    (env : Platform) (u : Uart) (es : List Event) (w : World)
    → IsRunning (kernel_of w)
    → AllMayCome env u w es
    → Returns (λ _ w'. IsRunning (kernel_of w')) (run env u es w)
run-IsRunning env u [] w h all = returns h
run-IsRunning env u (e ∷ es) w h (next may rest) =
    and_next {P = λ w'. IsRunning (kernel_of w')} {Q = λ w'. IsRunning (kernel_of w')}
      (run env u es) (handle-IsRunning env u w e h may)
      λ w' eq h'. run-IsRunning env u es w' h' (rest w' eq)
