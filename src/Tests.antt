-- ===== src/Tests.antt =====
-- Runs of the kernel at concrete inputs: after `_init`, on queues and on processes.
pub mod Queues
pub mod Processes
pub mod Limits
pub mod Serial
pub mod Terminal
pub mod Calls
pub mod Disk
pub mod Traps
pub mod Session
use systems_os.Prelude.{
  eq→eqb, some, ℕ, zero, suc, ◌+◌, ◌%◌, ◌^◌, ◌<◌, ◌≡◌, ◌≢◌, refl, false, none, [], ◌∷◌, ◌++◌, arith,
  ap, sym, ◌∙◌,
}
use mathlib.Core.Path.{subst}
use systems_os.Machine.{Run, ok, panic, fault, out_of_fuel, Returns, returns, add32}
use systems_os.Queue
use systems_os.Queue.{Ptr, null, Store, Qnode, compare_time, nonneg}
use systems_os.Queue.View.{View, Represents}
use systems_os.Queue.Insert.{view_insert}
use systems_os.Queue.Insert.Law.{insert-view, insert-panic}
use systems_os.Queue.Remove.{
  first_item, view_remove, view_remove-items, view_remove-other, remove-view,
}
use systems_os.Queue.Peek.{kpeek-view, dpeek-view, size-view}
use systems_os.Queue.Order.{
  Sorted, nonneg-compare_time, insert-last, insert-Sorted, insert-misplaced,
}
use systems_os.Queue.Init.{cleared, view_reset, view_alloc, alloc-view, dealloc-view}
use systems_os.Queue.Boot.{queues_from, modinit-view}
use systems_os.Kernel.{set_pcb, Kernel, zero_pcb, set_word}
use systems_os.Kernel.Books.{IsKernel}
use systems_os.Stack.{stack_alloc, stack_dealloc}
use systems_os.Process.{pcb_alloc, pcb_dealloc, pcb_find}
use systems_os.Process.Laws.{
  Freed, Cleared, pcb_alloc-Got, pcb_dealloc-Freed, stack_dealloc-Cleared, stack_alloc-found,
}
use systems_os.Process.Find.{FirstWith, pcb_find-FirstWith}
use systems_os.Scheduler.{readied, schedule, dispatch}
use systems_os.Scheduler.Laws.{Scheduled, Running, schedule_lem, dispatch-first, dispatch-panic}
use systems_os.System.{Platform, new_pcb, create_process}
use systems_os.System.Context
use systems_os.System.Laws.{
  Created, create_process-Created, create_process-no_pcb, create_process-no_stack,
}
use systems_os.Syscall.{
  process_info, sys_get_process_info, minus_one, arg, sext16, sys_exit, sys_spawnp, sys_sleep,
}
use systems_os.Syscall.Laws.{Ended, Kept, Slept, sys_exit-Ended, sys_spawnp-Kept, sys_sleep-Slept}
use systems_os.Clock.{charge, wake, clock_isr}
use systems_os.Clock.Wake.{Awake, wake-Awake}
use systems_os.Clock.Laws.{Ticked, clock_isr-Ticked}
use systems_os.Clock.Turn.{Turned, charge-Turned}
use systems_os.Syscall.Info.{OnlyResult, IsAsked, result, sys_get_process_info-IsAsked}
use systems_os.Convert.{cvtdec, cvtdec0}
use systems_os.Convert.Decimal.{IsDecimal, cvtdec-IsDecimal}
use systems_os.Boot.{modules_init, init}
use systems_os.Boot.Fill.{entries}
use systems_os.Boot.Modules.{booted, modules_init-IsKernel}
use systems_os.Boot.Laws.{AtWork, Launched, init-Launched}

-- The state that a run returns, and what is promised of it.
abbrev pub state_of : {S A : Type 0} → S → Run S A → S
state_of s (ok a s') = s'
state_of s panic = s
state_of s fault = s
state_of s out_of_fuel = s

pub record Promised {S A : Type 0} (P : A → S → Type 0) (s : S) : Type 0 where
  value : A
  holds : P value s

pub promised :
    {S A : Type 0} {P : A → S → Type 0} {r : Run S A} (s : S)
    → Returns P r
    → Promised P (state_of s r)
promised s (returns p) = record { value = _; holds = p }

-- The memory at power-on is 0.
abbrev pub zero_store : Store
zero_store = record {
  free_qnodes = null;
  node = λ a. record { next = null; item = null; key = 0 };
  free_queues = null;
  queue = λ q. cleared none;
}

abbrev pub zero_kernel : Kernel
zero_kernel = record {
  store = zero_store;
  free_stacks = null;
  word = λ a. 0;
  free_pcbs = null;
  pcb = λ p. zero_pcb;
  next_pid = 0;
  system_active = 0;
  current = null;
  ready = λ i. null;
  sleeping = null;
  system_time = 0;
  pinwheel = 0;
  pindex = 0;
}

abbrev pub env : Platform
env = record { default_exit = 0x1_2345; default_eflags = 0x202 }

-- The queues after `_queue_modinit`.
abbrev pub queues : Store
queues = state_of zero_store (Queue.modinit zero_store)

pub queues_lem :
    Promised
      (λ (_ : Unit {0}) m.
        (v : View) × Represents m v
        × (v.pool ≡ 1)
        × (v.items 1 ≡ queues_from 9 2)
        × ((q : ℕ) → q ≢ 1 → v.items q ≡ [])
        × ((q : ℕ) → v.order q ≡ none)
        × (v.free ≡ 54))
      queues
queues_lem = promised zero_store (modinit-view zero_store λ q. refl)

-- The kernel after its modules are set up.
abbrev pub at_rest : Kernel
at_rest = state_of zero_kernel (modules_init zero_kernel)

pub at_rest-IsKernel : IsKernel at_rest booted 0 0
at_rest-IsKernel = (promised zero_kernel (modules_init-IsKernel zero_kernel λ q. refl)).holds.0

-- The kernel after `_init`.
abbrev pub running : Kernel
running = state_of zero_kernel (init env 0x2_0000 0x2_1000 0x2_2000 zero_kernel)

pub running-Launched : Launched 1 1024 running
running-Launched =
    (promised zero_kernel
      (init-Launched env 0x2_0000 0x2_1000 0x2_2000 zero_kernel λ q. refl)).holds

-- What the queue of free queues holds then, and the processes that are ready.
abbrev pub queues_view : View
queues_view = queues_lem.holds.0

pub queues-Represents : Represents queues queues_view
queues-Represents = queues_lem.holds.1

pub queues_free : 0 < queues_view.free
queues_free = omega (arith, queues_lem.holds.6)

abbrev pub running_view : View
running_view = running-Launched.3.0

pub running-IsKernel : IsKernel running running_view 1 3
running-IsKernel = running-Launched.3.1

pub running_live : running.current ≢ 0
running_live = omega (arith, running-Launched.0)

pub running-AtWork : AtWork running_view
running-AtWork = running-Launched.3.2
