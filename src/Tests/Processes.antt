-- ===== src/Tests/Processes.antt =====
-- The kernel after `_init`: system calls, the clock, and the numbers that the console prints.
use systems_os.Prelude.{◌-◌, ◌^◌, some, ◌+◌, ◌^◌, ◌≡◌, ◌≢◌, refl, [], ◌∷◌, arith, ap, sym}
use systems_os.Machine.{Returns}
use systems_os.Queue.{Ptr}
use systems_os.Queue.View.{View}
use systems_os.Kernel.{set_pcb, Kernel, set_word}
use systems_os.Kernel.Books.{IsKernel}
use systems_os.System.Context
use systems_os.Syscall.{sys_get_process_info, arg, sys_exit, sys_sleep}
use systems_os.Syscall.Laws.{Ended, Slept, sys_exit-Ended, sys_sleep-Slept}
use systems_os.Clock.{clock_isr}
use systems_os.Clock.Laws.{Ticked, clock_isr-Ticked}
use systems_os.Syscall.Info.{Answer, OnlyResult, IsAsked, result, sys_get_process_info-IsAsked}
use systems_os.Convert.{cvtdec, cvtdec0}
use systems_os.Convert.Decimal.{IsDecimal, cvtdec-IsDecimal}
use systems_os.Boot.{modules_init}
use systems_os.Boot.Modules.{booted, modules_init-IsKernel}
use systems_os.Boot.{init_shell}
use systems_os.Boot.Shell.{Serving, init_shell-Serving}
use systems_os.Tests.{
  Promised, env, promised, running, running-AtWork, running-IsKernel, running-Launched,
  running_live, running_view, state_of, zero_kernel,
}

-- The kernel.
modules_init-IsKernel_example :
    Returns
      (λ _ k'. IsKernel k' booted 0 0 × (k'.current ≡ 0) × (k'.system_time ≡ 0) × (k'.next_pid ≡ 1))
      (modules_init zero_kernel)
modules_init-IsKernel_example = modules_init-IsKernel zero_kernel λ q. refl

init_shell-Serving_example :
    Returns (λ _ k'. Serving k') (init_shell env 0x3_0000 0x3_1000 0x3_2000 0x3_3000 zero_kernel)
init_shell-Serving_example =
    init_shell-Serving env 0x3_0000 0x3_1000 0x3_2000 0x3_3000 zero_kernel λ q. refl

clock_isr-Ticked_example : Returns (λ _ k'. Ticked running running_view 3 k') (clock_isr running)
clock_isr-Ticked_example = clock_isr-Ticked running running_view 3 running-IsKernel running_live

pub own_stack : (running.pcb 1).stack ≢ 0
own_stack = omega (arith, ap (λ b. b.stack) running-Launched.1)

pub idle_ready : running_view.items (4 + 3) ≢ []
idle_ready n = ground (arith, running-AtWork.low)

sys_exit-Ended_example : Returns (λ _ k'. Ended running running_view 1 2 k') (sys_exit 1 running)
sys_exit-Ended_example =
    sys_exit-Ended running running_view 1 0 2 3 running-IsKernel (sym running-Launched.0)
      (omega arith) own_stack (omega arith) idle_ready

-- The process that runs sleeps for 5 ms, and wakes 100 ms later.
abbrev asked : Kernel
asked = set_word running ((running.pcb 1).context + 18 + 1) 5

asked-IsKernel : IsKernel asked running_view 1 3
asked-IsKernel = record {
  view = running-IsKernel.view;
  wired = running-IsKernel.wired;
  balanced = running-IsKernel.balanced;
  live = running-IsKernel.live;
}

sys_sleep-Slept_example : Returns (λ _ k'. Slept asked running_view 1 1 3 k') (sys_sleep 1 asked)
sys_sleep-Slept_example =
    sys_sleep-Slept asked running_view 1 0 3 3 asked-IsKernel (omega arith) (omega arith) idle_ready

abbrev dozing :
    Promised
      (λ (_ : Unit {0}) k'. Slept asked running_view 1 1 3 k')
      (state_of asked (sys_sleep 1 asked))
dozing = promised asked (
    sys_sleep-Slept asked running_view 1 0 3 3 asked-IsKernel (omega arith) (omega arith)
      idle_ready)

abbrev later : Kernel
later = record (state_of asked (sys_sleep 1 asked)) { system_time = 100 }

later-IsKernel : IsKernel later dozing.holds.2 1 3
later-IsKernel = record {
  view = dozing.holds.3.view;
  wired = dozing.holds.3.wired;
  balanced = dozing.holds.3.balanced;
  live = dozing.holds.3.live;
}

-- The last tick of the current process, when another of its priority is ready.
abbrev last_tick : Kernel
last_tick = set_pcb running 1 (record (running.pcb 1) { prio = 1; quantum = 1 })

last_tick-IsKernel : IsKernel last_tick running_view 1 3
last_tick-IsKernel = record {
  view = running-IsKernel.view;
  wired = running-IsKernel.wired;
  balanced = running-IsKernel.balanced;
  live = running-IsKernel.live;
}

sys_get_process_info-IsAsked_example :
    Returns
      (λ _ k'.
        OnlyResult 1 running k'
        × (r : Ptr) × IsAsked running (arg 2 1 running) r
        × ((r ≢ 0) → Answer (arg 1 1 running) (running.pcb r) (result 1 k'))
        × ((r ≡ 0) → result 1 k' ≡ 2 ^ 32 - 1))
      (sys_get_process_info 1 running)
sys_get_process_info-IsAsked_example = sys_get_process_info-IsAsked running 1 running_live

-- "-2147483648" and "40".
cvtdec-least : cvtdec (2 ^ 31) ≡ some (45 ∷ 50 ∷ 49 ∷ 52 ∷ 55 ∷ 52 ∷ 56 ∷ 51 ∷ 54 ∷ 52 ∷ 56 ∷ [])
unfolding cvtdec cvtdec0
cvtdec-least = refl

cvtdec-forty : cvtdec 40 ≡ some (52 ∷ 48 ∷ [])
unfolding cvtdec cvtdec0
cvtdec-forty = refl

cvtdec-IsDecimal_example : IsDecimal (2 ^ 31) (cvtdec (2 ^ 31))
cvtdec-IsDecimal_example = cvtdec-IsDecimal (2 ^ 31) (omega arith)
