-- ===== src/Boot.antt =====
-- system.c: `_init`, as far as it concerns the state of the kernel. The set-up of the interrupts, the
-- console, the serial line and the file system touches none of it.
pub mod Fill
pub mod Modules
pub mod Laws
pub mod Shell
use systems_os.Prelude.{ℕ, ◌==◌, if◌then◌else◌}
use systems_os.Machine.{ok, panic, Cmd, and_then, pure, ◌>>=◌, ◌>>◌}
use systems_os.Queue
use systems_os.Queue.{Ptr, null}
use systems_os.Kernel.{Kernel, queued}
use systems_os.Process.{pcb_modinit}
use systems_os.Stack.{stack_modinit}
use systems_os.Scheduler.{schedule, dispatch, sched_modinit}
use systems_os.System.{Platform, create_process}
use systems_os.Syscall.{init_sleeping}

-- `_clock_modinit`, without the device.
abbrev pub clock_modinit : Kernel → Kernel
clock_modinit k = record k { pinwheel = 0; pindex = 0; system_time = 0 }

-- The initialization of the modules.
unfoldable pub modules_init : Cmd Kernel (Unit {0})
modules_init =
    queued Queue.modinit >> pcb_modinit >> stack_modinit >> sched_modinit >> init_sleeping >> λ k.
    ok tt (clock_modinit k)

-- The first processes: the program `entry` starts with a priority, or the kernel panics.
unfoldable pub start : Platform → ℕ → ℕ → Cmd Kernel (Unit {0})
start env entry prio =
    create_process env entry prio >>= λ p k. if p == null then panic else schedule p k

-- `_init` up to the first dispatch, with the addresses of the programs `init`, `idle` and `hello`; the
-- priorities are `PRIO_SYSTEM`, `PRIO_USER_LOW` and `PRIO_USER_HIGH`.
unfoldable pub init : Platform → ℕ → ℕ → ℕ → Cmd Kernel (Unit {0})
init env init_entry idle_entry hello_entry =
    modules_init
    >> start env init_entry 0
    >> start env idle_entry 3
    >> start env hello_entry 1
    >> dispatch

-- The end of `_init`: the shell is created, with `PRIO_USER_STD`, after the first dispatch.
unfoldable pub init_shell : Platform → ℕ → ℕ → ℕ → ℕ → Cmd Kernel (Unit {0})
init_shell env init_entry idle_entry hello_entry shell_entry =
    init env init_entry idle_entry hello_entry >> start env shell_entry 2
