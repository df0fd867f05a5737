-- ===== src/Kernel.antt =====
-- The variables of stack.c, process.c, scheduler.c, syscall.c and clock.c as one state, with the
-- queues of queue.c inside. Longwords of the stacks are numbered: `&_stacks[i]` is the number of its
-- first longword, 1024 * (i + 1), so that no stack is at 0, which is NULL. `&_pcbs[i]` is `i + 1`.
pub mod Books
use systems_os.Prelude.{ℕ, ◌+◌, ◌==◌, if◌then◌else◌}
use systems_os.Machine.{Run, ok, panic, fault, out_of_fuel, Cmd}
use systems_os.Queue.{Ptr, null, n_procs, Store}

-- `pcb_t`. The integers are bit patterns: `pid` and `ppid` of an `int16_t`, the last four of a
-- `uint8_t`.
pub record Pcb : Type 0 where
  pub context : Ptr
  pub stack : Ptr
  pub wakeup : ℕ
  pub pid : ℕ
  pub ppid : ℕ
  pub prio : ℕ
  pub state : ℕ
  pub quantum : ℕ
  pub default_quantum : ℕ

-- `N_PCBS`, and the process states and priorities of process.h.
abbrev pub n_pcbs : ℕ
n_pcbs = n_procs + 1

abbrev pub state_free : ℕ
state_free = 0

abbrev pub state_new : ℕ
state_new = 1

abbrev pub state_ready : ℕ
state_ready = 2

abbrev pub state_running : ℕ
state_running = 3

abbrev pub state_sleeping : ℕ
state_sleeping = 4

abbrev pub n_prios : ℕ
n_prios = 4

abbrev pub prio_user_low : ℕ
prio_user_low = 3

-- `STACK_LWORDS`.
abbrev pub stack_lwords : ℕ
stack_lwords = 1024

pub record Kernel : Type 0 where
  pub store : Store
  pub free_stacks : Ptr
  pub word : ℕ → ℕ
  pub free_pcbs : Ptr
  pub pcb : Ptr → Pcb
  pub next_pid : ℕ
  pub system_active : ℕ
  pub current : Ptr
  pub ready : ℕ → Ptr
  pub sleeping : Ptr
  pub system_time : ℕ
  pub pinwheel : ℕ
  pub pindex : ℕ

-- A PCB with all fields 0, as `_memset` leaves it.
abbrev pub zero_pcb : Pcb
zero_pcb = record {
  context = null;
  stack = null;
  wakeup = 0;
  pid = 0;
  ppid = 0;
  prio = 0;
  state = 0;
  quantum = 0;
  default_quantum = 0;
}

abbrev pub set_pcb : Kernel → Ptr → Pcb → Kernel
set_pcb k p b = record k { pcb = λ q. if q == p then b else k.pcb q }

abbrev pub set_word : Kernel → ℕ → ℕ → Kernel
set_word k a w = record k { word = λ b. if b == a then w else k.word b }

abbrev pub with_store : {A : Type 0} → Kernel → Run Store A → Run Kernel A
with_store k (ok a s) = ok a (record k { store = s })
with_store k panic = panic
with_store k fault = fault
with_store k out_of_fuel = out_of_fuel

-- A call of a function of queue.c.
abbrev pub queued : {A : Type 0} → Cmd Store A → Cmd Kernel A
queued c k = with_store k (c k.store)
