-- ===== src/System.antt =====
-- system.c: the creation of a process.
pub mod Context
pub mod Laws
use systems_os.Prelude.{ℕ, ◌+◌, ◌-◌, ◌%◌, ◌^◌, ◌==◌, if◌then◌else◌}
use systems_os.Machine.{ok, Cmd, and_then}
use systems_os.Queue.{Ptr, null}
use systems_os.Kernel.{Kernel, Pcb, zero_pcb, set_pcb, set_word, stack_lwords, state_ready}
use systems_os.Stack.{stack_alloc}
use systems_os.Process.{pcb_alloc, pcb_dealloc}

-- What the code takes from elsewhere: the address that the linker gives to `__default_exit__`, and
-- `EFLAGS_MB1 | EFLAGS_IF` of the header x86arch.h.
pub record Platform : Type 0 where
  pub default_exit : ℕ
  pub default_eflags : ℕ

-- `GDT_CODE`, `GDT_DATA` and `GDT_STACK` of bootstrap.h, and `QUANTUM_DEFAULT` of clock.h.
abbrev pub gdt_code : ℕ
gdt_code = 0x10

abbrev pub gdt_data : ℕ
gdt_data = 0x18

abbrev pub gdt_stack : ℕ
gdt_stack = 0x20

abbrev pub quantum_default : ℕ
quantum_default = 10

-- The pointer `ptr` after the two decrements, and the context below it.
abbrev pub return_slot : Ptr → ℕ
return_slot stack = stack + stack_lwords - 2

abbrev pub context_of : Ptr → ℕ
context_of stack = return_slot stack - Context.lwords

-- The words that `_create_process` writes on a stack.
abbrev pub fill_stack : Platform → ℕ → Ptr → Kernel → Kernel
fill_stack env entry stack k =
    let c = context_of stack in
    let k = set_word k (return_slot stack + 1) 0 in
    let k = set_word k (return_slot stack) env.default_exit in
    let k = set_word k (c + Context.eip) entry in
    let k = set_word k (c + Context.cs) gdt_code in
    let k = set_word k (c + Context.ss) gdt_stack in
    let k = set_word k (c + Context.ds) gdt_data in
    let k = set_word k (c + Context.es) gdt_data in
    let k = set_word k (c + Context.fs) gdt_data in
    let k = set_word k (c + Context.gs) gdt_data in
    set_word k (c + Context.eflags) env.default_eflags

-- The PCB of a new process.
abbrev pub new_pcb : Ptr → ℕ → ℕ → Pcb
new_pcb stack prio pid = record zero_pcb {
  stack = stack;
  context = context_of stack;
  prio = prio;
  pid = pid;
  default_quantum = quantum_default;
  state = state_ready;
}

-- `_create_process` after both allocations.
unfoldable pub set_up : Platform → ℕ → ℕ → Ptr → Ptr → Kernel → Kernel
set_up env entry prio p stack k =
    let filled = fill_stack env entry stack k in
    record (set_pcb filled p (new_pcb stack prio filled.next_pid)) {
      next_pid = (filled.next_pid + 1) % 2 ^ 16;
    }

-- The part that follows the allocation of a stack.
abbrev pub with_stack : Platform → ℕ → ℕ → Ptr → Ptr → Cmd Kernel Ptr
with_stack env entry prio p stack k =
    if stack == null
    then (and_then (pcb_dealloc p k) λ _ k'. ok null k')
    else ok p (set_up env entry prio p stack k)

-- The part that follows the allocation of a PCB.
abbrev pub with_pcb : Platform → ℕ → ℕ → Ptr → Cmd Kernel Ptr
with_pcb env entry prio p k =
    if p == null
    then ok null k
    else and_then (stack_alloc (set_pcb k p zero_pcb)) (with_stack env entry prio p)

-- `_create_process`; `prio` is a `uint8_t`.
unfoldable pub create_process : Platform → ℕ → ℕ → Cmd Kernel Ptr
create_process env entry prio k = and_then (pcb_alloc k) (with_pcb env entry prio)
