-- ===== src/Stack.antt =====
-- stack.c: the stacks of the processes.
use systems_os.Prelude.{
  ℕ, zero, suc, ◌+◌, not, ◌&&◌, none, ◌==◌, leb, ltb, if◌then◌else◌, length, head_or,
}
use systems_os.Machine.{ok, panic, Cmd, and_then}
use systems_os.Queue
use systems_os.Queue.{Ptr, null, n_stacks}
use systems_os.Kernel.{Kernel, stack_lwords, queued}

-- `_memset` of a whole stack.
abbrev pub clear_stack : Ptr → Kernel → Kernel
clear_stack s k = record k {
  word = λ a. if leb s a && ltb a (s + stack_lwords) then 0 else k.word a;
}

-- `_stack_alloc`.
unfoldable pub stack_alloc : Cmd Kernel Ptr
stack_alloc k = queued (Queue.remove k.free_stacks) k

-- `_stack_dealloc`.
unfoldable pub stack_dealloc : Ptr → Cmd Kernel (Unit {0})
stack_dealloc s k =
    if s == null then ok tt k else queued (Queue.insert k.free_stacks s 0) (clear_stack s k)

-- The loop of `_stack_modinit`.
unfoldable pub stack_dealloc_from : ℕ → Ptr → Cmd Kernel (Unit {0})
stack_dealloc_from zero s k = ok tt k
stack_dealloc_from (suc n) s k =
    and_then (stack_dealloc s k) λ _ k'. stack_dealloc_from n (s + stack_lwords) k'

-- `_stack_modinit`.
unfoldable pub stack_modinit : Cmd Kernel (Unit {0})
stack_modinit k = and_then (queued (Queue.alloc 1) k) λ qs k1.
    let k2 : Kernel = record k1 { free_stacks = head_or k1.free_stacks qs } in
    if length qs == 1 && not (k2.free_stacks == null)
    then (and_then (queued (Queue.init k2.free_stacks none) k2)
        λ _ k3. stack_dealloc_from n_stacks stack_lwords k3)
    else panic
