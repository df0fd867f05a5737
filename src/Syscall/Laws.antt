-- ===== src/Syscall/Laws.antt =====
-- What the system calls leave of the kernel.
use systems_os.Prelude.{
  ℕ, suc, ◌+◌, ◌%◌, ◌^◌, ◌<◌, ◌≡◌, ◌≢◌, refl, some, List, [], arith, ◌==◌, if◌then◌else◌, ap, sym,
  ◌∙◌, inl, inr, eq→eqb, ne→eqb, ℕ_discrete, place,
}
use mathlib.Core.Path.{subst}
use systems_os.Machine.{Returns, returns, bind, mono, add32, sub32}
use systems_os.Queue
use systems_os.Queue.{Ptr, null, Store, compare_time}
use systems_os.Queue.View.{Entry, View, Represents}
use systems_os.Queue.Insert.{rank, view_insert, view_insert-other, view_insert-some}
use systems_os.Queue.Insert.Law.{insert-view}
use systems_os.Kernel.{Kernel, set_pcb}
use systems_os.Kernel.Books.{
  roles, IsKernel, free_node, insert-IsBalanced, insert-IsWired, insert-IsLive, queued_mono,
}
use systems_os.Process.Laws.{pcb_dealloc-Freed, stack_dealloc-Cleared}
use systems_os.Scheduler.{readied}
use systems_os.Scheduler.Laws.{readied-prio, schedule_lem, dispatch-Runs}
use systems_os.System.{Platform}
use systems_os.System.Context
use systems_os.System.Laws.{create_process-Attempted}
use systems_os.Syscall.{arg, ret, sext16, sys_exit, spawned, sys_spawnp, asleep, suspend, sys_sleep}

-- The current process has ended, and another runs.
abbrev pub Ended : Kernel → View → ℕ → ℕ → Kernel → Type 0
Ended k v out lent k' =
    (k'.current ≢ 0)
    × (k'.system_time ≡ k.system_time)
    × (k'.system_active ≡ sub32 k.system_active 1)
    × (v' : View) × IsKernel k' v' out lent
    × (v'.items 8 ≡ v.items 8)

-- From the kernel's invariant, when the current process has a stack and some ready queue is not
-- empty, `_sys_exit` of it returns: some process is current, the number of active processes is
-- one less modulo 2^32, the invariant holds with one stack less in use and as many PCBs out of
-- the queues, and the sleep queue and the time are unchanged.
pub sys_exit-Ended :
    (k : Kernel) (v : View) (p out lent i : ℕ)
    → IsKernel k v (suc out) (suc lent)
    → p ≡ k.current
    → p ≢ 0
    → (k.pcb p).stack ≢ 0
    → i < 4
    → v.items (4 + i) ≢ []
    → Returns (λ _ k'. Ended k v (suc out) lent k') (sys_exit p k)
unfolding sys_exit
sys_exit-Ended k v p out lent i inv run live own h ready =
    let stack = (k.pcb p).stack in
    let v1 = view_insert 3 stack 0 v in
    let v2 = view_insert 2 p 0 v1 in
    let same : (r : ℕ) → r ≢ 3 → r ≢ 2 → v2.items r ≡ v.items r =
      λ r a b. view_insert-other v1 2 p 0 r b ∙ view_insert-other v 3 stack 0 r a in
    bind (stack_dealloc-Cleared k v stack (suc out) lent inv own) λ _ k1 (c, inv1).
      bind (pcb_dealloc-Freed k1 v1 p out lent inv1 live) λ _ k2 (f, inv2).
        rw (eq→eqb p k2.current (run ∙ sym c.calm.current ∙ sym f.calm.current)) (
          mono
            (dispatch-Runs k2 v2 out lent i inv2 h
              λ n. ready (sym (same (4 + i) (omega arith) (omega arith)) ∙ n))
            λ _ k3 (q, d, r, v3, inv3, sleep). (
              λ n. d (sym r.current ∙ n),
              r.time ∙ f.calm.time ∙ c.calm.time,
              r.active ∙ f.active ∙ ap (λ n. sub32 n 1) c.active,
              v3,
              inv3,
              sleep ∙ same 8 (omega arith) (omega arith),
            ))

-- What the parent and the child are left with.
record Spawned (k : Kernel) (p c out lent : ℕ) (k' : Kernel) : Type 0 where
  child : k'.pcb c ≡ readied (record (k.pcb c) { ppid = (k.pcb p).pid })
  answer : c ≢ p → k'.word ((k.pcb p).context + Context.eax) ≡ sext16 (k.pcb c).pid
  pid : k'.next_pid ≡ k.next_pid
  current : k'.current ≡ k.current
  time : k'.system_time ≡ k.system_time
  rest : (v' : View) × IsKernel k' v' out lent

spawned-Spawned :
    (k : Kernel) (v : View) (p c out lent : ℕ)
    → IsKernel k v (suc out) lent
    → c ≢ 0
    → Returns (λ _ k'. Spawned k p c out lent k') (spawned p c k)
spawned-Spawned k v p c out lent inv live =
    let k1 = set_pcb k c (record (k.pcb c) { ppid = (k.pcb p).pid }) in
    let inv1 : IsKernel (ret (sext16 (k1.pcb c).pid) p k1) v (suc out) lent = record {
      view = inv.view;
      wired = inv.wired;
      balanced = inv.balanced;
      live = inv.live;
    } in
    rw (ne→eqb c 0 live) (
      mono (schedule_lem (ret (sext16 (k1.pcb c).pid) p k1) v c out lent inv1 live)
        λ _ k2 (s, inv2). record {
          child = s.own ∙ rw (eq→eqb c c refl);
          answer = λ d.
              ap (λ w. w ((k.pcb p).context + Context.eax)) s.words
              ∙ rw (
                ne→eqb p c (λ e. d (sym e)),
                eq→eqb c c refl,
                eq→eqb ((k.pcb p).context + Context.eax) ((k.pcb p).context + Context.eax) refl,
              );
          pid = s.pid;
          current = s.current;
          time = s.time;
          rest = (_, inv2);
        })

-- The invariant holds with the given number of PCBs out of the queues, and the same process current.
abbrev pub Kept : Kernel → ℕ → Kernel → Type 0
Kept k out k' =
    (k'.current ≡ k.current)
    × (k'.system_time ≡ k.system_time)
    × (v' : View) × (lent' : ℕ) × IsKernel k' v' out lent'

-- From the kernel's invariant, whether or not PCBs and stacks are free, `_sys_spawnp` returns,
-- the same process is current at the same time, and the invariant holds with as many PCBs out of
-- the queues.
pub sys_spawnp-Kept :
    (env : Platform) (k : Kernel) (v : View) (p out lent : ℕ)
    → IsKernel k v out lent
    → Returns (λ _ k'. Kept k out k') (sys_spawnp env p k)
unfolding sys_spawnp
sys_spawnp-Kept env k v p out lent inv =
    bind (create_process-Attempted env (arg 1 p k) (arg 2 p k % 2 ^ 8) k v out lent inv)
      λ x k1 (c, t, v1, r). elim r [
        | inl (same, inv1) ↦ rw same (
            returns (
              c,
              t,
              v1,
              lent,
              record {
                view = inv1.view;
                wired = inv1.wired;
                balanced = inv1.balanced;
                live = inv1.live;
              },
            ))
        | inr (live, inv1) ↦
            mono (spawned-Spawned k1 v1 p x out (suc lent) inv1 live)
              λ _ k2 sp. (sp.current ∙ c, sp.time ∙ t, sp.rest.0, suc lent, sp.rest.1)
      ]

-- The sleep queue as `_sys_sleep` leaves it.
abbrev pub slept : Kernel → View → Ptr → List Entry
slept k v p =
    let wakeup = add32 k.system_time (arg 1 p k) in
    if arg 1 p k == 0
    then v.items 8
    else place (rank (some compare_time) wakeup (v.items 8)) (wakeup, p) (v.items 8)

abbrev Suspended : Kernel → View → Ptr → ℕ → ℕ → ℕ → Kernel → Type 0
Suspended k v p out lent i k' =
    (k'.system_time ≡ k.system_time)
    × (v' : View) × IsKernel k' v' out lent
    × (v'.items 8 ≡ slept k v p)
    × (v'.items (4 + i) ≢ [])

view_insert-keeps :
    (v : View) (q x key r : ℕ) → v.items r ≢ [] → (view_insert q x key v).items r ≢ []
view_insert-keeps v q x key r h = elim (ℕ_discrete r q) [
  | yes e ↦ λ n. view_insert-some v q x key (ap (view_insert q x key v).items (sym e) ∙ n)
  | no d ↦ λ n. h (sym (view_insert-other v q x key r d) ∙ n)
]

suspend-yields :
    (k : Kernel) (v : View) (p out lent i : ℕ)
    → IsKernel k v (suc out) lent
    → p ≢ 0
    → i < 4
    → v.items (4 + i) ≢ []
    → arg 1 p k ≡ 0
    → Returns (λ _ k'. Suspended k v p out lent i k') (suspend p k)
unfolding suspend
suspend-yields k v p out lent i inv live h ready z = rw (eq→eqb (arg 1 p k) 0 z) (
    mono (schedule_lem k v p out lent inv live) λ _ k1 (s, inv1). (
      s.time,
      _,
      inv1,
      view_insert-other v (4 + (readied (k.pcb p)).prio) p 0 8
          (omega (arith, readied-prio (k.pcb p))),
      view_insert-keeps v (4 + (readied (k.pcb p)).prio) p 0 (4 + i) ready,
    ))

suspend-sleeps :
    (k : Kernel) (v : View) (p out lent i : ℕ)
    → IsKernel k v (suc out) lent
    → p ≢ 0
    → i < 4
    → v.items (4 + i) ≢ []
    → arg 1 p k ≢ 0
    → Returns (λ _ k'. Suspended k v p out lent i k') (suspend p k)
unfolding suspend view_insert
suspend-sleeps k v p out lent i inv live h ready z =
    let wakeup = add32 k.system_time (arg 1 p k) in
    let inserted : Returns (λ _ m. Represents m (view_insert 8 p wakeup v))
        (Queue.insert k.sleeping p wakeup k.store) =
      subst
        (λ q.
          Returns (λ _ m. Represents m (view_insert 8 p wakeup v))
            (Queue.insert q p wakeup k.store))
        (sym inv.wired.sleeping)
        (insert-view k.store v 8 p wakeup inv.view (omega arith)
          (free_node v (suc out) lent inv.balanced)) in
    rw (ne→eqb (arg 1 p k) 0 z) (
      queued_mono (set_pcb k p (asleep wakeup (k.pcb p))) inserted λ _ m r. (
        refl,
        view_insert 8 p wakeup v,
        record {
          view = r;
          wired = insert-IsWired (roles k) v 8 p wakeup inv.wired;
          balanced = insert-IsBalanced v 8 p wakeup out lent (omega arith) inv.balanced;
          live = insert-IsLive v 8 p wakeup live inv.live;
        },
        ap (λ o. place (rank o wakeup (v.items 8)) (wakeup, p) (v.items 8)) inv.wired.timed,
        view_insert-keeps v 8 p wakeup (4 + i) ready,
      ))

-- Some process is current, and the sleep queue is the given one.
abbrev pub Slept : Kernel → View → Ptr → ℕ → ℕ → Kernel → Type 0
Slept k v p out lent k' =
    (k'.current ≢ 0)
    × (k'.system_time ≡ k.system_time)
    × (v' : View) × IsKernel k' v' out lent
    × (v'.items 8 ≡ slept k v p)

-- From the kernel's invariant with the caller out of the queues and some ready queue not empty,
-- `_sys_sleep` returns: some process is current, the invariant holds with the same numbers of
-- PCBs and stacks in use, and the caller is in the sleep queue at the rank of its wake-up time,
-- unless its argument is 0, in which case the sleep queue is unchanged.
pub sys_sleep-Slept :
    (k : Kernel) (v : View) (p out lent i : ℕ)
    → IsKernel k v (suc out) lent
    → p ≢ 0
    → i < 4
    → v.items (4 + i) ≢ []
    → Returns (λ _ k'. Slept k v p (suc out) lent k') (sys_sleep p k)
unfolding sys_sleep
sys_sleep-Slept k v p out lent i inv live h ready =
    let suspended : Returns (λ _ k'. Suspended k v p out lent i k') (suspend p k) =
      elim (ℕ_discrete (arg 1 p k) 0) [
        | yes z ↦ suspend-yields k v p out lent i inv live h ready z
        | no z ↦ suspend-sleeps k v p out lent i inv live h ready z
      ] in
    bind suspended λ _ k1 (t, v1, inv1, e, some_ready).
      mono (dispatch-Runs k1 v1 out lent i inv1 h some_ready) λ _ k2 (q, d, r, v2, inv2, sleep).
        (λ n. d (sym r.current ∙ n), r.time ∙ t, v2, inv2, sleep ∙ e)
