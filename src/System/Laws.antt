-- ===== src/System/Laws.antt =====
-- What `_create_process` leaves, when it succeeds and when a PCB or a stack is missing.
use systems_os.Prelude.{
  ℕ, suc, ◌+◌, ◌%◌, ◌^◌, ◌<◌, ◌≤◌, ◌⊎◌, ◌≡◌, ◌≢◌, refl, List, [], ◌∷◌, arith, ap, sym, ◌∙◌, inl,
  inr, eq→eqb, ne→eqb, List-cases,
}
use mathlib.Core.Path.{subst}
use systems_os.Machine.{Returns, returns, bind, mono, add32}
use systems_os.Queue.{Ptr, null, Store}
use systems_os.Queue.View.{Entry, View}
use systems_os.Queue.Insert.{view_insert}
use systems_os.Queue.Remove.{view_remove, view_remove-other}
use systems_os.Queue.Init.{AllLive}
use systems_os.Kernel.{Kernel, zero_pcb, set_pcb, stack_lwords}
use systems_os.Kernel.Books.{IsKernel}
use systems_os.Process.Laws.{
  Got, pcb_dealloc-Freed, pcb_alloc-Got, pcb_alloc-none, stack_alloc-found, stack_alloc-none,
}
use systems_os.System.{
  Platform, gdt_code, gdt_data, gdt_stack, context_of, new_pcb, set_up, create_process,
}
use systems_os.System.Context

-- The words of a new process's stack: the return address is the default exit, and the context below
-- it starts the program.
pub record Filled (env : Platform) (entry : ℕ) (s : Ptr) (k' : Kernel) : Type 0 where
  pub top : k'.word (s + 1023) ≡ 0
  pub exit : k'.word (s + 1022) ≡ env.default_exit
  pub eip : k'.word (context_of s + Context.eip) ≡ entry
  pub cs : k'.word (context_of s + Context.cs) ≡ gdt_code
  pub ss : k'.word (context_of s + Context.ss) ≡ gdt_stack
  pub ds : k'.word (context_of s + Context.ds) ≡ gdt_data
  pub es : k'.word (context_of s + Context.es) ≡ gdt_data
  pub fs : k'.word (context_of s + Context.fs) ≡ gdt_data
  pub gs : k'.word (context_of s + Context.gs) ≡ gdt_data
  pub eflags : k'.word (context_of s + Context.eflags) ≡ env.default_eflags
  pub above : context_of s + Context.lwords ≡ s + 1022

set_up-Filled :
    (env : Platform) (entry prio p s : ℕ) (k : Kernel)
    → Filled env entry s (set_up env entry prio p s k)
unfolding set_up
set_up-Filled env entry prio p s k = record {
  top = ground arith;
  exit = ground arith;
  eip = ground arith;
  cs = ground arith;
  ss = ground arith;
  ds = ground arith;
  es = ground arith;
  fs = ground arith;
  gs = ground arith;
  eflags = ground arith;
  above = omega arith;
}

set_up-words :
    (env : Platform) (entry prio p s a : ℕ) (k : Kernel)
    → (a < s) ⊎ (s + stack_lwords ≤ a)
    → (set_up env entry prio p s k).word a ≡ k.word a
unfolding set_up
set_up-words env entry prio p s a k h = ground arith

-- A new process: its PCB, its PID and its stack.
pub record Created (env : Platform) (entry prio p s : ℕ) (k k' : Kernel) : Type 0 where
  pub own : k'.pcb p ≡ new_pcb s prio k.next_pid
  pub others : (q : Ptr) → q ≢ p → k'.pcb q ≡ k.pcb q
  pub pid : k'.next_pid ≡ (k.next_pid + 1) % 2 ^ 16
  pub stack : Filled env entry s k'
  pub words : (a : ℕ) → (a < s) ⊎ (s + stack_lwords ≤ a) → k'.word a ≡ k.word a
  pub active : k'.system_active ≡ add32 k.system_active 1
  pub current : k'.current ≡ k.current
  pub time : k'.system_time ≡ k.system_time

-- The state in which the stack is allocated.
abbrev erased : Kernel → Ptr → Kernel
erased k p = set_pcb k p zero_pcb

erased-IsKernel :
    (k : Kernel) (v : View) (p out lent : ℕ)
    → IsKernel k v out lent
    → IsKernel (erased k p) v out lent
erased-IsKernel k v p out lent i = record {
  view = i.view;
  wired = i.wired;
  balanced = i.balanced;
  live = i.live;
}

set_up-Created :
    (env : Platform) (entry prio p s : ℕ) (k k1 k2 : Kernel) (m : Store)
    → Got k p k1
    → k2 ≡ record (erased k1 p) { store = m }
    → Created env entry prio p s k (set_up env entry prio p s k2)
unfolding set_up
set_up-Created env entry prio p s k k1 k2 m g e =
    let words : k2.word ≡ k.word = ap (λ k. k.word) e ∙ g.words in
    record {
      own =
          rw (eq→eqb p p refl)
            (ap (λ k. new_pcb s prio k.next_pid) e ∙ ap (new_pcb s prio) g.calm.pid);
      others = λ q d. rw (ne→eqb q p d) (ap (λ k. k.pcb q) e ∙ rw (ne→eqb q p d) (g.others q d));
      pid = ap (λ k. (k.next_pid + 1) % 2 ^ 16) e ∙ ap (λ n. (n + 1) % 2 ^ 16) g.calm.pid;
      stack = set_up-Filled env entry prio p s k2;
      words = λ a h. set_up-words env entry prio p s a k2 h ∙ ap (λ w. w a) words;
      active = ap (λ k. k.system_active) e ∙ g.active;
      current = ap (λ k. k.current) e ∙ g.calm.current;
      time = ap (λ k. k.system_time) e ∙ g.calm.time;
    }

set_up-IsKernel :
    (env : Platform) (entry prio p s : ℕ) (k : Kernel) (v : View) (out lent : ℕ)
    → IsKernel k v out lent
    → IsKernel (set_up env entry prio p s k) v out lent
unfolding set_up
set_up-IsKernel env entry prio p s k v out lent i = record {
  view = i.view;
  wired = i.wired;
  balanced = i.balanced;
  live = i.live;
}

-- From the kernel's invariant with a free PCB and a free stack, `_create_process` returns the
-- first free PCB, set up with the first free stack, the priority given and the next PID; the
-- stack holds the default exit as the return address and below it the context that starts the
-- program; no other PCB and no word outside that stack has changed, and the invariant holds with
-- one PCB and one stack more in use.
pub create_process-Created :
    (env : Platform) (entry prio : ℕ) (k : Kernel) (v : View) (p s key key' : ℕ)
    (es es' : List Entry) (out lent : ℕ)
    → IsKernel k v out lent
    → v.items 2 ≡ (key, p) ∷ es
    → v.items 3 ≡ (key', s) ∷ es'
    → Returns
        (λ x k'.
          (x ≡ p)
          × Created env entry prio p s k k'
          × IsKernel k' (view_remove 3 (view_remove 2 v)) (suc out) (suc lent))
        (create_process env entry prio k)
unfolding create_process
create_process-Created env entry prio k v p s key key' es es' out lent i e e' =
    let p_live : p ≢ 0 = (subst AllLive e (i.live 2)).0 in
    let s_live : s ≢ 0 = (subst AllLive e' (i.live 3)).0 in
    bind (pcb_alloc-Got k v p key es out lent i e p_live) λ x k1 (same, g, i1).
      rw (same, ne→eqb p 0 p_live)
        (bind
          (stack_alloc-found (erased k1 p) (view_remove 2 v) s key' es' (suc out) lent
            (erased-IsKernel k1 (view_remove 2 v) p (suc out) lent i1)
            (view_remove-other v 2 3 (omega arith) ∙ e'))
          λ y k2 (same', (m, f), i2).
            rw (same', ne→eqb s 0 s_live)
              (returns (
                refl,
                set_up-Created env entry prio p s k k1 k2 m g f,
                set_up-IsKernel env entry prio p s k2 (view_remove 3 (view_remove 2 v)) (suc out)
                    (suc lent) i2,
              )))

-- From the kernel's invariant with no free PCB, `_create_process` returns NULL and changes no
-- PCB, neither the next PID nor the current process, but counts one active process more, modulo
-- 2^32.
pub create_process-no_pcb :
    (env : Platform) (entry prio : ℕ) (k : Kernel) (v : View) (out lent : ℕ)
    → IsKernel k v out lent
    → v.items 2 ≡ []
    → Returns
        (λ x k'.
          (x ≡ null)
          × (k'.next_pid ≡ k.next_pid)
          × (k'.pcb ≡ k.pcb)
          × (k'.current ≡ k.current)
          × (k'.system_time ≡ k.system_time)
          × (k'.system_active ≡ add32 k.system_active 1)
          × IsKernel k' v out lent)
        (create_process env entry prio k)
unfolding create_process
create_process-no_pcb env entry prio k v out lent i e =
    bind (pcb_alloc-none k v out lent i e)
      λ x k1 (same, c, b, a, i1). rw same (returns (refl, c.pid, b, c.current, c.time, a, i1))

-- From the kernel's invariant with a free PCB and no free stack, `_create_process` returns NULL:
-- the PCB that it took is last among the free ones, no other PCB, neither the next PID nor the
-- current process has changed, the number of active processes is as before if it was below 2^32,
-- and the invariant holds with the same numbers in use.
pub create_process-no_stack :
    (env : Platform) (entry prio : ℕ) (k : Kernel) (v : View) (p key : ℕ) (es : List Entry)
    (out lent : ℕ)
    → IsKernel k v out lent
    → v.items 2 ≡ (key, p) ∷ es
    → v.items 3 ≡ []
    → Returns
        (λ x k'.
          (x ≡ null)
          × (k'.next_pid ≡ k.next_pid)
          × ((q : Ptr) → q ≢ p → k'.pcb q ≡ k.pcb q)
          × (k'.current ≡ k.current)
          × (k'.system_time ≡ k.system_time)
          × (k.system_active < 2 ^ 32 → k'.system_active ≡ k.system_active)
          × IsKernel k' (view_insert 2 p 0 (view_remove 2 v)) out lent)
        (create_process env entry prio k)
unfolding create_process
create_process-no_stack env entry prio k v p key es out lent i e e' =
    let p_live : p ≢ 0 = (subst AllLive e (i.live 2)).0 in
    bind (pcb_alloc-Got k v p key es out lent i e p_live) λ x k1 (same, g, i1).
      rw (same, ne→eqb p 0 p_live)
        (bind
          (stack_alloc-none (erased k1 p) (view_remove 2 v) (suc out) lent
            (erased-IsKernel k1 (view_remove 2 v) p (suc out) lent i1)
            (view_remove-other v 2 3 (omega arith) ∙ e'))
          λ y k2 (same', (m, f), i2). rw same' (
            bind (pcb_dealloc-Freed k2 (view_remove 2 v) p out lent i2 p_live) λ _ k3 (d, i3).
              returns (
                refl,
                d.calm.pid ∙ ap (λ k. k.next_pid) f ∙ g.calm.pid,
                (λ q n. d.others q n ∙ ap (λ k. k.pcb q) f ∙ rw (ne→eqb q p n) (g.others q n)),
                d.calm.current ∙ ap (λ k. k.current) f ∙ g.calm.current,
                d.calm.time ∙ ap (λ k. k.system_time) f ∙ g.calm.time,
                λ wide. omega (arith, d.active, ap (λ k. k.system_active) f, g.active),
                i3,
              )))

-- Whatever is missing, `_create_process` returns and the books stay right.
abbrev pub Attempted : Kernel → ℕ → ℕ → Ptr → Kernel → Type 0
Attempted k out lent x k' =
    (k'.current ≡ k.current)
    × (k'.system_time ≡ k.system_time)
    × (v' : View) × (((x ≡ null) × IsKernel k' v' out lent)
        ⊎ ((x ≢ null) × IsKernel k' v' (suc out) (suc lent)))

pub create_process-Attempted :
    (env : Platform) (entry prio : ℕ) (k : Kernel) (v : View) (out lent : ℕ)
    → IsKernel k v out lent
    → Returns (λ x k'. Attempted k out lent x k') (create_process env entry prio k)
create_process-Attempted env entry prio k v out lent i = elim (List-cases (v.items 2)) [
  | inl e ↦
      mono (create_process-no_pcb env entry prio k v out lent i e)
        λ x k' (same, _, _, c, t, _, i'). (c, t, v, inl (same, i'))
  | inr ((key, p), es, e) ↦ elim (List-cases (v.items 3)) [
    | inl e' ↦
        mono (create_process-no_stack env entry prio k v p key es out lent i e e')
          λ x k' (same, _, _, c, t, _, i').
            (c, t, view_insert 2 p 0 (view_remove 2 v), inl (same, i'))
    | inr ((key', s), es', e') ↦
        mono (create_process-Created env entry prio k v p s key key' es es' out lent i e e')
          λ x k' (same, c, i'). (
            c.current,
            c.time,
            view_remove 3 (view_remove 2 v),
            inr (λ h. (subst AllLive e (i.live 2)).0 (sym same ∙ h), i'),
          )
  ]
]
