-- ===== src/Boot/Laws.antt =====
-- The state in which `_init` leaves the kernel to the first process.
use systems_os.Prelude.{
  ℕ, suc, ◌+◌, ◌%◌, ◌^◌, ◌<◌, ◌≤◌, ◌≡◌, ◌≢◌, refl, none, List, [], ◌∷◌, arith, ap, ◌∙◌, ne→eqb,
  eq→eqb,
}
use mathlib.Core.Path.{subst}
use systems_os.Machine.{Returns, bind, mono}
use systems_os.Queue.{Ptr}
use systems_os.Queue.View.{Entry, View}
use systems_os.Queue.Insert.{view_insert, view_insert-other}
use systems_os.Queue.Remove.{view_remove, view_remove-items, view_remove-other}
use systems_os.Queue.Init.{cleared, AllLive}
use systems_os.Kernel.{Kernel}
use systems_os.Kernel.Books.{IsKernel}
use systems_os.Scheduler.{readied, started}
use systems_os.Scheduler.Laws.{schedule_lem, dispatch-first}
use systems_os.System.{Platform, new_pcb}
use systems_os.System.Laws.{create_process-Created}
use systems_os.Boot.{start, init}
use systems_os.Boot.Fill.{entries}
use systems_os.Boot.Modules.{booted, modules_init-IsKernel}

-- The view after a process has started with the PCB `p`.
abbrev launched : ℕ → Ptr → View → View
launched prio p v = view_insert (4 + prio) p 0 (view_remove 3 (view_remove 2 v))

pub record Started (k : Kernel) (v : View) (p prio s : ℕ) (out lent : ℕ) (es es' : List Entry)
    (k' : Kernel) : Type 0 where
  pub own : k'.pcb p ≡ readied (new_pcb s prio k.next_pid)
  pub others : (q : Ptr) → q ≢ p → k'.pcb q ≡ k.pcb q
  pub pid : k'.next_pid ≡ (k.next_pid + 1) % 2 ^ 16
  pub current : k'.current ≡ k.current
  pub books : IsKernel k' (launched prio p v) out (suc lent)
  pub pcbs : (launched prio p v).items 2 ≡ es
  pub stacks : (launched prio p v).items 3 ≡ es'
  pub queue : v.items (4 + prio) ≡ [] → (launched prio p v).items (4 + prio) ≡ (0, p) ∷ []
  pub ready : (q : ℕ) → 4 ≤ q → q ≢ 4 + prio → (launched prio p v).items q ≡ v.items q

alone :
    (v : View) (q p : ℕ)
    → v.order q ≡ none
    → v.items q ≡ []
    → (view_insert q p 0 v).items q ≡ (0, p) ∷ []
unfolding view_insert
alone v q p o e = rw (eq→eqb q q refl, o, e) refl

pub start-Started :
    (env : Platform) (entry prio : ℕ) (k : Kernel) (v : View) (p s key key' : ℕ)
    (es es' : List Entry) (out lent : ℕ)
    → IsKernel k v out lent
    → prio < 4
    → v.items 2 ≡ (key, p) ∷ es
    → v.items 3 ≡ (key', s) ∷ es'
    → Returns (λ _ k'. Started k v p prio s out lent es es' k') (start env entry prio k)
unfolding start
start-Started env entry prio k v p s key key' es es' out lent inv low e e' =
    let live : p ≢ 0 = (subst AllLive e (inv.live 2)).0 in
    let v2 = view_remove 2 v in
    let v3 = view_remove 3 v2 in
    let third : v2.items 3 ≡ (key', s) ∷ es' = view_remove-other v 2 3 (omega arith) ∙ e' in
    bind (create_process-Created env entry prio k v p s key key' es es' out lent inv e e')
      λ x k1 (same, c, inv1).
        let level : (readied (k1.pcb p)).prio ≡ prio =
          ap (λ b. (readied b).prio) c.own ∙ ground arith in
        rw (same, ne→eqb p 0 live)
          (mono (schedule_lem k1 v3 p out (suc lent) inv1 live) λ _ k2 (sch, inv2). record {
            own = sch.own ∙ ap readied c.own;
            others = λ q d. sch.others q d ∙ c.others q d;
            pid = sch.pid ∙ c.pid;
            current = sch.current ∙ c.current;
            books = subst (λ l. IsKernel k2 (view_insert (4 + l) p 0 v3) out (suc lent)) level inv2;
            pcbs =
                view_insert-other v3 (4 + prio) p 0 2 (omega arith)
                ∙ view_remove-other v2 3 2 (omega arith)
                ∙ view_remove-items v 2 (key, p) es e;
            stacks =
                view_insert-other v3 (4 + prio) p 0 3 (omega arith)
                ∙ view_remove-items v2 3 (key', s) es' third;
            queue = λ n. alone v3 (4 + prio) p (inv1.wired.arrival (4 + prio) (omega arith)) (
                view_remove-other v2 3 (4 + prio) (omega arith)
                ∙ view_remove-other v 2 (4 + prio) (omega arith)
                ∙ n);
            ready = λ q h d.
                view_insert-other v3 (4 + prio) p 0 q d
                ∙ view_remove-other v2 3 q (omega arith)
                ∙ view_remove-other v 2 q (omega arith);
          })

first_ready : (launched 0 1 booted).items 4 ≡ (0, 1) ∷ []
unfolding view_insert view_remove
first_ready = refl

-- The queues then: hello and idle are ready, the other PCBs and stacks are free.
pub record AtWork (v : View) : Type 0 where
  pub pcbs : v.items 2 ≡ entries 1 23 4
  pub stacks : v.items 3 ≡ entries 1024 22 4096
  pub system : v.items 4 ≡ []
  pub high : v.items 5 ≡ (0, 3) ∷ []
  pub standard : v.items 6 ≡ []
  pub low : v.items 7 ≡ (0, 2) ∷ []
  pub timed : v.items 8 ≡ []

settled :
    (v : View) (e : Entry)
    → v.items 2 ≡ entries 1 23 4
    → v.items 3 ≡ entries 1024 22 4096
    → v.items 4 ≡ e ∷ []
    → v.items 5 ≡ (0, 3) ∷ []
    → v.items 6 ≡ []
    → v.items 7 ≡ (0, 2) ∷ []
    → v.items 8 ≡ []
    → AtWork (view_remove 4 v)
settled v e pcbs stacks system high standard low timed = record {
  pcbs = view_remove-other v 4 2 (omega arith) ∙ pcbs;
  stacks = view_remove-other v 4 3 (omega arith) ∙ stacks;
  system = view_remove-items v 4 e [] system;
  high = view_remove-other v 4 5 (omega arith) ∙ high;
  standard = view_remove-other v 4 6 (omega arith) ∙ standard;
  low = view_remove-other v 4 7 (omega arith) ∙ low;
  timed = view_remove-other v 4 8 (omega arith) ∙ timed;
}

-- The kernel after `_init`: the process with the PCB `p` and the PID 1 runs.
abbrev pub Launched : Ptr → ℕ → Kernel → Type 0
Launched p s k' =
    (k'.current ≡ p)
    × (k'.pcb p ≡ started (readied (new_pcb s 0 1)))
    × (k'.next_pid ≡ 4)
    × ((v' : View) × IsKernel k' v' 1 3 × AtWork v')

-- If every queue head is cleared, `_init` returns, whatever else the memory holds: the process
-- of PCB 1 runs, with PID 1, priority 0, the stack 1024 and a full quantum; the next PID is 4;
-- the kernel's invariant holds with one PCB and three stacks in use, hello and idle are in their
-- ready queues, and the sleep queue and the queue of priority 0 are empty.
pub init-Launched :
    (env : Platform) (init_entry idle_entry hello_entry : ℕ) (k : Kernel)
    → ((q : ℕ) → k.store.queue q ≡ cleared none)
    → Returns (λ _ k'. Launched 1 1024 k') (init env init_entry idle_entry hello_entry k)
unfolding init
init-Launched env a b c k clear =
    bind (modules_init-IsKernel k clear) λ _ k0 (inv0, idle, time, pid).
      bind (start-Started env a 0 k0 booted 1 1024 0 0 _ _ 0 0 inv0 (omega arith) refl refl)
        λ _ k1 s1.
          let v1 = launched 0 1 booted in
          bind
            (start-Started env b 3 k1 v1 2 2048 0 0 _ _ 0 1 s1.books (omega arith) s1.pcbs
              s1.stacks)
            λ _ k2 s2.
              let v2 = launched 3 2 v1 in
              bind
                (start-Started env c 1 k2 v2 3 3072 0 0 _ _ 0 2 s2.books (omega arith) s2.pcbs
                  s2.stacks)
                λ _ k3 s3.
                  let v3 = launched 1 3 v2 in
                  let nine : (q : ℕ) → 4 ≤ q → q ≢ 5 → q ≢ 7 → v3.items q ≡ v1.items q =
                    λ q h i j. s3.ready q h i ∙ s2.ready q h j in
                  let work =
                    settled v3 (0, 1) s3.pcbs s3.stacks
                      (nine 4 (omega arith) (omega arith) (omega arith) ∙ first_ready)
                      (s3.queue (
                        s2.ready 5 (omega arith) (omega arith)
                        ∙ s1.ready 5 (omega arith) (omega arith)))
                      (nine 6 (omega arith) (omega arith) (omega arith)
                        ∙ s1.ready 6 (omega arith) (omega arith))
                      (s3.ready 7 (omega arith) (omega arith)
                        ∙ s2.queue (s1.ready 7 (omega arith) (omega arith)))
                      (nine 8 (omega arith) (omega arith) (omega arith)
                        ∙ s1.ready 8 (omega arith) (omega arith)) in
                  mono
                    (dispatch-first k3 v3 0 3 s3.books 0 (0, 1) [] (omega arith)
                      (λ l h. absurd (omega arith))
                      (nine 4 (omega arith) (omega arith) (omega arith) ∙ first_ready)
                      (omega arith))
                    λ _ k4 (r, inv4). (
                      r.current,
                      r.own
                          ∙ ap started (
                              s3.others 1 (omega arith)
                              ∙ s2.others 1 (omega arith)
                              ∙ s1.own
                              ∙ ap (λ n. readied (new_pcb 1024 0 n)) pid),
                      omega (arith, r.pid, s3.pid, s2.pid, s1.pid, pid),
                      (_, inv4, work),
                    )
