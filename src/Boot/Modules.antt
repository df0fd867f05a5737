-- ===== src/Boot/Modules.antt =====
-- The state that the initialization of the modules leaves.
use systems_os.Prelude.{
  ℕ, zero, suc, ◌+◌, ◌<◌, ◌≡◌, ◌≢◌, refl, none, some, List, [], ◌∷◌, ℕ_discrete, arith, ap, sym,
  ◌∙◌, ne→eqb,
}
use mathlib.Core.Path.{subst}
use systems_os.Machine.{Returns, returns, bind, mono}
use systems_os.Queue
use systems_os.Queue.{Ptr, Store, n_stacks, compare_time}
use systems_os.Queue.View.{Entry, View, Represents}
use systems_os.Queue.Remove.{view_remove}
use systems_os.Queue.Init.{cleared, view_reset, init-view, view_alloc, AllLive, alloc-view}
use systems_os.Queue.Boot.{modinit-view}
use systems_os.Kernel.{Kernel, n_pcbs, stack_lwords}
use systems_os.Kernel.Books.{roles, IsLive, IsKernel, queued_bind, queued_mono}
use systems_os.Process.{pcb_modinit}
use systems_os.Stack.{stack_modinit}
use systems_os.Scheduler.{fill_ready, init_ready, sched_modinit}
use systems_os.Syscall.{init_sleeping}
use systems_os.Boot.{modules_init}
use systems_os.Boot.Fill.{
  Represents-same, alloc_one, entries, filled_pcbs, filled_stacks, pcb_dealloc_from-filled,
  queues_from-AllLive, stack_dealloc_from-filled, table,
}

abbrev free_pcbs : List Entry
free_pcbs = entries 1 n_pcbs 1

abbrev free_stacks : List Entry
free_stacks = entries stack_lwords n_stacks stack_lwords

pcb_modinit-Represents :
    (k : Kernel)
    → Represents k.store (table 9 2 [] [] 54)
    → Returns
        (λ _ k'.
          Represents k'.store (table 8 3 free_pcbs [] 29)
          × (roles k' ≡ record (roles k) { free_pcbs = 2 })
          × (k'.next_pid ≡ 1))
        (pcb_modinit k)
unfolding pcb_modinit
pcb_modinit-Represents k r =
    queued_bind k _ (alloc_one k.store 8 2 54 [] [] (omega arith) r) λ qs s (got, r1). rw got (
      queued_bind (record k { store = s; free_pcbs = 2 }) _
        (init-view s (table 8 3 [] [] 55) 2 none r1 (omega arith) refl)
        λ _ s2 r2.
          bind
            (pcb_dealloc_from-filled n_pcbs 1 (record k { store = s2; free_pcbs = 2 })
              (view_reset 2 none (table 8 3 [] [] 55)) r2 refl (omega arith) (omega arith))
            λ _ k3 (r3, same). returns (filled_pcbs k3.store n_pcbs 8 3 55 [] r3, same, refl))

stack_modinit-Represents :
    (k : Kernel)
    → Represents k.store (table 8 3 free_pcbs [] 29)
    → Returns
        (λ _ k'.
          Represents k'.store (table 7 4 free_pcbs free_stacks 5)
          × (roles k' ≡ record (roles k) { free_stacks = 3 })
          × (k'.next_pid ≡ k.next_pid))
        (stack_modinit k)
unfolding stack_modinit
stack_modinit-Represents k r =
    queued_bind k _ (alloc_one k.store 7 3 29 free_pcbs [] (omega arith) r) λ qs s (got, r1).
      rw got (
        queued_bind (record k { store = s; free_stacks = 3 }) _
          (init-view s (table 7 4 free_pcbs [] 30) 3 none r1 (omega arith) refl)
          λ _ s2 r2.
            mono
              (stack_dealloc_from-filled n_stacks stack_lwords
                (record k { store = s2; free_stacks = 3 })
                (view_reset 3 none (table 7 4 free_pcbs [] 30)) r2 refl (omega arith) (omega arith))
              λ _ k3 (r3, same, pid).
                (filled_stacks k3.store n_stacks 7 4 30 free_pcbs r3, same, pid))

-- The ready queues are set up in turn.
alloc_levels :
    (m : Store)
    → Represents m (table 7 4 free_pcbs free_stacks 5)
    → Returns
        (λ qs m'. (qs ≡ 4 ∷ 5 ∷ 6 ∷ 7 ∷ []) × Represents m' (table 3 8 free_pcbs free_stacks 9))
        (Queue.alloc 4 m)
unfolding view_alloc view_remove
alloc_levels m r =
    mono
      (alloc-view 4 m (table 7 4 free_pcbs free_stacks 5) r (omega arith)
        (queues_from-AllLive 7 4 (omega arith)))
      λ qs m' (got, r'). (
        got,
        Represents-same m' _ (table 3 8 free_pcbs free_stacks 9) (λ q. ground arith) (λ q. refl)
            refl refl r',
      )

init_ready-Represents :
    (n i : ℕ) (k : Kernel)
    → i + n ≡ 4
    → ((j : ℕ) → j < 4 → k.ready j ≡ 4 + j)
    → Represents k.store (table 3 8 free_pcbs free_stacks 9)
    → Returns
        (λ _ k'.
          Represents k'.store (table 3 8 free_pcbs free_stacks 9)
          × (roles k' ≡ roles k)
          × (k'.next_pid ≡ k.next_pid))
        (init_ready n i k)
unfolding init_ready
init_ready-Represents zero i k e w r = returns (r, refl, refl)
init_ready-Represents (suc n) i k e w r =
    let v : View = table 3 8 free_pcbs free_stacks 9 in
    let cleared : Returns (λ _ s. Represents s v) (Queue.init (k.ready i) none k.store) =
      subst (λ q. Returns (λ _ s. Represents s v) (Queue.init q none k.store))
        (sym (w i (omega arith)))
        (mono
          (init-view k.store v (4 + i) none r (omega arith) (
            rw (
              ne→eqb (4 + i) 1 (omega arith),
              ne→eqb (4 + i) 2 (omega arith),
              ne→eqb (4 + i) 3 (omega arith),
            )))
          λ _ s r1.
            Represents-same s (view_reset (4 + i) none v) v (λ q. refl) (λ q. ground arith) refl
              refl r1) in
    queued_bind k _ cleared
      λ _ s r1. init_ready-Represents n (i + 1) (record k { store = s }) (omega arith) w r1

abbrev levels : Kernel → ℕ → Ptr
levels k = fill_ready (4 ∷ 5 ∷ 6 ∷ 7 ∷ []) 0 k.ready

sched_modinit-Represents :
    (k : Kernel)
    → Represents k.store (table 7 4 free_pcbs free_stacks 5)
    → Returns
        (λ _ k'.
          Represents k'.store (table 3 8 free_pcbs free_stacks 9)
          × (k'.free_pcbs ≡ k.free_pcbs)
          × (k'.free_stacks ≡ k.free_stacks)
          × ((i : ℕ) → i < 4 → k'.ready i ≡ 4 + i)
          × (k'.current ≡ 0)
          × (k'.next_pid ≡ k.next_pid))
        (sched_modinit k)
unfolding sched_modinit
sched_modinit-Represents k r = queued_bind k _ (alloc_levels k.store r) λ qs s (got, r1). rw got (
    bind
      (init_ready-Represents 4 0 (record k { store = s; ready = levels k }) (omega arith)
        (λ j h. ground arith) r1)
      λ _ k2 (r2, same, pid). returns (
        r2,
        ap (λ b. b.free_pcbs) same,
        ap (λ b. b.free_stacks) same,
        (λ i h. ap (λ b. b.ready i) same ∙ ground arith),
        refl,
        pid,
      ))

-- The view of the kernel at rest.
abbrev pub booted : View
booted = view_reset 8 (some compare_time) (table 2 9 free_pcbs free_stacks 10)

init_sleeping-Represents :
    (k : Kernel)
    → Represents k.store (table 3 8 free_pcbs free_stacks 9)
    → Returns
        (λ _ k'.
          Represents k'.store booted
          × (roles k' ≡ record (roles k) { sleeping = 8 })
          × (k'.current ≡ k.current)
          × (k'.next_pid ≡ k.next_pid))
        (init_sleeping k)
unfolding init_sleeping
init_sleeping-Represents k r =
    queued_bind k _ (alloc_one k.store 2 8 9 free_pcbs free_stacks (omega arith) r)
      λ qs s (got, r1). rw got (
        queued_mono (record k { store = s; sleeping = 8 })
          (init-view s (table 2 9 free_pcbs free_stacks 10) 8 (some compare_time) r1 (omega arith)
            refl)
          λ _ s2 r2. (r2, refl, refl, refl))

entries-AllLive : (step n x : ℕ) → x ≢ 0 → AllLive (entries step n x)
entries-AllLive step zero x d = tt
entries-AllLive step (suc n) x d = (d, entries-AllLive step n (x + step) (omega arith))

booted-IsLive : IsLive booted
booted-IsLive q = elim (ℕ_discrete q 1) [
  | yes e ↦ rw e (queues_from-AllLive 2 9 (omega arith))
  | no a ↦ elim (ℕ_discrete q 2) [
    | yes e ↦ rw e (entries-AllLive 1 n_pcbs 1 (omega arith))
    | no b ↦ elim (ℕ_discrete q 3) [
      | yes e ↦ rw e (entries-AllLive stack_lwords n_stacks stack_lwords (omega arith))
      | no c ↦ rw (ne→eqb q 1 a, ne→eqb q 2 b, ne→eqb q 3 c) tt
    ]
  ]
]

-- If every queue head is cleared, the initialization of the modules returns and establishes the
-- kernel's invariant, with all 26 PCBs and 25 stacks free in the order of their addresses, ten
-- nodes and two queues left, no current process, time 0 and the next PID 1.
pub modules_init-IsKernel :
    (k : Kernel)
    → ((q : ℕ) → k.store.queue q ≡ cleared none)
    → Returns
        (λ _ k'.
          IsKernel k' booted 0 0 × (k'.current ≡ 0) × (k'.system_time ≡ 0) × (k'.next_pid ≡ 1))
        (modules_init k)
unfolding modules_init
modules_init-IsKernel k clear =
    queued_bind k _ (modinit-view k.store clear) λ _ s (v, r, pool, items, others, order, free).
      let first : Represents s (table 9 2 [] [] 54) =
        Represents-same s v (table 9 2 [] [] 54)
          (λ q. elim (ℕ_discrete q 1) [
            | yes e ↦ ap v.items e ∙ items ∙ sym (ap (table 9 2 [] [] 54).items e)
            | no d ↦ others q d ∙ rw (ne→eqb q 1 d) (ground arith)
          ])
          order free pool r in
      bind (pcb_modinit-Represents (record k { store = s }) first) λ _ k1 (r1, e1, p1).
        bind (stack_modinit-Represents k1 r1) λ _ k2 (r2, e2, p2).
          bind (sched_modinit-Represents k2 r2) λ _ k3 (r3, pcbs, stacks, ready, idle, p3).
            bind (init_sleeping-Represents k3 r3) λ _ k4 (r4, e4, c4, p4). returns (
              record {
                view = r4;
                wired = record {
                  free_pcbs =
                      ap (λ b. b.free_pcbs) e4
                      ∙ pcbs
                      ∙ ap (λ b. b.free_pcbs) e2
                      ∙ ap (λ b. b.free_pcbs) e1;
                  free_stacks = ap (λ b. b.free_stacks) e4 ∙ stacks ∙ ap (λ b. b.free_stacks) e2;
                  ready = λ i h. ap (λ b. b.ready i) e4 ∙ ready i h;
                  sleeping = ap (λ b. b.sleeping) e4;
                  arrival = λ q d. ground arith;
                  timed = refl;
                };
                balanced = record {
                  nodes = refl;
                  queues = omega arith;
                  pcbs = refl;
                  stacks = refl;
                };
                live = booted-IsLive;
              },
              c4 ∙ idle,
              refl,
              p4 ∙ p3 ∙ p2 ∙ p1,
            )
