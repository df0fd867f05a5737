-- ===== src/Clock/Turn.antt =====
-- Round robin: what the end of a quantum does to the ready queue of the current process.
use systems_os.Prelude.{
  ℕ, ◌+◌, ◌%◌, ◌<◌, ◌≡◌, ◌≢◌, refl, true, none, List, [], ◌∷◌, ◌++◌, arith, ltb, ap, sym, ◌∙◌,
  eq→eqb, ne→eqb, place-length,
}
use mathlib.Core.Path.{subst}
use systems_os.Machine.{and_then, Returns, bind, mono}
use systems_os.Queue.View.{Entry, View}
use systems_os.Queue.Insert.{rank, view_insert, view_insert-other}
use systems_os.Queue.Remove.{view_remove, view_remove-items}
use systems_os.Queue.Init.{AllLive}
use systems_os.Kernel.{Kernel, set_pcb}
use systems_os.Kernel.Books.{IsKernel}
use systems_os.Scheduler.{readied, schedule, dispatch}
use systems_os.Scheduler.Laws.{schedule_lem, dispatch-first}
use systems_os.Clock.{charge}
use systems_os.Clock.Laws.{ticked}

-- The first process of the level runs, and the current one is last there.
abbrev pub Turned : Kernel → ℕ → ℕ → Entry → List Entry → Kernel → Type 0
Turned k lent level e es k' =
    (k'.current ≡ e.1)
    × ((k'.pcb e.1).quantum ≡ (k'.pcb e.1).default_quantum)
    × (k'.system_time ≡ k.system_time)
    × ((v' : View) × IsKernel k' v' 1 lent × (v'.items (4 + level) ≡ es ++ ((0, k.current) ∷ [])))

insert_arrival :
    (v : View) (q x : ℕ)
    → v.order q ≡ none
    → (view_insert q x 0 v).items q ≡ v.items q ++ ((0, x) ∷ [])
unfolding view_insert
insert_arrival v q x o = rw (eq→eqb q q refl, o, rank) (place-length (0, x) (v.items q))

expired-Turned :
    (k : Kernel) (v : View) (lent level : ℕ) (e : Entry) (es : List Entry)
    → IsKernel k v 1 lent
    → k.current ≢ 0
    → (readied (k.pcb k.current)).prio ≡ level
    → level < 4
    → ((l : ℕ) → l < level → v.items (4 + l) ≡ [])
    → v.items (4 + level) ≡ e ∷ es
    → Returns
        (λ _ k'. Turned k lent level e es k')
        (and_then (schedule k.current k) λ _ k2. dispatch k2)
expired-Turned k v lent level e es inv live lv low gap found =
    let v1 = view_insert (4 + level) k.current 0 v in
    let e_live : e.1 ≢ 0 = (subst AllLive found (inv.live (4 + level))).0 in
    let found1 : v1.items (4 + level) ≡ e ∷ (es ++ ((0, k.current) ∷ [])) =
      insert_arrival v (4 + level) k.current (inv.wired.arrival (4 + level) (omega arith))
      ∙ ap (λ l. l ++ ((0, k.current) ∷ [])) found in
    bind (schedule_lem k v k.current 0 lent inv live) λ _ k1 (s, inv1).
      let inv1' : IsKernel k1 v1 0 lent =
        subst (λ l. IsKernel k1 (view_insert (4 + l) k.current 0 v) 0 lent) lv inv1 in
      mono
        (dispatch-first k1 v1 0 lent inv1' level e (es ++ ((0, k.current) ∷ [])) low
          (λ l h. view_insert-other v (4 + level) k.current 0 (4 + l) (omega arith) ∙ gap l h)
          found1 e_live)
        λ _ k2 (r, inv2). (
          r.current,
          ap (λ b. b.quantum) r.own ∙ sym (ap (λ b. b.default_quantum) r.own),
          r.time ∙ s.time,
          (
            view_remove (4 + level) v1,
            inv2,
            view_remove-items v1 (4 + level) e (es ++ ((0, k.current) ∷ [])) found1,
          ),
        )

-- From the kernel's invariant with a current process that has one tick of its quantum left and a
-- legal priority, when the ready queues of higher priorities are empty and that of its own is
-- not, counting the tick returns: the first process of that queue runs with a full quantum, the
-- process that was current is last in that queue, and the invariant holds.
pub charge-Turned :
    (k : Kernel) (v : View) (lent level : ℕ) (e : Entry) (es : List Entry)
    → IsKernel k v 1 lent
    → k.current ≢ 0
    → (k.pcb k.current).quantum ≡ 1
    → (k.pcb k.current).prio ≡ level
    → level < 4
    → ((l : ℕ) → l < level → v.items (4 + l) ≡ [])
    → v.items (4 + level) ≡ e ∷ es
    → Returns (λ _ k'. Turned k lent level e es k') (charge k)
unfolding charge
charge-Turned k v lent level e es inv live last lv low gap found =
    let inv1 : IsKernel (set_pcb k k.current (ticked (k.pcb k.current))) v 1 lent = record {
      view = inv.view;
      wired = inv.wired;
      balanced = inv.balanced;
      live = inv.live;
    } in
    let over : ltb (((k.pcb k.current).quantum + 255) % 256) 1 ≡ true = ground arith in
    let same : (readied ((set_pcb k k.current (ticked (k.pcb k.current))).pcb k.current)).prio
        ≡ level =
      rw (eq→eqb k.current k.current refl) (ground arith) in
    rw (ne→eqb k.current 0 live, over)
      (expired-Turned (set_pcb k k.current (ticked (k.pcb k.current))) v lent level e es inv1 live
        same low gap found)
