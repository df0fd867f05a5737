-- ===== src/Process/Find.antt =====
-- What `_pcb_find` finds.
use systems_os.Prelude.{
  ℕ, zero, suc, ◌+◌, ◌<◌, ◌≤◌, ◌⊎◌, ◌≡◌, ◌≢◌, refl, arith, ◌==◌, ◌&&◌, not, inl, inr, Bool-cases,
  ℕ_discrete,
}
use mathlib.Core.Path.{subst}
use systems_os.Queue.{Ptr, null, n_procs}
use systems_os.Kernel.{Kernel, state_free}
use systems_os.Process.{find_from, pcb_find}

-- The PCB is in use and has the PID.
abbrev pub HasPid : Kernel → ℕ → Ptr → Type 0
HasPid k pid p = ((k.pcb p).state ≢ state_free) × ((k.pcb p).pid ≡ pid)

-- `r` is the first PCB with the PID among the `n` from `p` on, or NULL if there is none.
abbrev pub FirstWith : Kernel → ℕ → ℕ → Ptr → Ptr → Type 0
FirstWith k pid n p r =
    ((r ≡ null) × ((q : Ptr) → p ≤ q → q < p + n → ¬ HasPid k pid q))
    ⊎ (HasPid k pid r × (p ≤ r) × (r < p + n) × ((q : Ptr) → p ≤ q → q < r → ¬ HasPid k pid q))

below :
    (k : Kernel) (pid p q : ℕ)
    → ¬ HasPid k pid p
    → (p + 1 ≤ q → ¬ HasPid k pid q)
    → p ≤ q
    → ¬ HasPid k pid q
below k pid p q here above le = elim (ℕ_discrete p q) [
  | yes e ↦ subst (λ r. ¬ HasPid k pid r) e here
  | no d ↦ above (omega arith)
]

further :
    (k : Kernel) (pid n p r : ℕ)
    → ¬ HasPid k pid p
    → FirstWith k pid n (p + 1) r
    → FirstWith k pid (suc n) p r
further k pid n p r here (inl (e, none_left)) =
    inl (e, λ q a b. below k pid p q here (λ le. none_left q le (omega arith)) a)
further k pid n p r here (inr (h, lo, hi, first)) =
    inr (h, omega arith, omega arith, λ q a b. below k pid p q here (λ le. first q le b) a)

find_from-FirstWith : (k : Kernel) (pid n : ℕ) (p : Ptr) → FirstWith k pid n p (find_from n p pid k)
unfolding find_from
find_from-FirstWith k pid zero p = inl (refl, λ q a b. absurd (omega arith))
find_from-FirstWith k pid (suc n) p =
    elim (Bool-cases (not ((k.pcb p).state == state_free) && ((k.pcb p).pid == pid))) [
      | inl t ↦ rw t (
          inr
            ((ground arith, ground arith), omega arith, omega arith, λ q a b. absurd (omega arith)))
      | inr t ↦ rw t (
          further k pid n p (find_from n (p + 1) pid k) (λ h. ground arith)
            (find_from-FirstWith k pid n (p + 1)))
    ]

-- `_pcb_find` returns the first of the 25 PCBs from `_pcbs[0]` on that is in use and has the
-- PID, or NULL if none of those 25 is and has.
pub pcb_find-FirstWith : (k : Kernel) (pid : ℕ) → FirstWith k pid n_procs 1 (pcb_find pid k)
unfolding pcb_find
pcb_find-FirstWith k pid = find_from-FirstWith k pid n_procs 1
