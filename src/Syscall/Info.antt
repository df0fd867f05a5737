-- ===== src/Syscall/Info.antt =====
-- What the information calls answer.
use systems_os.Prelude.{
  ◌<◌, ◌≤◌, ◌-◌, arith, ltb, Bool-cases, ℕ, ◌+◌, ◌%◌, ◌^◌, ◌≡◌, ◌≢◌, ◌⊎◌, refl, ap, sym, inl, inr,
  eq→eqb, ne→eqb, ℕ_discrete,
}
use systems_os.Machine.{Returns, returns}
use systems_os.Queue.{Ptr, n_procs}
use systems_os.Kernel.{Kernel, Pcb}
use mathlib.Core.Path.{subst}
use systems_os.Process.{pcb_find}
use systems_os.Process.Find.{FirstWith, pcb_find-FirstWith}
use systems_os.System.Context
use systems_os.Syscall.{arg, ret, minus_one, sext16, process_info, sys_get_process_info}

-- The word in which the result of a system call is left.
abbrev pub result : Ptr → Kernel → ℕ
result p k = k.word ((k.pcb p).context + Context.eax)

-- Only the result has changed.
abbrev pub OnlyResult : Ptr → Kernel → Kernel → Type 0
OnlyResult p k k' = k' ≡ ret (result p k') p k

-- The process that is asked about: the current one for 0, or the first with the PID.
abbrev pub IsAsked : Kernel → ℕ → Ptr → Type 0
IsAsked k pid r =
    ((pid ≡ 0) × (r ≡ k.current)) ⊎ ((pid ≢ 0) × FirstWith k (pid % 2 ^ 16) n_procs 1 r)

written : (p : Ptr) (k : Kernel) (w : ℕ) → result p (ret w p k) ≡ w
written p k w = rw (eq→eqb ((k.pcb p).context + Context.eax) ((k.pcb p).context + Context.eax) refl)

only : (p : Ptr) (k : Kernel) (w : ℕ) → OnlyResult p k (ret w p k)
only p k w = ap (λ v. ret v p k) (sym (written p k w))

-- The longword of an `int16_t`.
abbrev pub IsInt16 : ℕ → ℕ → Type 0
IsInt16 w n = ((w < 2 ^ 15) × (n ≡ w)) ⊎ ((2 ^ 15 ≤ w) × (n ≡ w + (2 ^ 32 - 2 ^ 16)))

-- What the codes of common.h ask for.
pub data Answer (code : ℕ) (b : Pcb) (n : ℕ) : Type 0 where
  own_pid : code ≡ 0 → IsInt16 b.pid n → Answer code b n
  parent_pid : code ≡ 1 → IsInt16 b.ppid n → Answer code b n
  state : code ≡ 2 → n ≡ b.state → Answer code b n
  wakeup : code ≡ 3 → n ≡ b.wakeup → Answer code b n
  priority : code ≡ 4 → n ≡ b.prio → Answer code b n
  quantum_left : code ≡ 5 → n ≡ b.quantum → Answer code b n
  quantum_given : code ≡ 6 → n ≡ b.default_quantum → Answer code b n
  unknown : 7 ≤ code → n ≡ 2 ^ 32 - 1 → Answer code b n

sext16-IsInt16 : (w : ℕ) → IsInt16 w (sext16 w)
unfolding sext16
sext16-IsInt16 w = elim (Bool-cases (ltb w 0x8000)) [
  | inl h ↦ inl (ground (arith, h), rw h refl)
  | inr h ↦ inr (ground (arith, h), rw h refl)
]

rest-Answer :
    (code : ℕ) (b : Pcb)
    → code ≢ 0
    → code ≢ 1
    → code ≢ 2
    → code ≢ 3
    → Answer code b (process_info code b)
unfolding process_info
rest-Answer code b n0 n1 n2 n3 = elim (ℕ_discrete code 4) [
  | yes e ↦ priority e (
      rw (ne→eqb code 0 n0, ne→eqb code 1 n1, ne→eqb code 2 n2, ne→eqb code 3 n3, eq→eqb code 4 e)
        refl)
  | no n4 ↦ elim (ℕ_discrete code 5) [
    | yes e ↦ quantum_left e (
        rw
          (
            ne→eqb code 0 n0,
            ne→eqb code 1 n1,
            ne→eqb code 2 n2,
            ne→eqb code 3 n3,
            ne→eqb code 4 n4,
            eq→eqb code 5 e,
          )
          refl)
    | no n5 ↦ elim (ℕ_discrete code 6) [
      | yes e ↦ quantum_given e (
          rw
            (
              ne→eqb code 0 n0,
              ne→eqb code 1 n1,
              ne→eqb code 2 n2,
              ne→eqb code 3 n3,
              ne→eqb code 4 n4,
              ne→eqb code 5 n5,
              eq→eqb code 6 e,
            )
            refl)
      | no n6 ↦ unknown (omega (arith, n0, n1, n2, n3, n4, n5, n6)) (
          rw
            (
              ne→eqb code 0 n0,
              ne→eqb code 1 n1,
              ne→eqb code 2 n2,
              ne→eqb code 3 n3,
              ne→eqb code 4 n4,
              ne→eqb code 5 n5,
              ne→eqb code 6 n6,
            )
            refl)
    ]
  ]
]

process_info-Answer : (code : ℕ) (b : Pcb) → Answer code b (process_info code b)
unfolding process_info
process_info-Answer code b = elim (ℕ_discrete code 0) [
  | yes e ↦ own_pid e (rw (eq→eqb code 0 e) (sext16-IsInt16 b.pid))
  | no n0 ↦ elim (ℕ_discrete code 1) [
    | yes e ↦ parent_pid e (rw (ne→eqb code 0 n0, eq→eqb code 1 e) (sext16-IsInt16 b.ppid))
    | no n1 ↦ elim (ℕ_discrete code 2) [
      | yes e ↦ state e (rw (ne→eqb code 0 n0, ne→eqb code 1 n1, eq→eqb code 2 e) refl)
      | no n2 ↦ elim (ℕ_discrete code 3) [
        | yes e ↦
            wakeup e
              (rw (ne→eqb code 0 n0, ne→eqb code 1 n1, ne→eqb code 2 n2, eq→eqb code 3 e) refl)
        | no n3 ↦ rest-Answer code b n0 n1 n2 n3
      ]
    ]
  ]
]

-- The answer is in the result word.
answered :
    (p : Ptr) (k : Kernel) (code : ℕ) (b : Pcb)
    → Answer code b (result p (ret (process_info code b) p k))
answered p k code b =
    subst (Answer code b) (sym (written p k (process_info code b))) (process_info-Answer code b)

-- With a current process, `_sys_get_process_info` returns and changes nothing but the result
-- word of the caller's context: it is, of the process asked about, for the codes from 0 to 6,
-- its PID and its parent's PID, each sign-extended from 16 bits, its state, wake-up time,
-- priority, quantum left and default quantum, and -1 for a code from 7 on. The process is the
-- current one for PID 0 and otherwise the first of the 25 PCBs searched that is in use and has
-- the PID modulo 2^16; if there is none, the result is -1.
pub sys_get_process_info-IsAsked :
    (k : Kernel) (p : Ptr)
    → k.current ≢ 0
    → Returns
        (λ _ k'.
          OnlyResult p k k'
          × (r : Ptr) × IsAsked k (arg 2 p k) r
          × ((r ≢ 0) → Answer (arg 1 p k) (k.pcb r) (result p k'))
          × ((r ≡ 0) → result p k' ≡ 2 ^ 32 - 1))
        (sys_get_process_info p k)
unfolding sys_get_process_info
sys_get_process_info-IsAsked k p run =
    let pid = arg 2 p k in
    elim (ℕ_discrete pid 0) [
      | yes z ↦
          rw (eq→eqb pid 0 z, ne→eqb k.current 0 run)
            (returns (
              only p k (process_info (arg 1 p k) (k.pcb k.current)),
              k.current,
              inl (z, refl),
              (λ _. answered p k (arg 1 p k) (k.pcb k.current)),
              (λ e. absurd (run e)),
            ))
      | no z ↦
          let found = pcb_find (pid % 2 ^ 16) k in
          let first : FirstWith k (pid % 2 ^ 16) n_procs 1 found =
            pcb_find-FirstWith k (pid % 2 ^ 16) in
          elim (ℕ_discrete found 0) [
            | yes e ↦
                rw (ne→eqb pid 0 z, eq→eqb found 0 e)
                  (returns (
                    only p k minus_one,
                    found,
                    inr (z, first),
                    (λ d. absurd (d e)),
                    (λ d. written p k minus_one),
                  ))
            | no d ↦
                rw (ne→eqb pid 0 z, ne→eqb found 0 d)
                  (returns (
                    only p k (process_info (arg 1 p k) (k.pcb found)),
                    found,
                    inr (z, first),
                    (λ _. answered p k (arg 1 p k) (k.pcb found)),
                    (λ e. absurd (d e)),
                  ))
          ]
    ]
