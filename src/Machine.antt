-- ===== src/Machine.antt =====
-- The outcome of kernel code: a result with the new state, or one of the ways in which the C code
-- does not return. `panic` is `_kpanic` of klibc.c, which halts in `__panic` of support.c; `fault`
-- is a use of a NULL queue, node, PCB or stack, or of an array or a string literal outside its bounds,
-- which C leaves undefined; `out_of_fuel` marks a loop whose bound on rounds was too small.
use mathlib.Core.Path.{subst}
use systems_os.Prelude.{ℕ, ◌+◌, ◌-◌, ◌%◌, ◌^◌, ◌≡◌}

pub data Run (S : Type 0) (A : Type 0) : Type 0 where
  ok : A → S → Run S A
  panic : Run S A
  fault : Run S A
  out_of_fuel : Run S A

-- A command of the kernel, over a state of type `S`.
abbrev pub Cmd : Type 0 → Type 0 → Type 0
Cmd S A = S → Run S A

module _ {S : Type 0} where
  abbrev pub pure : {A : Type 0} → A → Cmd S A
  pure = ok

  abbrev pub and_then : {A B : Type 0} → Run S A → (A → Cmd S B) → Run S B
  and_then (ok a s) k = k a s
  and_then panic k = panic
  and_then fault k = fault
  and_then out_of_fuel k = out_of_fuel

  infixr 5 ◌>>=◌ ◌>>◌
  abbrev pub ◌>>=◌ : {A B : Type 0} → Cmd S A → (A → Cmd S B) → Cmd S B
  m >>= k = λ s. and_then (m s) k

  abbrev pub ◌>>◌ : {B : Type 0} → Cmd S (Unit {0}) → Cmd S B → Cmd S B
  m >> n = m >>= λ _. n

  -- Total correctness: the run returns, with a result and a state that satisfy `P`.
  pub data Returns {A : Type 0} (P : A → S → Type 0) : Run S A → Type 0 where
    returns : {a : A} {s : S} → P a s → Returns P (ok a s)

  pub bind :
      {A B : Type 0} {P : A → S → Type 0} {Q : B → S → Type 0} {r : Run S A} {k : A → Cmd S B}
      → Returns P r
      → ((a : A) (s : S) → P a s → Returns Q (k a s))
      → Returns Q (and_then r k)
  bind (returns p) next = next _ _ p

  pub mono :
      {A : Type 0} {P Q : A → S → Type 0} {r : Run S A}
      → Returns P r
      → ((a : A) (s : S) → P a s → Q a s)
      → Returns Q r
  mono (returns p) weaken = returns (weaken _ _ p)

  -- What a run that returns says of the result and state it is known to have.
  abbrev Holds : {A : Type 0} → (A → S → Type 0) → Run S A → Type 0
  Holds P (ok a s) = P a s
  Holds P panic = ⊥
  Holds P fault = ⊥
  Holds P out_of_fuel = ⊥

  Returns-Holds : {A : Type 0} {P : A → S → Type 0} {r : Run S A} → Returns P r → Holds P r
  Returns-Holds (returns p) = p

  pub result :
      {A : Type 0} {P : A → S → Type 0} {r : Run S A} {a : A} {s : S}
      → Returns P r
      → r ≡ ok a s
      → P a s
  result {P = P} h e = subst (Holds P) e (Returns-Holds h)

-- Addition and subtraction of a `uint32_t`, and the `int` that a bit pattern stands for: it is
-- negative exactly when the top bit is set.
abbrev pub add32 : ℕ → ℕ → ℕ
add32 a b = (a + b) % 2 ^ 32

abbrev pub sub32 : ℕ → ℕ → ℕ
sub32 a b = (a + 2 ^ 32 - b) % 2 ^ 32
