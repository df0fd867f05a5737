-- ===== src/Text/Laws.antt =====
-- `compare` decides whether two strings are the same.
use systems_os.Prelude.{
  ℕ, zero, suc, ◌<◌, ◌≡◌, ◌≢◌, refl, Bool, true, false, ◌&&◌, List, [], ◌∷◌, ◌++◌, ◌==◌, arith, ap,
  ap₂, inl, inr, Bool-cases, ℕ_discrete, eq→eqb, ne→eqb, length, take,
}
use systems_os.Text.{buffer_len, compare_from, compare}

-- Characters are bytes.
abbrev pub IsText : List ℕ → Type 0
IsText [] = Unit
IsText (c ∷ cs) = (c < 256) × IsText cs

pub append-IsText : (cs ds : List ℕ) → IsText cs → IsText ds → IsText (cs ++ ds)
append-IsText [] ds t u = u
append-IsText (c ∷ cs) ds t u = (t.0, append-IsText cs ds t.1 u)

pub take-IsText : (n : ℕ) (cs : List ℕ) → IsText cs → IsText (take n cs)
take-IsText zero cs t = tt
take-IsText (suc n) [] t = tt
take-IsText (suc n) (c ∷ cs) t = (t.0, take-IsText n cs t.1)

-- Whether two strings are the same.
abbrev pub same : List ℕ → List ℕ → Bool
same [] [] = true
same [] (d ∷ ds) = false
same (c ∷ cs) [] = false
same (c ∷ cs) (d ∷ ds) = (c == d) && same cs ds

pub same→eq : (cs ds : List ℕ) → same cs ds ≡ true → cs ≡ ds
same→eq [] [] h = refl
same→eq [] (d ∷ ds) h = absurd (ground arith)
same→eq (c ∷ cs) [] h = absurd (ground arith)
same→eq (c ∷ cs) (d ∷ ds) h = ap₂ (λ x l. x ∷ l) (ground arith) (same→eq cs ds (ground arith))

pub same_refl : (cs : List ℕ) → same cs cs ≡ true
same_refl [] = refl
same_refl (c ∷ cs) = ground (arith, same_refl cs)

pub ne→same : (cs ds : List ℕ) → cs ≢ ds → same cs ds ≡ false
ne→same cs ds d = elim (Bool-cases (same cs ds)) [
  | inl t ↦ absurd (d (same→eq cs ds t))
  | inr t ↦ t
]

pub buffer_len-length : (cs : List ℕ) → buffer_len cs ≡ length cs
unfolding buffer_len
buffer_len-length [] = refl
buffer_len-length (c ∷ cs) = ap suc (buffer_len-length cs)

same-buffer_len : (cs ds : List ℕ) → same cs ds ≡ true → buffer_len cs ≡ buffer_len ds
same-buffer_len cs ds h = ap buffer_len (same→eq cs ds h)

compare_from-same :
    (cs ds : List ℕ)
    → IsText cs
    → IsText ds
    → buffer_len cs ≡ buffer_len ds
    → (compare_from cs ds == 0) ≡ same cs ds
unfolding compare_from buffer_len
compare_from-same [] [] t u e = refl
compare_from-same [] (d ∷ ds) t u e = absurd (omega arith)
compare_from-same (c ∷ cs) [] t u e = absurd (omega arith)
compare_from-same (c ∷ cs) (d ∷ ds) t u e =
    ground (arith, compare_from-same cs ds t.1 u.1 (omega arith))

-- Of strings of bytes, `compare` is 0 just when the two are the same.
pub compare-same : (cs ds : List ℕ) → IsText cs → IsText ds → (compare cs ds == 0) ≡ same cs ds
unfolding compare
compare-same cs ds t u = elim (Bool-cases (same cs ds)) [
  | inl h ↦
      let e = same-buffer_len cs ds h in
      rw (eq→eqb (buffer_len cs) (buffer_len ds) e) (compare_from-same cs ds t u e)
  | inr h ↦ elim (ℕ_discrete (buffer_len cs) (buffer_len ds)) [
    | yes e ↦ rw (eq→eqb (buffer_len cs) (buffer_len ds) e) (compare_from-same cs ds t u e)
    | no d ↦ rw (ne→eqb (buffer_len cs) (buffer_len ds) d, h) refl
  ]
]
