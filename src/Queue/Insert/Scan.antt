-- ===== src/Queue/Insert/Scan.antt =====
-- The walk of an ordered insertion stops at the place that the view gives.
use systems_os.Prelude.{
  ℕ, zero, suc, ◌<◌, ◌≡◌, true, some, List, [], ◌∷◌, map, arith, length, head_or, last_or, has,
  take, drop, Bool-cases, inl, inr, ne→eqb,
}
use systems_os.Queue.{Ptr, null, nonneg, Comparison, Store, scan}
use systems_os.Queue.Chain.{Seg}
use systems_os.Queue.View.{links, entry}
use systems_os.Queue.Insert.{skip}

pub scan-skip :
    (c : Comparison) (m : Store) (fuel key : ℕ) (prev curr : Ptr) (ys : List Ptr)
    → Seg (links m) curr ys null
    → ((b : Ptr) → has b ys ≡ true → 0 < b)
    → length ys < fuel
    → scan c m fuel key prev curr
      ≡ some (
        last_or prev (take (skip c key (map (entry m) ys)) ys),
        head_or null (drop (skip c key (map (entry m) ys)) ys),
      )
unfolding scan
scan-skip c m zero key prev curr ys s h f = absurd (omega arith)
scan-skip c m (suc fuel) key prev curr [] s h f = rw s
scan-skip c m (suc fuel) key prev curr (b ∷ ys) (e, s) h f =
    let live = h b (ground arith) in
    let ih = scan-skip c m fuel key b (links m b) ys s (λ x i. h x (ground arith)) (omega arith) in
    elim (Bool-cases (nonneg (c key (m.node b).key))) [
      | inl t ↦ rw (e, ne→eqb b 0 (omega arith), t) ih
      | inr t ↦ rw (e, ne→eqb b 0 (omega arith), t)
    ]
