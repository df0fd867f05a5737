-- ===== src/Files/Unlink.antt =====
-- The parts of `_sfs_delete`: the walk over the blocks, the search for names inside a directory, and
-- an entry that loses its name.
use systems_os.Prelude.{
  ℕ, zero, suc, ◌+◌, ◌*◌, ◌≤◌, ◌<◌, ◌≡◌, ◌≢◌, refl, Bool, true, false, ◌&&◌, none, some, List, [],
  ◌==◌, arith, ap, sym, ◌∙◌, inl, inr, Bool-cases, ℕ_discrete, eq→eqb, ne→eqb, ◌⊎◌,
}
use mathlib.Core.Path.{subst}
use systems_os.Machine.{ok}
use systems_os.Text.Laws.{same, same→eq, ne→same}
use systems_os.Files.{Files, num_entries, data_block_size, root}
use systems_os.Files.Names.{matches, lookup, IsFiles, set-IsFiles}
use systems_os.Files.First.{first-none, first-some}
use systems_os.Files.Create.{SameOthers, set-lookup}
use systems_os.Files.Content.{walk_blocks, is_inside, is_used, remove_entry}

-- A file of one block, whose `next` is 0, needs no more than one step.
pub walk_blocks-one :
    (fuel b : ℕ) (t : Files)
    → t.byte (data_block_size * b) ≡ 0
    → walk_blocks (suc fuel) b t ≡ ok tt t
unfolding walk_blocks
walk_blocks-one fuel b t z = rw z refl

pub is_used-cases :
    (n k : ℕ) (name : List ℕ) (t : Files)
    → ((j : ℕ) × (j < k + n)
        × (is_inside name (t.entry j).name ≡ true)
        × (is_used n k name t ≡ true))
      ⊎ (((j : ℕ) → k ≤ j → j < k + n → is_inside name (t.entry j).name ≡ false)
          × (is_used n k name t ≡ false))
unfolding is_used
is_used-cases zero k name t = inr (λ j a b. absurd (omega arith), refl)
is_used-cases (suc n) k name t = elim (Bool-cases (is_inside name (t.entry k).name)) [
  | inl h ↦ inl (k, omega arith, h, rw h refl)
  | inr h ↦ elim (is_used-cases n (k + 1) name t) [
    | inl (j, b, m, e) ↦ inl (j, omega arith, m, rw (h, e) refl)
    | inr (m, e) ↦ inr (
      λ j a b. elim (ℕ_discrete j k) [
        | yes q ↦ ap (λ x. is_inside name (t.entry x).name) q ∙ h
        | no d ↦ m j (omega arith) (omega arith)
      ],
      rw (h, e) refl,
    )
  ]
]

equal_types : (a b c : ℕ) (x : Bool) → (a == c) ≡ true → (x && (b == c)) ≡ true → a ≡ b
equal_types a b c x p q = ground arith

-- An entry that is in use and not the root.
module _ (t : Files) (i : ℕ) (f : List ℕ) (ty : ℕ) (inv : IsFiles t) (e : lookup t f ty ≡ some i)
    (d : f ≢ root) (n : f ≢ []) where
  found : (matches t f ty i ≡ true) × (i < num_entries)
  found = let (m, b, _) = first-some (matches t f ty) num_entries 0 i e in (m, omega arith)

  pub found_name : f ≡ (t.entry i).name
  found_name = same→eq f (t.entry i).name (ground (arith, found.0))

  pub found_type : ((t.entry i).type == ty) ≡ true
  found_type = ground (arith, found.0)

  not_root : i ≢ 0
  not_root z = d (found_name ∙ ap (λ k. (t.entry k).name) z ∙ inv.root_name)

  same_type : (j : ℕ) → matches t f ty j ≡ true → (t.entry i).type ≡ (t.entry j).type
  same_type j m =
      equal_types (t.entry i).type (t.entry j).type ty (same f (t.entry j).name) found_type m

  only : (j : ℕ) → j < num_entries → j ≢ i → matches t f ty j ≡ false
  only j b x = elim (Bool-cases (matches t f ty j)) [
    | inr m ↦ m
    | inl m ↦ absurd (
        x (
          sym (
            inv.unique i j found.1 b (λ z. n (found_name ∙ z))
              (sym found_name ∙ same→eq f (t.entry j).name (ground (arith, m))) (same_type j m))))
  ]

  pub remove_entry-none : lookup (remove_entry i t) f ty ≡ none
  remove_entry-none = first-none (matches (remove_entry i t) f ty) num_entries 0 λ j _ b.
      elim (ℕ_discrete j i) [
        | yes q ↦
            subst (λ j. matches (remove_entry i t) f ty j ≡ false) (sym q)
              (rw (eq→eqb i i refl) (ap (λ b. b && ((t.entry i).type == ty)) (ne→same f [] n)))
        | no x ↦ rw (ne→eqb j i x) (only j (omega arith) x)
      ]

  pub remove_entry-SameOthers : SameOthers t f ty (remove_entry i t)
  remove_entry-SameOthers = record {
    others = λ g uy used other.
        set-lookup t i (record (t.entry i) { name = []; size = 0 }) g uy
          (subst (λ h. (same g h && ((t.entry i).type == uy)) ≡ false) found_name
            (ground (arith, other, found_type)))
          (ap (λ b. b && ((t.entry i).type == uy)) (ne→same g [] used));
    byte = refl;
    directory = refl;
  }

  pub remove_entry-IsFiles : IsFiles (remove_entry i t)
  remove_entry-IsFiles =
      set-IsFiles t i (record (t.entry i) { name = []; size = 0 }) inv not_root tt
        λ j b x used _ _. used refl
