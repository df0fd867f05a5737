-- ===== src/Files/Paths.antt =====
-- The directories of a path, and the loop of `_sfs_create` that looks for them.
use systems_os.Prelude.{
  ℕ, ◌+◌, ◌<◌, ◌≡◌, ◌≢◌, refl, Bool, true, false, ◌||◌, none, List, [], ◌∷◌, ◌++◌, arith, ltb,
  length, ap, sym, ◌∙◌, inl, inr, ◌⊎◌, Bool-cases, Option-cases, ℕ_discrete, eq→eqb, ne→eqb,
  append-nil, append_assoc, head_or, length-append,
}
use mathlib.Core.Path.{subst}
use systems_os.Machine.{ok}
use systems_os.Text.Laws.{IsText, append-IsText, same, same→eq, same_refl}
use systems_os.Files.{Files, directory_type, root, is_absolute, tail, has_directories}
use systems_os.Files.Names.{
  lookup, IsFiles, is_none, is_root-lookup, sfs_exists_absolute, root-IsText,
}

-- A name that is a directory's other than the root's, and one that is not.
abbrev pub IsDirectory : Files → List ℕ → Type 0
IsDirectory t f = (lookup t f directory_type ≢ none) × (f ≢ root)

abbrev pub IsMissing : Files → List ℕ → Type 0
IsMissing t f = (lookup t f directory_type ≡ none) ⊎ (f ≡ root)

-- Every part of a path that ends in front of a separator is a directory, or some part is not.
abbrev pub HasDirectories : Files → List ℕ → Type 0
HasDirectories t f = (part rest : List ℕ) → part ≢ [] → f ≡ part ++ (47 ∷ rest) → IsDirectory t part

pub record LacksDirectory (t : Files) (f : List ℕ) : Type 0 where
  pub part : List ℕ
  pub rest : List ℕ
  pub split : f ≡ part ++ (47 ∷ rest)
  pub missing : IsMissing t part

-- The parts behind those that were passed.
abbrev AllFrom : Files → List ℕ → List ℕ → Type 0
AllFrom t checked cs = (a b : List ℕ) → cs ≡ a ++ (47 ∷ b) → IsDirectory t (checked ++ a)

abbrev SomeFrom : Files → List ℕ → List ℕ → Type 0
SomeFrom t checked cs =
    (a : List ℕ) × (b : List ℕ) × (cs ≡ a ++ (47 ∷ b)) × IsMissing t (checked ++ a)

shift : (checked : List ℕ) (c : ℕ) (a : List ℕ) → (checked ++ (c ∷ [])) ++ a ≡ checked ++ (c ∷ a)
shift checked c a = append_assoc checked (c ∷ []) a

all_extend :
    (t : Files) (checked : List ℕ) (c : ℕ) (cs : List ℕ)
    → (c ≡ 47 → IsDirectory t checked)
    → AllFrom t (checked ++ (c ∷ [])) cs
    → AllFrom t checked (c ∷ cs)
all_extend t checked c cs here next [] b e =
    subst (IsDirectory t) (sym (append-nil checked)) (here (ap (head_or 0) e))
all_extend t checked c cs here next (x ∷ a) b e =
    subst (λ y. IsDirectory t (checked ++ (y ∷ a))) (ap (head_or 0) e)
      (subst (IsDirectory t) (shift checked c a) (next a b (ap tail e)))

some_extend :
    (t : Files) (checked : List ℕ) (c : ℕ) (cs : List ℕ)
    → SomeFrom t (checked ++ (c ∷ [])) cs
    → SomeFrom t checked (c ∷ cs)
some_extend t checked c cs (a, b, e, m) =
    (c ∷ a, b, ap (◌∷◌ c) e, subst (IsMissing t) (shift checked c a) m)

is_none-IsMissing :
    (t : Files) (f : List ℕ)
    → (is_none (lookup t f directory_type) || same f root) ≡ true
    → IsMissing t f
is_none-IsMissing t f h = elim (Option-cases (lookup t f directory_type)) [
  | inl e ↦ inl e
  | inr (i, e) ↦ inr (same→eq f root (ap (λ o. is_none o || same f root) (sym e) ∙ h))
]

both_false : (a b : Bool) → (a || b) ≡ false → (a ≡ false) × (b ≡ false)
both_false true b h = absurd (ground arith)
both_false false b h = (refl, h)

clash : (b : Bool) → b ≡ true → b ≡ false → ⊥
clash b p q = absurd (ground arith)

is_none-IsDirectory :
    (t : Files) (f : List ℕ)
    → (is_none (lookup t f directory_type) || same f root) ≡ false
    → IsDirectory t f
is_none-IsDirectory t f h =
    let (a, b) = both_false (is_none (lookup t f directory_type)) (same f root) h in
    (
      λ e. clash (is_none (lookup t f directory_type)) (ap is_none e) a,
      λ e. clash (same f root) (ap (same f) (sym e) ∙ same_refl f) b,
    )

append_absolute : (f g : List ℕ) → is_absolute f ≡ true → is_absolute (f ++ g) ≡ true
append_absolute [] g a = absurd (ground arith)
append_absolute (c ∷ cs) g a = a

has_directories_cases :
    (checked cs : List ℕ) (t : Files)
    → IsFiles t
    → IsText checked
    → IsText cs
    → is_absolute checked ≡ true
    → length checked + length cs < t.literals.checked_room
    → (AllFrom t checked cs × (has_directories checked cs t ≡ ok true t))
      ⊎ (SomeFrom t checked cs × (has_directories checked cs t ≡ ok false t))
unfolding has_directories
has_directories_cases checked [] t inv u v a room =
    let r : ltb (length checked) t.literals.checked_room ≡ true = ground arith in
    inl (λ p q e. absurd (omega (arith, ap length e, length-append p (47 ∷ q))), rw r refl)
has_directories_cases checked (c ∷ cs) t inv u v a room =
    let r : ltb (length checked) t.literals.checked_room ≡ true = ground arith in
    let rest =
      has_directories_cases (checked ++ (c ∷ [])) cs t inv
        (append-IsText checked (c ∷ []) u (v.0, tt)) v.1 (append_absolute checked (c ∷ []) a)
        (omega (arith, length-append checked (c ∷ []))) in
    elim (ℕ_discrete c 47) [
      | no d ↦ elim rest [
        | inl (all, e) ↦
            inl (all_extend t checked c cs (λ x. absurd (d x)) all, rw (r, ne→eqb c 47 d) e)
        | inr (one, e) ↦ inr (some_extend t checked c cs one, rw (r, ne→eqb c 47 d) e)
      ]
      | yes q ↦
          let found = sfs_exists_absolute t checked directory_type a in
          let test = is_root-lookup checked directory_type t inv u in
          elim (Bool-cases (is_none (lookup t checked directory_type) || same checked root)) [
            | inl h ↦ inr (
              (
                [],
                cs,
                ap (λ x. x ∷ cs) q,
                subst (IsMissing t) (sym (append-nil checked)) (is_none-IsMissing t checked h),
              ),
              rw (r, eq→eqb c 47 q, found, test ∙ h) refl,
            )
            | inr h ↦ elim rest [
              | inl (all, e) ↦ inl (
                all_extend t checked c cs (λ x. is_none-IsDirectory t checked h) all,
                rw (r, eq→eqb c 47 q, found, test ∙ h) e,
              )
              | inr (one, e) ↦
                  inr (some_extend t checked c cs one, rw (r, eq→eqb c 47 q, found, test ∙ h) e)
            ]
          ]
    ]

path_all :
    (t : Files) (c : ℕ) (cs : List ℕ) → c ≡ 47 → AllFrom t root cs → HasDirectories t (c ∷ cs)
path_all t c cs slash all [] rest n e = absurd (n refl)
path_all t c cs slash all (x ∷ a) rest n e =
    subst (λ y. IsDirectory t (y ∷ a)) (sym slash ∙ ap (head_or 0) e) (all a rest (ap tail e))

-- The loop decides whether the directories of an absolute path exist.
pub has_directories_path :
    (f : List ℕ) (t : Files)
    → IsFiles t
    → IsText f
    → is_absolute f ≡ true
    → length f < t.literals.checked_room
    → (HasDirectories t f × (has_directories root (tail f) t ≡ ok true t))
      ⊎ (LacksDirectory t f × (has_directories root (tail f) t ≡ ok false t))
has_directories_path [] t inv u a room = absurd (ground arith)
has_directories_path (c ∷ cs) t inv u a room =
    let slash : c ≡ 47 = ground arith in
    elim (has_directories_cases root cs t inv root-IsText u.1 refl (omega arith)) [
      | inl (all, e) ↦ inl (path_all t c cs slash all, e)
      | inr ((p, q, s, m), e) ↦ inr (
        record {
          part = 47 ∷ p;
          rest = q;
          split = ap (λ x. x ∷ cs) slash ∙ ap (◌∷◌ 47) s;
          missing = m;
        },
        e,
      )
    ]
