-- ===== src/Files/Create.antt =====
-- `_sfs_create`: its results, and what a new entry changes.
use systems_os.Prelude.{
  ℕ, zero, suc, ◌+◌, ◌≤◌, ◌<◌, ◌≡◌, ◌≢◌, refl, true, false, ◌&&◌, ◌||◌, none, some, List, [], ◌∷◌,
  ◌==◌, arith, if◌then◌else◌, ap, sym, ◌∙◌, inl, inr, Bool-cases, ℕ_discrete, eq→eqb, ne→eqb,
  length, take, Option-cases,
}
use mathlib.Core.Path.{subst}
use systems_os.Machine.{ok, Returns, returns}
use systems_os.Text.{buffer_len, compare}
use systems_os.Text.Laws.{IsText, take-IsText, same, same_refl, ne→same, compare-same}
use systems_os.Files.{
  Entry, Files, set_entry, num_entries, root, is_absolute, full_name, is_root, is_free, new_entry,
  add_entry, create_from, create_entry, sfs_create,
}
use systems_os.Files.Paths.{HasDirectories, LacksDirectory, has_directories_path}
use systems_os.Files.Names.{
  Fits, search, sfs_exists_absolute, adjust_filename-full_name, matches, lookup, IsFiles,
  root-IsText, is_none, is_root-lookup, full_name_absolute, full_name-IsText, full_name-own,
  blocks-IsFiles, set-IsFiles,
}
use systems_os.Files.First.{first, first-congr, first-set, first-some, none-at}

-- The entries of other names and types are found as before.
pub record SameOthers (t : Files) (f : List ℕ) (ty : ℕ) (t' : Files) : Type 0 where
  pub others :
      (g : List ℕ) (uy : ℕ)
      → g ≢ []
      → (same g f && (uy == ty)) ≡ false
      → lookup t' g uy ≡ lookup t g uy
  pub byte : t'.byte ≡ t.byte
  pub directory : t'.directory ≡ t.directory

-- Setting an entry whose old name was free or the new one's.
set-matches :
    (t : Files) (i j : ℕ) (e : Entry) (g : List ℕ) (uy : ℕ)
    → j ≢ i
    → matches (set_entry i e t) g uy j ≡ matches t g uy j
set-matches t i j e g uy d = rw (ne→eqb j i d) refl

set-own :
    (t : Files) (i : ℕ) (e : Entry) (g : List ℕ) (uy : ℕ)
    → matches (set_entry i e t) g uy i ≡ (same g e.name && (e.type == uy))
set-own t i e g uy = rw (eq→eqb i i refl) refl

pub set-lookup :
    (t : Files) (i : ℕ) (e : Entry) (g : List ℕ) (uy : ℕ)
    → matches t g uy i ≡ false
    → (same g e.name && (e.type == uy)) ≡ false
    → lookup (set_entry i e t) g uy ≡ lookup t g uy
set-lookup t i e g uy a b =
    first-congr (matches (set_entry i e t) g uy) (matches t g uy) num_entries 0 λ j _ _.
      elim (ℕ_discrete j i) [
        | yes q ↦
            subst (λ j. matches (set_entry i e t) g uy j ≡ matches t g uy j) (sym q)
              (set-own t i e g uy ∙ b ∙ sym a)
        | no d ↦ set-matches t i j e g uy d
      ]

-- What it means to be free.
nil-free : (cs : List ℕ) → (buffer_len cs == 0) ≡ true → cs ≡ []
unfolding buffer_len
nil-free [] h = refl
nil-free (c ∷ cs) h = absurd (ground arith)

some-not_free : (cs : List ℕ) → (buffer_len cs == 0) ≡ false → cs ≢ []
unfolding buffer_len
some-not_free [] h e = absurd (ground arith)
some-not_free (c ∷ cs) h e = absurd (ground (arith, ap length e))

buffer_len-some : (cs : List ℕ) → cs ≢ [] → buffer_len cs ≢ 0
unfolding buffer_len
buffer_len-some [] h e = h refl
buffer_len-some (c ∷ cs) h e = omega arith

create_from-none :
    (n k : ℕ) (f : List ℕ) (ty : ℕ) (t : Files)
    → first (is_free t) n k ≡ none
    → create_from n k f ty t ≡ ok 255 t
unfolding create_from
create_from-none zero k f ty t e = refl
create_from-none (suc n) k f ty t e = elim (Bool-cases (is_free t k)) [
  | inl h ↦ absurd (ground arith)
  | inr h ↦ rw h (
      create_from-none n (k + 1) f ty t
        (ap (λ b. if b then some k else first (is_free t) n (k + 1)) (sym h) ∙ e))
]

create_from-some :
    (n k : ℕ) (f : List ℕ) (ty : ℕ) (t : Files) (i : ℕ)
    → first (is_free t) n k ≡ some i
    → create_from n k f ty t ≡ ok 0 (add_entry i f ty t)
unfolding create_from
create_from-some zero k f ty t i e = absurd (ground arith)
create_from-some (suc n) k f ty t i e = elim (Bool-cases (is_free t k)) [
  | inl h ↦
      let q : some k ≡ some i =
        ap (λ b. if b then some k else first (is_free t) n (k + 1)) (sym h) ∙ e in
      let here : k ≡ i = cc in rw h (ap (λ j. ok 0 (add_entry j f ty t)) here)
  | inr h ↦ rw h (
      create_from-some n (k + 1) f ty t i
        (ap (λ b. if b then some k else first (is_free t) n (k + 1)) (sym h) ∙ e))
]

take-all : (n : ℕ) (cs : List ℕ) → length cs ≤ n → take n cs ≡ cs
take-all zero [] h = refl
take-all zero (c ∷ cs) h = absurd (omega arith)
take-all (suc n) [] h = refl
take-all (suc n) (c ∷ cs) h = ap (◌∷◌ c) (take-all n cs (omega arith))

absolute-some : (f : List ℕ) → is_absolute f ≡ true → f ≢ []
absolute-some [] a e = absurd (ground arith)
absolute-some (c ∷ cs) a e = absurd (ground (arith, ap length e))

module _ (t : Files) (i : ℕ) (f : List ℕ) (ty : ℕ) (inv : IsFiles t) (free : (t.entry i).name ≡ [])
    (bound : i < num_entries) (u : IsText f) (a : is_absolute f ≡ true)
    (short : length f ≤ 255) where
  added_name : (new_entry f ty t).name ≡ f
  added_name = take-all 255 f short

  new_entry-found : lookup t f ty ≡ none → lookup (add_entry i f ty t) f ty ≡ some i
  new_entry-found e =
      first-set (matches t f ty) (matches (add_entry i f ty t) f ty) num_entries 0 i (omega arith)
        (omega arith)
        (set-own t i (new_entry f ty t) f ty
          ∙ ap (λ g. same f g && (ty == ty)) added_name
          ∙ ground (arith, same_refl f))
        (λ j d. set-matches t i j (new_entry f ty t) f ty d) e

  add_entry-SameOthers : SameOthers t f ty (add_entry i f ty t)
  add_entry-SameOthers = record {
    others = λ g uy used other.
        set-lookup t i (new_entry f ty t) g uy
          (ap (λ n. same g n && ((t.entry i).type == uy)) free
            ∙ ap (λ b. b && ((t.entry i).type == uy)) (ne→same g [] used))
          (ap (λ n. same g n && (ty == uy)) added_name ∙ ground (arith, other));
    byte = refl;
    directory = refl;
  }

  not_taken :
      (j : ℕ)
      → lookup t f ty ≡ none
      → j < num_entries
      → f ≡ (t.entry j).name
      → ty ≡ (t.entry j).type
      → ⊥
  not_taken j e b n y =
      let m = none-at (matches t f ty) num_entries 0 j e (omega arith) b in
      absurd
        (ground (arith, m, eq→eqb (t.entry j).type ty (sym y), ap (same f) (sym n) ∙ same_refl f))

  not_root : i ≢ 0
  not_root z =
      absurd
        (ground (arith, ap length (sym inv.root_name ∙ ap (λ k. (t.entry k).name) (sym z) ∙ free)))

  add_entry-IsFiles : lookup t f ty ≡ none → IsFiles (add_entry i f ty t)
  add_entry-IsFiles e =
      blocks-IsFiles (set_entry i (new_entry f ty t) t) (add_entry i f ty t).current_location t.byte
        (set-IsFiles t i (new_entry f ty t) inv not_root (take-IsText 255 f u)
          λ j b d used n y. not_taken j e b (sym added_name ∙ n) y)

-- What the results of a creation mean; `f` is the absolute name.
pub data Created (t : Files) (f : List ℕ) (ty : ℕ) : ℕ → Files → Type 0 where
  taken : {t' : Files} → lookup t f ty ≢ none → t' ≡ t → Created t f ty 1 t'
  no_directory :
      {t' : Files} → lookup t f ty ≡ none → LacksDirectory t f → t' ≡ t → Created t f ty 2 t'
  full :
      {t' : Files}
      → lookup t f ty ≡ none
      → HasDirectories t f
      → ((i : ℕ) → i < num_entries → (t.entry i).name ≢ [])
      → t' ≡ t
      → Created t f ty 255 t'
  made :
      {t' : Files} (i : ℕ)
      → lookup t f ty ≡ none
      → HasDirectories t f
      → (t.entry i).name ≡ []
      → lookup t' f ty ≡ some i
      → (t'.entry i).size ≡ 0
      → ((j : ℕ) → j ≢ i → t'.entry j ≡ t.entry j)
      → SameOthers t f ty t'
      → IsFiles t'
      → Created t f ty 0 t'

create_entry-Created :
    (t : Files) (f : List ℕ) (ty : ℕ)
    → IsFiles t
    → IsText f
    → is_absolute f ≡ true
    → f ≢ root
    → length f ≤ 255
    → length f < t.literals.checked_room
    → Returns (λ r t'. Created t f ty r t') (create_entry f ty t)
create_entry-Created t f ty inv u a d short room =
    let searched = sfs_exists_absolute t f ty a in
    elim (Option-cases (lookup t f ty)) [
      | inr (i, e) ↦
          let there : is_root t (search f ty t) ≡ false =
            is_root-lookup f ty t inv u ∙ ap (λ o. is_none o || same f root) e ∙ ne→same f root d in
          rw (searched, there) (returns (taken (λ z. absurd (ground (arith, sym e ∙ z))) refl))
      | inl e ↦
          let fresh : is_root t (search f ty t) ≡ true =
            is_root-lookup f ty t inv u ∙ ap (λ o. is_none o || same f root) e in
          elim (has_directories_path f t inv u a room) [
            | inr (lacks, h) ↦ rw (searched, fresh, h) (returns (no_directory e lacks refl))
            | inl (has, h) ↦ elim (Option-cases (first (is_free t) num_entries 0)) [
              | inl n ↦
                  rw (searched, fresh, h, create_from-none num_entries 0 f ty t n)
                    (returns (
                      full e has
                        (λ i b.
                          some-not_free (t.entry i).name
                            (none-at (is_free t) num_entries 0 i n (omega arith) b))
                        refl))
              | inr (i, n) ↦
                  let (m, b, _) = first-some (is_free t) num_entries 0 i n in
                  let free = nil-free (t.entry i).name m in
                  rw (searched, fresh, h, create_from-some num_entries 0 f ty t i n)
                    (returns (
                      made i e has free
                        (new_entry-found t i f ty inv free (omega arith) u a short e)
                        (rw (eq→eqb i i refl) refl) (λ j d. rw (ne→eqb j i d) refl)
                        (add_entry-SameOthers t i f ty inv free (omega arith) u a short)
                        (add_entry-IsFiles t i f ty inv free (omega arith) u a short e)))
            ]
          ]
    ]

pub sfs_create-Created :
    (t : Files) (name : List ℕ) (ty : ℕ)
    → IsFiles t
    → IsText name
    → name ≢ []
    → full_name t name ≢ root
    → length (full_name t name) ≤ 255
    → Fits t name
    → length (full_name t name) < t.literals.checked_room
    → Returns (λ r t'. Created t (full_name t name) ty r t') (sfs_create name ty t)
unfolding sfs_create
sfs_create-Created t name ty inv u some_name d short fit room =
    let not_root : compare name root == 0 ≡ false =
      compare-same name root u root-IsText
      ∙ ne→same name root (λ e. d (full_name-own t name (ap is_absolute e) ∙ e)) in
    let long : buffer_len name == 0 ≡ false =
      ne→eqb (buffer_len name) 0 (buffer_len-some name some_name) in
    rw (not_root, long, adjust_filename-full_name t name fit)
      (create_entry-Created t (full_name t name) ty inv (full_name-IsText t name inv u)
        (full_name_absolute t name inv) d short room)
