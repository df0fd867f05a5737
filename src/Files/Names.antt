-- ===== src/Files/Names.antt =====
-- The names of fileSystem.c: what an entry is found by, and what the table keeps.
use systems_os.Machine.{ok}
use systems_os.Prelude.{
  length, ltb, ◌⊎◌, ℕ, zero, suc, ◌+◌, ◌<◌, ◌≡◌, ◌≢◌, refl, Bool, true, false, ◌&&◌, ◌||◌, Option,
  none, some, List, [], ◌∷◌, ◌++◌, ◌==◌, arith, if◌then◌else◌, ap, ap₂, sym, ◌∙◌, inl, inr,
  Bool-cases, ℕ_discrete, eq→eqb, ne→eqb, Option-cases,
}
use mathlib.Core.Path.{subst}
use systems_os.Text.{compare}
use systems_os.Text.Laws.{IsText, append-IsText, same, same→eq, compare-same}
use systems_os.Files.{
  Entry, Files, set_entry, num_entries, directory_type, root, is_absolute, exists_from, sfs_exists,
  is_root, adjust_filename, full_name,
}
use systems_os.Files.First.{first, first-some}

-- The entry of a name and type.
abbrev pub matches : Files → List ℕ → ℕ → ℕ → Bool
matches t f ty i = same f (t.entry i).name && ((t.entry i).type == ty)

abbrev pub lookup : Files → List ℕ → ℕ → Option ℕ
lookup t f ty = first (matches t f ty) num_entries 0

-- What the table keeps: the root is the entry 0; names are text; the current directory is absolute;
-- no two entries in use have the same name and type.
pub record IsFiles (t : Files) : Type 0 where
  pub root_name : (t.entry 0).name ≡ root
  pub root_type : (t.entry 0).type ≡ directory_type
  pub text : (i : ℕ) → IsText (t.entry i).name
  pub directory : IsText t.directory
  pub absolute : is_absolute t.directory ≡ true
  pub unique :
      (i j : ℕ)
      → i < num_entries
      → j < num_entries
      → (t.entry i).name ≢ []
      → (t.entry i).name ≡ (t.entry j).name
      → (t.entry i).type ≡ (t.entry j).type
      → i ≡ j

pub root-IsText : IsText root
root-IsText = (omega arith, tt)

pub is_root-same : (t : Files) (i : ℕ) → IsFiles t → is_root t i ≡ same (t.entry i).name root
is_root-same t i inv = compare-same (t.entry i).name root (inv.text i) root-IsText

-- An absolute name is left as it is, and every name becomes absolute.
pub full_name-own : (t : Files) (f : List ℕ) → is_absolute f ≡ true → full_name t f ≡ f
unfolding full_name
full_name-own t f a = rw a refl

append_absolute : (f g : List ℕ) → is_absolute f ≡ true → is_absolute (f ++ g) ≡ true
append_absolute [] g a = absurd (ground arith)
append_absolute (c ∷ cs) g a = a

pub full_name_absolute : (t : Files) (f : List ℕ) → IsFiles t → is_absolute (full_name t f) ≡ true
unfolding full_name
full_name_absolute t f inv = elim (Bool-cases (is_absolute f)) [
  | inl a ↦ rw a a
  | inr a ↦ rw a (
      append_absolute t.directory ((if compare t.directory root == 0 then [] else root) ++ f)
        inv.absolute)
]

separator-IsText : (b : Bool) → IsText (if b then [] else root)
separator-IsText true = tt
separator-IsText false = root-IsText

pub full_name-IsText : (t : Files) (f : List ℕ) → IsFiles t → IsText f → IsText (full_name t f)
unfolding full_name
full_name-IsText t f inv u = elim (Bool-cases (is_absolute f)) [
  | inl a ↦ rw a u
  | inr a ↦ rw a (
      append-IsText t.directory ((if compare t.directory root == 0 then [] else root) ++ f)
        inv.directory
        (append-IsText (if compare t.directory root == 0 then [] else root) f
          (separator-IsText (compare t.directory root == 0)) u))
]

-- The search is the lookup, with the root where nothing is found.
abbrev pub or_root : Option ℕ → ℕ
or_root none = 0
or_root (some i) = i

or_root-if :
    (b : Bool) (k : ℕ) (o : Option ℕ)
    → or_root (if b then some k else o) ≡ (if b then k else or_root o)
or_root-if true k o = refl
or_root-if false k o = refl

exists_from-first :
    (n k : ℕ) (f : List ℕ) (ty : ℕ) (t : Files)
    → IsFiles t
    → IsText f
    → exists_from n k f ty t ≡ or_root (first (matches t f ty) n k)
unfolding exists_from
exists_from-first zero k f ty t inv u = refl
exists_from-first (suc n) k f ty t inv u =
    ap₂ (λ a r. if a && ((t.entry k).type == ty) then k else r)
      (compare-same f (t.entry k).name u (inv.text k)) (exists_from-first n (k + 1) f ty t inv u)
    ∙ sym (or_root-if (matches t f ty k) k (first (matches t f ty) n (k + 1)))

-- The number that the loop over the entries finds.
abbrev pub search : List ℕ → ℕ → Files → ℕ
search f ty t = exists_from num_entries 0 f ty t

pub search-lookup :
    (f : List ℕ) (ty : ℕ) (t : Files)
    → IsFiles t
    → IsText f
    → search f ty t ≡ or_root (lookup t f ty)
search-lookup f ty t inv u = exists_from-first num_entries 0 f ty t inv u

-- A name that is absolute, or whose full name fits in its room, is made absolute without a fault.
abbrev pub Fits : Files → List ℕ → Type 0
Fits t f = (is_absolute f ≡ true) ⊎ (length (full_name t f) < t.literals.adjusted_room)

pub adjust_filename_absolute :
    (t : Files) (f : List ℕ) → is_absolute f ≡ true → adjust_filename f t ≡ ok f t
unfolding adjust_filename
adjust_filename_absolute t f a = rw a refl

adjust_filename_room :
    (t : Files) (f : List ℕ)
    → is_absolute f ≡ false
    → length (full_name t f) < t.literals.adjusted_room
    → adjust_filename f t ≡ ok (full_name t f) t
unfolding adjust_filename
adjust_filename_room t f a b =
    let room : ltb (length (full_name t f)) t.literals.adjusted_room ≡ true = ground arith in
    rw (a, room) refl

pub adjust_filename-full_name :
    (t : Files) (f : List ℕ) → Fits t f → adjust_filename f t ≡ ok (full_name t f) t
adjust_filename-full_name t f (inl a) =
    adjust_filename_absolute t f a ∙ ap (λ g. ok g t) (sym (full_name-own t f a))
adjust_filename-full_name t f (inr b) = elim (Bool-cases (is_absolute f)) [
  | inl a ↦ adjust_filename_absolute t f a ∙ ap (λ g. ok g t) (sym (full_name-own t f a))
  | inr a ↦ adjust_filename_room t f a b
]

pub sfs_exists_absolute :
    (t : Files) (f : List ℕ) (ty : ℕ)
    → is_absolute f ≡ true
    → sfs_exists f ty t ≡ ok (search f ty t) t
unfolding sfs_exists
sfs_exists_absolute t f ty a = rw (adjust_filename_absolute t f a) refl

pub sfs_exists-full_name :
    (t : Files) (f : List ℕ) (ty : ℕ)
    → Fits t f
    → sfs_exists f ty t ≡ ok (search (full_name t f) ty t) t
unfolding sfs_exists
sfs_exists-full_name t f ty b = rw (adjust_filename-full_name t f b) refl

-- The root is what is found for a name that has no entry, or is the root's.
abbrev pub is_none : Option ℕ → Bool
is_none none = true
is_none (some i) = false

pub is_root-lookup :
    (f : List ℕ) (ty : ℕ) (t : Files)
    → IsFiles t
    → IsText f
    → is_root t (search f ty t) ≡ (is_none (lookup t f ty) || same f root)
is_root-lookup f ty t inv u =
    ap (is_root t) (search-lookup f ty t inv u) ∙ elim (Option-cases (lookup t f ty)) [
      | inl e ↦ rw e (is_root-same t 0 inv ∙ ap (λ g. same g root) inv.root_name)
      | inr (i, e) ↦
          let m = (first-some (matches t f ty) num_entries 0 i e).0 in
          let name : f ≡ (t.entry i).name = same→eq f (t.entry i).name (ground (arith, m)) in
          rw e (is_root-same t i inv ∙ ap (λ g. same g root) (sym name))
    ]

-- The names do not depend on the blocks.
pub blocks-IsFiles :
    (t : Files) (l : ℕ) (b : ℕ → ℕ)
    → IsFiles t
    → IsFiles (record t { current_location = l; byte = b })
blocks-IsFiles t l b inv = record {
  root_name = inv.root_name;
  root_type = inv.root_type;
  text = inv.text;
  directory = inv.directory;
  absolute = inv.absolute;
  unique = inv.unique;
}

-- Another entry in the place of one that is not the root, if no third one has its name and type.
module _ (t : Files) (i : ℕ) (e : Entry) (inv : IsFiles t) (other : i ≢ 0) (u : IsText e.name)
    (fresh : (j : ℕ)
      → j < num_entries
      → j ≢ i
      → e.name ≢ []
      → e.name ≡ (t.entry j).name
      → e.type ≡ (t.entry j).type
      → ⊥) where
  pub set_own : (set_entry i e t).entry i ≡ e
  set_own = rw (eq→eqb i i refl) refl

  pub set_other : (j : ℕ) → j ≢ i → (set_entry i e t).entry j ≡ t.entry j
  set_other j d = rw (ne→eqb j i d) refl

  set-text : (j : ℕ) → IsText ((set_entry i e t).entry j).name
  set-text j = elim (ℕ_discrete j i) [
    | yes q ↦ subst (λ x. IsText x.name) (sym (ap (set_entry i e t).entry q ∙ set_own)) u
    | no d ↦ subst (λ x. IsText x.name) (sym (set_other j d)) (inv.text j)
  ]

  set_unique :
      (j k : ℕ)
      → j < num_entries
      → k < num_entries
      → ((set_entry i e t).entry j).name ≢ []
      → ((set_entry i e t).entry j).name ≡ ((set_entry i e t).entry k).name
      → ((set_entry i e t).entry j).type ≡ ((set_entry i e t).entry k).type
      → j ≡ k
  set_unique j k a b n p q = elim (ℕ_discrete j i) [
    | yes x ↦ elim (ℕ_discrete k i) [
      | yes y ↦ omega (arith, x, y)
      | no y ↦
          let ej : (set_entry i e t).entry j ≡ e = ap (set_entry i e t).entry x ∙ set_own in
          let ek = set_other k y in
          absurd (
            fresh k b y (λ z. n (ap (λ h. h.name) ej ∙ z))
              (ap (λ h. h.name) (sym ej) ∙ p ∙ ap (λ h. h.name) ek)
              (ap (λ h. h.type) (sym ej) ∙ q ∙ ap (λ h. h.type) ek))
    ]
    | no x ↦
        let ej = set_other j x in
        elim (ℕ_discrete k i) [
          | yes y ↦
              let ek : (set_entry i e t).entry k ≡ e = ap (set_entry i e t).entry y ∙ set_own in
              absurd (
                fresh j a x (λ z. n (p ∙ ap (λ h. h.name) ek ∙ z))
                  (ap (λ h. h.name) (sym ek) ∙ sym p ∙ ap (λ h. h.name) ej)
                  (ap (λ h. h.type) (sym ek) ∙ sym q ∙ ap (λ h. h.type) ej))
          | no y ↦
              let ek = set_other k y in
              inv.unique j k a b (λ z. n (ap (λ h. h.name) ej ∙ z))
                (ap (λ h. h.name) (sym ej) ∙ p ∙ ap (λ h. h.name) ek)
                (ap (λ h. h.type) (sym ej) ∙ q ∙ ap (λ h. h.type) ek)
        ]
  ]

  pub set-IsFiles : IsFiles (set_entry i e t)
  set-IsFiles = record {
    root_name = ap (λ h. h.name) (set_other 0 (λ z. other (sym z))) ∙ inv.root_name;
    root_type = ap (λ h. h.type) (set_other 0 (λ z. other (sym z))) ∙ inv.root_type;
    text = set-text;
    directory = inv.directory;
    absolute = inv.absolute;
    unique = set_unique;
  }
