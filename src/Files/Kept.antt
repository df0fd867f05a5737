-- ===== src/Files/Kept.antt =====
-- Tables with the same names, types and current directory: a file is found in the one as in the other.
use systems_os.Prelude.{
  arith, inl, inr, length, ℕ, ◌≡◌, ◌≢◌, true, false, ◌&&◌, ◌||◌, none, some, List, [], ◌++◌, ◌==◌,
  ap, ap₂, sym, ◌∙◌, if◌then◌else◌,
}
use mathlib.Core.Path.{subst}
use systems_os.Text.{compare}
use systems_os.Text.Laws.{IsText, same, ne→same}
use systems_os.Files.{Files, num_entries, root, is_absolute, full_name, is_root}
use systems_os.Files.Names.{
  Fits, search, matches, lookup, IsFiles, or_root, is_none, is_root-lookup, search-lookup,
  full_name_absolute, full_name-IsText,
}
use systems_os.Files.First.{first-congr}

pub record SameNames (t t' : Files) : Type 0 where
  pub name : (j : ℕ) → (t'.entry j).name ≡ (t.entry j).name
  pub type : (j : ℕ) → (t'.entry j).type ≡ (t.entry j).type
  pub directory : t'.directory ≡ t.directory
  pub literals : t'.literals ≡ t.literals

pub SameNames-IsFiles : (t t' : Files) → SameNames t t' → IsFiles t → IsFiles t'
SameNames-IsFiles t t' k inv = record {
  root_name = k.name 0 ∙ inv.root_name;
  root_type = k.type 0 ∙ inv.root_type;
  text = λ i. subst IsText (sym (k.name i)) (inv.text i);
  directory = subst IsText (sym k.directory) inv.directory;
  absolute = ap is_absolute k.directory ∙ inv.absolute;
  unique = λ i j a b n p q.
      inv.unique i j a b (λ z. n (k.name i ∙ z)) (sym (k.name i) ∙ p ∙ k.name j)
        (sym (k.type i) ∙ q ∙ k.type j);
}

pub SameNames-lookup :
    (t t' : Files) (f : List ℕ) (ty : ℕ) → SameNames t t' → lookup t' f ty ≡ lookup t f ty
SameNames-lookup t t' f ty k =
    first-congr (matches t' f ty) (matches t f ty) num_entries 0
      λ j _ _. ap₂ (λ n y. same f n && (y == ty)) (k.name j) (k.type j)

pub SameNames-full_name :
    (t t' : Files) (f : List ℕ) → SameNames t t' → full_name t' f ≡ full_name t f
unfolding full_name
SameNames-full_name t t' f k =
    ap (λ d. if is_absolute f then f else d ++ ((if compare d root == 0 then [] else root) ++ f))
      k.directory

pub SameNames-Fits : (t t' : Files) (f : List ℕ) → SameNames t t' → Fits t f → Fits t' f
SameNames-Fits t t' f k (inl a) = inl a
SameNames-Fits t t' f k (inr b) = inr (
    omega
      (arith, b, ap length (SameNames-full_name t t' f k), ap (λ l. l.adjusted_room) k.literals))

-- What a search for the file of a name finds: a file is not the root.
module _ (t : Files) (name : List ℕ) (ty : ℕ) (inv : IsFiles t) (u : IsText name) where
  abbrev full : List ℕ
  full = full_name t name

  full-IsText : IsText full
  full-IsText = full_name-IsText t name inv u

  pub full-absolute : is_absolute (full_name t name) ≡ true
  full-absolute = full_name_absolute t name inv

  pub search-found :
      (i : ℕ) → lookup t (full_name t name) ty ≡ some i → search (full_name t name) ty t ≡ i
  search-found i e = search-lookup full ty t inv full-IsText ∙ ap or_root e

  pub search-there :
      (i : ℕ)
      → lookup t (full_name t name) ty ≡ some i
      → full_name t name ≢ root
      → is_root t i ≡ false
  search-there i e d =
      ap (is_root t) (sym (search-found i e))
      ∙ is_root-lookup full ty t inv full-IsText
      ∙ ap₂ (λ o b. is_none o || b) e (ne→same full root d)

  pub search-missing :
      lookup t (full_name t name) ty ≡ none → is_root t (search (full_name t name) ty t) ≡ true
  search-missing e =
      is_root-lookup full ty t inv full-IsText ∙ ap (λ o. is_none o || same full root) e
