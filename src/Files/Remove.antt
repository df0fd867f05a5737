-- ===== src/Files/Remove.antt =====
-- `_sfs_delete`: its results, and what is left of an entry.
use systems_os.Prelude.{
  append-nil, ap₂, true, ℕ, ◌*◌, ◌<◌, ◌≡◌, ◌≢◌, refl, Bool, true, false, not, ◌||◌, Option, none,
  some, List, [], ◌∷◌, ◌++◌, ◌==◌, arith, if◌then◌else◌, ap, sym, ◌∙◌, inl, inr, eq→eqb, length,
  Option-cases,
}
use mathlib.Core.Path.{subst}
use systems_os.Machine.{and_then, ok, Returns, returns, mono}
use systems_os.Text.{buffer_len}
use systems_os.Text.Laws.{IsText, ne→same}
use systems_os.Files.{
  Files, num_entries, data_block_size, directory_type, file_type, root, is_absolute, full_name,
  sfs_exists, is_root,
}
use systems_os.Files.Names.{
  Fits, search, sfs_exists_absolute, adjust_filename-full_name, lookup, IsFiles, is_none,
  is_root-lookup, search-lookup, or_root, full_name_absolute, full_name-IsText,
}
use systems_os.Files.Create.{SameOthers}
use systems_os.Files.Content.{
  starts_with, is_inside, is_used, remove_entry, delete_entry, sfs_delete,
}
use systems_os.Files.Unlink.{
  walk_blocks-one, is_used-cases, found_name, found_type, remove_entry-none,
  remove_entry-SameOthers, remove_entry-IsFiles,
}

-- A name that goes on behind the directory's, with a separator or without one.
starts_with-append : (f cs : List ℕ) → starts_with f (f ++ cs) ≡ true
starts_with-append [] cs = refl
starts_with-append (c ∷ f) cs = rw (eq→eqb c c refl) (starts_with-append f cs)

buffer_len-append : (f cs : List ℕ) → cs ≢ [] → buffer_len f < buffer_len (f ++ cs)
unfolding buffer_len
buffer_len-append [] [] n = absurd (n refl)
buffer_len-append [] (c ∷ cs) n = omega arith
buffer_len-append (c ∷ f) cs n = omega (arith, buffer_len-append f cs n)

is_inside-append : (f cs : List ℕ) → cs ≢ [] → is_inside f (f ++ cs) ≡ true
is_inside-append f cs n = ground (arith, starts_with-append f cs, buffer_len-append f cs n)

starts_with_split : (f g : List ℕ) → starts_with f g ≡ true → (cs : List ℕ) × (g ≡ f ++ cs)
starts_with_split [] g h = (g, refl)
starts_with_split (c ∷ f) [] h = absurd (ground arith)
starts_with_split (c ∷ f) (d ∷ g) h =
    let (cs, e) = starts_with_split f g (ground arith) in
    let first : c ≡ d = ground arith in (cs, ap₂ (λ x l. x ∷ l) (sym first) e)

is_inside_split : (f g : List ℕ) → is_inside f g ≡ true → (cs : List ℕ) × (cs ≢ []) × (g ≡ f ++ cs)
is_inside_split f g h =
    let longer : buffer_len f < buffer_len g = ground arith in
    let begins : starts_with f g ≡ true = ground arith in
    let (cs, e) = starts_with_split f g begins in
    (
      cs,
      (λ n. absurd (omega (arith, longer, ap buffer_len (e ∙ ap (λ x. f ++ x) n ∙ append-nil f)))),
      e,
    )

outside : (f g cs : List ℕ) → is_inside f g ≡ false → cs ≢ [] → g ≢ f ++ cs
outside f g cs h n e = absurd (ground (arith, h, ap (is_inside f) e ∙ is_inside-append f cs n))

-- What the results of a deletion mean; `f` is the absolute name.
pub data Deleted (t : Files) (f : List ℕ) : ℕ → Files → Type 0 where
  absent :
      {t' : Files}
      → lookup t f file_type ≡ none
      → lookup t f directory_type ≡ none
      → t' ≡ t
      → Deleted t f 1 t'
  occupied :
      {t' : Files} (j : ℕ) (cs : List ℕ)
      → lookup t f file_type ≡ none
      → lookup t f directory_type ≢ none
      → j < num_entries
      → cs ≢ []
      → (t.entry j).name ≡ f ++ cs
      → t' ≡ t
      → Deleted t f 2 t'
  file_removed :
      {t' : Files}
      → lookup t f file_type ≢ none
      → lookup t' f file_type ≡ none
      → SameOthers t f file_type t'
      → IsFiles t'
      → Deleted t f 0 t'
  directory_removed :
      {t' : Files}
      → lookup t f file_type ≡ none
      → lookup t f directory_type ≢ none
      → ((j : ℕ) (cs : List ℕ) → j < num_entries → cs ≢ [] → (t.entry j).name ≢ f ++ cs)
      → lookup t' f directory_type ≡ none
      → SameOthers t f directory_type t'
      → IsFiles t'
      → Deleted t f 0 t'

some-not_none : {o : Option ℕ} {i : ℕ} → o ≡ some i → o ≢ none
some-not_none e z = absurd (ground (arith, sym e ∙ z))

file_removal :
    (t : Files) (i : ℕ) (f : List ℕ)
    → IsFiles t
    → lookup t f file_type ≡ some i
    → f ≢ root
    → f ≢ []
    → t.byte (data_block_size * (t.entry i).payload) ≡ 0
    → Returns (λ r t'. Deleted t f r t') (delete_entry i t)
file_removal t i f inv e d n z =
    rw (found_type t i f file_type inv e d n, walk_blocks-one 256 (t.entry i).payload t z)
      (returns (
        file_removed (some-not_none e) (remove_entry-none t i f file_type inv e d n)
          (remove_entry-SameOthers t i f file_type inv e d n)
          (remove_entry-IsFiles t i f file_type inv e d n)))

type_test : (a : ℕ) → (a == 1) ≡ true → (a == 2) ≡ false
type_test a h = ground arith

directory_removal :
    (t : Files) (i : ℕ) (f : List ℕ)
    → IsFiles t
    → lookup t f file_type ≡ none
    → lookup t f directory_type ≡ some i
    → f ≢ root
    → f ≢ []
    → Returns (λ r t'. Deleted t f r t') (delete_entry i t)
directory_removal t i f inv e e' d n =
    let ty = found_type t i f directory_type inv e' d n in
    let name = found_name t i f directory_type inv e' d n in
    rw (type_test (t.entry i).type ty, ty)
      (subst
        (λ g.
          Returns (λ r t'. Deleted t f r t')
            (if is_used num_entries 0 g t then ok 2 t else ok 0 (remove_entry i t)))
        name
        (elim (is_used-cases num_entries 0 f t) [
          | inl (j, b, m, u) ↦
              let (cs, n', split) = is_inside_split f (t.entry j).name m in
              rw u (returns (occupied j cs e (some-not_none e') (omega arith) n' split refl))
          | inr (m, u) ↦ rw u (
              returns (
                directory_removed e (some-not_none e')
                  (λ j cs b n'. outside f (t.entry j).name cs (m j (omega arith) (omega arith)) n')
                  (remove_entry-none t i f directory_type inv e' d n)
                  (remove_entry-SameOthers t i f directory_type inv e' d n)
                  (remove_entry-IsFiles t i f directory_type inv e' d n)))
        ]))

absolute-some : (f : List ℕ) → is_absolute f ≡ true → f ≢ []
absolute-some [] a e = absurd (ground arith)
absolute-some (c ∷ cs) a e = absurd (ground (arith, ap length e))

exists-some :
    (t : Files) (f : List ℕ) (ty i : ℕ)
    → IsFiles t
    → IsText f
    → lookup t f ty ≡ some i
    → search f ty t ≡ i
exists-some t f ty i inv u e = search-lookup f ty t inv u ∙ ap or_root e

or_false : (b : Bool) → (b || false) ≡ b
or_false true = refl
or_false false = refl

delete_named :
    (t : Files) (f : List ℕ)
    → IsFiles t
    → IsText f
    → is_absolute f ≡ true
    → f ≢ root
    → ((i : ℕ) → t.byte (data_block_size * (t.entry i).payload) ≡ 0)
    → Returns
        (λ r t'. Deleted t f r t')
        (and_then (sfs_exists f file_type t) λ file t1.
          if not (is_root t1 file)
          then delete_entry file t1
          else (and_then
              (sfs_exists f directory_type t1)
              λ dir t2. if not (is_root t2 dir) then delete_entry dir t2 else ok 1 t2))
delete_named t f inv u a d blocks =
    let n = absolute-some f a in
    let found : (ty : ℕ) → sfs_exists f ty t ≡ ok (search f ty t) t =
      λ ty. sfs_exists_absolute t f ty a in
    let test : (ty : ℕ) → is_root t (search f ty t) ≡ is_none (lookup t f ty) = λ ty.
      is_root-lookup f ty t inv u
      ∙ ap (λ b. is_none (lookup t f ty) || b) (ne→same f root d)
      ∙ or_false (is_none (lookup t f ty)) in
    elim (Option-cases (lookup t f file_type)) [
      | inr (i, e) ↦
          rw (found file_type, test file_type ∙ ap is_none e, exists-some t f file_type i inv u e)
            (file_removal t i f inv e d n (blocks i))
      | inl e ↦ elim (Option-cases (lookup t f directory_type)) [
        | inr (i, e') ↦
            rw
              (
                found file_type,
                test file_type ∙ ap is_none e,
                found directory_type,
                test directory_type ∙ ap is_none e',
                exists-some t f directory_type i inv u e',
              )
              (directory_removal t i f inv e e' d n)
        | inl e' ↦
            rw
              (
                found file_type,
                test file_type ∙ ap is_none e,
                found directory_type,
                test directory_type ∙ ap is_none e',
              )
              (returns (absent e e' refl))
      ]
    ]

-- From the invariant, for a name of text whose full name is not the root, and that is absolute
-- or has a full name that fits in the room at its literal, while the first block of each entry
-- is its last, `_sfs_delete` returns: 1 with an unchanged table if there is neither a file nor a
-- directory of the name; 0 if there is a file, which is then not found any more; and of a
-- directory alone, 2 with an unchanged table if the name of some entry is its name with anything
-- behind it, or else 0, when there is none such, and it is not found any more. After 0 all other
-- names, the blocks and the directory are as before, and the invariant holds.
pub sfs_delete-Deleted :
    (t : Files) (name : List ℕ)
    → IsFiles t
    → IsText name
    → full_name t name ≢ root
    → Fits t name
    → ((i : ℕ) → t.byte (data_block_size * (t.entry i).payload) ≡ 0)
    → Returns (λ r t'. Deleted t (full_name t name) r t') (sfs_delete name t)
unfolding sfs_delete
sfs_delete-Deleted t name inv u d fit blocks = rw (adjust_filename-full_name t name fit) (
    delete_named t (full_name t name) inv (full_name-IsText t name inv u)
      (full_name_absolute t name inv) d blocks)

refused :
    (t : Files) (f : List ℕ) (j r : ℕ) (t' : Files)
    → lookup t f file_type ≡ none
    → lookup t f directory_type ≢ none
    → j < num_entries
    → (cs : List ℕ) → cs ≢ []
    → (t.entry j).name ≡ f ++ cs
    → Deleted t f r t'
    → (r ≡ 2) × (t' ≡ t)
refused t f j r t' no_file dir b cs n m (absent _ e _) = absurd (dir e)
refused t f j r t' no_file dir b cs n m (occupied _ _ _ _ _ _ _ e) = (refl, e)
refused t f j r t' no_file dir b cs n m (file_removed x _ _ _) = absurd (x no_file)
refused t f j r t' no_file dir b cs n m (directory_removed _ _ x _ _ _) = absurd (x j cs b n m)

-- From the invariant, while the first block of each entry is its last, the deletion of a
-- directory of a name of text that is not the root's, that no file has, and that is absolute or
-- has a full name that fits in the room at its literal, returns 2 with an unchanged table as
-- soon as the name of some entry is the directory's with anything behind it, be it a separator
-- or not.
pub sfs_delete-occupied :
    (t : Files) (name cs : List ℕ) (j : ℕ)
    → IsFiles t
    → IsText name
    → full_name t name ≢ root
    → Fits t name
    → ((i : ℕ) → t.byte (data_block_size * (t.entry i).payload) ≡ 0)
    → lookup t (full_name t name) file_type ≡ none
    → lookup t (full_name t name) directory_type ≢ none
    → j < num_entries
    → cs ≢ []
    → (t.entry j).name ≡ full_name t name ++ cs
    → Returns (λ r t'. (r ≡ 2) × (t' ≡ t)) (sfs_delete name t)
sfs_delete-occupied t name cs j inv u d fit blocks no_file dir b n e =
    mono (sfs_delete-Deleted t name inv u d fit blocks)
      λ r t' del. refused t (full_name t name) j r t' no_file dir b cs n e del
