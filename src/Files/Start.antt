-- ===== src/Files/Start.antt =====
-- `_sfs_init` and the current directory, and the states that the operations lead to.
use systems_os.Prelude.{
  ℕ, suc, ◌≤◌, ◌<◌, ◌≡◌, ◌≢◌, refl, true, List, [], ◌∷◌, ◌==◌, arith, ltb, sym, ◌∙◌, inl, inr,
  Bool-cases, ℕ_discrete, ne→eqb, take,
}
use mathlib.Core.Path.{subst}
use systems_os.Machine.{ok, Returns, returns}
use systems_os.Text.{buffer_len, compare, compare_from}
use systems_os.Text.Laws.{IsText, take-IsText}
use systems_os.Files.{
  Files, set_entry, num_entries, directory_type, root, is_absolute, full_name, exists_from, is_root,
  sfs_exists, adjust_filename, sfs_create, set_directory, no_entry, cleared, sfs_init,
}
use systems_os.Files.Names.{
  Fits, search, sfs_exists-full_name, adjust_filename-full_name, IsFiles, root-IsText,
  full_name_absolute, full_name-IsText,
}

-- The table that `_sfs_init` leaves.
abbrev pub rooted : Files → Files
rooted t =
    record (set_entry 0 (record no_entry { name = root; type = directory_type }) (cleared t)) {
      directory = root;
    }

pub sfs_init-rooted : (t : Files) → sfs_init t ≡ ok tt (rooted t)
unfolding sfs_init sfs_create set_directory sfs_exists exists_from adjust_filename compare
    buffer_len compare_from
sfs_init-rooted t = refl

rooted-name : (t : Files) (i : ℕ) → i < num_entries → i ≢ 0 → ((rooted t).entry i).name ≡ []
rooted-name t i b d = let h : ltb i num_entries ≡ true = ground arith in rw (ne→eqb i 0 d, h) refl

rooted-text :
    (t : Files)
    → ((i : ℕ) → num_entries ≤ i → IsText (t.entry i).name)
    → (i : ℕ) → IsText ((rooted t).entry i).name
rooted-text t out i = elim (ℕ_discrete i 0) [
  | yes z ↦ subst (λ j. IsText ((rooted t).entry j).name) (sym z) root-IsText
  | no d ↦ elim (Bool-cases (ltb i num_entries)) [
    | inl b ↦ rw (ne→eqb i 0 d, b) tt
    | inr b ↦ rw (ne→eqb i 0 d, b) (out i (ground arith))
  ]
]

pub rooted-IsFiles :
    (t : Files) → ((i : ℕ) → num_entries ≤ i → IsText (t.entry i).name) → IsFiles (rooted t)
rooted-IsFiles t out = record {
  root_name = refl;
  root_type = refl;
  text = rooted-text t out;
  directory = root-IsText;
  absolute = refl;
  unique = λ i j a b n p q. elim (ℕ_discrete i 0) [
    | no d ↦ absurd (n (rooted-name t i a d))
    | yes z ↦ elim (ℕ_discrete j 0) [
      | no d ↦ absurd (n (p ∙ rooted-name t j b d))
      | yes y ↦ z ∙ sym y
    ]
  ];
}

take-absolute : (n : ℕ) (f : List ℕ) → is_absolute f ≡ true → is_absolute (take (suc n) f) ≡ true
take-absolute n [] a = a
take-absolute n (c ∷ cs) a = a

-- A change of the current directory.
pub set_directory-IsFiles :
    (t : Files) (name : List ℕ)
    → IsFiles t
    → IsText name
    → Fits t name
    → Returns (λ r t'. IsFiles t' × (t'.entry ≡ t.entry)) (set_directory name t)
unfolding set_directory
set_directory-IsFiles t name inv u fit =
    let searched = sfs_exists-full_name t name directory_type fit in
    let adjusted = adjust_filename-full_name t name fit in
    let moved : (d : List ℕ)
        → IsText d
        → is_absolute d ≡ true
        → IsFiles (record t { directory = d }) =
      λ d v a. record {
        root_name = inv.root_name;
        root_type = inv.root_type;
        text = inv.text;
        directory = v;
        absolute = a;
        unique = inv.unique;
      } in
    let full = full_name t name in
    elim (Bool-cases (compare name root == 0)) [
      | inl r ↦ rw r (returns (moved root root-IsText refl, refl))
      | inr r ↦ elim (Bool-cases (is_root t (search full directory_type t))) [
        | inl m ↦ rw (r, searched, m) (returns (inv, refl))
        | inr m ↦
            rw (r, searched, m, adjusted)
              (returns (
                moved (take 222 full) (take-IsText 222 full (full_name-IsText t name inv u))
                    (take-absolute 221 full (full_name_absolute t name inv)),
                refl,
              ))
      ]
    ]
