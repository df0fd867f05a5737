-- ===== src/Files/Content/Transfer.antt =====
-- `_sfs_write` and `_sfs_read`: a call returns, what it keeps, and what is read back.
use systems_os.Prelude.{
  ℕ, suc, ◌+◌, ◌*◌, ◌%◌, ◌^◌, ◌≤◌, ◌<◌, ◌≡◌, ◌≢◌, refl, none, some, List, [], ◌∷◌, ◌++◌, ◌==◌,
  arith, ap, ap₂, sym, ◌∙◌, inl, inr, if◌then◌else◌, ℕ_discrete, eq→eqb, ne→eqb, ◌⊎◌, Option-cases,
  seq, seq-congr,
}
use mathlib.Core.Path.{subst}
use systems_os.Machine.{ok, Returns, returns, bind, and_then}
use systems_os.Text.Laws.{IsText}
use systems_os.Files.{
  Files, data_block_size, file_type, root, full_name, adjust_filename, sfs_exists,
}
use systems_os.Files.Names.{
  Fits, search, sfs_exists_absolute, adjust_filename-full_name, full_name_absolute, lookup, IsFiles,
}
use systems_os.Files.Kept.{
  SameNames, SameNames-IsFiles, SameNames-lookup, SameNames-full_name, SameNames-Fits, search-found,
  search-there, search-missing,
}
use systems_os.Files.Content.{
  read_size, data_at, read_blocks, or_blank, sfs_read, copy_bytes, resized, sfs_write,
}
use systems_os.Files.Content.Copy.{
  SameTable, copy_bytes-SameTable, copy_bytes-other, copy_bytes-here, write_blocks-SameTable,
  write_blocks-one,
}

-- A new size leaves the names alone.
resized-at :
    (i size append : ℕ) (t : Files)
    → (resized i size append t).entry i ≡ (record (t.entry i) {
      size = if append == 0 then size else ((t.entry i).size + size) % 2 ^ 16;
    })
resized-at i size append t = rw (eq→eqb i i refl) refl

resized-other :
    (i size append : ℕ) (t : Files) (j : ℕ) → j ≢ i → (resized i size append t).entry j ≡ t.entry j
resized-other i size append t j d = rw (ne→eqb j i d) refl

resized-SameNames : (i size append : ℕ) (t : Files) → SameNames t (resized i size append t)
resized-SameNames i size append t = record {
  name = λ j. elim (ℕ_discrete j i) [
    | yes q ↦
        subst (λ j. ((resized i size append t).entry j).name ≡ (t.entry j).name) (sym q)
          (ap (λ e. e.name) (resized-at i size append t))
    | no d ↦ ap (λ e. e.name) (resized-other i size append t j d)
  ];
  type = λ j. elim (ℕ_discrete j i) [
    | yes q ↦
        subst (λ j. ((resized i size append t).entry j).type ≡ (t.entry j).type) (sym q)
          (ap (λ e. e.type) (resized-at i size append t))
    | no d ↦ ap (λ e. e.type) (resized-other i size append t j d)
  ];
  directory = refl;
  literals = refl;
}

with-SameTable : (t t' t'' : Files) → SameNames t t' → SameTable t' t'' → SameNames t t''
with-SameTable t t' t'' k s = record {
  name = λ j. ap (λ g. (g j).name) s.entry ∙ k.name j;
  type = λ j. ap (λ g. (g j).type) s.entry ∙ k.type j;
  directory = s.directory ∙ k.directory;
  literals = s.literals ∙ k.literals;
}

-- The search for the file of a name that fits.
adjusted :
    (t : Files) (name : List ℕ)
    → IsFiles t
    → Fits t name
    → adjust_filename name t ≡ ok (full_name t name) t
adjusted t name inv fit = adjust_filename-full_name t name fit

searched :
    (t : Files) (name : List ℕ)
    → IsFiles t
    → sfs_exists (full_name t name) file_type t ≡ ok (search (full_name t name) file_type t) t
searched t name inv =
    sfs_exists_absolute t (full_name t name) file_type (full_name_absolute t name inv)

-- What a call of `_sfs_write` does to the table of entries.
pub data Written (t : Files) (f : List ℕ) (size append : ℕ) : ℕ → Files → Type 0 where
  missing : {t' : Files} → lookup t f file_type ≡ none → t' ≡ t → Written t f size append 1 t'
  written :
      {t' : Files} (i : ℕ)
      → lookup t f file_type ≡ some i
      → t'.entry ≡ (resized i size append t).entry
      → SameNames t t'
      → IsFiles t'
      → Written t f size append 0 t'

-- From the invariant, for a name of text whose full name is not the root, and that is absolute
-- or has a full name that fits in the room at its literal, and any size below 2^16, whether it
-- appends or not, `_sfs_write` returns: 1 with an unchanged table if there is no file of the
-- name, and otherwise 0, when of the entries only the size of the file's has changed, to the new
-- size or to the sum modulo 2^16, all names are as before, and the invariant holds.
pub sfs_write-Written :
    (t : Files) (name : List ℕ) (size : ℕ) (buffer : ℕ → ℕ) (append : ℕ)
    → IsFiles t
    → IsText name
    → full_name t name ≢ root
    → Fits t name
    → size < 2 ^ 16
    → Returns
        (λ r t'. Written t (full_name t name) size append r t')
        (sfs_write name size buffer append t)
unfolding sfs_write
sfs_write-Written t name size buffer append inv u d fit w =
    elim (Option-cases (lookup t (full_name t name) file_type)) [
      | inl e ↦
          rw (adjusted t name inv fit, searched t name inv, search-missing t name file_type inv u e)
            (returns (missing e refl))
      | inr (i, e) ↦
          rw
            (
              adjusted t name inv fit,
              searched t name inv,
              search-found t name file_type inv u i e,
              search-there t name file_type inv u i e d,
            )
            (bind
              (write_blocks-SameTable (t.entry i).payload size
                (if append == 0 then 1 else (t.entry i).size) buffer (resized i size append t) w)
              λ _ t' s.
                let k =
                  with-SameTable t (resized i size append t) t' (resized-SameNames i size append t)
                    s in
                returns (written i e s.entry k (SameNames-IsFiles t t' k inv)))
    ]

-- Reading what one block holds.
read_blocks-one :
    (fuel b total : ℕ) (t : Files)
    → t.byte (data_block_size * b) ≡ 0
    → total ≤ 511
    → read_blocks (suc fuel) b total t ≡ ok (seq (data_at t b) total) t
unfolding read_blocks
read_blocks-one fuel b total t z m =
    let n : read_size total ≡ total = ground arith in rw z (ap (λ x. ok (seq (data_at t b) x) t) n)

pub sfs_read-one :
    (t : Files) (name : List ℕ) (i : ℕ)
    → IsFiles t
    → IsText name
    → full_name t name ≢ root
    → Fits t name
    → lookup t (full_name t name) file_type ≡ some i
    → t.byte (data_block_size * (t.entry i).payload) ≡ 0
    → (t.entry i).size ≤ 511
    → sfs_read name t
      ≡ ok (or_blank (seq (data_at t (t.entry i).payload) (t.entry i).size) ++ (0 ∷ [])) t
unfolding sfs_read
sfs_read-one t name i inv u d fit e z m =
    rw
      (
        adjusted t name inv fit,
        searched t name inv,
        search-found t name file_type inv u i e,
        search-there t name file_type inv u i e d,
        read_blocks-one 256 (t.entry i).payload (t.entry i).size t z m,
      )
      refl

-- A write that fits in the block behind the spot.
module _ (t : Files) (name : List ℕ) (i size append : ℕ) (buffer : ℕ → ℕ) (inv : IsFiles t)
    (u : IsText name) (d : full_name t name ≢ root) (fit : Fits t name)
    (e : lookup t (full_name t name) file_type ≡ some i) where
  abbrev after : ℕ → Files
  after spot =
      copy_bytes size (data_block_size * (t.entry i).payload + spot) 0 buffer
        (resized i size append t)

  sfs_write-one :
      (spot : ℕ)
      → (if append == 0 then 1 else (t.entry i).size) ≡ spot
      → size + spot ≤ 512
      → sfs_write name size buffer append t ≡ ok 0 (after spot)
  unfolding sfs_write
  sfs_write-one spot s m =
      rw
        (
          adjusted t name inv fit,
          searched t name inv,
          search-found t name file_type inv u i e,
          search-there t name file_type inv u i e d,
          s,
          write_blocks-one (t.entry i).payload size spot buffer (resized i size append t) m,
        )
        refl

  kept : (spot : ℕ) → SameTable (resized i size append t) (after spot)
  kept spot =
      copy_bytes-SameTable size (data_block_size * (t.entry i).payload + spot) 0 buffer
        (resized i size append t)

  names : (spot : ℕ) → SameNames t (after spot)
  names spot =
      with-SameTable t (resized i size append t) (after spot) (resized-SameNames i size append t)
        (kept spot)

zero_add : (k : ℕ) → 0 + k ≡ k
zero_add k = omega arith

twice : (x : ℕ) → (x % 256) % 256 ≡ x % 256
twice x = omega arith

-- What is read after a write.
data_at-written :
    (b size : ℕ) (buffer : ℕ → ℕ) (t : Files) (k : ℕ)
    → k < size
    → data_at (copy_bytes size (data_block_size * b + 1) 0 buffer t) b k ≡ buffer k % 256
data_at-written b size buffer t k m =
    let here : (data_block_size * b + 1) + k ≡ data_block_size * b + 1 + k = omega arith in
    ap (λ x. x % 256)
      (copy_bytes-here size (data_block_size * b + 1) 0 buffer t k m
        ∙ ap (λ x. buffer x % 256) (zero_add k))
    ∙ twice (buffer k)

-- From the invariant, for a file whose first block is its last, by a name of text that is not
-- the root's, and that is absolute or has a full name that fits in the room at its literal, a
-- write of at most 511 bytes that does not append, and a read of the same name, return: the
-- result is the bytes that were written, or a blank if there were none, and a NUL; the other
-- entries and all bytes outside of the file's data are as before.
pub sfs_read-sfs_write :
    (t : Files) (name : List ℕ) (i size : ℕ) (buffer : ℕ → ℕ)
    → IsFiles t
    → IsText name
    → full_name t name ≢ root
    → Fits t name
    → lookup t (full_name t name) file_type ≡ some i
    → t.byte (data_block_size * (t.entry i).payload) ≡ 0
    → size ≤ 511
    → Returns
        (λ cs t'.
          (cs ≡ or_blank (seq (λ k. buffer k % 256) size) ++ (0 ∷ []))
          × ((j : ℕ) → j ≢ i → t'.entry j ≡ t.entry j)
          × ((c : ℕ)
              → (c < data_block_size * (t.entry i).payload + 1)
                ⊎ (data_block_size * (t.entry i).payload + 1 + size ≤ c)
              → t'.byte c ≡ t.byte c))
        (and_then (sfs_write name size buffer 0 t) λ _ t'. sfs_read name t')
sfs_read-sfs_write t name i size buffer inv u d fit e z m =
    let b = (t.entry i).payload in
    let t1 = after t name i size 0 buffer inv u d fit e 1 in
    let k = names t name i size 0 buffer inv u d fit e 1 in
    let same_entry = (kept t name i size 0 buffer inv u d fit e 1).entry in
    let own : t1.entry i ≡ (record (t.entry i) { size = size }) =
      ap (λ g. g i) same_entry ∙ resized-at i size 0 t in
    let place : (t1.entry i).payload ≡ b = ap (λ h. h.payload) own in
    let long : (t1.entry i).size ≡ size = ap (λ h. h.size) own in
    let name' = SameNames-full_name t t1 name k in
    let found =
      ap (λ f. lookup t1 f file_type) name'
      ∙ SameNames-lookup t t1 (full_name t name) file_type k
      ∙ e in
    let last : t1.byte (data_block_size * (t1.entry i).payload) ≡ 0 =
      ap (λ x. t1.byte (data_block_size * x)) place
      ∙ copy_bytes-other size (data_block_size * b + 1) 0 buffer (resized i size 0 t)
          (data_block_size * b) (inl (omega arith))
      ∙ z in
    let data_read : seq (data_at t1 (t1.entry i).payload) (t1.entry i).size
        ≡ seq (λ k. buffer k % 256) size =
      ap₂ (λ x n. seq (data_at t1 x) n) place long
      ∙ seq-congr (data_at t1 b) (λ k. buffer k % 256) size
          λ k n. data_at-written b size buffer (resized i size 0 t) k n in
    rw
      (
        sfs_write-one t name i size 0 buffer inv u d fit e 1 refl (omega arith),
        sfs_read-one t1 name i (SameNames-IsFiles t t1 k inv) u (λ y. d (sym name' ∙ y))
            (SameNames-Fits t t1 name k fit) found last (omega (arith, long)),
      )
      (returns (
        ap (λ cs. or_blank cs ++ (0 ∷ [])) data_read,
        λ j n. ap (λ g. g j) same_entry ∙ resized-other i size 0 t j n,
        λ c out.
            copy_bytes-other size (data_block_size * b + 1) 0 buffer (resized i size 0 t) c out,
      ))

-- From the invariant, a write that appends between 1 and 512 bytes to an empty file, by a name
-- of text that is not the root's, and that is absolute or has a full name that fits in the room
-- at its literal, returns 0, and the first byte is then in the `next` of the file's block.
pub sfs_write-over_next :
    (t : Files) (name : List ℕ) (i size append : ℕ) (buffer : ℕ → ℕ)
    → IsFiles t
    → IsText name
    → full_name t name ≢ root
    → Fits t name
    → lookup t (full_name t name) file_type ≡ some i
    → (t.entry i).size ≡ 0
    → append ≢ 0
    → 0 < size
    → size ≤ 512
    → Returns
        (λ r t'. (r ≡ 0) × (t'.byte (data_block_size * (t.entry i).payload) ≡ buffer 0 % 256))
        (sfs_write name size buffer append t)
sfs_write-over_next t name i size append buffer inv u d fit e empty more s m =
    let b = (t.entry i).payload in
    let start : data_block_size * b + 0 + 0 ≡ data_block_size * b = omega arith in
    let spot : (if append == 0 then 1 else (t.entry i).size) ≡ 0 =
      rw (ne→eqb append 0 more) empty in
    rw (sfs_write-one t name i size append buffer inv u d fit e 0 spot (omega arith)) (
      returns (
        refl,
        ap (after t name i size append buffer inv u d fit e 0).byte (sym start)
            ∙ copy_bytes-here size (data_block_size * b + 0) 0 buffer (resized i size append t) 0 s,
      ))
