-- ===== src/Files.antt =====
-- fileSystem.c: the table of files in memory. An entry is known by its number. A name is the
-- list of its characters in front of the NUL. The blocks lie one behind the other: byte 512 * b
-- of the array is `next` of block b, and its data follow. The code makes two strings by writing
-- over literals: the full name over "NO ISSUE" (9 bytes) and the part of a path that was checked
-- over "" (1 byte). How many bytes there are until something begins that is still used, depends
-- on where the compiler and the linker place the literals, and is a parameter (`Literals`): a
-- string that does not fit with its NUL is a fault; the room is not to reach other strings that
-- are in use, the "" of `_sfs_create` of the root among them. The address 0, which `_sfs_read`
-- and `_sfs_list` write their texts to, is ordinary memory in this kernel, which runs without
-- paging: it is no fault, and the text is the result. The messages to the console are left out.
pub mod Content
pub mod First
pub mod Names
pub mod Paths
pub mod Unlink
pub mod Create
pub mod Remove
pub mod Kept
pub mod Start
pub mod Reach
use systems_os.Prelude.{
  ℕ, zero, suc, ◌+◌, ◌-◌, ◌*◌, ◌%◌, ◌^◌, Bool, true, false, not, ◌&&◌, ◌||◌, List, [], ◌∷◌, ◌++◌,
  ◌==◌, ltb, leb, if◌then◌else◌, length, take, seq,
}
use systems_os.Machine.{fault, Run, ok, out_of_fuel, Cmd, and_then}
use systems_os.Text.{buffer_len, compare}

-- `MAX_NAME_LENGTH`, `MAX_FILE_NAME_LENGTH`, `NUM_ENTRIES`, `DATA_BLOCK_SIZE` and `NUM_BLOCKS`, where
-- an entry takes 262 bytes; the types of entries, and the name of the root.
abbrev pub max_name_length : ℕ
max_name_length = 256

abbrev pub max_file_name_length : ℕ
max_file_name_length = 32

abbrev pub num_entries : ℕ
num_entries = 512

abbrev pub data_block_size : ℕ
data_block_size = 512

abbrev pub num_blocks : ℕ
num_blocks = 65273

abbrev pub directory_type : ℕ
directory_type = 1

abbrev pub file_type : ℕ
file_type = 2

abbrev pub dir_separator : ℕ
dir_separator = 47

abbrev pub root : List ℕ
root = dir_separator ∷ []

-- `sfs_entry` and `sfs_file_table`.
pub record Entry : Type 0 where
  pub name : List ℕ
  pub size : ℕ
  pub payload : ℕ
  pub type : ℕ

-- The room at the literals that are written over: "NO ISSUE" in `_adjust_filename` and "" in
-- `_sfs_create`.
pub record Literals : Type 0 where
  pub adjusted_room : ℕ
  pub checked_room : ℕ

pub record Files : Type 0 where
  pub literals : Literals
  pub entry : ℕ → Entry
  pub current_location : ℕ
  pub byte : ℕ → ℕ
  pub directory : List ℕ

abbrev pub set_entry : ℕ → Entry → Files → Files
set_entry i e t = record t { entry = λ j. if j == i then e else t.entry j }

-- `_adjust_filename`.
abbrev pub is_absolute : List ℕ → Bool
is_absolute [] = false
is_absolute (c ∷ cs) = c == dir_separator

unfoldable pub full_name : Files → List ℕ → List ℕ
full_name t filename =
    if is_absolute filename
    then filename
    else t.directory ++ ((if compare t.directory root == 0 then [] else root) ++ filename)

unfoldable pub adjust_filename : List ℕ → Cmd Files (List ℕ)
adjust_filename filename t =
    if is_absolute filename
    then ok filename t
    else if ltb (length (full_name t filename)) t.literals.adjusted_room
    then ok (full_name t filename) t
    else fault

-- `_sfs_exists`: the first entry of that name and type, or the root.
abbrev pub is_entry : Files → List ℕ → ℕ → ℕ → Bool
is_entry t filename filetype i =
    (compare filename (t.entry i).name == 0) && ((t.entry i).type == filetype)

unfoldable pub exists_from : ℕ → ℕ → List ℕ → ℕ → Files → ℕ
exists_from zero i filename filetype t = 0
exists_from (suc n) i filename filetype t =
    let rest = exists_from n (i + 1) filename filetype t in
    if is_entry t filename filetype i then i else rest

unfoldable pub sfs_exists : List ℕ → ℕ → Cmd Files ℕ
sfs_exists f_name filetype t =
    and_then (adjust_filename f_name t)
      λ filename t'. ok (exists_from num_entries 0 filename filetype t') t'

-- Whether the entry that was found is the root, by its name.
abbrev pub is_root : Files → ℕ → Bool
is_root t i = compare (t.entry i).name root == 0

-- The creation of the root; the results are those of a `uint8_t`.
abbrev pub create_root : List ℕ → ℕ → Cmd Files ℕ
create_root name entry_type t0 = and_then (sfs_exists name entry_type t0) λ i t.
    if compare (t.entry i).name [] == 0
    then ok 7 (
        set_entry i
          (record (t.entry i) { name = take (max_file_name_length - 1) name; type = entry_type }) t)
    else ok 249 t

-- Whether the directories of a path exist; `checked` is the part of the path that was passed, and
-- stands with its NUL in the room at "".
unfoldable pub has_directories : List ℕ → List ℕ → Cmd Files Bool
has_directories checked [] t =
    if ltb (length checked) t.literals.checked_room then ok true t else fault
has_directories checked (c ∷ cs) t =
    let rest = has_directories (checked ++ (c ∷ [])) cs t in
    let searched =
      and_then (sfs_exists checked directory_type t)
        λ i t'. if is_root t' i then ok false t' else rest in
    if ltb (length checked) t.literals.checked_room
    then if c == dir_separator then searched else rest
    else fault

abbrev pub tail : List ℕ → List ℕ
tail [] = []
tail (c ∷ cs) = cs

-- The first entry that is not in use takes the name; a file gets the next block.
abbrev pub is_free : Files → ℕ → Bool
is_free t i = buffer_len (t.entry i).name == 0

abbrev pub new_entry : List ℕ → ℕ → Files → Entry
new_entry entry_name entry_type t = record {
  name = take (max_name_length - 1) entry_name;
  size = 0;
  payload = if entry_type == file_type then t.current_location else 0;
  type = entry_type;
}

abbrev pub add_entry : ℕ → List ℕ → ℕ → Files → Files
add_entry i entry_name entry_type t = record (set_entry i (new_entry entry_name entry_type t) t) {
  current_location =
      if entry_type == file_type then (t.current_location + 1) % 2 ^ 8 else t.current_location;
}

unfoldable pub create_from : ℕ → ℕ → List ℕ → ℕ → Cmd Files ℕ
create_from zero i entry_name entry_type t = ok 255 t
create_from (suc n) i entry_name entry_type t =
    let rest = create_from n (i + 1) entry_name entry_type t in
    if is_free t i then ok 0 (add_entry i entry_name entry_type t) else rest

-- `_sfs_create` of what is not the root, and `_sfs_create`.
abbrev pub create_entry : List ℕ → ℕ → Cmd Files ℕ
create_entry entry_name entry_type t0 = and_then (sfs_exists entry_name entry_type t0) λ i t.
    if not (is_root t i)
    then ok 1 t
    else (and_then (has_directories root (tail entry_name) t) λ found t'.
        if not found then ok 2 t' else create_from num_entries 0 entry_name entry_type t')

unfoldable pub sfs_create : List ℕ → ℕ → Cmd Files ℕ
sfs_create name entry_type t =
    if (compare name root == 0) && (entry_type == directory_type)
    then create_root name entry_type t
    else if buffer_len name == 0
    then ok 254 t
    else (and_then (adjust_filename name t) λ entry_name t'. create_entry entry_name entry_type t')

-- `_set_directory`.
unfoldable pub set_directory : List ℕ → Cmd Files ℕ
set_directory new_dir t0 =
    if compare new_dir root == 0
    then ok 0 (record t0 { directory = root })
    else (and_then (sfs_exists new_dir directory_type t0) λ i t.
        if is_root t i
        then ok 255 t
        else (and_then (adjust_filename new_dir t) λ c t'.
            ok 0 (record t' { directory = take (max_name_length - max_file_name_length - 2) c })))

-- `_sfs_init`.
abbrev pub no_entry : Entry
no_entry = record { name = []; size = 0; payload = 0; type = 0 }

abbrev pub cleared : Files → Files
cleared t = record {
  literals = t.literals;
  entry = λ i. if ltb i num_entries then no_entry else t.entry i;
  current_location = 0;
  byte = λ a. if ltb a (num_blocks * data_block_size) then 0 else t.byte a;
  directory = [];
}

unfoldable pub sfs_init : Cmd Files (Unit {0})
sfs_init t =
    and_then (sfs_create root directory_type (cleared t))
      λ _ t1. and_then (set_directory root t1) λ _ t2. ok tt t2
