-- ===== src/Files/Content.antt =====
-- fileSystem.c: deleting, reading, writing and listing files.
pub mod Copy
pub mod Transfer
use systems_os.Prelude.{
  ℕ, zero, suc, ◌+◌, ◌-◌, ◌*◌, ◌%◌, ◌^◌, Bool, true, false, not, ◌&&◌, ◌||◌, List, [], ◌∷◌, ◌++◌,
  ◌==◌, ltb, leb, if◌then◌else◌, length, seq,
}
use systems_os.Machine.{Run, ok, out_of_fuel, Cmd, and_then}
use systems_os.Text.{buffer_len}
use systems_os.Files.{
  Entry, Files, set_entry, num_entries, data_block_size, directory_type, file_type, adjust_filename,
  sfs_exists, is_root,
}

-- The walk over the blocks of a file, which clears nothing, since `_memset` is given the length 0.
-- Behind the first block all numbers are below 256: a longer walk has no end.
unfoldable pub walk_blocks : ℕ → ℕ → Cmd Files (Unit {0})
walk_blocks zero b t = out_of_fuel
walk_blocks (suc fuel) b t =
    let next = t.byte (data_block_size * b) in
    let rest = walk_blocks fuel next t in if next == 0 then ok tt t else rest

-- Whether the second name is longer than the first and begins with it.
abbrev pub starts_with : List ℕ → List ℕ → Bool
starts_with [] check = true
starts_with (c ∷ cs) [] = false
starts_with (c ∷ cs) (d ∷ ds) = (c == d) && starts_with cs ds

abbrev pub is_inside : List ℕ → List ℕ → Bool
is_inside name check = ltb (buffer_len name) (buffer_len check) && starts_with name check

unfoldable pub is_used : ℕ → ℕ → List ℕ → Files → Bool
is_used zero j name t = false
is_used (suc n) j name t =
    let rest = is_used n (j + 1) name t in if is_inside name (t.entry j).name then true else rest

abbrev pub remove_entry : ℕ → Files → Files
remove_entry i t = set_entry i (record (t.entry i) { name = []; size = 0 }) t

-- `_sfs_delete` of an entry.
abbrev pub delete_entry : ℕ → Cmd Files ℕ
delete_entry i t =
    if (t.entry i).type == file_type
    then (and_then (walk_blocks 257 (t.entry i).payload t) λ _ t'. ok 0 (remove_entry i t'))
    else if (t.entry i).type == directory_type
    then if is_used num_entries 0 (t.entry i).name t then ok 2 t else ok 0 (remove_entry i t)
    else ok 0 (remove_entry i t)

-- `_sfs_delete`.
unfoldable pub sfs_delete : List ℕ → Cmd Files ℕ
sfs_delete f_name t0 = and_then (adjust_filename f_name t0) λ filename t1.
    and_then (sfs_exists filename file_type t1) λ file t.
      if not (is_root t file)
      then delete_entry file t
      else (and_then (sfs_exists filename directory_type t)
          λ dir t'. if not (is_root t' dir) then delete_entry dir t' else ok 1 t')

-- The bytes of data in a block.
abbrev pub block_data : ℕ
block_data = data_block_size - 1

abbrev pub read_size : ℕ → ℕ
read_size total = if ltb block_data total then block_data else total

abbrev pub data_at : Files → ℕ → ℕ → ℕ
data_at t b j = t.byte (data_block_size * b + 1 + j) % 256

-- The loop of `_sfs_read` over the blocks.
abbrev pub and_data : List ℕ → Run Files (List ℕ) → Run Files (List ℕ)
and_data cs r = and_then r λ ds t. ok (cs ++ ds) t

unfoldable pub read_blocks : ℕ → ℕ → ℕ → Cmd Files (List ℕ)
read_blocks zero b total t = out_of_fuel
read_blocks (suc fuel) b total t =
    let next = t.byte (data_block_size * b) in
    let here = seq (data_at t b) (read_size total) in
    let rest = and_data here (read_blocks fuel next (total - read_size total) t) in
    if next == 0 then ok here t else rest

-- `_sfs_read`: what it writes from the address 0 on, which is its result. A file without data is a
-- blank.
abbrev pub or_blank : List ℕ → List ℕ
or_blank [] = 32 ∷ []
or_blank (c ∷ cs) = c ∷ cs

abbrev pub read_entry : ℕ → Cmd Files (List ℕ)
read_entry i t =
    if is_root t i
    then ok (0 ∷ []) t
    else (and_then (read_blocks 257 (t.entry i).payload (t.entry i).size t)
        λ cs t'. ok (or_blank cs ++ (0 ∷ [])) t')

unfoldable pub sfs_read : List ℕ → Cmd Files (List ℕ)
sfs_read f_name t =
    and_then (adjust_filename f_name t)
      λ filename t1. and_then (sfs_exists filename file_type t1) read_entry

-- The copying of `_sfs_write`: `a` is the number of the byte that is written next.
unfoldable pub copy_bytes : ℕ → ℕ → ℕ → (ℕ → ℕ) → Files → Files
copy_bytes zero a k buffer t = t
copy_bytes (suc n) a k buffer t =
    copy_bytes n (a + 1) (k + 1) buffer
      (record t { byte = λ c. if c == a then buffer k % 256 else t.byte c })

-- The loop of `_sfs_write`. `spot` is `writeSpot + 1`, so that the spot -1 in front of the data is
-- the block's `next`; `k` is the position in the buffer.
abbrev pub write_size : ℕ → ℕ → ℕ
write_size total spot = if ltb data_block_size (total + spot) then block_data else total

abbrev pub take_block : Files → Files
take_block t = record t { current_location = (t.current_location + 1) % 2 ^ 8 }

unfoldable pub write_blocks : ℕ → ℕ → ℕ → ℕ → ℕ → (ℕ → ℕ) → Cmd Files (Unit {0})
write_blocks zero b total spot k buffer t = out_of_fuel
write_blocks (suc fuel) b total spot k buffer t =
    let n = write_size total spot in
    let left = (total + 2 ^ 16 - n) % 2 ^ 16 in
    let t1 = copy_bytes n (data_block_size * b + spot) k buffer t in
    let rest = write_blocks fuel t1.current_location left 1 (k + n) buffer (take_block t1) in
    if total == 0 then ok tt t else if left == 0 then ok tt t1 else rest

-- `_sfs_write`. A `uint16_t` needs no more than 130 rounds after the first.
abbrev pub resized : ℕ → ℕ → ℕ → Files → Files
resized i size append t =
    set_entry i
      (record (t.entry i) {
        size = if append == 0 then size else ((t.entry i).size + size) % 2 ^ 16;
      })
      t

abbrev pub write_entry : ℕ → (ℕ → ℕ) → ℕ → ℕ → Cmd Files ℕ
write_entry size buffer append i t =
    let spot = if append == 0 then 1 else (t.entry i).size in
    if is_root t i
    then ok 1 t
    else (and_then
        (write_blocks 132 (t.entry i).payload size spot 0 buffer (resized i size append t))
        λ _ t'. ok 0 t')

unfoldable pub sfs_write : List ℕ → ℕ → (ℕ → ℕ) → ℕ → Cmd Files ℕ
sfs_write f_name size buffer append t =
    and_then (adjust_filename f_name t)
      λ filename t1. and_then (sfs_exists filename file_type t1) (write_entry size buffer append)

-- `_sfs_list`: what it writes from the address 0 on, which is its result.
abbrev pub list_entry : List ℕ → List ℕ
list_entry [] = []
list_entry (c ∷ cs) = (c ∷ cs) ++ (10 ∷ [])

unfoldable pub list_from : ℕ → ℕ → Files → List ℕ
list_from zero i t = []
list_from (suc n) i t = list_entry (t.entry i).name ++ list_from n (i + 1) t

unfoldable pub sfs_list : Files → List ℕ
sfs_list t = list_from num_entries 0 t ++ (0 ∷ [])
