-- ===== src/Tests/Disk.antt =====
-- Runs of the file system: a table with a file and two directories.
use systems_os.Prelude.{
  ℕ, zero, suc, ◌+◌, ◌*◌, ◌<◌, ◌≡◌, ◌≢◌, refl, some, none, List, [], ◌∷◌, ◌++◌, arith, ap, length,
  ◌≤◌, ◌⊎◌, ◌∙◌, inl, inr, Bool-cases, ltb,
}
use systems_os.Machine.{ok, Returns, and_then}
use systems_os.Tests.{state_of}
use systems_os.Text.{compare, compare_from, buffer_len}
use systems_os.Files.{
  Literals, Files, num_blocks, data_block_size, no_entry, root, directory_type, file_type,
  full_name, sfs_exists, adjust_filename, exists_from, has_directories, create_from, sfs_create,
}
use systems_os.Files.Names.{Fits, lookup, IsFiles}
use systems_os.Files.Remove.{Deleted, sfs_delete-Deleted, sfs_delete-occupied}
use systems_os.Files.Content.{sfs_delete, sfs_read, sfs_write}
use systems_os.Files.Content.Transfer.{
  Written, sfs_write-Written, sfs_read-sfs_write, sfs_write-over_next,
}
use systems_os.Files.Start.{rooted, sfs_init-rooted}
use systems_os.Files.Reach.{Call, none_yet, and_call, create, sfs_init-Calls}

-- No room but that of the literal "NO ISSUE", and 16 bytes at "".
abbrev pub rooms : Literals
rooms = record { adjusted_room = 9; checked_room = 16 }

-- The memory at power-on is 0.
abbrev pub blank : Files
blank = record {
  literals = rooms;
  entry = λ i. no_entry;
  current_location = 0;
  byte = λ a. 0;
  directory = [];
}

-- The names "f", "d" and "dx".
abbrev pub name_f : List ℕ
name_f = 102 ∷ []

abbrev name_d : List ℕ
name_d = 100 ∷ []

abbrev name_dx : List ℕ
name_dx = 100 ∷ 120 ∷ []

abbrev pub with_f : Files
with_f = state_of blank (sfs_create name_f file_type (rooted blank))

made_f : sfs_create name_f file_type (rooted blank) ≡ ok 0 with_f
unfolding sfs_create sfs_exists exists_from adjust_filename full_name compare buffer_len
    compare_from has_directories create_from
made_f = refl

abbrev with_d : Files
with_d = state_of blank (sfs_create name_d directory_type with_f)

abbrev pub with_dx : Files
with_dx = state_of blank (sfs_create name_dx directory_type with_d)

made_d : sfs_create name_d directory_type with_f ≡ ok 0 with_d
unfolding sfs_create sfs_exists exists_from adjust_filename full_name compare buffer_len
    compare_from has_directories create_from
made_d = refl

pub made_dx : sfs_create name_dx directory_type with_d ≡ ok 0 with_dx
unfolding sfs_create sfs_exists exists_from adjust_filename full_name compare buffer_len
    compare_from has_directories create_from
made_dx = refl

pub full_f : full_name (rooted blank) name_f ≡ 47 ∷ 102 ∷ []
unfolding full_name compare buffer_len compare_from
full_f = refl

full_d : full_name with_f name_d ≡ 47 ∷ 100 ∷ []
unfolding sfs_create sfs_exists exists_from adjust_filename full_name compare buffer_len
    compare_from has_directories create_from
full_d = refl

full_dx : full_name with_d name_dx ≡ 47 ∷ 100 ∷ 120 ∷ []
unfolding sfs_create sfs_exists exists_from adjust_filename full_name compare buffer_len
    compare_from has_directories create_from
full_dx = refl

pub same_rooms_f : with_f.literals ≡ rooms
unfolding sfs_create sfs_exists exists_from adjust_filename full_name compare buffer_len
    compare_from has_directories create_from
same_rooms_f = refl

same_rooms_d : with_d.literals ≡ rooms
unfolding sfs_create sfs_exists exists_from adjust_filename full_name compare buffer_len
    compare_from has_directories create_from
same_rooms_d = refl

same_rooms : with_dx.literals ≡ rooms
unfolding sfs_create sfs_exists exists_from adjust_filename full_name compare buffer_len
    compare_from has_directories create_from
same_rooms = refl

-- Short names fit.
pub short-Fits :
    (t : Files) (f : List ℕ) → t.literals ≡ rooms → length (full_name t f) < 9 → Fits t f
short-Fits t f e b = inr (omega (arith, b, ap (λ l. l.adjusted_room) e))

checked_fits : (t : Files) (n : ℕ) → t.literals ≡ rooms → n < 9 → n < t.literals.checked_room
checked_fits t n e b = omega (arith, b, ap (λ l. l.checked_room) e)

pub not_root : {f : List ℕ} {c : ℕ} {cs : List ℕ} → f ≡ 47 ∷ c ∷ cs → f ≢ root
not_root e r = absurd (ground (arith, ap length e, ap length r))

pub create_f : Call (rooted blank) with_f
create_f =
    create name_f file_type 0 (omega arith, tt) (λ e. absurd (ground (arith, ap length e)))
      (not_root full_f) (omega (arith, ap length full_f))
      (short-Fits (rooted blank) name_f refl (omega (arith, ap length full_f)))
      (checked_fits (rooted blank) (length (full_name (rooted blank) name_f)) refl
        (omega (arith, ap length full_f)))
      made_f

pub create_d : Call with_f with_d
create_d =
    create name_d directory_type 0 (omega arith, tt) (λ e. absurd (ground (arith, ap length e)))
      (not_root full_d) (omega (arith, ap length full_d))
      (short-Fits with_f name_d same_rooms_f (omega (arith, ap length full_d)))
      (checked_fits with_f (length (full_name with_f name_d)) same_rooms_f
        (omega (arith, ap length full_d)))
      made_d

pub create_dx : Call with_d with_dx
create_dx =
    create name_dx directory_type 0 (omega arith, (omega arith, tt))
      (λ e. absurd (ground (arith, ap length e))) (not_root full_dx)
      (omega (arith, ap length full_dx))
      (short-Fits with_d name_dx same_rooms_d (omega (arith, ap length full_dx)))
      (checked_fits with_d (length (full_name with_d name_dx)) same_rooms_d
        (omega (arith, ap length full_dx)))
      made_dx

-- The table keeps what it should.
sfs_init-Calls_example : IsFiles with_dx
sfs_init-Calls_example =
    sfs_init-Calls blank (rooted blank) with_dx (λ i b. tt) (sfs_init-rooted blank)
      (and_call (and_call (and_call none_yet create_f) create_d) create_dx)

f-IsFiles : IsFiles with_f
f-IsFiles =
    sfs_init-Calls blank (rooted blank) with_f (λ i b. tt) (sfs_init-rooted blank)
      (and_call none_yet create_f)

pub disk-IsFiles : IsFiles with_dx
disk-IsFiles =
    sfs_init-Calls blank (rooted blank) with_dx (λ i b. tt) (sfs_init-rooted blank)
      (and_call (and_call (and_call none_yet create_f) create_d) create_dx)

-- The blocks are still empty.
pub disk_f : full_name with_dx name_f ≡ 47 ∷ 102 ∷ []
unfolding sfs_create sfs_exists exists_from adjust_filename full_name compare buffer_len
    compare_from has_directories create_from
disk_f = refl

disk_d : full_name with_dx name_d ≡ 47 ∷ 100 ∷ []
unfolding sfs_create sfs_exists exists_from adjust_filename full_name compare buffer_len
    compare_from has_directories create_from
disk_d = refl

pub f-Fits : Fits with_dx name_f
f-Fits = short-Fits with_dx name_f same_rooms (omega (arith, ap length disk_f))

d-Fits : Fits with_dx name_d
d-Fits = short-Fits with_dx name_d same_rooms (omega (arith, ap length disk_d))

disk_byte : (a : ℕ) → with_dx.byte a ≡ (rooted blank).byte a
unfolding sfs_create sfs_exists exists_from adjust_filename full_name compare buffer_len
    compare_from has_directories create_from
disk_byte a = refl

pub disk_zero : (a : ℕ) → with_dx.byte a ≡ 0
disk_zero a = disk_byte a ∙ elim (Bool-cases (ltb a (num_blocks * data_block_size))) [
  | inl h ↦ rw h refl
  | inr h ↦ rw h refl
]

pub lookup_f : lookup with_dx (full_name with_dx name_f) file_type ≡ some 1
unfolding sfs_create sfs_exists exists_from adjust_filename full_name compare buffer_len
    compare_from has_directories create_from
lookup_f = refl

lookup_d_file : lookup with_dx (full_name with_dx name_d) file_type ≡ none
unfolding sfs_create sfs_exists exists_from adjust_filename full_name compare buffer_len
    compare_from has_directories create_from
lookup_d_file = refl

lookup_d : lookup with_dx (full_name with_dx name_d) directory_type ≡ some 2
unfolding sfs_create sfs_exists exists_from adjust_filename full_name compare buffer_len
    compare_from has_directories create_from
lookup_d = refl

name_3 : (with_dx.entry 3).name ≡ full_name with_dx name_d ++ (120 ∷ [])
unfolding sfs_create sfs_exists exists_from adjust_filename full_name compare buffer_len
    compare_from has_directories create_from
name_3 = refl

size_1 : (with_dx.entry 1).size ≡ 0
unfolding sfs_create sfs_exists exists_from adjust_filename full_name compare buffer_len
    compare_from has_directories create_from
size_1 = refl

sfs_delete-Deleted_example :
    Returns (λ r t'. Deleted with_dx (full_name with_dx name_f) r t') (sfs_delete name_f with_dx)
sfs_delete-Deleted_example =
    sfs_delete-Deleted with_dx name_f disk-IsFiles (omega arith, tt) (not_root disk_f) f-Fits
      λ i. disk_zero (512 * (with_dx.entry i).payload)

-- The directory "d" is empty, but the directory "dx" beside it keeps it.
sfs_delete-occupied_example : Returns (λ r t'. (r ≡ 2) × (t' ≡ with_dx)) (sfs_delete name_d with_dx)
sfs_delete-occupied_example =
    sfs_delete-occupied with_dx name_d (120 ∷ []) 3 disk-IsFiles (omega arith, tt) (not_root disk_d)
      d-Fits (λ i. disk_zero (512 * (with_dx.entry i).payload)) lookup_d_file
      (λ e. absurd (ground (arith, lookup_d, e))) (omega arith)
      (λ e. absurd (ground (arith, ap length e))) name_3

-- The text "hi", over and over.
abbrev pub text : ℕ → ℕ
text zero = 104
text (suc k) = 105

sfs_write-Written_example :
    Returns
      (λ r t'. Written with_dx (full_name with_dx name_f) 2000 0 r t')
      (sfs_write name_f 2000 text 0 with_dx)
sfs_write-Written_example =
    sfs_write-Written with_dx name_f 2000 text 0 disk-IsFiles (omega arith, tt) (not_root disk_f)
      f-Fits (omega arith)

sfs_read-sfs_write_example :
    Returns
      (λ cs t'.
        (cs ≡ 104 ∷ 105 ∷ 0 ∷ [])
        × ((j : ℕ) → j ≢ 1 → t'.entry j ≡ with_dx.entry j)
        × ((c : ℕ)
            → (c < 512 * (with_dx.entry 1).payload + 1)
              ⊎ (512 * (with_dx.entry 1).payload + 1 + 2 ≤ c)
            → t'.byte c ≡ with_dx.byte c))
      (and_then (sfs_write name_f 2 text 0 with_dx) λ _ t'. sfs_read name_f t')
sfs_read-sfs_write_example =
    sfs_read-sfs_write with_dx name_f 1 2 text disk-IsFiles (omega arith, tt) (not_root disk_f)
      f-Fits lookup_f (disk_zero (512 * (with_dx.entry 1).payload)) (omega arith)

sfs_write-over_next_example :
    Returns
      (λ r t'. (r ≡ 0) × (t'.byte (512 * (with_dx.entry 1).payload) ≡ 104))
      (sfs_write name_f 2 text 1 with_dx)
sfs_write-over_next_example =
    sfs_write-over_next with_dx name_f 1 2 1 text disk-IsFiles (omega arith, tt) (not_root disk_f)
      f-Fits lookup_f size_1 (omega arith) (omega arith) (omega arith)
