-- ===== src/Files/Reach.antt =====
-- The states of the table that calls of fileSystem.c lead to.
use systems_os.Prelude.{ℕ, ◌*◌, ◌^◌, ◌≤◌, ◌<◌, ◌≡◌, ◌≢◌, List, [], sym, length}
use mathlib.Core.Path.{subst}
use systems_os.Machine.{ok, Returns, returns, result}
use systems_os.Text.Laws.{IsText}
use systems_os.Files.{
  Files, num_entries, data_block_size, root, full_name, sfs_create, set_directory, sfs_init,
}
use systems_os.Files.Names.{Fits, IsFiles}
use systems_os.Files.Create.{Created, taken, no_directory, full, made, sfs_create-Created}
use systems_os.Files.Remove.{
  Deleted, absent, occupied, file_removed, directory_removed, sfs_delete-Deleted,
}
use systems_os.Files.Content.{sfs_delete, sfs_write}
use systems_os.Files.Content.Transfer.{Written, missing, written, sfs_write-Written}
use systems_os.Files.Start.{sfs_init-rooted, rooted-IsFiles, set_directory-IsFiles}

-- A call that returned: every name is text; names that are adjusted or checked fit in their rooms;
-- names of new entries fit in an entry; the root is not
-- created, deleted or written; the files are in one block each where one is deleted.
pub data Call (t t' : Files) : Type 0 where
  create :
      (name : List ℕ) (ty r : ℕ)
      → IsText name
      → name ≢ []
      → full_name t name ≢ root
      → length (full_name t name) ≤ 255
      → Fits t name
      → length (full_name t name) < t.literals.checked_room
      → sfs_create name ty t ≡ ok r t'
      → Call t t'
  delete :
      (name : List ℕ) (r : ℕ)
      → IsText name
      → full_name t name ≢ root
      → Fits t name
      → ((i : ℕ) → t.byte (data_block_size * (t.entry i).payload) ≡ 0)
      → sfs_delete name t ≡ ok r t'
      → Call t t'
  write :
      (name : List ℕ) (size append r : ℕ) (buffer : ℕ → ℕ)
      → IsText name
      → full_name t name ≢ root
      → Fits t name
      → size < 2 ^ 16
      → sfs_write name size buffer append t ≡ ok r t'
      → Call t t'
  change :
      (name : List ℕ) (r : ℕ)
      → IsText name
      → Fits t name
      → set_directory name t ≡ ok r t'
      → Call t t'

pub data Calls (t : Files) : Files → Type 0 where
  none_yet : Calls t t
  and_call : {t' t'' : Files} → Calls t t' → Call t' t'' → Calls t t''

Created-IsFiles :
    {t t' : Files} {f : List ℕ} {ty r : ℕ} → IsFiles t → Created t f ty r t' → IsFiles t'
Created-IsFiles inv (taken _ e) = subst IsFiles (sym e) inv
Created-IsFiles inv (no_directory _ _ e) = subst IsFiles (sym e) inv
Created-IsFiles inv (full _ _ _ e) = subst IsFiles (sym e) inv
Created-IsFiles inv (made _ _ _ _ _ _ _ _ inv') = inv'

Deleted-IsFiles : {t t' : Files} {f : List ℕ} {r : ℕ} → IsFiles t → Deleted t f r t' → IsFiles t'
Deleted-IsFiles inv (absent _ _ e) = subst IsFiles (sym e) inv
Deleted-IsFiles inv (occupied _ _ _ _ _ _ _ e) = subst IsFiles (sym e) inv
Deleted-IsFiles inv (file_removed _ _ _ inv') = inv'
Deleted-IsFiles inv (directory_removed _ _ _ _ _ inv') = inv'

Written-IsFiles :
    {t t' : Files} {f : List ℕ} {size append r : ℕ}
    → IsFiles t
    → Written t f size append r t'
    → IsFiles t'
Written-IsFiles inv (missing _ e) = subst IsFiles (sym e) inv
Written-IsFiles inv (written _ _ _ _ inv') = inv'

Call-IsFiles : {t t' : Files} → IsFiles t → Call t t' → IsFiles t'
Call-IsFiles {t = t} inv (create name ty r u n d short fit room e) =
    Created-IsFiles inv (result (sfs_create-Created t name ty inv u n d short fit room) e)
Call-IsFiles {t = t} inv (delete name r u d fit blocks e) =
    Deleted-IsFiles inv (result (sfs_delete-Deleted t name inv u d fit blocks) e)
Call-IsFiles {t = t} inv (write name size append r buffer u d fit w e) =
    Written-IsFiles inv (result (sfs_write-Written t name size buffer append inv u d fit w) e)
Call-IsFiles {t = t} inv (change name r u fit e) =
    (result (set_directory-IsFiles t name inv u fit) e).0

Calls-IsFiles : {t t' : Files} → IsFiles t → Calls t t' → IsFiles t'
Calls-IsFiles inv none_yet = inv
Calls-IsFiles inv (and_call before call) = Call-IsFiles (Calls-IsFiles inv before) call

-- If the names outside of the table are text, the table that `_sfs_init` leaves, and every table
-- that a sequence of calls leads to, keeps the invariant: the root is entry 0, names and the
-- current directory are text, the directory is absolute, and no two entries in use have the same
-- name and type. The calls are those of `_sfs_create`, `_sfs_delete`, `_sfs_write` and
-- `_set_directory` that return, for names of text: the first three not for the root, all names
-- absolute or with a full name that fits in the room at its literal, created names not empty and
-- in full of at most 255 characters that fit in the room of the checked path, writes below 2^16
-- bytes, and deletions while the first block of each entry is its last.
pub sfs_init-Calls :
    (t t0 t' : Files)
    → ((i : ℕ) → num_entries ≤ i → IsText (t.entry i).name)
    → sfs_init t ≡ ok tt t0
    → Calls t0 t'
    → IsFiles t'
sfs_init-Calls t t0 t' out e calls =
    Calls-IsFiles
      (result
        (subst (Returns λ _ t1. IsFiles t1) (sym (sfs_init-rooted t))
          (returns (rooted-IsFiles t out)))
        e)
      calls
