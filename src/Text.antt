-- ===== src/Text.antt =====
-- user.c: the string functions that the shell and the file system share. A string is the list of its
-- characters in front of the NUL.
pub mod Laws
use systems_os.Prelude.{ℕ, zero, suc, ◌+◌, ◌%◌, ◌^◌, List, [], ◌∷◌, ◌==◌, if◌then◌else◌, length}
use systems_os.Machine.{add32, sub32}
use systems_os.Screen.{sext8}

-- `hashCommand`.
unfoldable pub hash_from : ℕ → List ℕ → ℕ
hash_from hash [] = hash
hash_from hash (c ∷ cs) = hash_from (add32 hash (sext8 c)) cs

abbrev pub hash_command : List ℕ → ℕ
hash_command = hash_from 0

-- `len`.
unfoldable pub buffer_len : List ℕ → ℕ
buffer_len [] = 0
buffer_len (c ∷ cs) = suc (buffer_len cs)

-- The loop of `compare`, over strings of one length.
unfoldable pub compare_from : List ℕ → List ℕ → ℕ
compare_from [] ds = 0
compare_from (c ∷ cs) [] = sext8 c
compare_from (c ∷ cs) (d ∷ ds) =
    let rest = compare_from cs ds in if c == d then rest else sub32 (sext8 c) (sext8 d)

-- `compare`.
unfoldable pub compare : List ℕ → List ℕ → ℕ
compare cs ds = if buffer_len cs == buffer_len ds then compare_from cs ds else 1
