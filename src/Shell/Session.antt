-- ===== src/Shell/Session.antt =====
-- Two commands of the shell one after the other: what is written to a file is shown by a read, and a
-- change of the directory makes a file.
use systems_os.Prelude.{
  ℕ, suc, ◌+◌, ◌*◌, ◌%◌, ◌≤◌, ◌<◌, ◌≡◌, ◌≢◌, refl, false, List, [], ◌∷◌, ◌++◌, arith, ap, ap₂, sym,
  ◌∙◌, ne→eqb, some, length, seq, seq-cons, append_assoc, append-nil,
}
use mathlib.Core.Path.{subst}
use systems_os.Machine.{Run, ok, panic, fault, out_of_fuel, Returns, returns, bind, and_then}
use systems_os.Text.{compare, compare_from, buffer_len}
use systems_os.Text.Laws.{IsText}
use systems_os.Files.{Files, data_block_size, file_type, root, full_name}
use systems_os.Files.Names.{Fits, lookup, IsFiles}
use systems_os.Files.Content.{or_blank, sfs_read, sfs_write}
use systems_os.Files.Content.Transfer.{sfs_read-sfs_write}
use systems_os.Shell.{
  codes, Words, no_words, Reply, says, reported, printed, announced, content_text, char_of,
  shell_write, shell_read, run_command, split, round,
}
use systems_os.Shell.Split.{
  IsWord, IsQuotable, command_line, split-command_line, split-steps, steps, steps-word,
}

-- A text of the file system's bytes with an end, which does not begin with a blank.
abbrev pub IsShown : List ℕ → Type 0
IsShown [] = Unit
IsShown (c ∷ cs) = (c < 256) × (c ≢ 0) × IsShown cs

abbrev pub HasContent : List ℕ → Type 0
HasContent [] = ⊥
HasContent (c ∷ cs) = c ≢ 32

-- The bytes that the shell hands over are the text and its NUL.
chars-text :
    (cs : List ℕ) → IsShown cs → seq (λ k. char_of cs k % 256) (suc (length cs)) ≡ cs ++ (0 ∷ [])
chars-text [] s = refl
chars-text (c ∷ cs) (b, n, s) =
    seq-cons (λ k. char_of (c ∷ cs) k % 256) (suc (length cs))
    ∙ ap₂ (λ x l. x ∷ l) (omega arith) (chars-text cs s)

printed-text : (cs rest : List ℕ) → IsShown cs → printed (cs ++ (0 ∷ rest)) ≡ cs
printed-text [] rest s = refl
printed-text (c ∷ cs) rest (b, n, s) = rw (ne→eqb c 0 n) (ap (◌∷◌ c) (printed-text cs rest s))

content_text-shown :
    (cs : List ℕ)
    → IsShown cs
    → HasContent cs
    → content_text ((cs ++ (0 ∷ [])) ++ (0 ∷ [])) ≡ cs ++ (10 ∷ [])
content_text-shown [] s h = elim h [ ]
content_text-shown (c ∷ cs) (b, n, s) h =
    rw (ne→eqb c 32 h, ne→eqb c 0 n)
      (ap (λ x. c ∷ (x ++ (10 ∷ [])))
        (ap printed (append_assoc cs (0 ∷ []) (0 ∷ [])) ∙ printed-text cs (0 ∷ []) s))

or_blank-some : (cs : List ℕ) → or_blank (cs ++ (0 ∷ [])) ≡ cs ++ (0 ∷ [])
or_blank-some [] = refl
or_blank-some (c ∷ cs) = refl

and_then_assoc :
    {A B C : Type 0} (r : Run Files A) (f : A → Files → Run Files B) (g : B → Files → Run Files C)
    → and_then (and_then r f) g ≡ and_then r λ a t. and_then (f a t) g
and_then_assoc (ok a t) f g = refl
and_then_assoc panic f g = refl
and_then_assoc fault f g = refl
and_then_assoc out_of_fuel f g = refl

-- The two commands on the file system.
shell_read-shell_write :
    (t : Files) (name text : List ℕ) (i : ℕ)
    → IsFiles t
    → IsText name
    → full_name t name ≢ root
    → Fits t name
    → lookup t (full_name t name) file_type ≡ some i
    → t.byte (data_block_size * (t.entry i).payload) ≡ 0
    → IsShown text
    → HasContent text
    → length text ≤ 510
    → Returns
        (λ reply t'. reply.text ≡ announced (codes "Reading file: ") name ++ (text ++ (10 ∷ [])))
        (and_then (shell_write name text 0 t) λ _ t'. shell_read name t')
shell_read-shell_write t name text i inv u d fit e z s h short =
    let bytes : ℕ → ℕ = λ k. char_of text k % 256 in
    let size : seq bytes (length text + 1) ≡ seq bytes (suc (length text)) =
      let one : length text + 1 ≡ suc (length text) = omega arith in ap (seq bytes) one in
    let W = sfs_write name (length text + 1) (char_of text) 0 t in
    let shown : Files → List ℕ → Files → Run Files Reply =
      λ _ cs t'. ok (says (announced (codes "Reading file: ") name ++ content_text cs)) t' in
    subst
      (Returns
        λ reply t'. reply.text ≡ announced (codes "Reading file: ") name ++ (text ++ (10 ∷ [])))
      (and_then_assoc W (λ _ t'. sfs_read name t') (shown t))
      (bind
        (sfs_read-sfs_write t name i (length text + 1) (char_of text) inv u d fit e z (omega arith))
        λ cs t' (r, _, _). returns (
          ap (λ x. announced (codes "Reading file: ") name ++ content_text x)
            (r
              ∙ ap (λ x. or_blank x ++ (0 ∷ [])) (size ∙ chars-text text s)
              ∙ ap (λ x. x ++ (0 ∷ [])) (or_blank-some text))
          ∙ ap (λ x. announced (codes "Reading file: ") name ++ x) (content_text-shown text s h)))

-- The same as lines.
abbrev pub read_line_of : List ℕ → List ℕ
read_line_of name = codes "read" ++ (32 ∷ name)

abbrev words_read : List ℕ → Words
words_read name = record {
  command = codes "read";
  param = name;
  param2 = [];
  words_done = 1;
  in_text_block = false;
}

split-read :
    (name : List ℕ)
    → IsWord name
    → length name < 20
    → split (read_line_of name) no_words ≡ ok tt (words_read name)
split-read name w short =
    split-steps (read_line_of name) (words_read name)
      (ap (λ x. steps (codes "read" ++ (32 ∷ x)) no_words) (sym (append-nil name))
        ∙ steps-word name [] (record no_words { command = codes "read"; words_done = 1 }) w)
      (ground arith)

write-IsWord : IsWord (codes "write")
write-IsWord = (
  omega arith,
  omega arith,
  (
    omega arith,
    omega arith,
    (omega arith, omega arith, (omega arith, omega arith, (omega arith, omega arith, tt))),
  ),
)

round-write :
    (t : Files) (name text : List ℕ)
    → IsWord name
    → IsQuotable text
    → length name < 20
    → length text < 1024
    → round (command_line (codes "write") name text) t
      ≡ reported
          (announced (codes "Writing to file: ") name)
          (codes "Write success!\n")
          (codes "Failed to write\n")
          (shell_write name text 0 t)
unfolding round run_command compare compare_from buffer_len
round-write t name text w q short room =
    rw (split-command_line (codes "write") name text write-IsWord w q (omega arith) short room) refl

round-read :
    (t : Files) (name : List ℕ)
    → IsWord name
    → length name < 20
    → round (read_line_of name) t ≡ shell_read name t
unfolding round run_command compare compare_from buffer_len
round-read t name w short = rw (split-read name w short) refl

reported-next :
    {P : Reply → Files → Type 0} (what done failed : List ℕ) (r : Run Files ℕ)
    (g g' : Files → Run Files Reply)
    → ((t : Files) → g t ≡ g' t)
    → Returns P (and_then r λ _ t'. g' t')
    → Returns P (and_then (reported what done failed r) λ _ t'. g t')
reported-next {P = P} what done failed (ok a t) g g' e h = subst (Returns P) (sym (e t)) h
reported-next what done failed panic g g' e h = h
reported-next what done failed fault g g' e h = h
reported-next what done failed out_of_fuel g g' e h = h

-- From the invariant, for a file whose first block is its last, by a name that is not the
-- root's, is a word of fewer than 20 bytes, and is absolute or has a full name that fits in the
-- room at its literal, and a text of at least one and at most 510 bytes that are neither NUL nor
-- quotes, of which the first is not a blank: a round of the shell with the line `write NAME
-- 'TEXT'` and one with the line `read NAME` return, and the second writes the text to the serial
-- line, between its announcement and a LF.
pub round-write-read :
    (t : Files) (name text : List ℕ) (i : ℕ)
    → IsFiles t
    → IsText name
    → IsWord name
    → length name < 20
    → full_name t name ≢ root
    → Fits t name
    → lookup t (full_name t name) file_type ≡ some i
    → t.byte (data_block_size * (t.entry i).payload) ≡ 0
    → IsShown text
    → IsQuotable text
    → HasContent text
    → length text ≤ 510
    → Returns
        (λ reply t'. reply.text ≡ announced (codes "Reading file: ") name ++ (text ++ (10 ∷ [])))
        (and_then
          (round (command_line (codes "write") name text) t)
          λ _ t'. round (read_line_of name) t')
round-write-read t name text i inv u w short d fit e z s q h room =
    subst
      (λ r.
        Returns
          (λ reply t'. reply.text ≡ announced (codes "Reading file: ") name ++ (text ++ (10 ∷ [])))
          (and_then r λ _ t'. round (read_line_of name) t'))
      (sym (round-write t name text w q short (omega arith)))
      (reported-next (announced (codes "Writing to file: ") name) (codes "Write success!\n")
        (codes "Failed to write\n") (shell_write name text 0 t) (λ t'. round (read_line_of name) t')
        (λ t'. shell_read name t') (λ t'. round-read t' name w short)
        (shell_read-shell_write t name text i inv u d fit e z s h room))
