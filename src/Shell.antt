-- ===== src/Shell.antt =====
-- user.c: the shell. It reads a line from the serial line, splits it into a command and two
-- parameters, and calls the file system. What it writes to the console, and the prompt and the
-- pause between two commands, are left out.
pub mod Split
pub mod Session
use Prim.Native.Char.{code}
use Prim.Native.String.{String}
use systems_os.Prelude.{
  ℕ, zero, suc, ◌+◌, ◌^◌, Bool, true, false, not, ◌&&◌, ◌||◌, List, [], ◌∷◌, ◌++◌, ◌==◌, ltb,
  if◌then◌else◌, length,
}
use systems_os.Machine.{Run, ok, panic, out_of_fuel, fault, Cmd, and_then}
use systems_os.Text.{compare}
use systems_os.Files.{Files, file_type, sfs_create}
use systems_os.Files.Content.{sfs_delete, sfs_write, sfs_read, sfs_list}

-- The characters of a text.
abbrev pub codes : String → List ℕ
codes String.[] = []
codes (String.◌∷◌ c s) = code c ∷ codes s

-- The line that is read: `text` is `resultBuffer` up to `resBufIndex`, and `complete` is
-- `gotCommand`. The result of reading is what is echoed.
pub record Line : Type 0 where
  pub text : List ℕ
  pub used_space : Bool
  pub complete : Bool

abbrev pub no_line : Line
no_line = record { text = []; used_space = true; complete = false }

abbrev pub and_echo : ℕ → Run Line (List ℕ) → Run Line (List ℕ)
and_echo c r = and_then r λ cs l. ok (c ∷ cs) l

abbrev pub line_size : ℕ
line_size = 2048

-- The characters of one call of `read`; those behind the end of a line are lost.
unfoldable pub read_chars : List ℕ → Cmd Line (List ℕ)
read_chars [] l = ok [] l
read_chars (c ∷ cs) l =
    let passed = read_chars cs l in
    let kept =
      and_echo c (read_chars cs (record l { text = l.text ++ (c ∷ []); used_space = c == 32 })) in
    if (c == 32) && l.used_space
    then passed
    else if (c == 10) || (c == 13)
    then ok (c ∷ []) (record l { used_space = false; complete = true })
    else if ltb (length l.text) line_size
    then kept
    else fault

-- The calls of `read` until the line is complete.
unfoldable pub read_line : List (List ℕ) → Cmd Line (List ℕ)
read_line [] l = ok [] l
read_line (cs ∷ css) l = and_then (read_chars cs l) λ echo l'.
    let rest = and_then (read_line css l') λ more l''. ok (echo ++ more) l'' in
    if l'.complete then ok echo l' else rest

-- The words of a line. `words_done` is the number of the flags `doneCommand`, `doneParam1` and
-- `doneParam2` that are set.
pub record Words : Type 0 where
  pub command : List ℕ
  pub param : List ℕ
  pub param2 : List ℕ
  pub words_done : ℕ
  pub in_text_block : Bool

abbrev pub no_words : Words
no_words = record { command = []; param = []; param2 = []; words_done = 0; in_text_block = false }

abbrev pub next_word : Words → Words
next_word s = record s {
  words_done = if ltb s.words_done 3 then s.words_done + 1 else s.words_done;
}

-- The sizes of `commandBuffer`, `paramBuffer` and `paramBuffer2`: a character that is stored behind the
-- end of one is a fault.
abbrev pub command_size : ℕ
command_size = 20

abbrev pub param_size : ℕ
param_size = 20

abbrev pub param2_size : ℕ
param2_size = 1024

abbrev pub put_char : ℕ → Cmd Words (Unit {0})
put_char c s =
    if s.words_done == 0
    then if ltb (length s.command) command_size
      then ok tt (record s { command = s.command ++ (c ∷ []) })
      else fault
    else if s.words_done == 1
    then if ltb (length s.param) param_size
      then ok tt (record s { param = s.param ++ (c ∷ []) })
      else fault
    else if s.words_done == 2
    then if ltb (length s.param2) param2_size
      then ok tt (record s { param2 = s.param2 ++ (c ∷ []) })
      else fault
    else ok tt s

unfoldable pub split_char : ℕ → Cmd Words (Unit {0})
split_char c s =
    if c == 39
    then ok tt (record s { in_text_block = not s.in_text_block })
    else if (c == 32) && not s.in_text_block
    then ok tt (next_word s)
    else put_char c s

abbrev pub split_from : List ℕ → Cmd Words (Unit {0})
split_from [] s = ok tt s
split_from (c ∷ cs) s = and_then (split_char c s) λ _ s'. split_from cs s'

-- The NULs behind the words have to fit as well.
abbrev pub fits : Words → Bool
fits s =
    ltb (length s.command) command_size
    && ltb (length s.param) param_size
    && ltb (length s.param2) param2_size

unfoldable pub split : List ℕ → Cmd Words (Unit {0})
split line s = and_then (split_from line s) λ _ s'. if fits s' then ok tt s' else fault

-- What a command writes to the serial line, and whether it starts `helloCommand`; that the start may
-- fail, on which the shell ends, is left out.
pub record Reply : Type 0 where
  pub text : List ℕ
  pub starts_hello : Bool

abbrev pub silent : Reply
silent = record { text = []; starts_hello = false }

abbrev pub says : List ℕ → Reply
says cs = record { text = cs; starts_hello = false }

-- The characters in front of the NUL.
abbrev pub printed : List ℕ → List ℕ
printed [] = []
printed (c ∷ cs) = if c == 0 then [] else c ∷ printed cs

-- A command that announces itself with the parameter and tells of its success.
abbrev pub announced : List ℕ → List ℕ → List ℕ
announced what param = what ++ (param ++ (10 ∷ []))

abbrev pub reported : List ℕ → List ℕ → List ℕ → Run Files ℕ → Run Files Reply
reported what done failed r =
    and_then r λ res t. ok (says (what ++ (if res == 0 then done else failed))) t

-- A byte of a buffer: behind the text stands the NUL.
abbrev pub char_of : List ℕ → ℕ → ℕ
char_of [] k = 0
char_of (c ∷ cs) zero = c
char_of (c ∷ cs) (suc k) = char_of cs k

abbrev pub shell_write : List ℕ → List ℕ → ℕ → Cmd Files ℕ
shell_write param param2 append = sfs_write param (length param2 + 1) (char_of param2) append

-- What is shown of a file: a blank in front stands for an empty one.
abbrev pub content_text : List ℕ → List ℕ
content_text [] = codes "No such file.\n"
content_text (c ∷ cs) =
    if c == 32
    then codes "File is empty\n"
    else if not (c == 0)
    then printed (c ∷ cs) ++ (10 ∷ [])
    else codes "No such file.\n"

abbrev pub shell_read : List ℕ → Cmd Files Reply
shell_read param t =
    and_then (sfs_read param t)
      λ cs t'. ok (says (announced (codes "Reading file: ") param ++ content_text cs)) t'

-- The commands.
abbrev pub is_command : List ℕ → String → Bool
is_command cs name = compare cs (codes name) == 0

unfoldable pub run_command : Words → Cmd Files Reply
run_command s t =
    if is_command s.command "ls"
    then ok (says (printed (sfs_list t))) t
    else if is_command s.command "hello"
    then ok (record { text = []; starts_hello = true }) t
    else if is_command s.command "cd"
    then reported (announced (codes "Changing directory to: ") s.param)
        (codes "Changed directory!\n") (codes "Failed to change directory\n")
        (sfs_create s.param file_type t)
    else if is_command s.command "mkdir"
    then ok silent t
    else if is_command s.command "mkfile"
    then reported (announced (codes "Creating file: ") s.param) (codes "Created file!\n")
        (codes "Failed to create file\n") (sfs_create s.param file_type t)
    else if is_command s.command "rm"
    then reported (announced (codes "Deleting file: ") s.param) (codes "Deleted file!\n")
        (codes "Failed to delete file\n") (sfs_delete s.param t)
    else if is_command s.command "write"
    then reported (announced (codes "Writing to file: ") s.param) (codes "Write success!\n")
        (codes "Failed to write\n") (shell_write s.param s.param2 0 t)
    else if is_command s.command "writea"
    then reported (announced (codes "Appending to file: ") s.param) (codes "Append success!\n")
        (codes "Failed to append\n") (shell_write s.param s.param2 1 t)
    else if is_command s.command "read"
    then shell_read s.param t
    else ok silent t

-- A round of the shell with a complete line.
abbrev pub with_words : Run Words (Unit {0}) → (Words → Run Files Reply) → Run Files Reply
with_words (ok a s) k = k s
with_words panic k = panic
with_words fault k = fault
with_words out_of_fuel k = out_of_fuel

unfoldable pub round : List ℕ → Cmd Files Reply
round [] t = ok silent t
round (c ∷ cs) t = with_words (split (c ∷ cs) no_words) λ s. run_command s t
