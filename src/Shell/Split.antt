-- ===== src/Shell/Split.antt =====
-- What the shell makes of a line: words that are written out are found again.
use systems_os.Prelude.{
  ltb, not, ◌&&◌, ◌≤◌, ◌<◌, length, length-append, ℕ, ◌≡◌, ◌≢◌, refl, true, false, List, [], ◌∷◌,
  ◌++◌, ◌==◌, if◌then◌else◌, arith, ap, sym, ◌∙◌, eq→eqb, ne→eqb, inl, inr, ◌⊎◌, Bool-cases,
  ℕ_discrete, append_assoc, append-nil,
}
use mathlib.Core.Path.{subst}
use systems_os.Machine.{ok}
use systems_os.Shell.{next_word, put_char, split_char, split_from, split, fits, Words, no_words}

-- Characters that are no quotes, and words without blanks.
abbrev pub IsQuotable : List ℕ → Type 0
IsQuotable [] = Unit
IsQuotable (c ∷ cs) = (c ≢ 39) × IsQuotable cs

abbrev pub IsWord : List ℕ → Type 0
IsWord [] = Unit
IsWord (c ∷ cs) = (c ≢ 39) × (c ≢ 32) × IsWord cs

-- A word, or a quoted text, goes to the part whose turn it is.
abbrev put : List ℕ → Words → Words
put cs s =
    if s.words_done == 0
    then record s { command = s.command ++ cs }
    else if s.words_done == 1
    then record s { param = s.param ++ cs }
    else if s.words_done == 2
    then record s { param2 = s.param2 ++ cs }
    else s

abbrev place : ℕ → Words → Words
place c s =
    if s.words_done == 0
    then record s { command = s.command ++ (c ∷ []) }
    else if s.words_done == 1
    then record s { param = s.param ++ (c ∷ []) }
    else if s.words_done == 2
    then record s { param2 = s.param2 ++ (c ∷ []) }
    else s

abbrev step : ℕ → Words → Words
step c s =
    if c == 39
    then record s { in_text_block = not s.in_text_block }
    else if (c == 32) && not s.in_text_block
    then next_word s
    else place c s

abbrev pub steps : List ℕ → Words → Words
steps [] s = s
steps (c ∷ cs) s = steps cs (step c s)

put-place : (c : ℕ) (cs : List ℕ) (s : Words) → put cs (place c s) ≡ put (c ∷ cs) s
put-place c cs s = elim (Bool-cases (s.words_done == 0)) [
  | inl h ↦ rw h (rw h (ap (λ x. record s { command = x }) (append_assoc s.command (c ∷ []) cs)))
  | inr h ↦ elim (Bool-cases (s.words_done == 1)) [
    | inl k ↦
        rw (h, k) (rw (h, k) (ap (λ x. record s { param = x }) (append_assoc s.param (c ∷ []) cs)))
    | inr k ↦ elim (Bool-cases (s.words_done == 2)) [
      | inl l ↦
          rw (h, k, l)
            (rw (h, k, l) (ap (λ x. record s { param2 = x }) (append_assoc s.param2 (c ∷ []) cs)))
      | inr l ↦ rw (h, k, l) (rw (h, k, l) refl)
    ]
  ]
]

put-nil : (s : Words) → put [] s ≡ s
put-nil s = elim (Bool-cases (s.words_done == 0)) [
  | inl h ↦ rw h (ap (λ x. record s { command = x }) (append-nil s.command))
  | inr h ↦ elim (Bool-cases (s.words_done == 1)) [
    | inl k ↦ rw (h, k) (ap (λ x. record s { param = x }) (append-nil s.param))
    | inr k ↦ elim (Bool-cases (s.words_done == 2)) [
      | inl l ↦ rw (h, k, l) (ap (λ x. record s { param2 = x }) (append-nil s.param2))
      | inr l ↦ rw (h, k, l) refl
    ]
  ]
]

place-in_text_block : (c : ℕ) (s : Words) → (place c s).in_text_block ≡ s.in_text_block
place-in_text_block c s = ground arith

step-place :
    (c : ℕ) (s : Words) → c ≢ 39 → (c ≢ 32) ⊎ (s.in_text_block ≡ true) → step c s ≡ place c s
step-place c s q (inl b) = rw (ne→eqb c 39 q, ne→eqb c 32 b) refl
step-place c s q (inr i) = elim (ℕ_discrete c 32) [
  | yes e ↦ rw (ne→eqb c 39 q, eq→eqb c 32 e, i) refl
  | no d ↦ rw (ne→eqb c 39 q, ne→eqb c 32 d) refl
]

pub steps-word :
    (cs rest : List ℕ) (s : Words) → IsWord cs → steps (cs ++ rest) s ≡ steps rest (put cs s)
steps-word [] rest s w = ap (steps rest) (sym (put-nil s))
steps-word (c ∷ cs) rest s (q, b, w) =
    ap (steps (cs ++ rest)) (step-place c s q (inl b))
    ∙ steps-word cs rest (place c s) w
    ∙ ap (steps rest) (put-place c cs s)

steps-text :
    (cs rest : List ℕ) (s : Words)
    → IsQuotable cs
    → s.in_text_block ≡ true
    → steps (cs ++ rest) s ≡ steps rest (put cs s)
steps-text [] rest s w i = ap (steps rest) (sym (put-nil s))
steps-text (c ∷ cs) rest s (q, w) i =
    ap (steps (cs ++ rest)) (step-place c s q (inr i))
    ∙ steps-text cs rest (place c s) w (place-in_text_block c s ∙ i)
    ∙ ap (steps rest) (put-place c cs s)

-- A command line.
abbrev pub command_line : List ℕ → List ℕ → List ℕ → List ℕ
command_line command param text = command ++ (32 ∷ (param ++ (32 ∷ 39 ∷ (text ++ (39 ∷ [])))))

abbrev pub words_of : List ℕ → List ℕ → List ℕ → Words
words_of command param text = record {
  command = command;
  param = param;
  param2 = text;
  words_done = 2;
  in_text_block = false;
}

steps-command_line :
    (command param text : List ℕ)
    → IsWord command
    → IsWord param
    → IsQuotable text
    → steps (command_line command param text) no_words ≡ words_of command param text
steps-command_line command param text w w' q =
    steps-word command (32 ∷ (param ++ (32 ∷ 39 ∷ (text ++ (39 ∷ []))))) no_words w
    ∙ steps-word param (32 ∷ 39 ∷ (text ++ (39 ∷ [])))
        (record no_words { command = command; words_done = 1 }) w'
    ∙ steps-text text (39 ∷ [])
        (record no_words { command = command; param = param; words_done = 2; in_text_block = true })
        q refl

-- The words are in their buffers. They only grow, so if they are so in the end, no step is a fault.
abbrev IsInside : Words → Type 0
IsInside s = (length s.command ≤ 20) × (length s.param ≤ 20) × (length s.param2 ≤ 1024)

chosen_command :
    (c : ℕ) (s : Words)
    → (s.words_done == 0) ≡ true
    → place c s ≡ (record s { command = s.command ++ (c ∷ []) })
chosen_command c s z = rw z refl

chosen_param :
    (c : ℕ) (s : Words)
    → (s.words_done == 0) ≡ false
    → (s.words_done == 1) ≡ true
    → place c s ≡ (record s { param = s.param ++ (c ∷ []) })
chosen_param c s z y = rw (z, y) refl

chosen_param2 :
    (c : ℕ) (s : Words)
    → (s.words_done == 0) ≡ false
    → (s.words_done == 1) ≡ false
    → (s.words_done == 2) ≡ true
    → place c s ≡ (record s { param2 = s.param2 ++ (c ∷ []) })
chosen_param2 c s z y x = rw (z, y, x) refl

chosen_none :
    (c : ℕ) (s : Words)
    → (s.words_done == 0) ≡ false
    → (s.words_done == 1) ≡ false
    → (s.words_done == 2) ≡ false
    → place c s ≡ s
chosen_none c s z y x = rw (z, y, x) refl

place-IsInside :
    (c : ℕ) (s : Words) → IsInside (place c s) → IsInside s × (put_char c s ≡ ok tt (place c s))
place-IsInside c s h = elim (Bool-cases (s.words_done == 0)) [
  | inl z ↦
      let (a, b, d) = subst IsInside (chosen_command c s z) h in
      let room : ltb (length s.command) 20 ≡ true =
        ground (arith, a, length-append s.command (c ∷ [])) in
      ((omega (arith, a, length-append s.command (c ∷ [])), b, d), rw (z, room) refl)
  | inr z ↦ elim (Bool-cases (s.words_done == 1)) [
    | inl y ↦
        let (a, b, d) = subst IsInside (chosen_param c s z y) h in
        let room : ltb (length s.param) 20 ≡ true =
          ground (arith, b, length-append s.param (c ∷ [])) in
        ((a, omega (arith, b, length-append s.param (c ∷ [])), d), rw (z, y, room) refl)
    | inr y ↦ elim (Bool-cases (s.words_done == 2)) [
      | inl x ↦
          let (a, b, d) = subst IsInside (chosen_param2 c s z y x) h in
          let room : ltb (length s.param2) 1024 ≡ true =
            ground (arith, d, length-append s.param2 (c ∷ [])) in
          ((a, b, omega (arith, d, length-append s.param2 (c ∷ []))), rw (z, y, x, room) refl)
      | inr x ↦ (subst IsInside (chosen_none c s z y x) h, rw (z, y, x) refl)
    ]
  ]
]

abbrev quoted : Words → Words
quoted s = record s { in_text_block = not s.in_text_block }

abbrev blank_or : ℕ → Words → Words
blank_or c s = if (c == 32) && not s.in_text_block then next_word s else place c s

step-IsInside :
    (c : ℕ) (s : Words) → IsInside (step c s) → IsInside s × (split_char c s ≡ ok tt (step c s))
unfolding split_char
step-IsInside c s h = elim (Bool-cases (c == 39)) [
  | inl q ↦ (subst IsInside (ap (λ b. if b then quoted s else blank_or c s) q) h, rw q refl)
  | inr q ↦ elim (Bool-cases ((c == 32) && not s.in_text_block)) [
    | inl b ↦ (
      subst IsInside
          (ap (λ x. if x then quoted s else blank_or c s) q
            ∙ ap (λ x. if x then next_word s else place c s) b)
          h,
      rw (q, b) refl,
    )
    | inr b ↦
        let (i, e) = place-IsInside c s (
          subst IsInside
            (ap (λ x. if x then quoted s else blank_or c s) q
              ∙ ap (λ x. if x then next_word s else place c s) b)
            h) in
        (i, rw (q, b) e)
  ]
]

steps-IsInside :
    (cs : List ℕ) (s : Words)
    → IsInside (steps cs s)
    → IsInside s × (split_from cs s ≡ ok tt (steps cs s))
steps-IsInside [] s h = (h, refl)
steps-IsInside (c ∷ cs) s h =
    let (later, e) = steps-IsInside cs (step c s) h in
    let (now, e') = step-IsInside c s later in (now, rw e' e)

pub split-steps :
    (line : List ℕ) (s : Words)
    → steps line no_words ≡ s
    → fits s ≡ true
    → split line no_words ≡ ok tt s
unfolding split
split-steps line s e f =
    let inside : IsInside s = (ground (arith, f), ground (arith, f), ground (arith, f)) in
    rw ((steps-IsInside line no_words (subst IsInside (sym e) inside)).1, e, f) refl

-- A line that is made of a command of fewer than 20 characters, a parameter of fewer than 20 and
-- a quoted text of fewer than 1024, one blank between them, where the first two contain neither
-- blanks nor quotes and the text no quotes, is split into just these three, and no buffer
-- overflows.
pub split-command_line :
    (command param text : List ℕ)
    → IsWord command
    → IsWord param
    → IsQuotable text
    → length command < 20
    → length param < 20
    → length text < 1024
    → split (command_line command param text) no_words ≡ ok tt (words_of command param text)
split-command_line command param text w w' q a b d =
    split-steps (command_line command param text) (words_of command param text)
      (steps-command_line command param text w w' q) (ground arith)
