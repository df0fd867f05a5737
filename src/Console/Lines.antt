-- ===== src/Console/Lines.antt =====
-- `c_getchar` and `c_gets` against the queue of characters that the keyboard holds.
use Prim.Native.Nat.{bit_and}
use mathlib.Core.Path.{subst}
use systems_os.Prelude.{
  ℕ, zero, suc, ◌-◌, ◌%◌, ◌<◌, ◌≡◌, ◌≢◌, refl, Bool, true, false, ◌||◌, Option, none, some, List,
  [], ◌∷◌, arith, ◌==◌, if◌then◌else◌, ap, sym, ◌∙◌, inl, inr, length, Bool-cases, ne→eqb, eq→eqb,
  seq, ℕ_discrete,
}
use systems_os.Machine.{ok, Returns, returns, bind}
use systems_os.Keyboard.{Keyboard, wait, first_char, drop_char, input_scan_code}
use systems_os.Keyboard.Ring.{
  IsRing, held, key_at, queued, offer, is_press, char_of, input_scan_code-Scanned, length-held,
  drop_char_lem, empty_lem,
}
use systems_os.Screen.{Screen, putchar, sext8, puts}
use systems_os.Console.{Console, eot, echo, shown, getchar, and_char, gets_loop, gets}

-- A queue that is not empty ends the wait.
wait-ready : (codes : List ℕ) (k : Keyboard) → IsRing k → held k ≢ 0 → wait codes k ≡ ok codes k
unfolding wait
wait-ready [] k i d = rw (empty_lem k i, ne→eqb (held k) 0 d) refl
wait-ready (code ∷ codes) k i d = rw (empty_lem k i, ne→eqb (held k) 0 d) refl

abbrev pub any_press : List ℕ → Bool
any_press [] = false
any_press (code ∷ codes) = is_press (bit_and code 0xff) || any_press codes

abbrev pub Ready : Keyboard → Type 0
Ready k = IsRing k × (held k ≢ 0)

press-Ready :
    (k : Keyboard) (code : ℕ)
    → IsRing k
    → held k ≡ 0
    → is_press (bit_and code 0xff) ≡ true
    → Ready (input_scan_code code k)
press-Ready k code i e p =
    let (i2, q) = input_scan_code-Scanned k code i in
    let one : queued (input_scan_code code k) ≡ char_of k (bit_and code 0xff) ∷ [] =
      q
      ∙ ap (λ b. if b then offer (queued k) (char_of k (bit_and code 0xff)) else queued k) p
      ∙ ap (λ n. offer (seq (key_at k) n) (char_of k (bit_and code 0xff))) e in
    (i2, omega (arith, length-held (input_scan_code code k), ap length one))

-- If one of the scan codes to come is the press of a key that is no modifier, the wait of
-- `c_getchar` ends, with a character in the buffer.
pub wait-Ready :
    (codes : List ℕ) (k : Keyboard)
    → IsRing k
    → any_press codes ≡ true
    → Returns (λ _ k'. Ready k') (wait codes k)
unfolding wait
wait-Ready [] k i a = absurd (ground arith)
wait-Ready (code ∷ codes) k i a = elim (ℕ_discrete (held k) 0) [
  | no d ↦ rw (empty_lem k i, ne→eqb (held k) 0 d) (returns (i, d))
  | yes e ↦
      rw (empty_lem k i, eq→eqb (held k) 0 e)
        (elim (Bool-cases (is_press (bit_and code 0xff))) [
          | inl p ↦
              let (i2, d) = press-Ready k code i e p in
              subst (Returns (λ _ k'. Ready k'))
                (sym (wait-ready codes (input_scan_code code k) i2 d)) (returns (i2, d))
          | inr p ↦
              wait-Ready codes (input_scan_code code k) (input_scan_code-Scanned k code i).0
                (ground (arith, p))
        ])
]

-- What `c_getchar` leaves: the first character is taken and shown.
abbrev pub First : Console → ℕ → List ℕ → Console → Type 0
First c ch rest c' =
    IsRing c'.keyboard × (queued c'.keyboard ≡ rest) × (c'.screen ≡ echo (sext8 ch) c.screen)

first_queued :
    (k : Keyboard) (ch : ℕ) (rest : List ℕ)
    → IsRing k
    → queued k ≡ ch ∷ rest
    → (held k ≢ 0)
      × (ch < 256)
      × (first_char k ≡ ch)
      × IsRing (drop_char k)
      × (queued (drop_char k) ≡ rest)
first_queued k ch rest i e =
    let count : held k ≡ suc (length rest) = sym (length-held k) ∙ ap length e in
    let (i2, q) = drop_char_lem k (length rest) i count in
    let both = sym q ∙ e in
    let f : first_char k ≡ ch = cc in (omega (arith, count), omega (arith, f), f, i2, cc)

pub getchar-First :
    (c : Console) (codes : List ℕ) (ch : ℕ) (rest : List ℕ)
    → IsRing c.keyboard
    → queued c.keyboard ≡ ch ∷ rest
    → Returns
        (λ (a, left) c'. (a ≡ sext8 ch) × (left ≡ codes) × First c ch rest c')
        (getchar codes c)
unfolding getchar
getchar-First c codes ch rest i e =
    let (d, b, f, i2, q) = first_queued c.keyboard ch rest i e in
    rw (wait-ready codes c.keyboard i d)
      (returns {s = shown c} (ap sext8 f, refl, (i2, q, ap (λ x. echo (sext8 x) c.screen) f)))

-- What a line of at most n characters takes of a queue: up to a LF, which belongs to it, or an
-- EOT, which does not.
abbrev and_first : ℕ → Option (List ℕ × List ℕ) → Option (List ℕ × List ℕ)
and_first ch none = none
and_first ch (some (l, rest)) = some (ch ∷ l, rest)

abbrev pub read_line : ℕ → List ℕ → Option (List ℕ × List ℕ)
read_line zero q = some ([], q)
read_line (suc n) [] = none
read_line (suc n) (ch ∷ q) =
    if ch == eot
    then some ([], q)
    else if ch == 10
    then some (ch ∷ [], q)
    else and_first ch (read_line n q)

sext8-eq : (ch c : ℕ) → ch < 256 → c < 128 → (sext8 ch == c) ≡ (ch == c)
sext8-eq ch c h b = ground arith

eot-echo : (ch : ℕ) (s : Screen) → ch < 256 → (ch == eot) ≡ true → echo (sext8 ch) s ≡ s
eot-echo ch s b t = rw (sext8-eq ch eot b (omega arith), t) refl

char-echo :
    (ch : ℕ) (s : Screen)
    → ch < 256
    → (ch == eot) ≡ false
    → echo (sext8 ch) s ≡ putchar (sext8 ch) s
char-echo ch s b t = rw (sext8-eq ch eot b (omega arith), t) refl

-- What `c_gets` leaves.
abbrev pub Line : Console → List ℕ → List ℕ → List ℕ → List ℕ × List ℕ → Console → Type 0
Line c codes l rest (cs, left) c' =
    (cs ≡ l)
    × (left ≡ codes)
    × IsRing c'.keyboard
    × (queued c'.keyboard ≡ rest)
    × (c'.screen ≡ puts l c.screen)

and_first-some :
    (ch : ℕ) (o : Option (List ℕ × List ℕ)) (l rest : List ℕ)
    → and_first ch o ≡ some (l, rest)
    → (l' : List ℕ) × (o ≡ some (l', rest)) × (l ≡ ch ∷ l')
and_first-some ch none l rest e = absurd (ground arith)
and_first-some ch (some (l', r')) l rest e = (l', cc, cc)

sext8-mod : (ch : ℕ) → ch < 256 → sext8 ch % 256 ≡ ch
sext8-mod ch h = ground arith

module _ (n ch : ℕ) (q l rest : List ℕ) where
  read-eot :
      (ch == eot) ≡ true → read_line (suc n) (ch ∷ q) ≡ some (l, rest) → (l ≡ []) × (q ≡ rest)
  read-eot t r =
      let step : read_line (suc n) (ch ∷ q) ≡ some ([], q) = rw t refl in
      let got = sym step ∙ r in (cc, cc)

  read-feed :
      (ch == eot) ≡ false
      → (ch == 10) ≡ true
      → read_line (suc n) (ch ∷ q) ≡ some (l, rest)
      → (l ≡ ch ∷ []) × (q ≡ rest)
  read-feed t u r =
      let step : read_line (suc n) (ch ∷ q) ≡ some (ch ∷ [], q) = rw (t, u) refl in
      let got = sym step ∙ r in (cc, cc)

  read-char :
      (ch == eot) ≡ false
      → (ch == 10) ≡ false
      → read_line (suc n) (ch ∷ q) ≡ some (l, rest)
      → and_first ch (read_line n q) ≡ some (l, rest)
  read-char t u r =
      let step : read_line (suc n) (ch ∷ q) ≡ and_first ch (read_line n q) = rw (t, u) refl in
      sym step ∙ r

-- A loop's result for the first character, whatever it is.
step-Line :
    (n : ℕ) (codes : List ℕ) (c c1 : Console) (ch : ℕ) (q l rest : List ℕ)
    → ch < 256
    → read_line (suc n) (ch ∷ q) ≡ some (l, rest)
    → First c ch q c1
    → ((l' : List ℕ)
        → read_line n q ≡ some (l', rest)
        → Returns (Line c1 codes l' rest) (gets_loop n codes c1))
    → Returns (Line c codes l rest) (
        if sext8 ch == eot
        then ok ([], codes) c1
        else if sext8 ch == 10
        then ok (sext8 ch % 256 ∷ [], codes) c1
        else and_char (sext8 ch) (gets_loop n codes c1))
unfolding puts
step-Line n codes c c1 ch q l rest b r (i, e, s) more =
    rw (sext8-eq ch eot b (omega arith), sext8-eq ch 10 b (omega arith), sext8-mod ch b)
      (elim (Bool-cases (ch == eot)) [
        | inl t ↦
            let (el, eq) = read-eot n ch q l rest t r in
            rw t (
              returns {a = ([], codes)} {s = c1} (
                sym el,
                refl,
                i,
                e ∙ eq,
                s ∙ eot-echo ch c.screen b t ∙ ap (λ m. puts m c.screen) {x = []} (sym el),
              ))
        | inr t ↦ elim (Bool-cases (ch == 10)) [
          | inl u ↦
              let (el, eq) = read-feed n ch q l rest t u r in
              rw (t, u)
                (returns {a = (ch ∷ [], codes)} {s = c1} (
                  sym el,
                  refl,
                  i,
                  e ∙ eq,
                  s ∙ char-echo ch c.screen b t ∙ ap (λ m. puts m c.screen) {x = ch ∷ []} (sym el),
                ))
          | inr u ↦
              let (l', r', el) =
                and_first-some ch (read_line n q) l rest (read-char n ch q l rest t u r) in
              rw (t, u)
                (bind (more l' r') λ (cs, left) c2 (a, w, i2, q2, s2).
                  returns {a = (ch ∷ cs, left)} {s = c2} (
                    ap (◌∷◌ ch) a ∙ sym el,
                    w,
                    i2,
                    q2,
                    s2
                        ∙ ap (puts l') (s ∙ char-echo ch c.screen b t)
                        ∙ ap (λ m. puts m c.screen) {x = ch ∷ l'} (sym el),
                  ))
        ]
      ])

gets_loop-Line :
    (n : ℕ) (codes : List ℕ) (c : Console) (q l rest : List ℕ)
    → IsRing c.keyboard
    → queued c.keyboard ≡ q
    → read_line n q ≡ some (l, rest)
    → Returns (Line c codes l rest) (gets_loop n codes c)
unfolding gets_loop puts
gets_loop-Line zero codes c q l rest i e r =
    returns {a = ([], codes)} {s = c}
      (cc, refl, i, cc, ap (λ m. puts m c.screen) {x = []} {y = l} cc)
gets_loop-Line (suc n) codes c [] l rest i e r = absurd (ground arith)
gets_loop-Line (suc n) codes c (ch ∷ q) l rest i e r =
    let byte = (first_queued c.keyboard ch q i e).1 in
    bind (getchar-First c codes ch q i e) λ (a, left) c1 (ea, el, first).
      rw (ea, el)
        (step-Line n codes c c1 ch q l rest byte r first
          λ l' r'. gets_loop-Line n codes c1 q l' rest first.0 first.1 r')

-- When the characters that the keyboard holds, up to a LF or an EOT or as many as one less than
-- the size, make up a line, `c_gets` returns that line, takes it from the queue with its EOT,
-- waits for no further scan code, and shows exactly its characters on the screen.
pub gets-Line :
    (c : Console) (codes : List ℕ) (size : ℕ) (l rest : List ℕ)
    → IsRing c.keyboard
    → read_line (size - 1) (queued c.keyboard) ≡ some (l, rest)
    → Returns (Line c codes l rest) (gets size codes c)
unfolding gets
gets-Line c codes size l rest i r =
    gets_loop-Line (size - 1) codes c (queued c.keyboard) l rest i refl r
