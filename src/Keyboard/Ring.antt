-- ===== src/Keyboard/Ring.antt =====
-- The circular buffer of the keyboard as a queue of at most 199 characters.
use Prim.Native.Nat.{bit_and}
use systems_os.Prelude.{
  ℕ, zero, suc, ◌+◌, ◌-◌, ◌%◌, ◌<◌, ◌≡◌, refl, Bool, true, false, not, ◌||◌, ◌&&◌, List, [], ◌∷◌,
  ◌++◌, arith, ◌==◌, ltb, if◌then◌else◌, ap, ap₂, sym, ◌∙◌, inl, inr, length, seq, seq-cons,
  seq-congr, length-seq, Bool-cases, ne→eqb,
}
use systems_os.Keyboard.{
  Keyboard, c_bufsize, at_index, plain_keys, shifted_keys, scan_code, increment, add_char,
  store_char, press, scanned, input_scan_code, input_queue, first_char, drop_char,
}

-- Both pointers stay inside.
pub record IsRing (k : Keyboard) : Type 0 where
  pub char : k.next_char < c_bufsize
  pub space : k.next_space < c_bufsize

abbrev pub held : Keyboard → ℕ
held k = (k.next_space + c_bufsize - k.next_char) % 200

abbrev pub key_at : Keyboard → ℕ → ℕ
key_at k i = k.buffer ((k.next_char + i) % 200) % 256

abbrev pub queued : Keyboard → List ℕ
queued k = seq (key_at k) (held k)

-- A queue that drops what does not fit.
abbrev pub offer : List ℕ → ℕ → List ℕ
offer q c = if ltb (length q) 199 then q ++ (c ∷ []) else q

abbrev pub Offered : Keyboard → ℕ → Keyboard → Type 0
Offered k c k' = IsRing k' × (queued k' ≡ offer (queued k) (c % 256))

add_char-Offered :
    (k : Keyboard) (c : ℕ)
    → IsRing k
    → held k < 199
    → IsRing (add_char c k) × (queued (add_char c k) ≡ queued k ++ (c % 256 ∷ []))
add_char-Offered k c i room =
    let more : held (add_char c k) ≡ suc (held k) = ground (arith, i.char, i.space) in
    (
      record { char = i.char; space = ground (arith, i.space) },
      ap (seq (key_at (add_char c k))) more
          ∙ ap₂ (λ l x. l ++ (x ∷ []))
              (seq-congr (key_at (add_char c k)) (key_at k) (held k)
                λ j h. ground (arith, i.char, i.space))
              (ground (arith, i.char, i.space)),
    )

store_char-Offered : (k : Keyboard) (c : ℕ) → IsRing k → Offered k c (store_char c k)
unfolding store_char
store_char-Offered k c i = elim (Bool-cases (increment k.next_space == k.next_char)) [
  | inl t ↦
      let full : ltb (length (queued k)) 199 ≡ false =
        ground (arith, length-seq (key_at k) (held k), i.char, i.space) in
      rw (t, full) (i, refl)
  | inr t ↦
      let room : ltb (length (queued k)) 199 ≡ true =
        ground (arith, length-seq (key_at k) (held k), i.char, i.space) in
      rw (t, room) (add_char-Offered k c i (ground (arith, i.char, i.space)))
]

-- The table holds bytes, so the test for undefined codes never succeeds.
abbrev bytes : List ℕ → Bool
bytes [] = true
bytes (x ∷ xs) = ltb x 256 && bytes xs

at_index-lt : (i : ℕ) (xs : List ℕ) → bytes xs ≡ true → at_index i xs < 256
at_index-lt i [] h = omega arith
at_index-lt zero (x ∷ xs) h = ground arith
at_index-lt (suc i) (x ∷ xs) h = at_index-lt i xs (ground arith)

scan_code-lt : (shift code : ℕ) → scan_code shift code < 256
unfolding scan_code
scan_code-lt shift code = elim (Bool-cases (shift == 0)) [
  | inl t ↦ rw t (at_index-lt code plain_keys refl)
  | inr t ↦ rw t (at_index-lt code shifted_keys refl)
]

press-Offered :
    (k : Keyboard) (code : ℕ)
    → IsRing k
    → Offered k (bit_and (scan_code k.shift code) k.ctrl_mask) (press code k)
press-Offered k code i =
    rw (ne→eqb (scan_code k.shift code) 0xffff_ffff (omega (arith, scan_code-lt k.shift code)))
      (store_char-Offered k (bit_and (scan_code k.shift code) k.ctrl_mask) i)

-- The keys that change the meaning of others, and the character of a code: a key's release has
-- none.
abbrev pub is_modifier : ℕ → Bool
is_modifier b =
    ((b == 0x2a) || (b == 0x36)) || ((b == 0xaa) || (b == 0xb6)) || (b == 0x1d) || (b == 0x9d)

abbrev pub is_press : ℕ → Bool
is_press b = not (is_modifier b) && (bit_and b 0x80 == 0)

abbrev pub char_of : Keyboard → ℕ → ℕ
char_of k b = bit_and (scan_code k.shift b) k.ctrl_mask % 256

-- What the handling of a code leaves.
abbrev pub Scanned : Keyboard → ℕ → Keyboard → Type 0
Scanned k b k' =
    IsRing k' × (queued k' ≡ (if is_press b then offer (queued k) (char_of k b) else queued k))

scanned-Scanned : (k : Keyboard) (b : ℕ) → IsRing k → Scanned k b (scanned b k)
scanned-Scanned k b i = elim (Bool-cases ((b == 0x2a) || (b == 0x36))) [
  | inl t ↦ rw t (record { char = i.char; space = i.space }, refl)
  | inr t1 ↦ elim (Bool-cases ((b == 0xaa) || (b == 0xb6))) [
    | inl t ↦ rw (t1, t) (record { char = i.char; space = i.space }, refl)
    | inr t2 ↦ elim (Bool-cases (b == 0x1d)) [
      | inl t ↦ rw (t1, t2, t) (record { char = i.char; space = i.space }, refl)
      | inr t3 ↦ elim (Bool-cases (b == 0x9d)) [
        | inl t ↦ rw (t1, t2, t3, t) (record { char = i.char; space = i.space }, refl)
        | inr t4 ↦ elim (Bool-cases (bit_and b 0x80 == 0)) [
          | inl t ↦ rw (t1, t2, t3, t4, t) (press-Offered k b i)
          | inr t ↦ rw (t1, t2, t3, t4, t) (i, refl)
        ]
      ]
    ]
  ]
]

-- When both pointers of the keyboard's buffer are inside it, they are after a scan code as well,
-- and the buffer is a queue of at most 199 characters: the press of a key that is no modifier
-- adds the character of the table at its end, undefined codes included, or drops it if 199 are
-- held, and no other code changes the queue.
pub input_scan_code-Scanned :
    (k : Keyboard) (code : ℕ) → IsRing k → Scanned k (bit_and code 0xff) (input_scan_code code k)
unfolding input_scan_code
input_scan_code-Scanned k code i = scanned-Scanned k (bit_and code 0xff) i

pub length-held : (k : Keyboard) → length (queued k) ≡ held k
length-held k = length-seq (key_at k) (held k)

-- `c_input_queue` counts the characters.
pub input_queue_lem : (k : Keyboard) → IsRing k → input_queue k ≡ length (queued k)
unfolding input_queue
input_queue_lem k i = ground (arith, length-held k, i.char, i.space)

pub drop_char_lem :
    (k : Keyboard) (n : ℕ)
    → IsRing k
    → held k ≡ suc n
    → IsRing (drop_char k) × (queued k ≡ first_char k ∷ queued (drop_char k))
drop_char_lem k n i e =
    let less : held (drop_char k) ≡ n = ground (arith, i.char, i.space) in
    (
      record { char = ground (arith, i.char); space = i.space },
      ap (seq (key_at k)) e
          ∙ seq-cons (key_at k) n
          ∙ ap₂ (λ j l. k.buffer j % 256 ∷ l) (omega (arith, i.char))
              (seq-congr (λ j. key_at k (suc j)) (key_at (drop_char k)) n
                  (λ j h. ground (arith, i.char))
                ∙ ap (seq (key_at (drop_char k))) (sym less)),
    )

pub empty_lem : (k : Keyboard) → IsRing k → (k.next_char == k.next_space) ≡ (held k == 0)
empty_lem k i = ground (arith, i.char, i.space)
