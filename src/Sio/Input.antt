-- ===== src/Sio/Input.antt =====
-- The input buffer of sio.c as a queue of characters.
use systems_os.Prelude.{
  ℕ, zero, suc, ◌+◌, ◌-◌, ◌%◌, ◌^◌, ◌≤◌, ◌<◌, ◌≡◌, refl, true, false, ◌&&◌, List, [], ◌∷◌, ◌++◌,
  arith, ltb, leb, ◌⊎◌, ℕ_discrete, if◌then◌else◌, ap, ap₂, sym, ◌∙◌, inl, inr, length, seq,
  seq-cons, seq-congr, Bool-cases,
}
use systems_os.Machine.{sub32, ok, fault, Returns, returns, bind}
use systems_os.Sio.{
  Sio, buf_size, cr_to_lf, store_in, receive, reset_input, taken, moved, readc, below, read_loop,
  reads,
}

-- The pointers are where the counts say; the last pointer never wraps.
pub record IsInput (s : Sio) : Type 0 where
  pub last : s.in_last ≡ s.in_next + s.in_count
  pub bound : s.in_last ≤ buf_size

-- The characters that are waiting, oldest first.
abbrev pub in_at : Sio → ℕ → ℕ
in_at s k = s.in_buffer (s.in_next + k) % 256

abbrev pub waiting : Sio → List ℕ
waiting s = seq (in_at s) s.in_count

-- The output side has not changed.
pub record SameOutput (s s' : Sio) : Type 0 where
  pub buffer : s'.out_buffer ≡ s.out_buffer
  pub last : s'.out_last ≡ s.out_last
  pub next : s'.out_next ≡ s.out_next
  pub count : s'.out_count ≡ s.out_count
  pub sending : s'.sending ≡ s.sending
  pub sent : s'.sent ≡ s.sent
  pub ier : s'.ier ≡ s.ier
  pub enabled : s'.enabled ≡ s.enabled

same_output :
    (s : Sio) (buffer : ℕ → ℕ) (last next count : ℕ)
    → SameOutput s
        (record s { in_buffer = buffer; in_last = last; in_next = next; in_count = count })
same_output s buffer last next count = record {
  buffer = refl;
  last = refl;
  next = refl;
  count = refl;
  sending = refl;
  sent = refl;
  ier = refl;
  enabled = refl;
}

SameOutput-trans : (s t w : Sio) → SameOutput s t → SameOutput t w → SameOutput s w
SameOutput-trans s t w a b = record {
  buffer = b.buffer ∙ a.buffer;
  last = b.last ∙ a.last;
  next = b.next ∙ a.next;
  count = b.count ∙ a.count;
  sending = b.sending ∙ a.sending;
  sent = b.sent ∙ a.sent;
  ier = b.ier ∙ a.ier;
  enabled = b.enabled ∙ a.enabled;
}

-- What a received character leaves.
abbrev pub Received : Sio → ℕ → Sio → Type 0
Received s c s' =
    IsInput s'
    × (s'.in_last ≡ s.in_last + 1)
    × (waiting s' ≡ waiting s ++ (cr_to_lf c % 256 ∷ []))
    × SameOutput s s'

-- A received character waits behind all others.
pub receive-Received :
    (s : Sio) (c : ℕ)
    → IsInput s
    → s.in_last < buf_size
    → Returns (λ _ s'. Received s c s') (receive c s)
unfolding receive
receive-Received s c i room =
    let some_room : ltb s.in_count buf_size ≡ true = ground (arith, i.last) in
    let inside : ltb s.in_last buf_size ≡ true = ground arith in
    let count : (s.in_count + 1) % 2 ^ 32 ≡ suc s.in_count = omega (arith, i.last) in
    rw (some_room, inside)
      (returns {s = store_in c s} (
        record { last = omega (arith, i.last); bound = omega arith },
        refl,
        ap (seq (in_at (store_in c s))) count
            ∙ ap₂ (λ l x. l ++ (x ∷ []))
                (seq-congr (in_at (store_in c s)) (in_at s) s.in_count
                  λ k h. ground (arith, i.last))
                (ground (arith, i.last)),
        same_output s (store_in c s).in_buffer (s.in_last + 1) s.in_next (store_in c s).in_count,
      ))

-- A full buffer drops the character, and a buffer that is used up but not full is overrun.
pub receive-full : (s : Sio) (c : ℕ) → s.in_count ≡ buf_size → receive c s ≡ ok tt s
unfolding receive
receive-full s c full = ground arith

pub receive-overrun :
    (s : Sio) (c : ℕ) → s.in_last ≡ buf_size → s.in_count < buf_size → receive c s ≡ fault
unfolding receive
receive-overrun s c last room = ground arith

-- The first character that waits leaves the queue.
head_waiting :
    (s : Sio) (n : ℕ) → s.in_count ≡ suc n → waiting s ≡ in_at s 0 ∷ seq (λ k. in_at s (suc k)) n
head_waiting s n e = ap (seq (in_at s)) e ∙ seq-cons (in_at s) n

reset-IsInput :
    (s : Sio)
    → IsInput s
    → IsInput (reset_input s) × (waiting (reset_input s) ≡ waiting s) × SameOutput s (reset_input s)
reset-IsInput s i = elim (Bool-cases (ltb s.in_count 1)) [
  | inl t ↦
      let none_left : s.in_count ≡ 0 = ground arith in
      rw t (
        record { last = omega arith; bound = omega arith },
        ap (seq _) none_left ∙ sym (ap (seq (in_at s)) none_left),
        same_output s s.in_buffer 0 0 s.in_count,
      )
  | inr t ↦ rw t (i, refl, same_output s s.in_buffer s.in_last s.in_next s.in_count)
]

-- What a read of one character leaves.
abbrev pub Read : Sio → ℕ → Sio → Type 0
Read s c s' = IsInput s' × (waiting s ≡ c ∷ waiting s') × SameOutput s s'

next_index : (i k : ℕ) → i + suc k ≡ i + 1 + k
next_index i k = omega arith

one_less : (s : Sio) (n : ℕ) → s.in_count ≡ suc n → IsInput s → sub32 s.in_count 1 ≡ n
one_less s n e i = omega (arith, i.last, i.bound)

taken-Read : (s : Sio) (n : ℕ) → IsInput s → s.in_count ≡ suc n → Read s (in_at s 0) (taken s)
taken-Read s n i e = (
  record { last = omega (arith, i.last, one_less s n e i); bound = i.bound },
  head_waiting s n e
      ∙ ap (◌∷◌ (in_at s 0)) (
          seq-congr (λ k. in_at s (suc k)) (in_at (taken s)) n
            (λ k h. ap (λ j. s.in_buffer j % 256) (next_index s.in_next k))
          ∙ ap (seq (in_at (taken s))) (sym (one_less s n e i))),
  same_output s s.in_buffer s.in_last (s.in_next + 1) (taken s).in_count,
)

no_count : (s : Sio) → s.in_count ≡ 0 → ltb 0 s.in_count ≡ false
no_count s e = ground arith

-- Within the buffer no pointer wraps, so both ways to move on agree.
moved-taken : (s : Sio) → IsInput s → ltb 0 s.in_count ≡ true → moved s ≡ taken s
moved-taken s i t =
    let same : (if ltb buf_size (s.in_next + 1) then 0 else s.in_next + 1) ≡ s.in_next + 1 =
      ground (arith, i.last, i.bound) in
    ap (λ (j : ℕ). record s { in_next = j; in_count = sub32 s.in_count 1 }) same

-- From a well-formed input buffer, `_sio_readc` returns: either nothing waited, its result is -1
-- and nothing has changed, or the result is the first character that waited, the others wait,
-- the buffer is well formed and the output has not changed.
pub readc-Read :
    (s : Sio)
    → IsInput s
    → Returns (λ c s'. ((waiting s ≡ []) × (c ≡ 0xffff_ffff) × (s' ≡ s)) ⊎ Read s c s') (readc s)
unfolding readc
readc-Read s i = elim (ℕ_discrete s.in_count 0) [
  | yes e ↦ rw (no_count s e) (returns (inl (ap (seq (in_at s)) e, refl, refl)))
  | no d ↦
      let some_count : ltb 0 s.in_count ≡ true = ground arith in
      let inside : ltb s.in_next buf_size ≡ true = ground (arith, i.last, i.bound) in
      let (i1, w, o) = taken-Read s (s.in_count - 1) i (omega arith) in
      let (i2, w2, o2) = reset-IsInput (taken s) i1 in
      rw (some_count, inside)
        (returns {s = reset_input (taken s)} (
          inr (
            i2,
            w ∙ sym (ap₂ (λ j c. s.in_buffer j % 256 ∷ c) (omega arith) w2),
            SameOutput-trans s (taken s) (reset_input (taken s)) o o2,
          )))
]

-- The size of a user's buffer, an `int`, as a number.
abbrev pub limit : ℕ → ℕ
limit size = if ltb size 0x8000_0000 then size else 0

abbrev pub min : ℕ → ℕ → ℕ
min a b = if leb a b then a else b

-- What a read of several characters leaves.
abbrev pub ReadSome : Sio → ℕ → List ℕ → Sio → Type 0
ReadSome s n cs s' =
    IsInput s' × (waiting s ≡ cs ++ waiting s') × (length cs ≡ min s.in_count n) × SameOutput s s'

read_loop-ReadSome :
    (fuel copied size : ℕ) (s : Sio)
    → IsInput s
    → s.in_count < fuel
    → Returns (λ cs s'. ReadSome s (limit size - copied) cs s') (read_loop fuel copied size s)
unfolding read_loop
read_loop-ReadSome zero copied size s i h = absurd (omega arith)
read_loop-ReadSome (suc fuel) copied size s i h =
    elim (Bool-cases (ltb 0 s.in_count && below copied size)) [
      | inl t ↦
          let inside : ltb s.in_next buf_size ≡ true = ground (arith, i.last, i.bound) in
          let (i1, w, o) = taken-Read s (s.in_count - 1) i (ground arith) in
          rw (t, inside, moved-taken s i (ground arith))
            (bind
              (read_loop-ReadSome fuel (copied + 1) size (taken s) i1
                (ground (arith, i.last, i.bound)))
              λ cs s' (i2, w2, l, o2). returns (
                i2,
                w ∙ ap₂ (λ j l. s.in_buffer j % 256 ∷ l) (omega arith) w2,
                ground (arith, l, i.last, i.bound),
                SameOutput-trans s (taken s) s' o o2,
              ))
      | inr t ↦ rw t (
          returns (i, refl, ground arith, same_output s s.in_buffer s.in_last s.in_next s.in_count))
    ]

-- From a well-formed input buffer, `_sio_reads` returns: the characters that waited are those
-- that it puts into the user's buffer, as many as wait or as it was asked for, followed by those
-- that wait then; the buffer is well formed and the output has not changed.
pub reads-ReadSome :
    (s : Sio) (size : ℕ)
    → IsInput s
    → Returns (λ cs s'. ReadSome s (limit size) cs s') (reads size s)
unfolding reads
reads-ReadSome s size i = elim (Bool-cases (ltb s.in_count 1)) [
  | inl t ↦
      rw t
        (returns (i, refl, ground arith, same_output s s.in_buffer s.in_last s.in_next s.in_count))
  | inr t ↦ rw t (
      bind (read_loop-ReadSome (suc s.in_count) 0 size s i (omega arith)) λ cs s' (i1, w, l, o).
        let (i2, w2, o2) = reset-IsInput s' i1 in
        returns (
          i2,
          w ∙ ap (λ l. cs ++ l) (sym w2),
          l ∙ ap (min s.in_count) (omega arith),
          SameOutput-trans s s' (reset_input s') o o2,
        ))
]
