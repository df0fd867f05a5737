-- ===== src/Sio/Write.antt =====
-- `_sio_writes`: what becomes of a buffer of characters.
use systems_os.Prelude.{
  ℕ, suc, ◌+◌, ◌-◌, ◌%◌, ◌≤◌, ◌<◌, ◌≡◌, ◌≢◌, refl, Bool, true, false, List, [], ◌∷◌, ◌++◌, arith,
  if◌then◌else◌, ap, ap₂, sym, ◌∙◌, inl, inr, seq, length-seq, Bool-cases, ne→eqb, append_assoc,
  append-nil,
}
use mathlib.Core.Path.{subst}
use systems_os.Machine.{Run, and_then, ok, Returns, returns, bind, mono}
use systems_os.Sio.{Uart, Sio, buf_size, enable, put_char, writec, write_loop, send_first, writes}
use systems_os.Sio.Input.{limit}
use systems_os.Sio.Output.{IsOutput, out_at, pending, line, SameInput, put_char-Put}
use systems_os.Sio.Copy.{chars, IsRing, chars-cons, Copied, room_for, write_loop-Copied}

-- The first character starts the transmission.
record Primed (s : Sio) (c : ℕ) (s' : Sio) : Type 0 where
  output : IsOutput s'
  sent : s'.sent ≡ s.sent ++ (c % 256 ∷ [])
  pending : pending s' ≡ pending s
  on : s'.sending ≡ true
  input : SameInput s s'
  last : s'.out_last ≡ s.out_last
  count : s'.out_count ≡ s.out_count

put_char-Primed :
    (u : Uart) (s : Sio) (c : ℕ)
    → IsRing s
    → s.enabled ≡ s.ier
    → s.sending ≡ false
    → Returns (λ _ s'. Primed s c s') (put_char u c s)
unfolding put_char enable
put_char-Primed u s c i reg off = rw off (
    returns (record {
      output = record {
        next = i.next;
        last = i.last;
        count = i.count;
        around = i.around;
        idle = λ f. cc;
        register = ground (arith, reg);
      };
      sent = refl;
      pending = refl;
      on = refl;
      input = record { buffer = refl; last = refl; next = refl; count = refl };
      last = refl;
      count = refl;
    }))

Copied-IsOutput : (s : Sio) (cs : List ℕ) (t : Sio) → s.sending ≡ true → Copied s cs t → IsOutput t
Copied-IsOutput s cs t on c = record {
  next = c.ring.next;
  last = c.ring.last;
  count = c.ring.count;
  around = c.ring.around;
  idle = λ off. ground (arith, c.sending, on);
  register = c.register;
}

IsOutput-IsRing : (s : Sio) → IsOutput s → IsRing s
IsOutput-IsRing s i = record { next = i.next; last = i.last; count = i.count; around = i.around }

abbrev pub Wrote : Sio → List ℕ → Sio → Type 0
Wrote s cs s' = IsOutput s' × (line s' ≡ line s ++ cs) × SameInput s s'

copied_at :
    (u : Uart) (buf : ℕ → ℕ) (size : ℕ) (s : Sio) (b : Bool)
    → s.sending ≡ b
    → writes u buf size s
      ≡ and_then (write_loop (suc buf_size) buf (if b then 0 else 1) size s) (send_first u buf)
unfolding writes
copied_at u buf size s b e =
    ap
      (λ c. and_then (write_loop (suc buf_size) buf (if c then 0 else 1) size s) (send_first u buf))
      e

send_first-on :
    (u : Uart) (buf : ℕ → ℕ) (n : ℕ) (s : Sio) → s.sending ≡ true → send_first u buf n s ≡ ok n s
send_first-on u buf n s on =
    ap (λ c. if c then ok n s else (and_then (writec u (buf 0) s) λ _ s'. ok n s')) on

send_first-off :
    (u : Uart) (buf : ℕ → ℕ) (n : ℕ) (s : Sio)
    → s.sending ≡ false
    → send_first u buf n s ≡ and_then (writec u (buf 0) s) (λ _ s'. ok n s')
send_first-off u buf n s off =
    ap (λ c. if c then ok n s else (and_then (writec u (buf 0) s) λ _ s'. ok n s')) off

-- Writes to a busy line.
writes-busy :
    (u : Uart) (buf : ℕ → ℕ) (size : ℕ) (s : Sio)
    → IsOutput s
    → s.out_last < buf_size
    → s.sending ≡ true
    → Returns (λ n s'. (n ≡ room_for s size 0) × Wrote s (chars buf 0 n) s') (writes u buf size s)
writes-busy u buf size s i room on =
    let goal : Run Sio ℕ → Type 0 =
      Returns (λ n s'. (n ≡ room_for s size 0) × Wrote s (chars buf 0 n) s') in
    subst goal (sym (copied_at u buf size s true on)) (
      bind
        (write_loop-Copied (suc buf_size) buf 0 size s (IsOutput-IsRing s i) i.register room
          (omega arith))
        λ n s' (e, c). subst goal (sym (send_first-on u buf n s' (c.sending ∙ on))) (
          returns (
            omega (arith, e),
            (
              Copied-IsOutput s (chars buf 0 (room_for s size 0)) s' on c,
              ap₂ (λ a b. a ++ b) c.sent c.pending
                  ∙ sym (append_assoc s.sent (pending s) (chars buf 0 (room_for s size 0)))
                  ∙ ap (λ m. line s ++ chars buf 0 m) {x = room_for s size 0} {y = n}
                      (omega (arith, e)),
              c.input,
            ),
          )))

nothing_pending : (s : Sio) → s.out_count ≡ 0 → line s ≡ s.sent
nothing_pending s e = ap (λ n. s.sent ++ seq (out_at s) n) e ∙ append-nil s.sent

-- The first character goes out before the copied ones.
Primed-Wrote :
    (s t s' : Sio) (c : ℕ) (cs : List ℕ)
    → s.out_count ≡ 0
    → Copied s cs t
    → Primed t c s'
    → Wrote s (c % 256 ∷ cs) s'
Primed-Wrote s t s' c cs none_left a p = (
  p.output,
  ap₂ (λ a b. a ++ b) (p.sent ∙ ap (λ l. l ++ (c % 256 ∷ [])) a.sent)
        (p.pending ∙ a.pending ∙ ap (λ k. seq (out_at s) k ++ cs) none_left)
      ∙ append_assoc s.sent (c % 256 ∷ []) cs
      ∙ ap (λ l. l ++ (c % 256 ∷ cs)) (sym (nothing_pending s none_left)),
  record {
    buffer = p.input.buffer ∙ a.input.buffer;
    last = p.input.last ∙ a.input.last;
    next = p.input.next ∙ a.input.next;
    count = p.input.count ∙ a.input.count;
  },
)

-- Writes to an idle line.
writes-idle :
    (u : Uart) (buf : ℕ → ℕ) (size : ℕ) (s : Sio)
    → IsOutput s
    → s.out_last < buf_size
    → s.sending ≡ false
    → buf 0 ≢ 10
    → Returns
        (λ n s'. (n ≡ suc (room_for s size 1)) × Wrote s (chars buf 0 n) s')
        (writes u buf size s)
unfolding writec
writes-idle u buf size s i room off d =
    let goal : Run Sio ℕ → Type 0 =
      Returns (λ n s'. (n ≡ suc (room_for s size 1)) × Wrote s (chars buf 0 n) s') in
    subst goal (sym (copied_at u buf size s false off)) (
      bind
        (write_loop-Copied (suc buf_size) buf 1 size s (IsOutput-IsRing s i) i.register room
          (omega arith))
        λ n t (e, c). subst goal (sym (send_first-off u buf n t (c.sending ∙ off))) (
          rw (ne→eqb (buf 0) 10 d) (
            bind (put_char-Primed u t (buf 0) c.ring c.register (c.sending ∙ off)) λ _ s' p.
              returns (
                omega (arith, e),
                subst (λ cs. Wrote s cs s')
                    (sym (
                      ap (chars buf 0) {x = n} {y = suc (room_for s size 1)} (omega (arith, e))
                      ∙ chars-cons buf 0 (room_for s size 1)))
                    (Primed-Wrote s t s' (buf 0) (chars buf 1 (room_for s size 1)) (i.idle off) c
                      p),
              ))))

-- How many characters are taken: of an idle line the first goes out at once.
abbrev pub accepted : Sio → ℕ → ℕ
accepted s size = if s.sending then room_for s size 0 else suc (room_for s size 1)

-- From a well-formed output buffer whose last place is not used up, and if the line is busy or
-- the first character is no LF, `_sio_writes` returns: its result is the number of characters
-- that it took, which is the given length, or the room and, on an idle line, one; these
-- characters are on their way behind all others in their order, the buffer is well formed and
-- the input has not changed.
pub writes-Wrote :
    (u : Uart) (buf : ℕ → ℕ) (size : ℕ) (s : Sio)
    → IsOutput s
    → s.out_last < buf_size
    → (s.sending ≡ false → buf 0 ≢ 10)
    → Returns (λ n s'. (n ≡ accepted s size) × Wrote s (chars buf 0 n) s') (writes u buf size s)
writes-Wrote u buf size s i room d = elim (Bool-cases s.sending) [
  | inl on ↦ mono (writes-busy u buf size s i room on) λ n s' (e, w).
      (e ∙ ap (λ b. if b then room_for s size 0 else suc (room_for s size 1)) (sym on), w)
  | inr off ↦ mono (writes-idle u buf size s i room off (d off)) λ n s' (e, w).
      (e ∙ ap (λ b. if b then room_for s size 0 else suc (room_for s size 1)) (sym off), w)
]

-- From a well-formed output buffer of an idle line, a `_sio_writes` of at most 2048 characters
-- that begin with a LF returns their number, but a CR, then the characters behind the first, and
-- then the LF are on their way: the LF goes out last.
pub writes-line_feed :
    (u : Uart) (buf : ℕ → ℕ) (size : ℕ) (s : Sio)
    → IsOutput s
    → s.out_last < buf_size
    → s.sending ≡ false
    → buf 0 ≡ 10
    → 0 < limit size
    → limit size ≤ buf_size
    → Returns
        (λ n s'. (n ≡ limit size) × Wrote s (13 ∷ (chars buf 1 (limit size - 1) ++ (10 ∷ []))) s')
        (writes u buf size s)
unfolding writec
writes-line_feed u buf size s i room off feed some small =
    let goal : Run Sio ℕ → Type 0 =
      Returns (λ n s'.
        (n ≡ limit size) × Wrote s (13 ∷ (chars buf 1 (limit size - 1) ++ (10 ∷ []))) s') in
    let m : room_for s size 1 ≡ limit size - 1 = ground (arith, i.idle off) in
    let cs = chars buf 1 (room_for s size 1) in
    subst goal (sym (copied_at u buf size s false off)) (
      bind
        (write_loop-Copied (suc buf_size) buf 1 size s (IsOutput-IsRing s i) i.register room
          (omega arith))
        λ n t (e, c). subst goal (sym (send_first-off u buf n t (c.sending ∙ off))) (
          rw feed (
            bind
              (bind (put_char-Primed u t 13 c.ring c.register (c.sending ∙ off)) λ _ s1 p.
                let (o, l, same) = Primed-Wrote s t s1 13 cs (i.idle off) c p in
                mono
                  (put_char-Put u s1 10 o (omega (arith, p.last, c.last)) (
                    omega (
                      arith,
                      p.count,
                      c.count,
                      i.idle off,
                      length-seq (λ k. buf (1 + k) % 256) (room_for s size 1),
                      m,
                    )))
                  λ _ s2 q. (
                    q.output,
                    q.line ∙ ap (λ l. l ++ (10 ∷ [])) l ∙ append_assoc (line s) (13 ∷ cs) (10 ∷ []),
                    record {
                      buffer = q.input.buffer ∙ same.buffer;
                      last = q.input.last ∙ same.last;
                      next = q.input.next ∙ same.next;
                      count = q.input.count ∙ same.count;
                    },
                  ))
              λ _ s2 w. returns (
                omega (arith, e, m),
                subst (λ j. Wrote s (13 ∷ (chars buf 1 j ++ (10 ∷ []))) s2) m w,
              ))))
