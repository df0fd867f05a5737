-- ===== src/Sio/Copy.antt =====
-- The loop of `_sio_writes`, which copies characters behind those that wait.
use systems_os.Prelude.{
  ℕ, zero, suc, ◌+◌, ◌-◌, ◌%◌, ◌^◌, ◌≤◌, ◌<◌, ◌≡◌, refl, true, ◌&&◌, List, [], ◌∷◌, ◌++◌, arith,
  ltb, ap, ap₂, sym, ◌∙◌, inl, inr, length, seq, seq-cons, seq-congr, Bool-cases, append_assoc,
  append-nil,
}
use mathlib.Core.Path.{subst}
use systems_os.Machine.{Returns, returns, mono}
use systems_os.Sio.{Sio, buf_size, wrapped, store_out, below, write_loop}
use systems_os.Sio.Input.{limit, min}
use systems_os.Sio.Output.{out_at, pending, SameInput}

-- The pointers of the output buffer alone.
pub record IsRing (s : Sio) : Type 0 where
  pub next : s.out_next < buf_size
  pub last : s.out_last ≤ buf_size
  pub count : s.out_count ≤ buf_size
  pub around : (s.out_next + s.out_count) % 2048 ≡ s.out_last % 2048

abbrev pub chars : (ℕ → ℕ) → ℕ → ℕ → List ℕ
chars buf i n = seq (λ k. buf (i + k) % 256) n

pub chars-cons : (buf : ℕ → ℕ) (i n : ℕ) → chars buf i (suc n) ≡ buf i % 256 ∷ chars buf (i + 1) n
chars-cons buf i n =
    seq-cons (λ k. buf (i + k) % 256) n
    ∙ ap₂ (λ j l. buf j % 256 ∷ l) (omega arith)
        (seq-congr (λ k. buf (i + suc k) % 256) (λ k. buf (i + 1 + k) % 256) n
          λ k h. ap (λ j. buf j % 256) (omega arith))

-- What copying leaves.
pub record Copied (s : Sio) (cs : List ℕ) (s' : Sio) : Type 0 where
  pub ring : IsRing s'
  pub pending : pending s' ≡ pending s ++ cs
  pub sent : s'.sent ≡ s.sent
  pub sending : s'.sending ≡ s.sending
  pub register : s'.enabled ≡ s'.ier
  pub input : SameInput s s'
  pub last : s'.out_last < buf_size
  pub count : s'.out_count ≡ s.out_count + length cs

abbrev stored : ℕ → Sio → Sio
stored c s = record (store_out c s) { out_last = wrapped (s.out_last + 1) }

stored-Copied :
    (s : Sio) (c : ℕ)
    → IsRing s
    → s.enabled ≡ s.ier
    → s.out_last < buf_size
    → s.out_count < buf_size
    → Copied s (c % 256 ∷ []) (stored c s)
stored-Copied s c i reg room space =
    let more : (s.out_count + 1) % 2 ^ 32 ≡ suc s.out_count = omega (arith, i.count) in
    let end : (s.out_next + s.out_count) % 2048 ≡ s.out_last = omega (arith, i.around) in
    record {
      ring = record {
        next = i.next;
        last = ground arith;
        count = omega arith;
        around = ground (arith, i.around);
      };
      pending =
          ap (seq (out_at (stored c s))) more
          ∙ ap₂ (λ l x. l ++ (x ∷ []))
              (seq-congr (out_at (stored c s)) (out_at s) s.out_count
                λ k h. ground (arith, i.next, i.count, end))
              (ground (arith, end));
      sent = refl;
      sending = refl;
      register = reg;
      input = record { buffer = refl; last = refl; next = refl; count = refl };
      last = ground arith;
      count = omega arith;
    }

Copied-nil : (s : Sio) → IsRing s → s.enabled ≡ s.ier → s.out_last < buf_size → Copied s [] s
Copied-nil s i reg room = record {
  ring = i;
  pending = sym (append-nil (pending s));
  sent = refl;
  sending = refl;
  register = reg;
  input = record { buffer = refl; last = refl; next = refl; count = refl };
  last = room;
  count = omega arith;
}

Copied-cons :
    (s t w : Sio) (c : ℕ) (cs : List ℕ) → Copied s (c ∷ []) t → Copied t cs w → Copied s (c ∷ cs) w
Copied-cons s t w c cs a b = record {
  ring = b.ring;
  pending = b.pending ∙ ap (λ l. l ++ cs) a.pending ∙ append_assoc (pending s) (c ∷ []) cs;
  sent = b.sent ∙ a.sent;
  sending = b.sending ∙ a.sending;
  register = b.register;
  input = record {
    buffer = b.input.buffer ∙ a.input.buffer;
    last = b.input.last ∙ a.input.last;
    next = b.input.next ∙ a.input.next;
    count = b.input.count ∙ a.input.count;
  };
  last = b.last;
  count = omega (arith, a.count, b.count);
}

abbrev pub room_for : Sio → ℕ → ℕ → ℕ
room_for s size copied = min (limit size - copied) (buf_size - s.out_count)

pub write_loop-Copied :
    (fuel : ℕ) (buf : ℕ → ℕ) (copied size : ℕ) (s : Sio)
    → IsRing s
    → s.enabled ≡ s.ier
    → s.out_last < buf_size
    → buf_size - s.out_count < fuel
    → Returns
        (λ n s'.
          (n ≡ copied + room_for s size copied)
          × Copied s (chars buf copied (room_for s size copied)) s')
        (write_loop fuel buf copied size s)
unfolding write_loop
write_loop-Copied zero buf copied size s i reg room h = absurd (omega arith)
write_loop-Copied (suc fuel) buf copied size s i reg room h =
    elim (Bool-cases (below copied size && ltb s.out_count buf_size)) [
      | inl t ↦
          let inside : ltb s.out_last buf_size ≡ true = ground arith in
          let one = stored-Copied s (buf copied) i reg room (ground arith) in
          let less : room_for s size copied
              ≡ suc (room_for (stored (buf copied) s) size (copied + 1)) =
            ground (arith, one.count) in
          rw (t, inside)
            (mono
              (write_loop-Copied fuel buf (copied + 1) size (stored (buf copied) s) one.ring
                one.register one.last (ground (arith, one.count)))
              λ n s' (e, more). (
                omega (arith, e, less),
                subst (λ m. Copied s (chars buf copied m) s') (sym less)
                    (subst (λ cs. Copied s cs s')
                      (sym (
                        chars-cons buf copied (room_for (stored (buf copied) s) size (copied + 1))))
                      (Copied-cons s (stored (buf copied) s) s' (buf copied % 256)
                        (chars buf (copied + 1)
                          (room_for (stored (buf copied) s) size (copied + 1)))
                        one more)),
              ))
      | inr t ↦
          let none_left : room_for s size copied ≡ 0 = ground (arith, i.count) in
          rw t (
            returns (
              omega (arith, none_left),
              subst (λ m. Copied s (chars buf copied m) s) (sym none_left)
                  (Copied-nil s i reg room),
            ))
    ]
