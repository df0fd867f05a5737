-- ===== src/Sio/Isr.antt =====
-- The interrupt handler of sio.c: the composition of the two directions.
use systems_os.Prelude.{
  ℕ, zero, suc, ◌+◌, ◌%◌, ◌≤◌, ◌≡◌, refl, true, false, List, [], ◌∷◌, ◌++◌, arith, length,
  length-append, ap, ap₂, sym, ◌∙◌, append_assoc, append-nil, seq, ltb, ◌&&◌,
}
use systems_os.Machine.{ok, Returns, returns, bind, mono, and_then}
use systems_os.Sio.{
  Uart, Sio, buf_size, cr_to_lf, Event, line_status, received, fifo_timeout, transmitted,
  modem_status, unknown, handle, sio_isr, transmit, disable, send_next, sio_modinit,
}
use systems_os.Sio.Input.{IsInput, in_at, waiting, SameOutput, receive-Received}
use systems_os.Sio.Output.{IsOutput, out_at, line, SameInput, send_next-Lined, transmit-Lined}
use mathlib.Core.Path.{subst}

-- Both buffers are well formed.
pub record IsSio (s : Sio) : Type 0 where
  pub input : IsInput s
  pub output : IsOutput s

SameInput-IsInput : (s s' : Sio) → SameInput s s' → IsInput s → IsInput s'
SameInput-IsInput s s' e i = record {
  last = omega (arith, e.last, e.next, e.count, i.last);
  bound = omega (arith, e.last, i.bound);
}

pub SameInput-waiting : (s s' : Sio) → SameInput s s' → waiting s' ≡ waiting s
SameInput-waiting s s' e =
    ap₂ (λ b n. seq (λ k. b (n + k) % 256) s'.in_count) e.buffer e.next ∙ ap (seq (in_at s)) e.count

SameOutput-IsOutput : (s s' : Sio) → SameOutput s s' → IsOutput s → IsOutput s'
SameOutput-IsOutput s s' e i = record {
  next = omega (arith, e.next, i.next);
  last = omega (arith, e.last, i.last);
  count = omega (arith, e.count, i.count);
  around = omega (arith, e.next, e.count, e.last, i.around);
  idle = λ off. e.count ∙ i.idle (sym e.sending ∙ off);
  register = e.enabled ∙ i.register ∙ sym e.ier;
}

pub SameOutput-line : (s s' : Sio) → SameOutput s s' → line s' ≡ line s
SameOutput-line s s' e =
    ap₂ (λ l p. l ++ p) e.sent
      (ap₂ (λ b n. seq (λ k. b ((n + k) % 2048)) s'.out_count) e.buffer e.next
        ∙ ap (seq (out_at s)) e.count)

-- The characters that events bring, as they are stored.
abbrev pub brought : Event → List ℕ
brought line_status = []
brought (received c) = cr_to_lf c % 256 ∷ []
brought fifo_timeout = []
brought transmitted = []
brought modem_status = []
brought unknown = []

abbrev pub arrived : List Event → List ℕ
arrived [] = []
arrived (e ∷ es) = brought e ++ arrived es

abbrev pub Known : Event → Type 0
Known unknown = ⊥
Known line_status = Unit
Known (received c) = Unit
Known fifo_timeout = Unit
Known transmitted = Unit
Known modem_status = Unit

abbrev pub AllKnown : List Event → Type 0
AllKnown [] = Unit
AllKnown (e ∷ es) = Known e × AllKnown es

-- What the handling of events leaves.
pub record Handled (s : Sio) (cs : List ℕ) (s' : Sio) : Type 0 where
  pub inv : IsSio s'
  pub waiting : waiting s' ≡ waiting s ++ cs
  pub line : line s' ≡ line s
  pub last : s'.in_last ≡ s.in_last + length cs

unchanged : (s : Sio) → IsSio s → Handled s [] s
unchanged s i = record {
  inv = i;
  waiting = sym (append-nil (waiting s));
  line = refl;
  last = omega arith;
}

handle-Handled :
    (u : Uart) (e : Event) (s : Sio)
    → Known e
    → IsSio s
    → s.in_last + length (brought e) ≤ buf_size
    → Returns (λ _ s'. Handled s (brought e) s') (handle u e s)
handle-Handled u line_status s k i room = returns (unchanged s i)
handle-Handled u (received c) s k i room =
    mono (receive-Received s c i.input (omega arith)) λ _ s' (o, l, w, same). record {
      inv = record { input = o; output = SameOutput-IsOutput s s' same i.output };
      waiting = w;
      line = SameOutput-line s s' same;
      last = l;
    }
handle-Handled u fifo_timeout s k i room = returns (unchanged s i)
handle-Handled u transmitted s k i room = mono (transmit-Lined u s i.output) λ _ s' (o, l, same).
    record {
      inv = record { input = SameInput-IsInput s s' same i.input; output = o };
      waiting = SameInput-waiting s s' same ∙ sym (append-nil (waiting s));
      line = l;
      last = same.last ∙ omega arith;
    }
handle-Handled u modem_status s k i room = returns (unchanged s i)
handle-Handled u unknown s k i room = absurd k

-- From well-formed buffers, when the device reports no unknown event and the characters that it
-- brings fit behind the last one of the input buffer, `_sio_isr` returns: the buffers are well
-- formed, those characters, with each CR made a LF, wait behind the ones that waited, and what
-- was sent or waits to be sent is the same.
pub sio_isr-Handled :
    (u : Uart) (es : List Event) (s : Sio)
    → AllKnown es
    → IsSio s
    → s.in_last + length (arrived es) ≤ buf_size
    → Returns (λ _ s'. Handled s (arrived es) s') (sio_isr u es s)
unfolding sio_isr
sio_isr-Handled u [] s k i room = returns (unchanged s i)
sio_isr-Handled u (e ∷ es) s (k, ks) i room =
    let count = length-append (brought e) (arrived es) in
    bind (handle-Handled u e s k i (omega (arith, count))) λ _ s1 a.
      mono (sio_isr-Handled u es s1 ks a.inv (omega (arith, count, a.last))) λ _ s2 b. record {
        inv = b.inv;
        waiting =
            b.waiting
            ∙ ap (λ l. l ++ arrived es) a.waiting
            ∙ append_assoc (waiting s) (brought e) (arrived es);
        line = b.line ∙ a.line;
        last = omega (arith, a.last, b.last, count);
      }

-- The set-up leaves both buffers empty.
pub sio_modinit-IsSio :
    (s : Sio)
    → IsSio (sio_modinit s) × (waiting (sio_modinit s) ≡ []) × (line (sio_modinit s) ≡ s.sent)
unfolding sio_modinit
sio_modinit-IsSio s = (
  record {
    input = record { last = omega arith; bound = omega arith };
    output = record {
      next = omega arith;
      last = omega arith;
      count = omega arith;
      around = refl;
      idle = λ off. refl;
      register = refl;
    };
  },
  refl,
  append-nil s.sent,
)

-- As many transmitter interrupts in a row.
abbrev pub transmissions : ℕ → List Event
transmissions zero = []
transmissions (suc n) = transmitted ∷ transmissions n

-- The line has gone idle.
pub record Drained (s s' : Sio) : Type 0 where
  pub output : IsOutput s'
  pub sent : s'.sent ≡ line s
  pub idle : s'.sending ≡ false
  pub start : (s'.out_next ≡ 0) × (s'.out_last ≡ 0) × (s'.out_count ≡ 0)

transmit-Next :
    (u : Uart) (s : Sio) (n : ℕ)
    → IsOutput s
    → s.out_count ≡ suc n
    → s.sending ≡ true
    → transmit u s ≡ ok tt (send_next s)
unfolding transmit
transmit-Next u s n i e on = ground (arith, i.next)

transmit-End :
    (u : Uart) (s : Sio)
    → IsOutput s
    → s.out_count ≡ 0
    → Returns (λ _ s'. Drained s s') (transmit u s)
unfolding transmit disable
transmit-End u s i e =
    let off : (s.sending && ltb 0 s.out_count) ≡ false = ground arith in
    rw off (
      returns (record {
        output = record {
          next = omega arith;
          last = omega arith;
          count = omega arith;
          around = refl;
          idle = λ _. refl;
          register = ground (arith, i.register);
        };
        sent = sym (append-nil s.sent) ∙ ap (λ n. s.sent ++ seq (out_at s) n) (sym e);
        idle = refl;
        start = (refl, refl, refl);
      }))

-- From a well-formed output buffer in which n characters wait, `_sio_isr` returns after n + 1
-- transmitter interrupts: all that waited has been sent in its order, the line is idle and the
-- pointers are at the start of the buffer.
pub sio_isr-Drained :
    (u : Uart) (n : ℕ) (s : Sio)
    → IsOutput s
    → s.out_count ≡ n
    → Returns (λ _ s'. Drained s s') (sio_isr u (transmissions (suc n)) s)
unfolding sio_isr
sio_isr-Drained u zero s i e = bind (transmit-End u s i e) λ _ s' d. returns d
sio_isr-Drained u (suc n) s i e =
    let on : s.sending ≡ true = ground (arith, i.idle) in
    let (o, l, same) = send_next-Lined s n i e on in
    subst
      (λ r.
        Returns (λ _ s'. Drained s s') (and_then r λ _ s'. sio_isr u (transmissions (suc n)) s'))
      (sym (transmit-Next u s n i e on))
      (mono (sio_isr-Drained u n (send_next s) o (omega (arith, i.count)))
        λ _ s' d. record { output = d.output; sent = d.sent ∙ l; idle = d.idle; start = d.start })
