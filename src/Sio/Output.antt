-- ===== src/Sio/Output.antt =====
-- The output buffer of sio.c as a queue of characters on their way to the line.
use systems_os.Prelude.{
  ℕ, suc, ◌+◌, ◌-◌, ◌%◌, ◌^◌, ◌≤◌, ◌<◌, ◌≡◌, refl, true, false, ◌&&◌, List, [], ◌∷◌, ◌++◌, arith,
  ◌==◌, ltb, if◌then◌else◌, ap, ap₂, sym, ◌∙◌, inl, inr, length, seq, seq-cons, seq-congr,
  Bool-cases, append_assoc, append-nil,
}
use mathlib.Core.Path.{subst}
use systems_os.Machine.{sub32, ok, fault, Returns, returns, bind, mono}
use systems_os.Sio.{
  Uart, Sio, buf_size, sio_tx, enable, disable, wrapped, send_next, reset_output, transmit,
  store_out, put_char, writec, puts,
}

-- The pointers are where the counts say, round the end of the buffer; nothing waits while nothing
-- is sent; the device's register is what the driver believes.
pub record IsOutput (s : Sio) : Type 0 where
  pub next : s.out_next < buf_size
  pub last : s.out_last ≤ buf_size
  pub count : s.out_count ≤ buf_size
  pub around : (s.out_next + s.out_count) % 2048 ≡ s.out_last % 2048
  pub idle : s.sending ≡ false → s.out_count ≡ 0
  pub register : s.enabled ≡ s.ier

-- The characters that wait, and all that were ever sent or wait.
abbrev pub out_at : Sio → ℕ → ℕ
out_at s k = s.out_buffer ((s.out_next + k) % 2048)

abbrev pub pending : Sio → List ℕ
pending s = seq (out_at s) s.out_count

abbrev pub line : Sio → List ℕ
line s = s.sent ++ pending s

-- The input side has not changed.
pub record SameInput (s s' : Sio) : Type 0 where
  pub buffer : s'.in_buffer ≡ s.in_buffer
  pub last : s'.in_last ≡ s.in_last
  pub next : s'.in_next ≡ s.in_next
  pub count : s'.in_count ≡ s.in_count

-- The next character is sent.
abbrev pub Lined : Sio → List ℕ → Sio → Type 0
Lined s cs s' = IsOutput s' × (line s' ≡ cs) × SameInput s s'

after_wrap : (i k : ℕ) → i < buf_size → (wrapped (i + 1) + k) % 2048 ≡ (i + suc k) % 2048
after_wrap i k h = ground arith

at_next : (i : ℕ) → i < buf_size → i ≡ (i + 0) % 2048
at_next i h = omega arith

pub send_next-Lined :
    (s : Sio) (n : ℕ)
    → IsOutput s
    → s.out_count ≡ suc n
    → s.sending ≡ true
    → Lined s (line s) (send_next s)
send_next-Lined s n i e on =
    let less : sub32 s.out_count 1 ≡ n = omega (arith, i.count) in
    (
      record {
        next = ground (arith, i.next);
        last = i.last;
        count = omega (arith, less, i.count);
        around = ground (arith, i.next, i.around, less);
        idle = λ off. ground (arith, on);
        register = i.register;
      },
      ap (λ l. (s.sent ++ (s.out_buffer s.out_next ∷ [])) ++ l)
            (ap (seq (out_at (send_next s))) less
              ∙ seq-congr (out_at (send_next s)) (λ k. out_at s (suc k)) n
                  λ k h. ap s.out_buffer (after_wrap s.out_next k i.next))
          ∙ append_assoc s.sent (s.out_buffer s.out_next ∷ []) (seq (λ k. out_at s (suc k)) n)
          ∙ ap (λ l. s.sent ++ l)
              (ap (λ j. s.out_buffer j ∷ seq (λ k. out_at s (suc k)) n) (at_next s.out_next i.next)
                ∙ sym (ap (seq (out_at s)) e ∙ seq-cons (out_at s) n)),
      record { buffer = refl; last = refl; next = refl; count = refl },
    )

-- The transmission ends.
reset_output-Lined :
    (u : Uart) (s : Sio)
    → IsOutput s
    → s.out_count ≡ 0
    → Returns (λ _ s'. Lined s (line s) s') (disable u sio_tx (reset_output s))
unfolding disable
reset_output-Lined u s i e = returns (
  record {
    next = omega arith;
    last = omega arith;
    count = omega arith;
    around = refl;
    idle = λ off. refl;
    register = ground (arith, i.register);
  },
  ap (λ n. s.sent ++ seq (out_at (reset_output s)) n) {x = 0} refl
      ∙ ap (λ n. s.sent ++ seq (out_at s) n) (sym e),
  record { buffer = refl; last = refl; next = refl; count = refl },
)

-- A transmitter interrupt keeps what was sent or waits to be sent.
pub transmit-Lined :
    (u : Uart) (s : Sio) → IsOutput s → Returns (λ _ s'. Lined s (line s) s') (transmit u s)
unfolding transmit
transmit-Lined u s i = elim (Bool-cases (s.sending && ltb 0 s.out_count)) [
  | inl t ↦
      let inside : ltb s.out_next buf_size ≡ true = ground (arith, i.next) in
      rw (t, inside) (returns (send_next-Lined s (s.out_count - 1) i (ground arith) (ground arith)))
  | inr t ↦ rw t (bind (reset_output-Lined u s i (ground (arith, i.idle))) λ _ s' l. returns l)
]

-- Where there is room, a character is put behind all others.
abbrev pub HasRoom : Sio → ℕ → Type 0
HasRoom s n = (s.out_last + n ≤ buf_size) × (s.out_count + n ≤ buf_size)

store_out-Lined :
    (s : Sio) (c : ℕ)
    → IsOutput s
    → s.out_last < buf_size
    → s.out_count < buf_size
    → s.sending ≡ true
    → Lined s (line s ++ (c % 256 ∷ [])) (store_out c s)
store_out-Lined s c i room space on =
    let more : (s.out_count + 1) % 2 ^ 32 ≡ suc s.out_count = omega (arith, i.count) in
    let end : (s.out_next + s.out_count) % 2048 ≡ s.out_last = omega (arith, i.around) in
    (
      record {
        next = i.next;
        last = omega arith;
        count = omega arith;
        around = omega (arith, i.around);
        idle = λ off. ground (arith, on);
        register = i.register;
      },
      ap (λ n. s.sent ++ seq (out_at (store_out c s)) n) more
          ∙ ap₂ (λ l x. s.sent ++ (l ++ (x ∷ [])))
              (seq-congr (out_at (store_out c s)) (out_at s) s.out_count
                λ k h. ground (arith, i.next, i.count, end))
              (ground (arith, end))
          ∙ sym (append_assoc s.sent (pending s) (c % 256 ∷ [])),
      record { buffer = refl; last = refl; next = refl; count = refl },
    )

-- What the writing of the characters `cs` leaves; `n` bounds what it takes of the buffer.
pub record Put (s : Sio) (cs : List ℕ) (n : ℕ) (s' : Sio) : Type 0 where
  pub output : IsOutput s'
  pub line : line s' ≡ line s ++ cs
  pub input : SameInput s s'
  pub on : s'.sending ≡ true
  pub last : s'.out_last ≤ s.out_last + n
  pub count : s'.out_count ≤ s.out_count + n

Put-trans :
    (s t w : Sio) (cs ds : List ℕ) (m n : ℕ)
    → Put s cs m t
    → Put t ds n w
    → Put s (cs ++ ds) (m + n) w
Put-trans s t w cs ds m n a b = record {
  output = b.output;
  line = b.line ∙ ap (λ l. l ++ ds) a.line ∙ append_assoc (line s) cs ds;
  input = record {
    buffer = b.input.buffer ∙ a.input.buffer;
    last = b.input.last ∙ a.input.last;
    next = b.input.next ∙ a.input.next;
    count = b.input.count ∙ a.input.count;
  };
  on = b.on;
  last = omega (arith, a.last, b.last);
  count = omega (arith, a.count, b.count);
}

first_sent :
    (u : Uart) (s : Sio) (c : ℕ)
    → IsOutput s
    → s.sending ≡ false
    → Returns (λ _ s'. Put s (c % 256 ∷ []) 1 s') (put_char u c s)
unfolding put_char enable
first_sent u s c i off =
    let none_left : s.out_count ≡ 0 = i.idle off in
    rw off (
      returns (record {
        output = record {
          next = i.next;
          last = i.last;
          count = i.count;
          around = i.around;
          idle = λ f. cc;
          register = ground (arith, i.register);
        };
        line =
            ap (λ n. (s.sent ++ (c % 256 ∷ [])) ++ seq (out_at s) n) none_left
            ∙ append-nil (s.sent ++ (c % 256 ∷ []))
            ∙ ap (λ l. l ++ (c % 256 ∷ []))
                (sym (append-nil s.sent) ∙ ap (λ n. s.sent ++ seq (out_at s) n) (sym none_left));
        input = record { buffer = refl; last = refl; next = refl; count = refl };
        on = refl;
        last = omega arith;
        count = omega arith;
      }))

pub put_char-on :
    (u : Uart) (s : Sio) (c : ℕ)
    → s.sending ≡ true
    → s.out_last < buf_size
    → put_char u c s ≡ ok tt (store_out c s)
unfolding put_char
put_char-on u s c on room = ground arith

pub put_char-Put :
    (u : Uart) (s : Sio) (c : ℕ)
    → IsOutput s
    → s.out_last < buf_size
    → s.out_count < buf_size
    → Returns (λ _ s'. Put s (c % 256 ∷ []) 1 s') (put_char u c s)
put_char-Put u s c i room space = elim (Bool-cases s.sending) [
  | inl on ↦
      let (o, l, same) = store_out-Lined s c i room space on in
      subst (Returns (λ _ s'. Put s (c % 256 ∷ []) 1 s')) (sym (put_char-on u s c on room)) (
        returns (record {
          output = o;
          line = l;
          input = same;
          on = on;
          last = omega arith;
          count = omega (arith, i.count);
        }))
  | inr off ↦ first_sent u s c i off
]

-- A line feed goes out behind a carriage return.
abbrev pub lf_to_crlf : ℕ → List ℕ
lf_to_crlf c = if c == 10 then 13 ∷ 10 ∷ [] else c % 256 ∷ []

-- One character, with a CR before a LF.
pub writec-Put :
    (u : Uart) (s : Sio) (c : ℕ)
    → IsOutput s
    → HasRoom s 2
    → Returns (λ _ s'. Put s (lf_to_crlf c) 2 s') (writec u c s)
unfolding writec
writec-Put u s c i (room, space) = elim (Bool-cases (c == 10)) [
  | inl t ↦ rw t (
      bind (put_char-Put u s 13 i (omega arith) (omega arith)) λ _ s1 a.
        mono (put_char-Put u s1 10 a.output (omega (arith, a.last)) (omega (arith, a.count)))
          λ _ s2 b. Put-trans s s1 s2 (13 ∷ []) (10 ∷ []) 1 1 a b)
  | inr t ↦ rw t (
      mono (put_char-Put u s c i (omega arith) (omega arith)) λ _ s' a. record {
        output = a.output;
        line = a.line;
        input = a.input;
        on = a.on;
        last = omega (arith, a.last);
        count = omega (arith, a.count);
      })
]

-- A buffer that is used up, which no wrap of the pointer prevents, is overrun.
pub put_char-overrun :
    (u : Uart) (s : Sio) (c : ℕ) → s.sending ≡ true → s.out_last ≡ buf_size → put_char u c s ≡ fault
unfolding put_char
put_char-overrun u s c on used = ground arith

-- The characters of a string as they go out.
abbrev pub crlf : List ℕ → List ℕ
crlf [] = []
crlf (c ∷ cs) = lf_to_crlf c ++ crlf cs

abbrev pub PutAll : Sio → List ℕ → ℕ → Sio → Type 0
PutAll s cs n s' = IsOutput s' × (line s' ≡ line s ++ crlf cs) × (n ≡ length cs) × SameInput s s'

-- From a well-formed output buffer with room for twice the length of a string, `_sio_puts`
-- returns its length, and its characters, with a CR before each LF, are on their way behind all
-- others; the buffer is well formed and the input has not changed.
pub puts-PutAll :
    (u : Uart) (cs : List ℕ) (s : Sio)
    → IsOutput s
    → HasRoom s (length cs + length cs)
    → Returns (λ n s'. PutAll s cs n s') (puts u cs s)
unfolding puts
puts-PutAll u [] s i room = returns (
  i,
  sym (append-nil (line s)),
  refl,
  record { buffer = refl; last = refl; next = refl; count = refl },
)
puts-PutAll u (c ∷ cs) s i room = bind (writec-Put u s c i (omega arith, omega arith)) λ _ s1 a.
    bind (puts-PutAll u cs s1 a.output (omega (arith, a.last), omega (arith, a.count)))
      λ n s2 (o, l, e, same). returns (
        o,
        l ∙ ap (λ m. m ++ crlf cs) a.line ∙ append_assoc (line s) (lf_to_crlf c) (crlf cs),
        omega (arith, e),
        record {
          buffer = same.buffer ∙ a.input.buffer;
          last = same.last ∙ a.input.last;
          next = same.next ∙ a.input.next;
          count = same.count ∙ a.input.count;
        },
      )
