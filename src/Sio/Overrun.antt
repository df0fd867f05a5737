-- ===== src/Sio/Overrun.antt =====
-- What the missing wrap of `_inlast` and, in `_sio_writec`, of `_outlast` leads to.
use systems_os.Prelude.{
  ℕ, ◌+◌, ◌≤◌, ◌<◌, ◌≡◌, true, List, [], ◌∷◌, arith, map, length, ap, ◌∙◌, ℕ_discrete, Bool-cases,
  ◌==◌, inl, inr, ◌⊎◌,
}
use systems_os.Machine.{Run, ok, fault, and_then, add32}
use systems_os.Sio.{
  Uart, Sio, buf_size, store_in, received, sio_isr, receive, store_out, writec, puts,
}
use systems_os.Sio.Input.{receive-overrun}
use systems_os.Sio.Output.{put_char-overrun, put_char-on}

receive-stored :
    (s : Sio) (c : ℕ)
    → s.in_last < buf_size
    → s.in_count < buf_size
    → receive c s ≡ ok tt (store_in c s)
unfolding receive
receive-stored s c room space = ground arith

-- If some place before the last character of the input buffer is free, so that the buffer is not
-- full, then characters that are more than the places behind the last one overrun the buffer:
-- `_sio_isr` of them ends in a fault.
pub sio_isr-overrun :
    (u : Uart) (cs : List ℕ) (s : Sio)
    → s.in_last ≤ buf_size
    → s.in_count < s.in_last
    → buf_size < s.in_last + length cs
    → sio_isr u (map received cs) s ≡ fault
unfolding sio_isr
sio_isr-overrun u [] s bound started many = absurd (omega arith)
sio_isr-overrun u (c ∷ cs) s bound started many =
    let go : Run Sio (Unit {0}) → Run Sio (Unit {0}) =
      λ r. and_then r λ _ s'. sio_isr u (map received cs) s' in
    elim (ℕ_discrete s.in_last buf_size) [
      | yes full ↦ ap go (receive-overrun s c full (omega arith))
      | no d ↦
          ap go (receive-stored s c (omega arith) (omega arith))
          ∙ sio_isr-overrun u cs (store_in c s) (omega arith) (omega arith) (omega arith)
    ]

writec-overrun :
    (u : Uart) (s : Sio) (c : ℕ) → s.sending ≡ true → s.out_last ≡ buf_size → writec u c s ≡ fault
unfolding writec
writec-overrun u s c on used =
    ground (arith, put_char-overrun u s c on used, put_char-overrun u s 13 on used)

-- What a character leaves of a busy line: it is stored, or the buffer is overrun.
abbrev feed : Sio → Sio
feed s = store_out 10 (store_out 13 s)

writec-cases :
    (u : Uart) (s : Sio) (c : ℕ)
    → s.sending ≡ true
    → s.out_last < buf_size
    → (writec u c s ≡ fault)
      ⊎ (writec u c s ≡ ok tt (store_out c s))
      ⊎ ((writec u c s ≡ ok tt (feed s)) × (s.out_last + 1 < buf_size))
unfolding writec
writec-cases u s c on room = elim (Bool-cases (c == 10)) [
  | inr t ↦ rw t (inr (inl (put_char-on u s c on room)))
  | inl t ↦
      rw (t, put_char-on u s 13 on room)
        (elim (ℕ_discrete (s.out_last + 1) buf_size) [
          | yes used ↦ inl (put_char-overrun u (store_out 13 s) 10 on used)
          | no d ↦ inr (inr (put_char-on u (store_out 13 s) 10 on (omega arith), omega arith))
        ])
]

-- On a busy line, a string of more characters than the places behind the last one of the output
-- buffer overruns it: `_sio_puts` of it ends in a fault, whatever room there is at the buffer's
-- start.
pub puts-overrun :
    (u : Uart) (cs : List ℕ) (s : Sio)
    → s.sending ≡ true
    → s.out_last ≤ buf_size
    → buf_size < s.out_last + length cs
    → puts u cs s ≡ fault
unfolding puts
puts-overrun u [] s on bound many = absurd (omega arith)
puts-overrun u (c ∷ cs) s on bound many =
    let go : Run Sio (Unit {0}) → Run Sio ℕ =
      λ r. and_then r λ _ s'. and_then (puts u cs s') λ n s2. ok (add32 n 1) s2 in
    let next : Run Sio ℕ → Run Sio ℕ = λ r. and_then r λ n s2. ok (add32 n 1) s2 in
    elim (ℕ_discrete s.out_last buf_size) [
      | yes used ↦ ap go (writec-overrun u s c on used)
      | no d ↦ elim (writec-cases u s c on (omega arith)) [
        | inl e ↦ ap go e
        | inr (inl e) ↦
            ap go e ∙ ap next (puts-overrun u cs (store_out c s) on (omega arith) (omega arith))
        | inr (inr (e, more)) ↦
            ap go e ∙ ap next (puts-overrun u cs (feed s) on (omega arith) (omega arith))
      ]
    ]
