-- ===== src/Tests/Serial.antt =====
-- The serial line: characters in both directions, and a buffer that is used up.
use systems_os.Prelude.{ℕ, zero, suc, ◌≡◌, refl, true, false, List, [], ◌∷◌, ◌++◌, map, arith, ◌-◌}
use systems_os.Machine.{fault, Returns}
use systems_os.Sio.{
  Uart, Sio, Event, received, transmitted, sio_modinit, sio_isr, reads, read_loop, writes, puts,
  writec, put_char, enable, transmit, disable, receive,
}
use systems_os.Sio.Input.{ReadSome, limit, reads-ReadSome}
use systems_os.Sio.Output.{PutAll, puts-PutAll}
use systems_os.Sio.Copy.{chars}
use systems_os.Sio.Write.{Wrote, writes-line_feed}
use systems_os.Sio.Isr.{
  IsSio, Handled, Drained, arrived, transmissions, sio_modinit-IsSio, sio_isr-Handled,
  sio_isr-Drained,
}
use systems_os.Sio.Overrun.{sio_isr-overrun, puts-overrun}
use systems_os.Tests.{state_of, Promised, promised}

abbrev pub uart : Uart
uart = record { tx_enable = 2; rx_enable = 1 }

abbrev pub zero_sio : Sio
zero_sio = record {
  in_buffer = λ i. 0;
  in_last = 0;
  in_next = 0;
  in_count = 0;
  out_buffer = λ i. 0;
  out_last = 0;
  out_next = 0;
  out_count = 0;
  sending = false;
  ier = 0;
  sent = [];
  enabled = 0;
}

abbrev pub fresh : Sio
fresh = sio_modinit zero_sio

pub fresh-IsSio : IsSio fresh
fresh-IsSio = (sio_modinit-IsSio zero_sio).0

-- `a`, a carriage return and `b` arrive.
abbrev pub typed : List Event
typed = received 97 ∷ transmitted ∷ received 13 ∷ received 98 ∷ []

sio_isr-Handled_example :
    Returns (λ _ s'. Handled fresh (arrived typed) s') (sio_isr uart typed fresh)
unfolding sio_modinit
sio_isr-Handled_example =
    sio_isr-Handled uart typed fresh (tt, (tt, (tt, (tt, tt)))) fresh-IsSio (omega arith)

abbrev pub heard : Sio
heard = state_of fresh (sio_isr uart typed fresh)

pub heard_lem : Promised (λ (_ : Unit {0}) s'. Handled fresh (arrived typed) s') heard
heard_lem = promised fresh sio_isr-Handled_example

reads-ReadSome_example : Returns (λ cs s'. ReadSome heard (limit 2) cs s') (reads 2 heard)
reads-ReadSome_example = reads-ReadSome heard 2 heard_lem.holds.inv.input

two_read : (state_of fresh (reads 2 heard)).in_next ≡ 2
unfolding reads read_loop sio_isr sio_modinit receive transmit disable
two_read = refl

-- `hi` and a line feed are written, by two ways.
abbrev hi : ℕ → ℕ
hi zero = 104
hi (suc zero) = 105
hi (suc (suc n)) = 10

abbrev feeds : ℕ → ℕ
feeds n = 10

writes-line_feed_example :
    Returns
      (λ n s'. (n ≡ limit 2) × Wrote fresh (13 ∷ (chars feeds 1 (limit 2 - 1) ++ (10 ∷ []))) s')
      (writes uart feeds 2 fresh)
unfolding sio_modinit
writes-line_feed_example =
    writes-line_feed uart feeds 2 fresh fresh-IsSio.output (omega arith) refl refl (omega arith)
      (omega arith)

-- After that the device sends all of it.
abbrev busy : Sio
busy = state_of fresh (puts uart (104 ∷ 10 ∷ []) fresh)

put_all : Returns (λ n s'. PutAll fresh (104 ∷ 10 ∷ []) n s') (puts uart (104 ∷ 10 ∷ []) fresh)
unfolding sio_modinit
put_all = puts-PutAll uart (104 ∷ 10 ∷ []) fresh fresh-IsSio.output (omega arith, omega arith)

busy_lem : Promised (λ n s'. PutAll fresh (104 ∷ 10 ∷ []) n s') busy
busy_lem = promised fresh put_all

sio_isr-Drained_example : Returns (λ _ s'. Drained busy s') (sio_isr uart (transmissions 3) busy)
unfolding puts writec put_char enable sio_modinit
sio_isr-Drained_example = sio_isr-Drained uart 2 busy busy_lem.holds.0 refl

all_sent : (state_of busy (sio_isr uart (transmissions 3) busy)).sent ≡ 104 ∷ 13 ∷ 10 ∷ []
unfolding puts writec put_char enable sio_modinit sio_isr transmit disable
all_sent = refl

-- A buffer of which a place is left at the end although only one character waits.
abbrev late : Sio
late = record fresh {
  in_last = 2047;
  in_next = 2046;
  in_count = 1;
  out_last = 2047;
  sending = true;
}

sio_isr-overrun_example : sio_isr uart (map received (97 ∷ 98 ∷ [])) late ≡ fault
sio_isr-overrun_example =
    sio_isr-overrun uart (97 ∷ 98 ∷ []) late (omega arith) (omega arith) (omega arith)

puts-overrun_example : puts uart (10 ∷ 10 ∷ []) late ≡ fault
puts-overrun_example = puts-overrun uart (10 ∷ 10 ∷ []) late refl (omega arith) (omega arith)
