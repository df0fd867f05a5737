-- ===== src/Sio.antt =====
-- sio.c: the driver of the serial line. A pointer into a buffer is its distance from the buffer's
-- start; a use beyond the buffer is a fault.
pub mod Input
pub mod Output
pub mod Copy
pub mod Write
pub mod Isr
pub mod Overrun
use Prim.Native.Nat.{bit_and, bit_or}
use systems_os.Prelude.{
  ℕ, zero, suc, ◌+◌, ◌-◌, ◌%◌, ◌^◌, Bool, true, false, ◌&&◌, List, [], ◌∷◌, ◌++◌, ◌==◌, ltb, leb,
  if◌then◌else◌,
}
use systems_os.Machine.{ok, panic, fault, out_of_fuel, Cmd, and_then, add32, sub32}

-- `BUF_SIZE`, and `SIO_TX` and `SIO_RX` of sio.h.
abbrev pub buf_size : ℕ
buf_size = 2048

abbrev pub sio_tx : ℕ
sio_tx = 1

abbrev pub sio_rx : ℕ
sio_rx = 2

-- The bits of the interrupt enable register, which the header uart.h of the device names.
pub record Uart : Type 0 where
  pub tx_enable : ℕ
  pub rx_enable : ℕ

-- The variables of sio.c, with what the device was told: the characters that were written to its
-- transmitter, oldest first, and its interrupt enable register.
pub record Sio : Type 0 where
  pub in_buffer : ℕ → ℕ
  pub in_last : ℕ
  pub in_next : ℕ
  pub in_count : ℕ
  pub out_buffer : ℕ → ℕ
  pub out_last : ℕ
  pub out_next : ℕ
  pub out_count : ℕ
  pub sending : Bool
  pub ier : ℕ
  pub sent : List ℕ
  pub enabled : ℕ

-- `_sio_modinit`, without the rate and the format of the line.
unfoldable pub sio_modinit : Sio → Sio
sio_modinit s = record s {
  in_buffer = λ i. if ltb i buf_size then 0 else s.in_buffer i;
  in_last = 0;
  in_next = 0;
  in_count = 0;
  out_buffer = λ i. if ltb i buf_size then 0 else s.out_buffer i;
  out_last = 0;
  out_next = 0;
  out_count = 0;
  sending = false;
  ier = 0;
  enabled = 0;
}

-- What `_sio_enable` and `_sio_disable` make of the register, and its writing if it has changed.
abbrev pub enabling : Uart → ℕ → ℕ → ℕ
enabling u which old =
    let with_tx = if bit_and which sio_tx == 0 then old else bit_or old u.tx_enable in
    if bit_and which sio_rx == 0 then with_tx else bit_or with_tx u.rx_enable

abbrev pub disabling : Uart → ℕ → ℕ → ℕ
disabling u which old =
    let without_tx = if bit_and which sio_tx == 0 then old else bit_and old (255 - u.tx_enable) in
    if bit_and which sio_rx == 0 then without_tx else bit_and without_tx (255 - u.rx_enable)

abbrev pub set_ier : ℕ → Cmd Sio ℕ
set_ier new s = ok s.ier (record s { ier = new; enabled = if s.ier == new then s.enabled else new })

-- `_sio_enable` and `_sio_disable`; the result is the old setting.
unfoldable pub enable : Uart → ℕ → Cmd Sio ℕ
enable u which s = set_ier (enabling u which s.ier) s

unfoldable pub disable : Uart → ℕ → Cmd Sio ℕ
disable u which s = set_ier (disabling u which s.ier) s

-- `_sio_input_queue`.
unfoldable pub input_queue : Sio → ℕ
input_queue s = s.in_count

-- A character that was received: a CR becomes a LF, and it is stored if there is room.
abbrev pub cr_to_lf : ℕ → ℕ
cr_to_lf c = if c == 13 then 10 else c

abbrev pub store_in : ℕ → Sio → Sio
store_in c s = record s {
  in_buffer = λ i. if i == s.in_last then cr_to_lf c % 256 else s.in_buffer i;
  in_last = s.in_last + 1;
  in_count = add32 s.in_count 1;
}

unfoldable pub receive : ℕ → Cmd Sio (Unit {0})
receive c s =
    if ltb s.in_count buf_size
    then if ltb s.in_last buf_size then ok tt (store_in c s) else fault
    else ok tt s

-- The transmitter is free: the next character is sent, or the transmission ends.
abbrev pub wrapped : ℕ → ℕ
wrapped i = if leb buf_size i then 0 else i

abbrev pub send_next : Sio → Sio
send_next s = record s {
  sent = s.sent ++ (s.out_buffer s.out_next ∷ []);
  out_next = wrapped (s.out_next + 1);
  out_count = sub32 s.out_count 1;
}

abbrev pub reset_output : Sio → Sio
reset_output s = record s { out_count = 0; out_last = 0; out_next = 0; sending = false }

unfoldable pub transmit : Uart → Cmd Sio (Unit {0})
unfolding disable
transmit u s =
    if s.sending && ltb 0 s.out_count
    then if ltb s.out_next buf_size then ok tt (send_next s) else fault
    else and_then (disable u sio_tx (reset_output s)) λ _ s'. ok tt s'

-- What the device has to report, decoded from its event register.
pub data Event : Type 0 where
  line_status : Event
  received : ℕ → Event
  fifo_timeout : Event
  transmitted : Event
  modem_status : Event
  unknown : Event

abbrev pub handle : Uart → Event → Cmd Sio (Unit {0})
handle u line_status s = ok tt s
handle u (received c) s = receive c s
handle u fifo_timeout s = ok tt s
handle u transmitted s = transmit u s
handle u modem_status s = ok tt s
handle u unknown s = panic

-- `_sio_isr`, with what the device reports until it reports nothing.
unfoldable pub sio_isr : Uart → List Event → Cmd Sio (Unit {0})
sio_isr u [] s = ok tt s
sio_isr u (e ∷ es) s = and_then (handle u e s) λ _ s'. sio_isr u es s'

-- The input buffer is reset when it is empty.
abbrev pub reset_input : Sio → Sio
reset_input s = if ltb s.in_count 1 then record s { in_last = 0; in_next = 0 } else s

-- `_sio_readc`; the result -1 is `0xffff_ffff`.
abbrev pub taken : Sio → Sio
taken s = record s { in_next = s.in_next + 1; in_count = sub32 s.in_count 1 }

unfoldable pub readc : Cmd Sio ℕ
readc s =
    if ltb 0 s.in_count
    then if ltb s.in_next buf_size
      then ok (s.in_buffer s.in_next % 256) (reset_input (taken s))
      else fault
    else ok 0xffff_ffff s

-- `a < b` for an `int` b and a number a that is not negative.
abbrev pub below : ℕ → ℕ → Bool
below a b = ltb b 0x8000_0000 && ltb a b

-- A round of the loop of `_sio_reads` moves a character; `more` is the rest of the loop.
abbrev pub moved : Sio → Sio
moved s = record s {
  in_next = if ltb buf_size (s.in_next + 1) then 0 else s.in_next + 1;
  in_count = sub32 s.in_count 1;
}

abbrev pub take_char : Cmd Sio (List ℕ) → Cmd Sio (List ℕ)
take_char more s =
    if ltb s.in_next buf_size
    then (and_then (more (moved s)) λ cs s'. ok (s.in_buffer s.in_next % 256 ∷ cs) s')
    else fault

-- The loop; the result is what it puts into the user's buffer.
unfoldable pub read_loop : ℕ → ℕ → ℕ → Cmd Sio (List ℕ)
read_loop zero copied size s = out_of_fuel
read_loop (suc fuel) copied size s =
    let more = read_loop fuel (copied + 1) size in
    if ltb 0 s.in_count && below copied size then take_char more s else ok [] s

-- `_sio_reads`. The count that it returns is the length of the list.
unfoldable pub reads : ℕ → Cmd Sio (List ℕ)
reads size s =
    if ltb s.in_count 1
    then ok [] s
    else and_then (read_loop (suc s.in_count) 0 size s) λ cs s'. ok cs (reset_input s')

-- A character is put behind the last one of the output buffer.
abbrev pub store_out : ℕ → Sio → Sio
store_out c s = record s {
  out_buffer = λ i. if i == s.out_last then c % 256 else s.out_buffer i;
  out_last = s.out_last + 1;
  out_count = add32 s.out_count 1;
}

-- `_sio_writec` after the mapping of LF.
unfoldable pub put_char : Uart → ℕ → Cmd Sio (Unit {0})
unfolding enable
put_char u c s =
    if s.sending
    then if ltb s.out_last buf_size then ok tt (store_out c s) else fault
    else and_then (enable u sio_tx (record s { sending = true; sent = s.sent ++ (c % 256 ∷ []) }))
        λ _ s'. ok tt s'

-- `_sio_writec`.
unfoldable pub writec : Uart → ℕ → Cmd Sio (Unit {0})
writec u c s =
    if c == 10 then (and_then (put_char u 13 s) λ _ s'. put_char u 10 s') else put_char u c s

-- The loop of `_sio_writes`; the result is the count of characters copied.
unfoldable pub write_loop : ℕ → (ℕ → ℕ) → ℕ → ℕ → Cmd Sio ℕ
write_loop zero buf copied size s = out_of_fuel
write_loop (suc fuel) buf copied size s =
    let stored = store_out (buf copied) s in
    let more =
      write_loop fuel buf (copied + 1) size
        (record stored { out_last = wrapped stored.out_last }) in
    if below copied size && ltb s.out_count buf_size
    then if ltb s.out_last buf_size then more else fault
    else ok copied s

-- `_sio_writes`, with the user's buffer as a function. No more than `BUF_SIZE` rounds are made.
abbrev pub send_first : Uart → (ℕ → ℕ) → ℕ → Cmd Sio ℕ
send_first u buf copied s =
    if s.sending then ok copied s else and_then (writec u (buf 0) s) λ _ s'. ok copied s'

unfoldable pub writes : Uart → (ℕ → ℕ) → ℕ → Cmd Sio ℕ
writes u buf size s =
    and_then (write_loop (suc buf_size) buf (if s.sending then 0 else 1) size s) (send_first u buf)

-- `_sio_puts`, with the string as the list of its characters; the result is their number.
unfoldable pub puts : Uart → List ℕ → Cmd Sio ℕ
puts u [] s = ok 0 s
puts u (c ∷ cs) s =
    and_then (writec u c s) λ _ s'. and_then (puts u cs s') λ n s2. ok (add32 n 1) s2
