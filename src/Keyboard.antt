-- ===== src/Keyboard.antt =====
-- c_io.c: the keyboard, whose characters go through a circular buffer. A pointer into the buffer is
-- its distance from the buffer's start.
pub mod Ring
use Prim.Native.Nat.{bit_and}
use systems_os.Prelude.{
  ℕ, zero, suc, ◌+◌, ◌-◌, ◌%◌, ◌^◌, Bool, true, false, ◌||◌, List, [], ◌∷◌, ◌==◌, ltb, leb,
  if◌then◌else◌,
}
use systems_os.Machine.{ok, out_of_fuel, Cmd}

-- The characters of the keys, without and with shift.
abbrev plain_keys : List ℕ
plain_keys =
    255 ∷ 27 ∷ 49 ∷ 50 ∷ 51 ∷ 52 ∷ 53 ∷ 54 ∷ 55 ∷ 56 ∷ 57 ∷ 48 ∷ 45 ∷ 61 ∷ 8 ∷ 9 ∷ 113 ∷ 119 ∷ 101
    ∷ 114 ∷ 116 ∷ 121 ∷ 117 ∷ 105 ∷ 111 ∷ 112 ∷ 91 ∷ 93 ∷ 10 ∷ 255 ∷ 97 ∷ 115 ∷ 100 ∷ 102 ∷ 103
    ∷ 104 ∷ 106 ∷ 107 ∷ 108 ∷ 59 ∷ 39 ∷ 96 ∷ 255 ∷ 92 ∷ 122 ∷ 120 ∷ 99 ∷ 118 ∷ 98 ∷ 110 ∷ 109 ∷ 44
    ∷ 46 ∷ 47 ∷ 255 ∷ 42 ∷ 255 ∷ 32 ∷ 255 ∷ 255 ∷ 255 ∷ 255 ∷ 255 ∷ 255 ∷ 255 ∷ 255 ∷ 255 ∷ 255
    ∷ 255 ∷ 255 ∷ 255 ∷ 55 ∷ 56 ∷ 57 ∷ 45 ∷ 52 ∷ 53 ∷ 54 ∷ 43 ∷ 49 ∷ 50 ∷ 51 ∷ 48 ∷ 46 ∷ 255 ∷ 255
    ∷ 255 ∷ 255 ∷ 255 ∷ 255 ∷ 255 ∷ 255 ∷ 255 ∷ 255 ∷ 255 ∷ 255 ∷ 255 ∷ 255 ∷ 255 ∷ 255 ∷ 255 ∷ 255
    ∷ 255 ∷ 255 ∷ 255 ∷ 255 ∷ 255 ∷ 255 ∷ 255 ∷ 255 ∷ 255 ∷ 255 ∷ 255 ∷ 255 ∷ 255 ∷ 255 ∷ 255 ∷ 255
    ∷ 255 ∷ 255 ∷ 255 ∷ 255 ∷ 255 ∷ 255 ∷ 255 ∷ 255 ∷ 255 ∷ 255 ∷ []

abbrev shifted_keys : List ℕ
shifted_keys =
    255 ∷ 27 ∷ 33 ∷ 64 ∷ 35 ∷ 36 ∷ 37 ∷ 94 ∷ 38 ∷ 42 ∷ 40 ∷ 41 ∷ 95 ∷ 43 ∷ 8 ∷ 9 ∷ 81 ∷ 87 ∷ 69 ∷ 82
    ∷ 84 ∷ 89 ∷ 85 ∷ 73 ∷ 79 ∷ 80 ∷ 123 ∷ 125 ∷ 10 ∷ 255 ∷ 65 ∷ 83 ∷ 68 ∷ 70 ∷ 71 ∷ 72 ∷ 74 ∷ 75
    ∷ 76 ∷ 58 ∷ 34 ∷ 126 ∷ 255 ∷ 124 ∷ 90 ∷ 88 ∷ 67 ∷ 86 ∷ 66 ∷ 78 ∷ 77 ∷ 60 ∷ 62 ∷ 63 ∷ 255 ∷ 42
    ∷ 255 ∷ 32 ∷ 255 ∷ 255 ∷ 255 ∷ 255 ∷ 255 ∷ 255 ∷ 255 ∷ 255 ∷ 255 ∷ 255 ∷ 255 ∷ 255 ∷ 255 ∷ 55
    ∷ 56 ∷ 57 ∷ 45 ∷ 52 ∷ 53 ∷ 54 ∷ 43 ∷ 49 ∷ 50 ∷ 51 ∷ 48 ∷ 46 ∷ 255 ∷ 255 ∷ 255 ∷ 255 ∷ 255 ∷ 255
    ∷ 255 ∷ 255 ∷ 255 ∷ 255 ∷ 255 ∷ 255 ∷ 255 ∷ 255 ∷ 255 ∷ 255 ∷ 255 ∷ 255 ∷ 255 ∷ 255 ∷ 255 ∷ 255
    ∷ 255 ∷ 255 ∷ 255 ∷ 255 ∷ 255 ∷ 255 ∷ 255 ∷ 255 ∷ 255 ∷ 255 ∷ 255 ∷ 255 ∷ 255 ∷ 255 ∷ 255 ∷ 255
    ∷ 255 ∷ 255 ∷ 255 ∷ 255 ∷ 255 ∷ 255 ∷ []

abbrev at_index : ℕ → List ℕ → ℕ
at_index i [] = 0
at_index zero (x ∷ xs) = x
at_index (suc i) (x ∷ xs) = at_index i xs

unfoldable pub scan_code : ℕ → ℕ → ℕ
scan_code shift code = if shift == 0 then at_index code plain_keys else at_index code shifted_keys

-- `C_BUFSIZE`.
abbrev pub c_bufsize : ℕ
c_bufsize = 200

-- The buffer with its pointers, and the state of the shift and control keys.
pub record Keyboard : Type 0 where
  pub buffer : ℕ → ℕ
  pub next_char : ℕ
  pub next_space : ℕ
  pub shift : ℕ
  pub ctrl_mask : ℕ

-- The variables as they are initialized.
abbrev pub start_keyboard : (ℕ → ℕ) → Keyboard
start_keyboard buffer = record {
  buffer = buffer;
  next_char = 0;
  next_space = 0;
  shift = 0;
  ctrl_mask = 0xff;
}

-- `__c_increment`.
abbrev pub increment : ℕ → ℕ
increment pointer = if leb c_bufsize (pointer + 1) then 0 else pointer + 1

-- A character is stored if there is room.
abbrev pub add_char : ℕ → Keyboard → Keyboard
add_char c k = record k {
  buffer = λ i. if i == k.next_space then c % 256 else k.buffer i;
  next_space = increment k.next_space;
}

unfoldable pub store_char : ℕ → Keyboard → Keyboard
store_char c k = if increment k.next_space == k.next_char then k else add_char c k

-- The press of an ordinary key. The code of the table is an `unsigned char`; it is compared with a
-- `char` that is -1.
abbrev pub press : ℕ → Keyboard → Keyboard
press code k =
    if scan_code k.shift code == 0xffff_ffff
    then k
    else store_char (bit_and (scan_code k.shift code) k.ctrl_mask) k

-- `__c_input_scan_code`.
abbrev pub scanned : ℕ → Keyboard → Keyboard
scanned code k =
    if (code == 0x2a) || (code == 0x36)
    then record k { shift = 1 }
    else if (code == 0xaa) || (code == 0xb6)
    then record k { shift = 0 }
    else if code == 0x1d
    then record k { ctrl_mask = 0x1f }
    else if code == 0x9d
    then record k { ctrl_mask = 0xff }
    else if bit_and code 0x80 == 0
    then press code k
    else k

unfoldable pub input_scan_code : ℕ → Keyboard → Keyboard
input_scan_code code k = scanned (bit_and code 0xff) k

-- `__c_keyboard_isr`, with the code that the device's port holds.
abbrev pub keyboard_isr : ℕ → Keyboard → Keyboard
keyboard_isr code k = input_scan_code code k

-- `c_input_queue`.
unfoldable pub input_queue : Keyboard → ℕ
input_queue k =
    if ltb k.next_space k.next_char
    then c_bufsize - (k.next_char - k.next_space)
    else k.next_space - k.next_char

-- The wait of `c_getchar` for a character, while the keyboard delivers codes; the result is the
-- codes that are left. The wait for a key that is never pressed has no end.
unfoldable pub wait : List ℕ → Cmd Keyboard (List ℕ)
wait [] k = if k.next_char == k.next_space then out_of_fuel else ok [] k
wait (code ∷ codes) k =
    let rest = wait codes (input_scan_code code k) in
    if k.next_char == k.next_space then rest else ok (code ∷ codes) k

-- The first character leaves the buffer.
abbrev pub first_char : Keyboard → ℕ
first_char k = k.buffer k.next_char % 256

abbrev pub drop_char : Keyboard → Keyboard
drop_char k = record k { next_char = increment k.next_char }
