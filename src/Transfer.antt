-- ===== src/Transfer.antt =====
-- syscall.c: the calls read and write, which move bytes between a process and the console or the
-- serial line.
pub mod Stream
pub mod Read
pub mod Write
use systems_os.Prelude.{
  ℕ, zero, suc, ◌+◌, ◌%◌, ◌^◌, Option, none, some, List, [], ◌∷◌, Bool, length, ◌==◌, ltb,
  if◌then◌else◌, seq,
}
use systems_os.Machine.{Run, ok, panic, fault, out_of_fuel, Cmd, and_then}
use systems_os.Queue.{Ptr}
use systems_os.Kernel.{Kernel}
use systems_os.Syscall.{arg, ret, minus_one}
use systems_os.Keyboard
use systems_os.Screen
use systems_os.Console.{Console, getchar}
use systems_os.Sio
use systems_os.Sio.{Uart}

-- The kernel with its two devices, the bytes of the processes by address, and the scan codes that
-- the keyboard is going to deliver. The buffers of the calls lie apart from the kernel's variables.
pub record Computer : Type 0 where
  pub kernel : Kernel
  pub console : Console
  pub sio : Sio.Sio
  pub memory : ℕ → ℕ
  pub codes : List ℕ

abbrev pub fd_console : ℕ
fd_console = 0

abbrev pub fd_sio : ℕ
fd_sio = 1

-- `RET`.
abbrev pub return_value : ℕ → Ptr → Computer → Computer
return_value w p m = record m { kernel = ret w p m.kernel }

-- `a < b` for two `int`s.
abbrev pub less : ℕ → ℕ → Bool
less a b = ltb ((a + 2 ^ 31) % 2 ^ 32) ((b + 2 ^ 31) % 2 ^ 32)

-- `c_getchar` and `_sio_readc` on the whole machine.
abbrev pub on_console : Computer → Run Console (ℕ × List ℕ) → Run Computer ℕ
on_console m (ok (a, codes) c) = ok a (record m { console = c; codes = codes })
on_console m panic = panic
on_console m fault = fault
on_console m out_of_fuel = out_of_fuel

abbrev pub console_getchar : Cmd Computer ℕ
console_getchar m = on_console m (getchar m.codes m.console)

abbrev pub on_sio : {A : Type 0} → Computer → Run Sio.Sio A → Run Computer A
on_sio m (ok a s) = ok a (record m { sio = s })
on_sio m panic = panic
on_sio m fault = fault
on_sio m out_of_fuel = out_of_fuel

abbrev pub sio_getchar : Cmd Computer ℕ
sio_getchar m = on_sio m (Sio.readc m.sio)

-- The loop of `_sys_read`, with as many rounds as the count.
abbrev pub put_byte : ℕ → ℕ → Computer → Computer
put_byte a c m = record m { memory = λ i. if i == a % 2 ^ 32 then c % 256 else m.memory i }

unfoldable pub read_bytes : Cmd Computer ℕ → ℕ → ℕ → Cmd Computer (Unit {0})
read_bytes get zero buf m = ok tt m
read_bytes get (suc n) buf m =
    and_then (get m) λ c m'. read_bytes get n (buf + 1) (put_byte buf c m')

-- `_sys_read` once the channel is chosen. The count is the smaller one of two `int`s.
abbrev pub smaller : ℕ → ℕ → ℕ
smaller n count = if less count n then count else n

abbrev pub read_from : Cmd Computer ℕ → ℕ → Ptr → Cmd Computer (Unit {0})
read_from get n p m =
    let count = smaller n (arg 3 p m.kernel) in
    if less 0 n
    then (and_then (read_bytes get count (arg 2 p m.kernel) m)
        λ _ m'. ok tt (return_value count p m'))
    else ok tt (return_value n p m)

unfoldable pub sys_read : Ptr → Cmd Computer (Unit {0})
sys_read p m =
    if arg 1 p m.kernel == fd_console
    then read_from console_getchar (Keyboard.input_queue m.console.keyboard) p m
    else if arg 1 p m.kernel == fd_sio
    then read_from sio_getchar (Sio.input_queue m.sio) p m
    else ok tt (return_value minus_one p m)

abbrev and_byte : ℕ → Option (List ℕ) → Option (List ℕ)
and_byte c none = none
and_byte c (some cs) = some (c ∷ cs)

-- The characters at an address: so many, or those in front of a NUL.
abbrev pub byte_at : Computer → ℕ → ℕ → ℕ
byte_at m buf i = m.memory ((buf + i) % 2 ^ 32) % 256

unfoldable pub string_at : ℕ → ℕ → (ℕ → ℕ) → Option (List ℕ)
string_at zero a memory = none
string_at (suc fuel) a memory =
    let rest = string_at fuel (a + 1) memory in
    let c = memory (a % 2 ^ 32) % 256 in if c == 0 then some [] else and_byte c rest

-- Characters in memory from an address on.
abbrev pub stored : ℕ → List ℕ → (ℕ → ℕ) → ℕ → ℕ
stored a [] f = f
stored a (c ∷ cs) f = stored (a + 1) cs λ i. if i == a % 2 ^ 32 then c % 256 else f i

-- What `_sys_write` does on the console and on the serial line.
abbrev pub show : List ℕ → Computer → Computer
show cs m = record m { console = record m.console { screen = Screen.puts cs m.console.screen } }

-- A string without an end among all addresses.
abbrev pub of_string :
    Option (List ℕ) → (List ℕ → Run Computer (Unit {0})) → Run Computer (Unit {0})
of_string none k = out_of_fuel
of_string (some cs) k = k cs

unfoldable pub sys_write : Uart → Ptr → Cmd Computer (Unit {0})
sys_write u p m =
    let buf = arg 2 p m.kernel in
    let count = arg 3 p m.kernel in
    let text = string_at (2 ^ 32) buf m.memory in
    if arg 1 p m.kernel == fd_console
    then if count == 0
      then (of_string text λ cs. ok tt (return_value (length cs) p (show cs m)))
      else ok tt (return_value count p (show (seq (byte_at m buf) count) m))
    else if arg 1 p m.kernel == fd_sio
    then if count == 0
      then (of_string text
          λ cs. and_then (on_sio m (Sio.puts u cs m.sio)) λ n m'. ok tt (return_value n p m'))
      else (and_then (on_sio m (Sio.writes u (byte_at m buf) count m.sio))
          λ _ m'. ok tt (return_value count p m'))
    else ok tt (return_value minus_one p m)
