-- ===== src/Trap.antt =====
-- syscall.c: the dispatcher of the system calls and the calls on files. The messages that the
-- handlers write to the console, and the acknowledgement to the interrupt controller, are left out.
pub mod Laws
pub mod Events
use systems_os.Prelude.{
  ℕ, zero, suc, ◌+◌, ◌%◌, ◌^◌, List, [], ◌∷◌, Option, none, some, ◌==◌, ltb, if◌then◌else◌,
}
use systems_os.Machine.{Run, ok, panic, fault, out_of_fuel, Cmd, and_then}
use systems_os.Queue.{Ptr, null}
use systems_os.Kernel.{Kernel}
use systems_os.System.{Platform}
use systems_os.System.Context
use systems_os.Syscall.{
  arg, ret, sys_exit, sys_spawnp, sys_sleep, sys_get_process_info, sys_get_system_info,
}
use systems_os.Sio.{Uart}
use systems_os.Transfer.{
  Computer, put_byte, string_at, byte_at, return_value, sys_read, sys_write, stored,
}
use systems_os.Files.{Files, file_type, sfs_create, set_directory}
use systems_os.Files.Content.{sfs_delete, sfs_write, sfs_read, sfs_list}

-- The computer with its file system, which lies apart from the memory of the processes.
pub record World : Type 0 where
  pub computer : Computer
  pub files : Files

abbrev pub kernel_of : World → Kernel
kernel_of w = w.computer.kernel

-- Calls of the parts on the whole.
abbrev pub on_kernel : World → Run Kernel (Unit {0}) → Run World (Unit {0})
on_kernel w (ok a k) = ok a (record w { computer = record w.computer { kernel = k } })
on_kernel w panic = panic
on_kernel w fault = fault
on_kernel w out_of_fuel = out_of_fuel

abbrev pub on_computer : World → Run Computer (Unit {0}) → Run World (Unit {0})
on_computer w (ok a m) = ok a (record w { computer = m })
on_computer w panic = panic
on_computer w fault = fault
on_computer w out_of_fuel = out_of_fuel

abbrev pub on_files : {A : Type 0} → World → Run Files A → Run World A
on_files w (ok a t) = ok a (record w { files = t })
on_files w panic = panic
on_files w fault = fault
on_files w out_of_fuel = out_of_fuel

-- A call whose first argument is a name, and whose result is that of the file system.
abbrev pub with_result : Ptr → Run World ℕ → Run World (Unit {0})
with_result p r = and_then r λ res w. ok tt (record w { computer = return_value res p w.computer })

abbrev pub named : Option (List ℕ) → (List ℕ → Run World (Unit {0})) → Run World (Unit {0})
named none k = out_of_fuel
named (some cs) k = k cs

abbrev pub with_name : Ptr → World → (List ℕ → Run World (Unit {0})) → Run World (Unit {0})
with_name p w k = named (string_at (2 ^ 32) (arg 1 p (kernel_of w)) w.computer.memory) k

-- `_sys_create_file`, `_sys_delete_file`, `_sys_write_file` and `_sys_cd`.
unfoldable pub sys_create_file : Ptr → Cmd World (Unit {0})
sys_create_file p w =
    with_name p w λ name. with_result p (on_files w (sfs_create name file_type w.files))

unfoldable pub sys_delete_file : Ptr → Cmd World (Unit {0})
sys_delete_file p w = with_name p w λ name. with_result p (on_files w (sfs_delete name w.files))

unfoldable pub sys_write_file : Ptr → Cmd World (Unit {0})
sys_write_file p w =
    let size = arg 2 p (kernel_of w) % 2 ^ 16 in
    let buffer = byte_at w.computer (arg 3 p (kernel_of w)) in
    let append = arg 4 p (kernel_of w) in
    with_name p w λ name. with_result p (on_files w (sfs_write name size buffer append w.files))

unfoldable pub sys_cd : Ptr → Cmd World (Unit {0})
sys_cd p w = with_name p w λ new_dir. with_result p (on_files w (set_directory new_dir w.files))

-- `_sys_read_file` and `_sys_list_files`: the file system clears the byte at the address 0 before
-- all else, and its text is written from there on; the result is that address.
abbrev pub put_text : List ℕ → World → World
put_text cs w = record w { computer = record w.computer { memory = stored 0 cs w.computer.memory } }

abbrev pub clear_first : World → World
clear_first w = record w { computer = put_byte 0 0 w.computer }

unfoldable pub sys_read_file : Ptr → Cmd World (Unit {0})
sys_read_file p w0 =
    let w = clear_first w0 in
    with_name p w λ name.
      with_result p (and_then (on_files w (sfs_read name w.files)) λ cs w'. ok 0 (put_text cs w'))

unfoldable pub sys_list_files : Ptr → Cmd World (Unit {0})
sys_list_files p w = with_result p (ok 0 (put_text (sfs_list w.files) (clear_first w)))

-- The table that `_sys_modinit` fills; a code behind its end is not looked up.
abbrev pub n_syscalls : ℕ
n_syscalls = 13

unfoldable pub syscalls : Platform → Uart → ℕ → Ptr → Cmd World (Unit {0})
syscalls env u which p w =
    if which == 0
    then on_kernel w (sys_exit p (kernel_of w))
    else if which == 1
    then on_kernel w (sys_spawnp env p (kernel_of w))
    else if which == 2
    then on_kernel w (sys_sleep p (kernel_of w))
    else if which == 3
    then on_computer w (sys_read p w.computer)
    else if which == 4
    then on_computer w (sys_write u p w.computer)
    else if which == 5
    then on_kernel w (sys_get_process_info p (kernel_of w))
    else if which == 6
    then on_kernel w (sys_get_system_info p (kernel_of w))
    else if which == 7
    then sys_create_file p w
    else if which == 8
    then sys_delete_file p w
    else if which == 9
    then sys_write_file p w
    else if which == 10
    then sys_read_file p w
    else if which == 11
    then sys_list_files p w
    else if which == 12
    then sys_cd p w
    else fault

-- `_sys_isr`: an illegal code is taken for that of exit.
abbrev pub requested : World → ℕ
requested w = (kernel_of w).word (((kernel_of w).pcb (kernel_of w).current).context + Context.eax)

abbrev pub legal : ℕ → ℕ
legal which = if ltb which n_syscalls then which else 0

unfoldable pub sys_isr : Platform → Uart → Cmd World (Unit {0})
sys_isr env u w =
    let p = (kernel_of w).current in
    if p == null then fault else syscalls env u (legal (requested w)) p w
