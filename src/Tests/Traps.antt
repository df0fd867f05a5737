-- ===== src/Tests/Traps.antt =====
-- System calls through their dispatcher.
use systems_os.Prelude.{
  length, ap, ℕ, ◌+◌, ◌*◌, ◌^◌, ◌≡◌, ◌≢◌, refl, some, [], ◌∷◌, ◌++◌, arith, ◌==◌, if◌then◌else◌,
  eq→eqb, seq,
}
use systems_os.Machine.{ok, Returns}
use systems_os.Kernel.Books.{IsKernel}
use systems_os.System.Context
use systems_os.Syscall.{ret, arg}
use systems_os.Syscall.Laws.{Ended}
use systems_os.Transfer.{string_at, stored}
use systems_os.Text.{compare, compare_from, buffer_len}
use systems_os.Files.{
  Files, full_name, sfs_exists, adjust_filename, exists_from, has_directories, create_from,
  sfs_create, file_type,
}
use systems_os.Files.Names.{lookup, IsFiles}
use systems_os.Files.Content.{sfs_write, write_blocks, copy_bytes, or_blank, data_at}
use systems_os.Files.Start.{rooted, sfs_init-rooted}
use systems_os.Files.Reach.{none_yet, and_call, write, sfs_init-Calls}
use systems_os.Trap.{World, kernel_of, requested, clear_first, sys_isr, sys_read_file}
use systems_os.Trap.Laws.{sys_isr-illegal, sys_read_file-Stored}
use systems_os.Trap.Events.{
  IsRunning, tick, trap, run, clock, process_info, done, next, run-IsRunning,
}
use systems_os.Tests.{
  state_of, zero_kernel, env, running, running_view, running-IsKernel, running-Launched,
}
use systems_os.Tests.Processes.{own_stack, idle_ready}
use systems_os.Tests.Serial.{uart}
use systems_os.Tests.Calls.{reader}
use systems_os.Tests.Disk.{
  blank, name_f, with_f, create_f, text, not_root, rooms, same_rooms_f, short-Fits,
}

-- The first process calls with a code in EAX.
abbrev asks : ℕ → World
asks code = record { computer = record reader { kernel = ret code 1 running }; files = blank }

asks-IsKernel : (code : ℕ) → IsKernel (kernel_of (asks code)) running_view 1 3
asks-IsKernel code =
    let inv = running-IsKernel in
    record { view = inv.view; wired = inv.wired; balanced = inv.balanced; live = inv.live }

asks-requested : (code : ℕ) → requested (asks code) ≡ code
asks-requested code =
    rw
      (
        running-Launched.0,
        eq→eqb ((running.pcb 1).context + Context.eax) ((running.pcb 1).context + Context.eax) refl,
      )
      refl

runs : (code : ℕ) → (kernel_of (asks code)).current ≢ 0
runs code e = absurd (omega (arith, e, running-Launched.0))

run-IsRunning_example :
    Returns (λ _ w'. IsRunning (kernel_of w')) (run env uart (trap ∷ tick ∷ []) (asks 5))
run-IsRunning_example =
    run-IsRunning env uart (trap ∷ tick ∷ []) (asks 5) (runs 5, running_view, 3, asks-IsKernel 5)
      (next (process_info (asks-requested 5)) λ w' e. next clock λ w'' e'. done)

own : (code : ℕ) → ((kernel_of (asks code)).pcb (kernel_of (asks code)).current).stack ≢ 0
own code = rw (running-Launched.0) own_stack

-- The code 99 ends the process.
sys_isr-illegal_example :
    Returns
      (λ _ w'.
        Ended (kernel_of (asks 99)) running_view 1 2 (kernel_of w')
        × (w' ≡ (record (asks 99) {
          computer = record (asks 99).computer { kernel = kernel_of w' };
        })))
      (sys_isr env uart (asks 99))
sys_isr-illegal_example =
    sys_isr-illegal env uart (asks 99) running_view 0 2 3 (asks-IsKernel 99) (runs 99) (own 99)
      (omega arith) idle_ready (omega (arith, asks-requested 99))

-- A file with the text "hi", and a process that asks for it.
abbrev written_f : Files
written_f = state_of blank (sfs_write name_f 2 text 0 with_f)

wrote : sfs_write name_f 2 text 0 with_f ≡ ok 0 written_f
unfolding sfs_create sfs_exists exists_from adjust_filename full_name compare buffer_len
    compare_from has_directories create_from sfs_write write_blocks copy_bytes
wrote = refl

full_with_f : full_name with_f name_f ≡ 47 ∷ 102 ∷ []
unfolding sfs_create sfs_exists exists_from adjust_filename full_name compare buffer_len
    compare_from has_directories create_from
full_with_f = refl

full_written : full_name written_f name_f ≡ 47 ∷ 102 ∷ []
unfolding sfs_create sfs_exists exists_from adjust_filename full_name compare buffer_len
    compare_from has_directories create_from sfs_write write_blocks copy_bytes
full_written = refl

rooms_written : written_f.literals ≡ rooms
unfolding sfs_create sfs_exists exists_from adjust_filename full_name compare buffer_len
    compare_from has_directories create_from sfs_write write_blocks copy_bytes
rooms_written = refl

written-IsFiles : IsFiles written_f
written-IsFiles =
    sfs_init-Calls blank (rooted blank) written_f (λ i b. tt) (sfs_init-rooted blank)
      (and_call (and_call none_yet create_f) (
        write name_f 2 0 0 text (omega arith, tt) (not_root full_with_f)
          (short-Fits with_f name_f same_rooms_f (omega (arith, ap length full_with_f)))
          (omega arith) wrote))

abbrev asks_for_f : World
asks_for_f = record {
  computer = record reader {
    kernel = record zero_kernel { word = λ a. if a == 19 then 100 else 0 };
    memory = λ a. if a == 100 then 102 else 0;
  };
  files = written_f;
}

named_f :
    string_at (2 ^ 32) (arg 1 1 (kernel_of asks_for_f)) (clear_first asks_for_f).computer.memory
    ≡ some name_f
unfolding string_at
named_f = refl

lookup_f : lookup written_f (full_name written_f name_f) file_type ≡ some 1
unfolding sfs_create sfs_exists exists_from adjust_filename full_name compare buffer_len
    compare_from has_directories create_from sfs_write write_blocks copy_bytes
lookup_f = refl

last_block : written_f.byte (512 * (written_f.entry 1).payload) ≡ 0
unfolding sfs_create sfs_exists exists_from adjust_filename full_name compare buffer_len
    compare_from has_directories create_from sfs_write write_blocks copy_bytes
last_block = refl

size_f : (written_f.entry 1).size ≡ 2
unfolding sfs_create sfs_exists exists_from adjust_filename full_name compare buffer_len
    compare_from has_directories create_from sfs_write write_blocks copy_bytes
size_f = refl

read_back :
    Returns
      (λ _ w'.
        (w'.computer.memory
          ≡ stored 0
              (or_blank
                  (seq (data_at written_f (written_f.entry 1).payload) (written_f.entry 1).size)
                ++ (0 ∷ []))
              (clear_first asks_for_f).computer.memory)
        × ((kernel_of w').word (((kernel_of asks_for_f).pcb 1).context + Context.eax) ≡ 0)
        × (w'.files ≡ written_f))
      (sys_read_file 1 asks_for_f)
read_back =
    sys_read_file-Stored asks_for_f 1 name_f 1 written-IsFiles named_f (omega arith, tt)
      (not_root full_written)
      (short-Fits written_f name_f rooms_written (omega (arith, ap length full_written))) lookup_f
      last_block (omega (arith, size_f))
