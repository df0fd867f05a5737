-- ===== src/Trap/Laws.antt =====
-- What a system call does to the whole: the calls that are not legal, and a file that is read.
use systems_os.Prelude.{
  ℕ, suc, ◌+◌, ◌*◌, ◌^◌, ◌≤◌, ◌<◌, ◌≡◌, ◌≢◌, refl, List, [], ◌∷◌, ◌++◌, some, arith, seq, eq→eqb,
  ne→eqb,
}
use systems_os.Machine.{Run, Returns, returns}
use systems_os.Queue.{Ptr}
use systems_os.Queue.View.{View}
use systems_os.Kernel.{Kernel}
use systems_os.Kernel.Books.{IsKernel}
use systems_os.System.{Platform}
use systems_os.System.Context
use systems_os.Sio.{Uart}
use systems_os.Syscall.{arg}
use systems_os.Syscall.Laws.{Ended, sys_exit-Ended}
use systems_os.Text.Laws.{IsText}
use systems_os.Transfer.{stored, string_at}
use systems_os.Files.{data_block_size, file_type, root, full_name}
use systems_os.Files.Names.{Fits, lookup, IsFiles}
use systems_os.Files.Content.{or_blank, data_at}
use systems_os.Files.Content.Transfer.{sfs_read-one}
use systems_os.Trap.{
  World, kernel_of, on_kernel, requested, legal, clear_first, syscalls, sys_isr, sys_read_file,
}

pub on_kernel-Returns :
    {P : Kernel → Type 0} (w : World) {r : Run Kernel (Unit {0})}
    → Returns (λ _ k'. P k') r
    → Returns
        (λ _ w'.
          P (kernel_of w')
          × (w' ≡ (record w { computer = record w.computer { kernel = kernel_of w' } })))
        (on_kernel w r)
on_kernel-Returns w (returns h) = returns (h, refl)

-- From the kernel's invariant, with a current process that has a stack and some ready queue that
-- is not empty, a system call with a code of 13 or more returns: the process has ended as by
-- `_sys_exit`, some process is current, the number of active processes is one less modulo 2^32,
-- the invariant holds with one stack less in use, and of the whole only the kernel has changed.
pub sys_isr-illegal :
    (env : Platform) (u : Uart) (w : World) (v : View) (out lent i : ℕ)
    → IsKernel (kernel_of w) v (suc out) (suc lent)
    → (kernel_of w).current ≢ 0
    → ((kernel_of w).pcb (kernel_of w).current).stack ≢ 0
    → i < 4
    → v.items (4 + i) ≢ []
    → 13 ≤ requested w
    → Returns
        (λ _ w'.
          Ended (kernel_of w) v (suc out) lent (kernel_of w')
          × (w' ≡ (record w { computer = record w.computer { kernel = kernel_of w' } })))
        (sys_isr env u w)
unfolding sys_isr syscalls
sys_isr-illegal env u w v out lent i inv live own b ready h =
    let code : legal (requested w) ≡ 0 = ground arith in
    rw (ne→eqb (kernel_of w).current 0 live, code)
      (on_kernel-Returns w
        (sys_exit-Ended (kernel_of w) v (kernel_of w).current out lent i inv refl live own b ready))

-- A file in one block is copied to the memory from the address 0 on, and the result is 0.
pub sys_read_file-Stored :
    (w : World) (p : Ptr) (name : List ℕ) (i : ℕ)
    → IsFiles w.files
    → string_at (2 ^ 32) (arg 1 p (kernel_of w)) (clear_first w).computer.memory ≡ some name
    → IsText name
    → full_name w.files name ≢ root
    → Fits w.files name
    → lookup w.files (full_name w.files name) file_type ≡ some i
    → w.files.byte (data_block_size * (w.files.entry i).payload) ≡ 0
    → (w.files.entry i).size ≤ 511
    → Returns
        (λ _ w'.
          (w'.computer.memory
            ≡ stored 0
                (or_blank (seq (data_at w.files (w.files.entry i).payload) (w.files.entry i).size)
                  ++ (0 ∷ []))
                (clear_first w).computer.memory)
          × ((kernel_of w').word (((kernel_of w).pcb p).context + Context.eax) ≡ 0)
          × (w'.files ≡ w.files))
        (sys_read_file p w)
unfolding sys_read_file
sys_read_file-Stored w p name i inv text u d fit e z m =
    rw (text, sfs_read-one w.files name i inv u d fit e z m)
      (returns (
        refl,
        rw
            (eq→eqb (((kernel_of w).pcb p).context + Context.eax)
              (((kernel_of w).pcb p).context + Context.eax) refl)
            refl,
        refl,
      ))
