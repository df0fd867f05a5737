-- ===== src/Boot/Shell.antt =====
-- The state in which the whole of `_init` leaves the kernel, when the shell is ready as well.
use systems_os.Prelude.{ℕ, ◌≡◌, none, [], ◌∷◌, arith, ap, ◌∙◌}
use systems_os.Machine.{Returns, bind, mono}
use systems_os.Queue.Init.{cleared}
use systems_os.Queue.View.{View}
use systems_os.Kernel.{Kernel}
use systems_os.Kernel.Books.{IsKernel}
use systems_os.Scheduler.{readied, started}
use systems_os.System.{Platform, new_pcb}
use systems_os.Boot.{init_shell}
use systems_os.Boot.Fill.{entries}
use systems_os.Boot.Laws.{init-Launched, start-Started}

-- The process of PCB 1 runs, the others wait in their ready queues, and no process sleeps.
pub record Serving (k : Kernel) : Type 0 where
  pub current : k.current ≡ 1
  pub first : k.pcb 1 ≡ started (readied (new_pcb 1024 0 1))
  pub shell : k.pcb 4 ≡ readied (new_pcb 4096 2 4)
  pub next_pid : k.next_pid ≡ 5
  pub view : View
  pub books : IsKernel k view 1 4
  pub free_pcbs : view.items 2 ≡ entries 1 22 5
  pub free_stacks : view.items 3 ≡ entries 1024 21 5120
  pub system : view.items 4 ≡ []
  pub high : view.items 5 ≡ (0, 3) ∷ []
  pub standard : view.items 6 ≡ (0, 4) ∷ []
  pub low : view.items 7 ≡ (0, 2) ∷ []
  pub sleeping : view.items 8 ≡ []

-- If every queue head is cleared, `_init` with its four processes returns, whatever else the
-- memory holds: the process of PCB 1 runs, with PID 1, priority 0, the stack 1024 and a full
-- quantum; the shell has PCB 4, PID 4, priority 2 and the stack 4096, and is alone in the ready
-- queue of its priority, as hello and idle are in theirs; the next PID is 5; the kernel's
-- invariant holds with one PCB and four stacks in use, the other PCBs and stacks are free in
-- their order, and no process has priority 0 or sleeps.
pub init_shell-Serving :
    (env : Platform) (init_entry idle_entry hello_entry shell_entry : ℕ) (k : Kernel)
    → ((q : ℕ) → k.store.queue q ≡ cleared none)
    → Returns (λ _ k'. Serving k') (init_shell env init_entry idle_entry hello_entry shell_entry k)
unfolding init_shell
init_shell-Serving env a b c d k clear =
    bind (init-Launched env a b c k clear) λ _ k0 (now, own, pid, (v, inv, work)).
      mono
        (start-Started env d 2 k0 v 4 4096 0 0 (entries 1 22 5) (entries 1024 21 5120) 1 3 inv
          (omega arith) work.pcbs work.stacks)
        λ _ k1 s. record {
          current = s.current ∙ now;
          first = s.others 1 (omega arith) ∙ own;
          shell = s.own ∙ ap (λ n. readied (new_pcb 4096 2 n)) pid;
          next_pid = omega (arith, s.pid, pid);
          view = _;
          books = s.books;
          free_pcbs = s.pcbs;
          free_stacks = s.stacks;
          system = s.ready 4 (omega arith) (omega arith) ∙ work.system;
          high = s.ready 5 (omega arith) (omega arith) ∙ work.high;
          standard = s.queue work.standard;
          low = s.ready 7 (omega arith) (omega arith) ∙ work.low;
          sleeping = s.ready 8 (omega arith) (omega arith) ∙ work.timed;
        }
