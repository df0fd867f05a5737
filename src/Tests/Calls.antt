-- ===== src/Tests/Calls.antt =====
-- The calls read and write of a process.
use systems_os.Prelude.{ℕ, refl, [], ◌∷◌, arith, ◌==◌, if◌then◌else◌}
use systems_os.Machine.{Returns}
use systems_os.Kernel.{Kernel}
use systems_os.Sio.{sio_modinit}
use systems_os.Transfer.{Computer, sys_read, sys_write}
use systems_os.Transfer.Read.{Filled, stream_of, sys_read-Filled}
use systems_os.Transfer.Write.{Sent, sys_write-Sent}
use systems_os.Tests.{zero_kernel}
use systems_os.Tests.Terminal.{terminal, keys-IsRing, pressed-IsRing, keys}
use systems_os.Tests.Serial.{fresh, fresh-IsSio, uart}

-- A process whose context begins at longword 0 calls with three arguments.
abbrev call : ℕ → ℕ → ℕ → Kernel
call fd buf count = record zero_kernel {
  word = λ a. if a == 19 then fd else if a == 20 then buf else if a == 21 then count else 0;
}

abbrev pub reader : Computer
reader = record {
  kernel = call 0 1000 2;
  console = terminal;
  sio = fresh;
  memory = λ i. 65;
  codes = [];
}

sys_read-Filled_example : Returns (λ _ m'. Filled (stream_of 0) 1 reader m') (sys_read 1 reader)
sys_read-Filled_example =
    sys_read-Filled 1 reader 0 (omega arith)
      (pressed-IsRing (0x23 ∷ 0x17 ∷ 0x1c ∷ 0x2d ∷ []) keys keys-IsRing) refl (omega arith)

abbrev writer : Computer
writer = record reader { kernel = call 1 1000 3 }

sys_write-Sent_example : Returns (λ _ m'. Sent 1 writer m') (sys_write uart 1 writer)
unfolding sio_modinit
sys_write-Sent_example =
    sys_write-Sent uart 1 writer fresh-IsSio.output (omega arith) refl (omega arith)
      λ off. omega arith
