-- ===== src/Transfer/Write.antt =====
-- `_sys_write` of some bytes to the serial line.
use systems_os.Prelude.{ℕ, ◌<◌, ◌≡◌, ◌≢◌, refl, false, arith, ne→eqb, eq→eqb, ap}
use mathlib.Core.Path.{subst}
use systems_os.Machine.{Run, ok, Returns, returns, and_then}
use systems_os.Queue.{Ptr}
use systems_os.Syscall.{arg, ret}
use systems_os.Sio
use systems_os.Sio.{Uart, buf_size}
use systems_os.Sio.Output.{IsOutput}
use systems_os.Sio.Copy.{chars}
use systems_os.Sio.Write.{Wrote, accepted, writes-Wrote}
use systems_os.Transfer.{Computer, on_sio, return_value, byte_at, sys_write}

-- What the call leaves: the result is the given count, whatever was accepted.
pub record Sent (p : Ptr) (m m' : Computer) : Type 0 where
  pub kernel : m'.kernel ≡ ret (arg 3 p m.kernel) p m.kernel
  pub serial :
      Wrote m.sio
        (chars (byte_at m (arg 2 p m.kernel)) 0 (accepted m.sio (arg 3 p m.kernel)))
        m'.sio
  pub console : m'.console ≡ m.console
  pub memory : m'.memory ≡ m.memory

finish_write :
    (p : Ptr) (m : Computer) (count : ℕ) {r : Run Sio.Sio ℕ}
    → count ≡ arg 3 p m.kernel
    → Returns
        (λ n s'.
          (n ≡ accepted m.sio (arg 3 p m.kernel))
          × Wrote m.sio (chars (byte_at m (arg 2 p m.kernel)) 0 n) s')
        r
    → Returns (λ _ m'. Sent p m m') (and_then (on_sio m r) λ _ m'. ok tt (return_value count p m'))
finish_write p m count e (returns {s = s'} (a, w)) =
    returns {s = return_value count p (record m { sio = s' })} (record {
      kernel = ap (λ c. ret c p m.kernel) e;
      serial = subst (λ n. Wrote m.sio (chars (byte_at m (arg 2 p m.kernel)) 0 n) s') a w;
      console = refl;
      memory = refl;
    })

-- From a well-formed output buffer whose last place is not used up, `_sys_write` of a count
-- other than 0 to the serial line, whose first character is no LF if the line is idle, returns:
-- what `_sio_writes` accepts of the characters is on its way behind all others, but the result
-- is the given count, however few were accepted; the console and the memory have not changed.
pub sys_write-Sent :
    (u : Uart) (p : Ptr) (m : Computer)
    → IsOutput m.sio
    → m.sio.out_last < buf_size
    → arg 1 p m.kernel ≡ 1
    → arg 3 p m.kernel ≢ 0
    → (m.sio.sending ≡ false → byte_at m (arg 2 p m.kernel) 0 ≢ 10)
    → Returns (λ _ m'. Sent p m m') (sys_write u p m)
unfolding sys_write
sys_write-Sent u p m i room fd some_bytes d =
    let count = arg 3 p m.kernel in
    let buf = arg 2 p m.kernel in
    rw
      (
        ne→eqb (arg 1 p m.kernel) 0 (omega (arith, fd)),
        eq→eqb (arg 1 p m.kernel) 1 fd,
        ne→eqb count 0 some_bytes,
      )
      (finish_write p m count refl (writes-Wrote u (byte_at m buf) count m.sio i room d))
