-- ===== src/Transfer/Read.antt =====
-- `_sys_read` on a stream of characters.
use systems_os.Prelude.{
  ℕ, zero, suc, ◌+◌, ◌%◌, ◌^◌, ◌≤◌, ◌<◌, ◌≡◌, refl, List, [], ◌∷◌, arith, ap, sym, ◌∙◌, length, inl,
  inr, take, drop, ltb, ◌==◌, if◌then◌else◌, ap₂, length-seq, ne→eqb, eq→eqb, Bool-cases,
}
use systems_os.Machine.{Returns, returns, bind, mono}
use systems_os.Queue.{Ptr}
use systems_os.Syscall.{arg, ret}
use systems_os.Keyboard
use systems_os.Keyboard.Ring
use systems_os.Sio
use systems_os.Sio.Input
use systems_os.Transfer.{
  stored, Computer, less, smaller, put_byte, read_bytes, read_from, sys_read, return_value,
}
use systems_os.Transfer.Stream.{Stream, console, serial}

-- The number of characters that a call reads: those that wait, or those it was asked for.
abbrev pub count_read : List ℕ → ℕ → ℕ
count_read q count = if ltb count (length q) then count else length q

module _ (d : Stream) where
  abbrev pub Moved : ℕ → ℕ → Computer → Computer → Type 0
  Moved n buf m m' =
      (m'.memory ≡ stored buf (take n (d.waits m)) m.memory) × (d.waits m' ≡ drop n (d.waits m))

  read_bytes-Moved :
      (n buf : ℕ) (m : Computer) (q : List ℕ)
      → d.IsReady m
      → d.waits m ≡ q
      → n ≤ length q
      → Returns
          (λ _ m'.
            (m'.memory ≡ stored buf (take n q) m.memory)
            × (d.waits m' ≡ drop n q)
            × (m'.kernel ≡ m.kernel))
          (read_bytes d.get n buf m)
  unfolding read_bytes
  read_bytes-Moved zero buf m q i e h = returns (refl, e, refl)
  read_bytes-Moved (suc n) buf m [] i e h = absurd (omega arith)
  read_bytes-Moved (suc n) buf m (c ∷ q) i e h = bind (d.got m c q i e) λ a m1 (ea, i1, e1, s).
      let m2 = put_byte buf a m1 in
      let first : m2.memory ≡ (λ j. if j == buf % 2 ^ 32 then c % 256 else m.memory j) =
        ap₂ (λ x f j. if j == buf % 2 ^ 32 then x else f j) ea s.memory in
      mono
        (read_bytes-Moved n (buf + 1) m2 q (d.other m1 m1.kernel m2.memory i1)
          (d.same m1 m1.kernel m2.memory ∙ e1) (omega arith))
        λ _ m' (f, w, k). (f ∙ ap (stored (buf + 1) (take n q)) first, w, k ∙ s.kernel)

  -- What the call leaves.
  abbrev pub Filled : Ptr → Computer → Computer → Type 0
  Filled p m m' =
      Moved (count_read (d.waits m) (arg 3 p m.kernel)) (arg 2 p m.kernel) m m'
      × (m'.kernel ≡ ret (count_read (d.waits m) (arg 3 p m.kernel)) p m.kernel)

  read_from-Filled :
      (p : Ptr) (m : Computer) (n : ℕ)
      → d.IsReady m
      → n ≡ length (d.waits m)
      → arg 3 p m.kernel < 2 ^ 31
      → Returns (λ _ m'. Filled p m m') (read_from d.get n p m)
  read_from-Filled p m n i e h =
      let count = arg 3 p m.kernel in
      let q = d.waits m in
      let number : smaller n count ≡ count_read q count = ground (arith, e, d.bound m i) in
      elim (Bool-cases (less 0 n)) [
        | inl t ↦
            rw (t, number)
              (bind
                (read_bytes-Moved (count_read q count) (arg 2 p m.kernel) m q i refl (ground arith))
                λ _ m' (f, w, k). returns {s = return_value (count_read q count) p m'} (
                  (f, d.same m' (ret (count_read q count) p m'.kernel) m'.memory ∙ w),
                  ap (ret (count_read q count) p) k,
                ))
        | inr t ↦
            let nothing : count_read q count ≡ 0 = ground (arith, e, d.bound m i) in
            let zero_n : n ≡ 0 = ground (arith, e, d.bound m i) in
            rw (t, nothing, zero_n)
              (returns {s = return_value 0 p m}
                ((refl, d.same m (ret 0 p m.kernel) m.memory), refl))
      ]

-- On the two streams.
sys_read-console :
    (p : Ptr) (m : Computer)
    → Ring.IsRing m.console.keyboard
    → arg 1 p m.kernel ≡ 0
    → arg 3 p m.kernel < 2 ^ 31
    → Returns (λ _ m'. Filled console p m m') (sys_read p m)
unfolding sys_read
sys_read-console p m i fd h = rw (eq→eqb (arg 1 p m.kernel) 0 fd) (
    read_from-Filled console p m (Keyboard.input_queue m.console.keyboard) i
      (Ring.input_queue_lem m.console.keyboard i) h)

sys_read-serial :
    (p : Ptr) (m : Computer)
    → Input.IsInput m.sio
    → arg 1 p m.kernel ≡ 1
    → arg 3 p m.kernel < 2 ^ 31
    → Returns (λ _ m'. Filled serial p m m') (sys_read p m)
unfolding sys_read Sio.input_queue
sys_read-serial p m i fd h =
    rw (ne→eqb (arg 1 p m.kernel) 0 (omega (arith, fd)), eq→eqb (arg 1 p m.kernel) 1 fd)
      (read_from-Filled serial p m m.sio.in_count i
        (sym (length-seq (Input.in_at m.sio) m.sio.in_count)) h)

abbrev pub stream_of : ℕ → Stream
stream_of zero = console
stream_of (suc fd) = serial

-- For the console or the serial line with a well-formed buffer, and a count below 2^31,
-- `_sys_read` returns: its result is the smaller one of the count and the number of characters
-- that wait, which is 0 if none waits, so many of them, from the first on, are in memory from
-- the buffer's address on, the others still wait, and nothing else of the memory and the kernel
-- has changed.
pub sys_read-Filled :
    (p : Ptr) (m : Computer) (fd : ℕ)
    → fd < 2
    → (stream_of fd).IsReady m
    → arg 1 p m.kernel ≡ fd
    → arg 3 p m.kernel < 2 ^ 31
    → Returns (λ _ m'. Filled (stream_of fd) p m m') (sys_read p m)
sys_read-Filled p m zero b i e h = sys_read-console p m i e h
sys_read-Filled p m (suc zero) b i e h = sys_read-serial p m i e h
sys_read-Filled p m (suc (suc n)) b i e h = absurd (omega arith)
