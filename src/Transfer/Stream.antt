-- ===== src/Transfer/Stream.antt =====
-- A device that characters are read from, as a queue, and the two that the kernel has.
use systems_os.Prelude.{
  ℕ, ◌%◌, ◌^◌, ◌<◌, ◌≡◌, refl, List, [], ◌∷◌, arith, ap, sym, ◌∙◌, length, length-seq, inl, inr,
  ◌⊎◌,
}
use systems_os.Machine.{Run, Cmd, Returns, returns}
use systems_os.Kernel.{Kernel}
use systems_os.Keyboard.Ring
use systems_os.Screen
use systems_os.Console.{Console}
use systems_os.Console.Lines.{First, getchar-First}
use systems_os.Sio
use systems_os.Sio.Input
use systems_os.Transfer.{Computer, on_console, on_sio, console_getchar, sio_getchar}

-- What a step leaves alone.
pub record SameProcess (m m' : Computer) : Type 0 where
  pub kernel : m'.kernel ≡ m.kernel
  pub memory : m'.memory ≡ m.memory

-- The operations of a stream, and their laws: a character that waits is got, and nothing else of
-- the processes changes.
pub record Stream : Type 1 where
  pub get : Cmd Computer ℕ
  pub waits : Computer → List ℕ
  pub IsReady : Computer → Type 0
  pub bound : (m : Computer) → IsReady m → length (waits m) < 2 ^ 31
  pub other :
      (m : Computer) (k : Kernel) (f : ℕ → ℕ)
      → IsReady m
      → IsReady (record m { kernel = k; memory = f })
  pub same :
      (m : Computer) (k : Kernel) (f : ℕ → ℕ)
      → waits (record m { kernel = k; memory = f }) ≡ waits m
  pub got :
      (m : Computer) (c : ℕ) (rest : List ℕ)
      → IsReady m
      → waits m ≡ c ∷ rest
      → Returns
          (λ a m'. (a % 256 ≡ c % 256) × IsReady m' × (waits m' ≡ rest) × SameProcess m m')
          (get m)

-- The console.
sext8-byte : (c : ℕ) → Screen.sext8 c % 256 ≡ c % 256
sext8-byte c = ground arith

pub console-got :
    (m : Computer) (c : ℕ) (rest : List ℕ)
    → Ring.IsRing m.console.keyboard
    → Ring.queued m.console.keyboard ≡ c ∷ rest
    → Returns
        (λ a m'.
          (a % 256 ≡ c % 256)
          × Ring.IsRing m'.console.keyboard
          × (Ring.queued m'.console.keyboard ≡ rest)
          × SameProcess m m')
        (console_getchar m)
console-got m c rest i e = go (getchar-First m.console m.codes c rest i e)
  where
    go :
        {r : Run Console (ℕ × List ℕ)}
        → Returns
            (λ (a, left) c'. (a ≡ Screen.sext8 c) × (left ≡ m.codes) × First m.console c rest c')
            r
        → Returns
            (λ a m'.
              (a % 256 ≡ c % 256)
              × Ring.IsRing m'.console.keyboard
              × (Ring.queued m'.console.keyboard ≡ rest)
              × SameProcess m m')
            (on_console m r)
    go (returns (ea, el, (ring, q, s))) =
        returns
          (ap (λ x. x % 256) ea ∙ sext8-byte c, ring, q, record { kernel = refl; memory = refl })

abbrev pub console : Stream
console = record {
  get = console_getchar;
  waits = λ m. Ring.queued m.console.keyboard;
  IsReady = λ m. Ring.IsRing m.console.keyboard;
  bound = λ m i. omega (arith, Ring.length-held m.console.keyboard);
  other = λ m k f i. i;
  same = λ m k f. refl;
  got = console-got;
}

-- The serial line.
cons_inj : {x y : ℕ} {xs ys : List ℕ} → x ∷ xs ≡ y ∷ ys → (x ≡ y) × (xs ≡ ys)
cons_inj e = (cc, cc)

not_nil : {x : ℕ} {xs : List ℕ} → [] ≡ x ∷ xs → ⊥
not_nil e = ground (arith, ap length e)

pub serial-got :
    (m : Computer) (c : ℕ) (rest : List ℕ)
    → Input.IsInput m.sio
    → Input.waiting m.sio ≡ c ∷ rest
    → Returns
        (λ a m'.
          (a % 256 ≡ c % 256)
          × Input.IsInput m'.sio
          × (Input.waiting m'.sio ≡ rest)
          × SameProcess m m')
        (sio_getchar m)
serial-got m c rest i e = go (Input.readc-Read m.sio i)
  where
    go :
        {r : Run Sio.Sio ℕ}
        → Returns
            (λ a s'.
              ((Input.waiting m.sio ≡ []) × (a ≡ 0xffff_ffff) × (s' ≡ m.sio))
              ⊎ Input.Read m.sio a s')
            r
        → Returns
            (λ a m'.
              (a % 256 ≡ c % 256)
              × Input.IsInput m'.sio
              × (Input.waiting m'.sio ≡ rest)
              × SameProcess m m')
            (on_sio m r)
    go (returns (inl (none_left, _, _))) = absurd (not_nil (sym none_left ∙ e))
    go (returns (inr (i2, w, o))) = returns (
      ap (λ x. x % 256) (cons_inj (sym w ∙ e)).0,
      i2,
      (cons_inj (sym w ∙ e)).1,
      record { kernel = refl; memory = refl },
    )

abbrev pub serial : Stream
serial = record {
  get = sio_getchar;
  waits = λ m. Input.waiting m.sio;
  IsReady = λ m. Input.IsInput m.sio;
  bound = λ m i. omega (arith, length-seq (Input.in_at m.sio) m.sio.in_count, i.last, i.bound);
  other = λ m k f i. i;
  same = λ m k f. refl;
  got = serial-got;
}
