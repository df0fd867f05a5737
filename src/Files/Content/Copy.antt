-- ===== src/Files/Content/Copy.antt =====
-- The loops of `_sfs_write`: the bytes that are copied, and the number of rounds.
use systems_os.Prelude.{
  ℕ, zero, suc, ◌+◌, ◌-◌, ◌*◌, ◌%◌, ◌^◌, ◌≤◌, ◌<◌, ◌≡◌, ◌≢◌, refl, ◌==◌, arith, ap, sym, ◌∙◌, inl,
  inr, if◌then◌else◌, ℕ_discrete, eq→eqb, ne→eqb, ◌⊎◌,
}
use systems_os.Machine.{Run, ok, Returns, returns}
use systems_os.Files.{Files, data_block_size}
use systems_os.Files.Content.{copy_bytes, write_size, take_block, write_blocks}

-- Everything but the bytes is left alone.
pub record SameTable (t t' : Files) : Type 0 where
  pub entry : t'.entry ≡ t.entry
  pub directory : t'.directory ≡ t.directory
  pub literals : t'.literals ≡ t.literals

pub copy_bytes-SameTable :
    (n a k : ℕ) (buffer : ℕ → ℕ) (t : Files) → SameTable t (copy_bytes n a k buffer t)
unfolding copy_bytes
copy_bytes-SameTable zero a k buffer t = record { entry = refl; directory = refl; literals = refl }
copy_bytes-SameTable (suc n) a k buffer t =
    let rest =
      copy_bytes-SameTable n (a + 1) (k + 1) buffer
        (record t { byte = λ c. if c == a then buffer k % 256 else t.byte c }) in
    record { entry = rest.entry; directory = rest.directory; literals = rest.literals }

pub copy_bytes-other :
    (n a k : ℕ) (buffer : ℕ → ℕ) (t : Files) (c : ℕ)
    → (c < a) ⊎ (a + n ≤ c)
    → (copy_bytes n a k buffer t).byte c ≡ t.byte c
unfolding copy_bytes
copy_bytes-other zero a k buffer t c out = refl
copy_bytes-other (suc n) a k buffer t c out =
    let d : c ≢ a = elim out [
      | inl b ↦ λ e. absurd (omega arith)
      | inr b ↦ λ e. absurd (omega arith)
    ] in
    let out' : (c < a + 1) ⊎ ((a + 1) + n ≤ c) = elim out [
      | inl b ↦ inl (omega arith)
      | inr b ↦ inr (omega arith)
    ] in
    copy_bytes-other n (a + 1) (k + 1) buffer
      (record t { byte = λ c. if c == a then buffer k % 256 else t.byte c }) c out'
    ∙ rw (ne→eqb c a d) refl

pub copy_bytes-here :
    (n a k : ℕ) (buffer : ℕ → ℕ) (t : Files) (j : ℕ)
    → j < n
    → (copy_bytes n a k buffer t).byte (a + j) ≡ buffer (k + j) % 256
unfolding copy_bytes
copy_bytes-here zero a k buffer t j b = absurd (omega arith)
copy_bytes-here (suc n) a k buffer t zero b =
    let spot : a + 0 ≡ a = omega arith in
    let from : k + 0 ≡ k = omega arith in
    rw (spot, from)
      (copy_bytes-other n (a + 1) (k + 1) buffer
          (record t { byte = λ c. if c == a then buffer k % 256 else t.byte c }) a
          (inl (omega arith))
        ∙ rw (eq→eqb a a refl) refl)
copy_bytes-here (suc n) a k buffer t (suc j) b =
    let t1 : Files = record t { byte = λ c. if c == a then buffer k % 256 else t.byte c } in
    let spot : a + suc j ≡ (a + 1) + j = omega arith in
    let from : (k + 1) + j ≡ k + suc j = omega arith in
    ap (copy_bytes n (a + 1) (k + 1) buffer t1).byte spot
    ∙ copy_bytes-here n (a + 1) (k + 1) buffer t1 j (omega arith)
    ∙ ap (λ x. buffer x % 256) from

-- A round that leaves something is followed by rounds that start at the spot 0 of their blocks.
abbrev left_over : ℕ → ℕ → ℕ
left_over total spot = (total + 2 ^ 16 - write_size total spot) % 2 ^ 16

left_over-less :
    (total : ℕ)
    → total < 2 ^ 16
    → total ≢ 0
    → left_over total 1 ≢ 0
    → left_over total 1 + 511 ≡ total
left_over-less total b n l = ground arith

through :
    {t t' : Files} {r : Run Files (Unit {0})}
    → SameTable t t'
    → Returns (λ _ t''. SameTable t' t'') r
    → Returns (λ _ t''. SameTable t t'') r
through k (returns k') = returns (record {
  entry = k'.entry ∙ k.entry;
  directory = k'.directory ∙ k.directory;
  literals = k'.literals ∙ k.literals;
})

taken-SameTable : (t t' : Files) → SameTable t t' → SameTable t (take_block t')
taken-SameTable t t' k = record { entry = k.entry; directory = k.directory; literals = k.literals }

-- The round after which nothing is left, or rounds that are known to end.
round-SameTable :
    (fuel b total spot k : ℕ) (buffer : ℕ → ℕ) (t : Files)
    → ((c x : ℕ) (t' : Files)
        → total ≢ 0
        → left_over total spot ≢ 0
        → Returns
            (λ _ t''. SameTable t' t'')
            (write_blocks fuel c (left_over total spot) 1 x buffer t'))
    → Returns (λ _ t'. SameTable t t') (write_blocks (suc fuel) b total spot k buffer t)
unfolding write_blocks
round-SameTable fuel b total spot k buffer t next =
    let n = write_size total spot in
    let t1 = copy_bytes n (data_block_size * b + spot) k buffer t in
    let copied = copy_bytes-SameTable n (data_block_size * b + spot) k buffer t in
    elim (ℕ_discrete total 0) [
      | yes z ↦
          rw (eq→eqb total 0 z)
            (returns (record { entry = refl; directory = refl; literals = refl }))
      | no z ↦ elim (ℕ_discrete (left_over total spot) 0) [
        | yes l ↦ rw (ne→eqb total 0 z, eq→eqb (left_over total spot) 0 l) (returns copied)
        | no l ↦
            rw (ne→eqb total 0 z, ne→eqb (left_over total spot) 0 l)
              (through (taken-SameTable t t1 copied)
                (next t1.current_location (k + n) (take_block t1) z l))
      ]
    ]

rounds-SameTable :
    (fuel b total k : ℕ) (buffer : ℕ → ℕ) (t : Files)
    → total < 2 ^ 16
    → total ≤ 511 * suc fuel
    → Returns (λ _ t'. SameTable t t') (write_blocks (suc fuel) b total 1 k buffer t)
rounds-SameTable zero b total k buffer t w m =
    round-SameTable 0 b total 1 k buffer t λ c x t' z l. absurd (l (ground arith))
rounds-SameTable (suc fuel) b total k buffer t w m =
    round-SameTable (suc fuel) b total 1 k buffer t λ c x t' z l.
      let e = left_over-less total w z l in
      rounds-SameTable fuel c (left_over total 1) x buffer t' (omega arith) (omega (arith, e))

pub write_blocks-SameTable :
    (b total spot : ℕ) (buffer : ℕ → ℕ) (t : Files)
    → total < 2 ^ 16
    → Returns (λ _ t'. SameTable t t') (write_blocks 132 b total spot 0 buffer t)
write_blocks-SameTable b total spot buffer t w =
    round-SameTable 131 b total spot 0 buffer t λ c x t' z l.
      rounds-SameTable 130 c (left_over total spot) x buffer t' (omega arith) (omega arith)

nothing-copied : (a : ℕ) (buffer : ℕ → ℕ) (t : Files) → copy_bytes 0 a 0 buffer t ≡ t
unfolding copy_bytes
nothing-copied a buffer t = refl

-- One round is enough for what fits in the block behind the spot.
pub write_blocks-one :
    (b total spot : ℕ) (buffer : ℕ → ℕ) (t : Files)
    → total + spot ≤ 512
    → write_blocks 132 b total spot 0 buffer t
      ≡ ok tt (copy_bytes total (data_block_size * b + spot) 0 buffer t)
unfolding write_blocks
write_blocks-one b total spot buffer t m =
    let n : write_size total spot ≡ total = ground arith in
    elim (ℕ_discrete total 0) [
      | yes z ↦
          let here = data_block_size * b + spot in
          rw (eq→eqb total 0 z) (
            ap (ok tt)
              (sym (ap (λ x. copy_bytes x here 0 buffer t) z ∙ nothing-copied here buffer t)))
      | no z ↦
          rw (ne→eqb total 0 z, eq→eqb (left_over total spot) 0 (ground arith))
            (ap (λ x. ok tt (copy_bytes x (data_block_size * b + spot) 0 buffer t)) n)
    ]
