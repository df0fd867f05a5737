-- ===== src/Tests/Session.antt =====
-- Lines for the shell, and numbers as text.
use systems_os.Prelude.{◌*◌, ◌≡◌, refl, false, true, [], ◌∷◌, ◌++◌, arith}
use systems_os.Machine.{ok, Returns, and_then}
use systems_os.Convert.{cvtdec, cvthex}
use systems_os.Ulib.{itos10, itos16}
use systems_os.Ulib.Laws.{itos_lem}
use systems_os.Shell.{codes, no_words, split, announced, round, no_line, read_chars, read_line}
use systems_os.Shell.Split.{command_line, words_of, split-command_line}
use systems_os.Shell.Session.{read_line_of, round-write-read}
use systems_os.Tests.Disk.{
  name_f, with_dx, disk-IsFiles, disk_f, f-Fits, not_root, lookup_f, disk_zero,
}

-- Two calls of `read`: the second blank is passed over, and what follows the end of the line is lost.
two_reads :
    read_line ((108 ∷ 115 ∷ 32 ∷ 32 ∷ 102 ∷ []) ∷ (13 ∷ 120 ∷ []) ∷ []) no_line
    ≡ ok
        (108 ∷ 115 ∷ 32 ∷ 102 ∷ 13 ∷ [])
        (record no_line { text = 108 ∷ 115 ∷ 32 ∷ 102 ∷ []; used_space = false; complete = true })
unfolding read_line read_chars
two_reads = refl

split-command_line_example :
    split (command_line (codes "write") name_f (codes "hi there")) no_words
    ≡ ok tt (words_of (codes "write") name_f (codes "hi there"))
split-command_line_example =
    split-command_line (codes "write") name_f (codes "hi there")
      (
        omega arith,
        omega arith,
        (
          omega arith,
          omega arith,
          (omega arith, omega arith, (omega arith, omega arith, (omega arith, omega arith, tt))),
        ),
      )
      (omega arith, omega arith, tt)
      (
        omega arith,
        (
          omega arith,
          (
            omega arith,
            (omega arith, (omega arith, (omega arith, (omega arith, (omega arith, tt))))),
          ),
        ),
      )
      (omega arith) (omega arith) (omega arith)

round-write-read_example :
    Returns
      (λ reply t'.
        reply.text ≡ announced (codes "Reading file: ") name_f ++ (codes "hi you" ++ (10 ∷ [])))
      (and_then
        (round (command_line (codes "write") name_f (codes "hi you")) with_dx)
        λ _ t'. round (read_line_of name_f) t')
round-write-read_example =
    round-write-read with_dx name_f (codes "hi you") 1 disk-IsFiles (omega arith, tt)
      (omega arith, omega arith, tt) (omega arith) (not_root disk_f) f-Fits lookup_f
      (disk_zero (512 * (with_dx.entry 1).payload))
      (
        omega arith,
        omega arith,
        (
          omega arith,
          omega arith,
          (
            omega arith,
            omega arith,
            (omega arith, omega arith, (omega arith, omega arith, (omega arith, omega arith, tt))),
          ),
        ),
      )
      (omega arith, (omega arith, (omega arith, (omega arith, (omega arith, (omega arith, tt))))))
      (omega arith) (omega arith)

itos_lem_example :
    (itos10 0xffff_ff9c ≡ cvtdec 0xffff_ff9c) × (itos16 0xffff_ff9c false ≡ cvthex 0xffff_ff9c)
itos_lem_example = itos_lem 0xffff_ff9c (omega arith)
