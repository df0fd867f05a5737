-- ===== src/System/Context.antt =====
-- `context_t` of process.h: the longword of each field that the code names, and how many longwords
-- there are.
use systems_os.Prelude.{ℕ}

abbrev pub ss : ℕ
ss = 0

abbrev pub gs : ℕ
gs = 1

abbrev pub fs : ℕ
fs = 2

abbrev pub es : ℕ
es = 3

abbrev pub ds : ℕ
ds = 4

abbrev pub eax : ℕ
eax = 12

abbrev pub eip : ℕ
eip = 15

abbrev pub cs : ℕ
cs = 16

abbrev pub eflags : ℕ
eflags = 17

abbrev pub lwords : ℕ
lwords = 18
