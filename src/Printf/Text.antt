-- ===== src/Printf/Text.antt =====
-- What `c_printf` shows: the characters of a text, one after another.
use systems_os.Prelude.{
  ℕ, zero, suc, ◌+◌, ◌-◌, ◌*◌, ◌%◌, ◌^◌, ◌≤◌, ◌<◌, ◌≡◌, refl, ◌&&◌, Option, none, some, List, [],
  ◌∷◌, ◌++◌, arith, length, ◌==◌, leb, if◌then◌else◌, ap, sym, ◌∙◌, inl, inr, Bool-cases,
}
use systems_os.Machine.{Run, ok, fault, sub32}
use systems_os.Screen.{Screen, putchar, puts, sext8}
use systems_os.Printf.{
  minus_one, pad, Options, before, behind, padstr, take_minus, take_zero, take_width, take_options,
  converted, Rest, print_converted, print_code, do_printf, printf,
}

abbrev pub repeat : ℕ → ℕ → List ℕ
repeat zero c = []
repeat (suc n) c = c ∷ repeat n c

-- A converted argument with its padding.
abbrev pub padded : Options → List ℕ → ℕ → List ℕ
padded o str len =
    repeat (before o (sub32 o.width len)) o.padchar
    ++ (str ++ repeat (behind o (sub32 o.width len)) o.padchar)

-- The text of a format and its arguments; there is none for a format that ends inside a code.
abbrev pub prepend : List ℕ → Option (List ℕ) → Option (List ℕ)
prepend cs none = none
prepend cs (some ds) = some (cs ++ ds)

abbrev text_converted :
    (ℕ → List ℕ → Option (List ℕ)) → ℕ → Options → List ℕ → Option (List ℕ × ℕ) → Option (List ℕ)
text_converted more n o fmt none = more n fmt
text_converted more n o fmt (some (str, len)) = prepend (padded o str len) (more (n + 1) fmt)

abbrev pub text_code :
    (ℕ → List ℕ → Option (List ℕ)) → (ℕ → List ℕ) → (ℕ → ℕ) → ℕ → Options → List ℕ → Option (List ℕ)
text_code more strings args n o [] = none
text_code more strings args n o (code ∷ fmt) =
    text_converted more n o fmt (converted strings code (args n))

unfoldable pub text : ℕ → (ℕ → List ℕ) → (ℕ → ℕ) → ℕ → List ℕ → Option (List ℕ)
text zero strings args n fmt = none
text (suc fuel) strings args n [] = some []
text (suc fuel) strings args n (ch ∷ fmt) =
    let code =
      text_code (text fuel strings args) strings args n (take_options fmt).0 (take_options fmt).1 in
    let plain = prepend (ch ∷ []) (text fuel strings args n fmt) in if ch == 37 then code else plain

-- Strings one after another.
puts-append : (cs bs : List ℕ) (s : Screen) → puts (cs ++ bs) s ≡ puts bs (puts cs s)
unfolding puts
puts-append [] bs s = refl
puts-append (a ∷ cs) bs s = puts-append cs bs (putchar (sext8 a) s)

sext8-ascii : (c : ℕ) → c < 128 → sext8 c ≡ c
sext8-ascii c h = ground arith

pad-repeat :
    (n c : ℕ) (s : Screen)
    → c < 128
    → pad n minus_one minus_one c s ≡ ok minus_one (puts (repeat n c) s)
unfolding pad puts
pad-repeat zero c s h = refl
pad-repeat (suc n) c s h =
    pad-repeat n c (putchar c s) h
    ∙ ap (λ x. ok minus_one (puts (repeat n c) (putchar x s))) (sym (sext8-ascii c h))

padstr-padded :
    (str : List ℕ) (len : ℕ) (o : Options) (s : Screen)
    → o.padchar < 128
    → padstr minus_one minus_one str len o s ≡ ok minus_one (puts (padded o str len) s)
unfolding padstr
padstr-padded str len o s h =
    let extra = sub32 o.width len in
    let front = repeat (before o extra) o.padchar in
    let back = repeat (behind o extra) o.padchar in
    rw (pad-repeat (before o extra) o.padchar s h) (
      pad-repeat (behind o extra) o.padchar (puts str (puts front s)) h
      ∙ ap (ok minus_one)
          (sym (puts-append str back (puts front s)) ∙ sym (puts-append front (str ++ back) s)))

-- The options leave a shorter format, and the fill is a blank or a zero.
fill-ascii : (fmt : List ℕ) → (take_zero fmt).0 < 128
fill-ascii [] = omega arith
fill-ascii (c ∷ cs) = elim (Bool-cases (c == 48)) [
  | inl t ↦ rw t (omega arith)
  | inr t ↦ rw t (omega arith)
]

length-take_zero : (fmt : List ℕ) → length (take_zero fmt).1 ≤ length fmt
length-take_zero [] = omega arith
length-take_zero (c ∷ cs) = elim (Bool-cases (c == 48)) [
  | inl t ↦ rw t (omega arith)
  | inr t ↦ rw t (omega arith)
]

length-take_minus : (fmt : List ℕ) → length (take_minus fmt).1 ≤ length fmt
length-take_minus [] = omega arith
length-take_minus (c ∷ cs) = elim (Bool-cases (c == 45)) [
  | inl t ↦ rw t (omega arith)
  | inr t ↦ rw t (omega arith)
]

length-take_width : (w : ℕ) (fmt : List ℕ) → length (take_width w fmt).1 ≤ length fmt
length-take_width w [] = omega arith
length-take_width w (c ∷ cs) = elim (Bool-cases (leb 48 c && leb c 57)) [
  | inl t ↦ rw t (omega (arith, length-take_width ((w * 10 + (c - 48)) % 2 ^ 32) cs))
  | inr t ↦ rw t (omega arith)
]

length-take_options : (fmt : List ℕ) → length (take_options fmt).1 ≤ length fmt
length-take_options fmt = omega (
  arith,
  length-take_minus fmt,
  length-take_zero (take_minus fmt).1,
  length-take_width 0 (take_zero (take_minus fmt).1).1,
)

-- A run shows a text, or ends in a fault where there is none.
abbrev pub Shows : Option (List ℕ) → Run Screen (Unit {0}) → Screen → Type 0
Shows none r s = r ≡ fault
Shows (some cs) r s = r ≡ ok tt (puts cs s)

prepend-Shows :
    (front : List ℕ) (t : Option (List ℕ)) (r : Run Screen (Unit {0})) (s : Screen)
    → Shows t r (puts front s)
    → Shows (prepend front t) r s
prepend-Shows front none r s e = e
prepend-Shows front (some cs) r s e = e ∙ ap (ok tt) (sym (puts-append front cs s))

converted-Shows :
    (run : Rest) (more : ℕ → List ℕ → Option (List ℕ)) (n : ℕ) (o : Options) (fmt : List ℕ)
    (c : Option (List ℕ × ℕ)) (s : Screen)
    → o.padchar < 128
    → ((k : ℕ) (t : Screen) → Shows (more k fmt) (run k minus_one fmt t) t)
    → Shows (text_converted more n o fmt c) (print_converted run n minus_one minus_one o fmt c s) s
converted-Shows run more n o fmt none s h e = e n s
converted-Shows run more n o fmt (some (str, len)) s h e = rw (padstr-padded str len o s h) (
    prepend-Shows (padded o str len) (more (n + 1) fmt)
      (run (n + 1) minus_one fmt (puts (padded o str len) s)) s
      (e (n + 1) (puts (padded o str len) s)))

code-Shows :
    (run : Rest) (more : ℕ → List ℕ → Option (List ℕ)) (strings : ℕ → List ℕ) (args : ℕ → ℕ)
    (n bound : ℕ) (o : Options) (fmt : List ℕ) (s : Screen)
    → o.padchar < 128
    → length fmt ≤ bound
    → ((k : ℕ) (f : List ℕ) (t : Screen)
        → length f < bound
        → Shows (more k f) (run k minus_one f t) t)
    → Shows
        (text_code more strings args n o fmt)
        (print_code run strings args n minus_one minus_one o fmt s)
        s
code-Shows run more strings args n bound o [] s h b e = refl
code-Shows run more strings args n bound o (code ∷ fmt) s h b e =
    converted-Shows run more n o fmt (converted strings code (args n)) s h
      λ k t. e k fmt t (omega arith)

do_printf-Shows :
    (fuel : ℕ) (strings : ℕ → List ℕ) (args : ℕ → ℕ) (n : ℕ) (fmt : List ℕ) (s : Screen)
    → length fmt < fuel
    → Shows
        (text fuel strings args n fmt)
        (do_printf fuel strings args n minus_one minus_one fmt s)
        s
unfolding do_printf text puts
do_printf-Shows zero strings args n fmt s h = absurd (omega arith)
do_printf-Shows (suc fuel) strings args n [] s h = refl
do_printf-Shows (suc fuel) strings args n (ch ∷ fmt) s h = elim (Bool-cases (ch == 37)) [
  | inl t ↦ rw t (
      code-Shows (λ ap1 x1 fmt1. do_printf fuel strings args ap1 x1 minus_one fmt1)
        (text fuel strings args) strings args n fuel (take_options fmt).0 (take_options fmt).1 s
        (fill-ascii (take_minus fmt).1) (omega (arith, length-take_options fmt))
        λ k f u b. do_printf-Shows fuel strings args k f u b)
  | inr t ↦ rw t (
      prepend-Shows (ch ∷ []) (text fuel strings args n fmt)
        (do_printf fuel strings args n minus_one minus_one fmt (putchar (sext8 ch) s)) s
        (do_printf-Shows fuel strings args n fmt (putchar (sext8 ch) s) (omega arith)))
]

-- For every format and arguments, the fuel is enough for `c_printf`, and it does to the screen
-- what the output of one text does, character by character: the plain characters and, for each
-- code, the converted argument with its padding on the side and of the width and fill that the
-- code gives; only a format that ends inside a code is read beyond its end.
pub printf-Shows :
    (strings : ℕ → List ℕ) (args : ℕ → ℕ) (fmt : List ℕ) (s : Screen)
    → Shows (text (suc (length fmt)) strings args 0 fmt) (printf strings args fmt s) s
unfolding printf
printf-Shows strings args fmt s =
    do_printf-Shows (suc (length fmt)) strings args 0 fmt s (omega arith)
