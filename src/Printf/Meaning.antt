-- ===== src/Printf/Meaning.antt =====
-- A format of pieces shows their meaning.
use systems_os.Prelude.{
  ℕ, zero, suc, ◌+◌, ◌-◌, ◌*◌, ◌%◌, ◌/◌, ◌^◌, ◌≤◌, ◌<◌, ◌≡◌, refl, Bool, true, false, not, ◌||◌,
  Option, none, some, List, [], ◌∷◌, ◌++◌, arith, length, length-append, ◌==◌, ltb, ap, sym, ◌∙◌,
  inl, inr, Bool-cases, ne→eqb, append-nil,
}
use mathlib.Core.Path.{subst}
use systems_os.Machine.{ok, sub32}
use systems_os.Screen.{Screen, puts}
use systems_os.Convert.{
  quotient, digit, and_digit, cvtdec0, with_sign, cvtdec, hex_loop, cvthex, oct_loop, first_octal,
  cvtoct,
}
use systems_os.Convert.Decimal.{cvtdec-IsDecimal}
use systems_os.Printf.{positive, decimal, converted, printf}
use systems_os.Printf.Text.{repeat, padded, prepend, text_code, text, Shows, printf-Shows}
use systems_os.Printf.Pieces.{
  Kind, char, decimal_number, string, hex, octal, letter, Piece, plain, directive, written, number,
  IsFormat, content, places, in_field, fill_of, meaning, options_of, take_options-directive,
  digit_codes, flag, some_text,
}

-- The texts of numbers are short.
hex_loop_short : (n : ℕ) (s : Bool) (w : ℕ) → length (hex_loop n s w) ≤ n
unfolding hex_loop
hex_loop_short zero s w = omega arith
hex_loop_short (suc n) s w = elim (Bool-cases ((n == 0) || not (w / 2 ^ 28 % 2 ^ 4 == 0) || s)) [
  | inl h ↦ rw h (omega (arith, hex_loop_short n true (w * 2 ^ 4 % 2 ^ 32)))
  | inr h ↦ rw h (omega (arith, hex_loop_short n false (w * 2 ^ 4 % 2 ^ 32)))
]

oct_loop_short : (n : ℕ) (s : Bool) (d w : ℕ) → length (oct_loop n s d w) ≤ n
unfolding oct_loop
oct_loop_short zero s d w = omega arith
oct_loop_short (suc n) s d w =
    let shifted = w * 2 ^ 3 % 2 ^ 32 in
    elim (Bool-cases ((n == 0) || not (d == 0) || s)) [
      | inl h ↦ rw h (omega (arith, oct_loop_short n true (shifted / 2 ^ 29) shifted))
      | inr h ↦ rw h (omega (arith, oct_loop_short n false (shifted / 2 ^ 29) shifted))
    ]

and_digit_short :
    (n d : ℕ) (o : Option (List ℕ))
    → length (some_text o) ≤ n
    → length (some_text (and_digit d o)) ≤ suc n
and_digit_short n d none h = omega arith
and_digit_short n d (some ds) h = omega (arith, h, length-append ds (d ∷ []))

cvtdec0_short : (n w : ℕ) → length (some_text (cvtdec0 n w)) ≤ n
unfolding cvtdec0
cvtdec0_short zero w = omega arith
cvtdec0_short (suc n) w = elim (Bool-cases (quotient w == 0)) [
  | inl h ↦ rw h (omega arith)
  | inr h ↦
      rw h (and_digit_short n (digit w) (cvtdec0 n (quotient w)) (cvtdec0_short n (quotient w)))
]

with_sign_short :
    (n : ℕ) (o : Option (List ℕ))
    → length (some_text o) ≤ n
    → length (some_text (with_sign o)) ≤ suc n
with_sign_short n none h = omega arith
with_sign_short n (some ds) h = omega (arith, h)

cvtdec_short : (w : ℕ) → length (some_text (cvtdec w)) ≤ 11
unfolding cvtdec
cvtdec_short w = elim (Bool-cases (ltb w (2 ^ 31))) [
  | inl h ↦ rw h (omega (arith, cvtdec0_short 10 w))
  | inr h ↦ rw h (
      with_sign_short 10 (cvtdec0 10 ((2 ^ 32 - w) % 2 ^ 32))
        (cvtdec0_short 10 ((2 ^ 32 - w) % 2 ^ 32)))
]

cvtdec-some : (w : ℕ) → w < 2 ^ 32 → cvtdec w ≡ some (some_text (cvtdec w))
cvtdec-some w b =
    let (ds, cases) = cvtdec-IsDecimal w b in
    elim cases [
      | inl (_, e, _) ↦ e ∙ ap (λ o. some (some_text o)) (sym e)
      | inr (_, e, _) ↦ e ∙ ap (λ o. some (some_text o)) (sym e)
    ]

-- Each letter has its conversion.
converted-letter :
    (strings : ℕ → List ℕ) (k : Kind) (w : ℕ)
    → w < 2 ^ 32
    → converted strings (letter k) w ≡ some (content strings k w, places strings k w)
converted-letter strings char w b = refl
converted-letter strings decimal_number w b = ap decimal (cvtdec-some w b)
converted-letter strings string w b = refl
converted-letter strings hex w b = refl
converted-letter strings octal w b = refl

places_short :
    (strings : ℕ → List ℕ) (k : Kind) (w : ℕ)
    → length (strings w) < 2 ^ 31
    → places strings k w < 2 ^ 31
unfolding cvthex cvtoct
places_short strings char w b = omega arith
places_short strings decimal_number w b = omega (arith, cvtdec_short w)
places_short strings string w b = b
places_short strings hex w b = omega (arith, hex_loop_short 8 false w)
places_short strings octal w b = omega (arith, oct_loop_short 11 false (first_octal w) w)

-- The padding is what the field leaves.
extra_room : (w l : ℕ) → w < 2 ^ 31 → l < 2 ^ 31 → positive (sub32 w l) ≡ w - l
extra_room w l a b = ground arith

padded-in_field :
    (left zeros : Bool) (ds cs : List ℕ) (l : ℕ)
    → number 0 ds < 2 ^ 31
    → l < 2 ^ 31
    → padded (options_of left zeros ds) cs l
      ≡ in_field left cs (repeat (number 0 ds - l) (fill_of zeros))
padded-in_field true zeros ds cs l a b =
    ap (λ n. cs ++ repeat n (fill_of zeros)) (extra_room (number 0 ds) l a b)
padded-in_field false zeros ds cs l a b =
    ap (λ n. repeat n (fill_of zeros) ++ (cs ++ [])) (extra_room (number 0 ds) l a b)
    ∙ ap (λ x. repeat (number 0 ds - l) (fill_of zeros) ++ x) (append-nil cs)

-- The written format is longer than what follows a piece.
length-flag : (b : Bool) (c : ℕ) (cs : List ℕ) → length cs ≤ length (flag b c cs)
length-flag true c cs = omega arith
length-flag false c cs = omega arith

length-directive :
    (left zeros : Bool) (ds : List ℕ) (k : Kind) (cs : List ℕ)
    → length cs < length (flag left 45 (flag zeros 48 (digit_codes ds ++ (letter k ∷ cs))))
length-directive left zeros ds k cs = omega (
  arith,
  length-flag left 45 (flag zeros 48 (digit_codes ds ++ (letter k ∷ cs))),
  length-flag zeros 48 (digit_codes ds ++ (letter k ∷ cs)),
  length-append (digit_codes ds) (letter k ∷ cs),
)

text-meaning :
    (fuel : ℕ) (strings : ℕ → List ℕ) (args : ℕ → ℕ) (n : ℕ) (ps : List Piece)
    → IsFormat ps
    → ((i : ℕ) → args i < 2 ^ 32)
    → ((a : ℕ) → length (strings a) < 2 ^ 31)
    → length (written ps) < fuel
    → text fuel strings args n (written ps) ≡ some (meaning strings args n ps)
unfolding text
text-meaning zero strings args n ps f words short h = absurd (omega arith)
text-meaning (suc fuel) strings args n [] f words short h = refl
text-meaning (suc fuel) strings args n (plain c ∷ ps) (d, f) words short h =
    rw (ne→eqb c 37 d)
      (ap (prepend (c ∷ [])) (text-meaning fuel strings args n ps f words short (omega arith)))
text-meaning (suc fuel) strings args n (directive left zeros ds k ∷ ps) (a, s, b, f) words short h =
    let options = take_options-directive left zeros ds k (written ps) a s b in
    let rest =
      text-meaning fuel strings args (n + 1) ps f words short
        (omega (arith, h, length-directive left zeros ds k (written ps))) in
    ap (λ o. text_code (text fuel strings args) strings args n o.0 o.1) options
    ∙ rw (converted-letter strings k (args n) (words n), rest)
        (ap (λ x. some (x ++ meaning strings args (n + 1) ps))
          (padded-in_field left zeros ds (content strings k (args n)) (places strings k (args n)) b
            (places_short strings k (args n) (short (args n)))))

-- For a format that is written from pieces, each a character other than `%`, or a directive with
-- a side, a fill, the decimal digits of a width below 2^31 that do not begin with 0, and the
-- letter of a character, a decimal number, a string, a hexadecimal or an octal number, with
-- arguments of 32 bits and strings shorter than 2^31, the fuel is enough for `c_printf`, and it
-- shows just what the pieces mean: each character, and each next argument as its directive says,
-- as a character, by `cvtdec`, as the string, by `cvthex` or by `cvtoct`, in a field of the
-- width, at the left of it if there is a minus and else at the right, that is filled with zeros
-- if there is a 0 and else with blanks.
pub printf-meaning :
    (strings : ℕ → List ℕ) (args : ℕ → ℕ) (ps : List Piece) (s : Screen)
    → IsFormat ps
    → ((i : ℕ) → args i < 2 ^ 32)
    → ((a : ℕ) → length (strings a) < 2 ^ 31)
    → printf strings args (written ps) s ≡ ok tt (puts (meaning strings args 0 ps) s)
printf-meaning strings args ps s f words short =
    subst (λ t. Shows t (printf strings args (written ps) s) s)
      (text-meaning (suc (length (written ps))) strings args 0 ps f words short (omega arith))
      (printf-Shows strings args (written ps) s)
