-- ===== src/Printf/Pieces.antt =====
-- `c_printf` against formats that are put together from pieces: plain characters and directives.
use systems_os.Prelude.{
  ℕ, ◌+◌, ◌-◌, ◌*◌, ◌%◌, ◌^◌, ◌≤◌, ◌<◌, ◌≡◌, ◌≢◌, refl, Bool, true, false, ◌&&◌, Option, none, some,
  List, [], ◌∷◌, ◌++◌, arith, length, ◌==◌, leb, if◌then◌else◌, ne→eqb,
}
use systems_os.Convert.{cvtdec, cvthex, cvtoct}
use systems_os.Printf.{Options, take_minus, take_zero, take_width, take_options}
use systems_os.Printf.Text.{repeat}

-- What a directive converts its argument to, and its letter.
pub data Kind : Type 0 where
  char : Kind
  decimal_number : Kind
  string : Kind
  hex : Kind
  octal : Kind

abbrev pub letter : Kind → ℕ
letter char = 99
letter decimal_number = 100
letter string = 115
letter hex = 120
letter octal = 111

-- A directive has a side, a fill and the digits of a width.
pub data Piece : Type 0 where
  plain : ℕ → Piece
  directive : Bool → Bool → List ℕ → Kind → Piece

-- How a format is written.
abbrev pub digit_codes : List ℕ → List ℕ
digit_codes [] = []
digit_codes (d ∷ ds) = (48 + d) ∷ digit_codes ds

abbrev pub flag : Bool → ℕ → List ℕ → List ℕ
flag true c cs = c ∷ cs
flag false c cs = cs

abbrev pub written : List Piece → List ℕ
written [] = []
written (plain c ∷ ps) = c ∷ written ps
written (directive left zeros ds k ∷ ps) =
    37 ∷ flag left 45 (flag zeros 48 (digit_codes ds ++ (letter k ∷ written ps)))

-- The number that digits stand for.
abbrev pub number : ℕ → List ℕ → ℕ
number n [] = n
number n (d ∷ ds) = number (n * 10 + d) ds

abbrev AreDigits : List ℕ → Type 0
AreDigits [] = Unit
AreDigits (d ∷ ds) = (d < 10) × AreDigits ds

abbrev StartsAboveZero : List ℕ → Type 0
StartsAboveZero [] = Unit
StartsAboveZero (d ∷ ds) = d ≢ 0

abbrev pub IsFormat : List Piece → Type 0
IsFormat [] = Unit
IsFormat (plain c ∷ ps) = (c ≢ 37) × IsFormat ps
IsFormat (directive left zeros ds k ∷ ps) =
    AreDigits ds × StartsAboveZero ds × (number 0 ds < 2 ^ 31) × IsFormat ps

-- What a format shows: a number in its base, a string, or a character, of which a NUL takes a place
-- without being seen; in a field of the width, at its left or its right, that zeros or blanks fill.
abbrev pub some_text : Option (List ℕ) → List ℕ
some_text none = []
some_text (some cs) = cs

abbrev pub content : (ℕ → List ℕ) → Kind → ℕ → List ℕ
content strings char w = if w % 256 == 0 then [] else w % 256 ∷ []
content strings decimal_number w = some_text (cvtdec w)
content strings string w = strings w
content strings hex w = cvthex w
content strings octal w = cvtoct w

abbrev pub places : (ℕ → List ℕ) → Kind → ℕ → ℕ
places strings char w = 1
places strings decimal_number w = length (some_text (cvtdec w))
places strings string w = length (strings w)
places strings hex w = length (cvthex w)
places strings octal w = length (cvtoct w)

abbrev pub in_field : Bool → List ℕ → List ℕ → List ℕ
in_field true cs fill = cs ++ fill
in_field false cs fill = fill ++ cs

abbrev pub fill_of : Bool → ℕ
fill_of true = 48
fill_of false = 32

abbrev pub meaning : (ℕ → List ℕ) → (ℕ → ℕ) → ℕ → List Piece → List ℕ
meaning strings args n [] = []
meaning strings args n (plain c ∷ ps) = c ∷ meaning strings args n ps
meaning strings args n (directive left zeros ds k ∷ ps) =
    in_field left (content strings k (args n))
      (repeat (number 0 ds - places strings k (args n)) (fill_of zeros))
    ++ meaning strings args (n + 1) ps

-- The options are found again.
abbrev Avoids : ℕ → List ℕ → Type 0
Avoids c [] = Unit
Avoids c (x ∷ xs) = x ≢ c

take_minus-flag :
    (left : Bool) (cs : List ℕ) → Avoids 45 cs → take_minus (flag left 45 cs) ≡ (left, cs)
take_minus-flag true cs a = refl
take_minus-flag false [] a = refl
take_minus-flag false (c ∷ cs) a = rw (ne→eqb c 45 a) refl

take_zero-flag :
    (zeros : Bool) (cs : List ℕ) → Avoids 48 cs → take_zero (flag zeros 48 cs) ≡ (fill_of zeros, cs)
take_zero-flag true cs a = refl
take_zero-flag false [] a = refl
take_zero-flag false (c ∷ cs) a = rw (ne→eqb c 48 a) refl

number_grows : (n : ℕ) (ds : List ℕ) → n ≤ number n ds
number_grows n [] = omega arith
number_grows n (d ∷ ds) = omega (arith, number_grows (n * 10 + d) ds)

take_width-letter :
    (n : ℕ) (k : Kind) (cs : List ℕ) → take_width n (letter k ∷ cs) ≡ (n, letter k ∷ cs)
take_width-letter n char cs = refl
take_width-letter n decimal_number cs = refl
take_width-letter n string cs = refl
take_width-letter n hex cs = refl
take_width-letter n octal cs = refl

take_width-digit_codes :
    (n : ℕ) (ds : List ℕ) (k : Kind) (cs : List ℕ)
    → AreDigits ds
    → number n ds < 2 ^ 31
    → take_width n (digit_codes ds ++ (letter k ∷ cs)) ≡ (number n ds, letter k ∷ cs)
take_width-digit_codes n [] k cs a b = take_width-letter n k cs
take_width-digit_codes n (d ∷ ds) k cs (low, a) b =
    let is_digit : (leb 48 (48 + d) && leb (48 + d) 57) ≡ true = ground arith in
    let next : (n * 10 + ((48 + d) - 48)) % 2 ^ 32 ≡ n * 10 + d =
      omega (arith, b, number_grows (n * 10 + d) ds) in
    rw (is_digit, next) (take_width-digit_codes (n * 10 + d) ds k cs a b)

letter-Avoids : (k : Kind) (cs : List ℕ) → Avoids 45 (letter k ∷ cs) × Avoids 48 (letter k ∷ cs)
letter-Avoids char cs = (omega arith, omega arith)
letter-Avoids decimal_number cs = (omega arith, omega arith)
letter-Avoids string cs = (omega arith, omega arith)
letter-Avoids hex cs = (omega arith, omega arith)
letter-Avoids octal cs = (omega arith, omega arith)

digit_codes-Avoids :
    (ds : List ℕ) (k : Kind) (cs : List ℕ)
    → StartsAboveZero ds
    → Avoids 45 (digit_codes ds ++ (letter k ∷ cs)) × Avoids 48 (digit_codes ds ++ (letter k ∷ cs))
digit_codes-Avoids [] k cs a = letter-Avoids k cs
digit_codes-Avoids (d ∷ ds) k cs a = (omega arith, omega arith)

flag-Avoids : (zeros : Bool) (cs : List ℕ) → Avoids 45 cs → Avoids 45 (flag zeros 48 cs)
flag-Avoids true cs a = omega arith
flag-Avoids false cs a = a

abbrev pub options_of : Bool → Bool → List ℕ → Options
options_of left zeros ds = record {
  leftadjust = left;
  padchar = fill_of zeros;
  width = number 0 ds;
}

pub take_options-directive :
    (left zeros : Bool) (ds : List ℕ) (k : Kind) (cs : List ℕ)
    → AreDigits ds
    → StartsAboveZero ds
    → number 0 ds < 2 ^ 31
    → take_options (flag left 45 (flag zeros 48 (digit_codes ds ++ (letter k ∷ cs))))
      ≡ (options_of left zeros ds, letter k ∷ cs)
take_options-directive left zeros ds k cs a s b =
    let tail_part = digit_codes ds ++ (letter k ∷ cs) in
    let free = digit_codes-Avoids ds k cs s in
    rw
      (
        take_minus-flag left (flag zeros 48 tail_part) (flag-Avoids zeros tail_part free.0),
        take_zero-flag zeros tail_part free.1,
        take_width-digit_codes 0 ds k cs a b,
      )
      refl
