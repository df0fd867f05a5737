-- ===== src/Ulib/Laws.antt =====
-- The conversions of the user library against those of the console.
use systems_os.Prelude.{
  ℕ, zero, suc, ◌*◌, ◌/◌, ◌%◌, ◌^◌, ◌<◌, ◌≡◌, refl, Bool, true, false, not, ◌||◌, Option, none,
  some, List, [], ◌∷◌, ◌++◌, ◌==◌, arith, ltb, ap, sym, ◌∙◌, inl, inr, Bool-cases, ne→eqb,
  append-nil, append_assoc,
}
use systems_os.Convert.{
  quotient, digit, and_digit, cvtdec0, with_sign, cvtdec, hexdigits, hex_loop, cvthex,
}
use systems_os.Ulib.{
  quotient_of, value_of, last_digit, negated, put_digit, itos10x, itos10, next_octal, octal_loop,
  itos8, digits_loop, itos16,
}

same_quotient : (w : ℕ) → w < 2 ^ 32 → quotient_of w ≡ quotient w
same_quotient w b = ground arith

same_digit : (w : ℕ) → w < 2 ^ 32 → last_digit (value_of w) ≡ digit w
same_digit w b = ground arith

small_quotient : (w : ℕ) → w < 2 ^ 32 → quotient w < 2 ^ 32
small_quotient w b = ground arith

-- A text behind what the buffer holds.
abbrev prefixed : List ℕ → Option (List ℕ) → Option (List ℕ)
prefixed buf none = none
prefixed buf (some ds) = some (buf ++ ds)

put_digit-prefixed :
    (buf : List ℕ) (v d : ℕ) (o : Option (List ℕ))
    → last_digit v ≡ d
    → put_digit v (prefixed buf o) ≡ prefixed buf (and_digit d o)
put_digit-prefixed buf v d none e = refl
put_digit-prefixed buf v d (some ds) e =
    ap some (append_assoc buf ds (last_digit v ∷ []) ∙ ap (λ x. buf ++ (ds ++ (x ∷ []))) e)

itos10x-cvtdec0 :
    (fuel : ℕ) (buf : List ℕ) (w : ℕ)
    → w < 2 ^ 32
    → itos10x fuel buf w ≡ prefixed buf (cvtdec0 fuel w)
unfolding itos10x cvtdec0
itos10x-cvtdec0 zero buf w b = refl
itos10x-cvtdec0 (suc fuel) buf w b =
    let q = same_quotient w b in
    let d = same_digit w b in
    elim (Bool-cases (quotient w == 0)) [
      | inl z ↦ rw (q, z) (ap (λ x. some (buf ++ (x ∷ []))) d)
      | inr z ↦
          rw (q, z)
            (ap (put_digit (value_of w))
                (itos10x-cvtdec0 fuel buf (quotient w) (small_quotient w b))
              ∙ put_digit-prefixed buf (value_of w) (digit w) (cvtdec0 fuel (quotient w)) d)
    ]

prefixed-nil : (o : Option (List ℕ)) → prefixed [] o ≡ o
prefixed-nil none = refl
prefixed-nil (some ds) = refl

prefixed-minus : (o : Option (List ℕ)) → prefixed (45 ∷ []) o ≡ with_sign o
prefixed-minus none = refl
prefixed-minus (some ds) = refl

itos10-cvtdec : (w : ℕ) → w < 2 ^ 32 → itos10 w ≡ cvtdec w
unfolding itos10 cvtdec
itos10-cvtdec w b = elim (Bool-cases (ltb w (2 ^ 31))) [
  | inl h ↦ rw h (itos10x-cvtdec0 10 [] w b ∙ prefixed-nil (cvtdec0 10 w))
  | inr h ↦ rw h (
      itos10x-cvtdec0 10 (45 ∷ []) (negated w) (omega arith)
      ∙ prefixed-minus (cvtdec0 10 (negated w)))
]

-- The digits in base 16.
digits_loop-hex_loop :
    (n : ℕ) (buf : List ℕ) (s : Bool) (w : ℕ)
    → w < 2 ^ 32
    → digits_loop n buf s w ≡ buf ++ hex_loop n s w
unfolding digits_loop hex_loop
digits_loop-hex_loop zero buf s w b = sym (append-nil buf)
digits_loop-hex_loop (suc n) buf s w b =
    let shifted = w * 2 ^ 4 % 2 ^ 32 in
    let val : w / 2 ^ 28 % 2 ^ 4 ≡ w / 2 ^ 28 = omega arith in
    let d = hexdigits (w / 2 ^ 28 % 2 ^ 4) in
    let stored =
      digits_loop-hex_loop n (buf ++ (d ∷ [])) true shifted (omega arith)
      ∙ append_assoc buf (d ∷ []) (hex_loop n true shifted) in
    elim (Bool-cases ((n == 0) || not (w / 2 ^ 28 == 0) || s)) [
      | inl h ↦ rw (h, ap (λ x. (n == 0) || not (x == 0) || s) val ∙ h) stored
      | inr h ↦
          let first : s ≡ false = ground (arith, h) in
          rw (h, ap (λ x. (n == 0) || not (x == 0) || s) val ∙ h)
            (digits_loop-hex_loop n buf s shifted (omega arith)
              ∙ ap (λ x. buf ++ hex_loop n x shifted) first)
    ]

-- For each bit pattern of an `int`, `itos10` stores the text of `cvtdec`, and `itos16`, when
-- zeros in front are not stored, that of `cvthex`.
pub itos_lem : (w : ℕ) → w < 2 ^ 32 → (itos10 w ≡ cvtdec w) × (itos16 w false ≡ cvthex w)
unfolding itos16 cvthex
itos_lem w b = (itos10-cvtdec w b, digits_loop-hex_loop 8 [] false w b)

-- The digits in base 8.
next_octal-zero : (w : ℕ) → next_octal w ≡ 0
next_octal-zero w = omega arith

octal_loop-zero : (n w : ℕ) → octal_loop (suc n) [] false 0 w ≡ 48 ∷ []
unfolding octal_loop
octal_loop-zero zero w = refl
octal_loop-zero (suc n) w =
    rw (next_octal-zero w, ne→eqb (suc n) 0 λ e. absurd (omega arith))
      (octal_loop-zero n (w * 2 ^ 3 % 2 ^ 32))

-- Every number below 2^30 is converted to "0".
pub itos8_lem : (w : ℕ) → w < 2 ^ 30 → itos8 w false ≡ 48 ∷ []
unfolding itos8
itos8_lem w b =
    let first : w / 2 ^ 30 ≡ 0 = omega arith in
    ap (λ x. octal_loop 11 [] false x (w * 2 ^ 2 % 2 ^ 32)) first
    ∙ octal_loop-zero 10 (w * 2 ^ 2 % 2 ^ 32)
