-- ===== src/Text/Decimal/Laws.antt =====
-- What is written is what is read.
use alpharouting.Prelude.{
  ℕ, zero, suc, ◌+◌, ◌-◌, ◌*◌, ◌/◌, ◌%◌, ◌<◌, ◌≡◌, refl, ap, ◌∙◌, true, false, some, Bool-cases,
  inl, inr, [], ◌∷◌, ◌++◌, arith, ltb, ◌==◌,
}
use alpharouting.Text.{Text}
use alpharouting.Text.Decimal.{is_digit, digits, decimal, parse_digits, parse_unsigned}

-- A number that is read is below the bound.
parse_digits-lt :
    (bound acc : ℕ) (s : Text) (n : ℕ) → acc < bound → parse_digits bound acc s ≡ some n → n < bound
unfolding parse_digits
parse_digits-lt bound acc [] n h e = ground (arith, e)
parse_digits-lt bound acc (c ∷ cs) n h e =
    ground (arith, e, parse_digits-lt bound (acc * 10 + (c - b'0')) cs n)

parse_digits-lt_cons :
    (bound acc c : ℕ) (cs : Text) (n : ℕ) → parse_digits bound acc (c ∷ cs) ≡ some n → n < bound
unfolding parse_digits
parse_digits-lt_cons bound acc c cs n e =
    ground (arith, e, parse_digits-lt bound (acc * 10 + (c - b'0')) cs n)

parse_digits-snoc :
    (bound acc : ℕ) (s : Text) (n d : ℕ)
    → parse_digits bound acc s ≡ some n
    → d < 10
    → n * 10 + d < bound
    → parse_digits bound acc (s ++ (b'0' + d) ∷ []) ≡ some (n * 10 + d)
unfolding parse_digits
parse_digits-snoc bound acc [] n d e h k = ground (arith, e)
parse_digits-snoc bound acc (c ∷ cs) n d e h k =
    ground (arith, e, parse_digits-snoc bound (acc * 10 + (c - b'0')) cs n d)

digits_small : (fuel n : ℕ) → ltb n 10 ≡ true → digits (suc fuel) n ≡ (b'0' + n) ∷ []
unfolding digits
digits_small fuel n e = rw (e, digits)

digits_large :
    (fuel n : ℕ)
    → ltb n 10 ≡ false
    → digits (suc fuel) n ≡ digits fuel (n / 10) ++ (b'0' + n % 10) ∷ []
unfolding digits
digits_large fuel n e = rw (e, digits)

-- The digits of a number below the bound are read as that number.
pub parse_digits-digits :
    (bound fuel n : ℕ) → n < fuel → n < bound → parse_digits bound 0 (digits fuel n) ≡ some n
unfolding parse_digits
parse_digits-digits bound zero n h k = absurd (omega arith)
parse_digits-digits bound (suc fuel) n h k = elim (Bool-cases (ltb n 10)) [
  | inl e ↦
      ap (parse_digits bound 0) (digits_small fuel n e)
      ∙ parse_digits-snoc bound 0 [] 0 n parse_digits-nil (ground arith) (omega arith)
      ∙ ap some (omega arith)
  | inr e ↦
      let before = parse_digits-digits bound fuel (n / 10) (ground arith) (omega arith) in
      ap (parse_digits bound 0) (digits_large fuel n e)
      ∙ parse_digits-snoc bound 0 (digits fuel (n / 10)) (n / 10) (n % 10) before (omega arith)
          (omega arith)
      ∙ ap some (omega arith)
]
  where
    parse_digits-nil : parse_digits bound 0 [] ≡ some 0
    parse_digits-nil = refl

-- A text of one digit or more, and nothing else.
abbrev pub IsNumeral : Text → Type 0
IsNumeral [] = ⊥
IsNumeral (c ∷ []) = is_digit c ≡ true
IsNumeral (c ∷ d ∷ cs) = (is_digit c ≡ true) × IsNumeral (d ∷ cs)

IsNumeral-snoc : (s : Text) (c : ℕ) → is_digit c ≡ true → IsNumeral s → IsNumeral (s ++ c ∷ [])
IsNumeral-snoc [] c e h = absurd h
IsNumeral-snoc (x ∷ []) c e h = (h, e)
IsNumeral-snoc (x ∷ y ∷ s) c e h = (h.0, IsNumeral-snoc (y ∷ s) c e h.1)

digits-IsNumeral : (fuel n : ℕ) → n < fuel → IsNumeral (digits fuel n)
digits-IsNumeral zero n h = absurd (omega arith)
digits-IsNumeral (suc fuel) n h = elim (Bool-cases (ltb n 10)) [
  | inl e ↦ rw (digits_small fuel n e) (ground arith)
  | inr e ↦ rw (digits_large fuel n e) (
      IsNumeral-snoc (digits fuel (n / 10)) (b'0' + n % 10) (ground arith)
        (digits-IsNumeral fuel (n / 10) (ground arith)))
]

pub decimal-IsNumeral : (n : ℕ) → IsNumeral (decimal n)
unfolding decimal
decimal-IsNumeral n = digits-IsNumeral (n + 1) n (omega arith)

-- A numeral has no sign.
parse_unsigned-digits :
    (bound : ℕ) (s : Text) → IsNumeral s → parse_unsigned bound s ≡ parse_digits bound 0 s
unfolding parse_unsigned
parse_unsigned-digits bound [] h = absurd h
parse_unsigned-digits bound (c ∷ []) h =
    let e : (c == b'+') ≡ false = ground (arith, h) in rw (e, parse_unsigned)
parse_unsigned-digits bound (c ∷ d ∷ cs) h =
    let e : (c == b'+') ≡ false = ground (arith, h.0) in rw (e, parse_unsigned)

-- Reading what was written gives the number back, if it is below the bound; and what is read is
-- always below it.
pub parse_unsigned-decimal : (bound n : ℕ) → n < bound → parse_unsigned bound (decimal n) ≡ some n
unfolding decimal
parse_unsigned-decimal bound n h =
    parse_unsigned-digits bound (decimal n) (decimal-IsNumeral n)
    ∙ parse_digits-digits bound (n + 1) n (omega arith) h

pub parse_unsigned-lt : (bound : ℕ) (s : Text) (n : ℕ) → parse_unsigned bound s ≡ some n → n < bound
unfolding parse_unsigned
parse_unsigned-lt bound [] n e = cc
parse_unsigned-lt bound (c ∷ []) n e = ground (arith, e, parse_digits-lt_cons bound 0 c [] n)
parse_unsigned-lt bound (c ∷ d ∷ cs) n e =
    ground
      (arith, e, parse_digits-lt_cons bound 0 c (d ∷ cs) n, parse_digits-lt_cons bound 0 d cs n)
