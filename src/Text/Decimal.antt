-- ===== src/Text/Decimal.antt =====
-- Numbers as text, as `Display` writes and `str::parse` reads the unsigned integers.
pub mod Laws
use alpharouting.Prelude.{
  All, sym, ap₂, ℕ, zero, suc, ◌+◌, ◌-◌, ◌*◌, ◌/◌, ◌%◌, ◌<◌, ◌≡◌, refl, ap, ◌∙◌, Bool, true, false,
  ◌&&◌, Option, none, some, Bool-cases, inl, inr, [], ◌∷◌, ◌++◌, arith, ltb, leb, ◌==◌,
}
use alpharouting.Text.{Text}

abbrev pub is_digit : ℕ → Bool
is_digit c = leb b'0' c && leb c b'9'

-- The digits of `n`, where `fuel` is above `n`.
pub digits : ℕ → ℕ → Text
digits zero n = []
digits (suc fuel) n = elim (ltb n 10) [
  | true ↦ (b'0' + n) ∷ []
  | false ↦ digits fuel (n / 10) ++ (b'0' + n % 10) ∷ []
]

unfoldable pub decimal : ℕ → Text
unfolding digits
decimal n = digits (n + 1) n

-- The loop of `from_str`: `none` for a byte that is no digit and for a number that is not below the
-- bound.
unfoldable pub parse_digits : ℕ → ℕ → Text → Option ℕ
parse_digits bound acc [] = some acc
parse_digits bound acc (c ∷ cs) =
    let n = acc * 10 + (c - b'0') in
    elim (is_digit c && ltb n bound) [ true ↦ parse_digits bound n cs | false ↦ none ]

-- One leading `+` is allowed before the digits, of which there is one at least.
unfoldable pub parse_unsigned : ℕ → Text → Option ℕ
unfolding parse_digits
parse_unsigned bound [] = none
parse_unsigned bound (c ∷ []) = elim (c == b'+') [
  | true ↦ none
  | false ↦ parse_digits bound 0 (c ∷ [])
]
parse_unsigned bound (c ∷ d ∷ cs) = elim (c == b'+') [
  | true ↦ parse_digits bound 0 (d ∷ cs)
  | false ↦ parse_digits bound 0 (c ∷ d ∷ cs)
]
