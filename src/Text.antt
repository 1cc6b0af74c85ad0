-- ===== src/Text.antt =====
-- Texts as their bytes.
pub mod Decimal
use Prim.Native.Char.{code}
use Prim.Native.String.{String}
use alpharouting.Prelude.{
  ℕ, ◌+◌, ◌≡◌, ◌↔◌, refl, Bool, true, false, ◌&&◌, List, [], ◌∷◌, ◌++◌, map, arith, leb, ◌==◌,
  if◌then◌else◌, ap₂, ==_refl,
}

abbrev pub Text : Type 0
Text = List ℕ

-- A literal's bytes (ASCII).
abbrev pub codes : String → Text
codes String.[] = []
codes (String.◌∷◌ c s) = code c ∷ codes s

-- The pieces of a `format!`, one behind the other.
abbrev pub concat : List Text → Text
concat [] = []
concat (s ∷ rest) = s ++ concat rest

-- `str::eq`.
unfoldable pub text_eq : Text → Text → Bool
text_eq [] [] = true
text_eq (a ∷ s) (b ∷ t) = a == b && text_eq s t
text_eq _ _ = false

-- `u8::to_ascii_lowercase`.
unfoldable pub lower_byte : ℕ → ℕ
lower_byte c = if leb b'A' c && leb c b'Z' then c + 32 else c

-- `str::to_ascii_lowercase`.
unfoldable pub to_ascii_lowercase : Text → Text
unfolding lower_byte
to_ascii_lowercase s = map lower_byte s

pub text_eq_refl : (s : Text) → text_eq s s ≡ true
unfolding text_eq
text_eq_refl [] = refl
text_eq_refl (a ∷ s) = rw (==_refl a) (text_eq_refl s)

pub text_eq_iff : (s t : Text) → (text_eq s t ≡ true) ↔ (s ≡ t)
unfolding text_eq
text_eq_iff [] [] = ground arith
text_eq_iff [] (b ∷ t) = ground arith
text_eq_iff (a ∷ s) [] = ground arith
text_eq_iff (a ∷ s) (b ∷ t) = ground (arith, text_eq_iff s t)

lower_byte-lower_byte : (c : ℕ) → lower_byte (lower_byte c) ≡ lower_byte c
unfolding lower_byte
lower_byte-lower_byte c = ground arith

-- Lowercase text stays as it is.
pub lowercase-lowercase :
    (s : Text) → to_ascii_lowercase (to_ascii_lowercase s) ≡ to_ascii_lowercase s
unfolding to_ascii_lowercase
lowercase-lowercase [] = refl
lowercase-lowercase (c ∷ s) = ap₂ ◌∷◌ (lower_byte-lower_byte c) (lowercase-lowercase s)
