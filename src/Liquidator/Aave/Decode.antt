-- ===== src/Liquidator/Aave/Decode.antt =====
-- crates/liquidator/src/aave.rs: decoding what Aave encodes, and what goes wrong past 64 reserves.
use alpharouting.Prelude.{
  ℕ, zero, suc, ◌+◌, ◌*◌, ◌/◌, ◌%◌, ◌^◌, ◌≤◌, ◌<◌, ◌≡◌, refl, Option-cases, inl, inr, ◌∙◌, ap, Bool,
  true, false, none, some, List, [], ◌∷◌, length, arith, ltb, ◌==◌,
}
use native.Mathlib.Nat.{pow-suc, div-div-eq-div-mul}
use native.Mathlib.Decide.{dec_lt}
use native.Mathlib.Numerals.{add-one}
use alpharouting.Liquidator.Aave.{
  ReserveFlags, Build, debug, release, shr, flags_at, decode_from, decode_user_configuration,
}

abbrev pub bit : Bool → ℕ
bit true = 1
bit false = 0

-- Aave's encoding: reserve `i` has bits `2 i` (borrowing) and `2 i + 1` (collateral).
unfoldable pub bitmap_of : List ReserveFlags → ℕ
bitmap_of [] = 0
bitmap_of (f ∷ fs) = bit f.borrowing + 2 * bit f.collateral + 4 * bitmap_of fs

shr_small : (build : Build) (n k : ℕ) → k < 128 → shr build n k ≡ some (n / 2 ^ k)
unfolding shr
shr_small debug n k h = ground arith
shr_small release n k h = ap (λ j. some (n / 2 ^ j)) (omega arith)

half_shift : (n k : ℕ) → n / 2 ^ (k + 1) ≡ n / 2 ^ k / 2
half_shift n k = rw (add-one, pow-suc, div-div-eq-div-mul)

low_bit : (b c : Bool) (rest : ℕ) → ((bit b + 2 * bit c + 4 * rest) % 2 == 1) ≡ b
low_bit true true rest = ground arith
low_bit true false rest = ground arith
low_bit false true rest = ground arith
low_bit false false rest = ground arith

high_bit : (b c : Bool) (rest : ℕ) → ((bit b + 2 * bit c + 4 * rest) / 2 % 2 == 1) ≡ c
high_bit true true rest = ground arith
high_bit true false rest = ground arith
high_bit false true rest = ground arith
high_bit false false rest = ground arith

bits-lt_four : (b c : Bool) → bit b + 2 * bit c < 4
bits-lt_four true true = omega arith
bits-lt_four true false = omega arith
bits-lt_four false true = omega arith
bits-lt_four false false = omega arith

-- What the decoder reads for reserve `i` is the bottom of the bitmap shifted past the reserves
-- before it.
flags_at-low :
    (build : Build) (bitmap i : ℕ) (f : ReserveFlags) (rest : ℕ)
    → i < 64
    → bitmap / 2 ^ (2 * i) ≡ bit f.borrowing + 2 * bit f.collateral + 4 * rest
    → flags_at build bitmap i ≡ some f
unfolding flags_at
flags_at-low build bitmap i f rest h e =
    rw
      (
        shr_small build bitmap (2 * i) (omega arith),
        shr_small build bitmap (2 * i + 1) (omega arith),
        half_shift bitmap (2 * i),
        e,
      )
      (λ j. some (record {
        borrowing = low_bit f.borrowing f.collateral rest j;
        collateral = high_bit f.borrowing f.collateral rest j;
      }))

next_shift :
    (bitmap i low rest : ℕ)
    → low < 4
    → bitmap / 2 ^ (2 * i) ≡ low + 4 * rest
    → bitmap / 2 ^ (2 * suc i) ≡ rest
next_shift bitmap i low rest h e =
    ap (λ k. bitmap / 2 ^ k) (omega arith)
    ∙ half_shift bitmap (2 * i + 1)
    ∙ ap (λ k. k / 2) (half_shift bitmap (2 * i))
    ∙ omega (arith, e)

decode_from-bitmap :
    (build : Build) (bitmap i : ℕ) (fs : List ReserveFlags)
    → i + length fs ≤ 64
    → bitmap / 2 ^ (2 * i) ≡ bitmap_of fs
    → decode_from build bitmap i (length fs) ≡ some fs
unfolding decode_from bitmap_of
decode_from-bitmap build bitmap i [] h e = refl
decode_from-bitmap build bitmap i (f ∷ fs) h e = rw (
  flags_at-low build bitmap i f (bitmap_of fs) (omega arith) e,
  decode_from-bitmap build bitmap (suc i) fs (omega arith) (
      next_shift bitmap i (bit f.borrowing + 2 * bit f.collateral) (bitmap_of fs)
        (bits-lt_four f.borrowing f.collateral) e),
)

-- Both builds decode what Aave encodes for at most 64 reserves: each reserve's two flags, in order.
pub decode-bitmap_of :
    (build : Build) (fs : List ReserveFlags)
    → length fs ≤ 64
    → decode_user_configuration build (bitmap_of fs) (length fs) ≡ some fs
unfolding decode_user_configuration
decode-bitmap_of build fs h =
    decode_from-bitmap build (bitmap_of fs) 0 fs (omega arith) (omega arith)

flags_at-debug : (bitmap i : ℕ) → 64 ≤ i → flags_at debug bitmap i ≡ none
unfolding flags_at shr
flags_at-debug bitmap i h = let too_far : ltb (2 * i) 128 ≡ false = ground arith in rw too_far

-- Reserve 64 stops the loop, if nothing before it does.
decode_from-debug : (bitmap i n : ℕ) → i ≤ 64 → 64 < i + n → decode_from debug bitmap i n ≡ none
unfolding decode_from
decode_from-debug bitmap i zero h far = absurd (omega arith)
decode_from-debug bitmap i (suc n) h far = elim (dec_lt i 64) [
  | yes below ↦
      let rest = decode_from-debug bitmap (suc i) n (omega arith) (omega arith) in
      elim (Option-cases (flags_at debug bitmap i)) [ inl e ↦ rw e | inr (flags, e) ↦ rw (e, rest) ]
  | no at ↦ rw (flags_at-debug bitmap i (omega arith))
]

-- With more than 64 reserves the decoder panics in a build with overflow checks, whatever the
-- bitmap. In a build without them reserve 64 + i is read off the bits of reserve i, for i < 64.
pub decode_beyond :
    (bitmap n i : ℕ)
    → 64 < n
    → i < 64
    → (decode_user_configuration debug bitmap n ≡ none)
      × (flags_at release bitmap (64 + i) ≡ flags_at release bitmap i)
unfolding decode_user_configuration flags_at shr
decode_beyond bitmap n i far h =
    let low : 2 * (64 + i) % 128 ≡ 2 * i % 128 = omega arith in
    let high : (2 * (64 + i) + 1) % 128 ≡ (2 * i + 1) % 128 = omega arith in
    (decode_from-debug bitmap 0 n (omega arith) (omega arith), rw (low, high))

four_times : (n : ℕ) → 2 ^ (2 * suc n) ≡ 4 * 2 ^ (2 * n)
four_times n =
    let double : (k : ℕ) → 2 ^ suc k ≡ 2 ^ k * 2 = λ k. pow-suc 2 k in
    let two : 2 * suc n ≡ suc (suc (2 * n)) = omega arith in
    ap (λ k. 2 ^ k) two ∙ omega (arith, double (suc (2 * n)), double (2 * n))

-- Two bits for each reserve.
pub bitmap_of-lt : (n : ℕ) (fs : List ReserveFlags) → length fs ≤ n → bitmap_of fs < 2 ^ (2 * n)
unfolding bitmap_of
bitmap_of-lt zero [] h = omega arith
bitmap_of-lt zero (f ∷ fs) h = absurd (omega arith)
bitmap_of-lt (suc n) [] h = omega (arith, bitmap_of-lt n [] (omega arith), four_times n)
bitmap_of-lt (suc n) (f ∷ fs) h =
    omega
      (arith, bitmap_of-lt n fs (omega arith), bits-lt_four f.borrowing f.collateral, four_times n)
