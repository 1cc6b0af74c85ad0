-- ===== src/Liquidator/Aave/Bits.antt =====
-- crates/liquidator/src/aave.rs: what the decoder reads, bit by bit.
use alpharouting.Prelude.{
  ℕ, zero, suc, ◌+◌, ◌*◌, ◌/◌, ◌%◌, ◌^◌, ◌≡◌, refl, sym, subst, Bool-cases, Option, Option-cases,
  inl, inr, ◌∙◌, ap, Bool, none, some, List, [], ◌∷◌, length, arith, ltb, ◌==◌,
}
use alpharouting.Liquidator.Aave.{
  ReserveFlags, Build, debug, release, shr, flags_at, decode_from, decode_user_configuration,
}

-- Bit `k` of a `u128`, where the number of the bit is taken modulo 128.
abbrev pub bit_at : ℕ → ℕ → Bool
bit_at bitmap k = bitmap / 2 ^ (k % 128) % 2 == 1

-- The flags of the reserves from `i` on are the bits of the bitmap, two for each.
abbrev pub AreBits : ℕ → ℕ → List ReserveFlags → Type 0
AreBits bitmap i [] = Unit
AreBits bitmap i (f ∷ fs) =
    (f.borrowing ≡ bit_at bitmap (2 * i))
    × (f.collateral ≡ bit_at bitmap (2 * i + 1))
    × AreBits bitmap (suc i) fs

none≢nat : {n : ℕ} → ◌≡◌ {A = Option ℕ} none (some n) → ⊥
none≢nat e = cc

some_nat : {m n : ℕ} → ◌≡◌ {A = Option ℕ} (some m) (some n) → m ≡ n
some_nat e = cc

none≢flags : {f : ReserveFlags} → ◌≡◌ {A = Option ReserveFlags} none (some f) → ⊥
none≢flags e = cc

some_flags : {f g : ReserveFlags} → ◌≡◌ {A = Option ReserveFlags} (some f) (some g) → f ≡ g
some_flags e = cc

none≢list : {fs : List ReserveFlags} → ◌≡◌ {A = Option (List ReserveFlags)} none (some fs) → ⊥
none≢list e = cc

some_list :
    {fs gs : List ReserveFlags} → ◌≡◌ {A = Option (List ReserveFlags)} (some fs) (some gs) → fs ≡ gs
some_list e = cc

shr-eq : (build : Build) (n k m : ℕ) → shr build n k ≡ some m → m ≡ n / 2 ^ (k % 128)
unfolding shr
shr-eq debug n k m e = elim (Bool-cases (ltb k 128)) [
  | inl p ↦
      let value : n / 2 ^ k ≡ m = some_nat (rw (p, shr) at e) in
      sym value ∙ ap (λ j. n / 2 ^ j) (ground (arith, p))
  | inr p ↦ absurd (none≢nat (rw (p, shr) at e))
]
shr-eq release n k m e = sym (some_nat e)

flags_at-bits :
    (build : Build) (bitmap i : ℕ) (f : ReserveFlags)
    → flags_at build bitmap i ≡ some f
    → (f.borrowing ≡ bit_at bitmap (2 * i)) × (f.collateral ≡ bit_at bitmap (2 * i + 1))
unfolding flags_at
flags_at-bits build bitmap i f e = elim (Option-cases (shr build bitmap (2 * i))) [
  | inl p ↦ absurd (none≢flags (rw (p, flags_at) at e))
  | inr (b, p) ↦ elim (Option-cases (shr build bitmap (2 * i + 1))) [
    | inl q ↦ absurd (none≢flags (rw (p, flags_at, q) at e))
    | inr (c, q) ↦
        let same : record { borrowing = b % 2 == 1; collateral = c % 2 == 1 } ≡ f =
          some_flags (rw (p, flags_at, q) at e) in
        (
          sym (ap (λ g. g.borrowing) same) ∙ ap (λ n. n % 2 == 1) (shr-eq build bitmap (2 * i) b p),
          sym (ap (λ g. g.collateral) same)
              ∙ ap (λ n. n % 2 == 1) (shr-eq build bitmap (2 * i + 1) c q),
        )
  ]
]

decode_from-AreBits :
    (build : Build) (bitmap i n : ℕ) (fs : List ReserveFlags)
    → decode_from build bitmap i n ≡ some fs
    → (length fs ≡ n) × AreBits bitmap i fs
unfolding decode_from
decode_from-AreBits build bitmap i zero fs e =
    subst (λ gs. (length gs ≡ 0) × AreBits bitmap i gs) (some_list e) (refl, tt)
decode_from-AreBits build bitmap i (suc n) fs e = elim (Option-cases (flags_at build bitmap i)) [
  | inl p ↦ absurd (none≢list (rw (p, decode_from) at e))
  | inr (f, p) ↦ elim (Option-cases (decode_from build bitmap (suc i) n)) [
    | inl q ↦ absurd (none≢list (rw (p, decode_from, q) at e))
    | inr (rest, q) ↦
        let (counted, later) = decode_from-AreBits build bitmap (suc i) n rest q in
        let (borrowing, collateral) = flags_at-bits build bitmap i f p in
        subst (λ gs. (length gs ≡ suc n) × AreBits bitmap i gs)
          (some_list (rw (p, decode_from, q) at e)) (ap suc counted, (borrowing, collateral, later))
  ]
]

-- Whatever is decoded has a pair of flags for each reserve, which are bits of the bitmap.
pub decode-AreBits :
    (build : Build) (bitmap n : ℕ) (fs : List ReserveFlags)
    → decode_user_configuration build bitmap n ≡ some fs
    → (length fs ≡ n) × AreBits bitmap 0 fs
unfolding decode_user_configuration
decode-AreBits build bitmap n fs e = decode_from-AreBits build bitmap 0 n fs e
