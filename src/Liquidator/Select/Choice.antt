-- ===== src/Liquidator/Select/Choice.antt =====
-- crates/liquidator/src/select.rs: which reserves are chosen, and when none are.
use alpharouting.Prelude.{
  ℕ, zero, suc, ◌*◌, ◌/◌, ◌^◌, ◌≤◌, ◌<◌, ◌≡◌, ◌⊎◌, ◌↔◌, refl, ap, ◌∙◌, All-map, sym, subst, inl,
  inr, Bool, true, false, ◌&&◌, Option, none, some, Bool-cases, List, In, In-All, All, arith, ltb,
  ◌==◌,
}
use alpharouting.Liquidator.Uint256.{Uint256}
use alpharouting.Liquidator.Select.{
  ReserveBalance, LiquidationTarget, is_debt, is_seizable, select_liquidation_target,
}
use alpharouting.Liquidator.Select.Maxima.{IsMax, max_by_key-filter}

-- A reserve of the list whose flag is set and whose amount is positive and the greatest of all
-- reserves with that flag.
pub record IsLargest (flag : ReserveBalance → Bool) (amount : ReserveBalance → ℕ)
    (reserves : List ReserveBalance) (r : ReserveBalance) : Type 0 where
  pub member : In r reserves
  pub flagged : flag r ≡ true
  pub positive : 0 < amount r
  pub greatest : All (λ x. flag x ≡ true → amount x ≤ amount r) reserves

-- What makes a target right: it names the asset of the largest debt and that of the largest
-- collateral, and covers half the debt, rounded down and not nothing.
pub record IsRight (reserves : List ReserveBalance) (t : LiquidationTarget) : Type 0 where
  pub debt_reserve : ReserveBalance
  pub collateral_reserve : ReserveBalance
  pub debt_largest : IsLargest (λ r. r.is_borrowed) (λ r. r.debt) reserves debt_reserve
  pub collateral_largest :
      IsLargest (λ r. r.is_collateral) (λ r. r.a_token) reserves collateral_reserve
  pub debt_asset : t.debt_asset ≡ debt_reserve.asset
  pub collateral_asset : t.collateral_asset ≡ collateral_reserve.asset
  pub half : t.debt_to_cover ≡ debt_reserve.debt / 2
  pub positive : 0 < t.debt_to_cover

-- Nothing to repay: every borrowed reserve's debt halves to nothing.
abbrev pub NoDebt : List ReserveBalance → Type 0
NoDebt = All λ r. r.is_borrowed ≡ true → r.debt ≤ 1

abbrev pub NoCollateral : List ReserveBalance → Type 0
NoCollateral = All λ r. r.is_collateral ≡ true → r.a_token ≡ 0

IsMax-IsLargest :
    (flag : ReserveBalance → Bool) (amount : ReserveBalance → ℕ) (reserves : List ReserveBalance)
    (m : ReserveBalance)
    → IsMax (λ r. flag r && ltb 0 (amount r)) amount reserves m
    → IsLargest flag amount reserves m
IsMax-IsLargest flag amount reserves m v = record {
  member = v.member;
  flagged = ground (arith, v.passes);
  positive = ground (arith, v.passes);
  greatest =
      All-map (λ x. (flag x && ltb 0 (amount x)) ≡ true → amount x ≤ amount m)
        (λ x. flag x ≡ true → amount x ≤ amount m) reserves
        (λ x below f. greatest_flagged (flag x) (amount x) (amount m) f below) v.greatest;
}
  where
    greatest_flagged :
        (b : Bool) (a top : ℕ) → b ≡ true → ((b && ltb 0 a) ≡ true → a ≤ top) → a ≤ top
    greatest_flagged b zero top f below = omega arith
    greatest_flagged b (suc a) top f below = below (ground (arith, f))

none_flagged :
    (flag : ReserveBalance → Bool) (amount : ReserveBalance → ℕ) (bound : ℕ)
    (reserves : List ReserveBalance)
    → All (λ r. (flag r && ltb 0 (amount r)) ≡ false) reserves
    → All (λ r. flag r ≡ true → amount r ≤ bound) reserves
none_flagged flag amount bound reserves =
    All-map (λ r. (flag r && ltb 0 (amount r)) ≡ false) (λ r. flag r ≡ true → amount r ≤ bound)
      reserves (λ r e f. ground (arith, e, f))

abbrev cover : Uint256 → ℕ → ℕ
cover u256 debt = u256.div (u256.mul debt 5000) 10000

cover_half : (u256 : Uint256) (debt : ℕ) → debt * 5000 < 2 ^ 256 → cover u256 debt ≡ debt / 2
cover_half u256 debt h =
    ap (λ product. u256.div product 10000) (u256.mul_exact debt 5000 h)
    ∙ u256.div_exact (debt * 5000) 10000 (omega arith)
    ∙ omega arith

select_cases :
    (u256 : Uint256) (reserves : List ReserveBalance)
    → All (λ r. r.debt * 5000 < 2 ^ 256) reserves
    → ((select_liquidation_target u256 reserves ≡ none) × (NoDebt reserves ⊎ NoCollateral reserves))
      ⊎ ((t : LiquidationTarget) × (select_liquidation_target u256 reserves ≡ some t)
          × IsRight reserves t)
unfolding select_liquidation_target
select_cases u256 reserves small = elim (max_by_key-filter is_debt (λ r. r.debt) reserves) [
  | inl (e, nothing) ↦ inl (
    rw (e, select_liquidation_target),
    inl (none_flagged (λ r. r.is_borrowed) (λ r. r.debt) 1 reserves nothing),
  )
  | inr (d, e, dmax) ↦ elim (max_by_key-filter is_seizable (λ r. r.a_token) reserves) [
    | inl (f, nothing) ↦ inl (
      rw (e, f, select_liquidation_target),
      inr (
          All-map (λ r. is_seizable r ≡ false) (λ r. r.is_collateral ≡ true → r.a_token ≡ 0)
            reserves (λ r z c. ground (arith, z, c)) nothing),
    )
    | inr (c, f, cmax) ↦
        let owed = IsMax-IsLargest (λ r. r.is_borrowed) (λ r. r.debt) reserves d dmax in
        let seized = IsMax-IsLargest (λ r. r.is_collateral) (λ r. r.a_token) reserves c cmax in
        let half =
          cover_half u256 d.debt
            (In-All (λ r. r.debt * 5000 < 2 ^ 256) d reserves dmax.member small) in
        elim (Bool-cases (cover u256 d.debt == 0)) [
          | inl z ↦
              let dust : d.debt ≤ 1 = ground (arith, half) in
              inl (
                rw (e, f, select_liquidation_target, z),
                inl (
                    All-map (λ r. r.is_borrowed ≡ true → r.debt ≤ d.debt)
                      (λ r. r.is_borrowed ≡ true → r.debt ≤ 1) reserves
                      (λ r below b. omega (arith, dust, below b)) owed.greatest),
              )
          | inr z ↦ inr (
            record {
              collateral_asset = c.asset;
              debt_asset = d.asset;
              debt_to_cover = cover u256 d.debt;
            },
            rw (e, f, select_liquidation_target, z),
            record {
              debt_reserve = d;
              collateral_reserve = c;
              debt_largest = owed;
              collateral_largest = seized;
              debt_asset = refl;
              collateral_asset = refl;
              half = half;
              positive = ground arith;
            },
          )
        ]
  ]
]

some≢none : (t : LiquidationTarget) → ◌≡◌ {A = Option LiquidationTarget} (some t) none → ⊥
some≢none t e = cc

some_eq : {s t : LiquidationTarget} → ◌≡◌ {A = Option LiquidationTarget} (some s) (some t) → s ≡ t
some_eq e = cc

-- A right target has a reserve that can be repaid and one that can be seized.
refuted :
    (reserves : List ReserveBalance) (t : LiquidationTarget)
    → IsRight reserves t
    → (NoDebt reserves ⊎ NoCollateral reserves)
    → ⊥
refuted reserves t r (inl nothing) =
    let d = r.debt_reserve in
    let dust =
      In-All (λ x. x.is_borrowed ≡ true → x.debt ≤ 1) d reserves r.debt_largest.member nothing in
    absurd (omega (arith, dust r.debt_largest.flagged, r.half, r.positive))
refuted reserves t r (inr nothing) =
    let c = r.collateral_reserve in
    let dust =
      In-All (λ x. x.is_collateral ≡ true → x.a_token ≡ 0) c reserves r.collateral_largest.member
        nothing in
    absurd (omega (arith, dust r.collateral_largest.flagged, r.collateral_largest.positive))

module _ (u256 : Uint256) (reserves : List ReserveBalance)
    (small : All (λ r. r.debt * 5000 < 2 ^ 256) reserves) where
  -- Where five thousand times each debt fits 256 bits, a target that the selection returns names
  -- the asset of a borrowed reserve of the list with the greatest debt of all borrowed ones and the
  -- asset of a collateral reserve with the greatest balance of all collateral ones, and covers
  -- exactly half that debt, rounded down and not nothing.
  pub select_liquidation_target-IsRight :
      (t : LiquidationTarget)
      → select_liquidation_target u256 reserves ≡ some t
      → IsRight reserves t
  select_liquidation_target-IsRight t e = elim (select_cases u256 reserves small) [
    | inl (n, _) ↦ absurd (some≢none t (sym e ∙ n))
    | inr (t', e', r) ↦ subst (IsRight reserves) (some_eq (sym e' ∙ e)) r
  ]

  -- Under the same bound, the selection returns nothing exactly when no borrowed reserve has a debt
  -- of 2 or more, or no collateral reserve has a positive balance.
  pub select_liquidation_target-eq-none :
      (select_liquidation_target u256 reserves ≡ none) ↔ (NoDebt reserves ⊎ NoCollateral reserves)
  select_liquidation_target-eq-none = elim (select_cases u256 reserves small) [
    | inl (n, why) ↦ ((λ _. why), (λ _. n))
    | inr (t, e, r) ↦
        ((λ n. absurd (some≢none t (sym e ∙ n))), λ why. absurd (refuted reserves t r why))
  ]
