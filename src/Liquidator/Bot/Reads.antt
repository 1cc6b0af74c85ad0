-- ===== src/Liquidator/Bot/Reads.antt =====
-- crates/liquidator/src/main.rs: the balances that the check reads are those that the contracts
-- report.
use alpharouting.Prelude.{
  ℕ, ◌+◌, ◌-◌, ◌*◌, ◌^◌, ◌<◌, ◌≡◌, subst, inl, inr, true, false, not, ◌&&◌, ◌||◌, Option, none,
  some, Option-cases, Bool-cases, List, [], ◌∷◌, All, arith, length, min,
}
use alpharouting.Liquidator.Uint256.{Uint256}
use alpharouting.Liquidator.Aave.{ReserveFlags, Build, decode_user_configuration}
use alpharouting.Liquidator.Aave.Bits.{AreBits, decode-AreBits}
use alpharouting.Liquidator.Select.{ReserveBalance}
use alpharouting.Liquidator.Bot.{UserReserveData, Contracts, to_u128, read_balances, read_position}

module _ {S : Type 0} (contracts : Contracts S) where
  -- The debts that the contracts report fit 256 bits five thousand times.
  abbrev pub IsBounded : Type 0
  IsBounded =
      (reserve borrower : ℕ) (s : S) (d : UserReserveData)
      → (contracts.get_user_reserve_data reserve borrower s).0 ≡ some d
      → (d.current_stable_debt + d.current_variable_debt) * 5000 < 2 ^ 256

  -- The balances of the reserves that the borrower borrows or uses as collateral, all of them and in
  -- their order, as the contracts report them one after the other from the state on.
  pub data Reported (borrower : ℕ)
      : List ℕ → List ReserveFlags → S → List ReserveBalance → Type 0 where
    no_reserves : {flags : List ReserveFlags} {s : S} → Reported borrower [] flags s []
    no_flags : {reserves : List ℕ} {s : S} → Reported borrower reserves [] s []
    unheld :
        {reserve : ℕ} {reserves : List ℕ} {flag : ReserveFlags} {flags : List ReserveFlags} {s : S}
        {bs : List ReserveBalance}
        → flag.borrowing ≡ false
        → flag.collateral ≡ false
        → Reported borrower reserves flags s bs
        → Reported borrower (reserve ∷ reserves) (flag ∷ flags) s bs
    held :
        {reserve : ℕ} {reserves : List ℕ} {flag : ReserveFlags} {flags : List ReserveFlags} {s : S}
        {bs : List ReserveBalance} (d : UserReserveData)
        → (flag.borrowing || flag.collateral) ≡ true
        → (contracts.get_user_reserve_data reserve borrower s).0 ≡ some d
        → Reported borrower reserves flags (contracts.get_user_reserve_data reserve borrower s).1 bs
        → Reported borrower (reserve ∷ reserves) (flag ∷ flags) s (
            record {
              asset = reserve;
              debt = d.current_stable_debt + d.current_variable_debt;
              a_token = d.current_a_token_balance;
              is_collateral = flag.collateral;
              is_borrowed = flag.borrowing;
            }
            ∷ bs)

  -- The same with the flags, which are the bits of the bitmap that the contracts report first, where a
  -- bitmap that is too large for a `u128` counts as the largest one.
  pub record Position (reserves_list : List ℕ) (borrower : ℕ) (s : S) (bs : List ReserveBalance)
      : Type 0 where
    pub bitmap : ℕ
    pub configuration : (contracts.get_user_configuration borrower s).0 ≡ some bitmap
    pub flags : List ReserveFlags
    pub as_many : length flags ≡ length reserves_list
    pub bits : AreBits (min bitmap (2 ^ 128 - 1)) 0 flags
    pub balances :
        Reported borrower reserves_list flags (contracts.get_user_configuration borrower s).1 bs

  pub Reported-small :
      {borrower : ℕ} {reserves : List ℕ} {flags : List ReserveFlags} {s : S}
      {bs : List ReserveBalance}
      → IsBounded
      → Reported borrower reserves flags s bs
      → All (λ b. b.debt * 5000 < 2 ^ 256) bs
  Reported-small bounded no_reserves = tt
  Reported-small bounded no_flags = tt
  Reported-small bounded (unheld e f r) = Reported-small bounded r
  Reported-small {borrower} bounded (held {reserve} {s = s} d e f r) =
      (bounded reserve borrower s d f, Reported-small bounded r)

-- Whatever is returned has the property.
abbrev pub HasSome : {A : Type 0} → (A → Type 0) → Option A → Type 0
HasSome P none = Unit
HasSome P (some x) = P x

module _ {S : Type 0} (u256 : Uint256) (contracts : Contracts S)
    (bounded : IsBounded contracts) where
  read_balances-Reported :
      (borrower : ℕ) (reserves : List ℕ) (flags : List ReserveFlags) (s : S)
      → HasSome
          (Reported contracts borrower reserves flags s)
          (read_balances u256 contracts borrower reserves flags s).0
  unfolding read_balances
  read_balances-Reported borrower [] flags s = Reported.no_reserves
  read_balances-Reported borrower (reserve ∷ reserves) [] s = Reported.no_flags
  read_balances-Reported borrower (reserve ∷ reserves) (flag ∷ flags) s =
      elim (Bool-cases (not flag.borrowing && not flag.collateral)) [
        | inl skip ↦
            elim (Option-cases (read_balances u256 contracts borrower reserves flags s).0) [
              | inl q ↦ rw (skip, read_balances, q) tt
              | inr (bs, q) ↦
                  rw (skip, read_balances, q)
                    (Reported.unheld (ground (arith, skip)) (ground (arith, skip)) (
                      subst (HasSome (Reported contracts borrower reserves flags s)) q
                        (read_balances-Reported borrower reserves flags s)))
            ]
        | inr kept ↦
            let (answer, s') = contracts.get_user_reserve_data reserve borrower s in
            elim (Option-cases answer) [
              | inl p ↦ rw (kept, read_balances, p) tt
              | inr (d, p) ↦
                  elim (Option-cases (read_balances u256 contracts borrower reserves flags s').0) [
                    | inl q ↦ rw (kept, read_balances, p, q) tt
                    | inr (bs, q) ↦
                        let exact =
                          u256.add_exact d.current_stable_debt d.current_variable_debt
                            (omega (arith, bounded reserve borrower s d p)) in
                        rw (kept, read_balances, p, q, exact)
                          (Reported.held d (ground (arith, kept)) p (
                            subst (HasSome (Reported contracts borrower reserves flags s')) q
                              (read_balances-Reported borrower reserves flags s')))
                  ]
            ]
      ]

  -- The balances that were read, if they were.
  abbrev pub PositionFits : List ℕ → ℕ → S → Option (Option (List ReserveBalance)) → Type 0
  PositionFits reserves_list borrower s none = Unit
  PositionFits reserves_list borrower s (some position) =
      HasSome (Position contracts reserves_list borrower s) position

  to_u128-min : (n : ℕ) → to_u128 n ≡ min n (2 ^ 128 - 1)
  unfolding to_u128
  to_u128-min n = ground arith

  pub read_position-PositionFits :
      (build : Build) (reserves_list : List ℕ) (borrower : ℕ) (s : S)
      → PositionFits reserves_list borrower s
          (read_position u256 contracts build reserves_list borrower s).0
  unfolding read_position
  read_position-PositionFits build reserves_list borrower s =
      let (answer, s') = contracts.get_user_configuration borrower s in
      elim (Option-cases answer) [
        | inl p ↦ rw (p, read_position) tt
        | inr (n, p) ↦
            elim (Option-cases
              (decode_user_configuration build (to_u128 n) (length reserves_list))) [
                | inl q ↦ rw (p, read_position, q) tt
                | inr (flags, q) ↦
                    let (counted, bits) =
                      decode-AreBits build (to_u128 n) (length reserves_list) flags q in
                    elim (Option-cases
                      (read_balances u256 contracts borrower reserves_list flags s').0) [
                        | inl r ↦ rw (p, read_position, q, r) tt
                        | inr (bs, r) ↦
                            rw (p, read_position, q, r)
                              (record {
                                bitmap = n;
                                configuration = p;
                                flags = flags;
                                as_many = counted;
                                bits = subst (λ m. AreBits m 0 flags) (to_u128-min n) bits;
                                balances =
                                    subst
                                      (HasSome (Reported contracts borrower reserves_list flags s'))
                                      r (read_balances-Reported borrower reserves_list flags s');
                              })
                      ]
              ]
      ]
