-- ===== src/Contract/Evm.antt =====
-- What src/AlphaRouting.sol runs on: OpenZeppelin's modifiers, the contracts that it calls, and the
-- built-in functions. A call may come back into the contract, so it takes the whole state.
use alpharouting.Prelude.{ℕ, Bool, true, false, ◌≡◌, Option, none, some, List}
use alpharouting.Text.{Text}
use alpharouting.Contract.{Outcome, Action, LiqParams}

-- `Ownable` and `ReentrancyGuard`: `before` and `after` are the two halves of `nonReentrant`.
pub record Modifiers (G : Type 0) : Type 0 where
  -- The constructors, which revert with `OwnableInvalidOwner` for some owners.
  pub init : ℕ → Option G
  pub owner : G → ℕ
  pub is_owner : ℕ → G → Bool
  pub entered : G → Bool
  pub before : G → Option G
  pub after : G → G

-- abi.encode and abi.decode at the types that the code uses, and keccak256.
pub record Codec : Type 0 where
  pub encode_liq : LiqParams → Text
  pub decode_liq : Text → Option LiqParams
  pub decode_swap : Text → Option (Text × ℕ × ℕ)
  pub keccak : Text → ℕ

-- abi.decode gives back what abi.encode was given.
abbrev pub IsDecoding : Codec → Type 0
IsDecoding codec = (p : LiqParams) → codec.decode_liq (codec.encode_liq p) ≡ some p

-- The arguments of `exactInputSingle` and of `swapExactTokensForTokens` with its one route.
pub record ExactInput : Type 0 where
  pub token_in : ℕ
  pub token_out : ℕ
  pub fee : ℕ
  pub recipient : ℕ
  pub amount_in : ℕ
  pub amount_out_minimum : ℕ
  pub sqrt_price_limit : ℕ

pub record ExactTokens : Type 0 where
  pub amount_in : ℕ
  pub amount_out_min : ℕ
  pub from : ℕ
  pub to : ℕ
  pub stable : Bool
  pub factory : ℕ
  pub recipient : ℕ
  pub deadline : ℕ

-- `executeOperation`, as the pool calls it: sender, asset, amount, premium, initiator and params.
abbrev pub Callback : Type 0 → Type 0 → Type 0
Callback G W = ℕ → ℕ → ℕ → ℕ → ℕ → Text → Action G W Bool

-- The contract's own address and its calls of others; the first argument is the callee.
pub record Evm (G W : Type 0) : Type 0 where
  pub modifiers : Modifiers G
  pub codec : Codec
  pub this : ℕ
  pub timestamp : W → ℕ
  pub get_pool : ℕ → W → Outcome ℕ
  pub balance_of : ℕ → ℕ → W → Outcome ℕ
  pub eth_balance : ℕ → W → ℕ
  -- The last of the results of `getUserAccountData`.
  pub get_health_factor : ℕ → ℕ → W → Outcome ℕ
  pub default_factory : ℕ → W → Outcome ℕ
  pub force_approve : ℕ → ℕ → ℕ → Action G W (Unit {0})
  pub safe_transfer : ℕ → ℕ → ℕ → Action G W (Unit {0})
  pub send_eth : ℕ → ℕ → Action G W Bool
  pub liquidation_call : ℕ → ℕ → ℕ → ℕ → ℕ → Bool → Action G W (Unit {0})
  pub exact_input_single : ℕ → ExactInput → Action G W ℕ
  pub swap_exact_tokens : ℕ → ExactTokens → Action G W (List ℕ)
  -- The receiver's callback, then the arguments from the receiver to the referral code.
  pub flash_loan_simple : ℕ → Callback G W → ℕ → ℕ → ℕ → Text → ℕ → Action G W (Unit {0})

-- What OpenZeppelin documents of the modifiers.
pub record IsGuarding {G : Type 0} (m : Modifiers G) : Type 0 where
  pub owns : (sender : ℕ) (g : G) → m.is_owner sender g ≡ true → sender ≡ m.owner g
  pub admits_owner : (g : G) → m.is_owner (m.owner g) g ≡ true
  pub blocks : (g : G) → m.entered g ≡ true → m.before g ≡ none
  pub admits : (g : G) → m.entered g ≡ false → (g' : G) × (m.before g ≡ some g')
  pub enters : (g g' : G) → m.before g ≡ some g' → (m.entered g' ≡ true) × (m.owner g' ≡ m.owner g)
  pub leaves : (g : G) → (m.entered (m.after g) ≡ false) × (m.owner (m.after g) ≡ m.owner g)
