-- ===== src/Api/State.antt =====
-- crates/api/src/lib.rs: what a request finds, and a response.
use alpharouting.Prelude.{ℕ, Bool, true, false, Option, List}
use alpharouting.Text.{Text}
use alpharouting.Observability.{ExecutionEvent}
use alpharouting.Observability.Buffer.{ReplayBuffer}
use alpharouting.Api.Value.{Json}

-- Accessors of `url::Url`; `as_str` is the whole URL, as Display writes it.
pub record UrlParts (U : Type 0) : Type 0 where
  pub scheme : U → Text
  pub host_str : U → Option Text
  pub port : U → Option ℕ
  pub path : U → Text
  pub query : U → Option Text
  pub as_str : U → Text

-- An entry of `HttpPool::status`.
pub record EndpointStatus (U : Type 0) : Type 0 where
  pub index : ℕ
  pub url : U
  pub healthy : Bool
  pub failures : ℕ
  pub quota_blocked : Bool

pub record Stats (F : Type 0) : Type 0 where
  pub by_kind : Json F
  pub total_profit_all_time : Json F
  pub total_profit_last_24h : Json F

-- A route, its tokens as `{:?}` writes them.
pub record Route (F : Type 0) : Type 0 where
  pub id : Json F
  pub num_hops : Json F
  pub token_a : Text
  pub token_b : Text
  pub token_c : Text
  pub dex1 : Json F
  pub dex2 : Json F
  pub dex3 : Json F
  pub fee1 : Json F
  pub fee2 : Json F
  pub fee3 : Json F

-- The answer of the storage, or its error as text.
pub data Fetched (A : Type 0) : Type 0 where
  ok : A → Fetched A
  err : Text → Fetched A

-- What a request finds: the answers of the storage and of the route registry, the buffer, and the
-- statuses of the pool's endpoints.
pub record AppState (F Time U : Type 0) : Type 0 where
  pub aggregate_stats : Fetched (Stats F)
  pub recent_trades : ℕ → Fetched (Json F)
  pub route_count : ℕ
  pub route_snapshot : List (Route F)
  pub observ : Option (ReplayBuffer (ExecutionEvent F Time))
  pub rpc_pool : Option (List (EndpointStatus U))

pub record Response (F : Type 0) : Type 0 where
  pub status : ℕ
  pub body : Json F

-- A request's method. `get` of axum takes GET, and HEAD, of which axum drops the body.
pub data Method : Type 0 where
  get head other : Method

abbrev pub is_get : Method → Bool
is_get get = true
is_get head = true
is_get other = false
