-- ===== src/Api/Tests.antt =====
-- The unit tests of crates/api/src/lib.rs, and the theorems at concrete inputs. The floats are whole
-- numbers, times are numbers, and a URL is its parts.
use alpharouting.Prelude.{
  ℕ, take_last, arith, ◌≡◌, refl, true, false, Option, none, some, List, [], ◌∷◌,
}
use alpharouting.Text.{Text, codes, text_eq, concat}
use alpharouting.Text.Decimal.{decimal}
use alpharouting.Float64.Samples.{whole}
use alpharouting.Observability.{ExecutionEvent, EventOutcome, new_detection}
use alpharouting.Observability.Buffer.{ReplayBuffer, new}
use alpharouting.Observability.Buffer.Eviction.{record_all}
use alpharouting.Observability.Buffer.Totals.{number_of}
use alpharouting.Api.Value.{Json, number, array, end}
use alpharouting.Api.State.{UrlParts, EndpointStatus, ok, err, AppState, Response, get, other}
use alpharouting.Api.Handlers.{sanitize_url, metrics, stats, respond, error_body}
use alpharouting.Api.Privacy.{respond-private}
use alpharouting.Api.Counts.{member, metrics_counts}
use alpharouting.Api.Statuses.{IsServed, respond-IsServed}

record Url : Type 0 where
  scheme : Text
  host_str : Option Text
  port : Option ℕ
  rest : Text

abbrev parts : UrlParts Url
parts = record {
  scheme = λ u. u.scheme;
  host_str = λ u. u.host_str;
  port = λ u. u.port;
  path = λ u. u.rest;
  query = λ u. none;
  as_str = λ u.
      concat (u.scheme ∷ codes "://" ∷ elim u.host_str [ none ↦ [] | some h ↦ h ] ∷ u.rest ∷ []);
}

abbrev node : Option ℕ → Text → Url
node port rest = record {
  scheme = codes "https";
  host_str = some (codes "node.local");
  port = port;
  rest = rest;
}

sanitize_strips_api_key :
    sanitize_url parts (node none (codes "/v2/KEY")) ≡ codes "https://node.local"
unfolding sanitize_url
sanitize_strips_api_key = refl

sanitize_preserves_port :
    sanitize_url parts (node (some 8545) (codes "/path/KEY")) ≡ codes "https://node.local:8545"
unfolding sanitize_url decimal
sanitize_preserves_port = refl

abbrev endpoint : Text → EndpointStatus Url
endpoint rest = record {
  index = 0;
  url = node none rest;
  healthy = true;
  failures = 2;
  quota_blocked = false;
}

abbrev events : List (ExecutionEvent ℕ ℕ)
events = new_detection 10 100 5 ∷ new_detection 11 101 6 ∷ []

abbrev buffer : ReplayBuffer (ExecutionEvent ℕ ℕ)
buffer = record_all (new 3) events

abbrev later : List (ExecutionEvent ℕ ℕ)
later = new_detection 12 102 7 ∷ new_detection 13 103 8 ∷ []

abbrev state : AppState ℕ ℕ Url
state = record {
  aggregate_stats = err (codes "no database");
  recent_trades = λ n. ok (array end);
  route_count = 0;
  route_snapshot = [];
  observ = some buffer;
  rpc_pool = none;
}

abbrev with_pool : Text → AppState ℕ ℕ Url
with_pool rest = record state { rpc_pool = some (endpoint rest ∷ []) }

abbrev answer : AppState ℕ ℕ Url → Text → Option (Response ℕ)
answer s path = respond whole parts (codes "now") (λ b. record_all b later) s get path

respond-private_example :
    answer (with_pool (codes "/v2/KEY")) (codes "/metrics")
    ≡ answer (with_pool (codes "/v2/OTHER")) (codes "/metrics")
respond-private_example =
    respond-private parts whole (codes "now") (λ b. record_all b later) state
      (endpoint (codes "/v2/KEY") ∷ []) (endpoint (codes "/v2/OTHER") ∷ []) get (codes "/metrics")
      (
        record {
          index = refl;
          healthy = refl;
          failures = refl;
          quota_blocked = refl;
          scheme = refl;
          host_str = refl;
          port = refl;
        },
        tt,
      )

abbrev refused : Response ℕ
refused = record { status = 500; body = error_body (codes "no database") }

stats_refused : answer state (codes "/stats") ≡ some refused
unfolding respond stats text_eq
stats_refused = refl

no_route : answer state (codes "/admin") ≡ none
unfolding respond text_eq
no_route = refl

wrong_method :
    respond whole parts (codes "now") (λ b. record_all b later) state other (codes "/stats") ≡ none
unfolding respond
wrong_method = refl

respond-IsServed_example : IsServed state get (codes "/stats") (answer state (codes "/stats"))
respond-IsServed_example =
    respond-IsServed whole parts (codes "now") (λ b. record_all b later) state get (codes "/stats")

-- Two events at the summary, three of the four at the length's reading.
metrics_counts_example :
    let kept = take_last 3 events in
    (block : Json ℕ) × (member
        (codes "observability")
        (metrics whole parts (codes "now") (λ b. record_all b later) state).body
      ≡ some block)
    × (member (codes "total") block ≡ some (number 2))
    × (member (codes "events_recorded") block ≡ some (number 3))
    × (member (codes "buffer_capacity") block ≡ some (number 3))
    × (member (codes "sim_passed") block ≡ some (number (number_of EventOutcome.sim_passed kept)))
    × (member (codes "sim_failed") block ≡ some (number (number_of EventOutcome.sim_failed kept)))
    × (member (codes "success") block ≡ some (number (number_of EventOutcome.success kept)))
    × (member (codes "reverted") block ≡ some (number (number_of EventOutcome.reverted kept)))
    × (member (codes "gas_rejected") block
        ≡ some (number (number_of EventOutcome.gate_rejected kept)))
unfolding new_detection
metrics_counts_example =
    metrics_counts whole parts (codes "now") 3 events later state refl (omega arith) (omega arith)
