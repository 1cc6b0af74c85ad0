-- ===== src/Api/Handlers.antt =====
-- crates/api/src/lib.rs: the handlers and the table of routes.
use alpharouting.Prelude.{not, Option, none, some, List, [], ◌∷◌, length, if◌then◌else◌}
use alpharouting.Text.{Text, codes, concat, text_eq}
use alpharouting.Text.Decimal.{decimal}
use alpharouting.Float64.{Float64}
use alpharouting.Observability.{ExecutionEvent}
use alpharouting.Observability.Buffer.{ReplayBuffer, summary, len}
use alpharouting.Observability.Summary.{success_rate}
use alpharouting.Api.Value.{
  Json, string, number, float, boolean, array, object, Items, end, item, done, field,
}
use alpharouting.Api.State.{
  UrlParts, EndpointStatus, Route, ok, err, AppState, Response, Method, is_get,
}

abbrev pub error_body : {F : Type 0} → Text → Json F
error_body message = object (field (codes "error") (string message) done)

abbrev pub unavailable : {F : Type 0} → Json F
unavailable = object (field (codes "status") (string (codes "unavailable")) done)

unfoldable pub sanitize_url : {U : Type 0} → UrlParts U → U → Text
sanitize_url parts url =
    let scheme = parts.scheme url in
    let host : Text = elim (parts.host_str url) [ none ↦ codes "?" | some h ↦ h ] in
    elim (parts.port url) [
      | some p ↦ concat (scheme ∷ codes "://" ∷ host ∷ codes ":" ∷ decimal p ∷ [])
      | none ↦ concat (scheme ∷ codes "://" ∷ host ∷ [])
    ]

module _ {F : Type 0} where
  -- `now` is the clock's reading.
  unfoldable pub health : Text → Response F
  health now = record {
    status = 200;
    body =
        object
          (field (codes "status") (string (codes "alive")) (field (codes "ts") (string now) done));
  }

  pub route_json : Route F → Json F
  route_json r = object (
      field (codes "id") r.id (
        field (codes "num_hops") r.num_hops (
          field (codes "token_a") (string r.token_a) (
            field (codes "token_b") (string r.token_b) (
              field (codes "token_c") (string r.token_c) (
                field (codes "dex1") r.dex1 (
                  field (codes "dex2") r.dex2 (
                    field (codes "dex3") r.dex3 (
                      field (codes "fee1") r.fee1
                        (field (codes "fee2") r.fee2 (field (codes "fee3") r.fee3 done)))))))))))

  unfoldable pub items_of : {A : Type 0} → (A → Json F) → List A → Items F
  items_of f [] = end
  items_of f (x ∷ xs) = item (f x) (items_of f xs)

module _ {F Time : Type 0} where
  -- The buffer is locked for the summary, and again for the length: other threads may record in
  -- between.
  unfoldable pub observ_block :
      Float64 F
      → ReplayBuffer (ExecutionEvent F Time)
      → ReplayBuffer (ExecutionEvent F Time)
      → Json F
  observ_block float64 at_summary at_len =
      let summary = summary float64 at_summary in
      object (
        field (codes "events_recorded") (number (len at_len)) (
          field (codes "buffer_capacity") (number at_len.capacity) (
            field (codes "total") (number summary.total) (
              field (codes "sim_passed") (number summary.sim_passed) (
                field (codes "sim_failed") (number summary.sim_failed) (
                  field (codes "success") (number summary.success) (
                    field (codes "reverted") (number summary.reverted) (
                      field (codes "gas_rejected") (number summary.gas_rejected) (
                        field (codes "success_rate") (float (success_rate float64 summary)) (
                          field (codes "mean_latency_ms") (float summary.mean_latency_ms) (
                            field (codes "realized_profit_usdc")
                              (float summary.total_realized_profit_usdc) done)))))))))))

module _ {F U : Type 0} where
  unfoldable pub endpoint_json : UrlParts U → EndpointStatus U → Json F
  unfolding sanitize_url
  endpoint_json parts s = object (
      field (codes "index") (number s.index) (
        field (codes "host") (string (sanitize_url parts s.url)) (
          field (codes "healthy") (boolean s.healthy) (
            field (codes "failures") (number s.failures)
              (field (codes "quota_blocked") (boolean s.quota_blocked) done)))))

  unfoldable pub rpc_block : UrlParts U → List (EndpointStatus U) → Json F
  unfolding endpoint_json items_of
  rpc_block parts endpoints = object (
      field (codes "endpoint_count") (number (length endpoints))
        (field (codes "endpoints") (array (items_of (endpoint_json parts) endpoints)) done))

module _ {F Time U : Type 0} where
  unfoldable pub stats : AppState F Time U → Response F
  stats s = elim s.aggregate_stats [
    | ok found ↦ record {
      status = 200;
      body = object (
          field (codes "by_kind") found.by_kind (
            field (codes "total_profit_all_time") found.total_profit_all_time (
              field (codes "total_profit_last_24h") found.total_profit_last_24h
                (field (codes "dynamic_routes_active") (number s.route_count) done))));
    }
    | err e ↦ record { status = 500; body = error_body e }
  ]

  unfoldable pub routes_handler : AppState F Time U → Response F
  unfolding route_json items_of
  routes_handler s = record {
    status = 200;
    body = object (
        field (codes "count") (number (length s.route_snapshot))
          (field (codes "routes") (array (items_of route_json s.route_snapshot)) done));
  }

  unfoldable pub trades : AppState F Time U → Response F
  trades s = elim (s.recent_trades 50) [
    | ok rows ↦ record { status = 200; body = object (field (codes "trades") rows done) }
    | err e ↦ record { status = 500; body = error_body e }
  ]

  -- `meanwhile` is what other threads do with the buffer between the two locks.
  unfoldable pub metrics :
      Float64 F
      → UrlParts U
      → Text
      → (ReplayBuffer (ExecutionEvent F Time) → ReplayBuffer (ExecutionEvent F Time))
      → AppState F Time U
      → Response F
  unfolding observ_block rpc_block
  metrics float64 parts now meanwhile s =
      let observability : Json F = elim s.observ [
        | some buf ↦ observ_block float64 buf (meanwhile buf)
        | none ↦ unavailable
      ] in
      let rpc : Json F = elim s.rpc_pool [
        | some endpoints ↦ rpc_block parts endpoints
        | none ↦ unavailable
      ] in
      record {
        status = 200;
        body = object (
            field (codes "ts") (string now)
              (field (codes "observability") observability (field (codes "rpc") rpc done)));
      }

  -- The routes of `run`, each behind `get`; `none` is left to axum, which answers 405 to another method
  -- and 404 to another path.
  unfoldable pub respond :
      Float64 F
      → UrlParts U
      → Text
      → (ReplayBuffer (ExecutionEvent F Time) → ReplayBuffer (ExecutionEvent F Time))
      → AppState F Time U
      → Method
      → Text
      → Option (Response F)
  unfolding health stats routes_handler trades metrics
  respond float64 parts now meanwhile s method path =
      if not (is_get method)
      then none
      else (if text_eq path (codes "/health")
          then some (health now)
          else (if text_eq path (codes "/stats")
              then some (stats s)
              else (if text_eq path (codes "/routes")
                  then some (routes_handler s)
                  else (if text_eq path (codes "/trades")
                      then some (trades s)
                      else (if text_eq path (codes "/metrics")
                          then some (metrics float64 parts now meanwhile s)
                          else none)))))
