-- ===== src/Api/Privacy.antt =====
-- crates/api/src/lib.rs: what the responses show of the RPC endpoints' URLs, in which providers embed
-- keys.
use alpharouting.Prelude.{
  ◌≡◌, refl, ap, ap₂, ◌∙◌, inl, inr, Option-cases, some, List, [], ◌∷◌, length, suc,
}
use alpharouting.Text.{Text}
use alpharouting.Float64.{Float64}
use alpharouting.Observability.{ExecutionEvent}
use alpharouting.Observability.Buffer.{ReplayBuffer}
use alpharouting.Api.Value.{item}
use alpharouting.Api.State.{UrlParts, EndpointStatus, AppState, Method}
use alpharouting.Api.Handlers.{
  stats, routes_handler, trades, sanitize_url, endpoint_json, items_of, rpc_block, metrics, respond,
}

module _ {U : Type 0} (parts : UrlParts U) where
  -- The endpoints agree in all but the rest of the URL: its user, path, query and fragment.
  pub record IsAlike (a b : EndpointStatus U) : Type 0 where
    pub index : a.index ≡ b.index
    pub healthy : a.healthy ≡ b.healthy
    pub failures : a.failures ≡ b.failures
    pub quota_blocked : a.quota_blocked ≡ b.quota_blocked
    pub scheme : parts.scheme a.url ≡ parts.scheme b.url
    pub host_str : parts.host_str a.url ≡ parts.host_str b.url
    pub port : parts.port a.url ≡ parts.port b.url

  abbrev pub AllAlike : List (EndpointStatus U) → List (EndpointStatus U) → Type 0
  AllAlike [] [] = Unit
  AllAlike (a ∷ xs) (b ∷ ys) = IsAlike a b × AllAlike xs ys
  AllAlike _ _ = ⊥

  sanitize_url-eq :
      (u v : U)
      → parts.scheme u ≡ parts.scheme v
      → parts.host_str u ≡ parts.host_str v
      → parts.port u ≡ parts.port v
      → sanitize_url parts u ≡ sanitize_url parts v
  unfolding sanitize_url
  sanitize_url-eq u v p q r = elim (Option-cases (parts.port v)) [
    | inl e ↦ rw (r ∙ e, sanitize_url, e, p, q)
    | inr (n, e) ↦ rw (r ∙ e, sanitize_url, e, p, q)
  ]

  endpoint_json-eq :
      {F : Type 0} (a b : EndpointStatus U)
      → IsAlike a b
      → endpoint_json {F = F} parts a ≡ endpoint_json parts b
  unfolding endpoint_json
  endpoint_json-eq a b h = rw (
    h.index,
    h.healthy,
    h.failures,
    h.quota_blocked,
    sanitize_url-eq a.url b.url h.scheme h.host_str h.port,
  )

  items_of-eq :
      {F : Type 0} (xs ys : List (EndpointStatus U))
      → AllAlike xs ys
      → items_of (endpoint_json {F = F} parts) xs ≡ items_of (endpoint_json parts) ys
  unfolding items_of
  items_of-eq [] [] h = refl
  items_of-eq [] (b ∷ ys) h = absurd h
  items_of-eq (a ∷ xs) [] h = absurd h
  items_of-eq (a ∷ xs) (b ∷ ys) h = ap₂ item (endpoint_json-eq a b h.0) (items_of-eq xs ys h.1)

  length-AllAlike : (xs ys : List (EndpointStatus U)) → AllAlike xs ys → length xs ≡ length ys
  length-AllAlike [] [] h = refl
  length-AllAlike [] (b ∷ ys) h = absurd h
  length-AllAlike (a ∷ xs) [] h = absurd h
  length-AllAlike (a ∷ xs) (b ∷ ys) h = ap suc (length-AllAlike xs ys h.1)

  rpc_block-eq :
      {F : Type 0} (xs ys : List (EndpointStatus U))
      → AllAlike xs ys
      → rpc_block {F = F} parts xs ≡ rpc_block parts ys
  unfolding rpc_block
  rpc_block-eq xs ys h = rw (items_of-eq xs ys h, length-AllAlike xs ys h)

  -- No response to any request depends on more of an RPC endpoint's URL than its scheme, host and
  -- port: if the endpoints of the pool agree in these and in their status, though not in user, path
  -- or query, where providers embed keys, then every method and path is answered the same.
  pub respond-private :
      {F Time : Type 0} (float64 : Float64 F) (now : Text)
      (meanwhile : ReplayBuffer (ExecutionEvent F Time) → ReplayBuffer (ExecutionEvent F Time))
      (s : AppState F Time U) (xs ys : List (EndpointStatus U)) (method : Method) (path : Text)
      → AllAlike xs ys
      → respond float64 parts now meanwhile (record s { rpc_pool = some xs }) method path
        ≡ respond float64 parts now meanwhile (record s { rpc_pool = some ys }) method path
  unfolding respond stats routes_handler trades metrics
  respond-private float64 now meanwhile s xs ys method path h = rw (rpc_block-eq xs ys h)
