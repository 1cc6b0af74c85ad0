-- ===== src/Api/Statuses.antt =====
-- crates/api/src/lib.rs: which requests fail.
use alpharouting.Prelude.{
  sym, ◌∙◌, In, here, there, List, [], ◌∷◌, Bool, true, false, ◌≡◌, ◌≢◌, not, ◌⊎◌, refl, subst, inl,
  inr, Bool-cases, Option, none, some, if◌then◌else◌,
}
use alpharouting.Text.{Text, codes, text_eq, text_eq_iff}
use alpharouting.Float64.{Float64}
use alpharouting.Observability.{ExecutionEvent}
use alpharouting.Observability.Buffer.{ReplayBuffer}
use alpharouting.Api.Value.{Json}
use alpharouting.Api.State.{
  UrlParts, Stats, Fetched, ok, err, AppState, Response, Method, get, head, other, is_get,
}
use alpharouting.Api.Handlers.{health, stats, routes_handler, trades, metrics, respond, error_body}

-- The paths that `run` serves.
abbrev pub served : List Text
served =
    codes "/health" ∷ codes "/stats" ∷ codes "/routes" ∷ codes "/trades" ∷ codes "/metrics" ∷ []

apart : (path a b : Text) → text_eq a b ≡ false → path ≡ a → path ≡ b → ⊥
apart path a b e p q = contradicts ((text_eq_iff a b).1 (sym p ∙ q)) e
  where
    contradicts : {b : Bool} → b ≡ true → b ≡ false → ⊥
    contradicts p q = cc

not_in :
    (path key : Text) (paths : List Text)
    → text_eq path key ≡ false
    → ¬ In path paths
    → ¬ In path (key ∷ paths)
not_in _ key paths e n here = apart key key key e refl refl
not_in path key paths e n (there i) = n i

answered : {A : Type 0} {out : Fetched A} {found : A} {m : Text} → out ≡ ok found → out ≡ err m → ⊥
answered p q = cc

module _ {F Time U : Type 0} where
  -- The storage's error behind the path.
  abbrev pub Fails : AppState F Time U → Text → Text → Type 0
  Fails s path message =
      ((path ≡ codes "/stats") × (s.aggregate_stats ≡ err message))
      ⊎ ((path ≡ codes "/trades") × (s.recent_trades 50 ≡ err message))

  -- A response is a success where the storage gave no error, or the storage's error with its message.
  abbrev pub IsTold : AppState F Time U → Text → Response F → Type 0
  IsTold s path r =
      ((r.status ≡ 200) × ¬ ((message : Text) × Fails s path message))
      ⊎ ((r.status ≡ 500)
          × ((message : Text) × Fails s path message × (r.body ≡ error_body message)))

  -- What becomes of a request for the path, where these are the paths of the table.
  abbrev pub IsAnswered : AppState F Time U → Text → List Text → Option (Response F) → Type 0
  IsAnswered s path paths none = ¬ In path paths
  IsAnswered s path paths (some r) = In path paths × IsTold s path r

  -- The storage is asked at two paths only.
  quiet :
      (s : AppState F Time U) (path key : Text)
      → text_eq key (codes "/stats") ≡ false
      → text_eq key (codes "/trades") ≡ false
      → path ≡ key
      → ¬ ((message : Text) × Fails s path message)
  quiet s path key a b p (m, inl (q, e)) = apart path key (codes "/stats") a p q
  quiet s path key a b p (m, inr (q, e)) = apart path key (codes "/trades") b p q

  stats_fine :
      (s : AppState F Time U) (path : Text) (found : Stats F)
      → path ≡ codes "/stats"
      → s.aggregate_stats ≡ ok found
      → ¬ ((message : Text) × Fails s path message)
  unfolding text_eq
  stats_fine s path found p e (m, inl (q, f)) = answered e f
  stats_fine s path found p e (m, inr (q, f)) =
      apart path (codes "/stats") (codes "/trades") refl p q

  trades_fine :
      (s : AppState F Time U) (path : Text) (rows : Json F)
      → path ≡ codes "/trades"
      → s.recent_trades 50 ≡ ok rows
      → ¬ ((message : Text) × Fails s path message)
  unfolding text_eq
  trades_fine s path rows p e (m, inl (q, f)) =
      apart path (codes "/trades") (codes "/stats") refl p q
  trades_fine s path rows p e (m, inr (q, f)) = answered e f

  stats-IsTold :
      (s : AppState F Time U) (path : Text) → path ≡ codes "/stats" → IsTold s path (stats s)
  unfolding stats
  stats-IsTold s path p =
      (elim s.aggregate_stats as (λ out. s.aggregate_stats ≡ out → IsTold s path (stats s)) [
        | ok found ↦ λ e. inl (rw e, stats_fine s path found p e)
        | err m ↦ λ e. inr (rw e, (m, inl (p, e), rw e))
      ])
        refl

  trades-IsTold :
      (s : AppState F Time U) (path : Text) → path ≡ codes "/trades" → IsTold s path (trades s)
  unfolding trades
  trades-IsTold s path p =
      (elim (s.recent_trades 50) as (λ out. s.recent_trades 50 ≡ out → IsTold s path (trades s)) [
        | ok rows ↦ λ e. inl (rw (e, trades), trades_fine s path rows p e)
        | err m ↦ λ e. inr (rw (e, trades), (m, inr (p, e), rw (e, trades)))
      ])
        refl

  further :
      (s : AppState F Time U) (path key : Text) (paths : List Text) (rest : Option (Response F))
      → text_eq path key ≡ false
      → IsAnswered s path paths rest
      → IsAnswered s path (key ∷ paths) rest
  further s path key paths none e k = not_in path key paths e k
  further s path key paths (some r) e k = (there k.0, k.1)

  -- One row of the table.
  row :
      (s : AppState F Time U) (path key : Text) (paths : List Text) (r : Response F)
      (rest : Option (Response F))
      → (path ≡ key → IsTold s path r)
      → IsAnswered s path paths rest
      → IsAnswered s path (key ∷ paths) (if text_eq path key then some r else rest)
  row s path key paths r rest h k = elim (Bool-cases (text_eq path key)) [
    | inl e ↦
        let same = (text_eq_iff path key).0 e in
        rw e (subst (λ p. In path (p ∷ paths)) same here, h same)
    | inr e ↦ rw e (further s path key paths rest e k)
  ]

  -- What becomes of a request with a method and a path. A handler answers exactly the methods GET
  -- and HEAD at these paths.
  abbrev pub IsServed : AppState F Time U → Method → Text → Option (Response F) → Type 0
  IsServed s method path none = (method ≡ other) ⊎ ¬ In path served
  IsServed s method path (some r) = (method ≢ other) × In path served × IsTold s path r

  -- The path is answered as the method allows.
  with_method :
      (s : AppState F Time U) (method : Method) (path : Text) (out : Option (Response F))
      → IsAnswered s path served out
      → IsServed s method path (if not (is_get method) then none else out)
  with_method s other path out k = inl refl
  with_method s get path none k = inr k
  with_method s head path none k = inr k
  with_method s get path (some r) k = (λ e. cc, k.0, k.1)
  with_method s head path (some r) k = (λ e. cc, k.0, k.1)

  -- A handler answers a request exactly if its method is GET or HEAD and its path one of the five:
  -- with status 500 and the storage's message where the storage gives an error for the statistics,
  -- asked for at /stats, or for the last fifty trades, asked for at /trades, and with status 200
  -- for every other such request. The rest is left to axum.
  pub respond-IsServed :
      (float64 : Float64 F) (parts : UrlParts U) (now : Text)
      (meanwhile : ReplayBuffer (ExecutionEvent F Time) → ReplayBuffer (ExecutionEvent F Time))
      (s : AppState F Time U) (method : Method) (path : Text)
      → IsServed s method path (respond float64 parts now meanwhile s method path)
  unfolding respond health routes_handler metrics text_eq
  respond-IsServed float64 parts now meanwhile s method path = with_method s method path _ (
      row s path (codes "/health") _ _ _ (λ p. inl (refl, quiet s path _ refl refl p))
        (row s path (codes "/stats") _ _ _ (stats-IsTold s path) (
          row s path (codes "/routes") _ _ _ (λ p. inl (refl, quiet s path _ refl refl p))
            (row s path (codes "/trades") _ _ _ (trades-IsTold s path) (
              row s path (codes "/metrics") [] _ _ (λ p. inl (refl, quiet s path _ refl refl p))
                (λ i. elim i [ ]))))))
