-- ===== src/Observability/Buffer/Queries.antt =====
-- crates/observability/src/buffer.rs: the filtering queries against plain filters of what the buffer
-- holds.
use alpharouting.Prelude.{
  ℕ, zero, suc, ◌≡◌, sym, ap, ◌∙◌, Bool, false, List, [], reverse, take, filter, filter-reverse,
  take_last, take_last-eq, take_last-zero, max, arith, ◌==◌, if◌then◌else◌,
}
use alpharouting.Text.{Text, to_ascii_lowercase, lowercase-lowercase}
use alpharouting.Observability.{ExecutionEvent, EventOutcome, outcome_eq}
use alpharouting.Observability.Buffer.{new, newest_matching, by_outcome, by_borrower, borrower_is}
use alpharouting.Observability.Buffer.Eviction.{record_all, record_all-events}

newest_matching-take_last :
    {E : Type 0} (test : E → Bool) (limit : ℕ) (events : List E)
    → newest_matching test limit events ≡ take_last limit (filter test events)
unfolding newest_matching
newest_matching-take_last test limit events =
    ap (λ es. reverse (take limit es)) (filter-reverse test events)
    ∙ take_last-eq limit (filter test events)

-- The early return at a limit of 0 gives what the query would.
limit_zero :
    {E : Type 0} (test : E → Bool) (limit : ℕ) (events : List E)
    → (if limit == 0 then [] else newest_matching test limit events)
      ≡ take_last limit (filter test events)
limit_zero test zero events = sym (take_last-zero (filter test events))
limit_zero test (suc n) events =
    let positive : (suc n == 0) ≡ false = ground arith in
    rw positive (newest_matching-take_last test (suc n) events)

module _ {F Time : Type 0} where
  -- After any run of `record` on a new buffer, `by_outcome` returns the newest `limit` of the
  -- events of that outcome that the buffer still holds, oldest of them first.
  pub by_outcome-record_all :
      (capacity limit : ℕ) (outcome : EventOutcome) (es : List (ExecutionEvent F Time))
      → by_outcome (record_all (new capacity) es) outcome limit
        ≡ take_last limit
            (filter (λ e. outcome_eq e.outcome outcome) (take_last (max capacity 1) es))
  unfolding by_outcome
  by_outcome-record_all capacity limit outcome es =
      let test : ExecutionEvent F Time → Bool = λ e. outcome_eq e.outcome outcome in
      limit_zero test limit (record_all (new capacity) es).events
      ∙ ap (λ held. take_last limit (filter test held)) (record_all-events capacity es)

  -- Likewise `by_borrower` returns the newest `limit` of the events whose borrower is the given
  -- one but for the case of ASCII letters, and it returns the same for the lowercased query.
  by_borrower-record_all :
      (capacity limit : ℕ) (borrower : Text) (es : List (ExecutionEvent F Time))
      → let b = record_all (new capacity) es in
        (by_borrower b borrower limit
          ≡ take_last limit (
              filter
                (λ e. borrower_is (to_ascii_lowercase borrower) e.borrower)
                (take_last (max capacity 1) es)))
        × (by_borrower b (to_ascii_lowercase borrower) limit ≡ by_borrower b borrower limit)
  unfolding by_borrower
  by_borrower-record_all capacity limit borrower es =
      let test : ExecutionEvent F Time → Bool =
        λ e. borrower_is (to_ascii_lowercase borrower) e.borrower in
      (
        limit_zero test limit (record_all (new capacity) es).events
            ∙ ap (λ held. take_last limit (filter test held)) (record_all-events capacity es),
        rw (lowercase-lowercase borrower),
      )
