-- ===== src/Observability/Summary/Message.antt =====
-- crates/observability/src/summary.rs: reading the message for Telegram.
use alpharouting.Prelude.{
  ℕ, ◌+◌, ◌-◌, ◌*◌, ◌≡◌, refl, ap, true, false, Bool-cases, inl, inr, ◌&&◌, Option, none, some,
  List, [], ◌∷◌, ◌++◌, arith, ltb, ◌==◌, if◌then◌else◌,
}
use alpharouting.Text.{Text, codes}
use alpharouting.Text.Decimal.{is_digit, decimal, parse_digits}
use alpharouting.Text.Decimal.Laws.{parse_digits-digits}
use alpharouting.Float64.{Float64}
use alpharouting.Observability.Summary.{ReplaySummary, render_for_telegram}

-- A reader of its own: the text behind a label, a number with what follows it, and the numbers behind
-- labels that follow each other.
skip : Text → Text → Option Text
skip [] text = some text
skip (c ∷ label) [] = none
skip (c ∷ label) (d ∷ text) = let rest = skip label text in if c == d then rest else none

read_number : ℕ → Text → ℕ × Text
read_number n [] = (n, [])
read_number n (c ∷ text) =
    let further = read_number (n * 10 + (c - b'0')) text in
    if is_digit c then further else (n, c ∷ text)

pub counts_after : List Text → Text → Option (List ℕ)
unfolding skip read_number
counts_after [] text = some []
counts_after (label ∷ labels) text = elim (skip label text) [
  | none ↦ none
  | some rest ↦
      let (n, after) = read_number 0 rest in
      elim (counts_after labels after) [ none ↦ none | some ns ↦ some (n ∷ ns) ]
]

-- What stands before the six counts, in the words of the message.
abbrev pub count_labels : List Text
count_labels =
    codes "<b>Execution Observability</b>\nEvents: <code>"
    ∷ codes "</code>\nSim passed: <code>"
    ∷ codes "</code>  Sim failed: <code>"
    ∷ codes "</code>\nGas-gate rejected: <code>"
    ∷ codes "</code>\nBroadcast - Success: <code>"
    ∷ codes "</code>  Reverted: <code>"
    ∷ []

skip-append : (label text : Text) → skip label (label ++ text) ≡ some text
unfolding skip
skip-append [] text = refl
skip-append (c ∷ label) text =
    let same : (c == c) ≡ true = ground arith in rw (same, skip-append label text)

read_number-digits :
    (bound acc n c : ℕ) (s text : Text)
    → is_digit c ≡ false
    → parse_digits bound acc s ≡ some n
    → read_number acc (s ++ c ∷ text) ≡ (n, c ∷ text)
unfolding read_number parse_digits
read_number-digits bound acc n c [] text h e = rw (h, some_nat e)
  where
    some_nat : {i j : ℕ} → ◌≡◌ {A = Option ℕ} (some i) (some j) → i ≡ j
    some_nat e = cc
read_number-digits bound acc n c (d ∷ s) text h e =
    elim (Bool-cases (is_digit d && ltb (acc * 10 + (d - b'0')) bound)) [
      | inl p ↦
          let digit : is_digit d ≡ true = ground (arith, p) in
          rw digit (
            read_number-digits bound (acc * 10 + (d - b'0')) n c s text h
              (rw (p, parse_digits) at e))
      | inr p ↦ absurd (none≢nat (rw (p, parse_digits) at e))
    ]
  where
    none≢nat : {i : ℕ} → ◌≡◌ {A = Option ℕ} none (some i) → ⊥
    none≢nat e = cc

read_number-decimal :
    (n c : ℕ) (text : Text)
    → is_digit c ≡ false
    → read_number 0 (decimal n ++ c ∷ text) ≡ (n, c ∷ text)
unfolding decimal
read_number-decimal n c text h =
    read_number-digits (n + 1) 0 n c (decimal n) text h
      (parse_digits-digits (n + 1) (n + 1) n (omega arith) (omega arith))

-- One label and its number.
counts_after-label :
    (label : Text) (labels : List Text) (n : ℕ) (text : Text) (ns : List ℕ)
    → counts_after labels (b'<' ∷ text) ≡ some ns
    → counts_after (label ∷ labels) (label ++ (decimal n ++ b'<' ∷ text)) ≡ some (n ∷ ns)
unfolding counts_after
counts_after-label label labels n text ns e =
    let read = read_number-decimal n b'<' text refl in
    let number : (read_number 0 (decimal n ++ b'<' ∷ text)).0 ≡ n = ap (λ p. p.0) read in
    let after : (read_number 0 (decimal n ++ b'<' ∷ text)).1 ≡ b'<' ∷ text = ap (λ p. p.1) read in
    rw (counts_after, skip-append label (decimal n ++ b'<' ∷ text), after, e, number)

counts_after-nil : (text : Text) → counts_after [] text ≡ some []
unfolding counts_after
counts_after-nil text = refl

-- The message has each of the six counts behind its own label, however the floats are written: what
-- is read behind the labels is the number of events, of simulations passed and failed, of
-- rejections at the gas gate, and of broadcasts that succeeded and that reverted.
pub counts_after-render_for_telegram :
    {F : Type 0} (float : Float64 F) (fixed : ℕ → F → Text) (s : ReplaySummary F)
    → counts_after count_labels (render_for_telegram float fixed s)
      ≡ some (s.total ∷ s.sim_passed ∷ s.sim_failed ∷ s.gas_rejected ∷ s.success ∷ s.reverted ∷ [])
unfolding render_for_telegram
counts_after-render_for_telegram float fixed s =
    counts_after-label (codes "<b>Execution Observability</b>\nEvents: <code>") _ s.total _ _ (
      counts_after-label (codes "</code>\nSim passed: <code>") _ s.sim_passed _ _ (
        counts_after-label (codes "</code>  Sim failed: <code>") _ s.sim_failed _ _ (
          counts_after-label (codes "</code>\nGas-gate rejected: <code>") _ s.gas_rejected _ _ (
            counts_after-label (codes "</code>\nBroadcast - Success: <code>") _ s.success _ _ (
              counts_after-label (codes "</code>  Reverted: <code>") [] s.reverted _ []
                (counts_after-nil _))))))
