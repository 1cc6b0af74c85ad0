-- ===== src/Observability/Buffer/Export.antt =====
-- crates/observability/src/buffer.rs: reading back what `export_jsonl` writes.
use alpharouting.Prelude.{
  ◌≡◌, ◌≢◌, refl, ap, ◌∙◌, inl, inr, false, Option-cases, Option, none, some, List, [], ◌∷◌, ◌++◌,
  append_assoc, append-nil, All, arith, ◌==◌, if◌then◌else◌,
}
use alpharouting.Text.{Text}
use alpharouting.Observability.Buffer.{ReplayBuffer, export_events, export_jsonl}

-- `str::lines` on texts without carriage returns: what stands before each newline, and what is left
-- at the end, if anything is. `line` is what was read since the last newline.
pub lines_from : Text → Text → List Text
lines_from [] [] = []
lines_from (c ∷ line) [] = (c ∷ line) ∷ []
lines_from line (c ∷ rest) =
    let ended = line ∷ lines_from [] rest in
    let longer = lines_from (line ++ c ∷ []) rest in if c == b'\n' then ended else longer

pub lines : Text → List Text
unfolding lines_from
lines text = lines_from [] text

abbrev pub OneLine : Text → Type 0
OneLine = All λ c. c ≢ b'\n'

lines_from-line :
    (read line rest : Text)
    → OneLine line
    → lines_from read (line ++ b'\n' ∷ rest) ≡ (read ++ line) ∷ lines_from [] rest
unfolding lines_from
lines_from-line read [] rest h = rw (append-nil read)
lines_from-line read (c ∷ line) rest h =
    let inside : (c == b'\n') ≡ false = ground (arith, h.0) in
    rw inside (
      lines_from-line (read ++ c ∷ []) line rest h.1
      ∙ ap (λ l. l ∷ lines_from [] rest) (append_assoc read (c ∷ []) line))

module _ {E : Type 0} (serialize : E → Option Text) where
  -- The texts of the events that can be serialised, in order.
  pub serialized : List E → List Text
  serialized [] = []
  serialized (e ∷ es) = elim (serialize e) [
    | some line ↦ line ∷ serialized es
    | none ↦ serialized es
  ]

  lines-export_events :
      (es : List E)
      → ((e : E) (line : Text) → serialize e ≡ some line → OneLine line)
      → lines_from [] (export_events serialize es) ≡ serialized es
  unfolding export_events serialized
  lines-export_events [] one = unfold lines_from in refl
  lines-export_events (e ∷ es) one = elim (Option-cases (serialize e)) [
    | inl p ↦ rw (p, export_events) rw (p, serialized) (lines-export_events es one)
    | inr (line, p) ↦
        rw (p, export_events) rw (p, serialized)
          (lines_from-line [] line (export_events serialize es) (one e line p)
            ∙ ap (λ l. line ∷ l) (lines-export_events es one))
  ]

  -- Where the serialiser puts no newline into a record, as serde_json does by escaping it, the lines
  -- of the export are the records of the buffered events that can be serialised, one each and in
  -- order.
  pub lines-export_jsonl :
      (b : ReplayBuffer E)
      → ((e : E) (line : Text) → serialize e ≡ some line → OneLine line)
      → lines (export_jsonl serialize b) ≡ serialized b.events
  unfolding lines export_jsonl
  lines-export_jsonl b one = lines-export_events b.events one
