-- ===== src/Ml/Rows.antt =====
-- app/ml/__init__.py: what the rows of the service are read as. A score is a number of ten-thousandths.
pub mod Unscored
use deal_truth_api.Prelude.{
  ℕ, ◌*◌, Bool, true, false, not, Option, none, some, List, [], ◌∷◌, String, if◌then◌else◌,
}
use deal_truth_api.Core.Errors.{named, other, ErrorClass, MlError}
use deal_truth_api.Pipeline.Session.{Result, ok, err}
use deal_truth_api.Ml.Axes.{LabelScore, EmotionAxes, all_unavailable}
use deal_truth_api.Ml.Json.{
  Json, null, flag, integer, fraction, text, array, object, Items, end, item, Fields, empty, field,
  get, truthy, or_else,
}
use deal_truth_api.Ml.Batch.{Item, Reply, response_invalid, batched_rows, post_result, then_rows}

-- Python's `str` of a JSON value that is no text, and `float` of a text.
pub record Spelling : Type 0 where
  pub str : Json → String
  pub float_text : String → Result ℕ

-- The scores of an object: the values that are numbers, under their keys.
unfoldable pub number_of : Json → Option ℕ
number_of (integer n) = some (n * 10000)
number_of (fraction n) = some n
number_of (flag true) = some 10000
number_of (flag false) = some 0
number_of _ = none

abbrev scored : String → Option ℕ → List LabelScore → List LabelScore
scored k none rest = rest
scored k (some n) rest = (k, n) ∷ rest

unfoldable pub field_scores : Fields → List LabelScore
unfolding number_of
field_scores empty = []
field_scores (field k j rest) = scored k (number_of j) (field_scores rest)

-- The flags of a row: an object, or else none.
unfoldable pub flags_of : Option Json → Fields
flags_of (some (object fields)) = fields
flags_of _ = empty

-- One axis: its scores, and whether it was never scored. A flagged axis is read all the same, and its
-- scores are then dropped.
abbrev pub dropped : Bool → Result (List LabelScore) → Result (List LabelScore × Bool)
dropped flagged (err e) = err e
dropped flagged (ok scores) = ok (if flagged then [] else scores, flagged)

abbrev pub three :
    List LabelScore × Bool → List LabelScore × Bool → List LabelScore × Bool → EmotionAxes
three (emotion, e) (buying_intent, b) (deal_signals, d) = record {
  emotion = emotion;
  buying_intent = buying_intent;
  deal_signals = deal_signals;
  unavailable = record { emotion = e; buying_intent = b; deal_signals = d };
}

-- One vector of `embed`: `item.get("vector", item.get("embedding"))`, or the row itself.
abbrev or_default : Option Json → Option Json → Option Json
or_default none d = d
or_default (some j) d = some j

unfoldable pub vector_in : Json → Option Json
vector_in (object fields) = or_default (get "vector" fields) (get "embedding" fields)
vector_in row = some row

unfoldable pub generated_text : Json → Result String
generated_text (object fields) = elim (or_else (get "text" fields) (get "generated_text" fields)) [
  | some (text s) ↦ ok s
  | _ ↦ response_invalid "ML generate response missing text"
]
generated_text _ = response_invalid "ML generate response missing text"

module _ (spelling : Spelling) where
  unfoldable pub str_of : Option Json → String
  str_of none = ""
  str_of (some (text s)) = s
  str_of (some j) = if truthy (some j) then spelling.str j else ""

  -- `float(j or 0)`
  unfoldable pub float_of : Option Json → Result ℕ
  float_of (some (integer n)) = ok (n * 10000)
  float_of (some (fraction n)) = ok n
  float_of (some (flag true)) = ok 10000
  float_of (some (text s)) = if truthy (some (text s)) then spelling.float_text s else ok 0
  float_of (some (array (item j rest))) = err (other "TypeError")
  float_of (some (object (field k j rest))) = err (other "TypeError")
  float_of _ = ok 0

  -- `entry.get("label") or entry.get("id") or entry.get("name") or ""`
  unfoldable pub entry_label : Fields → String
  unfolding str_of
  entry_label fields =
      str_of (or_else (get "label" fields) (or_else (get "id" fields) (get "name" fields)))

  abbrev score_then : String → Result ℕ → Result (List LabelScore) → Result (List LabelScore)
  score_then k (err e) rest = err e
  score_then k (ok n) (err e) = err e
  score_then k (ok n) (ok rest) = ok ((k, n) ∷ rest)

  -- The loop over a list: an entry that is no object is left out.
  unfoldable pub entry_scores : Items → Result (List LabelScore)
  unfolding entry_label float_of
  entry_scores end = ok []
  entry_scores (item (object fields) rest) =
      score_then (entry_label fields) (float_of (get "score" fields)) (entry_scores rest)
  entry_scores (item _ rest) = entry_scores rest

  -- `_parse_scores`
  unfoldable pub parse_scores : Json → Result (List LabelScore)
  unfolding field_scores entry_scores
  parse_scores (object fields) = ok (field_scores fields)
  parse_scores (array items) = entry_scores items
  parse_scores _ = ok []

  unfoldable pub axis_of : Fields → String → Option Json → Result (List LabelScore × Bool)
  unfolding parse_scores
  axis_of flags name none = ok ([], true)
  axis_of flags name (some null) = ok ([], true)
  axis_of flags name (some raw) = dropped (truthy (get name flags)) (parse_scores raw)

  -- `_parse_emotion_axes`
  unfoldable pub parse_emotion_axes : Json → Result EmotionAxes
  unfolding flags_of axis_of
  parse_emotion_axes (object fields) =
      let flags = flags_of (get "unavailable" fields) in
      then_rows (axis_of flags "emotion" (get "emotion" fields)) (λ emotion.
        then_rows (axis_of flags "buying_intent" (get "buying_intent" fields)) (λ buying_intent.
          then_rows (axis_of flags "deal_signals" (get "deal_signals" fields))
            (λ deal_signals. ok (three emotion buying_intent deal_signals))))
  parse_emotion_axes _ = ok all_unavailable

  unfoldable pub parse_all : List Json → Result (List EmotionAxes)
  unfolding parse_emotion_axes
  parse_all [] = ok []
  parse_all (row ∷ rows) =
      then_rows (parse_emotion_axes row)
        (λ axes. then_rows (parse_all rows) (λ rest. ok (axes ∷ rest)))

  -- `emotions`
  unfoldable pub emotions : ℕ → (List Item → Reply) → List (List ℕ) → Result (List EmotionAxes)
  unfolding parse_all
  emotions ml_max_batch_size post texts =
      then_rows (batched_rows ml_max_batch_size post texts) parse_all

  abbrev cons_number : Result ℕ → Result (List ℕ) → Result (List ℕ)
  cons_number (err e) rest = err e
  cons_number (ok n) (err e) = err e
  cons_number (ok n) (ok rest) = ok (n ∷ rest)

  -- `float(x)`
  unfoldable pub float_item : Json → Result ℕ
  float_item (integer n) = ok (n * 10000)
  float_item (fraction n) = ok n
  float_item (flag true) = ok 10000
  float_item (flag false) = ok 0
  float_item (text s) = spelling.float_text s
  float_item _ = err (other "TypeError")

  unfoldable pub floats : Items → Result (List ℕ)
  unfolding float_item
  floats end = ok []
  floats (item j rest) = cons_number (float_item j) (floats rest)

  unfoldable pub parse_vector : Option Json → Result (List ℕ)
  unfolding floats
  parse_vector (some (array (item j rest))) = floats (item j rest)
  parse_vector _ = response_invalid "ML embed response missing vector"

  unfoldable pub parse_vectors : List Json → Result (List (List ℕ))
  unfolding vector_in parse_vector
  parse_vectors [] = ok []
  parse_vectors (row ∷ rows) =
      then_rows (parse_vector (vector_in row))
        (λ v. then_rows (parse_vectors rows) (λ rest. ok (v ∷ rest)))

  -- `embed`
  unfoldable pub embed : ℕ → (List Item → Reply) → List (List ℕ) → Result (List (List ℕ))
  unfolding parse_vectors
  embed ml_max_batch_size post texts =
      then_rows (batched_rows ml_max_batch_size post texts) parse_vectors

-- `generate`, with the service's reply to the prompt.
unfoldable pub generate : Bool → Reply → Result String
unfolding generated_text
generate ml_generation_enabled reply =
    if not ml_generation_enabled
    then err (named (ErrorClass.ml MlError.generation_disabled) "ML generation is disabled")
    else then_rows (post_result reply) generated_text
