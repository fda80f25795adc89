-- ===== src/Ml/Labels.antt =====
-- app/ml/__init__.py: the names of the sales labels, and the classification of texts. A label is a text.
pub mod Slugs
use deal_truth_api.Prelude.{
  ℕ, Bool, false, not, ◌&&◌, ◌||◌, Option, none, some, List, [], ◌∷◌, ◌++◌, String, Text, codes,
  map, leb, ◌==◌, is_space, lower, reverse, strip, spaced, same_text, if◌then◌else◌,
}
use deal_truth_api.Pipeline.Session.{Result, ok}
use deal_truth_api.Ml.Axes.{LabelScore}
use deal_truth_api.Ml.Json.{Json, object, Fields, get, truthy, or_else}
use deal_truth_api.Ml.Batch.{Item, Reply, batched_rows, then_rows}
use deal_truth_api.Ml.Rows.{Spelling, parse_scores}

-- `SALES_LABELS`
abbrev pub sales_labels : List String
sales_labels =
    "pain point" ∷ "positive buying signal" ∷ "negative buying signal" ∷ "pricing objection"
    ∷ "security blocker" ∷ "technical blocker" ∷ "budget blocker" ∷ "competitor mention"
    ∷ "competitor preference" ∷ "decision maker identified" ∷ "economic buyer identified"
    ∷ "purchase timeline" ∷ "next meeting commitment" ∷ "customer commitment" ∷ "seller commitment"
    ∷ "feature requirement" ∷ "integration requirement" ∷ "out-of-scope request"
    ∷ "customer question" ∷ "customer concern" ∷ "customer praise" ∷ []

-- `s.split()`: the word at hand, and the later ones.
unfoldable pub words_from : Text → Text → List Text
unfolding is_space
words_from word [] = if same_text word [] then [] else word ∷ []
words_from word (c ∷ s) =
    let rest = words_from (if is_space c then [] else word ++ c ∷ []) s in
    if is_space c && not (same_text word []) then word ∷ rest else rest

-- `" ".join(words)`
unfoldable pub join_spaced : List Text → Text
join_spaced [] = []
join_spaced (w ∷ []) = w
join_spaced (w ∷ v ∷ rest) = w ++ (32 ∷ join_spaced (v ∷ rest))

-- `_label_key`
unfoldable pub label_key : Text → Text
unfolding words_from join_spaced
label_key raw =
    join_spaced
      (words_from [] (spaced (map (λ c. if c == b'-' then 32 else c) (lower (strip raw)))))

-- `_LABEL_BY_KEY.get(key, default)`
unfoldable pub label_by_key : Text → Text → List String → Text
unfolding label_key
label_by_key key default [] = default
label_by_key key default (l ∷ labels) =
    if same_text (label_key (codes l)) key then codes l else label_by_key key default labels

unfoldable pub canonical_sales_label : Text → Text
unfolding label_by_key
canonical_sales_label raw = label_by_key (label_key raw) (strip raw) sales_labels

unfoldable pub is_slug_char : ℕ → Bool
is_slug_char c = (leb b'a' c && leb c b'z') || (leb b'0' c && leb c b'9')

-- `re.sub(r"[^a-z0-9]+", "_", s)`: `inside` says that the run at hand has its underscore.
unfoldable pub underscored : Bool → Text → Text
unfolding is_slug_char
underscored inside [] = []
underscored inside (c ∷ s) =
    let rest = underscored (not (is_slug_char c)) s in
    if is_slug_char c then c ∷ rest else if inside then rest else b'_' ∷ rest

unfoldable pub strip_underscores : Text → Text
strip_underscores [] = []
strip_underscores (c ∷ s) = if c == b'_' then strip_underscores s else c ∷ s

abbrev pub or_label : Text → Text
or_label [] = codes "label"
or_label (c ∷ s) = c ∷ s

unfoldable pub sales_label_slug : Text → Text
unfolding underscored strip_underscores
sales_label_slug label =
    or_label
      (reverse (strip_underscores (reverse (strip_underscores (underscored false (lower label))))))

-- `ClassificationResult`: the labels with their scores.
abbrev pub Classification : Type 0
Classification = List (Text × ℕ)

abbrev canonical_score : LabelScore → Text × ℕ
canonical_score (label, n) = (canonical_sales_label (codes label), n)

-- `ClassificationResult.score`
unfoldable pub score_of : Text → Classification → ℕ
unfolding canonical_sales_label
score_of label [] = 0
score_of label ((l, n) ∷ rest) =
    if same_text l label || same_text (canonical_sales_label l) (canonical_sales_label label)
    then n
    else score_of label rest

abbrev or_fields : Option Json → Fields → Json
or_fields none fields = object fields
or_fields (some j) fields = if truthy (some j) then j else object fields

module _ (spelling : Spelling) where
  -- `_parse_classification`
  unfoldable pub parse_classification : Json → Result Classification
  unfolding canonical_sales_label
  parse_classification (object fields) =
      then_rows
        (parse_scores spelling
          (or_fields (or_else (get "labels" fields) (get "scores" fields)) fields))
        (λ scores. ok (map canonical_score scores))
  parse_classification _ = ok []

  unfoldable pub parse_classifications : List Json → Result (List Classification)
  unfolding parse_classification
  parse_classifications [] = ok []
  parse_classifications (row ∷ rows) =
      then_rows (parse_classification row)
        (λ c. then_rows (parse_classifications rows) (λ rest. ok (c ∷ rest)))

  -- `classify`, of the service as it is asked about the wanted labels.
  unfoldable pub classify : ℕ → (List Item → Reply) → List Text → Result (List Classification)
  unfolding parse_classifications
  classify ml_max_batch_size post texts =
      then_rows (batched_rows ml_max_batch_size post texts) parse_classifications
