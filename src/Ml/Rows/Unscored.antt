-- ===== src/Ml/Rows/Unscored.antt =====
-- app/ml/__init__.py: an axis that was not scored has no scores.
use deal_truth_api.Prelude.{
  ◌≡◌, ◌⊎◌, inl, inr, refl, Bool, true, false, Option, none, some, List, [], String,
}
use deal_truth_api.Core.Errors.{Exception}
use deal_truth_api.Pipeline.Session.{Result, ok, err}
use deal_truth_api.Ml.Axes.{LabelScore, EmotionAxes, all_unavailable}
use deal_truth_api.Ml.Json.{
  Json, null, flag, integer, fraction, text, array, object, Fields, get, truthy,
}
use deal_truth_api.Ml.Batch.{then_rows}
use deal_truth_api.Ml.Rows.{
  Spelling, parse_scores, flags_of, dropped, three, axis_of, parse_emotion_axes,
}

-- What a result says, and what an error does.
abbrev pub Yields {ℓ} : {A : Type ℓ} → (A → Type 0) → (Exception → Type 0) → Result A → Type 0
Yields P E (err e) = E e
Yields P E (ok a) = P a

-- The field of an axis is not there, or null.
pub is_absent : Option Json → Bool
is_absent none = true
is_absent (some null) = true
is_absent (some _) = false

-- Every axis is flagged as never scored, and has no scores.
abbrev pub unknown : EmotionAxes
unknown = record {
  emotion = [];
  buying_intent = [];
  deal_signals = [];
  unavailable = record { emotion = true; buying_intent = true; deal_signals = true };
}

module _ (spelling : Spelling) where
  -- The field is there and not null, and its scores are read so.
  pub record Scores (raw : Option Json) (r : Result (List LabelScore)) : Type 0 where
    pub value : Json
    pub found : raw ≡ some value
    pub present : is_absent raw ≡ false
    pub read : parse_scores spelling value ≡ r

  -- An axis read from a row: it is flagged exactly where its field is absent or the row flags it. Then it
  -- has no scores, and else those of its field.
  pub record AxisSo (flags : Fields) (name : String) (raw : Option Json) (scores : List LabelScore)
      (flagged : Bool) : Type 0 where
    pub absent_flagged : is_absent raw ≡ true → flagged ≡ true
    pub flagged_so : is_absent raw ≡ false → flagged ≡ truthy (get name flags)
    pub unscored : flagged ≡ true → scores ≡ []
    pub scored : flagged ≡ false → Scores raw (ok scores)

  abbrev AxisYields : Fields → String → Option Json → Result (List LabelScore × Bool) → Type 0
  AxisYields flags name raw = Yields (λ a. AxisSo flags name raw a.0 a.1) (λ e. Scores raw (err e))

  present_axis :
      (flags : Fields) (name : String) (raw : Json) (r : Result (List LabelScore))
      → is_absent (some raw) ≡ false
      → parse_scores spelling raw ≡ r
      → AxisYields flags name (some raw) (dropped (truthy (get name flags)) r)
  present_axis flags name raw (err e) h read = record {
    value = raw;
    found = refl;
    present = h;
    read = read;
  }
  present_axis flags name raw (ok scores) h read = record {
    absent_flagged = λ a. cc (a, h);
    flagged_so = λ a. refl;
    unscored = λ f. rw f refl;
    scored = λ f. rw f (record { value = raw; found = refl; present = h; read = read });
  }

  absent_axis :
      (flags : Fields) (name : String) (raw : Option Json)
      → is_absent raw ≡ true
      → AxisYields flags name raw (ok ([], true))
  absent_axis flags name raw h = record {
    absent_flagged = λ a. refl;
    flagged_so = λ a. absurd (cc (a, h));
    unscored = λ f. refl;
    scored = λ f. absurd (cc f);
  }

  axis_of-AxisSo :
      (flags : Fields) (name : String) (raw : Option Json)
      → AxisYields flags name raw (axis_of spelling flags name raw)
  unfolding axis_of is_absent
  axis_of-AxisSo flags name none = absent_axis flags name none refl
  axis_of-AxisSo flags name (some null) = absent_axis flags name (some null) refl
  axis_of-AxisSo flags name (some (flag b)) = present_axis flags name (flag b) _ refl refl
  axis_of-AxisSo flags name (some (integer n)) = present_axis flags name (integer n) _ refl refl
  axis_of-AxisSo flags name (some (fraction n)) = present_axis flags name (fraction n) _ refl refl
  axis_of-AxisSo flags name (some (text s)) = present_axis flags name (text s) _ refl refl
  axis_of-AxisSo flags name (some (array items)) = present_axis flags name (array items) _ refl refl
  axis_of-AxisSo flags name (some (object fields)) =
      present_axis flags name (object fields) _ refl refl

  -- The three axes that are read of a row.
  abbrev pub AxesSo : Json → EmotionAxes → Type 0
  AxesSo (object fields) a =
      (let flags = flags_of (get "unavailable" fields) in
        AxisSo flags "emotion" (get "emotion" fields) a.emotion a.unavailable.emotion
        × AxisSo flags "buying_intent" (get "buying_intent" fields) a.buying_intent
            a.unavailable.buying_intent
        × AxisSo flags "deal_signals" (get "deal_signals" fields) a.deal_signals
            a.unavailable.deal_signals)
  AxesSo _ a = a ≡ unknown

  -- Where a row cannot be read, that is for the scores of an axis that is there.
  abbrev pub AxisRaises : Json → Exception → Type 0
  AxisRaises (object fields) e =
      (Scores (get "emotion" fields) (err e))
      ⊎ ((Scores (get "buying_intent" fields) (err e))
          ⊎ (Scores (get "deal_signals" fields) (err e)))
  AxisRaises _ e = Unit → ⊥

  three_axes :
      (fields : Fields) (e b d : Result (List LabelScore × Bool))
      → (let flags = flags_of (get "unavailable" fields) in
          AxisYields flags "emotion" (get "emotion" fields) e
          → AxisYields flags "buying_intent" (get "buying_intent" fields) b
          → AxisYields flags "deal_signals" (get "deal_signals" fields) d
          → Yields
              (AxesSo (object fields))
              (AxisRaises (object fields))
              (then_rows e (λ x. then_rows b (λ y. then_rows d (λ z. ok (three x y z))))))
  three_axes fields (err x) b d he hb hd = inl he
  three_axes fields (ok x) (err y) d he hb hd = inr (inl hb)
  three_axes fields (ok x) (ok y) (err z) he hb hd = inr (inr hd)
  three_axes fields (ok x) (ok y) (ok z) he hb hd = (he, hb, hd)

  -- Whatever a row of the service is, an axis of it that is absent or null is flagged as unavailable,
  -- any other exactly where the row flags it; a flagged axis has no scores, and any other the scores of its
  -- field. A row that is no object has all three axes flagged and no scores. Reading a row raises only the
  -- error that reading the scores of an axis that is there and not null raises.
  pub parse_emotion_axes-AxesSo :
      (row : Json) → Yields (AxesSo row) (AxisRaises row) (parse_emotion_axes spelling row)
  unfolding parse_emotion_axes all_unavailable
  parse_emotion_axes-AxesSo (object fields) =
      let flags = flags_of (get "unavailable" fields) in
      three_axes fields (axis_of spelling flags "emotion" (get "emotion" fields))
        (axis_of spelling flags "buying_intent" (get "buying_intent" fields))
        (axis_of spelling flags "deal_signals" (get "deal_signals" fields))
        (axis_of-AxisSo flags "emotion" (get "emotion" fields))
        (axis_of-AxisSo flags "buying_intent" (get "buying_intent" fields))
        (axis_of-AxisSo flags "deal_signals" (get "deal_signals" fields))
  parse_emotion_axes-AxesSo null = refl
  parse_emotion_axes-AxesSo (flag b) = refl
  parse_emotion_axes-AxesSo (integer n) = refl
  parse_emotion_axes-AxesSo (fraction n) = refl
  parse_emotion_axes-AxesSo (text s) = refl
  parse_emotion_axes-AxesSo (array items) = refl
