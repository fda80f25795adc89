-- ===== src/Ml/Axes.antt =====
-- app/ml/__init__.py: the three emotion axes of one row, never merged, and what is rolled up of them.
use deal_truth_api.Prelude.{
  ℕ, Bool, true, not, ◌||◌, ◌+◌, Option, none, some, List, [], ◌∷◌, ◌++◌, String, ℤ, sub_ℕ, any,
  str_eq, max, if◌then◌else◌,
}

-- `LabelScore`: a label with its score.
abbrev pub LabelScore : Type 0
LabelScore = String × ℕ

-- `AxisAvailability`: `true` means that the axis was never scored.
pub record AxisAvailability : Type 0 where
  pub emotion : Bool
  pub buying_intent : Bool
  pub deal_signals : Bool

pub record EmotionAxes : Type 0 where
  pub emotion : List LabelScore
  pub buying_intent : List LabelScore
  pub deal_signals : List LabelScore
  pub unavailable : AxisAvailability

unfoldable pub all_unavailable : EmotionAxes
all_unavailable = record {
  emotion = [];
  buying_intent = [];
  deal_signals = [];
  unavailable = record { emotion = true; buying_intent = true; deal_signals = true };
}

-- `POSITIVE_EMOTIONS`
abbrev pub positive_emotions : List String
positive_emotions =
    "admiration" ∷ "amusement" ∷ "approval" ∷ "caring" ∷ "desire" ∷ "excitement" ∷ "gratitude"
    ∷ "joy" ∷ "love" ∷ "optimism" ∷ "pride" ∷ "relief" ∷ "enthusiastic" ∷ "interested" ∷ []

-- `NEGATIVE_EMOTIONS`
abbrev pub negative_emotions : List String
negative_emotions =
    "anger" ∷ "annoyance" ∷ "disappointment" ∷ "disapproval" ∷ "disgust" ∷ "embarrassment" ∷ "fear"
    ∷ "grief" ∷ "nervousness" ∷ "remorse" ∷ "sadness" ∷ "hesitant" ∷ "concerned" ∷ "frustrated"
    ∷ "skeptical" ∷ "rejecting" ∷ []

-- `NEUTRAL_EMOTIONS`
abbrev pub neutral_emotions : List String
neutral_emotions =
    "curiosity" ∷ "confusion" ∷ "realization" ∷ "surprise" ∷ "neutral" ∷ "curious" ∷ "uncertain"
    ∷ []

unfoldable pub any_available : EmotionAxes → Bool
any_available a =
    not a.unavailable.emotion || not a.unavailable.buying_intent || not a.unavailable.deal_signals

max_from : ℕ → List LabelScore → ℕ
max_from best [] = best
max_from best ((label, score) ∷ rest) = max_from (max best score) rest

max_score : List LabelScore → Option ℕ
max_score [] = none
max_score ((label, score) ∷ rest) = some (max_from score rest)

unfoldable pub top_score : EmotionAxes → Option ℕ
unfolding max_score max_from
top_score a = max_score (a.emotion ++ (a.buying_intent ++ a.deal_signals))

sum_over : List String → List LabelScore → ℕ
sum_over names [] = 0
sum_over names ((label, score) ∷ rest) =
    (if any (λ n. str_eq n label) names then score else 0) + sum_over names rest

pub record Grouped : Type 0 where
  pub positive : ℕ
  pub negative : ℕ
  pub neutral : ℕ
  pub valence : ℤ

unfoldable pub grouped : EmotionAxes → Option Grouped
unfolding sum_over
grouped a =
    let pos_sum = sum_over positive_emotions a.emotion in
    let neg_sum = sum_over negative_emotions a.emotion in
    if a.unavailable.emotion
    then none
    else some (record {
      positive = pos_sum;
      negative = neg_sum;
      neutral = sum_over neutral_emotions a.emotion;
      valence = sub_ℕ pos_sum neg_sum;
    })

unfoldable pub valence : EmotionAxes → Option ℤ
valence a =
    if a.unavailable.emotion
    then none
    else elim (grouped a) [ none ↦ none | some g ↦ some g.valence ]
