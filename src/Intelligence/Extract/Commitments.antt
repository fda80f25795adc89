-- ===== src/Intelligence/Extract/Commitments.antt =====
-- app/intelligence/extract.py: `extract_commitments`, from the labels and from the provider's recap.
use deal_truth_api.Prelude.{
  ℕ, ◌*◌, Bool, true, ◌&&◌, ◌||◌, Option, none, some, List, [], ◌∷◌, ◌++◌, String, Text, codes,
  lower, strip, contains, length, min, max, ltb, if◌then◌else◌,
}
use deal_truth_api.Core.Enums.{SpeakerRole, InsightType, same_role}
use deal_truth_api.Intelligence.Domain.{Segment, CandidateInsight, Value}
use deal_truth_api.Intelligence.Extract.{score, clears, citing}

-- `RecapActionItem`
pub record RecapActionItem : Type 0 where
  pub text : Text
  pub owner : Option Text
  pub due_text : Option Text
  pub side : Option Text

due_from : Text → List String → Option Text
due_from lowered [] = none
due_from lowered (token ∷ more) =
    if contains (codes token) lowered then some (codes token) else due_from lowered more

-- `_due_text`
unfoldable pub due_text : Text → Option Text
unfolding due_from
due_text t =
    due_from (lower t)
      ("friday" ∷ "tomorrow" ∷ "next week" ∷ "monday" ∷ "tuesday" ∷ "eod" ∷ "end of day" ∷ [])

abbrev or_null : Option Text → Value
or_null none = Value.null
or_null (some t) = Value.text t

unfoldable pub commitment : String → String → Text → Segment → ℕ → SpeakerRole → CandidateInsight
commitment title side action seg n role =
    let c = citing InsightType.commitment (codes title) seg n in
    record c {
      required_role = some role;
      payload =
          ("side", Value.text (codes side))
          ∷ ("action", Value.text action)
          ∷ ("due_text", or_null (due_text seg.text))
          ∷ [];
    }

-- `if score >= LABEL_THRESHOLD and seg.speaker_role == role: out.append(...)`
unfoldable pub commitment_if :
    String → SpeakerRole → String → String → Text → Segment → List CandidateInsight
unfolding commitment
commitment_if label role title side action seg =
    if clears (score seg label) && same_role seg.speaker_role role
    then commitment title side action seg (score seg label) role ∷ []
    else []

unfoldable pub commitments_of : Segment → List CandidateInsight
unfolding commitment_if
commitments_of seg =
    commitment_if "seller commitment" SpeakerRole.seller "Seller commitment" "seller" seg.text seg
    ++ (commitment_if "customer commitment" SpeakerRole.customer "Customer commitment" "customer"
          seg.text seg
        ++ commitment_if "next meeting commitment" SpeakerRole.customer "Next meeting commitment"
            "customer" (codes "next meeting") seg)

unfoldable pub labelled_from : List Segment → List CandidateInsight
labelled_from [] = []
labelled_from (seg ∷ segs) = commitments_of seg ++ labelled_from segs

-- A segment with the lengths whose quotient is its score.
abbrev pub Match : Type 0
Match = Segment × ℕ × ℕ

-- `min(len(needle), len(hay)) / max(len(needle), len(hay), 1)`, as a fraction.
unfoldable pub match_of : Text → Segment → Match
match_of needle seg =
    let hay = length (lower seg.text) in
    (seg, min (length needle) hay, max (max (length needle) hay) 1)

-- `best is None or score > best[1]`
unfoldable pub better : Match → Option Match → Bool
better (seg, n, d) none = true
better (seg, n, d) (some (other, m, e)) = ltb (m * d) (n * e)

unfoldable pub match_from : Text → Option Match → List Segment → Option Match
unfolding match_of better
match_from needle top [] = top
match_from needle top (seg ∷ segs) =
    match_from needle
      (if (contains needle (lower seg.text) || contains (lower seg.text) needle)
          && better (match_of needle seg) top
        then some (match_of needle seg)
        else top)
      segs

unfoldable pub match_text : List Segment → Text → Option Match
unfolding match_from
match_text segments [] = none
match_text segments (c ∷ s) = match_from (c ∷ s) none segments

-- `_best_text_match`
unfoldable pub best_text_match : List Segment → Text → Option Match
unfolding match_text
best_text_match segments t = match_text segments (strip (lower t))

-- `item.side or ("seller" if ... else "customer")`: an empty side counts as none.
side_of : Option Text → Segment → Text
side_of (some (c ∷ s)) seg = c ∷ s
side_of _ seg =
    if same_role seg.speaker_role SpeakerRole.seller then codes "seller" else codes "customer"

unfoldable pub recap_item : RecapActionItem → Segment → CandidateInsight
unfolding side_of
recap_item item seg =
    let c = citing InsightType.commitment (codes "Recap action item") seg 7000 in
    record c {
      summary = item.text;
      payload =
          ("side", Value.text (side_of item.side seg))
          ∷ ("owner", or_null item.owner)
          ∷ ("action", Value.text item.text)
          ∷ ("due_text", or_null item.due_text)
          ∷ ("source", Value.text (codes "recap"))
          ∷ [];
    }

unfoldable pub recap_at : RecapActionItem → Option Match → List CandidateInsight
unfolding recap_item
recap_at item none = []
recap_at item (some (seg, n, d)) = recap_item item seg ∷ []

unfoldable pub recap_from : List Segment → List RecapActionItem → List CandidateInsight
unfolding recap_at
recap_from segments [] = []
recap_from segments (item ∷ items) =
    recap_at item (best_text_match segments item.text) ++ recap_from segments items

-- The recap's action items are given; there are none where there is no recap.
unfoldable pub extract_commitments : List Segment → List RecapActionItem → List CandidateInsight
unfolding labelled_from recap_from
extract_commitments segments items = labelled_from segments ++ recap_from segments items
