-- ===== src/Intelligence/Extract/Grounded/Commitments.antt =====
-- app/intelligence/extract.py: what the commitments cite, those of the labels and those of the recap.
use deal_truth_api.Prelude.{
  ◌≡◌, refl, Bool, true, false, ◌&&◌, ◌||◌, and_true, Option, none, some, List, [], ◌∷◌, String,
  Text, All, All-append, All-mem_self, Memᴰ, if_elim, lower, strip, contains, if◌then◌else◌,
}
use deal_truth_api.Core.Enums.{SpeakerRole, same_role, same_role→eq}
use deal_truth_api.Intelligence.Domain.{Segment}
use deal_truth_api.Evidence.{required, claimed_quote}
use deal_truth_api.Intelligence.Extract.{score, clears}
use deal_truth_api.Intelligence.Extract.Commitments.{
  RecapActionItem, commitment, commitment_if, commitments_of, labelled_from, Match, match_of,
  better, match_from, match_text, best_text_match, recap_item, recap_at, recap_from,
  extract_commitments,
}
use deal_truth_api.Intelligence.Extract.Grounded.{Grounded, role_Grounded, any_Grounded}

module _ (segments : List Segment) where
  commitment_when :
      (label : String) (role : SpeakerRole) (title side : String) (action : Text) (seg : Segment)
      (b : Bool)
      → (clears (score seg label) && same_role seg.speaker_role role) ≡ b
      → Memᴰ seg segments
      → All
          (Grounded segments)
          (if b then commitment title side action seg (score seg label) role ∷ [] else [])
  unfolding commitment required claimed_quote
  commitment_when label role title side action seg false e m = tt
  commitment_when label role title side action seg true e m =
      let spoken = and_true (clears (score seg label)) (same_role seg.speaker_role role) e in
      (
        role_Grounded segments (commitment title side action seg (score seg label) role) seg role
            (m, same_role→eq seg.speaker_role role spoken.1) refl refl refl refl,
        tt,
      )

  commitment_if-Grounded :
      (label : String) (role : SpeakerRole) (title side : String) (action : Text) (seg : Segment)
      → Memᴰ seg segments
      → All (Grounded segments) (commitment_if label role title side action seg)
  unfolding commitment_if
  commitment_if-Grounded label role title side action seg m =
      commitment_when label role title side action seg
        (clears (score seg label) && same_role seg.speaker_role role) refl m

  commitments_of-Grounded :
      (seg : Segment) → Memᴰ seg segments → All (Grounded segments) (commitments_of seg)
  unfolding commitments_of
  commitments_of-Grounded seg m = search (All-append, commitment_if-Grounded)

  labelled_from-Grounded :
      (segs : List Segment)
      → All (λ (s : Segment). Memᴰ s segments) segs
      → All (Grounded segments) (labelled_from segs)
  unfolding labelled_from
  labelled_from-Grounded [] h = tt
  labelled_from-Grounded (seg ∷ segs) h =
      All-append (Grounded segments) (commitments_of seg) (labelled_from segs)
        (commitments_of-Grounded seg h.0) (labelled_from-Grounded segs h.1)

  abbrev MatchIn : Option Match → Type 0
  MatchIn none = Unit
  MatchIn (some m) = Memᴰ m.0 segments

  match_of-seg :
      (needle : Text) (seg : Segment) → Memᴰ seg segments → MatchIn (some (match_of needle seg))
  unfolding match_of
  match_of-seg needle seg m = m

  match_from-MatchIn :
      (needle : Text) (top : Option Match) (segs : List Segment)
      → MatchIn top
      → All (λ (s : Segment). Memᴰ s segments) segs
      → MatchIn (match_from needle top segs)
  unfolding match_from
  match_from-MatchIn needle top [] t h = t
  match_from-MatchIn needle top (seg ∷ segs) t h =
      let closer =
        (contains needle (lower seg.text) || contains (lower seg.text) needle)
        && better (match_of needle seg) top in
      match_from-MatchIn needle (if closer then some (match_of needle seg) else top) segs
        (if_elim MatchIn closer (match_of-seg needle seg h.0) t) h.1

  match_text-MatchIn : (t : Text) → MatchIn (match_text segments t)
  unfolding match_text
  match_text-MatchIn [] = tt
  match_text-MatchIn (c ∷ s) = match_from-MatchIn (c ∷ s) none segments tt (All-mem_self segments)

  recap_at-Grounded :
      (item : RecapActionItem) (m : Option Match)
      → MatchIn m
      → All (Grounded segments) (recap_at item m)
  unfolding recap_at recap_item required claimed_quote
  recap_at-Grounded item none h = tt
  recap_at-Grounded item (some (seg, n, d)) h =
      (any_Grounded segments (recap_item item seg) seg h refl refl refl refl, tt)

  recap_from-Grounded :
      (items : List RecapActionItem) → All (Grounded segments) (recap_from segments items)
  unfolding recap_from best_text_match
  recap_from-Grounded [] = tt
  recap_from-Grounded (item ∷ items) =
      All-append (Grounded segments) (recap_at item (best_text_match segments item.text))
        (recap_from segments items)
        (recap_at-Grounded item (best_text_match segments item.text)
          (match_text-MatchIn (strip (lower item.text))))
        (recap_from-Grounded items)

  pub extract_commitments-Grounded :
      (items : List RecapActionItem) → All (Grounded segments) (extract_commitments segments items)
  unfolding extract_commitments
  extract_commitments-Grounded items =
      All-append (Grounded segments) (labelled_from segments) (recap_from segments items)
        (labelled_from-Grounded segments (All-mem_self segments)) (recap_from-Grounded items)
