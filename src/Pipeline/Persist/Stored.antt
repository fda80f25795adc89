-- ===== src/Pipeline/Persist/Stored.antt =====
-- app/pipeline/persist.py: what `persist_transcript` keeps, and what is read back of it.
use deal_truth_api.Prelude.{
  ℕ, ◌≡◌, refl, ap, sym, subst, ◌∙◌, ◌≤◌, ◌<◌, ◌≢◌, All, All-map, Pairwise, Bool-cases, inl, inr,
  Option, none, some, Text, suc, true, List, [], ◌∷◌, Memᴰ, map, length, arith, same_text, if_elim,
  ◌+◌,
}
use deal_truth_api.Intelligence.Speakers.{Resolved}
use deal_truth_api.Providers.Normalized.{NormalizedSegment, NormalizedTranscript}
use deal_truth_api.Pipeline.Session.{SpeakerRow, SegmentRow, Session, ok}
use deal_truth_api.Pipeline.Persist.{
  insert_row, ordered_rows, view_of, load_segment_views, refresh_row, upsert, upsert_all,
  segment_rows, segment_views, provider_row, speaker_id_of, speaker_role_of, role_by_id, new_row,
  stored_transcript, persist_transcript,
}

-- A row that a person has set is not refreshed.
refresh_row_kept :
    (row : SpeakerRow) (r : Resolved) → row.manually_overridden ≡ true → refresh_row row r ≡ row
unfolding refresh_row
refresh_row_kept row r o = ground arith

upsert_kept :
    (fresh : ℕ) (rows : List SpeakerRow) (r : Resolved) {row : SpeakerRow}
    → Memᴰ row rows
    → row.manually_overridden ≡ true
    → Memᴰ row (upsert fresh rows r)
unfolding upsert
upsert_kept fresh [] r m o = elim m [ ]
upsert_kept fresh (q ∷ rows) r {row} (Memᴰ.head e) o =
    if_elim (Memᴰ row) (same_text q.provider_speaker_id r.speaker.provider_speaker_id)
      (Memᴰ.head (e ∙ sym (refresh_row_kept q r (cc)))) (Memᴰ.head e)
upsert_kept fresh (q ∷ rows) r {row} (Memᴰ.tail m) o =
    if_elim (Memᴰ row) (same_text q.provider_speaker_id r.speaker.provider_speaker_id) (Memᴰ.tail m)
      (Memᴰ.tail (upsert_kept fresh rows r m o))

upsert_all_kept :
    (fresh : ℕ) (rows : List SpeakerRow) (rs : List Resolved) {row : SpeakerRow}
    → Memᴰ row rows
    → row.manually_overridden ≡ true
    → Memᴰ row (upsert_all fresh rows rs)
unfolding upsert_all
upsert_all_kept fresh rows [] m o = m
upsert_all_kept fresh rows (r ∷ rest) m o =
    upsert_all_kept (suc fresh) (upsert fresh rows r) rest (upsert_kept fresh rows r m o) o

-- Whatever a transcript resolves, a speaker row that a person has set stays among the rows of the
-- call, with the role, the name and the confidence that it had.
pub persist_transcript_kept :
    (t : NormalizedTranscript) (resolved : List Resolved) (s : Session) (row : SpeakerRow)
    → Memᴰ row s.live.speakers
    → row.manually_overridden ≡ true
    → Memᴰ row (persist_transcript t resolved s).1.live.speakers
unfolding persist_transcript stored_transcript
persist_transcript_kept t resolved s row m o = upsert_all_kept s.fresh s.live.speakers resolved m o

insert_row_first :
    (r : SegmentRow) (fresh index : ℕ) (speakers : List SpeakerRow) (segs : List NormalizedSegment)
    → r.sequence_number ≤ index
    → insert_row r (segment_rows fresh index speakers segs)
      ≡ r ∷ segment_rows fresh index speakers segs
unfolding insert_row segment_rows
insert_row_first r fresh index speakers [] h = refl
insert_row_first r fresh index speakers (seg ∷ rest) h = ground arith

ordered_rows-segment_rows :
    (fresh index : ℕ) (speakers : List SpeakerRow) (segs : List NormalizedSegment)
    → ordered_rows (segment_rows fresh index speakers segs) ≡ segment_rows fresh index speakers segs
unfolding ordered_rows segment_rows
ordered_rows-segment_rows fresh index speakers [] = refl
ordered_rows-segment_rows fresh index speakers (seg ∷ rest) =
    rw (ordered_rows-segment_rows (suc fresh) (suc index) speakers rest)
      (insert_row_first _ (suc fresh) (suc index) speakers rest (omega arith))

-- The ids of the speakers are distinct, and below the next new one.
pub record IdsBelow (fresh : ℕ) (rows : List SpeakerRow) : Type 0 where
  pub distinct : Pairwise (λ (r q : SpeakerRow). r.id ≢ q.id) rows
  pub below : All (λ (r : SpeakerRow). r.id < fresh) rows

refresh_row-id : (row : SpeakerRow) (r : Resolved) → (refresh_row row r).id ≡ row.id
unfolding refresh_row
refresh_row-id row r = ground arith

-- An upsert keeps what holds of all ids and of the new one.
upsert-All :
    (P : ℕ → Type 0) (fresh : ℕ) (rows : List SpeakerRow) (r : Resolved)
    → All (λ (q : SpeakerRow). P q.id) rows
    → P fresh
    → All (λ (q : SpeakerRow). P q.id) (upsert fresh rows r)
unfolding upsert new_row
upsert-All P fresh [] r h k = (k, tt)
upsert-All P fresh (q ∷ rows) r h k =
    if_elim (All (λ (q : SpeakerRow). P q.id))
      (same_text q.provider_speaker_id r.speaker.provider_speaker_id)
      (subst P (sym (refresh_row-id q r)) h.0, h.1) (h.0, upsert-All P fresh rows r h.1 k)

upsert-distinct :
    (fresh : ℕ) (rows : List SpeakerRow) (r : Resolved)
    → Pairwise (λ (p q : SpeakerRow). p.id ≢ q.id) rows
    → All (λ (q : SpeakerRow). q.id < fresh) rows
    → Pairwise (λ (p q : SpeakerRow). p.id ≢ q.id) (upsert fresh rows r)
unfolding upsert
upsert-distinct fresh [] r d h = (tt, tt)
upsert-distinct fresh (q ∷ rows) r d h =
    let new : q.id ≢ fresh = λ e. let less : q.id < fresh = h.0 in omega arith in
    if_elim (Pairwise (λ (p q : SpeakerRow). p.id ≢ q.id))
      (same_text q.provider_speaker_id r.speaker.provider_speaker_id)
      (subst (λ n. All (λ (p : SpeakerRow). n ≢ p.id) rows) (sym (refresh_row-id q r)) d.0, d.1)
      (upsert-All (λ n. q.id ≢ n) fresh rows r d.0 new, upsert-distinct fresh rows r d.1 h.1)

upsert_all-IdsBelow :
    (fresh : ℕ) (rows : List SpeakerRow) (rs : List Resolved)
    → IdsBelow fresh rows
    → Pairwise (λ (p q : SpeakerRow). p.id ≢ q.id) (upsert_all fresh rows rs)
unfolding upsert_all
upsert_all-IdsBelow fresh rows [] h = h.distinct
upsert_all-IdsBelow fresh rows (r ∷ rest) h =
    upsert_all-IdsBelow (suc fresh) (upsert fresh rows r) rest (record {
      distinct = upsert-distinct fresh rows r h.distinct h.below;
      below =
          upsert-All (λ n. n < suc fresh) fresh rows r
            (All-map (λ (q : SpeakerRow) k. (let less : q.id < fresh = k in omega arith)) rows
              h.below)
            (omega arith);
    })

-- What holds of all rows holds of the one that a provider's id names.
provider_row-All :
    (P : SpeakerRow → Type 0) (rows : List SpeakerRow) (i : Text) {row : SpeakerRow}
    → All P rows
    → provider_row rows i ≡ some row
    → P row
unfolding provider_row
provider_row-All P [] i h e = absurd (cc e)
provider_row-All P (q ∷ rows) i {row} h e = elim (Bool-cases (same_text q.provider_speaker_id i)) [
  | inl b ↦ let same : some q ≡ some row = rw b at e in subst P (cc same) h.0
  | inr b ↦ provider_row-All P rows i h.1 (rw b at e)
]

named-role :
    (rows : List SpeakerRow) (i : Text) (o : Option SpeakerRow)
    → provider_row rows i ≡ o
    → Pairwise (λ (p q : SpeakerRow). p.id ≢ q.id) rows
    → role_by_id rows (speaker_id_of o) ≡ speaker_role_of o
unfolding role_by_id provider_row
named-role [] i none e d = refl
named-role (q ∷ rows) i none e d = refl
named-role [] i (some row) e d = absurd (cc e)
named-role (q ∷ rows) i (some row) e d = elim (Bool-cases (same_text q.provider_speaker_id i)) [
  | inl b ↦
      let same : some q ≡ some row = rw b at e in
      let it : q ≡ row = cc same in
      ground (arith, ap (λ (r : SpeakerRow). r.id) it, ap (λ (r : SpeakerRow). r.role) it)
  | inr b ↦
      let later : provider_row rows i ≡ some row = rw b at e in
      let other : q.id ≢ row.id =
        provider_row-All (λ (p : SpeakerRow). q.id ≢ p.id) rows i d.0 later in
      ground (arith, named-role rows i (some row) later d.1)
]

-- The role is found again by the id of the row.
role_by_id-provider_row :
    (rows : List SpeakerRow) (i : Text)
    → Pairwise (λ (p q : SpeakerRow). p.id ≢ q.id) rows
    → role_by_id rows (speaker_id_of (provider_row rows i)) ≡ speaker_role_of (provider_row rows i)
role_by_id-provider_row rows i d = named-role rows i (provider_row rows i) refl d

segment_views-segment_rows :
    (fresh index : ℕ) (speakers : List SpeakerRow) (segs : List NormalizedSegment)
    → Pairwise (λ (p q : SpeakerRow). p.id ≢ q.id) speakers
    → segment_views fresh index speakers segs
      ≡ map (view_of speakers) (segment_rows fresh index speakers segs)
unfolding segment_views segment_rows view_of
segment_views-segment_rows fresh index speakers [] d = refl
segment_views-segment_rows fresh index speakers (seg ∷ rest) d =
    rw
      (
        role_by_id-provider_row speakers seg.provider_speaker_id d,
        segment_views-segment_rows (suc fresh) (suc index) speakers rest d,
      )
      refl

-- Where the ids of the stored speakers are distinct and no new id is one of them, the views that a first run
-- goes on with are those that a later run reads back from the rows, with the roles that these give.
pub load_segment_views-persist_transcript :
    (t : NormalizedTranscript) (resolved : List Resolved) (s : Session)
    → IdsBelow s.fresh s.live.speakers
    → (persist_transcript t resolved s).0
      ≡ ok (load_segment_views (persist_transcript t resolved s).1.live)
unfolding persist_transcript load_segment_views stored_transcript
load_segment_views-persist_transcript t resolved s ids =
    let speakers = upsert_all s.fresh s.live.speakers resolved in
    let first = s.fresh + length resolved in
    ap ok (
      segment_views-segment_rows first 0 speakers t.segments
        (upsert_all-IdsBelow s.fresh s.live.speakers resolved ids)
      ∙ ap (map (view_of speakers)) (sym (ordered_rows-segment_rows first 0 speakers t.segments)))
