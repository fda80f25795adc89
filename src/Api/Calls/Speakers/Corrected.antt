-- ===== src/Api/Calls/Speakers/Corrected.antt =====
-- app/api/v1/calls.py: what `patch_speakers` makes of the rows of the speakers.
use deal_truth_api.Prelude.{
  ℕ, ◌≡◌, ◌≢◌, refl, ap, sym, subst, ◌⊎◌, inl, inr, true, Option, none, some, List, [], ◌∷◌, All,
  Memᴰ, Forall₂, Bool-cases, ◌==◌, ==_iff, Text,
}
use deal_truth_api.Core.Enums.{SpeakerRole}
use deal_truth_api.Pipeline.Session.{SpeakerRow}
use deal_truth_api.Api.Calls.{
  SpeakerPatch, speaker_by_id, overridden, set_row, swapped, patched_row, patched_from,
  patched_rows, or_kept, or_kept_name,
}
use deal_truth_api.Api.Calls.Speakers.{first_id}

-- The row with a role and a name that a person has set.
abbrev pub set_as : SpeakerRole → Option Text → SpeakerRow → SpeakerRow
set_as role name row = record row { role = role; display_name = name; manually_overridden = true }

-- The row of an id is set, and every other row is left.
abbrev pub OnlySet : ℕ → SpeakerRole → Option Text → SpeakerRow → SpeakerRow → Type 0
OnlySet i role name row new = (row.id ≡ i → new ≡ set_as role name row) × (row.id ≢ i → new ≡ row)

-- A row of the call with the id.
pub record Named (i : ℕ) (rows : List SpeakerRow) : Type 0 where
  pub row : SpeakerRow
  pub stored : Memᴰ row rows
  pub same_id : row.id ≡ i

-- The speaker gets the role and the name that the patch gives, or keeps them.
pub record Set (body : SpeakerPatch) (before after : List SpeakerRow) : Type 0 where
  pub speaker : Named body.speaker_id before
  pub role : SpeakerRole
  pub name : Option Text
  pub role_given : (r : SpeakerRole) → body.role ≡ some r → role ≡ r
  pub role_kept : body.role ≡ none → role ≡ speaker.row.role
  pub name_given : (t : Text) → body.display_name ≡ some t → name ≡ some t
  pub name_kept : body.display_name ≡ none → name ≡ speaker.row.display_name
  pub rows : Forall₂ (OnlySet body.speaker_id role name) before after

-- The speaker and the partner get each other's role and name.
pub record Exchanged (i k : ℕ) (before after : List SpeakerRow) : Type 0 where
  pub speaker : Named i before
  pub partner : Named k before
  pub rows :
      Forall₂
        (λ row new.
          (row.id ≡ i → new ≡ set_as partner.row.role partner.row.display_name row)
          × (row.id ≢ i → OnlySet k speaker.row.role speaker.row.display_name row new))
        before
        after

pub Corrects : SpeakerPatch → Option ℕ → List SpeakerRow → List SpeakerRow → Type 0
Corrects body none before after = Set body before after
Corrects body (some k) before after = Exchanged body.speaker_id k before after

-- No row of the call has an id that the patch names.
abbrev pub Missing : SpeakerPatch → List SpeakerRow → Type 0
Missing body rows =
    All (λ (r : SpeakerRow). r.id ≢ body.speaker_id) rows
    ⊎ ((k : ℕ) × ((body.swap_with ≡ some k) × All (λ (r : SpeakerRow). r.id ≢ k) rows))

no_row :
    (i : ℕ) (rows : List SpeakerRow)
    → speaker_by_id i rows ≡ none
    → All (λ (r : SpeakerRow). r.id ≢ i) rows
unfolding speaker_by_id
no_row i [] h = tt
no_row i (q ∷ rows) h = elim (Bool-cases (q.id == i)) [
  | inl e ↦ let found : some q ≡ none = rw e at h in absurd (cc found)
  | inr e ↦ ((λ k. cc (e, (==_iff q.id i).1 k)), no_row i rows (rw e at h))
]

found_row :
    (i : ℕ) (rows : List SpeakerRow) (row : SpeakerRow)
    → speaker_by_id i rows ≡ some row
    → Memᴰ row rows
unfolding speaker_by_id
found_row i [] row h = absurd (cc h)
found_row i (q ∷ rows) row h = elim (Bool-cases (q.id == i)) [
  | inl e ↦ let same : some q ≡ some row = rw e at h in Memᴰ.head (sym (cc same))
  | inr e ↦ Memᴰ.tail (found_row i rows row (rw e at h))
]

abbrev named :
    (i : ℕ) (rows : List SpeakerRow) (row : SpeakerRow)
    → speaker_by_id i rows ≡ some row
    → Named i rows
named i rows row h = record {
  row = row;
  stored = found_row i rows row h;
  same_id = first_id i rows row h;
}

set_row-OnlySet :
    (i : ℕ) (role : SpeakerRole) (name : Option Text) (rows : List SpeakerRow)
    → Forall₂ (OnlySet i role name) rows (set_row i role name rows)
unfolding set_row overridden
set_row-OnlySet i role name [] = tt
set_row-OnlySet i role name (row ∷ rows) = (
  (
    (λ e. rw ((==_iff row.id i).1 e) refl),
    (λ n. elim (Bool-cases (row.id == i)) [
      | inl e ↦ absurd (n ((==_iff row.id i).0 e))
      | inr e ↦ rw e refl
    ]),
  ),
  set_row-OnlySet i role name rows,
)

set_row-twice :
    (i k : ℕ) (r q : SpeakerRole) (n m : Option Text) (rows : List SpeakerRow)
    → Forall₂
        (λ row new. (row.id ≡ i → new ≡ set_as r n row) × (row.id ≢ i → OnlySet k q m row new))
        rows
        (set_row i r n (set_row k q m rows))
unfolding set_row overridden
set_row-twice i k r q n m [] = tt
set_row-twice i k r q n m (row ∷ rows) = (
  elim (Bool-cases (row.id == i)) [
    | inl b ↦ (
      (λ e. elim (Bool-cases (row.id == k)) [ inl a ↦ rw (a, b) refl | inr a ↦ rw (a, b) refl ]),
      (λ d. absurd (d ((==_iff row.id i).0 b))),
    )
    | inr b ↦ (
      (λ e. absurd (cc (b, (==_iff row.id i).1 e))),
      (λ d. (
        (λ e. rw ((==_iff row.id k).1 e, b) refl),
        (λ c. elim (Bool-cases (row.id == k)) [
          | inl a ↦ absurd (c ((==_iff row.id k).0 a))
          | inr a ↦ rw (a, b) refl
        ]),
      )),
    )
  ],
  set_row-twice i k r q n m rows,
)

-- What a patch makes of the rows of the speakers: nothing, or the corrected rows.
unfoldable pub Outcome :
    SpeakerPatch → Option ℕ → List SpeakerRow → Option (List SpeakerRow) → Type 0
Outcome body o before none = Missing body before
Outcome body o before (some after) = Corrects body o before after

set_one :
    (body : SpeakerPatch) (rows : List SpeakerRow) (speaker : SpeakerRow)
    → speaker_by_id body.speaker_id rows ≡ some speaker
    → (role : SpeakerRole) (name : Option Text)
    → ((r : SpeakerRole) → body.role ≡ some r → role ≡ r)
    → (body.role ≡ none → role ≡ speaker.role)
    → ((t : Text) → body.display_name ≡ some t → name ≡ some t)
    → (body.display_name ≡ none → name ≡ speaker.display_name)
    → Set body rows (set_row speaker.id role name rows)
set_one body rows speaker h role name a b c d = record {
  speaker = named body.speaker_id rows speaker h;
  role = role;
  name = name;
  role_given = a;
  role_kept = b;
  name_given = c;
  name_kept = d;
  rows =
      subst (λ i. Forall₂ (OnlySet i role name) rows (set_row speaker.id role name rows))
        (first_id body.speaker_id rows speaker h) (set_row-OnlySet speaker.id role name rows);
}

swapped-Outcome :
    (body : SpeakerPatch) (rows : List SpeakerRow) (speaker : SpeakerRow) (k : ℕ)
    (o : Option SpeakerRow)
    → speaker_by_id body.speaker_id rows ≡ some speaker
    → body.swap_with ≡ some k
    → speaker_by_id k rows ≡ o
    → Outcome body (some k) rows (swapped speaker o rows)
unfolding swapped Outcome Corrects
swapped-Outcome body rows speaker k none h s p = inr (k, (s, no_row k rows p))
swapped-Outcome body rows speaker k (some partner) h s p = record {
  speaker = named body.speaker_id rows speaker h;
  partner = named k rows partner p;
  rows = exchanged (first_id body.speaker_id rows speaker h) (first_id k rows partner p);
}
  where
    exchanged :
        {i j : ℕ}
        → speaker.id ≡ i
        → partner.id ≡ j
        → Forall₂
            (λ row new.
              (row.id ≡ i → new ≡ set_as partner.role partner.display_name row)
              × (row.id ≢ i → OnlySet j speaker.role speaker.display_name row new))
            rows
            (set_row speaker.id partner.role partner.display_name
              (set_row partner.id speaker.role speaker.display_name rows))
    exchanged e d =
        rw (← e, ← d)
          (set_row-twice speaker.id partner.id partner.role speaker.role partner.display_name
            speaker.display_name rows)

patched_row-Outcome :
    (body : SpeakerPatch) (rows : List SpeakerRow) (speaker : SpeakerRow) (o : Option ℕ)
    → speaker_by_id body.speaker_id rows ≡ some speaker
    → body.swap_with ≡ o
    → Outcome body o rows (patched_row body speaker o rows)
unfolding patched_row
patched_row-Outcome body rows speaker (some k) h s =
    swapped-Outcome body rows speaker k (speaker_by_id k rows) h s refl
patched_row-Outcome body rows speaker none h s =
    unfold Outcome in
    unfold Corrects in
    set_one body rows speaker h (or_kept body.role speaker.role)
      (or_kept_name body.display_name speaker.display_name)
      (λ r e. ap (λ o. or_kept o speaker.role) e) (λ e. ap (λ o. or_kept o speaker.role) e)
      (λ t e. ap (λ o. or_kept_name o speaker.display_name) e)
      (λ e. ap (λ o. or_kept_name o speaker.display_name) e)

pub patched_rows-Outcome :
    (body : SpeakerPatch) (rows : List SpeakerRow)
    → Outcome body body.swap_with rows (patched_rows body rows)
unfolding patched_rows
patched_rows-Outcome body rows = from (speaker_by_id body.speaker_id rows) refl
  where
    from :
        (o : Option SpeakerRow)
        → speaker_by_id body.speaker_id rows ≡ o
        → Outcome body body.swap_with rows (patched_from body o rows)
    from none e = unfold patched_from in unfold Outcome in inl (no_row body.speaker_id rows e)
    from (some speaker) e =
        unfold patched_from in patched_row-Outcome body rows speaker body.swap_with e refl
