-- ===== src/Intelligence/Speakers/Roles.antt =====
-- app/intelligence/speakers.py: the roles that a mono recording gives.
use mathlib.Core.List.{Permᴰ}
use mathlib.Core.List.Permᴰ
use deal_truth_api.Prelude.{
  ◌≡◌, refl, ap, true, false, Option, List, [], ◌∷◌, Text, All, map, if_elim, Bool-cases, ◌+◌, ◌≤◌,
  inl, inr, arith, All-map, Pairwise,
}
use deal_truth_api.Core.Enums.{CallDirection, SpeakerRole}
use deal_truth_api.Providers.Normalized.{NormalizedSegment, NormalizedSpeaker}
use deal_truth_api.Intelligence.Speakers.{
  Resolved, Scored, above, insert_scored, sort_scored, rest_unknown, assign, score_of, mono,
}

insert_scored-Permᴰ :
    (s : Scored) (scored : List Scored) → Permᴰ (insert_scored s scored) (s ∷ scored)
unfolding insert_scored
insert_scored-Permᴰ s [] = Permᴰ.refl (s ∷ [])
insert_scored-Permᴰ s (t ∷ rest) =
    if_elim (λ l. Permᴰ l (s ∷ t ∷ rest)) (above t s)
      (Permᴰ.trans (Permᴰ.cons refl (insert_scored-Permᴰ s rest)) (Permᴰ.swap refl refl))
      (Permᴰ.refl (s ∷ t ∷ rest))

sort_scored-Permᴰ : (scored : List Scored) → Permᴰ (sort_scored scored) scored
unfolding sort_scored
sort_scored-Permᴰ [] = Permᴰ.nil
sort_scored-Permᴰ (s ∷ rest) =
    Permᴰ.trans (insert_scored-Permᴰ s (sort_scored rest))
      (Permᴰ.cons refl (sort_scored-Permᴰ rest))

-- The second does not score above the first.
abbrev pub Leads : Scored → Scored → Type 0
Leads s t = t.for_seller + s.against ≤ s.for_seller + t.against

insert_All :
    (q s : Scored) (scored : List Scored)
    → Leads q s
    → All (Leads q) scored
    → All (Leads q) (insert_scored s scored)
unfolding insert_scored
insert_All q s [] h hs = (h, tt)
insert_All q s (t ∷ rest) h hs =
    if_elim (All (Leads q)) (above t s) (hs.0, insert_All q s rest h hs.1) (h, hs)

Leads-weaken : (s t q : Scored) → Leads s t → Leads t q → Leads s q
unfolding above
Leads-weaken s t q h k = omega arith

above-Leads : (s t : Scored) → above s t ≡ true → Leads s t
unfolding above
above-Leads s t h = ground arith

not_above : (s t : Scored) → above t s ≡ false → Leads s t
unfolding above
not_above s t h = ground arith

insert_ordered :
    (s : Scored) (scored : List Scored)
    → Pairwise Leads scored
    → Pairwise Leads (insert_scored s scored)
unfolding insert_scored
insert_ordered s [] h = (tt, tt)
insert_ordered s (t ∷ rest) h = elim (Bool-cases (above t s)) [
  | inl e ↦ rw e (insert_All t s rest (above-Leads t s e) h.0, insert_ordered s rest h.1)
  | inr e ↦
      let first : Leads s t = not_above s t e in
      rw e ((first, All-map (λ q k. Leads-weaken s t q first k) rest h.0), h)
]

sort_scored_ordered : (scored : List Scored) → Pairwise Leads (sort_scored scored)
unfolding sort_scored
sort_scored_ordered [] = tt
sort_scored_ordered (s ∷ rest) = insert_ordered s (sort_scored rest) (sort_scored_ordered rest)

-- The roles in order: the first is the seller, the second the customer, every other is unknown.
abbrev pub role_at : List Resolved → List SpeakerRole
role_at rs = map (λ (r : Resolved). r.role) rs

pub unknowns : List Scored → List SpeakerRole
unknowns [] = []
unknowns (s ∷ rest) = SpeakerRole.unknown ∷ unknowns rest

pub expected_roles : List Scored → List SpeakerRole
expected_roles [] = []
expected_roles (s ∷ []) = SpeakerRole.seller ∷ []
expected_roles (s ∷ c ∷ rest) = SpeakerRole.seller ∷ SpeakerRole.customer ∷ unknowns rest

rest_unknown-speakers :
    (scored : List Scored)
    → (map (λ (r : Resolved). r.speaker) (rest_unknown scored)
        ≡ map (λ (s : Scored). s.speaker) scored)
      × (role_at (rest_unknown scored) ≡ unknowns scored)
unfolding rest_unknown unknowns
rest_unknown-speakers [] = (refl, refl)
rest_unknown-speakers (s ∷ rest) =
    let (speakers, roles) = rest_unknown-speakers rest in
    (
      ap (λ (l : List NormalizedSpeaker). s.speaker ∷ l) speakers,
      ap (λ (l : List SpeakerRole). SpeakerRole.unknown ∷ l) roles,
    )

assign_lem :
    (scored : List Scored) (customer_name rep_name : Option Text)
    → (map (λ (r : Resolved). r.speaker) (assign scored customer_name rep_name)
        ≡ map (λ (s : Scored). s.speaker) scored)
      × (role_at (assign scored customer_name rep_name) ≡ expected_roles scored)
unfolding assign expected_roles
assign_lem [] customer_name rep_name = (refl, refl)
assign_lem (s ∷ []) customer_name rep_name = (refl, refl)
assign_lem (s ∷ c ∷ rest) customer_name rep_name =
    let (speakers, roles) = rest_unknown-speakers rest in
    (
      ap (λ (l : List NormalizedSpeaker). s.speaker ∷ c.speaker ∷ l) speakers,
      ap (λ (l : List SpeakerRole). SpeakerRole.seller ∷ SpeakerRole.customer ∷ l) roles,
    )

-- How a mono recording is resolved: `scored` are the speakers with their scores, each once and the
-- highest first; the first is the seller, the second the customer, and every other unknown.
pub record Ranked (segments : List NormalizedSegment) (direction : CallDirection)
    (speakers : List NormalizedSpeaker) (resolved : List Resolved) : Type 0 where
  pub scored : List Scored
  pub each_once : Permᴰ scored (map (score_of segments direction) speakers)
  pub highest_first : Pairwise Leads scored
  pub in_order : map (λ (r : Resolved). r.speaker) resolved ≡ map (λ (s : Scored). s.speaker) scored
  pub roles : role_at resolved ≡ expected_roles scored

-- In a mono recording every speaker is resolved once, in the order of the scores, the highest first:
-- the first is the seller, the second the customer, and every other unknown.
pub mono-Ranked :
    (speakers : List NormalizedSpeaker) (segments : List NormalizedSegment)
    (direction : CallDirection) (customer_name rep_name : Option Text)
    → Ranked segments direction speakers (mono speakers segments direction customer_name rep_name)
unfolding mono
mono-Ranked speakers segments direction customer_name rep_name =
    let scored = map (score_of segments direction) speakers in
    let (in_order, roles) = assign_lem (sort_scored scored) customer_name rep_name in
    record {
      scored = sort_scored scored;
      each_once = sort_scored-Permᴰ scored;
      highest_first = sort_scored_ordered scored;
      in_order = in_order;
      roles = roles;
    }
