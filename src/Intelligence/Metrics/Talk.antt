-- ===== src/Intelligence/Metrics/Talk.antt =====
-- app/intelligence/metrics.py: what is added up over the segments.
use deal_truth_api.Prelude.{
  ℕ, zero, suc, ◌+◌, ◌*◌, ◌/◌, ◌%◌, ◌==◌, ◌≤◌, ◌<◌, ◌≡◌, refl, ◌∙◌, Bool, true, false, Option, List,
  [], ◌∷◌, Bool-cases, inl, inr, arith, ltb, ltb→lt, if◌then◌else◌,
}
use deal_truth_api.Core.Enums.{SpeakerRole, same_role}
use deal_truth_api.Intelligence.Domain.{Segment}
use deal_truth_api.Intelligence.Metrics.{
  earlier, insert_ordered, in_order, ByRole, add_role, no_one, spoken_ms, speaking_from, total_of,
  is_question, Questions, asked_by, questions_from, TrackedTerm, compute_metrics, talk_ratio,
  rounded,
}

-- The time that the segments take, added up.
pub spoken_total : List Segment → ℕ
spoken_total [] = 0
spoken_total (s ∷ rest) = spoken_ms s + spoken_total rest

-- The time that the segments of one role take.
pub spoken_by : SpeakerRole → List Segment → ℕ
spoken_by r [] = 0
spoken_by r (s ∷ rest) = (if same_role s.speaker_role r then spoken_ms s else 0) + spoken_by r rest

-- The entry of a role.
abbrev pub entry : SpeakerRole → ByRole → ℕ
entry SpeakerRole.seller b = b.seller
entry SpeakerRole.customer b = b.customer
entry SpeakerRole.unknown b = b.unknown

-- A share of a total in ten-thousandths is the nearest one: it is off by no more than a half.
abbrev pub Nearest : ℕ → ℕ → ℕ → Type 0
Nearest part total ratio =
    (2 * (ratio * total) ≤ 2 * (part * 10000) + total)
    × (2 * (part * 10000) ≤ 2 * (ratio * total) + total)

-- The number of the questions.
pub question_total : List Segment → ℕ
question_total [] = 0
question_total (s ∷ rest) = (if is_question s then 1 else 0) + question_total rest

module _ (f : List Segment → ℕ) (g : Segment → ℕ)
    (cons : (s : Segment) (l : List Segment) → f (s ∷ l) ≡ g s + f l) where
  sum-insert : (s : Segment) (l : List Segment) → f (insert_ordered s l) ≡ g s + f l
  unfolding insert_ordered
  sum-insert s [] = cons s []
  sum-insert s (t ∷ rest) = elim (Bool-cases (earlier t s)) [
    | inl e ↦ rw e (omega (arith, cons t (insert_ordered s rest), sum-insert s rest, cons t rest))
    | inr e ↦ rw e (cons s (t ∷ rest))
  ]

  sum-in_order : (l : List Segment) → f (in_order l) ≡ f l
  unfolding in_order
  sum-in_order [] = refl
  sum-in_order (s ∷ rest) =
      omega (arith, sum-insert s (in_order rest), sum-in_order rest, cons s rest)

add_role-total : (r : SpeakerRole) (n : ℕ) (b : ByRole) → total_of (add_role r n b) ≡ total_of b + n
unfolding add_role total_of
add_role-total SpeakerRole.seller n b = omega arith
add_role-total SpeakerRole.customer n b = omega arith
add_role-total SpeakerRole.unknown n b = omega arith

add_role-entry :
    (r q : SpeakerRole) (n : ℕ) (b : ByRole)
    → entry r (add_role q n b) ≡ entry r b + (if same_role q r then n else 0)
unfolding add_role
add_role-entry r q n b = ground arith

speaking_from-entry :
    (r : SpeakerRole) (b : ByRole) (l : List Segment)
    → entry r (speaking_from b l) ≡ entry r b + spoken_by r l
unfolding speaking_from spoken_by
speaking_from-entry r b [] = omega arith
speaking_from-entry r b (s ∷ rest) = omega (
  arith,
  speaking_from-entry r (add_role s.speaker_role (spoken_ms s) b) rest,
  add_role-entry r s.speaker_role (spoken_ms s) b,
)

-- A quotient that is rounded down where the remainder is at most half, and else up.
Halved : ℕ → ℕ → ℕ → Type 0
Halved a n m = (2 * (m * n) ≤ 2 * a + n) × (2 * a ≤ 2 * (m * n) + n)

rounded-Halved : (a n : ℕ) → 0 < n → Halved a n (rounded a n)
unfolding rounded Halved
rounded-Halved a n h =
    let whole : a / n * n + a % n ≡ a = omega arith in
    let small : a % n < n = omega arith in
    go (a / n) (a % n) whole small (ltb (2 * (a % n)) n) (ltb n (2 * (a % n))) (a / n % 2 == 0) refl
      refl
  where
    go :
        (q r : ℕ)
        → q * n + r ≡ a
        → r < n
        → (b c d : Bool) → ltb (2 * r) n ≡ b
        → ltb n (2 * r) ≡ c
        → Halved a n (if b then q else if c then q + 1 else if d then q else q + 1)
    go q r e s true c d p o = let less : 2 * r < n = ltb→lt _ _ p in (omega arith, omega arith)
    go q r e s false true d p o = let more : n < 2 * r = ltb→lt _ _ o in (grind arith, grind arith)
    go q r e s false false true p o =
        let half : 2 * r ≡ n = ground arith in (omega arith, omega arith)
    go q r e s false false false p o =
        let half : 2 * r ≡ n = ground arith in (grind arith, grind arith)

speaking_from-total :
    (b : ByRole) (l : List Segment) → total_of (speaking_from b l) ≡ total_of b + spoken_total l
unfolding speaking_from spoken_total
speaking_from-total b [] = omega arith
speaking_from-total b (s ∷ rest) = omega (
  arith,
  speaking_from-total (add_role s.speaker_role (spoken_ms s) b) rest,
  add_role-total s.speaker_role (spoken_ms s) b,
)

asked_by-total :
    (b : Bool) (s : Segment) (q : Questions)
    → total_of q.per_speaker ≡ q.count
    → ((asked_by b s q).count ≡ q.count + (if b then 1 else 0))
      × (total_of (asked_by b s q).per_speaker ≡ (asked_by b s q).count)
unfolding asked_by
asked_by-total false s q h = (omega arith, h)
asked_by-total true s q h = (refl, omega (arith, add_role-total s.speaker_role 1 q.per_speaker))

questions_from-total :
    (q : Questions) (l : List Segment)
    → total_of q.per_speaker ≡ q.count
    → ((questions_from q l).count ≡ q.count + question_total l)
      × (total_of (questions_from q l).per_speaker ≡ (questions_from q l).count)
unfolding questions_from question_total
questions_from-total q [] h = (omega arith, h)
questions_from-total q (s ∷ rest) h =
    let (one, same) = asked_by-total (is_question s) s q h in
    let (count, all) = questions_from-total (asked_by (is_question s) s q) rest same in
    (omega arith, all)

no_one-more : {n m : ℕ} → n ≡ total_of no_one + m → n ≡ m
unfolding total_of
no_one-more h = omega arith

nothing-more : (r : SpeakerRole) {n m : ℕ} → n ≡ entry r no_one + m → n ≡ m
nothing-more SpeakerRole.seller h = omega arith
nothing-more SpeakerRole.customer h = omega arith
nothing-more SpeakerRole.unknown h = omega arith

-- The ratios are of the total that the entries add up to.
talk_ratio-Nearest :
    (r : SpeakerRole) (b : ByRole)
    → (0 < total_of b → Nearest (entry r b) (total_of b) (entry r (talk_ratio b).ratio))
      × (total_of b ≡ 0 → entry r (talk_ratio b).ratio ≡ 0)
unfolding talk_ratio
talk_ratio-Nearest r b = go r (total_of b) refl
  where
    go :
        (r : SpeakerRole) (n : ℕ)
        → total_of b ≡ n
        → (0 < n → Nearest (entry r b) n (entry r (talk_ratio b).ratio))
          × (n ≡ 0 → entry r (talk_ratio b).ratio ≡ 0)
    go SpeakerRole.seller zero e =
        let silent : b.seller ≡ 0 = unfold total_of in omega arith in
        ((λ k. absurd (omega arith)), λ k. rw (e, silent) (unfold rounded in refl))
    go SpeakerRole.customer zero e =
        let silent : b.customer ≡ 0 = unfold total_of in omega arith in
        ((λ k. absurd (omega arith)), λ k. rw (e, silent) (unfold rounded in refl))
    go SpeakerRole.unknown zero e =
        let silent : b.unknown ≡ 0 = unfold total_of in omega arith in
        ((λ k. absurd (omega arith)), λ k. rw (e, silent) (unfold rounded in refl))
    go SpeakerRole.seller (suc n) e = (
      (λ k. unfold Halved in rw e (rounded-Halved (b.seller * 10000) (suc n) k)),
      λ k. absurd (omega arith),
    )
    go SpeakerRole.customer (suc n) e = (
      (λ k. unfold Halved in rw e (rounded-Halved (b.customer * 10000) (suc n) k)),
      λ k. absurd (omega arith),
    )
    go SpeakerRole.unknown (suc n) e = (
      (λ k. unfold Halved in rw e (rounded-Halved (b.unknown * 10000) (suc n) k)),
      λ k. absurd (omega arith),
    )

-- Whatever the order of the segments, the time of each role is that of its segments, and the total that of
-- all. Where the total is not 0, the ratio of each role is its part of the total to the nearest
-- ten-thousandth, and where the total is 0, it is 0. The questions of the roles add up to the number of the
-- segments that ask one.
pub compute_metrics_totals :
    (segments : List Segment) (duration_ms : Option ℕ) (terms : List TrackedTerm) (r : SpeakerRole)
    → (let m = compute_metrics segments duration_ms terms in
        (entry r m.talk.by_role_ms ≡ spoken_by r segments)
        × (m.talk.total_speaking_ms ≡ spoken_total segments)
        × (0 < spoken_total segments
            → Nearest (spoken_by r segments) (spoken_total segments) (entry r m.talk.ratio))
        × (spoken_total segments ≡ 0 → entry r m.talk.ratio ≡ 0)
        × (total_of m.questions.per_speaker ≡ question_total segments)
        × (m.questions.count ≡ question_total segments))
unfolding compute_metrics
compute_metrics_totals segments duration_ms terms r =
    let ordered = in_order segments in
    let times = speaking_from no_one ordered in
    let spoken : total_of times ≡ spoken_total segments =
      no_one-more (speaking_from-total no_one ordered)
      ∙ sum-in_order spoken_total spoken_ms (λ s l. unfold spoken_total in refl) segments in
    let own : entry r times ≡ spoken_by r segments =
      nothing-more r (speaking_from-entry r no_one ordered)
      ∙ sum-in_order (spoken_by r)
          (λ (s : Segment). if same_role s.speaker_role r then spoken_ms s else 0)
          (λ s l. unfold spoken_by in refl) segments in
    let (nearest, none_spoken) = talk_ratio-Nearest r times in
    let (count, all) =
      questions_from-total (record { count = 0; per_speaker = no_one }) ordered
        (unfold total_of in refl) in
    let sorted =
      sum-in_order question_total (λ (s : Segment). if is_question s then 1 else 0)
        (λ s l. unfold question_total in refl) segments in
    let asked : (questions_from (record { count = 0; per_speaker = no_one }) ordered).count
        ≡ question_total segments =
      omega (arith, count, sorted) in
    (
      by_role times ∙ own,
      total_ms times ∙ spoken,
      rw (← own, ← spoken) nearest,
      rw (← spoken) none_spoken,
      all ∙ asked,
      asked,
    )
  where
    by_role : (b : ByRole) → entry r (talk_ratio b).by_role_ms ≡ entry r b
    by_role b = unfold talk_ratio in refl

    total_ms : (b : ByRole) → (talk_ratio b).total_speaking_ms ≡ total_of b
    total_ms b = unfold talk_ratio in refl
