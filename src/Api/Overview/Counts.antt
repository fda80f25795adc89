-- ===== src/Api/Overview/Counts.antt =====
-- app/api/v1/calls.py: the counts of the overview.
use deal_truth_api.Prelude.{
  ℕ, ◌+◌, suc, ◌≡◌, refl, ap, sym, subst, ◌∙◌, Bool, true, false, List, [], ◌∷◌, length, arith,
  Bool-cases, inl, inr, if◌then◌else◌,
}
use deal_truth_api.Core.Enums.{
  CallStatus, shipped, partial, failed, cancelled, same_status, same_status→eq, is_terminal,
}
use deal_truth_api.Api.Overview.{
  ListedCall, StatusCounts, count_status, count_of, processing_of, counted_from, or_zero,
  calls_overview,
}

same_refl : (s : CallStatus) → same_status s s ≡ true
same_refl s = ground arith

same_from : (s t : CallStatus) → s ≡ t → same_status s t ≡ true
same_from s t e = subst (λ u. same_status s u ≡ true) e (same_refl s)

-- One entry of the counts, by the tests of its status.
entry_counted :
    (s t u : CallStatus) (n m k : ℕ)
    → m ≡ (if same_status t s then 1 else 0) + k
    → (a b c : Bool) → same_status u t ≡ a
    → same_status u s ≡ b
    → same_status t s ≡ c
    → (if a then (if b then suc n else k) else if b then n else m)
      ≡ (if c then 1 else 0) + (if b then n else k)
entry_counted s t u n m k h true true true p q r = omega arith
entry_counted s t u n m k h true false false p q r = omega arith
entry_counted s t u n m k h false true false p q r = omega arith
entry_counted s t u n m k h false false true p q r = subst (λ x. m ≡ (if x then 1 else 0) + k) r h
entry_counted s t u n m k h false false false p q r = subst (λ x. m ≡ (if x then 1 else 0) + k) r h
entry_counted s t u n m k h true true false p q r =
    absurd (cc (r, same_from t s (sym (same_status→eq u t p) ∙ same_status→eq u s q)))
entry_counted s t u n m k h true false true p q r =
    absurd (cc (q, same_from u s (same_status→eq u t p ∙ same_status→eq t s r)))
entry_counted s t u n m k h false true true p q r =
    absurd (cc (p, same_from u t (same_status→eq u s q ∙ sym (same_status→eq t s r))))

count_of-if :
    (s u : CallStatus) (n : ℕ) (a : Bool) (more rest : StatusCounts)
    → count_of s (if a then (u, suc n) ∷ rest else (u, n) ∷ more) ≡ (
        if a
        then (if same_status u s then suc n else count_of s rest)
        else if same_status u s
        then n
        else count_of s more)
unfolding count_of
count_of-if s u n true more rest = refl
count_of-if s u n false more rest = refl

count_of-count_status :
    (s t : CallStatus) (counts : StatusCounts)
    → count_of s (count_status t counts) ≡ (if same_status t s then 1 else 0) + count_of s counts
unfolding count_of count_status
count_of-count_status s t [] =
    elim (same_status t s) as (λ b. (if b then 1 else 0) ≡ (if b then 1 else 0) + 0) [
      | true ↦ refl
      | false ↦ refl
    ]
count_of-count_status s t ((u, n) ∷ rest) =
    count_of-if s u n (same_status u t) (count_status t rest) rest
    ∙ entry_counted s t u n (count_of s (count_status t rest)) (count_of s rest)
        (count_of-count_status s t rest) (same_status u t) (same_status u s) (same_status t s) refl
        refl refl

-- One more call, counted where its status is not terminal.
open_one : CallStatus → ℕ
open_one t = if is_terminal t then 0 else 1

processing-if :
    (t u : CallStatus) (n : ℕ) (rest more : StatusCounts) (a : Bool)
    → same_status u t ≡ a
    → processing_of more ≡ open_one t + processing_of rest
    → processing_of (if a then (u, suc n) ∷ rest else (u, n) ∷ more)
      ≡ open_one t + processing_of ((u, n) ∷ rest)
unfolding processing_of open_one
processing-if t u n rest more true p h =
    let same : is_terminal u ≡ is_terminal t = ap is_terminal (same_status→eq u t p) in
    elim (Bool-cases (is_terminal t)) [
      | inl e ↦ rw (same ∙ e, e) (omega arith)
      | inr e ↦ rw (same ∙ e, e) (omega arith)
    ]
processing-if t u n rest more false p h = elim (Bool-cases (is_terminal u)) [
  | inl e ↦ rw e h
  | inr e ↦ rw e (omega (arith, h))
]

processing_of-count_status :
    (t : CallStatus) (counts : StatusCounts)
    → processing_of (count_status t counts) ≡ open_one t + processing_of counts
unfolding processing_of count_status open_one
processing_of-count_status t [] =
    elim (is_terminal t) as (λ b. (if b then 0 else 1 + 0) ≡ (if b then 0 else 1) + 0) [
      | true ↦ refl
      | false ↦ refl
    ]
processing_of-count_status t ((u, n) ∷ rest) =
    processing-if t u n rest (count_status t rest) (same_status u t) refl
      (processing_of-count_status t rest)

-- All calls of the counts, by what the overview says of them.
abbrev all_of : StatusCounts → ℕ
all_of counts =
    count_of shipped counts
    + count_of partial counts
    + count_of failed counts
    + count_of cancelled counts
    + processing_of counts

-- Every status is one of the four terminal ones, or none of them.
once :
    (t : CallStatus)
    → (if same_status t shipped then 1 else 0)
        + (if same_status t partial then 1 else 0)
        + (if same_status t failed then 1 else 0)
        + (if same_status t cancelled then 1 else 0)
        + open_one t
      ≡ 1
unfolding open_one
once t = ground arith

all_of-count_status :
    (t : CallStatus) (counts : StatusCounts) → all_of (count_status t counts) ≡ suc (all_of counts)
all_of-count_status t counts = omega (
  arith,
  count_of-count_status shipped t counts,
  count_of-count_status partial t counts,
  count_of-count_status failed t counts,
  count_of-count_status cancelled t counts,
  processing_of-count_status t counts,
  once t,
)

counted_from-all :
    (counts : StatusCounts) (total : ℕ) (rows : List ListedCall)
    → all_of (counted_from (counts, total) rows).0 ≡ all_of counts + length rows
unfolding counted_from
counted_from-all counts total [] = omega arith
counted_from-all counts total (c ∷ rest) = omega (
  arith,
  counted_from-all (count_status c.status counts) (total + or_zero c.duration_ms) rest,
  all_of-count_status c.status counts,
)

-- In the overview of any calls each is counted once: the shipped, the partial, the failed, the cancelled and
-- those in processing are as many as there are calls.
pub calls_overview_total :
    (rows : List ListedCall)
    → (let o = calls_overview rows in
        o.shipped_calls + o.partial_calls + o.failed_calls + o.cancelled_calls + o.processing
        ≡ o.total_calls)
unfolding calls_overview
calls_overview_total rows =
    counted_from-all [] 0 rows ∙ (unfold count_of in unfold processing_of in omega arith)
