-- ===== src/Api/Events/Closing.antt =====
-- app/api/v1/calls.py: how the stream of the events of a call ends.
use deal_truth_api.Prelude.{
  ℕ, ◌+◌, ◌*◌, zero, suc, ◌≡◌, ◌≤◌, ◌<◌, ◌==◌, ==_iff, false, subst, refl, ap, sym, ◌∙◌, true,
  Option, none, some, List, [], ◌∷◌, ◌++◌, All, All-append, Bool-cases, inl, inr, ltb, ltb→lt,
  arith, append_assoc, keep, leb,
}
use deal_truth_api.Core.Enums.{CallStatus, is_terminal}
use deal_truth_api.Api.Events.{
  Frame, not_found, processing, terminal, keepalive, timeout, Knobs, Snapshot, Stamped, is_new,
  after_rows, frames_of, keepalives, due, Stream, prepend, spent, polled, stream_from,
  stream_events,
}

-- A frame after which the stream goes on.
abbrev pub Open : Frame → Type 0
Open keepalive = Unit
Open (processing status e) = Unit
Open _ = Unit → ⊥

frames_of-Open : (status : CallStatus) (rows : List Stamped) → All Open (frames_of status rows)
unfolding frames_of
frames_of-Open status [] = tt
frames_of-Open status (row ∷ rows) = (tt, frames_of-Open status rows)

keepalives-Open :
    (fuel interval elapsed next : ℕ) → All Open (keepalives fuel interval elapsed next).0
unfolding keepalives
keepalives-Open zero interval elapsed next = tt
keepalives-Open (suc fuel) interval elapsed next = elim (Bool-cases (leb next elapsed)) [
  | inl e ↦ rw e (tt, keepalives-Open fuel interval elapsed (next + interval))
  | inr e ↦ rw e tt
]

due-Open : (interval elapsed next : ℕ) → All Open (due interval elapsed next).0
unfolding due
due-Open zero elapsed next = tt
due-Open (suc interval) elapsed next = keepalives-Open (suc elapsed) (suc interval) elapsed next

module _ (knobs : Knobs) (snapshots : ℕ → Snapshot) where
  -- What the last frame says of the poll that it comes from: the call is gone; or its status is terminal
  -- and the time is not up; or the time is up.
  pub Closing : ℕ → Frame → Type 0
  Closing n not_found = snapshots n ≡ none
  Closing n (terminal status) =
      (n * knobs.poll_interval < knobs.idle_budget)
      × (is_terminal status ≡ true)
      × ((rows : List Stamped) × (snapshots n ≡ some (status, rows)))
  Closing n (timeout after status) =
      (knobs.idle_budget ≤ n * knobs.poll_interval)
      × ((rows : List Stamped) × (snapshots n ≡ some (status, rows)))
  Closing n _ = Unit → ⊥

  -- A poll that the stream goes on after: the time is not up, and the call is there and not finished.
  pub record GoesOn (n : ℕ) : Type 0 where
    pub in_time : n * knobs.poll_interval < knobs.idle_budget
    pub status : CallStatus
    pub rows : List Stamped
    pub seen : snapshots n ≡ some (status, rows)
    pub unfinished : is_terminal status ≡ false

  -- The stream that polls from some number on came to its end: its last frame, and no other, says so, and
  -- comes from the first poll that it does not go on after.
  pub record Ended (from : ℕ) (s : Stream) : Type 0 where
    pub front : List Frame
    pub last : Frame
    pub frames : s.0 ≡ front ++ last ∷ []
    pub ended : s.1 ≡ true
    pub open_front : All Open front
    pub poll : ℕ
    pub closing : Closing poll last
    pub earlier : (m : ℕ) → from ≤ m → m < poll → GoesOn m

  -- It ends with the poll that it begins with.
  at_once :
      (n : ℕ) (front : List Frame) (last : Frame)
      → All Open front
      → Closing n last
      → Ended n (front ++ last ∷ [], true)
  at_once n front last h c = record {
    front = front;
    last = last;
    frames = refl;
    ended = refl;
    open_front = h;
    poll = n;
    closing = c;
    earlier = λ m a b. absurd (omega arith);
  }

  prepend-Ended :
      (n : ℕ) (fs : List Frame) (s : Stream) → All Open fs → Ended n s → Ended n (prepend fs s)
  prepend-Ended n fs s h e = record {
    front = fs ++ e.front;
    last = e.last;
    frames =
        ap (λ (l : List Frame). fs ++ l) e.frames ∙ sym (append_assoc fs e.front (e.last ∷ []));
    ended = e.ended;
    open_front = All-append Open fs e.front h e.open_front;
    poll = e.poll;
    closing = e.closing;
    earlier = e.earlier;
  }

  one_more : (n : ℕ) (s : Stream) → GoesOn n → Ended (suc n) s → Ended n s
  one_more n s g e = record {
    front = e.front;
    last = e.last;
    frames = e.frames;
    ended = e.ended;
    open_front = e.open_front;
    poll = e.poll;
    closing = e.closing;
    earlier = λ m a b. elim (Bool-cases (n == m)) [
      | inl same ↦ subst GoesOn ((==_iff n m).0 same) g
      | inr other ↦ e.earlier m (ground arith) b
    ];
  }

  spent-Ended :
      (n : ℕ) (after : Option ℕ) (snap : Snapshot)
      → snapshots n ≡ snap
      → knobs.idle_budget ≤ n * knobs.poll_interval
      → Ended n (spent after snap)
  unfolding spent Closing
  spent-Ended n after none e h = at_once n [] not_found tt e
  spent-Ended n after (some (status, rows)) e h =
      at_once n [] (timeout after status) tt (h, (rows, e))

  polled-Ended :
      (n elapsed next : ℕ) (after : Option ℕ) (snap : Snapshot) (again : ℕ → Option ℕ → Stream)
      → snapshots n ≡ snap
      → n * knobs.poll_interval < knobs.idle_budget
      → ((later : ℕ) (last : Option ℕ) → Ended (suc n) (again later last))
      → Ended n (polled knobs elapsed next after snap again)
  unfolding polled Closing
  polled-Ended n elapsed next after none again e t h = at_once n [] not_found tt e
  polled-Ended n elapsed next after (some (status, rows)) again e t h =
      let fresh = keep (is_new after) rows in
      elim (Bool-cases (is_terminal status)) [
        | inl d ↦ rw d (
            at_once n (frames_of status fresh) (terminal status) (frames_of-Open status fresh)
              (t, d, (rows, e)))
        | inr d ↦ rw d (
            prepend-Ended n (frames_of status fresh) _ (frames_of-Open status fresh) (
              prepend-Ended n (due knobs.keepalive_interval elapsed next).0 _
                (due-Open knobs.keepalive_interval elapsed next)
                (one_more n _
                  (record { in_time = t; status = status; rows = rows; seen = e; unfinished = d })
                  (h _ (after_rows after fresh)))))
      ]

  stream_from-Ended :
      (fuel n elapsed next : ℕ) (after : Option ℕ)
      → elapsed ≡ n * knobs.poll_interval
      → 0 < knobs.poll_interval
      → 0 < fuel
      → knobs.idle_budget < elapsed + fuel
      → Ended n (stream_from fuel knobs snapshots n elapsed next after)
  unfolding stream_from
  stream_from-Ended zero n elapsed next after e p f h = absurd (omega arith)
  stream_from-Ended (suc fuel) n elapsed next after e p f h =
      elim (Bool-cases (ltb elapsed knobs.idle_budget)) [
        | inl b ↦
            let more : elapsed < knobs.idle_budget = ltb→lt elapsed knobs.idle_budget b in
            rw b (
              polled-Ended n (elapsed + knobs.poll_interval) next after (snapshots n) _ refl
                (omega arith)
                (λ later last.
                  stream_from-Ended fuel (suc n) (elapsed + knobs.poll_interval) later last
                    (omega arith) p (omega arith) (omega arith)))
        | inr b ↦ rw b (spent-Ended n after (snapshots n) refl (ground arith))
      ]

-- Whatever the polls of a stream read, it comes to its end, and says how in its last frame and in no other.
-- That frame comes from the first poll at which the call is gone, has a terminal status, or the time is up,
-- which is when the intervals of the polls before it reach the budget: where the call is gone it says so;
-- else it names the status of the call at this poll, as a terminal one if the time is not up, and as a
-- timeout if it is.
pub stream_events-Ended :
    (knobs : Knobs) (snapshots : ℕ → Snapshot) (after : Option ℕ)
    → 0 < knobs.poll_interval
    → Ended knobs snapshots 0 (stream_events knobs snapshots after)
unfolding stream_events
stream_events-Ended knobs snapshots after p =
    stream_from-Ended knobs snapshots (suc knobs.idle_budget) 0 0 knobs.keepalive_interval after
      (omega arith) p (omega arith) (omega arith)
