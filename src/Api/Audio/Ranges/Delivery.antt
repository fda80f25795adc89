-- ===== src/Api/Audio/Ranges/Delivery.antt =====
-- app/api/v1/audio.py: what a range request gets, by what its header asks for.
use deal_truth_api.Prelude.{
  ℕ, ◌+◌, ◌-◌, suc, ◌≡◌, ◌≢◌, ◌≤◌, ◌<◌, refl, ap, sym, ◌∙◌, inl, inr, Option, some, [], Text, take,
  drop, length, ltb, leb, ltb→lt, leb→le, ℤ, pos, negsuc, min, arith, Bool-cases, subst,
  if◌then◌else◌,
}
use deal_truth_api.Pipeline.Session.{Result, ok}
use deal_truth_api.Storage.Memory.{Bytes, Store, lookup_object}
use deal_truth_api.Api.Site.{AudioAsset}
use deal_truth_api.Api.Audio.{
  Range, unsatisfiable, part, last_byte, clipped, suffix_start, StreamOut, stream_asset, or_size,
  value_error,
}
use deal_truth_api.Api.Audio.Ranges.{
  Cut, Served, ServedAs, stream_asset-ranges, take_all, length-drop,
}
use deal_truth_api.Api.Audio.Ranges.Asked.{
  Asked, everything, unreadable, last_ones, onwards, between, asked, range_for, range_tuple-asked,
}

-- A response with a part of a recording: the range that it names, and its bytes, which its Content-Length
-- counts if there are any.
pub record Part (first : ℕ) (last : ℤ) (bytes : Bytes) (o : StreamOut) : Type 0 where
  pub status : o.status ≡ 206
  pub content_range : o.content_range ≡ some (first, last)
  pub body : o.body ≡ bytes
  pub counted : bytes ≢ [] → o.content_length ≡ some (pos (length bytes))

-- A response to a range from a byte on: there is such a byte, or the range is refused.
pub record From (size first : ℕ) (last : ℤ) (bytes : Bytes) (o : StreamOut) : Type 0 where
  pub outside : size ≤ first → (o.status ≡ 416) × (o.body ≡ [])
  pub within : first < size → Part first last bytes o

-- The response to a request that can be read.
pub Answers : Bytes → Asked → StreamOut → Type 0
Answers body everything o =
    (o.status ≡ 200) × (o.body ≡ body) × (o.content_length ≡ some (pos (length body)))
Answers body unreadable o = Unit → ⊥
Answers body (last_ones (pos n)) o =
    Part (length body - n) (pos (length body - 1)) (drop (length body - n) body) o
Answers body (last_ones (negsuc n)) o = Part (length body + suc n) (pos (length body - 1)) [] o
Answers body (onwards first) o =
    From (length body) first (pos (length body - 1)) (drop first body) o
Answers body (between first (pos last)) o =
    From (length body) first (pos (min last (length body - 1)))
      (take (suc last - first) (drop first body)) o
Answers body (between first (negsuc n)) o = From (length body) first (negsuc n) [] o

pub Delivers : Bytes → Asked → Result StreamOut → Type 0
Delivers body unreadable out = out ≡ value_error
Delivers body a out = (o : StreamOut) × ((out ≡ ok o) × Answers body a o)

-- The bytes of a part, both where its end is before its start and where it is not.
part-Part :
    (body : Bytes) (first last : ℕ) (o : StreamOut)
    → Served body (part first (pos last)) o
    → Part first (pos last) (take (suc last - first) (drop first body)) o
unfolding Served Cut
part-Part body first last o (status, range, below, (inverted, cut)) =
    elim (Bool-cases (leb first last)) [
      | inl b ↦
          let (bytes, count, full) = cut (leb→le first last b) in
          record {
            status = status;
            content_range = range;
            body = bytes;
            counted = λ k. rw (← bytes) count;
          }
      | inr b ↦
          let before : last < first = ground arith in
          let nothing : suc last - first ≡ 0 = omega arith in
          rw nothing (record {
            status = status;
            content_range = range;
            body = inverted before;
            counted = λ k. absurd (k refl);
          })
    ]

negative-Part :
    (body : Bytes) (first n : ℕ) (o : StreamOut)
    → Served body (part first (negsuc n)) o
    → Part first (negsuc n) [] o
unfolding Served Cut
negative-Part body first n o (status, range, below, nothing) = record {
  status = status;
  content_range = range;
  body = nothing;
  counted = λ k. absurd (k refl);
}

unserved :
    (body : Bytes) (r : Range) (out : Result StreamOut)
    → ServedAs body (ok r) out
    → (o : StreamOut) × ((out ≡ ok o) × Served body r o)
unfolding ServedAs
unserved body r out h = h

refused :
    (body : Bytes) (o : StreamOut) → Served body unsatisfiable o → (o.status ≡ 416) × (o.body ≡ [])
unfolding Served
refused body o h = h

take_enough : (n m : ℕ) (xs : Bytes) → length xs ≤ n → length xs ≤ m → take n xs ≡ take m xs
take_enough n m xs h k = take_all n xs h ∙ sym (take_all m xs k)

module _ (body : Bytes) (some_bytes : 0 < length body) (out : Result StreamOut) where
  last_pos : last_byte (length body) ≡ pos (length body - 1)
  last_pos = ground arith

  clipped-last : clipped (length body) (last_byte (length body)) ≡ pos (length body - 1)
  unfolding clipped
  clipped-last = rw last_pos (ground arith)

  clipped-pos : (n : ℕ) → clipped (length body) (pos n) ≡ pos (min n (length body - 1))
  unfolding clipped
  clipped-pos n = elim (Bool-cases (ltb n (length body))) [
    | inl b ↦ let less : n < length body = ltb→lt n (length body) b in rw b (ap pos (omega arith))
    | inr b ↦ let more : length body ≤ n = ground arith in rw b (last_pos ∙ ap pos (omega arith))
  ]

  -- A part with the bytes up to the last one.
  to_last :
      (first : ℕ) (o : StreamOut)
      → Served body (part first (pos (length body - 1))) o
      → Part first (pos (length body - 1)) (drop first body) o
  to_last first o h =
      subst (λ l. Part first (pos (length body - 1)) l o)
        (take_all (suc (length body - 1) - first) (drop first body)
          (omega (arith, length-drop first body)))
        (part-Part body first (length body - 1) o h)

  part_or_refused :
      (first : ℕ) (end last : ℤ) (bytes : Bytes)
      → ((o : StreamOut) → Served body (part first end) o → Part first last bytes o)
      → ServedAs body
          (if leb (length body) first then ok unsatisfiable else ok (part first end))
          out
      → (o : StreamOut) × ((out ≡ ok o) × From (length body) first last bytes o)
  part_or_refused first end last bytes h s = elim (Bool-cases (leb (length body) first)) [
    | inl b ↦
        let beyond : length body ≤ first = leb→le (length body) first b in
        let (o, (e, served)) = unserved body unsatisfiable out (rw b at s) in
        (
          o,
          (e, record { outside = λ k. refused body o served; within = λ k. absurd (omega arith) }),
        )
    | inr b ↦
        let before : first < length body = ground arith in
        let (o, (e, served)) = unserved body (part first end) out (rw b at s) in
        (o, (e, record { outside = λ k. absurd (omega arith); within = λ k. h o served }))
  ]

  up_to :
      (first last : ℕ) (o : StreamOut)
      → Served body (part first (clipped (length body) (pos last))) o
      → Part first (pos (min last (length body - 1))) (take (suc last - first) (drop first body)) o
  up_to first last o h =
      let same : take (suc (min last (length body - 1)) - first) (drop first body)
          ≡ take (suc last - first) (drop first body) =
        elim (Bool-cases (ltb last (length body))) [
          | inl b ↦
              let less : last < length body = ltb→lt last (length body) b in
              ap (λ k. take (suc k - first) (drop first body)) (omega arith)
          | inr b ↦
              let more : length body ≤ last = ground arith in
              take_enough (suc (min last (length body - 1)) - first) (suc last - first)
                (drop first body) (omega (arith, length-drop first body))
                (omega (arith, length-drop first body))
        ] in
      let cut =
        part-Part body first (min last (length body - 1)) o
          (subst (λ e. Served body (part first e) o) (clipped-pos last) h) in
      subst (λ l. Part first (pos (min last (length body - 1))) l o) same cut

  delivered : (a : Asked) → ServedAs body (range_for (length body) a) out → Delivers body a out
  unfolding range_for Delivers Answers
  delivered everything s = unfold ServedAs in unfold Served in s
  delivered unreadable s = unfold ServedAs in s
  delivered (last_ones (pos n)) s =
      let (o, (e, served)) =
        unserved body (part (length body - n) (last_byte (length body))) out
          (unfold suffix_start in s) in
      (
        o,
        (
          e,
          to_last (length body - n) o
              (subst (λ l. Served body (part (length body - n) l) o) last_pos served),
        ),
      )
  delivered (last_ones (negsuc n)) s =
      let first = length body + suc n in
      let (o, (e, served)) =
        unserved body (part first (last_byte (length body))) out (unfold suffix_start in s) in
      let gone : suc (length body - 1) - first ≡ 0 = omega arith in
      (
        o,
        (
          e,
          subst (λ l. Part first (pos (length body - 1)) l o)
              (ap (λ k. take k (drop first body)) gone)
              (part-Part body first (length body - 1) o
                (subst (λ l. Served body (part first l) o) last_pos served)),
        ),
      )
  delivered (onwards first) s =
      part_or_refused first (clipped (length body) (last_byte (length body)))
        (pos (length body - 1)) (drop first body)
        (λ o h. to_last first o (subst (λ e. Served body (part first e) o) clipped-last h)) s
  delivered (between first (pos last)) s =
      part_or_refused first (clipped (length body) (pos last)) (pos (min last (length body - 1)))
        (take (suc last - first) (drop first body)) (up_to first last) s
  delivered (between first (negsuc n)) s =
      part_or_refused first (clipped (length body) (negsuc n)) (negsuc n) []
        (λ o h. negative-Part body first n o (unfold clipped in h)) s

module _ (asset : AudioAsset) (store : Store) (body ctype : Bytes)
    (stored : lookup_object (asset.bucket, asset.object_key) store.objects ≡ some (body, ctype))
    (some_bytes : 0 < length body) where
  -- A request for a recording whose bytes are in the store gets, without a range, all of them, and, with
  -- a header whose numbers cannot be read, ValueError. If it asks for the last n bytes, it gets these,
  -- or all if there are no more, and none for a number below 0. If it asks for the bytes from one on, up
  -- to a last one or to the end, it gets the status 416 and no bytes where there is no such byte, and
  -- else those of these bytes that there are. A part has the status 206; its Content-Range names the
  -- first byte and the last one, which is cut to the end of the recording; and its Content-Length counts
  -- its bytes, if there are any.
  pub stream_asset-Delivers :
      (header : Option Text)
      → or_size asset.size_bytes (length body) ≡ length body
      → Delivers body (asked header) (stream_asset asset header store)
  stream_asset-Delivers header e =
      delivered body some_bytes (stream_asset asset header store) (asked header) (
        subst (λ r. ServedAs body r (stream_asset asset header store))
          (range_tuple-asked header (length body))
          (stream_asset-ranges asset store body ctype stored some_bytes header e))
