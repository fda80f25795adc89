-- ===== src/Api/Audio/Ranges.antt =====
-- app/api/v1/audio.py: the bytes that a range gets, from the store in memory.
pub mod Asked
pub mod Delivery
use deal_truth_api.Prelude.{
  ℕ, ◌-◌, zero, suc, ◌≡◌, ◌≤◌, ◌<◌, refl, ap, sym, ◌∙◌, inl, inr, Option, none, some, [], ◌∷◌, Text,
  take, drop, length, ltb, leb, ltb→lt, ℤ, pos, negsuc, sub_ℕ, arith, Bool-cases, if_elim, not,
  starts_with, codes,
}
use deal_truth_api.Pipeline.Session.{Result, ok, err}
use deal_truth_api.Storage.Memory.{
  Bytes, Store, lookup_object, lookup_blob, slice, min_end, blob_object, download_stream,
}
use deal_truth_api.Api.Site.{AudioAsset}
use deal_truth_api.Api.Audio.{
  Range, whole, unsatisfiable, part, last_byte, clipped, suffix_range, first_range, range_of,
  range_tuple, StreamOut, span, stream_range, stream_asset, or_size, with_range, int_of, end_of,
  partition, range_spec, or_empty,
}

length-take : (n : ℕ) (xs : Bytes) → n ≤ length xs → length (take n xs) ≡ n
length-take zero xs h = refl
length-take (suc n) [] h = omega arith
length-take (suc n) (x ∷ xs) h = ap suc (length-take n xs (omega arith))

length-drop : (n : ℕ) (xs : Bytes) → length (drop n xs) ≡ length xs - n
length-drop zero xs = omega arith
length-drop (suc n) [] = omega arith
length-drop (suc n) (x ∷ xs) = omega (arith, length-drop n xs)

take_all : (n : ℕ) (xs : Bytes) → length xs ≤ n → take n xs ≡ xs
take_all zero [] h = refl
take_all zero (x ∷ xs) h = absurd (omega arith)
take_all (suc n) [] h = refl
take_all (suc n) (x ∷ xs) h = ap (λ (l : Bytes). x ∷ l) (take_all n xs (omega arith))

-- The end is within the recording, or before it.
abbrev Below : ℕ → ℤ → Type 0
Below size (negsuc n) = Unit
Below size (pos e) = e < size

-- The ranges that are found in a header end within the recording.
abbrev Fits : ℕ → Result Range → Type 0
Fits size (err e) = Unit
Fits size (ok whole) = Unit
Fits size (ok unsatisfiable) = Unit
Fits size (ok (part start end)) = Below size end

last_byte-Below : (size : ℕ) → 0 < size → Below size (last_byte size)
last_byte-Below size h = ground arith

clipped-Below : (size : ℕ) (end : ℤ) → 0 < size → Below size (clipped size end)
unfolding clipped
clipped-Below size (negsuc n) h = tt
clipped-Below size (pos e) h = elim (Bool-cases (ltb e size)) [
  | inl b ↦ rw b (ltb→lt e size b)
  | inr b ↦ rw b (last_byte-Below size h)
]

suffix_range-Fits : (size : ℕ) (n : Option ℤ) → 0 < size → Fits size (suffix_range size n)
unfolding suffix_range
suffix_range-Fits size none h = tt
suffix_range-Fits size (some n) h = last_byte-Below size h

first_range-Fits :
    (size : ℕ) (start end : Option ℤ) → 0 < size → Fits size (first_range size start end)
unfolding first_range
first_range-Fits size none end h = tt
first_range-Fits size (some (negsuc n)) end h = tt
first_range-Fits size (some (pos start)) none h = tt
first_range-Fits size (some (pos start)) (some end) h =
    if_elim (Fits size) (leb size start) tt (clipped-Below size end h)

range_of-Fits : (size : ℕ) (spec : Text × Text) → 0 < size → Fits size (range_of size spec)
unfolding range_of
range_of-Fits size ([], end_s) h = suffix_range-Fits size (int_of end_s) h
range_of-Fits size (c ∷ s, end_s) h = first_range-Fits size (int_of (c ∷ s)) (end_of size end_s) h

range_tuple-Fits :
    (header : Option Text) (size : ℕ) → 0 < size → Fits size (range_tuple header size)
unfolding range_tuple
range_tuple-Fits header size h =
    if_elim (Fits size) (not (starts_with (codes "bytes=") (or_empty header))) tt
      (range_of-Fits size (partition (range_spec (or_empty header))) h)

-- The bytes from `start` to `end`, both included, or none if the end is before the start.
pub Cut : Bytes → ℕ → ℤ → StreamOut → Type 0
Cut body start (negsuc n) out = out.body ≡ []
Cut body start (pos e) out =
    (e < start → out.body ≡ [])
    × (start ≤ e
        → (out.body ≡ take (suc e - start) (drop start body))
          × (out.content_length ≡ some (pos (length out.body)))
          × (0 < length out.body))

-- What a range of a recording gets.
pub Served : Bytes → Range → StreamOut → Type 0
Served body whole out =
    (out.status ≡ 200) × (out.body ≡ body) × (out.content_length ≡ some (pos (length body)))
Served body unsatisfiable out = (out.status ≡ 416) × (out.body ≡ [])
Served body (part start end) out =
    (out.status ≡ 206)
    × (out.content_range ≡ some (start, end))
    × Below (length body) end
    × Cut body start end out

pub ServedAs : Bytes → Result Range → Result StreamOut → Type 0
ServedAs body (err e) out = out ≡ err e
ServedAs body (ok r) out = (o : StreamOut) × ((out ≡ ok o) × Served body r o)

slice-length :
    (body : Bytes) (start e : ℕ)
    → start ≤ e
    → e < length body
    → (slice body start (pos e) ≡ take (suc e - start) (drop start body))
      × (length (slice body start (pos e)) ≡ suc e - start)
unfolding slice
slice-length body start e h k =
    let cut : slice body start (pos e) ≡ take (suc e - start) (drop start body) = ground arith in
    (
      cut,
      ap length cut
          ∙ length-take (suc e - start) (drop start body) (omega (arith, length-drop start body)),
    )

min_end-Below : (e size : ℕ) → e < size → min_end (pos e) size ≡ pos e
unfolding min_end
min_end-Below e size h = ground arith

span-pos : (start e : ℕ) → start ≤ e → span start (pos e) ≡ pos (suc e - start)
unfolding span
span-pos start e h = ground arith

slice-inverted : (body : Bytes) (start e : ℕ) → e < start → slice body start (pos e) ≡ []
unfolding slice
slice-inverted body start e h = ground arith

part-Cut :
    (body ctype : Bytes) (start : ℕ) (end : ℤ)
    → Below (length body) end
    → Cut body start end (record {
      status = 206;
      content_range = some (start, end);
      total = length body;
      content_length = some (span start end);
      body = (blob_object body ctype (some start) (some end)).body;
    })
unfolding Cut blob_object
part-Cut body ctype start (negsuc n) h = unfold min_end in unfold slice in refl
part-Cut body ctype start (pos e) h =
    let same : slice body start (min_end (pos e) (length body)) ≡ slice body start (pos e) =
      ap (slice body start) (min_end-Below e (length body) h) in
    (
      (λ k. same ∙ slice-inverted body start e k),
      (λ k.
          let (cut, count) = slice-length body start e k h in
          let total : length (slice body start (min_end (pos e) (length body))) ≡ suc e - start =
            ap length same ∙ count in
          (same ∙ cut, ap some (span-pos start e k ∙ ap pos (sym total)), omega (arith, total))),
    )

-- What `download_stream` gives of a whole object.
whole_body : (body ctype : Bytes) → 0 < length body → (blob_object body ctype none none).body ≡ body
unfolding blob_object
whole_body body ctype h =
    let last : sub_ℕ (length body) 1 ≡ pos (length body - 1) = ground arith in
    rw last (
      ap (slice body 0) (min_end-Below (length body - 1) (length body) (omega arith))
      ∙ ((slice-length body 0 (length body - 1) (omega arith) (omega arith)).0
          ∙ take_all (suc (length body - 1) - 0) body (omega arith)))

module _ (asset : AudioAsset) (store : Store) (body ctype : Bytes)
    (stored : lookup_object (asset.bucket, asset.object_key) store.objects ≡ some (body, ctype))
    (some_bytes : 0 < length body) where
  stream_range-Served :
      (r : Result Range)
      → Fits (length body) r
      → ServedAs body r
          (with_range r (stream_range (asset.bucket, asset.object_key) (length body) store))
  unfolding ServedAs Served stream_range download_stream lookup_blob
  stream_range-Served (err e) fits = refl
  stream_range-Served (ok whole) fits =
      rw stored (_, (refl, (refl, whole_body body ctype some_bytes, refl)))
  stream_range-Served (ok unsatisfiable) fits = (_, (refl, (refl, refl)))
  stream_range-Served (ok (part start end)) fits =
      rw stored (_, (refl, (refl, refl, fits, part-Cut body ctype start end fits)))

  -- By the range that is read from the header.
  pub stream_asset-ranges :
      (header : Option Text)
      → or_size asset.size_bytes (length body) ≡ length body
      → ServedAs body (range_tuple header (length body)) (stream_asset asset header store)
  unfolding stream_asset download_stream lookup_blob blob_object
  stream_asset-ranges header e =
      rw (stored, e)
        (stream_range-Served (range_tuple header (length body))
          (range_tuple-Fits header (length body) some_bytes))
