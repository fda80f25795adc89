-- ===== src/Api/Audio.antt =====
-- app/api/v1/audio.py: uploads, sources, and the ranges of a recording.
pub mod Ranges
pub mod Uploads
use deal_truth_api.Prelude.{
  ℕ, ◌+◌, ◌-◌, ◌*◌, zero, suc, Bool, false, not, ◌&&◌, ◌||◌, Option, none, some, [], ◌∷◌, ◌++◌,
  String, Text, codes, drop, length, starts_with, strip, ltb, leb, ◌==◌, ℤ, pos, negsuc, sub_ℕ,
  if◌then◌else◌,
}
use deal_truth_api.Core.Enums.{uploading, queued, EventState, SourceType}
use deal_truth_api.Core.Errors.{other}
use deal_truth_api.Pipeline.State.{CallState}
use deal_truth_api.Pipeline.Session.{Result, ok, err}
use deal_truth_api.Storage.Memory.{Bytes, Store, BlobObject, download_stream, upload_stream}
use deal_truth_api.Storage.Validate.{
  Limits, Reader, read, original_key, safe_filename, validate_audio_meta, invalid_audio, split_on,
}
use deal_truth_api.Storage.Ssrf.{Net, Source, fetch_https_source}
use deal_truth_api.Api.Site.{
  AudioAsset, Handler, ◌>>=◌, ◌>>◌, pure, raise, lift, modify, move_to, log_event,
}
use deal_truth_api.Api.Calls.{detail}

abbrev pub is_digit : ℕ → Bool
is_digit c = leb b'0' c && leb c b'9'

-- The digits of a number, single underscores between them. `joint` says that an underscore may follow.
unfoldable pub digits_from : Bool → ℕ → Text → Option ℕ
digits_from joint n [] = if joint then some n else none
digits_from joint n (c ∷ s) =
    let rest = digits_from (is_digit c) (if is_digit c then n * 10 + (c - b'0') else n) s in
    if is_digit c || (joint && c == b'_') then rest else none

abbrev positive : Option ℕ → Option ℤ
positive none = none
positive (some n) = some (pos n)

abbrev negative : Option ℕ → Option ℤ
negative none = none
negative (some n) = some (sub_ℕ 0 n)

unfoldable pub signed : Text → Option ℤ
unfolding digits_from
signed [] = none
signed (c ∷ s) =
    if c == b'-'
    then negative (digits_from false 0 s)
    else if c == b'+'
    then positive (digits_from false 0 s)
    else positive (digits_from false 0 (c ∷ s))

-- `int(s)`, with the ASCII digits; `none` is the `ValueError`.
unfoldable pub int_of : Text → Option ℤ
unfolding signed
int_of s = signed (strip s)

-- `s.partition("-")`, without the separator.
unfoldable pub partition : Text → Text × Text
partition [] = ([], [])
partition (c ∷ s) =
    let (before, after) = partition s in if c == b'-' then ([], s) else (c ∷ before, after)

-- What `_range_tuple` returns: `whole` is `(None, None, 200)`, `unsatisfiable` is `(0, size - 1, 416)`, and
-- `part start end` is `(start, end, 206)`.
pub data Range : Type 0 where
  whole : Range
  unsatisfiable : Range
  part : ℕ → ℤ → Range

abbrev pub value_error : {A : Type 0} → Result A
value_error = err (other "ValueError")

abbrev pub last_byte : ℕ → ℤ
last_byte size = sub_ℕ size 1

-- `max(size - suffix, 0)`
unfoldable pub suffix_start : ℕ → ℤ → ℕ
suffix_start size (pos n) = size - n
suffix_start size (negsuc n) = size + suc n

-- `min(end, size - 1)`
unfoldable pub clipped : ℕ → ℤ → ℤ
clipped size (negsuc n) = negsuc n
clipped size (pos e) = if ltb e size then pos e else last_byte size

unfoldable pub suffix_range : ℕ → Option ℤ → Result Range
unfolding suffix_start
suffix_range size none = value_error
suffix_range size (some n) = ok (part (suffix_start size n) (last_byte size))

-- The start has no sign but a plus, since it stands before the first hyphen.
unfoldable pub first_range : ℕ → Option ℤ → Option ℤ → Result Range
unfolding clipped
first_range size none end = value_error
first_range size (some (negsuc n)) end = value_error
first_range size (some (pos start)) none = value_error
first_range size (some (pos start)) (some end) =
    if leb size start then ok unsatisfiable else ok (part start (clipped size end))

-- `int(end_s) if end_s else size - 1`
unfoldable pub end_of : ℕ → Text → Option ℤ
unfolding int_of
end_of size [] = some (last_byte size)
end_of size (c ∷ s) = int_of (c ∷ s)

unfoldable pub range_of : ℕ → Text × Text → Result Range
unfolding suffix_range first_range end_of
range_of size ([], end_s) = suffix_range size (int_of end_s)
range_of size (c ∷ s, end_s) = first_range size (int_of (c ∷ s)) (end_of size end_s)

abbrev pub or_empty : Option Text → Text
or_empty none = []
or_empty (some t) = t

-- The part of the header after `bytes=`, up to a comma.
unfoldable pub range_spec : Text → Text
range_spec header = strip (split_on b',' (drop 6 header)).0

unfoldable pub range_tuple : Option Text → ℕ → Result Range
unfolding range_of partition range_spec
range_tuple header size =
    if not (starts_with (codes "bytes=") (or_empty header))
    then ok whole
    else range_of size (partition (range_spec (or_empty header)))

-- The response of `_stream_asset`, with the numbers of its headers.
pub record StreamOut : Type 0 where
  pub status : ℕ
  pub content_range : Option (ℕ × ℤ)
  pub total : ℕ
  pub content_length : Option ℤ
  pub body : Bytes

-- `end - start + 1`
unfoldable pub span : ℕ → ℤ → ℤ
span start (pos e) = sub_ℕ (suc e) start
span start (negsuc n) = sub_ℕ 0 (n + start)

abbrev pub or_size : ℕ → ℕ → ℕ
or_size zero size = size
or_size (suc n) size = suc n

abbrev pub with_object : Result BlobObject → (BlobObject → Result StreamOut) → Result StreamOut
with_object (err e) f = err e
with_object (ok obj) f = f obj

unfoldable pub stream_range : Text × Text → ℕ → Store → Range → Result StreamOut
unfolding span
stream_range key size store whole = with_object (download_stream key none none store) (λ obj.
    ok (record {
      status = 200;
      content_range = none;
      total = size;
      content_length = some (pos size);
      body = obj.body;
    }))
stream_range key size store unsatisfiable =
    ok (record {
      status = 416;
      content_range = none;
      total = size;
      content_length = none;
      body = [];
    })
stream_range key size store (part start end) =
    with_object (download_stream key (some start) (some end) store) (λ obj. ok (record {
      status = 206;
      content_range = some (start, end);
      total = size;
      content_length = some (span start end);
      body = obj.body;
    }))

abbrev pub with_range : Result Range → (Range → Result StreamOut) → Result StreamOut
with_range (err e) f = err e
with_range (ok r) f = f r

-- `_stream_asset`: the object is opened once for its size and once for its bytes.
unfoldable pub stream_asset : AudioAsset → Option Text → Store → Result StreamOut
unfolding range_tuple stream_range
stream_asset asset header store =
    with_object (download_stream (asset.bucket, asset.object_key) none none store) (λ head.
      let size = or_size asset.size_bytes head.size_bytes in
      with_range (range_tuple header size)
        (stream_range (asset.bucket, asset.object_key) size store))

-- The settings of an upload: the bucket, the limits, and how the library writes a UUID.
pub record AudioSettings : Type 0 where
  pub bucket : Text
  pub limits : Limits
  pub uuid_text : ℕ → Text

unfoldable pub put_blob : Text × Text → Result Bytes → Text → Handler ℕ
put_blob key body content_type s =
    let (r, blob) = upload_stream key body content_type s.blob in (r, record s { blob = blob })

unfoldable pub add_asset : SourceType → AudioAsset → Handler Unit
add_asset source asset =
    modify (λ r. record r { source_type = some source; assets = r.assets ++ asset ∷ [] })

-- A new UUID.
unfoldable pub new_id : Handler ℕ
new_id s = (ok s.fresh, record s { fresh = suc s.fresh })

abbrev pub reader_of : Bytes → ℕ → Reader
reader_of content max_bytes = record {
  stream = content ∷ [];
  max_bytes = max_bytes;
  bytes_read = 0;
  digested = [];
}

-- The checksum is that of what the reader has let through, and the row has its count.
unfoldable pub add_upload :
    AudioSettings → SourceType → String → Text → Text → ℕ → Reader → ℕ → Handler CallState
add_upload settings source stage name content_type now last size =
    new_id
    >>= (λ id. add_asset source (record {
      id = id;
      bucket = settings.bucket;
      object_key = original_key (settings.uuid_text 0) name;
      original_filename = name;
      content_type = content_type;
      size_bytes = or_size last.bytes_read size;
      digested = last.digested;
    }))
    >> move_to now queued
    >> log_event stage EventState.succeeded
    >> detail

-- `size <= 0 and limited.bytes_read <= 0`
unfoldable pub refuse_empty : ℕ → Reader → Handler Unit
refuse_empty size last =
    if size == 0 && last.bytes_read == 0
    then raise (invalid_audio "Audio file is empty")
    else pure tt

-- The part of `upload_audio` after the checks. The store reads the stream at once.
unfoldable pub store_upload :
    AudioSettings → Text → Text → ℕ → Result Bytes × Reader → Handler CallState
unfolding put_blob refuse_empty add_upload
store_upload settings name content_type now (body, last) =
    put_blob (settings.bucket, original_key (settings.uuid_text 0) name) body content_type
    >>= λ size.
        refuse_empty size last
        >> add_upload settings SourceType.upload "upload" name content_type now last size

abbrev or_text : Option Text → Text → Text
or_text none d = d
or_text (some []) d = d
or_text (some (c ∷ s)) d = c ∷ s

-- `upload_audio`: the call's own UUID is 0, and `content` what the client sends.
unfoldable pub upload_audio :
    AudioSettings → ℕ → Option Text → Option Text → Bytes → Handler CallState
unfolding store_upload
upload_audio settings now filename content_type content =
    let name = safe_filename (or_text filename (codes "audio.bin")) in
    let kind = or_text content_type (codes "application/octet-stream") in
    lift (validate_audio_meta name kind 1 settings.limits)
    >> move_to now uploading
    >> store_upload settings name kind now
        (read (reader_of content settings.limits.max_audio_bytes))

-- The part of `source_url` after the fetch.
unfoldable pub store_source : AudioSettings → ℕ → Source → Handler CallState
unfolding put_blob add_upload
store_source settings now (content, (content_type, filename)) =
    let name = safe_filename filename in
    let (body, last) = read (reader_of content settings.limits.max_audio_bytes) in
    lift (validate_audio_meta name content_type (length content) settings.limits)
    >> move_to now uploading
    >> (put_blob (settings.bucket, original_key (settings.uuid_text 0) name) body content_type
        >>= λ size.
            add_upload settings SourceType.source_url "source_url" name content_type now
              (record last { bytes_read = or_size size (length content) }) size)

-- `source_url`
unfoldable pub source_url : AudioSettings → Net → ℕ → ℕ → Text → Handler CallState
unfolding store_source
source_url settings net max_redirects now url =
    lift (fetch_https_source net max_redirects settings.limits.max_audio_bytes url).0
    >>= store_source settings now
