-- ===== src/Storage/Memory.antt =====
-- app/storage/memory.py and app/storage/base.py: the blob store in memory. Bytes are numbers.
pub mod History
use deal_truth_api.Prelude.{
  ℕ, ◌-◌, suc, Bool, true, false, not, ◌&&◌, Option, none, some, List, [], ◌∷◌, Text, keep, any,
  take, drop, length, ltb, leb, same_text, ℤ, pos, negsuc, sub_ℕ, if◌then◌else◌,
}
use deal_truth_api.Core.Errors.{Exception, named, ErrorClass, StorageError}
use deal_truth_api.Pipeline.Session.{Result, ok, err}

abbrev pub Bytes : Type 0
Bytes = List ℕ

-- The bucket and the key of an object.
abbrev pub Key : Type 0
Key = Text × Text

unfoldable pub same_key : Key → Key → Bool
same_key (b, k) (c, j) = same_text b c && same_text k j

-- `MemoryBlobStore`; an entry holds the bytes and the content type, and `buckets` is a set.
pub record Store : Type 0 where
  pub objects : List (Key × (Bytes × Text))
  pub buckets : List Text

unfoldable pub lookup_object : Key → List (Key × (Bytes × Text)) → Option (Bytes × Text)
unfolding same_key
lookup_object k [] = none
lookup_object k ((j, o) ∷ rest) = if same_key j k then some o else lookup_object k rest

unfoldable pub set_object :
    Key → Bytes × Text → List (Key × (Bytes × Text)) → List (Key × (Bytes × Text))
set_object k o [] = (k, o) ∷ []
set_object k o ((j, p) ∷ rest) =
    if same_key j k then (j, o) ∷ rest else (j, p) ∷ set_object k o rest

unfoldable pub add_bucket : Text → List Text → List Text
add_bucket b buckets = if any (same_text b) buckets then buckets else b ∷ buckets

-- The number of bytes that were put, with the store afterwards.
unfoldable pub put_bytes : Key → Bytes → Text → Store → ℕ × Store
unfolding set_object add_bucket
put_bytes key body content_type s = (
  length body,
  record {
    objects = set_object key (body, content_type) s.objects;
    buckets = add_bucket key.0 s.buckets;
  },
)

-- `upload_stream`: `read` is what `stream.read()` gives, or raises.
unfoldable pub upload_stream : Key → Result Bytes → Text → Store → Result ℕ × Store
unfolding put_bytes
upload_stream key (err e) content_type s = (err e, s)
upload_stream key (ok body) content_type s =
    let (n, t) = put_bytes key body content_type s in (ok n, t)

abbrev pub blob_missing : Exception
blob_missing = named (ErrorClass.storage StorageError.blob_not_found) "Object not found"

abbrev found : Option (Bytes × Text) → Result (Bytes × Text)
found none = err blob_missing
found (some o) = ok o

-- `_lookup`
unfoldable pub lookup_blob : Key → Store → Result (Bytes × Text)
lookup_blob key s = found (lookup_object key s.objects)

abbrev body_of : Result (Bytes × Text) → Result Bytes
body_of (ok (body, content_type)) = ok body
body_of (err e) = err e

unfoldable pub get_bytes : Key → Store → Result Bytes
unfolding lookup_blob
get_bytes key s = body_of (lookup_blob key s)

abbrev present : Option (Bytes × Text) → Bool
present none = false
present (some o) = true

unfoldable pub exists : Key → Store → Bool
exists key s = present (lookup_object key s.objects)

-- A dict has a key at most once, so that all entries under it are the one that `pop` removes.
unfoldable pub delete : Key → Store → Store
delete key s = record s {
  objects = keep (λ (e : Key × (Bytes × Text)). not (same_key e.0 key)) s.objects;
}

-- `BlobObject`, without the `etag`, which this store leaves out.
pub record BlobObject : Type 0 where
  pub body : Bytes
  pub content_type : Text
  pub size_bytes : ℕ
  pub range_start : Option ℕ
  pub range_end : Option ℤ

unfoldable pub min_end : ℤ → ℕ → ℤ
min_end (negsuc n) size = negsuc n
min_end (pos e) size = if ltb e size then pos e else sub_ℕ size 1

-- `data[start : end + 1]`, nothing if `start > end`.
unfoldable pub slice : Bytes → ℕ → ℤ → Bytes
slice body start (negsuc n) = []
slice body start (pos e) = if leb start e then take (suc e - start) (drop start body) else []

abbrev or_zero : Option ℕ → ℕ
or_zero none = 0
or_zero (some n) = n

abbrev end_or_last : Option ℤ → ℕ → ℤ
end_or_last none size = sub_ℕ size 1
end_or_last (some e) size = e

abbrev given : {A : Type 0} → Option ℕ → A → Option A
given none a = none
given (some n) a = some a

-- The start of a range is never negative where the program calls this.
unfoldable pub blob_object : Bytes → Text → Option ℕ → Option ℤ → BlobObject
unfolding min_end slice
blob_object body content_type range_start range_end =
    let end = min_end (end_or_last range_end (length body)) (length body) in
    record {
      body = slice body (or_zero range_start) end;
      content_type = content_type;
      size_bytes = length body;
      range_start = range_start;
      range_end = given range_start end;
    }

abbrev streamed : Option ℕ → Option ℤ → Result (Bytes × Text) → Result BlobObject
streamed range_start range_end (err e) = err e
streamed range_start range_end (ok (body, content_type)) =
    ok (blob_object body content_type range_start range_end)

unfoldable pub download_stream : Key → Option ℕ → Option ℤ → Store → Result BlobObject
unfolding blob_object lookup_blob
download_stream key range_start range_end s = streamed range_start range_end (lookup_blob key s)
