-- ===== src/Storage/Memory/History.antt =====
-- app/storage/memory.py: the store after any sequence of writes and deletions.
use deal_truth_api.Prelude.{
  ◌≡◌, refl, ap, ◌∙◌, Bool, true, false, not, Option, none, some, List, [], ◌∷◌, Text, keep,
  same_text, same_text→eq, same_text_refl, if◌then◌else◌, arith, and_true,
}
use deal_truth_api.Pipeline.Session.{Result, ok, err}
use deal_truth_api.Storage.Memory.{
  Bytes, Key, same_key, Store, lookup_object, set_object, put_bytes, get_bytes, exists, delete,
  blob_missing, lookup_blob,
}

-- What a client does to a store.
pub data Write : Type 0 where
  put : Key → Bytes → Text → Write
  gone : Key → Write

pub perform : Write → Store → Store
perform (put key body content_type) s = (put_bytes key body content_type s).1
perform (gone key) s = delete key s

pub perform_all : List Write → Store → Store
perform_all [] s = s
perform_all (w ∷ ws) s = perform_all ws (perform w s)

-- The abstract store: a function from keys to objects.
abbrev pub Blobs : Type 0
Blobs = Key → Option (Bytes × Text)

pub changed : Write → Blobs → Blobs
changed (put key body content_type) m j = if same_key key j then some (body, content_type) else m j
changed (gone key) m j = if same_key key j then none else m j

pub changed_all : List Write → Blobs → Blobs
changed_all [] m = m
changed_all (w ∷ ws) m = changed_all ws (changed w m)

same_key→eq : (k j : Key) → same_key k j ≡ true → k ≡ j
unfolding same_key
same_key→eq (b, k) (c, j) h =
    let (bucket, key) = and_true (same_text b c) (same_text k j) h in
    λ i. (same_text→eq b c bucket i, same_text→eq k j key i)

same_key_refl : (k : Key) → same_key k k ≡ true
unfolding same_key
same_key_refl (b, k) = ground (arith, same_text_refl b, same_text_refl k)

module _ (key j : Key) where
  lookup-set :
      (o : Bytes × Text) (objects : List (Key × (Bytes × Text)))
      → lookup_object j (set_object key o objects)
        ≡ (if same_key key j then some o else lookup_object j objects)
  unfolding lookup_object set_object
  lookup-set o [] = refl
  lookup-set o ((i, p) ∷ rest) = ground (
    arith,
    lookup-set o rest,
    same_key→eq i key,
    same_key→eq i j,
    same_key→eq key j,
    same_key_refl i,
  )

  lookup-keep :
      (objects : List (Key × (Bytes × Text)))
      → lookup_object j (keep (λ (e : Key × (Bytes × Text)). not (same_key e.0 key)) objects)
        ≡ (if same_key key j then none else lookup_object j objects)
  unfolding lookup_object
  lookup-keep [] = ground arith
  lookup-keep ((i, p) ∷ rest) = ground (
    arith,
    lookup-keep rest,
    same_key→eq i key,
    same_key→eq i j,
    same_key→eq key j,
    same_key_refl i,
  )

-- An object that was just put there is found.
pub lookup-put :
    (key : Key) (body : Bytes) (content_type : Text) (s : Store)
    → get_bytes key (put_bytes key body content_type s).1 ≡ ok body
unfolding get_bytes lookup_blob put_bytes
lookup-put key body content_type s =
    let put : lookup_object key (set_object key (body, content_type) s.objects)
        ≡ some (body, content_type) =
      ground (arith, lookup-set key key (body, content_type) s.objects, same_key_refl key) in
    rw put refl

-- The store holds what the abstract store says.
abbrev Holds : Store → Blobs → Type 0
Holds s m = (j : Key) → lookup_object j s.objects ≡ m j

perform-Holds : (w : Write) (s : Store) (m : Blobs) → Holds s m → Holds (perform w s) (changed w m)
unfolding perform changed put_bytes delete
perform-Holds (put key body content_type) s m h j =
    lookup-set key j (body, content_type) s.objects
    ∙ ap (λ (o : Option (Bytes × Text)). if same_key key j then some (body, content_type) else o)
        (h j)
perform-Holds (gone key) s m h j =
    lookup-keep key j s.objects
    ∙ ap (λ (o : Option (Bytes × Text)). if same_key key j then none else o) (h j)

perform_all-Holds :
    (ws : List Write) (s : Store) (m : Blobs)
    → Holds s m
    → Holds (perform_all ws s) (changed_all ws m)
unfolding perform_all changed_all
perform_all-Holds [] s m h = h
perform_all-Holds (w ∷ ws) s m h =
    perform_all-Holds ws (perform w s) (changed w m) (perform-Holds w s m h)

abbrev pub empty : Store
empty = record { objects = []; buckets = [] }

-- What `get_bytes` and `exists` answer of an object.
pub answer : Option (Bytes × Text) → Result Bytes × Bool
answer none = (err blob_missing, false)
answer (some (body, content_type)) = (ok body, true)

get_bytes-lookup :
    (j : Key) (s : Store) (o : Option (Bytes × Text))
    → lookup_object j s.objects ≡ o
    → (get_bytes j s, exists j s) ≡ answer o
unfolding get_bytes exists answer lookup_blob
get_bytes-lookup j s none h = rw h refl
get_bytes-lookup j s (some o) h = rw h refl

-- After any sequence of writes and deletions from the empty store, `get_bytes` and `exists` answer of
-- every key what the function from keys to objects says that the same changes make of the function
-- without objects: the bytes that were last put there, or BlobNotFound.
pub get_bytes-perform_all :
    (ws : List Write) (j : Key)
    → (get_bytes j (perform_all ws empty), exists j (perform_all ws empty))
      ≡ answer (changed_all ws (λ k. none) j)
get_bytes-perform_all ws j =
    get_bytes-lookup j (perform_all ws empty) (changed_all ws (λ k. none) j)
      (perform_all-Holds ws empty (λ k. none) (λ k. unfold lookup_object in refl) j)
