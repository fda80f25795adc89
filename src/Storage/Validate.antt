-- ===== src/Storage/Validate.antt =====
-- app/storage/validate.py and app/storage/keys.py: names, sizes and kinds of an upload.
pub mod Names
pub mod Sizes
use deal_truth_api.Prelude.{
  ℕ, ◌+◌, Bool, false, not, ◌&&◌, ◌||◌, List, [], ◌∷◌, ◌++◌, reverse, String, Text, codes, any, map,
  length, ltb, leb, ◌==◌, lower, strip, same_text, if◌then◌else◌,
}
use deal_truth_api.Core.Errors.{Exception, named, ErrorClass, StorageError}
use deal_truth_api.Pipeline.Session.{Result, ok, err}
use deal_truth_api.Storage.Memory.{Bytes}

abbrev pub slash : ℕ
slash = b'/'

-- `original.replace("\\", "/")`
unfoldable pub slashed : Text → Text
slashed = map (λ c. if c == 92 then slash else c)

-- `s.split(sep)` on one character: the part before the first one, and the later parts.
unfoldable pub split_on : ℕ → Text → Text × List Text
split_on sep [] = ([], [])
split_on sep (c ∷ s) =
    let (part, parts) = split_on sep s in if c == sep then ([], part ∷ parts) else (c ∷ part, parts)

-- `PurePosixPath(s).name`: the last part, where empty parts and the parts "." are left out.
unfoldable pub is_part : Text → Bool
is_part part = not (same_text part []) && not (same_text part (codes "."))

unfoldable pub last_part : Text → List Text → Text
unfolding is_part
last_part name [] = name
last_part name (part ∷ parts) = last_part (if is_part part then part else name) parts

unfoldable pub path_name : Text → Text
unfolding split_on last_part
path_name s = let (part, parts) = split_on slash s in last_part [] (part ∷ parts)

-- `[A-Za-z0-9._-]`
unfoldable pub is_safe : ℕ → Bool
is_safe c =
    (leb b'a' c && leb c b'z')
    || (leb b'A' c && leb c b'Z')
    || (leb b'0' c && leb c b'9')
    || c == b'.'
    || c == b'_'
    || c == b'-'

-- `_UNSAFE.sub("_", name)`: one underscore for each run of other characters. `inside` says that the
-- run at hand has its underscore.
unfoldable pub cleaned : Bool → Text → Text
unfolding is_safe
cleaned inside [] = []
cleaned inside (c ∷ s) =
    let rest = cleaned (not (is_safe c)) s in
    if is_safe c then c ∷ rest else if inside then rest else b'_' ∷ rest

abbrev is_margin : ℕ → Bool
is_margin c = c == b'.' || c == b'_'

unfoldable pub strip_left : Text → Text
strip_left [] = []
strip_left (c ∷ s) = if is_margin c then strip_left s else c ∷ s

-- `.strip("._")`
unfoldable pub strip_margin : Text → Text
unfolding strip_left
strip_margin s = reverse (strip_left (reverse (strip_left s)))

abbrev pub default_name : Text
default_name = codes "audio.bin"

abbrev pub or_default : Text → Text
or_default [] = default_name
or_default (c ∷ s) = c ∷ s

unfoldable pub safe_filename : Text → Text
unfolding slashed path_name cleaned strip_margin
safe_filename original =
    let name = path_name (slashed original) in
    if same_text name [] || (same_text name (codes ".") || same_text name (codes ".."))
    then default_name
    else or_default (strip_margin (cleaned false name))

-- `PurePosixPath(filename).suffix` of a name: from the last full stop, if it is neither the first nor
-- the last character.
unfoldable pub suffix_from : Text → Text → Text
suffix_from best [] = best
suffix_from best (c ∷ s) = suffix_from (if c == b'.' then c ∷ s else best) s

unfoldable pub suffix_of : Text → Text
suffix_of [] = []
suffix_of (c ∷ s) = suffix_from [] s

abbrev at_end : Text → Text
at_end (c ∷ []) = []
at_end s = s

unfoldable pub path_suffix : Text → Text
unfolding suffix_of
path_suffix filename = at_end (suffix_of (path_name filename))

-- The settings that an upload is checked against; `allowed_ext_set` and `allowed_mime_set` are sets.
pub record Limits : Type 0 where
  pub max_audio_bytes : ℕ
  pub allowed_ext_set : List Text
  pub allowed_mime_set : List Text

abbrev pub invalid_audio : String → Exception
invalid_audio message = named (ErrorClass.storage StorageError.invalid_audio) message

abbrev pub too_large : Exception
too_large =
    named (ErrorClass.storage StorageError.audio_too_large) "Audio exceeds maximum allowed size"

-- `(content_type or "").split(";")[0].strip().lower()`
unfoldable pub mime_of : Text → Text
unfolding split_on
mime_of content_type = lower (strip (split_on b';' content_type).0)

unfoldable pub validate_audio_meta : Text → Text → ℕ → Limits → Result {0} Unit
unfolding path_suffix mime_of
validate_audio_meta filename content_type size settings =
    if size == 0
    then err (invalid_audio "Audio file is empty")
    else if ltb settings.max_audio_bytes size
    then err too_large
    else if not (any (same_text (lower (path_suffix filename))) settings.allowed_ext_set)
    then err (invalid_audio "Audio file extension is not allowed")
    else if not (same_text (mime_of content_type) [])
        && not (any (same_text (mime_of content_type)) settings.allowed_mime_set)
    then err (invalid_audio "Audio MIME type is not allowed")
    else ok tt

-- `SizeLimitReader`: what the stream has left, in the pieces that its `read` returns, and the count.
-- `digested` are the pieces that the digest has been given.
pub record Reader : Type 0 where
  pub stream : List Bytes
  pub max_bytes : ℕ
  pub bytes_read : ℕ
  pub digested : Bytes

-- The piece that a stream's `read` returns, the empty one at its end, and the rest.
unfoldable pub next_piece : List Bytes → Bytes × List Bytes
next_piece [] = ([], [])
next_piece (piece ∷ pieces) = (piece, pieces)

unfoldable pub counted : Bytes → Reader → Result Bytes × Reader
counted [] r = (ok [], r)
counted (b ∷ chunk) r =
    let total = r.bytes_read + length (b ∷ chunk) in
    if ltb r.max_bytes total
    then (err too_large, record r { bytes_read = total })
    else (ok (b ∷ chunk), record r { bytes_read = total; digested = r.digested ++ (b ∷ chunk) })

-- `read`
unfoldable pub read : Reader → Result Bytes × Reader
unfolding next_piece counted
read r = let (piece, pieces) = next_piece r.stream in counted piece (record r { stream = pieces })

-- The pieces that were read, joined.
abbrev pub joined : Bytes → Result Bytes × Reader → Result Bytes × Reader
joined chunk (err e, r) = (err e, r)
joined chunk (ok more, r) = (ok (chunk ++ more), r)

-- What a client has after a read: `more` goes on with the reader.
abbrev pub continued :
    Result Bytes × Reader → (Reader → Result Bytes × Reader) → Result Bytes × Reader
continued (err e, r) more = (err e, r)
continued (ok [], r) more = (ok [], r)
continued (ok (b ∷ chunk), r) more = joined (b ∷ chunk) (more r)

-- What a client reads piece by piece until `read` returns nothing.
unfoldable pub drain : List Bytes → Reader → Result Bytes × Reader
unfolding read
drain [] r = read (record r { stream = [] })
drain (piece ∷ pieces) r = continued (read (record r { stream = piece ∷ pieces })) (drain pieces)

-- `blob_keys(...).original`; `cid` is the UUID as text.
unfoldable pub original_key : Text → Text → Text
original_key cid name = codes "calls/" ++ (cid ++ (codes "/original/" ++ name))
