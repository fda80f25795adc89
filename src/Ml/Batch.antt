-- ===== src/Ml/Batch.antt =====
-- app/ml/__init__.py: the requests to the inference service and the rows of its answers.
pub mod Ids
pub mod Chunks
pub mod Aligned
use deal_truth_api.Prelude.{
  ℕ, ◌+◌, ◌/◌, ◌%◌, zero, suc, max, Bool, true, false, not, ◌&&◌, ◌||◌, Option, none, some, List,
  [], ◌∷◌, ◌++◌, String, Text, codes, take, drop, length, ltb, leb, ◌==◌, same_text, if◌then◌else◌,
}
use deal_truth_api.Core.Errors.{named, ErrorClass, MlError}
use deal_truth_api.Pipeline.Session.{Result, ok, err}
use deal_truth_api.Ml.Json.{Json, flag, integer, text, array, object, list_of, get, or_else}

abbrev pub response_invalid : {A : Type 0} → String → Result A
response_invalid message = err (named (ErrorClass.ml MlError.response_invalid) message)

-- What `client.post` gives: an `HTTPError`, or a status with the body, which is `none` if it is no JSON.
pub data Reply : Type 0 where
  unreachable : Reply
  replied : ℕ → Option Json → Reply

unfoldable pub is_transient : ℕ → Bool
is_transient n = n == 408 || n == 429 || n == 500 || n == 502 || n == 504

abbrev parsed : Option Json → Result Json
parsed none = response_invalid "ML service returned non-JSON"
parsed (some j) = ok j

-- `_post`
unfoldable pub post_result : Reply → Result Json
unfolding is_transient
post_result unreachable =
    err (named (ErrorClass.ml MlError.service_unavailable) "ML service is unavailable")
post_result (replied status body) =
    if status == 401 || status == 403
    then err (named (ErrorClass.ml MlError.auth_failed) "ML service authentication failed")
    else if status == 503
    then err (named (ErrorClass.ml MlError.model_not_ready) "ML models are not ready")
    else if is_transient status
    then err (
        named (ErrorClass.ml MlError.inference_failed) "ML inference failed with a transient error")
    else if leb 400 status
    then err (named (ErrorClass.ml MlError.inference_failed) "ML inference failed")
    else parsed body

-- `str(n)`: fuel `n` is enough, since each step leaves a tenth.
unfoldable pub decimal_from : ℕ → ℕ → Text
decimal_from zero n = (48 + n % 10) ∷ []
decimal_from (suc fuel) n =
    let front = decimal_from fuel (n / 10) in
    if ltb n 10 then (48 + n) ∷ [] else front ++ (48 + n % 10) ∷ []

unfoldable pub decimal : ℕ → Text
unfolding decimal_from
decimal n = decimal_from n n

-- An item of a request: its id and its text.
abbrev pub Item : Type 0
Item = Text × Text

-- `_request_items`
unfoldable pub items_from : ℕ → List Text → List Item
unfolding decimal
items_from index [] = []
items_from index (t ∷ texts) = (decimal index, t) ∷ items_from (suc index) texts

unfoldable pub request_items : List Text → List Item
unfolding items_from
request_items = items_from 0

-- The rows of a response: a list under one of three keys, or else the response itself.
unfoldable pub rows_under : Option Json → Json → List Json
rows_under (some (array items)) payload = list_of items
rows_under _ payload = payload ∷ []

unfoldable pub rows_in : Json → Result (List Json)
unfolding rows_under
rows_in (array items) = ok (list_of items)
rows_in (object fields) = ok (
    rows_under (or_else (get "items" fields) (or_else (get "results" fields) (get "data" fields)))
      (object fields))
rows_in _ = response_invalid "Unexpected ML response shape"

-- The rest of `_as_items`, for a list of rows.
unfoldable pub fitted : ℕ → List Json → Result (List Json)
fitted expected items =
    if length items == expected
    then ok items
    else if expected == 1 && ltb 0 (length items)
    then ok (take 1 items)
    else if ltb (length items) expected
    then response_invalid "ML response item count mismatch"
    else ok (take expected items)

abbrev pub then_rows : {A B : Type 0} → Result A → (A → Result B) → Result B
then_rows (err e) f = err e
then_rows (ok a) f = f a

unfoldable pub as_items : Json → ℕ → Result (List Json)
unfolding rows_in fitted
as_items payload expected = then_rows (rows_in payload) (fitted expected)

abbrev key_text : Option Json → Option Text
key_text (some (text s)) = some (codes s)
key_text (some (integer n)) = some (decimal n)
key_text (some (flag true)) = some (codes "True")
key_text (some (flag false)) = some (codes "False")
key_text _ = none

-- The key of a row in `by_id`.
unfoldable pub row_key : Json → Option Text
unfolding decimal
row_key (object fields) = key_text (get "id" fields)
row_key _ = none

abbrev has_key : Text → Option Text → Bool
has_key key none = false
has_key key (some k) = same_text k key

-- `by_id[key]`: the last row with the key.
abbrev or_this : Option Json → Bool → Json → Option Json
or_this (some later) b row = some later
or_this none true row = some row
or_this none false row = none

unfoldable pub row_by_id : Text → List Json → Option Json
unfolding row_key
row_by_id key [] = none
row_by_id key (row ∷ rows) = or_this (row_by_id key rows) (has_key key (row_key row)) row

-- The rows of all wanted keys, if each is there.
abbrev both : Option Json → Option (List Json) → Option (List Json)
both (some row) (some rows) = some (row ∷ rows)
both _ _ = none

unfoldable pub rows_by_id : List Json → List Text → Option (List Json)
unfolding row_by_id
rows_by_id items [] = some []
rows_by_id items (key ∷ keys) = both (row_by_id key items) (rows_by_id items keys)

-- `[str(index) for index in range(expected)]`
unfoldable pub wanted_from : ℕ → ℕ → List Text
unfolding decimal
wanted_from index zero = []
wanted_from index (suc count) = decimal index ∷ wanted_from (suc index) count

abbrev or_items : Option (List Json) → List Json → List Json
or_items none items = items
or_items (some rows) items = rows

unfoldable pub keyed : ℕ → List Json → Result (List Json)
unfolding rows_by_id wanted_from
keyed expected items = ok (or_items (rows_by_id items (wanted_from 0 expected)) items)

unfoldable pub aligned_rows : Json → ℕ → Result (List Json)
unfolding as_items keyed
aligned_rows payload expected = then_rows (as_items payload expected) (keyed expected)

-- `range(0, len(texts), size)`: the chunks; fuel for each text is enough, since a chunk is not empty.
unfoldable pub chunks : ℕ → ℕ → List Text → List (List Text)
chunks zero size texts = []
chunks (suc fuel) size [] = []
chunks (suc fuel) size (t ∷ texts) =
    take size (t ∷ texts) ∷ chunks fuel size (drop size (t ∷ texts))

-- `max(1, ml_max_batch_size)`
unfoldable pub batch_size : ℕ → ℕ
batch_size ml_max_batch_size = max 1 ml_max_batch_size

unfoldable pub batches : ℕ → List Text → List (List Text)
unfolding chunks batch_size
batches ml_max_batch_size texts = chunks (length texts) (batch_size ml_max_batch_size) texts

-- The loop of `_batched_rows`, with the service as a function of the request.
unfoldable pub posted : (List Item → Reply) → List (List Text) → Result (List Json)
unfolding request_items aligned_rows post_result
posted post [] = ok []
posted post (chunk ∷ rest) = then_rows (post_result (post (request_items chunk))) (λ payload.
    then_rows (aligned_rows payload (length chunk))
      (λ rows. then_rows (posted post rest) (λ more. ok (rows ++ more))))

unfoldable pub batched_rows : ℕ → (List Item → Reply) → List Text → Result (List Json)
unfolding batches posted
batched_rows ml_max_batch_size post texts = posted post (batches ml_max_batch_size texts)
