-- ===== src/Ml/Batch/Aligned.antt =====
-- app/ml/__init__.py: which row each text gets.
use deal_truth_api.Prelude.{
  ℕ, suc, max, ◌≡◌, ◌≤◌, refl, ap, sym, ◌∙◌, subst, true, Option, none, some, List, [], ◌∷◌, ◌++◌,
  Text, length, map, All, All-map, All-mem, All-mem_self, Forall₂, Memᴰ, ==_refl, same_text→eq,
  same_text_refl, Bool-cases, Option-cases, inl, inr,
}
use deal_truth_api.Pipeline.Session.{ok}
use deal_truth_api.Ml.Json.{Json}
use deal_truth_api.Ml.Batch.{
  Reply, replied, post_result, decimal, Item, items_from, request_items, rows_in, fitted, as_items,
  row_key, has_key, row_by_id, rows_by_id, wanted_from, keyed, aligned_rows, batches, posted,
  batched_rows, is_transient,
}
use deal_truth_api.Ml.Batch.Ids.{items_from-key, items_from_unique}
use deal_truth_api.Ml.Batch.Chunks.{joined, batches_lem}

has_key-eq : (key : Text) (o : Option Text) → has_key key o ≡ true → o ≡ some key
has_key-eq key none h = absurd (cc h)
has_key-eq key (some k) h = ap some (same_text→eq k key h)

row_by_id_sound :
    (key : Text) (rows : List Json) {q : Json}
    → row_by_id key rows ≡ some q
    → Memᴰ q rows × (row_key q ≡ some key)
unfolding row_by_id
row_by_id_sound key [] h = absurd (cc h)
row_by_id_sound key (row ∷ rows) {q} h = elim (Option-cases (row_by_id key rows)) [
  | inr (later, e) ↦
      let (m, k) = row_by_id_sound key rows {q = q} (e ∙ (rw e at h)) in (Memᴰ.tail m, k)
  | inl e ↦ elim (Bool-cases (has_key key (row_key row))) [
    | inl b ↦
        let same : some row ≡ some q = rw (e, b) at h in
        (Memᴰ.head (cc same), has_key-eq key (row_key q) (cc (same, b)))
    | inr b ↦ absurd (cc (rw (e, b) at h))
  ]
]

row_by_id_found :
    (key : Text) (rows : List Json) {r : Json}
    → Memᴰ r rows
    → row_key r ≡ some key
    → (q : Json) × (row_by_id key rows ≡ some q)
unfolding row_by_id
row_by_id_found key [] m k = elim m [ ]
row_by_id_found key (row ∷ rows) (Memᴰ.tail m) k =
    let (q, e) = row_by_id_found key rows m k in (q, rw e refl)
row_by_id_found key (row ∷ rows) (Memᴰ.head p) k = elim (Option-cases (row_by_id key rows)) [
  | inr (q, e) ↦ (q, rw e refl)
  | inl e ↦
      let here : has_key key (row_key row) ≡ true =
        rw (ap row_key (sym p) ∙ k) (same_text_refl key) in
      (row, rw (e, here) refl)
]

Forall₂-append :
    {A : Type 0} {B : Type 0} (R : A → B → Type 0) (xs ys : List A) (us vs : List B)
    → Forall₂ R xs us
    → Forall₂ R ys vs
    → Forall₂ R (xs ++ ys) (us ++ vs)
Forall₂-append R [] ys [] vs h k = k
Forall₂-append R [] ys (u ∷ us) vs h k = absurd (h tt)
Forall₂-append R (x ∷ xs) ys [] vs h k = absurd (h tt)
Forall₂-append R (x ∷ xs) ys (u ∷ us) vs h k = (h.0, Forall₂-append R xs ys us vs h.1 k)

module _ (row : Item → Json) where
  -- The rows of the answer to a request: as many as items, in any order; each item has its row among
  -- them, and each of them is the row of an item.
  pub record RowsFor (items : List Item) (rows : List Json) : Type 0 where
    pub count : length rows ≡ length items
    pub complete : All (λ it. Memᴰ (row it) rows) items
    pub own : All (λ r. (it : Item) × (Memᴰ it items × (r ≡ row it))) rows

  -- A reply with such rows.
  pub record Answers (items : List Item) (reply : Reply) : Type 0 where
    pub payload : Json
    pub rows : List Json
    pub sent : reply ≡ replied 200 (some payload)
    pub found : rows_in payload ≡ ok rows
    pub rows_for : RowsFor items rows

  -- The rows of all items of some requests, in order.
  rows_of : List (List Text) → List Json
  rows_of [] = []
  rows_of (chunk ∷ rest) = map row (request_items chunk) ++ rows_of rest

  -- The row is that of the text, under some id.
  pub RowOf : Text → Json → Type 0
  RowOf t r = (i : Text) × (r ≡ row (i, t))

  module _
      (keyed_row : (index : ℕ) (t : Text)
        → row_key (row (decimal index, t)) ≡ some (decimal index)) where
    keyed_item :
        (texts : List Text) {it : Item}
        → Memᴰ it (request_items texts)
        → row_key (row it) ≡ some it.0
    unfolding request_items
    keyed_item texts {it} m =
        let (k, (above, key)) = items_from-key 0 texts m in
        subst (λ (i : Text). row_key (row (i, it.1)) ≡ some i) (sym key) (keyed_row k it.1)

    own_row :
        (texts : List Text) (rows : List Json)
        → RowsFor (request_items texts) rows
        → {it : Item} → Memᴰ it (request_items texts)
        → row_by_id it.0 rows ≡ some (row it)
    unfolding request_items
    own_row texts rows h {it} m =
        let there = All-mem (λ i. Memᴰ (row i) rows) (items_from 0 texts) h.complete m in
        let (q, e) = row_by_id_found it.0 rows there (keyed_item texts m) in
        let (in_rows, key) = row_by_id_sound it.0 rows {q = q} e in
        let (other, (among, is)) =
          All-mem (λ r. (i : Item) × (Memᴰ i (items_from 0 texts) × (r ≡ row i))) rows h.own
            in_rows in
        let one_id : some other.0 ≡ some it.0 =
          sym (keyed_item texts among) ∙ (ap row_key (sym is) ∙ key) in
        let same : other ≡ it = items_from_unique 0 texts among m (cc one_id) in
        e ∙ (ap some is ∙ ap (λ i. some (row i)) same)

    length-items_from :
        (index : ℕ) (texts : List Text) → length (items_from index texts) ≡ length texts
    unfolding items_from
    length-items_from index [] = refl
    length-items_from index (t ∷ texts) = ap suc (length-items_from (suc index) texts)

    rows_by_id-items :
        (rows : List Json) (index : ℕ) (texts : List Text)
        → All (λ (it : Item). row_by_id it.0 rows ≡ some (row it)) (items_from index texts)
        → rows_by_id rows (wanted_from index (length texts))
          ≡ some (map row (items_from index texts))
    unfolding rows_by_id wanted_from items_from
    rows_by_id-items rows index [] h = refl
    rows_by_id-items rows index (t ∷ texts) h =
        rw (h.0, rows_by_id-items rows (suc index) texts h.1) refl

    own_rows :
        (texts : List Text) (rows : List Json)
        → RowsFor (request_items texts) rows
        → (items : List Item) → All (λ it. Memᴰ it (request_items texts)) items
        → All (λ (it : Item). row_by_id it.0 rows ≡ some (row it)) items
    own_rows texts rows h [] ms = tt
    own_rows texts rows h (it ∷ items) ms =
        (own_row texts rows h ms.0, own_rows texts rows h items ms.1)

    aligned_rows-Answers :
        (texts : List Text) (payload : Json) (rows : List Json)
        → rows_in payload ≡ ok rows
        → RowsFor (request_items texts) rows
        → aligned_rows payload (length texts) ≡ ok (map row (request_items texts))
    unfolding aligned_rows as_items fitted keyed request_items
    aligned_rows-Answers texts payload rows e h =
        let count : length rows ≡ length texts = h.count ∙ length-items_from 0 texts in
        let mine =
          rows_by_id-items rows 0 texts
            (own_rows texts rows h (items_from 0 texts) (All-mem_self (items_from 0 texts))) in
        rw (e, count, ==_refl (length texts), mine) refl

    posted-Answers :
        (post : List Item → Reply) (parts : List (List Text))
        → All (λ chunk. Answers (request_items chunk) (post (request_items chunk))) parts
        → posted post parts ≡ ok (rows_of parts)
    unfolding posted post_result is_transient rows_of
    posted-Answers post [] h = refl
    posted-Answers post (chunk ∷ rest) h =
        let a = h.0 in
        rw
          (
            a.sent,
            aligned_rows-Answers chunk a.payload a.rows a.found a.rows_for,
            posted-Answers post rest h.1,
          )
          refl

    rows_of-RowOf :
        (index : ℕ) (texts : List Text) → Forall₂ RowOf texts (map row (items_from index texts))
    unfolding items_from RowOf
    rows_of-RowOf index [] = tt
    rows_of-RowOf index (t ∷ texts) = ((decimal index, refl), rows_of-RowOf (suc index) texts)

    rows_of-all : (parts : List (List Text)) → Forall₂ RowOf (joined parts) (rows_of parts)
    unfolding rows_of request_items
    rows_of-all [] = tt
    rows_of-all (chunk ∷ rest) =
        Forall₂-append RowOf chunk (joined rest) (map row (items_from 0 chunk)) (rows_of rest)
          (rows_of-RowOf 0 chunk) (rows_of-all rest)

    -- Where the service, asked about no more texts than the size, answers each request with the rows of
    -- its items, in whatever order, a call for any number of texts succeeds and gives each text, in
    -- order, its own row.
    pub batched_rows-RowOf :
        (ml_max_batch_size : ℕ) (post : List Item → Reply) (texts : List Text)
        → ((chunk : List Text)
            → length chunk ≤ max 1 ml_max_batch_size
            → Answers (request_items chunk) (post (request_items chunk)))
        → (rows : List Json) × ((batched_rows ml_max_batch_size post texts ≡ ok rows)
            × Forall₂ RowOf texts rows)
    unfolding batched_rows
    batched_rows-RowOf ml_max_batch_size post texts h =
        let parts = batches ml_max_batch_size texts in
        let (whole, small) = batches_lem ml_max_batch_size texts in
        (
          rows_of parts,
          (
            posted-Answers post parts (All-map h parts small),
            subst (λ l. Forall₂ RowOf l (rows_of parts)) whole (rows_of-all parts),
          ),
        )
