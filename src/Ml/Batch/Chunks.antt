-- ===== src/Ml/Batch/Chunks.antt =====
-- app/ml/__init__.py: the cutting of the texts into requests.
use deal_truth_api.Prelude.{
  ℕ, ◌-◌, zero, suc, max, ◌≡◌, ◌≤◌, ◌<◌, refl, ap, ◌∙◌, List, [], ◌∷◌, ◌++◌, Text, take, drop,
  length, All, take-append-drop, arith,
}
use deal_truth_api.Ml.Batch.{chunks, batch_size, batches}

-- The parts, one after the other.
abbrev pub joined : List (List Text) → List Text
joined [] = []
joined (part ∷ parts) = part ++ joined parts

length-take_le : (n : ℕ) (texts : List Text) → length (take n texts) ≤ n
length-take_le zero texts = omega arith
length-take_le (suc n) [] = omega arith
length-take_le (suc n) (t ∷ texts) = omega (arith, length-take_le n texts)

length-drop_le : (n : ℕ) (texts : List Text) → length (drop n texts) ≤ length texts - n
length-drop_le zero texts = omega arith
length-drop_le (suc n) [] = omega arith
length-drop_le (suc n) (t ∷ texts) = omega (arith, length-drop_le n texts)

chunks-joined :
    (fuel size : ℕ) (texts : List Text)
    → 0 < size
    → length texts ≤ fuel
    → joined (chunks fuel size texts) ≡ texts
unfolding chunks
chunks-joined zero size [] h k = refl
chunks-joined zero size (t ∷ texts) h k = absurd (omega arith)
chunks-joined (suc fuel) size [] h k = refl
chunks-joined (suc fuel) size (t ∷ texts) h k =
    ap (λ (l : List Text). take size (t ∷ texts) ++ l)
      (chunks-joined fuel size (drop size (t ∷ texts)) h
        (omega (arith, length-drop_le size (t ∷ texts))))
    ∙ take-append-drop size (t ∷ texts)

chunks-small :
    (fuel size : ℕ) (texts : List Text)
    → All (λ (c : List Text). length c ≤ size) (chunks fuel size texts)
unfolding chunks
chunks-small zero size texts = tt
chunks-small (suc fuel) size [] = tt
chunks-small (suc fuel) size (t ∷ texts) =
    (length-take_le size (t ∷ texts), chunks-small fuel size (drop size (t ∷ texts)))

-- Whatever the configured size, the texts of the requests, one request after the other, are the texts
-- that are asked about, and no request has more than the size, or than one where the size is 0.
pub batches_lem :
    (ml_max_batch_size : ℕ) (texts : List Text)
    → (joined (batches ml_max_batch_size texts) ≡ texts)
      × All
          (λ (c : List Text). length c ≤ max 1 ml_max_batch_size)
          (batches ml_max_batch_size texts)
unfolding batches batch_size
batches_lem ml_max_batch_size texts = (
  chunks-joined (length texts) (max 1 ml_max_batch_size) texts (omega arith) (omega arith),
  chunks-small (length texts) (max 1 ml_max_batch_size) texts,
)
