-- ===== src/Ml/Batch/Ids.antt =====
-- app/ml/__init__.py: the ids of the items of a request.
use deal_truth_api.Prelude.{
  ℕ, ◌+◌, ◌-◌, ◌*◌, ◌/◌, ◌%◌, zero, suc, ◌≡◌, ◌≤◌, refl, ap, sym, ◌∙◌, List, [], ◌∷◌, ◌++◌, Text,
  Memᴰ, ltb, Bool-cases, inl, inr, arith,
}
use deal_truth_api.Ml.Batch.{decimal_from, decimal, Item, items_from}

pub value_from : ℕ → Text → ℕ
value_from acc [] = acc
value_from acc (c ∷ s) = value_from (acc * 10 + (c - 48)) s

value-snoc :
    (acc : ℕ) (s : Text) (d : ℕ) → value_from acc (s ++ d ∷ []) ≡ value_from acc s * 10 + (d - 48)
unfolding value_from
value-snoc acc [] d = refl
value-snoc acc (c ∷ s) d = value-snoc (acc * 10 + (c - 48)) s d

pub value-decimal_from : (fuel n : ℕ) → n ≤ fuel → value_from 0 (decimal_from fuel n) ≡ n
unfolding value_from decimal_from
value-decimal_from zero n h = omega arith
value-decimal_from (suc fuel) n h = elim (Bool-cases (ltb n 10)) [
  | inl e ↦ rw e (omega arith)
  | inr e ↦ rw e (
      value-snoc 0 (decimal_from fuel (n / 10)) (48 + n % 10)
      ∙ small n (value_from 0 (decimal_from fuel (n / 10)))
          (value-decimal_from fuel (n / 10) (omega arith)))
]
  where
    small : (n v : ℕ) → v ≡ n / 10 → v * 10 + (48 + n % 10 - 48) ≡ n
    small n v e = omega arith

pub decimal-injective : (i j : ℕ) → decimal i ≡ decimal j → i ≡ j
unfolding decimal
decimal-injective i j e =
    sym (value-decimal_from i i (omega arith))
    ∙ (ap (value_from 0) e ∙ value-decimal_from j j (omega arith))

pub items_from-key :
    (index : ℕ) (texts : List Text) {it : Item}
    → Memᴰ it (items_from index texts)
    → (k : ℕ) × ((index ≤ k) × (it.0 ≡ decimal k))
unfolding items_from
items_from-key index [] m = elim m [ ]
items_from-key index (t ∷ texts) (Memᴰ.head e) = (index, (omega arith, ap (λ (p : Item). p.0) e))
items_from-key index (t ∷ texts) (Memᴰ.tail m) =
    let (k, (above, key)) = items_from-key (suc index) texts m in (k, (omega arith, key))

-- No two items of a request have one id.
pub items_from_unique :
    (index : ℕ) (texts : List Text) {a b : Item}
    → Memᴰ a (items_from index texts)
    → Memᴰ b (items_from index texts)
    → a.0 ≡ b.0
    → a ≡ b
unfolding items_from
items_from_unique index [] m n e = elim m [ ]
items_from_unique index (t ∷ texts) (Memᴰ.head p) (Memᴰ.head q) e = p ∙ sym q
items_from_unique index (t ∷ texts) (Memᴰ.tail m) (Memᴰ.tail n) e =
    items_from_unique (suc index) texts m n e
items_from_unique index (t ∷ texts) (Memᴰ.head p) (Memᴰ.tail n) e =
    let (k, (above, key)) = items_from-key (suc index) texts n in
    absurd
      (apart index k above (decimal-injective index k (ap (λ (x : Item). x.0) (sym p) ∙ (e ∙ key))))
  where
    apart : (index k : ℕ) → suc index ≤ k → index ≡ k → ⊥
    apart index k h e = omega arith
items_from_unique index (t ∷ texts) (Memᴰ.tail m) (Memᴰ.head q) e =
    let (k, (above, key)) = items_from-key (suc index) texts m in
    absurd (
      apart index k above
        (decimal-injective index k (ap (λ (x : Item). x.0) (sym q) ∙ (sym e ∙ key))))
  where
    apart : (index k : ℕ) → suc index ≤ k → index ≡ k → ⊥
    apart index k h e = omega arith
