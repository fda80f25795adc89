-- ===== src/Evidence/Keys.antt =====
-- The set `seen` of app/evidence/__init__.py: the keys that the shipped claims hold.
use deal_truth_api.Prelude.{
  ℕ, ◌≡◌, refl, Bool, true, false, ◌&&◌, ◌||◌, List, [], ◌∷◌, ◌++◌, Text, same_text, same_text_refl,
  same_text→eq, ◌==◌, arith, Memᴰ, and_true, ==_iff, Bool-cases, inl, inr,
}
use deal_truth_api.Core.Enums.{InsightType, same_type, same_type→eq}

-- `(type, title, segment id)`
abbrev pub Key : Type 0
Key = InsightType × Text × ℕ

same_key : Key → Key → Bool
same_key (t, title, sid) (u, other, tid) = same_type t u && (same_text title other && sid == tid)

-- `key in seen`
unfoldable pub seen_before : Key → List Key → Bool
unfolding same_key
seen_before k [] = false
seen_before k (j ∷ seen) = same_key k j || seen_before k seen

same_key_refl : (k : Key) → same_key k k ≡ true
unfolding same_key
same_key_refl (t, title, sid) = ground (arith, same_text_refl title)

-- A key of the set is found in it.
pub seen_before-mem : {k : Key} {seen : List Key} → Memᴰ k seen → seen_before k seen ≡ true
unfolding seen_before
seen_before-mem {k} (Memᴰ.head e) = rw (← e) (ground (arith, same_key_refl k))
seen_before-mem {k} (Memᴰ.tail {x = j} {xs = seen} m) =
    let found : seen_before k seen ≡ true = seen_before-mem m in ground arith

same_key→eq : (k j : Key) → same_key k j ≡ true → k ≡ j
unfolding same_key
same_key→eq (t, title, sid) (u, other, tid) h =
    let (types, rest) = and_true (same_type t u) (same_text title other && sid == tid) h in
    let (titles, ids) = and_true (same_text title other) (sid == tid) rest in
    let one : t ≡ u = same_type→eq t u types in
    let two : title ≡ other = same_text→eq title other titles in
    let three : sid ≡ tid = (==_iff sid tid).0 ids in cc (one, two, three)

-- What is found in the set is a key of it.
pub mem-seen_before : (k : Key) (seen : List Key) → seen_before k seen ≡ true → Memᴰ k seen
unfolding seen_before
mem-seen_before k [] h = absurd (cc h)
mem-seen_before k (j ∷ seen) h = elim (Bool-cases (same_key k j)) [
  | inl e ↦ Memᴰ.head (same_key→eq k j e)
  | inr e ↦ Memᴰ.tail (mem-seen_before k seen (rw e at h))
]

pub seen_before-append :
    (k : Key) (seen more : List Key)
    → seen_before k (seen ++ more) ≡ false
    → (seen_before k seen ≡ false) × (seen_before k more ≡ false)
unfolding seen_before
seen_before-append k [] more h = (refl, h)
seen_before-append k (j ∷ seen) more h = ground (arith, seen_before-append k seen more)
