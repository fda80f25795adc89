-- ===== src/Api/Audio/Ranges/Asked.antt =====
-- app/api/v1/audio.py: what the header of a range request asks for.
use deal_truth_api.Prelude.{
  ℕ, ◌≡◌, refl, Option, none, some, [], ◌∷◌, Text, leb, ℤ, pos, negsuc, not, starts_with, codes,
  true, false, if◌then◌else◌,
}
use deal_truth_api.Pipeline.Session.{Result, ok}
use deal_truth_api.Api.Audio.{
  Range, whole, unsatisfiable, part, last_byte, clipped, suffix_start, suffix_range, first_range,
  range_of, range_tuple, int_of, end_of, partition, range_spec, or_empty, value_error,
}

-- What a header asks for: everything, the last bytes, those from a byte on, or those from a byte to another
-- one; or its numbers cannot be read.
pub data Asked : Type 0 where
  everything : Asked
  unreadable : Asked
  last_ones : ℤ → Asked
  onwards : ℕ → Asked
  between : ℕ → ℤ → Asked

abbrev asked_last : Option ℤ → Asked
asked_last none = unreadable
asked_last (some n) = last_ones n

abbrev asked_onwards : Option ℤ → Asked
asked_onwards (some (pos start)) = onwards start
asked_onwards _ = unreadable

abbrev asked_between : Option ℤ → Option ℤ → Asked
asked_between (some (pos start)) (some end) = between start end
asked_between _ _ = unreadable

-- The two texts around the first hyphen.
pub asked_of : Text × Text → Asked
asked_of ([], end_s) = asked_last (int_of end_s)
asked_of (c ∷ s, []) = asked_onwards (int_of (c ∷ s))
asked_of (c ∷ s, d ∷ t) = asked_between (int_of (c ∷ s)) (int_of (d ∷ t))

pub asked : Option Text → Asked
asked header =
    if not (starts_with (codes "bytes=") (or_empty header))
    then everything
    else asked_of (partition (range_spec (or_empty header)))

-- The range that each request has, for a recording of some size.
unfoldable pub range_for : ℕ → Asked → Result Range
range_for size everything = ok whole
range_for size unreadable = value_error
range_for size (last_ones n) = ok (part (suffix_start size n) (last_byte size))
range_for size (onwards first) =
    if leb size first then ok unsatisfiable else ok (part first (clipped size (last_byte size)))
range_for size (between first last) =
    if leb size first then ok unsatisfiable else ok (part first (clipped size last))

suffix_range-asked : (size : ℕ) (n : Option ℤ) → suffix_range size n ≡ range_for size (asked_last n)
unfolding suffix_range range_for
suffix_range-asked size none = refl
suffix_range-asked size (some n) = refl

first_range-onwards :
    (size : ℕ) (n : Option ℤ)
    → first_range size n (some (last_byte size)) ≡ range_for size (asked_onwards n)
unfolding first_range range_for
first_range-onwards size none = refl
first_range-onwards size (some (negsuc n)) = refl
first_range-onwards size (some (pos n)) = refl

first_range-between :
    (size : ℕ) (n m : Option ℤ) → first_range size n m ≡ range_for size (asked_between n m)
unfolding first_range range_for
first_range-between size none m = refl
first_range-between size (some (negsuc n)) m = refl
first_range-between size (some (pos n)) none = refl
first_range-between size (some (pos n)) (some m) = refl

range_of-asked :
    (size : ℕ) (spec : Text × Text) → range_of size spec ≡ range_for size (asked_of spec)
unfolding range_of end_of asked_of
range_of-asked size ([], end_s) = suffix_range-asked size (int_of end_s)
range_of-asked size (c ∷ s, []) = first_range-onwards size (int_of (c ∷ s))
range_of-asked size (c ∷ s, d ∷ t) = first_range-between size (int_of (c ∷ s)) (int_of (d ∷ t))

pub range_tuple-asked :
    (header : Option Text) (size : ℕ) → range_tuple header size ≡ range_for size (asked header)
unfolding range_tuple asked
range_tuple-asked header size =
    let spec = partition (range_spec (or_empty header)) in
    elim (not (starts_with (codes "bytes=") (or_empty header)))
      as (λ b.
        (if b then ok whole else range_of size spec)
        ≡ range_for size (if b then everything else asked_of spec)) [
          | true ↦ unfold range_for in refl
          | false ↦ range_of-asked size spec
        ]
