-- ===== src/Ml/Labels/Slugs.antt =====
-- app/ml/__init__.py: the slugs of the labels and their way back.
use mathlib.Core.List.{Permᴰ}
use mathlib.Core.List.Permᴰ
use deal_truth_api.Prelude.{
  ℕ, ◌≡◌, ◌≢◌, ◌≤◌, ◌⊎◌, inl, inr, refl, subst, Bool, true, false, Bool-cases, if_elim, [], ◌∷◌,
  Text, reverse, ◌==◌, arith, String, codes, All, same_text, is_space, lower, strip, spaced,
}
use deal_truth_api.Ml.Labels.{
  or_label, sales_labels, words_from, join_spaced, label_key, label_by_key, canonical_sales_label,
  is_slug_char, underscored, strip_underscores, sales_label_slug,
}

-- The label has a way to the service and back.
abbrev pub Returns : String → Type 0
Returns l = canonical_sales_label (sales_label_slug (codes l)) ≡ codes l

-- The characters of a slug: a to z, 0 to 9, and the underscore.
abbrev pub SlugChar : ℕ → Type 0
SlugChar c = ((97 ≤ c) × (c ≤ 122)) ⊎ (((48 ≤ c) × (c ≤ 57)) ⊎ (c ≡ 95))

abbrev pub IsSlug : Text → Type 0
IsSlug s = (s ≢ []) × All SlugChar s

is_slug_char-SlugChar : (c : ℕ) → is_slug_char c ≡ true → SlugChar c
unfolding is_slug_char
is_slug_char-SlugChar c h = ground arith

underscored-SlugChar : (inside : Bool) (s : Text) → All SlugChar (underscored inside s)
unfolding underscored
underscored-SlugChar inside [] = tt
underscored-SlugChar inside (c ∷ s) = elim (Bool-cases (is_slug_char c)) [
  | inl e ↦ rw e (is_slug_char-SlugChar c e, underscored-SlugChar false s)
  | inr e ↦ rw e (
      if_elim (All SlugChar) inside (underscored-SlugChar true s)
        (inr (inr refl), underscored-SlugChar true s))
]

strip_underscores-SlugChar : (s : Text) → All SlugChar s → All SlugChar (strip_underscores s)
unfolding strip_underscores
strip_underscores-SlugChar [] h = tt
strip_underscores-SlugChar (c ∷ s) h =
    if_elim (All SlugChar) (c == b'_') (strip_underscores-SlugChar s h.1) h

All-perm : {s t : Text} → Permᴰ s t → All SlugChar s → All SlugChar t
All-perm Permᴰ.nil h = tt
All-perm (Permᴰ.cons e d) h = (subst SlugChar e h.0, All-perm d h.1)
All-perm (Permᴰ.swap e d) h = (subst SlugChar d h.1.0, (subst SlugChar e h.0, h.1.1))
All-perm (Permᴰ.trans d e) h = All-perm e (All-perm d h)

reverse-SlugChar : (s : Text) → All SlugChar s → All SlugChar (reverse s)
reverse-SlugChar s h = All-perm (Permᴰ.symm (Permᴰ.reverse s)) h

or_label-IsSlug : (s : Text) → All SlugChar s → IsSlug (or_label s)
or_label-IsSlug [] h = (
  λ e. cc e,
  (
    inl (omega arith, omega arith),
    (
      inl (omega arith, omega arith),
      (
        inl (omega arith, omega arith),
        (inl (omega arith, omega arith), (inl (omega arith, omega arith), tt)),
      ),
    ),
  ),
)
or_label-IsSlug (c ∷ s) h = (λ e. cc e, h)

sales_label_slug-IsSlug : (label : Text) → IsSlug (sales_label_slug label)
unfolding sales_label_slug
sales_label_slug-IsSlug label = or_label-IsSlug _ (
    reverse-SlugChar _ (
      strip_underscores-SlugChar _ (
        reverse-SlugChar _
          (strip_underscores-SlugChar _ (underscored-SlugChar false (lower label))))))

all_return : All Returns sales_labels
unfolding canonical_sales_label label_by_key label_key words_from join_spaced sales_label_slug
    underscored strip_underscores is_slug_char same_text lower strip spaced is_space
all_return = (
  refl,
  (
    refl,
    (
      refl,
      (
        refl,
        (
          refl,
          (
            refl,
            (
              refl,
              (
                refl,
                (
                  refl,
                  (
                    refl,
                    (
                      refl,
                      (
                        refl,
                        (refl, (refl, (refl, (refl, (refl, (refl, (refl, (refl, (refl, tt))))))))),
                      ),
                    ),
                  ),
                ),
              ),
            ),
          ),
        ),
      ),
    ),
  ),
)

-- Whatever the label, its slug is not empty and has only the characters a to z, 0 to 9 and the underscore; and
-- every sales label comes back from its slug.
pub sales_label_slug-Returns :
    ((label : Text) → IsSlug (sales_label_slug label)) × All Returns sales_labels
sales_label_slug-Returns = (sales_label_slug-IsSlug, all_return)
