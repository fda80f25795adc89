-- ===== src/Storage/Validate/Names.antt =====
-- app/storage/validate.py: what `safe_filename` lets through.
use mathlib.Core.List.{reverse-cons, reverse-append, reverse-reverse}
use deal_truth_api.Prelude.{
  subst, ◌∙◌, ℕ, ◌≡◌, refl, ap, sym, Bool, true, false, not, [], ◌∷◌, ◌++◌, reverse, Text, codes,
  All, All-append, arith, if◌then◌else◌, Bool-cases, inl, inr, if_elim, same_text, ◌||◌, ◌==◌, ◌≢◌,
  ◌⊎◌,
}
use deal_truth_api.Storage.Validate.{
  is_safe, cleaned, strip_left, strip_margin, or_default, safe_filename, slashed, path_name,
}

abbrev pub Safe : ℕ → Type 0
Safe c = is_safe c ≡ true

kept_Safe :
    (inside b : Bool) (c : ℕ) (rest : Text)
    → is_safe c ≡ b
    → All Safe rest
    → All Safe (if b then c ∷ rest else if inside then rest else b'_' ∷ rest)
kept_Safe inside true c rest e h = (e, h)
kept_Safe true false c rest e h = h
kept_Safe false false c rest e h = (unfold is_safe in refl, h)

cleaned-Safe : (inside : Bool) (s : Text) → All Safe (cleaned inside s)
unfolding cleaned
cleaned-Safe inside [] = tt
cleaned-Safe inside (c ∷ s) =
    kept_Safe inside (is_safe c) c (cleaned (not (is_safe c)) s) refl
      (cleaned-Safe (not (is_safe c)) s)

reverse-Safe : (s : Text) → All Safe s → All Safe (reverse s)
reverse-Safe [] h = tt
reverse-Safe (c ∷ s) h =
    subst (All Safe) (sym (reverse-cons c s))
      (All-append Safe (reverse s) (c ∷ []) (reverse-Safe s h.1) (h.0, tt))

strip_left-Safe : (s : Text) → All Safe s → All Safe (strip_left s)
unfolding strip_left
strip_left-Safe [] h = tt
strip_left-Safe (c ∷ s) h = if_elim (All Safe) (c == b'.' || c == b'_') (strip_left-Safe s h.1) h

-- The text is not empty, and it does not begin with a full stop.
pub Named : Text → Type 0
Named [] = Unit → ⊥
Named (c ∷ s) = c ≢ b'.'

-- A name of a file in the store: only letters, digits, full stops, underscores and hyphens, at least one
-- of them, and none of the names that a file system hides or reserves.
pub record IsName (s : Text) : Type 0 where
  pub safe : All Safe s
  pub named : Named s

strip_left-first : (s : Text) → (strip_left s ≡ []) ⊎ Named (strip_left s)
unfolding strip_left Named
strip_left-first [] = inl refl
strip_left-first (c ∷ s) = elim (Bool-cases (c == b'.' || c == b'_')) [
  | inl e ↦ rw e (strip_left-first s)
  | inr e ↦ rw e (inr (λ dot. ground arith))
]

-- What is cut off on the left stands before what is left.
strip_left-split : (s : Text) → (cut : Text) × (s ≡ cut ++ strip_left s)
unfolding strip_left
strip_left-split [] = ([], refl)
strip_left-split (c ∷ s) = elim (Bool-cases (c == b'.' || c == b'_')) [
  | inl e ↦ let (cut, split) = strip_left-split s in rw e (c ∷ cut, ap (λ (l : Text). c ∷ l) split)
  | inr e ↦ rw e ([], refl)
]

Named-append : (s t : Text) → Named (s ++ t) → (s ≡ []) ⊎ Named s
unfolding Named
Named-append [] t h = inl refl
Named-append (c ∷ s) t h = inr h

-- Without its end a text begins as before, unless nothing is left of it.
stripped_end :
    (t : Text)
    → (t ≡ []) ⊎ Named t
    → (reverse (strip_left (reverse t)) ≡ []) ⊎ Named (reverse (strip_left (reverse t)))
stripped_end t (inl e) = rw e (unfold strip_left in inl refl)
stripped_end t (inr h) =
    let (cut, split) = strip_left-split (reverse t) in
    let whole : t ≡ reverse (strip_left (reverse t)) ++ reverse cut =
      sym (reverse-reverse t) ∙ ap reverse split ∙ reverse-append cut (strip_left (reverse t)) in
    Named-append (reverse (strip_left (reverse t))) (reverse cut) (subst Named whole h)

or_default-IsName : (s : Text) → All Safe s → (s ≡ []) ⊎ Named s → IsName (or_default s)
unfolding is_safe Named
or_default-IsName [] safe named = record {
  safe = (refl, (refl, (refl, (refl, (refl, (refl, (refl, (refl, (refl, tt)))))))));
  named = omega arith;
}
or_default-IsName (c ∷ s) safe (inl e) = cc
or_default-IsName (c ∷ s) safe (inr h) = record { safe = safe; named = h }

-- Whatever a client calls its file, the name that the program stores it under has only letters,
-- digits, full stops, underscores and hyphens, at least one of them, and does not begin with a full
-- stop: it names no other directory and no hidden file.
pub safe_filename-IsName : (original : Text) → IsName (safe_filename original)
unfolding safe_filename strip_margin
safe_filename-IsName original =
    let name = path_name (slashed original) in
    let c = cleaned false name in
    if_elim IsName
      (same_text name [] || (same_text name (codes ".") || same_text name (codes "..")))
      (or_default-IsName [] tt (inl refl))
      (or_default-IsName (strip_margin c)
        (reverse-Safe (strip_left (reverse (strip_left c))) (
          strip_left-Safe (reverse (strip_left c))
            (reverse-Safe (strip_left c) (strip_left-Safe c (cleaned-Safe false name)))))
        (stripped_end (strip_left c) (strip_left-first c)))
