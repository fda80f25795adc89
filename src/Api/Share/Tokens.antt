-- ===== src/Api/Share/Tokens.antt =====
-- app/api/v1/share.py: what a token opens, before and after its link is revoked.
use deal_truth_api.Prelude.{
  ℕ, ◌+◌, ◌≡◌, refl, false, Option, none, some, List, [], ◌∷◌, ◌++◌, Text, All, ltb, ◌==◌,
  same_text, same_text→eq, arith, Bool-cases, inl, inr, if◌then◌else◌,
}
use deal_truth_api.Pipeline.Session.{ok, err}
use deal_truth_api.Api.Share.{
  ShareLink, invalid_token, or_ttl, link_for, create_share, checked_link, get_shared, link_by_id,
  set_revoked, revoke_found, revoke_share,
}

-- No link has this digest.
abbrev pub Unused : Text → List ShareLink → Type 0
Unused digest = All (λ (l : ShareLink). same_text l.token_hash digest ≡ false)

link_for-append :
    (digest : Text) (links : List ShareLink) (new : ShareLink)
    → Unused new.token_hash links
    → link_for digest (links ++ new ∷ [])
      ≡ (if same_text new.token_hash digest then some new else link_for digest links)
unfolding link_for
link_for-append digest [] new h = refl
link_for-append digest (l ∷ links) new h =
    let other : same_text l.token_hash new.token_hash ≡ false = h.0 in
    ground (arith, link_for-append digest links new h.1, same_text→eq new.token_hash digest)

-- A link as it is revoked, where it has the id.
revoked : ℕ → ℕ → ShareLink → ShareLink
revoked now i l = if l.id == i then record l { revoked_at = some now } else l

revoked_option : ℕ → ℕ → Option ShareLink → Option ShareLink
revoked_option now i none = none
revoked_option now i (some l) = some (revoked now i l)

link_for-set_revoked :
    (now i : ℕ) (digest : Text) (links : List ShareLink)
    → link_for digest (set_revoked now i links) ≡ revoked_option now i (link_for digest links)
unfolding link_for set_revoked revoked_option revoked
link_for-set_revoked now i digest [] = refl
link_for-set_revoked now i digest (l ∷ links) =
    ground (arith, link_for-set_revoked now i digest links)

revoke_found-ok :
    (now call_id share_id : ℕ) (o : Option ShareLink) (links after : List ShareLink)
    → revoke_found now call_id share_id o links ≡ ok after
    → after ≡ set_revoked now share_id links
unfolding revoke_found
revoke_found-ok now call_id share_id none links after h = absurd (cc h)
revoke_found-ok now call_id share_id (some l) links after h =
    elim (Bool-cases (l.call_id == call_id)) [
      | inl e ↦ let same : ok (set_revoked now share_id links) ≡ ok after = rw e at h in cc same
      | inr e ↦ absurd (cc (rw e at h))
    ]

module _ (hash_token : Text → Text) where
  checked-revoked :
      (later now i : ℕ) (o : Option ShareLink)
      → checked_link hash_token later (revoked_option now i o) ≡ elim o [
        | none ↦ err (invalid_token "Share link is invalid")
        | some l ↦
            if l.id == i
            then err (invalid_token "Share link is invalid")
            else checked_link hash_token later (some l)
      ]
  unfolding checked_link revoked_option revoked
  checked-revoked later now i none = refl
  checked-revoked later now i (some l) = elim (Bool-cases (l.id == i)) [
    | inl e ↦ rw e refl
    | inr e ↦ rw e refl
  ]

  -- Of a token whose digest no link has yet, a new link is what the token opens until its expiry, the
  -- settings' time to live after its making unless another is asked for, and ShareTokenInvalid after it; any
  -- token with another digest opens what it opened before.
  pub get_shared-create_share :
      (now fresh call_id default_ttl later : ℕ) (token : Text) (ttl_seconds : Option ℕ)
      (links : List ShareLink) (other : Text)
      → Unused (hash_token token) links
      → get_shared hash_token later other
          (create_share hash_token now fresh token call_id ttl_seconds default_ttl links)
        ≡ (if same_text (hash_token token) (hash_token other)
            then (if ltb (now + or_ttl ttl_seconds default_ttl) later
                then err (invalid_token "Share link has expired")
                else ok (record {
                  id = fresh;
                  call_id = call_id;
                  token_hash = hash_token token;
                  expires_at = now + or_ttl ttl_seconds default_ttl;
                  revoked_at = none;
                }))
            else get_shared hash_token later other links)
  unfolding get_shared create_share checked_link
  get_shared-create_share now fresh call_id default_ttl later token ttl_seconds links other h =
      let new : ShareLink = record {
        id = fresh;
        call_id = call_id;
        token_hash = hash_token token;
        expires_at = now + or_ttl ttl_seconds default_ttl;
        revoked_at = none;
      } in
      let found = link_for-append (hash_token other) links new h in
      elim (Bool-cases (same_text (hash_token token) (hash_token other))) [
        | inl e ↦ rw (found, e) refl
        | inr e ↦ rw (found, e) refl
      ]

  -- Once a link is revoked, a token that opened it is invalid at any later time, and a token of any other link
  -- opens what it opened before.
  pub get_shared-revoke_share :
      (now later call_id share_id : ℕ) (token : Text) (links after : List ShareLink)
      (link : ShareLink)
      → revoke_share now call_id share_id links ≡ ok after
      → link_for (hash_token token) links ≡ some link
      → get_shared hash_token later token after ≡ (
          if link.id == share_id
          then err (invalid_token "Share link is invalid")
          else get_shared hash_token later token links)
  unfolding get_shared revoke_share
  get_shared-revoke_share now later call_id share_id token links after link h found =
      let so : after ≡ set_revoked now share_id links =
        revoke_found-ok now call_id share_id (link_by_id share_id links) links after h in
      rw (so, link_for-set_revoked now share_id (hash_token token) links, found)
        (checked-revoked later now share_id (some link))
