-- ===== src/Api/Share.antt =====
-- app/api/v1/share.py: the links under which a report is shared. The digest of a token is a parameter.
pub mod Tokens
use deal_truth_api.Prelude.{
  ℕ, ◌+◌, zero, suc, Option, none, some, List, [], ◌∷◌, ◌++◌, String, Text, first, map, ltb, ◌==◌,
  same_text, if◌then◌else◌,
}
use deal_truth_api.Core.Errors.{Exception, named, ErrorClass, RequestError}
use deal_truth_api.Pipeline.Session.{Result, ok, err}

-- `ShareLink`; times are in seconds.
pub record ShareLink : Type 0 where
  pub id : ℕ
  pub call_id : ℕ
  pub token_hash : Text
  pub expires_at : ℕ
  pub revoked_at : Option ℕ

abbrev pub invalid_token : String → Exception
invalid_token message = named (ErrorClass.request RequestError.share_token_invalid) message

-- A time to live that is asked for, if it is one, or that of the settings.
abbrev pub or_ttl : Option ℕ → ℕ → ℕ
or_ttl none d = d
or_ttl (some zero) d = d
or_ttl (some (suc n)) d = suc n

-- `session.scalar(select(ShareLink).where(ShareLink.token_hash == digest))`
unfoldable pub link_for : Text → List ShareLink → Option ShareLink
link_for digest = first (λ (l : ShareLink). same_text l.token_hash digest)

module _ (hash_token : Text → Text) where
  -- `create_share` of a call that is there: the links afterwards. `fresh` is the new UUID and `token` the
  -- generated token.
  unfoldable pub create_share : ℕ → ℕ → Text → ℕ → Option ℕ → ℕ → List ShareLink → List ShareLink
  create_share now fresh token call_id ttl_seconds default_ttl links =
      links
      ++ record {
        id = fresh;
        call_id = call_id;
        token_hash = hash_token token;
        expires_at = now + or_ttl ttl_seconds default_ttl;
        revoked_at = none;
      }
        ∷ []

  abbrev open_link : ℕ → ShareLink → Option ℕ → Result ShareLink
  open_link now link (some t) = err (invalid_token "Share link is invalid")
  open_link now link none =
      if ltb link.expires_at now then err (invalid_token "Share link has expired") else ok link

  unfoldable pub checked_link : ℕ → Option ShareLink → Result ShareLink
  checked_link now none = err (invalid_token "Share link is invalid")
  checked_link now (some link) = open_link now link link.revoked_at

  -- `get_shared`, up to the report and the transcript of the link's call.
  unfoldable pub get_shared : ℕ → Text → List ShareLink → Result ShareLink
  unfolding checked_link link_for
  get_shared now token links = checked_link now (link_for (hash_token token) links)

-- `revoke_share`: the link of the id, if it is one of the call.
unfoldable pub link_by_id : ℕ → List ShareLink → Option ShareLink
link_by_id i = first (λ (l : ShareLink). l.id == i)

unfoldable pub set_revoked : ℕ → ℕ → List ShareLink → List ShareLink
set_revoked now i =
    map (λ (l : ShareLink). if l.id == i then record l { revoked_at = some now } else l)

abbrev pub link_missing : Exception
link_missing = named (ErrorClass.request RequestError.not_found_error) "Share link not found"

unfoldable pub revoke_found :
    ℕ → ℕ → ℕ → Option ShareLink → List ShareLink → Result (List ShareLink)
unfolding set_revoked
revoke_found now call_id share_id none links = err link_missing
revoke_found now call_id share_id (some link) links =
    if link.call_id == call_id then ok (set_revoked now share_id links) else err link_missing

unfoldable pub revoke_share : ℕ → ℕ → ℕ → List ShareLink → Result (List ShareLink)
unfolding revoke_found link_by_id
revoke_share now call_id share_id links =
    revoke_found now call_id share_id (link_by_id share_id links) links
