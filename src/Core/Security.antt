-- ===== src/Core/Security.antt =====
-- app/core/security.py: API keys, and the signatures of the addresses of recordings. The digest
-- functions of the library are parameters; a signature and a secret are texts. A signature has ASCII
-- characters only, since `compare_digest` raises TypeError for any other.
pub mod Signatures
use deal_truth_api.Prelude.{
  ℕ, Bool, true, false, not, Option, none, some, List, [], ◌∷◌, ◌++◌, String, Text, codes, any,
  drop, lower, strip, ltb, ◌==◌, same_text, starts_with, if◌then◌else◌,
}
use deal_truth_api.Core.Errors.{Exception, named, ErrorClass, RequestError}
use deal_truth_api.Pipeline.Session.{Result, ok, err}

abbrev pub unauthorized : String → Exception
unauthorized message = named (ErrorClass.request RequestError.unauthorized_error) message

-- `provided.partition(" ")`, without the separator.
unfoldable pub partition : Text → Text × Text
partition [] = ([], [])
partition (c ∷ s) =
    let (before, after) = partition s in if c == 32 then ([], s) else (c ∷ before, after)

unfoldable pub candidate : Text → Text
unfolding partition
candidate provided =
    let (scheme, token) = partition provided in
    if same_text (lower scheme) (codes "bearer") then token else provided

abbrev pub check_key : Text → List Text → Result {0} Unit
check_key key api_key_set =
    if any (same_text key) api_key_set then ok tt else err (unauthorized "Invalid API key")

-- `verify_api_key`; `open_mode` is `auth_mode == "none"`, and the keys have ASCII characters only.
unfoldable pub verify_api_key : Bool → List Text → Option Text → Result {0} Unit
unfolding candidate
verify_api_key true api_key_set provided = ok tt
verify_api_key false api_key_set none = err (unauthorized "API key required")
verify_api_key false api_key_set (some []) = err (unauthorized "API key required")
verify_api_key false api_key_set (some (c ∷ s)) = check_key (candidate (c ∷ s)) api_key_set

-- `hmac secret payload` is the hexadecimal digest, and `uuid_text`, `number_text` how the language writes
-- a UUID and a number.
pub record Signing : Type 0 where
  pub hmac : Text → Text → Text
  pub uuid_text : ℕ → Text
  pub number_text : ℕ → Text

abbrev pub signed_url_invalid : String → Exception
signed_url_invalid message = named (ErrorClass.request RequestError.signed_url_invalid) message

module _ (signing : Signing) where
  -- `f"{asset_id}:{expires}"`
  unfoldable pub audio_payload : ℕ → ℕ → Text
  audio_payload asset_id expires =
      signing.uuid_text asset_id ++ (codes ":" ++ signing.number_text expires)

  -- `build_signed_audio_query`: the values of `expires` and `signature`.
  unfoldable pub build_signed_audio_query : ℕ → ℕ → Text → ℕ × Text
  unfolding audio_payload
  build_signed_audio_query asset_id expires secret =
      (expires, signing.hmac secret (audio_payload asset_id expires))

  -- `verify_signed_audio` at the time `now`.
  unfoldable pub verify_signed_audio : ℕ → ℕ → ℕ → Text → Text → Result {0} Unit
  unfolding audio_payload
  verify_signed_audio now asset_id expires signature secret =
      if ltb expires now
      then err (signed_url_invalid "Signed audio URL has expired")
      else if not
          (same_text (signing.hmac secret (audio_payload asset_id expires)) (lower signature))
      then err (signed_url_invalid "Invalid signed audio URL")
      else ok tt

  -- `verify_hmac_hex`
  unfoldable pub verify_hmac_hex : Text → Text → Text → Bool
  verify_hmac_hex secret payload provided =
      let hex = strip provided in
      same_text (signing.hmac secret payload)
        (lower (if starts_with (codes "sha256=") (lower hex) then drop 7 hex else hex))
