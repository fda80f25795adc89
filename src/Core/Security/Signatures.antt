-- ===== src/Core/Security/Signatures.antt =====
-- app/core/security.py: what a signed address opens, and for how long.
use deal_truth_api.Prelude.{
  ℕ, ◌≡◌, ◌≤◌, refl, sym, false, Text, lower, ltb, same_text, same_text→eq, same_text_refl, arith,
  Bool-cases, inl, inr, ◌↔◌,
}
use deal_truth_api.Pipeline.Session.{ok}
use deal_truth_api.Core.Security.{
  Signing, audio_payload, build_signed_audio_query, verify_signed_audio,
}

module _ (signing : Signing) (secret : Text)
    (hexadecimal : (s p : Text) → lower (signing.hmac s p) ≡ signing.hmac s p) where
  verified-built :
      (now asset_id expires : ℕ)
      → now ≤ expires
      → (let q = build_signed_audio_query signing asset_id expires secret in
          verify_signed_audio signing now asset_id q.0 q.1 secret ≡ ok tt)
  unfolding build_signed_audio_query verify_signed_audio
  verified-built now asset_id expires h =
      let digest = signing.hmac secret (audio_payload signing asset_id expires) in
      let fresh : ltb expires now ≡ false = ground arith in
      rw (fresh, hexadecimal secret (audio_payload signing asset_id expires), same_text_refl digest)
        refl

  verified-signed :
      (now asset_id expires : ℕ) (signature : Text)
      → verify_signed_audio signing now asset_id expires signature secret ≡ ok tt
      → (now ≤ expires)
        × (lower signature ≡ signing.hmac secret (audio_payload signing asset_id expires))
  unfolding verify_signed_audio
  verified-signed now asset_id expires signature h =
      let digest = signing.hmac secret (audio_payload signing asset_id expires) in
      elim (Bool-cases (ltb expires now)) [
        | inl late ↦ absurd (cc (rw late at h))
        | inr fresh ↦ elim (Bool-cases (same_text digest (lower signature))) [
          | inl same ↦ (ground arith, sym (same_text→eq digest (lower signature) same))
          | inr other ↦ absurd (cc (rw (fresh, other) at h))
        ]
      ]

  -- Where the digest of the library is in lower case: the query that the program signs for a recording
  -- opens it up to and including the second at which it expires and not later; and whatever query opens
  -- a recording has not expired, and its signature is the digest of this recording's id and this
  -- expiry, up to the case of its letters.
  pub verify_signed_audio_lem :
      (now asset_id expires : ℕ)
      → (let q = build_signed_audio_query signing asset_id expires secret in
          (verify_signed_audio signing now asset_id q.0 q.1 secret ≡ ok tt) ↔ (now ≤ expires))
        × ((signature : Text)
            → verify_signed_audio signing now asset_id expires signature secret ≡ ok tt
            → (now ≤ expires)
              × (lower signature ≡ signing.hmac secret (audio_payload signing asset_id expires)))
  verify_signed_audio_lem now asset_id expires =
      let q = build_signed_audio_query signing asset_id expires secret in
      (
        (
          (λ h.
              (verified-signed now asset_id expires q.1 (unfold build_signed_audio_query in h)).0),
          (λ h. verified-built now asset_id expires h),
        ),
        verified-signed now asset_id expires,
      )
