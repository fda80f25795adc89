-- ===== src/Core/Retry.antt =====
-- app/core/retry.py: which errors are tried again.
pub mod Table
use deal_truth_api.Prelude.{
  Bool, true, false, ◌&&◌, String, List, [], ◌∷◌, any, str_eq, if◌then◌else◌,
}
use deal_truth_api.Core.Enums.{FailureKind, same_kind}
use deal_truth_api.Core.Errors.{
  ErrorClass, ErrorAttrs, attrs, Exception, named, other, RequestError,
}

abbrev pub retryable_codes : List String
retryable_codes =
    "PYAI_SUBMIT_FAILED" ∷ "PYAI_JOB_TIMEOUT" ∷ "PYAI_RESULT_FETCH_FAILED"
    ∷ "PYAI_RECAP_PENDING_TIMEOUT" ∷ "ML_SERVICE_UNAVAILABLE" ∷ "ML_MODEL_NOT_READY"
    ∷ "ML_INFERENCE_FAILED" ∷ "BLOB_UPLOAD_FAILED" ∷ "BLOB_DOWNLOAD_FAILED"
    ∷ "DATABASE_WRITE_FAILED" ∷ "EMBEDDING_FAILED" ∷ []

abbrev pub non_retryable_codes : List String
non_retryable_codes =
    "EVIDENCE_SEGMENT_MISSING" ∷ "EVIDENCE_WRONG_SPEAKER" ∷ "EVIDENCE_UNSUPPORTED"
    ∷ "ANALYSIS_SCHEMA_INVALID" ∷ "INVALID_AUDIO" ∷ "AUDIO_TOO_LARGE" ∷ "PYAI_AUTH_FAILED"
    ∷ "PYAI_PAYMENT_REQUIRED" ∷ "PYAI_SCOPE_MISSING" ∷ "PYAI_WEBHOOK_SIGNATURE_INVALID"
    ∷ "PYAI_JOB_FAILED" ∷ "PYAI_JOB_CANCELLED" ∷ "PYAI_RECAP_FAILED" ∷ "ML_AUTH_FAILED"
    ∷ "ML_GENERATION_DISABLED" ∷ "ML_RESPONSE_INVALID" ∷ "BLOB_NOT_FOUND"
    ∷ "SPEAKER_ROLE_UNRESOLVED" ∷ "INVALID_SOURCE_URL" ∷ []

listed : String → List String → Bool
listed code codes = any (λ c. str_eq c code) codes

-- The order of the tests in `should_retry`, for an error's attributes.
attrs_retry : ErrorAttrs → Bool
unfolding listed
attrs_retry a =
    if listed a.code non_retryable_codes
    then false
    else if listed a.code retryable_codes
    then true
    else a.retryable && same_kind a.failure_kind FailureKind.infrastructure

unfoldable pub should_retry : Exception → Bool
unfolding attrs_retry
should_retry (named c message) = attrs_retry (attrs c)
should_retry (other type_name) = false

abbrev pub is_not_ready : ErrorClass → Bool
is_not_ready (ErrorClass.request RequestError.not_ready_error) = true
is_not_ready _ = false
