-- ===== src/Core/Errors.antt =====
-- app/core/errors.py, and `WebhookURLInvalid` of app/api/v1/integrations.py: the typed errors, a data type for
-- each section of the file, and their class attributes. An error's `details` are shown to the client only
-- and are left out.
use deal_truth_api.Prelude.{ℕ, Bool, true, false, String}
use deal_truth_api.Core.Enums.{FailureKind}

-- The class attributes of `NamedError`.
pub record ErrorAttrs : Type 0 where
  pub code : String
  pub http_status : ℕ
  pub retryable : Bool
  pub failure_kind : FailureKind

pub data PyaiError : Type 0 where
  auth_failed payment_required scope_missing submit_failed webhook_signature_invalid job_failed
        job_cancelled job_timeout result_fetch_failed recap_pending_timeout recap_failed :
      PyaiError

unfoldable pub pyai_attrs : PyaiError → ErrorAttrs
pyai_attrs auth_failed = record {
  code = "PYAI_AUTH_FAILED";
  http_status = 502;
  retryable = false;
  failure_kind = FailureKind.transcription;
}
pyai_attrs payment_required = record {
  code = "PYAI_PAYMENT_REQUIRED";
  http_status = 402;
  retryable = false;
  failure_kind = FailureKind.transcription;
}
pyai_attrs scope_missing = record {
  code = "PYAI_SCOPE_MISSING";
  http_status = 502;
  retryable = false;
  failure_kind = FailureKind.recap;
}
pyai_attrs submit_failed = record {
  code = "PYAI_SUBMIT_FAILED";
  http_status = 502;
  retryable = true;
  failure_kind = FailureKind.transcription;
}
pyai_attrs webhook_signature_invalid = record {
  code = "PYAI_WEBHOOK_SIGNATURE_INVALID";
  http_status = 401;
  retryable = false;
  failure_kind = FailureKind.user_input;
}
pyai_attrs job_failed = record {
  code = "PYAI_JOB_FAILED";
  http_status = 502;
  retryable = false;
  failure_kind = FailureKind.transcription;
}
pyai_attrs job_cancelled = record {
  code = "PYAI_JOB_CANCELLED";
  http_status = 409;
  retryable = false;
  failure_kind = FailureKind.transcription;
}
pyai_attrs job_timeout = record {
  code = "PYAI_JOB_TIMEOUT";
  http_status = 504;
  retryable = true;
  failure_kind = FailureKind.infrastructure;
}
pyai_attrs result_fetch_failed = record {
  code = "PYAI_RESULT_FETCH_FAILED";
  http_status = 502;
  retryable = true;
  failure_kind = FailureKind.infrastructure;
}
pyai_attrs recap_pending_timeout = record {
  code = "PYAI_RECAP_PENDING_TIMEOUT";
  http_status = 504;
  retryable = true;
  failure_kind = FailureKind.recap;
}
pyai_attrs recap_failed = record {
  code = "PYAI_RECAP_FAILED";
  http_status = 502;
  retryable = false;
  failure_kind = FailureKind.recap;
}

pub data MlError : Type 0 where
  service_unavailable auth_failed model_not_ready inference_failed generation_disabled
        response_invalid :
      MlError

unfoldable pub ml_attrs : MlError → ErrorAttrs
ml_attrs service_unavailable = record {
  code = "ML_SERVICE_UNAVAILABLE";
  http_status = 503;
  retryable = true;
  failure_kind = FailureKind.ml_inference;
}
ml_attrs auth_failed = record {
  code = "ML_AUTH_FAILED";
  http_status = 502;
  retryable = false;
  failure_kind = FailureKind.ml_inference;
}
ml_attrs model_not_ready = record {
  code = "ML_MODEL_NOT_READY";
  http_status = 503;
  retryable = true;
  failure_kind = FailureKind.ml_inference;
}
ml_attrs inference_failed = record {
  code = "ML_INFERENCE_FAILED";
  http_status = 502;
  retryable = true;
  failure_kind = FailureKind.ml_inference;
}
ml_attrs generation_disabled = record {
  code = "ML_GENERATION_DISABLED";
  http_status = 503;
  retryable = false;
  failure_kind = FailureKind.ml_inference;
}
ml_attrs response_invalid = record {
  code = "ML_RESPONSE_INVALID";
  http_status = 502;
  retryable = false;
  failure_kind = FailureKind.ml_inference;
}

pub data StorageError : Type 0 where
  blob_upload_failed blob_download_failed blob_not_found invalid_audio audio_too_large :
      StorageError

unfoldable pub storage_attrs : StorageError → ErrorAttrs
storage_attrs blob_upload_failed = record {
  code = "BLOB_UPLOAD_FAILED";
  http_status = 502;
  retryable = true;
  failure_kind = FailureKind.storage;
}
storage_attrs blob_download_failed = record {
  code = "BLOB_DOWNLOAD_FAILED";
  http_status = 502;
  retryable = true;
  failure_kind = FailureKind.storage;
}
storage_attrs blob_not_found = record {
  code = "BLOB_NOT_FOUND";
  http_status = 404;
  retryable = false;
  failure_kind = FailureKind.storage;
}
storage_attrs invalid_audio = record {
  code = "INVALID_AUDIO";
  http_status = 400;
  retryable = false;
  failure_kind = FailureKind.user_input;
}
storage_attrs audio_too_large = record {
  code = "AUDIO_TOO_LARGE";
  http_status = 413;
  retryable = false;
  failure_kind = FailureKind.user_input;
}

pub data AnalysisError : Type 0 where
  speaker_role_unresolved evidence_segment_missing evidence_wrong_speaker evidence_unsupported
        analysis_schema_invalid embedding_failed :
      AnalysisError

unfoldable pub analysis_attrs : AnalysisError → ErrorAttrs
analysis_attrs speaker_role_unresolved = record {
  code = "SPEAKER_ROLE_UNRESOLVED";
  http_status = 422;
  retryable = false;
  failure_kind = FailureKind.validation;
}
analysis_attrs evidence_segment_missing = record {
  code = "EVIDENCE_SEGMENT_MISSING";
  http_status = 422;
  retryable = false;
  failure_kind = FailureKind.validation;
}
analysis_attrs evidence_wrong_speaker = record {
  code = "EVIDENCE_WRONG_SPEAKER";
  http_status = 422;
  retryable = false;
  failure_kind = FailureKind.validation;
}
analysis_attrs evidence_unsupported = record {
  code = "EVIDENCE_UNSUPPORTED";
  http_status = 422;
  retryable = false;
  failure_kind = FailureKind.validation;
}
analysis_attrs analysis_schema_invalid = record {
  code = "ANALYSIS_SCHEMA_INVALID";
  http_status = 422;
  retryable = false;
  failure_kind = FailureKind.validation;
}
analysis_attrs embedding_failed = record {
  code = "EMBEDDING_FAILED";
  http_status = 502;
  retryable = true;
  failure_kind = FailureKind.ml_inference;
}

pub data DatabaseError : Type 0 where
  database_write_failed migration_required : DatabaseError

unfoldable pub database_attrs : DatabaseError → ErrorAttrs
database_attrs database_write_failed = record {
  code = "DATABASE_WRITE_FAILED";
  http_status = 500;
  retryable = true;
  failure_kind = FailureKind.database;
}
database_attrs migration_required = record {
  code = "MIGRATION_REQUIRED";
  http_status = 503;
  retryable = false;
  failure_kind = FailureKind.database;
}

pub data RequestError : Type 0 where
  not_found_error conflict_error not_ready_error unauthorized_error forbidden_error
        invalid_source_url share_token_invalid signed_url_invalid call_cancelled :
      RequestError

unfoldable pub request_attrs : RequestError → ErrorAttrs
request_attrs not_found_error = record {
  code = "NOT_FOUND";
  http_status = 404;
  retryable = false;
  failure_kind = FailureKind.user_input;
}
request_attrs conflict_error = record {
  code = "CONFLICT";
  http_status = 409;
  retryable = false;
  failure_kind = FailureKind.user_input;
}
request_attrs not_ready_error = record {
  code = "NOT_READY";
  http_status = 409;
  retryable = true;
  failure_kind = FailureKind.user_input;
}
request_attrs unauthorized_error = record {
  code = "UNAUTHORIZED";
  http_status = 401;
  retryable = false;
  failure_kind = FailureKind.user_input;
}
request_attrs forbidden_error = record {
  code = "FORBIDDEN";
  http_status = 403;
  retryable = false;
  failure_kind = FailureKind.user_input;
}
request_attrs invalid_source_url = record {
  code = "INVALID_SOURCE_URL";
  http_status = 400;
  retryable = false;
  failure_kind = FailureKind.user_input;
}
request_attrs share_token_invalid = record {
  code = "SHARE_TOKEN_INVALID";
  http_status = 404;
  retryable = false;
  failure_kind = FailureKind.user_input;
}
request_attrs signed_url_invalid = record {
  code = "SIGNED_URL_INVALID";
  http_status = 403;
  retryable = false;
  failure_kind = FailureKind.user_input;
}
request_attrs call_cancelled = record {
  code = "CALL_CANCELLED";
  http_status = 409;
  retryable = false;
  failure_kind = FailureKind.user_input;
}

-- `WebhookURLInvalid` (app/api/v1/integrations.py)
abbrev webhook_url_attrs : ErrorAttrs
webhook_url_attrs = record {
  code = "WEBHOOK_URL_INVALID";
  http_status = 400;
  retryable = false;
  failure_kind = FailureKind.user_input;
}

-- A class that `NamedError` is or has below it.
pub data ErrorClass : Type 0 where
  named_error : ErrorClass
  pyai : PyaiError → ErrorClass
  ml : MlError → ErrorClass
  storage : StorageError → ErrorClass
  analysis : AnalysisError → ErrorClass
  database : DatabaseError → ErrorClass
  request : RequestError → ErrorClass
  webhook_url_invalid : ErrorClass

unfoldable pub attrs : ErrorClass → ErrorAttrs
unfolding pyai_attrs ml_attrs storage_attrs analysis_attrs database_attrs request_attrs
attrs named_error = record {
  code = "INTERNAL_ERROR";
  http_status = 500;
  retryable = false;
  failure_kind = FailureKind.infrastructure;
}
attrs (pyai e) = pyai_attrs e
attrs (ml e) = ml_attrs e
attrs (storage e) = storage_attrs e
attrs (analysis e) = analysis_attrs e
attrs (database e) = database_attrs e
attrs (request e) = request_attrs e
attrs webhook_url_invalid = webhook_url_attrs

-- An exception: a `NamedError` with its message, or any other with the name of its type.
pub data Exception : Type 0 where
  named : ErrorClass → String → Exception
  other : String → Exception
