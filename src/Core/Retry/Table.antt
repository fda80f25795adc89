-- ===== src/Core/Retry/Table.antt =====
-- app/core/retry.py and app/core/errors.py: `should_retry` for each class of errors.
use deal_truth_api.Prelude.{◌≡◌, refl, not, ◌&&◌, String}
use deal_truth_api.Core.Errors.{
  ErrorClass, attrs, named, PyaiError, MlError, StorageError, AnalysisError, DatabaseError,
  RequestError,
}
use deal_truth_api.Core.Retry.{should_retry, is_not_ready}

abbrev Agrees : ErrorClass → Type 0
Agrees c =
    (message : String)
    → should_retry (named c message) ≡ ((attrs c).retryable && not (is_not_ready c))

pyai-Agrees : (e : PyaiError) → Agrees (ErrorClass.pyai e)
unfolding should_retry attrs
pyai-Agrees PyaiError.auth_failed m = refl
pyai-Agrees _ m = refl

ml-Agrees : (e : MlError) → Agrees (ErrorClass.ml e)
unfolding should_retry attrs
ml-Agrees MlError.auth_failed m = refl
ml-Agrees _ m = refl

storage-Agrees : (e : StorageError) → Agrees (ErrorClass.storage e)
unfolding should_retry attrs
storage-Agrees StorageError.blob_not_found m = refl
storage-Agrees _ m = refl

analysis-Agrees : (e : AnalysisError) → Agrees (ErrorClass.analysis e)
unfolding should_retry attrs
analysis-Agrees AnalysisError.embedding_failed m = refl
analysis-Agrees _ m = refl

database-Agrees : (e : DatabaseError) → Agrees (ErrorClass.database e)
unfolding should_retry attrs
database-Agrees DatabaseError.migration_required m = refl
database-Agrees _ m = refl

request-Agrees : (e : RequestError) → Agrees (ErrorClass.request e)
unfolding should_retry attrs
request-Agrees RequestError.not_ready_error m = refl
request-Agrees _ m = refl

-- For every class of error, an error is tried again exactly if its class says `retryable`, but for
-- `NotReadyError`, which says so and is not tried again.
pub should_retry-attrs :
    (c : ErrorClass) (message : String)
    → should_retry (named c message) ≡ ((attrs c).retryable && not (is_not_ready c))
unfolding should_retry attrs
should_retry-attrs ErrorClass.named_error = λ m. refl
should_retry-attrs (ErrorClass.pyai e) = pyai-Agrees e
should_retry-attrs (ErrorClass.ml e) = ml-Agrees e
should_retry-attrs (ErrorClass.storage e) = storage-Agrees e
should_retry-attrs (ErrorClass.analysis e) = analysis-Agrees e
should_retry-attrs (ErrorClass.database e) = database-Agrees e
should_retry-attrs (ErrorClass.request e) = request-Agrees e
should_retry-attrs ErrorClass.webhook_url_invalid = λ m. refl
