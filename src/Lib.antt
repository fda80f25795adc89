-- ===== src/Lib.antt =====
-- A model of the core of Deal Truth (app/): from the upload of a recorded sales call over its stored
-- transcript to the insights in its report, with the requests that work on a call meanwhile.
--
-- The parts and how they interact. `run_pipeline` (app/pipeline/runner.py) moves a call through its
-- statuses by `transition`, stores a transcript whose speakers `resolve_speakers` has given roles,
-- asks the nine extractors for candidates, lets `validate_candidates` judge them against the
-- transcript, and stores what ships and what is refused as a new version of the analysis, with
-- chunks of the transcript for retrieval. A task (app/tasks/) runs it, and is tried again after some
-- errors. The handlers of the HTTP interface (app/api/v1/) put a recording into the store, queue the
-- call, cancel it, correct its speakers, and show its events and its deal; each works in one
-- transaction, and commits before it queues a task.
--
-- Which file models what:
--   Core/Enums           app/core/enums.py, the enumerations
--   Core/Errors          app/core/errors.py, the classes of errors with their attributes, and
--                        `WebhookURLInvalid` of app/api/v1/integrations.py
--   Core/Retry           app/core/retry.py, `should_retry`
--   Pipeline/State       app/pipeline/state.py, `ALLOWED`, `transition`; `log_event` is in Session
--   Pipeline/Session     the rows of one call and a transaction on them
--   Pipeline/Persist     app/pipeline/persist.py
--   Pipeline/Runner      app/pipeline/runner.py, `run_pipeline` and its handlers; Runner/Deps has what
--                        the services answer, Runner/Stages and Runner/Analysis the stages
--   Pipeline/Analyze     app/pipeline/runner.py, `_analyze` from the labelled views to the insights
--   Providers/Normalized app/providers/normalized.py
--   Ml/Axes              app/ml/__init__.py, `EmotionAxes`
--   Intelligence/Domain  app/intelligence/domain.py
--   Intelligence/Extract app/intelligence/extract.py, each group of extractors in a child
--   Intelligence/Speakers app/intelligence/speakers.py
--   Intelligence/Ask     app/intelligence/ask.py, `chunk_segments`
--   Evidence             app/evidence/__init__.py
--   Intelligence/Dimensions app/intelligence/dimensions.py
--   Intelligence/Metrics app/intelligence/metrics.py
--   Ml/Json, Ml/Batch, Ml/Rows app/ml/__init__.py, the documents of the service, the requests in batches
--                        with the alignment of their rows, and what the rows are read as
--   Ml/Labels            app/ml/__init__.py, the names of the sales labels and `classify`
--   Storage/Memory       app/storage/memory.py and app/storage/base.py
--   Storage/Validate     app/storage/validate.py and app/storage/keys.py
--   Storage/Ssrf         app/storage/ssrf.py
--   Core/Security        app/core/security.py
--   Api/Site             app/api/deps.py, what a request works on and the end of its transaction
--   Api/Calls            app/api/v1/calls.py, `process_call`, `reanalyze_call`, `cancel_call`,
--                        `patch_speakers` and `get_transcript`
--   Api/Overview         app/api/v1/calls.py, `create_call`, `list_calls` and `calls_overview`
--   Api/Events           app/api/v1/calls.py, `list_events` and `stream_events`
--   Api/Audio            app/api/v1/audio.py
--   Api/Deals            app/api/v1/deals.py
--   Api/Share            app/api/v1/share.py
--   Tasks                app/tasks/pipeline_tasks.py
--   Samples              a small call and its runs, and the theorems applied to them
-- Prelude and its children hold what the files share. A file below a file of this list has theorems
-- about it.
--
-- Conventions. A UUID is a number; a time is in milliseconds; a score or a confidence is a number of
-- ten-thousandths, so that the sums and comparisons of the source are exact where those of its
-- floats may round. A text is a list of code points, and `lower`, `title` and `strip` map the
-- ASCII characters. A dict is an association list. The sentence that a refusal gives and the message
-- of an event are constructors with what the sentence quotes. A status, an outcome and a kind are
-- enumerations, an exception is its class with a message. Loops are recursion on the list that they
-- go through; the polls for a transcript recur on their number before the deadline, which is a
-- parameter and ends, as in the source, in `PyAIJobTimeout`.
--
-- A run works on a session: what is committed, what the run sees, and what other sessions make of the
-- call by the end of each transaction. A commit writes the columns of the call that the run has
-- changed and reads nothing again (app/db/__init__.py, `expire_on_commit=False`); a rollback reads
-- the call again. Other sessions are taken to change no other row of the call during a run. The
-- services are parameters: each answers or raises whatever the theorems are applied to. Celery's `retry`
-- is a parameter too, with what its documentation says of `max_retries` as a hypothesis.
--
-- A request works on the rows of one call, which other requests are taken not to change meanwhile; the
-- blob store is in no transaction. The stream of events recurs on one round for each millisecond of its
-- budget, of which it takes at most as many as there are polls; a fetch recurs on the redirects that are
-- allowed, a task on its retries, and the digits of a number on the number.
--
-- Not modelled: the HTTP exchanges of the providers and of the inference service, the S3 client, the web
-- framework, the configuration, and the text of reports and emails; the search, the report, the webhook
-- and the integrations of the HTTP interface, and the reading and deletion of one call. Errors that the
-- database raises are left out, and so are the webhook's address, which only the provider sees, and
-- negative numbers in the answers of the inference service, which sends none.
pub mod Prelude
pub mod Core
pub mod Pipeline
pub mod Providers
pub mod Ml
pub mod Intelligence
pub mod Evidence
pub mod Storage
pub mod Api
pub mod Tasks
pub mod Samples
