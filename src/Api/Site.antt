-- ===== src/Api/Site.antt =====
-- app/api/deps.py: what a request works on. The rows of one call with a transaction on them
-- (`get_sync_session`), the blob store and the queue of the workers.
use deal_truth_api.Prelude.{ℕ, Option, none, List, [], ◌∷◌, ◌++◌, String, Text}
use deal_truth_api.Core.Enums.{CallStatus, SourceType, EventState}
use deal_truth_api.Core.Errors.{Exception, named, ErrorClass}
use deal_truth_api.Pipeline.State.{Transition, moved, refused, transition}
use deal_truth_api.Pipeline.Session.{Db, Result, ok, err}
use deal_truth_api.Storage.Memory.{Bytes, Store}

-- `AudioAsset`; `digested` are the bytes that the checksum is of.
pub record AudioAsset : Type 0 where
  pub id : ℕ
  pub bucket : Text
  pub object_key : Text
  pub original_filename : Text
  pub content_type : Text
  pub size_bytes : ℕ
  pub digested : Bytes

-- The rows of one call.
pub record Rows : Type 0 where
  pub db : Db
  pub source_type : Option SourceType
  pub assets : List AudioAsset

-- `committed` is what other sessions see, `live` what this one has written. `queue` has, for each
-- `enqueue_process`, the rows that were committed when the task was put there. Bytes in the blob store
-- are in no transaction. Other requests are taken not to write to the call during this one.
pub record Site : Type 0 where
  pub committed : Rows
  pub live : Rows
  pub blob : Store
  pub queue : List Rows
  pub fresh : ℕ

abbrev pub Handler : Type 0 → Type 0
Handler A = Site → Result A × Site

unfoldable pub continue : {A B : Type 0} → Result A → (A → Handler B) → Handler B
continue (ok a) f s = f a s
continue (err e) f s = (err e, s)

infixl 10 ◌>>=◌ ◌>>◌
unfoldable pub ◌>>=◌ : {A B : Type 0} → Handler A → (A → Handler B) → Handler B
unfolding continue
◌>>=◌ m f s = let (r, s') = m s in continue r f s'

abbrev pub ◌>>◌ : {A B : Type 0} → Handler A → Handler B → Handler B
m >> n = m >>= λ _. n

unfoldable pub pure : {A : Type 0} → A → Handler A
pure a s = (ok a, s)

unfoldable pub raise : {A : Type 0} → Exception → Handler A
raise e s = (err e, s)

unfoldable pub lift : {A : Type 0} → Result A → Handler A
lift r s = (r, s)

unfoldable pub gets : {A : Type 0} → (Rows → A) → Handler A
gets f s = (ok (f s.live), s)

unfoldable pub modify : (Rows → Rows) → Handler Unit
modify f s = (ok tt, record s { live = f s.live })

unfoldable pub commit : Handler Unit
commit s = (ok tt, record s { committed = s.live })

-- `container.enqueue_process`
unfoldable pub enqueue_process : Handler Unit
enqueue_process s = (ok tt, record s { queue = s.queue ++ s.committed ∷ [] })

unfoldable pub entered : Transition → Handler Unit
entered (moved c) s =
    (ok tt, record s { live = record s.live { db = record s.live.db { call = c } } })
entered (refused e) s = (err (named (ErrorClass.request e) "Illegal state transition"), s)

-- `transition(session, call, target)`
unfoldable pub move_to : ℕ → CallStatus → Handler Unit
unfolding entered
move_to now target s = entered (transition now s.live.db.call target none) s

-- `log_event(session, call, stage=stage, state=state)`
unfoldable pub log_event : String → EventState → Handler Unit
log_event stage state = modify (λ r. record r {
  db = record r.db {
    events =
        r.db.events
        ++ record { stage = stage; state = state; attempt = 1; error_code = none; message = none }
          ∷ [];
  };
})

-- The end of a request: `get_sync_session` commits, or rolls back what is not committed.
unfoldable pub closed : {A : Type 0} → Result A × Site → Result A × Site
closed (ok a, s) = (ok a, record s { committed = s.live })
closed (err e, s) = (err e, record s { live = s.committed })

-- A request on a call that may not be there: `_get_call` raises for one that is not.
unfoldable pub request : {A : Type 0} → Handler A → Site → Result A × Site
unfolding closed
request h s = closed (h s)
