-- ===== src/Api/Audio/Uploads.antt =====
-- app/api/v1/audio.py: what an upload leaves in the rows and in the store.
use deal_truth_api.Prelude.{
  ℕ, suc, ◌≡◌, ◌≤◌, ◌<◌, refl, Option, none, some, [], ◌∷◌, ◌++◌, Text, codes, length, arith,
}
use deal_truth_api.Core.Enums.{created, queued, EventState, SourceType}
use deal_truth_api.Pipeline.State.{CallState, transition, enter, is_allowed}
use deal_truth_api.Pipeline.Session.{Result, ok, err}
use deal_truth_api.Storage.Memory.{Bytes, put_bytes, upload_stream, get_bytes}
use deal_truth_api.Storage.Memory.History.{lookup-put}
use deal_truth_api.Storage.Validate.{
  read, next_piece, counted, original_key, safe_filename, validate_audio_meta, too_large,
  invalid_audio,
}
use deal_truth_api.Api.Site.{
  Rows, Site, AudioAsset, ◌>>=◌, continue, pure, raise, lift, gets, modify, entered, move_to,
  log_event, closed, request,
}
use deal_truth_api.Api.Audio.{
  AudioSettings, put_blob, add_asset, new_id, reader_of, add_upload, refuse_empty, store_upload,
  upload_audio, or_text,
}

-- What the reader gives of one piece: all of it with its count, or an error where it is too large.
read_small :
    (b : ℕ) (bytes : Bytes) (m : ℕ)
    → length (b ∷ bytes) ≤ m
    → read (reader_of (b ∷ bytes) m) ≡ (
      ok (b ∷ bytes),
      record { stream = []; max_bytes = m; bytes_read = length (b ∷ bytes); digested = b ∷ bytes },
    )
unfolding read next_piece counted
read_small b bytes m h = ground arith

read_large :
    (b : ℕ) (bytes : Bytes) (m : ℕ)
    → m < length (b ∷ bytes)
    → (read (reader_of (b ∷ bytes) m)).0 ≡ err too_large
unfolding read next_piece counted
read_large b bytes m h = ground arith

-- The rows with an upload: its asset, the source, the status QUEUED and one event.
pub uploaded_rows : AudioAsset → Rows → Rows
uploaded_rows asset r = record {
  db = record r.db {
    call = record r.db.call { status = queued };
    events =
        r.db.events
        ++ record {
          stage = "upload";
          state = EventState.succeeded;
          attempt = 1;
          error_code = none;
          message = none;
        }
          ∷ [];
  };
  source_type = some SourceType.upload;
  assets = r.assets ++ asset ∷ [];
}

-- The asset of an upload.
pub asset_for : AudioSettings → ℕ → Option Text → Option Text → Bytes → AudioAsset
asset_for settings id filename content_type content = record {
  id = id;
  bucket = settings.bucket;
  object_key =
      original_key (settings.uuid_text 0) (safe_filename (or_text filename (codes "audio.bin")));
  original_filename = safe_filename (or_text filename (codes "audio.bin"));
  content_type = or_text content_type (codes "application/octet-stream");
  size_bytes = length content;
  digested = content;
}

module _ (settings : AudioSettings) (now : ℕ) (filename content_type : Option Text) (s : Site)
    (valid : validate_audio_meta
        (safe_filename (or_text filename (codes "audio.bin")))
        (or_text content_type (codes "application/octet-stream"))
        1
        settings.limits
      ≡ ok tt)
    (fresh_call : s.live.db.call.status ≡ created) (h : s.committed ≡ s.live) where
  upload_large :
      (b : ℕ) (bytes : Bytes)
      → settings.limits.max_audio_bytes < length (b ∷ bytes)
      → request (upload_audio settings now filename content_type (b ∷ bytes)) s ≡ (err too_large, s)
  unfolding upload_audio store_upload put_blob upload_stream request closed ◌>>=◌ continue lift
      move_to entered transition enter is_allowed
  upload_large b bytes large =
      let r = read_large b bytes settings.limits.max_audio_bytes large in ground arith

  upload_small :
      (b : ℕ) (bytes : Bytes)
      → length (b ∷ bytes) ≤ settings.limits.max_audio_bytes
      → (let asset = asset_for settings s.fresh filename content_type (b ∷ bytes) in
          let rows = uploaded_rows asset s.live in
          request (upload_audio settings now filename content_type (b ∷ bytes)) s ≡ (
            ok rows.db.call,
            record s {
              committed = rows;
              live = rows;
              blob =
                  (put_bytes
                    (asset.bucket, asset.object_key)
                    (b ∷ bytes)
                    asset.content_type
                    s.blob).1;
              fresh = suc s.fresh;
            },
          ))
  unfolding upload_audio store_upload put_blob upload_stream request closed ◌>>=◌ continue lift
      move_to entered transition enter is_allowed refuse_empty add_upload new_id add_asset modify
      log_event gets pure uploaded_rows asset_for put_bytes
  upload_small b bytes small =
      let r = read_small b bytes settings.limits.max_audio_bytes small in ground arith

  upload_empty : request (upload_audio settings now filename content_type []) s ≡ (
    err (invalid_audio "Audio file is empty"),
    record s {
      blob =
          (put_bytes
            (
              settings.bucket,
              original_key
                  (settings.uuid_text 0)
                  (safe_filename (or_text filename (codes "audio.bin"))),
            )
            []
            (or_text content_type (codes "application/octet-stream"))
            s.blob).1;
    },
  )
  unfolding upload_audio store_upload put_blob upload_stream request closed ◌>>=◌ continue lift
      move_to entered transition enter is_allowed refuse_empty put_bytes read next_piece counted
      raise
  upload_empty = ground arith

-- What an upload to a created call leaves, by its content. The rows change only where it succeeds.
pub Upload : ℕ → AudioAsset → Bytes → Site → Result CallState × Site → Type 0
Upload max_bytes asset [] s (r, t) =
    (r ≡ err (invalid_audio "Audio file is empty"))
    × (t.committed ≡ s.committed)
    × (t.live ≡ s.live)
Upload max_bytes asset (b ∷ bytes) s (r, t) =
    (max_bytes < length (b ∷ bytes) → (r ≡ err too_large) × (t ≡ s))
    × (length (b ∷ bytes) ≤ max_bytes
        → (r ≡ ok (uploaded_rows asset s.live).db.call)
          × (t.committed ≡ uploaded_rows asset s.live)
          × (t.live ≡ uploaded_rows asset s.live)
          × (t.queue ≡ s.queue)
          × (get_bytes (asset.bucket, asset.object_key) t.blob ≡ ok (b ∷ bytes)))

-- An upload of an allowed kind to a created call: without content it raises InvalidAudio, and above the
-- limit AudioTooLarge, and the rows stay as they were; and with content within the limit the call is
-- QUEUED and has one more asset, with the count of the bytes and a checksum of just these, one more
-- event, all of it committed, no task is queued yet, and the store gives the content back under the
-- asset's key.
pub upload_audio-Upload :
    (settings : AudioSettings) (now : ℕ) (filename content_type : Option Text) (content : Bytes)
    (s : Site)
    → validate_audio_meta
        (safe_filename (or_text filename (codes "audio.bin")))
        (or_text content_type (codes "application/octet-stream"))
        1
        settings.limits
      ≡ ok tt
    → s.live.db.call.status ≡ created
    → s.committed ≡ s.live
    → Upload settings.limits.max_audio_bytes
        (asset_for settings s.fresh filename content_type content)
        content
        s
        (request (upload_audio settings now filename content_type content) s)
unfolding Upload
upload_audio-Upload settings now filename content_type [] s valid fresh_call h =
    rw (upload_empty settings now filename content_type s valid fresh_call h) (refl, refl, refl)
upload_audio-Upload settings now filename content_type (b ∷ bytes) s valid fresh_call h = (
  (λ large.
      rw (upload_large settings now filename content_type s valid fresh_call h b bytes large)
        (refl, refl)),
  (λ small.
      rw (upload_small settings now filename content_type s valid fresh_call h b bytes small)
        (refl, refl, refl, refl, lookup-put _ (b ∷ bytes) _ s.blob)),
)
