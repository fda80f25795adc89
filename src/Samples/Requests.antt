-- ===== src/Samples/Requests.antt =====
-- Requests on the small call, and the theorems on the handlers applied to them.
use deal_truth_api.Prelude.{
  ℕ, ◌+◌, ◌≡◌, refl, true, false, some, none, List, [], ◌∷◌, Text, codes, Memᴰ, arith, same_text,
  lower, strip,
}
use deal_truth_api.Core.Enums.{CallStatus, created, failed, shipped, analyzing, SpeakerRole}
use deal_truth_api.Pipeline.Session.{SpeakerRow, err}
use deal_truth_api.Pipeline.Persist.{persist_transcript}
use deal_truth_api.Storage.Memory.{same_key, lookup_object}
use deal_truth_api.Storage.Validate.{
  validate_audio_meta, safe_filename, path_suffix, mime_of, suffix_of, suffix_from, path_name,
  split_on, last_part, is_part, slashed, cleaned, is_safe, strip_margin, strip_left,
}
use deal_truth_api.Api.Site.{Rows, Site, AudioAsset, request}
use deal_truth_api.Api.Calls.{
  process_call, reanalyze_call, cancel_call, SpeakerPatch, patched_rows, patched_from, patched_row,
  speaker_by_id, set_row, overridden, patch_speakers,
}
use deal_truth_api.Api.Calls.Cancel.{Cancellation, cancel_call-Cancellation}
use deal_truth_api.Api.Calls.Reanalyze.{
  Reanalysis, reanalyze_call-Reanalysis, Processing, process_call-Processing,
}
use deal_truth_api.Api.Calls.Speakers.{patched_rows_kept}
use deal_truth_api.Api.Calls.Speakers.Corrections.{Correction, patch_speakers-Correction}
use deal_truth_api.Api.Audio.{AudioSettings, upload_audio, stream_asset}
use deal_truth_api.Api.Audio.Ranges.Asked.{asked}
use deal_truth_api.Api.Audio.Ranges.Delivery.{Delivers, stream_asset-Delivers}
use deal_truth_api.Api.Audio.Uploads.{Upload, asset_for, upload_audio-Upload}
use deal_truth_api.Api.Events.{production, Snapshot, stream_events}
use deal_truth_api.Api.Events.Closing.{Ended, stream_events-Ended}
use deal_truth_api.Api.Share.{
  ShareLink, link_for, revoke_share, revoke_found, link_by_id, set_revoked, get_shared,
  invalid_token,
}
use deal_truth_api.Api.Share.Tokens.{get_shared-revoke_share}
use deal_truth_api.Api.Overview.{ListedCall, calls_overview}
use deal_truth_api.Api.Overview.Counts.{calls_overview_total}
use deal_truth_api.Samples.{waiting, db, heard, resolved, session, set_by_hand}

abbrev asset : AudioAsset
asset = record {
  id = 7;
  bucket = codes "audio";
  object_key = codes "calls/0/original/a.mp3";
  original_filename = codes "a.mp3";
  content_type = codes "audio/mpeg";
  size_bytes = 4;
  digested = 1 ∷ 2 ∷ 3 ∷ 4 ∷ [];
}

abbrev rows_at : CallStatus → Rows
rows_at status = record {
  db = record db { call = record waiting { status = status } };
  source_type = none;
  assets = asset ∷ [];
}

abbrev site_at : CallStatus → Site
site_at status = record {
  committed = rows_at status;
  live = rows_at status;
  blob = record {
    objects =
        ((codes "audio", codes "calls/0/original/a.mp3"), (1 ∷ 2 ∷ 3 ∷ 4 ∷ [], codes "audio/mpeg"))
        ∷ [];
    buckets = codes "audio" ∷ [];
  };
  queue = [];
  fresh = 30;
}

cancel_call-Cancellation_example :
    Cancellation 9 failed (site_at failed) (request (cancel_call 9) (site_at failed))
cancel_call-Cancellation_example = cancel_call-Cancellation 9 (site_at failed) refl

reanalyze_call-Reanalysis_example :
    Reanalysis shipped true (site_at shipped) (request (reanalyze_call 9) (site_at shipped))
reanalyze_call-Reanalysis_example = reanalyze_call-Reanalysis 9 (site_at shipped) refl

process_call-Processing_example :
    Processing created false (site_at created) (request (process_call 9) (site_at created))
process_call-Processing_example = process_call-Processing 9 (site_at created) refl

-- The customer is the seller after all.
abbrev correction : SpeakerPatch
correction = record {
  speaker_id = 3;
  swap_with = none;
  role = some SpeakerRole.seller;
  display_name = none;
}

patch_speakers-Correction_example :
    Correction correction
      (site_at shipped)
      (request (patch_speakers 9 correction) (site_at shipped))
patch_speakers-Correction_example = patch_speakers-Correction 9 correction (site_at shipped) refl

abbrev corrected_row : SpeakerRow
corrected_row = record set_by_hand { role = SpeakerRole.seller; manually_overridden = true }

patched_rows_kept_example :
    Memᴰ corrected_row
      (persist_transcript heard resolved
        (record session { live = record db { speakers = corrected_row ∷ [] } })).1.live.speakers
unfolding patched_rows patched_from patched_row speaker_by_id set_row overridden
patched_rows_kept_example =
    patched_rows_kept correction db.speakers (corrected_row ∷ []) corrected_row heard resolved
      (record session { live = record db { speakers = corrected_row ∷ [] } }) refl (Memᴰ.head refl)
      refl refl

stream_asset-Delivers_example :
    Delivers
      (1 ∷ 2 ∷ 3 ∷ 4 ∷ [])
      (asked (some (codes "bytes=1-2")))
      (stream_asset asset (some (codes "bytes=1-2")) (site_at shipped).blob)
unfolding lookup_object same_key same_text
stream_asset-Delivers_example =
    stream_asset-Delivers asset (site_at shipped).blob (1 ∷ 2 ∷ 3 ∷ 4 ∷ []) (codes "audio/mpeg")
      refl (omega arith) (some (codes "bytes=1-2")) refl

abbrev settings : AudioSettings
settings = record {
  bucket = codes "audio";
  limits = record {
    max_audio_bytes = 3;
    allowed_ext_set = codes ".mp3" ∷ [];
    allowed_mime_set = codes "audio/mpeg" ∷ [];
  };
  uuid_text = λ n. codes "0";
}

upload_audio-Upload_example :
    Upload 3
      (asset_for settings 30 (some (codes "b.mp3")) (some (codes "audio/mpeg")) (8 ∷ 9 ∷ []))
      (8 ∷ 9 ∷ [])
      (site_at created)
      (request
        (upload_audio settings 9 (some (codes "b.mp3")) (some (codes "audio/mpeg")) (8 ∷ 9 ∷ []))
        (site_at created))
unfolding validate_audio_meta path_suffix mime_of suffix_of suffix_from path_name split_on last_part
    is_part safe_filename slashed cleaned is_safe strip_margin strip_left same_text lower strip
upload_audio-Upload_example =
    upload_audio-Upload settings 9 (some (codes "b.mp3")) (some (codes "audio/mpeg")) (8 ∷ 9 ∷ [])
      (site_at created) refl refl refl

abbrev snapshots : ℕ → Snapshot
snapshots n = some (analyzing, [])

stream_events-Ended_example : Ended production snapshots 0 (stream_events production snapshots none)
stream_events-Ended_example = stream_events-Ended production snapshots none (omega arith)

abbrev link : ShareLink
link = record { id = 5; call_id = 1; token_hash = codes "h"; expires_at = 100; revoked_at = none }

abbrev hash : Text → Text
hash t = codes "h"

get_shared-revoke_share_example :
    get_shared hash 8 (codes "token") (record link { revoked_at = some 6 } ∷ [])
    ≡ err (invalid_token "Share link is invalid")
unfolding revoke_share revoke_found link_by_id set_revoked link_for same_text
get_shared-revoke_share_example =
    get_shared-revoke_share hash 6 8 1 5 (codes "token") (link ∷ [])
      (record link { revoked_at = some 6 } ∷ []) link refl refl

abbrev listed : ListedCall
listed = record {
  id = 1;
  title = none;
  status = shipped;
  duration_ms = some 60;
  created_at = 5;
  runs = [];
}

abbrev listed_calls : List ListedCall
listed_calls = listed ∷ record listed { id = 2; status = analyzing } ∷ []

calls_overview_total_example :
    (let o = calls_overview listed_calls in
      o.shipped_calls + o.partial_calls + o.failed_calls + o.cancelled_calls + o.processing
      ≡ o.total_calls)
calls_overview_total_example = calls_overview_total listed_calls
