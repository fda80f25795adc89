-- ===== src/Samples/Services.antt =====
-- Answers of services and stores, and the theorems on what the program makes of them.
use deal_truth_api.Core.Enums.{SpeakerRole}
use deal_truth_api.Prelude.{
  if◌then◌else◌, ltb, ℕ, ◌≡◌, ◌<◌, ◌⊎◌, ◌↔◌, refl, ap, false, some, none, List, [], ◌∷◌, Text,
  codes, Memᴰ, All, All-map, All-mem_self, Forall₂, arith, ◌≤◌, length, map, lower,
}
use deal_truth_api.Core.Errors.{named, ErrorClass, MlError}
use deal_truth_api.Core.Security.{Signing, build_signed_audio_query, verify_signed_audio}
use deal_truth_api.Core.Security.Signatures.{verify_signed_audio_lem}
use deal_truth_api.Pipeline.Session.{ok, err}
use deal_truth_api.Intelligence.Extract.{customer_segments, best, max_label, quantified_pain}
use deal_truth_api.Intelligence.Extract.Customer.{extract_buying_intent}
use deal_truth_api.Intelligence.Dimensions.{signal_pips}
use deal_truth_api.Intelligence.Dimensions.Pips.{
  as_signal, hit_state, signal_pips-extract_buying_intent,
}
use deal_truth_api.Intelligence.Metrics.{
  Run, run_ms, longest_monologue, no_monologue, compute_metrics, total_of,
}
use deal_truth_api.Intelligence.Metrics.Monologues.{Runs, Of, longest_monologue_lem}
use deal_truth_api.Intelligence.Metrics.Talk.{
  spoken_total, question_total, spoken_by, entry, Nearest, compute_metrics_totals,
}
use deal_truth_api.Ml.Json.{Json, integer, array, object, field, empty, items_of, list_of, get}
use deal_truth_api.Ml.Batch.{
  Item, Reply, replied, request_items, decimal, row_key, rows_in, batched_rows,
}
use deal_truth_api.Ml.Batch.Ids.{value_from, value-decimal_from}
use deal_truth_api.Ml.Batch.Aligned.{Answers, RowOf, batched_rows-RowOf}
use deal_truth_api.Ml.Rows.{Spelling, parse_emotion_axes}
use deal_truth_api.Ml.Rows.Unscored.{Yields, AxesSo, AxisRaises, parse_emotion_axes-AxesSo}
use deal_truth_api.Storage.Memory.{get_bytes, exists}
use deal_truth_api.Storage.Memory.History.{
  Write, put, gone, perform_all, changed_all, empty as no_objects, answer, get_bytes-perform_all,
}
use deal_truth_api.Storage.Validate.{Reader, safe_filename, drain}
use deal_truth_api.Storage.Validate.Names.{IsName, safe_filename-IsName}
use deal_truth_api.Storage.Validate.Sizes.{Drained, drain-Drained}
use deal_truth_api.Storage.Ssrf.{Net, v4, Flags, fetch_https_source}
use deal_truth_api.Storage.Ssrf.Public.{InRounds, Kept, fetch_https_source-InRounds}
use deal_truth_api.Tasks.{RetrySettings, Retry, retried, raised, deliveries}
use deal_truth_api.Tasks.Attempts.{Attempts, Retries, deliveries-Attempts}
use deal_truth_api.Api.Deals.{DealCall, deal_deltas}
use deal_truth_api.Api.Deals.Series.{Steps, patched-deal_deltas}
use deal_truth_api.Samples.{call, verdicts}

-- A service that answers each request with the rows of its items, whose ids are whole numbers.
abbrev row : Item → Json
row (i, t) =
    object (field "id" (integer (value_from 0 i)) (field "vector" (array (items_of [])) empty))

abbrev service : List Item → Reply
service items = replied 200 (some (array (items_of (map row items))))

list_of-items_of : (rows : List Json) → list_of (items_of rows) ≡ rows
unfolding list_of items_of
list_of-items_of [] = refl
list_of-items_of (j ∷ rows) = ap (λ (l : List Json). j ∷ l) (list_of-items_of rows)

row_key-row : (index : ℕ) (t : Text) → row_key (row (decimal index, t)) ≡ some (decimal index)
unfolding row_key get
row_key-row index t =
    ap (λ n. some (decimal n)) (unfold decimal in value-decimal_from index index (omega arith))

map-length : (items : List Item) → length (map row items) ≡ length items
map-length [] = refl
map-length (i ∷ items) = omega (arith, map-length items)

row-mem : {it : Item} (items : List Item) → Memᴰ it items → Memᴰ (row it) (map row items)
row-mem [] m = elim m [ ]
row-mem (i ∷ items) (Memᴰ.head e) = Memᴰ.head (ap row e)
row-mem (i ∷ items) (Memᴰ.tail m) = Memᴰ.tail (row-mem items m)

own :
    (items all : List Item)
    → All (λ it. Memᴰ it all) items
    → All (λ r. (it : Item) × (Memᴰ it all × (r ≡ row it))) (map row items)
own [] all h = tt
own (i ∷ items) all h = ((i, (h.0, refl)), own items all h.1)

service-Answers : (items : List Item) → Answers row items (service items)
service-Answers items = record {
  payload = array (items_of (map row items));
  rows = map row items;
  sent = refl;
  found = unfold rows_in in ap ok (list_of-items_of (map row items));
  rows_for = record {
    count = map-length items;
    complete = All-map (λ it m. row-mem items m) items (All-mem_self items);
    own = own items items (All-mem_self items);
  };
}

batched_rows-RowOf_example :
    (rows : List Json) × ((batched_rows 2 service (codes "a" ∷ codes "b" ∷ codes "c" ∷ [])
        ≡ ok rows)
      × Forall₂ (RowOf row) (codes "a" ∷ codes "b" ∷ codes "c" ∷ []) rows)
batched_rows-RowOf_example =
    batched_rows-RowOf row row_key-row 2 service (codes "a" ∷ codes "b" ∷ codes "c" ∷ [])
      (λ chunk h. service-Answers (request_items chunk))

abbrev spelling : Spelling
spelling = record { str = λ j. ""; float_text = λ s. ok 0 }

abbrev emotion_row : Json
emotion_row =
    object (field "emotion" (array (items_of [])) (field "unavailable" (object empty) empty))

parse_emotion_axes-AxesSo_example :
    Yields
      (AxesSo spelling emotion_row)
      (AxisRaises spelling emotion_row)
      (parse_emotion_axes spelling emotion_row)
parse_emotion_axes-AxesSo_example = parse_emotion_axes-AxesSo spelling emotion_row

abbrev writes : List Write
writes =
    put (codes "b", codes "k") (1 ∷ []) (codes "t")
    ∷ put (codes "b", codes "k") (2 ∷ []) (codes "t")
    ∷ gone (codes "b", codes "j")
    ∷ []

get_bytes-perform_all_example :
    (
      get_bytes (codes "b", codes "k") (perform_all writes no_objects),
      exists (codes "b", codes "k") (perform_all writes no_objects),
    )
    ≡ answer (changed_all writes (λ k. none) (codes "b", codes "k"))
get_bytes-perform_all_example = get_bytes-perform_all writes (codes "b", codes "k")

safe_filename-IsName_example : IsName (safe_filename (codes "../.hidden file"))
safe_filename-IsName_example = safe_filename-IsName (codes "../.hidden file")

abbrev reader : Reader
reader = record { stream = []; max_bytes = 3; bytes_read = 0; digested = [] }

drain-Drained_example :
    Drained
      ((1 ∷ 2 ∷ []) ∷ (3 ∷ 4 ∷ []) ∷ [])
      reader
      (drain ((1 ∷ 2 ∷ []) ∷ (3 ∷ 4 ∷ []) ∷ []) reader)
drain-Drained_example = drain-Drained ((1 ∷ 2 ∷ []) ∷ (3 ∷ 4 ∷ []) ∷ []) reader (omega arith)

abbrev plain : Flags
plain = record {
  is_private = false;
  is_loopback = false;
  is_link_local = false;
  is_reserved = false;
  is_multicast = false;
  is_unspecified = false;
}

abbrev net : Net
net = record {
  urlparse = λ url. record {
    scheme = codes "https";
    hostname = some (codes "example.com");
    port = ok none;
    path = codes "/a.mp3";
  };
  urljoin = λ url location. location;
  ip_address = λ ip. some (v4 plain);
  getaddrinfo = λ rounds host port. some (codes "93.184.216.34" ∷ []);
  get = λ rounds url.
      ok (record { status_code = 200; location = none; content_type = none; body = 1 ∷ 2 ∷ [] });
}

fetch_https_source-InRounds_example :
    (let f = fetch_https_source net 3 100 (codes "https://example.com/a.mp3") in
      InRounds net 4 f.1 × (length f.1 ≤ 4) × Kept net 100 f.0)
fetch_https_source-InRounds_example =
    fetch_https_source-InRounds net 3 100 (codes "https://example.com/a.mp3")

abbrev retry_settings : RetrySettings
retry_settings = record {
  celery_max_retries = 5;
  celery_retry_backoff = 2;
  celery_retry_backoff_max = 60;
}

abbrev celery_retry : Retry
celery_retry most retries e n = if ltb retries most then retried n else raised e

celery_retry-Retries : Retries celery_retry
celery_retry-Retries = record {
  again = λ most retries n e h. ground arith;
  gives_up = λ most retries n e h. ground arith;
}

deliveries-Attempts_example :
    Attempts retry_settings 0
      (λ k. err (named (ErrorClass.ml MlError.service_unavailable) "ML service is unavailable"))
      (deliveries celery_retry 5 retry_settings 0
        (λ k. err (named (ErrorClass.ml MlError.service_unavailable) "ML service is unavailable")))
deliveries-Attempts_example =
    deliveries-Attempts celery_retry celery_retry-Retries retry_settings
      (λ k. err (named (ErrorClass.ml MlError.service_unavailable) "ML service is unavailable"))

signal_pips-extract_buying_intent_example :
    (let cust = customer_segments call in
      signal_pips (map as_signal (extract_buying_intent call))
      ≡ ("pain_identified", hit_state "pain_identified" (best cust "pain point").1)
        ∷ (
          "business_impact_identified",
          hit_state "business_impact_identified" (quantified_pain cust).1,
        )
        ∷ (
          "decision_maker_identified",
          hit_state "decision_maker_identified" (best cust "decision maker identified").1,
        )
        ∷ (
          "economic_buyer_identified",
          hit_state "economic_buyer_identified" (best cust "economic buyer identified").1,
        )
        ∷ ("timeline_identified", hit_state "timeline_identified" (best cust "purchase timeline").1)
        ∷ (
          "next_meeting_committed",
          hit_state "next_meeting_committed" (best cust "next meeting commitment").1,
        )
        ∷ ("competitor_active", hit_state "competitor_active" (best cust "competitor mention").1)
        ∷ (
          "blocker_active",
          hit_state "blocker_active"
              (max_label cust ("security blocker" ∷ "budget blocker" ∷ "technical blocker" ∷ [])).1,
        )
        ∷ [])
signal_pips-extract_buying_intent_example = signal_pips-extract_buying_intent call

abbrev first_call : DealCall
first_call = record {
  id = 1;
  title = some (codes "Intro");
  created_at = 0;
  duration_ms = none;
  deal_id = some 1;
  customer_name = some (codes "Acme");
  runs = record { version = 1; insights = verdicts; refused_claims = []; warnings = [] } ∷ [];
}

abbrev second_call : DealCall
second_call = record first_call { id = 2; created_at = 100; runs = [] }

patched-deal_deltas_example :
    Steps first_call (second_call ∷ []) (deal_deltas (first_call ∷ second_call ∷ []))
patched-deal_deltas_example = patched-deal_deltas first_call (second_call ∷ [])

longest_monologue_lem_example :
    (rs : List Run) × (Runs call rs
      × All (λ (r : Run). run_ms r ≤ (longest_monologue call).duration_ms) rs
      × ((longest_monologue call ≡ no_monologue) ⊎ Of rs (longest_monologue call)))
longest_monologue_lem_example = longest_monologue_lem call

compute_metrics_totals_example :
    (let m = compute_metrics call none [] in
      (entry SpeakerRole.customer m.talk.by_role_ms ≡ spoken_by SpeakerRole.customer call)
      × (m.talk.total_speaking_ms ≡ spoken_total call)
      × (0 < spoken_total call
          → Nearest
              (spoken_by SpeakerRole.customer call)
              (spoken_total call)
              (entry SpeakerRole.customer m.talk.ratio))
      × (spoken_total call ≡ 0 → entry SpeakerRole.customer m.talk.ratio ≡ 0)
      × (total_of m.questions.per_speaker ≡ question_total call)
      × (m.questions.count ≡ question_total call))
compute_metrics_totals_example = compute_metrics_totals call none [] SpeakerRole.customer

abbrev signing : Signing
signing = record {
  hmac = λ secret payload. codes "ab";
  uuid_text = λ n. codes "1";
  number_text = λ n. codes "2";
}

verify_signed_audio_lem_example :
    (let q = build_signed_audio_query signing 7 100 (codes "s") in
      (verify_signed_audio signing 50 7 q.0 q.1 (codes "s") ≡ ok tt) ↔ (50 ≤ 100))
    × ((signature : Text)
        → verify_signed_audio signing 50 7 100 signature (codes "s") ≡ ok tt
        → (50 ≤ 100) × (lower signature ≡ codes "ab"))
unfolding lower
verify_signed_audio_lem_example = verify_signed_audio_lem signing (codes "s") (λ s p. refl) 50 7 100
