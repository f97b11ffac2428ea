-- ===== src/Tests/Integrations.antt =====
-- The results about the provider, the Webhook Sinks, the worker loop and the list at concrete inputs.
use telegraph_center.Base.{
  ℕ, ◌≤◌, String, ◌≡◌, refl, true, false, Option, none, some, List, [], ◌∷◌, inr, ltb, arith,
  length, map, take, All, is_some,
}
use telegraph_center.Base.Int.{ℤ, pos}
use telegraph_center.Base.Fallible.{ok}
use telegraph_center.Base.Table.{exists_row, select, sort_by}
use telegraph_center.Base.Text.{trim, is_whitespace}
use telegraph_center.Domain.Status
use telegraph_center.Domain.Entities.{Recording}
use telegraph_center.Config.{SonioxConfig, AppConfig, webhook, matches}
use telegraph_center.Storage.Rows as Rows
use telegraph_center.Storage.Rows.{Db, empty_db}
use telegraph_center.Storage.Recordings.{NewRecording, new_recording_row}
use telegraph_center.Storage.ReadModels as ReadModels
use telegraph_center.Storage.ReadModels.{RecordingSummary, list_recording_summaries}
use telegraph_center.Storage.Listing
use telegraph_center.Storage.Newest.{Descends}
use telegraph_center.Workers.{idle, TranscriptionRequest, sink, done}
use telegraph_center.Workers.Loop
use telegraph_center.Workers.Loop.{Turn, elapsed, run_worker_loop}
use telegraph_center.Soniox.Adapter.{Transport, Json, poll, run}
use telegraph_center.Soniox.Cleanup
use telegraph_center.Soniox.Render
use telegraph_center.Soniox.Render.{Token, Speaker}
use telegraph_center.Rules.{route, from_config}
use telegraph_center.Webhook.{Crates, ResolvedSink, resolve_sinks, find, read_excerpt}
use telegraph_center.Webhook.Laws

abbrev recording : Recording
recording = record {
  id = "r1";
  client_id = "watch";
  client_recording_id = "w1";
  status = Status.transcribing;
  original_filename = none;
  blob_path = none;
  audio_size_bytes = none;
  audio_duration_ms = none;
  sample_rate_hz = none;
  channels = none;
  bits_per_sample = none;
  tags = record { values = "journal" ∷ [] };
  recorded_at = none;
  received_at = 10;
  selected_sink_name = none;
  latest_error = none;
  created_at = 10;
  updated_at = 10;
}

-- A provider that says "completed" at once; a document is its own status.
abbrev provider : Transport String
provider = record {
  uploaded = λ log. ok "f1";
  created = λ log. ok "t1";
  status = λ log. ok "completed";
  transcript = λ log. ok "hello";
}

abbrev json : Json String
json = record {
  text_at = λ name value. some value;
  tokens = λ value. none;
  display = λ n. "1";
  raw_json = λ status transcript. transcript;
}

abbrev text_of : ℕ → String
text_of n = "7"

abbrev low : String → String
low s = s

poll-Polled_example :
    Cleanup.Polled json text_of low provider 3 "t1" [] (poll json text_of low provider 3 "t1" [])
poll-Polled_example = Cleanup.poll-Polled json text_of low provider 3 "t1" []

abbrev soniox : SonioxConfig
soniox = record {
  api_key_env = "KEY";
  model = "stt-async-v5";
  language_hints = [];
  enable_speaker_diarization = true;
  enable_language_identification = false;
}

abbrev request : TranscriptionRequest
request = record { recording = recording; audio_path = "/srv/data/recordings/r1.wav" }

run-IsCleaned_example :
    Cleanup.IsCleaned json text_of low provider "f1"
      (ok "t1")
      (run json text_of low provider soniox 3 (ok (1 ∷ [])) "r1.wav" request []).1
run-IsCleaned_example =
    Cleanup.run-IsCleaned json text_of low provider soniox 3 (1 ∷ []) "r1.wav" request [] "f1" refl

abbrev tokens : List Token
tokens =
    record { text = "Hi"; speaker = some (Speaker.str "a") }
    ∷ record { text = " there"; speaker = some (Speaker.str "a") }
    ∷ record { text = "hello"; speaker = some (Speaker.str "b") }
    ∷ []

abbrev display : ℤ → String
display n = "1"

spoken : exists_row (λ (t : Token). is_some t.speaker) tokens ≡ true
unfolding exists_row
spoken = refl

render-turns_example :
    Render.render display "Hi there hello" tokens
    ≡ Render.push_turns "" (Render.add_turn none "" (Render.turns display tokens))
render-turns_example = Render.render-turns display "Hi there hello" tokens spoken

read_excerpt-take_example :
    read_excerpt ((1 ∷ 2 ∷ []) ∷ (3 ∷ []) ∷ []) true
    ≡ some (take 2048 (Laws.joined ((1 ∷ 2 ∷ []) ∷ (3 ∷ []) ∷ [])))
read_excerpt-take_example = Laws.read_excerpt-take ((1 ∷ 2 ∷ []) ∷ (3 ∷ []) ∷ [])

abbrev config : AppConfig
config = record {
  server = record { listen = "127.0.0.1:8080"; public_base_path = "" };
  data_config = record { dir = "/srv/data"; max_upload_bytes = 100 };
  clients = [];
  operator = record { username = "op"; password_hash_env = "HASH" };
  soniox = soniox;
  sinks =
      webhook (record {
        name = "journal";
        url = "http://127.0.0.1:8644/journal";
        secret_env = "SECRET";
        match_tags = record { values = "journal" ∷ [] };
      })
      ∷ [];
}

abbrev crates : Crates
crates = record {
  decimal = text_of;
  format = λ t. "";
  debug = low;
  to_vec = λ payload. ok [];
  mac = λ secret body. [];
}

abbrev env : String → Option String
env name = some "hush"

abbrev resolved_journal : ResolvedSink
resolved_journal = record {
  name = "journal";
  url = "http://127.0.0.1:8644/journal";
  secret = "hush";
}

resolved_all : resolve_sinks env config.sinks ≡ ok (resolved_journal ∷ [])
unfolding resolve_sinks trim is_whitespace
resolved_all = refl

routed_journal : route (from_config config) recording ≡ sink "journal"
unfolding route from_config matches exists_row
routed_journal = refl

routed_sink_known_example :
    (r : ResolvedSink) × (find crates (resolved_journal ∷ []) "journal" ≡ some r)
routed_sink_known_example =
    Laws.routed_sink_known crates env config (resolved_journal ∷ []) recording "journal"
      resolved_all routed_journal

-- A turn that does nothing, and the last one.
abbrev turn : Turn
turn = record {
  between = λ db. db;
  stop_before = false;
  tick = done idle;
  stop_after = false;
  wake = elapsed;
}

abbrev last_turn : Turn
last_turn = record turn { stop_after = true }

run_worker_loop-stops_example :
    run_worker_loop (turn ∷ last_turn ∷ turn ∷ []) empty_db
    ≡ run_worker_loop (turn ∷ last_turn ∷ []) empty_db
run_worker_loop-stops_example =
    Loop.run_worker_loop-stops (turn ∷ []) last_turn (turn ∷ []) empty_db (inr refl)

abbrev new : NewRecording
new = record {
  id = "r1";
  client_id = "watch";
  client_recording_id = "w1";
  original_filename = none;
  blob_path = none;
  audio_size_bytes = none;
  audio_duration_ms = none;
  sample_rate_hz = none;
  channels = none;
  bits_per_sample = none;
  tags = record { values = [] };
  recorded_at = none;
  received_at = 10;
}

-- One Recording that is received, and one in the Backlog.
abbrev two : Db
two = record empty_db {
  recordings =
      new_recording_row new
      ∷ record (new_recording_row new) { id = "r2"; status = "backlogged"; received_at = 12 }
      ∷ [];
}

abbrev summary : RecordingSummary
summary = record {
  id = "r1";
  client_id = "watch";
  client_recording_id = "w1";
  status = Status.received;
  tags = record { values = [] };
  selected_sink_name = none;
  latest_error = none;
  received_at = 10;
}

abbrev newest_first : List RecordingSummary
newest_first =
    record summary { id = "r2"; status = Status.backlogged; received_at = 12 } ∷ summary ∷ []

listed : list_recording_summaries ltb ReadModels.all (pos 100) two ≡ Rows.ok newest_first
unfolding list_recording_summaries ReadModels.limited select sort_by Status.as_str Status.parse
listed = refl

ltb_asym : (a b : ℕ) → ltb a b ≡ true → ltb b a ≡ false
ltb_asym a b e = ground arith

list_recording_summaries_lem_example :
    (length newest_first ≤ 100)
    × All (Listing.IsSelected (ReadModels.statuses ReadModels.all)) newest_first
    × Descends (λ a b. ltb a b ≡ false) (map (λ (s : RecordingSummary). s.received_at) newest_first)
list_recording_summaries_lem_example =
    Listing.list_recording_summaries_lem ltb ltb_asym ReadModels.all 100 two newest_first listed
