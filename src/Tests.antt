-- ===== src/Tests.antt =====
-- The properties at concrete databases: one Recording of a watch that is uploaded, transcribed and
-- routed, with a restart in between.
mod Workers
mod Config
mod Monitor
mod Outcomes
mod Upload
mod Access
mod Integrations
use telegraph_center.Base.{
  ◌≤◌, String, ◌≡◌, ◌≢◌, refl, ap, ◌*◌, true, false, none, some, [], ◌∷◌, ltb, arith, ◌⊎◌,
}
use telegraph_center.Base.Int.{pos, negsuc}
use telegraph_center.Base.Table.{select_one}
use telegraph_center.Retry.{backoff, hours, minutes, milliseconds, transcription_window}
use telegraph_center.Retry.Bounds
use telegraph_center.Domain.Status
use telegraph_center.Domain.Status.{Parsed, RecordingStatus, can_transition_to, status_beq}
use telegraph_center.Domain.Status.Lifecycle
use telegraph_center.Storage.Rows.{RecordingRow, Db, empty_db, ok, err, invalid_transition}
use telegraph_center.Storage.Recordings.{NewRecording, new_recording_row}
use telegraph_center.Storage.Statements.{
  find_recording, guarded_transition, update_recording, set_status,
}
use telegraph_center.Storage.View.{status_of, status_in, parsed_status}
use telegraph_center.Storage.Guarded
use telegraph_center.Storage.Guarded.{OnlyStatus}
use telegraph_center.Storage.Life
use telegraph_center.Storage.Steps.{Step, History}
use telegraph_center.Storage.Life.{Evolves}
use telegraph_center.Storage.Agreement.{IsConsistent}
use telegraph_center.Storage.Agreement.Always as Agreeing
use telegraph_center.Storage.Exclusive.{IsExclusive, attempts_of}
use telegraph_center.Storage.Exclusive.Always as Excluding

abbrev details : String → String
details s = s

abbrev recording_1 : NewRecording
recording_1 = record {
  id = "r1";
  client_id = "watch";
  client_recording_id = "w1";
  original_filename = none;
  blob_path = some "blobs/r1.wav";
  audio_size_bytes = some (pos 3200);
  audio_duration_ms = some (pos 100);
  sample_rate_hz = some (pos 16000);
  channels = some (pos 1);
  bits_per_sample = some (pos 16);
  tags = record { values = "journal" ∷ [] };
  recorded_at = none;
  received_at = 10;
}

-- Uploaded, claimed, an attempt started twice, a restart, and the attempt started again.
abbrev day : (db : Db) × History ltb details empty_db db
day = (
  _,
  History.then_step
      (History.then_step
        (History.then_step
          (History.then_step
            (History.then_step (History.then_step History.start_of (Step.create none recording_1))
              (Step.claim 20))
            (Step.start "a1" "r1" 21))
          (Step.start "a2" "r1" 22))
        (Step.restart 30))
      (Step.start "a3" "r1" 31),
)

reachable-IsConsistent_example : IsConsistent day.0
reachable-IsConsistent_example = Agreeing.reachable-IsConsistent day.1

reachable-IsExclusive_example : IsExclusive (attempts_of day.0)
reachable-IsExclusive_example = Excluding.reachable-IsExclusive day.1

-- A database with one Recording in a status.
abbrev one_in : RecordingStatus → Db
one_in s = record empty_db {
  recordings = record (new_recording_row recording_1) { status = Status.as_str s } ∷ [];
}

status_of-one_in : (s : RecordingStatus) → status_of "r1" (one_in s) ≡ some s
unfolding status_in select_one
status_of-one_in s = ap parsed_status (Lifecycle.parse-as_str s)

abbrev restarted : (s : RecordingStatus) → (db : Db) × Step ltb details (one_in s) db
restarted s = (_, Step.restart 30)

Step-Evolves_example :
    Evolves false true
      (status_of "r1" (one_in Status.transcribing))
      (status_of "r1" (restarted Status.transcribing).0)
Step-Evolves_example = Life.Step-Evolves "r1" (restarted Status.transcribing).1

-- A Recording that an Operator's click and a restart meet in some status.
abbrev later : (s : RecordingStatus) → (db : Db) × History ltb details (one_in s) db
later s = (
  _,
  History.then_step (History.then_step History.start_of (Step.backlog "r1" 20)) (Step.restart 30),
)

delivered_final_example : status_of "r1" (later Status.delivered).0 ≡ some Status.delivered
delivered_final_example =
    Life.delivered_final "r1" (later Status.delivered).1 (status_of-one_in Status.delivered)

has_status : (s : RecordingStatus) → status_of "r1" (one_in s) ≢ none
has_status s e = ground (arith, status_of-one_in s)

never_lost_example : status_of "r1" (later Status.routing).0 ≢ none
never_lost_example = Life.never_lost "r1" (later Status.routing).1 (has_status Status.routing)

abbrev row_1 : RecordingRow
row_1 = record (new_recording_row recording_1) { status = "routing" }

row_1_found : find_recording "r1" (one_in Status.routing) ≡ some row_1
unfolding select_one Status.as_str
row_1_found = refl

row_1_readable : Status.parse "routing" ≡ Parsed.ok Status.routing
unfolding Status.parse Status.as_str
row_1_readable = refl

guarded_transition_cases_example :
    ((can_transition_to Status.routing Status.backlogged ≡ true)
      × (db' : Db) × (guarded_transition "r1" Status.backlogged 40 (one_in Status.routing)
          ≡ ok (tt, db'))
      × OnlyStatus "r1" row_1 Status.backlogged 40 (one_in Status.routing) db')
    ⊎ ((can_transition_to Status.routing Status.backlogged ≡ false)
        × (guarded_transition "r1" Status.backlogged 40 (one_in Status.routing)
            ≡ err (
                invalid_transition
                  (record { source = Status.routing; target = Status.backlogged }))))
guarded_transition_cases_example =
    Guarded.guarded_transition_cases "r1" row_1 Status.backlogged 40 (one_in Status.routing)
      row_1_found Status.routing row_1_readable

transcription_window_bounds_example :
    (hours 2 ≤ transcription_window (some (negsuc 4)))
    × (transcription_window (some (negsuc 4)) ≤ hours 24)
transcription_window_bounds_example = Bounds.transcription_window_bounds (some (negsuc 4))
