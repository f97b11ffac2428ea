-- ===== src/Tests/Monitor.antt =====
-- The results about the monitor's sessions and the WAV headers at concrete inputs.
use telegraph_center.Base.{◌≤◌, String, ◌≡◌, refl, true, none, some, [], ◌∷◌, arith}
use telegraph_center.Base.Fallible.{ok}
use telegraph_center.Base.Table.{select_one, exists_row, count_rows, update_where}
use telegraph_center.Domain.Entities.{OperatorSession}
use telegraph_center.Storage.Rows.{Db, empty_db}
use telegraph_center.Storage.Operators.{get_session, revoke_session, touch_session, is_live}
use telegraph_center.Monitor.{
  active, evaluate_session, authenticate, admit, AuthenticatedSession, refreshed,
}
use telegraph_center.Monitor.Laws
use telegraph_center.Wav.{WavInfo, parse_header, duration_ms}
use telegraph_center.Wav.Laws as WavLaws

abbrev hash : String → String
hash token = token

abbrev session : OperatorSession
session = record {
  session_hash = "t1";
  operator_username = "op";
  csrf_token_hash = "t1";
  created_at = 0;
  last_seen_at = 0;
  idle_expires_at = 50;
  absolute_expires_at = 100;
  revoked_at = none;
}

abbrev db_1 : Db
db_1 = record empty_db { operator_sessions = session ∷ [] }

abbrev nothing_else : Db → Db
nothing_else db = db

logout_lem_example :
    (authenticate hash hash nothing_else "t1" 40 (revoke_session "t1" 30 db_1).1).0 ≡ none
logout_lem_example = Laws.logout_lem hash hash nothing_else "t1" 30 40 db_1

abbrev admitted_session : AuthenticatedSession hash hash
admitted_session = record { session = refreshed hash hash session 20; csrf_token = "t1" }

admitted_at_20 : (authenticate hash hash nothing_else "t1" 20 db_1).0 ≡ some admitted_session
unfolding authenticate evaluate_session admit get_session touch_session select_one count_rows
    update_where
admitted_at_20 = refl

authenticate_sound_example :
    (s : OperatorSession) × (get_session "t1" db_1 ≡ some s)
    × (evaluate_session s 20 ≡ active)
    × (exists_row (is_live "t1") db_1.operator_sessions ≡ true)
    × (admitted_session.session.absolute_expires_at ≡ s.absolute_expires_at)
    × (admitted_session.session.idle_expires_at ≤ admitted_session.session.absolute_expires_at)
authenticate_sound_example =
    Laws.authenticate_sound hash hash nothing_else "t1" 20 db_1 admitted_session admitted_at_20

abbrev info_1 : WavInfo
info_1 = record {
  sample_rate_hz = 16000;
  channels = 1;
  bits_per_sample = 16;
  byte_rate = 32000;
  data_len_bytes = some 32000;
}

parse_header-pcm_wav_example :
    parse_header (WavLaws.pcm_wav 32036 16000 1 16 32000 2 32000 (7 ∷ [])) ≡ ok info_1
parse_header-pcm_wav_example =
    WavLaws.parse_header-pcm_wav 32036 16000 1 16 32000 2 32000 (7 ∷ []) (omega arith) (omega arith)
      (omega arith) (omega arith) (omega arith)

one_second : duration_ms info_1 ≡ some 1000
unfolding duration_ms
one_second = refl
