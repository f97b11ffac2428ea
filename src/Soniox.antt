-- ===== src/Soniox.antt =====
-- src/soniox/error.rs: the errors of the Soniox transport and what they are to the worker. `decimal`
-- is the text of a number and `to_lowercase` that of the standard library.
pub mod Render
pub mod Client
pub mod Adapter
pub mod Cleanup
use Prim.Native.String.{◌++◌, [] as empty}
use telegraph_center.Base.{
  ℕ, String, Bool, ◌||◌, not, true, false, Option, none, some, List, [], ◌∷◌, nat_beq, leb,
  if◌then◌else◌,
}
use telegraph_center.Base.Split.{contains_text}
use telegraph_center.Workers.{WorkerFailure, retryable, terminal}

pub data SonioxError : Type 0 where
  transport decode : String → SonioxError
  -- the status, and the provider's type, message and request id
  http : ℕ → Option String → Option String → Option String → SonioxError

unfoldable pub is_not_found : SonioxError → Bool
is_not_found (transport message) = false
is_not_found (decode message) = false
is_not_found (http status error_type message request_id) = nat_beq status 404

abbrev pub or_empty : Option String → String
or_empty none = ""
or_empty (some text) = text

abbrev pub cap_markers : List String
cap_markers = "total" ∷ "pending" ∷ "quota" ∷ "storage" ∷ []

unfoldable pub any_marker : List String → String → Bool
any_marker [] haystack = false
any_marker (marker ∷ markers) haystack =
    contains_text haystack marker || any_marker markers haystack

-- a part of the detail, where the provider gave it
abbrev pub detail_part : String → Option String → String
detail_part label none = ""
detail_part label (some text) = label ++ text

module _ (decimal : ℕ → String) (to_lowercase : String → String) where
  unfoldable pub is_persistent_limit : Option String → Option String → Bool
  unfolding any_marker
  is_persistent_limit error_type message =
      any_marker cap_markers (to_lowercase (or_empty error_type ++ (" " ++ or_empty message)))

  unfoldable pub is_retryable_http : ℕ → Option String → Option String → Bool
  unfolding is_persistent_limit
  is_retryable_http status error_type message =
      if nat_beq status 429
      then not (is_persistent_limit error_type message)
      else if leb 500 status
      then true
      else nat_beq status 409

  unfoldable pub http_detail : ℕ → Option String → Option String → Option String → String
  http_detail status error_type message request_id =
      ("HTTP " ++ decimal status)
      ++ (detail_part "; error_type=" error_type
          ++ (detail_part "; message=" message ++ detail_part "; request_id=" request_id))

  abbrev pub http_code : ℕ → Option String → String
  http_code status none = "soniox_http_" ++ decimal status
  http_code status (some kind) = "soniox_http_" ++ (decimal status ++ ("_" ++ kind))

  unfoldable pub into_worker_failure : SonioxError → WorkerFailure
  unfolding is_retryable_http http_detail
  into_worker_failure (transport message) = retryable "soniox_transport" message
  into_worker_failure (decode message) = terminal "soniox_decode" message
  into_worker_failure (http status error_type message request_id) =
      if is_retryable_http status error_type message
      then retryable (http_code status error_type)
          (http_detail status error_type message request_id)
      else terminal (http_code status error_type) (http_detail status error_type message request_id)
