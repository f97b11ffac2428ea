-- ===== src/Tests/Access.antt =====
-- The results about the handlers of the monitor at concrete inputs.
use Prim.Native.String.{[] as nil, ◌∷◌ as ◌◂◌}
use Prim.Native.Char.{code}
use telegraph_center.Base.{
  ℕ, ◌<◌, ◌↔◌, ◌⊎◌, String, ◌≡◌, refl, ap, ◌∙◌, true, false, none, some, List, [], ◌∷◌, ◌==◌, ltb,
  arith, All,
}
use telegraph_center.Base.Table.{exists_row}
use telegraph_center.Base.Text.{trim, is_empty_text, is_whitespace, all_chars}
use text.Mathlib.TextEquality.{Char-path}
use telegraph_center.Retry.{minutes}
use telegraph_center.Domain.Entities.{OperatorSession}
use telegraph_center.Storage.Rows.{Db, empty_db}
use telegraph_center.Monitor.{checked, verify_credentials}
use telegraph_center.Monitor.Csrf
use telegraph_center.Monitor.Cookies
use telegraph_center.Monitor.Handlers.{Environment, render_login}
use telegraph_center.Monitor.Actions.{route, post}
use telegraph_center.Monitor.Handlers.{require_session}
use telegraph_center.Monitor.Permission
use telegraph_center.Monitor.Login
use telegraph_center.Monitor.Lockout
use telegraph_center.Monitor.Lockout.{Attempt, attempt_all, same_db}

abbrev hash : String → String
hash token = token

abbrev nothing_else : Db → Db
nothing_else db = db

-- The characters of a text stand for its bytes.
unfoldable codes : String → List ℕ
codes nil = []
codes (c ◂ s) = code c ∷ codes s

codes_injective : (s t : String) → codes s ≡ codes t → s ≡ t
unfolding codes
codes_injective nil nil e = refl
codes_injective nil (d ◂ t) e = cc
codes_injective (c ◂ s) nil e = cc
codes_injective (c ◂ s) (d ◂ t) e =
    ap (λ x. x ◂ s) (Char-path c d (ground (arith, e)))
    ∙ ap (λ r. d ◂ r) (codes_injective s t (ground (arith, e)))

abbrev session : OperatorSession
session = record {
  session_hash = "t1";
  operator_username = "op";
  csrf_token_hash = "t1";
  created_at = 0;
  last_seen_at = 0;
  idle_expires_at = 50;
  absolute_expires_at = 100;
  revoked_at = none;
}

validate_iff_example :
    (Csrf.validate hash codes session " t1 " ≡ true)
    ↔ ((is_empty_text (trim " t1 ") ≡ false) × (hash (trim " t1 ") ≡ session.csrf_token_hash))
validate_iff_example = Csrf.validate_iff hash codes codes_injective session " t1 "

token_chars : all_chars Cookies.is_token_char "abc123" ≡ true
unfolding all_chars is_whitespace
token_chars = refl

read_session_cookie-pair_example :
    (Cookies.read_session_cookie (some "telegraph_operator_session=abc123") ≡ some "abc123")
    × (Cookies.read_session_cookie (some "telegraph_operator_session=abc123; theme=dark")
        ≡ some "abc123")
read_session_cookie-pair_example =
    Cookies.read_session_cookie-pair "abc123" " theme=dark" token_chars refl

flag_chars : all_chars Cookies.is_flag_char "flag" ≡ true
unfolding all_chars
flag_chars = refl

read_session_cookie_hidden_example :
    Cookies.read_session_cookie (some "flag; telegraph_operator_session=abc123") ≡ none
read_session_cookie_hidden_example =
    Cookies.read_session_cookie_hidden "flag" " telegraph_operator_session=abc123" flag_chars

-- The password is "open sesame".
abbrev env : Environment
env = record {
  hash_token = hash;
  derive_csrf = hash;
  as_bytes = codes;
  text_before = ltb;
  sink_details = hash;
  format = λ t. "";
  login_html = some;
  list_html = λ page. none;
  detail_html = λ page. none;
  header_value = some;
  sinks = [];
  own_username = "op";
  load = some "open sesame";
  verify_password = λ phc password. checked (phc == password);
}

post_permitted_example :
    Permission.Outcome env nothing_else
      (some "telegraph_operator_session=t1")
      20
      (record empty_db { operator_sessions = session ∷ [] })
      (route "journal" "r1" "d1" "e1")
      "t1"
      21
      (require_session env nothing_else
        (some "telegraph_operator_session=t1")
        20
        (record empty_db { operator_sessions = session ∷ [] })).1
      (post env nothing_else
        (route "journal" "r1" "d1" "e1")
        (some "telegraph_operator_session=t1")
        "t1"
        20
        21
        (record empty_db { operator_sessions = session ∷ [] })).1
post_permitted_example =
    Permission.post_permitted env nothing_else (route "journal" "r1" "d1" "e1")
      (some "telegraph_operator_session=t1") "t1" 20 21
      (record empty_db { operator_sessions = session ∷ [] })

login_post_sound_example :
    Login.SessionsKept env nothing_else empty_db
      (Login.login_post env nothing_else "op" "open sesame" "t2" "f1" 20 empty_db).1
    ⊎ ((Login.failures env nothing_else "op" 20 empty_db < 10)
        × (verify_credentials (some "open sesame") env.verify_password "op" "op" "open sesame"
            ≡ checked true))
login_post_sound_example =
    Login.login_post_sound env nothing_else "op" "open sesame" "t2" "f1" 20 empty_db

abbrev wrong : String → Attempt
wrong id = record { password = "guess"; token = "t"; failure_id = id; now = minutes 20 }

abbrev guesses : List Attempt
guesses =
    wrong "0"
    ∷ wrong "1"
    ∷ wrong "2"
    ∷ wrong "3"
    ∷ wrong "4"
    ∷ wrong "5"
    ∷ wrong "6"
    ∷ wrong "7"
    ∷ wrong "8"
    ∷ wrong "9"
    ∷ []

fresh : Lockout.AreFresh env "op" guesses []
unfolding exists_row
fresh = (refl, (refl, (refl, (refl, (refl, (refl, (refl, (refl, (refl, (refl, tt))))))))))

is_wrong : (id : String) → Lockout.IsWrong env "op" (minutes 20) (minutes 20) (wrong id)
unfolding verify_credentials
is_wrong id = record { within = (omega arith, omega arith); wrong = refl }

All-IsWrong : All (Lockout.IsWrong env "op" (minutes 20) (minutes 20)) guesses
All-IsWrong = (
  is_wrong _,
  (
    is_wrong _,
    (
      is_wrong _,
      (
        is_wrong _,
        (is_wrong _, (is_wrong _, (is_wrong _, (is_wrong _, (is_wrong _, (is_wrong _, tt)))))),
      ),
    ),
  ),
)

window : Lockout.IsOneWindow env "op" (minutes 20) (minutes 20)
window t u (a, b) (c, d) = ground arith

locked_after_ten_example :
    Login.login_post env same_db "op" "open sesame" "t" "10"
      (minutes 20)
      (attempt_all env "op" guesses empty_db)
    ≡ (
      render_login env "Too many attempts. Please try again later." 429,
      attempt_all env "op" guesses empty_db,
    )
locked_after_ten_example =
    Lockout.locked_after_ten env "op" (minutes 20) (minutes 20) window guesses empty_db
      "open sesame" "t" "10" (minutes 20) refl All-IsWrong fresh (omega arith)
      (omega arith, omega arith)
