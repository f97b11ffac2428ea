-- ===== src/Monitor/Cookies.antt =====
-- src/monitor/cookies.rs: the session cookie.
use Prim.Native.Char.{char}
use Prim.Native.String as Text
use Prim.Native.String.{◌++◌}
use Prim.Native.String.append
use telegraph_center.Base.{
  ℕ, String, ◌≡◌, refl, ap, ◌∙◌, Bool, true, false, not, ◌&&◌, Option, none, some, List, [], ◌∷◌,
  ◌==◌, nat_beq, if◌then◌else◌, arith,
}
use telegraph_center.Base.Split.{
  split, split_once, split_same, split_first, split_once_first, split_once-none, all_chars_weaken,
  all_chars-append, trim-all_chars,
}
use telegraph_center.Base.Text.{trim, trim_same, is_empty_text, all_chars, is_whitespace}

abbrev pub session_cookie : String
session_cookie = "telegraph_operator_session"

abbrev pub cookie_path : String
cookie_path = "/monitor"

-- the text of 14 * 24 * 60 * 60
abbrev pub max_age_seconds : String
max_age_seconds = "1209600"

unfoldable pub set_session_cookie : String → String
set_session_cookie token =
    session_cookie
    ++ ("="
        ++ (token
            ++ ("; Path="
                ++ (cookie_path
                    ++ ("; Max-Age=" ++ (max_age_seconds ++ "; HttpOnly; Secure; SameSite=Lax"))))))

unfoldable pub clear_session_cookie : String
clear_session_cookie =
    session_cookie ++ ("=; Path=" ++ (cookie_path ++ "; Max-Age=0; HttpOnly; Secure; SameSite=Lax"))

-- A pair without `=` ends the loop; `rest` is what the later pairs answer.
unfoldable pub pick : Option (String × String) → Option String → Option String
pick none rest = none
pick (some (name, value)) rest =
    if trim name == session_cookie && not (is_empty_text (trim value))
    then some (trim value)
    else rest

-- the loop over the pairs
unfoldable pub first_session : List String → Option String
unfolding pick
first_session [] = none
first_session (pair ∷ pairs) = pick (split_once 61 (trim pair)) (first_session pairs)

-- `header` is the text of the Cookie header, where there is one that `to_str` accepts.
unfoldable pub read_session_cookie : Option String → Option String
unfolding first_session
read_session_cookie none = none
read_session_cookie (some raw) = first_session (split 59 raw)

-- No separator, no `=` and no space: the characters of a token.
abbrev pub is_token_char : ℕ → Bool
is_token_char n = not (nat_beq n 59) && not (nat_beq n 61) && not (is_whitespace n)

abbrev before_semicolon : ℕ → Bool
before_semicolon n = not (nat_beq n 59)

abbrev no_space : ℕ → Bool
no_space n = not (is_whitespace n)

-- the pair that the browser sends back
abbrev pair_of : String → String
pair_of token = session_cookie ++ ("=" ++ token)

pair_chars :
    (p : ℕ → Bool)
    → ((n : ℕ) → is_token_char n ≡ true → p n ≡ true)
    → all_chars p session_cookie ≡ true
    → all_chars p "=" ≡ true
    → (token : String) → all_chars is_token_char token ≡ true
    → all_chars p (pair_of token) ≡ true
pair_chars p sub name equals token h =
    all_chars-append p session_cookie ("=" ++ token) name
      (all_chars-append p "=" token equals (all_chars_weaken is_token_char p sub token h))

first_session_pair :
    (token : String) (pairs : List String)
    → all_chars is_token_char token ≡ true
    → is_empty_text token ≡ false
    → first_session (pair_of token ∷ pairs) ≡ some token
unfolding first_session pick all_chars is_whitespace
first_session_pair token pairs h filled =
    let trimmed =
      trim_same no_space (λ n e. ground arith) (pair_of token)
        (pair_chars no_space (λ n e. ground arith) refl refl token h) in
    let cut = split_once_first 61 session_cookie (char 61 tt) token refl refl in
    let value =
      trim_same no_space (λ n e. ground arith) token
        (all_chars_weaken is_token_char no_space (λ n e. ground arith) token h) in
    let name = trim_same no_space (λ n e. ground arith) session_cookie refl in
    let joined : "=" ++ token ≡ Text.◌∷◌ (char 61 tt) token =
      append.cons (char 61 tt) "" token ∙ ap (Text.◌∷◌ (char 61 tt)) (append.nil token) in
    ap (λ t. pick (split_once 61 t) (first_session pairs)) trimmed
    ∙ ap (λ t. pick (split_once 61 (session_cookie ++ t)) (first_session pairs)) joined
    ∙ ap (λ o. pick o (first_session pairs)) cut
    ∙ picked name value
  where
    picked :
        trim session_cookie ≡ session_cookie
        → trim token ≡ token
        → pick (some (session_cookie, token)) (first_session pairs) ≡ some token
    picked name value = rw (name, value, filled) refl

-- The header that the browser makes of the cookie, alone or before other pairs, gives the token
-- back, where the token is not empty and has no separator, `=` or space.
pub read_session_cookie-pair :
    (token rest : String)
    → all_chars is_token_char token ≡ true
    → is_empty_text token ≡ false
    → (read_session_cookie (some (pair_of token)) ≡ some token)
      × (read_session_cookie (some (pair_of token ++ (";" ++ rest))) ≡ some token)
unfolding read_session_cookie all_chars is_whitespace
read_session_cookie-pair token rest h filled =
    let none_inside = pair_chars before_semicolon (λ n e. ground arith) refl refl token h in
    let semicolon : ";" ++ rest ≡ Text.◌∷◌ (char 59 tt) rest =
      append.cons (char 59 tt) "" rest ∙ ap (Text.◌∷◌ (char 59 tt)) (append.nil rest) in
    (
      rw (split_same 59 (pair_of token) none_inside) (first_session_pair token [] h filled),
      rw (semicolon, split_first 59 (pair_of token) (char 59 tt) rest none_inside refl)
          (first_session_pair token (split 59 rest) h filled),
    )

-- Neither a separator nor `=`.
abbrev pub is_flag_char : ℕ → Bool
is_flag_char n = not (nat_beq n 61) && not (nat_beq n 59)

-- Where the first pair of the header has no `=`, no token is read, whatever follows that pair, the
-- session's own pair included.
pub read_session_cookie_hidden :
    (flag rest : String)
    → all_chars is_flag_char flag ≡ true
    → read_session_cookie (some (flag ++ (";" ++ rest))) ≡ none
unfolding read_session_cookie first_session pick
read_session_cookie_hidden flag rest h =
    let semicolon : ";" ++ rest ≡ Text.◌∷◌ (char 59 tt) rest =
      append.cons (char 59 tt) "" rest ∙ ap (Text.◌∷◌ (char 59 tt)) (append.nil rest) in
    let inside = all_chars_weaken is_flag_char before_semicolon (λ n e. ground arith) flag h in
    let no_equals =
      trim-all_chars (λ n. not (nat_beq n 61)) flag
        (all_chars_weaken is_flag_char (λ n. not (nat_beq n 61)) (λ n e. ground arith) flag h) in
    ap (λ t. read_session_cookie (some (flag ++ t))) semicolon
    ∙ ap first_session (split_first 59 flag (char 59 tt) rest inside refl)
    ∙ ap (λ o. pick o (first_session (split 59 rest))) (split_once-none 61 (trim flag) no_equals)
