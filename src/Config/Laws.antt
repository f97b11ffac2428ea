-- ===== src/Config/Laws.antt =====
-- What it is for a configuration of src/config.rs to be valid.
use telegraph_center.Base.{
  String, ◌≡◌, refl, sym, ap, subst, ◌∙◌, Bool, true, false, not, List, [], ◌∷◌, ◌++◌, some, arith,
  ◌==◌, All, All-append,
}
use telegraph_center.Base.Table.{exists_row, select_one}
use telegraph_center.Base.Table.Laws.{Distinct, Distinct-append, Distinct-found}
use telegraph_center.Base.Text.{trim, is_empty_text}
use telegraph_center.Base.Fallible.{Fallible, ok, err, ◌>>=◌}
use telegraph_center.Domain.Entities.{Tags}
use telegraph_center.Domain.Tags
use telegraph_center.Domain.Tags.Laws.{IsValid, new-IsValid}
use telegraph_center.Config.{
  AppConfig, RawConfig, ClientConfig, Sink, RawSink, webhook, ConfigError, sink_name, validate,
  add_client, clients_onto, validate_clients, add_sink, sinks_onto, validate_sinks, is_http_url,
  require_non_empty, client_by_fingerprint, reject_if, checked_tags,
}

-- The Clients are told apart by name and by certificate.
pub record ClientsValid (clients : List ClientConfig) : Type 0 where
  pub names : Distinct (λ c. c.name) clients
  pub fingerprints : Distinct (λ c. c.certificate_fingerprint) clients
  pub named : All (λ c. is_empty_text (trim c.name) ≡ false) clients
  pub certified : All (λ c. is_empty_text (trim c.certificate_fingerprint) ≡ false) clients

abbrev pub IsWellFormed : Sink → Type 0
IsWellFormed (webhook s) =
    (is_empty_text (trim s.name) ≡ false)
    × (is_http_url s.url ≡ true)
    × (is_empty_text (trim s.secret_env) ≡ false)
    × IsValid s.match_tags

pub record SinksValid (sinks : List Sink) : Type 0 where
  pub names : Distinct sink_name sinks
  pub well_formed : All IsWellFormed sinks

pub record IsValidConfig (config : AppConfig) : Type 0 where
  pub clients : ClientsValid config.clients
  pub sinks : SinksValid config.sinks

bind_ok :
    {A B : Type 0} (m : Fallible ConfigError A) (f : A → Fallible ConfigError B) (b : B)
    → m >>= f ≡ ok b
    → (a : A) × (m ≡ ok a) × (f a ≡ ok b)
unfolding ◌>>=◌
bind_ok (ok a) f b e = (a, refl, e)
bind_ok (err c) f b e = cc

ok_inverts : {A : Type 0} (a b : A) → (let r : Fallible ConfigError A = ok a in r) ≡ ok b → a ≡ b
ok_inverts a b e = ground arith

require_non_empty_inverts :
    (value field text : String)
    → require_non_empty value field ≡ ok text
    → (text ≡ value) × (is_empty_text (trim value) ≡ false)
unfolding require_non_empty
require_non_empty_inverts value field text e = ground arith

reject_if_inverts : (b : Bool) (c : ConfigError) (u : Unit {0}) → reject_if b c ≡ ok u → b ≡ false
reject_if_inverts true c u e = cc
reject_if_inverts false c u e = refl

checked_tags_inverts :
    (sink : String) (raw : List String) (t : Tags)
    → checked_tags sink (Tags.new raw) ≡ ok t
    → IsValid t
checked_tags_inverts sink raw t e = go (Tags.new raw) refl e
  where
    go :
        (r : Fallible Tags.TagError Tags)
        → Tags.new raw ≡ r
        → checked_tags sink r ≡ ok t
        → IsValid t
    go (ok u) p q = new-IsValid raw t (p ∙ ap ok (ground arith))
    go (err c) p q = cc

add_client_inverts :
    (clients : List ClientConfig) (client : ClientConfig) (more : List ClientConfig)
    → add_client clients client ≡ ok more
    → (more ≡ clients ++ client ∷ [])
      × (is_empty_text (trim client.name) ≡ false)
      × (is_empty_text (trim client.certificate_fingerprint) ≡ false)
      × (exists_row (λ c. c.name == client.name) clients ≡ false)
      × (exists_row (λ c. c.certificate_fingerprint == client.certificate_fingerprint) clients
          ≡ false)
unfolding add_client require_non_empty ◌>>=◌
add_client_inverts clients client more e = ground arith

add_client-ClientsValid :
    (clients : List ClientConfig) (client : ClientConfig) (more : List ClientConfig)
    → add_client clients client ≡ ok more
    → ClientsValid clients
    → ClientsValid more
add_client-ClientsValid clients client more e h =
    let (same, named, certified, new_name, new_fingerprint) =
      add_client_inverts clients client more e in
    rw same (record {
      names = Distinct-append (λ c. c.name) clients client h.names new_name;
      fingerprints =
          Distinct-append (λ c. c.certificate_fingerprint) clients client h.fingerprints
            new_fingerprint;
      named = All-append _ clients (client ∷ []) h.named (named, tt);
      certified = All-append _ clients (client ∷ []) h.certified (certified, tt);
    })

clients_onto-ClientsValid :
    (clients raw : List ClientConfig) (more : List ClientConfig)
    → clients_onto clients raw ≡ ok more
    → ClientsValid clients
    → ClientsValid more
unfolding clients_onto
clients_onto-ClientsValid clients [] more e h =
    let same : clients ≡ more = ground arith in subst ClientsValid same h
clients_onto-ClientsValid clients (client ∷ raw) more e h =
    let (mid, p, q) = bind_ok (add_client clients client) _ more e in
    clients_onto-ClientsValid mid raw more q (add_client-ClientsValid clients client mid p h)

not-false : (b : Bool) → not b ≡ false → b ≡ true
not-false true e = refl
not-false false e = cc

add_sink-SinksValid :
    (sinks : List Sink) (sink : RawSink) (more : List Sink)
    → add_sink sinks sink ≡ ok more
    → SinksValid sinks
    → SinksValid more
unfolding add_sink
add_sink-SinksValid sinks sink more e h =
    let (name, p1, q1) = bind_ok _ _ more e in
    let (u2, p2, q2) = bind_ok _ _ more q1 in
    let (u3, p3, q3) = bind_ok _ _ more q2 in
    let (u4, p4, q4) = bind_ok _ _ more q3 in
    let (env, p5, q5) = bind_ok _ _ more q4 in
    let (tags, p6, q6) = bind_ok _ _ more q5 in
    let (same_name, named) = require_non_empty_inverts sink.name "sink name" name p1 in
    let (same_env, signed) = require_non_empty_inverts sink.secret_env "sink secret_env" env p5 in
    let fresh = reject_if_inverts _ _ u2 p2 in
    let plain = reject_if_inverts _ _ u4 p4 in
    let tagged = checked_tags_inverts name sink.match_tags tags p6 in
    let s : Sink =
      webhook (record { name = name; url = sink.url; secret_env = env; match_tags = tags }) in
    let appended : sinks ++ s ∷ [] ≡ more = ok_inverts _ _ q6 in
    subst SinksValid appended (record {
      names = Distinct-append sink_name sinks s h.names fresh;
      well_formed = All-append _ sinks (s ∷ []) h.well_formed (
        (
          subst (λ x. is_empty_text (trim x) ≡ false) (sym same_name) named,
          not-false (is_http_url sink.url) plain,
          subst (λ x. is_empty_text (trim x) ≡ false) (sym same_env) signed,
          tagged,
        ),
        tt,
      );
    })

sinks_onto-SinksValid :
    (sinks : List Sink) (raw : List RawSink) (more : List Sink)
    → sinks_onto sinks raw ≡ ok more
    → SinksValid sinks
    → SinksValid more
unfolding sinks_onto
sinks_onto-SinksValid sinks [] more e h =
    let same : sinks ≡ more = ground arith in subst SinksValid same h
sinks_onto-SinksValid sinks (sink ∷ raw) more e h =
    let (mid, p, q) = bind_ok (add_sink sinks sink) _ more e in
    sinks_onto-SinksValid mid raw more q (add_sink-SinksValid sinks sink mid p h)

-- A configuration that validation accepts has Clients with distinct names and distinct certificate
-- fingerprints, none of them blank, and Sinks with distinct names, each with a name, an HTTP or
-- HTTPS URL, a secret's variable and valid tags.
pub validate-IsValidConfig :
    (raw : RawConfig) (config : AppConfig) → validate raw ≡ ok config → IsValidConfig config
unfolding validate validate_clients validate_sinks
validate-IsValidConfig raw config e =
    let (clients, p1, q1) = bind_ok _ _ config e in
    let (operator, p2, q2) = bind_ok _ _ config q1 in
    let (sinks, p3, q3) = bind_ok _ _ config q2 in
    let (soniox, p4, q4) = bind_ok _ _ config q3 in
    let whole = ok_inverts _ config q4 in
    let same_clients : clients ≡ config.clients = ap (λ c. c.clients) whole in
    let same_sinks : sinks ≡ config.sinks = ap (λ c. c.sinks) whole in
    record {
      clients = subst ClientsValid same_clients (
          clients_onto-ClientsValid [] raw.clients clients p1
            (record { names = tt; fingerprints = tt; named = tt; certified = tt }));
      sinks =
          subst SinksValid same_sinks
            (sinks_onto-SinksValid [] raw.sinks sinks p3 (record { names = tt; well_formed = tt }));
    }

-- In a valid configuration a certificate identifies one Client: any Client that some search of the
-- list finds is the one that is found by its fingerprint.
pub client_by_fingerprint_lem :
    (config : AppConfig) (p : ClientConfig → Bool) (c : ClientConfig)
    → IsValidConfig config
    → select_one p config.clients ≡ some c
    → client_by_fingerprint config c.certificate_fingerprint ≡ some c
unfolding client_by_fingerprint
client_by_fingerprint_lem config p c h found =
    Distinct-found (λ x. x.certificate_fingerprint) p config.clients c h.clients.fingerprints found
