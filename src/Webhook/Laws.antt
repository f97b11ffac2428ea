-- ===== src/Webhook/Laws.antt =====
-- src/delivery/*.rs: the excerpt of a response, and which Sinks the client knows.
use telegraph_center.Base.{
  ℕ, zero, suc, ◌-◌, ◌≤◌, String, ◌≡◌, refl, sym, ◌∙◌, ap, true, Option, some, List, [], ◌∷◌, ◌++◌,
  ◌==◌, arith, length, take, length-append, min, leb, ltb, if◌then◌else◌, Bool-cases, inl, inr,
}
use mathlib.Core.List.{append-nil, append_assoc}
use telegraph_center.Base.Table.{select_one}
use telegraph_center.Base.Fallible.{Fallible, ok, err}
use telegraph_center.Config.{AppConfig, Sink, webhook, sink_name}
use telegraph_center.Domain.Entities.{Recording}
use telegraph_center.Rules.{route, from_config, route_configured}
use telegraph_center.Workers.{sink}
use telegraph_center.Webhook.{
  read_excerpt, excerpt_loop, max_body_excerpt, ResolvedSink, WebhookBuildError, Crates,
  resolve_sinks, resolve_sink, read_secret, collected, resolved, find,
}

unfoldable pub joined : List (List ℕ) → List ℕ
joined [] = []
joined (chunk ∷ chunks) = chunk ++ joined chunks

module _ {A : Type 0} where
  take_all : (n : ℕ) (xs : List A) → length xs ≤ n → take n xs ≡ xs
  take_all zero [] h = refl
  take_all zero (x ∷ xs) h = absurd (omega (arith, h))
  take_all (suc n) [] h = refl
  take_all (suc n) (x ∷ xs) h = ap (λ r. x ∷ r) (take_all n xs (omega (arith, h)))

  take_within : (n : ℕ) (xs ys : List A) → n ≤ length xs → take n (xs ++ ys) ≡ take n xs
  take_within zero xs ys h = refl
  take_within (suc n) [] ys h = absurd (omega (arith, h))
  take_within (suc n) (x ∷ xs) ys h = ap (λ r. x ∷ r) (take_within n xs ys (omega (arith, h)))

  take_past :
      (n : ℕ) (xs ys : List A) → length xs ≤ n → take n (xs ++ ys) ≡ xs ++ take (n - length xs) ys
  take_past n [] ys h = ap (λ k. take k ys) (omega arith)
  take_past zero (x ∷ xs) ys h = absurd (omega (arith, h))
  take_past (suc n) (x ∷ xs) ys h =
      ap (λ r. x ∷ r)
        (take_past n xs ys (omega (arith, h)) ∙ ap (λ k. xs ++ take k ys) (omega arith))

excerpt_loop-take :
    (max : ℕ) (chunks : List (List ℕ)) (buffer : List ℕ)
    → length buffer ≤ max
    → excerpt_loop max chunks true buffer ≡ some (take max (buffer ++ joined chunks))
unfolding excerpt_loop joined
excerpt_loop-take max [] buffer h =
    let all = take_all max buffer h in
    let whole : excerpt_loop max [] true buffer ≡ some buffer = ground arith in
    whole ∙ ap some (sym (ap (take max) (append-nil buffer) ∙ all))
excerpt_loop-take max (chunk ∷ chunks) buffer h =
    let room = min (max - length buffer) (length chunk) in
    elim (Bool-cases (leb max (length buffer))) [
      | inl full ↦
          rw full refl
          ∙ ap some (
              sym (
                take_within max buffer (chunk ++ joined chunks) (ground (arith, full))
                ∙ take_all max buffer h))
      | inr free ↦ elim (Bool-cases (ltb room (length chunk))) [
        | inl cut ↦
            let room_is : max - length buffer ≡ room = ground (arith, cut) in
            rw (free, cut) refl
            ∙ ap some (
                sym (
                  take_past max buffer (chunk ++ joined chunks) h
                  ∙ ap (λ k. buffer ++ take k (chunk ++ joined chunks)) room_is
                  ∙ ap (λ r. buffer ++ r)
                      (take_within room chunk (joined chunks) (ground (arith, cut)))))
        | inr fits ↦
            let chunk_is : take room chunk ≡ chunk = take_all room chunk (ground (arith, fits)) in
            let small : length chunk ≤ max - length buffer = ground (arith, fits) in
            let longer : length (buffer ++ chunk) ≤ max =
              omega (arith, small, h, length-append buffer chunk) in
            rw (free, fits, chunk_is) (excerpt_loop-take max chunks (buffer ++ chunk) longer)
            ∙ ap (λ l. some (take max l)) (append_assoc buffer chunk (joined chunks))
      ]
    ]

-- Where the chunks of a response end well, the excerpt is the first 2048 bytes of them all, in
-- whatever chunks they come.
pub read_excerpt-take :
    (chunks : List (List ℕ))
    → read_excerpt chunks true ≡ some (take max_body_excerpt (joined chunks))
unfolding read_excerpt
read_excerpt-take chunks = excerpt_loop-take max_body_excerpt chunks [] (omega arith)

resolve_sink_ok :
    (env : String → Option String) (s : Sink) (r : ResolvedSink)
    → resolve_sink env s ≡ ok r
    → r.name ≡ sink_name s
unfolding resolve_sink
resolve_sink_ok env (webhook s) r e = go (read_secret env s.secret_env) e
  where
    go : (q : Fallible WebhookBuildError String) → resolved s q ≡ ok r → r.name ≡ s.name
    go (err c) h = cc
    go (ok secret) h = ground (arith, h)

collected_ok :
    (q : Fallible WebhookBuildError ResolvedSink)
    (rest : Fallible WebhookBuildError (List ResolvedSink)) (all : List ResolvedSink)
    → collected q rest ≡ ok all
    → (r : ResolvedSink) × (rs : List ResolvedSink) × (q ≡ ok r) × (rest ≡ ok rs) × (all ≡ r ∷ rs)
collected_ok (err c) rest all e = cc
collected_ok (ok r) (err c) all e = cc
collected_ok (ok r) (ok rs) all e = (r, rs, refl, refl, ground (arith, e))

find_resolved :
    (crates : Crates) (env : String → Option String) (sinks : List Sink) (all : List ResolvedSink)
    (name : String) (s : Sink)
    → resolve_sinks env sinks ≡ ok all
    → select_one (λ x. sink_name x == name) sinks ≡ some s
    → (r : ResolvedSink) × (find crates all name ≡ some r)
unfolding resolve_sinks find select_one
find_resolved crates env [] all name s e h = cc
find_resolved crates env (x ∷ sinks) all name s e h =
    let (r, rs, one, rest, whole) = collected_ok _ _ all e in
    let named = resolve_sink_ok env x r one in
    elim (Bool-cases (sink_name x == name)) [
      | inl mine ↦
          let found : (if r.name == name then some r else select_one (λ y. y.name == name) rs)
              ≡ some r =
            rw (named, mine) refl in
          (r, ap (λ l. select_one (λ y. y.name == name) l) whole ∙ found)
      | inr other ↦
          let (t, found) =
            find_resolved crates env sinks rs name s rest (ground (arith, h, other)) in
          (t, ap (λ l. select_one (λ y. y.name == name) l) whole ∙ rw (named, other) found)
    ]

-- Every Sink that the router of a configuration selects for a Recording is found by the client that
-- was built from the same configuration.
pub routed_sink_known :
    (crates : Crates) (env : String → Option String) (config : AppConfig) (all : List ResolvedSink)
    (recording : Recording) (name : String)
    → resolve_sinks env config.sinks ≡ ok all
    → route (from_config config) recording ≡ sink name
    → (r : ResolvedSink) × (find crates all name ≡ some r)
routed_sink_known crates env config all recording name e h =
    let (s, there) = route_configured config recording name h in
    find_resolved crates env config.sinks all name s e there
