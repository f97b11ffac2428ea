-- ===== src/Soniox/Render.antt =====
-- src/soniox/render.rs: the text of a transcript.
use Prim.Native.String.{◌++◌}
use text.Mathlib.TextLemmas.{append_assoc}
use telegraph_center.Base.{
  String, ◌≡◌, refl, sym, ◌∙◌, ap, Bool, true, false, Option, none, some, List, [], ◌∷◌, ◌==◌,
  eq_iff, eq_refl, is_some, if◌then◌else◌, Bool-cases, inl, inr, map_option,
}
use telegraph_center.Base.Int.{ℤ}
use telegraph_center.Base.Table.{exists_row}
use telegraph_center.Base.Text.{trim, is_empty_text}

pub data Speaker : Type 0 where
  int : ℤ → Speaker
  str : String → Speaker

pub record Token : Type 0 where
  pub text : String
  pub speaker : Option Speaker

-- `PartialEq` of two optional texts
unfoldable pub same_speaker : Option String → Option String → Bool
same_speaker none none = true
same_speaker none (some b) = false
same_speaker (some a) none = false
same_speaker (some a) (some b) = a == b

abbrev pub labelled : Option String → String → String
labelled none trimmed = trimmed
labelled (some id) trimmed = "Speaker " ++ (id ++ (": " ++ trimmed))

abbrev pub with_newline : String → String
with_newline out = if is_empty_text out then out else out ++ "\n"

unfoldable pub push_segment : String → Option String → String → String
push_segment out speaker segment =
    if is_empty_text (trim segment)
    then out
    else with_newline out ++ labelled speaker (trim segment)

-- `display` is the text of an integer.
module _ (display : ℤ → String) where
  abbrev pub to_text : Speaker → String
  to_text (int value) = display value
  to_text (str value) = value

  -- The loop over the tokens, with its variables; another speaker ends the segment.
  unfoldable pub render_loop : List Token → String → Option String → String → String
  unfolding push_segment same_speaker
  render_loop [] out current segment = push_segment out current segment
  render_loop (token ∷ tokens) out current segment =
      let speaker = map_option to_text token.speaker in
      let same = same_speaker speaker current in
      render_loop tokens (if same then out else push_segment out current segment)
        (if same then current else speaker) (if same then segment ++ token.text else token.text)

  unfoldable pub render : String → List Token → String
  unfolding render_loop
  render text tokens =
      if exists_row (λ t. is_some t.speaker) tokens
      then render_loop tokens "" none ""
      else trim text

-- The speaker turns: what one speaker says up to the next one.
unfoldable pub add_turn :
    Option String → String → List (Option String × String) → List (Option String × String)
unfolding same_speaker
add_turn speaker text [] = (speaker, text) ∷ []
add_turn speaker text ((next, more) ∷ rest) =
    if same_speaker next speaker
    then (speaker, text ++ more) ∷ rest
    else (speaker, text) ∷ (next, more) ∷ rest

unfoldable pub push_turns : String → List (Option String × String) → String
unfolding push_segment
push_turns out [] = out
push_turns out ((speaker, text) ∷ rest) = push_turns (push_segment out speaker text) rest

same_speaker_eq : (a b : Option String) → same_speaker a b ≡ true → a ≡ b
unfolding same_speaker
same_speaker_eq none none e = refl
same_speaker_eq none (some b) e = cc
same_speaker_eq (some a) none e = cc
same_speaker_eq (some a) (some b) e = ap some ((eq_iff a b).0 e)

same_speaker_refl : (a : Option String) → same_speaker a a ≡ true
unfolding same_speaker
same_speaker_refl none = refl
same_speaker_refl (some a) = eq_refl a

-- Two texts of one speaker make one turn.
add_turn_twice :
    (speaker : Option String) (x y : String) (rest : List (Option String × String))
    → add_turn speaker x (add_turn speaker y rest) ≡ add_turn speaker (x ++ y) rest
unfolding add_turn
add_turn_twice speaker x y [] = rw (same_speaker_refl speaker) refl
add_turn_twice speaker x y ((next, more) ∷ rest) = elim (Bool-cases (same_speaker next speaker)) [
  | inl same ↦ rw (same, same_speaker_refl speaker, append_assoc x y more) refl
  | inr other ↦ rw (other, same_speaker_refl speaker) refl
]

-- A turn of another speaker comes before.
add_turn_other :
    (current speaker : Option String) (x y : String) (rest : List (Option String × String))
    → same_speaker speaker current ≡ false
    → add_turn current x (add_turn speaker y rest) ≡ (current, x) ∷ add_turn speaker y rest
unfolding add_turn
add_turn_other current speaker x y [] e = rw e refl
add_turn_other current speaker x y ((next, more) ∷ rest) e =
    elim (Bool-cases (same_speaker next speaker)) [
      | inl same ↦ rw (same, e) refl
      | inr other ↦ rw (other, e) refl
    ]

module _ (display : ℤ → String) where
  unfoldable pub turns : List Token → List (Option String × String)
  unfolding add_turn
  turns [] = []
  turns (token ∷ tokens) =
      add_turn (map_option (to_text display) token.speaker) token.text (turns tokens)

  loop_same :
      (token : Token) (tokens : List Token) (out : String) (current : Option String)
      (segment : String)
      → same_speaker (map_option (to_text display) token.speaker) current ≡ true
      → render_loop display (token ∷ tokens) out current segment
        ≡ render_loop display tokens out current (segment ++ token.text)
  unfolding render_loop
  loop_same token tokens out current segment e =
      ap
        (λ b.
          render_loop display tokens (if b then out else push_segment out current segment)
            (if b then current else map_option (to_text display) token.speaker)
            (if b then segment ++ token.text else token.text))
        e

  loop_other :
      (token : Token) (tokens : List Token) (out : String) (current : Option String)
      (segment : String)
      → same_speaker (map_option (to_text display) token.speaker) current ≡ false
      → render_loop display (token ∷ tokens) out current segment
        ≡ render_loop display tokens
            (push_segment out current segment)
            (map_option (to_text display) token.speaker)
            token.text
  unfolding render_loop
  loop_other token tokens out current segment e =
      ap
        (λ b.
          render_loop display tokens (if b then out else push_segment out current segment)
            (if b then current else map_option (to_text display) token.speaker)
            (if b then segment ++ token.text else token.text))
        e

  render_loop-turns :
      (tokens : List Token) (out : String) (current : Option String) (segment : String)
      → render_loop display tokens out current segment
        ≡ push_turns out (add_turn current segment (turns tokens))
  unfolding render_loop turns push_turns add_turn
  render_loop-turns [] out current segment = refl
  render_loop-turns (token ∷ tokens) out current segment =
      let speaker = map_option (to_text display) token.speaker in
      let rest = turns tokens in
      elim (Bool-cases (same_speaker speaker current)) [
        | inl same ↦
            let e = same_speaker_eq speaker current same in
            loop_same token tokens out current segment same
            ∙ render_loop-turns tokens out current (segment ++ token.text)
            ∙ ap (push_turns out) (
                sym (add_turn_twice current segment token.text rest)
                ∙ ap (λ s. add_turn current segment (add_turn s token.text rest)) (sym e))
        | inr other ↦
            loop_other token tokens out current segment other
            ∙ render_loop-turns tokens (push_segment out current segment) speaker token.text
            ∙ sym
                (ap (push_turns out) (add_turn_other current speaker segment token.text rest other))
      ]

  -- Rendering in one pass is rendering turn by turn: where any token has a speaker, the tokens are
  -- grouped into turns, a maximal run of one speaker each, and the turns are written one after the
  -- other; the empty turn of nobody stands before them.
  pub render-turns :
      (text : String) (tokens : List Token)
      → exists_row (λ t. is_some t.speaker) tokens ≡ true
      → render display text tokens ≡ push_turns "" (add_turn none "" (turns tokens))
  unfolding render
  render-turns text tokens h = rw h (render_loop-turns tokens "" none "")
