-- ===== src/Voicemail.antt =====
-- flowcat-core/src/agent/voicemail.rs: the detector of answering machines. `to_lowercase` is a
-- parameter, and so is the time from one float of seconds to another, `Duration::from_secs_f32((stop
-- - start).max(0.0))`, in nanoseconds; the panic of an infinite time is left out.
pub mod Decides
mod Tests
use flowcat.Base.{
  ℕ, ◌+◌, Bool, true, false, ◌&&◌, List, [], ◌∷◌, ◌++◌, Option, none, some, if◌then◌else◌, leb, any,
}
use flowcat.Base.Text.{Text, codes, contains, is_empty, word_count}
use flowcat.Frame.{
  F32, Frame, transcription, interim_transcription, vad_user_started_speaking,
  vad_user_stopped_speaking, custom, control, Classification, conversation, voicemail,
  DecisionReason, greeting_phrase, long_first_turn, human_response, voicemail_decision, CustomData,
  ivr_status_changed, foreign, usage_report, reprompt,
}
use flowcat.Runtime.{Envelope}
use flowcat.Runtime.Sends.{Send, pass, push_down}

pub record VoicemailParams : Type 0 where
  pub long_first_turn : ℕ
  pub long_first_turn_words : ℕ

-- `VoicemailParams::default`
abbrev pub default_voicemail : VoicemailParams
default_voicemail = record { long_first_turn = 5_000_000_000; long_first_turn_words = 12 }

abbrev pub voicemail_phrases : List Text
voicemail_phrases =
    codes "please leave a message"
    ∷ codes "leave a message"
    ∷ codes "leave your name and number"
    ∷ codes "leave your message after"
    ∷ codes "after the tone"
    ∷ codes "after the beep"
    ∷ codes "you've reached"
    ∷ codes "you have reached"
    ∷ codes "the person you are trying to reach"
    ∷ codes "is not available"
    ∷ codes "not available right now"
    ∷ codes "i'm not available"
    ∷ codes "is unavailable"
    ∷ codes "the number you have dialed"
    ∷ codes "the number you dialed"
    ∷ codes "is not in service"
    ∷ codes "the mailbox"
    ∷ codes "mailbox is full"
    ∷ codes "has not been set up"
    ∷ codes "voicemail"
    ∷ codes "voice mail"
    ∷ codes "all circuits are busy"
    ∷ codes "record your message"
    ∷ codes "i'll get back to you"
    ∷ codes "call me back"
    ∷ codes "our office is currently closed"
    ∷ codes "please record"
    ∷ codes "at the tone"
    ∷ []

pub record VoicemailDetector : Type 0 where
  pub params : VoicemailParams
  pub transcript : Text
  pub turn_started_secs : Option F32
  pub first_turn : Bool
  pub decided : Bool

unfoldable pub new : VoicemailParams → VoicemailDetector
new params = record {
  params = params;
  transcript = [];
  turn_started_secs = none;
  first_turn = true;
  decided = false;
}

unfoldable pub with_defaults : VoicemailDetector
unfolding new
with_defaults = new default_voicemail

-- `Frame::Custom` of a `VoicemailDecision`
unfoldable pub decision_frame : Classification → DecisionReason → Frame
decision_frame classification reason = custom (record {
  frame_class = control;
  uninterruptible = false;
  name = codes "VoicemailDecision";
  as_any = voicemail_decision classification reason;
})

unfoldable pub decide :
    Classification → DecisionReason → VoicemailDetector → Option Frame × VoicemailDetector
unfolding decision_frame
decide classification reason d =
    (some (decision_frame classification reason), record d { decided = true })

-- A space stands between two transcripts.
unfoldable pub add_words : Text → Text → Text
add_words transcript words = if is_empty transcript then words else transcript ++ 32 ∷ words

-- The detector once the words are added.
abbrev pub judge_words :
    Option DecisionReason → VoicemailDetector → Option Frame × VoicemailDetector
judge_words (some reason) d = decide voicemail reason d
judge_words none d =
    if d.first_turn && leb d.params.long_first_turn_words (word_count d.transcript)
    then decide voicemail long_first_turn d
    else (none, d)

abbrev pub announced : Option Frame → List Send
announced none = []
announced (some frame) = push_down frame ∷ []

module _ (lower : Text → Text) (elapsed : F32 → F32 → ℕ) where
  unfoldable pub classify_transcript : Text → Option DecisionReason
  unfolding contains
  classify_transcript transcript =
      if any (λ p. contains (lower transcript) p) voicemail_phrases
      then some greeting_phrase
      else none

  unfoldable pub on_words : Text → VoicemailDetector → Option Frame × VoicemailDetector
  unfolding classify_transcript decide word_count add_words
  on_words words d =
      let added = record d { transcript = add_words d.transcript words } in
      judge_words (classify_transcript added.transcript) added

  -- Whether the turn that ends was long, and the first.
  abbrev pub is_long : F32 → VoicemailDetector → Bool
  is_long stop_secs d = elim d.turn_started_secs [
    | none ↦ false
    | some start_secs ↦ d.first_turn && leb d.params.long_first_turn (elapsed start_secs stop_secs)
  ]

  -- What the end of a turn decides.
  abbrev pub stop_verdict : F32 → VoicemailDetector → Option Frame × VoicemailDetector
  stop_verdict stop_secs d =
      let taken = record d { turn_started_secs = none } in
      if is_long stop_secs d
      then decide voicemail long_first_turn taken
      else if d.first_turn
      then decide conversation human_response taken
      else (none, taken)

  -- `VadUserStoppedSpeaking`
  unfoldable pub on_stopped : F32 → VoicemailDetector → Option Frame × VoicemailDetector
  unfolding decide
  on_stopped stop_secs d =
      let verdict = stop_verdict stop_secs d in
      (verdict.0, record (verdict.1) { first_turn = false })

  abbrev pub look : Frame → VoicemailDetector → Option Frame × VoicemailDetector
  look (transcription words _ _ _) d = on_words words d
  look (interim_transcription words _ _) d = on_words words d
  look (vad_user_started_speaking start_secs) d = elim d.turn_started_secs [
    | none ↦ (none, record d { turn_started_secs = some start_secs })
    | some _ ↦ (none, d)
  ]
  look (vad_user_stopped_speaking stop_secs) d = on_stopped stop_secs d
  look _ d = (none, d)

  unfoldable pub process_frame : Envelope → VoicemailDetector → List Send × VoicemailDetector
  unfolding on_words on_stopped
  process_frame env d =
      let seen = look env.frame d in
      if d.decided then (pass env ∷ [], d) else (pass env ∷ announced seen.0, seen.1)

abbrev decision_in : CustomData → Option (Classification × DecisionReason)
decision_in (voicemail_decision classification reason) = some (classification, reason)
decision_in (ivr_status_changed _) = none
decision_in (usage_report _) = none
decision_in (reprompt _ _) = none
decision_in (foreign _) = none

unfoldable pub as_voicemail_decision : Frame → Option (Classification × DecisionReason)
as_voicemail_decision (custom c) = decision_in c.as_any
as_voicemail_decision _ = none
