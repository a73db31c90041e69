-- ===== src/Alice.antt =====
-- crates/alice-protocol/src/response.rs and request.rs: the reply envelope with its limit, and the
-- request.
pub mod Clip
use alice_llm_bridge.Base.{
  ℕ, suc, ◌+◌, ◌==◌, leb, ltb, Bool, true, false, ◌||◌, if◌then◌else◌, Option, none, some, List, [],
  ◌∷◌, ◌++◌, length, take,
}
use alice_llm_bridge.Base.Text.{Text, codes, is_whitespace, trim_end_matches}
use alice_llm_bridge.Reply.{rfind_char}

abbrev pub max_text_len : ℕ
max_text_len = 1024

pub record SkillResponse : Type 0 where
  pub text : Text
  pub tts : Option Text
  pub end_session : Bool

pub record WebhookResponse : Type 0 where
  pub response : SkillResponse
  pub version : Text

-- `['.', '!', '?']`
abbrev pub ends_clip : ℕ → Bool
ends_clip c = c == b'.' || c == b'!' || c == b'?'

abbrev pub at_whitespace : Text → Option ℕ → Text
at_whitespace cut (some pos) = trim_end_matches is_whitespace (take pos cut) ++ codes "…"
at_whitespace cut none = cut

abbrev pub at_sentence : Text → Option ℕ → Text
at_sentence cut (some pos) = take (suc pos) cut
at_sentence cut none = at_whitespace cut (rfind_char (λ i c. is_whitespace c) 0 cut)

unfoldable pub clip_to_limit : Text → Text
unfolding rfind_char trim_end_matches
clip_to_limit text =
    if leb (length text) max_text_len
    then text
    else at_sentence (take max_text_len text)
        (rfind_char (λ i c. ends_clip c) 0 (take max_text_len text))

-- `build`
abbrev pub build : Text → Bool → WebhookResponse
build text end_session = record {
  response = record {
    text = clip_to_limit text;
    tts = some (clip_to_limit text);
    end_session = end_session;
  };
  version = codes "1.0";
}

-- `WebhookResponse::say` and `say_and_close`
unfoldable pub say : Text → WebhookResponse
say text = build text false

unfoldable pub say_and_close : Text → WebhookResponse
say_and_close text = build text true

-- The request, as it is read from its JSON; numbers of 64 bits are not bounded.
pub record Meta : Type 0 where
  pub locale : Text
  pub timezone : Text
  pub client_id : Text

pub record AccountUser : Type 0 where
  pub user_id : Text

pub record Application : Type 0 where
  pub application_id : Text

pub record Session : Type 0 where
  pub message_id : ℕ
  pub session_id : Text
  pub skill_id : Text
  pub new_ : Bool
  pub user : Option AccountUser
  pub application : Application

pub data RequestKind : Type 0 where
  simple_utterance button_pressed other : RequestKind

pub record UserRequest : Type 0 where
  pub command : Text
  pub original_utterance : Text
  pub kind : RequestKind

pub record WebhookRequest : Type 0 where
  pub meta : Meta
  pub session : Session
  pub request : UserRequest
  pub version : Text
