-- ===== src/Server/Routes.antt =====
-- crates/bridge-server/src/routes.rs: the checks of a request before an engine has it, and the
-- response to a reply.
use alice_llm_bridge.Base.{
  Bool, not, ◌&&◌, ◌||◌, if◌then◌else◌, Option, none, some, List, ◌++◌, any, is_empty,
}
use alice_llm_bridge.Base.Text.{Text, codes, text_eq, trim}
use alice_llm_bridge.Alice
use alice_llm_bridge.Alice.{WebhookRequest, AccountUser, WebhookResponse, say_and_close}
use alice_llm_bridge.HouseEngine.{
  HouseholdReply, say, refuse, pairing, busy, internal_error, HouseholdInput,
}
use alice_llm_bridge.Dialogue.Phrases.{phrase_internal_error}

unfoldable pub greeting : Text
greeting = codes "Привет! Я мост к нейросетям. Задай любой вопрос или скажи: помощь."

unfoldable pub refusal : Text
refusal = codes "Извини, это семейный навык. Я отвечаю только своим."

unfoldable pub household_refusal : Text
household_refusal = codes "Извините, эта Алиса не привязана к домашнему помощнику."

unfoldable pub household_busy : Text
household_busy = codes "Я уже отвечаю в этом доме. Повторите через несколько секунд."

-- `SkillBackend`; its engines stand outside
pub data SkillBackend : Type 0 where
  legacy household : SkillBackend

pub record AppState : Type 0 where
  pub backend : SkillBackend
  pub webhook_secret : Text
  pub allowed_user_ids : List Text

-- What the handler does: an answer without an engine, or a call of one.
pub data Dispatch : Type 0 where
  not_found : Dispatch
  answered : WebhookResponse → Dispatch
  handle : (user_id utterance : Text) → Dispatch
  respond : HouseholdInput → Dispatch

abbrev pub or_application : Option AccountUser → Text → Text
or_application none application_id = application_id
or_application (some user) application_id = user.user_id

unfoldable pub is_allowed : AppState → Text → Bool
is_allowed state user_id =
    is_empty state.allowed_user_ids || any (λ id. text_eq id user_id) state.allowed_user_ids

abbrev pub dispatch_legacy : AppState → WebhookRequest → Text → Dispatch
dispatch_legacy state request user_id =
    if not (is_allowed state user_id)
    then answered (say_and_close refusal)
    else if request.session.new_ && is_empty (trim request.request.original_utterance)
    then answered (Alice.say greeting)
    else handle user_id (trim request.request.original_utterance)

abbrev pub dispatch_household : WebhookRequest → Option AccountUser → Dispatch
dispatch_household request none = answered (say_and_close household_refusal)
dispatch_household request (some user) = respond (record {
  identity = record {
    user_id = user.user_id;
    application_id = request.session.application.application_id;
  };
  utterance = trim request.request.original_utterance;
  new_session = request.session.new_;
})

abbrev pub dispatch : AppState → WebhookRequest → SkillBackend → Dispatch
dispatch state request legacy =
    dispatch_legacy state request
      (or_application request.session.user request.session.application.application_id)
dispatch state request household = dispatch_household request request.session.user

-- `webhook`, up to the engine
unfoldable pub webhook : AppState → Text → WebhookRequest → Dispatch
unfolding is_allowed
webhook state secret request =
    if not (text_eq secret state.webhook_secret)
    then not_found
    else dispatch state request state.backend

unfoldable pub household_response : HouseholdReply → WebhookResponse
household_response (say text) = Alice.say text
household_response refuse = say_and_close household_refusal
household_response (pairing code) =
    Alice.say (codes "Код привязки: " ++ (code ++ codes ". Сообщите его владельцу."))
household_response busy = Alice.say household_busy
household_response internal_error = Alice.say phrase_internal_error
