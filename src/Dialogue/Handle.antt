-- ===== src/Dialogue/Handle.antt =====
-- crates/bridge-core/src/engine.rs: `Engine::handle`, up to the wait for the spawned reply.
use alice_llm_bridge.Base.{
  ℕ, ltb, Bool, true, false, if◌then◌else◌, Option, none, some, List, [], ◌∷◌, ◌++◌, map, find,
}
use alice_llm_bridge.Base.Text.{Text, codes, text_eq}
use alice_llm_bridge.Base.Decimal.{decimal}
use alice_llm_bridge.Profile.{Profile, Mode, get_profile}
use alice_llm_bridge.Command.{
  Command, introduce, forget, set_window, use_smart_model, use_fast_model, usage_stats, who_am_i,
  enter_mode, exit_mode, help, Parsed, command, ask, parse,
}
use alice_llm_bridge.PendingAnswers.{Poll, still_thinking, answer, Answers, poll, mark_thinking}
use alice_llm_bridge.Conversation.{user, assistant, StoredMessage, Summary, UsageStats}
use alice_llm_bridge.Llm.{Role, ChatMessage, chat_message}
use alice_llm_bridge.Dialogue.{
  StoreResult, ok, err, ConversationStore, ModelTier, Floats, preset_of, DialogueState, Engine,
  waiting, asking, World,
}
use alice_llm_bridge.Dialogue.Phrases.{phrase_still_thinking, phrase_internal_error, help_text}
use alice_llm_bridge.Dialogue.Prompt.{build_system_prompt}

-- A request is answered, or waits for the task that it has spawned.
pub data Handled : Type 0 where
  says : Text → Handled
  waits : Handled

-- `n.clamp(1, 50)`
abbrev pub clamp_window : ℕ → ℕ
clamp_window n = if ltb n 1 then 1 else if ltb 50 n then 50 else n

-- `think_hard.then_some(ModelTier::Smart)`
abbrev pub tier_of : Bool → Option ModelTier
tier_of true = some ModelTier.smart
tier_of false = none

abbrev pub or_else {ℓ} : {A : Type ℓ} → A → Option A → A
or_else default none = default
or_else default (some a) = a

abbrev pub to_chat : StoredMessage → ChatMessage
to_chat m = elim m.role [
  | user ↦ chat_message Role.user m.content
  | assistant ↦ chat_message Role.assistant m.content
]

abbrev pub content_of : Option Summary → Option Text
content_of none = none
content_of (some s) = some s.content

module _ (fl : Floats) (store : ConversationStore) {P : Type 0} (engine : Engine fl.F P) where
  abbrev pub W : Type 0
  W = World store.State fl.F P

  abbrev pub stored {ℓ} : {A : Type ℓ} → W → A × store.State → A × W
  stored w (a, s) = (a, record w { store = s })

  -- `unwrap_or_else(|err| { …; default })`
  abbrev pub or_default : {A : Type 0} → A → StoreResult A × W → A × W
  or_default default (ok a, w) = (a, w)
  or_default default (err log, w) = (default, w)

  abbrev pub window_of : DialogueState → ℕ
  window_of d = or_else engine.config.context_window d.window_override

  abbrev pub find_mode : Option Text → Option Mode
  find_mode none = none
  find_mode (some name) = find (λ m. text_eq m.name name) engine.modes

  abbrev pub system_prompt : ℕ → DialogueState → Profile → Option Summary → Text
  system_prompt now d profile summary =
      build_system_prompt engine.calendar.print_date engine.calendar.years_since (record {
        today = engine.calendar.date_of now engine.config.utc_offset_hours;
        profile = profile;
        roster = engine.roster;
        mode = find_mode d.mode;
        summary = content_of summary;
      })

  -- the messages of a request to the model
  abbrev pub messages_for : Text → List StoredMessage → Text → List ChatMessage
  messages_for prompt history question =
      chat_message Role.system prompt
      ∷ (map to_chat history ++ chat_message Role.user question ∷ [])

  -- `mark_thinking`, and the spawned block
  unfoldable pub spawn :
      ℕ
      → Text
      → Text
      → ModelTier
      → Profile
      → Option Summary × W
      → List StoredMessage × W
      → Handled × W
  unfolding build_system_prompt mark_thinking
  spawn now user_id question tier profile (summary, _) (history, w) = (
    waits,
    record w {
      pending = mark_thinking now user_id w.pending;
      tasks =
          record {
            key = user_id;
            profile = w.dialogue.active_profile;
            question = question;
            preset = preset_of engine.models tier;
            messages = messages_for (system_prompt now w.dialogue profile summary) history question;
            phase = asking;
            receiver = waiting;
          }
          ∷ w.tasks;
    },
  )

  abbrev pub read_summary : W → Option Summary × W
  read_summary w = or_default none (stored w (store.summary w.dialogue.active_profile w.store))

  abbrev pub read_history : W → List StoredMessage × W
  read_history w =
      or_default []
        (stored w (store.recent_messages w.dialogue.active_profile (window_of w.dialogue) w.store))

  abbrev pub on_profile : ℕ → Text → Text → ModelTier → Option Profile → W → Handled × W
  on_profile now user_id question tier none w = (says phrase_internal_error, w)
  on_profile now user_id question tier (some profile) w =
      let loaded = read_summary w in
      spawn now user_id question tier profile loaded (read_history loaded.1)

  -- `ask_llm`, up to the wait
  unfoldable pub ask_llm : ℕ → Text → Text → Option ModelTier → W → Handled × W
  unfolding spawn get_profile
  ask_llm now user_id question tier_override w =
      on_profile now user_id question (or_else w.dialogue.model_tier tier_override)
        (get_profile engine.roster w.dialogue.active_profile) w

  abbrev pub report : StoreResult UsageStats → StoreResult UsageStats → Text
  report (ok today) (ok month) =
      codes "Сегодня "
      ++ (decimal today.requests
          ++ (codes " ответов примерно на "
              ++ (fl.format_usd today.cost_micros
                  ++ (codes " долларов. С начала месяца "
                      ++ (decimal month.requests
                          ++ (codes " ответов на "
                              ++ (fl.format_usd month.cost_micros ++ codes " долларов.")))))))
  report (err _) _ = phrase_internal_error
  report (ok _) (err _) = phrase_internal_error

  -- `usage_report`
  unfoldable pub usage_report : ℕ → W → Handled × W
  usage_report now w =
      let day = engine.calendar.day_start now engine.config.utc_offset_hours in
      let month = engine.calendar.month_start now engine.config.utc_offset_hours in
      let (of_day, w1) = stored w (store.usage_since day w.store) in
      let (of_month, w2) = stored w1 (store.usage_since month w1.store) in
      (says (report of_day of_month), w2)

  abbrev pub forgotten : StoreResult (Unit {0}) × W → Handled × W
  forgotten (ok _, w) = (says (codes "Всё, забыла наш разговор. Начинаем с чистого листа."), w)
  forgotten (err _, w) = (says phrase_internal_error, w)

  abbrev pub with_state : W → DialogueState → W
  with_state w d = record w { dialogue = d }

  unfoldable pub execute : ℕ → Text → Text → Command → W → Handled × W
  unfolding ask_llm usage_report
  execute now user_id utterance (introduce name) w = (
    says (codes "Привет, " ++ (name ++ codes "! Слушаю.")),
    with_state w (record w.dialogue { active_profile = name }),
  )
  execute now user_id utterance forget w =
      forgotten (stored w (store.clear_profile w.dialogue.active_profile w.store))
  execute now user_id utterance (set_window n) w = (
    says
        (codes "Хорошо, теперь помню последние " ++ (decimal (clamp_window n) ++ codes " реплик.")),
    with_state w (record w.dialogue { window_override = some (clamp_window n) }),
  )
  execute now user_id utterance use_smart_model w = (
    says (codes "Переключилась на умную модель."),
    with_state w (record w.dialogue { model_tier = ModelTier.smart }),
  )
  execute now user_id utterance use_fast_model w = (
    says (codes "Переключилась на быструю модель."),
    with_state w (record w.dialogue { model_tier = ModelTier.fast }),
  )
  execute now user_id utterance usage_stats w = usage_report now w
  execute now user_id utterance who_am_i w =
      (says (codes "Сейчас со мной говорит " ++ (w.dialogue.active_profile ++ codes ".")), w)
  execute now user_id utterance (enter_mode name) w =
      ask_llm now user_id utterance none (with_state w (record w.dialogue { mode = some name }))
  execute now user_id utterance exit_mode w = (
    says (codes "Возвращаюсь в обычный режим."),
    with_state w (record w.dialogue { mode = none }),
  )
  execute now user_id utterance help w = (says help_text, w)

  abbrev pub on_parsed : ℕ → Text → Text → Parsed → W → Handled × W
  on_parsed now user_id utterance (command c) w = execute now user_id utterance c w
  on_parsed now user_id utterance (ask text think_hard) w =
      ask_llm now user_id text (tier_of think_hard) w

  abbrev pub on_poll : ℕ → Text → Text → W → Poll × Answers → Handled × W
  on_poll now user_id utterance w (answer text, pending) =
      (says text, record w { pending = pending })
  on_poll now user_id utterance w (still_thinking, pending) =
      (says phrase_still_thinking, record w { pending = pending })
  on_poll now user_id utterance w (Poll.none, pending) =
      on_parsed now user_id utterance (parse engine.unicode utterance engine.roster engine.modes)
        (record w { pending = pending })

  -- `handle`
  unfoldable pub handle : ℕ → Text → Text → W → Handled × W
  unfolding execute ask_llm
  handle now user_id utterance w = on_poll now user_id utterance w (poll now user_id w.pending)
