-- ===== src/Dialogue/Background.antt =====
-- crates/bridge-core/src/engine.rs: the spawned work, `generate`, and how its reply meets the request
-- or the store of deferred answers.
use alice_llm_bridge.Base.{ℕ, Option, none, some, ◌∷◌}
use alice_llm_bridge.Base.Text.{Text}
use alice_llm_bridge.PendingAnswers.{complete, clear}
use alice_llm_bridge.Conversation.{ExchangeRecord}
use alice_llm_bridge.Llm
use alice_llm_bridge.Llm.{
  Role, ChatMessage, chat_message, ChatRequest, ChatCompletion, ProviderError, timeout,
  rate_limited, auth, api, network, invalid_response, ChatResult,
}
use alice_llm_bridge.Dialogue.{
  StoreResult, ConversationStore, Floats, cost_micros, Engine, waiting, expired, dropped, Phase,
  asking, recording, finished, Task,
}
use alice_llm_bridge.Dialogue.Phrases.{
  phrase_thinking_started, phrase_internal_error, phrase_provider_timeout, phrase_rate_limited,
  phrase_auth_failed, phrase_provider_error,
}
use alice_llm_bridge.Dialogue.Handle.{W, stored}

unfoldable pub phrase_for_provider_error : ProviderError → Text
phrase_for_provider_error timeout = phrase_provider_timeout
phrase_for_provider_error rate_limited = phrase_rate_limited
phrase_for_provider_error auth = phrase_auth_failed
phrase_for_provider_error (api _ _) = phrase_provider_error
phrase_for_provider_error (network _) = phrase_provider_error
phrase_for_provider_error (invalid_response _) = phrase_provider_error

module _ (fl : Floats) (store : ConversationStore) {P : Type 0} (engine : Engine fl.F P) where
  abbrev pub T : Type 0
  T = Task fl.F P

  -- a call of a provider, in the world
  abbrev pub outside {ℓ} : {A : Type ℓ} → W fl store engine → A × P → A × W fl store engine
  outside w (a, p) = (a, record w { outside = p })

  abbrev pub record_of : T → ChatCompletion → ExchangeRecord
  record_of task completion = record {
    profile = task.profile;
    user_text = task.question;
    assistant_text = completion.text;
    model = task.preset.model;
    prompt_tokens = completion.usage.prompt_tokens;
    completion_tokens = completion.usage.completion_tokens;
    cost_micros = cost_micros fl completion.usage task.preset;
  }

  abbrev pub request_of : T → ChatRequest fl.F
  request_of task = record {
    model = task.preset.model;
    messages = task.messages;
    max_tokens = task.preset.max_tokens;
    temperature = task.preset.temperature;
  }

  abbrev pub on_completion :
      ChatResult ChatCompletion × W fl store engine → Phase × W fl store engine
  on_completion (Llm.ok completion, w) = (recording completion, w)
  on_completion (Llm.err e, w) = (finished (phrase_for_provider_error e), w)

  -- `if let Err(err) = record_exchange(…)` only logs; then the summary is spawned.
  abbrev pub on_recorded :
      T → ChatCompletion → StoreResult (Unit {0}) × W fl store engine → Phase × W fl store engine
  on_recorded task completion (_, w) =
      (finished completion.text, record w { summaries_due = task.profile ∷ w.summaries_due })

  -- One await of `generate`.
  unfoldable pub advance : ℕ → T → W fl store engine → Phase × W fl store engine
  advance now task w = elim task.phase [
    | asking ↦ on_completion (outside w (task.preset.chat (request_of task) w.outside))
    | recording completion ↦
        on_recorded task completion
          (stored fl store engine w (store.record_exchange now (record_of task completion) w.store))
    | finished reply ↦ (finished reply, w)
  ]

  -- `sender.send(reply)`, and what `timeout` makes of it: a request that waits gets the reply and
  -- clears its mark; a receiver that has expired takes it and drops it; else it is deferred.
  unfoldable pub send : T → Text → W fl store engine → Option Text × W fl store engine
  send task reply w = elim task.receiver [
    | waiting ↦ (some reply, record w { pending = clear task.key w.pending })
    | expired ↦ (none, w)
    | dropped ↦ (none, record w { pending = complete task.key reply w.pending })
  ]

  -- The block was dropped before it sent: `Ok(Err(_closed))`.
  unfoldable pub abandon : T → W fl store engine → Text × W fl store engine
  abandon task w = (phrase_internal_error, record w { pending = clear task.key w.pending })

  -- The deadline of a request that waits: it speaks, and its receiver is then dropped.
  unfoldable pub expire : T → Option (Text × T)
  expire task = elim task.receiver [
    | waiting ↦ some (phrase_thinking_started, record task { receiver = expired })
    | expired ↦ none
    | dropped ↦ none
  ]

  unfoldable pub drop_receiver : T → T
  drop_receiver task = elim task.receiver [
    | waiting ↦ task
    | expired ↦ record task { receiver = dropped }
    | dropped ↦ task
  ]
