-- ===== src/Dialogue/Asked.antt =====
-- What the model is asked for a question, over any store that keeps its promises.
use alice_llm_bridge.Base.{ℕ, ◌≤◌, ◌^◌, ◌≡◌, ◌⊎◌, Option, none, List, [], ◌∷◌, ◌++◌, map}
use alice_llm_bridge.Base.Text.{Text}
use alice_llm_bridge.Base.Dict.{text_key}
use alice_llm_bridge.Profile.{Profile}
use alice_llm_bridge.Conversation.{StoredMessage, Summary, message, filter}
use alice_llm_bridge.Conversation.Ordered.{last}
use alice_llm_bridge.PendingAnswers.{mark_thinking}
use alice_llm_bridge.Llm.{Role, chat_message}
use alice_llm_bridge.Dialogue.{
  ConversationStore, Floats, Engine, ModelTier, preset_of, waiting, asking,
}
use alice_llm_bridge.Dialogue.Handle.{W, Handled, waits, spawn, window_of, to_chat, system_prompt}
use alice_llm_bridge.Dialogue.Promises.{own, Memory}

module _ (fl : Floats) (store : ConversationStore) {P : Type 0} (engine : Engine fl.F P)
    (m : Memory store.State) where
  abbrev pub remembered : W fl store engine → List StoredMessage
  remembered w = map message (
      last (window_of fl store engine w.dialogue)
        (filter (own w.dialogue.active_profile) (m.view w.store).rows))

  -- The request waits, with the user marked, for one more task, which asks the model this. `behind`
  -- is the store between the two readings.
  pub record Asked (now : ℕ) (user_id question : Text) (tier : ModelTier) (profile : Profile)
      (w : W fl store engine) (behind : store.State) (x : Handled × W fl store engine)
      : Type 0 where
    pub summary : Option Summary
    pub history : List StoredMessage
    pub after : store.State
    pub asked : x ≡ (
      waits,
      record w {
        store = after;
        pending = mark_thinking now user_id w.pending;
        tasks =
            record {
              key = user_id;
              profile = w.dialogue.active_profile;
              question = question;
              preset = preset_of engine.models tier;
              messages =
                  chat_message Role.system
                    (system_prompt fl store engine now w.dialogue profile summary)
                  ∷ (map to_chat history ++ chat_message Role.user question ∷ []);
              phase = asking;
              receiver = waiting;
            }
            ∷ w.tasks;
      },
    )
    pub same : m.view after ≡ m.view w.store
    pub knows :
        (summary ≡ (m.view w.store).summary w.dialogue.active_profile)
        ⊎ (m.IsDown w.store × (summary ≡ none))
    pub recalls :
        (history ≡ remembered w)
        ⊎ ((m.IsDown behind ⊎ (2 ^ 63 ≤ window_of fl store engine w.dialogue)) × (history ≡ []))

  module _ (now : ℕ) (user_id question : Text) (tier : ModelTier) (profile : Profile)
      (w : W fl store engine) where
    abbrev Spawned :
        store.State
        → Option Summary × W fl store engine
        → List StoredMessage × W fl store engine
        → Type 0
    Spawned behind loaded read =
        Asked now user_id question tier profile w behind
          (spawn fl store engine now user_id question tier profile loaded read)
