-- ===== src/Dialogue/Known.antt =====
-- The state of a dialogue stays meaningful, whatever is said.
use alice_llm_bridge.Base.{
  ℕ, ◌≤◌, ◌≡◌, refl, ◌∙◌, Option, none, some, List, [], arith, Option-cases, inl, inr,
}
use alice_llm_bridge.Base.Text.{Text}
use alice_llm_bridge.Profile.{FamilyRoster, Mode, get_profile}
use alice_llm_bridge.Command.{
  Command, introduce, forget, set_window, use_smart_model, use_fast_model, usage_stats, who_am_i,
  enter_mode, exit_mode, help, Parsed, command, ask,
}
use alice_llm_bridge.Command.Known.{IsMode, IsMember, IsKnown, parse-IsKnown}
use alice_llm_bridge.PendingAnswers.{Poll, still_thinking, answer, Answers, poll}
use alice_llm_bridge.Dialogue.{
  StoreResult, ok, err, ConversationStore, ModelTier, Floats, DialogueState, Engine,
}
use alice_llm_bridge.Dialogue.Handle.{
  W, stored, or_default, read_summary, spawn, ask_llm, usage_report, forgotten, execute, on_parsed,
  on_poll, handle, clamp_window, tier_of, window_of,
}

abbrev pub IsModeIfAny : List Mode → Option Text → Type 0
IsModeIfAny modes none = Unit {0}
IsModeIfAny modes (some name) = IsMode modes name

abbrev pub IsWindowIfAny : Option ℕ → Type 0
IsWindowIfAny none = Unit {0}
IsWindowIfAny (some n) = (1 ≤ n) × (n ≤ 50)

-- The speaker is a member, the mode is one there is, and a spoken window is from 1 to 50.
pub record IsSound (roster : FamilyRoster) (modes : List Mode) (d : DialogueState) : Type 0 where
  pub member : IsMember roster d.active_profile
  pub mode_known : IsModeIfAny modes d.mode
  pub window : IsWindowIfAny d.window_override

clamp_window_bounds : (n : ℕ) → (1 ≤ clamp_window n) × (clamp_window n ≤ 50)
clamp_window_bounds n = ground arith

module _ (fl : Floats) (store : ConversationStore) {P : Type 0} (engine : Engine fl.F P) where
  abbrev Sound : W fl store engine → Type 0
  Sound w = IsSound engine.roster engine.modes w.dialogue

  dialogue-or_default :
      {A : Type 0} (default : A) (x : StoreResult A × W fl store engine)
      → (or_default fl store engine default x).1.dialogue ≡ x.1.dialogue
  dialogue-or_default default (ok a, w) = refl
  dialogue-or_default default (err log, w) = refl

  dialogue-ask_llm :
      (now : ℕ) (user_id question : Text) (tier : Option ModelTier) (w : W fl store engine)
      → (ask_llm fl store engine now user_id question tier w).1.dialogue ≡ w.dialogue
  unfolding ask_llm spawn
  dialogue-ask_llm now user_id question tier w =
      elim (Option-cases (get_profile engine.roster w.dialogue.active_profile)) [
        | inl e ↦ rw e refl
        | inr (p, e) ↦ rw e (
            let loaded : W fl store engine = (read_summary fl store engine w).1 in
            dialogue-or_default [] (
              stored fl store engine loaded (
                store.recent_messages loaded.dialogue.active_profile
                  (window_of fl store engine loaded.dialogue) loaded.store))
            ∙ dialogue-or_default none
                (stored fl store engine w (store.summary w.dialogue.active_profile w.store)))
      ]

  dialogue-forgotten :
      (x : StoreResult (Unit {0}) × W fl store engine)
      → (forgotten fl store engine x).1.dialogue ≡ x.1.dialogue
  dialogue-forgotten (ok _, w) = refl
  dialogue-forgotten (err _, w) = refl

  execute-IsSound :
      (now : ℕ) (user_id utterance : Text) (c : Command) (w : W fl store engine)
      → IsKnown engine.roster engine.modes (command c)
      → Sound w
      → Sound (execute fl store engine now user_id utterance c w).1
  unfolding execute usage_report
  execute-IsSound now user_id utterance (introduce name) w k s = record {
    member = k;
    mode_known = s.mode_known;
    window = s.window;
  }
  execute-IsSound now user_id utterance forget w k s = rw (dialogue-forgotten _) s
  execute-IsSound now user_id utterance (set_window n) w k s = record {
    member = s.member;
    mode_known = s.mode_known;
    window = clamp_window_bounds n;
  }
  execute-IsSound now user_id utterance use_smart_model w k s = record {
    member = s.member;
    mode_known = s.mode_known;
    window = s.window;
  }
  execute-IsSound now user_id utterance use_fast_model w k s = record {
    member = s.member;
    mode_known = s.mode_known;
    window = s.window;
  }
  execute-IsSound now user_id utterance usage_stats w k s = s
  execute-IsSound now user_id utterance who_am_i w k s = s
  execute-IsSound now user_id utterance (enter_mode name) w k s =
      rw (dialogue-ask_llm now user_id utterance none _)
        (record { member = s.member; mode_known = k; window = s.window })
  execute-IsSound now user_id utterance exit_mode w k s = record {
    member = s.member;
    mode_known = tt;
    window = s.window;
  }
  execute-IsSound now user_id utterance help w k s = s

  parsed-IsSound :
      (now : ℕ) (user_id utterance : Text) (p : Parsed) (w : W fl store engine)
      → IsKnown engine.roster engine.modes p
      → Sound w
      → Sound (on_parsed fl store engine now user_id utterance p w).1
  parsed-IsSound now user_id utterance (command c) w k s =
      execute-IsSound now user_id utterance c w k s
  parsed-IsSound now user_id utterance (ask question hard) w k s =
      rw (dialogue-ask_llm now user_id question (tier_of hard) w) s

  poll-IsSound :
      (now : ℕ) (user_id utterance : Text) (w : W fl store engine) (x : Poll × Answers)
      → Sound w
      → Sound (on_poll fl store engine now user_id utterance w x).1
  poll-IsSound now user_id utterance w (answer text, pending) s = s
  poll-IsSound now user_id utterance w (still_thinking, pending) s = s
  poll-IsSound now user_id utterance w (Poll.none, pending) s =
      parsed-IsSound now user_id utterance _ (record w { pending = pending })
        (parse-IsKnown engine.unicode engine.roster engine.modes utterance) s

-- Whatever is said, and whatever the store and the clock do: if the speaker is in the roster, the
-- mode is a configured one and a spoken window is from 1 to 50, then so it is behind `handle`.
pub handle-IsSound :
    (fl : Floats) (store : ConversationStore) {P : Type 0} (engine : Engine fl.F P) (now : ℕ)
    (user_id utterance : Text) (w : W fl store engine)
    → IsSound engine.roster engine.modes w.dialogue
    → IsSound engine.roster engine.modes (handle fl store engine now user_id utterance w).1.dialogue
unfolding handle
handle-IsSound fl store engine now user_id utterance w s =
    poll-IsSound fl store engine now user_id utterance w (poll now user_id w.pending) s
