-- ===== src/CodexRuntime/Isolated.antt =====
-- What the runtime of a house writes on its connections.
use alice_llm_bridge.Base.{
  ◌≡◌, refl, ap, ◌∙◌, arith, Bool, true, false, if◌then◌else◌, ℕ, negsuc, Option, none, some, All,
  List, [], ◌∷◌, ◌++◌,
}
use alice_llm_bridge.Base.Text.{Text, codes, text_eq}
use alice_llm_bridge.Base.Utf8.{from_utf8}
use alice_llm_bridge.Base.Decimal.{to_string}
use alice_llm_bridge.Json.{
  Value, bool, integer, string, array, nil, item, json, pointer, str_at, bool_at,
}
use alice_llm_bridge.Codex.{CodexRuntimeError, CodexResult, ok}
use alice_llm_bridge.Codex.Client.{
  Writer, decline, method_not_allowed, request_message, request, notification, connected,
}
use alice_llm_bridge.Codex.Guarded.{
  Keeps, bind-Keeps, bind_lift-Keeps, request-Keeps, notify-Keeps, collect-Keeps,
}
use alice_llm_bridge.Codex.Params.{
  initialize_method, initialized_method, thread_start, thread_resume, turn_start, initialize_params,
  thread_start_params, thread_resume_params, turn_start_params, isolated_house_config,
}
use alice_llm_bridge.Household.{HouseContext}
use alice_llm_bridge.CodexRuntime.{
  CodexRuntime, homey_connector, path_join, permissions_of, cwd_of, guard, initialize,
  start_thread_with, turn_with,
}

abbrev in_params : Text → List Text
in_params key = codes "params" ∷ key ∷ []

abbrev in_config : Text → Text → List Text
in_config group key = codes "params" ∷ codes "config" ∷ group ∷ key ∷ []

abbrev pub IsCall : Text → Value → Type 0
IsCall method v = str_at (codes "method" ∷ []) v ≡ some method

-- the servers of tools that a connector stands for
abbrev only : Option Text → Option Value
only none = none
only (some connector) = some (json ((connector, json ((codes "enabled", bool true) ∷ [])) ∷ []))

-- No approval is ever granted, and there is no tool but those of the connector.
pub record IsIsolated (connector : Option Text) (v : Value) : Type 0 where
  pub approvals : str_at (in_params (codes "approvalPolicy")) v ≡ some (codes "never")
  pub no_shell : bool_at (in_config (codes "features") (codes "shell_tool")) v ≡ some false
  pub no_exec : bool_at (in_config (codes "features") (codes "unified_exec")) v ≡ some false
  pub no_install :
      bool_at (in_config (codes "features") (codes "skill_mcp_dependency_install")) v ≡ some false
  pub no_search : bool_at (in_config (codes "tools") (codes "web_search")) v ≡ some false
  pub no_apps :
      bool_at
        (codes "params" ∷ codes "config" ∷ codes "apps" ∷ codes "_default" ∷ codes "enabled" ∷ [])
        v
      ≡ some false
  pub servers :
      pointer (codes "params" ∷ codes "config" ∷ codes "mcp_servers" ∷ []) v ≡ only connector

module _ (version : Text) (runtime : CodexRuntime) (house : HouseContext) where
  -- the house's own profile, by its prefix and id, and its own connector where Homey is enabled
  abbrev pub own_profile : Text
  own_profile = runtime.config.permission_profile_prefix ++ to_string house.id

  abbrev pub own_connector : Option Text
  own_connector = if runtime.config.homey_enabled then some house.homey_connector_id else none

  -- The call that starts a thread or resumes one, in the house's profile.
  pub record IsHouseCall (method : Text) (v : Value) : Type 0 where
    pub method_is : IsCall method v
    pub profile : str_at (in_params (codes "permissions")) v ≡ some own_profile
    pub isolated : IsIsolated own_connector v

  -- Messages of every connection: the handshake, and the two refusals of a request of the server.
  pub data Common (v : Value) : Type 0 where
    initializing :
        IsCall (codes "initialize") v
        → pointer (codes "params" ∷ codes "clientInfo" ∷ codes "version" ∷ []) v
          ≡ some (string version)
        → Common v
    initialized : IsCall (codes "initialized") v → pointer (codes "params" ∷ []) v ≡ none → Common v
    declining :
        str_at (codes "result" ∷ codes "decision" ∷ []) v ≡ some (codes "decline")
        → pointer (codes "method" ∷ []) v ≡ none
        → Common v
    denying :
        pointer (codes "error" ∷ codes "code" ∷ []) v ≡ some (integer (negsuc 32600))
        → pointer (codes "result" ∷ []) v ≡ none
        → pointer (codes "method" ∷ []) v ≡ none
        → Common v

  -- The call that starts a thread names the house's own directory and the instructions.
  pub data StartMessage (instructions : Text) (v : Value) : Type 0 where
    common : Common v → StartMessage instructions v
    starting :
        (cwd : Text)
        → from_utf8 (path_join runtime.config.cwd_root (to_string house.id)) ≡ some cwd
        → IsHouseCall (codes "thread/start") v
        → str_at (in_params (codes "cwd")) v ≡ some cwd
        → str_at (in_params (codes "developerInstructions")) v ≡ some instructions
        → StartMessage instructions v

  -- The one that resumes it names the thread; the turn passes the utterance on.
  pub data TurnMessage (thread_id utterance : Text) (v : Value) : Type 0 where
    common : Common v → TurnMessage thread_id utterance v
    resuming :
        IsHouseCall (codes "thread/resume") v
        → str_at (in_params (codes "threadId")) v ≡ some thread_id
        → TurnMessage thread_id utterance v
    turning :
        IsCall (codes "turn/start") v
        → str_at (in_params (codes "threadId")) v ≡ some thread_id
        → pointer (in_params (codes "input")) v
          ≡ some (
              array (
                item
                  (json
                    ((codes "type", string (codes "text")) ∷ (codes "text", string utterance) ∷ []))
                  nil))
        → TurnMessage thread_id utterance v

  connector-own :
      (connector : Option Text)
      → homey_connector runtime house ≡ ok connector
      → connector ≡ own_connector
  unfolding homey_connector
  connector-own connector h = ground arith

  cwd-own :
      (cwd : Text)
      → cwd_of runtime house ≡ ok cwd
      → from_utf8 (path_join runtime.config.cwd_root (to_string house.id)) ≡ some cwd
  unfolding cwd_of
  cwd-own cwd h = ground arith

  servers-only :
      (connector : Option Text)
      → (v : Value) → v ≡ isolated_house_config connector
      → pointer (codes "mcp_servers" ∷ []) v ≡ only connector
  unfolding isolated_house_config pointer text_eq
  servers-only none v e = rw e refl
  servers-only (some connector) v e = rw e refl

  resume-IsHouseCall :
      (id : ℕ) (thread_id : Text) (connector : Option Text)
      → connector ≡ own_connector
      → IsHouseCall (codes "thread/resume") (
          request_message id thread_resume
            (thread_resume_params thread_id (permissions_of runtime house) connector))
  unfolding request_message thread_resume thread_resume_params permissions_of pointer text_eq
      isolated_house_config
  resume-IsHouseCall id thread_id connector own = record {
    method_is = refl;
    profile = refl;
    isolated = record {
      approvals = refl;
      no_shell = refl;
      no_exec = refl;
      no_install = refl;
      no_search = refl;
      no_apps = refl;
      servers = servers-only connector _ refl ∙ ap only own;
    };
  }

  start-IsHouseCall :
      (id : ℕ) (cwd instructions : Text) (connector : Option Text)
      → connector ≡ own_connector
      → IsHouseCall (codes "thread/start") (
          request_message id thread_start
            (thread_start_params cwd (permissions_of runtime house) instructions connector))
  unfolding request_message thread_start thread_start_params permissions_of pointer text_eq
      isolated_house_config
  start-IsHouseCall id cwd instructions connector own = record {
    method_is = refl;
    profile = refl;
    isolated = record {
      approvals = refl;
      no_shell = refl;
      no_exec = refl;
      no_install = refl;
      no_search = refl;
      no_apps = refl;
      servers = servers-only connector _ refl ∙ ap only own;
    };
  }

  starting_call :
      (id : ℕ) (cwd instructions : Text) (connector : Option Text)
      → cwd_of runtime house ≡ ok cwd
      → homey_connector runtime house ≡ ok connector
      → StartMessage instructions (
          request_message id thread_start
            (thread_start_params cwd (permissions_of runtime house) instructions connector))
  unfolding request_message thread_start thread_start_params permissions_of pointer text_eq
      isolated_house_config
  starting_call id cwd instructions connector at_home own =
      starting cwd (cwd-own cwd at_home)
        (start-IsHouseCall id cwd instructions connector (connector-own connector own)) refl refl

  resuming_call :
      (id : ℕ) (thread_id utterance : Text) (connector : Option Text)
      → homey_connector runtime house ≡ ok connector
      → TurnMessage thread_id utterance (
          request_message id thread_resume
            (thread_resume_params thread_id (permissions_of runtime house) connector))
  unfolding request_message thread_resume thread_resume_params permissions_of pointer text_eq
      isolated_house_config
  resuming_call id thread_id utterance connector own =
      resuming (resume-IsHouseCall id thread_id connector (connector-own connector own)) refl

  turning_call :
      (id : ℕ) (thread_id utterance : Text)
      → TurnMessage thread_id utterance
          (request_message id turn_start (turn_start_params thread_id utterance))
  unfolding request_message turn_start turn_start_params pointer text_eq
  turning_call id thread_id utterance = turning refl refl refl

  initializing_call :
      (id : ℕ) → Common (request_message id initialize_method (initialize_params version))
  unfolding request_message initialize_method initialize_params pointer text_eq
  initializing_call id = initializing refl refl

  initialized_note : Common (notification initialized_method none)
  unfolding notification initialized_method pointer text_eq
  initialized_note = initialized refl refl

  declining_reply : (id : Value) → Common (decline id)
  unfolding decline pointer text_eq
  declining_reply id = declining refl refl

  denying_reply : (id : Value) → Common (method_not_allowed id)
  unfolding method_not_allowed pointer text_eq
  denying_reply id = denying refl refl refl

  module _ (writer : Writer) (P : Value → Type 0) (each : (v : Value) → Common v → P v) where
    guard-Keeps : (b : Bool) (e : CodexRuntimeError) → Keeps P (guard b e)
    guard-Keeps true e c w = w
    guard-Keeps false e c w = w

    declined : (id : Value) → P (decline id)
    declined id = each _ (declining_reply id)

    denied : (id : Value) → P (method_not_allowed id)
    denied id = each _ (denying_reply id)

    call-Keeps :
        (method : Text) (params : Value)
        → ((id : ℕ) → P (request_message id method params))
        → Keeps P (request writer method params)
    call-Keeps = request-Keeps writer P declined denied

    initialize-Keeps : Keeps P (initialize version writer)
    unfolding initialize
    initialize-Keeps =
        bind-Keeps P _ _ (call-Keeps _ _ (λ id. each _ (initializing_call id)))
          (λ _. notify-Keeps writer P declined denied _ _ (each _ initialized_note))

    start-Keeps :
        (instructions : Text)
        → ((v : Value) → StartMessage instructions v → P v)
        → Keeps P (start_thread_with version writer runtime house instructions)
    unfolding start_thread_with
    start-Keeps instructions own = bind-Keeps P _ _ (guard-Keeps _ _) λ _.
        bind_lift-Keeps P _ _ λ connector e. bind-Keeps P _ _ initialize-Keeps λ _.
          bind_lift-Keeps P _ _ λ cwd e'.
            bind-Keeps P _ _
              (call-Keeps _ _ (λ id. own _ (starting_call id cwd instructions connector e' e)))
              λ _. bind_lift-Keeps P _ _ λ _ _ c w. w

    turn-Keeps :
        (thread_id utterance : Text)
        → ((v : Value) → TurnMessage thread_id utterance v → P v)
        → Keeps P (turn_with version writer runtime house thread_id utterance)
    unfolding turn_with
    turn-Keeps thread_id utterance own = bind-Keeps P _ _ (guard-Keeps _ _) λ _.
        bind-Keeps P _ _ (guard-Keeps _ _) λ _. bind_lift-Keeps P _ _ λ connector e.
          bind-Keeps P _ _ initialize-Keeps λ _.
            bind-Keeps P _ _
              (call-Keeps _ _ (λ id. own _ (resuming_call id thread_id utterance connector e)))
              λ _. bind_lift-Keeps P _ _ λ _ _. bind_lift-Keeps P _ _ λ _ _.
                bind-Keeps P _ _ (guard-Keeps _ _) λ _.
                  bind-Keeps P _ _
                    (call-Keeps _ _ (λ id. own _ (turning_call id thread_id utterance)))
                    λ _. bind_lift-Keeps P _ _ λ _ _. collect-Keeps writer P declined denied _ _ _

-- Whatever the server sends and whichever writes fail, all that is written on the connection of a
-- turn is: the handshake, with the bridge's version; the call that resumes this thread, in the
-- profile of the house's id, with no approvals, the shell, the search of the web, apps and the
-- installing of skills off, and as the only server of tools the house's own connector, or none where
-- Homey is disabled; the call that begins the turn in this thread with the utterance alone; answers
-- that decline; and the error that forbids a method.
pub turn_with-TurnMessage :
    (version : Text) (runtime : CodexRuntime) (house : HouseContext) (writer : Writer)
    (incoming : List (CodexResult Value)) (thread_id utterance : Text)
    → All
        (TurnMessage version runtime house thread_id utterance)
        (turn_with version writer runtime house thread_id utterance (connected incoming)).1.written
unfolding connected
turn_with-TurnMessage version runtime house writer incoming thread_id utterance =
    turn-Keeps version runtime house writer (TurnMessage version runtime house thread_id utterance)
      (λ v h. TurnMessage.common h) thread_id utterance (λ v h. h) (connected incoming) tt

-- The same of the connection that starts a thread, in the directory of the house's id and with the
-- given instructions.
pub start_thread_with-StartMessage :
    (version : Text) (runtime : CodexRuntime) (house : HouseContext) (writer : Writer)
    (incoming : List (CodexResult Value)) (instructions : Text)
    → All
        (StartMessage version runtime house instructions)
        (start_thread_with version writer runtime house instructions (connected incoming)).1.written
unfolding connected
start_thread_with-StartMessage version runtime house writer incoming instructions =
    start-Keeps version runtime house writer (StartMessage version runtime house instructions)
      (λ v h. StartMessage.common h) instructions (λ v h. h) (connected incoming) tt
