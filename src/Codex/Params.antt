-- ===== src/Codex/Params.antt =====
-- crates/codex-runtime/src/protocol.rs: the methods that the bridge calls, and their parameters.
use alice_llm_bridge.Base.{Bool, true, false, Option, none, some, List, [], ◌∷◌, String}
use alice_llm_bridge.Base.Text.{Text, codes}
use alice_llm_bridge.Json.{Value, bool, string, array, nil, item, json}

unfoldable pub initialize_method : Text
initialize_method = codes "initialize"

unfoldable pub initialized_method : Text
initialized_method = codes "initialized"

unfoldable pub thread_start : Text
thread_start = codes "thread/start"

unfoldable pub thread_resume : Text
thread_resume = codes "thread/resume"

unfoldable pub turn_start : Text
turn_start = codes "turn/start"

abbrev pub text : String → Value
text s = string (codes s)

-- `version` is the package's, which the build sets.
unfoldable pub initialize_params : (version : Text) → Value
initialize_params version = json (
    (
      codes "clientInfo",
      json ((codes "name", text "alice-household-bridge") ∷ (codes "version", string version) ∷ []),
    )
    ∷ (codes "capabilities", json ((codes "experimentalApi", bool true) ∷ []))
    ∷ [])

abbrev pub enabled : Bool → Value
enabled b = json ((codes "enabled", bool b) ∷ [])

abbrev pub mcp_servers : Option Text → List (Text × Value)
mcp_servers none = []
mcp_servers (some connector) = (codes "mcp_servers", json ((connector, enabled true) ∷ [])) ∷ []

unfoldable pub isolated_house_config : Option Text → Value
isolated_house_config homey_connector = json (
    (
      codes "features",
      json (
          (codes "shell_tool", bool false)
          ∷ (codes "unified_exec", bool false)
          ∷ (codes "skill_mcp_dependency_install", bool false)
          ∷ []),
    )
    ∷ (codes "tools", json ((codes "web_search", bool false) ∷ []))
    ∷ (codes "apps", json ((codes "_default", enabled false) ∷ []))
    ∷ mcp_servers homey_connector)

unfoldable pub thread_start_params : (cwd permissions instructions : Text) → Option Text → Value
unfolding isolated_house_config
thread_start_params cwd permissions instructions homey_connector = json (
    (codes "cwd", string cwd)
    ∷ (codes "permissions", string permissions)
    ∷ (codes "developerInstructions", string instructions)
    ∷ (codes "approvalPolicy", text "never")
    ∷ (codes "ephemeral", bool false)
    ∷ (codes "config", isolated_house_config homey_connector)
    ∷ [])

unfoldable pub thread_resume_params : (thread_id permissions : Text) → Option Text → Value
unfolding isolated_house_config
thread_resume_params thread_id permissions homey_connector = json (
    (codes "threadId", string thread_id)
    ∷ (codes "permissions", string permissions)
    ∷ (codes "approvalPolicy", text "never")
    ∷ (codes "config", isolated_house_config homey_connector)
    ∷ [])

unfoldable pub turn_start_params : (thread_id utterance : Text) → Value
turn_start_params thread_id utterance = json (
    (codes "threadId", string thread_id)
    ∷ (
      codes "input",
      array (item (json ((codes "type", text "text") ∷ (codes "text", string utterance) ∷ [])) nil),
    )
    ∷ [])
