-- ===== src/CodexRuntime.antt =====
-- crates/codex-runtime/src/lib.rs: the runtime of a house over the Codex app-server. The version of
-- the package and the server's behaviour are parameters.
pub mod Server
pub mod Profile
pub mod Isolated
pub mod Served
use alice_llm_bridge.Base.{
  ℕ, ◌==◌, ℤ, is_positive, Bool, true, false, not, ◌&&◌, ◌||◌, if◌then◌else◌, Option, none, some,
  List, [], ◌∷◌, ◌++◌, is_empty, all,
}
use alice_llm_bridge.Base.Text.{Text, codes, text_eq, is_ascii_alphanumeric, starts_with}
use alice_llm_bridge.Base.Utf8.{as_bytes, from_utf8}
use alice_llm_bridge.Base.Decimal.{to_string}
use alice_llm_bridge.Json.{Value, str_at, bool_at}
use alice_llm_bridge.Codex.{
  CodexRuntimeError, invalid_config, protocol, CodexResult, ok, err, ok_or, unwrap_or, is_text,
}
use alice_llm_bridge.Codex.Client.{
  M, ◌>>=◌, ◌>>◌, pure, lift, Writer, notify, request, collect_turn, JsonRpcClient,
}
use alice_llm_bridge.Codex.Turn.{then_}
use alice_llm_bridge.Codex.Params
use alice_llm_bridge.Household.{HouseContext}

-- A path is the list of its bytes.
abbrev pub PathBuf : Type 0
PathBuf = List ℕ

-- `Path::is_absolute` and `Path::join` with a relative path of one component, on Unix
unfoldable pub is_absolute : PathBuf → Bool
is_absolute [] = false
is_absolute (c ∷ path) = c == b'/'

unfoldable pub with_separator : PathBuf → PathBuf
with_separator [] = []
with_separator (c ∷ []) = if c == b'/' then c ∷ [] else c ∷ b'/' ∷ []
with_separator (c ∷ d ∷ path) = c ∷ with_separator (d ∷ path)

unfoldable pub path_join : PathBuf → Text → PathBuf
unfolding with_separator as_bytes
path_join path name = with_separator path ++ as_bytes name

pub record CodexRuntimeConfig : Type 0 where
  pub socket_path : PathBuf
  pub cwd_root : PathBuf
  pub permission_profile_prefix : Text
  pub homey_enabled : Bool

pub record CodexRuntime : Type 0 where
  pub config : CodexRuntimeConfig

unfoldable pub is_profile_prefix : Text → Bool
is_profile_prefix prefix =
    not (is_empty prefix) && all (λ c. is_ascii_alphanumeric c || c == b'-') prefix

-- `CodexRuntime::new`
unfoldable pub runtime_new : CodexRuntimeConfig → CodexResult CodexRuntime
unfolding is_absolute is_profile_prefix
runtime_new config =
    if not (is_absolute config.socket_path)
    then err (invalid_config (codes "socket path must be absolute"))
    else if not (is_absolute config.cwd_root)
    then err (invalid_config (codes "house cwd root must be absolute"))
    else if not (is_profile_prefix config.permission_profile_prefix)
    then err (invalid_config (codes "permission profile prefix is invalid"))
    else ok (record { config = config })

unfoldable pub required_string : Value → List Text → Text → CodexResult Text
required_string result keys message = ok_or (str_at keys result) (protocol message)

unfoldable pub at_profile : List Text
at_profile = codes "activePermissionProfile" ∷ codes "id" ∷ []

unfoldable pub at_sandbox : Text → List Text
at_sandbox key = codes "sandbox" ∷ key ∷ []

unfoldable pub at_thread_id : List Text
at_thread_id = codes "thread" ∷ codes "id" ∷ []

unfoldable pub at_turn_id : List Text
at_turn_id = codes "turn" ∷ codes "id" ∷ []

-- `expected_profile.is_some_and(|expected| expected != profile)`
abbrev pub differs : Option Text → Text → Bool
differs none profile = false
differs (some expected) profile = not (text_eq expected profile)

abbrev pub on_profile : Value → Option Text → Text → CodexResult (Unit {0})
on_profile result expected_profile profile =
    if differs expected_profile profile
    then err (protocol (codes "app-server activated a different permission profile"))
    else if not (is_text (codes "readOnly") (str_at (at_sandbox (codes "type")) result))
        || unwrap_or false (bool_at (at_sandbox (codes "networkAccess")) result)
    then err (protocol (codes "permission profile is not read-only and network-isolated"))
    else ok tt

unfoldable pub validate_permission_result : Value → Option Text → CodexResult (Unit {0})
validate_permission_result result expected_profile = elim (str_at at_profile result) [
  | none ↦ err (protocol (codes "app-server did not activate a permission profile"))
  | some profile ↦ on_profile result expected_profile profile
]

-- `matches!(character, '-' | '_')` or alphanumeric
abbrev pub is_connector_char : ℕ → Bool
is_connector_char c = is_ascii_alphanumeric c || c == b'-' || c == b'_'

unfoldable pub validate_homey_connector : Text → CodexResult (Unit {0})
unfolding starts_with
validate_homey_connector connector =
    if not (starts_with (codes "homey-") connector) || not (all is_connector_char connector)
    then err (invalid_config (codes "Homey connector id is invalid"))
    else ok tt

unfoldable pub homey_connector : CodexRuntime → HouseContext → CodexResult (Option Text)
unfolding validate_homey_connector
homey_connector runtime house =
    if not runtime.config.homey_enabled
    then ok none
    else then_ (validate_homey_connector house.homey_connector_id)
        (ok (some house.homey_connector_id))

-- `format!("{}{}", self.config.permission_profile_prefix, house.id)`
unfoldable pub permissions_of : CodexRuntime → HouseContext → Text
permissions_of runtime house = runtime.config.permission_profile_prefix ++ to_string house.id

-- the working directory of a house
unfoldable pub cwd_of : CodexRuntime → HouseContext → CodexResult Text
cwd_of runtime house =
    ok_or (from_utf8 (path_join runtime.config.cwd_root (to_string house.id)))
      (invalid_config (codes "house cwd is not UTF-8"))

abbrev pub guard : Bool → CodexRuntimeError → M (Unit {0})
guard true e = pure tt
guard false e = lift (err e)

module _ (version : Text) (writer : Writer) where
  unfoldable pub initialize : M (Unit {0})
  initialize = do
    _answer ← request writer Params.initialize_method (Params.initialize_params version)
    notify writer Params.initialized_method none

  module _ (runtime : CodexRuntime) (house : HouseContext) where
    unfoldable pub start_thread_with : Text → M Text
    unfolding initialize
    start_thread_with instructions = do
      guard (is_positive house.id) (invalid_config (codes "house id must be positive"))
      connector ← lift (homey_connector runtime house)
      initialize
      cwd ← lift (cwd_of runtime house)
      let permissions = permissions_of runtime house
      result ←
          request writer Params.thread_start
            (Params.thread_start_params cwd permissions instructions connector)
      lift (validate_permission_result result (some permissions))
      lift (required_string result at_thread_id (codes "thread/start response has no thread id"))

    unfoldable pub turn_with : Text → Text → M Text
    unfolding initialize
    turn_with thread_id utterance = do
      guard (not (is_empty thread_id)) (protocol (codes "thread id is empty"))
      guard (is_positive house.id) (invalid_config (codes "house id must be positive"))
      connector ← lift (homey_connector runtime house)
      initialize
      let permissions = permissions_of runtime house
      resumed ←
          request writer Params.thread_resume
            (Params.thread_resume_params thread_id permissions connector)
      lift (validate_permission_result resumed (some permissions))
      resumed_id ←
          lift
            (required_string resumed at_thread_id (codes "thread/resume response has no thread id"))
      guard (text_eq thread_id resumed_id)
          (protocol (codes "thread/resume returned a different thread"))
      started ← request writer Params.turn_start (Params.turn_start_params thread_id utterance)
      turn_id ←
          lift (required_string started at_turn_id (codes "turn/start response has no turn id"))
      collect_turn writer thread_id turn_id connector
