-- ===== src/Server/Config.antt =====
-- crates/bridge-server/src/config.rs: the configuration and its validation. Reading TOML is a
-- library's; `F` stands for floats.
use alice_llm_bridge.Base.{
  ℕ, ◌==◌, leb, ltb, ℤ, Bool, false, not, ◌&&◌, ◌||◌, if◌then◌else◌, Option, none, some, List, [],
  ◌∷◌, ◌++◌, all, any, is_empty, length,
}
use alice_llm_bridge.Base.Text.{Text, codes, text_eq, is_ascii_alphanumeric}
use alice_llm_bridge.Base.Dict.{get, text_key}
use alice_llm_bridge.Json.{is_some}
use alice_llm_bridge.Profile.{NaiveDate}
use alice_llm_bridge.Reply.{continuation_suffix}
use alice_llm_bridge.CodexRuntime.{PathBuf, is_absolute}

pub data ConfigError : Type 0 where
  io parse missing_env : Text → ConfigError
  unknown_provider : (model provider : Text) → ConfigError
  invalid : Text → ConfigError

pub data ConfigResult (A : Type 0) : Type 0 where
  ok : A → ConfigResult A
  err : ConfigError → ConfigResult A

pub data RuntimeMode : Type 0 where
  legacy household_codex : RuntimeMode

pub record RuntimeConfig : Type 0 where
  pub mode : RuntimeMode
  pub codex_socket : Option PathBuf
  pub codex_cwd_root : Option PathBuf
  pub permission_profile_prefix : Text
  pub chunk_limit : ℕ
  pub homey_enabled : Bool

pub record ServerConfig : Type 0 where
  pub listen : Text
  pub allowed_user_ids : List Text

pub record DefaultsConfig : Type 0 where
  pub profile : Text
  pub context_window : ℕ
  pub reply_budget_ms : ℕ
  pub provider_timeout_secs : ℕ
  pub utc_offset_hours : ℤ

pub record ProviderConfig : Type 0 where
  pub base_url : Text
  pub api_key_env : Text

pub record ModelPresetConfig (F : Type 0) : Type 0 where
  pub provider : Text
  pub model : Text
  pub max_tokens : ℕ
  pub temperature : F
  pub input_price_per_mtok : F
  pub output_price_per_mtok : F

pub record ModelsConfig (F : Type 0) : Type 0 where
  pub fast : ModelPresetConfig F
  pub smart : ModelPresetConfig F

pub record ProfileConfig : Type 0 where
  pub name : Text
  pub aliases : List Text
  pub birthday : Option NaiveDate
  pub role : Text
  pub persona : Text

pub record ModeConfig : Type 0 where
  pub name : Text
  pub triggers : List Text
  pub prompt : Text

pub record AppConfig (F : Type 0) : Type 0 where
  pub runtime : RuntimeConfig
  pub server : ServerConfig
  pub defaults : DefaultsConfig
  pub providers : List (Text × ProviderConfig)
  pub models : ModelsConfig F
  pub profiles : List ProfileConfig
  pub modes : List ModeConfig

unfoldable pub default_permission_profile_prefix : Text
default_permission_profile_prefix = codes "alice-house-"

abbrev pub default_chunk_limit : ℕ
default_chunk_limit = 850

-- `RuntimeConfig::default`
unfoldable pub default_runtime : RuntimeConfig
default_runtime = record {
  mode = legacy;
  codex_socket = none;
  codex_cwd_root = none;
  permission_profile_prefix = default_permission_profile_prefix;
  chunk_limit = default_chunk_limit;
  homey_enabled = false;
}

-- the checks of a household configuration behind those that its paths are there
abbrev pub check_household : RuntimeConfig → PathBuf → PathBuf → ConfigResult (Unit {0})
check_household runtime socket cwd_root =
    if not (is_absolute socket) || not (is_absolute cwd_root)
    then err (invalid (codes "household Codex paths must be absolute"))
    else if leb runtime.chunk_limit (length continuation_suffix) || ltb 900 runtime.chunk_limit
    then err (
        invalid (codes "household chunk_limit must leave room for continuation and be at most 900"))
    else if is_empty runtime.permission_profile_prefix
        || not (all (λ c. is_ascii_alphanumeric c || c == b'-') runtime.permission_profile_prefix)
    then err (invalid (codes "household permission_profile_prefix is invalid"))
    else ok tt

abbrev pub check_paths : RuntimeConfig → Option PathBuf → Option PathBuf → ConfigResult (Unit {0})
check_paths runtime none _ = err (invalid (codes "household runtime requires codex_socket"))
check_paths runtime (some _) none =
    err (invalid (codes "household runtime requires codex_cwd_root"))
check_paths runtime (some socket) (some cwd_root) = check_household runtime socket cwd_root

abbrev pub check_runtime : RuntimeConfig → RuntimeMode → ConfigResult (Unit {0})
check_runtime runtime legacy = ok tt
check_runtime runtime household_codex =
    check_paths runtime runtime.codex_socket runtime.codex_cwd_root

abbrev pub and_then : ConfigResult (Unit {0}) → ConfigResult (Unit {0}) → ConfigResult (Unit {0})
and_then (ok _) r = r
and_then (err e) r = err e

abbrev pub check_roles : List ProfileConfig → ConfigResult (Unit {0})
check_roles [] = ok tt
check_roles (p ∷ profiles) =
    let rest = check_roles profiles in
    if not (text_eq p.role (codes "adult")) && not (text_eq p.role (codes "child"))
    then err (invalid (codes "profile " ++ (p.name ++ codes ": role must be adult or child")))
    else rest

module _ {F : Type 0} where
  abbrev pub check_preset :
      List (Text × ProviderConfig) → ModelPresetConfig F → ConfigResult (Unit {0})
  check_preset providers preset =
      if not (is_some (get preset.provider providers))
      then err (unknown_provider preset.model preset.provider)
      else ok tt

  abbrev pub check_default : AppConfig F → ConfigResult (Unit {0})
  check_default config =
      if not (any (λ p. text_eq p.name config.defaults.profile) config.profiles)
      then err (
          invalid
            (codes "default profile " ++ (config.defaults.profile ++ codes " is not defined")))
      else ok tt

  -- `validate`
  unfoldable pub validate : AppConfig F → ConfigResult (Unit {0})
  validate config = and_then (check_runtime config.runtime config.runtime.mode) (
      and_then (check_preset config.providers config.models.fast) (
        and_then (check_preset config.providers config.models.smart)
          (and_then (check_default config) (check_roles config.profiles))))

  abbrev pub validated : AppConfig F → ConfigResult (Unit {0}) → ConfigResult (AppConfig F)
  validated config (ok _) = ok config
  validated config (err e) = err e

  abbrev pub on_parsed : ConfigResult (AppConfig F) → ConfigResult (AppConfig F)
  on_parsed (ok config) = validated config (validate config)
  on_parsed (err e) = err e

  -- `from_toml`; `parse_toml` is the library's reading, with its error
  unfoldable pub from_toml : (Text → ConfigResult (AppConfig F)) → Text → ConfigResult (AppConfig F)
  unfolding validate
  from_toml parse_toml text = on_parsed (parse_toml text)
