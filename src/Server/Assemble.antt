-- ===== src/Server/Assemble.antt =====
-- crates/bridge-server/src/assemble.rs and main.rs: the engines made from a configuration. The
-- environment's variables and the building of an HTTP client, which may fail, are parameters.
use alice_llm_bridge.Base.{if◌then◌else◌, Option, none, some, List, [], ◌∷◌, ◌++◌, map, ℕ}
use alice_llm_bridge.Base.Text.{Text, codes, text_eq}
use alice_llm_bridge.Base.Dict.{get, text_key}
use alice_llm_bridge.Profile
use alice_llm_bridge.Profile.{
  Profile, ProfileRole, child, adult, FamilyRoster, Mode, CoreResult, roster_new,
}
use alice_llm_bridge.Command.{Unicode}
use alice_llm_bridge.Llm.{Endpoint, OpenAiCompatClient, chat, chat_url}
use alice_llm_bridge.HouseEngine
use alice_llm_bridge.CodexRuntime.{CodexRuntimeConfig}
use alice_llm_bridge.Dialogue.{Engine, ModelPreset, Calendar}
use alice_llm_bridge.Server.Config.{
  missing_env, unknown_provider, invalid, ConfigResult, ok, err, RuntimeMode, legacy,
  household_codex, RuntimeConfig, ProviderConfig, ModelPresetConfig, ProfileConfig, ModeConfig,
  AppConfig,
}

abbrev pub bind : {A B : Type 0} → ConfigResult A → (A → ConfigResult B) → ConfigResult B
bind (ok a) k = k a
bind (err e) k = err e

-- the `CodexRuntimeConfig` of `main`; `none` is the panic of an `expect`
abbrev pub codex_paths :
    RuntimeConfig → Option (List ℕ) → Option (List ℕ) → Option CodexRuntimeConfig
codex_paths runtime none _ = none
codex_paths runtime (some _) none = none
codex_paths runtime (some socket) (some cwd_root) = some (record {
  socket_path = socket;
  cwd_root = cwd_root;
  permission_profile_prefix = runtime.permission_profile_prefix;
  homey_enabled = runtime.homey_enabled;
})

unfoldable pub codex_config : RuntimeConfig → Option CodexRuntimeConfig
codex_config runtime = codex_paths runtime runtime.codex_socket runtime.codex_cwd_root

abbrev pub role_of : Text → ProfileRole
role_of role = if text_eq role (codes "child") then child else adult

unfoldable pub profile_of : (Text → Text) → ProfileConfig → Profile
profile_of to_lowercase p = record {
  name = p.name;
  aliases = map to_lowercase p.aliases;
  birthday = p.birthday;
  role = role_of p.role;
  persona = p.persona;
}

abbrev pub mode_of : ModeConfig → Mode
mode_of m = record { name = m.name; triggers = m.triggers; prompt = m.prompt }

-- `map_err(|e| ConfigError::Invalid(e.to_string()))`
abbrev pub on_roster : CoreResult FamilyRoster → ConfigResult FamilyRoster
on_roster (Profile.ok roster) = ok roster
on_roster (Profile.err (Profile.unknown_profile name)) =
    err (invalid (codes "unknown profile: " ++ name))

module _ {F : Type 0} where
  abbrev pub household_config : AppConfig F → HouseEngine.HouseholdEngineConfig
  household_config config = record {
    reply_budget = config.defaults.reply_budget_ms;
    chunk_limit = config.runtime.chunk_limit;
    homey_enabled = config.runtime.homey_enabled;
  }

  abbrev pub engine_for :
      (Text → Text) → AppConfig F → RuntimeMode → ConfigResult (Option HouseEngine.HouseholdEngine)
  engine_for to_lowercase config legacy =
      err (invalid (codes "household engine requested while runtime mode is legacy"))
  engine_for to_lowercase config household_codex =
      ok (HouseEngine.engine_new to_lowercase (household_config config))

  -- `build_household_engine`; `ok none` is the panic of the engine's constructor
  unfoldable pub build_household_engine :
      (Text → Text) → AppConfig F → ConfigResult (Option HouseEngine.HouseholdEngine)
  build_household_engine to_lowercase config = engine_for to_lowercase config config.runtime.mode

-- What `build_engine` takes from outside; `http_client` gives the error of its builder.
pub record Environment : Type 0 where
  pub var : Text → Option Text
  pub http_client : (timeout_secs : ℕ) → Option Text

module _ {F : Type 0} (endpoint : Endpoint F) (environment : Environment) where
  abbrev pub Providers : Type 0
  Providers = List (Text × OpenAiCompatClient endpoint)

  -- `OpenAiCompatClient::new`
  abbrev pub client_new :
      Text → ProviderConfig → Text → Option Text → ConfigResult (OpenAiCompatClient endpoint)
  client_new name provider api_key (some why) =
      err (invalid (codes "provider " ++ (name ++ (codes ": network error: " ++ why))))
  client_new name provider api_key none =
      ok (record { url = chat_url provider.base_url; api_key = api_key })

  abbrev pub with_key :
      Text → ProviderConfig → ℕ → Option Text → ConfigResult (OpenAiCompatClient endpoint)
  with_key name provider timeout none = err (missing_env provider.api_key_env)
  with_key name provider timeout (some api_key) =
      client_new name provider api_key (environment.http_client timeout)

  -- the loop over the providers, in the order in which the map is read
  unfoldable pub clients : ℕ → List (Text × ProviderConfig) → ConfigResult Providers
  clients timeout [] = ok []
  clients timeout ((name, provider) ∷ providers) =
      let rest = clients timeout providers in
      bind (with_key name provider timeout (environment.var provider.api_key_env))
        (λ client. bind rest (λ made. ok ((name, client) ∷ made)))

  abbrev pub preset_with :
      ModelPresetConfig F
      → Option (OpenAiCompatClient endpoint)
      → ConfigResult (ModelPreset F endpoint.State)
  preset_with config none = err (unknown_provider config.model config.provider)
  preset_with config (some client) = ok (record {
    chat = chat endpoint client;
    model = config.model;
    max_tokens = config.max_tokens;
    temperature = config.temperature;
    input_price_per_mtok = config.input_price_per_mtok;
    output_price_per_mtok = config.output_price_per_mtok;
  })

  unfoldable pub preset :
      ModelPresetConfig F → Providers → ConfigResult (ModelPreset F endpoint.State)
  preset config providers = preset_with config (get config.provider providers)

  unfoldable pub build_engine :
      Unicode → Calendar → AppConfig F → ConfigResult (Engine F endpoint.State)
  unfolding clients preset profile_of
  build_engine unicode calendar config =
      bind (clients config.defaults.provider_timeout_secs config.providers) (λ providers.
        bind (preset config.models.fast providers) (λ fast.
          bind (preset config.models.smart providers) (λ smart.
            bind
              (on_roster (
                roster_new (map (profile_of unicode.to_lowercase) config.profiles)
                  config.defaults.profile))
              (λ roster. ok (record {
                roster = roster;
                modes = map mode_of config.modes;
                models = record { fast = fast; smart = smart };
                config = record {
                  context_window = config.defaults.context_window;
                  utc_offset_hours = config.defaults.utc_offset_hours;
                };
                unicode = unicode;
                calendar = calendar;
              })))))
