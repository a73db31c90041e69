-- ===== src/Tests/Server.antt =====
-- crates/bridge-server: two configurations, and the webhook.
use alice_llm_bridge.Base.{ℕ, pos, true, false, ◌≡◌, refl, none, some, [], ◌∷◌, ◌≤◌}
use alice_llm_bridge.Base.Text.{Text, codes, text_eq, is_ascii_alphanumeric}
use alice_llm_bridge.Base.Dict.{get}
use alice_llm_bridge.Codex
use alice_llm_bridge.CodexRuntime.{CodexRuntimeConfig, runtime_new, is_absolute}
use alice_llm_bridge.Household.{HouseContext, HouseRuntime, SurfaceIdentity}
use alice_llm_bridge.Household
use alice_llm_bridge.HouseEngine.{
  HouseholdEngine, HouseholdInput, engine_new, admit, settle, expire, Work, W, finished,
}
use alice_llm_bridge.MemoryHousehold.{memory_store}
use alice_llm_bridge.Reply.{shaper_new, continuation_suffix}
use alice_llm_bridge.Reply.Shaper.{HasRoom}
use alice_llm_bridge.Llm.{Endpoint, unsent, undecoded}
use alice_llm_bridge.Dialogue.{Engine, DialogueState, initial_state}
use alice_llm_bridge.Alice.{WebhookRequest, simple_utterance}
use alice_llm_bridge.Server.Config.{
  ConfigResult, ok, RuntimeMode, RuntimeConfig, ModelPresetConfig, AppConfig, default_runtime,
  default_permission_profile_prefix, validate, from_toml,
}
use alice_llm_bridge.Server.Assemble.{
  Environment, codex_config, build_household_engine, build_engine,
}
use alice_llm_bridge.Server.Ready.{from_toml-household_ready}
use alice_llm_bridge.Server.Legacy.{build_engine-ready}
use alice_llm_bridge.Server.Spoken.{IsUncut, Uncut, from_toml-IsUncut}
use alice_llm_bridge.Server.Routes.{AppState, legacy, webhook}
use alice_llm_bridge.Server.Admission.{Dispatched, webhook-Dispatched}
use alice_llm_bridge.Tests.Fixtures.{lower, russian}
use alice_llm_bridge.Tests.Talk.{one_day}

abbrev preset_config : ModelPresetConfig ℕ
preset_config = record {
  provider = codes "deepseek";
  model = codes "deepseek-chat";
  max_tokens = 300;
  temperature = 7;
  input_price_per_mtok = 27;
  output_price_per_mtok = 110;
}

abbrev config_of : RuntimeConfig → AppConfig ℕ
config_of runtime = record {
  runtime = runtime;
  server = record { listen = codes "127.0.0.1:8080"; allowed_user_ids = codes "OWNER" ∷ [] };
  defaults = record {
    profile = codes "Дима";
    context_window = 12;
    reply_budget_ms = 2800;
    provider_timeout_secs = 45;
    utc_offset_hours = pos 3;
  };
  providers =
      (
        codes "deepseek",
        record {
          base_url = codes "https://api.deepseek.com/v1";
          api_key_env = codes "DEEPSEEK_KEY";
        },
      )
      ∷ [];
  models = record { fast = preset_config; smart = preset_config };
  profiles =
      record {
        name = codes "Дима";
        aliases = codes "дима" ∷ [];
        birthday = none;
        role = codes "adult";
        persona = [];
      }
      ∷ [];
  modes = [];
}

abbrev household_runtime : RuntimeConfig
household_runtime = record {
  mode = RuntimeMode.household_codex;
  codex_socket = some (codes "/run/codex.sock");
  codex_cwd_root = some (codes "/srv/houses");
  permission_profile_prefix = codes "alice-house-";
  chunk_limit = 850;
  homey_enabled = false;
}

abbrev parse_as : AppConfig ℕ → Text → ConfigResult (AppConfig ℕ)
parse_as config text = ok config

abbrev houses : AppConfig ℕ
houses = config_of household_runtime

abbrev single : AppConfig ℕ
single = config_of default_runtime

houses_read : from_toml (parse_as houses) [] ≡ ok houses
unfolding from_toml validate get text_eq is_absolute continuation_suffix is_ascii_alphanumeric
houses_read = refl

single_read : from_toml (parse_as single) [] ≡ ok single
unfolding from_toml validate get text_eq is_absolute default_runtime
    default_permission_profile_prefix
single_read = refl

from_toml-household_ready_example :
    ((c : CodexRuntimeConfig) × (codex_config household_runtime ≡ some c)
      × (runtime_new c ≡ Codex.ok (record { config = c })))
    × ((engine : HouseholdEngine) × (build_household_engine lower houses ≡ ok (some engine))
        × HasRoom engine.shaper
        × (engine.shaper.limit ≤ 900))
from_toml-household_ready_example =
    from_toml-household_ready (parse_as houses) [] houses lower houses_read refl

abbrev engine : HouseholdEngine
engine = record {
  shaper = record { limit = 850 };
  config = record { reply_budget = 2800; chunk_limit = 850; homey_enabled = false };
  to_lowercase = lower;
}

engine_built : build_household_engine lower houses ≡ ok (some engine)
unfolding build_household_engine engine_new shaper_new continuation_suffix
engine_built = refl

abbrev silent : HouseRuntime
silent = record {
  State = Unit {0};
  start_thread = λ house instructions s. (Household.ok (codes "t1"), s);
  turn = λ house thread_id utterance s. (Household.ok utterance, s);
}

abbrev home : HouseContext
home = record {
  id = pos 1;
  name = codes "Дом";
  codex_thread_id = some (codes "t1");
  homey_connector_id = codes "homey-1";
}

abbrev hello : HouseholdInput
hello = record {
  identity = record { user_id = codes "OWNER"; application_id = codes "station" };
  utterance = codes "Привет";
  new_session = false;
}

abbrev work : Work
work = record {
  house = home;
  application_id = codes "station";
  utterance = codes "Привет";
  instructions = [];
  phase = finished (some (codes "Здравствуй."));
  awaited = true;
}

abbrev world : W memory_store silent engine
world = record {
  store = record { houses = []; members = []; surfaces = []; pending = []; continuations = [] };
  server = tt;
  locks = [];
  works = [];
}

from_toml-IsUncut_example :
    Uncut (λ _. Unit) (admit memory_store silent engine hello world).0
    × Uncut IsUncut (settle memory_store silent engine work (some (codes "Здравствуй.")) world).0
    × IsUncut (expire memory_store silent engine work world).0
from_toml-IsUncut_example =
    from_toml-IsUncut (parse_as houses) [] houses lower engine houses_read engine_built memory_store
      silent hello work (some (codes "Здравствуй.")) world

abbrev offline : Endpoint ℕ
offline = record {
  State = ℕ;
  post = λ url api_key request s. (unsent (codes "offline"), s);
  decode = λ body. undecoded body;
}

abbrev keyed : Environment
keyed = record { var = λ name. some (codes "key"); http_client = λ timeout. none }

build_engine-ready_example :
    (made : Engine ℕ ℕ) × (build_engine offline keyed russian one_day single ≡ ok made)
    × ((s : DialogueState) × (initial_state made.roster ≡ some s)
        × (s.active_profile ≡ codes "Дима"))
build_engine-ready_example =
    build_engine-ready offline keyed russian one_day (parse_as single) [] single single_read refl
      ((codes "key", refl), tt)

abbrev state : AppState
state = record {
  backend = legacy;
  webhook_secret = codes "secret";
  allowed_user_ids = codes "OWNER" ∷ [];
}

abbrev request : WebhookRequest
request = record {
  meta = record { locale = codes "ru-RU"; timezone = codes "UTC"; client_id = [] };
  session = record {
    message_id = 0;
    session_id = codes "s1";
    skill_id = codes "k1";
    new_ = true;
    user = some (record { user_id = codes "GUEST" });
    application = record { application_id = codes "station" };
  };
  request = record {
    command = codes "привет";
    original_utterance = codes "Привет";
    kind = simple_utterance;
  };
  version = codes "1.0";
}

webhook-Dispatched_example :
    Dispatched state (codes "secret") request (webhook state (codes "secret") request)
webhook-Dispatched_example = webhook-Dispatched state (codes "secret") request
