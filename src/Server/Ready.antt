-- ===== src/Server/Ready.antt =====
-- What a configuration that was read promises to the engines made from it.
use alice_llm_bridge.Base.{
  ◌≤◌, ◌≡◌, refl, Option, none, some, length, arith, inl, inr, ◌⊎◌, ◌<◌, subst,
}
use alice_llm_bridge.Base.Text.{Text}
use alice_llm_bridge.Base.Dict.{text_key}
use alice_llm_bridge.Reply.{shaper_new, continuation_suffix}
use alice_llm_bridge.Reply.Shaper.{HasRoom}
use alice_llm_bridge.HouseEngine.{HouseholdEngine, engine_new}
use alice_llm_bridge.Codex
use alice_llm_bridge.CodexRuntime.{CodexRuntimeConfig, runtime_new, is_profile_prefix, PathBuf}
use alice_llm_bridge.Server.Config.{
  ConfigError, ConfigResult, ok, err, household_codex, RuntimeConfig, AppConfig, from_toml,
  validate, check_paths, check_runtime,
}
use alice_llm_bridge.Server.Assemble.{
  household_config, codex_paths, codex_config, build_household_engine,
}

pub ConfigResult-cases :
    {A : Type 0} (r : ConfigResult A) → ((a : A) × (r ≡ ok a)) ⊎ ((e : ConfigError) × (r ≡ err e))
ConfigResult-cases (ok a) = inl (a, refl)
ConfigResult-cases (err e) = inr (e, refl)

module _ {F : Type 0} (parse_toml : Text → ConfigResult (AppConfig F)) (text : Text)
    (config : AppConfig F) where
  -- A configuration that was read is valid.
  pub from_toml-valid : from_toml parse_toml text ≡ ok config → validate config ≡ ok tt
  unfolding from_toml
  from_toml-valid e = elim (ConfigResult-cases (parse_toml text)) [
    | inl (read, p) ↦ elim (ConfigResult-cases (validate read)) [
      | inl (u, v) ↦ let same : read ≡ config = ground arith in rw (← same) v
      | inr (why, v) ↦ absurd (ground arith)
    ]
    | inr (why, p) ↦ absurd (ground arith)
  ]

  pub checked : validate config ≡ ok tt → check_runtime config.runtime config.runtime.mode ≡ ok tt
  unfolding validate
  checked e = elim (ConfigResult-cases (check_runtime config.runtime config.runtime.mode)) [
    | inl (u, c) ↦ c
    | inr (why, c) ↦ absurd (ground arith)
  ]

paths-ready :
    (runtime : RuntimeConfig) (socket cwd_root : Option PathBuf)
    → check_paths runtime socket cwd_root ≡ ok tt
    → ((c : CodexRuntimeConfig) × (codex_paths runtime socket cwd_root ≡ some c)
        × (runtime_new c ≡ Codex.ok (record { config = c })))
      × (length continuation_suffix < runtime.chunk_limit)
      × (runtime.chunk_limit ≤ 900)
unfolding runtime_new is_profile_prefix
paths-ready runtime none cwd_root e = absurd (ground arith)
paths-ready runtime (some socket) none e = absurd (ground arith)
paths-ready runtime (some socket) (some cwd_root) e =
    ((_, refl, ground arith), ground arith, ground arith)

module _ {F : Type 0} (parse_toml : Text → ConfigResult (AppConfig F)) (text : Text)
    (config : AppConfig F) (to_lowercase : Text → Text) where
  -- A configuration of a household that was read gives a runtime and an engine: neither an `expect`
  -- of `main` nor the assertion of `ReplyShaper::new` panics, the runtime accepts its paths and its
  -- prefix, and the limit of a reply leaves room for the question and is at most 900.
  pub from_toml-household_ready :
      from_toml parse_toml text ≡ ok config
      → config.runtime.mode ≡ household_codex
      → ((c : CodexRuntimeConfig) × (codex_config config.runtime ≡ some c)
          × (runtime_new c ≡ Codex.ok (record { config = c })))
        × ((engine : HouseholdEngine) × (build_household_engine to_lowercase config
              ≡ ok (some engine))
            × HasRoom engine.shaper
            × (engine.shaper.limit ≤ 900))
  unfolding codex_config build_household_engine engine_new shaper_new
  from_toml-household_ready read household =
      let valid = from_toml-valid parse_toml text config read in
      let passed = checked parse_toml text config valid in
      let engine : HouseholdEngine = record {
        shaper = record { limit = config.runtime.chunk_limit };
        config = household_config config;
        to_lowercase = to_lowercase;
      } in
      let (c, room, limit) =
        paths-ready config.runtime _ _
          (subst (λ m. check_runtime config.runtime m ≡ ok tt) household passed) in
      (c, (engine, rw household (ground arith), room, limit))
