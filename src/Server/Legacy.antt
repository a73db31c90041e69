-- ===== src/Server/Legacy.antt =====
-- The engine of single users that a configuration gives.
use alice_llm_bridge.Base.{
  ℕ, suc, Bool, true, ◌≡◌, refl, ap, ◌∙◌, none, some, List, [], ◌∷◌, any, map, arith, Bool-cases,
  Option-cases, inl, inr, All,
}
use alice_llm_bridge.Base.Text.{Text, text_eq}
use alice_llm_bridge.Base.Dict.{get, text_key}
use alice_llm_bridge.Json.{is_some}
use alice_llm_bridge.Profile
use alice_llm_bridge.Profile.{Profile, FamilyRoster, position, roster_new, default_profile}
use alice_llm_bridge.Profile.Roster.{roster_new-default_profile}
use alice_llm_bridge.Command.{Unicode}
use alice_llm_bridge.Llm.{Endpoint, chat_url, OpenAiCompatClient}
use alice_llm_bridge.Dialogue.{
  Engine, ModelPreset, Calendar, DialogueState, initial_state, state_of,
}
use alice_llm_bridge.Server.Config.{
  ConfigResult, ok, err, ProviderConfig, ModelPresetConfig, ProfileConfig, AppConfig, from_toml,
  validate, check_preset, check_default, check_roles, and_then,
}
use alice_llm_bridge.Server.Assemble.{
  Environment, Providers, clients, preset, preset_with, mode_of, profile_of, build_engine,
}
use alice_llm_bridge.Server.Ready.{from_toml-valid}

position-any :
    {A B : Type 0} (f : A → B) (p : A → Bool) (q : B → Bool)
    → ((x : A) → q (f x) ≡ p x)
    → (xs : List A) → any p xs ≡ true
    → (n : ℕ) × (position q (map f xs) ≡ some n)
position-any f p q same [] e = absurd (ground arith)
position-any f p q same (x ∷ xs) e = elim (Bool-cases (p x)) [
  | inl first ↦ (0, rw (same x, first) refl)
  | inr later ↦
      let (n, at) = position-any f p q same xs (ground arith) in
      (suc n, rw (same x, later, at) refl)
]

roster-made :
    (to_lowercase : Text → Text) (profiles : List ProfileConfig) (name : Text)
    → any (λ p. text_eq p.name name) profiles ≡ true
    → (roster : FamilyRoster) × (roster_new (map (profile_of to_lowercase) profiles) name
        ≡ Profile.ok roster)
unfolding roster_new profile_of
roster-made to_lowercase profiles name e =
    let (n, at) =
      position-any (profile_of to_lowercase) (λ p. text_eq p.name name) (λ p. text_eq p.name name)
        (λ p. refl) profiles e in
    (record { profiles = map (profile_of to_lowercase) profiles; default_index = n }, rw at refl)

-- The environment has the key of a provider.
abbrev pub HasKey : Environment → Text × ProviderConfig → Type 0
HasKey environment (name, provider) =
    (key : Text) × (environment.var provider.api_key_env ≡ some key)

module _ {F : Type 0} (endpoint : Endpoint F) (environment : Environment) (timeout : ℕ) where
  clients-made :
      environment.http_client timeout ≡ none
      → (providers : List (Text × ProviderConfig)) → All (HasKey environment) providers
      → (made : Providers endpoint environment) × (clients endpoint environment timeout providers
          ≡ ok made)
        × ((k : Text) → is_some (get k made) ≡ is_some (get k providers))
  unfolding clients get
  clients-made http [] keys = ([], refl, λ k. refl)
  clients-made http ((name, provider) ∷ providers) ((key, e), keys) =
      let (made, m, same) = clients-made http providers keys in
      let client : OpenAiCompatClient endpoint = record {
        url = chat_url provider.base_url;
        api_key = key;
      } in
      (
        (name, client) ∷ made,
        rw (e, http, m) refl,
        λ k. elim (Bool-cases (text_eq name k)) [
          | inl here ↦ rw here refl
          | inr there ↦ rw there (same k)
        ],
      )

  preset-made :
      (config : ModelPresetConfig F) (providers : List (Text × ProviderConfig))
      (made : Providers endpoint environment)
      → is_some (get config.provider made) ≡ is_some (get config.provider providers)
      → check_preset providers config ≡ ok tt
      → (p : ModelPreset F endpoint.State) × (preset endpoint environment config made ≡ ok p)
  unfolding preset
  preset-made config providers made same e = elim (Option-cases (get config.provider made)) [
    | inl missing ↦ absurd (ground arith)
    | inr (client, found) ↦ (_, ap (preset_with endpoint environment config) found)
  ]

and_then-ok : (a b : ConfigResult (Unit {0})) → and_then a b ≡ ok tt → (a ≡ ok tt) × (b ≡ ok tt)
and_then-ok (ok u) b e = (refl, e)
and_then-ok (err why) b e = absurd (ground arith)

-- The parts of a valid configuration that the engine is made from.
record IsUsable {F : Type 0} (config : AppConfig F) : Type 0 where
  fast : check_preset config.providers config.models.fast ≡ ok tt
  smart : check_preset config.providers config.models.smart ≡ ok tt
  default : any (λ p. text_eq p.name config.defaults.profile) config.profiles ≡ true

default_known :
    {F : Type 0} (config : AppConfig F)
    → check_default config ≡ ok tt
    → any (λ p. text_eq p.name config.defaults.profile) config.profiles ≡ true
default_known config e = ground arith

validate-IsUsable : {F : Type 0} (config : AppConfig F) → validate config ≡ ok tt → IsUsable config
unfolding validate
validate-IsUsable config e =
    let (_, rest) = and_then-ok _ _ e in
    let (fast, later) = and_then-ok _ _ rest in
    let (smart, last) = and_then-ok _ _ later in
    let (default, _) = and_then-ok (check_default config) (check_roles config.profiles) last in
    record { fast = fast; smart = smart; default = default_known config default }

state-made :
    (roster : FamilyRoster) (p : Profile)
    → default_profile roster ≡ some p
    → (s : DialogueState) × (initial_state roster ≡ some s) × (s.active_profile ≡ p.name)
unfolding initial_state
state-made roster p e = (_, ap state_of e, refl)

module _ {F : Type 0} (endpoint : Endpoint F) (environment : Environment) (unicode : Unicode)
    (calendar : Calendar) (parse_toml : Text → ConfigResult (AppConfig F)) (toml : Text)
    (config : AppConfig F) where
  -- A configuration that was read, with the keys of its providers in the environment and an HTTP
  -- client that can be built, gives an engine, and its first state: of the configured default
  -- member, whom the roster has.
  pub build_engine-ready :
      from_toml parse_toml toml ≡ ok config
      → environment.http_client config.defaults.provider_timeout_secs ≡ none
      → All (HasKey environment) config.providers
      → (engine : Engine F endpoint.State) × (build_engine endpoint environment unicode calendar
            config
          ≡ ok engine)
        × ((s : DialogueState) × (initial_state engine.roster ≡ some s)
            × (s.active_profile ≡ config.defaults.profile))
  unfolding build_engine
  build_engine-ready read http keys =
      let usable = validate-IsUsable config (from_toml-valid parse_toml toml config read) in
      let (made, m, same) =
        clients-made endpoint environment config.defaults.provider_timeout_secs http
          config.providers keys in
      let (fast, f) =
        preset-made endpoint environment config.defaults.provider_timeout_secs config.models.fast
          config.providers made (same _) usable.fast in
      let (smart, g) =
        preset-made endpoint environment config.defaults.provider_timeout_secs config.models.smart
          config.providers made (same _) usable.smart in
      let (roster, r) =
        roster-made unicode.to_lowercase config.profiles config.defaults.profile usable.default in
      let (p, at, _, named) = roster_new-default_profile _ _ roster r in
      let (s, started, active) = state-made roster p at in
      let engine : Engine F endpoint.State = record {
        roster = roster;
        modes = map mode_of config.modes;
        models = record { fast = fast; smart = smart };
        config = record {
          context_window = config.defaults.context_window;
          utc_offset_hours = config.defaults.utc_offset_hours;
        };
        unicode = unicode;
        calendar = calendar;
      } in
      (engine, rw (m, f, g, r) refl, (s, started, active ∙ named))
