-- ===== src/Server/Spoken.antt =====
-- What a household engine of a valid configuration says, in the response.
use alice_llm_bridge.Base.{
  Bool, true, false, ◌≤◌, ◌<◌, leb, ◌≡◌, refl, ◌⊎◌, inl, inr, Bool-cases, Option, some, ◌++◌,
  length, arith,
}
use alice_llm_bridge.Base.Text.{Text, codes}
use alice_llm_bridge.Alice
use alice_llm_bridge.Alice.{WebhookResponse, max_text_len, clip_to_limit, say_and_close}
use alice_llm_bridge.Alice.Clip.{length-clip_to_limit}
use alice_llm_bridge.Reply.Shaper.{HasRoom}
use alice_llm_bridge.Household.{HouseholdStore, HouseRuntime}
use alice_llm_bridge.HouseEngine.{
  Flow, reply, next, HouseholdReply, say, refuse, pairing, busy, internal_error, HouseholdEngine,
  HouseholdInput, admit, settle, expire, Work, W,
}
use alice_llm_bridge.Dialogue.Phrases.{phrase_internal_error}
use alice_llm_bridge.Server.Config.{
  ConfigResult, ok, RuntimeMode, legacy, household_codex, AppConfig, from_toml,
}
use alice_llm_bridge.Server.Assemble.{build_household_engine, engine_for}
use alice_llm_bridge.Server.Routes.{household_response, household_refusal, household_busy}
use alice_llm_bridge.Server.Uncut.{IsShort, Short, admit-Short, settle-Short, expire-IsShort}
use alice_llm_bridge.Server.Ready.{from_toml-household_ready}

-- What a reply says, word for word, and whether the session ends with it.
abbrev pub told : HouseholdReply → Text
told (say text) = text
told refuse = codes "Извините, эта Алиса не привязана к домашнему помощнику."
told (pairing code) = codes "Код привязки: " ++ (code ++ codes ". Сообщите его владельцу.")
told busy = codes "Я уже отвечаю в этом доме. Повторите через несколько секунд."
told internal_error = codes "Ой, у меня что-то сломалось. Попробуй ещё раз."

abbrev pub closes : HouseholdReply → Bool
closes refuse = true
closes _ = false

-- the response carries it whole
abbrev pub Whole : HouseholdReply → Type 0
Whole r = household_response r ≡ record {
  response = record { text = told r; tts = some (told r); end_session = closes r };
  version = codes "1.0";
}

-- All replies are carried whole, but for a sentence with a code of the store that is too long.
abbrev pub IsUncut : HouseholdReply → Type 0
IsUncut (say text) = Whole (say text)
IsUncut refuse = Whole refuse
IsUncut (pairing code) = Whole (pairing code) ⊎ (max_text_len < length (told (pairing code)))
IsUncut busy = Whole busy
IsUncut internal_error = Whole internal_error

abbrev pub Uncut : {A : Type 0} → (A → Type 0) → Flow A → Type 0
Uncut P (reply r) = IsUncut r
Uncut P (next a) = P a

fixed-fit :
    (length (told refuse) ≤ max_text_len)
    × (length (told busy) ≤ max_text_len)
    × (length (told internal_error) ≤ max_text_len)
fixed-fit = (omega arith, omega arith, omega arith)

short-IsUncut : (r : HouseholdReply) → IsShort r → IsUncut r
unfolding household_response Alice.say say_and_close household_refusal household_busy
    phrase_internal_error
short-IsUncut (say text) short = rw ((length-clip_to_limit text text short).1) refl
short-IsUncut refuse short =
    rw ((length-clip_to_limit (told refuse) (told refuse) fixed-fit.0).1) refl
short-IsUncut (pairing code) short =
    elim (Bool-cases (leb (length (told (pairing code))) max_text_len)) [
      | inl fits ↦ inl (
          rw
            ((length-clip_to_limit (told (pairing code)) (told (pairing code))
              (ground (arith, fits))).1)
            refl)
      | inr long ↦ inr (ground (arith, long))
    ]
short-IsUncut busy short = rw ((length-clip_to_limit (told busy) (told busy) fixed-fit.1).1) refl
short-IsUncut internal_error short =
    rw ((length-clip_to_limit (told internal_error) (told internal_error) fixed-fit.2).1) refl

flow-Uncut :
    {A : Type 0} (P Q : A → Type 0) (f : Flow A) → ((a : A) → P a → Q a) → Short P f → Uncut Q f
flow-Uncut P Q (reply r) k short = short-IsUncut r short
flow-Uncut P Q (next a) k p = k a p

mode-household :
    {F : Type 0} (lower : Text → Text) (config : AppConfig F) (m : RuntimeMode)
    (made : Option HouseholdEngine)
    → engine_for lower config m ≡ ok made
    → m ≡ household_codex
mode-household lower config legacy made e = absurd (ground arith)
mode-household lower config household_codex made e = refl

module _ {F : Type 0} (parse_toml : Text → ConfigResult (AppConfig F)) (toml : Text)
    (config : AppConfig F) (lower : Text → Text) (engine : HouseholdEngine) where
  limited :
      from_toml parse_toml toml ≡ ok config
      → build_household_engine lower config ≡ ok (some engine)
      → HasRoom engine.shaper × (engine.shaper.limit ≤ max_text_len)
  unfolding build_household_engine
  limited read built =
      let household = mode-household lower config config.runtime.mode (some engine) built in
      let (_, (made, built', room, limit)) =
        from_toml-household_ready parse_toml toml config lower read household in
      let same : made ≡ engine = ground arith in
      (rw (← same) room, rw (← same) (omega (arith, limit)))

  -- With the engine of a configuration that was read, over any store and runtime, the response to
  -- what a request is told carries it whole, and ends the session only with the refusal: before the
  -- request waits, when its work ends in time, and when its time runs out. Only the sentence with a
  -- pairing code may be cut, where the store gives a code that makes it longer than the limit.
  pub from_toml-IsUncut :
      from_toml parse_toml toml ≡ ok config
      → build_household_engine lower config ≡ ok (some engine)
      → (store : HouseholdStore) (runtime : HouseRuntime) (input : HouseholdInput) (work : Work)
        (outcome : Option Text) (w : W store runtime engine)
      → Uncut (λ _. Unit) (admit store runtime engine input w).0
        × Uncut IsUncut (settle store runtime engine work outcome w).0
        × IsUncut (expire store runtime engine work w).0
  from_toml-IsUncut read built store runtime input work outcome w =
      let (room, fits) = limited read built in
      (
        flow-Uncut (λ _. Unit) (λ _. Unit) _ (λ _ _. tt)
            (admit-Short store runtime engine room fits input w),
        flow-Uncut IsShort IsUncut _ short-IsUncut
            (settle-Short store runtime engine room fits work outcome w),
        short-IsUncut _ (expire-IsShort store runtime engine room fits work w),
      )
