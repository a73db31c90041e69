-- ===== src/Dialogue/Prompt.antt =====
-- crates/bridge-core/src/prompt.rs: the system prompt. How a date is printed, and the years between
-- two dates, are the calendar's.
use alice_llm_bridge.Base.{ℕ, Option, none, some, List, [], ◌∷◌, ◌++◌, map}
use alice_llm_bridge.Base.Text.{Text, codes}
use alice_llm_bridge.Base.Decimal.{decimal}
use alice_llm_bridge.Profile.{
  NaiveDate, Profile, ProfileRole, adult, child, age_on, FamilyRoster, Mode,
}

pub record PromptContext : Type 0 where
  pub today : NaiveDate
  pub profile : Profile
  pub roster : FamilyRoster
  pub mode : Option Mode
  pub summary : Option Text

-- `writeln!`
abbrev pub line : Text → Text
line s = s ++ b'\n' ∷ []

abbrev pub comma_separated : List Text → Text
comma_separated [] = []
comma_separated (s ∷ []) = s
comma_separated (s ∷ t ∷ texts) = s ++ (codes ", " ++ comma_separated (t ∷ texts))

abbrev pub child_line : ProfileRole → Text
child_line adult = []
child_line child =
    line (
      codes "Собеседник — ребенок: отвечай бережно, простыми словами, без взрослых и пугающих тем.")

abbrev pub mode_line : Option Mode → Text
mode_line none = []
mode_line (some mode) = line (codes "Текущий режим: " ++ mode.prompt)

abbrev pub summary_line : Option Text → Text
summary_line none = []
summary_line (some summary) = line (codes "Краткая память о прошлых разговорах: " ++ summary)

module _ (print_date : NaiveDate → Text) (years_since : NaiveDate → NaiveDate → Option ℕ) where
  abbrev pub speaker_line : Profile → Option ℕ → Text
  speaker_line speaker (some age) = line (
      codes "Сейчас с тобой говорит "
      ++ (speaker.name ++ (codes " (" ++ (decimal age ++ (codes " лет). " ++ speaker.persona)))))
  speaker_line speaker none =
      line (codes "Сейчас с тобой говорит " ++ (speaker.name ++ (codes ". " ++ speaker.persona)))

  abbrev pub named : Text → Option NaiveDate → Text
  named name none = name
  named name (some birthday) =
      name ++ (codes " (день рождения " ++ (print_date birthday ++ codes ")"))

  abbrev pub member : Profile → Text
  member p = named p.name p.birthday

  unfoldable pub build_system_prompt : PromptContext → Text
  unfolding decimal
  build_system_prompt ctx =
      line (
        codes
          "Ты — голосовой помощник семьи, отвечаешь через умную колонку. Отвечай кратко, одним-тремя предложениями, без списков, без markdown и без эмодзи: текст будет озвучен вслух.")
      ++ (line (codes "Сегодня " ++ (print_date ctx.today ++ codes "."))
          ++ (speaker_line ctx.profile (age_on years_since ctx.profile ctx.today)
              ++ (child_line ctx.profile.role
                  ++ (line (
                        codes "Семья: "
                        ++ (comma_separated (map member ctx.roster.profiles) ++ codes "."))
                      ++ (mode_line ctx.mode ++ summary_line ctx.summary)))))
