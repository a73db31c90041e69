-- ===== src/Command.antt =====
-- crates/bridge-core/src/command.rs: control phrases, which never reach the model. Unicode's lower
-- case and its alphanumeric characters are parameters.
pub mod Normal
pub mod Ask
pub mod Known
use alice_llm_bridge.Base.{
  ℕ, zero, suc, ◌+◌, ◌*◌, ◌-◌, ◌^◌, ◌==◌, ltb, Bool, true, false, ◌&&◌, ◌||◌, not, if◌then◌else◌,
  Option, none, some, List, [], ◌∷◌, ◌++◌, map, is_empty, any, all,
}
use alice_llm_bridge.Base.Text.{
  Text, codes, text_eq, is_whitespace, is_ascii_digit, strip_prefix, starts_with, contains, trim,
  one_of,
}
use alice_llm_bridge.Profile.{Profile, FamilyRoster, Mode, find_by_alias}

pub record Unicode : Type 0 where
  pub to_lowercase : Text → Text
  pub is_alphanumeric : ℕ → Bool

pub data Command : Type 0 where
  introduce : Text → Command
  forget : Command
  set_window : ℕ → Command
  use_smart_model use_fast_model usage_stats who_am_i : Command
  enter_mode : Text → Command
  exit_mode help : Command

pub data Parsed : Type 0 where
  command : Command → Parsed
  ask : (text : Text) → (think_hard : Bool) → Parsed

-- `split_whitespace`: the word that the text begins with, which may be empty, and the words behind
-- it
abbrev pub with_word : Text → List Text → List Text
with_word [] words = words
with_word (c ∷ word) words = (c ∷ word) ∷ words

abbrev pub words_of : Text → Text × List Text
words_of [] = ([], [])
words_of (c ∷ s) =
    let rest = words_of s in
    if is_whitespace c then ([], with_word rest.0 rest.1) else (c ∷ rest.0, rest.1)

unfoldable pub split_whitespace : Text → List Text
split_whitespace s = with_word (words_of s).0 (words_of s).1

-- `join(" ")`
abbrev pub join : List Text → Text
join [] = []
join (w ∷ []) = w
join (w ∷ v ∷ words) = w ++ b' ' ∷ join (v ∷ words)

-- `replace('ё', "е")`
abbrev pub fold_yo : ℕ → ℕ
fold_yo c = if c == 0x451 then 0x435 else c

module _ (u : Unicode) where
  -- `if c.is_alphanumeric() { c } else { ' ' }`
  abbrev pub or_space : ℕ → ℕ
  or_space c = if u.is_alphanumeric c then c else b' '

  unfoldable pub normalize : Text → Text
  unfolding split_whitespace
  normalize text = join (split_whitespace (map or_space (map fold_yo (u.to_lowercase text))))

abbrev digit_step : Option ℕ → ℕ → Option ℕ
digit_step none d = none
digit_step (some n) d = if ltb (n * 10 + d) (2 ^ 64) then some (n * 10 + d) else none

abbrev digits : Text → Option ℕ → Option ℕ
digits [] n = n
digits (c ∷ s) n = if is_ascii_digit c then digits s (digit_step n (c - b'0')) else none

abbrev unsigned : Text → Option ℕ
unsigned [] = none
unsigned (c ∷ s) = digits (c ∷ s) (some 0)

-- `parse::<usize>().ok()`, on 64 bits
unfoldable pub parse_usize : Text → Option ℕ
parse_usize [] = none
parse_usize (c ∷ s) = if c == b'+' then unsigned s else unsigned (c ∷ s)

-- `find_map`
abbrev pub find_map {ℓ κ} : {A : Type ℓ} {B : Type κ} → (A → Option B) → List A → Option B
find_map f [] = none
find_map f (x ∷ xs) = elim (f x) [ none ↦ find_map f xs | some y ↦ some y ]

abbrev pub introductions : List Text
introductions = codes "это " ∷ codes "я " ∷ codes "меня зовут " ∷ codes "говорит " ∷ []

abbrev pub thinking_phrases : List Text
thinking_phrases =
    codes "подумай как следует" ∷ codes "подумай хорошенько" ∷ codes "подумай крепко" ∷ []

module _ (u : Unicode) where
  abbrev pub introduced_by : FamilyRoster → Option Text → Option Parsed
  introduced_by roster none = none
  introduced_by roster (some rest) = elim (find_by_alias u.to_lowercase roster rest) [
    | none ↦ none
    | some profile ↦ some (command (introduce profile.name))
  ]

  -- `for prefix in ["это ", "я ", …]`
  unfoldable pub introduced : FamilyRoster → Text → Option Parsed
  introduced roster norm =
      find_map (λ prefix. introduced_by roster (strip_prefix prefix norm)) introductions

  -- `match norm.as_str()`
  unfoldable pub phrase : Text → Option Parsed
  phrase norm =
      if one_of
        (codes "забудь" ∷ codes "забудь все" ∷ codes "сбрось контекст" ∷ codes "начни сначала" ∷ [])
        norm
      then some (command forget)
      else if one_of
          (codes "сколько потратили"
            ∷ codes "сколько мы потратили"
            ∷ codes "статистика"
            ∷ codes "расходы"
            ∷ [])
          norm
      then some (command usage_stats)
      else if one_of (codes "кто я" ∷ codes "с кем ты говоришь" ∷ []) norm
      then some (command who_am_i)
      else if one_of (codes "хватит" ∷ codes "выйди из режима" ∷ codes "обычный режим" ∷ []) norm
      then some (command exit_mode)
      else if one_of (codes "помощь" ∷ codes "справка" ∷ codes "что ты умеешь" ∷ []) norm
      then some (command help)
      else none

  abbrev pub window_of : Option ℕ → Option Parsed
  window_of none = none
  window_of (some n) = some (command (set_window n))

  -- `wants_window && let Some(n) = …`
  unfoldable pub window : Text → Option Parsed
  window norm =
      if starts_with (codes "помни последние") norm
        || starts_with (codes "запоминай последние") norm
      then window_of (find_map parse_usize (split_whitespace norm))
      else none

  unfoldable pub model : Text → Option Parsed
  model norm =
      if contains (codes "умную модель") norm || contains (codes "умная модель") norm
      then some (command use_smart_model)
      else if contains (codes "быструю модель") norm
          || contains (codes "быстрая модель") norm
          || contains (codes "модель на быструю") norm
      then some (command use_fast_model)
      else none

  abbrev pub triggers : Text → Text → Bool
  triggers norm trigger =
      text_eq norm (normalize u trigger) || starts_with (normalize u trigger ++ b' ' ∷ []) norm

  -- `for mode in modes`
  unfoldable pub entered : List Mode → Text → Option Parsed
  entered modes norm =
      find_map
        (λ mode.
          if any (triggers norm) mode.triggers then some (command (enter_mode mode.name)) else none)
        modes

  abbrev pub thought : Text → Option Text → Option Parsed
  thought utterance none = none
  thought utterance (some rest) =
      some (ask (if is_empty (trim rest) then trim utterance else trim rest) true)

  -- `for prefix in ["подумай как следует", …]`
  unfoldable pub think : Text → Text → Option Parsed
  think utterance norm =
      find_map (λ prefix. thought utterance (strip_prefix prefix norm)) thinking_phrases

  -- the returns of `parse`, in their order
  abbrev pub answers : Text → FamilyRoster → List Mode → Text → List (Option Parsed)
  answers utterance roster modes norm =
      introduced roster norm
      ∷ phrase norm
      ∷ window norm
      ∷ model norm
      ∷ entered modes norm
      ∷ think utterance norm
      ∷ []

  abbrev pub first_or : Parsed → List (Option Parsed) → Parsed
  first_or default [] = default
  first_or default (none ∷ rest) = first_or default rest
  first_or default (some parsed ∷ rest) = parsed

  unfoldable pub parse : Text → FamilyRoster → List Mode → Parsed
  unfolding normalize introduced phrase window model entered think
  parse utterance roster modes =
      let norm = normalize u utterance in
      if is_empty norm
      then command help
      else first_or (ask (trim utterance) false) (answers utterance roster modes norm)
