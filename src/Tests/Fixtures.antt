-- ===== src/Tests/Fixtures.antt =====
-- Values that the runs share.
use alice_llm_bridge.Base.{ℕ, ◌+◌, ◌&&◌, ◌||◌, leb, ◌==◌, if◌then◌else◌, map, none, [], ◌∷◌}
use alice_llm_bridge.Base.Text.{
  Text, codes, text_eq, is_whitespace, is_ascii_digit, trim, starts_with, strip_prefix, contains,
}
use alice_llm_bridge.Profile.{Profile, adult, FamilyRoster, find_by_alias, Mode}
use alice_llm_bridge.Command.{
  Unicode, split_whitespace, normalize, parse_usize, introduced, phrase, window, model, entered,
  think, parse,
}

-- lowercase of the Latin and Cyrillic capitals
abbrev pub lower_char : ℕ → ℕ
lower_char c =
    if leb b'A' c && leb c b'Z'
    then c + 32
    else if leb 0x410 c && leb c 0x42f
    then c + 32
    else if c == 0x401
    then 0x451
    else c

abbrev pub lower : Text → Text
lower = map lower_char

abbrev pub russian : Unicode
russian = record {
  to_lowercase = lower;
  is_alphanumeric = λ c. leb 0x30 c && leb c 0x39 || leb 0x410 c && leb c 0x451;
}

abbrev pub dima : Profile
dima = record {
  name = codes "дима";
  aliases = codes "папа" ∷ [];
  birthday = none;
  role = adult;
  persona = [];
}

abbrev pub family : FamilyRoster
family = record { profiles = dima ∷ []; default_index = 0 }

abbrev pub tales : Mode
tales = record { name = codes "сказка"; triggers = codes "расскажи сказку" ∷ []; prompt = [] }

-- what a run of the parser computes through
unfoldable pub parsing : Unit {0}
unfolding parse normalize split_whitespace introduced phrase window model entered think parse_usize
    find_by_alias text_eq is_whitespace is_ascii_digit trim starts_with strip_prefix contains
parsing = tt
