-- ===== src/Conversation.antt =====
-- crates/bridge-core/src/store.rs, and its store in memory, `MemoryStore` of
-- crates/bridge-core/src/testing.rs. No call fails there, so the calls return plain results; the
-- clock is an argument.
pub mod Ordered
pub mod History
pub mod Above
use alice_llm_bridge.Base.{
  ◌^◌, ℕ, suc, ◌+◌, ◌-◌, leb, ltb, ℤ, pos, negsuc, Bool, true, false, ◌&&◌, not, if◌then◌else◌,
  Option, none, some, List, [], ◌∷◌, ◌++◌, map, length, take,
}
use alice_llm_bridge.Base.Text.{Text, text_eq}
use alice_llm_bridge.Base.Dict.{get, insert, remove, text_key}

pub data MessageRole : Type 0 where
  user assistant : MessageRole

pub record StoredMessage : Type 0 where
  pub role : MessageRole
  pub content : Text

pub record ExchangeRecord : Type 0 where
  pub profile : Text
  pub user_text : Text
  pub assistant_text : Text
  pub model : Text
  pub prompt_tokens : ℕ
  pub completion_tokens : ℕ
  pub cost_micros : ℤ

pub record Summary : Type 0 where
  pub content : Text
  pub covers_until_message_id : ℤ

pub record UsageStats : Type 0 where
  pub requests : ℕ
  pub cost_micros : ℤ

pub record Row : Type 0 where
  pub id : ℕ
  pub profile : Text
  pub role : MessageRole
  pub content : Text
  pub cost_micros : ℤ
  pub created_at : ℕ

pub record Inner : Type 0 where
  pub rows : List Row
  pub summaries : List (Text × Summary)
  pub next_id : ℕ

-- `MemoryStore::new`
abbrev pub no_rows : Inner
no_rows = record { rows = []; summaries = []; next_id = 0 }

-- `inner.rows.push(Row { … })`, with the next id
unfoldable pub push_row : ℕ → Text → MessageRole → Text → ℤ → Inner → Inner
push_row now profile role content cost inner = record inner {
  rows =
      inner.rows
      ++ record {
        id = suc inner.next_id;
        profile = profile;
        role = role;
        content = content;
        cost_micros = cost;
        created_at = now;
      }
        ∷ [];
  next_id = suc inner.next_id;
}

unfoldable pub record_exchange : ℕ → ExchangeRecord → Inner → Inner
unfolding push_row
record_exchange now e inner =
    push_row now e.profile assistant e.assistant_text e.cost_micros
      (push_row now e.profile user e.user_text (pos 0) inner)

abbrev pub message : Row → StoredMessage
message r = record { role = r.role; content = r.content }

abbrev pub filter {ℓ} : {A : Type ℓ} → (A → Bool) → List A → List A
filter p [] = []
filter p (x ∷ xs) = let rest = filter p xs in if p x then x ∷ rest else rest

abbrev pub reverse {ℓ} : {A : Type ℓ} → List A → List A
reverse [] = []
reverse (x ∷ xs) = reverse xs ++ x ∷ []

-- the rows of a profile
abbrev pub rows_of : Text → Inner → List Row
rows_of profile inner = filter (λ r. text_eq r.profile profile) inner.rows

-- `.filter(…).rev().take(limit).map(…)`, reversed
unfoldable pub recent_messages : Text → ℕ → Inner → List StoredMessage
recent_messages profile limit inner =
    reverse (map message (take limit (reverse (rows_of profile inner))))

unfoldable pub summary : Text → Inner → Option Summary
summary profile inner = get profile inner.summaries

unfoldable pub upsert_summary : Text → Summary → Inner → Inner
upsert_summary profile s inner = record inner { summaries = insert profile s inner.summaries }

-- `.map(|s| s.covers_until_message_id).unwrap_or(0)`
abbrev pub covers_until : Option Summary → ℤ
covers_until none = pos 0
covers_until (some s) = s.covers_until_message_id

abbrev pub is_newer : ℤ → ℕ → Bool
is_newer (pos n) id = ltb n id
is_newer (negsuc n) id = true

-- the rows of a profile that its summary does not cover
abbrev pub newer_rows : Text → Inner → List Row
newer_rows profile inner =
    filter
      (λ r. text_eq r.profile profile && is_newer (covers_until (get profile inner.summaries)) r.id)
      inner.rows

unfoldable pub unsummarized : Text → ℕ → Inner → List (ℕ × StoredMessage)
unsummarized profile keep_last inner =
    let rows = map (λ r. (r.id, message r)) (newer_rows profile inner) in
    take (length rows - keep_last) rows

unfoldable pub clear_profile : Text → Inner → Inner
clear_profile profile inner = record inner {
  rows = filter (λ r. not (text_eq r.profile profile)) inner.rows;
  summaries = remove profile inner.summaries;
}

abbrev pub add : ℤ → ℤ → ℤ
add (pos a) (pos b) = pos (a + b)
add (pos a) (negsuc b) = if ltb b a then pos (a - suc b) else negsuc (b - a)
add (negsuc a) (pos b) = if ltb a b then pos (b - suc a) else negsuc (a - b)
add (negsuc a) (negsuc b) = negsuc (suc (a + b))

abbrev pub is_answer : MessageRole → ℕ
is_answer user = 0
is_answer assistant = 1

-- the answers, and what all rows cost
abbrev pub count : List Row → UsageStats → UsageStats
count [] stats = stats
count (r ∷ rows) stats = count rows (record {
  requests = stats.requests + is_answer r.role;
  cost_micros = add stats.cost_micros r.cost_micros;
})

abbrev pub fits_i64 : ℤ → Bool
fits_i64 (pos n) = ltb n (2 ^ 63)
fits_i64 (negsuc n) = ltb n (2 ^ 63)

-- the same with the sums of `i64`, whose overflow is a panic: `none`
abbrev pub count_checked : List Row → UsageStats → Option UsageStats
count_checked [] stats = some stats
count_checked (r ∷ rows) stats =
    let rest = count_checked rows (record {
      requests = stats.requests + is_answer r.role;
      cost_micros = add stats.cost_micros r.cost_micros;
    }) in
    if fits_i64 (add stats.cost_micros r.cost_micros) then rest else none

unfoldable pub usage_since : ℕ → Inner → Option UsageStats
usage_since since inner =
    count_checked (filter (λ r. leb since r.created_at) inner.rows)
      (record { requests = 0; cost_micros = pos 0 })
