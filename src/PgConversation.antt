-- ===== src/PgConversation.antt =====
-- crates/bridge-server/src/store_pg.rs, and its tables in migrations/0001_init.sql: the statements as
-- functions on tables. `updated_at`, which nothing reads, is left out; the clock is an argument.
pub mod View
pub mod Keeps
use alice_llm_bridge.Base.{
  ℕ, suc, ◌+◌, ◌-◌, ◌%◌, ◌^◌, leb, ltb, ℤ, pos, negsuc, Bool, true, false, not, ◌&&◌, ◌||◌,
  if◌then◌else◌, Option, none, some, List, [], ◌∷◌, ◌++◌, map, length, take,
}
use alice_llm_bridge.Base.Text.{Text, codes, text_eq}
use alice_llm_bridge.Base.Dict.{get, insert, remove, text_key}
use alice_llm_bridge.Conversation.{
  fits_i64, MessageRole, user, assistant, StoredMessage, ExchangeRecord, Summary, UsageStats,
  filter, reverse, add, is_newer, covers_until,
}
use alice_llm_bridge.Dialogue.{StoreResult, ok, err, ConversationStore}

pub record MessageRow : Type 0 where
  pub id : ℕ
  pub profile : Text
  pub role : Text
  pub content : Text
  pub model : Option Text
  pub prompt_tokens : Option ℤ
  pub completion_tokens : Option ℤ
  pub cost_micros : ℤ
  pub created_at : ℕ

-- The statements, to say which of them fails.
pub data Query : Type 0 where
  begin insert_question insert_answer delete_messages delete_summary commit : Query
  select_recent select_summary write_summary select_unsummarized select_usage : Query

-- The tables, the sequence of the ids, and the statements that fail at present.
pub record Tables : Type 0 where
  pub messages : List MessageRow
  pub summaries : List (Text × Summary)
  pub sequence : ℕ
  pub fails : Query → Bool

-- what an error of sqlx says
abbrev pub db_error : Text
db_error = codes "database error"

infixl 5 ◌>>=◌
abbrev pub bind :
    {A B : Type 0}
    → StoreResult A × Tables
    → (A → Tables → StoreResult B × Tables)
    → StoreResult B × Tables
bind (ok a, db) f = f a db
bind (err e, db) f = (err e, db)

abbrev pub ◌>>=◌ :
    {A B : Type 0}
    → (Tables → StoreResult A × Tables)
    → (A → Tables → StoreResult B × Tables)
    → Tables
    → StoreResult B × Tables
◌>>=◌ m f db = bind (m db) f

-- a statement that writes
abbrev pub write : Query → (Tables → Tables) → Tables → StoreResult (Unit {0}) × Tables
write query change db = if db.fails query then (err db_error, db) else (ok tt, change db)

-- a statement that reads; `err` is an error of its evaluation
abbrev pub read : {A : Type 0} → Query → (Tables → StoreResult A) → Tables → StoreResult A × Tables
read query value db = if db.fails query then (err db_error, db) else (value db, db)

-- A transaction that is dropped is rolled back, but for the sequence. A COMMIT that fails has not
-- committed.
abbrev pub or_rolled_back :
    Tables → StoreResult (Unit {0}) × Tables → StoreResult (Unit {0}) × Tables
or_rolled_back db (ok u, after) = (ok u, after)
or_rolled_back db (err e, after) = (err e, record db { sequence = after.sequence })

abbrev pub transaction :
    (Tables → StoreResult (Unit {0}) × Tables) → Tables → StoreResult (Unit {0}) × Tables
transaction body db = or_rolled_back db (body db)

-- `u32 as i32` and `usize as i64`
abbrev pub wrapped : ℕ → ℕ → ℤ
wrapped half n =
    let m = n % (half + half) in if ltb m half then pos m else negsuc (half + half - suc m)

unfoldable pub as_i32 : ℕ → ℤ
as_i32 n = wrapped (2 ^ 31) n

unfoldable pub as_i64 : ℕ → ℤ
as_i64 n = wrapped (2 ^ 63) n

-- `role_from_str`
unfoldable pub role_from_str : Text → MessageRole
role_from_str role = if text_eq role (codes "assistant") then assistant else user

abbrev pub stored_message : MessageRow → StoredMessage
stored_message r = record { role = role_from_str r.role; content = r.content }

-- `ORDER BY id`
abbrev pub insert_by_id : MessageRow → List MessageRow → List MessageRow
insert_by_id r [] = r ∷ []
insert_by_id r (x ∷ rows) = if leb r.id x.id then r ∷ x ∷ rows else x ∷ insert_by_id r rows

unfoldable pub order_by_id : List MessageRow → List MessageRow
order_by_id [] = []
order_by_id (r ∷ rows) = insert_by_id r (order_by_id rows)

abbrev pub push : MessageRow → Tables → Tables
push r db = record db { messages = db.messages ++ r ∷ []; sequence = r.id }

-- the two INSERTs
abbrev pub question : ℕ → ExchangeRecord → Tables → MessageRow
question now e db = record {
  id = suc db.sequence;
  profile = e.profile;
  role = codes "user";
  content = e.user_text;
  model = none;
  prompt_tokens = none;
  completion_tokens = none;
  cost_micros = pos 0;
  created_at = now;
}

abbrev pub answer : ℕ → ExchangeRecord → Tables → MessageRow
answer now e db = record {
  id = suc db.sequence;
  profile = e.profile;
  role = codes "assistant";
  content = e.assistant_text;
  model = some e.model;
  prompt_tokens = some (as_i32 e.prompt_tokens);
  completion_tokens = some (as_i32 e.completion_tokens);
  cost_micros = e.cost_micros;
  created_at = now;
}

unfoldable pub record_exchange : ℕ → ExchangeRecord → Tables → StoreResult (Unit {0}) × Tables
record_exchange now e = transaction (
    write Query.begin (λ db. db) >>= λ _.
    write Query.insert_question (λ db. push (question now e db) db) >>= λ _.
    write Query.insert_answer (λ db. push (answer now e db) db) >>= λ _.
    write Query.commit (λ db. db))

abbrev pub is_negative : ℤ → Bool
is_negative (pos n) = false
is_negative (negsuc n) = true

abbrev pub of_profile : Text → Tables → List MessageRow
of_profile profile db = filter (λ r. text_eq r.profile profile) db.messages

-- A LIMIT below zero is an error; ids are unique, so a descending order is the ascending one
-- reversed.
unfoldable pub recent_of : Text → ℕ → Tables → StoreResult (List StoredMessage)
unfolding as_i64 order_by_id role_from_str
recent_of profile limit db =
    if is_negative (as_i64 limit)
    then err db_error
    else ok
        (reverse (map stored_message (take limit (reverse (order_by_id (of_profile profile db))))))

unfoldable pub recent_messages : Text → ℕ → Tables → StoreResult (List StoredMessage) × Tables
unfolding recent_of
recent_messages profile limit = read Query.select_recent (recent_of profile limit)

abbrev pub summary_of : Text → Tables → StoreResult (Option Summary)
summary_of profile db = ok (get profile db.summaries)

unfoldable pub summary : Text → Tables → StoreResult (Option Summary) × Tables
summary profile = read Query.select_summary (summary_of profile)

abbrev pub with_summary : Text → Summary → Tables → Tables
with_summary profile s db = record db { summaries = insert profile s db.summaries }

unfoldable pub upsert_summary : Text → Summary → Tables → StoreResult (Unit {0}) × Tables
upsert_summary profile s = write Query.write_summary (with_summary profile s)

abbrev pub newer_messages : Text → Tables → List MessageRow
newer_messages profile db =
    filter
      (λ r. text_eq r.profile profile && is_newer (covers_until (get profile db.summaries)) r.id)
      db.messages

abbrev pub numbered_message : MessageRow → ℤ × StoredMessage
numbered_message r = (pos r.id, stored_message r)

-- `result.truncate(result.len().saturating_sub(keep_last))`
abbrev pub truncated : ℕ → List (ℤ × StoredMessage) → List (ℤ × StoredMessage)
truncated keep_last result = take (length result - keep_last) result

unfoldable pub unsummarized_of : Text → ℕ → Tables → StoreResult (List (ℤ × StoredMessage))
unfolding order_by_id role_from_str
unsummarized_of profile keep_last db =
    ok (truncated keep_last (map numbered_message (order_by_id (newer_messages profile db))))

unfoldable pub unsummarized : Text → ℕ → Tables → StoreResult (List (ℤ × StoredMessage)) × Tables
unfolding unsummarized_of
unsummarized profile keep_last = read Query.select_unsummarized (unsummarized_of profile keep_last)

unfoldable pub clear_profile : Text → Tables → StoreResult (Unit {0}) × Tables
clear_profile profile = transaction (
    write Query.begin (λ db. db) >>= λ _.
    write Query.delete_messages
      (λ db. record db { messages = filter (λ r. not (text_eq r.profile profile)) db.messages })
    >>= λ _.
        write Query.delete_summary (λ db. record db { summaries = remove profile db.summaries })
        >>= λ _. write Query.commit (λ db. db))

-- `COUNT(*) FILTER (WHERE role = 'assistant')` and `SUM(cost_micros)`
abbrev pub count_answers : ℕ → List MessageRow → ℕ
count_answers n [] = n
count_answers n (r ∷ rows) =
    count_answers (if text_eq r.role (codes "assistant") then n + 1 else n) rows

abbrev pub sum_cost : ℤ → List MessageRow → ℤ
sum_cost cost [] = cost
sum_cost cost (r ∷ rows) = sum_cost (add cost r.cost_micros) rows

-- `::BIGINT`
abbrev pub usage_of : List MessageRow → StoreResult UsageStats
usage_of rows =
    if fits_i64 (sum_cost (pos 0) rows)
    then ok (record { requests = count_answers 0 rows; cost_micros = sum_cost (pos 0) rows })
    else err db_error

abbrev pub usage_at : ℕ → Tables → StoreResult UsageStats
usage_at since db = usage_of (filter (λ r. leb since r.created_at) db.messages)

unfoldable pub usage_since : ℕ → Tables → StoreResult UsageStats × Tables
usage_since since = read Query.select_usage (usage_at since)

-- `impl ConversationStore for PgStore`
abbrev pub pg_store : ConversationStore
pg_store = record {
  State = Tables;
  record_exchange = record_exchange;
  recent_messages = recent_messages;
  summary = summary;
  upsert_summary = upsert_summary;
  unsummarized = unsummarized;
  clear_profile = clear_profile;
  usage_since = usage_since;
}
