-- ===== src/Tests/History.antt =====
-- Runs of the statements in crates/bridge-server/src/store_pg.rs.
use alice_llm_bridge.Base.{◌-◌, ◌^◌, pos, negsuc, Bool, true, false, ◌≡◌, refl, [], ◌∷◌}
use alice_llm_bridge.Base.Text.{codes, text_eq}
use alice_llm_bridge.Base.Dict.{get, insert}
use alice_llm_bridge.Conversation.{user, assistant, StoredMessage}
use alice_llm_bridge.Dialogue.{ok, err}
use alice_llm_bridge.PgConversation.{
  Query, Tables, as_i32, role_from_str, order_by_id, recent_of, unsummarized_of, record_exchange,
  recent_messages, upsert_summary, unsummarized, clear_profile, usage_since, db_error,
}
use alice_llm_bridge.Tests.Summaries.{exchange}

abbrev working : Query → Bool
working query = false

abbrev no_commit : Query → Bool
no_commit Query.commit = true
no_commit _ = false

abbrev empty : Tables
empty = record { messages = []; summaries = []; sequence = 0; fails = working }

abbrev once : Tables
once = (record_exchange 100 exchange empty).1

abbrev twice : Tables
twice = (record_exchange 200 exchange once).1

abbrev answered : StoredMessage
answered = record { role = assistant; content = codes "Потому." }

abbrev asked : StoredMessage
asked = record { role = user; content = codes "Почему?" }

last_three : (recent_messages (codes "дима") 3 twice).0 ≡ ok (answered ∷ asked ∷ answered ∷ [])
unfolding recent_messages recent_of order_by_id role_from_str record_exchange as_i32 text_eq
last_three = refl

-- a covered message is not read again, and the last one is kept
uncovered :
    (unsummarized
      (codes "дима")
      1
      (upsert_summary
        (codes "дима")
        (record { content = []; covers_until_message_id = pos 2 })
        twice).1).0
    ≡ ok ((pos 3, asked) ∷ [])
unfolding unsummarized unsummarized_of upsert_summary order_by_id role_from_str record_exchange
    as_i32 text_eq get insert
uncovered = refl

-- A COMMIT that fails keeps nothing but the ids that the sequence gave out.
not_committed :
    record_exchange 200 exchange (record once { fails = no_commit })
    ≡ (err db_error, record once { sequence = 4; fails = no_commit })
unfolding record_exchange as_i32
not_committed = refl

spent : (usage_since 150 twice).0 ≡ ok (record { requests = 1; cost_micros = pos 1 })
unfolding usage_since record_exchange as_i32 text_eq
spent = refl

all_cleared : (clear_profile (codes "дима") twice).1.messages ≡ []
unfolding clear_profile record_exchange as_i32 text_eq
all_cleared = refl

-- a count of tokens from 2 ^ 31 on is stored below zero
tokens_wrap : as_i32 (2 ^ 32 - 1) ≡ negsuc 0
unfolding as_i32
tokens_wrap = refl
