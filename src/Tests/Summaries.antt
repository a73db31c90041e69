-- ===== src/Tests/Summaries.antt =====
-- A summary over the store in memory, while another exchange is recorded.
use alice_llm_bridge.Base.{pos, ◌≡◌, refl, [], ◌∷◌, arith}
use alice_llm_bridge.Base.Text.{codes, text_eq}
use alice_llm_bridge.Base.Dict.{get}
use alice_llm_bridge.Conversation.{
  ExchangeRecord, Inner, no_rows, record_exchange, push_row, unsummarized,
}
use alice_llm_bridge.Dialogue.{memory_store}
use alice_llm_bridge.Dialogue.Handle.{W}
use alice_llm_bridge.Dialogue.InMemory.{memory, memory_store-KeepsHistory}
use alice_llm_bridge.Dialogue.Summaries.{Progress, loading, storing, summarize}
use alice_llm_bridge.Dialogue.Interleaved.{Grows, loaded, step, meanwhile, grown}
use alice_llm_bridge.Dialogue.Promises.{question_row, answer_row}
use alice_llm_bridge.Dialogue.Summarized.{Begins, Covers, Reaches-Covers}
use alice_llm_bridge.Tests.Talk.{whole, engine, fresh}

abbrev pub exchange : ExchangeRecord
exchange = record {
  profile = codes "дима";
  user_text = codes "Почему?";
  assistant_text = codes "Потому.";
  model = codes "echo";
  prompt_tokens = 1;
  completion_tokens = 1;
  cost_micros = pos 1;
}

abbrev again : Inner → Inner
again = record_exchange 100 exchange

abbrev start : W whole memory_store engine
start = record fresh { store = again (again (again (again no_rows))) }

abbrev next : Progress × W whole memory_store engine → Progress × W whole memory_store engine
next (p, w) = summarize whole memory_store engine (codes "дима") p w

abbrev asked : Progress × W whole memory_store engine
asked = next (loading, start)

-- meanwhile an exchange more
abbrev busy : W whole memory_store engine
busy = record asked.1 { store = again asked.1.store }

abbrev compressed : Progress × W whole memory_store engine
compressed = next (next (asked.0, busy))

start_valid : memory.IsValid start.store
unfolding record_exchange push_row
start_valid = ground arith

busy_valid : memory.IsValid busy.store
unfolding record_exchange push_row summarize unsummarized text_eq get
busy_valid = ground arith

is_storing :
    compressed.0 ≡ storing (record { content = codes "Да."; covers_until_message_id = pos 4 })
unfolding record_exchange push_row summarize unsummarized text_eq get
is_storing = refl

busy_grown : Grows (memory.view asked.1.store) (memory.view busy.store)
unfolding record_exchange push_row summarize unsummarized text_eq get
busy_grown = grown (question_row 100 exchange 9 ∷ answer_row 100 exchange 10 ∷ []) refl

Reaches-Covers_example :
    Begins whole memory_store engine memory (codes "дима") start (next (loading, start)).0
    × Covers whole memory_store engine memory (codes "дима") start compressed.0 compressed.1
Reaches-Covers_example =
    Reaches-Covers whole memory_store engine memory (codes "дима") start compressed.1 compressed.0
      memory_store-KeepsHistory (omega arith)
      (step (step (meanwhile (loaded start_valid) busy_valid busy_grown)))
