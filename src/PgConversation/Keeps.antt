-- ===== src/PgConversation/Keeps.antt =====
-- `PgStore` keeps what a conversation store promises.
use alice_llm_bridge.Base.{
  ℕ, suc, ◌≤◌, ◌<◌, ◌≡◌, refl, ap, ◌∙◌, inl, inr, arith, true, Bool-cases, [], ◌∷◌, ◌++◌, map,
  append_assoc, not,
}
use alice_llm_bridge.Base.Text.{Text, text_eq}
use alice_llm_bridge.Base.Dict.{get-insert, get-remove, text_key}
use alice_llm_bridge.Conversation.{ExchangeRecord, Row}
use alice_llm_bridge.Conversation.Ordered.{
  Between-append, Between-filter, Between-raise, map-append,
}
use alice_llm_bridge.Dialogue.{StoreResult, err}
use alice_llm_bridge.Dialogue.Promises.{
  History, own, appended, Outcome, succeeded, failed, Recorded, Cleared, Summarized, KeepsHistory,
  Calls, Reads,
}
use alice_llm_bridge.PgConversation.{
  read, write, MessageRow, Query, Tables, role_from_str, recent_of, usage_at, summary_of,
  with_summary, unsummarized_of, record_exchange, recent_messages, summary, upsert_summary,
  unsummarized, clear_profile, usage_since, question, answer, push, db_error, pg_store,
}
use alice_llm_bridge.PgConversation.View.{
  row_of, history_of, tables, filtered, pending, recent-Outcome, usage-Outcome,
}

reading :
    {A : Type 0} (q : Query) (value : Tables → StoreResult A) (answer : A) (Reason : Type 0)
    (db : Tables)
    → tables.IsValid db
    → (tables.IsDown db → Reason)
    → Outcome (Reads answer (history_of db)) Reason (history_of db) (value db) (history_of db)
    → Calls pg_store tables (Reads answer (history_of db)) Reason db (read q value db)
reading q value answer Reason db valid down outcome = elim (Bool-cases (db.fails q)) [
  | inl e ↦ rw e (valid, failed (down (q, e)) refl)
  | inr e ↦ rw e (valid, outcome)
]

writing :
    (q : Query) (change : Tables → Tables) (P : History → Type 0) (db : Tables)
    → tables.IsValid db
    → tables.IsValid (change db)
    → P (history_of (change db))
    → Calls pg_store tables (λ _ h. P h) (tables.IsDown db) db (write q change db)
writing q change P db valid valid' p = elim (Bool-cases (db.fails q)) [
  | inl e ↦ rw e (valid, failed (q, e) refl)
  | inr e ↦ rw e (valid', succeeded p)
]

-- A transaction that failed has left the messages and the summaries.
rolled_back :
    (q : Query) (P : History → Type 0) (db : Tables) (sequence : ℕ)
    → db.fails q ≡ true
    → db.sequence ≤ sequence
    → tables.IsValid db
    → Calls pg_store tables {A = Unit {0}}
        (λ _ h. P h)
        (tables.IsDown db)
        db
        (err db_error, record db { sequence = sequence })
rolled_back q P db sequence e le valid =
    (Between-raise 0 (map row_of db.messages) db.sequence sequence le valid, failed (q, e) refl)

valid-push :
    (r : MessageRow) (db : Tables)
    → db.sequence < r.id
    → tables.IsValid db
    → tables.IsValid (push r db)
valid-push r db above valid =
    rw (map-append row_of db.messages (r ∷ []))
      (Between-append 0 (map row_of db.messages) db.sequence (row_of r) valid above)

-- the tables after the two INSERTs
asked : ℕ → ExchangeRecord → Tables → Tables
asked now e db = push (question now e db) db

answered : ℕ → ExchangeRecord → Tables → Tables
answered now e db = push (answer now e (asked now e db)) (asked now e db)

two_rows :
    (now : ℕ) (e : ExchangeRecord) (db : Tables)
    → tables.IsValid db
    → tables.IsValid (answered now e db)
      × Recorded now e (history_of db) (history_of (answered now e db))
unfolding asked answered role_from_str text_eq
two_rows now e db valid = (
  valid-push (answer now e (asked now e db)) (asked now e db) (omega arith)
      (valid-push (question now e db) db (omega arith) valid),
  appended (suc db.sequence) (suc (suc db.sequence))
      (map-append row_of (db.messages ++ question now e db ∷ []) _
        ∙ ap (λ l. l ++ row_of (answer now e (asked now e db)) ∷ [])
            (map-append row_of db.messages (question now e db ∷ []))
        ∙ append_assoc (map row_of db.messages) _ _)
      refl,
)

recorded :
    (now : ℕ) (e : ExchangeRecord) (db : Tables)
    → tables.IsValid db
    → Calls pg_store tables
        (λ _ h. Recorded now e (history_of db) h)
        (tables.IsDown db)
        db
        (record_exchange now e db)
unfolding record_exchange asked answered
recorded now e db valid =
    let P = Recorded now e (history_of db) in
    elim (Bool-cases (db.fails Query.begin)) [
      | inl b ↦ rw b (rolled_back Query.begin P db db.sequence b (omega arith) valid)
      | inr b ↦ elim (Bool-cases (db.fails Query.insert_question)) [
        | inl q ↦
            rw (b, q) (rolled_back Query.insert_question P db db.sequence q (omega arith) valid)
        | inr q ↦ elim (Bool-cases (db.fails Query.insert_answer)) [
          | inl a ↦
              rw (b, q, a)
                (rolled_back Query.insert_answer P db (suc db.sequence) a (omega arith) valid)
          | inr a ↦ elim (Bool-cases (db.fails Query.commit)) [
            | inl c ↦
                rw (b, q, a, c)
                  (rolled_back Query.commit P db (suc (suc db.sequence)) c (omega arith) valid)
            | inr c ↦
                let (valid', rows) = two_rows now e db valid in
                rw (b, q, a, c) (valid', succeeded rows)
          ]
        ]
      ]
    ]

cleared :
    (profile : Text) (db : Tables)
    → tables.IsValid db
    → Calls pg_store tables
        (λ _ h. Cleared profile (history_of db) h)
        (tables.IsDown db)
        db
        (clear_profile profile db)
unfolding clear_profile
cleared profile db valid =
    let P = Cleared profile (history_of db) in
    let others = λ (r : Row). not (own profile r) in
    let (_, same) = filtered others db.messages db.sequence valid in
    elim (Bool-cases (db.fails Query.begin)) [
      | inl b ↦ rw b (rolled_back Query.begin P db db.sequence b (omega arith) valid)
      | inr b ↦ elim (Bool-cases (db.fails Query.delete_messages)) [
        | inl q ↦
            rw (b, q) (rolled_back Query.delete_messages P db db.sequence q (omega arith) valid)
        | inr q ↦ elim (Bool-cases (db.fails Query.delete_summary)) [
          | inl a ↦
              rw (b, q, a) (rolled_back Query.delete_summary P db db.sequence a (omega arith) valid)
          | inr a ↦ elim (Bool-cases (db.fails Query.commit)) [
            | inl c ↦
                rw (b, q, a, c) (rolled_back Query.commit P db db.sequence c (omega arith) valid)
            | inr c ↦
                rw (b, q, a, c, same)
                  (
                    Between-filter others 0 (map row_of db.messages) db.sequence valid,
                    succeeded
                        (record { rows = refl; summary = λ p. get-remove profile p db.summaries }),
                  )
          ]
        ]
      ]
    ]

-- Every call of the store in Postgres does to the history what is promised, or fails and leaves it:
-- only when a statement fails, when a limit is 2 ^ 63 at least, or when a sum of costs does not fit
-- 64 bits.
pub pg_store-KeepsHistory : KeepsHistory pg_store tables
unfolding summary upsert_summary unsummarized unsummarized_of recent_messages usage_since
pg_store-KeepsHistory = record {
  ordered = λ db valid. valid;
  record_exchange = λ db now e valid. recorded now e db valid;
  recent_messages = λ db profile limit valid.
      reading Query.select_recent (recent_of profile limit) _ _ db valid inl
        (recent-Outcome profile limit db valid);
  summary = λ db profile valid.
      reading Query.select_summary (summary_of profile) _ _ db valid (λ d. d)
        (succeeded (refl, refl));
  upsert_summary = λ db profile s valid.
      writing Query.write_summary (with_summary profile s) (Summarized profile s (history_of db)) db
        valid valid (record { rows = refl; summary = λ p. get-insert profile p s db.summaries });
  unsummarized = λ db profile keep valid.
      reading Query.select_unsummarized (unsummarized_of profile keep) _ _ db valid (λ d. d)
        (succeeded (pending profile keep db valid, refl));
  clear_profile = λ db profile valid. cleared profile db valid;
  usage_since = λ db since valid.
      reading Query.select_usage (usage_at since) _ _ db valid inl (usage-Outcome since db valid);
}
