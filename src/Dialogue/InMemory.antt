-- ===== src/Dialogue/InMemory.antt =====
-- `MemoryStore` keeps what a conversation store promises.
use alice_llm_bridge.Base.{
  leb, ◌⊎◌, inl, inr, false, Bool-cases, none, some, pos, List, ℕ, suc, ◌≡◌, refl, ap, ◌∙◌, arith,
  [], ◌∷◌, ◌++◌, append_assoc, map, not, take,
}
use alice_llm_bridge.Base.Text.{Text}
use alice_llm_bridge.Base.Dict.{get, get-insert, get-remove, text_key}
use alice_llm_bridge.Conversation
use alice_llm_bridge.Conversation.{
  UsageStats, count, count_checked, fits_i64, add, ExchangeRecord, Row, Inner, push_row, filter,
  message, rows_of, newer_rows,
}
use alice_llm_bridge.Conversation.Ordered.{
  Between, Between-append, Between-filter, reverse-take-reverse, last, front, map-reverse,
  front-map, map-map,
}
use alice_llm_bridge.Dialogue.{memory_store, signed, unless_panics}
use alice_llm_bridge.Dialogue.Promises.{
  History, own, newer, question_row, answer_row, usage, Outcome, Reads, failed, numbered, appended,
  succeeded, Memory, KeepsHistory,
}

abbrev pub history_of : Inner → History
history_of inner = record { rows = inner.rows; summary = λ p. get p inner.summaries }

abbrev pub memory : Memory Inner
memory = record {
  view = history_of;
  IsValid = λ inner. Between 0 inner.rows inner.next_id;
  IsDown = λ inner. (since : ℕ) × (Conversation.usage_since since inner ≡ none);
  newest = λ inner. inner.next_id;
}

pushed-Between :
    (now : ℕ) (e : ExchangeRecord) (inner : Inner)
    → Between 0 inner.rows inner.next_id
    → Between 0
        ((inner.rows ++ question_row now e (suc inner.next_id) ∷ [])
          ++ answer_row now e (suc (suc inner.next_id)) ∷ [])
        (suc (suc inner.next_id))
pushed-Between now e inner b =
    Between-append 0 _ (suc inner.next_id) (answer_row now e (suc (suc inner.next_id)))
      (Between-append 0 inner.rows inner.next_id (question_row now e (suc inner.next_id)) b
        (omega arith))
      (omega arith)

recent :
    (s : Inner) (profile : Text) (limit : ℕ)
    → Conversation.recent_messages profile limit s
      ≡ map message (last limit (filter (own profile) s.rows))
unfolding Conversation.recent_messages
recent s profile limit =
    map-reverse message (take limit (Conversation.reverse (filter (own profile) s.rows)))
    ∙ ap (map message) (reverse-take-reverse limit (filter (own profile) s.rows))

pending :
    (s : Inner) (profile : Text) (keep : ℕ)
    → map signed (Conversation.unsummarized profile keep s)
      ≡ map numbered (front keep (newer profile (history_of s)))
unfolding Conversation.unsummarized
pending s profile keep =
    let unread = newer profile (history_of s) in
    ap (map signed) (front-map (λ r. (r.id, message r)) keep unread)
    ∙ map-map signed (λ r. (r.id, message r)) (front keep unread)

counted :
    (rows : List Row) (stats : UsageStats)
    → (count_checked rows stats ≡ none) ⊎ (count_checked rows stats ≡ some (count rows stats))
counted [] stats = inr refl
counted (r ∷ rows) stats = elim (Bool-cases (fits_i64 (add stats.cost_micros r.cost_micros))) [
  | inl fits ↦ rw fits (counted rows _)
  | inr large ↦ rw large (inl refl)
]

spent :
    (since : ℕ) (s : Inner)
    → Outcome
        (Reads (usage since (history_of s)) (history_of s))
        (memory.IsDown s ⊎ (fits_i64 (usage since (history_of s)).cost_micros ≡ false))
        (history_of s)
        (unless_panics (Conversation.usage_since since s))
        (history_of s)
unfolding Conversation.usage_since
spent since s =
    elim (counted (filter (λ r. leb since r.created_at) s.rows)
      (record { requests = 0; cost_micros = pos 0 })) [
        | inl panics ↦ rw panics (failed (inl (since, panics)) refl)
        | inr adds ↦ rw adds (succeeded (refl, refl))
      ]

-- The calls of the store in memory succeed and do to the history what is promised; only a sum of
-- costs that leaves 64 bits panics.
pub memory_store-KeepsHistory : KeepsHistory memory_store memory
unfolding Conversation.record_exchange push_row Conversation.recent_messages Conversation.summary
    Conversation.upsert_summary Conversation.unsummarized Conversation.clear_profile
    Conversation.usage_since
memory_store-KeepsHistory = record {
  ordered = λ s valid. valid;
  record_exchange = λ s now e valid. (
    pushed-Between now e s valid,
    succeeded (appended (suc s.next_id) (suc (suc s.next_id)) (append_assoc s.rows _ _) refl),
  );
  recent_messages = λ s profile limit valid. (valid, succeeded (recent s profile limit, refl));
  summary = λ s profile valid. (valid, succeeded (refl, refl));
  upsert_summary = λ s profile summary valid. (
    valid,
    succeeded (record { rows = refl; summary = λ p. get-insert profile p summary s.summaries }),
  );
  unsummarized = λ s profile keep valid. (valid, succeeded (pending s profile keep, refl));
  clear_profile = λ s profile valid. (
    Between-filter (λ r. not (own profile r)) 0 s.rows s.next_id valid,
    succeeded (record { rows = refl; summary = λ p. get-remove profile p s.summaries }),
  );
  usage_since = λ s since valid. (valid, spent since s);
}
