-- ===== src/PgConversation/View.antt =====
-- The history that the tables hold, and what the SELECTs read of it.
use alice_llm_bridge.Base.{
  ℕ, ◌-◌, ◌+◌, ◌^◌, ◌≤◌, leb, pos, ◌≡◌, refl, sym, ap, ◌∙◌, ◌⊎◌, inl, inr, arith, Bool, true, false,
  Bool-cases, List, [], ◌∷◌, map, take, ◌&&◌,
}
use alice_llm_bridge.Base.Text.{Text, codes, text_eq}
use alice_llm_bridge.Base.Dict.{get, text_key}
use alice_llm_bridge.Conversation.{
  fits_i64, Row, filter, reverse, message, count, UsageStats, is_newer, covers_until,
}
use alice_llm_bridge.Conversation.Ordered.{
  Between, Between-filter, reverse-take-reverse, last, front, map-reverse, map-map, map-filter,
  front-map, last-map,
}
use alice_llm_bridge.Dialogue.Promises.{
  History, own, newer, numbered, usage, Outcome, succeeded, failed, Memory, Reads,
}
use alice_llm_bridge.PgConversation.{
  MessageRow, Query, Tables, role_from_str, stored_message, numbered_message, insert_by_id,
  order_by_id, of_profile, as_i64, is_negative, recent_of, usage_at, newer_messages, truncated,
  count_answers, sum_cost,
}

abbrev pub row_of : MessageRow → Row
row_of r = record {
  id = r.id;
  profile = r.profile;
  role = role_from_str r.role;
  content = r.content;
  cost_micros = r.cost_micros;
  created_at = r.created_at;
}

abbrev pub history_of : Tables → History
history_of db = record { rows = map row_of db.messages; summary = λ p. get p db.summaries }

abbrev pub tables : Memory Tables
tables = record {
  view = history_of;
  IsValid = λ db. Between 0 (map row_of db.messages) db.sequence;
  IsDown = λ db. (q : Query) × (db.fails q ≡ true);
  newest = λ db. db.sequence;
}

-- Rows that ascend are in order.
insert_by_id-first :
    (r : MessageRow) (rows : List MessageRow) (high : ℕ)
    → Between r.id (map row_of rows) high
    → insert_by_id r rows ≡ r ∷ rows
insert_by_id-first r [] high b = refl
insert_by_id-first r (x ∷ rows) high (above, b) = ground (arith, above)

order_by_id-same :
    (low : ℕ) (rows : List MessageRow) (high : ℕ)
    → Between low (map row_of rows) high
    → order_by_id rows ≡ rows
unfolding order_by_id
order_by_id-same low [] high b = refl
order_by_id-same low (r ∷ rows) high (above, b) =
    ap (insert_by_id r) (order_by_id-same r.id rows high b) ∙ insert_by_id-first r rows high b

pub filtered :
    (p : Row → Bool) (rows : List MessageRow) (high : ℕ)
    → Between 0 (map row_of rows) high
    → (order_by_id (filter (λ r. p (row_of r)) rows) ≡ filter (λ r. p (row_of r)) rows)
      × (map row_of (filter (λ r. p (row_of r)) rows) ≡ filter p (map row_of rows))
filtered p rows high b =
    let same = map-filter row_of (λ r. p (row_of r)) p (λ r. refl) rows in
    (order_by_id-same 0 _ high (rw same (Between-filter p 0 (map row_of rows) high b)), same)

recent :
    (profile : Text) (limit : ℕ) (db : Tables)
    → tables.IsValid db
    → reverse (map stored_message (take limit (reverse (order_by_id (of_profile profile db)))))
      ≡ map message (last limit (filter (own profile) (history_of db).rows))
recent profile limit db valid =
    let (ordered, same) = filtered (own profile) db.messages db.sequence valid in
    let rows = of_profile profile db in
    ap (λ l. reverse (map stored_message (take limit (reverse l)))) ordered
    ∙ map-reverse stored_message (take limit (reverse rows))
    ∙ ap (map stored_message) (reverse-take-reverse limit rows)
    ∙ sym (map-map message row_of (last limit rows))
    ∙ ap (map message) (sym (last-map row_of limit rows) ∙ ap (last limit) same)

as_i64-small : (limit : ℕ) → limit ≤ 2 ^ 63 - 1 → is_negative (as_i64 limit) ≡ false
unfolding as_i64
as_i64-small limit le = ground arith

pub pending :
    (profile : Text) (keep : ℕ) (db : Tables)
    → tables.IsValid db
    → truncated keep (map numbered_message (order_by_id (newer_messages profile db)))
      ≡ map numbered (front keep (newer profile (history_of db)))
pending profile keep db valid =
    let unread =
      λ (r : Row). own profile r && is_newer (covers_until (get profile db.summaries)) r.id in
    let (ordered, same) = filtered unread db.messages db.sequence valid in
    let rows = newer_messages profile db in
    ap (λ l. truncated keep (map numbered_message l)) ordered
    ∙ front-map numbered_message keep rows
    ∙ sym (map-map numbered row_of (front keep rows))
    ∙ ap (map numbered) (sym (front-map row_of keep rows) ∙ ap (front keep) same)

-- the counters of `usage_since`
counted :
    (rows : List MessageRow) (stats : UsageStats)
    → count (map row_of rows) stats ≡ record {
      requests = count_answers stats.requests rows;
      cost_micros = sum_cost stats.cost_micros rows;
    }
unfolding role_from_str
counted [] stats = refl
counted (r ∷ rows) stats = elim (Bool-cases (text_eq r.role (codes "assistant"))) [
  | inl e ↦ rw e (counted rows _)
  | inr e ↦
      let same : stats.requests + 0 ≡ stats.requests = omega arith in rw (e, same) (counted rows _)
]

-- a LIMIT that is negative stands for one of 2 ^ 63 at least
too_large : (limit : ℕ) → is_negative (as_i64 limit) ≡ true → 2 ^ 63 ≤ limit
too_large limit e = elim (Bool-cases (leb (2 ^ 63) limit)) [
  | inl large ↦ ground arith
  | inr small ↦ ground (arith, as_i64-small limit (ground arith))
]

pub recent-Outcome :
    (profile : Text) (limit : ℕ) (db : Tables)
    → tables.IsValid db
    → Outcome
        (Reads
          (map message (last limit (filter (own profile) (history_of db).rows)))
          (history_of db))
        (tables.IsDown db ⊎ (2 ^ 63 ≤ limit))
        (history_of db)
        (recent_of profile limit db)
        (history_of db)
unfolding recent_of
recent-Outcome profile limit db valid = elim (Bool-cases (is_negative (as_i64 limit))) [
  | inl e ↦ rw e (failed (inr (too_large limit e)) refl)
  | inr e ↦ rw e (succeeded (recent profile limit db valid, refl))
]

usage-eq :
    (since : ℕ) (db : Tables)
    → tables.IsValid db
    → let rows = filter (λ r. leb since r.created_at) db.messages in
      usage since (history_of db)
      ≡ record { requests = count_answers 0 rows; cost_micros = sum_cost (pos 0) rows }
usage-eq since db valid =
    let (_, same) = filtered (λ r. leb since r.created_at) db.messages db.sequence valid in
    let none_yet : UsageStats = record { requests = 0; cost_micros = pos 0 } in
    ap (λ l. count l none_yet) (sym same)
    ∙ counted (filter (λ r. leb since r.created_at) db.messages) none_yet

pub usage-Outcome :
    (since : ℕ) (db : Tables)
    → tables.IsValid db
    → Outcome
        (Reads (usage since (history_of db)) (history_of db))
        (tables.IsDown db ⊎ (fits_i64 (usage since (history_of db)).cost_micros ≡ false))
        (history_of db)
        (usage_at since db)
        (history_of db)
usage-Outcome since db valid =
    let e = usage-eq since db valid in
    let rows = filter (λ r. leb since r.created_at) db.messages in
    elim (Bool-cases (fits_i64 (sum_cost (pos 0) rows))) [
      | inl fits ↦ rw fits (succeeded (sym e, refl))
      | inr large ↦ rw large (failed (inr (ap (λ u. fits_i64 u.cost_micros) e ∙ large)) refl)
    ]
