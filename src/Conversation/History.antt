-- ===== src/Conversation/History.antt =====
-- What a profile's history holds after an exchange, a summary or a reset.
use alice_llm_bridge.Base.{
  ℕ, suc, pos, Bool, true, false, ◌&&◌, not, ◌≡◌, ◌≢◌, refl, ap, ◌∙◌, none, List, [], ◌∷◌, ◌++◌,
  append_assoc, append-nil, map, take, arith, Bool-cases, inl, inr,
}
use alice_llm_bridge.Base.Text.{Text, text_eq, text_eq_iff, text_eq_refl}
use alice_llm_bridge.Base.Dict.{get, remove, get-remove, text_key}
use alice_llm_bridge.Conversation.Ordered.{reverse-append, take-nil}
use alice_llm_bridge.Conversation.{
  user, assistant, StoredMessage, ExchangeRecord, Row, Inner, push_row, record_exchange, message,
  filter, reverse, recent_messages, summary, unsummarized, clear_profile, is_newer, covers_until,
}

module _ {ℓ} {A : Type ℓ} where
  pub filter-append :
      (p : A → Bool) (xs ys : List A) → filter p (xs ++ ys) ≡ filter p xs ++ filter p ys
  filter-append p [] ys = refl
  filter-append p (x ∷ xs) ys = elim (Bool-cases (p x)) [
    | inl h ↦ rw h (ap (λ t. x ∷ t) (filter-append p xs ys))
    | inr h ↦ rw h (filter-append p xs ys)
  ]

  pushed :
      (p : A → Bool) (xs : List A) (x : A)
      → p x ≡ true
      → reverse (filter p (xs ++ x ∷ [])) ≡ x ∷ reverse (filter p xs)
  pushed p xs x h = rw (filter-append p xs (x ∷ [])) (rw h (reverse-append (filter p xs) (x ∷ [])))

  pub skipped :
      (p : A → Bool) (xs : List A) (x : A) → p x ≡ false → filter p (xs ++ x ∷ []) ≡ filter p xs
  skipped p xs x h = rw (filter-append p xs (x ∷ [])) (rw h (append-nil (filter p xs)))

  pub filter-none :
      (p q : A → Bool) (xs : List A)
      → ((x : A) → q x ≡ true → p x ≡ false)
      → filter p (filter q xs) ≡ []
  filter-none p q [] h = refl
  filter-none p q (x ∷ xs) h = elim (Bool-cases (q x)) [
    | inl e ↦ rw e (rw (h x e) (filter-none p q xs h))
    | inr e ↦ rw e (filter-none p q xs h)
  ]

  pub filter-same :
      (p q : A → Bool) (xs : List A)
      → ((x : A) → q x ≡ false → p x ≡ false)
      → filter p (filter q xs) ≡ filter p xs
  filter-same p q [] h = refl
  filter-same p q (x ∷ xs) h = elim (Bool-cases (q x)) [
    | inl e ↦ rw e (elim (Bool-cases (p x)) [
      | inl f ↦ rw f (ap (λ t. x ∷ t) (filter-same p q xs h))
      | inr f ↦ rw f (filter-same p q xs h)
    ])
    | inr e ↦ rw e (rw (h x e) (filter-same p q xs h))
  ]

-- the two rows of an exchange
abbrev pub question : ExchangeRecord → StoredMessage
question e = record { role = user; content = e.user_text }

abbrev pub answer_of : ExchangeRecord → StoredMessage
answer_of e = record { role = assistant; content = e.assistant_text }

-- After an exchange, the last limit + 2 messages of its profile are the last limit of before, then
-- its question and its answer; the messages of other profiles are as before.
pub recent_messages-record_exchange :
    (now limit : ℕ) (e : ExchangeRecord) (inner : Inner)
    → (recent_messages e.profile (suc (suc limit)) (record_exchange now e inner)
        ≡ recent_messages e.profile limit inner ++ question e ∷ answer_of e ∷ [])
      × ((other : Text)
          → other ≢ e.profile
          → recent_messages other limit (record_exchange now e inner)
            ≡ recent_messages other limit inner)
unfolding recent_messages record_exchange push_row
recent_messages-record_exchange now limit e inner =
    let asked : Row = record {
      id = suc inner.next_id;
      profile = e.profile;
      role = user;
      content = e.user_text;
      cost_micros = pos 0;
      created_at = now;
    } in
    let answered : Row = record {
      id = suc (suc inner.next_id);
      profile = e.profile;
      role = assistant;
      content = e.assistant_text;
      cost_micros = e.cost_micros;
      created_at = now;
    } in
    let own = λ (r : Row). text_eq r.profile e.profile in
    (
      ap (λ l. reverse (map message (take (suc (suc limit)) l)))
            (pushed own (inner.rows ++ asked ∷ []) answered (text_eq_refl e.profile)
              ∙ ap (λ l. answered ∷ l) (pushed own inner.rows asked (text_eq_refl e.profile)))
          ∙ append_assoc _ (question e ∷ []) (answer_of e ∷ []),
      λ other ne.
          let differs : text_eq e.profile other ≡ false =
            ground (arith, text_eq_iff e.profile other) in
          let theirs = λ (r : Row). text_eq r.profile other in
          ap (λ l. reverse (map message (take limit (reverse l))))
            (skipped theirs (inner.rows ++ asked ∷ []) answered differs
              ∙ skipped theirs inner.rows asked differs),
    )

-- A reset leaves nothing of the profile, neither messages nor a summary, and all of the others.
pub clear_profile-forgets :
    (profile : Text) (limit keep : ℕ) (inner : Inner)
    → (recent_messages profile limit (clear_profile profile inner) ≡ [])
      × (summary profile (clear_profile profile inner) ≡ none)
      × (unsummarized profile keep (clear_profile profile inner) ≡ [])
      × ((other : Text)
          → other ≢ profile
          → (recent_messages other limit (clear_profile profile inner)
              ≡ recent_messages other limit inner)
            × (summary other (clear_profile profile inner) ≡ summary other inner))
unfolding recent_messages clear_profile summary unsummarized
clear_profile-forgets profile limit keep inner =
    let kept = λ (r : Row). not (text_eq r.profile profile) in
    (
      rw
          (filter-none (λ (r : Row). text_eq r.profile profile) kept inner.rows
            (λ r h. ground arith))
          (rw (take-nil {A = Row} limit) refl),
      rw get-remove (rw (text_eq_refl profile) refl),
      rw
          (filter-none
            (λ (r : Row).
              text_eq r.profile profile
              && is_newer (covers_until (get profile (remove profile inner.summaries))) r.id)
            kept inner.rows (λ r h. ground arith))
          (take-nil {A = ℕ × StoredMessage} _),
      λ other ne. (
        rw
            (filter-same (λ (r : Row). text_eq r.profile other) kept inner.rows
              (λ r h. ground (arith, text_eq_iff r.profile profile, text_eq_iff r.profile other)))
            refl,
        rw get-remove (ground (arith, text_eq_iff profile other)),
      ),
    )
