-- ===== src/Dialogue/Covering.antt =====
-- A summary of all messages but the last few, in a history that may have grown meanwhile.
use alice_llm_bridge.Base.{
  ℕ, ◌-◌, ◌≤◌, ◌<◌, ltb, ℤ, pos, ◌≡◌, ◌≢◌, refl, sym, ap, subst, ◌∙◌, arith, Bool, true, false,
  ◌&&◌, Bool-cases, inl, inr, some, if◌then◌else◌, List, [], ◌∷◌, ◌++◌, map, take-append-drop,
  length,
}
use alice_llm_bridge.Base.Text.{Text, text_eq_refl}
use alice_llm_bridge.Conversation.{Row, Summary, filter, covers_until, is_newer, StoredMessage}
use alice_llm_bridge.Conversation.Ordered.{Between, Between-high, Between-filter, last, front}
use alice_llm_bridge.Conversation.History.{filter-append, filter-same}
use alice_llm_bridge.Conversation.Above.{
  end, split-Between, ends, filter-above, first-passes, newer-from, after-front,
}
use alice_llm_bridge.Dialogue.Promises.{History, own, newer, numbered, Summarized}
use alice_llm_bridge.Dialogue.Summaries.{last_id, max_of, int_max}

max_of-end :
    (id : ℕ) (rows : List Row) (high : ℕ)
    → Between id rows high
    → max_of (pos id) (map (λ (r : ℤ × StoredMessage). r.0) (map numbered rows)) ≡ pos (end id rows)
max_of-end id [] high b = refl
max_of-end id (r ∷ rows) high (above, b) =
    let up : int_max (pos id) (pos r.id) ≡ pos r.id = ground arith in
    ap (λ m. max_of m (map (λ (r : ℤ × StoredMessage). r.0) (map numbered rows))) up
    ∙ max_of-end r.id rows high b

last_id-end :
    (low : ℕ) (rows : List Row) (high : ℕ)
    → Between low rows high
    → rows ≢ []
    → last_id (map numbered rows) ≡ pos (end low rows)
last_id-end low [] high b some_rows = absurd (some_rows refl)
last_id-end low (r ∷ rows) high (above, b) some_rows = max_of-end r.id rows high b

-- rows of a profile need no second test for it
filter-own :
    (profile : Text) (q n : Row → Bool) (rows : List Row)
    → filter (λ r. own profile r && n r) (filter (λ r. own profile r && q r) rows)
      ≡ filter n (filter (λ r. own profile r && q r) rows)
filter-own profile q n [] = refl
filter-own profile q n (r ∷ rows) = elim (Bool-cases (own profile r && q r)) [
  | inl e ↦
      let mine : own profile r ≡ true = ground arith in
      elim (Bool-cases (n r)) [
        | inl f ↦ rw (e, mine, f) (ap (λ t. r ∷ t) (filter-own profile q n rows))
        | inr f ↦ rw (e, mine, f) (filter-own profile q n rows)
      ]
  | inr e ↦ rw e (filter-own profile q n rows)
]

module _ (profile : Text) (h : History) (keep : ℕ) (high : ℕ)
    (ascends : Between 0 h.rows high) where
  abbrev unread : List Row
  unread = newer profile h

  abbrev pub compressed : List Row
  compressed = front keep unread

  abbrev pub kept : List Row
  kept = last keep unread

  compressed-kept : compressed ++ kept ≡ unread
  compressed-kept = take-append-drop (length unread - keep) unread

  cover : ℕ
  cover = end 0 compressed

  unread-ascends : Between 0 unread high
  unread-ascends = Between-filter _ 0 h.rows high ascends

  -- ids above the cover are newer than the summary of before
  above-cover :
      (c : List Row)
      → compressed ≡ c
      → c ≢ []
      → (id : ℕ) → cover < id
      → is_newer (covers_until (h.summary profile)) id ≡ true
  unfolding cover
  above-cover [] e some_rows id lt = absurd (some_rows refl)
  above-cover (r ∷ c) e some_rows id lt =
      let whole : unread ≡ r ∷ (c ++ kept) = sym compressed-kept ∙ ap (λ t. t ++ kept) e in
      let passes = first-passes _ h.rows r (c ++ kept) whole in
      let b : Between 0 ((r ∷ c) ++ kept) high =
        subst (λ l. Between 0 l high) whole unread-ascends in
      let (below, _) = split-Between 0 (r ∷ c) kept high b in
      newer-from (covers_until (h.summary profile)) r.id (end r.id c) id (ground arith)
        (Between-high r.id c (end r.id c) (below.1)) (subst (λ l. end 0 l < id) e lt)

  cover-le : compressed ≢ [] → cover ≤ end 0 h.rows
  unfolding cover
  cover-le some_rows =
      let tight : Between 0 unread (end 0 h.rows) =
        Between-filter _ 0 h.rows (end 0 h.rows) (ends 0 h.rows high ascends) in
      let (below, above) =
        split-Between 0 compressed kept (end 0 h.rows)
          (subst (λ l. Between 0 l (end 0 h.rows)) (sym compressed-kept) tight) in
      Between-high (end 0 compressed) kept (end 0 h.rows) above

  not-newer :
      compressed ≢ []
      → (r : Row) → (own profile r && is_newer (covers_until (h.summary profile)) r.id) ≡ false
      → (own profile r && is_newer (pos cover) r.id) ≡ false
  not-newer some_rows r old = elim (Bool-cases (ltb cover r.id)) [
    | inl lt ↦
        let new = above-cover compressed refl some_rows r.id (ground arith) in ground (arith, new)
    | inr ge ↦ ground arith
  ]

  -- Once a summary covers the compressed rows, what is left is the rows that were kept and those of
  -- the profile that came meanwhile.
  pub newer-Summarized :
      (s : Summary) (new : List Row) (h' h'' : History) (high' : ℕ)
      → compressed ≢ []
      → s.covers_until_message_id ≡ last_id (map numbered compressed)
      → h'.rows ≡ h.rows ++ new
      → Between 0 h'.rows high'
      → Summarized profile s h' h''
      → newer profile h'' ≡ kept ++ filter (own profile) new
  unfolding cover
  newer-Summarized s new h' h'' high' some_rows covers grown ascends' done =
      let (below, _) =
        split-Between 0 compressed kept high
          (subst (λ l. Between 0 l high) (sym compressed-kept) unread-ascends) in
      let at : s.covers_until_message_id ≡ pos cover =
        covers ∙ last_id-end 0 compressed (end 0 compressed) below some_rows in
      let picked : h''.summary profile ≡ some s =
        done.summary profile
        ∙ ap (λ b. if b then some s else h'.summary profile) (text_eq_refl profile) in
      let reads : covers_until (h''.summary profile) ≡ pos cover = ap covers_until picked ∙ at in
      let mine = λ (r : Row). own profile r && is_newer (pos cover) r.id in
      let (_, above_new) =
        split-Between 0 h.rows new high' (subst (λ l. Between 0 l high') grown ascends') in
      let old_rows : filter mine h.rows ≡ kept =
        sym (filter-same mine _ h.rows (λ r old. not-newer some_rows r old))
        ∙ filter-own profile _ (λ r. is_newer (pos cover) r.id) h.rows
        ∙ ap (filter (λ r. is_newer (pos cover) r.id)) (sym compressed-kept)
        ∙ after-front compressed kept high
            (subst (λ l. Between 0 l high) (sym compressed-kept) unread-ascends) in
      let new_rows : filter mine new ≡ filter (own profile) new =
        filter-above mine (own profile) (end 0 h.rows) new high'
          (λ r lt. ground (arith, lt, cover-le some_rows)) above_new in
      ap (λ c. filter (λ r. own profile r && is_newer c r.id) h''.rows) reads
      ∙ ap (filter mine) (done.rows ∙ grown)
      ∙ filter-append mine h.rows new
      ∙ ap (λ t. t ++ filter mine new) old_rows
      ∙ ap (λ t. kept ++ t) new_rows
