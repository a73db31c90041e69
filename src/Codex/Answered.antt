-- ===== src/Codex/Answered.antt =====
-- What an answer of `collect_turn` says of the messages that came before it.
use alice_llm_bridge.Base.{
  ◌≡◌, refl, ap, subst, ◌∙◌, ◌⊎◌, inl, inr, true, false, ◌&&◌, ◌||◌, Option, some, List, [], ◌∷◌,
  ◌++◌, map, append_assoc, append-nil, concat, any, is_empty, All, arith, Bool-cases, Option-cases,
}
use alice_llm_bridge.Base.Text.{Text}
use alice_llm_bridge.Json.{Value, get, is_some}
use alice_llm_bridge.Codex.{CodexResult, ok, err, key_id, key_method}
use alice_llm_bridge.Codex.Turn.{
  Collected, Iteration, again, finish, unconfirmed, turn_result, on_method,
}
use alice_llm_bridge.Codex.Client.{
  JsonRpcClient, M, chain, ◌>>=◌, Writer, handle_server_request, on_progress, on_message,
  collect_incoming, collect_queued, collect_turn,
}
use alice_llm_bridge.Codex.Passed.{
  method_of, delta_of, leaves_unverified, Passed, approval, Completes, absorb, absorb_all,
}
use alice_llm_bridge.Codex.Observed.{on_method-Passed, on_method-Completes, absorb-approval}
use alice_llm_bridge.Codex.Handled.{handle-approval, incoming-handle, chain-ok}

module _ (writer : Writer) where
  module _ (thread_id turn_id : Text) (connector : Option Text) where
    -- One message, when the turn was answered in the end: it ends the turn, or the rest of the loop
    -- gives the answer.
    Went : Value → Collected → (Collected → M Text) → List (CodexResult Value) → Text → Type 0
    Went message t read_on incoming text =
        (Completes thread_id turn_id connector message × (turn_result t ≡ ok text))
        ⊎ (Passed thread_id turn_id connector message
            × ((c : JsonRpcClient) × (c.incoming ≡ incoming)
                × ((read_on (absorb t message) c).0 ≡ ok text)))

    passes :
        (message : Value) (t : Collected) (read_on : Collected → M Text) (c : JsonRpcClient)
        {u : Collected} {text : Text}
        → Passed thread_id turn_id connector message
        → u ≡ absorb t message
        → (read_on u c).0 ≡ ok text
        → Went message t read_on c.incoming text
    unfolding Went
    passes message t read_on c {u} {text} p e h =
        inr (p, (c, refl, subst (λ v. (read_on v c).0 ≡ ok text) e h))

    on_request :
        (message : Value) (t : Collected) (read_on : Collected → M Text) (c : JsonRpcClient)
        {text : Text}
        → (is_some (get key_method message) && is_some (get key_id message)) ≡ true
        → (chain (handle_server_request writer message c) (λ _. read_on t)).0 ≡ ok text
        → Went message t read_on c.incoming text
    on_request message t read_on c {text} e h =
        let (x, handled, rest) =
          chain-ok (handle_server_request writer message c) (λ _. read_on t) h in
        let (method, m, a) = handle-approval writer message c handled in
        subst (λ i. Went message t read_on i text) (incoming-handle writer message c)
          (passes message t read_on (handle_server_request writer message c).1
            (approval (ground arith) m a) (absorb-approval t message m a) rest)

    on_notification :
        (message : Value) (method : Text) (t : Collected) (read_on : Collected → M Text)
        (c : JsonRpcClient) {text : Text} (p : Iteration)
        → is_some (get key_id message) ≡ false
        → method_of message ≡ some method
        → on_method thread_id turn_id connector message method t ≡ p
        → (on_progress writer thread_id turn_id connector p read_on c).0 ≡ ok text
        → Went message t read_on c.incoming text
    unfolding Went
    on_notification message method t read_on c (again u) quiet m o h =
        let (p, e) = on_method-Passed thread_id turn_id connector message quiet method t m o in
        passes message t read_on c p e h
    on_notification message method t read_on c (finish r) quiet m o h =
        inl (
          on_method-Completes thread_id turn_id connector message quiet method t m
            (o ∙ ap finish h))

    on_message-Went :
        (message : Value) (t : Collected) (read_on : Collected → M Text) (c : JsonRpcClient)
        {text : Text}
        → (on_message writer thread_id turn_id connector message t read_on c).0 ≡ ok text
        → Went message t read_on c.incoming text
    unfolding on_message ◌>>=◌
    on_message-Went message t read_on c h =
        elim (Bool-cases (is_some (get key_method message) && is_some (get key_id message))) [
          | inl e ↦ on_request message t read_on c e (rw e at h)
          | inr e ↦ elim (Option-cases (method_of message)) [
            | inl m ↦ ground arith
            | inr (method, m) ↦
                on_notification message method t read_on c _ (ground arith) m refl (ground arith)
          ]
        ]

    -- The messages behind which the loop went on, the one that ended the turn, and what was said.
    pub record Answer (stream : List (CodexResult Value)) (t : Collected) (text : Text)
        : Type 0 where
      pub before : List Value
      pub completed : Value
      pub rest : List (CodexResult Value)
      pub read : stream ≡ map ok before ++ ok completed ∷ rest
      pub passed : All (Passed thread_id turn_id connector) before
      pub completes : Completes thread_id turn_id connector completed
      pub said : turn_result (absorb_all t before) ≡ ok text

    Went-Answer :
        (message : Value) (stream incoming : List (CodexResult Value)) (t : Collected)
        (read_on : Collected → M Text) {text : Text}
        → ((u : Collected) (c : JsonRpcClient) (text : Text)
            → c.incoming ≡ incoming
            → (read_on u c).0 ≡ ok text
            → Answer stream u text)
        → Went message t read_on incoming text
        → Answer (ok message ∷ stream) t text
    unfolding Went
    Went-Answer message stream incoming t read_on ih (inl (done, r)) = record {
      before = [];
      completed = message;
      rest = stream;
      read = refl;
      passed = tt;
      completes = done;
      said = r;
    }
    Went-Answer message stream incoming t read_on {text} ih (inr (p, (c, i, h))) =
        let a = ih (absorb t message) c text i h in
        record {
          before = message ∷ a.before;
          completed = a.completed;
          rest = a.rest;
          read = ap (λ s. ok message ∷ s) a.read;
          passed = (p, a.passed);
          completes = a.completes;
          said = a.said;
        }

    incoming-Answer :
        (incoming : List (CodexResult Value)) (t : Collected) (c : JsonRpcClient) (text : Text)
        → (collect_incoming writer thread_id turn_id connector incoming t c).0 ≡ ok text
        → Answer incoming t text
    unfolding collect_incoming
    incoming-Answer [] t c text h = cc
    incoming-Answer (err e ∷ rest) t c text h = cc
    incoming-Answer (ok message ∷ rest) t c text h =
        let read_on = collect_incoming writer thread_id turn_id connector rest in
        Went-Answer message rest rest t read_on
          (λ u c' text' _ h'. incoming-Answer rest u c' text' h')
          (on_message-Went message t read_on (record c { incoming = rest }) h)

    queued-Answer :
        (queue : List Value) (incoming : List (CodexResult Value)) (t : Collected)
        (c : JsonRpcClient) (text : Text)
        → c.incoming ≡ incoming
        → (collect_queued writer thread_id turn_id connector queue t c).0 ≡ ok text
        → Answer (map ok queue ++ incoming) t text
    unfolding collect_queued
    queued-Answer [] incoming t c text i h =
        subst (λ s. Answer s t text) i (incoming-Answer c.incoming t c text h)
    queued-Answer (message ∷ queue) incoming t c text i h =
        let read_on = collect_queued writer thread_id turn_id connector queue in
        Went-Answer message (map ok queue ++ incoming) incoming t read_on
          (λ u c' text' i' h'. queued-Answer queue incoming u c' text' i' h')
          (subst (λ s. Went message t read_on s text) i
            (on_message-Went message t read_on (record c { notifications = queue }) h))

pub absorb_all-eq :
    (t : Collected) (messages : List Value)
    → absorb_all t messages ≡ record {
      assistant_text = t.assistant_text ++ concat (map delta_of messages);
      unverified = t.unverified || any leaves_unverified messages;
    }
absorb_all-eq t [] = ground (arith, append-nil t.assistant_text)
absorb_all-eq t (message ∷ messages) = ground (
  arith,
  absorb_all-eq (absorb t message) messages,
  append_assoc t.assistant_text (delta_of message) (concat (map delta_of messages)),
)

-- The answer of a turn, described by the messages that were read for it.
pub record IsAnswer (thread_id turn_id : Text) (connector : Option Text) (queue : List Value)
    (incoming : List (CodexResult Value)) (text : Text) : Type 0 where
  pub before : List Value
  pub completed : Value
  pub rest : List (CodexResult Value)
  pub read : map ok queue ++ incoming ≡ map ok before ++ ok completed ∷ rest
  pub passed : All (Passed thread_id turn_id connector) before
  pub completes : Completes thread_id turn_id connector completed
  pub said :
      ((any leaves_unverified before ≡ true) × (text ≡ unconfirmed))
      ⊎ ((any leaves_unverified before ≡ false)
          × (text ≡ concat (map delta_of before))
          × (is_empty text ≡ false))

-- x
pub collect_turn-IsAnswer :
    (writer : Writer) (thread_id turn_id : Text) (connector : Option Text) (c : JsonRpcClient)
    {text : Text}
    → (collect_turn writer thread_id turn_id connector c).0 ≡ ok text
    → IsAnswer thread_id turn_id connector c.notifications c.incoming text
unfolding collect_turn
collect_turn-IsAnswer writer thread_id turn_id connector c {text} h =
    let nothing : Collected = record { assistant_text = []; unverified = false } in
    let a =
      queued-Answer writer thread_id turn_id connector c.notifications c.incoming nothing c text
        refl h in
    record {
      before = a.before;
      completed = a.completed;
      rest = a.rest;
      read = a.read;
      passed = a.passed;
      completes = a.completes;
      said = ground (arith, a.said, absorb_all-eq nothing a.before);
    }
