-- ===== src/Codex/Finished.antt =====
-- A turn whose messages are all as they should be is answered: the other direction of `Answered`.
use alice_llm_bridge.Base.{
  ◌≡◌, refl, sym, ap, subst, ◌∙◌, ◌⊎◌, inl, inr, ◌↔◌, Bool, true, false, not, ◌&&◌, ◌||◌, Option,
  none, some, List, [], ◌∷◌, ◌++◌, map, append-nil, concat, any, is_empty, All, arith, Bool-cases,
  Option-cases,
}
use alice_llm_bridge.Base.Text.{Text, codes, text_eq, text_eq_iff, text_eq_refl}
use alice_llm_bridge.Json.{Value, get, is_some, str_at}
use alice_llm_bridge.Codex.{
  CodexResult, ok, is_text, key_id, key_method, at_param, at_item, agent_message_delta,
  item_completed, turn_completed, is_approval, is_verified, require_turn, require_completed_turn,
  on_tool, observe_homey_tool, same_text,
}
use alice_llm_bridge.Codex.Turn.{
  Collected, again, unconfirmed, turn_result, on_delta, on_item, on_completed, on_method,
}
use alice_llm_bridge.Codex.Client.{
  JsonRpcClient, M, ◌>>=◌, Writer, handle_server_request, on_message, collect_incoming,
  collect_queued, collect_turn, decline, write_message,
}
use alice_llm_bridge.Codex.Passed.{
  method_of, IsAllowedTool, delta_of, leaves_unverified, IsOfTurn, Passed, approval, delta, item,
  tool_call, other, Completes, absorb, absorb_all,
}
use alice_llm_bridge.Codex.Observed.{
  absorb_nothing, absorb-approval, delta_of-other, leaves_unverified-other, delta_of-delta,
  leaves_unverified-delta, delta_of-item, leaves_unverified-item, item_is_no_delta,
}
use alice_llm_bridge.Codex.Answered.{IsAnswer, collect_turn-IsAnswer, absorb_all-eq}

same_text_refl : (o : Option Text) → same_text o o ≡ true
same_text_refl none = refl
same_text_refl (some s) = text_eq_refl s

completed_is_no_delta : text_eq agent_message_delta turn_completed ≡ false
unfolding text_eq agent_message_delta turn_completed
completed_is_no_delta = refl

completed_is_no_item : text_eq item_completed turn_completed ≡ false
unfolding text_eq item_completed turn_completed
completed_is_no_item = refl

module _ (thread_id turn_id : Text) (connector : Option Text) (message : Value) where
  require_turn-eq :
      IsOfTurn thread_id turn_id connector message → require_turn message thread_id turn_id ≡ ok tt
  unfolding require_turn
  require_turn-eq h = ground (arith, text_eq_refl thread_id, text_eq_refl turn_id)

  on_delta-eq :
      (t : Collected) {d : Text}
      → method_of message ≡ some agent_message_delta
      → IsOfTurn thread_id turn_id connector message
      → str_at (at_param "delta") message ≡ some d
      → on_delta thread_id turn_id message t ≡ ok (absorb t message)
  unfolding on_delta
  on_delta-eq t m h e =
      ground
        (arith, require_turn-eq h, delta_of-delta message m e, leaves_unverified-delta message m)

  on_tool-eq :
      (unverified : Bool) (tool : Text)
      → IsAllowedTool tool
      → on_tool message unverified tool
        ≡ ok (
            unverified || text_eq (codes "set_device_capability") tool && not (is_verified message))
  unfolding on_tool
  on_tool-eq unverified tool a = ground (
    arith,
    a,
    text_eq_iff (codes "list_attention_items") tool,
    text_eq_iff (codes "get_device_state") tool,
    text_eq_iff (codes "set_device_capability") tool,
  )

  on_item-eq :
      (t : Collected)
      → method_of message ≡ some item_completed
      → IsOfTurn thread_id turn_id connector message
      → is_text (codes "mcpToolCall") (str_at (at_item "type") message) ≡ false
      → on_item thread_id turn_id connector message t ≡ ok (absorb t message)
  unfolding on_item observe_homey_tool
  on_item-eq t m h n = ground (
    arith,
    require_turn-eq h,
    delta_of-item message m,
    leaves_unverified-item message m,
    append-nil t.assistant_text,
  )

  on_item-tool_call :
      (t : Collected) {tool : Text}
      → method_of message ≡ some item_completed
      → IsOfTurn thread_id turn_id connector message
      → str_at (at_item "server") message ≡ connector
      → str_at (at_item "tool") message ≡ some tool
      → IsAllowedTool tool
      → is_text (codes "mcpToolCall") (str_at (at_item "type") message) ≡ true
      → on_item thread_id turn_id connector message t ≡ ok (absorb t message)
  unfolding on_item observe_homey_tool
  on_item-tool_call t {tool} m h s e a call = ground (
    arith,
    require_turn-eq h,
    delta_of-item message m,
    leaves_unverified-item message m,
    append-nil t.assistant_text,
    on_tool-eq t.unverified tool a,
    same_text_refl connector,
  )

  on_completed-eq :
      (t : Collected)
      → Completes thread_id turn_id connector message
      → on_completed thread_id turn_id message t ≡ turn_result t
  unfolding on_completed require_completed_turn
  on_completed-eq t h =
      ground (arith, text_eq_refl thread_id, text_eq_refl turn_id, text_eq_refl (codes "completed"))

module _ (writer : Writer) (accepts : (before : List Value) (v : Value) → writer before v ≡ ok tt)
    (thread_id turn_id : Text) (connector : Option Text) where
  -- The loop goes on behind the message, with the stream as it was.
  abbrev GoesOn : Value → Collected → (Collected → M Text) → JsonRpcClient → Type 0
  GoesOn message t read_on c =
      (c' : JsonRpcClient) × (c'.incoming ≡ c.incoming)
      × (on_message writer thread_id turn_id connector message t read_on c
          ≡ read_on (absorb t message) c')

  notified :
      (message : Value) (method : Text) (t : Collected) (read_on : Collected → M Text)
      (c : JsonRpcClient)
      → is_some (get key_id message) ≡ false
      → method_of message ≡ some method
      → on_method thread_id turn_id connector message method t ≡ again (absorb t message)
      → GoesOn message t read_on c
  unfolding on_message
  notified message method t read_on c q m o = (c, refl, ground arith)

  handle-eq :
      (message id : Value) (method : Text) (c : JsonRpcClient)
      → get key_id message ≡ some id
      → method_of message ≡ some method
      → is_approval method ≡ true
      → handle_server_request writer message c
        ≡ (ok tt, record c { written = decline id ∷ c.written })
  unfolding handle_server_request ◌>>=◌ write_message
  handle-eq message id method c i m a = ground (arith, accepts c.written (decline id))

  declined :
      (message : Value) (t : Collected) (read_on : Collected → M Text) (c : JsonRpcClient)
      {method : Text}
      → is_some (get key_id message) ≡ true
      → method_of message ≡ some method
      → is_approval method ≡ true
      → GoesOn message t read_on c
  unfolding on_message ◌>>=◌
  declined message t read_on c {method} i m a = elim (Option-cases (get key_id message)) [
    | inl e ↦ ground arith
    | inr (id, e) ↦ (
      record c { written = decline id ∷ c.written },
      refl,
      let both : (is_some (get key_method message) && is_some (get key_id message)) ≡ true =
            ground arith in
          rw both (
            rw (handle-eq message id method c e m a) (
              ap (λ u. read_on u (record c { written = decline id ∷ c.written }))
                (absorb-approval t message m a))),
    )
  ]

  Passed-GoesOn :
      (message : Value) (t : Collected) (read_on : Collected → M Text) (c : JsonRpcClient)
      → Passed thread_id turn_id connector message
      → GoesOn message t read_on c
  unfolding on_method
  Passed-GoesOn message t read_on c (approval i m a) = declined message t read_on c i m a
  Passed-GoesOn message t read_on c (delta q m h e) =
      notified message agent_message_delta t read_on c q m (
        rw
          (
            text_eq_refl agent_message_delta,
            on_delta-eq thread_id turn_id connector message t m h e,
          )
          refl)
  Passed-GoesOn message t read_on c (item q m h n) =
      notified message item_completed t read_on c q m (
        rw
          (
            item_is_no_delta,
            text_eq_refl item_completed,
            on_item-eq thread_id turn_id connector message t m h n,
          )
          refl)
  Passed-GoesOn message t read_on c (tool_call q m h s e a) =
      notified message item_completed t read_on c q m (
        rw (item_is_no_delta, text_eq_refl item_completed)
          (elim (Bool-cases (is_text (codes "mcpToolCall") (str_at (at_item "type") message))) [
            | inl call ↦
                rw (on_item-tool_call thread_id turn_id connector message t m h s e a call) refl
            | inr n ↦ rw (on_item-eq thread_id turn_id connector message t m h n) refl
          ]))
  Passed-GoesOn message t read_on c (other {method} q m n n' n'') =
      notified message method t read_on c q m (
        rw (n, n', n'')
          (ap again (
            absorb_nothing t message (delta_of-other message m n)
              (leaves_unverified-other message m n'))))

  Completes-ends :
      (message : Value) (t : Collected) (read_on : Collected → M Text) (c : JsonRpcClient)
      → Completes thread_id turn_id connector message
      → (on_message writer thread_id turn_id connector message t read_on c).0 ≡ turn_result t
  unfolding on_message on_method
  Completes-ends message t read_on c h = ground (
    arith,
    completed_is_no_delta,
    completed_is_no_item,
    text_eq_refl turn_completed,
    on_completed-eq thread_id turn_id connector message t h,
  )

  module _ (completed : Value) (rest : List (CodexResult Value))
      (ends : Completes thread_id turn_id connector completed) where
    incoming-ends :
        (before : List Value) (incoming : List (CodexResult Value)) (t : Collected)
        (c : JsonRpcClient)
        → incoming ≡ map ok before ++ ok completed ∷ rest
        → All (Passed thread_id turn_id connector) before
        → (collect_incoming writer thread_id turn_id connector incoming t c).0
          ≡ turn_result (absorb_all t before)
    unfolding collect_incoming
    incoming-ends [] incoming t c e passed = rw e (
        Completes-ends completed t (collect_incoming writer thread_id turn_id connector rest)
          (record c { incoming = rest }) ends)
    incoming-ends (message ∷ before) incoming t c e passed =
        let left = map ok before ++ ok completed ∷ rest in
        let (c', i, goes) =
          Passed-GoesOn message t (collect_incoming writer thread_id turn_id connector left)
            (record c { incoming = left }) passed.0 in
        rw e (rw goes (incoming-ends before left (absorb t message) c' refl passed.1))

    queued-ends :
        (queue before : List Value) (t : Collected) (c : JsonRpcClient)
        → map ok queue ++ c.incoming ≡ map ok before ++ ok completed ∷ rest
        → All (Passed thread_id turn_id connector) before
        → (collect_queued writer thread_id turn_id connector queue t c).0
          ≡ turn_result (absorb_all t before)
    unfolding collect_queued
    queued-ends [] before t c e passed = incoming-ends before c.incoming t c e passed
    queued-ends (message ∷ queue) [] t c e passed =
        let same : completed ≡ message = cc in
        Completes-ends message t (collect_queued writer thread_id turn_id connector queue)
          (record c { notifications = queue })
          (subst (λ m. Completes thread_id turn_id connector m) same ends)
    queued-ends (message ∷ queue) (first ∷ before) t c e passed =
        let same : first ≡ message = cc in
        let (c', i, goes) =
          Passed-GoesOn message t (collect_queued writer thread_id turn_id connector queue)
            (record c { notifications = queue })
            (subst (λ m. Passed thread_id turn_id connector m) same passed.0) in
        rw goes (
          queued-ends queue before (absorb t message) c'
            (subst (λ s. map ok queue ++ s ≡ map ok before ++ ok completed ∷ rest) (sym i) (cc))
            passed.1)
        ∙ ap (λ m. turn_result (absorb_all (absorb t m) before)) (sym same)

abbrev nothing : Collected
nothing = record { assistant_text = []; unverified = false }

said-result :
    (before : List Value) (text : Text)
    → ((any leaves_unverified before ≡ true) × (text ≡ unconfirmed))
      ⊎ ((any leaves_unverified before ≡ false)
          × (text ≡ concat (map delta_of before))
          × (is_empty text ≡ false))
    → turn_result (absorb_all nothing before) ≡ ok text
said-result before text said = ground (arith, absorb_all-eq nothing before)

-- If every write succeeds, `collect_turn` answers with a text exactly when the messages that were
-- queued and the messages that come describe it: a message that completes this turn stands behind
-- messages that may be passed (requests for an approval, pieces of this turn's answer, items of
-- this turn that are no call of a tool or call one of the three Homey tools on the house's own
-- connector, and other notifications), and the text is the pieces in their order, of which there
-- is one character at least, or, if a change of a device was left unverified, the sentence that
-- says so.
pub collect_turn_iff :
    (writer : Writer) (thread_id turn_id : Text) (connector : Option Text) (c : JsonRpcClient)
    (text : Text)
    → ((before : List Value) (v : Value) → writer before v ≡ ok tt)
    → ((collect_turn writer thread_id turn_id connector c).0 ≡ ok text)
      ↔ IsAnswer thread_id turn_id connector c.notifications c.incoming text
unfolding collect_turn
collect_turn_iff writer thread_id turn_id connector c text accepts = (
  λ h. collect_turn-IsAnswer writer thread_id turn_id connector c h,
  λ a.
      queued-ends writer accepts thread_id turn_id connector a.completed a.rest a.completes
        c.notifications a.before nothing c a.read a.passed
      ∙ said-result a.before text a.said,
)
