-- ===== src/Codex/Observed.antt =====
-- One notification of a turn: what its handling tells of it.
use alice_llm_bridge.Base.{
  ◌≡◌, refl, sym, ap, ◌∙◌, ◌⊎◌, inl, inr, Bool, true, false, not, ◌&&◌, ◌||◌, Option, none, some,
  [], append-nil, arith, Bool-cases, Option-cases,
}
use alice_llm_bridge.Base.Text.{Text, codes, text_eq, text_eq_iff, text_eq_refl}
use alice_llm_bridge.Json.{Value, get, is_some, str_at}
use alice_llm_bridge.Codex.{
  CodexRuntimeError, CodexResult, ok, err, is_text, key_id, at_param, at_item, at_turn,
  agent_message_delta, item_completed, turn_completed, is_approval, is_verified, require_turn,
  require_completed_turn, on_tool, observe_homey_tool, same_text,
}
use alice_llm_bridge.Codex.Turn.{
  Collected, again, finish, turn_result, on_delta, on_item, on_completed, on_method,
}
use alice_llm_bridge.Codex.Passed.{
  method_of, IsAllowedTool, delta_of, calls_tool, leaves_unverified, IsOfTurn, Passed, delta, item,
  tool_call, other, Completes, absorb,
}

pub is_text_eq : (s : Text) (o : Option Text) → is_text s o ≡ true → o ≡ some s
is_text_eq s none h = cc
is_text_eq s (some t) h = ap some (sym ((text_eq_iff s t).0 h))

same_text_eq : (o p : Option Text) → same_text o p ≡ true → o ≡ p
same_text_eq none none h = refl
same_text_eq none (some t) h = cc
same_text_eq (some s) p h = sym (is_text_eq s p h)

pub CodexResult-cases {ℓ} :
    {A : Type ℓ} (r : CodexResult A)
    → ((a : A) × (r ≡ ok a)) ⊎ ((e : CodexRuntimeError) × (r ≡ err e))
CodexResult-cases (ok a) = inl (a, refl)
CodexResult-cases (err e) = inr (e, refl)

-- The kinds of notification differ.
pub delta_is_no_item : text_eq item_completed agent_message_delta ≡ false
unfolding text_eq item_completed agent_message_delta
delta_is_no_item = refl

pub item_is_no_delta : text_eq agent_message_delta item_completed ≡ false
unfolding text_eq item_completed agent_message_delta
item_is_no_delta = refl

-- A text that passes a test is no text that fails it.
other_text :
    (test : Text → Bool) (s t : Text) → test s ≡ false → test t ≡ true → text_eq s t ≡ false
other_text test s t f h = elim (Bool-cases (text_eq s t)) [
  | inr n ↦ n
  | inl e ↦ let p : s ≡ t = (text_eq_iff s t).0 e in cc
]

-- A request for an approval is none of the notifications of a turn.
delta_no_approval : is_approval agent_message_delta ≡ false
unfolding is_approval text_eq agent_message_delta
delta_no_approval = refl

item_no_approval : is_approval item_completed ≡ false
unfolding is_approval text_eq item_completed
item_no_approval = refl

module _ (message : Value) where
  pub delta_of-delta :
      {d : Text}
      → method_of message ≡ some agent_message_delta
      → str_at (at_param "delta") message ≡ some d
      → delta_of message ≡ d
  unfolding delta_of
  delta_of-delta m e = ground (arith, text_eq_refl agent_message_delta)

  pub leaves_unverified-delta :
      method_of message ≡ some agent_message_delta → leaves_unverified message ≡ false
  unfolding leaves_unverified
  leaves_unverified-delta m = ground (arith, delta_is_no_item)

  pub delta_of-item : method_of message ≡ some item_completed → delta_of message ≡ []
  unfolding delta_of
  delta_of-item m = ground (arith, item_is_no_delta)

  pub leaves_unverified-item :
      method_of message ≡ some item_completed
      → leaves_unverified message
        ≡ (calls_tool (codes "set_device_capability") message && not (is_verified message))
  unfolding leaves_unverified
  leaves_unverified-item m = ground (arith, text_eq_refl item_completed)

  pub delta_of-other :
      {method : Text}
      → method_of message ≡ some method
      → text_eq agent_message_delta method ≡ false
      → delta_of message ≡ []
  unfolding delta_of
  delta_of-other m e = ground arith

  pub leaves_unverified-other :
      {method : Text}
      → method_of message ≡ some method
      → text_eq item_completed method ≡ false
      → leaves_unverified message ≡ false
  unfolding leaves_unverified
  leaves_unverified-other m e = ground arith

pub absorb_nothing :
    (t : Collected) (message : Value)
    → delta_of message ≡ []
    → leaves_unverified message ≡ false
    → t ≡ absorb t message
absorb_nothing t message d l = ground (arith, append-nil t.assistant_text)

-- A declined request adds nothing.
pub absorb-approval :
    (t : Collected) (message : Value) {method : Text}
    → method_of message ≡ some method
    → is_approval method ≡ true
    → t ≡ absorb t message
absorb-approval t message {method} m a =
    absorb_nothing t message
      (delta_of-other message m (other_text is_approval _ method delta_no_approval a))
      (leaves_unverified-other message m (other_text is_approval _ method item_no_approval a))

module _ (thread_id turn_id : Text) (connector : Option Text) (message : Value)
    (quiet : is_some (get key_id message) ≡ false) where
  require_turn-IsOfTurn :
      require_turn message thread_id turn_id ≡ ok tt → IsOfTurn thread_id turn_id connector message
  unfolding require_turn
  require_turn-IsOfTurn h = ground (
    arith,
    is_text_eq thread_id (str_at (at_param "threadId") message),
    is_text_eq turn_id (str_at (at_param "turnId") message),
  )

  pub on_completed-Completes :
      (t : Collected) {text : Text}
      → method_of message ≡ some turn_completed
      → on_completed thread_id turn_id message t ≡ ok text
      → Completes thread_id turn_id connector message × (turn_result t ≡ ok text)
  unfolding on_completed require_completed_turn
  on_completed-Completes t m h = ground (
    arith,
    is_text_eq thread_id (str_at (at_param "threadId") message),
    is_text_eq turn_id (str_at (at_turn "id") message),
    is_text_eq (codes "completed") (str_at (at_turn "status") message),
  )

  pub on_delta-Passed :
      (t : Collected) {u : Collected}
      → method_of message ≡ some agent_message_delta
      → on_delta thread_id turn_id message t ≡ ok u
      → Passed thread_id turn_id connector message × (u ≡ absorb t message)
  unfolding on_delta
  on_delta-Passed t m h = elim (CodexResult-cases (require_turn message thread_id turn_id)) [
    | inr (x, r) ↦ ground arith
    | inl (x, r) ↦ elim (Option-cases (str_at (at_param "delta") message)) [
      | inl e ↦ ground arith
      | inr (d, e) ↦ (
        delta quiet m (require_turn-IsOfTurn r) e,
        ground (arith, delta_of-delta message m e, leaves_unverified-delta message m),
      )
    ]
  ]

  on_tool-IsAllowedTool :
      (unverified : Bool) {tool : Text} {after : Bool}
      → on_tool message unverified tool ≡ ok after
      → IsAllowedTool tool
        × (after ≡ (
            unverified
            || text_eq (codes "set_device_capability") tool && not (is_verified message)))
  unfolding on_tool
  on_tool-IsAllowedTool unverified {tool} h = ground (
    arith,
    text_eq_iff (codes "list_attention_items") tool,
    text_eq_iff (codes "get_device_state") tool,
    text_eq_iff (codes "set_device_capability") tool,
  )

  on_item-observed :
      (t : Collected) {u : Collected}
      → on_item thread_id turn_id connector message t ≡ ok u
      → (after : Bool) × (observe_homey_tool message thread_id turn_id connector t.unverified
          ≡ ok after)
        × (u ≡ record t { unverified = after })
  unfolding on_item
  on_item-observed t h =
      elim (CodexResult-cases
        (observe_homey_tool message thread_id turn_id connector t.unverified)) [
          | inl (after, e) ↦ (after, e, ground arith)
          | inr (x, e) ↦ ground arith
        ]

  observe_homey_tool-IsOfTurn :
      (unverified : Bool) {after : Bool}
      → observe_homey_tool message thread_id turn_id connector unverified ≡ ok after
      → (x : Unit {0}) × (require_turn message thread_id turn_id ≡ ok x)
  unfolding observe_homey_tool
  observe_homey_tool-IsOfTurn unverified h =
      elim (CodexResult-cases (require_turn message thread_id turn_id)) [
        | inl found ↦ found
        | inr (x, e) ↦ ground arith
      ]

  observe_homey_tool-no_call :
      (unverified : Bool) {x : Unit {0}} {after : Bool}
      → require_turn message thread_id turn_id ≡ ok x
      → is_text (codes "mcpToolCall") (str_at (at_item "type") message) ≡ false
      → observe_homey_tool message thread_id turn_id connector unverified ≡ ok after
      → after ≡ unverified
  unfolding observe_homey_tool
  observe_homey_tool-no_call unverified r n h = ground arith

  observe_homey_tool-on_tool :
      (unverified : Bool) {x : Unit {0}} {after : Bool}
      → require_turn message thread_id turn_id ≡ ok x
      → is_text (codes "mcpToolCall") (str_at (at_item "type") message) ≡ true
      → observe_homey_tool message thread_id turn_id connector unverified ≡ ok after
      → (tool : Text) × (str_at (at_item "server") message ≡ connector)
        × (str_at (at_item "tool") message ≡ some tool)
        × (on_tool message unverified tool ≡ ok after)
  unfolding observe_homey_tool
  observe_homey_tool-on_tool unverified r call h =
      elim (Option-cases (str_at (at_item "tool") message)) [
        | inl e ↦ ground arith
        | inr (tool, e) ↦ (
          tool,
          ground (arith, same_text_eq (str_at (at_item "server") message) connector),
          e,
          ground arith,
        )
      ]

  pub on_item-Passed :
      (t : Collected) {u : Collected}
      → method_of message ≡ some item_completed
      → on_item thread_id turn_id connector message t ≡ ok u
      → Passed thread_id turn_id connector message × (u ≡ absorb t message)
  unfolding on_item
  on_item-Passed t {u} m h =
      let (after, o, q) = on_item-observed t h in
      let (x, r) = observe_homey_tool-IsOfTurn t.unverified o in
      elim (Bool-cases (is_text (codes "mcpToolCall") (str_at (at_item "type") message))) [
        | inr no_call ↦ (
          item quiet m (require_turn-IsOfTurn r) no_call,
          ground (
            arith,
            observe_homey_tool-no_call t.unverified r no_call o,
            delta_of-item message m,
            leaves_unverified-item message m,
            append-nil t.assistant_text,
          ),
        )
        | inl call ↦
            let (tool, s, e, v) = observe_homey_tool-on_tool t.unverified r call o in
            let (allowed, a) = on_tool-IsAllowedTool t.unverified v in
            (
              tool_call quiet m (require_turn-IsOfTurn r) s e allowed,
              ground (
                arith,
                delta_of-item message m,
                leaves_unverified-item message m,
                append-nil t.assistant_text,
              ),
            )
      ]

  known :
      (s method : Text)
      → method_of message ≡ some method
      → text_eq s method ≡ true
      → method_of message ≡ some s
  known s method m e = m ∙ ap some (sym ((text_eq_iff s method).0 e))

  -- The two ways in which a notification can be handled well.
  pub on_method-Passed :
      (method : Text) (t : Collected) {u : Collected}
      → method_of message ≡ some method
      → on_method thread_id turn_id connector message method t ≡ again u
      → Passed thread_id turn_id connector message × (u ≡ absorb t message)
  unfolding on_method
  on_method-Passed method t m h = elim (Bool-cases (text_eq agent_message_delta method)) [
    | inl e ↦ elim (CodexResult-cases (on_delta thread_id turn_id message t)) [
      | inl (v, o) ↦
          let (p, q) = on_delta-Passed t (known agent_message_delta method m e) o in
          (p, ground arith)
      | inr (x, o) ↦ ground arith
    ]
    | inr n ↦ elim (Bool-cases (text_eq item_completed method)) [
      | inl e ↦ elim (CodexResult-cases (on_item thread_id turn_id connector message t)) [
        | inl (v, o) ↦
            let (p, q) = on_item-Passed t (known item_completed method m e) o in (p, ground arith)
        | inr (x, o) ↦ ground arith
      ]
      | inr n' ↦ elim (Bool-cases (text_eq turn_completed method)) [
        | inl e ↦ ground arith
        | inr n'' ↦ (
          other quiet m n n' n'',
          ground (
            arith,
            absorb_nothing t message (delta_of-other message m n)
                (leaves_unverified-other message m n'),
          ),
        )
      ]
    ]
  ]

  pub on_method-Completes :
      (method : Text) (t : Collected) {text : Text}
      → method_of message ≡ some method
      → on_method thread_id turn_id connector message method t ≡ finish (ok text)
      → Completes thread_id turn_id connector message × (turn_result t ≡ ok text)
  unfolding on_method
  on_method-Completes method t m h = elim (Bool-cases (text_eq agent_message_delta method)) [
    | inl e ↦ elim (CodexResult-cases (on_delta thread_id turn_id message t)) [
      | inl (v, o) ↦ ground arith
      | inr (x, o) ↦ ground arith
    ]
    | inr n ↦ elim (Bool-cases (text_eq item_completed method)) [
      | inl e ↦ elim (CodexResult-cases (on_item thread_id turn_id connector message t)) [
        | inl (v, o) ↦ ground arith
        | inr (x, o) ↦ ground arith
      ]
      | inr n' ↦ elim (Bool-cases (text_eq turn_completed method)) [
        | inr e ↦ ground arith
        | inl e ↦ on_completed-Completes t (known turn_completed method m e) (ground arith)
      ]
    ]
  ]
