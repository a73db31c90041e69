-- ===== src/Codex/Transport.antt =====
-- crates/codex-runtime/src/client.rs: the two transports, over the lines of a stream and over the
-- messages of a WebSocket. The sockets and serde_json are parameters.
use alice_llm_bridge.Base.{
  ℕ, ◌*◌, ltb, Bool, ◌&&◌, if◌then◌else◌, Option, none, some, List, [], ◌∷◌, length,
}
use alice_llm_bridge.Base.Text.{Text}
use alice_llm_bridge.Base.Utf8.{as_bytes, from_utf8}
use alice_llm_bridge.Json.{Value}
use alice_llm_bridge.Codex.{
  transport, end_of_stream, invalid_message, message_too_large, CodexResult, ok, err, ok_or,
}

abbrev pub max_jsonl_bytes : ℕ
max_jsonl_bytes = 1024 * 1024

-- A message of the WebSocket. `frame` is a raw one, which reading never gives.
pub data Message : Type 0 where
  text : Text → Message
  binary frame : List ℕ → Message
  ping pong : List ℕ → Message
  close : Message

-- `socket.next()`: a message, or a fault
pub data Received : Type 0 where
  message : Message → Received
  fault : Received

-- serde_json: what a text reads as, and how a value is written
pub record SerdeJson : Type 0 where
  pub from_str : Text → Option Value
  pub to_string : Value → Option Text

module _ (serde : SerdeJson) where
  abbrev pub parsed : Text → CodexResult Value
  parsed line = ok_or (serde.from_str line) invalid_message

  -- `JsonlTransport::read_message`: `line` is what `read_line` returns, `none` its fault.
  unfoldable pub read_line_message : Option (List ℕ) → CodexResult Value
  unfolding from_utf8
  read_line_message none = err transport
  read_line_message (some line) = elim (from_utf8 line) [
    | none ↦ err transport
    | some [] ↦ err end_of_stream
    | some (c ∷ s) ↦
        if ltb max_jsonl_bytes (length line) then err message_too_large else parsed (c ∷ s)
  ]

  -- `JsonlTransport::write_message`: whether each of the three calls succeeds is given.
  unfoldable pub write_line_message : (body newline flush : Bool) → Value → CodexResult (Unit {0})
  write_line_message body newline flush value = elim (serde.to_string value) [
    | none ↦ err invalid_message
    | some encoded ↦ if body && newline && flush then ok tt else err transport
  ]

  -- `WebSocketTransport::write_message`, with the outcome of `send`
  unfoldable pub write_text_message : (Text → Bool) → Value → CodexResult (Unit {0})
  unfolding as_bytes
  write_text_message send value = elim (serde.to_string value) [
    | none ↦ err invalid_message
    | some encoded ↦
        if ltb max_jsonl_bytes (length (as_bytes encoded))
        then err message_too_large
        else if send encoded
        then ok tt
        else err transport
  ]

  -- A text message is read unless it is too long.
  unfoldable pub read_text : Text → CodexResult Value
  unfolding as_bytes
  read_text line =
      if ltb max_jsonl_bytes (length (as_bytes line)) then err message_too_large else parsed line

  module _ (pong_sent : List ℕ → Bool) where
    -- `WebSocketTransport::read_message`: its result, and what is left of the stream
    unfoldable pub read_message : List Received → CodexResult Value × List Received
    unfolding read_text
    read_message [] = (err end_of_stream, [])
    read_message (fault ∷ rest) = (err transport, rest)
    read_message (message (text line) ∷ rest) = (read_text line, rest)
    read_message (message (ping payload) ∷ rest) =
        let next = read_message rest in if pong_sent payload then next else (err transport, rest)
    read_message (message (pong _) ∷ rest) = read_message rest
    read_message (message close ∷ rest) = (err end_of_stream, rest)
    read_message (message (binary _) ∷ rest) = (err invalid_message, rest)
    read_message (message (frame _) ∷ rest) = (err invalid_message, rest)
