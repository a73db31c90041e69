-- ===== src/Llm.antt =====
-- crates/llm-providers: the types of a chat with a model, and the client of an OpenAI-compatible
-- endpoint. HTTP and the decoding of a body are parameters; so are floats.
use alice_llm_bridge.Base.{
  ℕ, ◌==◌, leb, Bool, true, false, ◌&&◌, ◌||◌, if◌then◌else◌, Option, none, some, List, [], ◌∷◌,
  ◌++◌,
}
use alice_llm_bridge.Base.Text.{Text, codes, trim_end_matches}

pub data Role : Type 0 where
  system user assistant : Role

pub record ChatMessage : Type 0 where
  pub role : Role
  pub content : Text

-- `ChatMessage::system`, `user` and `assistant`
abbrev pub chat_message : Role → Text → ChatMessage
chat_message role content = record { role = role; content = content }

pub record ChatRequest (F : Type 0) : Type 0 where
  pub model : Text
  pub messages : List ChatMessage
  pub max_tokens : ℕ
  pub temperature : F

pub record TokenUsage : Type 0 where
  pub prompt_tokens : ℕ
  pub completion_tokens : ℕ

pub record ChatCompletion : Type 0 where
  pub text : Text
  pub usage : TokenUsage

pub data ProviderError : Type 0 where
  timeout rate_limited auth : ProviderError
  api : (status : ℕ) → (message : Text) → ProviderError
  network invalid_response : Text → ProviderError

pub data ChatResult (A : Type 0) : Type 0 where
  ok : A → ChatResult A
  err : ProviderError → ChatResult A

-- What a request to the endpoint comes to: no response, or one with a status and a body.
pub data Sent : Type 0 where
  timed_out : Sent
  unsent : (why : Text) → Sent
  received : (status : ℕ) → (body : Text) → Sent

-- `ApiResponse`: the texts of its choices, and the usage; or why the body is none.
pub record ApiResponse : Type 0 where
  pub choices : List Text
  pub usage : Option TokenUsage

pub data Decoded : Type 0 where
  decoded : ApiResponse → Decoded
  undecoded : (why : Text) → Decoded

-- The URL that `OpenAiCompatClient::new` makes.
unfoldable pub chat_url : Text → Text
chat_url base_url = trim_end_matches (λ c. c == b'/') base_url ++ codes "/chat/completions"

unfoldable pub is_success : ℕ → Bool
is_success status = leb 200 status && leb status 299

unfoldable pub status_error : ℕ → Text → ProviderError
status_error status message =
    if status == 401 || status == 403
    then auth
    else if status == 429
    then rate_limited
    else api status message

abbrev pub usage_or_default : Option TokenUsage → TokenUsage
usage_or_default none = record { prompt_tokens = 0; completion_tokens = 0 }
usage_or_default (some usage) = usage

abbrev pub completion_of : Decoded → ChatResult ChatCompletion
completion_of (undecoded why) = err (invalid_response why)
completion_of (decoded r) = elim r.choices [
  | [] ↦ err (invalid_response (codes "empty choices"))
  | text ∷ _ ↦ ok (record { text = text; usage = usage_or_default r.usage })
]

unfoldable pub is_retryable : ProviderError → Bool
is_retryable (network _) = true
is_retryable (api status _) = leb 500 status && leb status 599
is_retryable _ = false

-- The endpoint behind the client: what it does with a request, and how a body is decoded.
pub record Endpoint (F : Type 0) : Type 1 where
  pub State : Type 0
  pub post : (url api_key : Text) → ChatRequest F → State → Sent × State
  pub decode : Text → Decoded

module _ {F : Type 0} (endpoint : Endpoint F) where
  -- `OpenAiCompatClient`
  pub record OpenAiCompatClient : Type 0 where
    pub url : Text
    pub api_key : Text

  -- `classify_transport_error`, the status, and the body
  unfoldable pub classify : Sent → ChatResult ChatCompletion
  unfolding is_success status_error
  classify timed_out = err timeout
  classify (unsent why) = err (network why)
  classify (received status body) =
      if is_success status
      then completion_of (endpoint.decode body)
      else err (status_error status body)

  abbrev classified : Sent × endpoint.State → ChatResult ChatCompletion × endpoint.State
  classified (sent, s) = (classify sent, s)

  unfoldable pub send_once :
      OpenAiCompatClient
      → ChatRequest F
      → endpoint.State
      → ChatResult ChatCompletion × endpoint.State
  unfolding classify
  send_once client request s = classified (endpoint.post client.url client.api_key request s)

  abbrev retried :
      OpenAiCompatClient
      → ChatRequest F
      → ChatResult ChatCompletion × endpoint.State
      → ChatResult ChatCompletion × endpoint.State
  retried client request (ok completion, s) = (ok completion, s)
  retried client request (err e, s) =
      if is_retryable e then send_once client request s else (err e, s)

  -- `ChatProvider::chat`
  unfoldable pub chat :
      OpenAiCompatClient
      → ChatRequest F
      → endpoint.State
      → ChatResult ChatCompletion × endpoint.State
  unfolding send_once is_retryable
  chat client request s = retried client request (send_once client request s)
