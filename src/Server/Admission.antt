-- ===== src/Server/Admission.antt =====
-- Which requests of the webhook reach an engine.
use alice_llm_bridge.Base.{
  true, false, ◌&&◌, ◌≡◌, ◌≢◌, ◌↔◌, ◌⊎◌, refl, Option, none, some, List, [], ◌∷◌, any, is_empty,
  arith, Bool-cases, inl, inr,
}
use alice_llm_bridge.Base.Text.{Text, text_eq, text_eq_iff, trim}
use alice_llm_bridge.Alice
use alice_llm_bridge.Alice.{WebhookRequest, AccountUser, say_and_close}
use alice_llm_bridge.Server.Routes.{
  SkillBackend, legacy, household, AppState, Dispatch, not_found, answered, handle, respond,
  greeting, refusal, household_refusal, or_application, is_allowed, dispatch, dispatch_legacy,
  dispatch_household, webhook,
}

abbrev pub Occurs : Text → List Text → Type 0
Occurs id [] = ⊥
Occurs id (x ∷ ids) = (x ≡ id) ⊎ Occurs id ids

-- The list of those who may ask names the user, or nobody.
abbrev pub MayAsk : AppState → Text → Type 0
MayAsk state user_id = (state.allowed_user_ids ≡ []) ⊎ Occurs user_id state.allowed_user_ids

any-Occurs : (id : Text) (ids : List Text) → (any (λ x. text_eq x id) ids ≡ true) ↔ Occurs id ids
any-Occurs id [] = ground arith
any-Occurs id (x ∷ ids) = ground (arith, any-Occurs id ids, text_eq_iff x id)

empty-is_empty : {A : Type 0} (xs : List A) → (is_empty xs ≡ true) ↔ (xs ≡ [])
empty-is_empty [] = ground arith
empty-is_empty (x ∷ xs) = ground arith

is_allowed-MayAsk :
    (state : AppState) (user_id : Text) → (is_allowed state user_id ≡ true) ↔ MayAsk state user_id
unfolding is_allowed
is_allowed-MayAsk state user_id =
    ground (arith, any-Occurs user_id state.allowed_user_ids, empty-is_empty state.allowed_user_ids)

-- How a request ends that has the secret or not, and what its sender has shown by then.
pub data Dispatched (state : AppState) (secret : Text) (request : WebhookRequest)
    : Dispatch → Type 0 where
  wrong_secret : secret ≢ state.webhook_secret → Dispatched state secret request not_found
  stranger :
      (user_id : Text)
      → secret ≡ state.webhook_secret
      → state.backend ≡ legacy
      → user_id ≡ or_application request.session.user request.session.application.application_id
      → ¬ MayAsk state user_id
      → Dispatched state secret request (answered (say_and_close refusal))
  greeted :
      (user_id : Text)
      → secret ≡ state.webhook_secret
      → state.backend ≡ legacy
      → user_id ≡ or_application request.session.user request.session.application.application_id
      → MayAsk state user_id
      → request.session.new_ ≡ true
      → trim request.request.original_utterance ≡ []
      → Dispatched state secret request (answered (Alice.say greeting))
  handled :
      (user_id : Text)
      → secret ≡ state.webhook_secret
      → state.backend ≡ legacy
      → user_id ≡ or_application request.session.user request.session.application.application_id
      → MayAsk state user_id
      → (request.session.new_ ≡ false) ⊎ (trim request.request.original_utterance ≢ [])
      → Dispatched state secret request (handle user_id (trim request.request.original_utterance))
  unlinked :
      secret ≡ state.webhook_secret
      → state.backend ≡ household
      → request.session.user ≡ none
      → Dispatched state secret request (answered (say_and_close household_refusal))
  responded :
      (user : AccountUser)
      → secret ≡ state.webhook_secret
      → state.backend ≡ household
      → request.session.user ≡ some user
      → Dispatched state secret request (
          respond (record {
            identity = record {
              user_id = user.user_id;
              application_id = request.session.application.application_id;
            };
            utterance = trim request.request.original_utterance;
            new_session = request.session.new_;
          }))

module _ (state : AppState) (secret : Text) (request : WebhookRequest)
    (right : secret ≡ state.webhook_secret) where
  legacy-Dispatched :
      (user_id : Text)
      → state.backend ≡ legacy
      → user_id ≡ or_application request.session.user request.session.application.application_id
      → Dispatched state secret request (dispatch_legacy state request user_id)
  legacy-Dispatched user_id b caller = elim (Bool-cases (is_allowed state user_id)) [
    | inr off ↦
        rw off (stranger user_id right b caller (ground (arith, is_allowed-MayAsk state user_id)))
    | inl on ↦
        let may : MayAsk state user_id = (is_allowed-MayAsk state user_id).0 on in
        elim (Bool-cases
          (request.session.new_ && is_empty (trim request.request.original_utterance))) [
            | inl opens ↦
                rw (on, opens)
                  (greeted user_id right b caller may (ground arith)
                    ((empty-is_empty (trim request.request.original_utterance)).0 (ground arith)))
            | inr asks ↦
                rw (on, asks)
                  (handled user_id right b caller may
                    (ground (arith, empty-is_empty (trim request.request.original_utterance))))
          ]
  ]

  household-Dispatched :
      (user : Option AccountUser)
      → state.backend ≡ household
      → request.session.user ≡ user
      → Dispatched state secret request (dispatch_household request user)
  household-Dispatched none b e = unlinked right b e
  household-Dispatched (some user) b e = responded user right b e

  backend-Dispatched :
      (backend : SkillBackend)
      → state.backend ≡ backend
      → Dispatched state secret request (dispatch state request backend)
  backend-Dispatched legacy b = legacy-Dispatched _ b refl
  backend-Dispatched household b = household-Dispatched _ b refl

-- Only a request with the secret reaches an engine: that of single users only for a user whom the
-- list of the allowed names, unless it is empty, and a household's only with a user. Each other
-- request has the answer of the first of these checks that it fails, and the start of a session
-- without words is greeted.
pub webhook-Dispatched :
    (state : AppState) (secret : Text) (request : WebhookRequest)
    → Dispatched state secret request (webhook state secret request)
unfolding webhook
webhook-Dispatched state secret request = elim (Bool-cases (text_eq secret state.webhook_secret)) [
  | inl same ↦ rw same (
      backend-Dispatched state secret request ((text_eq_iff secret state.webhook_secret).0 same)
        state.backend refl)
  | inr other ↦ rw other (wrong_secret (ground (arith, text_eq_iff secret state.webhook_secret)))
]
