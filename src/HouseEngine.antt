-- ===== src/HouseEngine.antt =====
-- crates/bridge-core/src/house_engine.rs: one request of a surface of a house, the work that it
-- starts, and what becomes of an answer that misses the deadline. The proofs stand below.
pub mod Request
pub mod Frame
pub mod Steps
pub mod Exclusion
pub mod Served
pub mod Delivery
pub mod Late
pub use Request.{
  Flow, reply, next, M, ◌>>=◌, ◌>>◌, HouseholdReply, say, refuse, pairing, busy, internal_error,
}
use Request
use alice_llm_bridge.Base.{
  ℤ, int_eq, Bool, true, false, not, ◌&&◌, if◌then◌else◌, Option, none, some, List, [], ◌∷◌, ◌++◌,
  any, concat, is_empty, ℕ,
}
use alice_llm_bridge.Base.Text.{Text, codes, trim}
use alice_llm_bridge.Reply.{
  ReplyShaper, shaper_new, split, ContinuationDecision, continue, stop, empty, from_utterance,
}
use alice_llm_bridge.Household.{
  SurfaceIdentity, HouseContext, SurfaceResolution, bound, pairing_required, unauthorized,
  PendingReply, thinking, ready, Result, ok, err, HouseholdStore, HouseRuntime,
  build_house_instructions,
}

unfoldable pub still_thinking : Text
still_thinking = codes "Я ещё думаю. Спросите меня через несколько секунд."

unfoldable pub greeting : Text
greeting = codes "Здравствуйте. Чем помочь?"

unfoldable pub agreed : Text
agreed = codes "Хорошо."

unfoldable pub continue_question : Text
continue_question = codes "Скажите, продолжать?"

-- `reply_budget` is in milliseconds; when it runs out is an event, below.
pub record HouseholdEngineConfig : Type 0 where
  pub reply_budget : ℕ
  pub chunk_limit : ℕ
  pub homey_enabled : Bool

pub record HouseholdInput : Type 0 where
  pub identity : SurfaceIdentity
  pub utterance : Text
  pub new_session : Bool

-- What stays the same in `HouseholdEngine`; `to_lowercase` is Unicode's mapping.
pub record HouseholdEngine : Type 0 where
  pub shaper : ReplyShaper
  pub config : HouseholdEngineConfig
  pub to_lowercase : Text → Text

-- `HouseholdEngine::new`; `none` is the panic of `ReplyShaper::new`
unfoldable pub engine_new : (Text → Text) → HouseholdEngineConfig → Option HouseholdEngine
unfolding shaper_new
engine_new to_lowercase config = elim (shaper_new config.chunk_limit) [
  | none ↦ none
  | some shaper ↦ some (record { shaper = shaper; config = config; to_lowercase = to_lowercase })
]

-- How far the spawned work has come: the await points of its block. `finished none` is an error.
pub data Phase : Type 0 where
  starting : Phase
  saving : (thread_id : Text) → Phase
  turning : (thread_id : Text) → Phase
  finished : Option Text → Phase

-- A spawned work. `awaited` says that its request still waits for it; otherwise the second task,
-- which saves a late answer, does.
pub record Work : Type 0 where
  pub house : HouseContext
  pub application_id : Text
  pub utterance : Text
  pub instructions : Text
  pub phase : Phase
  pub awaited : Bool

-- The store, the server behind the runtime, the houses whose mutex is locked, and the works.
pub record World (S R : Type 0) : Type 0 where
  pub store : S
  pub server : R
  pub locks : List ℤ
  pub works : List Work

abbrev pub is_locked : ℤ → List ℤ → Bool
is_locked id locks = any (int_eq id) locks

-- dropping the guard of a house
unfoldable pub unlock : ℤ → List ℤ → List ℤ
unlock id [] = []
unlock id (i ∷ locks) = let rest = unlock id locks in if int_eq id i then rest else i ∷ rest

-- `let thread_id = if let Some(thread_id) = codex_thread_id { … } else { start_thread … }`
abbrev pub first_phase : HouseContext → Phase
first_phase house = elim house.codex_thread_id [
  | none ↦ starting
  | some thread_id ↦ turning thread_id
]

module _ (store : HouseholdStore) (runtime : HouseRuntime) (engine : HouseholdEngine) where
  abbrev pub W : Type 0
  W = World store.State runtime.State

  -- a call of the store, in the world
  abbrev pub stored {ℓ} : {A : Type ℓ} → W → A × store.State → A × W
  stored w (a, s) = (a, record w { store = s })

  -- `Err(_) => return HouseholdReply::InternalError`
  abbrev pub or_internal {ℓ} : {A : Type ℓ} → Result A × W → Flow A × W
  or_internal (ok a, w) = (next a, w)
  or_internal (err _, w) = (reply internal_error, w)

  abbrev pub try {ℓ} : {A : Type ℓ} → (store.State → Result A × store.State) → M W A
  try call w = or_internal (stored w (call w.store))

  abbrev pub on_resolution : Flow SurfaceResolution × W → Flow HouseContext × W
  on_resolution (next (bound house), w) = (next house, w)
  on_resolution (next (pairing_required code), w) = (reply (pairing code), w)
  on_resolution (next unauthorized, w) = (reply refuse, w)
  on_resolution (reply r, w) = (reply r, w)

  unfoldable pub resolve : SurfaceIdentity → M W HouseContext
  resolve identity w = on_resolution (try (store.resolve_surface identity) w)

  -- `shape_and_save`
  unfoldable pub shape_and_save : ℤ → Text → Text → M W HouseholdReply
  shape_and_save house_id application_id text =
      let shaped = split engine.shaper text in
      do
        try (store.save_continuation house_id application_id shaped.remaining)
        Request.pure (say shaped.spoken)

  abbrev pub on_decision : ContinuationDecision → ℤ → Text → List Text → M W HouseholdReply
  on_decision stop house_id application_id chunks = Request.pure (say agreed)
  on_decision empty house_id application_id chunks = do
    try (store.save_continuation house_id application_id chunks)
    Request.pure (say continue_question)
  on_decision continue house_id application_id chunks =
      shape_and_save house_id application_id (concat chunks)

  -- `answer_continuation`
  unfoldable pub answer_continuation : ℤ → Text → Text → List Text → M W HouseholdReply
  answer_continuation house_id application_id utterance chunks =
      on_decision (from_utterance engine.to_lowercase utterance) house_id application_id chunks

  -- the first match of `respond`: chunks that were kept answer the request
  unfoldable pub on_continuation : ℤ → Text → Text → Option (List Text) → M W (Unit {0})
  unfolding answer_continuation
  on_continuation house_id application_id utterance none = Request.pure tt
  on_continuation house_id application_id utterance (some chunks) =
      Request.return_ (answer_continuation house_id application_id utterance chunks)

  -- a reply that is ready is cleared once it is shaped and kept
  abbrev pub deliver : ℤ → Text → Text → M W HouseholdReply
  deliver house_id application_id text = do
    spoken ← shape_and_save house_id application_id text
    try (store.clear_pending house_id application_id)
    Request.pure spoken

  -- the second match
  unfoldable pub on_pending : ℤ → Text → PendingReply → M W (Unit {0})
  unfolding shape_and_save
  on_pending house_id application_id PendingReply.none = Request.pure tt
  on_pending house_id application_id thinking = Request.answer (say still_thinking)
  on_pending house_id application_id (ready text) =
      Request.return_ (deliver house_id application_id text)

  unfoldable pub greet : HouseholdInput → M W (Unit {0})
  greet input =
      if input.new_session && is_empty (trim input.utterance)
      then Request.answer (say greeting)
      else Request.pure tt

  -- `try_lock_owned`, and `tokio::spawn` of the work, which owns the guard
  unfoldable pub spawn : HouseholdInput → HouseContext → M W (Unit {0})
  spawn input house w = if is_locked house.id w.locks then (reply busy, w) else (
    next tt,
    record w {
      locks = house.id ∷ w.locks;
      works =
          record {
            house = house;
            application_id = input.identity.application_id;
            utterance = input.utterance;
            instructions = build_house_instructions house engine.config.homey_enabled;
            phase = first_phase house;
            awaited = true;
          }
          ∷ w.works;
    },
  )

  -- `respond`, up to the wait for the work
  unfoldable pub admit : HouseholdInput → M W (Unit {0})
  admit input = do
    let application_id = input.identity.application_id
    house ← resolve input.identity
    chunks ← try (store.take_continuation house.id application_id)
    on_continuation house.id application_id input.utterance chunks
    pending ← try (store.poll_pending house.id application_id)
    on_pending house.id application_id pending
    greet input
    spawn input house

  abbrev pub to_phase {ℓ} : {A : Type ℓ} → (A → Phase) → Result A × W → Phase × W
  to_phase f (ok a, w) = (f a, w)
  to_phase f (err _, w) = (finished none, w)

  abbrev pub served {ℓ} : {A : Type ℓ} → W → A × runtime.State → A × W
  served w (a, r) = (a, record w { server = r })

  -- One await of the work's block: start a thread, save its id, run the turn.
  unfoldable pub advance : Work → W → Phase × W
  advance work w = elim work.phase [
    | starting ↦
        to_phase saving (served w (runtime.start_thread work.house work.instructions w.server))
    | saving thread_id ↦
        to_phase (λ _. turning thread_id)
          (stored w (store.save_thread_id work.house.id thread_id w.store))
    | turning thread_id ↦
        to_phase (λ text. finished (some text))
          (served w (runtime.turn work.house thread_id work.utterance w.server))
    | finished outcome ↦ (finished outcome, w)
  ]

  -- The work ended within the budget.
  unfoldable pub settle : Work → Option Text → M W HouseholdReply
  unfolding shape_and_save
  settle work (some text) = shape_and_save work.house.id work.application_id text
  settle work none = Request.answer internal_error

  -- The budget ran out: `true` if the work goes on for a later request, `false` if it is aborted.
  abbrev pub on_marked : Result (Unit {0}) × W → HouseholdReply × Bool × W
  on_marked (ok _, w) = (say still_thinking, true, w)
  on_marked (err _, w) = (internal_error, false, w)

  unfoldable pub expire : Work → W → HouseholdReply × Bool × W
  expire work w =
      on_marked (stored w (store.mark_thinking work.house.id work.application_id w.store))

  -- The second task: a late answer is saved for the surface that asked, a failure clears the mark.
  -- What the store returns is ignored.
  unfoldable pub save_late : Work → Option Text → W → W
  save_late work (some text) w =
      (stored w (store.save_ready work.house.id work.application_id text w.store)).1
  save_late work none w =
      (stored w (store.clear_pending work.house.id work.application_id w.store)).1
