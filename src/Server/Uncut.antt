-- ===== src/Server/Uncut.antt =====
-- The replies of a household engine within the limit of the protocol.
use alice_llm_bridge.Base.{
  ℤ, ◌&&◌, ◌≤◌, Option, none, some, List, length, concat, is_empty, arith, Bool-cases, inl, inr,
}
use alice_llm_bridge.Base.Text.{Text, trim}
use alice_llm_bridge.Reply.{split, ContinuationDecision, continue, stop, empty}
use alice_llm_bridge.Reply.Shaper.{HasRoom, split-le_limit}
use alice_llm_bridge.Household.{
  SurfaceIdentity, HouseContext, SurfaceResolution, bound, pairing_required, unauthorized,
  PendingReply, thinking, ready, Result, ok, err, HouseholdStore, HouseRuntime,
}
use alice_llm_bridge.HouseEngine.{
  Flow, reply, next, M, ◌>>=◌, HouseholdReply, say, refuse, pairing, busy, internal_error,
  HouseholdEngine, HouseholdInput, Work, W, try, or_internal, resolve, on_resolution,
  shape_and_save, on_decision, on_continuation, on_pending, greet, spawn, admit, is_locked, settle,
  expire, on_marked, still_thinking, greeting, agreed, continue_question,
}
use alice_llm_bridge.HouseEngine.Request
use alice_llm_bridge.Alice.{max_text_len}

-- What is said fits in a reply of the protocol.
abbrev pub IsShort : HouseholdReply → Type 0
IsShort (say text) = length text ≤ max_text_len
IsShort refuse = Unit
IsShort (pairing code) = Unit
IsShort busy = Unit
IsShort internal_error = Unit

abbrev pub Short : {A : Type 0} → (A → Type 0) → Flow A → Type 0
Short P (reply r) = IsShort r
Short P (next a) = P a

abbrev Anything : {A : Type 0} → A → Type 0
Anything _ = Unit

fixed-short :
    (length still_thinking ≤ max_text_len)
    × (length greeting ≤ max_text_len)
    × (length agreed ≤ max_text_len)
    × (length continue_question ≤ max_text_len)
unfolding still_thinking greeting agreed continue_question
fixed-short = (omega arith, omega arith, omega arith, omega arith)

-- An action that says nothing longer, and goes on with what `P` holds of.
record Speaks {W A : Type 0} (P : A → Type 0) (m : M W A) : Type 0 where
  at : (w : W) → Short P (m w).0

module _ {W : Type 0} where
  chain-Short :
      {A B : Type 0} {P : A → Type 0} {Q : B → Type 0} (x : Flow A × W) (f : A → M W B)
      → Short P x.0
      → ((a : A) → P a → Speaks Q (f a))
      → Short Q (Request.chain x f).0
  chain-Short (reply r, w) f short speaks = short
  chain-Short (next a, w) f p speaks = (speaks a p).at w

  Speaks-bind :
      {A B : Type 0} (P : A → Type 0) {Q : B → Type 0} (m : M W A) (f : A → M W B)
      → Speaks P m
      → ((a : A) → P a → Speaks Q (f a))
      → Speaks Q (m >>= f)
  Speaks-bind P m f sm sf = record { at = λ w. chain-Short (m w) f (sm.at w) sf }

  Speaks-pure : {A : Type 0} {P : A → Type 0} (a : A) → P a → Speaks P (Request.pure {W = W} a)
  Speaks-pure a p = record { at = λ w. p }

  Speaks-answer :
      {A : Type 0} {P : A → Type 0} (r : HouseholdReply)
      → IsShort r
      → Speaks P (Request.answer {W = W} {A = A} r)
  Speaks-answer r short = record { at = λ w. short }

module _ (store : HouseholdStore) (runtime : HouseRuntime) (engine : HouseholdEngine)
    (room : HasRoom engine.shaper) (fits : engine.shaper.limit ≤ max_text_len) where
  or_internal-Short :
      {A : Type 0} (r : Result A) (w : W store runtime engine)
      → Short Anything (or_internal store runtime engine (r, w)).0
  or_internal-Short (ok a) w = tt
  or_internal-Short (err e) w = tt

  Speaks-try :
      {A : Type 0} (call : store.State → Result A × store.State)
      → Speaks Anything (try store runtime engine call)
  Speaks-try call = record { at = λ w. or_internal-Short (call w.store).0 _ }

  Speaks-resolve :
      (identity : SurfaceIdentity) → Speaks Anything (resolve store runtime engine identity)
  unfolding resolve
  Speaks-resolve identity = record {
    at = λ w.
        resolved (try store runtime engine (store.resolve_surface identity) w)
          ((Speaks-try (store.resolve_surface identity)).at w);
  }
    where
      resolved :
          (x : Flow SurfaceResolution × W store runtime engine)
          → Short Anything x.0
          → Short Anything (on_resolution store runtime engine x).0
      resolved (next (bound house), v) short = tt
      resolved (next (pairing_required code), v) short = tt
      resolved (next unauthorized, v) short = tt
      resolved (reply r, v) short = short

  Speaks-shape_and_save :
      (id : ℤ) (app text : Text) → Speaks IsShort (shape_and_save store runtime engine id app text)
  unfolding shape_and_save
  Speaks-shape_and_save id app text = Speaks-bind Anything _ _ (Speaks-try _) (λ _ _.
      Speaks-pure (say (split engine.shaper text).spoken)
        (omega (arith, fits, split-le_limit engine.shaper room text)))

  Speaks-on_decision :
      (d : ContinuationDecision) (id : ℤ) (app : Text) (chunks : List Text)
      → Speaks IsShort (on_decision store runtime engine d id app chunks)
  Speaks-on_decision stop id app chunks = Speaks-pure _ fixed-short.2
  Speaks-on_decision empty id app chunks =
      Speaks-bind Anything _ _ (Speaks-try (store.save_continuation id app chunks))
        (λ _ _. Speaks-pure (say continue_question) fixed-short.3)
  Speaks-on_decision continue id app chunks = Speaks-shape_and_save id app (concat chunks)

  Speaks-on_continuation :
      (id : ℤ) (app utterance : Text) (chunks : Option (List Text))
      → Speaks Anything (on_continuation store runtime engine id app utterance chunks)
  unfolding on_continuation
  Speaks-on_continuation id app utterance none = Speaks-pure _ tt
  Speaks-on_continuation id app utterance (some chunks) =
      Speaks-bind IsShort _ _ (Speaks-on_decision _ id app chunks) Speaks-answer

  Speaks-on_pending :
      (id : ℤ) (app : Text) (p : PendingReply)
      → Speaks Anything (on_pending store runtime engine id app p)
  unfolding on_pending
  Speaks-on_pending id app PendingReply.none = Speaks-pure _ tt
  Speaks-on_pending id app thinking = Speaks-answer _ fixed-short.0
  Speaks-on_pending id app (ready text) =
      Speaks-bind IsShort _ _
        (Speaks-bind IsShort _ _ (Speaks-shape_and_save id app text) (λ spoken short.
          Speaks-bind Anything _ _ (Speaks-try (store.clear_pending id app))
            (λ _ _. Speaks-pure spoken short)))
        Speaks-answer

  Speaks-greet : (input : HouseholdInput) → Speaks Anything (greet store runtime engine input)
  unfolding greet
  Speaks-greet input = record {
    at = λ w. elim (Bool-cases (input.new_session && is_empty (trim input.utterance))) [
      | inl e ↦ rw e fixed-short.1
      | inr e ↦ rw e tt
    ];
  }

  Speaks-spawn :
      (input : HouseholdInput) (house : HouseContext)
      → Speaks Anything (spawn store runtime engine input house)
  unfolding spawn
  Speaks-spawn input house = record {
    at = λ w. elim (Bool-cases (is_locked house.id w.locks)) [
      | inl locked ↦ rw locked tt
      | inr free ↦ rw free tt
    ];
  }

  Speaks-admit : (input : HouseholdInput) → Speaks Anything (admit store runtime engine input)
  unfolding admit
  Speaks-admit input =
      let app = input.identity.application_id in
      Speaks-bind Anything _ _ (Speaks-resolve input.identity) λ house _.
        Speaks-bind Anything _ _ (Speaks-try (store.take_continuation house.id app)) λ chunks _.
          Speaks-bind Anything _ _ (Speaks-on_continuation house.id app input.utterance chunks)
            λ _ _.
              Speaks-bind Anything _ _ (Speaks-try (store.poll_pending house.id app)) λ pending _.
                Speaks-bind Anything _ _ (Speaks-on_pending house.id app pending) λ _ _.
                  Speaks-bind Anything _ _ (Speaks-greet input) λ _ _. Speaks-spawn input house

  pub admit-Short :
      (input : HouseholdInput) (w : W store runtime engine)
      → Short Anything (admit store runtime engine input w).0
  admit-Short input w = (Speaks-admit input).at w

  pub settle-Short :
      (work : Work) (outcome : Option Text) (w : W store runtime engine)
      → Short IsShort (settle store runtime engine work outcome w).0
  unfolding settle
  settle-Short work (some text) w = (Speaks-shape_and_save _ _ text).at w
  settle-Short work none w = tt

  pub expire-IsShort :
      (work : Work) (w : W store runtime engine) → IsShort (expire store runtime engine work w).0
  unfolding expire
  expire-IsShort work w = marked (store.mark_thinking work.house.id work.application_id w.store).0 _
    where
      marked :
          (r : Result (Unit {0})) (v : W store runtime engine)
          → IsShort (on_marked store runtime engine (r, v)).0
      marked (ok _) v = fixed-short.0
      marked (err _) v = tt
