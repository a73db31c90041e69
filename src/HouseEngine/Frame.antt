-- ===== src/HouseEngine/Frame.antt =====
-- What a request may change before it waits: the store, and by a spawn the locks and the works.
use alice_llm_bridge.Base.{
  ℤ, true, false, ◌&&◌, ◌≡◌, refl, ◌∙◌, Option, none, some, List, ◌∷◌, Bool-cases, inl, inr, concat,
  is_empty,
}
use alice_llm_bridge.Base.Text.{Text, trim}
use alice_llm_bridge.Reply.{ContinuationDecision, continue, stop, empty}
use alice_llm_bridge.Household.{
  SurfaceIdentity, HouseContext, SurfaceResolution, bound, pairing_required, unauthorized,
  PendingReply, thinking, ready, Result, ok, err, HouseholdStore, HouseRuntime,
}
use alice_llm_bridge.HouseEngine.{
  Flow, reply, next, M, ◌>>=◌, HouseholdReply, busy, HouseholdEngine, HouseholdInput, World, Work,
  W, try, or_internal, resolve, on_resolution, shape_and_save, on_decision, on_continuation,
  on_pending, greet, spawn, admit, is_locked, first_phase, settle, save_late, expire, on_marked,
  advance, to_phase, Phase, starting, saving, turning, finished,
}
use alice_llm_bridge.HouseEngine.Request

-- Nothing but the store differs.
pub record SameButStore {S R : Type 0} (w w' : World S R) : Type 0 where
  pub server : w'.server ≡ w.server
  pub locks : w'.locks ≡ w.locks
  pub works : w'.works ≡ w.works

pub SameButStore-refl : {S R : Type 0} (w : World S R) → SameButStore w w
SameButStore-refl w = record { server = refl; locks = refl; works = refl }

pub SameButStore-trans :
    {S R : Type 0} {u v w : World S R} → SameButStore u v → SameButStore v w → SameButStore u w
SameButStore-trans a b = record {
  server = b.server ∙ a.server;
  locks = b.locks ∙ a.locks;
  works = b.works ∙ a.works;
}

-- An action that changes nothing but the store, whether it answers or goes on.
pub record Frames {ℓ} {S R : Type 0} {A : Type ℓ} (m : M (World S R) A) : Type ℓ where
  pub at : (w : World S R) → SameButStore w (m w).1

module _ {S R : Type 0} where
  Frames-pure {ℓ} : {A : Type ℓ} (a : A) → Frames (Request.pure {W = World S R} a)
  Frames-pure a = record { at = λ w. SameButStore-refl w }

  Frames-answer {ℓ} :
      {A : Type ℓ} (r : HouseholdReply) → Frames (Request.answer {W = World S R} {A = A} r)
  Frames-answer r = record { at = λ w. SameButStore-refl w }

  chain-frame {ℓ κ} :
      {A : Type ℓ} {B : Type κ} (x : Flow A × World S R) (w : World S R) (f : A → M (World S R) B)
      → SameButStore w x.1
      → ((a : A) → Frames (f a))
      → SameButStore w (Request.chain x f).1
  chain-frame (reply r, v) w f same frames = same
  chain-frame (next a, v) w f same frames = SameButStore-trans same ((frames a).at v)

  Frames-bind {ℓ κ} :
      {A : Type ℓ} {B : Type κ} (m : M (World S R) A) (f : A → M (World S R) B)
      → Frames m
      → ((a : A) → Frames (f a))
      → Frames (m >>= f)
  Frames-bind m f fm ff = record { at = λ w. chain-frame (m w) w f (fm.at w) ff }

module _ (store : HouseholdStore) (runtime : HouseRuntime) (engine : HouseholdEngine) where
  or_internal-frame {ℓ} :
      {A : Type ℓ} (r : Result A) (w : W store runtime engine)
      → SameButStore w (or_internal store runtime engine (r, w)).1
  or_internal-frame (ok a) w = SameButStore-refl w
  or_internal-frame (err e) w = SameButStore-refl w

  Frames-try {ℓ} :
      {A : Type ℓ} (call : store.State → Result A × store.State)
      → Frames (try store runtime engine call)
  Frames-try call = record {
    at = λ w.
        SameButStore-trans (record { server = refl; locks = refl; works = refl })
          (or_internal-frame (call w.store).0 (record w { store = (call w.store).1 }));
  }

  Frames-resolve : (identity : SurfaceIdentity) → Frames (resolve store runtime engine identity)
  unfolding resolve
  Frames-resolve identity = record {
    at = λ w.
        resolved w (try store runtime engine (store.resolve_surface identity) w)
          ((Frames-try (store.resolve_surface identity)).at w);
  }
    where
      resolved :
          (w : W store runtime engine) (x : Flow SurfaceResolution × W store runtime engine)
          → SameButStore w x.1
          → SameButStore w (on_resolution store runtime engine x).1
      resolved w (next (bound house), v) same = same
      resolved w (next (pairing_required code), v) same = same
      resolved w (next unauthorized, v) same = same
      resolved w (reply r, v) same = same

  Frames-shape_and_save :
      (id : ℤ) (app text : Text) → Frames (shape_and_save store runtime engine id app text)
  unfolding shape_and_save
  Frames-shape_and_save id app text = Frames-bind _ _ (Frames-try _) (λ _. Frames-pure _)

  Frames-on_decision :
      (d : ContinuationDecision) (id : ℤ) (app : Text) (chunks : List Text)
      → Frames (on_decision store runtime engine d id app chunks)
  Frames-on_decision stop id app chunks = Frames-pure _
  Frames-on_decision empty id app chunks = Frames-bind _ _ (Frames-try _) (λ _. Frames-pure _)
  Frames-on_decision continue id app chunks = Frames-shape_and_save id app (concat chunks)

  Frames-on_continuation :
      (id : ℤ) (app utterance : Text) (chunks : Option (List Text))
      → Frames (on_continuation store runtime engine id app utterance chunks)
  unfolding on_continuation
  Frames-on_continuation id app utterance none = Frames-pure _
  Frames-on_continuation id app utterance (some chunks) =
      Frames-bind _ _ (Frames-on_decision _ id app chunks) Frames-answer

  Frames-on_pending :
      (id : ℤ) (app : Text) (p : PendingReply) → Frames (on_pending store runtime engine id app p)
  unfolding on_pending
  Frames-on_pending id app PendingReply.none = Frames-pure _
  Frames-on_pending id app thinking = Frames-answer _
  Frames-on_pending id app (ready text) =
      Frames-bind _ _
        (Frames-bind _ _ (Frames-shape_and_save id app text) (λ spoken.
          Frames-bind _ _ (Frames-try (store.clear_pending id app)) (λ _. Frames-pure spoken)))
        Frames-answer

  Frames-greet : (input : HouseholdInput) → Frames (greet store runtime engine input)
  unfolding greet
  Frames-greet input = record {
    at = λ w. elim (Bool-cases (input.new_session && is_empty (trim input.utterance))) [
      | inl e ↦ rw e (SameButStore-refl w)
      | inr e ↦ rw e (SameButStore-refl w)
    ];
  }

  -- How a request ends before it waits: it is answered, and only the store has changed; or the
  -- mutex of its house was free, and the work is spawned and holds it.
  pub data Admitted (w : W store runtime engine)
      : Flow (Unit {0}) × W store runtime engine → Type 0 where
    answered :
        (r : HouseholdReply) (v : W store runtime engine)
        → SameButStore w v
        → Admitted w (reply r, v)
    started :
        (work : Work) (v : W store runtime engine)
        → v.server ≡ w.server
        → is_locked work.house.id w.locks ≡ false
        → v.locks ≡ work.house.id ∷ w.locks
        → v.works ≡ work ∷ w.works
        → work.phase ≡ first_phase work.house
        → work.awaited ≡ true
        → Admitted w (next tt, v)

  Admitted-after :
      {w v : W store runtime engine} {x : Flow (Unit {0}) × W store runtime engine}
      → SameButStore w v
      → Admitted v x
      → Admitted w x
  Admitted-after same (answered r u s) = answered r u (SameButStore-trans same s)
  Admitted-after same (started work u server free locks works phase awaited) =
      started work u (server ∙ same.server) (rw (← same.locks) free) (rw (← same.locks) locks)
        (rw (← same.works) works) phase awaited

  chain-Admitted {ℓ} :
      {A : Type ℓ} (x : Flow A × W store runtime engine) (w : W store runtime engine)
      (f : A → M (W store runtime engine) (Unit {0}))
      → SameButStore w x.1
      → ((a : A) (v : W store runtime engine) → Admitted v (f a v))
      → Admitted w (Request.chain x f)
  chain-Admitted (reply r, v) w f same rest = answered r v same
  chain-Admitted (next a, v) w f same rest = Admitted-after same (rest a v)

  bind-Admitted {ℓ} :
      {A : Type ℓ} (m : M (W store runtime engine) A)
      (f : A → M (W store runtime engine) (Unit {0}))
      → Frames m
      → ((a : A) (v : W store runtime engine) → Admitted v (f a v))
      → (w : W store runtime engine) → Admitted w ((m >>= f) w)
  bind-Admitted m f frames rest w = chain-Admitted (m w) w f (frames.at w) rest

  spawn-Admitted :
      (input : HouseholdInput) (house : HouseContext) (w : W store runtime engine)
      → Admitted w (spawn store runtime engine input house w)
  unfolding spawn
  spawn-Admitted input house w = elim (Bool-cases (is_locked house.id w.locks)) [
    | inl locked ↦ rw locked (answered busy w (SameButStore-refl w))
    | inr free ↦ rw free (started _ _ refl free refl refl refl refl)
  ]

  -- Before it waits, a request changes nothing but the store when it is answered, and calls no
  -- server in any case; a work is spawned only for a house whose mutex is free, and locks it.
  pub admit-Admitted :
      (input : HouseholdInput) (w : W store runtime engine)
      → Admitted w (admit store runtime engine input w)
  unfolding admit
  admit-Admitted input = bind-Admitted _ _ (Frames-resolve input.identity) λ house.
      bind-Admitted _ _
        (Frames-try (store.take_continuation house.id input.identity.application_id))
        λ chunks.
          bind-Admitted _ _
            (Frames-on_continuation house.id input.identity.application_id input.utterance chunks)
            λ _.
              bind-Admitted _ _
                (Frames-try (store.poll_pending house.id input.identity.application_id))
                λ pending.
                  bind-Admitted _ _
                    (Frames-on_pending house.id input.identity.application_id pending)
                    λ _. bind-Admitted _ _ (Frames-greet input) λ _. spawn-Admitted input house

  pub Frames-settle :
      (work : Work) (outcome : Option Text) → Frames (settle store runtime engine work outcome)
  unfolding settle
  Frames-settle work (some text) = Frames-shape_and_save work.house.id work.application_id text
  Frames-settle work none = Frames-answer _

  pub save_late-frame :
      (work : Work) (outcome : Option Text) (w : W store runtime engine)
      → SameButStore w (save_late store runtime engine work outcome w)
  unfolding save_late
  save_late-frame work (some text) w = record { server = refl; locks = refl; works = refl }
  save_late-frame work none w = record { server = refl; locks = refl; works = refl }

  pub expire-frame :
      (work : Work) (w : W store runtime engine)
      → SameButStore w (expire store runtime engine work w).2
  unfolding expire
  expire-frame work w =
      marked (store.mark_thinking work.house.id work.application_id w.store).0 _
        (record { server = refl; locks = refl; works = refl })
    where
      marked :
          (r : Result (Unit {0})) (v : W store runtime engine)
          → SameButStore w v
          → SameButStore w (on_marked store runtime engine (r, v)).2
      marked (ok _) v same = same
      marked (err _) v same = same

  -- The locks and the works are as before.
  abbrev pub SameLocks : W store runtime engine → W store runtime engine → Type 0
  SameLocks w v = (v.locks ≡ w.locks) × (v.works ≡ w.works)

  to_phase-frame {ℓ} :
      {A : Type ℓ} (f : A → Phase) (r : Result A) (w v : W store runtime engine)
      → SameLocks w v
      → SameLocks w (to_phase store runtime engine f (r, v)).1
  to_phase-frame f (ok a) w v same = same
  to_phase-frame f (err e) w v same = same

  -- One await of a work leaves the locks and the works.
  pub advance-frame :
      (work : Work) (w : W store runtime engine)
      → SameLocks w (advance store runtime engine work w).1
  unfolding advance
  advance-frame work w = phases work.phase refl
    where
      phases : (p : Phase) → work.phase ≡ p → SameLocks w (advance store runtime engine work w).1
      phases starting e = rw e (to_phase-frame _ _ w _ (refl, refl))
      phases (saving thread_id) e = rw e (to_phase-frame _ _ w _ (refl, refl))
      phases (turning thread_id) e = rw e (to_phase-frame _ _ w _ (refl, refl))
      phases (finished outcome) e = rw e (refl, refl)
