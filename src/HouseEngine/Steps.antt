-- ===== src/HouseEngine/Steps.antt =====
-- The engine as a whole: requests, works, deadlines and late answers of all houses, interleaved.
-- A work goes on by one await at a step; what a request does up to its wait is one step, and so is
-- what it does behind the wait: in between it calls only the store.
use alice_llm_bridge.Base.{ℤ, Bool, true, false, if◌then◌else◌, ◌≡◌, Option, List, [], ◌∷◌, ◌++◌}
use alice_llm_bridge.Base.Text.{Text}
use alice_llm_bridge.Household.{HouseholdStore, HouseRuntime}
use alice_llm_bridge.HouseEngine.{
  HouseholdEngine, HouseholdInput, Work, W, Phase, finished, unlock, admit, advance, settle, expire,
  save_late,
}

-- The block of a work has not ended, so it holds its house's mutex.
abbrev pub is_live : Phase → Bool
is_live (finished outcome) = false
is_live _ = true

abbrev pub live_ids : List Work → List ℤ
live_ids [] = []
live_ids (work ∷ works) =
    if is_live work.phase then work.house.id ∷ live_ids works else live_ids works

module _ (store : HouseholdStore) (runtime : HouseRuntime) (engine : HouseholdEngine) where
  -- A work goes on by one await; when its block ends, the guard is dropped.
  unfoldable pub progress :
      List Work → Work → List Work → W store runtime engine → W store runtime engine
  progress before work after w =
      let (phase, v) = advance store runtime engine work w in
      record v {
        locks = if is_live phase then v.locks else unlock work.house.id v.locks;
        works = before ++ record work { phase = phase } ∷ after;
      }

  -- A request stops waiting: its work goes on unawaited, or is aborted, which drops the guard.
  unfoldable pub give_up :
      List Work → Work → List Work → W store runtime engine → W store runtime engine
  give_up before work after w =
      let (answer, goes_on, v) = expire store runtime engine work w in
      record v {
        locks = if goes_on then v.locks else unlock work.house.id v.locks;
        works =
            if goes_on then before ++ record work { awaited = false } ∷ after else before ++ after;
      }

  pub data Step : W store runtime engine → W store runtime engine → Type 0 where
    arrive :
        (input : HouseholdInput) (w : W store runtime engine)
        → Step w (admit store runtime engine input w).1
    proceed :
        (before : List Work) (work : Work) (after : List Work) (w : W store runtime engine)
        → w.works ≡ before ++ work ∷ after
        → is_live work.phase ≡ true
        → Step w (progress before work after w)
    in_time :
        (before : List Work) (work : Work) (after : List Work) (outcome : Option Text)
        (w : W store runtime engine)
        → w.works ≡ before ++ work ∷ after
        → work.awaited ≡ true
        → work.phase ≡ finished outcome
        → Step w (settle store runtime engine work outcome (record w { works = before ++ after })).1
    deadline :
        (before : List Work) (work : Work) (after : List Work) (w : W store runtime engine)
        → w.works ≡ before ++ work ∷ after
        → work.awaited ≡ true
        → is_live work.phase ≡ true
        → Step w (give_up before work after w)
    late :
        (before : List Work) (work : Work) (after : List Work) (outcome : Option Text)
        (w : W store runtime engine)
        → w.works ≡ before ++ work ∷ after
        → work.awaited ≡ false
        → work.phase ≡ finished outcome
        → Step w
            (save_late store runtime engine work outcome (record w { works = before ++ after }))

  pub data Reach (w : W store runtime engine) : W store runtime engine → Type 0 where
    here : Reach w w
    after : {u v : W store runtime engine} → Reach w u → Step u v → Reach w v
