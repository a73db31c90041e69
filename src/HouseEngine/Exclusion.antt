-- ===== src/HouseEngine/Exclusion.antt =====
-- The mutex of a house: at most one work of a house runs, whatever the interleaving.
use alice_llm_bridge.Base.{
  ℤ, int_eq_iff, Bool, true, false, ◌||◌, if◌then◌else◌, ◌≡◌, refl, sym, ap, ◌∙◌, subst, Option,
  List, [], ◌∷◌, ◌++◌, arith, Bool-cases, inl, inr,
}
use alice_llm_bridge.Base.Text.{Text}
use alice_llm_bridge.Household.{HouseContext, HouseholdStore, HouseRuntime}
use alice_llm_bridge.HouseEngine.{
  HouseholdEngine, Flow, World, Work, W, finished, is_locked, unlock, first_phase, advance, expire,
}
use alice_llm_bridge.HouseEngine.Frame.{
  SameButStore, Admitted, answered, started, admit-Admitted, Frames-settle, save_late-frame,
  expire-frame, advance-frame,
}
use alice_llm_bridge.HouseEngine.Steps.{
  is_live, live_ids, progress, give_up, Step, arrive, proceed, in_time, deadline, late, Reach, here,
  after,
}

abbrev pub Distinct : List ℤ → Type 0
Distinct [] = Unit
Distinct (i ∷ ids) = (is_locked i ids ≡ false) × Distinct ids

is_locked-append : (i : ℤ) (a b : List ℤ) → is_locked i (a ++ b) ≡ (is_locked i a || is_locked i b)
is_locked-append i [] b = refl
is_locked-append i (j ∷ a) b = ground (arith, is_locked-append i a b)

unlock_absent : (i : ℤ) (ids : List ℤ) → is_locked i ids ≡ false → unlock i ids ≡ ids
unfolding unlock
unlock_absent i [] h = refl
unlock_absent i (j ∷ ids) h = ground (arith, unlock_absent i ids)

unlock_middle :
    (a : List ℤ) (i : ℤ) (b : List ℤ) → Distinct (a ++ i ∷ b) → unlock i (a ++ i ∷ b) ≡ a ++ b
unfolding unlock
unlock_middle [] i b h = ground (arith, int_eq_iff i i, unlock_absent i b)
unlock_middle (j ∷ a) i b h =
    ground
      (arith, unlock_middle a i b h.1, is_locked-append j a (i ∷ b), int_eq_iff i j, int_eq_iff j i)

Distinct-middle : (a : List ℤ) (i : ℤ) (b : List ℤ) → Distinct (a ++ i ∷ b) → Distinct (a ++ b)
Distinct-middle [] i b h = h.1
Distinct-middle (j ∷ a) i b h = (
  ground (arith, is_locked-append j a (i ∷ b), is_locked-append j a b),
  Distinct-middle a i b h.1,
)

live_ids-append : (a b : List Work) → live_ids (a ++ b) ≡ live_ids a ++ live_ids b
live_ids-append [] b = refl
live_ids-append (work ∷ a) b = ground (arith, live_ids-append a b)

-- The locked houses are those of the works that run, and no two of these are of one house.
pub record IsExclusive {S R : Type 0} (w : World S R) : Type 0 where
  pub held : w.locks ≡ live_ids w.works
  pub distinct : Distinct (live_ids w.works)

live_middle :
    (before : List Work) (work : Work) (rest : List Work)
    → is_live work.phase ≡ true
    → live_ids (before ++ work ∷ rest) ≡ live_ids before ++ work.house.id ∷ live_ids rest
live_middle before work rest e = live_ids-append before (work ∷ rest) ∙ rw e refl

dead_middle :
    (before : List Work) (work : Work) (rest : List Work)
    → is_live work.phase ≡ false
    → live_ids (before ++ work ∷ rest) ≡ live_ids (before ++ rest)
dead_middle before work rest e =
    live_ids-append before (work ∷ rest) ∙ rw e (sym (live_ids-append before rest))

first_phase_live : (house : HouseContext) → is_live (first_phase house) ≡ true
first_phase_live house = ground arith

module _ {S R : Type 0} where
  IsExclusive-same : {w v : World S R} → SameButStore w v → IsExclusive w → IsExclusive v
  IsExclusive-same {w} {v} same h = record {
    held = same.locks ∙ h.held ∙ ap live_ids (sym same.works);
    distinct = subst (λ (works : List Work). Distinct (live_ids works)) (sym same.works) h.distinct;
  }

  -- A live work that is replaced by one of its house, live or not, or that is removed.
  module _ (before : List Work) (work : Work) (rest : List Work) (w : World S R)
      (split : w.works ≡ before ++ work ∷ rest) (live : is_live work.phase ≡ true)
      (h : IsExclusive w) where
    ids_before : live_ids w.works ≡ live_ids before ++ work.house.id ∷ live_ids rest
    ids_before = ap live_ids split ∙ live_middle before work rest live

    ids_differ_before : Distinct (live_ids before ++ work.house.id ∷ live_ids rest)
    ids_differ_before = subst Distinct ids_before h.distinct

    unlocked : unlock work.house.id w.locks ≡ live_ids (before ++ rest)
    unlocked =
        ap (unlock work.house.id) (h.held ∙ ids_before)
        ∙ unlock_middle (live_ids before) work.house.id (live_ids rest) ids_differ_before
        ∙ sym (live_ids-append before rest)

    ids_differ_after : Distinct (live_ids (before ++ rest))
    ids_differ_after =
        subst Distinct (sym (live_ids-append before rest))
          (Distinct-middle (live_ids before) work.house.id (live_ids rest) ids_differ_before)

    removed :
        (locks : List ℤ) (s : S) (r : R)
        → locks ≡ w.locks
        → IsExclusive (record {
          store = s;
          server = r;
          locks = unlock work.house.id locks;
          works = before ++ rest;
        })
    removed locks s r e = record {
      held = ap (unlock work.house.id) e ∙ unlocked;
      distinct = ids_differ_after;
    }

    replaced :
        (work' : Work) (locks : List ℤ) (s : S) (r : R)
        → locks ≡ w.locks
        → work'.house.id ≡ work.house.id
        → IsExclusive (record {
          store = s;
          server = r;
          locks = if is_live work'.phase then locks else unlock work.house.id locks;
          works = before ++ work' ∷ rest;
        })
    replaced work' locks s r e same = elim (Bool-cases (is_live work'.phase)) [
      | inl alive ↦
          let ids : live_ids (before ++ work' ∷ rest)
              ≡ live_ids before ++ work.house.id ∷ live_ids rest =
            live_middle before work' rest alive
            ∙ ap (λ i. live_ids before ++ i ∷ live_ids rest) same in
          record {
            held = rw alive (e ∙ h.held ∙ ids_before ∙ sym ids);
            distinct = subst Distinct (sym ids) ids_differ_before;
          }
      | inr dead ↦ record {
        held =
            rw dead
              (ap (unlock work.house.id) e ∙ unlocked ∙ sym (dead_middle before work' rest dead));
        distinct = subst Distinct (sym (dead_middle before work' rest dead)) ids_differ_after;
      }
    ]

    stopped :
        (goes_on : Bool) (work' : Work) (locks : List ℤ) (s : S) (r : R)
        → locks ≡ w.locks
        → work'.house.id ≡ work.house.id
        → work'.phase ≡ work.phase
        → IsExclusive (record {
          store = s;
          server = r;
          locks = if goes_on then locks else unlock work.house.id locks;
          works = if goes_on then before ++ work' ∷ rest else before ++ rest;
        })
    stopped false work' locks s r e same phase = removed locks s r e
    stopped true work' locks s r e same phase =
        let alive : is_live work'.phase ≡ true = rw phase live in
        rw alive at (replaced work' locks s r e same)

  finished_removed :
      (before : List Work) (work : Work) (rest : List Work) (outcome : Option Text) (w : World S R)
      → w.works ≡ before ++ work ∷ rest
      → work.phase ≡ finished outcome
      → IsExclusive w
      → IsExclusive (record w { works = before ++ rest })
  finished_removed before work rest outcome w split done h =
      let same : live_ids w.works ≡ live_ids (before ++ rest) =
        ap live_ids split ∙ dead_middle before work rest (ap is_live done) in
      record { held = h.held ∙ same; distinct = subst Distinct same h.distinct }

module _ (store : HouseholdStore) (runtime : HouseRuntime) (engine : HouseholdEngine) where
  Admitted-IsExclusive :
      (w : W store runtime engine) (x : Flow (Unit {0}) × W store runtime engine)
      → Admitted store runtime engine w x
      → IsExclusive w
      → IsExclusive x.1
  Admitted-IsExclusive w x (answered r v same) h = IsExclusive-same same h
  Admitted-IsExclusive w x (started work v server free locks works phase awaited) h =
      let alive : is_live work.phase ≡ true = ap is_live phase ∙ first_phase_live work.house in
      let ids : live_ids v.works ≡ work.house.id ∷ live_ids w.works =
        ap live_ids works ∙ rw alive refl in
      record {
        held = locks ∙ ap (λ l. work.house.id ∷ l) h.held ∙ sym ids;
        distinct = subst Distinct (sym ids) (rw (← h.held) free, h.distinct);
      }

  Step-IsExclusive :
      {w v : W store runtime engine} → Step store runtime engine w v → IsExclusive w → IsExclusive v
  unfolding progress give_up
  Step-IsExclusive (arrive input w) h =
      Admitted-IsExclusive w _ (admit-Admitted store runtime engine input w) h
  Step-IsExclusive (proceed before work rest w split live) h =
      let (phase, v) = advance store runtime engine work w in
      replaced before work rest w split live h (record work { phase = phase }) v.locks v.store
        v.server (advance-frame store runtime engine work w).0 refl
  Step-IsExclusive (in_time before work rest outcome w split awaited done) h =
      IsExclusive-same ((Frames-settle store runtime engine work outcome).at _)
        (finished_removed before work rest outcome w split done h)
  Step-IsExclusive (deadline before work rest w split awaited live) h =
      let (answer, goes_on, v) = expire store runtime engine work w in
      stopped before work rest w split live h goes_on (record work { awaited = false }) v.locks
        v.store v.server (expire-frame store runtime engine work w).locks refl refl
  Step-IsExclusive (late before work rest outcome w split awaited done) h =
      IsExclusive-same (save_late-frame store runtime engine work outcome _)
        (finished_removed before work rest outcome w split done h)

-- From an engine with no work, whatever the requests, deadlines and interleavings of any number of
-- houses: the locked houses are those whose work runs, and no house has two works that run.
pub Reach-IsExclusive :
    (store : HouseholdStore) (runtime : HouseRuntime) (engine : HouseholdEngine) (s : store.State)
    (r : runtime.State) {v : W store runtime engine}
    → Reach store runtime engine (record { store = s; server = r; locks = []; works = [] }) v
    → IsExclusive v
Reach-IsExclusive store runtime engine s r here = record { held = refl; distinct = tt }
Reach-IsExclusive store runtime engine s r (after reached step) =
    Step-IsExclusive store runtime engine step (Reach-IsExclusive store runtime engine s r reached)
