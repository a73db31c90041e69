-- ===== src/CodexRuntime/Served.antt =====
-- The household engine over the Codex runtime: where the texts of its works come from.
use alice_llm_bridge.Base.{
  Bool, true, false, ◌≡◌, refl, sym, ap, subst, Option, none, some, List, [], ◌∷◌, ◌++◌, All, arith,
  if◌then◌else◌,
}
use alice_llm_bridge.Base.Text.{Text}
use alice_llm_bridge.Json.{Value}
use alice_llm_bridge.Codex.{CodexResult, ok, err}
use alice_llm_bridge.Codex.Client.{M, Writer, JsonRpcClient, connected}
use alice_llm_bridge.Household
use alice_llm_bridge.Household.{HouseContext, HouseholdStore}
use alice_llm_bridge.HouseEngine.{
  Flow, HouseholdEngine, Work, W, Phase, starting, saving, turning, finished, first_phase, advance,
  to_phase, served,
}
use alice_llm_bridge.HouseEngine.Frame.{
  Admitted, answered, started, admit-Admitted, Frames-settle, save_late-frame,
}
use alice_llm_bridge.HouseEngine.Steps.{
  is_live, progress, give_up, Step, arrive, proceed, in_time, deadline, late, Reach, here, after,
}
use alice_llm_bridge.CodexRuntime.{CodexRuntime, start_thread_with, turn_with}
use alice_llm_bridge.CodexRuntime.Server.{
  AppServer, Connection, unavailable, no_handshake, open_, map_house_error, over_connection,
  codex_runtime, on_connection, closed,
}
use alice_llm_bridge.CodexRuntime.Profile.{IsAnsweredTurn, turn_with-IsAnsweredTurn}

abbrev phase_with : Option Text → Phase
phase_with none = starting
phase_with (some thread_id) = turning thread_id

module _ (app : AppServer) (version : Text) (runtime : CodexRuntime) (store : HouseholdStore)
    (engine : HouseholdEngine) where
  abbrev pub World : Type 0
  World = W store (codex_runtime app version runtime) engine

  abbrev pub Run : World → World → Type 0
  Run = Reach store (codex_runtime app version runtime) engine

  -- In a run from `start` to `now`, a moment at which a work for this house and utterance stood at
  -- this phase, and the connection that the server gave to the call it then made.
  pub record Call (start now : World) (house : HouseContext) (utterance instructions : Text)
      (phase : Phase) : Type 0 where
    pub world : World
    pub reached : Run start world
    pub since : Run world now
    pub before : List Work
    pub work : Work
    pub rest : List Work
    pub stands : world.works ≡ before ++ work ∷ rest
    pub own_house : work.house ≡ house
    pub own_utterance : work.utterance ≡ utterance
    pub own_instructions : work.instructions ≡ instructions
    pub at_phase : work.phase ≡ phase
    pub incoming : List (CodexResult Value)
    pub writer : Writer
    pub connects : (app.connect runtime.config.socket_path world.server).0 ≡ open_ incoming writer

  module _ (start : World) where
    -- The thread of a work: the one that its house has, or the one that the server gave to the work
    -- when it started a thread for its house.
    pub data Thread (now : World) (house : HouseContext) (utterance instructions thread_id : Text)
        : Type 0 where
      of_house :
          house.codex_thread_id ≡ some thread_id → Thread now house utterance instructions thread_id
      started_own :
          house.codex_thread_id ≡ none
          → (c : Call start now house utterance instructions starting)
          → (start_thread_with version c.writer runtime house instructions (connected c.incoming)).0
            ≡ ok thread_id
          → Thread now house utterance instructions thread_id

    -- What was answered: the turn of the work's thread, on the connection that was given to it.
    pub record Turn (now : World) (house : HouseContext) (utterance instructions text : Text)
        : Type 0 where
      pub thread_id : Text
      pub thread : Thread now house utterance instructions thread_id
      pub call : Call start now house utterance instructions (turning thread_id)
      pub turn :
          IsAnsweredTurn version call.writer runtime house thread_id utterance
            (connected call.incoming)
            text
      pub text_is :
          (turn_with version call.writer runtime house thread_id utterance
            (connected call.incoming)).0
          ≡ ok text

    abbrev pub Answers : World → HouseContext → (utterance instructions : Text) → Phase → Type 0
    Answers now house utterance instructions starting = house.codex_thread_id ≡ none
    Answers now house utterance instructions (saving thread_id) =
        Thread now house utterance instructions thread_id
    Answers now house utterance instructions (turning thread_id) =
        Thread now house utterance instructions thread_id
    Answers now house utterance instructions (finished none) = Unit
    Answers now house utterance instructions (finished (some text)) =
        Turn now house utterance instructions text

    abbrev pub IsServed : World → Work → Type 0
    IsServed now work = Answers now work.house work.utterance work.instructions work.phase

    -- A run that goes on keeps what it came by.
    abbrev Call-later :
        {now later : World} {house : HouseContext} {utterance instructions : Text} {phase : Phase}
        → Step store (codex_runtime app version runtime) engine now later
        → Call start now house utterance instructions phase
        → Call start later house utterance instructions phase
    Call-later step c = record {
      world = c.world;
      reached = c.reached;
      before = c.before;
      work = c.work;
      rest = c.rest;
      stands = c.stands;
      own_house = c.own_house;
      own_utterance = c.own_utterance;
      own_instructions = c.own_instructions;
      at_phase = c.at_phase;
      incoming = c.incoming;
      writer = c.writer;
      connects = c.connects;
      since = after c.since step;
    }

    Thread-later :
        {now later : World} {house : HouseContext} {utterance instructions thread_id : Text}
        → Step store (codex_runtime app version runtime) engine now later
        → Thread now house utterance instructions thread_id
        → Thread later house utterance instructions thread_id
    Thread-later step (of_house e) = of_house e
    Thread-later step (started_own e c given) = started_own e (Call-later step c) given

    Answers-later :
        {now later : World} (house : HouseContext) (utterance instructions : Text) (p : Phase)
        → Step store (codex_runtime app version runtime) engine now later
        → Answers now house utterance instructions p
        → Answers later house utterance instructions p
    Answers-later house utterance instructions starting step h = h
    Answers-later house utterance instructions (saving thread_id) step h = Thread-later step h
    Answers-later house utterance instructions (turning thread_id) step h = Thread-later step h
    Answers-later house utterance instructions (finished none) step h = tt
    Answers-later house utterance instructions (finished (some text)) step h = record {
      thread_id = h.thread_id;
      thread = Thread-later step h.thread;
      call = Call-later step h.call;
      turn = h.turn;
      text_is = h.text_is;
    }

    All-later :
        {now later : World} (works : List Work)
        → Step store (codex_runtime app version runtime) engine now later
        → All (IsServed now) works
        → All (IsServed later) works
    All-later [] step h = tt
    All-later (work ∷ works) step (h, t) = (
      Answers-later work.house work.utterance work.instructions work.phase step h,
      All-later works step t,
    )

    -- An await that opens a connection fails, or has what its call on that connection gives.
    closing :
        (Q : Phase → Type 0) (f : Text → Phase) (w : World) (x : CodexResult Text × JsonRpcClient)
        (s : app.State)
        → Q (finished none)
        → ((text : Text) → x.0 ≡ ok text → Q (f text))
        → Q
            (to_phase store
              (codex_runtime app version runtime)
              engine
              f
              (served store (codex_runtime app version runtime) engine w (closed app x s))).0
    unfolding map_house_error
    closing Q f w (err e, c) s none_given given = none_given
    closing Q f w (ok text, c) s none_given given = given text refl

    over :
        (Q : Phase → Type 0) (f : Text → Phase) (call : Writer → M Text) (w : World)
        (x : Connection × app.State)
        → Q (finished none)
        → ((incoming : List (CodexResult Value)) (writer : Writer) (text : Text)
            → x.0 ≡ open_ incoming writer
            → (call writer (connected incoming)).0 ≡ ok text
            → Q (f text))
        → Q
            (to_phase store (codex_runtime app version runtime) engine f (
              served store
                (codex_runtime app version runtime)
                engine
                w
                (on_connection app call x))).0
    unfolding map_house_error
    over Q f call w (unavailable, s) none_given given = none_given
    over Q f call w (no_handshake, s) none_given given = none_given
    over Q f call w (open_ incoming writer, s) none_given given =
        closing Q f w (call writer (connected incoming)) s none_given
          (λ text e. given incoming writer text refl e)

    -- an await that saves the thread
    silent :
        {A : Type 0} (Q : Phase → Type 0) (f : A → Phase) (r : Household.Result A) (w : World)
        → Q (finished none)
        → ((a : A) → Q (f a))
        → Q (to_phase store (codex_runtime app version runtime) engine f (r, w)).0
    silent Q f (Household.ok a) w none_given given = given a
    silent Q f (Household.err e) w none_given given = none_given

    module _ (w v : World) (reached : Run start w)
        (step : Step store (codex_runtime app version runtime) engine w v) (before : List Work)
        (work : Work) (rest : List Work) (split : w.works ≡ before ++ work ∷ rest) where
      abbrev call_now :
          (p : Phase) (incoming : List (CodexResult Value)) (writer : Writer)
          → work.phase ≡ p
          → (app.connect runtime.config.socket_path w.server).0 ≡ open_ incoming writer
          → Call start v work.house work.utterance work.instructions p
      call_now p incoming writer e connects = record {
        world = w;
        reached = reached;
        since = after here step;
        before = before;
        work = work;
        rest = rest;
        stands = split;
        own_house = refl;
        own_utterance = refl;
        own_instructions = refl;
        at_phase = e;
        incoming = incoming;
        writer = writer;
        connects = connects;
      }

      advance-Answers :
          (p : Phase)
          → work.phase ≡ p
          → is_live p ≡ true
          → Answers v work.house work.utterance work.instructions p
          → Answers v work.house work.utterance work.instructions
              (advance store (codex_runtime app version runtime) engine work w).0
      unfolding advance over_connection
      advance-Answers starting e live h = rw e (
          over (Answers v work.house work.utterance work.instructions) saving
            (λ writer. start_thread_with version writer runtime work.house work.instructions) w
            (app.connect runtime.config.socket_path w.server) tt
            (λ incoming writer thread_id connects given.
              started_own h (call_now starting incoming writer e connects) given))
      advance-Answers (saving thread_id) e live h = rw e (
          silent (Answers v work.house work.utterance work.instructions) (λ _. turning thread_id) _
            _ tt (λ _. h))
      advance-Answers (turning thread_id) e live h = rw e (
          over (Answers v work.house work.utterance work.instructions)
            (λ text. finished (some text))
            (λ writer. turn_with version writer runtime work.house thread_id work.utterance) w
            (app.connect runtime.config.socket_path w.server) tt
            (λ incoming writer text connects given. record {
              thread_id = thread_id;
              thread = h;
              call = call_now (turning thread_id) incoming writer e connects;
              turn =
                  turn_with-IsAnsweredTurn version writer runtime work.house thread_id
                    work.utterance (connected incoming) given;
              text_is = given;
            }))
      advance-Answers (finished outcome) e live h = absurd (ground arith)

    first_phase-Answers :
        (now : World) (house : HouseContext) (utterance instructions : Text)
        → Answers now house utterance instructions (first_phase house)
    first_phase-Answers now house utterance instructions = begins house.codex_thread_id refl
      where
        begins :
            (thread : Option Text)
            → house.codex_thread_id ≡ thread
            → Answers now house utterance instructions (first_phase house)
        begins none e =
            let first : first_phase house ≡ starting = ap phase_with e in
            subst (Answers now house utterance instructions) (sym first) e
        begins (some thread_id) e =
            let first : first_phase house ≡ turning thread_id = ap phase_with e in
            subst (Answers now house utterance instructions) (sym first) (of_house e)

    All-middle :
        (now : World) (before : List Work) (work : Work) (rest : List Work)
        → All (IsServed now) (before ++ work ∷ rest)
        → All (IsServed now) (before ++ rest)
          × ((work' : Work) → IsServed now work' → All (IsServed now) (before ++ work' ∷ rest))
          × IsServed now work
    All-middle now [] work rest (h, t) = (t, λ work' h'. (h', t), h)
    All-middle now (x ∷ before) work rest (h, t) =
        let (without, with_, mine) = All-middle now before work rest t in
        ((h, without), λ work' h'. (h, with_ work' h'), mine)

    Admitted-IsServed :
        (now w : World) (x : Flow (Unit {0}) × World)
        → Admitted store (codex_runtime app version runtime) engine w x
        → All (IsServed now) w.works
        → All (IsServed now) x.1.works
    Admitted-IsServed now w x (answered r v same) h = subst (All (IsServed now)) (sym same.works) h
    Admitted-IsServed now w x (started work v server free locks works phase awaited) h =
        subst (All (IsServed now)) (sym works) (
          subst (Answers now work.house work.utterance work.instructions) (sym phase)
              (first_phase-Answers now work.house work.utterance work.instructions),
          h,
        )

    unawaited :
        (now : World) (before : List Work) (work : Work) (rest : List Work) (goes_on : Bool)
        → All (IsServed now) (before ++ work ∷ rest)
        → All
            (IsServed now)
            (if goes_on then before ++ record work { awaited = false } ∷ rest else before ++ rest)
    unawaited now before work rest true h =
        let (without, with_, mine) = All-middle now before work rest h in
        with_ (record work { awaited = false }) mine
    unawaited now before work rest false h = (All-middle now before work rest h).0

    -- What held before a step is told of the world behind it; then the step itself.
    Step-IsServed :
        (w v : World)
        → Run start w
        → (step : Step store (codex_runtime app version runtime) engine w v)
        → All (IsServed v) w.works
        → All (IsServed v) v.works
    unfolding progress give_up
    Step-IsServed w v reached (arrive input _) h =
        Admitted-IsServed v w _
          (admit-Admitted store (codex_runtime app version runtime) engine input w) h
    Step-IsServed w v reached (proceed before work rest _ split live) h =
        let (without, with_, mine) =
          All-middle v before work rest (subst (All (IsServed v)) split h) in
        with_ _ (
          advance-Answers w v reached (proceed before work rest w split live) before work rest split
            work.phase refl live mine)
    Step-IsServed w v reached (in_time before work rest outcome _ split awaited done) h =
        subst (All (IsServed v))
          (sym
            ((Frames-settle store (codex_runtime app version runtime) engine work outcome).at
              _).works)
          (All-middle v before work rest (subst (All (IsServed v)) split h)).0
    Step-IsServed w v reached (deadline before work rest _ split awaited live) h =
        unawaited v before work rest _ (subst (All (IsServed v)) split h)
    Step-IsServed w v reached (late before work rest outcome _ split awaited done) h =
        subst (All (IsServed v))
          (sym
            (save_late-frame store (codex_runtime app version runtime) engine work outcome _).works)
          (All-middle v before work rest (subst (All (IsServed v)) split h)).0

  -- Over the Codex runtime, from an engine with no work, whatever the requests, deadlines and
  -- interleavings of any number of houses, and whatever the server does: a text that a work has
  -- ended with is the answer of a turn that was run, in this very run of the engine, when the work
  -- stood at its turn: on the connection that the server gave to that call, for the work's own house
  -- and utterance, and in its own thread, which is the one of the house or, if the house had none,
  -- the one that the server gave when this work started one.
  pub Reach-IsServed :
      (s : store.State) (r : app.State) (v : World)
      → Run (record { store = s; server = r; locks = []; works = [] }) v
      → All (IsServed (record { store = s; server = r; locks = []; works = [] }) v) v.works
  Reach-IsServed s r v here = tt
  Reach-IsServed s r v (after reached step) =
      let start : World = record { store = s; server = r; locks = []; works = [] } in
      Step-IsServed start _ v reached step (All-later start _ step (Reach-IsServed s r _ reached))
