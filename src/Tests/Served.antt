-- ===== src/Tests/Served.antt =====
-- The household engine over the Codex runtime: a request, and the turn of its work.
use alice_llm_bridge.Base.{true, false, ◌≡◌, refl, some, [], ◌∷◌, ◌++◌, All}
use alice_llm_bridge.Base.Text.{codes}
use alice_llm_bridge.Base.Dict.{Slot}
use alice_llm_bridge.Household.{HouseContext, build_house_instructions}
use alice_llm_bridge.MemoryHousehold.{HouseholdInner, memory_store}
use alice_llm_bridge.HouseEngine.{HouseholdInput, Work, W, turning, admit}
use alice_llm_bridge.HouseEngine.Steps.{here, after, arrive, proceed, progress}
use alice_llm_bridge.CodexRuntime.Server.{AppServer, open_, codex_runtime}
use alice_llm_bridge.CodexRuntime.Served.{IsServed, Reach-IsServed}
use alice_llm_bridge.Tests.House.{engine, serving}
use alice_llm_bridge.Tests.Codex.{version, runtime, house, writer, incoming}

abbrev app : AppServer
app = record {
  State = Unit {0};
  connect = λ path s. (open_ incoming writer, s);
  take_note = λ written s. s;
}

abbrev threaded : HouseContext
threaded = record house { codex_thread_id = some (codes "t1") }

abbrev home_slot : Slot
home_slot = record { house_id = house.id; application_id = codes "OWNER" }

abbrev home : HouseholdInner
home = record {
  houses = (house.id, threaded) ∷ [];
  members = (home_slot, tt) ∷ [];
  surfaces = (codes "station", home_slot) ∷ [];
  pending = [];
  continuations = [];
}

abbrev ask : HouseholdInput
ask = record {
  identity = record { user_id = codes "OWNER"; application_id = codes "station" };
  utterance = codes "Что с окнами?";
  new_session = false;
}

abbrev start : W memory_store (codex_runtime app version runtime) engine
start = record { store = home; server = tt; locks = []; works = [] }

abbrev asked : W memory_store (codex_runtime app version runtime) engine
asked = (admit memory_store (codex_runtime app version runtime) engine ask start).1

abbrev work : Work
work = record {
  house = threaded;
  application_id = codes "station";
  utterance = codes "Что с окнами?";
  instructions = build_house_instructions threaded false;
  phase = turning (codes "t1");
  awaited = true;
}

one_work : asked.works ≡ [] ++ work ∷ []
unfolding serving
one_work = refl

Reach-IsServed_example :
    All
      (IsServed app version runtime memory_store engine start
        (progress memory_store (codex_runtime app version runtime) engine [] work [] asked))
      (progress memory_store (codex_runtime app version runtime) engine [] work [] asked).works
Reach-IsServed_example =
    Reach-IsServed app version runtime memory_store engine home tt
      (progress memory_store (codex_runtime app version runtime) engine [] work [] asked)
      (after (after here (arrive ask start)) (proceed [] work [] asked one_work refl))
