-- ===== src/Tests/House.antt =====
-- crates/bridge-core/src/house_engine.rs, over the store in memory.
use alice_llm_bridge.Base.{pos, ◌≡◌, refl, true, false, none, some, [], ◌∷◌, arith, length}
use alice_llm_bridge.Base.Text.{Text, codes, text_eq, trim, is_whitespace}
use alice_llm_bridge.Base.Utf8.{IsText, is_char}
use alice_llm_bridge.Base.Dict.{Slot, get, insert, remove, slot_key, int_key, text_key}
use alice_llm_bridge.Household.{SurfaceIdentity, HouseContext, HouseRuntime, ok, PendingReply}
use alice_llm_bridge.MemoryHousehold.{
  HouseholdInner, memory_store, resolve_surface, poll_pending, mark_thinking, save_ready,
  clear_pending, take_continuation, save_continuation,
}
use alice_llm_bridge.MemoryHousehold.Slots.{memory_view, memory_store-KeepsSlots}
use alice_llm_bridge.Reply.{continuation_suffix, split, split_into_chunks}
use alice_llm_bridge.Reply.Shaper.{HasRoom, content_limit}
use alice_llm_bridge.HouseEngine.{
  HouseholdEngine, HouseholdInput, say, busy, reply, Work, W, finished, admit, save_late, resolve,
  on_continuation, on_pending, greet, spawn,
}
use alice_llm_bridge.HouseEngine.Frame.{Admitted, admit-Admitted}
use alice_llm_bridge.HouseEngine.Steps.{here, after, arrive}
use alice_llm_bridge.HouseEngine.Exclusion.{IsExclusive, Reach-IsExclusive}
use alice_llm_bridge.HouseEngine.Delivery.{GoesOn, Delivered, settle-Delivered}
use alice_llm_bridge.HouseEngine.Late.{Answers, kept_or_none, save_late-Answers}
use alice_llm_bridge.Tests.Fixtures.{lower}
use alice_llm_bridge.Tests.Reply.{deciding, running}

-- a server that answers every turn with the utterance
abbrev echo : HouseRuntime
echo = record {
  State = Unit {0};
  start_thread = λ house instructions s. (ok (codes "thread-1"), s);
  turn = λ house thread_id utterance s. (ok utterance, s);
}

abbrev pub engine : HouseholdEngine
engine = record {
  shaper = record { limit = 22 };
  config = record { reply_budget = 2800; chunk_limit = 22; homey_enabled = false };
  to_lowercase = lower;
}

abbrev home : HouseContext
home = record {
  id = pos 1;
  name = codes "Дом";
  codex_thread_id = some (codes "thread-1");
  homey_connector_id = codes "homey-1";
}

abbrev surface : SurfaceIdentity
surface = record { user_id = codes "OWNER"; application_id = codes "station" }

abbrev owner : Slot
owner = record { house_id = pos 1; application_id = codes "OWNER" }

abbrev inner : HouseholdInner
inner = record {
  houses = (pos 1, home) ∷ [];
  members = (owner, tt) ∷ [];
  surfaces = (codes "station", owner) ∷ [];
  pending = [];
  continuations = [];
}

abbrev ask : Text → HouseholdInput
ask utterance = record { identity = surface; utterance = utterance; new_session = false }

abbrev quiet : W memory_store echo engine
quiet = record { store = inner; server = tt; locks = []; works = [] }

abbrev tale : Text
tale = codes "Жил кот. Был дом и сад."

abbrev telling : Work
telling = record {
  house = home;
  application_id = codes "station";
  utterance = tale;
  instructions = [];
  phase = finished (some tale);
  awaited = true;
}

-- what a run of the engine computes through
unfoldable pub serving : Unit {0}
unfolding admit resolve on_continuation on_pending greet spawn resolve_surface poll_pending
    mark_thinking save_ready clear_pending take_continuation save_continuation get insert remove
    text_eq trim is_whitespace
serving = tt

busy_while_working :
    (admit memory_store echo engine
      (ask tale)
      (admit memory_store echo engine (ask tale) quiet).1).0
    ≡ reply busy
unfolding serving
busy_while_working = refl

admit-Admitted_example :
    Admitted memory_store echo engine quiet (admit memory_store echo engine (ask tale) quiet)
admit-Admitted_example = admit-Admitted memory_store echo engine (ask tale) quiet

Reach-IsExclusive_example : IsExclusive (admit memory_store echo engine (ask tale) quiet).1
Reach-IsExclusive_example =
    Reach-IsExclusive memory_store echo engine inner tt (after here (arrive (ask tale) quiet))

room : HasRoom engine.shaper
unfolding continuation_suffix
room = omega arith

tale-IsText : IsText tale
unfolding is_char
tale-IsText = ground arith

goes_on : GoesOn memory_store echo engine surface (ask (codes "да"))
unfolding deciding
goes_on = record { same = refl; goes_on = refl }

three_pieces : 3 ≡ length (split_into_chunks tale (content_limit engine.shaper))
unfolding running
three_pieces = refl

-- a work that has started the thread of its house itself
abbrev first_work : Work
first_work = record telling { house = record home { codex_thread_id = none } }

settle-Delivered_example :
    Delivered memory_store echo engine memory_view memory_store-KeepsSlots surface home first_work
      tale
      (ask (codes "да") ∷ ask (codes "да") ∷ [])
      quiet
unfolding serving
settle-Delivered_example =
    settle-Delivered memory_store echo engine memory_view memory_store-KeepsSlots surface home
      first_work quiet tale (ask (codes "да") ∷ ask (codes "да") ∷ []) room tale-IsText refl refl
      refl (goes_on, (goes_on, tt)) three_pieces

save_late-Answers_example :
    Answers memory_store echo engine memory_view memory_store-KeepsSlots
      (ask (codes "ну что"))
      home
      (save_late memory_store echo engine first_work (some tale) quiet)
      (say (split engine.shaper tale).spoken)
      PendingReply.none
      (kept_or_none (split engine.shaper tale).remaining)
unfolding serving
save_late-Answers_example =
    save_late-Answers memory_store echo engine memory_view memory_store-KeepsSlots home first_work
      tale (ask (codes "ну что")) quiet room tale-IsText refl refl refl refl
