-- ===== src/Lib.antt =====
-- A voice bridge between Yandex Alice and a Codex server: a surface (a smart speaker, known by
-- its account and its device) speaks, the bridge finds the house it belongs to, answers within
-- the seconds that Alice waits, and keeps for the next request what was too long or too late.
--
-- The parts and their files:
-- - Base: texts as lists of code points, `str` operations, association lists, UTF-8, decimals.
-- - Reply (crates/bridge-core/src/reply.rs): `split_into_chunks` and its `preferred_split`,
--   `ReplyShaper::split`, `ContinuationDecision::from_utterance`. The proofs stand in Reply/.
-- - Household (crates/bridge-core/src/household.rs, house_store.rs, house_runtime.rs,
--   house_prompt.rs): the types, the traits `HouseholdStore` and `HouseRuntime` as records of
--   functions on a state. Household/Slots.antt says what a store promises its client.
-- - HouseEngine (crates/bridge-core/src/house_engine.rs): `HouseholdEngine::respond`. `admit` is
--   the function up to the wait, `advance` an await of the spawned block, `settle` and `expire` the
--   outcomes of the wait, `save_late` the second task. HouseEngine/Steps.antt composes them: any
--   number of requests and works, of any houses, in any order of steps. A work that is dropped or
--   ends gives its house's mutex back, as the owned guard does.
-- - MemoryHousehold (crates/bridge-core/src/testing.rs, `MemoryHouseholdStore`).
-- - StateCrypto (crates/bridge-server/src/state_crypto.rs).
-- - PgHousehold (crates/bridge-server/src/house_store_pg.rs, migrations/0002_household.sql): the
--   tables and each statement as a function on them; PgHousehold/Approve.antt is `approve_pairing`.
--   Which statements fail is a function of the database, `fails`.
-- - Profile, Command, PendingAnswers, Conversation (crates/bridge-core/src/profile.rs, mode.rs,
--   command.rs, pending.rs, store.rs, and `MemoryStore` of testing.rs): the parts of the dialogue
--   engine of single users.
-- - Dialogue (crates/bridge-core/src/engine.rs, prompt.rs, model.rs, phrases.rs): that engine.
--   Dialogue/Handle.antt is `Engine::handle` up to the wait of `ask_llm`, Dialogue/Background.antt
--   the spawned `generate` (`advance`, an await at a time), what becomes of its reply (`send`,
--   `expire`, `drop_receiver`, `abandon`), and Dialogue/Summaries.antt `maybe_summarize`
--   (`summarize`, an await at a time). Dialogue/Promises.antt says what a store of conversations
--   promises its client, by the history that its state holds.
-- - PgConversation (crates/bridge-server/src/store_pg.rs, migrations/0001_init.sql): `PgStore`, by the
--   tables, the sequence of the ids and the statements that fail.
-- - Llm (crates/llm-providers): the types of a chat, `OpenAiCompatClient` with its retry.
-- - Json: the values of serde_json, as it documents them.
-- - Codex (crates/codex-runtime/src/client.rs, protocol.rs, error.rs): `JsonRpcClient`.
--   Codex/Client.antt has its calls, Codex/Turn.antt and Codex.antt the tests on a notification,
--   Codex/Transport.antt both transports, Codex/Params.antt the parameters of the calls. A
--   connection is the list of what `read_message` will return and a function that says which
--   writes fail, so every theorem holds for every server.
-- - CodexRuntime (crates/codex-runtime/src/lib.rs): `start_thread_with`, `turn_with` and their
--   checks. CodexRuntime/Server.antt makes it a `HouseRuntime`, which the household engine takes;
--   CodexRuntime/Served.antt is about the two together.
-- - Alice (crates/alice-protocol): the request, and the response with its limit (`clip_to_limit`).
-- - Server (crates/bridge-server): the configuration and its validation (Config, config.rs), the
--   engines assembled from it (Assemble, assemble.rs and main.rs), and the webhook (Routes,
--   routes.rs): its checks before an engine is called, and its response to a reply.
-- - Admin (crates/bridge-server/src/bin/bridge-admin.rs): the administration tool, its command line
--   (Admin.antt) and what its commands do to the tables (Admin/Execute.antt).
--
-- The theorems on the household engine take the store as an argument, with the promises of
-- `KeepsSlots`.
--
-- Parameters: Unicode's lower case and alphanumeric characters, the ciphers, HMAC, JSON of a
-- list of strings, random draws, the order of a SELECT without ORDER BY, the calendar, floats,
-- HTTP, the reading and writing of JSON, sockets, the app-server. What is asked of some of
-- them is `AreCiphers`, `IsPlatform` and `IsUnicode`; Tests/ gives concrete functions for them.
--
-- Fuel: `split_loop` and `digits_of` have it. Each round of `split_loop` takes a character at
-- least, for a limit that is not 0, so one more than the length of the text is enough.
-- Reply/Chunks.antt has its equation without fuel.
--
-- Integers: costs and durations are not bounded, nor are ids. Bounded are the ids of calls to the
-- app-server (64 bits), a spoken window, in PgConversation the tokens of a row (`as i32`) and a LIMIT
-- (`as i64`), and in both stores of conversations a sum of costs: Postgres fails, and `MemoryStore`
-- panics, which is told as an error of the call. Clocks count seconds, in PendingAnswers
-- milliseconds. Paths are lists of bytes.
--
-- Not modelled: HTTP, the reading of TOML and JSON of the webhook, and the start of the process;
-- `tokio` and `sqlx` are taken as what they document.
pub mod Base
pub mod Reply
pub mod Household
pub mod HouseEngine
pub mod MemoryHousehold
pub mod StateCrypto
pub mod PgHousehold
pub mod Profile
pub mod Command
pub mod PendingAnswers
pub mod Conversation
pub mod Json
pub mod Codex
pub mod CodexRuntime
pub mod Llm
pub mod Dialogue
pub mod PgConversation
pub mod Alice
pub mod Server
pub mod Admin
pub mod Tests
