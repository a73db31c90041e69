-- ===== src/CodexRuntime/Profile.antt =====
-- What an answered turn of a house says of the connection, and what tells two houses apart.
use mathlib.Core.List.{append_cancel_left}
use alice_llm_bridge.Base.{
  ◌≡◌, refl, sym, ap, ◌∙◌, ℤ, is_positive, pos, negsuc, Bool, true, false, Option, some, List, ◌≢◌,
  arith, Option-cases, inl, inr,
}
use alice_llm_bridge.Base.Text.{Text, codes, text_eq_iff}
use alice_llm_bridge.Base.Decimal.{to_string, decimal-injective}
use alice_llm_bridge.Json.{Value, str_at, bool_at}
use alice_llm_bridge.Codex.{CodexRuntimeError, CodexResult, ok}
use alice_llm_bridge.Codex.Client.{JsonRpcClient, M, ◌>>=◌, Writer, request}
use alice_llm_bridge.Codex.Handled.{after_bind, after_lift}
use alice_llm_bridge.Codex.Observed.{is_text_eq}
use alice_llm_bridge.Codex.Answered.{IsAnswer, collect_turn-IsAnswer}
use alice_llm_bridge.Codex.Params.{
  thread_resume, turn_start, thread_resume_params, turn_start_params,
}
use alice_llm_bridge.Household.{HouseContext}
use alice_llm_bridge.CodexRuntime.{
  CodexRuntime, required_string, at_profile, at_sandbox, at_thread_id, at_turn_id,
  validate_permission_result, homey_connector, permissions_of, guard, initialize, turn_with,
}

-- The profile is active, its sandbox is read-only, and it has no network.
pub record IsConfirmed (permissions : Text) (result : Value) : Type 0 where
  pub profile : str_at at_profile result ≡ some permissions
  pub read_only : str_at (at_sandbox (codes "type")) result ≡ some (codes "readOnly")
  pub offline : bool_at (at_sandbox (codes "networkAccess")) result ≢ some true

validate-IsConfirmed :
    (result : Value) (permissions : Text)
    → validate_permission_result result (some permissions) ≡ ok tt
    → IsConfirmed permissions result
unfolding validate_permission_result
validate-IsConfirmed result permissions h = elim (Option-cases (str_at at_profile result)) [
  | inl e ↦ ground arith
  | inr (profile, e) ↦ record {
    profile = ground (arith, text_eq_iff permissions profile);
    read_only =
        ground (arith, is_text_eq (codes "readOnly") (str_at (at_sandbox (codes "type")) result));
    offline = λ n. ground arith;
  }
]

required_string-ok :
    (result : Value) (keys : List Text) (message : Text) {text : Text}
    → required_string result keys message ≡ ok text
    → str_at keys result ≡ some text
unfolding required_string
required_string-ok result keys message h = ground arith

after_guard :
    {B Z : Type 0} (b : Bool) (e : CodexRuntimeError) (f : Unit {0} → M B) (c : JsonRpcClient)
    {x : B}
    → ((guard b e >>= f) c).0 ≡ ok x
    → (b ≡ true → (f tt c).0 ≡ ok x → Z)
    → Z
unfolding ◌>>=◌
after_guard true e f c h k = k refl h
after_guard false e f c h k = cc

-- The two calls of a turn, each made behind the one before.
abbrev pub resume_call : Text → Writer → CodexRuntime → HouseContext → Text → Option Text → M Value
resume_call version writer runtime house thread_id connector c =
    request writer thread_resume
      (thread_resume_params thread_id (permissions_of runtime house) connector)
      (initialize version writer c).1

abbrev pub begin_call : Writer → Text → Text → M Value
begin_call writer thread_id utterance =
    request writer turn_start (turn_start_params thread_id utterance)

-- A turn that was answered over a connection.
pub record IsAnsweredTurn (version : Text) (writer : Writer) (runtime : CodexRuntime)
    (house : HouseContext) (thread_id utterance : Text) (c : JsonRpcClient) (text : Text)
    : Type 0 where
  pub connector : Option Text
  pub resumed : Value
  pub started : Value
  pub turn_id : Text
  pub resuming : CodexResult Value × JsonRpcClient
  pub beginning : CodexResult Value × JsonRpcClient
  pub is_house : is_positive house.id ≡ true
  pub own_connector : homey_connector runtime house ≡ ok connector
  pub resumes : resuming ≡ resume_call version writer runtime house thread_id connector c
  pub is_resumed : resuming.0 ≡ ok resumed
  pub confirmed : IsConfirmed (permissions_of runtime house) resumed
  pub same_thread : str_at at_thread_id resumed ≡ some thread_id
  pub begins : beginning ≡ begin_call writer thread_id utterance resuming.1
  pub is_started : beginning.0 ≡ ok started
  pub turn : str_at at_turn_id started ≡ some turn_id
  pub answer :
      IsAnswer thread_id turn_id connector beginning.1.notifications beginning.1.incoming text

-- A turn that gives an answer ran for a house with a positive id: the server resumed this very
-- thread with the house's own profile active, read-only and without network, with the house's own
-- connector or none; then it began a turn, and the answer is described by the messages of that
-- thread and that turn.
pub turn_with-IsAnsweredTurn :
    (version : Text) (writer : Writer) (runtime : CodexRuntime) (house : HouseContext)
    (thread_id utterance : Text) (c : JsonRpcClient) {text : Text}
    → (turn_with version writer runtime house thread_id utterance c).0 ≡ ok text
    → IsAnsweredTurn version writer runtime house thread_id utterance c text
unfolding turn_with
turn_with-IsAnsweredTurn version writer runtime house thread_id utterance c h =
    after_guard _ _ _ c h λ _ h1. after_guard _ _ _ _ h1 λ positive h2.
      after_lift _ _ _ h2 λ connector own h3. after_bind _ _ _ h3 λ _ _ h4.
        after_bind _ _ _ h4 λ resumed resumes h5. after_lift _ _ _ h5 λ _ valid h6.
          after_lift _ _ _ h6 λ resumed_id found h7. after_guard _ _ _ _ h7 λ same h8.
            after_bind _ _ _ h8 λ started begins h9. after_lift _ _ _ h9 λ turn_id turn h10.
              record {
                connector = connector;
                resumed = resumed;
                started = started;
                turn_id = turn_id;
                resuming = resume_call version writer runtime house thread_id connector c;
                beginning =
                    begin_call writer thread_id utterance
                      (resume_call version writer runtime house thread_id connector c).1;
                is_house = positive;
                own_connector = own;
                resumes = refl;
                is_resumed = resumes;
                confirmed = validate-IsConfirmed resumed (permissions_of runtime house) valid;
                same_thread =
                    required_string-ok resumed at_thread_id _ found
                    ∙ ap some (sym ((text_eq_iff thread_id resumed_id).0 same));
                begins = refl;
                is_started = begins;
                turn = required_string-ok started at_turn_id _ turn;
                answer = collect_turn-IsAnswer writer thread_id turn_id connector _ h10;
              }

ids-eq : (a b : ℤ) → to_string a ≡ to_string b → is_positive a ≡ true → is_positive b ≡ true → a ≡ b
unfolding to_string
ids-eq (pos m) (pos n) e p q = ap pos (decimal-injective m n e)
ids-eq (pos m) (negsuc n) e p q = cc
ids-eq (negsuc m) b e p q = cc

-- Two houses with positive ids that get the same permission profile have the same id.
pub permissions_of-injective :
    (runtime : CodexRuntime) (a b : HouseContext)
    → permissions_of runtime a ≡ permissions_of runtime b
    → is_positive a.id ≡ true
    → is_positive b.id ≡ true
    → a.id ≡ b.id
unfolding permissions_of
permissions_of-injective runtime a b e p q =
    ids-eq a.id b.id (append_cancel_left runtime.config.permission_profile_prefix _ _ e) p q
