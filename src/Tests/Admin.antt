-- ===== src/Tests/Admin.antt =====
-- crates/bridge-server/src/bin/bridge-admin.rs, on a small household.
use alice_llm_bridge.Base.{pos, true, false, if◌then◌else◌, ◌≡◌, refl, none, some, List, [], ◌∷◌}
use alice_llm_bridge.Base.Text.{Text, codes, text_eq, is_ascii_digit}
use alice_llm_bridge.Base.Utf8.{as_bytes}
use alice_llm_bridge.Base.Dict.{get, insert, remove}
use alice_llm_bridge.Household.{HouseContext, SurfaceIdentity}
use alice_llm_bridge.PgHousehold.Tables.{Database, member_key, bound_house}
use alice_llm_bridge.Admin.{
  ok, parse_command, approve_pairing, disable_member, disable_surface, parse_i64,
}
use alice_llm_bridge.Admin.Checked.{IsAdmissible, parse_command-IsAdmissible}
use alice_llm_bridge.Admin.Execute.{Outside, execute}
use alice_llm_bridge.Admin.Disabled.{unless_in, execute-disabled}
use alice_llm_bridge.Tests.Store.{toy}

abbrev approval : List Text
approval =
    codes "pairing"
    ∷ codes "approve"
    ∷ codes "--code"
    ∷ codes "123456"
    ∷ codes "--house"
    ∷ codes "7"
    ∷ []

approval_parsed : parse_command approval ≡ ok (approve_pairing (pos 7) (codes "123456"))
unfolding parse_command text_eq get insert remove as_bytes is_ascii_digit parse_i64
approval_parsed = refl

parse_command-IsAdmissible_example : IsAdmissible (approve_pairing (pos 7) (codes "123456"))
parse_command-IsAdmissible_example =
    parse_command-IsAdmissible approval (approve_pairing (pos 7) (codes "123456")) approval_parsed

abbrev outside : Outside
outside = record { fails = λ statement. false; next_house_id = λ db. pos 3; key = none }

-- an owner of two houses, with a speaker in the first
abbrev two_houses : Database
two_houses = record {
  houses =
      (
        pos 1,
        record {
          name = codes "Дом";
          codex_thread_id = none;
          homey_connector_id = codes "homey-1";
          enabled = true;
        },
      )
      ∷ [];
  members =
      (member_key (pos 1) (codes "O"), record { role = codes "owner"; enabled = true })
      ∷ (member_key (pos 2) (codes "O"), record { role = codes "owner"; enabled = true })
      ∷ [];
  surfaces =
      (codes "s", record { house_id = pos 1; yandex_user_id = codes "O"; enabled = true }) ∷ [];
  pairing_requests = [];
  pending_replies = [];
  continuations = [];
  now = 0;
  fails = λ query. false;
  draws = 0;
}

abbrev first_house : HouseContext
first_house = record {
  id = pos 1;
  name = codes "Дом";
  codex_thread_id = none;
  homey_connector_id = codes "homey-1";
}

still_bound :
    bound_house
      (execute toy outside (disable_member (pos 2) (codes "O")) two_houses).1
      (record { user_id = codes "O"; application_id = codes "s" })
    ≡ some first_house
unfolding execute bound_house get insert remove text_eq
still_bound = refl

-- another account at the speaker that is disabled
abbrev guest : SurfaceIdentity
guest = record { user_id = codes "G"; application_id = codes "s" }

execute-disabled_example :
    (bound_house (execute toy outside (disable_member (pos 2) (codes "O")) two_houses).1 guest
      ≡ unless_in (pos 2) (text_eq (codes "O") (codes "G")) (bound_house two_houses guest))
    × (bound_house (execute toy outside (disable_surface (codes "s")) two_houses).1 guest
        ≡ (if text_eq (codes "s") (codes "s") then none else bound_house two_houses guest))
execute-disabled_example =
    execute-disabled toy outside (pos 2) (codes "O") (codes "s") two_houses guest refl refl
