-- ===== src/Permissions/Samples.antt =====
-- One user with one role that may read the Entity "task".
use dygo.Base.{
  codes, [], ◌∷◌, true, false, some, none, pos, ok, text_eq, contains_text, is_empty, trim_space,
  ◌≡◌, refl, ◌↔◌,
}
use dygo.Names.{is_name, validate_metadata_name}
use dygo.Permissions.Request.{Actor, Request, normalize_request, trimmed, parse_action, entity_kind}
use dygo.Permissions.Tables.{Tables, is_built_in_action, grants_action, action_column}
use dygo.Permissions.Checker.{
  check, can, user_granted, member_grants, role_grants, permission_grants, is_target,
}
use dygo.Permissions.Grants.{IsGranted, IsAskable, can-ok_iff}
use dygo.Permissions.Normal.{
  IsNormal, legacy, by_resource, check-legacy, normalize_request-IsNormal,
}

abbrev tables : Tables
tables = record {
  users = record { id = pos 5; enabled = some true } ∷ [];
  user_roles = record { user_id = pos 5; role_id = 2 } ∷ [];
  roles = record { id = 2; name = codes "clerk"; enabled = some true } ∷ [];
  apps = record { id = 1; name = codes "crm" } ∷ [];
  entities =
      record { id = 9; app_id = 1; key = codes "task"; slug = codes "task"; retired = false } ∷ [];
  pages = [];
  permissions =
      record {
        role_id = 2;
        entity_id = some 9;
        page_id = none;
        retired = some false;
        read = some true;
        create = none;
        update = none;
        delete = none;
        export = none;
        print = none;
        actions = [];
      }
      ∷ [];
}

abbrev clerk : Actor
clerk = record { user_id = pos 5; email = codes "c@x"; administrator = false }

abbrev reading : Request
reading = legacy clerk (codes " task ") (codes "read") (pos 3)

abbrev normal_reading : Request
normal_reading = record {
  actor = clerk;
  entity = codes "task";
  resource = record { kind = entity_kind; app = []; name = codes "task" };
  action = codes "read";
  record_id = pos 3;
}

reading_normal : normalize_request reading ≡ ok normal_reading
unfolding normalize_request trimmed parse_action validate_metadata_name is_name text_eq trim_space
reading_normal = refl

reading_allowed : can (some tables) reading ≡ ok tt
unfolding can check normalize_request trimmed parse_action validate_metadata_name is_name text_eq
    trim_space user_granted member_grants role_grants permission_grants is_target is_built_in_action
    grants_action action_column contains_text
reading_allowed = refl

can-ok_iff_example : (can (some tables) reading ≡ ok tt) ↔ (
    IsAskable normal_reading.resource normal_reading.action
    × IsGranted tables normal_reading.actor.user_id normal_reading.resource normal_reading.action)
can-ok_iff_example = can-ok_iff tables reading normal_reading reading_normal refl

task_named : is_empty (trim_space (codes "task")) ≡ false
unfolding trim_space
task_named = refl

check-legacy_example :
    check (some tables) (legacy clerk (codes "task") (codes "read") (pos 3))
    ≡ check (some tables) (by_resource clerk (codes "task") (codes "read") (pos 3))
check-legacy_example =
    check-legacy (some tables) clerk (codes "task") (codes "read") (pos 3) task_named

normalize_request-IsNormal_example : IsNormal normal_reading
normalize_request-IsNormal_example =
    normalize_request-IsNormal reading normal_reading reading_normal
