-- ===== src/Permissions/Request.antt =====
-- The requests of internal/permissions/permissions.go and pkg/dygo/permissions.go, and their
-- normal form.
use dygo.Base.{
  Text, codes, Bool, ◌&&◌, not, if◌then◌else◌, text_eq, is_empty, trim_space, Result, ok, err,
  reject, ◌>>=◌, ◌>>◌, ℤ, pos, ltb_ℤ, [],
}
use dygo.Names.{NameError, validate_metadata_name}

-- Actor
pub record Actor : Type 0 where
  pub user_id : ℤ
  pub email : Text
  pub administrator : Bool

-- Resource; its kind is the text "entity" or "page" once it is checked.
pub record Resource : Type 0 where
  pub kind : Text
  pub app : Text
  pub name : Text

-- Request
pub record Request : Type 0 where
  pub actor : Actor
  pub entity : Text
  pub resource : Resource
  pub action : Text
  pub record_id : ℤ

-- The errors with code invalid_request, permission_denied and internal_error.
pub data Error : Type 0 where
  bad_user both_given bad_kind no_name no_page_app bad_record custom_needs_entity : Error
  bad_action : NameError → Error
  denied : Error
  no_queryer query_failed : Error
  no_role no_entity : Error

abbrev pub entity_kind : Text
entity_kind = codes "entity"

abbrev pub page_kind : Text
page_kind = codes "page"

abbrev pub is_blank_resource : Resource → Bool
is_blank_resource r = is_empty r.kind && is_empty r.app && is_empty r.name

-- ParseAction: the trimmed name, which has to be a metadata name
unfoldable pub parse_action : Text → Result Error Text
parse_action value = elim (validate_metadata_name (trim_space value)) [
  | err e ↦ err (bad_action e)
  | ok u ↦ ok (trim_space value)
]

-- The resource that an Entity-shaped request stands for.
abbrev pub effective_resource : Request → Resource
effective_resource r =
    if is_blank_resource r.resource && not (is_empty (trim_space r.entity))
    then record { kind = entity_kind; app = []; name = trim_space r.entity }
    else r.resource

abbrev pub trim_resource : Resource → Resource
trim_resource r = record {
  kind = trim_space r.kind;
  app = trim_space r.app;
  name = trim_space r.name;
}

-- `normalized` in normalizeRequest, before its checks
unfoldable pub trimmed : Request → Request
trimmed r = record {
  actor = r.actor;
  entity = trim_space r.entity;
  resource = trim_resource (effective_resource r);
  action = trim_space r.action;
  record_id = r.record_id;
}

-- normalizeRequest; its second result is the resource of the first
unfoldable pub normalize_request : Request → Result Error Request
normalize_request r = do
  let n = trimmed r
  let is_page = text_eq n.resource.kind page_kind
  let is_entity = text_eq n.resource.kind entity_kind
  reject (not (ltb_ℤ (pos 0) n.actor.user_id)) bad_user
  reject (not (is_empty n.entity) && not (is_blank_resource r.resource)) both_given
  reject (not is_entity && not is_page) bad_kind
  reject (is_empty n.resource.name) no_name
  reject (is_page && is_empty n.resource.app) no_page_app
  reject (ltb_ℤ n.record_id (pos 0)) bad_record
  parse_action n.action >>= λ _. ok (if is_entity then record n { entity = n.resource.name } else n)
