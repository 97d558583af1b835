-- ===== src/Permissions/Checker.antt =====
-- Check, Can and CheckRole.
use dygo.Base.{
  Text, Bool, true, false, ◌&&◌, not, Option, none, some, any, text_eq, is_empty, trim_space,
  if◌then◌else◌, Result, ok, err, reject, ◌>>=◌, ◌>>◌, ℤ, eq_ℤ, ◌==◌,
}
use dygo.Permissions.Request.{
  Resource, Request, Error, normalize_request, parse_action, entity_kind, page_kind, denied,
  no_queryer, no_role, no_entity, custom_needs_entity,
}
use dygo.Permissions.Tables.{
  User, UserRole, Role, Permission, Tables, or_false, grants_action, is_built_in_action, entity_of,
  page_of, app_name_is,
}

-- targetSQL of Check
unfoldable pub is_target : Tables → Resource → Permission → Bool
is_target t r p =
    if text_eq r.kind page_kind
    then elim (page_of t p) [
      | none ↦ false
      | some g ↦ app_name_is t g.app_id r.app && (text_eq g.key r.name && not (or_false g.retired))
    ]
    else elim (entity_of t p) [
      | none ↦ false
      | some e ↦
          if is_empty r.app
          then text_eq e.slug r.name
          else app_name_is t e.app_id r.app && text_eq e.key r.name
    ]

-- The row of "permission" passes every condition of the query of Check.
unfoldable pub permission_grants : Tables → Resource → Text → Permission → Bool
permission_grants t r action p =
    is_target t r p && (not (or_false p.retired) && grants_action action p)

unfoldable pub role_grants : Tables → Resource → Text → Role → Bool
role_grants t r action role =
    or_false role.enabled
    && any (λ (p : Permission). p.role_id == role.id && permission_grants t r action p)
        t.permissions

unfoldable pub member_grants : Tables → Resource → Text → UserRole → Bool
member_grants t r action m =
    any (λ (role : Role). role.id == m.role_id && role_grants t r action role) t.roles

-- The SELECT EXISTS of Check.
unfoldable pub user_granted : Tables → ℤ → Resource → Text → Bool
user_granted t user r action =
    any
      (λ (u : User).
        (eq_ℤ u.id user && or_false u.enabled)
        && any (λ (m : UserRole). eq_ℤ m.user_id u.id && member_grants t r action m) t.user_roles)
      t.users

-- Decision
pub record Decision : Type 0 where
  pub allowed : Bool
  pub request : Request

-- Check for a normalized request; the database is `none` where the checker has no queryer.
abbrev pub check_normal : Option Tables → Request → Result Error Decision
check_normal db n =
    if n.actor.administrator then ok (record { allowed = true; request = n }) else elim db [
      | none ↦ err no_queryer
      | some t ↦
          if not (is_built_in_action n.action) && not (text_eq n.resource.kind entity_kind)
          then err custom_needs_entity
          else ok
              (record { allowed = user_granted t n.actor.user_id n.resource n.action; request = n })
    ]

-- Checker.Check
unfoldable pub check : Option Tables → Request → Result Error Decision
check db request = normalize_request request >>= check_normal db

-- Checker.Can, which CanResource and Authorize call; CheckResource and CanResource pass a request
-- whose Entity is empty
unfoldable pub can : Option Tables → Request → Result Error (Unit {0})
can db request = do d ← check db request; if d.allowed then ok tt else err denied

-- The SELECT EXISTS of CheckRole.
unfoldable pub role_granted : Tables → Text → Text → Text → Bool
role_granted t role entity action =
    any
      (λ (p : Permission).
        any (λ (r : Role). (r.id == p.role_id && or_false r.enabled) && text_eq r.name role) t.roles
        && (elim (entity_of t p) [ none ↦ false | some e ↦ text_eq e.slug entity ]
            && (not (or_false p.retired) && grants_action action p)))
      t.permissions

-- CheckRole
unfoldable pub check_role : Option Tables → Text → Text → Text → Result Error Bool
check_role db role entity action = do
  reject (is_empty (trim_space role)) no_role
  reject (is_empty (trim_space entity)) no_entity
  parse_action (trim_space action) >>= (λ _. elim db [
    | none ↦ err no_queryer
    | some t ↦ ok (role_granted t (trim_space role) (trim_space entity) (trim_space action))
  ])
