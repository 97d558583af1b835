-- ===== src/Permissions/Tables.antt =====
-- The tables that the permission queries join.
use dygo.Base.{
  ℕ, Text, codes, List, [], ◌∷◌, Bool, false, ◌&&◌, not, Option, none, some, find, text_eq,
  contains_text, if◌then◌else◌, ℤ, ◌==◌,
}

pub record User : Type 0 where
  pub id : ℤ
  pub enabled : Option Bool

pub record UserRole : Type 0 where
  pub user_id : ℤ
  pub role_id : ℕ

pub record Role : Type 0 where
  pub id : ℕ
  pub name : Text
  pub enabled : Option Bool

pub record App : Type 0 where
  pub id : ℕ
  pub name : Text

pub record Entity : Type 0 where
  pub id : ℕ
  pub app_id : ℕ
  pub key : Text
  pub slug : Text
  pub retired : Bool

pub record Page : Type 0 where
  pub id : ℕ
  pub app_id : ℕ
  pub key : Text
  pub retired : Option Bool

-- A row of "permission": the columns of the built-in actions, and the custom actions.
pub record Permission : Type 0 where
  pub role_id : ℕ
  pub entity_id : Option ℕ
  pub page_id : Option ℕ
  pub retired : Option Bool
  pub read : Option Bool
  pub create : Option Bool
  pub update : Option Bool
  pub delete : Option Bool
  pub export : Option Bool
  pub print : Option Bool
  pub actions : List Text

pub record Tables : Type 0 where
  pub users : List User
  pub user_roles : List UserRole
  pub roles : List Role
  pub apps : List App
  pub entities : List Entity
  pub pages : List Page
  pub permissions : List Permission

-- COALESCE(column, false)
abbrev pub or_false : Option Bool → Bool
or_false none = false
or_false (some b) = b

-- The columns of actionSpecs; `none` for a custom action
unfoldable pub action_column : Text → Permission → Option (Option Bool)
action_column action p =
    if text_eq action (codes "read")
    then some p.read
    else if text_eq action (codes "create")
    then some p.create
    else if text_eq action (codes "update")
    then some p.update
    else if text_eq action (codes "delete")
    then some p.delete
    else if text_eq action (codes "export")
    then some p.export
    else if text_eq action (codes "print")
    then some p.print
    else none

-- IsBuiltInAction
unfoldable pub is_built_in_action : Text → Bool
is_built_in_action action =
    contains_text
      (codes "read"
        ∷ codes "create"
        ∷ codes "update"
        ∷ codes "delete"
        ∷ codes "export"
        ∷ codes "print"
        ∷ [])
      action

-- The condition that Check, CheckRole and loadScopeGrants put on the action.
unfoldable pub grants_action : Text → Permission → Bool
grants_action action p = elim (action_column action p) [
  | some column ↦ or_false column
  | none ↦ contains_text p.actions action
]

-- JOIN entity e ON e.id = p.entity_id AND e.retired = false
abbrev pub entity_of : Tables → Permission → Option Entity
entity_of t p = elim p.entity_id [
  | none ↦ none
  | some i ↦ find (λ (e : Entity). e.id == i && not e.retired) t.entities
]

-- JOIN page pg ON pg.id = p.page_id
abbrev pub page_of : Tables → Permission → Option Page
page_of t p = elim p.page_id [ none ↦ none | some i ↦ find (λ (g : Page). g.id == i) t.pages ]

abbrev pub app_name_is : Tables → ℕ → Text → Bool
app_name_is t i name = elim (find (λ (a : App). a.id == i) t.apps) [
  | none ↦ false
  | some a ↦ text_eq a.name name
]
