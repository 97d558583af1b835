-- ===== src/Permissions/Normal.antt =====
-- What normalizeRequest returns.
use dygo.Base.{
  Text, [], Bool, true, false, ◌&&◌, not, Option, ◌≡◌, ◌⊎◌, inl, inr, refl, ap, subst, Bool-cases,
  arith, text_eq, text_eq→≡, ≡→text_eq, is_empty, trim_space, trim_space_idem, if◌then◌else◌,
  Result, ok, OnOk, OnOk-bind, OnOk-reject, reject, ◌>>=◌, ◌>>◌, ℤ, pos, ltb_ℤ,
}
use dygo.Permissions.Request.{
  Actor, Request, Error, normalize_request, parse_action, trimmed, is_blank_resource, entity_kind,
  page_kind, bad_user, both_given, bad_kind, no_name, no_page_app, bad_record,
}
use dygo.Permissions.Tables.{Tables}
use dygo.Permissions.Checker.{check, check_normal}

-- The request that names an Entity by its slug.
abbrev pub legacy : Actor → Text → Text → ℤ → Request
legacy actor entity action record_id = record {
  actor = actor;
  entity = entity;
  resource = record { kind = []; app = []; name = [] };
  action = action;
  record_id = record_id;
}

-- The request that names the Entity as a resource without an app.
abbrev pub by_resource : Actor → Text → Text → ℤ → Request
by_resource actor entity action record_id = record {
  actor = actor;
  entity = [];
  resource = record { kind = entity_kind; app = []; name = entity };
  action = action;
  record_id = record_id;
}

trim_nil : trim_space [] ≡ []
unfolding trim_space
trim_nil = refl

trim_kind : trim_space entity_kind ≡ entity_kind
unfolding trim_space
trim_kind = refl

normalize_request-legacy :
    (actor : Actor) (entity action : Text) (record_id : ℤ)
    → is_empty (trim_space entity) ≡ false
    → normalize_request (legacy actor entity action record_id)
      ≡ normalize_request (by_resource actor entity action record_id)
unfolding normalize_request trimmed text_eq
normalize_request-legacy actor entity action record_id h =
    simp (h, trim_nil, trim_kind, trim_space_idem)

-- For an entity name that is not blank, Check answers the same for the Entity-shaped request and
-- for the resource-shaped request, with and without a database.
pub check-legacy :
    (db : Option Tables) (actor : Actor) (entity action : Text) (record_id : ℤ)
    → is_empty (trim_space entity) ≡ false
    → check db (legacy actor entity action record_id)
      ≡ check db (by_resource actor entity action record_id)
unfolding check
check-legacy db actor entity action record_id h =
    ap (λ (m : Result Error Request). m >>= check_normal db)
      (normalize_request-legacy actor entity action record_id h)

abbrev IsTrimmed : Text → Type 0
IsTrimmed s = trim_space s ≡ s

-- What a normalized request satisfies.
pub record IsNormal (n : Request) : Type 0 where
  pub user_positive : ltb_ℤ (pos 0) n.actor.user_id ≡ true
  pub kind_known : (n.resource.kind ≡ entity_kind) ⊎ (n.resource.kind ≡ page_kind)
  pub named : is_empty n.resource.name ≡ false
  pub page_has_app : n.resource.kind ≡ page_kind → is_empty n.resource.app ≡ false
  pub record_natural : ltb_ℤ n.record_id (pos 0) ≡ false
  pub entity_is_name : n.resource.kind ≡ entity_kind → n.entity ≡ n.resource.name
  pub app_trimmed : IsTrimmed n.resource.app
  pub name_trimmed : IsTrimmed n.resource.name
  pub action_trimmed : IsTrimmed n.action

known_kind :
    (is_entity is_page : Bool)
    → (not is_entity && not is_page) ≡ false
    → (is_entity ≡ true) ⊎ (is_page ≡ true)
known_kind a b h = ground arith

second_false : (a b : Bool) → (a && b) ≡ false → a ≡ true → b ≡ false
second_false a b h t = ground arith

module _ (n : Request) (user : ltb_ℤ (pos 0) n.actor.user_id ≡ true)
    (kind : (text_eq n.resource.kind entity_kind ≡ true)
      ⊎ (text_eq n.resource.kind page_kind ≡ true))
    (name : is_empty n.resource.name ≡ false)
    (page : (text_eq n.resource.kind page_kind && is_empty n.resource.app) ≡ false)
    (natural : ltb_ℤ n.record_id (pos 0) ≡ false) (app_ok : IsTrimmed n.resource.app)
    (name_ok : IsTrimmed n.resource.name) (action_ok : IsTrimmed n.action) where
  kind_of : (n.resource.kind ≡ entity_kind) ⊎ (n.resource.kind ≡ page_kind)
  kind_of = elim kind [
    | inl e ↦ inl (text_eq→≡ n.resource.kind entity_kind e)
    | inr e ↦ inr (text_eq→≡ n.resource.kind page_kind e)
  ]

  page_app : n.resource.kind ≡ page_kind → is_empty n.resource.app ≡ false
  page_app e = second_false _ _ page (≡→text_eq n.resource.kind page_kind e)

  finished-IsNormal :
      IsNormal
        (if text_eq n.resource.kind entity_kind then record n { entity = n.resource.name } else n)
  finished-IsNormal = elim (Bool-cases (text_eq n.resource.kind entity_kind)) [
    | inl e ↦ rw e (record {
      user_positive = user;
      kind_known = kind_of;
      named = name;
      page_has_app = page_app;
      record_natural = natural;
      entity_is_name = λ _. refl;
      app_trimmed = app_ok;
      name_trimmed = name_ok;
      action_trimmed = action_ok;
    })
    | inr e ↦ rw e (record {
      user_positive = user;
      kind_known = kind_of;
      named = name;
      page_has_app = page_app;
      record_natural = natural;
      entity_is_name = λ k. let t = ≡→text_eq n.resource.kind entity_kind k in cc;
      app_trimmed = app_ok;
      name_trimmed = name_ok;
      action_trimmed = action_ok;
    })
  ]

not-false : (b : Bool) → not b ≡ false → b ≡ true
not-false b h = ground arith

normalized-IsNormal : (r : Request) → OnOk IsNormal (normalize_request r)
unfolding normalize_request trimmed
normalized-IsNormal r =
    let n = trimmed r in
    let is_page = text_eq n.resource.kind page_kind in
    let is_entity = text_eq n.resource.kind entity_kind in
    let last : Result Error Request = parse_action n.action >>= λ _.
    ok (if is_entity then record n { entity = n.resource.name } else n) in
    let k6 = reject (ltb_ℤ n.record_id (pos 0)) bad_record >> last in
    let k5 = reject (is_page && is_empty n.resource.app) no_page_app >> k6 in
    let k4 = reject (is_empty n.resource.name) no_name >> k5 in
    let k3 = reject (not is_entity && not is_page) bad_kind >> k4 in
    let k2 =
      reject (not (is_empty n.entity) && not (is_blank_resource r.resource)) both_given >> k3 in
    OnOk-reject IsNormal (not (ltb_ℤ (pos 0) n.actor.user_id)) bad_user k2 λ user.
      OnOk-reject IsNormal (not (is_empty n.entity) && not (is_blank_resource r.resource))
        both_given k3
        λ both. OnOk-reject IsNormal (not is_entity && not is_page) bad_kind k4 λ kind.
          OnOk-reject IsNormal (is_empty n.resource.name) no_name k5 λ name.
            OnOk-reject IsNormal (is_page && is_empty n.resource.app) no_page_app k6 λ page.
              OnOk-reject IsNormal (ltb_ℤ n.record_id (pos 0)) bad_record last λ natural.
                OnOk-bind IsNormal (parse_action n.action) _ λ a _.
                  finished-IsNormal n (not-false _ user) (known_kind _ _ kind) name page natural
                    (trim_space_idem _) (trim_space_idem _) (trim_space_idem _)

-- A request that normalizeRequest returns has a positive user, the kind entity or page, a name, an
-- app if it is a page, a record id that is not negative, its entity set to the name of an entity
-- resource, and an app, a name and an action without space around them.
pub normalize_request-IsNormal : (r n : Request) → normalize_request r ≡ ok n → IsNormal n
normalize_request-IsNormal r n h = subst (OnOk IsNormal) h (normalized-IsNormal r)
