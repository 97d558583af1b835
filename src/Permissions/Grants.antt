-- ===== src/Permissions/Grants.antt =====
-- Which permissions Can asks for.
use dygo.Base.{
  and_parts, not-parts, ℕ, Text, Bool, true, false, ◌&&◌, not, some, any→mem, mem→any, Memᴰ, ◌≡◌,
  ◌↔◌, ◌⊎◌, inl, inr, ap, subst, Bool-cases, arith, text_eq, Result, ok, err, ℤ, pos, negsuc, eq_ℤ,
  ◌==◌, ==→≡,
}
use dygo.Permissions.Request.{Resource, Request, Error, normalize_request, entity_kind}
use dygo.Permissions.Tables.{
  User, UserRole, Role, Permission, Tables, or_false, grants_action, is_built_in_action,
}
use dygo.Permissions.Checker.{
  is_target, permission_grants, role_grants, member_grants, user_granted, check, can,
}

eq_ℤ→≡ : (a b : ℤ) → eq_ℤ a b ≡ true → a ≡ b
eq_ℤ→≡ (pos a) (pos b) h = ground arith
eq_ℤ→≡ (pos a) (negsuc b) h = cc
eq_ℤ→≡ (negsuc a) (pos b) h = cc
eq_ℤ→≡ (negsuc a) (negsuc b) h = ground arith

eq_ℤ-refl : (a : ℤ) → eq_ℤ a a ≡ true
eq_ℤ-refl (pos a) = ground arith
eq_ℤ-refl (negsuc a) = ground arith

-- An enabled user has an enabled role with a permission that is not retired, is for the resource,
-- and grants the action.
pub record IsGranted (t : Tables) (user : ℤ) (r : Resource) (action : Text) : Type 0 where
  pub user_row : User
  pub user_listed : Memᴰ user_row t.users
  pub user_named : user_row.id ≡ user
  pub user_enabled : or_false user_row.enabled ≡ true
  pub member : UserRole
  pub member_listed : Memᴰ member t.user_roles
  pub member_named : member.user_id ≡ user_row.id
  pub role : Role
  pub role_listed : Memᴰ role t.roles
  pub role_named : role.id ≡ member.role_id
  pub role_enabled : or_false role.enabled ≡ true
  pub permission : Permission
  pub permission_listed : Memᴰ permission t.permissions
  pub permission_named : permission.role_id ≡ role.id
  pub targeted : is_target t r permission ≡ true
  pub not_retired : or_false permission.retired ≡ false
  pub granting : grants_action action permission ≡ true

and_both : {a b : Bool} → a ≡ true → b ≡ true → (a && b) ≡ true
and_both p q = cc

same_ℤ : {a b : ℤ} → a ≡ b → eq_ℤ a b ≡ true
same_ℤ {a} e = subst (λ c. eq_ℤ a c ≡ true) e (eq_ℤ-refl a)

same_ℕ : {a b : ℕ} → a ≡ b → (a == b) ≡ true
same_ℕ e = ground arith

module _ (t : Tables) (r : Resource) (action : Text) where
  IsGranted-sound : (user : ℤ) → user_granted t user r action ≡ true → IsGranted t user r action
  unfolding user_granted member_grants role_grants permission_grants
  IsGranted-sound user h =
      let (u, u_in, u_ok) = any→mem _ t.users h in
      let (u_test, roles) = and_parts _ _ u_ok in
      let (u_id, u_on) = and_parts _ _ u_test in
      let (m, m_in, m_ok) = any→mem _ t.user_roles roles in
      let (m_id, m_roles) = and_parts _ _ m_ok in
      let (o, o_in, o_ok) = any→mem _ t.roles m_roles in
      let (o_id, o_grants) = and_parts _ _ o_ok in
      let (o_on, o_perms) = and_parts _ _ o_grants in
      let (p, p_in, p_ok) = any→mem _ t.permissions o_perms in
      let (p_id, p_grants) = and_parts _ _ p_ok in
      let (p_target, p_rest) = and_parts _ _ p_grants in
      let (p_live, p_action) = and_parts _ _ p_rest in
      record {
        user_row = u;
        user_listed = u_in;
        user_named = eq_ℤ→≡ u.id user u_id;
        user_enabled = u_on;
        member = m;
        member_listed = m_in;
        member_named = eq_ℤ→≡ m.user_id u.id m_id;
        role = o;
        role_listed = o_in;
        role_named = ==→≡ o.id m.role_id o_id;
        role_enabled = o_on;
        permission = p;
        permission_listed = p_in;
        permission_named = ==→≡ p.role_id o.id p_id;
        targeted = p_target;
        not_retired = not-parts _ p_live;
        granting = p_action;
      }

  IsGranted-complete : (user : ℤ) → IsGranted t user r action → user_granted t user r action ≡ true
  unfolding user_granted member_grants role_grants permission_grants
  IsGranted-complete user g = mem→any _ t.users g.user_row g.user_listed (
      and_both (and_both (same_ℤ g.user_named) g.user_enabled) (
        mem→any _ t.user_roles g.member g.member_listed (
          and_both (same_ℤ g.member_named) (
            mem→any _ t.roles g.role g.role_listed (
              and_both (same_ℕ g.role_named) (
                and_both g.role_enabled (
                  mem→any _ t.permissions g.permission g.permission_listed (
                    and_both (same_ℕ g.permission_named)
                      (and_both g.targeted (and_both (ap not g.not_retired) g.granting))))))))))

-- A custom action is asked of an Entity only.
abbrev pub IsAskable : Resource → Text → Type 0
IsAskable r action = (is_built_in_action action ≡ true) ⊎ (text_eq r.kind entity_kind ≡ true)

absurd_ok : {A : Type 0} {e : Error} → ◌≡◌ {A = Result Error (Unit {0})} (err e) (ok tt) → A
absurd_ok h = cc

askable : (a b : Bool) → (not a && not b) ≡ false → (a ≡ true) ⊎ (b ≡ true)
askable a b h = ground arith

not_askable : (a b : Bool) → (a ≡ true) ⊎ (b ≡ true) → (not a && not b) ≡ false
not_askable a b h = ground arith

-- For a request that normalizes, of an actor who is no administrator, Can answers without an error
-- exactly when the action is built in or the resource is an Entity, and some enabled role of the
-- enabled user has a permission, not retired, that is for the resource and grants the action.
pub can-ok_iff :
    (t : Tables) (request n : Request)
    → normalize_request request ≡ ok n
    → n.actor.administrator ≡ false
    → (can (some t) request ≡ ok tt)
      ↔ (IsAskable n.resource n.action × IsGranted t n.actor.user_id n.resource n.action)
unfolding can check
can-ok_iff t request n normal user = (there, back)
  where
    asked : Bool
    asked = not (is_built_in_action n.action) && not (text_eq n.resource.kind entity_kind)

    granted : Bool
    granted = user_granted t n.actor.user_id n.resource n.action

    there :
        can (some t) request ≡ ok tt
        → IsAskable n.resource n.action × IsGranted t n.actor.user_id n.resource n.action
    there h = elim (Bool-cases asked) [
      | inl a ↦ absurd_ok (rw (normal, user, a) at h)
      | inr a ↦ elim (Bool-cases granted) [
        | inl g ↦ (askable _ _ a, IsGranted-sound t n.resource n.action n.actor.user_id g)
        | inr g ↦ absurd_ok (rw (normal, user, a, g) at h)
      ]
    ]

    back :
        IsAskable n.resource n.action × IsGranted t n.actor.user_id n.resource n.action
        → can (some t) request ≡ ok tt
    back (a, g) = rw (
      normal,
      user,
      not_askable _ _ a,
      IsGranted-complete t n.resource n.action n.actor.user_id g,
    )
