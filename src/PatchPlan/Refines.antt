-- ===== src/PatchPlan/Refines.antt =====
-- The plan of all patches against the database.
use dygo.Base.{
  ℕ, suc, List, [], ◌∷◌, ◌++◌, false, ◌||◌, ◌≡◌, refl, sym, ap, subst, ◌∙◌, ok, OnOk-ok, bind-ok,
  or_parts,
}
use mathlib.Core.List.{append_assoc, append-nil}
use dygo.PatchPlan.Defs.{
  Statement, LiveSchema, LoadedEntity, LoadedPatch, PatchOperation, PatchOperationPlan, Operation,
  Unicode, is_sql, plan_kind, plan_patch, plan_patches, check_entities, build_patch_operation_plan,
}
use dygo.PatchPlan.Effects.{
  Accepts, Shape, Runs, UsingRefused, Attempt, it_runs, using_refused, shape_of,
}
use dygo.PatchPlan.Simulation.{Simulated, plan_kind-Attempt}

-- Statements run one after another, up to the end or up to a USING expression that is not accepted.
pub data RunsAll (accepts : Accepts) : List PatchOperation → Shape → Shape → Type 0 where
  done : {s : Shape} → RunsAll accepts [] s s
  next :
      {s s' s'' : Shape} {rest : List PatchOperation} (p : PatchOperation)
      → Runs accepts p.statement s s'
      → RunsAll accepts rest s' s''
      → RunsAll accepts (p ∷ rest) s s''
  stops :
      {s s'' : Shape} {rest : List PatchOperation} (p : PatchOperation)
      → UsingRefused accepts p.statement s
      → RunsAll accepts (p ∷ rest) s s''

module _ (accepts : Accepts) where
  RunsAll-append :
      {s s' s'' : Shape} (ps qs : List PatchOperation)
      → RunsAll accepts ps s s'
      → RunsAll accepts qs s' s''
      → RunsAll accepts (ps ++ qs) s s''
  RunsAll-append [] qs done r = r
  RunsAll-append (p ∷ ps) qs (stops _ x) r = stops p x
  RunsAll-append (p ∷ ps) qs (next _ run more) r = next p run (RunsAll-append ps qs more r)

  first :
      {s s' : Shape} (p : PatchOperation)
      → Attempt accepts p.statement s s'
      → RunsAll accepts (p ∷ []) s s'
  first p (it_runs r) = next p r done
  first p (using_refused r) = stops p r

  -- A plan goes on to another: nothing of it is lost, and what was added runs.
  abbrev Extends : PatchOperationPlan → PatchOperationPlan → Type 0
  Extends p q =
      q.unsimulated_sql ≡ false
      → (p.unsimulated_sql ≡ false)
        × (added : List PatchOperation) × (q.operations ≡ p.operations ++ added)
        × RunsAll accepts added (shape_of p.schema_after) (shape_of q.schema_after)

  Extends-trans : (p q r : PatchOperationPlan) → Extends p q → Extends q r → Extends p r
  Extends-trans p q r pq qr none_in_r =
      let (none_in_q, more, f, runs) = qr none_in_r in
      let (none_in_p, added, e, ran) = pq none_in_q in
      (
        none_in_p,
        added ++ more,
        f ∙ ap (λ os. os ++ more) e ∙ append_assoc p.operations added more,
        RunsAll-append added more ran runs,
      )

  Extends-self : (p : PatchOperationPlan) → Extends p p
  Extends-self p none_in_p = (none_in_p, [], sym (append-nil p.operations), done)

  module _ (entities : List LoadedEntity) (u : Unicode) where
    plan_patch-Extends :
        (patch : LoadedPatch) (index : ℕ) (os : List Operation) (p q : PatchOperationPlan)
        → plan_patch entities u patch index os p ≡ ok q
        → Extends p q
    unfolding plan_patch
    plan_patch-Extends patch index [] p q h =
        let same : p ≡ q = cc in subst (Extends p) same (Extends-self p)
    plan_patch-Extends patch index (o ∷ os) p q h =
        let (planned, e, k) =
          bind-ok (plan_kind entities patch.app u o.kind o p.schema_after) _ q h in
        let entry : PatchOperation = record {
          patch_id = patch.id;
          operation_index = index;
          kind = o.kind;
          statement = planned.0;
        } in
        let mid : PatchOperationPlan = record {
          operations = p.operations ++ entry ∷ [];
          schema_after = planned.1;
          unsimulated_sql = p.unsimulated_sql || is_sql o.kind;
        } in
        Extends-trans p mid q (one p o entry planned e refl)
          (plan_patch-Extends patch (suc index) os mid q k)
      where
        one :
            (p : PatchOperationPlan) (o : Operation) (entry : PatchOperation)
            (planned : Statement × LiveSchema)
            → plan_kind entities patch.app u o.kind o p.schema_after ≡ ok planned
            → entry.statement ≡ planned.0
            → Extends p (record {
              operations = p.operations ++ entry ∷ [];
              schema_after = planned.1;
              unsimulated_sql = p.unsimulated_sql || is_sql o.kind;
            })
        one p o entry planned e same h =
            let (no_sql_before, no_sql) = or_parts p.unsimulated_sql (is_sql o.kind) h in
            let runs =
              OnOk-ok (Simulated accepts p.schema_after)
                (plan_kind entities patch.app u o.kind o p.schema_after)
                (plan_kind-Attempt accepts entities patch.app u o.kind o p.schema_after no_sql) e in
            (
              no_sql_before,
              entry ∷ [],
              refl,
              first entry (
                  subst (λ st. Attempt accepts st (shape_of p.schema_after) (shape_of planned.1))
                    (sym same) runs),
            )

    plan_patches-Extends :
        (patches : List LoadedPatch) (p q : PatchOperationPlan)
        → plan_patches entities u patches p ≡ ok q
        → Extends p q
    unfolding plan_patches
    plan_patches-Extends [] p q h = let same : p ≡ q = cc in subst (Extends p) same (Extends-self p)
    plan_patches-Extends (patch ∷ rest) p q h =
        let (mid, e, k) = bind-ok (plan_patch entities u patch 0 patch.operations p) _ q h in
        Extends-trans p mid q (plan_patch-Extends patch 0 patch.operations p mid e)
          (plan_patches-Extends rest mid q k)

  -- A plan without operations that are SQL: on a database with the schema that was inspected, its statements
  -- find, one after another, the tables and columns that they need and leave those free that they take, and
  -- the names and types of the columns afterwards are those of the plan's schema. Only a change of a
  -- column's type may end this before: it finds its table and column, and its USING expression, which is
  -- the patch's own, is not accepted over the columns that are there then. Which expressions are accepted is
  -- any function (`accepts`).
  pub build_patch_operation_plan-RunsAll :
      (u : Unicode) (loaded : List LoadedPatch) (entities : List LoadedEntity) (live : LiveSchema)
      (plan : PatchOperationPlan)
      → build_patch_operation_plan u loaded entities live ≡ ok plan
      → plan.unsimulated_sql ≡ false
      → RunsAll accepts plan.operations (shape_of live) (shape_of plan.schema_after)
  unfolding build_patch_operation_plan
  build_patch_operation_plan-RunsAll u loaded entities live plan h no_sql =
      let start : PatchOperationPlan = record {
        operations = [];
        schema_after = live;
        unsimulated_sql = false;
      } in
      let (_, _, k) = bind-ok (check_entities [] entities) _ plan h in
      let (_, added, e, runs) = plan_patches-Extends entities u loaded start plan k no_sql in
      subst (λ os. RunsAll accepts os (shape_of live) (shape_of plan.schema_after)) (sym e) runs
