-- ===== src/AppOrder/Samples.antt =====
-- Three Apps.
use dygo.Base.{
  ℕ, Text, codes, List, [], ◌∷◌, ◌≡◌, ◌≢◌, refl, arith, ok, err, if◌then◌else◌, text_eq, text_lt,
  contains_text, trim_space,
}
use dygo.AppOrder.Correct.{IsOrderOf, dependency_order-IsOrderOf}
use dygo.AppOrder.Total.{dependency_order-ok, dependency_order_ends}
use dygo.AppOrder.Defs.{LoadedApp, cycle, out_of_fuel, dependency_order}

abbrev app : Text → List Text → LoadedApp
app name dependencies = record { manifest_path = []; name = name; dependencies = dependencies }

abbrev crm : LoadedApp
crm = app (codes "crm") (codes "core" ∷ codes "mail" ∷ codes "core" ∷ [])

abbrev mail : LoadedApp
mail = app (codes "mail") (codes "core" ∷ [])

abbrev core : LoadedApp
core = app (codes "core") []

ordered_apps : dependency_order (crm ∷ mail ∷ core ∷ []) ≡ ok (core ∷ mail ∷ crm ∷ [])
unfolding dependency_order text_eq text_lt
ordered_apps = refl

cycle_found :
    dependency_order (mail ∷ app (codes "core") (codes "mail" ∷ []) ∷ [])
    ≡ err (cycle (codes "core" ∷ codes "mail" ∷ []))
unfolding dependency_order text_eq text_lt
cycle_found = refl

abbrev three_apps : List LoadedApp
three_apps = crm ∷ mail ∷ core ∷ []

dependency_order-IsOrderOf_example : IsOrderOf three_apps (core ∷ mail ∷ crm ∷ [])
dependency_order-IsOrderOf_example =
    dependency_order-IsOrderOf three_apps (core ∷ mail ∷ crm ∷ []) ordered_apps

-- The place of an App in the order.
abbrev rank : Text → ℕ
unfolding text_eq
rank x = if text_eq x (codes "core") then 0 else if text_eq x (codes "mail") then 1 else 2

dependency_order-ok_example :
    (ordered : List LoadedApp) × (dependency_order three_apps ≡ ok ordered)
unfolding contains_text text_eq trim_space rank
dependency_order-ok_example =
    dependency_order-ok three_apps rank (refl, (refl, (refl, tt))) (refl, (refl, (refl, tt)))
      ((refl, (refl, (refl, tt))), ((refl, tt), (tt, tt))) (omega arith)

-- Two Apps that depend on each other.
abbrev tangled : List LoadedApp
tangled = mail ∷ app (codes "core") (codes "mail" ∷ []) ∷ []

dependency_order_ends_example : dependency_order tangled ≢ err out_of_fuel
dependency_order_ends_example = dependency_order_ends tangled
