-- ===== src/RecordQuery/Unique.antt =====
-- SortFilters makes of the same filters, in whatever order, the same list.
use mathlib.Core.Logic.{∥∥₁_elim}
use mathlib.Core.List.{Permᴰ, Perm}
use mathlib.Core.List.Permᴰ
use mathlib.Core.List.Perm
use dygo.Base.{
  List, [], ◌∷◌, true, false, Text, text_lt, ◌≡◌, refl, sym, ap, subst, ◌∙◌, arith, All,
}
use dygo.RecordQuery.Defs.{Filter, sort_filters}
use dygo.RecordQuery.Sorting.{
  IsUpTo, by_field, by_operator, by_value, same, IsSorted, sort_filters_lem, text_lt_trans,
}

text_lt_irrefl : (s : Text) → text_lt s s ≡ false
unfolding text_lt
text_lt_irrefl [] = refl
text_lt_irrefl (c ∷ s) = ground (arith, text_lt_irrefl s)

-- A text is not before itself, also where it has two names.
never {ℓ} : {A : Type ℓ} (s t : Text) → s ≡ t → text_lt s t ≡ true → A
never s t e h = let k = subst (λ x. text_lt x t ≡ true) e h in let i = text_lt_irrefl t in cc

never_both {ℓ} : {A : Type ℓ} (s t : Text) → text_lt s t ≡ true → text_lt t s ≡ true → A
never_both s t h k = never s s refl (text_lt_trans s t s h k)

IsUpTo-antisym : (f g : Filter) → IsUpTo f g → IsUpTo g f → f ≡ g
IsUpTo-antisym f g (same p) b = p
IsUpTo-antisym f g a (same q) = sym q
IsUpTo-antisym f g (by_field a) (by_field b) = never_both f.field g.field a b
IsUpTo-antisym f g (by_field a) (by_operator q b) = never f.field g.field (sym q) a
IsUpTo-antisym f g (by_field a) (by_value q r b) = never f.field g.field (sym q) a
IsUpTo-antisym f g (by_operator p a) (by_field b) = never g.field f.field (sym p) b
IsUpTo-antisym f g (by_operator p a) (by_operator q b) = never_both f.operator g.operator a b
IsUpTo-antisym f g (by_operator p a) (by_value q r b) = never f.operator g.operator (sym r) a
IsUpTo-antisym f g (by_value p o a) (by_field b) = never g.field f.field (sym p) b
IsUpTo-antisym f g (by_value p o a) (by_operator q b) = never g.operator f.operator (sym o) b
IsUpTo-antisym f g (by_value p o a) (by_value q r b) = never_both f.value g.value a b

pub All-Permᴰ {ℓ m} :
    {A : Type ℓ} (P : A → Type m) {xs ys : List A} → Permᴰ xs ys → All P xs → All P ys
All-Permᴰ P Permᴰ.nil h = tt
All-Permᴰ P (Permᴰ.cons e p) h = (subst P e h.0, All-Permᴰ P p h.1)
All-Permᴰ P (Permᴰ.swap e f) h = (subst P f h.1.0, (subst P e h.0, h.1.1))
All-Permᴰ P (Permᴰ.trans p q) h = All-Permᴰ P q (All-Permᴰ P p h)

filter_set : IsSet Filter
filter_set = hlevel

heads :
    (f g : Filter) (fs gs : List Filter)
    → IsSorted (f ∷ fs)
    → IsSorted (g ∷ gs)
    → Permᴰ (f ∷ fs) (g ∷ gs)
    → f ≡ g
heads f g fs gs s t p =
    IsUpTo-antisym f g (All-Permᴰ (IsUpTo f) p (same refl, s.0)).0
      (All-Permᴰ (IsUpTo g) (Permᴰ.symm p) (same refl, t.0)).0

IsSorted-unique : (fs gs : List Filter) → IsSorted fs → IsSorted gs → Perm fs gs → fs ≡ gs
IsSorted-unique [] gs s t p = Perm.nil-eq p
IsSorted-unique (f ∷ fs) [] s t p = Perm.eq-nil p
IsSorted-unique (f ∷ fs) (g ∷ gs) s t p =
    let e = ∥∥₁_elim p (filter_set f g) (heads f g fs gs s t) in
    let tails = Perm.cons_inv (Perm.trans p (Perm.symm (Perm.cons' e Perm.rfl))) in
    ap (λ x. x ∷ fs) e ∙ ap (λ x. g ∷ x) (IsSorted-unique fs gs s.1 t.1 tails)

pub sort_filters-eq_of_perm :
    (fs gs : List Filter) → Permᴰ fs gs → sort_filters fs ≡ sort_filters gs
sort_filters-eq_of_perm fs gs p =
    let (s, q) = sort_filters_lem fs in
    let (t, r) = sort_filters_lem gs in
    IsSorted-unique (sort_filters fs) (sort_filters gs) s t
      ∣ Permᴰ.trans (Permᴰ.symm q) (Permᴰ.trans p r) ∣₁
