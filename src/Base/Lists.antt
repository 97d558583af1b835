-- ===== src/Base/Lists.antt =====
-- List functions over the native numbers, and predicates on lists by recursion.
use Prim.Native.Nat.{ℕ, zero, suc, ◌+◌, ◌≤◌}
use mathlib.Core.Path.{◌≡◌, refl, sym, subst, ap, ◌∙◌}
use mathlib.Core.Logic.{◌⊎◌, inl, inr}
use mathlib.Core.Bool.{Bool, true, false, ◌&&◌, ◌||◌}
use mathlib.Core.Option.{Option, none, some}
use mathlib.Core.List.{List, [], ◌∷◌, ◌++◌, Memᴰ}
use native.Mathlib.Omega.{arith}
use dygo.Base.Tests.{if◌then◌else◌, Bool-cases}

module _ {ℓ} {A : Type ℓ} where
  abbrev pub length : List A → ℕ
  length [] = 0
  length (x ∷ xs) = suc (length xs)

  abbrev pub take : ℕ → List A → List A
  take zero xs = []
  take (suc n) [] = []
  take (suc n) (x ∷ xs) = x ∷ take n xs

  -- The library's `any`, `all` and `filter` over a Boolean test, so that they run.
  abbrev pub any : (A → Bool) → List A → Bool
  any p [] = false
  any p (x ∷ xs) = p x || any p xs

  abbrev pub all : (A → Bool) → List A → Bool
  all p [] = true
  all p (x ∷ xs) = p x && all p xs

  abbrev pub select : (A → Bool) → List A → List A
  select p [] = []
  select p (x ∷ xs) = let rest = select p xs in if p x then x ∷ rest else rest

  abbrev pub find : (A → Bool) → List A → Option A
  find p [] = none
  find p (x ∷ xs) = if p x then some x else find p xs

  abbrev pub All {κ} : (A → Type κ) → List A → Type κ
  All P [] = Unit
  All P (x ∷ xs) = P x × All P xs

  pub length-append : (xs ys : List A) → length (xs ++ ys) ≡ length xs + length ys
  length-append [] ys = omega arith
  length-append (x ∷ xs) ys = omega (arith, length-append xs ys)

  pub length-take-le : (n : ℕ) (xs : List A) → length (take n xs) ≤ n
  length-take-le zero xs = omega arith
  length-take-le (suc n) [] = omega arith
  length-take-le (suc n) (x ∷ xs) = omega (arith, length-take-le n xs)

  pub Memᴰ-take : (n : ℕ) (xs : List A) {a : A} → Memᴰ a (take n xs) → Memᴰ a xs
  Memᴰ-take zero xs m = elim m [ ]
  Memᴰ-take (suc n) [] m = elim m [ ]
  Memᴰ-take (suc n) (x ∷ xs) (Memᴰ.head e) = Memᴰ.head e
  Memᴰ-take (suc n) (x ∷ xs) (Memᴰ.tail m) = Memᴰ.tail (Memᴰ-take n xs m)

  pub All-append {κ} : (P : A → Type κ) (xs ys : List A) → All P xs → All P ys → All P (xs ++ ys)
  All-append P [] ys h k = k
  All-append P (x ∷ xs) ys h k = (h.0, All-append P xs ys h.1 k)

  pub All-imp {κ μ} :
      (P : A → Type κ) (Q : A → Type μ) (xs : List A) → ((a : A) → P a → Q a) → All P xs → All Q xs
  All-imp P Q [] f h = tt
  All-imp P Q (x ∷ xs) f h = (f x h.0, All-imp P Q xs f h.1)

  pub All-mem {κ} : (P : A → Type κ) (xs : List A) {a : A} → All P xs → Memᴰ a xs → P a
  All-mem P [] h m = elim m [ ]
  All-mem P (x ∷ xs) h (Memᴰ.head e) = subst P (sym e) h.0
  All-mem P (x ∷ xs) h (Memᴰ.tail m) = All-mem P xs h.1 m

  pub All-of_mem {κ} : (P : A → Type κ) (xs : List A) → ((a : A) → Memᴰ a xs → P a) → All P xs
  All-of_mem P [] h = tt
  All-of_mem P (x ∷ xs) h = (h x (Memᴰ.head refl), All-of_mem P xs (λ a m. h a (Memᴰ.tail m)))

  kept_mem :
      (p : A → Bool) (x a : A) (ys xs : List A)
      → p x ≡ true
      → (Memᴰ a ys → Memᴰ a xs × (p a ≡ true))
      → Memᴰ a (x ∷ ys)
      → Memᴰ a (x ∷ xs) × (p a ≡ true)
  kept_mem p x a ys xs e ih (Memᴰ.head q) = (Memᴰ.head q, ap p q ∙ e)
  kept_mem p x a ys xs e ih (Memᴰ.tail i) = let (j, t) = ih i in (Memᴰ.tail j, t)

  pub Memᴰ-select :
      (p : A → Bool) (xs : List A) (a : A) → Memᴰ a (select p xs) → Memᴰ a xs × (p a ≡ true)
  Memᴰ-select p [] a m = elim m [ ]
  Memᴰ-select p (x ∷ xs) a m = elim (Bool-cases (p x)) [
    | inl e ↦ kept_mem p x a (select p xs) xs e (Memᴰ-select p xs a) (rw e at m)
    | inr e ↦ let (i, t) = Memᴰ-select p xs a (rw e at m) in (Memᴰ.tail i, t)
  ]

  pub find-some :
      (p : A → Bool) (xs : List A) {a : A} → find p xs ≡ some a → Memᴰ a xs × (p a ≡ true)
  find-some p [] h = cc
  find-some p (x ∷ xs) {a} h = elim (Bool-cases (p x)) [
    | inl e ↦
        let s : some x ≡ some a = rw e at h in
        let q : x ≡ a = cc in (Memᴰ.head (sym q), ap p (sym q) ∙ e)
    | inr e ↦ let (m, t) = find-some p xs (rw e at h) in (Memᴰ.tail m, t)
  ]

  pub mem-select_of :
      (p : A → Bool) (xs : List A) (a : A) → Memᴰ a xs → p a ≡ true → Memᴰ a (select p xs)
  mem-select_of p [] a m t = elim m [ ]
  mem-select_of p (x ∷ xs) a (Memᴰ.head e) t =
      let kept : p x ≡ true = ap p (sym e) ∙ t in rw kept (Memᴰ.head e)
  mem-select_of p (x ∷ xs) a (Memᴰ.tail m) t = elim (Bool-cases (p x)) [
    | inl k ↦ rw k (Memᴰ.tail (mem-select_of p xs a m t))
    | inr k ↦ rw k (mem-select_of p xs a m t)
  ]

  pub any→mem : (p : A → Bool) (xs : List A) → any p xs ≡ true → (a : A) × Memᴰ a xs × (p a ≡ true)
  any→mem p [] h = cc
  any→mem p (x ∷ xs) h = elim (Bool-cases (p x)) [
    | inl e ↦ (x, Memᴰ.head refl, e)
    | inr e ↦ let (a, m, t) = any→mem p xs (rw e at h) in (a, Memᴰ.tail m, t)
  ]

  pub mem→any : (p : A → Bool) (xs : List A) (a : A) → Memᴰ a xs → p a ≡ true → any p xs ≡ true
  mem→any p [] a m t = elim m [ ]
  mem→any p (x ∷ xs) a (Memᴰ.head e) t = let t' : p x ≡ true = ap p (sym e) ∙ t in rw t'
  mem→any p (x ∷ xs) a (Memᴰ.tail m) t = ground (arith, mem→any p xs a m t)

  pub find-append :
      (p : A → Bool) (xs : List A) (x : A)
      → any p xs ≡ false
      → p x ≡ true
      → find p (xs ++ x ∷ []) ≡ some x
  find-append p [] x h t = rw t refl
  find-append p (y ∷ ys) x h t = elim (Bool-cases (p y)) [
    | inl e ↦ let bad : true ≡ false = rw e at h in cc
    | inr e ↦ rw e (find-append p ys x (rw e at h) t)
  ]

  pub List-cases : (xs : List A) → (xs ≡ []) ⊎ ((x : A) × (rest : List A) × (xs ≡ x ∷ rest))
  List-cases [] = inl refl
  List-cases (x ∷ xs) = inr (x, xs, refl)

  -- How many elements pass the test.
  abbrev pub tally : (A → Bool) → List A → ℕ
  tally p [] = 0
  tally p (x ∷ xs) = if p x then suc (tally p xs) else tally p xs

  pub tally_mono :
      (p q : A → Bool) (xs : List A) → ((a : A) → p a ≡ true → q a ≡ true) → tally p xs ≤ tally q xs
  tally_mono p q [] h = omega arith
  tally_mono p q (x ∷ xs) h = ground (arith, h x, tally_mono p q xs h)

  -- A test that drops an element of the list passes fewer.
  pub tally_fewer :
      (p q : A → Bool) (xs : List A) (a : A)
      → ((b : A) → p b ≡ true → q b ≡ true)
      → Memᴰ a xs
      → p a ≡ false
      → q a ≡ true
      → suc (tally p xs) ≤ tally q xs
  tally_fewer p q [] a h m out in_q = elim m [ ]
  tally_fewer p q (x ∷ xs) a h (Memᴰ.head e) out in_q =
      let o : p x ≡ false = ap p (sym e) ∙ out in
      let i : q x ≡ true = ap q (sym e) ∙ in_q in rw (o, i) (ground (arith, tally_mono p q xs h))
  tally_fewer p q (x ∷ xs) a h (Memᴰ.tail m) out in_q =
      ground (arith, h x, tally_fewer p q xs a h m out in_q)

pub Option-cases {ℓ} : {A : Type ℓ} (o : Option A) → (o ≡ none) ⊎ ((a : A) × (o ≡ some a))
Option-cases none = inl refl
Option-cases (some a) = inr (a, refl)
