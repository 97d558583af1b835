-- ===== src/AppOrder/Sets.antt =====
-- Lists of texts as sets: membership tests, lists without repeats, and how many pass a test.
use dygo.Base.{
  text_eq_comm, NoRepeat, tally, ℕ, suc, ◌≤◌, Text, List, [], ◌∷◌, ◌++◌, Bool, true, false, ◌&&◌,
  ◌||◌, select, length, text_eq, text_eq_refl, text_eq→≡, text_lt, contains_text, ◌≡◌, refl, sym,
  ap, subst, ◌∙◌, Bool-cases, inl, inr, arith,
}
use dygo.AppOrder.Defs.{insert_text, sort_texts}

pub contains-append :
    (xs ys : List Text) (t : Text)
    → contains_text (xs ++ ys) t ≡ (contains_text xs t || contains_text ys t)
unfolding contains_text
contains-append [] ys t = refl
contains-append (x ∷ xs) ys t = ground (arith, contains-append xs ys t)

pub contains-insert :
    (s : Text) (xs : List Text) (t : Text)
    → contains_text (insert_text s xs) t ≡ (text_eq s t || contains_text xs t)
unfolding contains_text insert_text
contains-insert s [] t = refl
contains-insert s (x ∷ xs) t = ground (arith, contains-insert s xs t)

pub contains-sort :
    (xs : List Text) (t : Text) → contains_text (sort_texts xs) t ≡ contains_text xs t
unfolding contains_text sort_texts
contains-sort [] t = refl
contains-sort (x ∷ xs) t =
    contains-insert x (sort_texts xs) t ∙ ap (λ b. text_eq x t || b) (contains-sort xs t)

pub NoRepeat-insert :
    (s : Text) (xs : List Text)
    → contains_text xs s ≡ false
    → NoRepeat xs
    → NoRepeat (insert_text s xs)
unfolding insert_text contains_text
NoRepeat-insert s [] h d = (refl, tt)
NoRepeat-insert s (x ∷ xs) h d = elim (Bool-cases (text_lt x s)) [
  | inl e ↦ rw e (
    (contains-insert s xs x ∙ ground (arith, text_eq_comm s x)),
    NoRepeat-insert s xs (ground arith) d.1,
  )
  | inr e ↦ rw e (h, d)
]

pub NoRepeat-sort : (xs : List Text) → NoRepeat xs → NoRepeat (sort_texts xs)
unfolding sort_texts
NoRepeat-sort [] d = tt
NoRepeat-sort (x ∷ xs) d =
    NoRepeat-insert x (sort_texts xs) (contains-sort xs x ∙ d.0) (NoRepeat-sort xs d.1)

pub NoRepeat-concat :
    (xs : List Text) (t : Text) → NoRepeat xs → contains_text xs t ≡ false → NoRepeat (xs ++ t ∷ [])
unfolding contains_text
NoRepeat-concat [] t d h = (refl, tt)
NoRepeat-concat (x ∷ xs) t d h = (
  ground (arith, contains-append xs (t ∷ []) x, text_eq_comm x t),
  NoRepeat-concat xs t d.1 (ground arith),
)

pub contains-select :
    (p : Text → Bool) (xs : List Text) (t : Text)
    → contains_text (select p xs) t ≡ (contains_text xs t && p t)
unfolding contains_text
contains-select p [] t = refl
contains-select p (x ∷ xs) t = elim (Bool-cases (text_eq x t)) [
  | inl e ↦
      let q = text_eq→≡ x t e in
      subst (λ u. contains_text (select p (x ∷ xs)) u ≡ (contains_text (x ∷ xs) u && p u)) q
        (ground (arith, contains-select p xs x, text_eq_refl x))
  | inr e ↦ ground (arith, contains-select p xs t)
]

pub NoRepeat-select : (p : Text → Bool) (xs : List Text) → NoRepeat xs → NoRepeat (select p xs)
NoRepeat-select p [] d = tt
NoRepeat-select p (x ∷ xs) d = elim (Bool-cases (p x)) [
  | inl e ↦ rw e (contains-select p xs x ∙ rw d.0 refl, NoRepeat-select p xs d.1)
  | inr e ↦ rw e (NoRepeat-select p xs d.1)
]

pub tally_ext :
    (p q : Text → Bool) (xs : List Text) → ((t : Text) → p t ≡ q t) → tally p xs ≡ tally q xs
tally_ext p q [] h = refl
tally_ext p q (x ∷ xs) h = ground (arith, h x, tally_ext p q xs h)

tally_same :
    (p q : Text → Bool) (d : Text) (xs : List Text)
    → ((t : Text) → q t ≡ (p t || text_eq d t))
    → contains_text xs d ≡ false
    → tally q xs ≡ tally p xs
unfolding contains_text
tally_same p q d [] h a = refl
tally_same p q d (x ∷ xs) h a = ground (arith, h x, text_eq_comm d x, tally_same p q d xs h)

-- A test that lets one more text pass.
pub tally_one_more :
    (p q : Text → Bool) (d : Text) (xs : List Text)
    → ((t : Text) → q t ≡ (p t || text_eq d t))
    → p d ≡ false
    → NoRepeat xs
    → contains_text xs d ≡ true
    → tally q xs ≡ suc (tally p xs)
unfolding contains_text
tally_one_more p q d [] h a n m = cc
tally_one_more p q d (x ∷ xs) h a n m = elim (Bool-cases (text_eq x d)) [
  | inl e ↦
      let s : x ≡ d = text_eq→≡ x d e in
      let a' : p x ≡ false = subst (λ u. p u ≡ false) (sym s) a in
      let n' : contains_text xs d ≡ false = subst (λ u. contains_text xs u ≡ false) s n.0 in
      ground (arith, h x, text_eq_comm d x, tally_same p q d xs h n')
  | inr e ↦ ground (arith, h x, text_eq_comm d x, tally_one_more p q d xs h a n.1)
]

pub tally-zero :
    (p : Text → Bool) (xs : List Text) (t : Text)
    → tally p xs ≡ 0
    → contains_text xs t ≡ true
    → p t ≡ false
unfolding contains_text
tally-zero p [] t h m = cc
tally-zero p (x ∷ xs) t h m = elim (Bool-cases (text_eq x t)) [
  | inl e ↦ subst (λ u. p u ≡ false) (text_eq→≡ x t e) (ground arith)
  | inr e ↦ tally-zero p xs t (ground arith) (ground arith)
]

pub tally_none :
    (p : Text → Bool) (xs : List Text)
    → ((t : Text) → contains_text xs t ≡ true → p t ≡ false)
    → tally p xs ≡ 0
unfolding contains_text
tally_none p [] h = refl
tally_none p (x ∷ xs) h =
    let a : p x ≡ false = h x (rw (text_eq_refl x) refl) in
    rw a (tally_none p xs (λ t m. h t (rw m (ground arith))))

tally-le : (p : Text → Bool) (xs : List Text) → tally p xs ≤ length xs
tally-le p [] = omega arith
tally-le p (x ∷ xs) = ground (arith, tally-le p xs)

tally_all :
    (p : Text → Bool) (xs : List Text) (t : Text)
    → tally p xs ≡ length xs
    → contains_text xs t ≡ true
    → p t ≡ true
unfolding contains_text
tally_all p [] t h m = cc
tally_all p (x ∷ xs) t h m = elim (Bool-cases (text_eq x t)) [
  | inl e ↦ subst (λ u. p u ≡ true) (text_eq→≡ x t e) (ground (arith, tally-le p xs))
  | inr e ↦ tally_all p xs t (ground (arith, tally-le p xs)) (ground arith)
]

-- A list without repeats, counted in a list without repeats that has its texts.
tally-length :
    (xs ys : List Text)
    → NoRepeat xs
    → NoRepeat ys
    → ((t : Text) → contains_text xs t ≡ true → contains_text ys t ≡ true)
    → tally (contains_text xs) ys ≡ length xs
unfolding contains_text
tally-length [] ys n d h = tally_none (λ _. false) ys (λ t m. refl)
tally-length (x ∷ xs) ys n d h =
    tally_one_more (contains_text xs) (contains_text (x ∷ xs)) x ys (λ t. ground arith) n.0 d
      (h x (rw (text_eq_refl x) refl))
    ∙ ap (λ (k : ℕ). suc k) (tally-length xs ys n.1 d (λ t m. h t (ground arith)))

pub length-le_of_subset :
    (xs ys : List Text)
    → NoRepeat xs
    → NoRepeat ys
    → ((t : Text) → contains_text xs t ≡ true → contains_text ys t ≡ true)
    → length xs ≤ length ys
length-le_of_subset xs ys n d h =
    omega (arith, tally-length xs ys n d h, tally-le (contains_text xs) ys)

pub subset_of_length-eq :
    (xs ys : List Text)
    → NoRepeat xs
    → NoRepeat ys
    → ((t : Text) → contains_text xs t ≡ true → contains_text ys t ≡ true)
    → length xs ≡ length ys
    → (t : Text) → contains_text ys t ≡ true
    → contains_text xs t ≡ true
subset_of_length-eq xs ys n d h e t m =
    tally_all (contains_text xs) ys t (tally-length xs ys n d h ∙ e) m

-- A text of the list is not one that the list lacks.
pub apart :
    (xs : List Text) (s t : Text)
    → contains_text xs s ≡ false
    → contains_text xs t ≡ true
    → text_eq s t ≡ false
apart xs s t h m = elim (Bool-cases (text_eq s t)) [
  | inl e ↦ let k = subst (λ u. contains_text xs u ≡ false) (text_eq→≡ s t e) h in cc
  | inr e ↦ e
]
