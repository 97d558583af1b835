-- ===== src/Naming/Numbers.antt =====
-- The decimal digits of a counter.
use dygo.Base.{
  ℕ, zero, suc, ◌+◌, ◌-◌, ◌*◌, ◌/◌, ◌%◌, ◌<◌, Text, [], ◌∷◌, ◌++◌, ltb, ◌≡◌, refl, ap, ◌∙◌,
  Bool-cases, inl, inr, arith, length,
}
use dygo.Naming.Defs.{decimal, padded, repeat}

-- The number that the digits of a text go on from another one.
abbrev pub value : ℕ → Text → ℕ
value n [] = n
value n (c ∷ s) = value (n * 10 + (c - b'0')) s

decimal-value :
    (fuel n : ℕ) (after : Text) → n < fuel → value 0 (decimal fuel n after) ≡ value n after
unfolding decimal
decimal-value zero n after h = absurd (omega arith)
decimal-value (suc fuel) n after h = elim (Bool-cases (ltb n 10)) [
  | inl e ↦ rw e (ap (λ k. value k after) (omega arith))
  | inr e ↦ rw e (
      decimal-value fuel (n / 10) ((b'0' + n % 10) ∷ after) (ground arith)
      ∙ ap (λ k. value k after) (omega arith))
]

zeros-value : (k n : ℕ) (s : Text) → value 0 (repeat k b'0' ++ s) ≡ value 0 s
zeros-value zero n s = refl
zeros-value (suc k) n s = zeros-value k n s

-- A padded number reads as the number.
pub padded-value : (width n : ℕ) → value 0 (padded width n) ≡ n
unfolding padded
padded-value width n =
    zeros-value (width - length (decimal (suc n) n [])) n (decimal (suc n) n [])
    ∙ decimal-value (suc n) n [] (omega arith)
