-- ===== src/JobStore/Backoff.antt =====
-- The delay before a retry: retryDelay against its closed form.
use Prim.Native.Nat.{min}
use native.Mathlib.Nat.{pow-suc}
use dygo.Base.{
  ℕ, zero, suc, ◌+◌, ◌-◌, ◌*◌, ◌/◌, ◌%◌, ◌^◌, ◌≤◌, ◌<◌, ◌≡◌, ap, subst, arith, some, ok, Bool-cases,
  true, false, inl, inr, ltb, leb, ◌||◌,
}
use dygo.JobStore.Defs.{Retry, Runtime, backoff, capped_delay, jittered, retry_delay, positive}

pow_pos : (k : ℕ) → 1 ≤ 2 ^ k
pow_pos zero = omega arith
pow_pos (suc k) = omega (arith, pow_pos k, pow-suc 2 k)

-- A round that goes on doubles below the maximum, so nothing wraps.
doubled :
    (delay max_delay : ℕ)
    → max_delay < 2 ^ 63
    → (leb max_delay delay || ltb (max_delay / 2) delay) ≡ false
    → (delay * 2) % 2 ^ 64 ≡ delay * 2
doubled delay max_delay small h = ground arith

stopped :
    (k delay max_delay : ℕ)
    → (leb max_delay delay || ltb (max_delay / 2) delay) ≡ true
    → max_delay ≤ delay * 2 ^ suc k
stopped k delay max_delay h =
    let enough : max_delay ≤ delay * 2 = ground arith in grind (arith, pow_pos k, pow-suc 2 k)

regroup : (k delay : ℕ) → delay * 2 * 2 ^ k ≡ delay * 2 ^ suc k
regroup k delay = omega (arith, pow-suc 2 k, ap (λ (t : ℕ). delay * t) (pow-suc 2 k))

min-backoff :
    (rounds delay max_delay : ℕ)
    → max_delay < 2 ^ 63
    → min max_delay (backoff rounds delay max_delay) ≡ min max_delay (delay * 2 ^ rounds)
unfolding backoff
min-backoff zero delay max_delay small = omega arith
min-backoff (suc k) delay max_delay small =
    elim (Bool-cases (leb max_delay delay || ltb (max_delay / 2) delay)) [
      | inl e ↦ rw e (omega (arith, stopped k delay max_delay e))
      | inr e ↦
          rw (e, doubled delay max_delay small e)
            (omega (arith, min-backoff k (delay * 2) max_delay small, regroup k delay))
    ]

-- For a cap below 2^63 the loop of retryDelay, whose doubling wraps at 64 bits, is the closed form:
-- the initial delay doubled once for each attempt after the first, and capped.
pub capped_delay-eq-min :
    (initial max_delay attempt : ℕ)
    → max_delay < 2 ^ 63
    → capped_delay initial max_delay attempt ≡ min max_delay (initial * 2 ^ (attempt - 1))
unfolding capped_delay
capped_delay-eq-min initial max_delay attempt small =
    ground (arith, min-backoff (attempt - 1) initial max_delay small)

-- What the documentation of rand.Int64N promises.
abbrev pub IsInt64n : (ℕ → ℕ) → Type 0
IsInt64n int64n = (n : ℕ) → 0 < n → int64n n < n

jittered_bounds :
    (int64n : ℕ → ℕ) (delay : ℕ)
    → IsInt64n int64n
    → 0 < delay
    → (1 ≤ jittered int64n delay)
      × (delay / 2 ≤ jittered int64n delay)
      × (jittered int64n delay ≤ delay)
unfolding jittered
jittered_bounds int64n delay r h = ground (arith, r (delay - delay / 2 + 1), r (delay - 1 + 1))

capped_pos :
    (k initial max_delay : ℕ) → 0 < initial → 0 < max_delay → 0 < min max_delay (initial * 2 ^ k)
capped_pos k initial max_delay h m =
    let p : 0 < initial * 2 ^ k = grind (arith, pow_pos k) in omega arith

-- With retry settings whose delays parse to positive durations, the maximum below 2^63, and an Int64N
-- below its bound, retryDelay returns a delay that is positive and lies between the half and the
-- whole of the closed form.
pub retry_delay_bounds :
    (rt : Runtime) (int64n : ℕ → ℕ) (r : Retry) (attempt initial max_delay : ℕ)
    → IsInt64n int64n
    → positive (rt.parse_duration r.initial_delay) ≡ some (suc initial)
    → positive (rt.parse_duration r.max_delay) ≡ some (suc max_delay)
    → suc max_delay < 2 ^ 63
    → (d : ℕ) × (retry_delay rt int64n (some r) attempt ≡ ok d)
      × (1 ≤ d)
      × (min (suc max_delay) (suc initial * 2 ^ (attempt - 1)) / 2 ≤ d)
      × (d ≤ min (suc max_delay) (suc initial * 2 ^ (attempt - 1)))
unfolding retry_delay
retry_delay_bounds rt int64n r attempt initial max_delay random i m small =
    let capped = capped_delay (suc initial) (suc max_delay) attempt in
    let e = capped_delay-eq-min (suc initial) (suc max_delay) attempt small in
    let p = capped_pos (attempt - 1) (suc initial) (suc max_delay) (omega arith) (omega arith) in
    let b = jittered_bounds int64n capped random (omega (arith, e, p)) in
    (
      jittered int64n capped,
      rw (i, m),
      b.0,
      subst (λ t. t / 2 ≤ jittered int64n capped) e b.1,
      subst (λ t. jittered int64n capped ≤ t) e b.2,
    )
