-- ===== src/JobStore/Defs/Delay.antt =====
-- retryDelay, with the retry metadata's codec.
use dygo.Base.{
  ℕ, zero, suc, ◌+◌, ◌-◌, ◌*◌, ◌/◌, ◌%◌, ◌^◌, Text, [], ◌∷◌, Option, some, none, ltb, leb, ◌==◌,
  ◌||◌, if◌then◌else◌, Result, ok, err, ℤ, pos,
}
use dygo.JobStore.Defs.Types.{Retry, Runtime, Error, bad_delay, invalid_retry}

-- The value of a duration greater than zero.
abbrev pub positive : Option ℤ → Option ℕ
positive (some (pos (suc n))) = some (suc n)
positive _ = none

-- The loop of retryDelay, by recursion on the rounds left. A duration is the bit pattern of an
-- int64, so that doubling wraps.
unfoldable pub backoff : ℕ → ℕ → ℕ → ℕ
backoff zero delay max_delay = delay
backoff (suc rounds) delay max_delay =
    let doubled = backoff rounds ((delay * 2) % 2 ^ 64) max_delay in
    if leb max_delay delay || ltb (max_delay / 2) delay then max_delay else doubled

unfoldable pub capped_delay : ℕ → ℕ → ℕ → ℕ
unfolding backoff
capped_delay initial max_delay attempt =
    let delay = backoff (attempt - 1) initial max_delay in
    if ltb max_delay delay then max_delay else delay

-- Equal jitter over the upper half; `int64n` is rand.Int64N.
unfoldable pub jittered : (ℕ → ℕ) → ℕ → ℕ
jittered int64n delay =
    let half = (if delay / 2 == 0 then 1 else delay / 2) in half + int64n (delay - half + 1)

module _ (rt : Runtime) where
  -- decodeRetry
  unfoldable pub decode_retry : Text → Result Error (Option Retry)
  decode_retry [] = ok none
  decode_retry (c ∷ raw) = elim (rt.unmarshal_retry (c ∷ raw)) [
    | none ↦ err invalid_retry
    | some r ↦ ok (some r)
  ]

  -- encodeRetry
  unfoldable pub encode_retry : Option Retry → Text
  encode_retry none = []
  encode_retry (some r) = rt.marshal_retry r

  delay_between : (ℕ → ℕ) → ℕ → Option ℕ → Option ℕ → Result Error ℕ
  unfolding capped_delay jittered
  delay_between int64n attempt (some initial) (some max_delay) =
      ok (jittered int64n (capped_delay initial max_delay attempt))
  delay_between int64n attempt _ _ = err bad_delay

  -- retryDelay
  unfoldable pub retry_delay : (ℕ → ℕ) → Option Retry → ℕ → Result Error ℕ
  unfolding delay_between
  retry_delay int64n none attempt = ok 0
  retry_delay int64n (some r) attempt =
      delay_between int64n attempt (positive (rt.parse_duration r.initial_delay))
        (positive (rt.parse_duration r.max_delay))
