-- ===== src/Retries.antt =====
-- apps/api/src/modules/dispatch/tx-retry.ts: a transaction that lost a race is run again. What an attempt
-- does is a function of its number. An error is told by its SQL state, if it has one, and by the
-- error that caused it; one that is not an object is `opaque`.
pub mod Bounded
use Prim.Native.String.{String}
use text.Mathlib.Text.{◌==◌ as str_eq}
use rcab.Base.{
  ℕ, suc, zero, ◌≡◌, ◌≤◌, refl, ap, Bool, true, false, ◌||◌, Option, none, some, ◌⊎◌, inl, inr,
  arith, Bool-cases, sum_cases, if◌then◌else◌,
}

pub data Thrown : Type 0 where
  opaque : Thrown
  error : Option String → Thrown
  error_by : Option String → Thrown → Thrown

-- `sqlState`: an error that has no state of its own is asked for its cause.
unfoldable pub sql_state : Thrown → Option String
sql_state opaque = none
sql_state (error code) = code
sql_state (error_by (some code) cause) = some code
sql_state (error_by none cause) = sql_state cause

-- PG_DEADLOCK_DETECTED and PG_SERIALIZATION_FAILURE.
abbrev pub is_lost_race : Option String → Bool
is_lost_race none = false
is_lost_race (some code) = str_eq code "40P01" || str_eq code "40001"

-- `isRetryableTxError`.
unfoldable pub is_retryable : Thrown → Bool
unfolding sql_state
is_retryable e = is_lost_race (sql_state e)

-- `withTxRetry` from an attempt on, with the retries that are left: the attempts made, and how it ends.
module _ {T : Type 0} (run : ℕ → Thrown ⊎ T) (exhausted : T) where
  unfoldable pub retry_from : ℕ → ℕ → ℕ × (Thrown ⊎ T)
  unfolding is_retryable
  retry_from zero attempt = elim (run attempt) [
    | inr done ↦ (suc attempt, inr done)
    | inl e ↦ (suc attempt, if is_retryable e then inr exhausted else inl e)
  ]
  retry_from (suc left) attempt =
      let rest = retry_from left (suc attempt) in
      elim (run attempt) [
        | inr done ↦ (suc attempt, inr done)
        | inl e ↦ if is_retryable e then rest else (suc attempt, inl e)
      ]

  unfoldable pub with_tx_retry : ℕ → ℕ × (Thrown ⊎ T)
  unfolding retry_from
  with_tx_retry max_retries = retry_from max_retries 0

  -- The attempt lost a race.
  abbrev pub Lost : ℕ → Type 0
  Lost i = (e : Thrown) × (run i ≡ inl e) × (is_retryable e ≡ true)

  -- How a run ends, by its last attempt.
  pub data EndsAs (max_retries last : ℕ) : Thrown ⊎ T → Type 0 where
    by_result : (done : T) → run last ≡ inr done → EndsAs max_retries last (inr done)
    by_error :
        (e : Thrown) → run last ≡ inl e → is_retryable e ≡ false → EndsAs max_retries last (inl e)
    by_exhaustion : Lost last → last ≡ max_retries → EndsAs max_retries last (inr exhausted)

  pub record IsRetried (max_retries first : ℕ) (end : ℕ × (Thrown ⊎ T)) : Type 0 where
    pub last : ℕ
    pub attempts : end.0 ≡ suc last
    pub bounded : last ≤ max_retries
    pub lost : (i : ℕ) → first ≤ i → suc i ≤ last → Lost i
    pub ends : EndsAs max_retries last end.1
