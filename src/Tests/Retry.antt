-- ===== src/Tests/Retry.antt =====
-- A transaction that deadlocks twice, under its caller's error, and then gives 7.
use rcab.Base.{ℕ, ltb, none, some, ◌⊎◌, inl, inr, if◌then◌else◌}
use rcab.Retries.{Thrown, error, error_by, with_tx_retry, IsRetried}
use rcab.Retries.Bounded.{with_tx_retry-IsRetried}

abbrev twice_lost : ℕ → Thrown ⊎ ℕ
twice_lost n = if ltb n 2 then inl (error_by none (error (some "40P01"))) else inr 7

with_tx_retry-IsRetried_example : IsRetried twice_lost 0 2 0 (with_tx_retry twice_lost 0 2)
with_tx_retry-IsRetried_example = with_tx_retry-IsRetried twice_lost 0 2
