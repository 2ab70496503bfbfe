-- ===== src/Retries/Bounded.antt =====
-- A transaction is run once, and again as often as it loses a race, up to the bound.
use rcab.Base.{
  ℕ, suc, zero, ◌+◌, ◌==◌, ◌≡◌, ◌≤◌, refl, subst, ◌⊎◌, inl, inr, arith, Bool-cases, sum_cases,
  ==_iff,
}
use rcab.Retries.{
  Thrown, is_retryable, retry_from, with_tx_retry, Lost, EndsAs, by_result, by_error, by_exhaustion,
  IsRetried,
}

module _ {T : Type 0} (run : ℕ → Thrown ⊎ T) (exhausted : T) where
  retry_from-stops :
      (max attempt : ℕ) (end : Thrown ⊎ T)
      → attempt ≤ max
      → EndsAs run exhausted max attempt end
      → IsRetried run exhausted max attempt (suc attempt, end)
  retry_from-stops max attempt end within how = record {
    last = attempt;
    attempts = refl;
    bounded = within;
    lost = λ i from to. absurd (ground (arith, from, to));
    ends = how;
  }

  retry_from-goes_on :
      (max attempt : ℕ) (end : ℕ × (Thrown ⊎ T))
      → Lost run exhausted attempt
      → IsRetried run exhausted max (suc attempt) end
      → IsRetried run exhausted max attempt end
  retry_from-goes_on max attempt end this r = record {
    last = r.last;
    attempts = r.attempts;
    bounded = r.bounded;
    lost = λ i from to. elim (Bool-cases (attempt == i)) [
      | inl here ↦ subst (Lost run exhausted) ((==_iff attempt i).0 here) this
      | inr later ↦ r.lost i (ground (arith, from, later)) to
    ];
    ends = r.ends;
  }

  retry_from-IsRetried :
      (left attempt max : ℕ)
      → left + attempt ≡ max
      → IsRetried run exhausted max attempt (retry_from run exhausted left attempt)
  unfolding retry_from
  retry_from-IsRetried zero attempt max all = elim (sum_cases (run attempt)) [
    | inr (done, e) ↦
        rw (e, retry_from)
          (retry_from-stops max attempt (inr done) (omega arith) (by_result done e))
    | inl (x, e) ↦ elim (Bool-cases (is_retryable x)) [
      | inl again ↦
          rw (e, retry_from, again)
            (retry_from-stops max attempt (inr exhausted) (omega arith)
              (by_exhaustion (x, e, again) (omega arith)))
      | inr bad ↦
          rw (e, retry_from, bad)
            (retry_from-stops max attempt (inl x) (omega arith) (by_error x e bad))
    ]
  ]
  retry_from-IsRetried (suc left) attempt max all = elim (sum_cases (run attempt)) [
    | inr (done, e) ↦
        rw (e, retry_from)
          (retry_from-stops max attempt (inr done) (omega arith) (by_result done e))
    | inl (x, e) ↦ elim (Bool-cases (is_retryable x)) [
      | inr bad ↦
          rw (e, retry_from, bad)
            (retry_from-stops max attempt (inl x) (omega arith) (by_error x e bad))
      | inl again ↦
          rw (e, retry_from, again)
            (retry_from-goes_on max attempt _ (x, e, again)
              (retry_from-IsRetried left (suc attempt) max (omega arith)))
    ]
  ]

  -- a transaction with retries ends after at most one attempt more than its retries, each attempt
  -- before the last lost a race, and it ends with the result of the last attempt, with its other
  -- error, or, when the last retry lost a race too, with the answer for that.
  pub with_tx_retry-IsRetried :
      (max_retries : ℕ)
      → IsRetried run exhausted max_retries 0 (with_tx_retry run exhausted max_retries)
  unfolding with_tx_retry
  with_tx_retry-IsRetried max_retries = retry_from-IsRetried max_retries 0 max_retries (omega arith)
