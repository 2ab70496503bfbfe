-- ===== src/Tests/Keys.antt =====
-- A request claims its key, another one with the same key waits, and a third one gets the answer.
use rcab.Base.{ℕ, ◌≡◌, ◌≢◌, refl, true, false, some, none, List, [], find_where, arith}
use rcab.Idempotency.{
  IdempotencyScope, IdempotencyOperation, IdempotencyRecord, RecordState, existing, scope_where,
  new_claim, insert_claim, claim, complete_in, release_claim,
}
use rcab.Idempotency.Runs.{no_step, then_step, inserted, released}
use rcab.Idempotency.Claims.{wins, claim-once, complete_in-replayed}

abbrev ours : IdempotencyScope
ours = record { principal_id = 100; operation = IdempotencyOperation.create_shared; key = "k1" }

abbrev theirs : IdempotencyScope
theirs = record { principal_id = 101; operation = IdempotencyOperation.create_shared; key = "k1" }

abbrev alone : List IdempotencyRecord → List IdempotencyRecord
alone t = t

abbrev owned : List IdempotencyRecord
owned = (claim alone alone [] 1000 1000 ours "f1").0

abbrev both : List IdempotencyRecord
both = (insert_claim owned 1100 theirs "f2").0

won : wins (claim alone alone [] 1000 1000 ours "f1").1 ≡ true
unfolding claim insert_claim rcab.Base.exists_where
won = refl

claim-once_example : wins (claim alone alone both 1200 61000 ours "f1").1 ≡ false
claim-once_example =
    claim-once (λ c. Unit) ours [] both alone alone alone alone 1000 1000 1200 61000 "f1" "f1" won
      (then_step no_step (inserted 1100 theirs "f2")) (λ x. no_step) (λ x. no_step) (omega arith)

owned_row : find_where (scope_where ours) owned ≡ some (new_claim 1000 ours "f1")
unfolding claim find_where insert_claim rcab.Base.exists_where
owned_row = refl

abbrev answered_both : List IdempotencyRecord
answered_both = release_claim (complete_in owned 1500 ours 7 "ride 7") theirs

complete_in-replayed_example :
    (claim alone alone answered_both 99000 99000 ours "f1").1
    ≡ existing (record {
      request_fingerprint = "f1";
      state = RecordState.completed;
      resource_id = some 7;
      response = some "ride 7";
    })
complete_in-replayed_example =
    complete_in-replayed (λ c. Unit) ours owned answered_both (new_claim 1000 ours "f1") 1500 7 0
      "ride 7" alone alone 99000 99000 "f1" owned_row (then_step no_step (released theirs tt))
      (λ x. no_step) (λ x. no_step)
