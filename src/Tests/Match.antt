-- ===== src/Tests/Match.antt =====
-- A passenger asks for a shared ride where a pool with one free seat is on the way.
use rcab.Base.{ℕ, ◌+◌, true, Option}
use rcab.Store.{Db}
use rcab.Matching.{MatchResult, PoolSettings, find_or_create_pool}
use rcab.Matching.Answers.{IsAnswered, find_or_create_pool-IsAnswered}
use rcab.Tests.Seats.{gap, fixed_price, rider, one_seat}

abbrev settings : PoolSettings
settings = record { max_seats = 3; detour_budget_m = 800; timeout_ms = 60000 }

abbrev answer : Db → ℕ → Db × Option MatchResult
answer db passenger =
    find_or_create_pool gap fixed_price (λ d. d) (λ n. 20 + n) (λ n. 901 + n) (λ a b. true)
      (λ j p. 9) 7 gap (λ j p. 9) settings db 6 (rider passenger)

find_or_create_pool-IsAnswered_example : IsAnswered (λ d. d) one_seat 30 (answer one_seat 30)
find_or_create_pool-IsAnswered_example =
    find_or_create_pool-IsAnswered gap fixed_price (λ d. d) (λ n. 20 + n) (λ n. 901 + n) one_seat
      (rider 30) (λ a b. true) (λ j p. 9) 7 gap (λ j p. 9) settings 6
