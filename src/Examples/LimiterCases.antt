-- ===== src/Examples/LimiterCases.antt =====
-- The limiter theorems at a limiter of one call per window.
use run_on_mine.Prelude.{
  ℕ, ◌+◌, ◌*◌, ◌^◌, ◌≡◌, arith, String, List, [], ◌∷◌, length, leb, if◌then◌else◌, ok, err, ◌≤◌,
}
use run_on_mine.RateLimit.{new, RateError, check_at, insert, prune, cutoff_at, pop_expired}
use run_on_mine.RateLimit.History.{times, in_window}
use run_on_mine.RateLimit.Window.{
  limiter_after, admitted, clock, check_at-admits_iff, run_bounded, check_at-early,
}

abbrev start : ℕ
start = 60 * 10 ^ 9

abbrev calls : List (String × ℕ)
calls = ("stdio", start + 1) ∷ ("oauth:c", start + 2) ∷ []

check_at-admits_iff_example : (check_at (limiter_after 1 start calls) "stdio" (start + 3)).0 ≡ (
    if leb 1 (length (in_window (start + 3) (times "stdio" (admitted 1 start calls))))
    then err RateError.rate_limit_reached
    else ok tt)
check_at-admits_iff_example =
    check_at-admits_iff 1 start calls "stdio" (start + 3) (omega arith)
      (omega arith, (omega arith, tt)) (omega arith)

run_bounded_example :
    length (in_window (clock start calls) (times "stdio" (admitted 1 start calls))) ≤ 1
run_bounded_example =
    run_bounded 1 start calls "stdio" (omega arith) (omega arith, (omega arith, tt))

-- The second call of the first minute goes through a limiter of one call per minute.
check_at-early_example : (check_at (check_at (new 1) "stdio" 3).1 "stdio" 4).0 ≡ ok tt
unfolding check_at new prune insert pop_expired cutoff_at
check_at-early_example =
    check_at-early (check_at (new 1) "stdio" 3).1 "stdio" 4 (omega arith) (omega arith)
      (omega arith, tt)
