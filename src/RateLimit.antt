-- ===== src/RateLimit.antt =====
-- crates/runonmine-mcp/src/rate_limit.rs: calls of each principal in a sliding window. An
-- `Instant` is its distance, in nanoseconds, from the earliest instant that the clock can
-- represent; the map is a function, with `none` for an absent key.
pub mod History
pub mod Window
use run_on_mine.Prelude.{
  ℕ, ◌+◌, ◌-◌, ◌*◌, ◌^◌, String, str_eq, Bool, true, false, Option, none, some, List, [], ◌∷◌, ◌++◌,
  length, ltb, leb, if◌then◌else◌, Result, ok, err,
}

abbrev pub rate_limit_window : ℕ
rate_limit_window = 60 * 10 ^ 9

abbrev pub Calls : Type 0
Calls = String → Option (List ℕ)

pub record PrincipalRateLimiter : Type 0 where
  pub calls_per_window : ℕ
  pub calls : Calls

unfoldable pub new : ℕ → PrincipalRateLimiter
new calls_per_minute = record { calls_per_window = calls_per_minute; calls = λ _. none }

pub data RateError : Type 0 where
  rate_limit_reached : RateError

-- `now.checked_sub(RATE_LIMIT_WINDOW).unwrap_or(now)`
unfoldable pub cutoff_at : ℕ → ℕ
cutoff_at now = if leb rate_limit_window now then now - rate_limit_window else now

-- `while front < cutoff { pop_front }`
unfoldable pub pop_expired : ℕ → List ℕ → List ℕ
pop_expired cutoff [] = []
pop_expired cutoff (instant ∷ entries) =
    if ltb instant cutoff then pop_expired cutoff entries else instant ∷ entries

-- the loop over `values_mut`, and `retain`
abbrev pub prune_entry : ℕ → Option (List ℕ) → Option (List ℕ)
prune_entry cutoff none = none
prune_entry cutoff (some entries) = elim (pop_expired cutoff entries) [
  | [] ↦ none
  | x ∷ rest ↦ some (x ∷ rest)
]

unfoldable pub prune : ℕ → Calls → Calls
unfolding pop_expired
prune cutoff calls principal = prune_entry cutoff (calls principal)

-- `or_default`
abbrev pub or_default : Option (List ℕ) → List ℕ
or_default none = []
or_default (some entries) = entries

unfoldable pub insert : String → List ℕ → Calls → Calls
insert key entries calls principal = if str_eq principal key then some entries else calls principal

unfoldable pub check_at :
    PrincipalRateLimiter → String → ℕ → Result RateError (Unit {0}) × PrincipalRateLimiter
check_at limiter principal now =
    let calls = prune (cutoff_at now) limiter.calls in
    let entries = or_default (calls principal) in
    if leb limiter.calls_per_window (length entries)
    then (err rate_limit_reached, record limiter { calls = insert principal entries calls })
    else (ok tt, record limiter { calls = insert principal (entries ++ now ∷ []) calls })
