-- ===== src/RateLimit/Window.antt =====
-- The limiter against a history of the calls that it admitted.
use run_on_mine.Prelude.{
  ℕ, ◌-◌, ◌≤◌, ◌<◌, ◌≡◌, refl, subst, ◌∙◌, String, str_eq, eq_iff, Bool, true, false, List, [], ◌∷◌,
  ◌++◌, length, length-append, leb, arith, if◌then◌else◌, Result, ok, err,
}
use run_on_mine.Prelude.Members.{All}
use run_on_mine.RateLimit.{
  PrincipalRateLimiter, new, RateError, cutoff_at, pop_expired, prune, or_default, insert, check_at,
  rate_limit_window, Calls,
}
use run_on_mine.RateLimit.History.{
  entries_of, pop_expired_twice, pop_expired-append, or_default-prune, times, times-append,
  IsSorted, IsSorted-append, IsSorted-mono, in_window, pop_expired-filter,
}

abbrev pub admit : Result RateError (Unit {0}) → String → ℕ → List (String × ℕ) → List (String × ℕ)
admit (ok _) p now h = h ++ (p, now) ∷ []
admit (err _) p now h = h

-- The calls in order, with the history of those that were admitted.
unfoldable pub run :
    PrincipalRateLimiter
    → List (String × ℕ)
    → List (String × ℕ)
    → PrincipalRateLimiter × List (String × ℕ)
run limiter h [] = (limiter, h)
run limiter h ((p, now) ∷ calls) =
    run (check_at limiter p now).1 (admit (check_at limiter p now).0 p now h) calls

-- The clock never runs backwards, and has run for a window before the first call.
abbrev pub Ticks : ℕ → List (String × ℕ) → Type 0
Ticks last [] = Unit
Ticks last ((p, now) ∷ calls) = (last ≤ now) × Ticks now calls

abbrev pub clock : ℕ → List (String × ℕ) → ℕ
clock last [] = last
clock last ((p, now) ∷ calls) = clock now calls

record Follows (limit last : ℕ) (limiter : PrincipalRateLimiter) (h : List (String × ℕ))
    : Type 0 where
  started : rate_limit_window ≤ last
  capacity : limiter.calls_per_window ≡ limit
  queues : (p : String) → entries_of limiter p ≡ pop_expired (last - rate_limit_window) (times p h)
  sorted : (p : String) → IsSorted last (times p h)
  bounded : (p : String) → length (entries_of limiter p) ≤ limit

length-pop_expired-le : (c : ℕ) (l : List ℕ) → length (pop_expired c l) ≤ length l
unfolding pop_expired
length-pop_expired-le c [] = omega arith
length-pop_expired-le c (x ∷ l) = ground (arith, length-pop_expired-le c l)

or_default-insert :
    (p q : String) (es : List ℕ) (calls : Calls)
    → or_default (insert p es calls q) ≡ (if str_eq q p then es else or_default (calls q))
unfolding insert
or_default-insert p q es calls = ground arith

module _ (limit last now : ℕ) (limiter : PrincipalRateLimiter) (h : List (String × ℕ))
    (follows : Follows limit last limiter h) (later : last ≤ now) where
  abbrev pruned : Calls
  pruned = prune (cutoff_at now) limiter.calls

  abbrev live : String → List ℕ
  live q = pop_expired (now - rate_limit_window) (times q h)

  cutoff : cutoff_at now ≡ now - rate_limit_window
  unfolding cutoff_at
  cutoff = let s = follows.started in ground arith

  pruned_queue : (q : String) → or_default (pruned q) ≡ live q
  pruned_queue q =
      or_default-prune (cutoff_at now) limiter.calls q
      ∙ rw (follows.queues q) (
          rw cutoff (
            pop_expired_twice (last - rate_limit_window) (now - rate_limit_window) (times q h)
              (omega arith)))

  live-in_window : (q : String) → live q ≡ in_window now (times q h)
  live-in_window q =
      pop_expired-filter (now - rate_limit_window) last (times q h) (follows.sorted q)

  -- the limiter admits the call exactly when the window has room
  decision :
      (p : String)
      → (check_at limiter p now).0 ≡ (
          if leb limit (length (in_window now (times p h)))
          then err RateError.rate_limit_reached
          else ok tt)
  unfolding check_at
  decision p = ground (arith, follows.capacity, pruned_queue p, live-in_window p)

  step-queues :
      (p q : String)
      → entries_of (check_at limiter p now).1 q
        ≡ pop_expired (now - rate_limit_window) (times q (admit (check_at limiter p now).0 p now h))
  unfolding check_at
  step-queues p q = ground (
    arith,
    pruned_queue p,
    pruned_queue q,
    times-append q p now h,
    or_default-insert p q (or_default (pruned p)) pruned,
    or_default-insert p q (or_default (pruned p) ++ now ∷ []) pruned,
    pop_expired-append (now - rate_limit_window) now (times q h),
    eq_iff q p,
  )

  admit-IsSorted :
      (r : Result RateError (Unit {0})) (p q : String) → IsSorted now (times q (admit r p now h))
  admit-IsSorted (err e) p q = IsSorted-mono last now (times q h) (follows.sorted q) later
  admit-IsSorted (ok _) p q = rw (times-append q p now h) (appended (str_eq q p))
    where
      appended : (b : Bool) → IsSorted now (if b then times q h ++ now ∷ [] else times q h)
      appended true = IsSorted-append last now (times q h) (follows.sorted q) later
      appended false = IsSorted-mono last now (times q h) (follows.sorted q) later

  pruned-bounded : (q : String) → length (or_default (pruned q)) ≤ limit
  pruned-bounded q = rw (or_default-prune (cutoff_at now) limiter.calls q) (
      omega
        (arith, length-pop_expired-le (cutoff_at now) (entries_of limiter q), follows.bounded q))

  step-bounded : (p q : String) → length (entries_of (check_at limiter p now).1 q) ≤ limit
  unfolding check_at
  step-bounded p q = ground (
    arith,
    follows.capacity,
    pruned-bounded p,
    pruned-bounded q,
    length-append (or_default (pruned p)) (now ∷ []),
    or_default-insert p q (or_default (pruned p)) pruned,
    or_default-insert p q (or_default (pruned p) ++ now ∷ []) pruned,
  )

  step-capacity : (p : String) → (check_at limiter p now).1.calls_per_window ≡ limit
  unfolding check_at
  step-capacity p = ground (arith, follows.capacity)

  step-Follows :
      (p : String)
      → Follows limit now (check_at limiter p now).1 (admit (check_at limiter p now).0 p now h)
  step-Follows p = record {
    started = let s = follows.started in omega arith;
    capacity = step-capacity p;
    queues = step-queues p;
    sorted = admit-IsSorted (check_at limiter p now).0 p;
    bounded = step-bounded p;
  }

new-Follows : (limit start : ℕ) → rate_limit_window ≤ start → Follows limit start (new limit) []
unfolding new pop_expired
new-Follows limit start h = record {
  started = h;
  capacity = refl;
  queues = λ p. refl;
  sorted = λ p. tt;
  bounded = λ p. omega arith;
}

run-Follows :
    (limit last : ℕ) (limiter : PrincipalRateLimiter) (h calls : List (String × ℕ))
    → Follows limit last limiter h
    → Ticks last calls
    → Follows limit (clock last calls) (run limiter h calls).0 (run limiter h calls).1
unfolding run
run-Follows limit last limiter h [] f t = f
run-Follows limit last limiter h ((p, now) ∷ calls) f t =
    run-Follows limit now (check_at limiter p now).1 (admit (check_at limiter p now).0 p now h)
      calls (step-Follows limit last now limiter h f t.0 p) t.1

module _ (limit start : ℕ) (calls : List (String × ℕ)) where
  abbrev pub limiter_after : PrincipalRateLimiter
  limiter_after = (run (new limit) [] calls).0

  abbrev pub admitted : List (String × ℕ)
  admitted = (run (new limit) [] calls).1

  -- On a clock that never runs backwards and started at least a window ago, after any calls the
  -- next call of a principal is admitted exactly when fewer than the limit of that principal's
  -- admitted calls lie in the window that ends now.
  pub check_at-admits_iff :
      (p : String) (now : ℕ)
      → rate_limit_window ≤ start
      → Ticks start calls
      → clock start calls ≤ now
      → (check_at limiter_after p now).0 ≡ (
          if leb limit (length (in_window now (times p admitted)))
          then err RateError.rate_limit_reached
          else ok tt)
  check_at-admits_iff p now h t later =
      decision limit (clock start calls) now limiter_after admitted
        (run-Follows limit start (new limit) [] calls (new-Follows limit start h) t) later p

  -- On such a clock, no principal ever has more admitted calls than the limit in the window that
  -- ends at the last call.
  pub run_bounded :
      (p : String)
      → rate_limit_window ≤ start
      → Ticks start calls
      → length (in_window (clock start calls) (times p admitted)) ≤ limit
  run_bounded p h t =
      let f = run-Follows limit start (new limit) [] calls (new-Follows limit start h) t in
      subst (λ (l : List ℕ). length l ≤ limit)
        (f.queues p
          ∙ pop_expired-filter (clock start calls - rate_limit_window) (clock start calls)
              (times p admitted) (f.sorted p))
        (f.bounded p)

All-expired : (now : ℕ) (l : List ℕ) → All (λ t. t < now) l → pop_expired now l ≡ []
unfolding pop_expired
All-expired now [] a = refl
All-expired now (x ∷ l) a = ground (arith, All-expired now l)

-- Where the clock started less than a window ago, calls made before now are forgotten: a call is
-- admitted however many went before it, as long as the limit is positive.
pub check_at-early :
    (limiter : PrincipalRateLimiter) (p : String) (now : ℕ)
    → now < rate_limit_window
    → 0 < limiter.calls_per_window
    → All (λ t. t < now) (entries_of limiter p)
    → (check_at limiter p now).0 ≡ ok tt
unfolding check_at cutoff_at
check_at-early limiter p now h k a =
    ground (arith, or_default-prune now limiter.calls p, All-expired now (entries_of limiter p) a)
