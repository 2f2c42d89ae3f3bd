-- ===== src/Supervisor/Backoff.antt =====
-- The delays between restarts grow, within the bounds of the policy.
use Prim.Native.Nat.pow
use run_on_mine.Prelude.{ℕ, zero, suc, ◌+◌, ◌-◌, ◌*◌, ◌^◌, ◌≤◌, ◌<◌, ◌≡◌, true, min, arith}
use run_on_mine.Prelude.Eq.{nat_eq}
use run_on_mine.Supervisor.Restart.{
  RestartPolicy, validate, duration_max, u32_max, delay_for_restart,
}

pow-positive : (m k : ℕ) → 1 ≤ m → 1 ≤ m ^ k
pow-positive m zero h = grind (arith, pow.zero m)
pow-positive m (suc k) h = grind (arith, pow.suc m k, pow-positive m k h)

pow-add : (m k d : ℕ) → 1 ≤ m → m ^ k ≤ m ^ (d + k)
pow-add m k zero h = grind arith
pow-add m k (suc d) h = grind (arith, pow.suc m (d + k), pow-add m k d h)

pow_mono : (m k n : ℕ) → 1 ≤ m → k ≤ n → m ^ k ≤ m ^ n
pow_mono m k n h le = grind (arith, pow-add m k (n - k) h)

-- What `validate` asks of the two delays and of the multiplier.
validated :
    (policy : RestartPolicy)
    → validate policy ≡ true
    → (policy.initial_backoff ≤ policy.maximum_backoff) × (1 ≤ policy.backoff_multiplier)
unfolding validate
validated policy h = ground arith

-- The cut-off delay as a function of the factor.
abbrev capped : (initial most factor : ℕ) → ℕ
capped initial most factor = min (min (initial * factor) duration_max) most

capped_mono : (initial most a b : ℕ) → a ≤ b → capped initial most a ≤ capped initial most b
capped_mono initial most a b h = grind arith

capped-least :
    (initial most factor : ℕ)
    → 1 ≤ factor
    → initial ≤ most
    → initial ≤ duration_max
    → initial ≤ capped initial most factor
capped-least initial most factor h le fits = grind arith

exponent : (restart : ℕ) → restart < 32 → min (suc restart - 1) 31 ≡ restart
exponent restart h = omega arith

within : (a bound : ℕ) → a ≤ bound → min a bound ≡ a
within a bound h = omega arith

-- Under a policy that passes the validation, every delay is at least the first and at most the
-- greatest of the policy, and a later restart never waits less than an earlier one.
pub delay_for_restart-grows :
    (policy : RestartPolicy)
    → validate policy ≡ true
    → policy.initial_backoff ≤ duration_max
    → (restart later : ℕ) → restart ≤ later
    → (policy.initial_backoff ≤ delay_for_restart policy restart)
      × (delay_for_restart policy restart ≤ delay_for_restart policy later)
      × (delay_for_restart policy later ≤ policy.maximum_backoff)
unfolding delay_for_restart
delay_for_restart-grows policy valid fits restart later le =
    let (ordered, positive) = validated policy valid in
    let early = min (policy.backoff_multiplier ^ min (restart - 1) 31) u32_max in
    let late = min (policy.backoff_multiplier ^ min (later - 1) 31) u32_max in
    let power =
      pow_mono policy.backoff_multiplier (min (restart - 1) 31) (min (later - 1) 31) positive
        (omega arith) in
    let least = pow-positive policy.backoff_multiplier (min (restart - 1) 31) positive in
    (
      capped-least policy.initial_backoff policy.maximum_backoff early (omega arith) ordered fits,
      capped_mono policy.initial_backoff policy.maximum_backoff early late (omega arith),
      omega arith,
    )

-- As long as the power of the multiplier fits a `u32` and the product a `Duration`, the delay is
-- the exponential one, cut off at the greatest delay of the policy.
delay_for_restart-exact :
    (policy : RestartPolicy) (restart : ℕ)
    → restart < 32
    → policy.backoff_multiplier ^ restart ≤ u32_max
    → policy.initial_backoff * policy.backoff_multiplier ^ restart ≤ duration_max
    → delay_for_restart policy (suc restart)
      ≡ min (policy.initial_backoff * policy.backoff_multiplier ^ restart) policy.maximum_backoff
unfolding delay_for_restart
delay_for_restart-exact policy restart small power product = rw (
  exponent restart small,
  within (policy.backoff_multiplier ^ restart) u32_max power,
  within (policy.initial_backoff * policy.backoff_multiplier ^ restart) duration_max product,
)
