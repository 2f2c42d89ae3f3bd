-- ===== src/Session.antt =====
-- `SessionPermit` of crates/runonmine-mcp/src/session.rs: callers that take and drop permits of one
-- atomic counter. A caller's code is cut at its atomic operations, so a run is a list of turns, each
-- of one caller; between two turns of a caller come the turns of others.
pub mod Permits
use run_on_mine.Prelude.{
  ℕ, zero, suc, ◌+◌, ◌-◌, ◌%◌, ◌^◌, Bool, true, false, not, ◌&&◌, List, [], ◌∷◌, leb, ◌==◌,
  if◌then◌else◌,
}

-- `trying` holds the value of `current` in `acquire`, and `holding` is a permit not yet dropped.
pub data Caller : Type 0 where
  idle : Caller
  trying : ℕ → Caller
  holding : Caller
  refused : Caller

abbrev pub usize_modulus : ℕ
usize_modulus = 2 ^ 64

-- `fetch_sub(1)`
unfoldable pub fetch_sub_one : ℕ → ℕ
fetch_sub_one counter = (counter + (usize_modulus - 1)) % usize_modulus

-- `compare_exchange_weak(current, current + 1)`, which may also fail where the values agree.
abbrev pub exchange : Bool → ℕ → ℕ → ℕ × Caller
exchange spurious counter current =
    if counter == current && not spurious then (current + 1, holding) else (counter, trying counter)

-- The next atomic operation of one caller: the load, a pass of the loop, or the drop.
unfoldable pub turn : ℕ → Bool → ℕ → Caller → ℕ × Caller
unfolding fetch_sub_one
turn max_sessions spurious counter idle = (counter, trying counter)
turn max_sessions spurious counter (trying current) =
    if leb max_sessions current then (counter, refused) else exchange spurious counter current
turn max_sessions spurious counter holding = (fetch_sub_one counter, idle)
turn max_sessions spurious counter refused = (counter, refused)

-- The turn of the caller at a position; a position behind the last caller does nothing.
unfoldable pub turn_at : ℕ → Bool → ℕ → ℕ → List Caller → ℕ × List Caller
unfolding turn
turn_at max_sessions spurious index counter [] = (counter, [])
turn_at max_sessions spurious zero counter (caller ∷ callers) =
    let (after, next) = turn max_sessions spurious counter caller in (after, next ∷ callers)
turn_at max_sessions spurious (suc index) counter (caller ∷ callers) =
    let (after, rest) = turn_at max_sessions spurious index counter callers in
    (after, caller ∷ rest)

-- The turns in their order: the position of the caller, and whether an exchange fails spuriously.
unfoldable pub interleave : ℕ → List (ℕ × Bool) → ℕ → List Caller → ℕ × List Caller
unfolding turn_at
interleave max_sessions [] counter callers = (counter, callers)
interleave max_sessions ((index, spurious) ∷ turns) counter callers =
    let (after, rest) = turn_at max_sessions spurious index counter callers in
    interleave max_sessions turns after rest
