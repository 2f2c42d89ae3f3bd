-- ===== src/Session/Permits.antt =====
-- The counter of the session permits equals the number of permits that are held.
use run_on_mine.Prelude.{ℕ, zero, suc, ◌+◌, ◌≤◌, ◌<◌, ◌≡◌, Bool, true, false, List, [], ◌∷◌, arith}
use run_on_mine.Session.{
  Caller, idle, trying, holding, refused, usize_modulus, fetch_sub_one, turn, turn_at, interleave,
}

abbrev pub is_holding : Caller → Bool
is_holding holding = true
is_holding _ = false

-- The number of permits that are held.
abbrev pub held : List Caller → ℕ
held [] = 0
held (holding ∷ callers) = 1 + held callers
held (caller ∷ callers) = held callers

fetch_sub_one_lem : (n : ℕ) → n + 1 < usize_modulus → fetch_sub_one (n + 1) ≡ n
unfolding fetch_sub_one
fetch_sub_one_lem n h = omega arith

module _ (max_sessions : ℕ) (fits : max_sessions < usize_modulus) where
  -- One turn changes the counter by the permits that it takes or drops, within the limit.
  turn-held :
      (spurious : Bool) (counter : ℕ) (caller : Caller)
      → held (caller ∷ []) ≤ counter
      → counter ≤ max_sessions
      → ((turn max_sessions spurious counter caller).0 + held (caller ∷ [])
          ≡ counter + held ((turn max_sessions spurious counter caller).1 ∷ []))
        × ((turn max_sessions spurious counter caller).0 ≤ max_sessions)
  unfolding turn
  turn-held spurious counter idle h k = ground arith
  turn-held spurious counter (trying current) h k = ground arith
  turn-held spurious zero holding h k = absurd (omega arith)
  turn-held spurious (suc counter) holding h k =
      ground (arith, fetch_sub_one_lem counter (omega arith))
  turn-held spurious counter refused h k = ground arith

  held-cons :
      (caller : Caller) (callers : List Caller)
      → held (caller ∷ callers) ≡ held (caller ∷ []) + held callers
  held-cons idle callers = omega arith
  held-cons (trying n) callers = omega arith
  held-cons holding callers = omega arith
  held-cons refused callers = omega arith

  turn_at-held :
      (spurious : Bool) (index counter : ℕ) (callers : List Caller)
      → held callers ≤ counter
      → counter ≤ max_sessions
      → ((turn_at max_sessions spurious index counter callers).0 + held callers
          ≡ counter + held (turn_at max_sessions spurious index counter callers).1)
        × ((turn_at max_sessions spurious index counter callers).0 ≤ max_sessions)
  unfolding turn_at
  turn_at-held spurious index counter [] h k = ground arith
  turn_at-held spurious zero counter (caller ∷ callers) h k =
      let (sum, bound) =
        turn-held spurious counter caller (let e = held-cons caller callers in omega arith) k in
      let e = held-cons caller callers in
      let f = held-cons (turn max_sessions spurious counter caller).1 callers in
      (omega arith, bound)
  turn_at-held spurious (suc index) counter (caller ∷ callers) h k =
      let e = held-cons caller callers in
      let (sum, bound) = turn_at-held spurious index counter callers (omega arith) k in
      let f = held-cons caller (turn_at max_sessions spurious index counter callers).1 in
      (omega arith, bound)

  -- In every interleaving of the callers' atomic operations, spurious failures included, the counter
  -- stays the number of held permits, and that number stays within the limit.
  pub interleave-held :
      (turns : List (ℕ × Bool)) (counter : ℕ) (callers : List Caller)
      → counter ≡ held callers
      → counter ≤ max_sessions
      → ((interleave max_sessions turns counter callers).0
          ≡ held (interleave max_sessions turns counter callers).1)
        × (held (interleave max_sessions turns counter callers).1 ≤ max_sessions)
  unfolding interleave
  interleave-held [] counter callers h k = (h, omega arith)
  interleave-held ((index, spurious) ∷ turns) counter callers h k =
      let (sum, bound) = turn_at-held spurious index counter callers (omega arith) k in
      interleave-held turns (turn_at max_sessions spurious index counter callers).0
        (turn_at max_sessions spurious index counter callers).1 (omega arith) bound
