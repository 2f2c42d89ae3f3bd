-- ===== src/RateLimit/History.antt =====
-- Queues of instants: what `pop_expired` leaves is what a window keeps of an ascending history.
use run_on_mine.Prelude.{
  ℕ, ◌-◌, ◌≤◌, ◌≡◌, refl, String, str_eq, Option, none, some, List, [], ◌∷◌, ◌++◌, leb, arith,
  if◌then◌else◌, filter,
}
use run_on_mine.Prelude.Members.{All}
use run_on_mine.RateLimit.{
  PrincipalRateLimiter, cutoff_at, pop_expired, prune, or_default, rate_limit_window, Calls,
  prune_entry,
}

-- What a principal's queue holds, absent or not.
abbrev pub entries_of : PrincipalRateLimiter → String → List ℕ
entries_of limiter principal = or_default (limiter.calls principal)

pub pop_expired_twice :
    (c d : ℕ) (l : List ℕ) → c ≤ d → pop_expired d (pop_expired c l) ≡ pop_expired d l
unfolding pop_expired
pop_expired_twice c d [] h = refl
pop_expired_twice c d (x ∷ l) h = ground (arith, pop_expired_twice c d l)

pub pop_expired-append :
    (c now : ℕ) (l : List ℕ) → c ≤ now → pop_expired c (l ++ now ∷ []) ≡ pop_expired c l ++ now ∷ []
unfolding pop_expired
pop_expired-append c now [] h = ground arith
pop_expired-append c now (x ∷ l) h = ground (arith, pop_expired-append c now l)

pub prune_entry_lem :
    (c : ℕ) (o : Option (List ℕ)) → or_default (prune_entry c o) ≡ pop_expired c (or_default o)
unfolding pop_expired
prune_entry_lem c none = refl
prune_entry_lem c (some l) = ground arith

pub or_default-prune :
    (c : ℕ) (calls : Calls) (p : String)
    → or_default (prune c calls p) ≡ pop_expired c (or_default (calls p))
unfolding prune
or_default-prune c calls p = prune_entry_lem c (calls p)

pub cutoff-le : (now : ℕ) → cutoff_at now ≤ now
unfolding cutoff_at
cutoff-le now = ground arith

-- The instants at which a principal's calls were admitted, oldest first.
abbrev pub times : String → List (String × ℕ) → List ℕ
times p [] = []
times p ((q, t) ∷ h) = let rest = times p h in if str_eq p q then t ∷ rest else rest

pub times-append :
    (p q : String) (t : ℕ) (h : List (String × ℕ))
    → times p (h ++ (q, t) ∷ []) ≡ (if str_eq p q then times p h ++ t ∷ [] else times p h)
times-append p q t [] = ground arith
times-append p q t ((r, u) ∷ h) = ground (arith, times-append p q t h)

abbrev pub IsSorted : ℕ → List ℕ → Type 0
IsSorted last [] = Unit
IsSorted last (x ∷ l) = All (λ y. x ≤ y) l × (x ≤ last) × IsSorted last l

pub All-append :
    (x now : ℕ) (l : List ℕ) → All (λ y. x ≤ y) l → x ≤ now → All (λ y. x ≤ y) (l ++ now ∷ [])
All-append x now [] a h = (h, tt)
All-append x now (y ∷ l) a h = (a.0, All-append x now l a.1 h)

pub IsSorted-append :
    (last now : ℕ) (l : List ℕ) → IsSorted last l → last ≤ now → IsSorted now (l ++ now ∷ [])
IsSorted-append last now [] s h = (tt, omega arith, tt)
IsSorted-append last now (x ∷ l) s h =
    (All-append x now l s.0 (omega arith), omega arith, IsSorted-append last now l s.2 h)

pub IsSorted-mono : (last now : ℕ) (l : List ℕ) → IsSorted last l → last ≤ now → IsSorted now l
IsSorted-mono last now [] s h = tt
IsSorted-mono last now (x ∷ l) s h = (s.0, omega arith, IsSorted-mono last now l s.2 h)

-- The admitted instants that lie in the window that ends now.
abbrev pub in_window : ℕ → List ℕ → List ℕ
in_window now = filter (λ t. leb (now - rate_limit_window) t)

pub filter-All : (c : ℕ) (l : List ℕ) → All (λ y. c ≤ y) l → filter (λ t. leb c t) l ≡ l
unfolding filter
filter-All c [] a = refl
filter-All c (x ∷ l) a = ground (arith, filter-All c l)

pub All-mono : (c x : ℕ) (l : List ℕ) → c ≤ x → All (λ y. x ≤ y) l → All (λ y. c ≤ y) l
All-mono c x [] h a = tt
All-mono c x (y ∷ l) h a = (omega arith, All-mono c x l h a.1)

pub pop_expired-filter :
    (c last : ℕ) (l : List ℕ) → IsSorted last l → pop_expired c l ≡ filter (λ t. leb c t) l
unfolding pop_expired filter
pop_expired-filter c last [] s = refl
pop_expired-filter c last (x ∷ l) s =
    ground (arith, pop_expired-filter c last l s.2, filter-All c l, All-mono c x l)
