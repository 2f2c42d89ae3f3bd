-- ===== src/OAuth/ScopeText.antt =====
-- The text of a canonical scope set reads back as the set (scope.rs).
use run_on_mine.Prelude.{
  ℕ, suc, ◌+◌, ◌*◌, ◌≤◌, ◌<◌, ◌≡◌, refl, sym, ap, ◌∙◌, subst, Bool, true, false, not, Option, none,
  some, some-injective, List, [], ◌∷◌, ◌++◌, map, all, length, length-append, append-nil, ltb,
  arith, inl, inr, Bool-cases, &&-left, &&-right, if◌then◌else◌,
}
use run_on_mine.Authorization.Access.{
  Scope, machine_read, files_read, files_write, shell_exec, platform_native, browser_read,
  browser_act, desktop_control, admin_exec,
}
use run_on_mine.OAuth.Tables.{ScopeSet}
use run_on_mine.Prelude.Seq.{list_beq}
use run_on_mine.OAuth.Scopes.{
  rank, as_str, from_str, match_name, insert, from_iter, is_ascii_whitespace, keep, pieces,
  split_ascii_whitespace, and_then, scopes_from, parse, to_space_delimited,
}

-- Sorted without repetition, from a rank on: what a `BTreeSet` iterates over.
abbrev pub Below : ℕ → ScopeSet → Type 0
Below n [] = Unit
Below n (s ∷ rest) = (n ≤ rank s) × Below (suc (rank s)) rest

abbrev pub IsCanonical : ScopeSet → Type 0
IsCanonical scopes = Below 0 scopes

from_str-as_str : (s : Scope) → from_str (as_str s) ≡ some s
unfolding from_str match_name list_beq
from_str-as_str machine_read = refl
from_str-as_str files_read = refl
from_str-as_str files_write = refl
from_str-as_str shell_exec = refl
from_str-as_str platform_native = refl
from_str-as_str browser_read = refl
from_str-as_str browser_act = refl
from_str-as_str desktop_control = refl
from_str-as_str admin_exec = refl

as_str-plain : (s : Scope) → all (λ c. not (is_ascii_whitespace c)) (as_str s) ≡ true
unfolding all
as_str-plain machine_read = refl
as_str-plain files_read = refl
as_str-plain files_write = refl
as_str-plain shell_exec = refl
as_str-plain platform_native = refl
as_str-plain browser_read = refl
as_str-plain browser_act = refl
as_str-plain desktop_control = refl
as_str-plain admin_exec = refl

length-as_str-le : (s : Scope) → length (as_str s) ≤ 15
length-as_str-le machine_read = omega arith
length-as_str-le files_read = omega arith
length-as_str-le files_write = omega arith
length-as_str-le shell_exec = omega arith
length-as_str-le platform_native = omega arith
length-as_str-le browser_read = omega arith
length-as_str-le browser_act = omega arith
length-as_str-le desktop_control = omega arith
length-as_str-le admin_exec = omega arith

rank-lt : (s : Scope) → rank s < 9
rank-lt machine_read = omega arith
rank-lt files_read = omega arith
rank-lt files_write = omega arith
rank-lt shell_exec = omega arith
rank-lt platform_native = omega arith
rank-lt browser_read = omega arith
rank-lt browser_act = omega arith
rank-lt desktop_control = omega arith
rank-lt admin_exec = omega arith

keep-as_str : (s : Scope) (words : List (List ℕ)) → keep (as_str s) words ≡ as_str s ∷ words
keep-as_str machine_read words = refl
keep-as_str files_read words = refl
keep-as_str files_write words = refl
keep-as_str shell_exec words = refl
keep-as_str platform_native words = refl
keep-as_str browser_read words = refl
keep-as_str browser_act words = refl
keep-as_str desktop_control words = refl
keep-as_str admin_exec words = refl

true-not-false : {b : Bool} → b ≡ true → not b ≡ true → ⊥
true-not-false t h = ground arith

pieces-word :
    (word rest : List ℕ)
    → all (λ c. not (is_ascii_whitespace c)) word ≡ true
    → pieces (word ++ rest) ≡ (word ++ (pieces rest).0, (pieces rest).1)
unfolding all pieces
pieces-word [] rest h = refl
pieces-word (c ∷ word) rest h =
    let plain =
      &&-left (not (is_ascii_whitespace c)) (all (λ x. not (is_ascii_whitespace x)) word) h in
    let later =
      &&-right (not (is_ascii_whitespace c)) (all (λ x. not (is_ascii_whitespace x)) word) h in
    elim (Bool-cases (is_ascii_whitespace c)) [
      | inl t ↦ absurd (true-not-false t plain)
      | inr f ↦ rw (f, pieces-word word rest later)
    ]

split-as_str :
    (s : Scope) (rest : List ℕ)
    → (pieces rest).0 ≡ []
    → split_ascii_whitespace (as_str s ++ rest) ≡ as_str s ∷ (pieces rest).1
unfolding split_ascii_whitespace
split-as_str s rest h = rw (
  pieces-word (as_str s) rest (as_str-plain s),
  h,
  append-nil (as_str s),
  keep-as_str s (pieces rest).1,
)

split-to_space_delimited :
    (scopes : ScopeSet) → split_ascii_whitespace (to_space_delimited scopes) ≡ map as_str scopes
unfolding split_ascii_whitespace to_space_delimited pieces
split-to_space_delimited [] = refl
split-to_space_delimited (s ∷ []) =
    ap split_ascii_whitespace (sym (append-nil (as_str s))) ∙ split-as_str s [] refl
split-to_space_delimited (s ∷ t ∷ rest) =
    split-as_str s (32 ∷ to_space_delimited (t ∷ rest)) refl
    ∙ ap (λ words. as_str s ∷ words) (split-to_space_delimited (t ∷ rest))

scopes_from-map : (scopes : ScopeSet) → scopes_from (map as_str scopes) ≡ some scopes
unfolding scopes_from
scopes_from-map [] = refl
scopes_from-map (s ∷ rest) = rw (from_str-as_str s, scopes_from-map rest)

insert-first :
    (s : Scope) (scopes : ScopeSet) → Below (suc (rank s)) scopes → insert s scopes ≡ s ∷ scopes
unfolding insert
insert-first s [] h = refl
insert-first s (x ∷ xs) h = ground arith

from_iter-canonical : (n : ℕ) (scopes : ScopeSet) → Below n scopes → from_iter scopes ≡ scopes
unfolding from_iter
from_iter-canonical n [] h = refl
from_iter-canonical n (s ∷ rest) h =
    rw (from_iter-canonical (suc (rank s)) rest h.1, insert-first s rest h.1)

length-to_space_delimited-le :
    (n : ℕ) (scopes : ScopeSet)
    → n ≤ 9
    → Below n scopes
    → length (to_space_delimited scopes) + 16 * n ≤ 144
unfolding to_space_delimited
length-to_space_delimited-le n [] le h = omega arith
length-to_space_delimited-le n (s ∷ []) le h = omega (arith, h.0, length-as_str-le s, rank-lt s)
length-to_space_delimited-le n (s ∷ t ∷ rest) le h = omega (
  arith,
  h.0,
  length-as_str-le s,
  rank-lt s,
  length-append (as_str s) (32 ∷ to_space_delimited (t ∷ rest)),
  length-to_space_delimited-le (suc (rank s)) (t ∷ rest) (rank-lt s) h.1,
)

not-ltb : (n bound : ℕ) → n ≤ bound → ltb bound n ≡ false
not-ltb n bound h = ground arith

parse-canonical :
    (scopes : ScopeSet) → IsCanonical scopes → parse (to_space_delimited scopes) ≡ some scopes
unfolding parse
parse-canonical scopes h = rw (
  not-ltb (length (to_space_delimited scopes)) 2048
      (omega (arith, length-to_space_delimited-le 0 scopes (omega arith) h)),
  split-to_space_delimited scopes,
  scopes_from-map scopes,
  from_iter-canonical 0 scopes h,
)

insert-Below :
    (n : ℕ) (s : Scope) (scopes : ScopeSet)
    → n ≤ rank s
    → Below n scopes
    → Below n (insert s scopes)
unfolding insert
insert-Below n s [] le h = (le, tt)
insert-Below n s (x ∷ xs) le h = ground (arith, insert-Below (suc (rank x)) s xs)

from_iter-IsCanonical : (scopes : List Scope) → IsCanonical (from_iter scopes)
unfolding from_iter
from_iter-IsCanonical [] = tt
from_iter-IsCanonical (s ∷ rest) =
    insert-Below 0 s (from_iter rest) (omega arith) (from_iter-IsCanonical rest)

collected-IsCanonical :
    (long : Bool) (found : Option (List Scope)) (scopes : ScopeSet)
    → (if long then none else and_then found (λ names. some (from_iter names))) ≡ some scopes
    → IsCanonical scopes
collected-IsCanonical true found scopes h = cc
collected-IsCanonical false none scopes h = cc
collected-IsCanonical false (some found) scopes h =
    subst IsCanonical (some-injective (from_iter found) scopes h) (from_iter-IsCanonical found)

parse-IsCanonical :
    (value : List ℕ) (scopes : ScopeSet) → parse value ≡ some scopes → IsCanonical scopes
unfolding parse
parse-IsCanonical value scopes h =
    collected-IsCanonical (ltb 2048 (length value)) (scopes_from (split_ascii_whitespace value))
      scopes h

-- Whatever text a scope set was read from, the set's own text reads back as the same set: the
-- scopes that a row stores are the scopes that were granted.
pub parse-to_space_delimited :
    (value : List ℕ) (scopes : ScopeSet)
    → parse value ≡ some scopes
    → parse (to_space_delimited scopes) ≡ some scopes
parse-to_space_delimited value scopes h = parse-canonical scopes (parse-IsCanonical value scopes h)
