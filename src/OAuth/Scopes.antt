-- ===== src/OAuth/Scopes.antt =====
-- scope.rs: the canonical set of scopes, which a `BTreeSet` keeps in the order of the declaration,
-- and its text. Texts are lists of bytes.
use run_on_mine.Prelude.{
  ℕ, Bool, ◌||◌, Option, none, some, List, [], ◌∷◌, ◌++◌, any, all, filter, length, ltb,
  if◌then◌else◌,
}
use run_on_mine.Prelude.Eq.{◌==◌, nat_eq}
use run_on_mine.Prelude.Seq.{list_beq}
use run_on_mine.Authorization.Access.{
  Scope, machine_read, files_read, files_write, shell_exec, platform_native, browser_read,
  browser_act, desktop_control, admin_exec, scope_eq,
}
use run_on_mine.OAuth.Tables.{ScopeSet}

-- The derived `Ord` of the declaration's order.
abbrev pub rank : Scope → ℕ
rank machine_read = 0
rank files_read = 1
rank files_write = 2
rank shell_exec = 3
rank platform_native = 4
rank browser_read = 5
rank browser_act = 6
rank desktop_control = 7
rank admin_exec = 8

abbrev pub all_scopes : ScopeSet
all_scopes =
    machine_read ∷ files_read ∷ files_write ∷ shell_exec ∷ platform_native ∷ browser_read
    ∷ browser_act ∷ desktop_control ∷ admin_exec ∷ []

-- `Scope::as_str`
abbrev pub as_str : Scope → List ℕ
-- "machine:read"
as_str machine_read = 109 ∷ 97 ∷ 99 ∷ 104 ∷ 105 ∷ 110 ∷ 101 ∷ 58 ∷ 114 ∷ 101 ∷ 97 ∷ 100 ∷ []
-- "files:read"
as_str files_read = 102 ∷ 105 ∷ 108 ∷ 101 ∷ 115 ∷ 58 ∷ 114 ∷ 101 ∷ 97 ∷ 100 ∷ []
-- "files:write"
as_str files_write = 102 ∷ 105 ∷ 108 ∷ 101 ∷ 115 ∷ 58 ∷ 119 ∷ 114 ∷ 105 ∷ 116 ∷ 101 ∷ []
-- "shell:exec"
as_str shell_exec = 115 ∷ 104 ∷ 101 ∷ 108 ∷ 108 ∷ 58 ∷ 101 ∷ 120 ∷ 101 ∷ 99 ∷ []
-- "platform:exec"
as_str platform_native =
    112 ∷ 108 ∷ 97 ∷ 116 ∷ 102 ∷ 111 ∷ 114 ∷ 109 ∷ 58 ∷ 101 ∷ 120 ∷ 101 ∷ 99 ∷ []
-- "browser:read"
as_str browser_read = 98 ∷ 114 ∷ 111 ∷ 119 ∷ 115 ∷ 101 ∷ 114 ∷ 58 ∷ 114 ∷ 101 ∷ 97 ∷ 100 ∷ []
-- "browser:act"
as_str browser_act = 98 ∷ 114 ∷ 111 ∷ 119 ∷ 115 ∷ 101 ∷ 114 ∷ 58 ∷ 97 ∷ 99 ∷ 116 ∷ []
-- "desktop:control"
as_str desktop_control =
    100 ∷ 101 ∷ 115 ∷ 107 ∷ 116 ∷ 111 ∷ 112 ∷ 58 ∷ 99 ∷ 111 ∷ 110 ∷ 116 ∷ 114 ∷ 111 ∷ 108 ∷ []
-- "admin:exec"
as_str admin_exec = 97 ∷ 100 ∷ 109 ∷ 105 ∷ 110 ∷ 58 ∷ 101 ∷ 120 ∷ 101 ∷ 99 ∷ []

-- The table of `Scope::from_str`, apart from that of `as_str`
abbrev pub scope_names : List (List ℕ × Scope)
scope_names =
    -- "machine:read"
    (109 ∷ 97 ∷ 99 ∷ 104 ∷ 105 ∷ 110 ∷ 101 ∷ 58 ∷ 114 ∷ 101 ∷ 97 ∷ 100 ∷ [], machine_read)
    ∷  -- "files:read"
        (102 ∷ 105 ∷ 108 ∷ 101 ∷ 115 ∷ 58 ∷ 114 ∷ 101 ∷ 97 ∷ 100 ∷ [], files_read)
    ∷  -- "files:write"
        (102 ∷ 105 ∷ 108 ∷ 101 ∷ 115 ∷ 58 ∷ 119 ∷ 114 ∷ 105 ∷ 116 ∷ 101 ∷ [], files_write)
    ∷  -- "shell:exec"
        (115 ∷ 104 ∷ 101 ∷ 108 ∷ 108 ∷ 58 ∷ 101 ∷ 120 ∷ 101 ∷ 99 ∷ [], shell_exec)
    ∷  -- "platform:exec"
        (
          112 ∷ 108 ∷ 97 ∷ 116 ∷ 102 ∷ 111 ∷ 114 ∷ 109 ∷ 58 ∷ 101 ∷ 120 ∷ 101 ∷ 99 ∷ [],
          platform_native,
        )
    ∷  -- "browser:read"
        (98 ∷ 114 ∷ 111 ∷ 119 ∷ 115 ∷ 101 ∷ 114 ∷ 58 ∷ 114 ∷ 101 ∷ 97 ∷ 100 ∷ [], browser_read)
    ∷  -- "browser:act"
        (98 ∷ 114 ∷ 111 ∷ 119 ∷ 115 ∷ 101 ∷ 114 ∷ 58 ∷ 97 ∷ 99 ∷ 116 ∷ [], browser_act)
    ∷  -- "desktop:control"
        (
          100 ∷ 101 ∷ 115 ∷ 107 ∷ 116 ∷ 111 ∷ 112 ∷ 58 ∷ 99 ∷ 111 ∷ 110 ∷ 116 ∷ 114 ∷ 111 ∷ 108
              ∷ [],
          desktop_control,
        )
    ∷  -- "admin:exec"
        (97 ∷ 100 ∷ 109 ∷ 105 ∷ 110 ∷ 58 ∷ 101 ∷ 120 ∷ 101 ∷ 99 ∷ [], admin_exec)
    ∷ []

-- The match of a text against a table, from its start on.
unfoldable pub match_name : List (List ℕ × Scope) → List ℕ → Option Scope
unfolding list_beq
match_name [] word = none
match_name ((name, scope) ∷ rest) word =
    let later = match_name rest word in if list_beq word name then some scope else later

-- `Scope::from_str`; `none` is the invalid scope.
unfoldable pub from_str : List ℕ → Option Scope
unfolding match_name
from_str word = match_name scope_names word

-- The insertion of a `BTreeSet`: in order, and at most once.
unfoldable pub insert : Scope → ScopeSet → ScopeSet
insert s [] = s ∷ []
insert s (x ∷ xs) =
    let rest = insert s xs in
    if ltb (rank s) (rank x) then s ∷ x ∷ xs else if rank s == rank x then x ∷ xs else x ∷ rest

unfoldable pub from_iter : List Scope → ScopeSet
unfolding insert
from_iter [] = []
from_iter (s ∷ rest) = insert s (from_iter rest)

abbrev pub contains : ScopeSet → Scope → Bool
contains scopes scope = any (λ s. s == scope) scopes

unfoldable pub is_subset : ScopeSet → ScopeSet → Bool
unfolding any all
is_subset scopes other = all (contains other) scopes

unfoldable pub intersection : ScopeSet → ScopeSet → ScopeSet
unfolding any filter
intersection scopes other = filter (contains other) scopes

-- Applies the local policy ceiling to a token's scopes.
unfoldable pub constrained_by : ScopeSet → ScopeSet → ScopeSet
unfolding intersection
constrained_by scopes local_policy = intersection scopes local_policy

-- space, tab, line feed, form feed and carriage return
abbrev pub is_ascii_whitespace : ℕ → Bool
is_ascii_whitespace c = c == 32 || c == 9 || c == 10 || c == 12 || c == 13

-- A word that is complete, unless it is empty.
abbrev pub keep : List ℕ → List (List ℕ) → List (List ℕ)
keep [] words = words
keep (c ∷ cs) words = (c ∷ cs) ∷ words

-- The word at the start of the text, which may be empty, and the words after it.
unfoldable pub pieces : List ℕ → List ℕ × List (List ℕ)
pieces [] = ([], [])
pieces (c ∷ cs) =
    let rest = pieces cs in
    if is_ascii_whitespace c then ([], keep rest.0 rest.1) else (c ∷ rest.0, rest.1)

unfoldable pub split_ascii_whitespace : List ℕ → List (List ℕ)
unfolding pieces
split_ascii_whitespace value = keep (pieces value).0 (pieces value).1

-- A chain of `Option`s: the first `none` ends it.
abbrev pub and_then {ℓ κ} : {A : Type ℓ} {B : Type κ} → Option A → (A → Option B) → Option B
and_then none next = none
and_then (some a) next = next a

-- The collection into `Result<BTreeSet<_>, _>`.
unfoldable pub scopes_from : List (List ℕ) → Option (List Scope)
unfolding from_str
scopes_from [] = some []
scopes_from (word ∷ words) =
    let rest = scopes_from words in
    and_then (from_str word) (λ s. and_then rest (λ scopes. some (s ∷ scopes)))

-- `ScopeSet::parse`; `none` is the invalid scope.
unfoldable pub parse : List ℕ → Option ScopeSet
unfolding split_ascii_whitespace scopes_from from_iter
parse value =
    if ltb 2048 (length value)
    then none
    else and_then (scopes_from (split_ascii_whitespace value)) (λ scopes. some (from_iter scopes))

-- `join(" ")`
unfoldable pub to_space_delimited : ScopeSet → List ℕ
to_space_delimited [] = []
to_space_delimited (s ∷ []) = as_str s
to_space_delimited (s ∷ t ∷ rest) = as_str s ++ 32 ∷ to_space_delimited (t ∷ rest)
