-- ===== src/OAuth/Families.antt =====
-- The scopes of a family of tokens never grow: what a rotation issues is within what it replaces.
use run_on_mine.Prelude.{
  ℕ, ◌≡◌, refl, sym, ap, ◌∙◌, subst, String, Bool, true, Option, none, some, List, [], ◌∷◌, any,
  all, find, update_where, arith, inl, inr, Bool-cases, &&-left, &&-right, &&-intro, Result, ok,
  err,
}
use run_on_mine.Prelude.Eq.{◌==◌}
use run_on_mine.Prelude.Members.{In, In-append, find-In, In-of-update_where}
use run_on_mine.Authorization.Access.{scope_eq}
use run_on_mine.OAuth.Tables.{
  SecretHash, ScopeSet, OAuthApi, StoreError, TokenRow, TokenStatus, rotated, revoked,
  TokenPairDraft, OAuthTables, has_hash, namespace_hash, namespace_token_pair,
}
use run_on_mine.OAuth.Scopes.{contains, is_subset}
use run_on_mine.OAuth.Guards.{Rotated, rotate_row-ok, rotate_row-err}
use run_on_mine.OAuth.Tokens.{token_pair, with_status, in_family, revoke_family}
use run_on_mine.OAuth.Rotation.{is_live, rotate_row, rotate_refresh_token}

-- Every token of the family is within the scopes.
abbrev pub FamilyWithin : String → ScopeSet → OAuthTables → Type 0
FamilyWithin family_id bound tables =
    (row : TokenRow)
    → In row tables.tokens
    → row.family_id ≡ family_id
    → is_subset row.scopes bound ≡ true

In-any :
    {A : Type 0} (p : A → Bool) (xs : List A) → any p xs ≡ true → (a : A) × In a xs × (p a ≡ true)
unfolding any
In-any p [] h = cc
In-any p (x ∷ xs) h = elim (Bool-cases (p x)) [
  | inl t ↦ (x, inl refl, t)
  | inr f ↦ let (a, m, k) = In-any p xs (ground arith) in (a, inr m, k)
]

all-In : {A : Type 0} (p : A → Bool) (xs : List A) (a : A) → In a xs → all p xs ≡ true → p a ≡ true
unfolding all
all-In p [] a m h = absurd m
all-In p (x ∷ xs) a (inl e) h = ap p e ∙ &&-left (p x) (all p xs) h
all-In p (x ∷ xs) a (inr m) h = all-In p xs a m (&&-right (p x) (all p xs) h)

is_subset_trans :
    (a b c : ScopeSet) → is_subset a b ≡ true → is_subset b c ≡ true → is_subset a c ≡ true
unfolding is_subset all
is_subset_trans [] b c h k = refl
is_subset_trans (s ∷ a) b c h k =
    let first = &&-left (contains b s) (all (contains b) a) h in
    let others = &&-right (contains b s) (all (contains b) a) h in
    let (t, member, same) = In-any (λ x. x == s) b first in
    let within = all-In (contains c) b t member k in
    &&-intro (contains c s) (all (contains c) a)
      (subst (λ x. contains c x ≡ true) ((scope_eq.beq_iff t s).0 same) within)
      (is_subset_trans a b c others k)

-- A change of status alone keeps the family and the scopes.
within-update_where :
    (p : TokenRow → Bool) (status : TokenStatus) (family_id : String) (bound : ScopeSet)
    (rows : List TokenRow)
    → ((row : TokenRow)
        → In row rows
        → row.family_id ≡ family_id
        → is_subset row.scopes bound ≡ true)
    → (row : TokenRow) → In row (update_where p (with_status status) rows)
    → row.family_id ≡ family_id
    → is_subset row.scopes bound ≡ true
within-update_where p status family_id bound rows h row m e =
    elim (In-of-update_where p (with_status status) rows row m) [
      | inr (kept, _) ↦ h row kept e
      | inl (before, member, _, same) ↦
          ap (λ (r : TokenRow). is_subset r.scopes bound) same
          ∙ h before member (sym (ap (λ (r : TokenRow). r.family_id) same) ∙ e)
    ]

issued-fields :
    (family_id client_id subject : String) (scopes : ScopeSet) (tokens : TokenPairDraft) (now : ℕ)
    (row : TokenRow)
    → In row (token_pair family_id client_id subject scopes tokens now)
    → (row.family_id ≡ family_id) × (row.scopes ≡ scopes)
issued-fields family_id client_id subject scopes tokens now row (inl e) =
    (ap (λ r. r.family_id) e, ap (λ r. r.scopes) e)
issued-fields family_id client_id subject scopes tokens now row (inr (inl e)) =
    (ap (λ r. r.family_id) e, ap (λ r. r.scopes) e)
issued-fields family_id client_id subject scopes tokens now row (inr (inr m)) = absurd m

issued-within :
    (family_id : String) (bound : ScopeSet) (client_id : String) (scopes : ScopeSet)
    (tokens : TokenPairDraft) (now : ℕ) (rows : List TokenRow) (old : TokenRow)
    → ((row : TokenRow)
        → In row rows
        → row.family_id ≡ family_id
        → is_subset row.scopes bound ≡ true)
    → In old rows
    → is_subset scopes old.scopes ≡ true
    → (row : TokenRow) → In row (token_pair old.family_id client_id old.subject scopes tokens now)
    → row.family_id ≡ family_id
    → is_subset row.scopes bound ≡ true
issued-within family_id bound client_id scopes tokens now rows old h m narrow row issued e =
    let (family, within) =
      issued-fields old.family_id client_id old.subject scopes tokens now row issued in
    ap (λ given. is_subset given bound) within
    ∙ is_subset_trans scopes old.scopes bound narrow (h old m (sym family ∙ e))

Rotated-FamilyWithin :
    (hash : SecretHash) (client_id : String) (scopes : ScopeSet) (tokens : TokenPairDraft) (now : ℕ)
    (tables : OAuthTables) (old : TokenRow) (after : OAuthTables) (family_id : String)
    (bound : ScopeSet)
    → In old tables.tokens
    → Rotated hash client_id scopes tokens now tables old after
    → FamilyWithin family_id bound tables
    → FamilyWithin family_id bound after
Rotated-FamilyWithin hash client_id scopes tokens now tables old after family_id bound m done h =
    subst (FamilyWithin family_id bound) (sym done.leaves) (λ row member e.
      elim (In-append (update_where (is_live hash) (with_status rotated) tables.tokens)
        (token_pair old.family_id client_id old.subject scopes tokens now) row member) [
          | inl earlier ↦
              within-update_where (is_live hash) rotated family_id bound tables.tokens h row earlier
                e
          | inr issued ↦
              issued-within family_id bound client_id scopes tokens now tables.tokens old h m
                done.narrows row issued e
        ])

revoke_family-FamilyWithin :
    (connector_id revoked_family : String) (tables : OAuthTables) (family_id : String)
    (bound : ScopeSet)
    → FamilyWithin family_id bound tables
    → FamilyWithin family_id bound (revoke_family connector_id revoked_family tables)
unfolding revoke_family
revoke_family-FamilyWithin connector_id revoked_family tables family_id bound h =
    within-update_where (in_family connector_id revoked_family tables) revoked family_id bound
      tables.tokens h

rotate_row-FamilyWithin :
    (connector_id : String) (hash : SecretHash) (client_id : String) (requested : Option ScopeSet)
    (tokens : TokenPairDraft) (now : ℕ) (tables : OAuthTables) (found : Option TokenRow)
    (family_id : String) (bound : ScopeSet)
    → find (has_hash hash) tables.tokens ≡ found
    → FamilyWithin family_id bound tables
    → (reply : Result StoreError ScopeSet) (after : OAuthTables)
    → rotate_row connector_id hash client_id requested tokens now tables found ≡ (reply, after)
    → FamilyWithin family_id bound after
rotate_row-FamilyWithin connector_id hash client_id requested tokens now tables none family_id bound
      f h reply after e =
    subst (FamilyWithin family_id bound) (ap (λ o. o.1) e) h
rotate_row-FamilyWithin connector_id hash client_id requested tokens now tables (some row) family_id
      bound f h (ok scopes) after e =
    Rotated-FamilyWithin hash client_id scopes tokens now tables row after family_id bound
      (find-In (has_hash hash) tables.tokens row f).0
      (rotate_row-ok connector_id hash client_id requested tokens now tables row scopes after e) h
rotate_row-FamilyWithin connector_id hash client_id requested tokens now tables (some row) family_id
      bound f h (err problem) after e =
    elim (rotate_row-err connector_id hash client_id requested tokens now tables row problem after
      e) [
        | inl same ↦ subst (FamilyWithin family_id bound) (sym same) h
        | inr same ↦
            subst (FamilyWithin family_id bound) (sym same)
              (revoke_family-FamilyWithin connector_id row.family_id tables family_id bound h)
      ]

module _ (api : OAuthApi) where
  -- A rotation, whatever it answers, leaves the tokens of every family within the scopes that
  -- they were within: a refresh can narrow the scopes of a session and never widen them.
  pub rotate_refresh_token-FamilyWithin :
      (connector_id : String) (token : SecretHash) (client_id : String)
      (requested : Option ScopeSet) (tokens : TokenPairDraft) (now : ℕ) (tables : OAuthTables)
      (family_id : String) (bound : ScopeSet)
      → FamilyWithin family_id bound tables
      → FamilyWithin family_id bound
          (rotate_refresh_token api connector_id token client_id requested tokens now tables).1
  unfolding rotate_refresh_token
  rotate_refresh_token-FamilyWithin connector_id token client_id requested tokens now tables
        family_id bound h =
      let hash = namespace_hash api connector_id token in
      let pair = namespace_token_pair api connector_id tokens in
      let found = find (has_hash hash) tables.tokens in
      let outcome = rotate_row connector_id hash client_id requested pair now tables found in
      rotate_row-FamilyWithin connector_id hash client_id requested pair now tables found family_id
        bound refl h outcome.0 outcome.1 refl
