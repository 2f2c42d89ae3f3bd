-- ===== src/OAuth/Guards.antt =====
-- What the guards of a transaction say once it has committed, and the tables that it leaves.
use run_on_mine.Prelude.{
  ℕ, ◌≡◌, ◌⊎◌, refl, sym, ap, subst, String, Bool, true, false, not, Option, some, ◌++◌, any,
  update_where, arith, Result, ok, err, if◌then◌else◌, inl, inr, ◌==◌, count_where,
}
use run_on_mine.Prelude.Eq.{nat_eq}
use run_on_mine.OAuth.Tables.{
  SecretHash, ScopeSet, StoreError, invalid_grant, refresh_reuse, rotated, TokenRow, TokenPairDraft,
  OAuthTables, is_active, has_client, has_hash,
}
use run_on_mine.OAuth.Scopes.{is_subset}
use run_on_mine.OAuth.Tokens.{
  commit, token_pair, insert_token_pair, with_status, set_tokens, revoke_family,
}
use run_on_mine.OAuth.Rotation.{
  granted_scopes, is_refresh_of, is_live, rotate_live, rotate_active, rotate_row,
}

pub guard-ok {ℓ} :
    {A : Type ℓ} (b : Bool) (e : StoreError) (before : OAuthTables)
    (rest : Result StoreError A × OAuthTables) (a : A) (after : OAuthTables)
    → (if b then (err e, before) else rest) ≡ (ok a, after)
    → (b ≡ false) × (rest ≡ (ok a, after))
guard-ok true e before rest a after h = cc
guard-ok false e before rest a after h = (refl, h)

pub not-false : {b : Bool} → not b ≡ false → b ≡ true
not-false h = ground arith

pub commit-ok {ℓ} :
    {A : Type ℓ} (value : A) (before : OAuthTables) (inserted : Result StoreError OAuthTables)
    (a : A) (after : OAuthTables)
    → commit value before inserted ≡ (ok a, after)
    → (inserted ≡ ok after) × (value ≡ a)
commit-ok value before (err e) a after h = cc
commit-ok value before (ok tables) a after h = (cc, cc)

pub insert_token_pair-ok :
    (family_id client_id subject : String) (scopes : ScopeSet) (tokens : TokenPairDraft) (now : ℕ)
    (tables after : OAuthTables)
    → insert_token_pair family_id client_id subject scopes tokens now tables ≡ ok after
    → (after
        ≡ set_tokens tables
            (tables.tokens ++ token_pair family_id client_id subject scopes tokens now))
      × (any (has_hash tokens.access_hash) tables.tokens ≡ false)
      × (any (has_hash tokens.refresh_hash) tables.tokens ≡ false)
      × (has_client client_id tables ≡ true)
unfolding insert_token_pair
insert_token_pair-ok family_id client_id subject scopes tokens now tables after h = ground arith

-- The facts that a rotation which committed rests on, and the tokens that it leaves.
pub record Rotated (hash : SecretHash) (client_id : String) (scopes : ScopeSet)
    (tokens : TokenPairDraft) (now : ℕ) (tables : OAuthTables) (row : TokenRow)
    (after : OAuthTables) : Type 0 where
  pub is_client : is_refresh_of client_id now row ≡ true
  pub was_active : is_active row.status ≡ true
  pub narrows : is_subset scopes row.scopes ≡ true
  pub only : (count_where (is_live hash) tables.tokens == 1) ≡ true
  pub leaves :
      after
      ≡ set_tokens tables (
          update_where (is_live hash) (with_status rotated) tables.tokens
          ++ token_pair row.family_id client_id row.subject scopes tokens now)

rotate_active-ok :
    (hash : SecretHash) (client_id : String) (scopes : ScopeSet) (tokens : TokenPairDraft) (now : ℕ)
    (tables : OAuthTables) (row : TokenRow) (granted : ScopeSet) (after : OAuthTables)
    → is_refresh_of client_id now row ≡ true
    → is_active row.status ≡ true
    → rotate_active hash client_id scopes tokens now tables row ≡ (ok granted, after)
    → Rotated hash client_id granted tokens now tables row after
unfolding rotate_active
rotate_active-ok hash client_id scopes tokens now tables row granted after client live h =
    let inserting =
      insert_token_pair row.family_id client_id row.subject scopes tokens now
        (rotate_live hash tables) in
    let whole = commit scopes tables inserting in
    let checked =
      guard-ok (not (count_where (is_live hash) tables.tokens == 1)) refresh_reuse tables whole in
    let (narrow, rest) =
      guard-ok (not (is_subset scopes row.scopes)) invalid_grant tables
        (if not (count_where (is_live hash) tables.tokens == 1)
          then (err refresh_reuse, tables)
          else whole)
        granted after h in
    let (single, committed) = checked granted after rest in
    let (into, same) = commit-ok scopes tables inserting granted after committed in
    subst (λ given. Rotated hash client_id given tokens now tables row after) same
      (record {
        is_client = client;
        was_active = live;
        narrows = not-false narrow;
        only = not-false single;
        leaves =
            (insert_token_pair-ok row.family_id client_id row.subject scopes tokens now
              (rotate_live hash tables) after into).0;
      })

pub rotate_row-ok :
    (connector_id : String) (hash : SecretHash) (client_id : String) (requested : Option ScopeSet)
    (tokens : TokenPairDraft) (now : ℕ) (tables : OAuthTables) (row : TokenRow) (granted : ScopeSet)
    (after : OAuthTables)
    → rotate_row connector_id hash client_id requested tokens now tables (some row)
      ≡ (ok granted, after)
    → Rotated hash client_id granted tokens now tables row after
rotate_row-ok connector_id hash client_id requested tokens now tables row granted after h =
    let scopes = granted_scopes requested row.scopes in
    let active_case = rotate_active hash client_id scopes tokens now tables row in
    let (client, rest) =
      guard-ok (not (is_refresh_of client_id now row)) invalid_grant tables
        (if not (is_active row.status)
          then (err refresh_reuse, revoke_family connector_id row.family_id tables)
          else active_case)
        granted after h in
    let (live, rotation) =
      guard-ok (not (is_active row.status)) refresh_reuse
        (revoke_family connector_id row.family_id tables) active_case granted after rest in
    rotate_active-ok hash client_id scopes tokens now tables row granted after (not-false client)
      (not-false live) rotation

commit-err {ℓ} :
    {A : Type ℓ} (value : A) (before : OAuthTables) (inserted : Result StoreError OAuthTables)
    (e : StoreError) (after : OAuthTables)
    → commit value before inserted ≡ (err e, after)
    → after ≡ before
commit-err value before (err e) f after h = sym (ap (λ o. o.1) h)
commit-err value before (ok tables) e after h = cc

guard-err {ℓ} :
    {A : Type ℓ} (b : Bool) (refusal : StoreError) (before : OAuthTables)
    (rest : Result StoreError A × OAuthTables) (e : StoreError) (after : OAuthTables)
    → (if b then (err refusal, before) else rest) ≡ (err e, after)
    → (after ≡ before) ⊎ (rest ≡ (err e, after))
guard-err true refusal before rest e after h = inl (sym (ap (λ o. o.1) h))
guard-err false refusal before rest e after h = inr h

rotate_active-err :
    (hash : SecretHash) (client_id : String) (scopes : ScopeSet) (tokens : TokenPairDraft) (now : ℕ)
    (tables : OAuthTables) (row : TokenRow) (e : StoreError) (after : OAuthTables)
    → rotate_active hash client_id scopes tokens now tables row ≡ (err e, after)
    → after ≡ tables
unfolding rotate_active
rotate_active-err hash client_id scopes tokens now tables row e after h =
    let whole = commit scopes tables (
      insert_token_pair row.family_id client_id row.subject scopes tokens now
        (rotate_live hash tables)) in
    let only = count_where (is_live hash) tables.tokens == 1 in
    elim (guard-err (not (is_subset scopes row.scopes)) invalid_grant tables
      (if not only then (err refresh_reuse, tables) else whole) e after h) [
        | inl same ↦ same
        | inr rest ↦ elim (guard-err (not only) refresh_reuse tables whole e after rest) [
          | inl same ↦ same
          | inr committed ↦
              commit-err scopes tables
                (insert_token_pair row.family_id client_id row.subject scopes tokens now
                  (rotate_live hash tables))
                e after committed
        ]
      ]

-- A rotation that fails changes nothing, unless it revokes the family of a token used again.
pub rotate_row-err :
    (connector_id : String) (hash : SecretHash) (client_id : String) (requested : Option ScopeSet)
    (tokens : TokenPairDraft) (now : ℕ) (tables : OAuthTables) (row : TokenRow) (e : StoreError)
    (after : OAuthTables)
    → rotate_row connector_id hash client_id requested tokens now tables (some row) ≡ (err e, after)
    → (after ≡ tables) ⊎ (after ≡ revoke_family connector_id row.family_id tables)
rotate_row-err connector_id hash client_id requested tokens now tables row e after h = ground (
  arith,
  rotate_active-err hash client_id (granted_scopes requested row.scopes) tokens now tables row e
      after,
)
