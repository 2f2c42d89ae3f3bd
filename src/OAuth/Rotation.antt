-- ===== src/OAuth/Rotation.antt =====
-- `rotate_refresh_token` and `access_grant` of oauth/src/store.rs.
use run_on_mine.Prelude.{
  ℕ, String, str_eq, Bool, not, ◌&&◌, Option, none, some, find, update_where, count_where, ltb,
  if◌then◌else◌, err,
}
use run_on_mine.Prelude.Eq.{◌==◌, nat_eq}
use run_on_mine.OAuth.Tables.{
  SecretHash, ScopeSet, OAuthApi, invalid_grant, refresh_reuse, rotated, TokenRow, TokenPairDraft,
  AccessGrant, OAuthTables, is_active, is_access, is_client_of, has_hash, namespace_hash,
  namespace_token_pair,
}
use run_on_mine.OAuth.Scopes.{is_subset}
use run_on_mine.OAuth.Tokens.{
  Outcome, commit, insert_token_pair, with_status, set_tokens, revoke_family,
}

-- `requested_scopes.as_ref().unwrap_or(&original_scopes)`
abbrev pub granted_scopes : Option ScopeSet → ScopeSet → ScopeSet
granted_scopes none original = original
granted_scopes (some requested) original = requested

-- A refresh token of the client that has not run out.
unfoldable pub is_refresh_of : String → ℕ → TokenRow → Bool
is_refresh_of client_id now row =
    not (is_access row.kind) && str_eq row.client_id client_id && ltb now row.expires_at

abbrev pub is_live : SecretHash → TokenRow → Bool
is_live hash row = has_hash hash row && is_active row.status

abbrev pub rotate_live : SecretHash → OAuthTables → OAuthTables
rotate_live hash tables =
    set_tokens tables (update_where (is_live hash) (with_status rotated) tables.tokens)

-- The rotation of an active row, for the scopes of the new pair.
unfoldable pub rotate_active :
    SecretHash → String → ScopeSet → TokenPairDraft → ℕ → OAuthTables → TokenRow → Outcome ScopeSet
rotate_active hash client_id scopes tokens now tables row =
    if not (is_subset scopes row.scopes)
    then (err invalid_grant, tables)
    else if not (count_where (is_live hash) tables.tokens == 1)
    then (err refresh_reuse, tables)
    else commit scopes tables (
        insert_token_pair row.family_id client_id row.subject scopes tokens now
          (rotate_live hash tables))

-- A token that is no longer active was used again: its family is revoked.
abbrev pub rotate_row :
    String
    → SecretHash
    → String
    → Option ScopeSet
    → TokenPairDraft
    → ℕ
    → OAuthTables
    → Option TokenRow
    → Outcome ScopeSet
rotate_row connector_id hash client_id requested tokens now tables none =
    (err invalid_grant, tables)
rotate_row connector_id hash client_id requested tokens now tables (some row) =
    if not (is_refresh_of client_id now row)
    then (err invalid_grant, tables)
    else if not (is_active row.status)
    then (err refresh_reuse, revoke_family connector_id row.family_id tables)
    else rotate_active hash client_id (granted_scopes requested row.scopes) tokens now tables row

-- The select of `access_grant`, joined with the clients.
unfoldable pub is_bearer : String → SecretHash → ℕ → OAuthTables → TokenRow → Bool
unfolding is_client_of
is_bearer connector_id hash now tables row =
    has_hash hash row
    && is_access row.kind
    && is_active row.status
    && ltb now row.expires_at
    && is_client_of connector_id tables.clients row.client_id

abbrev pub access_of : Option TokenRow → Option AccessGrant
access_of none = none
access_of (some row) = some (record {
  client_id = row.client_id;
  subject = row.subject;
  scopes = row.scopes;
  expires_at = row.expires_at;
})

module _ (api : OAuthApi) where
  unfoldable pub rotate_refresh_token :
      String
      → SecretHash
      → String
      → Option ScopeSet
      → TokenPairDraft
      → ℕ
      → OAuthTables
      → Outcome ScopeSet
  unfolding find
  rotate_refresh_token connector_id refresh_hash client_id requested tokens now tables =
      rotate_row connector_id (namespace_hash api connector_id refresh_hash) client_id requested
        (namespace_token_pair api connector_id tokens) now tables
        (find (has_hash (namespace_hash api connector_id refresh_hash)) tables.tokens)

  unfoldable pub access_grant : String → SecretHash → ℕ → OAuthTables → Option AccessGrant
  unfolding find is_bearer
  access_grant connector_id token_hash now tables = access_of (
      find (is_bearer connector_id (namespace_hash api connector_id token_hash) now tables)
        tables.tokens)
