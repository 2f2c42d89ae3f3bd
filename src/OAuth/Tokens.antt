-- ===== src/OAuth/Tokens.antt =====
-- Codes and tokens: the exchange, the rotation and the revocation of oauth/src/store.rs. Each
-- operation is one job of the database worker, and a transaction that fails leaves no change.
use run_on_mine.Prelude.{
  ℕ, String, str_eq, Bool, true, not, ◌&&◌, ◌||◌, Option, none, some, List, [], ◌∷◌, ◌++◌, any, all,
  find, length, update_where, count_where, ltb, leb, if◌then◌else◌, Result, ok, err,
}
use run_on_mine.Prelude.Eq.{◌==◌, nat_eq}
use run_on_mine.Prelude.Seq.{list_beq}
use run_on_mine.OAuth.Tables.{
  SecretHash, ScopeSet, OAuthApi, StoreError, invalid_grant, database, CodeRow, TokenKind, access,
  refresh, TokenStatus, active, revoked, TokenRow, TokenPairDraft, OAuthTables, is_client_of,
  has_client, has_hash, has_code, namespace_hash, namespace_token_pair,
}

abbrev pub Outcome : Type 0 → Type 0
Outcome A = Result StoreError A × OAuthTables

abbrev pub token_row :
    SecretHash → TokenKind → String → String → String → ScopeSet → ℕ → ℕ → TokenRow
token_row hash kind family_id client_id subject scopes now expires_at = record {
  token_hash = hash;
  kind = kind;
  family_id = family_id;
  client_id = client_id;
  subject = subject;
  scopes = scopes;
  issued_at = now;
  expires_at = expires_at;
  status = active;
}

abbrev pub token_pair : String → String → String → ScopeSet → TokenPairDraft → ℕ → List TokenRow
token_pair family_id client_id subject scopes tokens now =
    token_row tokens.access_hash access family_id client_id subject scopes now
      tokens.access_expires_at
    ∷ token_row tokens.refresh_hash refresh family_id client_id subject scopes now
        tokens.refresh_expires_at
    ∷ []

-- The two inserts, under the primary key and the foreign key of the table.
unfoldable pub insert_token_pair :
    String
    → String
    → String
    → ScopeSet
    → TokenPairDraft
    → ℕ
    → OAuthTables
    → Result StoreError OAuthTables
unfolding any list_beq has_client
insert_token_pair family_id client_id subject scopes tokens now tables =
    if not (has_client client_id tables)
      || any (has_hash tokens.access_hash) tables.tokens
      || any (has_hash tokens.refresh_hash) tables.tokens
      || list_beq tokens.access_hash tokens.refresh_hash
    then err database
    else ok (record tables {
      tokens = tables.tokens ++ token_pair family_id client_id subject scopes tokens now;
    })

-- The commit of what was inserted, or the rollback to the tables before the transaction.
abbrev pub commit {ℓ} :
    {A : Type ℓ}
    → A
    → OAuthTables
    → Result StoreError OAuthTables
    → Result StoreError A × OAuthTables
commit a before (ok after) = (ok a, after)
commit a before (err e) = (err e, before)

-- RFC 7636: letters, digits, and `-` `.` `_` `~`
abbrev pub is_unreserved : ℕ → Bool
is_unreserved b =
    leb 48 b && leb b 57
    || leb 65 b && leb b 90
    || leb 97 b && leb b 122
    || b == 45
    || b == 46
    || b == 95
    || b == 126

abbrev pub mark_used : CodeRow → CodeRow
mark_used row = record row { used = true }

abbrev pub with_status : TokenStatus → TokenRow → TokenRow
with_status status row = record row { status = status }

-- Rows of the family whose client belongs to the connector.
abbrev pub in_family : String → String → OAuthTables → TokenRow → Bool
in_family connector_id family_id tables row =
    str_eq row.family_id family_id && is_client_of connector_id tables.clients row.client_id

abbrev pub set_tokens : OAuthTables → List TokenRow → OAuthTables
set_tokens tables tokens = record tables { tokens = tokens }

unfoldable pub revoke_family : String → String → OAuthTables → OAuthTables
unfolding is_client_of update_where
revoke_family connector_id family_id tables =
    set_tokens tables
      (update_where (in_family connector_id family_id tables) (with_status revoked) tables.tokens)

module _ (api : OAuthApi) where
  open api use {as_bytes, sha256, base64_url}

  unfoldable pub verify_pkce : String → String → Bool
  unfolding all list_beq
  verify_pkce verifier expected_challenge =
      leb 43 (length (as_bytes verifier))
      && leb (length (as_bytes verifier)) 128
      && all is_unreserved (as_bytes verifier)
      && list_beq (as_bytes (base64_url (sha256 (as_bytes verifier)))) (as_bytes expected_challenge)

  -- The conditions under which a code is exchanged.
  unfoldable pub code_serves : String → String → String → ℕ → CodeRow → Bool
  unfolding verify_pkce
  code_serves client_id redirect_uri verifier now row =
      not row.used
      && ltb now row.expires_at
      && str_eq row.client_id client_id
      && str_eq row.redirect_uri redirect_uri
      && verify_pkce verifier row.code_challenge

  -- The exchange of the row that the select found; `family_id` is the fresh `Uuid`.
  abbrev pub exchange_row :
      SecretHash
      → String
      → String
      → String
      → TokenPairDraft
      → String
      → ℕ
      → OAuthTables
      → Option CodeRow
      → Outcome ScopeSet
  exchange_row hash client_id redirect_uri verifier tokens family_id now tables none =
      (err invalid_grant, tables)
  exchange_row hash client_id redirect_uri verifier tokens family_id now tables (some row) =
      if not (code_serves client_id redirect_uri verifier now row)
      then (err invalid_grant, tables)
      else if not (count_where (λ c. has_code hash c && not c.used) tables.codes == 1)
      then (err invalid_grant, tables)
      else commit row.scopes tables (
          insert_token_pair family_id client_id row.subject row.scopes tokens now (record tables {
            codes = update_where (λ c. has_code hash c && not c.used) mark_used tables.codes;
          }))

  unfoldable pub exchange_authorization_code :
      String
      → SecretHash
      → String
      → String
      → String
      → TokenPairDraft
      → String
      → ℕ
      → OAuthTables
      → Outcome ScopeSet
  unfolding find
  exchange_authorization_code connector_id code_hash client_id redirect_uri verifier tokens
        family_id now tables =
      exchange_row (namespace_hash api connector_id code_hash) client_id redirect_uri verifier
        (namespace_token_pair api connector_id tokens) family_id now tables
        (find (has_code (namespace_hash api connector_id code_hash)) tables.codes)
