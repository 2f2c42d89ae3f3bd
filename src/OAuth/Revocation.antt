-- ===== src/OAuth/Revocation.antt =====
-- What takes authority away: the revocations and deletions of oauth/src/store.rs.
use run_on_mine.Prelude.{
  ℕ, ◌+◌, String, str_eq, Bool, true, not, ◌&&◌, Option, none, some, List, any, filter, find,
  update_where, count_where, leb, ltb, if◌then◌else◌,
}
use run_on_mine.Prelude.Eq.{◌==◌, nat_eq}
use run_on_mine.OAuth.Tables.{
  SecretHash, OAuthApi, RegisteredClient, RegistrationAttempt, TokenRow, revoked, OAuthTables,
  is_active, is_access, is_client_of, has_hash, namespace_hash,
}
use run_on_mine.OAuth.Tokens.{with_status, set_tokens, revoke_family}

abbrev pub revoke_found : String → SecretHash → OAuthTables → Option TokenRow → OAuthTables
revoke_found connector_id hash tables none = tables
revoke_found connector_id hash tables (some row) =
    if is_access row.kind
    then set_tokens tables (update_where (has_hash hash) (with_status revoked) tables.tokens)
    else revoke_family connector_id row.family_id tables

unfoldable pub revoke_token : OAuthApi → String → SecretHash → OAuthTables → OAuthTables
unfolding find namespace_hash
revoke_token api connector_id token_hash tables =
    revoke_found connector_id (namespace_hash api connector_id token_hash) tables
      (find (has_hash (namespace_hash api connector_id token_hash)) tables.tokens)

-- `UPDATE … SET status = 'revoked' WHERE … AND status = 'active'`, and the rows it changed.
unfoldable pub revoke_where : (TokenRow → Bool) → OAuthTables → ℕ × OAuthTables
unfolding update_where count_where
revoke_where p tables = (
  count_where (λ row. p row && is_active row.status) tables.tokens,
  set_tokens tables
      (update_where (λ row. p row && is_active row.status) (with_status revoked) tables.tokens),
)

unfoldable pub revoke_client_tokens_for : String → String → OAuthTables → ℕ × OAuthTables
unfolding revoke_where is_client_of
revoke_client_tokens_for connector_id client_id tables =
    revoke_where
      (λ row.
        str_eq row.client_id client_id && is_client_of connector_id tables.clients row.client_id)
      tables

unfoldable pub revoke_session_for : String → String → OAuthTables → ℕ × OAuthTables
unfolding revoke_where is_client_of
revoke_session_for connector_id family_id tables =
    revoke_where
      (λ row.
        str_eq row.family_id family_id && is_client_of connector_id tables.clients row.client_id)
      tables

-- The client that a foreign key refers to.
unfoldable pub names : List RegisteredClient → String → Bool
unfolding any
names clients client_id = any (λ c. str_eq c.client_id client_id) clients

-- `ON DELETE CASCADE`: the rows whose client is gone go with it.
unfoldable pub delete_clients : (RegisteredClient → Bool) → OAuthTables → ℕ × OAuthTables
unfolding names filter count_where
delete_clients p tables =
    let clients = filter (λ c. not (p c)) tables.clients in
    (
      count_where p tables.clients,
      record tables {
        clients = clients;
        authorizations = filter (λ row. names clients row.pending.client_id) tables.authorizations;
        consents = filter (λ row. names clients row.client_id) tables.consents;
        codes = filter (λ row. names clients row.client_id) tables.codes;
        tokens = filter (λ row. names clients row.client_id) tables.tokens;
      },
    )

unfoldable pub delete_client_for : String → String → OAuthTables → Bool × OAuthTables
unfolding delete_clients
delete_client_for connector_id client_id tables =
    let deleted =
      delete_clients (λ c. str_eq c.connector_id connector_id && str_eq c.client_id client_id)
        tables in
    (deleted.0 == 1, deleted.1)

abbrev pub without_attempts : String → OAuthTables → OAuthTables
without_attempts connector_id tables = record tables {
  attempts = filter (λ a. not (str_eq a.connector_id connector_id)) tables.attempts;
}

-- Returns how many registration attempts and how many clients it deleted.
unfoldable pub remove_connector_data : String → OAuthTables → (ℕ × ℕ) × OAuthTables
unfolding delete_clients filter count_where
remove_connector_data connector_id tables =
    let deleted =
      delete_clients (λ c. str_eq c.connector_id connector_id)
        (without_attempts connector_id tables) in
    ((count_where (λ a. str_eq a.connector_id connector_id) tables.attempts, deleted.0), deleted.1)

-- `?1 IS NULL OR connector_id = ?1`
abbrev pub in_scope : Option String → RegisteredClient → Bool
in_scope none client = true
in_scope (some connector_id) client = str_eq client.connector_id connector_id

-- `client_id IN (SELECT client_id FROM oauth_clients WHERE …)`
unfoldable pub is_scoped : Option String → List RegisteredClient → String → Bool
unfolding any
is_scoped scope clients client_id =
    any (λ c. str_eq c.client_id client_id && in_scope scope c) clients

-- The rows of authorizations, consents and codes that the emergency deletes are gone.
abbrev pub without_requests : Option String → OAuthTables → OAuthTables
without_requests scope tables = record tables {
  authorizations =
      filter (λ row. not (is_scoped scope tables.clients row.pending.client_id))
        tables.authorizations;
  consents = filter (λ row. not (is_scoped scope tables.clients row.client_id)) tables.consents;
  codes = filter (λ row. not (is_scoped scope tables.clients row.client_id)) tables.codes;
}

unfoldable pub emergency_revoke_all : Option String → OAuthTables → ℕ × OAuthTables
unfolding is_scoped filter revoke_where
emergency_revoke_all scope tables =
    revoke_where (λ row. is_scoped scope tables.clients row.client_id)
      (without_requests scope tables)

-- An expired client goes unless an active token of it has not expired.
unfoldable pub prune_expired_clients : Option String → ℕ → OAuthTables → ℕ × OAuthTables
unfolding any delete_clients
prune_expired_clients scope now tables =
    delete_clients
      (λ c.
        in_scope scope c
        && leb c.expires_at now
        && not (
            any
              (λ (t : TokenRow).
                str_eq t.client_id c.client_id && is_active t.status && ltb now t.expires_at)
              tables.tokens))
      tables

-- `attempted_at <= now - 3_600`, written as a sum
abbrev pub is_stale : ℕ → ℕ → RegistrationAttempt → Bool
is_stale window now attempt = leb (attempt.attempted_at + window) now

-- The rows that have run out are gone.
abbrev pub without_expired : ℕ → OAuthTables → OAuthTables
without_expired now tables = record tables {
  authorizations = filter (λ row. not (leb row.pending.expires_at now)) tables.authorizations;
  consents = filter (λ row. not (leb row.expires_at now)) tables.consents;
  codes = filter (λ row. not (leb row.expires_at now)) tables.codes;
  tokens = filter (λ row. not (leb row.expires_at now)) tables.tokens;
  attempts = filter (λ a. not (is_stale 3600 now a)) tables.attempts;
}

unfoldable pub cleanup_expired_connection : ℕ → OAuthTables → ℕ × OAuthTables
unfolding filter count_where prune_expired_clients
cleanup_expired_connection now tables =
    let removed =
      count_where (λ row. leb row.pending.expires_at now) tables.authorizations
      + count_where (λ row. leb row.expires_at now) tables.consents
      + count_where (λ row. leb row.expires_at now) tables.codes
      + count_where (λ row. leb row.expires_at now) tables.tokens
      + count_where (is_stale 3600 now) tables.attempts in
    let pruned = prune_expired_clients none now (without_expired now tables) in
    (removed + pruned.0, pruned.1)
