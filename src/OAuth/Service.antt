-- ===== src/OAuth/Service.antt =====
-- The requests of service.rs over the store. Secrets that `generate_secret` draws, clock readings and
-- fresh identifiers are arguments, in the order in which a request asks for them.
use run_on_mine.Prelude.{
  ℕ, ◌+◌, String, str_eq, ◌||◌, Option, none, some, ltb, if◌then◌else◌, Result, ok, err,
}
use run_on_mine.Prelude.Eq.{◌==◌, nat_eq}
use run_on_mine.Authorization.Access.{Scope}
use run_on_mine.OAuth.Tables.{ScopeSet, TokenPairDraft, AccessGrant, OAuthTables}
use run_on_mine.OAuth.Scopes.{parse, contains, constrained_by}
use run_on_mine.OAuth.Tokens.{exchange_authorization_code}
use run_on_mine.OAuth.Rotation.{rotate_refresh_token, access_grant}
use run_on_mine.OAuth.Revocation.{revoke_token}
use run_on_mine.OAuth.Requests.{
  access_token_ttl, refresh_token_ttl, Reply, TokenRequest, IssuedToken, OAuthService, map_err,
  valid_scopes, token_response,
}
use run_on_mine.OAuth.Hashing.{
  OAuthErrorCode, invalid_request, invalid_client, bad_grant, unsupported_grant_type, access_denied,
  temporarily_unavailable, authorization_code, access_token, refresh_token, ServiceApi, hash,
  text_length, store_grant_error,
}

module _ (api : ServiceApi) (self : OAuthService) where
  abbrev pub drafts : String → String → ℕ → TokenPairDraft
  drafts access refresh now = record {
    access_hash = hash api self.key access_token access;
    refresh_hash = hash api self.key refresh_token refresh;
    access_expires_at = now + access_token_ttl;
    refresh_expires_at = now + refresh_token_ttl;
  }

  abbrev pub exchange_grant :
      TokenRequest
      → TokenPairDraft
      → String
      → ℕ
      → OAuthTables
      → Option String
      → Option String
      → Option String
      → Reply ScopeSet
  exchange_grant request pair family_id now tables (some code) (some redirect) (some verifier) =
      if ltb 2048 (text_length api code)
      then (err bad_grant, tables)
      else let outcome =
          exchange_authorization_code api.store self.connector_id
            (hash api self.key authorization_code code) request.client_id redirect verifier pair
            family_id now tables in
        (map_err store_grant_error outcome.0, outcome.1)
  exchange_grant request pair family_id now tables _ _ _ = (err invalid_request, tables)

  -- `request.scope` as it is parsed: absent, invalid, or a set.
  abbrev pub requested_scopes : Option String → Result OAuthErrorCode (Option ScopeSet)
  requested_scopes none = ok none
  requested_scopes (some scope) = valid_scopes (parse (api.store.as_bytes scope))

  abbrev pub rotate_with :
      TokenRequest
      → TokenPairDraft
      → ℕ
      → OAuthTables
      → String
      → Result OAuthErrorCode (Option ScopeSet)
      → Reply ScopeSet
  rotate_with request pair now tables token (err e) = (err e, tables)
  rotate_with request pair now tables token (ok scopes) =
      let outcome =
        rotate_refresh_token api.store self.connector_id (hash api self.key refresh_token token)
          request.client_id scopes pair now tables in
      (map_err store_grant_error outcome.0, outcome.1)

  abbrev pub rotate_grant :
      TokenRequest → TokenPairDraft → ℕ → OAuthTables → Option String → Reply ScopeSet
  rotate_grant request pair now tables none = (err invalid_request, tables)
  rotate_grant request pair now tables (some token) =
      if ltb 2048 (text_length api token)
      then (err bad_grant, tables)
      else rotate_with request pair now tables token (requested_scopes request.scope)

  abbrev pub grant_by_type :
      TokenRequest → TokenPairDraft → String → ℕ → OAuthTables → Reply ScopeSet
  grant_by_type request pair family_id now tables =
      if str_eq request.grant_type "authorization_code"
      then exchange_grant request pair family_id now tables request.code request.redirect_uri
          request.code_verifier
      else if str_eq request.grant_type "refresh_token"
      then rotate_grant request pair now tables request.refresh
      else (err unsupported_grant_type, tables)

  abbrev pub issue_with :
      TokenRequest → Option String → Option String → String → ℕ → OAuthTables → Reply IssuedToken
  issue_with request (some access) (some refresh) family_id now tables =
      let outcome = grant_by_type request (drafts access refresh now) family_id now tables in
      (token_response access refresh outcome.0, outcome.1)
  issue_with request _ _ family_id now tables = (err temporarily_unavailable, tables)

  unfoldable pub issue_token :
      TokenRequest → Option String → Option String → String → ℕ → OAuthTables → Reply IssuedToken
  issue_token request access refresh family_id now tables =
      if text_length api request.client_id == 0 || ltb 256 (text_length api request.client_id)
      then (err invalid_client, tables)
      else issue_with request access refresh family_id now tables

  -- Both hashes of the token are looked up, whatever its type is said to be.
  unfoldable pub revoke : String → OAuthTables → OAuthTables
  revoke token tables =
      if text_length api token == 0 || ltb 2048 (text_length api token)
      then tables
      else revoke_token api.store self.connector_id (hash api self.key refresh_token token)
          (revoke_token api.store self.connector_id (hash api self.key access_token token) tables)

  abbrev pub constrained : ScopeSet → Option AccessGrant → Result OAuthErrorCode AccessGrant
  constrained local_policy none = err bad_grant
  constrained local_policy (some grant) =
      ok (record grant { scopes = constrained_by grant.scopes local_policy })

  unfoldable pub authenticate_access_token :
      String → ScopeSet → ℕ → OAuthTables → Result OAuthErrorCode AccessGrant
  authenticate_access_token raw_token local_policy now tables =
      if text_length api raw_token == 0 || ltb 2048 (text_length api raw_token)
      then err bad_grant
      else constrained local_policy (
          access_grant api.store self.connector_id (hash api self.key access_token raw_token) now
            tables)

  abbrev pub require_scope :
      Scope → Result OAuthErrorCode AccessGrant → Result OAuthErrorCode AccessGrant
  require_scope scope (err e) = err e
  require_scope scope (ok grant) =
      if contains grant.scopes scope then ok grant else err access_denied

  unfoldable pub authenticate_access :
      String → Scope → ScopeSet → ℕ → OAuthTables → Result OAuthErrorCode AccessGrant
  unfolding authenticate_access_token
  authenticate_access raw_token required_scope local_policy now tables =
      require_scope required_scope (authenticate_access_token raw_token local_policy now tables)
