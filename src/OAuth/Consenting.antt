-- ===== src/OAuth/Consenting.antt =====
-- The authorization and the consent of service.rs over the store. Secrets that `generate_secret` draws, clock readings and
-- fresh identifiers are arguments, in the order in which a request asks for them.
use run_on_mine.Prelude.{
  ℕ, ◌+◌, String, str_eq, Bool, true, false, not, ◌||◌, Option, none, some, [], ◌∷◌, any, ltb,
  if◌then◌else◌, ok, err,
}
use run_on_mine.Prelude.Eq.{◌==◌, nat_eq}
use run_on_mine.OAuth.Tables.{ScopeSet, RegisteredClient, PendingConsent, CodeRow, OAuthTables}
use run_on_mine.OAuth.Scopes.{parse, is_subset}
use run_on_mine.OAuth.Tokens.{Outcome}
use run_on_mine.OAuth.Clients.{client_connection, touch_client}
use run_on_mine.OAuth.Authorizations.{put_authorization}
use run_on_mine.OAuth.Consents.{take_consent, put_authorization_code}
use run_on_mine.OAuth.Requests.{
  authorization_transaction_ttl, authorization_code_ttl, active_client_ttl, Reply, ConsentDecision,
  allow, deny, AuthorizationRequest, is_control, other_resource, OAuthService,
}
use run_on_mine.OAuth.Hashing.{
  invalid_request, invalid_client, invalid_scope, temporarily_unavailable, authorization_code,
  github_state, consent_csrf, ServiceApi, hash, text_length, validate_pkce_challenge,
  store_server_error, store_access_error,
}

abbrev pub is_empty : ScopeSet → Bool
is_empty [] = true
is_empty (s ∷ scopes) = false

module _ (api : ServiceApi) (self : OAuthService) where
  abbrev pub code_of : PendingConsent → String → ℕ → CodeRow
  code_of consent code now = record {
    code_hash = hash api self.key authorization_code code;
    client_id = consent.client_id;
    redirect_uri = consent.redirect_uri;
    scopes = consent.scopes;
    code_challenge = consent.code_challenge;
    subject = consent.subject;
    expires_at = now + authorization_code_ttl;
    used = false;
  }

  abbrev pub stored : String → Outcome (Unit {0}) → Reply String
  stored redirect (ok _, tables) = (ok redirect, tables)
  stored redirect (err e, tables) = (err (store_server_error e), tables)

  -- What follows the consent that was taken: a redirect with the error, or with a fresh code.
  abbrev pub decide_consent :
      ConsentDecision → Option String → ℕ → PendingConsent → OAuthTables → Reply String
  decide_consent deny code now consent tables = (
    ok (
        api.with_pairs consent.redirect_uri (
          ("error", "access_denied")
          ∷ ("state", consent.client_state)
          ∷ ("iss", self.issuer)
          ∷ [])),
    tables,
  )
  decide_consent allow none now consent tables = (err temporarily_unavailable, tables)
  decide_consent allow (some code) now consent tables =
      stored
        (api.with_pairs consent.redirect_uri
          (("code", code) ∷ ("state", consent.client_state) ∷ ("iss", self.issuer) ∷ []))
        (put_authorization_code api.store self.connector_id (code_of consent code now) tables)

  abbrev pub after_take :
      ConsentDecision → Option String → ℕ → Outcome PendingConsent → Reply String
  after_take decision code now (err e, tables) = (err (store_access_error e), tables)
  after_take decision code now (ok consent, tables) =
      decide_consent decision code now consent tables

  -- `taken_at` and `now` are the clock read for the consent and for the code.
  unfoldable pub submit_consent :
      String → String → ConsentDecision → Option String → ℕ → ℕ → OAuthTables → Reply String
  submit_consent id csrf decision code taken_at now tables =
      if text_length api csrf == 0 || ltb 1024 (text_length api csrf)
      then (err invalid_request, tables)
      else after_take decision code now (
          take_consent api.store self.connector_id id (hash api self.key consent_csrf csrf) taken_at
            tables)

  -- The client, its redirect and its scopes, then its use and the pending authorization. The times
  -- are the clocks read for the look-up, for the use and for the row.
  abbrev pub store_pending :
      AuthorizationRequest → ScopeSet → Option String → ℕ → OAuthTables → Reply String
  store_pending request scopes none stored_at tables = (err temporarily_unavailable, tables)
  store_pending request scopes (some provider_state) stored_at tables =
      stored
        (api.with_pairs "https://github.com/login/oauth/authorize" (
          ("client_id", self.github_client_id)
          ∷ ("redirect_uri", self.github_callback_url)
          ∷ ("state", provider_state)
          ∷ ("allow_signup", "false")
          ∷ []))
        (put_authorization api.store self.connector_id
          (record {
            provider_state_hash = hash api self.key github_state provider_state;
            client_id = request.client_id;
            redirect_uri = request.redirect_uri;
            client_state = request.state;
            scopes = scopes;
            code_challenge = request.code_challenge;
            expires_at = stored_at + authorization_transaction_ttl;
          })
          tables)

  abbrev pub after_touch :
      AuthorizationRequest → ScopeSet → Option String → ℕ → Bool × OAuthTables → Reply String
  after_touch request scopes secret stored_at (false, tables) = (err invalid_client, tables)
  after_touch request scopes secret stored_at (true, tables) =
      store_pending request scopes secret stored_at tables

  abbrev pub with_scopes :
      AuthorizationRequest
      → RegisteredClient
      → Option String
      → ℕ
      → ℕ
      → OAuthTables
      → Option ScopeSet
      → Reply String
  with_scopes request client secret now stored_at tables none = (err invalid_scope, tables)
  with_scopes request client secret now stored_at tables (some scopes) =
      if is_empty scopes || not (is_subset scopes client.scopes)
      then (err invalid_scope, tables)
      else after_touch request scopes secret stored_at
          (touch_client self.connector_id request.client_id now (now + active_client_ttl) tables)

  abbrev pub with_client :
      AuthorizationRequest
      → Option String
      → ℕ
      → ℕ
      → Option RegisteredClient × OAuthTables
      → Reply String
  with_client request secret now stored_at (none, tables) = (err invalid_client, tables)
  with_client request secret now stored_at (some client, tables) =
      if not (any (λ uri. str_eq uri request.redirect_uri) client.redirect_uris)
      then (err invalid_request, tables)
      else with_scopes request client secret now stored_at tables
          (parse (api.store.as_bytes request.scope))

  unfoldable pub is_malformed : AuthorizationRequest → Bool
  unfolding any validate_pkce_challenge
  is_malformed request =
      not (str_eq request.response_type "code")
      || ltb 256 (text_length api request.client_id)
      || ltb (text_length api request.state) 16
      || ltb 1024 (text_length api request.state)
      || any is_control (api.chars request.state)
      || not (str_eq request.code_challenge_method "S256")
      || not (validate_pkce_challenge api request.code_challenge)

  unfoldable pub begin_authorization :
      AuthorizationRequest → Option String → ℕ → ℕ → ℕ → OAuthTables → Reply String
  unfolding is_malformed any
  begin_authorization request secret read_at now stored_at tables =
      if is_malformed request
      then (err invalid_request, tables)
      else if other_resource request.resource self.protected_resource
      then (err invalid_request, tables)
      else with_client request secret now stored_at
          (client_connection self.connector_id request.client_id read_at tables)
