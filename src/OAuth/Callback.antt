-- ===== src/OAuth/Callback.antt =====
-- The callback of the provider, of service.rs, over the store. Secrets that `generate_secret` draws, clock readings and
-- fresh identifiers are arguments, in the order in which a request asks for them.
use run_on_mine.Prelude.{
  ℕ, ◌+◌, String, str_eq, Bool, not, ◌&&◌, ◌||◌, Option, none, some, all, ltb, if◌then◌else◌,
  Result, ok, err,
}
use run_on_mine.Prelude.Eq.{◌==◌, nat_eq}
use run_on_mine.OAuth.Tables.{
  StoreError, RegisteredClient, PendingConsent, OAuthTables, AuthorizationClaim,
}
use run_on_mine.OAuth.Tokens.{Outcome}
use run_on_mine.OAuth.Clients.{client_connection}
use run_on_mine.OAuth.Authorizations.{
  claim_authorization, release_authorization_claim, consume_authorization_claim,
}
use run_on_mine.OAuth.Consents.{complete_authorization_claim}
use run_on_mine.OAuth.Requests.{
  Reply, OAuthService, map_err, Callback, authorization_claim_ttl, consent_ttl,
}
use run_on_mine.OAuth.Hashing.{
  OAuthErrorCode, invalid_request, invalid_client, temporarily_unavailable, github_state,
  github_code, consent_csrf, ServiceApi, hash, text_length, store_server_error, store_access_error,
}

-- The clocks that a callback reads.
pub record Clocks : Type 0 where
  pub claimed_at : ℕ
  pub read_at : ℕ
  pub settled_at : ℕ
  pub consent_at : ℕ
  pub completed_at : ℕ

abbrev answered : String → Result StoreError (Unit {0}) → Result StoreError String
answered reply (ok _) = ok reply
answered reply (err e) = err e

-- The provider's error, unless the claim could not be settled.
abbrev settled : OAuthErrorCode → Outcome (Unit {0}) → OAuthErrorCode × OAuthTables
settled e (ok _, tables) = (e, tables)
settled e (err problem, tables) = (store_server_error problem, tables)

-- The job that looks the client up, or the error with which it failed.
abbrev pub looked_up :
    Option StoreError
    → OAuthTables
    → Option RegisteredClient × OAuthTables
    → Result StoreError (Option RegisteredClient) × OAuthTables
looked_up none before (client, tables) = (ok client, tables)
looked_up (some e) before (client, tables) = (err e, before)

module _ (api : ServiceApi) (self : OAuthService) where
  -- The claim of the state and code that the provider sent back.
  unfoldable pub claim_github_authorization :
      Callback → String → ℕ → OAuthTables → Reply AuthorizationClaim
  claim_github_authorization callback claim_id now tables =
      if ltb 1024 (text_length api callback.state)
        || text_length api callback.code == 0
        || ltb 2048 (text_length api callback.code)
      then (err invalid_request, tables)
      else let outcome =
          claim_authorization api.store self.connector_id
            (hash api self.key github_state callback.state)
            (hash api self.key github_code callback.code) claim_id now
            (now + authorization_claim_ttl) tables in
        (map_err store_access_error outcome.0, outcome.1)

  -- An error of the provider gives the claim back if it is transient, and spends it otherwise.
  unfoldable pub settle_github_verification_error :
      AuthorizationClaim → OAuthErrorCode → ℕ → OAuthTables → OAuthErrorCode × OAuthTables
  settle_github_verification_error claim temporarily_unavailable now tables =
      settled temporarily_unavailable
        (release_authorization_claim api.store self.connector_id claim now tables)
  settle_github_verification_error claim e now tables =
      settled e (consume_authorization_claim api.store self.connector_id claim now tables)

  -- The consent that the owner is asked for, once the provider has named the subject.
  abbrev pub consent_of : AuthorizationClaim → String → String → String → ℕ → PendingConsent
  consent_of claim consent_id csrf subject now = record {
    id = consent_id;
    csrf_hash = hash api self.key consent_csrf csrf;
    client_id = claim.pending.client_id;
    redirect_uri = claim.pending.redirect_uri;
    client_state = claim.pending.client_state;
    scopes = claim.pending.scopes;
    code_challenge = claim.pending.code_challenge;
    subject = subject;
    expires_at = now + consent_ttl;
  }

  -- Whether every redirect has an origin.
  abbrev pub has_origins : AuthorizationClaim → RegisteredClient → Bool
  has_origins claim client =
      not (str_eq (api.ascii_origin claim.pending.redirect_uri) "null")
      && all (λ uri. not (str_eq (api.ascii_origin uri) "null")) client.redirect_uris

  abbrev pub failing : OAuthErrorCode → Outcome (Unit {0}) → Reply String
  failing e (ok _, tables) = (err e, tables)
  failing e (err problem, tables) = (err (store_server_error problem), tables)

  -- `prepare_github_callback`: the secret of the consent, behind the client and its origins. A client
  -- that is gone spends the claim; any other failure, of the lookup too, gives it back.
  abbrev pub prepare_github_callback :
      AuthorizationClaim
      → Option String
      → ℕ
      → Result StoreError (Option RegisteredClient) × OAuthTables
      → Reply String
  prepare_github_callback claim csrf now (err e, tables) =
      failing (store_server_error e)
        (release_authorization_claim api.store self.connector_id claim now tables)
  prepare_github_callback claim csrf now (ok none, tables) =
      failing invalid_client
        (consume_authorization_claim api.store self.connector_id claim now tables)
  prepare_github_callback claim none now (ok (some client), tables) =
      failing (if has_origins claim client then temporarily_unavailable else invalid_request)
        (release_authorization_claim api.store self.connector_id claim now tables)
  prepare_github_callback claim (some csrf) now (ok (some client), tables) =
      if has_origins claim client
      then (ok csrf, tables)
      else failing invalid_request
          (release_authorization_claim api.store self.connector_id claim now tables)

  -- What the provider's answer leads to; the reply is the identifier of the consent.
  abbrev pub after_provider :
      AuthorizationClaim
      → String
      → String
      → Clocks
      → OAuthTables
      → Result OAuthErrorCode String
      → Reply String
  after_provider claim consent_id csrf clocks tables (err e) =
      let problem = settle_github_verification_error claim e clocks.settled_at tables in
      (err problem.0, problem.1)
  after_provider claim consent_id csrf clocks tables (ok subject) =
      let outcome =
        complete_authorization_claim api.store self.connector_id claim
          (consent_of claim consent_id csrf subject clocks.consent_at) clocks.completed_at tables in
      (map_err store_server_error (answered consent_id outcome.0), outcome.1)

  abbrev pub after_preparation :
      AuthorizationClaim
      → String
      → Clocks
      → Result OAuthErrorCode String
      → Reply String
      → Reply String
  after_preparation claim consent_id clocks identity (err e, tables) = (err e, tables)
  after_preparation claim consent_id clocks identity (ok csrf, tables) =
      after_provider claim consent_id csrf clocks tables identity

  abbrev pub after_claim :
      String
      → Option String
      → Clocks
      → Option StoreError
      → Result OAuthErrorCode String
      → Reply AuthorizationClaim
      → Reply String
  after_claim consent_id csrf clocks failure identity (err e, tables) = (err e, tables)
  after_claim consent_id csrf clocks failure identity (ok claim, tables) =
      after_preparation claim consent_id clocks identity (
        prepare_github_callback claim csrf clocks.settled_at (
          looked_up failure tables
            (client_connection self.connector_id claim.pending.client_id clocks.read_at tables)))

  -- `failure` is the error of the client's lookup, if it fails; `identity` is what `verify_code` of
  -- the provider answers: the subject, or an error.
  unfoldable pub complete_github_callback :
      Callback
      → (claim_id consent_id : String) → Option String
      → Clocks
      → Option StoreError
      → Result OAuthErrorCode String
      → OAuthTables
      → Reply String
  complete_github_callback callback claim_id consent_id csrf clocks failure identity tables =
      after_claim consent_id csrf clocks failure identity
        (claim_github_authorization callback claim_id clocks.claimed_at tables)
