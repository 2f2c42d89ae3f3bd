-- ===== src/OAuth/Requests.antt =====
-- The requests and replies of service.rs, and its times to live.
use run_on_mine.Prelude.{
  ℕ, String, str_eq, Bool, false, not, ◌&&◌, ◌||◌, Option, none, some, List, leb, ltb, Result, ok,
  err,
}
use run_on_mine.Prelude.Eq.{nat_eq}
use run_on_mine.OAuth.Tables.{ScopeSet, StoreError, OAuthTables}
use run_on_mine.OAuth.Hashing.{OAuthErrorCode, invalid_scope}

-- The times to live, in seconds.
abbrev pub access_token_ttl : ℕ
access_token_ttl = 900

abbrev pub refresh_token_ttl : ℕ
refresh_token_ttl = 2592000

abbrev pub authorization_transaction_ttl : ℕ
authorization_transaction_ttl = 600

abbrev pub authorization_code_ttl : ℕ
authorization_code_ttl = 300

abbrev pub authorization_claim_ttl : ℕ
authorization_claim_ttl = 30

abbrev pub consent_ttl : ℕ
consent_ttl = 300

abbrev pub active_client_ttl : ℕ
active_client_ttl = 7776000

abbrev pub Reply : Type 0 → Type 0
Reply A = Result OAuthErrorCode A × OAuthTables

pub data ConsentDecision : Type 0 where
  allow deny : ConsentDecision

pub record TokenRequest : Type 0 where
  pub grant_type : String
  pub client_id : String
  pub code : Option String
  pub redirect_uri : Option String
  pub code_verifier : Option String
  pub refresh : Option String
  pub scope : Option String

pub record IssuedToken : Type 0 where
  pub access : String
  pub refresh : String
  pub expires_in : ℕ
  pub scope : ScopeSet

pub record AuthorizationRequest : Type 0 where
  pub response_type : String
  pub client_id : String
  pub redirect_uri : String
  pub scope : String
  pub state : String
  pub code_challenge : String
  pub code_challenge_method : String
  pub resource : Option String

-- What the provider sends back: its code and the state.
pub record Callback : Type 0 where
  pub code : String
  pub state : String

-- `char::is_control`
abbrev pub is_control : ℕ → Bool
is_control c = ltb c 32 || leb 127 c && ltb c 160

abbrev pub other_resource : Option String → String → Bool
other_resource none protected = false
other_resource (some resource) protected = not (str_eq resource protected)

-- The part of the service that a request reads.
pub record OAuthService : Type 0 where
  pub connector_id : String
  pub issuer : String
  pub protected_resource : String
  pub github_client_id : String
  pub github_callback_url : String
  pub key : List ℕ

-- A store's answer as the service's.
abbrev pub map_err {ℓ} :
    {A : Type ℓ} → (StoreError → OAuthErrorCode) → Result StoreError A → Result OAuthErrorCode A
map_err f (ok a) = ok a
map_err f (err e) = err (f e)

abbrev pub valid_scopes : Option ScopeSet → Result OAuthErrorCode (Option ScopeSet)
valid_scopes none = err invalid_scope
valid_scopes (some scopes) = ok (some scopes)

abbrev pub token_response :
    String → String → Result OAuthErrorCode ScopeSet → Result OAuthErrorCode IssuedToken
token_response access refresh (err e) = err e
token_response access refresh (ok scopes) =
    ok
      (record { access = access; refresh = refresh; expires_in = access_token_ttl; scope = scopes })
