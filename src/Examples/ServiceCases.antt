-- ===== src/Examples/ServiceCases.antt =====
-- The OAuth service on concrete tables: a case for each theorem.
use run_on_mine.Prelude.{
  none, str_eq, ltb, if◌then◌else◌, ◌≡◌, refl, sym, ◌∙◌, inl, inr, true, false, some, [], ◌∷◌, any,
  leb, ok, err,
}
use run_on_mine.Prelude.Members.{In}
use run_on_mine.Authorization.Access.{Scope-discrete, machine_read, files_read, shell_exec}
use run_on_mine.OAuth.Tables.{
  RegisteredClient, ScopeSet, TokenRow, PendingConsent, AccessGrant, OAuthTables, access,
  has_consent, namespace_hash,
}
use run_on_mine.Prelude.Seq.{list_beq}
use run_on_mine.OAuth.Scopes.{parse, is_subset, contains, constrained_by}
use run_on_mine.OAuth.Rotation.{access_grant}
use run_on_mine.OAuth.Authorizations.{put_authorization}
use run_on_mine.OAuth.Consents.{take_consent, put_authorization_code}
use run_on_mine.OAuth.Tokens.{token_row}
use run_on_mine.OAuth.Hashing.{access_token, consent_csrf, bad_grant, ServiceApi, hash}
use run_on_mine.OAuth.Requests.{AuthorizationRequest, OAuthService, allow}
use run_on_mine.OAuth.Service.{authenticate_access_token, authenticate_access, revoke}
use run_on_mine.OAuth.Consenting.{begin_authorization, submit_consent}
use run_on_mine.OAuth.Clients.{client_connection, touch_client}
use run_on_mine.OAuth.Began.{Asked, begin_authorization-Asked}
use run_on_mine.OAuth.Access.{IsBorne, authenticate_access-IsBorne}
use run_on_mine.OAuth.Revoked.{revoke-authenticate_access_token}
use run_on_mine.OAuth.Decided.{CodesAfter, submit_consent-CodesAfter}
use run_on_mine.Examples.OAuthCases.{test_api, connector, app}

-- A keyed digest that is the identity.
abbrev service_api : ServiceApi
service_api = record {
  store = test_api;
  keyed_hash = λ key bytes. bytes;
  chars = λ text. [];
  ascii_origin = λ url. url;
  with_pairs = λ url pairs. url;
}

abbrev service : OAuthService
service = record {
  connector_id = connector;
  issuer = "https://issuer.example/";
  protected_resource = "https://issuer.example/mcp";
  github_client_id = "github";
  github_callback_url = "https://issuer.example/callback";
  key = 1 ∷ [];
}

abbrev bearer : TokenRow
bearer =
    token_row (namespace_hash test_api connector (hash service_api service.key access_token "raw"))
      access "family" "app" "owner" (machine_read ∷ shell_exec ∷ []) 20 500

abbrev asked : PendingConsent
asked = record {
  id = "consent";
  csrf_hash = namespace_hash test_api connector (hash service_api service.key consent_csrf "csrf");
  client_id = "app";
  redirect_uri = "https://app.example/";
  client_state = "state";
  scopes = machine_read ∷ [];
  code_challenge = "challenge";
  subject = "owner";
  expires_at = 100;
}

abbrev service_tables : OAuthTables
service_tables = record {
  attempts = [];
  clients = app ∷ [];
  authorizations = [];
  consents = asked ∷ [];
  codes = [];
  tokens = bearer ∷ [];
}

-- The local policy leaves one of the token's scopes.
abbrev policy : ScopeSet
policy = machine_read ∷ files_read ∷ []

abbrev served : AccessGrant
served = record {
  client_id = "app";
  subject = "owner";
  scopes = machine_read ∷ [];
  expires_at = 500;
}

authenticated :
    authenticate_access service_api service "raw" machine_read policy 40 service_tables ≡ ok served
unfolding authenticate_access access_grant list_beq namespace_hash hash constrained_by
    Scope-discrete
authenticated = refl

authenticate_access-IsBorne_example :
    (contains served.scopes machine_read ≡ true)
    × IsBorne service_api service "raw" policy 40 service_tables served
authenticate_access-IsBorne_example =
    authenticate_access-IsBorne service_api service "raw" machine_read policy 40 service_tables
      served authenticated

one_bearer : (r s : TokenRow) → In r service_tables.tokens → In s service_tables.tokens → r ≡ s
one_bearer r s (inl a) (inl b) = a ∙ sym b
one_bearer r s (inl a) (inr m) = absurd m
one_bearer r s (inr m) other = absurd m

revoke-authenticate_access_token_example :
    authenticate_access_token service_api service "raw" policy 40
      (revoke service_api service "raw" service_tables)
    ≡ err bad_grant
revoke-authenticate_access_token_example =
    revoke-authenticate_access_token service_api service "raw" service_tables
      (λ r s m n _ _. one_bearer r s m n) policy 40

abbrev decided_tables : OAuthTables
decided_tables =
    (submit_consent service_api service "consent" "csrf" allow (some "code") 40 41 service_tables).1

decided :
    submit_consent service_api service "consent" "csrf" allow (some "code") 40 41 service_tables
    ≡ (ok "https://app.example/", decided_tables)
unfolding submit_consent take_consent list_beq namespace_hash hash put_authorization_code
decided = refl

submit_consent-CodesAfter_example :
    (row : PendingConsent) × In row service_tables.consents
    × (row.id ≡ "consent")
    × (row.csrf_hash
        ≡ namespace_hash test_api connector (hash service_api service.key consent_csrf "csrf"))
    × (leb row.expires_at 40 ≡ false)
    × (any
          (has_consent "consent"
            (namespace_hash test_api connector (hash service_api service.key consent_csrf "csrf")))
          decided_tables.consents
        ≡ false)
    × CodesAfter service_api service allow (some "code") 41 row service_tables decided_tables
submit_consent-CodesAfter_example =
    submit_consent-CodesAfter service_api service "consent" "csrf" allow (some "code") 40 41
      service_tables "https://app.example/" decided_tables decided

-- "machine:read" and its text, for an interface in which every other text is a long one.
abbrev asking_api : ServiceApi
asking_api = record service_api {
  store = record test_api {
    as_bytes = λ text.
        if str_eq text "machine:read"
        then 109 ∷ 97 ∷ 99 ∷ 104 ∷ 105 ∷ 110 ∷ 101 ∷ 58 ∷ 114 ∷ 101 ∷ 97 ∷ 100 ∷ []
        else test_api.as_bytes text;
  };
}

abbrev asking : AuthorizationRequest
asking = record {
  response_type = "code";
  client_id = "app";
  redirect_uri = "https://app.example/";
  scope = "machine:read";
  state = "state";
  code_challenge = "challenge";
  code_challenge_method = "S256";
  resource = none;
}

abbrev begun_tables : OAuthTables
begun_tables =
    (begin_authorization asking_api service asking (some "secret") 40 41 42 service_tables).1

begun :
    begin_authorization asking_api service asking (some "secret") 40 41 42 service_tables
    ≡ (ok "https://github.com/login/oauth/authorize", begun_tables)
unfolding begin_authorization client_connection parse is_subset Scope-discrete touch_client
    put_authorization
begun = refl

begin_authorization-Asked_example :
    (client : RegisteredClient) × In client service_tables.clients
    × (str_eq client.connector_id connector ≡ true)
    × (str_eq client.client_id "app" ≡ true)
    × (ltb 40 client.expires_at ≡ true)
    × Asked asking_api service asking client 42
        (client_connection connector "app" 40 service_tables).1
        begun_tables
begin_authorization-Asked_example =
    begin_authorization-Asked asking_api service asking (some "secret") 40 41 42 service_tables
      "https://github.com/login/oauth/authorize" begun_tables begun
