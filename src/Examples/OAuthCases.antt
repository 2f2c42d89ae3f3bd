-- ===== src/Examples/OAuthCases.antt =====
-- The OAuth store on concrete tables: tests, and a case for each theorem.
use run_on_mine.Prelude.{
  ℕ, ◌≡◌, refl, ap, inl, inr, ◌++◌, String, true, false, none, some, List, [], ◌∷◌, any, all, find,
  update_where, count_where, ok, err, arith,
}
use run_on_mine.Prelude.Seq.{list_beq}
use run_on_mine.Prelude.Members.{In}
use run_on_mine.Authorization.Access.{Scope-discrete, machine_read, files_read}
use run_on_mine.OAuth.Tables.{
  SecretHash, OAuthApi, StoreError, refresh_reuse, invalid_grant, RegisteredClient,
  RegistrationLimits, TokenRow, CodeRow, AuthorizationRow, AuthorizationClaim, TokenPairDraft,
  OAuthTables, AccessGrant, refresh, has_code, has_hash, namespace_hash, namespace_token_pair,
}
use run_on_mine.OAuth.Scopes.{parse, to_space_delimited, is_subset, split_ascii_whitespace, pieces}
use run_on_mine.OAuth.Tokens.{
  token_row, token_pair, insert_token_pair, code_serves, exchange_authorization_code,
}
use run_on_mine.OAuth.Rotation.{is_refresh_of, rotate_active, rotate_refresh_token, access_grant}
use run_on_mine.OAuth.Revocation.{emergency_revoke_all}
use run_on_mine.OAuth.Clients.{register_client_limited}
use run_on_mine.OAuth.Authorizations.{claim_authorization}
use run_on_mine.OAuth.ScopeText.{parse-to_space_delimited}
use run_on_mine.OAuth.Replay.{NoBearer, rotate_refresh_token-replay}
use run_on_mine.OAuth.Codes.{
  Answers, exchange_authorization_code-once, exchange_authorization_code-bound,
}
use run_on_mine.OAuth.Bearers.{Bears, access_grant-bearer}
use run_on_mine.OAuth.Emergency.{emergency_revoke_all-stops}
use run_on_mine.OAuth.Families.{FamilyWithin, rotate_refresh_token-FamilyWithin}
use run_on_mine.OAuth.Claims.{claim_authorization-exclusive}
use run_on_mine.OAuth.Registration.{WithinLimits, register_client_limited-WithinLimits}

-- Every text has the bytes of a verifier of forty-three letters; the digest is the identity.
abbrev pub test_api : OAuthApi
test_api = record {
  as_bytes = λ _.
      97 ∷ 97 ∷ 97 ∷ 97 ∷ 97 ∷ 97 ∷ 97 ∷ 97 ∷ 97 ∷ 97 ∷ 97 ∷ 97 ∷ 97 ∷ 97 ∷ 97 ∷ 97 ∷ 97 ∷ 97 ∷ 97
      ∷ 97 ∷ 97 ∷ 97 ∷ 97 ∷ 97 ∷ 97 ∷ 97 ∷ 97 ∷ 97 ∷ 97 ∷ 97 ∷ 97 ∷ 97 ∷ 97 ∷ 97 ∷ 97 ∷ 97 ∷ 97 ∷ 97
      ∷ 97 ∷ 97 ∷ 97 ∷ 97 ∷ 97 ∷ [];
  sha256 = λ bytes. bytes;
  base64_url = λ bytes. "challenge";
}

abbrev pub connector : String
connector = "connector-one"

abbrev pub app : RegisteredClient
app = record {
  connector_id = connector;
  client_id = "app";
  client_name = "App";
  redirect_uris = "https://app.example/" ∷ [];
  scopes = machine_read ∷ files_read ∷ [];
  issued_at = 10;
  expires_at = 900;
  last_used_at = none;
  registration_source_hash = "source";
}

abbrev old_refresh : SecretHash
old_refresh = 1 ∷ []

abbrev session_token : TokenRow
session_token =
    token_row (namespace_hash test_api connector old_refresh) refresh "family" "app" "owner"
      (machine_read ∷ files_read ∷ []) 20 500

abbrev pub one_code : CodeRow
one_code = record {
  code_hash = namespace_hash test_api connector (7 ∷ []);
  client_id = "app";
  redirect_uri = "https://app.example/";
  scopes = machine_read ∷ [];
  code_challenge = "challenge";
  subject = "owner";
  expires_at = 100;
  used = false;
}

abbrev one_authorization : AuthorizationRow
one_authorization = record {
  pending = record {
    provider_state_hash = namespace_hash test_api connector (9 ∷ []);
    client_id = "app";
    redirect_uri = "https://app.example/";
    client_state = "state";
    scopes = machine_read ∷ [];
    code_challenge = "challenge";
    expires_at = 100;
  };
  provider_code_hash = none;
  claim_id = none;
  claim_expires_at = none;
}

abbrev pub tables : OAuthTables
tables = record {
  attempts = [];
  clients = app ∷ [];
  authorizations = one_authorization ∷ [];
  consents = [];
  codes = one_code ∷ [];
  tokens = session_token ∷ [];
}

abbrev new_pair : TokenPairDraft
new_pair = record {
  access_hash = 2 ∷ [];
  refresh_hash = 3 ∷ [];
  access_expires_at = 60;
  refresh_expires_at = 500;
}

abbrev third_pair : TokenPairDraft
third_pair = record {
  access_hash = 4 ∷ [];
  refresh_hash = 5 ∷ [];
  access_expires_at = 70;
  refresh_expires_at = 500;
}

-- The rotation of the session's refresh token, for fewer scopes.
abbrev rotated_tables : OAuthTables
rotated_tables =
    (rotate_refresh_token test_api connector old_refresh "app" (some (machine_read ∷ [])) new_pair
      30 tables).1

rotated_ok :
    rotate_refresh_token test_api connector old_refresh "app"
      (some (machine_read ∷ []))
      new_pair
      30
      tables
    ≡ (ok (machine_read ∷ []), rotated_tables)
unfolding rotate_refresh_token rotate_active list_beq namespace_hash is_refresh_of is_subset
    Scope-discrete count_where insert_token_pair update_where namespace_token_pair
rotated_ok = refl

session_found :
    find (has_hash (namespace_hash test_api connector old_refresh)) tables.tokens
    ≡ some session_token
unfolding find list_beq namespace_hash
session_found = refl

rotate_refresh_token-replay_example :
    ((rotate_refresh_token test_api connector old_refresh "app" none third_pair 40 rotated_tables).0
      ≡ err refresh_reuse)
    × NoBearer connector "family"
        (rotate_refresh_token test_api connector old_refresh "app" none third_pair 40
          rotated_tables).1
rotate_refresh_token-replay_example =
    rotate_refresh_token-replay test_api connector old_refresh "app" (some (machine_read ∷ []))
      new_pair 30 tables session_token (machine_read ∷ []) rotated_tables session_found rotated_ok
      none third_pair 40 (omega arith)

-- "files:read machine:read"
abbrev request_text : List ℕ
request_text =
    102 ∷ 105 ∷ 108 ∷ 101 ∷ 115 ∷ 58 ∷ 114 ∷ 101 ∷ 97 ∷ 100 ∷ 32 ∷ 109 ∷ 97 ∷ 99 ∷ 104 ∷ 105 ∷ 110
    ∷ 101 ∷ 58 ∷ 114 ∷ 101 ∷ 97 ∷ 100 ∷ []

request_parsed : parse request_text ≡ some (machine_read ∷ files_read ∷ [])
unfolding parse split_ascii_whitespace pieces
request_parsed = refl

parse-to_space_delimited_example :
    parse (to_space_delimited (machine_read ∷ files_read ∷ []))
    ≡ some (machine_read ∷ files_read ∷ [])
parse-to_space_delimited_example =
    parse-to_space_delimited request_text (machine_read ∷ files_read ∷ []) request_parsed

abbrev exchanged_tables : OAuthTables
exchanged_tables =
    (exchange_authorization_code test_api connector (7 ∷ []) "app" "https://app.example/" "verifier"
      new_pair "fresh" 30 tables).1

exchanged_ok :
    exchange_authorization_code test_api connector
      (7 ∷ [])
      "app"
      "https://app.example/"
      "verifier"
      new_pair
      "fresh"
      30
      tables
    ≡ (ok (machine_read ∷ []), exchanged_tables)
unfolding exchange_authorization_code list_beq namespace_hash code_serves count_where
    insert_token_pair namespace_token_pair
exchanged_ok = refl

exchange_authorization_code-once_example :
    exchange_authorization_code test_api connector
      (7 ∷ [])
      "app"
      "https://app.example/"
      "verifier"
      third_pair
      "other"
      40
      exchanged_tables
    ≡ (err invalid_grant, exchanged_tables)
exchange_authorization_code-once_example =
    exchange_authorization_code-once test_api connector (7 ∷ []) "app" "https://app.example/"
      "verifier" new_pair "fresh" 30 tables (machine_read ∷ []) exchanged_tables exchanged_ok "app"
      "https://app.example/" "verifier" third_pair "other" 40

exchange_authorization_code-bound_example :
    (row : CodeRow) × In row tables.codes
    × (has_code (namespace_hash test_api connector (7 ∷ [])) row ≡ true)
    × Answers test_api "app" "https://app.example/" "verifier" 30 row
    × (row.scopes ≡ machine_read ∷ [])
    × (exchanged_tables.tokens
        ≡ tables.tokens
          ++ token_pair "fresh" "app" row.subject row.scopes
              (namespace_token_pair test_api connector new_pair)
              30)
exchange_authorization_code-bound_example =
    exchange_authorization_code-bound test_api connector (7 ∷ []) "app" "https://app.example/"
      "verifier" new_pair "fresh" 30 tables (machine_read ∷ []) exchanged_tables exchanged_ok

abbrev new_grant : AccessGrant
new_grant = record {
  client_id = "app";
  subject = "owner";
  scopes = machine_read ∷ [];
  expires_at = 60;
}

granted : access_grant test_api connector (2 ∷ []) 40 rotated_tables ≡ some new_grant
unfolding access_grant rotate_refresh_token list_beq namespace_hash is_refresh_of rotate_active
    is_subset Scope-discrete count_where insert_token_pair update_where namespace_token_pair
granted = refl

access_grant-bearer_example :
    (row : TokenRow) × In row rotated_tables.tokens
    × Bears connector (namespace_hash test_api connector (2 ∷ [])) 40 rotated_tables row
    × (new_grant.client_id ≡ row.client_id)
    × (new_grant.subject ≡ row.subject)
    × (new_grant.scopes ≡ row.scopes)
    × (new_grant.expires_at ≡ row.expires_at)
access_grant-bearer_example =
    (access_grant-bearer test_api connector (2 ∷ []) 40 rotated_tables).0 new_grant granted

emergency_revoke_all-stops_example :
    access_grant test_api connector (2 ∷ []) 40 (emergency_revoke_all none rotated_tables).1 ≡ none
emergency_revoke_all-stops_example =
    (emergency_revoke_all-stops test_api none connector rotated_tables (inl refl)).0 (2 ∷ []) 40

family_within : FamilyWithin "family" (machine_read ∷ files_read ∷ []) tables
unfolding is_subset any all Scope-discrete
family_within row (inl e) h =
    ap (λ (r : TokenRow). is_subset r.scopes (machine_read ∷ files_read ∷ [])) e
family_within row (inr m) h = absurd m

rotate_refresh_token-FamilyWithin_example :
    FamilyWithin "family" (machine_read ∷ files_read ∷ []) rotated_tables
rotate_refresh_token-FamilyWithin_example =
    rotate_refresh_token-FamilyWithin test_api connector old_refresh "app"
      (some (machine_read ∷ [])) new_pair 30 tables "family" (machine_read ∷ files_read ∷ [])
      family_within

abbrev one_claim : AuthorizationClaim
one_claim = record {
  claim_id = "claim";
  provider_code_hash = 8 ∷ [];
  pending = record one_authorization.pending { provider_state_hash = 9 ∷ [] };
  claim_expires_at = 50;
}

abbrev claimed_tables : OAuthTables
claimed_tables = (claim_authorization test_api connector (9 ∷ []) (8 ∷ []) "claim" 30 50 tables).1

claimed_ok :
    claim_authorization test_api connector (9 ∷ []) (8 ∷ []) "claim" 30 50 tables
    ≡ (ok one_claim, claimed_tables)
unfolding claim_authorization list_beq namespace_hash count_where
claimed_ok = refl

claim_authorization-exclusive_example :
    (e : StoreError) × (claim_authorization test_api connector
        (9 ∷ [])
        (8 ∷ [])
        "other"
        40
        60
        claimed_tables
      ≡ (err e, claimed_tables))
claim_authorization-exclusive_example =
    claim_authorization-exclusive test_api connector (9 ∷ []) (8 ∷ []) "claim" 30 50 tables
      one_claim claimed_tables claimed_ok (8 ∷ []) "other" 40 60 (inl (omega arith))

abbrev limits : RegistrationLimits
limits = record {
  now = 1000;
  window_seconds = 60;
  per_source_limit = 2;
  global_limit = 5;
  max_clients = 3;
}

abbrev second_app : RegisteredClient
second_app = record app { client_id = "second" }

tables_limits : WithinLimits connector limits tables
unfolding count_where
tables_limits = record {
  clients = omega arith;
  attempts = omega arith;
  per_source = λ source. omega arith;
}

register_client_limited-WithinLimits_example :
    WithinLimits connector limits (register_client_limited connector second_app limits tables).1
register_client_limited-WithinLimits_example =
    register_client_limited-WithinLimits connector second_app limits tables tables_limits
