-- ===== src/OAuth/Tables.antt =====
-- The rows of the OAuth database (model.rs and the schema of oauth/src/store.rs). A `SecretHash`
-- and a text that a digest covers are lists of bytes; times are whole seconds; a `Url` and a `Uuid`
-- are their texts. `scopes` columns hold the canonical set that Scopes reads back from its text.
use run_on_mine.Prelude.{
  ℕ, String, str_eq, Bool, true, false, ◌&&◌, Option, List, ◌++◌, any, ◌∷◌, [],
}
use run_on_mine.Prelude.Eq.{nat_eq}
use run_on_mine.Prelude.Seq.{list_beq}
use run_on_mine.Authorization.Access.{Scope}

abbrev pub SecretHash : Type 0
SecretHash = List ℕ

abbrev pub ScopeSet : Type 0
ScopeSet = List Scope

-- What the digest and the encodings of the dependencies compute.
pub record OAuthApi : Type 0 where
  pub as_bytes : String → List ℕ
  pub sha256 : List ℕ → List ℕ
  -- the URL-safe alphabet, without padding
  pub base64_url : List ℕ → String

pub data StoreError : Type 0 where
  not_found invalid_grant refresh_reuse corrupt database : StoreError

pub data RegistrationOutcome : Type 0 where
  registered rate_limited capacity_reached : RegistrationOutcome

pub record RegistrationLimits : Type 0 where
  pub now : ℕ
  pub window_seconds : ℕ
  pub per_source_limit : ℕ
  pub global_limit : ℕ
  pub max_clients : ℕ

pub record RegisteredClient : Type 0 where
  pub connector_id : String
  pub client_id : String
  pub client_name : String
  pub redirect_uris : List String
  pub scopes : ScopeSet
  pub issued_at : ℕ
  pub expires_at : ℕ
  pub last_used_at : Option ℕ
  pub registration_source_hash : String

pub record RegistrationAttempt : Type 0 where
  pub connector_id : String
  pub source_key : String
  pub attempted_at : ℕ

pub record PendingAuthorization : Type 0 where
  pub provider_state_hash : SecretHash
  pub client_id : String
  pub redirect_uri : String
  pub client_state : String
  pub scopes : ScopeSet
  pub code_challenge : String
  pub expires_at : ℕ

-- The row of a pending authorization, with the columns of its claim.
pub record AuthorizationRow : Type 0 where
  pub pending : PendingAuthorization
  pub provider_code_hash : Option SecretHash
  pub claim_id : Option String
  pub claim_expires_at : Option ℕ

pub record AuthorizationClaim : Type 0 where
  pub claim_id : String
  pub provider_code_hash : SecretHash
  pub pending : PendingAuthorization
  pub claim_expires_at : ℕ

pub record PendingConsent : Type 0 where
  pub id : String
  pub csrf_hash : SecretHash
  pub client_id : String
  pub redirect_uri : String
  pub client_state : String
  pub scopes : ScopeSet
  pub code_challenge : String
  pub subject : String
  pub expires_at : ℕ

-- A row of the codes; `put_authorization_code` stores a grant with `used` 0.
pub record CodeRow : Type 0 where
  pub code_hash : SecretHash
  pub client_id : String
  pub redirect_uri : String
  pub scopes : ScopeSet
  pub code_challenge : String
  pub subject : String
  pub expires_at : ℕ
  pub used : Bool

pub data TokenKind : Type 0 where
  access refresh : TokenKind

pub data TokenStatus : Type 0 where
  active rotated revoked : TokenStatus

pub record TokenRow : Type 0 where
  pub token_hash : SecretHash
  pub kind : TokenKind
  pub family_id : String
  pub client_id : String
  pub subject : String
  pub scopes : ScopeSet
  pub issued_at : ℕ
  pub expires_at : ℕ
  pub status : TokenStatus

pub record TokenPairDraft : Type 0 where
  pub access_hash : SecretHash
  pub refresh_hash : SecretHash
  pub access_expires_at : ℕ
  pub refresh_expires_at : ℕ

pub record AccessGrant : Type 0 where
  pub client_id : String
  pub subject : String
  pub scopes : ScopeSet
  pub expires_at : ℕ

pub record OAuthTables : Type 0 where
  pub attempts : List RegistrationAttempt
  pub clients : List RegisteredClient
  pub authorizations : List AuthorizationRow
  pub consents : List PendingConsent
  pub codes : List CodeRow
  pub tokens : List TokenRow

abbrev pub is_active : TokenStatus → Bool
is_active active = true
is_active _ = false

abbrev pub is_access : TokenKind → Bool
is_access access = true
is_access refresh = false

-- `client_id IN (SELECT client_id FROM oauth_clients WHERE connector_id = …)`
unfoldable pub is_client_of : String → List RegisteredClient → String → Bool
unfolding any
is_client_of connector_id clients client_id =
    any (λ c. str_eq c.client_id client_id && str_eq c.connector_id connector_id) clients

-- The foreign key that an inserted row refers to.
unfoldable pub has_client : String → OAuthTables → Bool
unfolding any
has_client client_id tables = any (λ c. str_eq c.client_id client_id) tables.clients

abbrev pub has_hash : SecretHash → TokenRow → Bool
has_hash hash row = list_beq row.token_hash hash

abbrev pub has_code : SecretHash → CodeRow → Bool
has_code hash row = list_beq row.code_hash hash

abbrev pub has_state : SecretHash → AuthorizationRow → Bool
has_state hash row = list_beq row.pending.provider_state_hash hash

abbrev pub has_consent : String → SecretHash → PendingConsent → Bool
has_consent id csrf_hash row = str_eq row.id id && list_beq row.csrf_hash csrf_hash

-- `namespace_hash`, with "runonmine/oauth/store-namespace/v1" and a zero byte
abbrev pub namespace_domain : List ℕ
namespace_domain =
    114 ∷ 117 ∷ 110 ∷ 111 ∷ 110 ∷ 109 ∷ 105 ∷ 110 ∷ 101 ∷ 47 ∷ 111 ∷ 97 ∷ 117 ∷ 116 ∷ 104 ∷ 47 ∷ 115
    ∷ 116 ∷ 111 ∷ 114 ∷ 101 ∷ 45 ∷ 110 ∷ 97 ∷ 109 ∷ 101 ∷ 115 ∷ 112 ∷ 97 ∷ 99 ∷ 101 ∷ 47 ∷ 118 ∷ 49
    ∷ 0 ∷ []

module _ (api : OAuthApi) where
  open api use {as_bytes, sha256}

  unfoldable pub namespace_hash : String → SecretHash → SecretHash
  namespace_hash connector_id hash =
      sha256 (namespace_domain ++ (as_bytes connector_id ++ (0 ∷ [] ++ hash)))

  unfoldable pub namespace_token_pair : String → TokenPairDraft → TokenPairDraft
  unfolding namespace_hash
  namespace_token_pair connector_id tokens = record tokens {
    access_hash = namespace_hash connector_id tokens.access_hash;
    refresh_hash = namespace_hash connector_id tokens.refresh_hash;
  }
