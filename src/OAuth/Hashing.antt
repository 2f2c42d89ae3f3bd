-- ===== src/OAuth/Hashing.antt =====
-- The keyed hashes of crypto.rs and the errors of error.rs that the service answers with.
use run_on_mine.Prelude.{ℕ, String, Bool, ◌&&◌, List, [], ◌∷◌, ◌++◌, all, length, leb}
use run_on_mine.OAuth.Tables.{
  SecretHash, OAuthApi, StoreError, not_found, invalid_grant, refresh_reuse, corrupt, database,
}
use run_on_mine.OAuth.Tokens.{is_unreserved}

pub data OAuthErrorCode : Type 0 where
  invalid_request invalid_client bad_grant invalid_scope unauthorized_client : OAuthErrorCode
  unsupported_grant_type access_denied temporarily_unavailable server_error : OAuthErrorCode

pub data HashPurpose : Type 0 where
  authorization_code access_token refresh_token github_state github_code : HashPurpose
  consent_csrf registration_access registration_source : HashPurpose

-- "runonmine/oauth/"
abbrev pub label_start : List ℕ
label_start =
    114 ∷ 117 ∷ 110 ∷ 111 ∷ 110 ∷ 109 ∷ 105 ∷ 110 ∷ 101 ∷ 47 ∷ 111 ∷ 97 ∷ 117 ∷ 116 ∷ 104 ∷ 47 ∷ []

-- The text between the start and "/v1" with a zero byte.
abbrev pub label_name : HashPurpose → List ℕ
-- "authorization-code"
label_name authorization_code =
    97 ∷ 117 ∷ 116 ∷ 104 ∷ 111 ∷ 114 ∷ 105 ∷ 122 ∷ 97 ∷ 116 ∷ 105 ∷ 111 ∷ 110 ∷ 45 ∷ 99 ∷ 111 ∷ 100
    ∷ 101 ∷ []
-- "access-token"
label_name access_token = 97 ∷ 99 ∷ 99 ∷ 101 ∷ 115 ∷ 115 ∷ 45 ∷ 116 ∷ 111 ∷ 107 ∷ 101 ∷ 110 ∷ []
-- "refresh-token"
label_name refresh_token =
    114 ∷ 101 ∷ 102 ∷ 114 ∷ 101 ∷ 115 ∷ 104 ∷ 45 ∷ 116 ∷ 111 ∷ 107 ∷ 101 ∷ 110 ∷ []
-- "github-state"
label_name github_state = 103 ∷ 105 ∷ 116 ∷ 104 ∷ 117 ∷ 98 ∷ 45 ∷ 115 ∷ 116 ∷ 97 ∷ 116 ∷ 101 ∷ []
-- "github-code"
label_name github_code = 103 ∷ 105 ∷ 116 ∷ 104 ∷ 117 ∷ 98 ∷ 45 ∷ 99 ∷ 111 ∷ 100 ∷ 101 ∷ []
-- "consent-csrf"
label_name consent_csrf = 99 ∷ 111 ∷ 110 ∷ 115 ∷ 101 ∷ 110 ∷ 116 ∷ 45 ∷ 99 ∷ 115 ∷ 114 ∷ 102 ∷ []
-- "registration-access"
label_name registration_access =
    114 ∷ 101 ∷ 103 ∷ 105 ∷ 115 ∷ 116 ∷ 114 ∷ 97 ∷ 116 ∷ 105 ∷ 111 ∷ 110 ∷ 45 ∷ 97 ∷ 99 ∷ 99 ∷ 101
    ∷ 115 ∷ 115 ∷ []
-- "registration-source"
label_name registration_source =
    114 ∷ 101 ∷ 103 ∷ 105 ∷ 115 ∷ 116 ∷ 114 ∷ 97 ∷ 116 ∷ 105 ∷ 111 ∷ 110 ∷ 45 ∷ 115 ∷ 111 ∷ 117
    ∷ 114 ∷ 99 ∷ 101 ∷ []

abbrev pub label : HashPurpose → List ℕ
label purpose = label_start ++ (label_name purpose ++ 47 ∷ 118 ∷ 49 ∷ 0 ∷ [])

-- What the service takes from elsewhere: the keyed digest, the code points of a text, the origin
-- of a `Url`, and a `Url` with pairs appended to its query.
pub record ServiceApi : Type 0 where
  pub store : OAuthApi
  pub keyed_hash : List ℕ → List ℕ → List ℕ
  pub chars : String → List ℕ
  pub ascii_origin : String → String
  pub with_pairs : String → List (String × String) → String

-- `TokenHasher::hash`
unfoldable pub hash : ServiceApi → List ℕ → HashPurpose → String → SecretHash
hash api key purpose raw = api.keyed_hash key (label purpose ++ api.store.as_bytes raw)

-- `str::len`
abbrev pub text_length : ServiceApi → String → ℕ
text_length api text = length (api.store.as_bytes text)

unfoldable pub validate_pkce_challenge : ServiceApi → String → Bool
unfolding all
validate_pkce_challenge api value =
    leb 43 (text_length api value)
    && leb (text_length api value) 128
    && all is_unreserved (api.store.as_bytes value)

-- `map_store_grant_error_for`, without the line that it logs
abbrev pub store_grant_error : StoreError → OAuthErrorCode
store_grant_error invalid_grant = bad_grant
store_grant_error not_found = bad_grant
store_grant_error refresh_reuse = bad_grant
store_grant_error corrupt = server_error
store_grant_error database = server_error

-- `map_store_server_error_for`, without the line that it logs
abbrev pub store_server_error : StoreError → OAuthErrorCode
store_server_error e = server_error

-- The errors of `claim_authorization` and `take_consent`.
abbrev pub store_access_error : StoreError → OAuthErrorCode
store_access_error not_found = access_denied
store_access_error invalid_grant = access_denied
store_access_error refresh_reuse = server_error
store_access_error corrupt = server_error
store_access_error database = server_error
