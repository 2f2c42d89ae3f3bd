-- ===== src/OAuth/Consents.antt =====
-- The consents and the codes that they lead to: oauth/src/store.rs.
use run_on_mine.Prelude.{
  ℕ, String, str_eq, Bool, false, not, ◌&&◌, ◌||◌, Option, none, some, List, [], ◌∷◌, ◌++◌, any,
  filter, find, count_where, leb, ltb, if◌then◌else◌, Result, ok, err,
}
use run_on_mine.Prelude.Eq.{◌==◌, nat_eq, string_eq}
use run_on_mine.Prelude.Seq.{list_beq}
use run_on_mine.Authorization.Access.{Scope, scope_eq}
use run_on_mine.OAuth.Tables.{
  SecretHash, OAuthApi, StoreError, not_found, invalid_grant, corrupt, database,
  PendingAuthorization, AuthorizationRow, AuthorizationClaim, PendingConsent, CodeRow, OAuthTables,
  has_client, has_consent, has_code, namespace_hash,
}
use run_on_mine.OAuth.Tokens.{Outcome, commit}
use run_on_mine.OAuth.Authorizations.{set_authorizations, is_held}

abbrev pub is_after : Option ℕ → ℕ → Bool
is_after none now = false
is_after (some expires_at) now = ltb now expires_at

abbrev pub same_scopes : List Scope → List Scope → Bool
same_scopes left right = list_beq left right

-- A consent of the claim's own request.
unfoldable pub matches_claim : PendingConsent → PendingAuthorization → Bool
unfolding list_beq
matches_claim consent pending =
    str_eq consent.client_id pending.client_id
    && str_eq consent.redirect_uri pending.redirect_uri
    && str_eq consent.client_state pending.client_state
    && same_scopes consent.scopes pending.scopes
    && str_eq consent.code_challenge pending.code_challenge

-- The primary key, the unique hash and the foreign key of the consents.
unfoldable pub insert_consent : PendingConsent → OAuthTables → Result StoreError OAuthTables
unfolding any list_beq has_client
insert_consent consent tables =
    if not (has_client consent.client_id tables)
      || any (λ c. str_eq c.id consent.id || list_beq c.csrf_hash consent.csrf_hash) tables.consents
    then err database
    else ok (record tables { consents = tables.consents ++ consent ∷ [] })

-- The removal that ends `complete_authorization_claim`, and its commit.
abbrev pub remove_claimed :
    (AuthorizationRow → Bool) → OAuthTables → Result StoreError OAuthTables → Outcome (Unit {0})
remove_claimed held before (err e) = (err e, before)
remove_claimed held before (ok tables) =
    if not (count_where held tables.authorizations == 1)
    then (err invalid_grant, before)
    else (ok tt, set_authorizations tables (filter (λ row. not (held row)) tables.authorizations))

-- The reply for the row that the select of `take_consent` found.
abbrev pub taken :
    String
    → SecretHash
    → SecretHash
    → OAuthTables
    → OAuthTables
    → Option PendingConsent
    → Outcome PendingConsent
taken id hash original_hash before tables none = (err not_found, before)
taken id hash original_hash before tables (some row) = (
  ok (record row { csrf_hash = original_hash }),
  record tables { consents = filter (λ c. not (has_consent id hash c)) tables.consents },
)

module _ (api : OAuthApi) where
  unfoldable pub complete_authorization_claim :
      String → AuthorizationClaim → PendingConsent → ℕ → OAuthTables → Outcome (Unit {0})
  unfolding matches_claim any is_held insert_consent
  complete_authorization_claim connector_id claim consent now tables =
      if not (matches_claim consent claim.pending)
      then (err corrupt, tables)
      else if not (
          any
            (λ row.
              is_held api connector_id claim row
              && is_after row.claim_expires_at now
              && ltb now row.pending.expires_at)
            tables.authorizations)
      then (err invalid_grant, tables)
      else remove_claimed (is_held api connector_id claim) tables (
          insert_consent
            (record consent { csrf_hash = namespace_hash api connector_id consent.csrf_hash })
            tables)

  unfoldable pub put_consent : String → PendingConsent → OAuthTables → Outcome (Unit {0})
  unfolding insert_consent namespace_hash
  put_consent connector_id pending tables = commit tt tables (
      insert_consent
        (record pending { csrf_hash = namespace_hash api connector_id pending.csrf_hash }) tables)

  unfoldable pub take_consent :
      String → String → SecretHash → ℕ → OAuthTables → Outcome PendingConsent
  unfolding filter find
  take_consent connector_id id csrf_hash now tables =
      let kept = filter (λ c. not (leb c.expires_at now)) tables.consents in
      let hash = namespace_hash api connector_id csrf_hash in
      taken id hash csrf_hash tables (record tables { consents = kept })
        (find (has_consent id hash) kept)

  unfoldable pub put_authorization_code : String → CodeRow → OAuthTables → Outcome (Unit {0})
  unfolding any list_beq namespace_hash has_client
  put_authorization_code connector_id code tables =
      let hash = namespace_hash api connector_id code.code_hash in
      if not (has_client code.client_id tables) || any (has_code hash) tables.codes
      then (err database, tables)
      else (
        ok tt,
        record tables {
          codes = tables.codes ++ (record code { code_hash = hash; used = false }) ∷ [];
        },
      )
