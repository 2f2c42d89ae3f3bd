-- ===== src/OAuth/Access.antt =====
-- What an authenticated call may do: the scopes of its token, under the ceiling of the local policy.
use run_on_mine.Prelude.{
  ℕ, ◌≡◌, refl, sym, ap, ◌∙◌, subst, String, Bool, true, false, ◌||◌, Option, none, some,
  some-injective, ltb, Result, ok, err, ok-injective, if◌then◌else◌,
}
use run_on_mine.Prelude.Eq.{◌==◌, nat_eq}
use run_on_mine.Prelude.Members.{In, In-of-filter}
use run_on_mine.Authorization.Access.{Scope, scope_eq}
use run_on_mine.OAuth.Tables.{ScopeSet, TokenRow, AccessGrant, OAuthTables, namespace_hash}
use run_on_mine.OAuth.Scopes.{contains, intersection, constrained_by}
use run_on_mine.OAuth.Rotation.{is_bearer, access_grant}
use run_on_mine.OAuth.Bearers.{access_grant-is_bearer}
use run_on_mine.OAuth.Hashing.{
  OAuthErrorCode, bad_grant, access_denied, access_token, ServiceApi, hash, text_length,
}
use run_on_mine.OAuth.Requests.{OAuthService}
use run_on_mine.OAuth.Service.{
  constrained, authenticate_access_token, require_scope, authenticate_access,
}

-- What a grant rests on: a row that bears the token, whose scopes and the local policy both hold
-- every scope of the grant.
abbrev pub IsBorne :
    ServiceApi → OAuthService → String → ScopeSet → ℕ → OAuthTables → AccessGrant → Type 0
IsBorne api self raw_token local_policy now tables grant =
    (row : TokenRow) × In row tables.tokens
    × (is_bearer self.connector_id
          (namespace_hash api.store self.connector_id (hash api self.key access_token raw_token))
          now tables row
        ≡ true)
    × (grant.client_id ≡ row.client_id)
    × (grant.subject ≡ row.subject)
    × ((scope : Scope)
        → In scope grant.scopes
        → In scope row.scopes × (contains local_policy scope ≡ true))

allowed :
    (b : Bool) (full : AccessGrant) (e : OAuthErrorCode) (grant : AccessGrant)
    → (if b then ok full else err e) ≡ ok grant
    → (b ≡ true) × (full ≡ grant)
allowed true full e grant h = (refl, ok-injective full grant h)
allowed false full e grant h = cc

kept :
    (b : Bool) (e : OAuthErrorCode) (rest : Result OAuthErrorCode AccessGrant) (grant : AccessGrant)
    → (if b then err e else rest) ≡ ok grant
    → rest ≡ ok grant
kept true e rest grant h = cc
kept false e rest grant h = h

-- The scopes under a ceiling are the token's, and within the ceiling.
constrained_by-In :
    (scopes local_policy : ScopeSet) (scope : Scope)
    → In scope (constrained_by scopes local_policy)
    → In scope scopes × (contains local_policy scope ≡ true)
unfolding constrained_by intersection
constrained_by-In scopes local_policy scope m = In-of-filter (contains local_policy) scopes scope m

module _ (api : ServiceApi) (self : OAuthService) where
  constrained-ok :
      (local_policy : ScopeSet) (found : Option AccessGrant) (grant : AccessGrant)
      → constrained api self local_policy found ≡ ok grant
      → (full : AccessGrant) × (found ≡ some full)
        × (grant.client_id ≡ full.client_id)
        × (grant.subject ≡ full.subject)
        × (grant.scopes ≡ constrained_by full.scopes local_policy)
  constrained-ok local_policy none grant h = cc
  constrained-ok local_policy (some full) grant h =
      let same =
        ok-injective (record full { scopes = constrained_by full.scopes local_policy }) grant h in
      (
        full,
        refl,
        ap (λ g. g.client_id) (sym same),
        ap (λ g. g.subject) (sym same),
        ap (λ g. g.scopes) (sym same),
      )

  require_scope-ok :
      (scope : Scope) (reply : Result OAuthErrorCode AccessGrant) (grant : AccessGrant)
      → require_scope api self scope reply ≡ ok grant
      → (reply ≡ ok grant) × (contains grant.scopes scope ≡ true)
  require_scope-ok scope (err e) grant h = cc
  require_scope-ok scope (ok full) grant h =
      let (held, same) = allowed (contains full.scopes scope) full access_denied grant h in
      (ap ok same, ap (λ (g : AccessGrant). contains g.scopes scope) (sym same) ∙ held)

  authenticate_access_token-IsBorne :
      (raw_token : String) (local_policy : ScopeSet) (now : ℕ) (tables : OAuthTables)
      (grant : AccessGrant)
      → authenticate_access_token api self raw_token local_policy now tables ≡ ok grant
      → IsBorne api self raw_token local_policy now tables grant
  unfolding authenticate_access_token
  authenticate_access_token-IsBorne raw_token local_policy now tables grant h =
      let token = hash api self.key access_token raw_token in
      let found = access_grant api.store self.connector_id token now tables in
      let (full, granted, client, subject, scopes) = constrained-ok local_policy found grant (
        kept (text_length api raw_token == 0 || ltb 2048 (text_length api raw_token)) bad_grant
          (constrained api self local_policy found) grant h) in
      let (row, member, borne, same) =
        (access_grant-is_bearer api.store self.connector_id token now tables).0 full granted in
      let of_row = some-injective _ full same in
      (
        row,
        member,
        borne,
        client ∙ ap (λ g. g.client_id) (sym of_row),
        subject ∙ ap (λ g. g.subject) (sym of_row),
        λ scope m.
            let (within, allowed_here) =
              constrained_by-In full.scopes local_policy scope (subst (In scope) scopes m) in
            (subst (In scope) (ap (λ g. g.scopes) (sym of_row)) within, allowed_here),
      )

  -- A call that is authenticated for a scope presented a token that a row bears: an access token of
  -- this connector, active and unexpired. The grant is for that row's client and subject, it has the
  -- required scope, and each of its scopes is one of the row's and one of the local policy's.
  pub authenticate_access-IsBorne :
      (raw_token : String) (required_scope : Scope) (local_policy : ScopeSet) (now : ℕ)
      (tables : OAuthTables) (grant : AccessGrant)
      → authenticate_access api self raw_token required_scope local_policy now tables ≡ ok grant
      → (contains grant.scopes required_scope ≡ true)
        × IsBorne api self raw_token local_policy now tables grant
  unfolding authenticate_access
  authenticate_access-IsBorne raw_token required_scope local_policy now tables grant h =
      let (authenticated, held) =
        require_scope-ok required_scope
          (authenticate_access_token api self raw_token local_policy now tables) grant h in
      (
        held,
        authenticate_access_token-IsBorne raw_token local_policy now tables grant authenticated,
      )
