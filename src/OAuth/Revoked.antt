-- ===== src/OAuth/Revoked.antt =====
-- A token that was revoked authenticates nothing.
use run_on_mine.Prelude.{
  ℕ, ◌≡◌, refl, ap, ◌∙◌, String, Bool, true, false, ◌||◌, Option, none, some, List, find,
  update_where, ltb, err, inl, inr, Bool-cases, arith, if-elim,
}
use run_on_mine.Prelude.Eq.{◌==◌, nat_eq}
use run_on_mine.Prelude.Members.{In, find-In, In-of-update_where}
use run_on_mine.OAuth.Tables.{
  SecretHash, ScopeSet, OAuthApi, TokenRow, revoked, OAuthTables, is_active, is_access, has_hash,
  namespace_hash,
}
use run_on_mine.OAuth.Tokens.{with_status, set_tokens, in_family, revoke_family}
use run_on_mine.OAuth.Rotation.{is_bearer, access_of, access_grant}
use run_on_mine.OAuth.Revocation.{revoke_found, revoke_token}
use run_on_mine.OAuth.Bearers.{find-none, all-find-none}
use run_on_mine.OAuth.Hashing.{
  bad_grant, access_token, refresh_token, ServiceApi, hash, text_length,
}
use run_on_mine.OAuth.Requests.{OAuthService}
use run_on_mine.OAuth.Service.{authenticate_access_token, revoke}

-- The primary key of the tokens, for one digest.
abbrev pub OneRow : SecretHash → OAuthTables → Type 0
OneRow digest tables =
    (r s : TokenRow)
    → In r tables.tokens
    → In s tables.tokens
    → has_hash digest r ≡ true
    → has_hash digest s ≡ true
    → r ≡ s

-- No active access token has the hash.
abbrev pub NoAccess : SecretHash → List TokenRow → Type 0
NoAccess digest rows =
    (row : TokenRow)
    → In row rows
    → has_hash digest row ≡ true
    → is_access row.kind ≡ true
    → is_active row.status ≡ false

not-both : {b : Bool} → b ≡ true → b ≡ false → ⊥
not-both h k = ground arith

-- A revocation by status leaves what was refused refused.
update_where-NoAccess :
    (digest : SecretHash) (p : TokenRow → Bool) (rows : List TokenRow)
    → ((row : TokenRow)
        → In row rows
        → p row ≡ false
        → has_hash digest row ≡ true
        → is_access row.kind ≡ true
        → is_active row.status ≡ false)
    → NoAccess digest (update_where p (with_status revoked) rows)
update_where-NoAccess digest p rows h row m named kind =
    elim (In-of-update_where p (with_status revoked) rows row m) [
      | inl (before, _, _, same) ↦ ap (λ (r : TokenRow). is_active r.status) same
      | inr (member, off) ↦ h row member off named kind
    ]

revoke_family-NoAccess :
    (connector_id : String) (digest : SecretHash) (family_id : String) (tables : OAuthTables)
    → ((row : TokenRow)
        → In row tables.tokens
        → in_family connector_id family_id tables row ≡ false
        → has_hash digest row ≡ true
        → is_access row.kind ≡ true
        → is_active row.status ≡ false)
    → NoAccess digest (revoke_family connector_id family_id tables).tokens
unfolding revoke_family
revoke_family-NoAccess connector_id digest family_id tables h =
    update_where-NoAccess digest (in_family connector_id family_id tables) tables.tokens h

revoke_found-NoAccess :
    (connector_id : String) (digest : SecretHash) (tables : OAuthTables) (found : Option TokenRow)
    → find (has_hash digest) tables.tokens ≡ found
    → OneRow digest tables
    → NoAccess digest (revoke_found connector_id digest tables found).tokens
revoke_found-NoAccess connector_id digest tables none f one =
    λ row m named kind. absurd (not-both named (find-none (has_hash digest) tables.tokens f row m))
revoke_found-NoAccess connector_id digest tables (some r) f one =
    let (member, holds) = find-In (has_hash digest) tables.tokens r f in
    if-elim (λ (t : OAuthTables). NoAccess digest t.tokens) (is_access r.kind)
      (set_tokens tables (update_where (has_hash digest) (with_status revoked) tables.tokens))
      (revoke_family connector_id r.family_id tables)
      (λ _.
        update_where-NoAccess digest (has_hash digest) tables.tokens
          (λ row m off named kind. absurd (not-both named off)))
      (λ other.
        revoke_family-NoAccess connector_id digest r.family_id tables (λ row m off named kind.
          absurd (
            not-both kind
              (ap (λ (t : TokenRow). is_access t.kind) (one row r m member named holds) ∙ other))))

revoke_found-keeps :
    (connector_id : String) (digest other : SecretHash) (tables : OAuthTables)
    (found : Option TokenRow)
    → NoAccess digest tables.tokens
    → NoAccess digest (revoke_found connector_id other tables found).tokens
revoke_found-keeps connector_id digest other tables none h = h
revoke_found-keeps connector_id digest other tables (some r) h =
    if-elim (λ (t : OAuthTables). NoAccess digest t.tokens) (is_access r.kind)
      (set_tokens tables (update_where (has_hash other) (with_status revoked) tables.tokens))
      (revoke_family connector_id r.family_id tables)
      (λ _. update_where-NoAccess digest (has_hash other) tables.tokens (λ row m off. h row m))
      (λ _. revoke_family-NoAccess connector_id digest r.family_id tables (λ row m off. h row m))

bearer-NoAccess :
    (connector_id : String) (digest : SecretHash) (now : ℕ) (tables : OAuthTables) (row : TokenRow)
    → (has_hash digest row ≡ true → is_access row.kind ≡ true → is_active row.status ≡ false)
    → is_bearer connector_id digest now tables row ≡ false
unfolding is_bearer
bearer-NoAccess connector_id digest now tables row h = elim (Bool-cases (has_hash digest row)) [
  | inr f ↦ rw f
  | inl t ↦ elim (Bool-cases (is_access row.kind)) [ inr g ↦ rw (t, g) | inl u ↦ rw (t, u, h t u) ]
]

revoke_token-NoAccess :
    (api : OAuthApi) (connector_id : String) (token : SecretHash) (tables : OAuthTables)
    → OneRow (namespace_hash api connector_id token) tables
    → NoAccess
        (namespace_hash api connector_id token)
        (revoke_token api connector_id token tables).tokens
unfolding revoke_token
revoke_token-NoAccess api connector_id token tables one =
    let digest = namespace_hash api connector_id token in
    revoke_found-NoAccess connector_id digest tables (find (has_hash digest) tables.tokens) refl one

revoke_token-keeps :
    (api : OAuthApi) (connector_id : String) (digest token : SecretHash) (tables : OAuthTables)
    → NoAccess digest tables.tokens
    → NoAccess digest (revoke_token api connector_id token tables).tokens
unfolding revoke_token
revoke_token-keeps api connector_id digest token tables h =
    let other = namespace_hash api connector_id token in
    revoke_found-keeps connector_id digest other tables (find (has_hash other) tables.tokens) h

access_grant-NoAccess :
    (api : OAuthApi) (connector_id : String) (token : SecretHash) (now : ℕ) (tables : OAuthTables)
    → NoAccess (namespace_hash api connector_id token) tables.tokens
    → access_grant api connector_id token now tables ≡ none
unfolding access_grant
access_grant-NoAccess api connector_id token now tables h =
    let digest = namespace_hash api connector_id token in
    ap access_of (
      all-find-none (is_bearer connector_id digest now tables) tables.tokens
        (λ row m. bearer-NoAccess connector_id digest now tables row (h row m)))

module _ (api : ServiceApi) (self : OAuthService) where
  -- After the revocation of an access token no call is authenticated by it, at any time and under
  -- any policy; the primary key of the tokens is taken as given.
  pub revoke-authenticate_access_token :
      (raw_token : String) (tables : OAuthTables)
      → OneRow
          (namespace_hash api.store self.connector_id (hash api self.key access_token raw_token))
          tables
      → (local_policy : ScopeSet) (now : ℕ)
      → authenticate_access_token api self raw_token local_policy now
          (revoke api self raw_token tables)
        ≡ err bad_grant
  unfolding authenticate_access_token revoke
  revoke-authenticate_access_token raw_token tables one local_policy now =
      let token = hash api self.key access_token raw_token in
      let first = revoke_token api.store self.connector_id token tables in
      let second =
        revoke_token api.store self.connector_id (hash api self.key refresh_token raw_token)
          first in
      let refused = access_grant-NoAccess api.store self.connector_id token now second (
        revoke_token-keeps api.store self.connector_id
          (namespace_hash api.store self.connector_id token)
          (hash api self.key refresh_token raw_token) first
          (revoke_token-NoAccess api.store self.connector_id token tables one)) in
      elim (Bool-cases (text_length api raw_token == 0 || ltb 2048 (text_length api raw_token))) [
        | inl t ↦ rw t
        | inr f ↦ rw (f, refused)
      ]
