-- ===== src/OAuth/Authorizations.antt =====
-- Pending authorizations, and their claims: oauth/src/store.rs.
use run_on_mine.Prelude.{
  ℕ, String, str_eq, Bool, false, not, ◌&&◌, ◌||◌, Option, none, some, List, [], ◌∷◌, ◌++◌, any,
  filter, find, update_where, count_where, leb, ltb, min, if◌then◌else◌, ok, err,
}
use run_on_mine.Prelude.Eq.{◌==◌, nat_eq, string_eq}
use run_on_mine.Prelude.Seq.{list_beq}
use run_on_mine.Authorization.Access.{scope_eq}
use run_on_mine.OAuth.Tables.{
  SecretHash, OAuthApi, not_found, invalid_grant, database, PendingAuthorization, AuthorizationRow,
  AuthorizationClaim, OAuthTables, has_client, has_state, namespace_hash,
}
use run_on_mine.OAuth.Tokens.{Outcome}

-- A stored code hash that is another one refuses the claim.
abbrev pub other_code : Option SecretHash → SecretHash → Bool
other_code none hash = false
other_code (some stored) hash = not (list_beq stored hash)

-- A claim that has not run out.
abbrev pub is_claimed : Option String → Option ℕ → ℕ → Bool
is_claimed (some id) (some expires_at) now = ltb now expires_at
is_claimed _ _ now = false

abbrev pub set_authorizations : OAuthTables → List AuthorizationRow → OAuthTables
set_authorizations tables rows = record tables { authorizations = rows }

abbrev pub claimed : SecretHash → String → ℕ → AuthorizationRow → AuthorizationRow
claimed code_hash claim_id expires_at row = record row {
  provider_code_hash = some code_hash;
  claim_id = some claim_id;
  claim_expires_at = some expires_at;
}

abbrev pub is_unexpired_state : SecretHash → ℕ → AuthorizationRow → Bool
is_unexpired_state hash now row = has_state hash row && ltb now row.pending.expires_at

-- The hashes of a claim: as the caller gave them, and in the connector's namespace.
pub record ClaimHashes : Type 0 where
  pub state_hash : SecretHash
  pub code_hash : SecretHash
  pub original_state_hash : SecretHash
  pub original_code_hash : SecretHash

-- The claim of the row that the select found.
abbrev pub claim_row :
    ClaimHashes
    → String
    → ℕ
    → ℕ
    → OAuthTables
    → OAuthTables
    → Option AuthorizationRow
    → Outcome AuthorizationClaim
claim_row hashes claim_id now claim_expires_at before tables none = (err not_found, before)
claim_row hashes claim_id now claim_expires_at before tables (some row) =
    if other_code row.provider_code_hash hashes.code_hash
      || is_claimed row.claim_id row.claim_expires_at now
    then (err invalid_grant, before)
    else if not (count_where (is_unexpired_state hashes.state_hash now) tables.authorizations == 1)
    then (err invalid_grant, before)
    else (
      ok (record {
        claim_id = claim_id;
        provider_code_hash = hashes.original_code_hash;
        pending = record row.pending { provider_state_hash = hashes.original_state_hash };
        claim_expires_at = min claim_expires_at row.pending.expires_at;
      }),
      set_authorizations tables (
          update_where (is_unexpired_state hashes.state_hash now)
            (claimed hashes.code_hash claim_id (min claim_expires_at row.pending.expires_at))
            tables.authorizations),
    )

abbrev pub is_hash : Option SecretHash → SecretHash → Bool
is_hash none hash = false
is_hash (some stored) hash = list_beq stored hash

abbrev pub is_id : Option String → String → Bool
is_id none id = false
is_id (some stored) id = str_eq stored id

-- The row that a claim holds: its state, its code and its identifier.
unfoldable pub holds_claim : SecretHash → SecretHash → String → AuthorizationRow → Bool
unfolding list_beq
holds_claim state_hash code_hash claim_id row =
    has_state state_hash row
    && is_hash row.provider_code_hash code_hash
    && is_id row.claim_id claim_id

abbrev pub let_go : AuthorizationRow → AuthorizationRow
let_go row = record row { claim_id = none; claim_expires_at = none }

module _ (api : OAuthApi) where
  unfoldable pub put_authorization :
      String → PendingAuthorization → OAuthTables → Outcome (Unit {0})
  unfolding any list_beq namespace_hash has_client
  put_authorization connector_id pending tables =
      let hash = namespace_hash api connector_id pending.provider_state_hash in
      if not (has_client pending.client_id tables) || any (has_state hash) tables.authorizations
      then (err database, tables)
      else (
        ok tt,
        set_authorizations tables (
            tables.authorizations
            ++ (record {
              pending = record pending { provider_state_hash = hash };
              provider_code_hash = none;
              claim_id = none;
              claim_expires_at = none;
            })
              ∷ []),
      )

  unfoldable pub claim_authorization :
      String → SecretHash → SecretHash → String → ℕ → ℕ → OAuthTables → Outcome AuthorizationClaim
  unfolding filter find
  claim_authorization connector_id state_hash code_hash claim_id now claim_expires_at tables =
      let kept = filter (λ row. not (leb row.pending.expires_at now)) tables.authorizations in
      let hashes : ClaimHashes = record {
        state_hash = namespace_hash api connector_id state_hash;
        code_hash = namespace_hash api connector_id code_hash;
        original_state_hash = state_hash;
        original_code_hash = code_hash;
      } in
      if leb claim_expires_at now
      then (err invalid_grant, tables)
      else claim_row hashes claim_id now claim_expires_at tables (set_authorizations tables kept)
          (find (has_state hashes.state_hash) kept)

  -- The row that the claim holds in the connector's namespace.
  unfoldable pub is_held : String → AuthorizationClaim → AuthorizationRow → Bool
  unfolding holds_claim namespace_hash
  is_held connector_id claim row =
      holds_claim (namespace_hash api connector_id claim.pending.provider_state_hash)
        (namespace_hash api connector_id claim.provider_code_hash) claim.claim_id row

  unfoldable pub is_held_live : String → AuthorizationClaim → ℕ → AuthorizationRow → Bool
  unfolding is_held
  is_held_live connector_id claim now row =
      is_held connector_id claim row && ltb now row.pending.expires_at

  unfoldable pub release_authorization_claim :
      String → AuthorizationClaim → ℕ → OAuthTables → Outcome (Unit {0})
  unfolding is_held_live update_where count_where
  release_authorization_claim connector_id claim now tables = (
    if count_where (is_held_live connector_id claim now) tables.authorizations == 1
        then ok tt
        else err invalid_grant,
    set_authorizations tables
        (update_where (is_held_live connector_id claim now) let_go tables.authorizations),
  )

  unfoldable pub consume_authorization_claim :
      String → AuthorizationClaim → ℕ → OAuthTables → Outcome (Unit {0})
  unfolding is_held_live filter count_where
  consume_authorization_claim connector_id claim now tables = (
    if count_where (is_held_live connector_id claim now) tables.authorizations == 1
        then ok tt
        else err invalid_grant,
    set_authorizations tables
        (filter (λ row. not (is_held_live connector_id claim now row)) tables.authorizations),
  )
