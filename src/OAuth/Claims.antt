-- ===== src/OAuth/Claims.antt =====
-- A claim of a pending authorization excludes another one on the tables that it leaves.
use run_on_mine.Prelude.{
  ℕ, ◌<◌, ◌≡◌, ◌≢◌, ◌⊎◌, refl, sym, ap, ◌∙◌, subst, String, Bool, true, false, not, ◌||◌, Option,
  none, some, List, filter, find, update_where, count_where, leb, arith, inl, inr, Bool-cases,
  Result, ok, err, ◌==◌,
}
use run_on_mine.Prelude.Eq.{nat_eq}
use run_on_mine.Prelude.Seq.{list_beq, list_beq_iff}
use run_on_mine.Prelude.Members.{In, In-of-filter, find-In, In-of-update_where}
use run_on_mine.OAuth.Tables.{
  SecretHash, OAuthApi, StoreError, not_found, invalid_grant, AuthorizationRow, AuthorizationClaim,
  OAuthTables, has_state, namespace_hash,
}
use run_on_mine.OAuth.Guards.{guard-ok}
use run_on_mine.OAuth.Authorizations.{
  other_code, is_claimed, set_authorizations, claimed, is_unexpired_state, ClaimHashes, claim_row,
  claim_authorization,
}

-- Every row of the state carries the claim.
abbrev pub Claimed : SecretHash → SecretHash → ℕ → List AuthorizationRow → Type 0
Claimed state_hash code_hash claim_expires_at rows =
    (row : AuthorizationRow)
    → In row rows
    → has_state state_hash row ≡ true
    → (row.provider_code_hash ≡ some code_hash)
      × ((now : ℕ)
          → now < claim_expires_at
          → is_claimed row.claim_id row.claim_expires_at now ≡ true)

not-unexpired :
    (state_hash : SecretHash) (now : ℕ) (row : AuthorizationRow)
    → has_state state_hash row ≡ true
    → not (leb row.pending.expires_at now) ≡ true
    → is_unexpired_state state_hash now row ≡ false
    → ⊥
not-unexpired state_hash now row h live off = ground arith

claimed-Claimed :
    (state_hash code_hash : SecretHash) (claim_id : String) (claim_expires_at now : ℕ)
    (rows : List AuthorizationRow)
    → Claimed state_hash code_hash claim_expires_at (
        update_where
          (is_unexpired_state state_hash now)
          (claimed code_hash claim_id claim_expires_at)
          (filter (λ row. not (leb row.pending.expires_at now)) rows))
claimed-Claimed state_hash code_hash claim_id claim_expires_at now rows row m h =
    let kept = filter (λ (r : AuthorizationRow). not (leb r.pending.expires_at now)) rows in
    elim (In-of-update_where (is_unexpired_state state_hash now)
      (claimed code_hash claim_id claim_expires_at) kept row m) [
        | inl (before, _, _, same) ↦
            subst
              (λ (r : AuthorizationRow).
                (r.provider_code_hash ≡ some code_hash)
                × ((n : ℕ)
                    → n < claim_expires_at
                    → is_claimed r.claim_id r.claim_expires_at n ≡ true))
              (sym same) (refl, λ n le. ground arith)
        | inr (member, off) ↦
            let live =
              (In-of-filter (λ (r : AuthorizationRow). not (leb r.pending.expires_at now)) rows row
                member).1 in
            absurd (not-unexpired state_hash now row h live off)
      ]

abbrev claim_end : Result StoreError AuthorizationClaim → ℕ
claim_end (ok claim) = claim.claim_expires_at
claim_end (err e) = 0

-- What a claim that succeeded left.
claim_row-ok :
    (hashes : ClaimHashes) (claim_id : String) (now claim_expires_at : ℕ)
    (before tables : OAuthTables) (found : Option AuthorizationRow) (claim : AuthorizationClaim)
    (after : OAuthTables)
    → claim_row hashes claim_id now claim_expires_at before tables found ≡ (ok claim, after)
    → after
      ≡ set_authorizations tables (
          update_where
            (is_unexpired_state hashes.state_hash now)
            (claimed hashes.code_hash claim_id claim.claim_expires_at)
            tables.authorizations)
claim_row-ok hashes claim_id now claim_expires_at before tables none claim after h = cc
claim_row-ok hashes claim_id now claim_expires_at before tables (some row) claim after h =
    let only = count_where (is_unexpired_state hashes.state_hash now) tables.authorizations == 1 in
    let busy =
      other_code row.provider_code_hash hashes.code_hash
      || is_claimed row.claim_id row.claim_expires_at now in
    let (_, rest) = guard-ok busy invalid_grant before _ claim after h in
    let (_, last) = guard-ok (not only) invalid_grant before _ claim after rest in
    let made = λ (n : ℕ). set_authorizations tables (
      update_where (is_unexpired_state hashes.state_hash now) (claimed hashes.code_hash claim_id n)
        tables.authorizations) in
    sym (ap (λ o. o.1) last) ∙ ap made (ap (λ o. claim_end o.0) last)

-- A row that is claimed for another code, or claimed still, refuses the claim.
claim_row-refused :
    (hashes : ClaimHashes) (claim_id : String) (now claim_expires_at : ℕ)
    (before tables : OAuthTables) (found : Option AuthorizationRow)
    → ((row : AuthorizationRow)
        → found ≡ some row
        → (other_code row.provider_code_hash hashes.code_hash
            || is_claimed row.claim_id row.claim_expires_at now)
          ≡ true)
    → (e : StoreError) × (claim_row hashes claim_id now claim_expires_at before tables found
        ≡ (err e, before))
claim_row-refused hashes claim_id now claim_expires_at before tables none h = (not_found, refl)
claim_row-refused hashes claim_id now claim_expires_at before tables (some row) h =
    (invalid_grant, rw (h row refl))

||-left : (a b : Bool) → a ≡ true → (a || b) ≡ true
||-left a b h = ground arith

||-right : (a b : Bool) → b ≡ true → (a || b) ≡ true
||-right a b h = ground arith

differs : (left right : SecretHash) → left ≢ right → not (list_beq left right) ≡ true
differs left right h = elim (Bool-cases (list_beq left right)) [
  | inl t ↦ absurd (h ((list_beq_iff left right).0 t))
  | inr f ↦ rw f
]

refused-row :
    (state_hash code_hash other_hash : SecretHash) (claim_expires_at later : ℕ)
    (rows : List AuthorizationRow) (row : AuthorizationRow)
    → Claimed state_hash code_hash claim_expires_at rows
    → In row rows
    → has_state state_hash row ≡ true
    → (later < claim_expires_at) ⊎ (code_hash ≢ other_hash)
    → (other_code row.provider_code_hash other_hash
        || is_claimed row.claim_id row.claim_expires_at later)
      ≡ true
refused-row state_hash code_hash other_hash claim_expires_at later rows row all m h (inl le) =
    let (_, holds) = all row m h in
    ||-right (other_code row.provider_code_hash other_hash)
      (is_claimed row.claim_id row.claim_expires_at later) (holds later le)
refused-row state_hash code_hash other_hash claim_expires_at later rows row all m h (inr apart) =
    let (same, _) = all row m h in
    ||-left (other_code row.provider_code_hash other_hash)
      (is_claimed row.claim_id row.claim_expires_at later)
      (ap (λ stored. other_code stored other_hash) same ∙ differs code_hash other_hash apart)

module _ (api : OAuthApi) where
  -- A further claim of a claimed state, made on the tables that the first claim left, so that the
  -- claim was not given back in between, is refused and changes nothing: every one whose clock is
  -- before the end of the first claim, and at any time one that brings a provider code of another
  -- hash.
  pub claim_authorization-exclusive :
      (connector_id : String) (state code : SecretHash) (claim_id : String)
      (now claim_expires_at : ℕ) (tables : OAuthTables) (claim : AuthorizationClaim)
      (after : OAuthTables)
      → claim_authorization api connector_id state code claim_id now claim_expires_at tables
        ≡ (ok claim, after)
      → (other : SecretHash) (other_id : String) (later expires_at : ℕ)
      → (later < claim.claim_expires_at)
        ⊎ (namespace_hash api connector_id code ≢ namespace_hash api connector_id other)
      → (e : StoreError) × (claim_authorization api connector_id state other other_id later
            expires_at after
          ≡ (err e, after))
  unfolding claim_authorization
  claim_authorization-exclusive connector_id state code claim_id now claim_expires_at tables claim
        after h other other_id later expires_at reason =
      let state_hash = namespace_hash api connector_id state in
      let code_hash = namespace_hash api connector_id code in
      let kept =
        filter (λ (r : AuthorizationRow). not (leb r.pending.expires_at now))
          tables.authorizations in
      let hashes : ClaimHashes = record {
        state_hash = state_hash;
        code_hash = code_hash;
        original_state_hash = state;
        original_code_hash = code;
      } in
      let (_, rest) = guard-ok (leb claim_expires_at now) invalid_grant tables _ claim after h in
      let left =
        claim_row-ok hashes claim_id now claim_expires_at tables (set_authorizations tables kept)
          (find (has_state state_hash) kept) claim after rest in
      let all =
        subst (λ t. Claimed state_hash code_hash claim.claim_expires_at t.authorizations) (sym left)
          (claimed-Claimed state_hash code_hash claim_id claim.claim_expires_at now
            tables.authorizations) in
      let live =
        filter (λ (r : AuthorizationRow). not (leb r.pending.expires_at later))
          after.authorizations in
      let other_hashes : ClaimHashes = record {
        state_hash = state_hash;
        code_hash = namespace_hash api connector_id other;
        original_state_hash = state;
        original_code_hash = other;
      } in
      let refused =
        claim_row-refused other_hashes other_id later expires_at after
          (set_authorizations after live) (find (has_state state_hash) live)
          (λ row found.
            let (member, named) = find-In (has_state state_hash) live row found in
            refused-row state_hash code_hash (namespace_hash api connector_id other)
              claim.claim_expires_at later after.authorizations row all
              (In-of-filter (λ (r : AuthorizationRow). not (leb r.pending.expires_at later))
                after.authorizations row member).0
              named reason) in
      elim (Bool-cases (leb expires_at later)) [
        | inl t ↦ (invalid_grant, rw t)
        | inr f ↦ (refused.0, rw f refused.1)
      ]
