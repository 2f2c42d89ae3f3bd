-- ===== src/OAuth/Replay.antt =====
-- What a refresh token that is used twice leaves: no token of its family grants access.
use run_on_mine.Prelude.{
  ℕ, ◌<◌, ◌≡◌, refl, sym, ap, ◌∙◌, subst, String, str_eq, Bool, true, false, Option, some, List, [],
  ◌∷◌, ◌++◌, find, update_where, arith, inl, inr, Bool-cases, ok, err, &&-intro,
}
use run_on_mine.Prelude.Eq.{nat_eq}
use run_on_mine.Prelude.Members.{In}
use run_on_mine.OAuth.Tables.{
  SecretHash, ScopeSet, OAuthApi, refresh_reuse, rotated, revoked, TokenRow, TokenPairDraft,
  OAuthTables, is_active, is_client_of, has_hash, namespace_hash, namespace_token_pair,
}
use run_on_mine.OAuth.Guards.{Rotated, rotate_row-ok}
use run_on_mine.OAuth.Tokens.{Outcome, token_pair, with_status, in_family, revoke_family}
use run_on_mine.OAuth.Rotation.{is_refresh_of, is_live, rotate_row, is_bearer, rotate_refresh_token}

-- Every token of the family that belongs to the connector is revoked.
abbrev pub FamilyRevoked : String → String → OAuthTables → Type 0
FamilyRevoked connector_id family_id tables =
    (row : TokenRow)
    → In row tables.tokens
    → in_family connector_id family_id tables row ≡ true
    → row.status ≡ revoked

not-both : {b : Bool} → b ≡ true → b ≡ false → ⊥
not-both h k = ground arith

revoked-In :
    (p : TokenRow → Bool) (rows : List TokenRow) (row : TokenRow)
    → ((r : TokenRow) → p (with_status revoked r) ≡ p r)
    → In row (update_where p (with_status revoked) rows)
    → p row ≡ true
    → row.status ≡ revoked
unfolding update_where
revoked-In p [] row keeps m h = absurd m
revoked-In p (r ∷ rows) row keeps (inr m) h = revoked-In p rows row keeps m h
revoked-In p (r ∷ rows) row keeps (inl e) h = elim (Bool-cases (p r)) [
  | inl t ↦ ap (λ x. x.status) e ∙ rw t
  | inr f ↦ absurd (not-both h (ap p (e ∙ rw f) ∙ f))
]

revoke_family-FamilyRevoked :
    (connector_id family_id : String) (tables : OAuthTables)
    → FamilyRevoked connector_id family_id (revoke_family connector_id family_id tables)
unfolding revoke_family
revoke_family-FamilyRevoked connector_id family_id tables row m h =
    revoked-In (in_family connector_id family_id tables) tables.tokens row (λ r. refl) m h

-- No token of the family opens anything to a client of the connector, whatever the hash and the time.
abbrev pub NoBearer : String → String → OAuthTables → Type 0
NoBearer connector_id family_id tables =
    (hash : SecretHash) (now : ℕ) (row : TokenRow)
    → In row tables.tokens
    → str_eq row.family_id family_id ≡ true
    → is_bearer connector_id hash now tables row ≡ false

revoked-NoBearer :
    (connector_id family_id : String) (tables : OAuthTables)
    → FamilyRevoked connector_id family_id tables
    → NoBearer connector_id family_id tables
unfolding is_bearer
revoked-NoBearer connector_id family_id tables all hash now row m h =
    elim (Bool-cases (is_client_of connector_id tables.clients row.client_id)) [
      | inl t ↦
          let gone = ap is_active (
            all row m (
              &&-intro (str_eq row.family_id family_id)
                (is_client_of connector_id tables.clients row.client_id) h t)) in
          ground arith
      | inr f ↦ ground arith
    ]

find-append :
    {A : Type 0} (p : A → Bool) (xs ys : List A) (a : A)
    → find p xs ≡ some a
    → find p (xs ++ ys) ≡ some a
unfolding find
find-append p [] ys a h = cc
find-append p (x ∷ xs) ys a h = ground (arith, find-append p xs ys a)

find-rotated :
    (hash : SecretHash) (rows : List TokenRow) (row : TokenRow)
    → find (has_hash hash) rows ≡ some row
    → is_active row.status ≡ true
    → find (has_hash hash) (update_where (is_live hash) (with_status rotated) rows)
      ≡ some (with_status rotated row)
unfolding find update_where
find-rotated hash [] row h live = cc
find-rotated hash (r ∷ rows) row h live = elim (Bool-cases (has_hash hash r)) [
  | inl t ↦ ground arith
  | inr f ↦ ground (arith, find-rotated hash rows row)
]

rotated-found :
    (hash : SecretHash) (client_id : String) (scopes : ScopeSet) (tokens : TokenPairDraft) (now : ℕ)
    (tables : OAuthTables) (row : TokenRow) (after : OAuthTables)
    → find (has_hash hash) tables.tokens ≡ some row
    → Rotated hash client_id scopes tokens now tables row after
    → find (has_hash hash) after.tokens ≡ some (with_status rotated row)
rotated-found hash client_id scopes tokens now tables row after h done =
    subst (λ t. find (has_hash hash) t.tokens ≡ some (with_status rotated row)) (sym done.leaves)
      (find-append (has_hash hash) (update_where (is_live hash) (with_status rotated) tables.tokens)
        (token_pair row.family_id client_id row.subject scopes tokens now) (with_status rotated row)
        (find-rotated hash tables.tokens row h done.was_active))

rotate_row-reused :
    (connector_id : String) (hash : SecretHash) (client_id : String) (requested : Option ScopeSet)
    (tokens : TokenPairDraft) (now : ℕ) (tables : OAuthTables) (row : TokenRow)
    → is_refresh_of client_id now row ≡ true
    → is_active row.status ≡ false
    → rotate_row connector_id hash client_id requested tokens now tables (some row)
      ≡ (err refresh_reuse, revoke_family connector_id row.family_id tables)
rotate_row-reused connector_id hash client_id requested tokens now tables row h k = rw (h, k)

refresh-later :
    (client_id : String) (now later : ℕ) (row : TokenRow)
    → is_refresh_of client_id now row ≡ true
    → later < row.expires_at
    → is_refresh_of client_id later (with_status rotated row) ≡ true
unfolding is_refresh_of
refresh-later client_id now later row h le = ground arith

module _ (api : OAuthApi) where
  -- A refresh token that was rotated and comes back from the same client, on the tables that the
  -- rotation left and before the token runs out, with whatever scopes and new tokens, is answered
  -- with the reuse error; afterwards every token of its family, the pair that the
  -- rotation issued included, is refused to the clients of the connector at any time.
  pub rotate_refresh_token-replay :
      (connector_id : String) (token : SecretHash) (client_id : String)
      (requested : Option ScopeSet) (tokens : TokenPairDraft) (now : ℕ) (tables : OAuthTables)
      (row : TokenRow) (granted : ScopeSet) (after : OAuthTables)
      → find (has_hash (namespace_hash api connector_id token)) tables.tokens ≡ some row
      → rotate_refresh_token api connector_id token client_id requested tokens now tables
        ≡ (ok granted, after)
      → (again : Option ScopeSet) (new_tokens : TokenPairDraft) (later : ℕ) → later < row.expires_at
      → ((rotate_refresh_token api connector_id token client_id again new_tokens later after).0
          ≡ err refresh_reuse)
        × NoBearer connector_id row.family_id
            (rotate_refresh_token api connector_id token client_id again new_tokens later after).1
  unfolding rotate_refresh_token
  rotate_refresh_token-replay connector_id token client_id requested tokens now tables row granted
        after found h again new_tokens later le =
      let hash = namespace_hash api connector_id token in
      let pair = namespace_token_pair api connector_id tokens in
      let done =
        rotate_row-ok connector_id hash client_id requested pair now tables row granted after (
          subst
            (λ f.
              rotate_row connector_id hash client_id requested pair now tables f
              ≡ (ok granted, after))
            found h) in
      let new_pair = namespace_token_pair api connector_id new_tokens in
      let reused =
        ap (rotate_row connector_id hash client_id again new_pair later after)
          (rotated-found hash client_id granted pair now tables row after found done)
        ∙ rotate_row-reused connector_id hash client_id again new_pair later after
            (with_status rotated row) (refresh-later client_id now later row done.is_client le)
            refl in
      subst
        (λ (o : Outcome ScopeSet).
          (o.0 ≡ err refresh_reuse) × NoBearer connector_id row.family_id o.1)
        (sym reused)
        (
          refl,
          revoked-NoBearer connector_id row.family_id
              (revoke_family connector_id row.family_id after)
              (revoke_family-FamilyRevoked connector_id row.family_id after),
        )
