-- ===== src/OAuth/Emergency.antt =====
-- What `emergency_revoke_all` and the revocation of a session leave behind.
use run_on_mine.Prelude.{
  ℕ, ◌≡◌, ◌⊎◌, refl, String, str_eq, Bool, true, false, not, ◌&&◌, Option, none, some, List, [],
  ◌∷◌, any, filter, arith, inl, inr, Bool-cases, &&-left,
}
use run_on_mine.Prelude.Members.{In, In-of-filter}
use run_on_mine.OAuth.Tables.{
  SecretHash, OAuthApi, RegisteredClient, AuthorizationRow, PendingConsent, CodeRow, OAuthTables,
  is_client_of,
}
use run_on_mine.OAuth.Rotation.{access_grant}
use run_on_mine.OAuth.Revocation.{in_scope, is_scoped, revoke_where, emergency_revoke_all}
use run_on_mine.OAuth.Bearers.{revoke-inactive, access_grant-refused}

any-weaken :
    {A : Type 0} (p q : A → Bool) (xs : List A)
    → ((x : A) → p x ≡ true → q x ≡ true)
    → any p xs ≡ true
    → any q xs ≡ true
unfolding any
any-weaken p q [] le h = cc
any-weaken p q (x ∷ xs) le h = elim (Bool-cases (p x)) [
  | inl t ↦ ground (arith, le x t)
  | inr f ↦ ground (arith, any-weaken p q xs le (ground arith))
]

-- The store reaches every connector, or is that of the connector itself.
abbrev pub Reaches : Option String → String → Type 0
Reaches scope connector_id = (scope ≡ none) ⊎ (scope ≡ some connector_id)

scope-covers :
    (scope : Option String) (connector_id client_id : String) (c : RegisteredClient)
    → Reaches scope connector_id
    → (str_eq c.client_id client_id && str_eq c.connector_id connector_id) ≡ true
    → (str_eq c.client_id client_id && in_scope scope c) ≡ true
scope-covers scope connector_id client_id c (inl e) h =
    rw (e, &&-left (str_eq c.client_id client_id) (str_eq c.connector_id connector_id) h)
scope-covers scope connector_id client_id c (inr e) h = rw (e, h)

client-scoped :
    (scope : Option String) (connector_id client_id : String) (clients : List RegisteredClient)
    → Reaches scope connector_id
    → is_client_of connector_id clients client_id ≡ true
    → is_scoped scope clients client_id ≡ true
unfolding is_client_of is_scoped
client-scoped scope connector_id client_id clients reach h =
    any-weaken (λ c. str_eq c.client_id client_id && str_eq c.connector_id connector_id)
      (λ c. str_eq c.client_id client_id && in_scope scope c) clients
      (λ c k. scope-covers scope connector_id client_id c reach k) h

-- What was removed unless it is out of the store's reach is no connector's that the store reaches.
scoped-gone :
    {A : Type 0} (client_id : A → String) (scope : Option String) (connector_id : String)
    (clients : List RegisteredClient) (rows : List A) (row : A)
    → Reaches scope connector_id
    → In row (filter (λ r. not (is_scoped scope clients (client_id r))) rows)
    → is_client_of connector_id clients (client_id row) ≡ false
scoped-gone client_id scope connector_id clients rows row reach m =
    let kept = (In-of-filter (λ r. not (is_scoped scope clients (client_id r))) rows row m).1 in
    elim (Bool-cases (is_client_of connector_id clients (client_id row))) [
      | inl t ↦
          let covered = client-scoped scope connector_id (client_id row) clients reach t in
          ground arith
      | inr f ↦ f
    ]

module _ (api : OAuthApi) where
  -- After `emergency_revoke_all` no token of a connector that the store reaches grants access, at
  -- any time; and no pending authorization, consent or code of its clients is left.
  pub emergency_revoke_all-stops :
      (scope : Option String) (connector_id : String) (tables : OAuthTables)
      → Reaches scope connector_id
      → ((token : SecretHash) (now : ℕ)
          → access_grant api connector_id token now (emergency_revoke_all scope tables).1 ≡ none)
        × ((row : AuthorizationRow)
            → In row (emergency_revoke_all scope tables).1.authorizations
            → is_client_of connector_id tables.clients row.pending.client_id ≡ false)
        × ((row : PendingConsent)
            → In row (emergency_revoke_all scope tables).1.consents
            → is_client_of connector_id tables.clients row.client_id ≡ false)
        × ((row : CodeRow)
            → In row (emergency_revoke_all scope tables).1.codes
            → is_client_of connector_id tables.clients row.client_id ≡ false)
  unfolding emergency_revoke_all revoke_where
  emergency_revoke_all-stops scope connector_id tables reach = (
    λ token now.
        access_grant-refused api connector_id token now (emergency_revoke_all scope tables).1
          (λ row m h.
            revoke-inactive (λ r. is_scoped scope tables.clients r.client_id) tables.tokens row
              (λ r. refl) m
              (client-scoped scope connector_id row.client_id tables.clients reach h)),
    λ row.
        scoped-gone (λ (r : AuthorizationRow). r.pending.client_id) scope connector_id
          tables.clients tables.authorizations row reach,
    λ row.
        scoped-gone (λ (r : PendingConsent). r.client_id) scope connector_id tables.clients
          tables.consents row reach,
    λ row.
        scoped-gone (λ (r : CodeRow). r.client_id) scope connector_id tables.clients tables.codes
          row reach,
  )
