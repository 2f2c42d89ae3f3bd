-- ===== src/OAuth/Bearers.antt =====
-- Which tokens grant access, and that revocations take the access away.
use run_on_mine.Prelude.{
  ℕ, ◌≡◌, ◌≢◌, ◌<◌, sym, str_eq, any, some-injective, refl, ap, ◌∙◌, String, Bool, true, false,
  ◌&&◌, Option, none, some, List, [], ◌∷◌, find, update_where, arith, inl, inr, Bool-cases,
}
use run_on_mine.Prelude.Eq.{nat_eq, string_eq}
use run_on_mine.Prelude.Seq.{list_beq_iff}
use run_on_mine.Prelude.Members.{In, find-In}
use run_on_mine.OAuth.Tables.{
  SecretHash, OAuthApi, RegisteredClient, TokenKind, TokenStatus, access, refresh, active, rotated,
  is_access, TokenRow, AccessGrant, OAuthTables, is_active, is_client_of, revoked, namespace_hash,
}
use run_on_mine.OAuth.Tokens.{with_status}
use run_on_mine.OAuth.Rotation.{is_bearer, access_of, access_grant}

find-head : {A : Type 0} (p : A → Bool) (x : A) (xs : List A) → find p (x ∷ xs) ≡ none → p x ≡ false
unfolding find
find-head p x xs h = ground arith

find-tail :
    {A : Type 0} (p : A → Bool) (x : A) (xs : List A) → find p (x ∷ xs) ≡ none → find p xs ≡ none
unfolding find
find-tail p x xs h = ground arith

pub find-none :
    {A : Type 0} (p : A → Bool) (xs : List A) → find p xs ≡ none → (a : A) → In a xs → p a ≡ false
unfolding find
find-none p [] h a m = absurd m
find-none p (x ∷ xs) h a (inl e) = ap p e ∙ find-head p x xs h
find-none p (x ∷ xs) h a (inr m) = find-none p xs (find-tail p x xs h) a m

pub all-find-none :
    {A : Type 0} (p : A → Bool) (xs : List A) → ((a : A) → In a xs → p a ≡ false) → find p xs ≡ none
unfolding find
all-find-none p [] h = refl
all-find-none p (x ∷ xs) h = rw (h x (inl refl), all-find-none p xs (λ a m. h a (inr m)))

access_of-some :
    (found : Option TokenRow) (grant : AccessGrant)
    → access_of found ≡ some grant
    → (row : TokenRow) × (found ≡ some row) × (access_of (some row) ≡ some grant)
access_of-some none grant h = cc
access_of-some (some row) grant h = (row, refl, h)

access_of-none : (found : Option TokenRow) → access_of found ≡ none → found ≡ none
access_of-none none h = refl
access_of-none (some row) h = cc

not-both : {b : Bool} → b ≡ true → b ≡ false → ⊥
not-both h k = ground arith

-- Rows that a revocation selects are active no longer.
pub revoke-inactive :
    (p : TokenRow → Bool) (rows : List TokenRow) (row : TokenRow)
    → ((r : TokenRow) → p (with_status revoked r) ≡ p r)
    → In row (update_where (λ r. p r && is_active r.status) (with_status revoked) rows)
    → p row ≡ true
    → is_active row.status ≡ false
unfolding update_where
revoke-inactive p [] row keeps m h = absurd m
revoke-inactive p (r ∷ rows) row keeps (inr m) h = revoke-inactive p rows row keeps m h
revoke-inactive p (r ∷ rows) row keeps (inl e) h = elim (Bool-cases (p r && is_active r.status)) [
  | inl t ↦ let same : row ≡ with_status revoked r = e ∙ rw t in ap (λ x. is_active x.status) same
  | inr f ↦
      let same : row ≡ r = e ∙ rw f in ground (arith, ap p same, ap (λ x. is_active x.status) same)
]

bearer-active :
    (connector_id : String) (hash : SecretHash) (now : ℕ) (tables : OAuthTables) (row : TokenRow)
    → is_active row.status ≡ false
    → is_bearer connector_id hash now tables row ≡ false
unfolding is_bearer
bearer-active connector_id hash now tables row h = ground arith

bearer-client :
    (connector_id : String) (hash : SecretHash) (now : ℕ) (tables : OAuthTables) (row : TokenRow)
    → is_client_of connector_id tables.clients row.client_id ≡ false
    → is_bearer connector_id hash now tables row ≡ false
unfolding is_bearer
bearer-client connector_id hash now tables row h = ground arith

-- A row that bears a hash: of an access token, active and unexpired, whose client is registered for
-- the connector.
pub record Bears (connector_id : String) (hash : SecretHash) (now : ℕ) (tables : OAuthTables)
    (row : TokenRow) : Type 0 where
  pub stored : row.token_hash ≡ hash
  pub kind : row.kind ≡ access
  pub status : row.status ≡ active
  pub unexpired : now < row.expires_at
  pub client :
      (c : RegisteredClient) × In c tables.clients
      × (c.client_id ≡ row.client_id)
      × (c.connector_id ≡ connector_id)

is_access→access : (kind : TokenKind) → is_access kind ≡ true → kind ≡ access
is_access→access access h = refl
is_access→access refresh h = cc

is_active→active : (status : TokenStatus) → is_active status ≡ true → status ≡ active
is_active→active active h = refl
is_active→active rotated h = cc
is_active→active revoked h = cc

names→client :
    (connector_id client_id : String) (c : RegisteredClient)
    → (str_eq c.client_id client_id && str_eq c.connector_id connector_id) ≡ true
    → (c.client_id ≡ client_id) × (c.connector_id ≡ connector_id)
names→client connector_id client_id c h = (
  (string_eq.beq_iff c.client_id client_id).0 (ground arith),
  (string_eq.beq_iff c.connector_id connector_id).0 (ground arith),
)

is_client_of→client :
    (connector_id client_id : String) (clients : List RegisteredClient)
    → is_client_of connector_id clients client_id ≡ true
    → (c : RegisteredClient) × In c clients
      × (c.client_id ≡ client_id)
      × (c.connector_id ≡ connector_id)
unfolding is_client_of any
is_client_of→client connector_id client_id [] h = cc
is_client_of→client connector_id client_id (c ∷ clients) h =
    elim (Bool-cases (str_eq c.client_id client_id && str_eq c.connector_id connector_id)) [
      | inl t ↦
          let (same_id, same_connector) = names→client connector_id client_id c t in
          (c, inl refl, same_id, same_connector)
      | inr f ↦
          let (found, member, same_id, same_connector) =
            is_client_of→client connector_id client_id clients (ground arith) in
          (found, inr member, same_id, same_connector)
    ]

client→is_client_of :
    (connector_id client_id : String) (clients : List RegisteredClient) (c : RegisteredClient)
    → In c clients
    → c.client_id ≡ client_id
    → c.connector_id ≡ connector_id
    → is_client_of connector_id clients client_id ≡ true
unfolding is_client_of any
client→is_client_of connector_id client_id [] c m e k = absurd m
client→is_client_of connector_id client_id (d ∷ clients) c (inl same) e k =
    let a =
      (string_eq.beq_iff d.client_id client_id).1
        (ap (λ (x : RegisteredClient). x.client_id) (sym same) ∙ e) in
    let b =
      (string_eq.beq_iff d.connector_id connector_id).1
        (ap (λ (x : RegisteredClient). x.connector_id) (sym same) ∙ k) in
    ground arith
client→is_client_of connector_id client_id (d ∷ clients) c (inr m) e k =
    let later = client→is_client_of connector_id client_id clients c m e k in ground arith

is_bearer→Bears :
    (connector_id : String) (hash : SecretHash) (now : ℕ) (tables : OAuthTables) (row : TokenRow)
    → is_bearer connector_id hash now tables row ≡ true
    → Bears connector_id hash now tables row
unfolding is_bearer
is_bearer→Bears connector_id hash now tables row h = record {
  stored = (list_beq_iff row.token_hash hash).0 (ground arith);
  kind = is_access→access row.kind (ground arith);
  status = is_active→active row.status (ground arith);
  unexpired = ground arith;
  client = is_client_of→client connector_id row.client_id tables.clients (ground arith);
}

Bears→is_bearer :
    (connector_id : String) (hash : SecretHash) (now : ℕ) (tables : OAuthTables) (row : TokenRow)
    → Bears connector_id hash now tables row
    → is_bearer connector_id hash now tables row ≡ true
unfolding is_bearer
Bears→is_bearer connector_id hash now tables row b =
    let (c, member, same_id, same_connector) = b.client in
    let same = (list_beq_iff row.token_hash hash).1 b.stored in
    let kind : is_access row.kind ≡ true = ap is_access b.kind in
    let live : is_active row.status ≡ true = ap is_active b.status in
    let open_till = b.unexpired in
    let client =
      client→is_client_of connector_id row.client_id tables.clients c member same_id
        same_connector in
    ground arith

module _ (api : OAuthApi) where
  -- The grant of a token is the one of a row that `is_bearer` selects, and there is none only if it
  -- selects no row.
  pub access_grant-is_bearer :
      (connector_id : String) (token : SecretHash) (now : ℕ) (tables : OAuthTables)
      → ((grant : AccessGrant)
          → access_grant api connector_id token now tables ≡ some grant
          → (row : TokenRow) × In row tables.tokens
            × (is_bearer connector_id (namespace_hash api connector_id token) now tables row ≡ true)
            × (access_of (some row) ≡ some grant))
        × (access_grant api connector_id token now tables ≡ none
            → (row : TokenRow) → In row tables.tokens
            → is_bearer connector_id (namespace_hash api connector_id token) now tables row ≡ false)
  unfolding access_grant
  access_grant-is_bearer connector_id token now tables =
      let bears = is_bearer connector_id (namespace_hash api connector_id token) now tables in
      (
        λ grant h.
            let (row, found, same) = access_of-some (find bears tables.tokens) grant h in
            let (member, borne) = find-In bears tables.tokens row found in
            (row, member, borne, same),
        λ h. find-none bears tables.tokens (access_of-none (find bears tables.tokens) h),
      )

  -- A token gives a grant exactly if some row bears its hash: an access token, active and unexpired,
  -- of a client that is registered for the connector. The grant names that row's client and
  -- subject, its scopes and its expiry.
  pub access_grant-bearer :
      (connector_id : String) (token : SecretHash) (now : ℕ) (tables : OAuthTables)
      → ((grant : AccessGrant)
          → access_grant api connector_id token now tables ≡ some grant
          → (row : TokenRow) × In row tables.tokens
            × Bears connector_id (namespace_hash api connector_id token) now tables row
            × (grant.client_id ≡ row.client_id)
            × (grant.subject ≡ row.subject)
            × (grant.scopes ≡ row.scopes)
            × (grant.expires_at ≡ row.expires_at))
        × ((row : TokenRow)
            → In row tables.tokens
            → Bears connector_id (namespace_hash api connector_id token) now tables row
            → access_grant api connector_id token now tables ≢ none)
  access_grant-bearer connector_id token now tables =
      let (grants, refuses) = access_grant-is_bearer connector_id token now tables in
      let hash = namespace_hash api connector_id token in
      (
        λ grant h.
            let (row, member, borne, same) = grants grant h in
            let of_row = some-injective _ grant same in
            (
              row,
              member,
              is_bearer→Bears connector_id hash now tables row borne,
              ap (λ (g : AccessGrant). g.client_id) (sym of_row),
              ap (λ (g : AccessGrant). g.subject) (sym of_row),
              ap (λ (g : AccessGrant). g.scopes) (sym of_row),
              ap (λ (g : AccessGrant). g.expires_at) (sym of_row),
            ),
        λ row member b h.
            not-both (Bears→is_bearer connector_id hash now tables row b) (refuses h row member),
      )

  -- A connector whose every token is inactive or another connector's grants nothing.
  pub access_grant-refused :
      (connector_id : String) (token : SecretHash) (now : ℕ) (tables : OAuthTables)
      → ((row : TokenRow)
          → In row tables.tokens
          → is_client_of connector_id tables.clients row.client_id ≡ true
          → is_active row.status ≡ false)
      → access_grant api connector_id token now tables ≡ none
  unfolding access_grant
  access_grant-refused connector_id token now tables h =
      let hash = namespace_hash api connector_id token in
      ap access_of (
        all-find-none (is_bearer connector_id hash now tables) tables.tokens (λ row m.
          elim (Bool-cases (is_client_of connector_id tables.clients row.client_id)) [
            | inl t ↦ bearer-active connector_id hash now tables row (h row m t)
            | inr f ↦ bearer-client connector_id hash now tables row f
          ]))
