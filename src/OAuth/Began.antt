-- ===== src/OAuth/Began.antt =====
-- What a pending authorization was asked for: no more than the client registered.
use run_on_mine.Prelude.{
  ℕ, ◌+◌, ◌≡◌, refl, sym, ap, String, str_eq, Bool, true, false, not, ◌&&◌, ◌||◌, Option, none,
  some, [], ◌∷◌, ◌++◌, any, ltb, ok, err, arith, if◌then◌else◌,
}
use run_on_mine.Prelude.Members.{In, find-In, In-of-filter}
use run_on_mine.OAuth.Tables.{
  ScopeSet, OAuthApi, RegisteredClient, PendingAuthorization, AuthorizationRow, OAuthTables,
  has_client, has_state, database, namespace_hash,
}
use run_on_mine.OAuth.Scopes.{parse, is_subset}
use run_on_mine.OAuth.Revocation.{prune_expired_clients, delete_clients}
use run_on_mine.OAuth.Clients.{client_connection, touch_client}
use run_on_mine.OAuth.Authorizations.{put_authorization}
use run_on_mine.OAuth.Guards.{guard-ok, not-false}
use run_on_mine.OAuth.Hashing.{
  OAuthErrorCode, invalid_request, invalid_scope, ServiceApi, hash, github_state,
}
use run_on_mine.OAuth.Requests.{
  OAuthService, Reply, AuthorizationRequest, other_resource, active_client_ttl,
  authorization_transaction_ttl,
}
use run_on_mine.OAuth.Decided.{stored-ok, past}
use run_on_mine.OAuth.Consenting.{
  is_empty, store_pending, after_touch, with_scopes, with_client, is_malformed, begin_authorization,
}

put_authorization-ok :
    (api : OAuthApi) (connector_id : String) (pending : PendingAuthorization)
    (tables after : OAuthTables) (done : Unit {0})
    → put_authorization api connector_id pending tables ≡ (ok done, after)
    → after.authorizations
      ≡ tables.authorizations
        ++ (record {
          pending = record pending {
            provider_state_hash = namespace_hash api connector_id pending.provider_state_hash;
          };
          provider_code_hash = none;
          claim_id = none;
          claim_expires_at = none;
        })
          ∷ []
unfolding put_authorization
put_authorization-ok api connector_id pending tables after done h =
    let digest = namespace_hash api connector_id pending.provider_state_hash in
    let (_, rest) =
      guard-ok
        (not (has_client pending.client_id tables) || any (has_state digest) tables.authorizations)
        database tables _ done after h in
    sym (ap (λ o. o.1.authorizations) rest)

delete_clients-In :
    (p : RegisteredClient → Bool) (tables : OAuthTables) (c : RegisteredClient)
    → In c (delete_clients p tables).1.clients
    → In c tables.clients
unfolding delete_clients
delete_clients-In p tables c m = (In-of-filter (λ x. not (p x)) tables.clients c m).0

prune_expired_clients-In :
    (scope : Option String) (now : ℕ) (tables : OAuthTables) (c : RegisteredClient)
    → In c (prune_expired_clients scope now tables).1.clients
    → In c tables.clients
unfolding prune_expired_clients
prune_expired_clients-In scope now tables c m = delete_clients-In _ tables c m

abbrev is_found : String → String → ℕ → RegisteredClient → Bool
is_found connector_id client_id now c =
    str_eq c.connector_id connector_id && str_eq c.client_id client_id && ltb now c.expires_at

found-fields :
    (connector_id client_id : String) (now : ℕ) (c : RegisteredClient)
    → is_found connector_id client_id now c ≡ true
    → (str_eq c.connector_id connector_id ≡ true)
      × (str_eq c.client_id client_id ≡ true)
      × (ltb now c.expires_at ≡ true)
found-fields connector_id client_id now c h = ground arith

client_connection-found :
    (connector_id client_id : String) (now : ℕ) (tables : OAuthTables) (c : RegisteredClient)
    → (client_connection connector_id client_id now tables).0 ≡ some c
    → In c tables.clients
      × (str_eq c.connector_id connector_id ≡ true)
      × (str_eq c.client_id client_id ≡ true)
      × (ltb now c.expires_at ≡ true)
unfolding client_connection
client_connection-found connector_id client_id now tables c h =
    let (member, found) =
      find-In (is_found connector_id client_id now)
        (prune_expired_clients (some connector_id) now tables).1.clients c h in
    let (of_connector, named, fresh) = found-fields connector_id client_id now c found in
    (prune_expired_clients-In (some connector_id) now tables c member, of_connector, named, fresh)

was :
    (b : Bool) (e : OAuthErrorCode) (before : OAuthTables) (rest : Reply String) (reply : String)
    (after : OAuthTables)
    → ◌≡◌ {A = Reply String} (if b then (err e, before) else rest) (ok reply, after)
    → b ≡ false
was true e before rest reply after h = cc
was false e before rest reply after h = refl

module _ (api : ServiceApi) (self : OAuthService) where
  -- The row that a request for these scopes stores.
  abbrev pub asked_row : AuthorizationRequest → ScopeSet → String → ℕ → AuthorizationRow
  asked_row request scopes provider_state stored_at = record {
    pending = record {
      provider_state_hash =
          namespace_hash api.store self.connector_id
            (hash api self.key github_state provider_state);
      client_id = request.client_id;
      redirect_uri = request.redirect_uri;
      client_state = request.state;
      scopes = scopes;
      code_challenge = request.code_challenge;
      expires_at = stored_at + authorization_transaction_ttl;
    };
    provider_code_hash = none;
    claim_id = none;
    claim_expires_at = none;
  }

  -- The client allows the redirect and the scopes, and one row was added for them.
  pub record Asked (request : AuthorizationRequest) (client : RegisteredClient) (stored_at : ℕ)
      (before after : OAuthTables) : Type 0 where
    pub redirects : any (λ uri. str_eq uri request.redirect_uri) client.redirect_uris ≡ true
    pub scopes : ScopeSet
    pub requested : parse (api.store.as_bytes request.scope) ≡ some scopes
    pub some_scope : is_empty scopes ≡ false
    pub registered : is_subset scopes client.scopes ≡ true
    pub provider_state : String
    pub stores :
        after.authorizations
        ≡ before.authorizations ++ asked_row request scopes provider_state stored_at ∷ []

  store_pending-ok :
      (request : AuthorizationRequest) (scopes : ScopeSet) (secret : Option String) (stored_at : ℕ)
      (tables : OAuthTables) (reply : String) (after : OAuthTables)
      → store_pending api self request scopes secret stored_at tables ≡ (ok reply, after)
      → (provider_state : String) × (after.authorizations
          ≡ tables.authorizations ++ asked_row request scopes provider_state stored_at ∷ [])
  store_pending-ok request scopes none stored_at tables reply after h = cc
  store_pending-ok request scopes (some provider_state) stored_at tables reply after h =
      let (done, put) = stored-ok api self _ _ reply after h in
      (provider_state, put_authorization-ok api.store self.connector_id _ tables after done put)

  after_touch-ok :
      (request : AuthorizationRequest) (scopes : ScopeSet) (secret : Option String) (stored_at : ℕ)
      (touched : Bool × OAuthTables) (reply : String) (after : OAuthTables)
      → after_touch api self request scopes secret stored_at touched ≡ (ok reply, after)
      → (provider_state : String) × (after.authorizations
          ≡ touched.1.authorizations ++ asked_row request scopes provider_state stored_at ∷ [])
  after_touch-ok request scopes secret stored_at (false, tables) reply after h = cc
  after_touch-ok request scopes secret stored_at (true, tables) reply after h =
      store_pending-ok request scopes secret stored_at tables reply after h

  with_scopes-ok :
      (request : AuthorizationRequest) (client : RegisteredClient) (secret : Option String)
      (now stored_at : ℕ) (tables : OAuthTables) (scopes : Option ScopeSet) (reply : String)
      (after : OAuthTables)
      → parse (api.store.as_bytes request.scope) ≡ scopes
      → any (λ uri. str_eq uri request.redirect_uri) client.redirect_uris ≡ true
      → with_scopes api self request client secret now stored_at tables scopes ≡ (ok reply, after)
      → Asked request client stored_at tables after
  unfolding touch_client
  with_scopes-ok request client secret now stored_at tables none reply after p r h = cc
  with_scopes-ok request client secret now stored_at tables (some scopes) reply after p r h =
      let touched =
        touch_client self.connector_id request.client_id now (now + active_client_ttl) tables in
      let refused = is_empty scopes || not (is_subset scopes client.scopes) in
      let rest =
        past refused invalid_scope tables
          (after_touch api self request scopes secret stored_at touched) reply after h in
      let held =
        was refused invalid_scope tables
          (after_touch api self request scopes secret stored_at touched) reply after h in
      let (provider_state, stores) =
        after_touch-ok request scopes secret stored_at touched reply after rest in
      record {
        redirects = r;
        scopes = scopes;
        requested = p;
        some_scope = ground arith;
        registered = ground arith;
        provider_state = provider_state;
        stores = stores;
      }

  with_client-ok :
      (request : AuthorizationRequest) (secret : Option String) (now stored_at : ℕ)
      (found : Option RegisteredClient × OAuthTables) (reply : String) (after : OAuthTables)
      → with_client api self request secret now stored_at found ≡ (ok reply, after)
      → (client : RegisteredClient) × (found.0 ≡ some client)
        × Asked request client stored_at found.1 after
  with_client-ok request secret now stored_at (none, tables) reply after h = cc
  with_client-ok request secret now stored_at (some client, tables) reply after h =
      let unknown = not (any (λ uri. str_eq uri request.redirect_uri) client.redirect_uris) in
      let next =
        with_scopes api self request client secret now stored_at tables
          (parse (api.store.as_bytes request.scope)) in
      let rest = past unknown invalid_request tables next reply after h in
      let held = was unknown invalid_request tables next reply after h in
      (
        client,
        refl,
        with_scopes-ok request client secret now stored_at tables
            (parse (api.store.as_bytes request.scope)) reply after refl (not-false held) rest,
      )

  -- An authorization that begins is for a registered client of the connector that has not expired
  -- and allows the redirect; the scopes that it asks for are some and each is one that the client
  -- registered; one pending row is added for them, which is unclaimed.
  pub begin_authorization-Asked :
      (request : AuthorizationRequest) (secret : Option String) (read_at now stored_at : ℕ)
      (tables : OAuthTables) (reply : String) (after : OAuthTables)
      → begin_authorization api self request secret read_at now stored_at tables ≡ (ok reply, after)
      → (client : RegisteredClient) × In client tables.clients
        × (str_eq client.connector_id self.connector_id ≡ true)
        × (str_eq client.client_id request.client_id ≡ true)
        × (ltb read_at client.expires_at ≡ true)
        × Asked request client stored_at
            (client_connection self.connector_id request.client_id read_at tables).1
            after
  unfolding begin_authorization
  begin_authorization-Asked request secret read_at now stored_at tables reply after h =
      let looked = client_connection self.connector_id request.client_id read_at tables in
      let next = with_client api self request secret now stored_at looked in
      let foreign = other_resource request.resource self.protected_resource in
      let well_formed =
        past (is_malformed api self request) invalid_request tables
          (if foreign then (err invalid_request, tables) else next) reply after h in
      let (client, found, asked) =
        with_client-ok request secret now stored_at looked reply after
          (past foreign invalid_request tables next reply after well_formed) in
      let (member, of_connector, named, fresh) =
        client_connection-found self.connector_id request.client_id read_at tables client found in
      (client, member, of_connector, named, fresh, asked)
