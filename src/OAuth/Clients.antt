-- ===== src/OAuth/Clients.antt =====
-- The registration and the use of clients: oauth/src/store.rs.
use run_on_mine.Prelude.{
  ℕ, Result, true, false, String, str_eq, Bool, not, ◌&&◌, ◌||◌, Option, some, [], ◌∷◌, ◌++◌,
  filter, find, update_where, count_where, leb, ltb, if◌then◌else◌, ok, err,
}
use run_on_mine.Prelude.Eq.{◌==◌, nat_eq}
use run_on_mine.Audit.Event.{i64_max}
use run_on_mine.OAuth.Tables.{
  StoreError, corrupt, database, RegistrationOutcome, registered, rate_limited, capacity_reached,
  RegistrationLimits, RegisteredClient, RegistrationAttempt, OAuthTables, has_client,
}
use run_on_mine.OAuth.Tokens.{Outcome}
use run_on_mine.OAuth.Revocation.{is_stale, prune_expired_clients}

unfoldable pub validate_registration_limits : RegistrationLimits → Bool
validate_registration_limits limits = not (
    limits.window_seconds == 0
    || limits.per_source_limit == 0
    || limits.global_limit == 0
    || limits.max_clients == 0
    || ltb limits.global_limit limits.per_source_limit)

abbrev pub of_connector : String → RegistrationAttempt → Bool
of_connector connector_id attempt = str_eq attempt.connector_id connector_id

abbrev pub of_source : String → String → RegistrationAttempt → Bool
of_source connector_id source_key attempt =
    str_eq attempt.connector_id connector_id && str_eq attempt.source_key source_key

-- The attempts of the last window.
unfoldable pub forget_attempts : RegistrationLimits → OAuthTables → OAuthTables
unfolding filter
forget_attempts limits tables = record tables {
  attempts = filter (λ a. not (is_stale limits.window_seconds limits.now a)) tables.attempts;
}

-- `count >= limit_as_i64(limit)?`
abbrev pub at_limit : ℕ → ℕ → Result StoreError Bool
at_limit count limit = if ltb i64_max limit then err corrupt else ok (leb limit count)

-- `||`, behind `?`
abbrev pub or_else : Result StoreError Bool → Result StoreError Bool → Result StoreError Bool
or_else (err e) other = err e
or_else (ok true) other = ok true
or_else (ok false) other = other

-- Whether the attempts of the window reach a limit.
unfoldable pub is_limited :
    String → String → RegistrationLimits → OAuthTables → Result StoreError Bool
unfolding count_where
is_limited connector_id source_key limits tables =
    or_else (at_limit (count_where (of_connector connector_id) tables.attempts) limits.global_limit)
      (at_limit (count_where (of_source connector_id source_key) tables.attempts)
        limits.per_source_limit)

abbrev pub client_of : String → RegisteredClient → Bool
client_of connector_id client = str_eq client.connector_id connector_id

-- The two inserts; an identifier that another client has violates the primary key.
unfoldable pub insert_client :
    RegisteredClient → RegistrationLimits → OAuthTables → OAuthTables → Outcome RegistrationOutcome
unfolding has_client
insert_client client limits before tables =
    if has_client client.client_id tables then (err database, before) else (
      ok registered,
      record tables {
        attempts =
            tables.attempts
            ++ (record {
              connector_id = client.connector_id;
              source_key = client.registration_source_hash;
              attempted_at = limits.now;
            })
              ∷ [];
        clients = tables.clients ++ client ∷ [];
      },
    )

abbrev pub after_capacity :
    RegisteredClient
    → RegistrationLimits
    → OAuthTables
    → OAuthTables
    → Result StoreError Bool
    → Outcome RegistrationOutcome
after_capacity client limits before tables (err e) = (err e, before)
after_capacity client limits before tables (ok true) = (ok capacity_reached, tables)
after_capacity client limits before tables (ok false) = insert_client client limits before tables

unfoldable pub register_in :
    RegisteredClient → RegistrationLimits → OAuthTables → OAuthTables → Outcome RegistrationOutcome
unfolding insert_client count_where
register_in client limits before tables =
    after_capacity client limits before tables
      (at_limit (count_where (client_of client.connector_id) tables.clients) limits.max_clients)

-- The rest of the transaction, which an error rolls back.
abbrev pub after_limits :
    RegisteredClient
    → RegistrationLimits
    → (before recent pruned : OAuthTables) → Result StoreError Bool
    → Outcome RegistrationOutcome
after_limits client limits before recent pruned (err e) = (err e, before)
after_limits client limits before recent pruned (ok true) = (ok rate_limited, recent)
after_limits client limits before recent pruned (ok false) = register_in client limits before pruned

unfoldable pub register_client_limited :
    String → RegisteredClient → RegistrationLimits → OAuthTables → Outcome RegistrationOutcome
unfolding register_in forget_attempts is_limited prune_expired_clients
register_client_limited connector_id client limits tables =
    if not (validate_registration_limits limits)
    then (err corrupt, tables)
    else if not (str_eq client.connector_id connector_id)
    then (err corrupt, tables)
    else let recent = forget_attempts limits tables in
      after_limits client limits tables recent
        (prune_expired_clients (some connector_id) limits.now recent).1
        (is_limited connector_id client.registration_source_hash limits recent)

-- `now` is the clock that the job reads.
unfoldable pub client_connection :
    String → String → ℕ → OAuthTables → Option RegisteredClient × OAuthTables
unfolding find prune_expired_clients
client_connection connector_id client_id now tables =
    let pruned = (prune_expired_clients (some connector_id) now tables).1 in
    (
      find
          (λ c.
            str_eq c.connector_id connector_id
            && str_eq c.client_id client_id
            && ltb now c.expires_at)
          pruned.clients,
      pruned,
    )

abbrev pub is_touched : String → String → ℕ → RegisteredClient → Bool
is_touched connector_id client_id now client =
    str_eq client.connector_id connector_id
    && str_eq client.client_id client_id
    && ltb now client.expires_at

abbrev pub touched : ℕ → ℕ → RegisteredClient → RegisteredClient
touched now expires_at client = record client {
  last_used_at = some now;
  expires_at = if ltb client.expires_at expires_at then expires_at else client.expires_at;
}

-- A client in use lives at least until `expires_at`.
unfoldable pub touch_client : String → String → ℕ → ℕ → OAuthTables → Bool × OAuthTables
unfolding update_where count_where
touch_client connector_id client_id now expires_at tables = (
  count_where (is_touched connector_id client_id now) tables.clients == 1,
  record tables {
    clients =
        update_where (is_touched connector_id client_id now) (touched now expires_at)
          tables.clients;
  },
)
