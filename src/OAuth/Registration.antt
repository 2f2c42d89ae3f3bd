-- ===== src/OAuth/Registration.antt =====
-- The bounds that a registration keeps.
use run_on_mine.Prelude.{
  ℕ, Result, true, ◌+◌, ◌≤◌, ◌<◌, ◌≡◌, refl, ap, ◌∙◌, subst, String, str_eq, Bool, false, not,
  Option, some, List, [], ◌∷◌, ◌++◌, filter, count_where, arith, inl, inr, Bool-cases, ok, err,
  if-elim, if◌then◌else◌, eq_iff,
}
use run_on_mine.OAuth.Tables.{
  StoreError, corrupt, database, RegistrationOutcome, RegistrationLimits, RegisteredClient,
  RegistrationAttempt, OAuthTables, has_client,
}
use run_on_mine.OAuth.Guards.{not-false}
use run_on_mine.OAuth.Tokens.{Outcome}
use run_on_mine.OAuth.Revocation.{is_stale, delete_clients, prune_expired_clients}
use run_on_mine.OAuth.Clients.{
  validate_registration_limits, of_connector, of_source, forget_attempts, at_limit, is_limited,
  after_capacity, after_limits, client_of, insert_client, register_in, register_client_limited,
}

count_where-append_one :
    {A : Type 0} (p : A → Bool) (xs : List A) (a : A)
    → count_where p (xs ++ a ∷ []) ≡ count_where p xs + (if p a then 1 else 0)
unfolding count_where
count_where-append_one p [] a = ground arith
count_where-append_one p (x ∷ xs) a = ground (arith, count_where-append_one p xs a)

count_where-filter-le :
    {A : Type 0} (p q : A → Bool) (xs : List A) → count_where p (filter q xs) ≤ count_where p xs
unfolding count_where filter
count_where-filter-le p q [] = omega arith
count_where-filter-le p q (x ∷ xs) = ground (arith, count_where-filter-le p q xs)

append_one-le :
    {A : Type 0} (p : A → Bool) (xs : List A) (a : A)
    → count_where p (xs ++ a ∷ []) ≤ count_where p xs + 1
append_one-le p xs a = ground (arith, count_where-append_one p xs a)

append_one-off :
    {A : Type 0} (p : A → Bool) (xs : List A) (a : A)
    → p a ≡ false
    → count_where p (xs ++ a ∷ []) ≡ count_where p xs
append_one-off p xs a h = ground (arith, count_where-append_one p xs a)

-- The clients of the connector and the attempts that it remembers are within the limits.
pub record WithinLimits (connector_id : String) (limits : RegistrationLimits) (tables : OAuthTables)
    : Type 0 where
  pub clients : count_where (client_of connector_id) tables.clients ≤ limits.max_clients
  pub attempts : count_where (of_connector connector_id) tables.attempts ≤ limits.global_limit
  pub per_source :
      (source : String)
      → count_where (of_source connector_id source) tables.attempts ≤ limits.per_source_limit

-- Deletions keep the bounds.
forget-WithinLimits :
    (connector_id : String) (limits : RegistrationLimits) (tables : OAuthTables)
    → WithinLimits connector_id limits tables
    → WithinLimits connector_id limits (forget_attempts limits tables)
unfolding forget_attempts
forget-WithinLimits connector_id limits tables h =
    let recent = λ (a : RegistrationAttempt). not (is_stale limits.window_seconds limits.now a) in
    record {
      clients = h.clients;
      attempts = omega (
        arith,
        h.attempts,
        count_where-filter-le (of_connector connector_id) recent tables.attempts,
      );
      per_source = λ source. omega (
        arith,
        h.per_source source,
        count_where-filter-le (of_source connector_id source) recent tables.attempts,
      );
    }

delete_clients-WithinLimits :
    (connector_id : String) (limits : RegistrationLimits) (p : RegisteredClient → Bool)
    (tables : OAuthTables)
    → WithinLimits connector_id limits tables
    → WithinLimits connector_id limits (delete_clients p tables).1
unfolding delete_clients
delete_clients-WithinLimits connector_id limits p tables h = record {
  clients = omega (
    arith,
    h.clients,
    count_where-filter-le (client_of connector_id) (λ c. not (p c)) tables.clients,
  );
  attempts = h.attempts;
  per_source = h.per_source;
}

prune-WithinLimits :
    (connector_id : String) (limits : RegistrationLimits) (scope : Option String) (now : ℕ)
    (tables : OAuthTables)
    → WithinLimits connector_id limits tables
    → WithinLimits connector_id limits (prune_expired_clients scope now tables).1
unfolding prune_expired_clients
prune-WithinLimits connector_id limits scope now tables h =
    delete_clients-WithinLimits connector_id limits _ tables h

limited-room :
    (connector_id source : String) (limits : RegistrationLimits) (tables : OAuthTables)
    → is_limited connector_id source limits tables ≡ ok false
    → (count_where (of_connector connector_id) tables.attempts < limits.global_limit)
      × (count_where (of_source connector_id source) tables.attempts < limits.per_source_limit)
unfolding is_limited
limited-room connector_id source limits tables h = ground arith

source-room :
    (connector_id source other : String) (limits : RegistrationLimits)
    (attempts : List RegistrationAttempt) (a : RegistrationAttempt)
    → a.source_key ≡ source
    → count_where (of_source connector_id source) attempts < limits.per_source_limit
    → count_where (of_source connector_id other) attempts ≤ limits.per_source_limit
    → count_where (of_source connector_id other) (attempts ++ a ∷ []) ≤ limits.per_source_limit
source-room connector_id source other limits attempts a e room bound =
    elim (Bool-cases (str_eq source other)) [
      | inl t ↦
          let same = (eq_iff source other).0 t in
          let room' =
            subst
              (λ key. count_where (of_source connector_id key) attempts < limits.per_source_limit)
              same room in
          omega (arith, room', append_one-le (of_source connector_id other) attempts a)
      | inr f ↦
          let other_key : str_eq a.source_key other ≡ false = ap (λ key. str_eq key other) e ∙ f in
          let off : of_source connector_id other a ≡ false = ground arith in
          omega (arith, bound, append_one-off (of_source connector_id other) attempts a off)
    ]

insert_client-WithinLimits :
    (connector_id : String) (client : RegisteredClient) (limits : RegistrationLimits)
    (before tables : OAuthTables)
    → is_limited connector_id client.registration_source_hash limits tables ≡ ok false
    → count_where (client_of connector_id) tables.clients < limits.max_clients
    → WithinLimits connector_id limits before
    → WithinLimits connector_id limits tables
    → WithinLimits connector_id limits (insert_client client limits before tables).1
unfolding insert_client
insert_client-WithinLimits connector_id client limits before tables free room h k =
    let (all_free, source_free) =
      limited-room connector_id client.registration_source_hash limits tables free in
    let attempt : RegistrationAttempt = record {
      connector_id = client.connector_id;
      source_key = client.registration_source_hash;
      attempted_at = limits.now;
    } in
    if-elim (λ (o : Outcome RegistrationOutcome). WithinLimits connector_id limits o.1)
      (has_client client.client_id tables) (err database, before) _ (λ _. h)
      (λ _. record {
        clients = omega (arith, room, append_one-le (client_of connector_id) tables.clients client);
        attempts =
            omega
              (arith, all_free, append_one-le (of_connector connector_id) tables.attempts attempt);
        per_source = λ source.
            source-room connector_id client.registration_source_hash source limits tables.attempts
              attempt refl source_free (k.per_source source);
      })

after_capacity-WithinLimits :
    (connector_id : String) (client : RegisteredClient) (limits : RegistrationLimits)
    (before tables : OAuthTables) (full : Result StoreError Bool)
    → (full ≡ ok false → count_where (client_of connector_id) tables.clients < limits.max_clients)
    → is_limited connector_id client.registration_source_hash limits tables ≡ ok false
    → WithinLimits connector_id limits before
    → WithinLimits connector_id limits tables
    → WithinLimits connector_id limits (after_capacity client limits before tables full).1
after_capacity-WithinLimits connector_id client limits before tables (err e) room free h k = h
after_capacity-WithinLimits connector_id client limits before tables (ok true) room free h k = k
after_capacity-WithinLimits connector_id client limits before tables (ok false) room free h k =
    insert_client-WithinLimits connector_id client limits before tables free (room refl) h k

at_limit-below : (count limit : ℕ) → at_limit count limit ≡ ok false → count < limit
at_limit-below count limit h = ground arith

register_in-WithinLimits :
    (connector_id : String) (client : RegisteredClient) (limits : RegistrationLimits)
    (before tables : OAuthTables)
    → client.connector_id ≡ connector_id
    → is_limited connector_id client.registration_source_hash limits tables ≡ ok false
    → WithinLimits connector_id limits before
    → WithinLimits connector_id limits tables
    → WithinLimits connector_id limits (register_in client limits before tables).1
unfolding register_in
register_in-WithinLimits connector_id client limits before tables same free h k =
    after_capacity-WithinLimits connector_id client limits before tables
      (at_limit (count_where (client_of client.connector_id) tables.clients) limits.max_clients)
      (λ f.
        subst (λ c. count_where (client_of c) tables.clients < limits.max_clients) same
          (at_limit-below (count_where (client_of client.connector_id) tables.clients)
            limits.max_clients f))
      free h k

-- The deletion of clients leaves the attempts.
pruned-free :
    (connector_id source : String) (limits : RegistrationLimits) (scope : Option String) (now : ℕ)
    (tables : OAuthTables)
    → is_limited connector_id source limits tables ≡ ok false
    → is_limited connector_id source limits (prune_expired_clients scope now tables).1 ≡ ok false
unfolding is_limited prune_expired_clients delete_clients
pruned-free connector_id source limits scope now tables h = h

after_limits-WithinLimits :
    (connector_id : String) (client : RegisteredClient) (limits : RegistrationLimits)
    (before recent pruned : OAuthTables) (limited : Result StoreError Bool)
    → (limited ≡ ok false
        → is_limited connector_id client.registration_source_hash limits pruned ≡ ok false)
    → client.connector_id ≡ connector_id
    → WithinLimits connector_id limits before
    → WithinLimits connector_id limits recent
    → WithinLimits connector_id limits pruned
    → WithinLimits connector_id limits (after_limits client limits before recent pruned limited).1
after_limits-WithinLimits connector_id client limits before recent pruned (err e) free same h k m =
    h
after_limits-WithinLimits connector_id client limits before recent pruned (ok true) free same h k
      m =
    k
after_limits-WithinLimits connector_id client limits before recent pruned (ok false) free same h k
      m =
    register_in-WithinLimits connector_id client limits before pruned same (free refl) h m

-- A registration, whatever it answers, keeps the connector within its limits: the clients that it
-- holds, the registrations of the last window, and those of each source.
pub register_client_limited-WithinLimits :
    (connector_id : String) (client : RegisteredClient) (limits : RegistrationLimits)
    (tables : OAuthTables)
    → WithinLimits connector_id limits tables
    → WithinLimits connector_id limits (register_client_limited connector_id client limits tables).1
unfolding register_client_limited
register_client_limited-WithinLimits connector_id client limits tables h =
    let recent = forget_attempts limits tables in
    let pruned = (prune_expired_clients (some connector_id) limits.now recent).1 in
    let recent_h = forget-WithinLimits connector_id limits tables h in
    let source = client.registration_source_hash in
    let limited = is_limited connector_id source limits recent in
    let Kept = λ (o : Outcome RegistrationOutcome). WithinLimits connector_id limits o.1 in
    let counted = after_limits client limits tables recent pruned limited in
    let named =
      if not (str_eq client.connector_id connector_id) then (err corrupt, tables) else counted in
    if-elim Kept (not (validate_registration_limits limits)) (err corrupt, tables) named (λ _. h)
      (λ _.
        if-elim Kept (not (str_eq client.connector_id connector_id)) (err corrupt, tables) counted
          (λ _. h)
          (λ same.
            after_limits-WithinLimits connector_id client limits tables recent pruned limited
              (pruned-free connector_id source limits (some connector_id) limits.now recent)
              ((eq_iff client.connector_id connector_id).0 (not-false same)) h recent_h
              (prune-WithinLimits connector_id limits (some connector_id) limits.now recent
                recent_h)))
