-- ===== src/Approval/Upserts.antt =====
-- The grant tables: what `grant_allows` answers, and what the two upserts change of it.
use run_on_mine.Prelude.{
  ℕ, ◌≡◌, ◌↔◌, refl, ap, subst, eq_iff, Bool, true, false, ◌&&◌, ◌||◌, List, [], ◌∷◌, ◌++◌, any,
  filter, update_where, arith, ltb, inl, inr, Bool-cases, if◌then◌else◌,
}
use run_on_mine.Approval.Tables.{GrantKey, key_beq, TemporaryGrant, PersistentGrantRow, StateTables}
use run_on_mine.Approval.Store.{upsert_temporary, upsert_persistent, grant_allows}

pub key_beq_iff : (a b : GrantKey) → (key_beq a b ≡ true) ↔ (a ≡ b)
unfolding key_beq
key_beq_iff a b = (
  λ h. ground (
    arith,
    eq_iff a.connector_id b.connector_id,
    eq_iff a.principal_fingerprint b.principal_fingerprint,
    eq_iff a.tool_name b.tool_name,
    eq_iff a.argument_hash b.argument_hash,
  ),
  λ e.
      subst (λ c. key_beq a c ≡ true) e
        (ground (
          arith,
          eq_iff a.connector_id a.connector_id,
          eq_iff a.principal_fingerprint a.principal_fingerprint,
          eq_iff a.tool_name a.tool_name,
          eq_iff a.argument_hash a.argument_hash,
        )),
)

abbrev pub is_live : GrantKey → ℕ → TemporaryGrant → Bool
is_live key now g = key_beq g.key key && ltb now g.expires_at

abbrev pub is_for : GrantKey → PersistentGrantRow → Bool
is_for key g = key_beq g.key key

pub any-filter :
    {A : Type 0} (p q : A → Bool) (xs : List A)
    → any (λ x. p x && q x) (filter q xs) ≡ any (λ x. p x && q x) xs
unfolding any filter
any-filter p q [] = refl
any-filter p q (x ∷ xs) = ground (arith, any-filter p q xs)

-- The answer to a call, without the deletion of what has run out.
pub grant_allows_lem :
    (key : GrantKey) (now : ℕ) (tables : StateTables)
    → (grant_allows key now tables).0
      ≡ (any (is_live key now) tables.temporary_grants || any (is_for key) tables.persistent_grants)
unfolding grant_allows
grant_allows_lem key now tables =
    ap (λ b. b || any (is_for key) tables.persistent_grants)
      (any-filter (λ g. key_beq g.key key) (λ g. ltb now g.expires_at) tables.temporary_grants)

pub any-append_one :
    {A : Type 0} (p : A → Bool) (xs : List A) (x : A) → any p (xs ++ x ∷ []) ≡ (any p xs || p x)
unfolding any
any-append_one p [] x = ground arith
any-append_one p (y ∷ ys) x = ground (arith, any-append_one p ys x)

pub live-update :
    (key : GrantKey) (now : ℕ) (grant : TemporaryGrant) (grants : List TemporaryGrant)
    → any (is_live key now) (
        update_where
          (λ g. key_beq g.key grant.key)
          (λ g. record g { expires_at = grant.expires_at })
          grants)
      ≡ (if key_beq grant.key key
          then any (λ g. key_beq g.key grant.key) grants && ltb now grant.expires_at
          else any (is_live key now) grants)
unfolding any update_where
live-update key now grant [] = ground arith
live-update key now grant (g ∷ grants) = ground (
  arith,
  live-update key now grant grants,
  key_beq_iff grant.key key,
  key_beq_iff g.key grant.key,
  key_beq_iff g.key key,
)

pub live-absent :
    (key : GrantKey) (now : ℕ) (grants : List TemporaryGrant)
    → any (λ g. key_beq g.key key) grants ≡ false
    → any (is_live key now) grants ≡ false
unfolding any
live-absent key now [] h = refl
live-absent key now (g ∷ grants) h = ground (arith, live-absent key now grants)

pub upsert-live :
    (key : GrantKey) (now : ℕ) (grant : TemporaryGrant) (grants : List TemporaryGrant)
    → any (is_live key now) (upsert_temporary grant grants)
      ≡ (if key_beq grant.key key then ltb now grant.expires_at else any (is_live key now) grants)
unfolding upsert_temporary
upsert-live key now grant grants = elim (Bool-cases (any (λ g. key_beq g.key grant.key) grants)) [
  | inl t ↦ rw (t, live-update key now grant grants, t)
  | inr f ↦
      rw (f, any-append_one)
        (ground (arith, key_beq_iff grant.key key, live-absent grant.key now grants f))
]

pub persistent-update :
    (key : GrantKey) (grant : PersistentGrantRow) (grants : List PersistentGrantRow)
    → any (is_for key) (
        update_where
          (λ g. key_beq g.key grant.key)
          (λ g. record g {
            argument_summary = grant.argument_summary;
            created_at = grant.created_at;
          })
          grants)
      ≡ any (is_for key) grants
unfolding any update_where
persistent-update key grant [] = refl
persistent-update key grant (g ∷ grants) = ground (arith, persistent-update key grant grants)

pub persistent-absent :
    (key : GrantKey) (grant : PersistentGrantRow) (grants : List PersistentGrantRow)
    → any (λ g. key_beq g.key grant.key) grants ≡ true
    → key_beq grant.key key ≡ true
    → any (is_for key) grants ≡ true
persistent-absent key grant grants h k =
    subst (λ c. any (λ g. key_beq g.key c) grants ≡ true) ((key_beq_iff grant.key key).0 k) h

pub upsert-for :
    (key : GrantKey) (grant : PersistentGrantRow) (grants : List PersistentGrantRow)
    → any (is_for key) (upsert_persistent grant grants)
      ≡ (key_beq grant.key key || any (is_for key) grants)
unfolding upsert_persistent
upsert-for key grant grants = elim (Bool-cases (any (λ g. key_beq g.key grant.key) grants)) [
  | inl t ↦
      rw (t, persistent-update key grant grants)
        (ground (arith, persistent-absent key grant grants t))
  | inr f ↦ rw (f, any-append_one) (ground arith)
]
