-- ===== src/Approval/Lifecycle.antt =====
-- The life of an approval row: it leaves `pending` at most once, and what settled it is final.
use run_on_mine.Prelude.{
  ℕ, ◌≤◌, ◌≡◌, ◌≢◌, refl, sym, ap, ◌∙◌, subst, String, Bool, true, false, Option, none, some, List,
  [], ◌∷◌, update_where, count_where, arith, inl, inr, Bool-cases, ◌==◌,
}
use run_on_mine.Prelude.Members.{In}
use run_on_mine.Approval.Principal.{
  ApprovalStatus, pending, ApprovalDecision, once, for_ten_minutes, always, deny,
}
use run_on_mine.Approval.Tables.{ApprovalRow, StateTables}
use run_on_mine.Approval.Store.{has_id, status_of, is_open, settle, grant_for, resolve_approval}

-- Tables that allow no second row of an identifier, as the primary key does.
abbrev pub HasUniqueId : String → StateTables → Type 0
HasUniqueId id tables = count_where (has_id id) tables.approvals ≤ 1

pub In-update_where :
    {A : Type 0} (p : A → Bool) (f : A → A) (xs : List A) (a : A)
    → In a xs
    → p a ≡ false
    → In a (update_where p f xs)
unfolding update_where
In-update_where p f [] a m h = m
In-update_where p f (x ∷ xs) a m h = ground (arith, In-update_where p f xs a)

pub count_where-zero :
    {A : Type 0} (p : A → Bool) (f : A → A) (xs : List A)
    → count_where p xs ≡ 0
    → update_where p f xs ≡ xs
unfolding update_where count_where
count_where-zero p f [] h = refl
count_where-zero p f (x ∷ xs) h = ground (arith, count_where-zero p f xs)

-- Rows that a decision settled are open to no later one.
count_where-settled :
    (id : String) (status : ApprovalStatus) (decision : Option ApprovalDecision) (now later : ℕ)
    (rows : List ApprovalRow)
    → status ≢ pending
    → now ≤ later
    → count_where
        (is_open id later)
        (update_where (is_open id now) (settle status now decision) rows)
      ≡ 0
unfolding update_where count_where
count_where-settled id status decision now later [] s h = refl
count_where-settled id status decision now later (row ∷ rows) s h =
    ground (arith, count_where-settled id status decision now later rows)

pub status_of-settled : (decision : ApprovalDecision) → status_of decision ≢ pending
status_of-settled once = λ h. cc
status_of-settled for_ten_minutes = λ h. cc
status_of-settled always = λ h. cc
status_of-settled deny = λ h. cc

grant_for-approvals :
    (decision : ApprovalDecision) (granted_at : ℕ) (row : Option ApprovalRow) (tables : StateTables)
    → (grant_for decision granted_at row tables).approvals ≡ tables.approvals
grant_for-approvals once t row tables = refl
grant_for-approvals for_ten_minutes t none tables = refl
grant_for-approvals for_ten_minutes t (some row) tables = refl
grant_for-approvals always t none tables = refl
grant_for-approvals always t (some row) tables = refl
grant_for-approvals deny t row tables = refl

pub resolve_approval-approvals :
    (id : String) (decision : ApprovalDecision) (now granted_at : ℕ) (tables : StateTables)
    → (resolve_approval id decision now granted_at tables).1.approvals
      ≡ update_where
          (is_open id now)
          (settle (status_of decision) now (some decision))
          tables.approvals
unfolding resolve_approval
resolve_approval-approvals id decision now granted_at tables =
    elim (Bool-cases (count_where (is_open id now) tables.approvals == 1)) [
      | inl t ↦ rw (t, grant_for-approvals)
      | inr f ↦ rw f
    ]

-- The second decision finds nothing to change.
resolve_approval-closed :
    (id : String) (decision : ApprovalDecision) (now granted_at : ℕ) (tables : StateTables)
    → count_where (is_open id now) tables.approvals ≡ 0
    → resolve_approval id decision now granted_at tables ≡ (false, tables)
unfolding resolve_approval
resolve_approval-closed id decision now granted_at tables h = rw (
  h,
  count_where-zero (is_open id now) (settle (status_of decision) now (some decision))
      tables.approvals h,
)

-- A decision that reports success is the last one: no later decision changes anything.
resolve_approval-once :
    (id : String) (decision : ApprovalDecision) (now granted_at : ℕ) (tables : StateTables)
    (after : StateTables)
    → resolve_approval id decision now granted_at tables ≡ (true, after)
    → (again : ApprovalDecision) (later granted_again : ℕ) → now ≤ later
    → resolve_approval id again later granted_again after ≡ (false, after)
resolve_approval-once id decision now granted_at tables after h again later granted_again le =
    resolve_approval-closed id again later granted_again after (
      subst (λ rows. count_where (is_open id later) rows ≡ 0)
        (sym (resolve_approval-approvals id decision now granted_at tables)
          ∙ ap (λ outcome. outcome.1.approvals) h)
        (count_where-settled id (status_of decision) (some decision) now later tables.approvals
          (status_of-settled decision) le))
