-- ===== src/Approval/Grants.antt =====
-- What a decision grants: `grant_allows` after `resolve_approval`, for every key and every clock.
use run_on_mine.Prelude.{
  ℕ, ◌+◌, ◌≡◌, refl, sym, ap, ◌∙◌, subst, String, str_eq, Bool, true, false, ◌||◌, Option, some,
  List, [], ◌∷◌, any, find, update_where, count_where, arith, ltb, ◌==◌, inl, inr, Bool-cases,
  if◌then◌else◌,
}
use run_on_mine.Approval.Principal.{
  ApprovalStatus, denied, ApprovalDecision, once, for_ten_minutes, always, deny,
}
use run_on_mine.Approval.Tables.{GrantKey, key_beq, ApprovalRow, StateTables, ten_minutes}
use run_on_mine.Approval.Store.{
  is_pending, find_row, is_open, settle, status_of, grant_for, resolve_approval, grant_allows,
  emergency_lock,
}
use run_on_mine.Approval.Upserts.{is_live, is_for, grant_allows_lem, upsert-live, upsert-for}

-- What the update makes of one row keeps its identifier and its key.
update-keeps :
    (changed : Bool) (status : ApprovalStatus) (now : ℕ) (decision : Option ApprovalDecision)
    (row : ApprovalRow)
    → ((if changed then settle status now decision row else row).id ≡ row.id)
      × ((if changed then settle status now decision row else row).key ≡ row.key)
update-keeps true status now decision row = (refl, refl)
update-keeps false status now decision row = (refl, refl)

find_row-here :
    (id : String) (r : ApprovalRow) (rows : List ApprovalRow) (row : ApprovalRow)
    → find_row id (r ∷ rows) ≡ some row
    → str_eq r.id id ≡ true
    → r ≡ row
unfolding find_row find
find_row-here id r rows row h t = ground arith

find_row-later :
    (id : String) (r : ApprovalRow) (rows : List ApprovalRow) (row : ApprovalRow)
    → find_row id (r ∷ rows) ≡ some row
    → str_eq r.id id ≡ false
    → find_row id rows ≡ some row
unfolding find_row find
find_row-later id r rows row h f = ground arith

find_row-update_where :
    (id : String) (now : ℕ) (status : ApprovalStatus) (decision : Option ApprovalDecision)
    (rows : List ApprovalRow) (row : ApprovalRow)
    → find_row id rows ≡ some row
    → (found : ApprovalRow) × (find_row id
          (update_where (is_open id now) (settle status now decision) rows)
        ≡ some found)
      × (found.key ≡ row.key)
unfolding find_row find update_where
find_row-update_where id now status decision [] row h = cc
find_row-update_where id now status decision (r ∷ rows) row h =
    let (same_id, same_key) = update-keeps (is_open id now r) status now decision r in
    elim (Bool-cases (str_eq r.id id)) [
      | inl t ↦ (
        (if is_open id now r then settle status now decision r else r),
        rw (same_id, t),
        same_key ∙ ap (λ x. x.key) (find_row-here id r rows row h t),
      )
      | inr f ↦
          rw (same_id, f)
            (find_row-update_where id now status decision rows row
              (find_row-later id r rows row h f))
    ]

-- What a settled row with the key `granted` lets a call with the key `key` do at `now`.
abbrev pub answer_after : ApprovalDecision → GrantKey → ℕ → GrantKey → ℕ → StateTables → Bool
answer_after for_ten_minutes granted granted_at key now tables =
    (if key_beq granted key
      then ltb now (granted_at + ten_minutes)
      else any (is_live key now) tables.temporary_grants)
    || any (is_for key) tables.persistent_grants
answer_after always granted granted_at key now tables =
    any (is_live key now) tables.temporary_grants
    || (key_beq granted key || any (is_for key) tables.persistent_grants)
answer_after _ granted granted_at key now tables =
    any (is_live key now) tables.temporary_grants || any (is_for key) tables.persistent_grants

grant_for-answer :
    (decision : ApprovalDecision) (granted_at : ℕ) (row : ApprovalRow) (tables : StateTables)
    (key : GrantKey) (now : ℕ)
    → (grant_allows key now (grant_for decision granted_at (some row) tables)).0
      ≡ answer_after decision row.key granted_at key now tables
grant_for-answer once t row tables key now = grant_allows_lem key now tables
grant_for-answer for_ten_minutes t row tables key now =
    grant_allows_lem key now (grant_for for_ten_minutes t (some row) tables) ∙ rw upsert-live
grant_for-answer always t row tables key now =
    grant_allows_lem key now (grant_for always t (some row) tables) ∙ rw upsert-for
grant_for-answer deny t row tables key now = grant_allows_lem key now tables

grant_for-grants :
    (decision : ApprovalDecision) (granted_at : ℕ) (row : ApprovalRow) (tables : StateTables)
    (key : GrantKey) (rows : List ApprovalRow) (now : ℕ)
    → answer_after decision row.key granted_at key now (record tables { approvals = rows })
      ≡ answer_after decision row.key granted_at key now tables
grant_for-grants once t row tables key rows now = refl
grant_for-grants for_ten_minutes t row tables key rows now = refl
grant_for-grants always t row tables key rows now = refl
grant_for-grants deny t row tables key rows now = refl

true-branch :
    (b : Bool) (x y after : StateTables)
    → ◌≡◌ {A = Bool × StateTables} (if b then (true, x) else (false, y)) (true, after)
    → after ≡ x
true-branch true x y after h = sym (ap (λ o. o.1) h)
true-branch false x y after h = cc

success-grants :
    (id : String) (decision : ApprovalDecision) (now granted_at : ℕ) (tables after : StateTables)
    (found : ApprovalRow)
    → resolve_approval id decision now granted_at tables ≡ (true, after)
    → find_row id (
        update_where
          (is_open id now)
          (settle (status_of decision) now (some decision))
          tables.approvals)
      ≡ some found
    → after
      ≡ grant_for decision granted_at (some found) (record tables {
        approvals =
            update_where
              (is_open id now)
              (settle (status_of decision) now (some decision))
              tables.approvals;
      })
unfolding resolve_approval
success-grants id decision now granted_at tables after found h f =
    let settled = record tables {
      approvals =
          update_where (is_open id now) (settle (status_of decision) now (some decision))
            tables.approvals;
    } in
    true-branch (count_where (is_open id now) tables.approvals == 1)
      (grant_for decision granted_at (find_row id settled.approvals) settled) settled after h
    ∙ ap (λ row. grant_for decision granted_at row settled) f

-- After a decision that reports success, a call with any key at any time is allowed as the decision
-- says: `once` and `deny` change no answer; ten minutes allow the row's key until ten minutes after
-- `granted_at`, and later only by a persistent grant; `always` allows the row's key from then on;
-- and the answer for every other key is what it was.
pub resolve_approval-grant_allows :
    (id : String) (decision : ApprovalDecision) (now granted_at : ℕ) (tables after : StateTables)
    (row : ApprovalRow)
    → find_row id tables.approvals ≡ some row
    → resolve_approval id decision now granted_at tables ≡ (true, after)
    → (key : GrantKey) (later : ℕ)
    → (grant_allows key later after).0 ≡ answer_after decision row.key granted_at key later tables
resolve_approval-grant_allows id decision now granted_at tables after row f h key later =
    let rows =
      update_where (is_open id now) (settle (status_of decision) now (some decision))
        tables.approvals in
    let (found, g, same_key) =
      find_row-update_where id now (status_of decision) (some decision) tables.approvals row f in
    subst
      (λ t.
        (grant_allows key later t).0 ≡ answer_after decision row.key granted_at key later tables)
      (sym (success-grants id decision now granted_at tables after found h g))
      (grant_for-answer decision granted_at found (record tables { approvals = rows }) key later
        ∙ grant_for-grants decision granted_at found tables key rows later
        ∙ ap (λ k. answer_after decision k granted_at key later tables) same_key)

none_pending :
    (now : ℕ) (rows : List ApprovalRow)
    → any
        (λ row. is_pending row.status)
        (update_where (λ row. is_pending row.status) (settle denied now (some deny)) rows)
      ≡ false
unfolding any update_where
none_pending now [] = refl
none_pending now (row ∷ rows) = ground (arith, none_pending now rows)

-- After the emergency lock no approval is pending, the table of the temporary grants is empty, the
-- persistent grants are as they were, and a call is allowed exactly if one of them is for its key.
pub emergency_lock-grant_allows :
    (now : ℕ) (tables : StateTables) (key : GrantKey) (later : ℕ)
    → (any (λ row. is_pending row.status) (emergency_lock now tables).1.approvals ≡ false)
      × ((emergency_lock now tables).1.temporary_grants ≡ [])
      × ((emergency_lock now tables).1.persistent_grants ≡ tables.persistent_grants)
      × ((grant_allows key later (emergency_lock now tables).1).0
          ≡ any (is_for key) tables.persistent_grants)
unfolding emergency_lock any
emergency_lock-grant_allows now tables key later = (
  none_pending now tables.approvals,
  refl,
  refl,
  grant_allows_lem key later (emergency_lock now tables).1,
)
