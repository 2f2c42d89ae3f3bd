-- ===== src/Examples/ApprovalCases.antt =====
-- The approval theorems at tables with one pending request for a shell call.
use run_on_mine.Prelude.{
  ℕ, ◌+◌, ◌≡◌, ◌≢◌, refl, arith, inl, true, false, none, some, List, [], ◌∷◌, any, count_where,
  find, update_where, ok,
}
use Prim.Native.String.{count}
use run_on_mine.Prelude.Members.{In}
use run_on_mine.Audit.Event.{AuditEvent, timed_out}
use run_on_mine.Approval.Principal.{pending, approved, for_ten_minutes, deny, existing}
use run_on_mine.Approval.Tables.{GrantKey, ApprovalRow, StateTables, ten_minutes}
use run_on_mine.Approval.Store.{
  find_row, is_pending, resolve_approval, grant_allows, emergency_lock, complete_approval_timeout,
  status_of, upsert_temporary,
}
use run_on_mine.Approval.Finality.{resolve, lock, apply_ops, settled-final}
use run_on_mine.Approval.Upserts.{is_for}
use run_on_mine.Approval.Grants.{
  answer_after, resolve_approval-grant_allows, emergency_lock-grant_allows,
}
use run_on_mine.Approval.Timeouts.{Ends, complete_approval_timeout-Ends}
use run_on_mine.Approval.Races.{complete_approval_timeout-after_decision}
use run_on_mine.Examples.AuditData.{api, no_rows}

abbrev key : List ℕ
key = 7 ∷ []

abbrev pub shell_key : GrantKey
shell_key = record {
  connector_id = "c1";
  principal_fingerprint = "stdio";
  tool_name = "shell_exec";
  argument_hash = "h";
}

abbrev pub waiting : ApprovalRow
waiting = record {
  id = "a1";
  key = shell_key;
  principal = record {
    principal_kind = "local_stdio";
    oauth_client_id = none;
    oauth_subject = none;
  };
  argument_summary = "ls";
  status = pending;
  created_at = 10;
  expires_at = 70;
  resolved_at = none;
  decision = none;
}

abbrev pub granted : ApprovalRow
granted = record waiting {
  status = approved;
  resolved_at = some 20;
  decision = some for_ten_minutes;
}

abbrev pub asked : StateTables
asked = record {
  approvals = waiting ∷ [];
  temporary_grants = [];
  persistent_grants = [];
  audit = no_rows;
}

abbrev pub answered : StateTables
answered = record {
  approvals = granted ∷ [];
  temporary_grants =
      record { key = shell_key; principal = waiting.principal; expires_at = 21 + ten_minutes } ∷ [];
  persistent_grants = [];
  audit = no_rows;
}

owner_answers : resolve_approval "a1" for_ten_minutes 20 21 asked ≡ (true, answered)
unfolding resolve_approval count_where update_where find_row find upsert_temporary any
owner_answers = refl

asked_row : find_row "a1" asked.approvals ≡ some waiting
unfolding find_row find
asked_row = refl

resolve_approval-grant_allows_example :
    (grant_allows shell_key 500 answered).0
    ≡ answer_after for_ten_minutes shell_key 21 shell_key 500 asked
resolve_approval-grant_allows_example =
    resolve_approval-grant_allows "a1" for_ten_minutes 20 21 asked answered waiting asked_row
      owner_answers shell_key 500

not_pending : granted.status ≢ pending
not_pending h = cc

settled-final_example :
    In granted (apply_ops api count key (resolve "a1" deny 30 31 ∷ lock 40 ∷ []) answered).approvals
settled-final_example =
    settled-final api count key (resolve "a1" deny 30 31 ∷ lock 40 ∷ []) answered granted
      not_pending (inl refl) ((λ h. h), ((λ h. h), tt))

emergency_lock-grant_allows_example :
    (any (λ row. is_pending row.status) (emergency_lock 30 answered).1.approvals ≡ false)
    × ((emergency_lock 30 answered).1.temporary_grants ≡ [])
    × ((emergency_lock 30 answered).1.persistent_grants ≡ answered.persistent_grants)
    × ((grant_allows shell_key 31 (emergency_lock 30 answered).1).0
        ≡ any (is_for shell_key) answered.persistent_grants)
emergency_lock-grant_allows_example = emergency_lock-grant_allows 30 answered shell_key 31

abbrev expiry : AuditEvent
expiry = record {
  id = "e2";
  timestamp = 71;
  connector_id = "c1";
  tool_name = "shell_exec";
  capability = "shell_exec";
  outcome = timed_out;
  argument_hash = "h";
  summary = "local approval timed out";
  duration_ms = none;
  output_bytes = none;
}

complete_approval_timeout-Ends_example :
    Ends api count key "a1" expiry 71 asked
      (complete_approval_timeout api count key "a1" expiry 71 asked)
complete_approval_timeout-Ends_example =
    complete_approval_timeout-Ends api count key "a1" expiry 71 asked

complete_approval_timeout-after_decision_example :
    complete_approval_timeout api count key "a1" expiry 71 answered
    ≡ (ok (some (existing (status_of for_ten_minutes))), answered)
unfolding count_where
complete_approval_timeout-after_decision_example =
    complete_approval_timeout-after_decision api count key "a1" for_ten_minutes 20 21 asked answered
      waiting expiry 71 (omega arith) asked_row owner_answers (refl, refl, refl, refl)
