-- ===== src/Examples/AuditCases.antt =====
-- The audit theorems at a fresh store and one event, whose second append is refused as a duplicate.
use run_on_mine.Prelude.{ℕ, ◌≡◌, refl, arith, none, some, List, [], ◌∷◌, ok, true}
use Prim.Native.String.{count}
use run_on_mine.Prelude.Seq.{last}
use run_on_mine.Prelude.{any, filter}
use run_on_mine.Audit.Event.{AuditTables}
use run_on_mine.Audit.Chain.{
  audit_optional_u64_to_i64, append_audit_row, audit_anchor, insert_row, update_audit_tail,
}
use run_on_mine.Audit.Mac.{record_mac, tail_mac}
use run_on_mine.Audit.Verification.{AuditVerificationReport, verify_audit_chain_full}
use run_on_mine.Audit.Retention.{count_expired, count_excess, delete_through, prune_audit}
use run_on_mine.Audit.Integrity.{IsChained}
use run_on_mine.Audit.Growth.{append_audit_row-IsChained}
use run_on_mine.Audit.Preservation.{appends, appends-valid}
use run_on_mine.Examples.AuditData.{api, sample, no_rows, one_row}

abbrev key : List ℕ
key = 7 ∷ []

fresh : IsChained api key no_rows
unfolding tail_mac
fresh = record {
  state = record {
    anchor_hash = "genesis";
    sequence = 0;
    record_hash = "genesis";
    record_mac = "";
    tail_mac = "mac";
  };
  stored = refl;
  linked = tt;
  tail = refl;
  sealed = refl;
  ascending = omega arith;
  fits = (omega arith, omega arith);
}

appends-valid_example :
    (report : AuditVerificationReport) × (after : AuditTables) × (verify_audit_chain_full api key
        (appends api key count ((5, sample) ∷ (6, sample) ∷ []) no_rows)
      ≡ ok (report, after))
    × (report.valid ≡ true)
appends-valid_example = appends-valid api key count ((5, sample) ∷ (6, sample) ∷ []) no_rows fresh

-- What is left when the one record is older than the retention of 1.
abbrev emptied : AuditTables
emptied = record {
  rows = [];
  last_sequence = 1;
  chain_state = some (record {
    anchor_hash = "b3";
    sequence = 0;
    record_hash = "b3";
    record_mac = "";
    tail_mac = "mac";
  });
  checkpoint = none;
}

sample_appended : append_audit_row api key sample no_rows ≡ ok (("b3", 1), one_row)
unfolding append_audit_row audit_anchor any insert_row update_audit_tail audit_optional_u64_to_i64
    last record_mac tail_mac
sample_appended = refl

one_row-IsChained : IsChained api key one_row
one_row-IsChained =
    append_audit_row-IsChained api key sample no_rows one_row ("b3", 1) fresh sample_appended

pruned_all : prune_audit api count key 10 1 1000 one_row ≡ ok (1, emptied)
unfolding prune_audit count_expired last count_excess delete_through filter tail_mac
pruned_all = refl
