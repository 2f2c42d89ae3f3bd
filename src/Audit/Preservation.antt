-- ===== src/Audit/Preservation.antt =====
-- Every append and every pruning keeps the chain whole.
use run_on_mine.Prelude.{
  Bool-cases, ◌%◌, ◌==◌, ℕ, ◌≡◌, refl, sym, subst, String, true, Option, none, some, List, [], ◌∷◌,
  arith, take, drop, Result, ok, err, inl, inr, >>=-eq-ok,
}
use run_on_mine.Prelude.Seq.{last}
use run_on_mine.Audit.Event.{AuditEvent, StoredAuditRow, AuditTables, AuditError, AuditApi}
use run_on_mine.Audit.Chain.{append_audit_row}
use run_on_mine.Audit.Verification.{AuditVerificationReport, tail_matches, verify_audit_chain_full}
use run_on_mine.Audit.Retention.{
  pruned_or, after_append, audit_retention, audit_max_bytes, delete_through, delete_first,
  prune_audit, append_audit, count_expired,
}
use run_on_mine.Audit.Linking.{Linked, end_of}
use run_on_mine.Audit.Integrity.{Ascending, cut_lem, IsChained, verify_audit_chain_full-valid}
use run_on_mine.Audit.Growth.{
  ok-injective, Ascending-mono, tail_for, remaining, tail_matches_for, ends, tail_fits,
  append_audit_row-IsChained,
}

module _ (api : AuditApi) (key : List ℕ) where
  module _ (text_length : String → ℕ) where
    delete_inv :
        (cut : StoredAuditRow) (kept : List StoredAuditRow) (tables tables' : AuditTables)
        → delete_through api text_length key cut kept tables ≡ ok tables'
        → tables' ≡ remaining api key cut (last kept) tables
    unfolding delete_through
    delete_inv cut kept tables tables' h = ground arith

    delete_through-IsChained :
        (n : ℕ) (cut : StoredAuditRow) (tables tables' : AuditTables)
        → IsChained api key tables
        → last (take n tables.rows) ≡ some cut
        → delete_through api text_length key cut (drop n tables.rows) tables ≡ ok tables'
        → IsChained api key tables'
    delete_through-IsChained n cut tables tables' c e h =
        let kept : List StoredAuditRow = drop n tables.rows in
        let (above, same, linked, ascending) =
          cut_lem api key 0 tables.last_sequence n tables.rows c.state.anchor_hash cut c.ascending
            c.linked e in
        subst (IsChained api key) (sym (delete_inv cut kept tables tables' h)) (record {
          state = tail_for api key cut.record_hash (last kept);
          stored = refl;
          linked = subst (Linked api key cut.record_hash) (sym same) linked;
          tail =
              subst
                (λ rows.
                  tail_matches api key (tail_for api key cut.record_hash (last kept))
                    (end_of api key none rows)
                  ≡ true)
                (sym same)
                (subst
                  (λ l.
                    tail_matches api key (tail_for api key cut.record_hash (last kept)) l ≡ true)
                  (sym (ends api key kept)) (tail_matches_for api key cut.record_hash (last kept)));
          sealed = refl;
          ascending =
              subst (λ rows. Ascending 0 rows tables.last_sequence) (sym same)
                (Ascending-mono cut.sequence tables.last_sequence kept ascending);
          fits = (
            c.fits.0,
            tail_fits api key cut.record_hash cut.sequence tables.last_sequence kept ascending
                c.fits.0,
          );
        })

    delete_first-IsChained :
        (n : ℕ) (o : Option StoredAuditRow) (tables : AuditTables) (r : ℕ × AuditTables)
        → IsChained api key tables
        → last (take n tables.rows) ≡ o
        → delete_first api text_length key n o tables ≡ ok r
        → IsChained api key r.1
    delete_first-IsChained n none tables r c e h =
        subst (λ (z : ℕ × AuditTables). IsChained api key z.1) (ok-injective h) c
    delete_first-IsChained n (some cut) tables r c e h =
        let (tables', d, w) =
          >>=-eq-ok (delete_through api text_length key cut (drop n tables.rows) tables)
            (λ pruned. ok (n, pruned)) h in
        subst (λ (z : ℕ × AuditTables). IsChained api key z.1) (ok-injective w)
          (delete_through-IsChained n cut tables tables' c e d)

    -- Pruning a whole chain, by age and by size, leaves it whole.
    pub prune_audit-IsChained :
        (now max_age max_bytes : ℕ) (tables : AuditTables) (r : ℕ × AuditTables)
        → IsChained api key tables
        → prune_audit api text_length key now max_age max_bytes tables ≡ ok r
        → IsChained api key r.1
    unfolding prune_audit
    prune_audit-IsChained now max_age max_bytes tables r c h =
        let (expired, _, w) =
          >>=-eq-ok (count_expired api text_length key now max_age tables.rows) _ h in
        delete_first-IsChained _ _ tables r c refl w

    pruned_or-IsChained :
        (hash : String) (appended : AuditTables) (p : Result AuditError (ℕ × AuditTables))
        → IsChained api key appended
        → ((r : ℕ × AuditTables) → p ≡ ok r → IsChained api key r.1)
        → IsChained api key (pruned_or api text_length key hash appended p).1
    pruned_or-IsChained hash appended (err e) c keep = c
    pruned_or-IsChained hash appended (ok r) c keep = keep r refl

    after_append-IsChained :
        (now : ℕ) (tables : AuditTables) (a : Result AuditError ((String × ℕ) × AuditTables))
        → IsChained api key tables
        → ((r : (String × ℕ) × AuditTables) → a ≡ ok r → IsChained api key r.1)
        → IsChained api key (after_append api text_length key now tables a).1
    after_append-IsChained now tables (err e) c keep = c
    after_append-IsChained now tables (ok ((hash, sequence), appended)) c keep =
        elim (Bool-cases (sequence % 128 == 0)) [
          | inl t ↦ rw t (
              pruned_or-IsChained hash appended _ (keep _ refl) (λ r.
                prune_audit-IsChained now audit_retention audit_max_bytes appended r (keep _ refl)))
          | inr t ↦ rw t (keep _ refl)
        ]

    -- One append of the store, with the pruning behind every 128th record, keeps the chain whole
    -- whether it succeeds or fails.
    pub append_audit-IsChained :
        (now : ℕ) (event : AuditEvent) (tables : AuditTables)
        → IsChained api key tables
        → IsChained api key (append_audit api text_length key now event tables).1
    unfolding append_audit
    append_audit-IsChained now event tables c =
        after_append-IsChained now tables (append_audit_row api key event tables) c
          (λ r h. append_audit_row-IsChained api key event tables r.1 r.0 c h)

    -- The appends of a run, each at its own time.
    pub appends : List (ℕ × AuditEvent) → AuditTables → AuditTables
    appends [] tables = tables
    appends ((now, event) ∷ events) tables =
        appends events (append_audit api text_length key now event tables).1

    appends-IsChained :
        (events : List (ℕ × AuditEvent)) (tables : AuditTables)
        → IsChained api key tables
        → IsChained api key (appends events tables)
    unfolding appends
    appends-IsChained [] tables c = c
    appends-IsChained ((now, event) ∷ events) tables c =
        appends-IsChained events _ (append_audit-IsChained now event tables c)

    -- After any appends to a whole chain, failing or not, pruning or not, the full verification
    -- succeeds and reports the chain as valid.
    pub appends-valid :
        (events : List (ℕ × AuditEvent)) (tables : AuditTables)
        → IsChained api key tables
        → (report : AuditVerificationReport) × (tables' : AuditTables) × (verify_audit_chain_full
              api key
              (appends events tables)
            ≡ ok (report, tables'))
          × (report.valid ≡ true)
    appends-valid events tables c =
        verify_audit_chain_full-valid api key (appends events tables)
          (appends-IsChained events tables c)
