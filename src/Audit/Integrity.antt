-- ===== src/Audit/Integrity.antt =====
-- Appending and pruning keep a chain that verifies.
use run_on_mine.Prelude.{
  ℕ, zero, suc, ◌+◌, ◌≤◌, ◌<◌, ◌≡◌, refl, ◌∙◌, subst, String, true, Option, none, some, List, [],
  ◌∷◌, ◌++◌, arith, ltb, filter, take, drop, ok, some-injective,
}
use run_on_mine.Prelude.Seq.{last}
use run_on_mine.Audit.Event.{StoredAuditRow, AuditTailState, AuditTables, AuditApi, i64_max}
use run_on_mine.Audit.Mac.{tail_mac, verifies_tail}
use run_on_mine.Audit.Verification.{
  AuditVerificationReport, Last, complete, walk, tail_matches, tail_verifies, conclude,
  verify_audit_chain_full, update_audit_verification_checkpoint,
}
use run_on_mine.Audit.Linking.{hex_eq_refl, Linked, walk-Linked, end_of}

-- Sequence numbers rise, above `low` and up to `high`.
abbrev pub Ascending : ℕ → List StoredAuditRow → ℕ → Type 0
Ascending low [] high = low ≤ high
Ascending low (row ∷ rows) high = (low < row.sequence) × Ascending row.sequence rows high

pub Ascending-append :
    (low high : ℕ) (rows : List StoredAuditRow) (row : StoredAuditRow)
    → Ascending low rows high
    → row.sequence ≡ high + 1
    → Ascending low (rows ++ row ∷ []) (high + 1)
Ascending-append low high [] row a e = omega arith
Ascending-append low high (r ∷ rows) row a e =
    (a.0, Ascending-append r.sequence high rows row a.1 e)

filter_above :
    (c low high : ℕ) (rows : List StoredAuditRow)
    → c ≤ low
    → Ascending low rows high
    → filter (λ row. ltb c row.sequence) rows ≡ rows
unfolding filter
filter_above c low high [] h a = refl
filter_above c low high (row ∷ rows) h a = ground (arith, filter_above c row.sequence high rows)

abbrev pub row_end : Option StoredAuditRow → Last
row_end none = none
row_end (some row) = some (row.sequence, row.record_hash, row.record_mac)

pub Ascending-le :
    (low high : ℕ) (rows : List StoredAuditRow) → Ascending low rows high → low ≤ high
Ascending-le low high [] a = a
Ascending-le low high (row ∷ rows) a =
    let h = Ascending-le row.sequence high rows a.1 in omega arith

pub last-le :
    (low high : ℕ) (rows : List StoredAuditRow) (row : StoredAuditRow)
    → Ascending low rows high
    → last rows ≡ some row
    → row.sequence ≤ high
unfolding last
last-le low high [] row a e = cc
last-le low high (r ∷ []) row a e =
    subst (λ (z : StoredAuditRow). z.sequence ≤ high) (some-injective r row e) a.1
last-le low high (r ∷ q ∷ rows) row a e = last-le r.sequence high (q ∷ rows) row a.1 e

module _ (api : AuditApi) (key : List ℕ) where
  pub end_of-last :
      (row : StoredAuditRow) (rows : List StoredAuditRow)
      → end_of api key none (row ∷ rows) ≡ row_end (last (row ∷ rows))
  unfolding last
  end_of-last row [] = refl
  end_of-last row (r ∷ rows) = end_of-last r rows

  -- What is left behind the last deleted row is linked to its hash.
  pub cut_lem :
      (low high n : ℕ) (rows : List StoredAuditRow) (previous : String) (cut : StoredAuditRow)
      → Ascending low rows high
      → Linked api key previous rows
      → last (take n rows) ≡ some cut
      → (low < cut.sequence)
        × (filter (λ row. ltb cut.sequence row.sequence) rows ≡ drop n rows)
        × Linked api key cut.record_hash (drop n rows)
        × Ascending cut.sequence (drop n rows) high
  unfolding last filter
  cut_lem low high zero rows previous cut a l e = cc
  cut_lem low high (suc n) [] previous cut a l e = cc
  cut_lem low high (suc zero) (r ∷ rows) previous cut a l e =
      subst
        (λ (z : StoredAuditRow).
          (low < z.sequence)
          × (filter (λ row. ltb z.sequence row.sequence) (r ∷ rows) ≡ rows)
          × Linked api key z.record_hash rows
          × Ascending z.sequence rows high)
        (some-injective r cut e)
        (a.0, ground (arith, filter_above r.sequence r.sequence high rows), l.1, a.1)
  cut_lem low high (suc (suc n)) (r ∷ []) previous cut a l e =
      subst
        (λ (z : StoredAuditRow).
          (low < z.sequence)
          × (filter (λ row. ltb z.sequence row.sequence) (r ∷ []) ≡ [])
          × Linked api key z.record_hash []
          × Ascending z.sequence [] high)
        (some-injective r cut e) (a.0, ground arith, tt, a.1)
  cut_lem low high (suc (suc n)) (r ∷ q ∷ rows) previous cut a l e =
      let (above, same, linked, ascending) =
        cut_lem r.sequence high (suc n) (q ∷ rows) r.record_hash cut a.1 l.1 e in
      (omega arith, ground arith, linked, ascending)

  -- The tables of a store whose chain is whole: every row verifies behind the one before it, the
  -- state authenticates the last row, and the numbers rise and fit their columns.
  pub record IsChained (tables : AuditTables) : Type 0 where
    pub state : AuditTailState
    pub stored : tables.chain_state ≡ some state
    pub linked : Linked api key state.anchor_hash tables.rows
    pub tail : tail_matches api key state (end_of api key none tables.rows) ≡ true
    pub sealed :
        state.tail_mac
        ≡ tail_mac api key state.anchor_hash state.sequence state.record_hash state.record_mac
    pub ascending : Ascending 0 tables.rows tables.last_sequence
    pub fits : (tables.last_sequence ≤ i64_max) × (state.sequence ≤ i64_max)

  pub tail_verified :
      (tables : AuditTables) (c : IsChained tables) → tail_verifies api key c.state ≡ true
  unfolding verifies_tail
  tail_verified tables c = rw c.sealed (hex_eq_refl api key _)

  abbrev report_of : AuditTailState → ℕ → AuditVerificationReport
  report_of tail m = record {
    valid = true;
    full = true;
    checkpoint_sequence = 0;
    tail_sequence = tail.sequence;
    records_verified = m;
  }

  abbrev checked : AuditTailState → AuditTables → AuditTables
  checked tail tables = record tables {
    checkpoint = some (record {
      sequence = tail.sequence;
      record_hash = tail.record_hash;
      record_mac = tail.record_mac;
      checkpoint_mac =
          tail_mac api key tail.anchor_hash tail.sequence tail.record_hash tail.record_mac;
    });
  }

  concluded :
      (tail : AuditTailState) (l : Last) (m : ℕ) (tables : AuditTables)
      → tail_matches api key tail l ≡ true
      → tail_verifies api key tail ≡ true
      → tail.sequence ≤ i64_max
      → conclude api key true 0 tail (complete m l) tables
        ≡ ok (report_of tail m, checked tail tables)
  unfolding conclude update_audit_verification_checkpoint
  concluded tail l m tables t v h = simp (t, v) (ground arith)

  full_by :
      (tables : AuditTables) (tail : AuditTailState) (l : Last) (m : ℕ)
      → tables.chain_state ≡ some tail
      → walk api key tables.rows tail.anchor_hash none 0 ≡ ok (complete m l)
      → verify_audit_chain_full api key tables ≡ conclude api key true 0 tail (complete m l) tables
  unfolding verify_audit_chain_full
  full_by tables tail l m s w = simp (s, w)

  -- A whole chain passes the full verification.
  pub verify_audit_chain_full-valid :
      (tables : AuditTables)
      → IsChained tables
      → (report : AuditVerificationReport) × (tables' : AuditTables) × (verify_audit_chain_full api
            key tables
          ≡ ok (report, tables'))
        × (report.valid ≡ true)
  unfolding verify_audit_chain_full
  verify_audit_chain_full-valid tables c =
      let (m, w) = walk-Linked api key tables.rows c.state.anchor_hash none 0 c.linked in
      let e =
        concluded c.state (end_of api key none tables.rows) m tables c.tail (tail_verified tables c)
          c.fits.1 in
      (report_of c.state m, checked c.state tables, full_by tables c.state _ m c.stored w ∙ e, refl)
