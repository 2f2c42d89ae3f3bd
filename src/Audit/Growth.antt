-- ===== src/Audit/Growth.antt =====
-- An appended row keeps the chain whole, and the tail that a pruning writes fits what is left.
use run_on_mine.Prelude.{
  ℕ, ◌+◌, ◌≤◌, ◌≡◌, refl, sym, ◌∙◌, subst, String, true, Option, none, some, List, [], ◌∷◌, arith,
  ltb, filter, Result, ok, Option-cases, some-injective, inl, inr,
}
use run_on_mine.Prelude.Seq.{last}
use run_on_mine.Audit.Event.{
  AuditEvent, StoredAuditRow, AuditTailState, AuditTables, AuditError, AuditApi, i64_max,
}
use run_on_mine.Audit.Mac.{tail_mac}
use run_on_mine.Audit.Chain.{hash_or, append_audit_row, row_of}
use run_on_mine.Audit.Verification.{tail_matches}
use run_on_mine.Audit.Retention.{new_tail}
use run_on_mine.Audit.Linking.{
  str_eq_refl, row_of-verifies, append_inv, Linked, Linked-append, end_of, end_of-append,
}
use run_on_mine.Audit.Integrity.{
  Ascending, Ascending-append, last-le, end_of-last, row_end, IsChained,
}

pub ok-injective {ℓ} : {A : Type ℓ} {a b : A} → ◌≡◌ {A = Result AuditError A} (ok a) (ok b) → a ≡ b
ok-injective h = cc

pub Ascending-mono :
    (low high : ℕ) (rows : List StoredAuditRow) → Ascending low rows high → Ascending 0 rows high
Ascending-mono low high [] a = omega arith
Ascending-mono low high (row ∷ rows) a = (omega arith, a.1)

module _ (api : AuditApi) (key : List ℕ) where
  abbrev pub tail_for : String → Option StoredAuditRow → AuditTailState
  tail_for anchor o =
      let (sequence, record_hash, record_mac) = new_tail anchor o in
      record {
        anchor_hash = anchor;
        sequence = sequence;
        record_hash = record_hash;
        record_mac = record_mac;
        tail_mac = tail_mac api key anchor sequence record_hash record_mac;
      }

  abbrev pub remaining : StoredAuditRow → Option StoredAuditRow → AuditTables → AuditTables
  remaining cut o tables = record {
    rows = filter (λ row. ltb cut.sequence row.sequence) tables.rows;
    last_sequence = tables.last_sequence;
    chain_state = some (tail_for cut.record_hash o);
    checkpoint = none;
  }

  pub tail_matches_for :
      (anchor : String) (o : Option StoredAuditRow)
      → tail_matches api key (tail_for anchor o) (row_end o) ≡ true
  tail_matches_for anchor none = simp (str_eq_refl)
  tail_matches_for anchor (some row) =
      ground (arith, str_eq_refl row.record_hash, str_eq_refl row.record_mac)

  pub ends : (rows : List StoredAuditRow) → end_of api key none rows ≡ row_end (last rows)
  unfolding last
  ends [] = refl
  ends (row ∷ rows) = end_of-last api key row rows

  pub tail_fits :
      (anchor : String) (low high : ℕ) (rows : List StoredAuditRow)
      → Ascending low rows high
      → high ≤ i64_max
      → (tail_for anchor (last rows)).sequence ≤ i64_max
  tail_fits anchor low high rows a h = elim (Option-cases (last rows)) [
    | inl n ↦ rw n (omega arith)
    | inr (row, s) ↦ rw s (let b = last-le low high rows row a s in omega arith)
  ]

  pub tail_matches_self :
      (tail : AuditTailState)
      → tail_matches api key tail (some (tail.sequence, tail.record_hash, tail.record_mac)) ≡ true
  tail_matches_self tail = ground (arith, str_eq_refl tail.record_hash, str_eq_refl tail.record_mac)

  -- A record that is appended to a whole chain leaves it whole.
  pub append_audit_row-IsChained :
      (event : AuditEvent) (tables tables' : AuditTables) (r : String × ℕ)
      → IsChained api key tables
      → append_audit_row api key event tables ≡ ok (r, tables')
      → IsChained api key tables'
  append_audit_row-IsChained event tables tables' r c h =
      let (state, payload, outcome, duration_ms, output_bytes, s, v, o, d, b, fits, e) =
        append_inv api key event tables tables' r h in
      let same : c.state ≡ state = some-injective _ _ (sym c.stored ∙ s) in
      let row : StoredAuditRow =
        row_of api key event (tables.last_sequence + 1)
          (hash_or state.anchor_hash (last tables.rows)) payload outcome duration_ms output_bytes in
      let tail : AuditTailState = record {
        anchor_hash = state.anchor_hash;
        sequence = tables.last_sequence + 1;
        record_hash = row.record_hash;
        record_mac = row.record_mac;
        tail_mac =
            tail_mac api key state.anchor_hash (tables.last_sequence + 1) row.record_hash
              row.record_mac;
      } in
      subst (IsChained api key) (sym e) (record {
        state = tail;
        stored = refl;
        linked =
            Linked-append api key state.anchor_hash tables.rows row
              (subst (λ (t : AuditTailState). Linked api key t.anchor_hash tables.rows) same
                c.linked)
              (row_of-verifies api key event (tables.last_sequence + 1)
                (hash_or state.anchor_hash (last tables.rows)) outcome payload duration_ms
                output_bytes v o d b);
        tail =
            subst (λ l. tail_matches api key tail l ≡ true)
              (sym (end_of-append api key none tables.rows row)) (tail_matches_self tail);
        sealed = refl;
        ascending = Ascending-append 0 tables.last_sequence tables.rows row c.ascending refl;
        fits = (fits, fits);
      })
