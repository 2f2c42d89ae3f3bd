-- ===== src/Audit/Linking.antt =====
-- A chain that the store wrote verifies.
use run_on_mine.Prelude.{
  ℕ, ◌+◌, ◌≤◌, ◌≡◌, refl, sym, ◌∙◌, subst, String, str_eq, eq_iff, true, Option, none, some, List,
  [], ◌∷◌, ◌++◌, arith, ok,
}
use run_on_mine.Prelude.Eq.{nat_eq}
use run_on_mine.Prelude.Seq.{last, list_beq_iff}
use run_on_mine.Audit.Event.{
  AuditEvent, StoredAuditRow, AuditTailState, AuditTables, AuditApi, i64_max,
}
use run_on_mine.Audit.Mac.{tail_mac, constant_time_hex_eq, verifies_record}
use run_on_mine.Audit.Chain.{
  hash_or, audit_anchor, audit_optional_u64_to_i64, row_of, insert_row, update_audit_tail,
  append_audit_row,
}
use run_on_mine.Audit.Verification.{
  Last, complete, stored_audit_row_is_authentic, verify_stored_audit_row, walk, option_beq,
}

pub str_eq_refl : (s : String) → str_eq s s ≡ true
str_eq_refl s = (eq_iff s s).1 refl

option_beq_refl : (o : Option ℕ) → option_beq o o ≡ true
option_beq_refl none = refl
option_beq_refl (some n) = ground arith

module _ (api : AuditApi) (key : List ℕ) where
  open api use {as_bytes, blake3_hex, to_vec, from_slice, outcome_json}

  pub hex_eq_refl : (s : String) → constant_time_hex_eq api s s ≡ true
  unfolding constant_time_hex_eq
  hex_eq_refl s = let e = (list_beq_iff (as_bytes s) (as_bytes s)).1 refl in ground arith

  -- The row that an append writes verifies behind the hash that it was chained to.
  pub row_of-verifies :
      (event : AuditEvent) (sequence : ℕ) (previous outcome : String) (payload : List ℕ)
      (duration_ms output_bytes : Option ℕ)
      → to_vec event ≡ some payload
      → outcome_json event.outcome ≡ some outcome
      → audit_optional_u64_to_i64 event.duration_ms ≡ ok duration_ms
      → audit_optional_u64_to_i64 event.output_bytes ≡ ok output_bytes
      → verify_stored_audit_row api key
          (row_of api key event sequence previous payload outcome duration_ms output_bytes)
          previous
        ≡ ok true
  unfolding verify_stored_audit_row stored_audit_row_is_authentic verifies_record
  row_of-verifies event sequence previous outcome payload duration_ms output_bytes v o d b = simp (
    api.from_slice-to_vec event payload v,
    v,
    o,
    d,
    b,
    str_eq_refl,
    option_beq_refl,
    hex_eq_refl,
    (list_beq_iff payload payload).1 refl,
  )

  pub append_inv :
      (event : AuditEvent) (tables tables' : AuditTables) (r : String × ℕ)
      → append_audit_row api key event tables ≡ ok (r, tables')
      → (state : AuditTailState) × (payload : List ℕ) × (outcome : String) × (duration_ms : Option
          ℕ)
        × (output_bytes : Option ℕ) × (tables.chain_state ≡ some state)
        × (to_vec event ≡ some payload)
        × (outcome_json event.outcome ≡ some outcome)
        × (audit_optional_u64_to_i64 event.duration_ms ≡ ok duration_ms)
        × (audit_optional_u64_to_i64 event.output_bytes ≡ ok output_bytes)
        × (tables.last_sequence + 1 ≤ i64_max)
        × (let row =
              row_of api key event
                (tables.last_sequence + 1)
                (hash_or state.anchor_hash (last tables.rows))
                payload
                outcome
                duration_ms
                output_bytes in
            tables' ≡ record {
              rows = tables.rows ++ row ∷ [];
              last_sequence = tables.last_sequence + 1;
              chain_state = some (record {
                anchor_hash = state.anchor_hash;
                sequence = tables.last_sequence + 1;
                record_hash = row.record_hash;
                record_mac = row.record_mac;
                tail_mac =
                    tail_mac api key state.anchor_hash
                      (tables.last_sequence + 1)
                      row.record_hash
                      row.record_mac;
              });
              checkpoint = tables.checkpoint;
            })
  unfolding append_audit_row audit_anchor insert_row update_audit_tail
  append_inv event tables tables' r h = ground arith

  -- Each row verifies behind the one before it.
  abbrev pub Linked : String → List StoredAuditRow → Type 0
  Linked previous [] = Unit
  Linked previous (row ∷ rows) =
      (verify_stored_audit_row api key row previous ≡ ok true) × Linked row.record_hash rows

  abbrev pub end_of : Last → List StoredAuditRow → Last
  end_of l [] = l
  end_of l (row ∷ rows) = end_of (some (row.sequence, row.record_hash, row.record_mac)) rows

  pub walk-Linked :
      (rows : List StoredAuditRow) (previous : String) (l : Last) (n : ℕ)
      → Linked previous rows
      → (m : ℕ) × (walk api key rows previous l n ≡ ok (complete m (end_of l rows)))
  unfolding walk
  walk-Linked [] previous l n h = (n, refl)
  walk-Linked (row ∷ rows) previous l n h = rw h.0 (walk-Linked rows row.record_hash _ _ h.1)

  end_hash : (anchor : String) → List StoredAuditRow → String
  end_hash anchor rows = hash_or anchor (last rows)

  last_cons :
      (anchor : String) (row : StoredAuditRow) (rows : List StoredAuditRow)
      → hash_or anchor (last (row ∷ rows)) ≡ hash_or row.record_hash (last rows)
  unfolding last
  last_cons anchor row [] = refl
  last_cons anchor row (r ∷ []) = refl
  last_cons anchor row (r ∷ q ∷ rows) =
      last_cons anchor r (q ∷ rows) ∙ sym (last_cons row.record_hash r (q ∷ rows))

  pub Linked-append :
      (previous : String) (rows : List StoredAuditRow) (row : StoredAuditRow)
      → Linked previous rows
      → verify_stored_audit_row api key row (hash_or previous (last rows)) ≡ ok true
      → Linked previous (rows ++ row ∷ [])
  unfolding last
  Linked-append previous [] row l h = (h, tt)
  Linked-append previous (r ∷ rows) row l h = (
    l.0,
    Linked-append r.record_hash rows row l.1 (
        subst (λ p. verify_stored_audit_row api key row p ≡ ok true) (last_cons previous r rows) h),
  )

  pub end_of-append :
      (l : Last) (rows : List StoredAuditRow) (row : StoredAuditRow)
      → end_of l (rows ++ row ∷ []) ≡ some (row.sequence, row.record_hash, row.record_mac)
  end_of-append l [] row = refl
  end_of-append l (r ∷ rows) row = end_of-append _ rows row
