-- ===== src/Examples/AuditData.antt =====
-- An `AuditApi` that computes: instants are written in unary, every hash is the same text, and the
-- events of one call have payloads.
use run_on_mine.Prelude.{
  ℕ, zero, suc, ◌≡◌, refl, sym, ap, ◌==◌, ◌∙◌, String, str_eq, eq_iff, Option, none, some, List, [],
  ◌∷◌, Bool, ◌&&◌, if◌then◌else◌, true, false, Bool-cases, inl, inr, arith, some-injective,
}
use Prim.Native.String.{count}
use Prim.Native.Char.{nul}
use text.Mathlib.TextLemmas.{length-cons}
use run_on_mine.Audit.Event.{AuditEvent, AuditOutcome, AuditApi, AuditTables}

abbrev pub unary : ℕ → String
unary zero = String.[]
unary (suc n) = String.◌∷◌ nul (unary n)

pub count-unary : (n : ℕ) → count (unary n) ≡ n
count-unary zero = refl
count-unary (suc n) = length-cons nul (unary n) ∙ ap suc (count-unary n)

-- The event of a shell call that was allowed.
abbrev pub sample : AuditEvent
sample = record {
  id = "e1";
  timestamp = 5;
  connector_id = "c1";
  tool_name = "shell_exec";
  capability = "shell_exec";
  outcome = AuditOutcome.allowed;
  argument_hash = "h";
  summary = "run ls";
  duration_ms = none;
  output_bytes = none;
}

abbrev pub absent : Option ℕ → Bool
absent none = true
absent (some n) = false

abbrev pub was_allowed : AuditOutcome → Bool
was_allowed AuditOutcome.allowed = true
was_allowed _ = false

abbrev pub is_sample : AuditEvent → Bool
is_sample event =
    str_eq event.id sample.id
    && event.timestamp == 5
    && str_eq event.connector_id sample.connector_id
    && str_eq event.tool_name sample.tool_name
    && str_eq event.capability sample.capability
    && was_allowed event.outcome
    && str_eq event.argument_hash sample.argument_hash
    && str_eq event.summary sample.summary
    && absent event.duration_ms
    && absent event.output_bytes

pub is_sample-eq : (event : AuditEvent) → is_sample event ≡ true → event ≡ sample
is_sample-eq event h = ground (
  arith,
  eq_iff event.id sample.id,
  eq_iff event.connector_id sample.connector_id,
  eq_iff event.tool_name sample.tool_name,
  eq_iff event.capability sample.capability,
  eq_iff event.argument_hash sample.argument_hash,
  eq_iff event.summary sample.summary,
)

abbrev pub to_payload : AuditEvent → Option (List ℕ)
to_payload event = if is_sample event then some (1 ∷ []) else none

abbrev pub of_payload : List ℕ → Option AuditEvent
of_payload (suc zero ∷ []) = some sample
of_payload _ = none

abbrev pub name_of : AuditOutcome → String
name_of AuditOutcome.allowed = "\"allowed\""
name_of AuditOutcome.denied = "\"denied\""
name_of _ = "\"other\""

pub of_payload-to_payload :
    (event : AuditEvent) (payload : List ℕ)
    → to_payload event ≡ some payload
    → of_payload payload ≡ some event
of_payload-to_payload event payload h = elim (Bool-cases (is_sample event)) [
  | inl t ↦
      ap of_payload (sym (some-injective (1 ∷ []) payload (ground arith)))
      ∙ ap some (sym (is_sample-eq event t))
  | inr f ↦ absurd (ground arith)
]

abbrev pub api : AuditApi
api = record {
  as_bytes = λ s. count s ∷ [];
  blake3_hex = λ bytes. "b3";
  hmac_sha256_hex = λ key bytes. "mac";
  to_vec = to_payload;
  from_slice = of_payload;
  outcome_json = λ outcome. some (name_of outcome);
  to_rfc3339 = unary;
  parse_rfc3339 = λ s. some (count s);
  from_slice-to_vec = of_payload-to_payload;
  parse-to_rfc3339 = λ t. ap some (count-unary t);
}

abbrev pub no_rows : AuditTables
no_rows = record {
  rows = [];
  last_sequence = 0;
  chain_state = some (record {
    anchor_hash = "genesis";
    sequence = 0;
    record_hash = "genesis";
    record_mac = "";
    tail_mac = "mac";
  });
  checkpoint = none;
}

-- The store after the sample was appended.
abbrev pub one_row : AuditTables
one_row = record {
  rows =
      record {
        sequence = 1;
        id = "e1";
        timestamp = unary 5;
        connector_id = "c1";
        tool_name = "shell_exec";
        capability = "shell_exec";
        outcome = "\"allowed\"";
        argument_hash = "h";
        summary = "run ls";
        duration_ms = none;
        output_bytes = none;
        previous_hash = "genesis";
        record_hash = "b3";
        payload = 1 ∷ [];
        record_mac = "mac";
      }
      ∷ [];
  last_sequence = 1;
  chain_state = some (record {
    anchor_hash = "genesis";
    sequence = 1;
    record_hash = "b3";
    record_mac = "mac";
    tail_mac = "mac";
  });
  checkpoint = none;
}
