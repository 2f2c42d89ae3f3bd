-- ===== src/Audit/Mac.antt =====
-- `AuditMacKey` of audit_mac.rs: what the two authentication codes cover.
use run_on_mine.Prelude.{
  ℕ, zero, suc, ◌/◌, ◌%◌, ◌^◌, String, Bool, ◌&&◌, List, [], ◌∷◌, ◌++◌, length, ◌==◌,
}
use run_on_mine.Prelude.Eq.{nat_eq}
use run_on_mine.Prelude.Seq.{list_beq}
use run_on_mine.Audit.Event.{AuditApi}

-- `u64::to_be_bytes`: the digits to base 256, the most significant first
unfoldable pub be_bytes : ℕ → ℕ → List ℕ
be_bytes zero n = []
be_bytes (suc w) n = (n / 256 ^ w) % 256 ∷ be_bytes w n

-- "RunOnMine audit record MAC v1" and a zero byte
abbrev pub record_domain : List ℕ
record_domain =
    82 ∷ 117 ∷ 110 ∷ 79 ∷ 110 ∷ 77 ∷ 105 ∷ 110 ∷ 101 ∷ 32 ∷ 97 ∷ 117 ∷ 100 ∷ 105 ∷ 116 ∷ 32 ∷ 114
    ∷ 101 ∷ 99 ∷ 111 ∷ 114 ∷ 100 ∷ 32 ∷ 77 ∷ 65 ∷ 67 ∷ 32 ∷ 118 ∷ 49 ∷ 0 ∷ []

-- "RunOnMine audit tail MAC v1" and a zero byte
abbrev pub tail_domain : List ℕ
tail_domain =
    82 ∷ 117 ∷ 110 ∷ 79 ∷ 110 ∷ 77 ∷ 105 ∷ 110 ∷ 101 ∷ 32 ∷ 97 ∷ 117 ∷ 100 ∷ 105 ∷ 116 ∷ 32 ∷ 116
    ∷ 97 ∷ 105 ∷ 108 ∷ 32 ∷ 77 ∷ 65 ∷ 67 ∷ 32 ∷ 118 ∷ 49 ∷ 0 ∷ []

unfoldable pub length_prefixed : List ℕ → List ℕ
unfolding be_bytes
length_prefixed value = be_bytes 8 (length value) ++ value

module _ (api : AuditApi) where
  open api use {as_bytes, hmac_sha256_hex}

  unfoldable pub record_message : ℕ → String → String → List ℕ → List ℕ
  unfolding be_bytes length_prefixed
  record_message sequence previous_hash record_hash payload =
      record_domain
      ++ (be_bytes 8 sequence
          ++ (length_prefixed (as_bytes previous_hash)
              ++ (length_prefixed (as_bytes record_hash) ++ length_prefixed payload)))

  unfoldable pub record_mac : List ℕ → ℕ → String → String → List ℕ → String
  unfolding record_message
  record_mac key sequence previous_hash record_hash payload =
      hmac_sha256_hex key (record_message sequence previous_hash record_hash payload)

  unfoldable pub tail_message : String → ℕ → String → String → List ℕ
  unfolding be_bytes length_prefixed
  tail_message anchor_hash sequence record_hash record_mac =
      tail_domain
      ++ (length_prefixed (as_bytes anchor_hash)
          ++ (be_bytes 8 sequence
              ++ (length_prefixed (as_bytes record_hash) ++ length_prefixed (as_bytes record_mac))))

  unfoldable pub tail_mac : List ℕ → String → ℕ → String → String → String
  unfolding tail_message
  tail_mac key anchor_hash sequence record_hash record_mac =
      hmac_sha256_hex key (tail_message anchor_hash sequence record_hash record_mac)

  unfoldable pub constant_time_hex_eq : String → String → Bool
  unfolding list_beq
  constant_time_hex_eq left right =
      length (as_bytes left) == length (as_bytes right) && list_beq (as_bytes left) (as_bytes right)

  unfoldable pub verifies_record : List ℕ → String → ℕ → String → String → List ℕ → Bool
  verifies_record key expected sequence previous_hash record_hash payload =
      constant_time_hex_eq expected (record_mac key sequence previous_hash record_hash payload)

  unfoldable pub verifies_tail : List ℕ → String → String → ℕ → String → String → Bool
  verifies_tail key expected anchor_hash sequence record_hash mac =
      constant_time_hex_eq expected (tail_mac key anchor_hash sequence record_hash mac)
