-- ===== src/Wire/Audit.antt =====
-- fabric_types/src/audit.rs: the entry of the audit log.
use fabric_os.Base.{ℕ, ◌<◌, ◌≡◌, List, ◌++◌, replicate, length}
use fabric_os.Base.Bytes.{to_le}
use fabric_os.Base.Words.{u16_mod, u32_mod, u64_mod}

pub data AuditAction : Type 0 where
  message_sent message_delivered message_rejected cap_validated cap_denied : AuditAction
  sequence_violation hmac_failure queue_full monitor_notify policy_violation : AuditAction

-- The discriminant, `self.action as u8`.
unfoldable pub action_code : AuditAction → ℕ
action_code message_sent = 1
action_code message_delivered = 2
action_code message_rejected = 3
action_code cap_validated = 4
action_code cap_denied = 5
action_code sequence_violation = 6
action_code hmac_failure = 7
action_code queue_full = 8
action_code monitor_notify = 9
action_code policy_violation = 10

-- The alignment padding `_pad` and `_pad2` is never read and has no field.
pub record AuditEntry : Type 0 where
  pub sequence : ℕ
  pub timestamp : ℕ
  pub actor : ℕ
  pub action : AuditAction
  pub target : ℕ
  pub msg_type : ℕ
  pub capability_id : ℕ
  pub msg_sequence : ℕ
  pub prev_hash : List ℕ
  pub hash : List ℕ

abbrev pub zero_hash : List ℕ
zero_hash = replicate 32 0

abbrev pub zeroed_entry : AuditEntry
zeroed_entry = record {
  sequence = 0;
  timestamp = 0;
  actor = 0;
  action = message_sent;
  target = 0;
  msg_type = 0;
  capability_id = 0;
  msg_sequence = 0;
  prev_hash = zero_hash;
  hash = zero_hash;
}

-- The ranges 0..8, 8..16, 16..20, 20, 21..24, 24..28, 28..30, 30..32 and 32..64 of the buffer.
unfoldable pub hashable_bytes : AuditEntry → List ℕ
hashable_bytes e =
    to_le 8 e.sequence
    ++ (to_le 8 e.timestamp
        ++ (to_le 4 e.actor
            ++ (to_le 1 (action_code e.action)
                ++ (replicate 3 0
                    ++ (to_le 4 e.target
                        ++ (to_le 2 e.msg_type ++ (replicate 2 0 ++ e.prev_hash)))))))

-- Each field fits its machine word.
pub record EntryFits (e : AuditEntry) : Type 0 where
  pub sequence_fits : e.sequence < u64_mod
  pub timestamp_fits : e.timestamp < u64_mod
  pub actor_fits : e.actor < u32_mod
  pub target_fits : e.target < u32_mod
  pub msg_type_fits : e.msg_type < u16_mod
  pub capability_id_fits : e.capability_id < u64_mod
  pub msg_sequence_fits : e.msg_sequence < u64_mod
  pub prev_hash_fits : length e.prev_hash ≡ 32
