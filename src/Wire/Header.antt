-- ===== src/Wire/Header.antt =====
-- fabric_types/src/message.rs: the message header. The identifiers of fabric_types/src/ids.rs are
-- newtypes over unsigned words, and are numbers here.
use fabric_os.Base.{ℕ, ◌<◌, Bool, List, [], ◌++◌, ltb, replicate}
use fabric_os.Base.Bytes.{to_le}
use fabric_os.Base.Words.{u16_mod, u32_mod, u64_mod}

pub record MessageHeader : Type 0 where
  pub version : ℕ
  pub msg_type : ℕ
  pub sender : ℕ
  pub receiver : ℕ
  pub payload_len : ℕ
  pub capability_id : ℕ
  pub sequence : ℕ
  pub timestamp : ℕ
  pub extension_ptr : ℕ
  pub reserved : List ℕ

-- `MessageHeader::VERSION`
abbrev pub header_version : ℕ
header_version = 1

abbrev pub zeroed_header : MessageHeader
zeroed_header = record {
  version = 0;
  msg_type = 0;
  sender = 0;
  receiver = 0;
  payload_len = 0;
  capability_id = 0;
  sequence = 0;
  timestamp = 0;
  extension_ptr = 0;
  reserved = replicate 16 0;
}

-- `active_bytes`: the ranges 0..2, 2..4, 4..8, 8..12, 12..16, 16..24, 24..32 and 32..40 of the
-- buffer, one after the other.
unfoldable pub header_bytes : MessageHeader → List ℕ
header_bytes h =
    to_le 2 h.version
    ++ (to_le 2 h.msg_type
        ++ (to_le 4 h.sender
            ++ (to_le 4 h.receiver
                ++ (to_le 4 h.payload_len
                    ++ (to_le 8 h.capability_id
                        ++ (to_le 8 h.sequence ++ (to_le 8 h.timestamp ++ [])))))))

unfoldable pub has_payload : MessageHeader → Bool
has_payload h = ltb 0 h.payload_len

-- Each field fits its machine word.
pub record HeaderFits (h : MessageHeader) : Type 0 where
  pub version_fits : h.version < u16_mod
  pub msg_type_fits : h.msg_type < u16_mod
  pub sender_fits : h.sender < u32_mod
  pub receiver_fits : h.receiver < u32_mod
  pub payload_len_fits : h.payload_len < u32_mod
  pub capability_id_fits : h.capability_id < u64_mod
  pub sequence_fits : h.sequence < u64_mod
  pub timestamp_fits : h.timestamp < u64_mod
