-- ===== src/Bus/Audit.antt =====
-- kernel/src/bus/audit.rs: the hash-chained audit log, a ring of 512 entries.
pub mod Chain
pub mod Verify
pub mod Tamper
use fabric_os.Base.{
  ℕ, zero, suc, ◌+◌, ◌%◌, Bool, true, false, not, List, [], ◌++◌, Option, none, some, leb, ◌==◌,
  if◌then◌else◌,
}
use fabric_os.Base.Bytes.{to_le, bytes_eq}
use fabric_os.Base.Slots.{update}
use fabric_os.Base.Words.{add64}
use fabric_os.Crypto.{Crypto}
use fabric_os.Wire.Audit.{AuditEntry, AuditAction, hashable_bytes, zero_hash, zeroed_entry}

-- `AUDIT_CAPACITY`
abbrev pub audit_capacity : ℕ
audit_capacity = 512

pub record AuditLog : Type 0 where
  pub entries : ℕ → Option AuditEntry
  pub write_pos : ℕ
  pub total_count : ℕ
  pub prev_hash : List ℕ

unfoldable pub new : AuditLog
new = record { entries = λ i. none; write_pos = 0; total_count = 0; prev_hash = zero_hash }

unfoldable pub ring_count : AuditLog → ℕ
ring_count log = if leb log.total_count audit_capacity then log.total_count else audit_capacity

unfoldable pub clear : AuditLog → AuditLog
clear log = record { entries = λ i. none; write_pos = 0; total_count = 0; prev_hash = zero_hash }

-- The bytes that are fed to the hasher: `hashable_bytes`, then the two fields that it leaves out.
unfoldable pub hash_input : AuditEntry → List ℕ
hash_input e = hashable_bytes e ++ (to_le 8 e.capability_id ++ (to_le 8 e.msg_sequence ++ []))

-- The index of the oldest entry.
unfoldable pub oldest : AuditLog → ℕ
oldest log = if leb log.total_count audit_capacity then 0 else log.write_pos

module _ (crypto : Crypto) where
  unfoldable pub digest : AuditEntry → List ℕ
  digest e = crypto.sha3_256 (hash_input e)

  -- The entry that `append` builds on `zeroed()`, its hash last.
  unfoldable pub chained_entry : AuditLog → ℕ → AuditAction → ℕ → ℕ → ℕ → ℕ → ℕ → AuditEntry
  unfolding digest
  chained_entry log actor action target msg_type capability_id msg_sequence timestamp =
      let entry = record zeroed_entry {
        sequence = log.total_count;
        timestamp = timestamp;
        actor = actor;
        action = action;
        target = target;
        msg_type = msg_type;
        capability_id = capability_id;
        msg_sequence = msg_sequence;
        prev_hash = log.prev_hash;
      } in
      record entry { hash = digest entry }

  -- Storing the entry.
  unfoldable pub store_entry : AuditLog → AuditEntry → AuditLog
  store_entry log entry = record {
    entries = update log.entries log.write_pos (some entry);
    write_pos = add64 log.write_pos 1 % audit_capacity;
    total_count = add64 log.total_count 1;
    prev_hash = entry.hash;
  }

  unfoldable pub append : AuditLog → ℕ → AuditAction → ℕ → ℕ → ℕ → ℕ → ℕ → AuditLog
  unfolding chained_entry store_entry
  append log actor action target msg_type capability_id msg_sequence timestamp =
      store_entry log
        (chained_entry log actor action target msg_type capability_id msg_sequence timestamp)

  -- The loop of `verify_chain`: the index, the rounds left, and the variables `verified`, `prev_hash`
  -- and `first`. An empty slot is passed over. `verified` stays below 512.
  unfoldable pub verify_from : (ℕ → Option AuditEntry) → ℕ → ℕ → ℕ → ℕ → List ℕ → Bool → ℕ × Bool
  unfolding digest
  verify_from entries start i zero verified prev_hash first = (verified, true)
  verify_from entries start i (suc k) verified prev_hash first =
      elim (entries ((start + i) % audit_capacity)) [
        | none ↦ verify_from entries start (i + 1) k verified prev_hash first
        | some e ↦
            let expected = if first then e.prev_hash else prev_hash in
            let rest = verify_from entries start (i + 1) k (verified + 1) e.hash false in
            if not (bytes_eq e.prev_hash expected)
            then (verified, false)
            else if not (bytes_eq e.hash (digest e))
            then (verified, false)
            else rest
      ]

  unfoldable pub verify_chain : AuditLog → ℕ × Bool
  unfolding oldest ring_count
  verify_chain log =
      if log.total_count == 0
      then (0, true)
      else if ring_count log == 0
      then (0, true)
      else verify_from log.entries (oldest log) 0 (ring_count log) 0 zero_hash true
