-- ===== src/Tests/Logging.antt =====
-- The theorems on the audit log and on signing, with an example of the hash.
use fabric_os.Base.{ℕ, ◌≡◌, ◌≢◌, ◌⊎◌, ◌↔◌, refl, ap, [], ◌∷◌, min, true, arith, ◌<◌}
use fabric_os.Bus.Audit
use fabric_os.Bus.Audit.{
  AuditLog, append, chained_entry, verify_chain, audit_capacity, hash_input, digest,
}
use fabric_os.Bus.Audit.Chain.{append-Logged, new-Logged}
use fabric_os.Bus.Audit.Verify.{Event, append_all, verify_chain-append_all, verify_chain-Logged}
use fabric_os.Bus.Audit.Tamper.{Stored, LinkedAll, SameRecord, verify_chain_iff, replaced_entry}
use fabric_os.Tests.Data.{toy_crypto, hello}
use fabric_os.Wire.Audit.{AuditEntry, EntryFits, message_sent, hashable_bytes, action_code}
use fabric_os.Base.Bytes.{to_le}
use fabric_os.Wire.Header.{MessageHeader, HeaderFits}
use fabric_os.Wire.Token.{CapabilityToken, TokenFits, zeroed_token}

abbrev sent_once : Event
sent_once = record {
  actor = 1;
  action = message_sent;
  target = 2;
  msg_type = 0;
  capability_id = 0;
  msg_sequence = 1;
  timestamp = 0;
}

verify_chain-append_all_example :
    verify_chain toy_crypto (append_all toy_crypto Audit.new (sent_once ∷ sent_once ∷ []))
    ≡ (min 2 audit_capacity, true)
verify_chain-append_all_example =
    verify_chain-append_all toy_crypto (sent_once ∷ sent_once ∷ []) (omega arith)

-- A log of one entry, from `actor` to `target`.
abbrev one_entry : ℕ → ℕ → AuditLog
one_entry actor target = append toy_crypto Audit.new actor message_sent target 0 0 1 0

abbrev entry : ℕ → ℕ → AuditEntry
entry actor target = chained_entry toy_crypto Audit.new actor message_sent target 0 0 1 0

entry-Stored :
    (actor target : ℕ) → Stored toy_crypto (one_entry actor target) (entry actor target ∷ [])
unfolding append Audit.new Audit.store_entry Audit.oldest Audit.ring_count
entry-Stored actor target = record { held = (refl, tt); oldest_in = omega arith; counted = refl }

verify_chain_iff_example :
    ((verify_chain toy_crypto (one_entry 1 2)).1 ≡ true) ↔ LinkedAll toy_crypto (entry 1 2 ∷ [])
verify_chain_iff_example =
    verify_chain_iff toy_crypto (one_entry 1 2) (entry 1 2 ∷ []) (entry-Stored 1 2)

entry-verified : (actor target : ℕ) → (verify_chain toy_crypto (one_entry actor target)).1 ≡ true
entry-verified actor target =
    ap (λ r. r.1)
      (verify_chain-Logged toy_crypto (one_entry actor target) _ (
        append-Logged toy_crypto Audit.new [] actor message_sent target 0 0 1 0
          (new-Logged toy_crypto) (unfold Audit.new in omega arith)))

same_hash : (entry 1 2).hash ≡ (entry 2 1).hash
unfolding chained_entry digest hash_input Audit.new hashable_bytes action_code to_le
same_hash = refl

entry-EntryFits : (actor target : ℕ) → actor < 9 → target < 9 → EntryFits (entry actor target)
unfolding chained_entry Audit.new
entry-EntryFits actor target p q = record {
  sequence_fits = omega arith;
  timestamp_fits = omega arith;
  actor_fits = omega arith;
  target_fits = omega arith;
  msg_type_fits = omega arith;
  capability_id_fits = omega arith;
  msg_sequence_fits = omega arith;
  prev_hash_fits = refl;
}

replaced_entry_example :
    SameRecord (entry 1 2) (entry 2 1)
    ⊎ ((hash_input (entry 1 2) ≢ hash_input (entry 2 1))
        × (toy_crypto.sha3_256 (hash_input (entry 1 2))
            ≡ toy_crypto.sha3_256 (hash_input (entry 2 1))))
replaced_entry_example =
    replaced_entry toy_crypto (one_entry 1 2) (one_entry 2 1) [] [] (entry 1 2) (entry 2 1)
      (entry-Stored 1 2) (entry-Stored 2 1) (entry-verified 1 2) (entry-verified 2 1) same_hash
      (entry-EntryFits 1 2 (omega arith) (omega arith))
      (entry-EntryFits 2 1 (omega arith) (omega arith))

hello-HeaderFits : HeaderFits hello
hello-HeaderFits = record {
  version_fits = omega arith;
  msg_type_fits = omega arith;
  sender_fits = omega arith;
  receiver_fits = omega arith;
  payload_len_fits = omega arith;
  capability_id_fits = omega arith;
  sequence_fits = omega arith;
  timestamp_fits = omega arith;
}

-- The extension pointer is not among the active bytes.
abbrev extended : MessageHeader
extended = record hello { extension_ptr = 9 }

abbrev linked_token : CapabilityToken
linked_token = record zeroed_token { extension_ptr = 9 }

token-TokenFits : (p : ℕ) → TokenFits record zeroed_token { extension_ptr = p }
token-TokenFits p = record {
  version_fits = omega arith;
  permissions_fits = omega arith;
  owner_fits = omega arith;
  id_fits = omega arith;
  resource_fits = omega arith;
  delegated_from_fits = omega arith;
  nonce_fits = omega arith;
  expires_fits = omega arith;
}
