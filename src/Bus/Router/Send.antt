-- ===== src/Bus/Router/Send.antt =====
-- kernel/src/bus/router.rs: `BusRouter::send`, in the steps that its comment counts.
pub mod Accept
pub mod Effect
pub mod Outcome
use fabric_os.Base.{
  ℕ, ◌+◌, Bool, ◌&&◌, List, [], ◌∷◌, ◌++◌, Option, none, some, ltb, ◌==◌, if◌then◌else◌, length,
  not,
}
use fabric_os.Base.OrdMap
use fabric_os.Base.Results.{Result, ok, err, panic}
use fabric_os.Base.Words.{add64}
use fabric_os.Bus.Arena
use fabric_os.Bus.Arena.{ArenaSlice, max_payload_size}
use fabric_os.Bus.Audit
use fabric_os.Bus.Monitor
use fabric_os.Bus.Queue
use fabric_os.Bus.Queue.{InboxQueue, Envelope}
use fabric_os.Bus.Router.{
  BusRouter, BusError, reject, invalid_version, invalid_sender, sender_not_registered,
  receiver_not_registered, self_send_denied, payload_too_large, payload_length_mismatch,
  sequence_replay, sequence_gap, arena_full, receiver_queue_full,
}
use fabric_os.Bus.Sequence
use fabric_os.Bus.Sequence.{replay, gap}
use fabric_os.Capability.HmacEngine.{sign}
use fabric_os.Crypto.{Crypto}
use fabric_os.Wire.Audit.{message_sent, message_rejected, sequence_violation, queue_full}
use fabric_os.Wire.Header.{MessageHeader, header_version, header_bytes}

-- Step 4: the payload that is sent, if any.
unfoldable pub payload_data : ℕ → Option (List ℕ) → Result (Option (List ℕ)) BusError
payload_data len none = if len == 0 then ok none else err payload_length_mismatch
payload_data len (some bytes) =
    if len == 0 && length bytes == 0
    then ok none
    else if len == length bytes
    then if ltb max_payload_size (length bytes) then err payload_too_large else ok (some bytes)
    else err payload_length_mismatch

-- Steps 1 to 4.
unfoldable pub prechecks :
    BusRouter → MessageHeader → Option (List ℕ) → Result (Option (List ℕ)) BusError
unfolding payload_data
prechecks r h payload =
    if not (h.version == header_version)
    then err invalid_version
    else if h.sender == 0
    then err invalid_sender
    else if not (OrdMap.contains_key h.sender r.inboxes)
    then err sender_not_registered
    else if not (OrdMap.contains_key h.receiver r.inboxes)
    then err receiver_not_registered
    else if h.sender == h.receiver
    then err self_send_denied
    else payload_data h.payload_len payload

-- What step 9 signs: the active bytes, and the payload after them.
unfoldable pub signed_bytes : MessageHeader → Option (List ℕ) → List ℕ
signed_bytes h none = header_bytes h
signed_bytes h (some bytes) = header_bytes h ++ bytes

module _ (crypto : Crypto) (key : List ℕ) where
  -- Steps 11 and 12.
  unfoldable pub record_sent : BusRouter → MessageHeader → Envelope → BusRouter
  record_sent r h env = record r {
    monitors = Monitor.notify r.monitors env;
    audit =
        Audit.append crypto r.audit h.sender message_sent h.receiver h.msg_type h.capability_id
          h.sequence r.current_tick;
    total_sent = add64 r.total_sent 1;
  }

  -- Step 10, on the receiver's inbox.
  unfoldable pub push_envelope :
      BusRouter → MessageHeader → Envelope → InboxQueue → BusRouter × Result (Unit {0}) BusError
  unfolding record_sent
  push_envelope r h env inbox =
      let (inbox', pushed) = Queue.push inbox env in
      if pushed
      then (
        record_sent (record r { inboxes = OrdMap.insert h.receiver inbox' r.inboxes }) h env,
        ok tt,
      )
      else (reject crypto r h queue_full r.current_tick, err receiver_queue_full)

  -- Steps 9 and 10; the inbox is looked up with `unwrap`.
  unfoldable pub deliver :
      BusRouter
      → MessageHeader
      → Option (List ℕ)
      → Option ArenaSlice
      → BusRouter × Result (Unit {0}) BusError
  unfolding push_envelope signed_bytes
  deliver r h bytes slice =
      let env : Envelope = record {
        header = h;
        hmac = sign crypto key (signed_bytes h bytes);
        payload = slice;
      } in
      elim (OrdMap.lookup h.receiver r.inboxes) [
        | none ↦ (r, panic)
        | some inbox ↦ push_envelope r h env inbox
      ]

  -- Step 8.
  unfoldable pub store_payload :
      BusRouter → MessageHeader → Option (List ℕ) → BusRouter × Result (Unit {0}) BusError
  store_payload r h none = deliver r h none none
  store_payload r h (some bytes) =
      let (arena', slice) = Arena.allocate r.arena bytes in
      elim slice [
        | none ↦ (
          reject crypto (record r { arena = arena' }) h message_rejected r.current_tick,
          err arena_full,
        )
        | some s ↦ deliver (record r { arena = arena' }) h (some bytes) (some s)
      ]

  -- Step 7.
  unfoldable pub check_sequence :
      BusRouter → MessageHeader → Option (List ℕ) → BusRouter × Result (Unit {0}) BusError
  check_sequence r h bytes =
      let (sequences', error) = Sequence.check r.sequences h.sender h.sequence in
      let r' = record r { sequences = sequences' } in
      elim error [
        | none ↦ store_payload r' h bytes
        | some replay ↦ (reject crypto r' h sequence_violation r.current_tick, err sequence_replay)
        | some (gap expected got) ↦
            (reject crypto r' h sequence_violation r.current_tick, err (sequence_gap expected got))
      ]

  -- The nonce is not looked at here: bus::send has passed it to the capability store.
  unfoldable pub send :
      BusRouter → MessageHeader → Option (List ℕ) → ℕ → BusRouter × Result (Unit {0}) BusError
  send r h payload nonce = elim (prechecks r h payload) [
    | ok bytes ↦ check_sequence r h bytes
    | err e ↦ (reject crypto r h message_rejected r.current_tick, err e)
    | panic ↦ (r, panic)
  ]
