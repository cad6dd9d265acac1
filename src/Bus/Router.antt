-- ===== src/Bus/Router.antt =====
-- kernel/src/bus/router.rs: the router, which holds the state of the bus.
pub mod Send
pub mod Mail
pub mod Steps
use fabric_os.Base.{
  ℕ, ◌+◌, Bool, List, [], ◌∷◌, Option, none, some, leb, ◌==◌, if◌then◌else◌, length, is_some, not,
}
use fabric_os.Base.OrdMap
use fabric_os.Base.Results.{Result, ok, err}
use fabric_os.Base.Words.{add64}
use fabric_os.Capability.Errors.{CapabilityError}
use fabric_os.Bus.Arena
use fabric_os.Bus.Arena.{PayloadArena, ArenaSlice}
use fabric_os.Bus.Audit
use fabric_os.Bus.Audit.{AuditLog}
use fabric_os.Bus.Monitor
use fabric_os.Bus.Monitor.{MonitorRegistry, MonitorFilter}
use fabric_os.Bus.Queue
use fabric_os.Bus.Queue.{InboxQueue, Envelope}
use fabric_os.Bus.Sequence
use fabric_os.Bus.Sequence.{SequenceTracker}
use fabric_os.Crypto.{Crypto}
use fabric_os.Wire.Audit.{AuditAction, policy_violation}
use fabric_os.Wire.Header.{MessageHeader}

-- `MAX_PROCESSES`
abbrev pub max_processes : ℕ
max_processes = 64

pub data BusError : Type 0 where
  sender_not_registered receiver_not_registered receiver_queue_full self_send_denied : BusError
  capability_invalid : CapabilityError → BusError
  owner_mismatch hmac_verification_failed sequence_replay : BusError
  sequence_gap : ℕ → ℕ → BusError
  invalid_version invalid_sender payload_length_mismatch payload_too_large : BusError
  arena_full monitor_limit_reached monitor_not_found : BusError
  process_already_registered process_limit_reached policy_denied not_initialized : BusError

pub record BusRouter : Type 0 where
  pub inboxes : List (ℕ × InboxQueue)
  pub arena : PayloadArena
  pub sequences : SequenceTracker
  pub monitors : MonitorRegistry
  pub audit : AuditLog
  pub current_tick : ℕ
  pub total_sent : ℕ
  pub total_rejected : ℕ

unfoldable pub new : BusRouter
new = record {
  inboxes = [];
  arena = Arena.new;
  sequences = Sequence.new;
  monitors = Monitor.new;
  audit = Audit.new;
  current_tick = 0;
  total_sent = 0;
  total_rejected = 0;
}

unfoldable pub init : BusRouter → BusRouter
init r = record r { arena = Arena.init r.arena }

unfoldable pub tick : BusRouter → BusRouter
tick r = record r { current_tick = add64 r.current_tick 1 }

unfoldable pub advance_ticks : BusRouter → ℕ → BusRouter
advance_ticks r n = record r { current_tick = add64 r.current_tick n }

unfoldable pub register_process : BusRouter → ℕ → BusRouter × Result (Unit {0}) BusError
register_process r pid =
    if pid == 0
    then (r, err invalid_sender)
    else if OrdMap.contains_key pid r.inboxes
    then (r, err process_already_registered)
    else if leb max_processes (length r.inboxes)
    then (r, err process_limit_reached)
    else (record r { inboxes = OrdMap.insert pid Queue.new r.inboxes }, ok tt)

unfoldable pub unregister_process : BusRouter → ℕ → BusRouter × Result (Unit {0}) BusError
unregister_process r pid =
    if OrdMap.contains_key pid r.inboxes
    then (
      record r {
        inboxes = OrdMap.remove pid r.inboxes;
        sequences = Sequence.remove r.sequences pid;
      },
      ok tt,
    )
    else (r, err receiver_not_registered)

unfoldable pub receive : BusRouter → ℕ → BusRouter × Option Envelope
receive r pid = elim (OrdMap.lookup pid r.inboxes) [
  | none ↦ (r, none)
  | some inbox ↦
      let (inbox', env) = Queue.pop inbox in
      (record r { inboxes = OrdMap.insert pid inbox' r.inboxes }, env)
]

unfoldable pub peek : BusRouter → ℕ → Option Envelope
peek r pid = elim (OrdMap.lookup pid r.inboxes) [ none ↦ none | some inbox ↦ Queue.peek inbox ]

-- `none` where reading the slice panics.
unfoldable pub payload : BusRouter → ArenaSlice → Option (List ℕ)
payload r slice = Arena.get r.arena slice

unfoldable pub register_monitor : BusRouter → MonitorFilter → BusRouter × Result ℕ BusError
register_monitor r filter =
    let (monitors', id) = Monitor.register r.monitors filter in
    (
      record r { monitors = monitors' },
      elim id [ none ↦ err monitor_limit_reached | some n ↦ ok n ],
    )

unfoldable pub unregister_monitor : BusRouter → ℕ → BusRouter × Result (Unit {0}) BusError
unregister_monitor r tap_id =
    let (monitors', found) = Monitor.unregister r.monitors tap_id in
    (record r { monitors = monitors' }, if found then ok tt else err monitor_not_found)

unfoldable pub monitor_drain : BusRouter → ℕ → BusRouter × Option Envelope
monitor_drain r tap_id =
    let (monitors', event) = Monitor.drain r.monitors tap_id in
    (record r { monitors = monitors' }, event)

unfoldable pub monitor_pending : BusRouter → ℕ → ℕ
monitor_pending r tap_id = Monitor.pending_count r.monitors tap_id

unfoldable pub stats : BusRouter → ℕ × ℕ
stats r = (r.total_sent, r.total_rejected)

unfoldable pub pending_count : BusRouter → ℕ → ℕ
pending_count r pid = elim (OrdMap.lookup pid r.inboxes) [ none ↦ 0 | some q ↦ Queue.len q ]

unfoldable pub is_registered : BusRouter → ℕ → Bool
is_registered r pid = OrdMap.contains_key pid r.inboxes

unfoldable pub clear : BusRouter → BusRouter
clear r = record {
  inboxes = [];
  arena = Arena.clear r.arena;
  sequences = Sequence.clear r.sequences;
  monitors = Monitor.clear r.monitors;
  audit = Audit.clear r.audit;
  current_tick = 0;
  total_sent = 0;
  total_rejected = 0;
}

module _ (crypto : Crypto) where
  unfoldable pub verify_audit_chain : BusRouter → ℕ × Bool
  verify_audit_chain r = Audit.verify_chain crypto r.audit

  -- One audit entry and one more rejection, as `reject` and the other error paths of `send` do it.
  unfoldable pub reject : BusRouter → MessageHeader → AuditAction → ℕ → BusRouter
  reject r h action ts = record r {
    audit =
        Audit.append crypto r.audit h.sender action h.receiver h.msg_type h.capability_id h.sequence
          ts;
    total_rejected = add64 r.total_rejected 1;
  }

  unfoldable pub reject_with_policy : BusRouter → MessageHeader → BusRouter
  unfolding reject
  reject_with_policy r h = reject r h policy_violation r.current_tick
