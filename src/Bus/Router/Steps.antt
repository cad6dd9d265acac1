-- ===== src/Bus/Router/Steps.antt =====
-- kernel/src/bus/router.rs: every state that the bus can reach.
pub mod Sending
pub mod Keep
pub mod Reachable
use fabric_os.Base.{
  ℕ, zero, suc, ◌+◌, ◌≤◌, ◌<◌, ◌≡◌, refl, sym, ap, ◌∙◌, ◌⊎◌, inl, inr, Bool, true, false, List, [],
  ◌∷◌, Option, none, some, length, arith, subst, min, ◌==◌, if◌then◌else◌, leb, Option-cases,
  Bool-cases,
}
use fabric_os.Base.OrdMap
use fabric_os.Base.Results.{Result, ok, err}
use fabric_os.Base.Slots.{update}
use fabric_os.Base.Words.{u64_mod}
use fabric_os.Bus.Arena
use fabric_os.Bus.Arena.{ArenaSlice}
use fabric_os.Bus.Arena.Bounds.{
  InBuffer, new-InBuffer, init-InBuffer, clear-InBuffer, allocate-InBuffer,
}
use fabric_os.Bus.Audit
use fabric_os.Bus.Audit.{AuditLog, audit_capacity}
use fabric_os.Bus.Audit.Chain.{Logged, new-Logged, append-Logged, keep_last}
use fabric_os.Bus.Audit.Verify.{verify_chain-Logged}
use fabric_os.Bus.Monitor
use fabric_os.Bus.Monitor.{MonitorFilter}
use fabric_os.Bus.Queue
use fabric_os.Bus.Queue.{Envelope, InboxQueue}
use fabric_os.Bus.Queue.Fifo.{popped}
use fabric_os.Bus.Router.{
  BusRouter, BusError, new, init, tick, advance_ticks, register_process, unregister_process,
  receive, register_monitor, unregister_monitor, monitor_drain, reject_with_policy, reject, clear,
  max_processes, verify_audit_chain,
}
use fabric_os.Bus.Router.Send.{
  send, store_payload, check_sequence, prechecks, deliver, push_envelope, record_sent,
}
use fabric_os.Bus.Router.Send.Accept.{nonempty}
use fabric_os.Bus.Router.Send.Effect.{send-Effect}
use fabric_os.Bus.Router.Send.Outcome.{Effect, Sent, Refused, logged, envelope_of}
use fabric_os.Bus.Router.Mail.{
  Mail, MailAt, register_process-Mail, unregister_process-Mail, receive-Mail, send-Mail,
  lookup-Mail,
}
use fabric_os.Crypto.{Crypto}
use fabric_os.Wire.Audit.{AuditEntry, AuditAction, policy_violation, message_sent}
use fabric_os.Wire.Header.{MessageHeader}

module _ (crypto : Crypto) (key : List ℕ) where
  -- One operation of the router.
  pub data Step : BusRouter → BusRouter → Type 0 where
    inits : (r : BusRouter) → Step r (init r)
    ticks : (r : BusRouter) → Step r (tick r)
    advances : (r : BusRouter) (n : ℕ) → Step r (advance_ticks r n)
    registers : (r : BusRouter) (p : ℕ) → Step r (register_process r p).0
    unregisters : (r : BusRouter) (p : ℕ) → Step r (unregister_process r p).0
    sends :
        (r : BusRouter) (h : MessageHeader) (payload : Option (List ℕ)) (nonce : ℕ)
        → Step r (send crypto key r h payload nonce).0
    receives : (r : BusRouter) (p : ℕ) → Step r (receive r p).0
    taps : (r : BusRouter) (f : MonitorFilter) → Step r (register_monitor r f).0
    untaps : (r : BusRouter) (id : ℕ) → Step r (unregister_monitor r id).0
    drains : (r : BusRouter) (id : ℕ) → Step r (monitor_drain r id).0
    denies : (r : BusRouter) (h : MessageHeader) → Step r (reject_with_policy crypto r h)
    clears : (r : BusRouter) → Step r (clear r)

  -- The states that `n` operations lead to.
  pub data Reach : ℕ → BusRouter → Type 0 where
    start : Reach 0 new
    next : {n : ℕ} {r r' : BusRouter} → Reach n r → Step r r' → Reach (suc n) r'

  pub record IsSound (r : BusRouter) : Type 0 where
    -- Each inbox is a queue of at most 32 envelopes.
    pub waiting : ℕ → Option (List Envelope)
    pub mail : Mail r waiting
    -- At most 64 processes are registered.
    pub in_order : OrdMap.Keys 0 r.inboxes
    pub few : length r.inboxes ≤ max_processes
    pub in_buffer : InBuffer r.arena
    -- The audit log is an unbroken chain, with one entry for each message sent or rejected.
    pub entries : List AuditEntry
    pub log : Logged crypto r.audit entries
    pub counted : r.audit.total_count ≡ r.total_sent + r.total_rejected

  pub new-IsSound : IsSound new
  unfolding new Arena.new Audit.new
  new-IsSound = record {
    waiting = λ p. none;
    mail = λ p. tt;
    in_order = tt;
    few = omega arith;
    in_buffer = omega arith;
    entries = [];
    log = new-Logged crypto;
    counted = refl;
  }
