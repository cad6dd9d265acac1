-- ===== src/Bus/Router/Send/Outcome.antt =====
-- kernel/src/bus/router.rs: what a message that was sent, or refused, leaves behind.
use fabric_os.Base.{
  ℕ, ◌≡◌, refl, ◌≢◌, ◌⊎◌, inl, inr, true, false, List, Option, none, some, arith, Option-cases,
  Bool-cases,
}
use fabric_os.Base.OrdMap
use fabric_os.Base.Results.{Result, ok, err}
use fabric_os.Base.Words.{add64}
use fabric_os.Bus.Arena
use fabric_os.Bus.Arena.{ArenaSlice, PayloadArena}
use fabric_os.Bus.Arena.Bounds.{InBuffer}
use fabric_os.Bus.Audit
use fabric_os.Bus.Audit.{AuditLog}
use fabric_os.Bus.Monitor
use fabric_os.Bus.Queue
use fabric_os.Bus.Queue.{InboxQueue, Envelope}
use fabric_os.Bus.Router.{BusRouter, BusError, reject, receiver_queue_full}
use fabric_os.Bus.Router.Send.{signed_bytes, record_sent, deliver}
use fabric_os.Capability.HmacEngine.{sign}
use fabric_os.Crypto.{Crypto}
use fabric_os.Wire.Audit.{AuditAction, message_sent, queue_full}
use fabric_os.Wire.Header.{MessageHeader}

-- The slice of the envelope reads the payload in the arena.
abbrev pub PayloadAt : PayloadArena → Option (List ℕ) → Option ArenaSlice → Type 0
PayloadAt a none none = Unit {0}
PayloadAt a none (some s) = ⊥
PayloadAt a (some bytes) none = ⊥
PayloadAt a (some bytes) (some s) = Arena.get a s ≡ some bytes

pub inbox_of :
    (r : BusRouter) (h : MessageHeader)
    → OrdMap.contains_key h.receiver r.inboxes ≡ true
    → (q : InboxQueue) × (OrdMap.lookup h.receiver r.inboxes ≡ some q)
inbox_of r h known = elim (Option-cases (OrdMap.lookup h.receiver r.inboxes)) [
  | inl e ↦ absurd (ground (arith, e))
  | inr found ↦ found
]

module _ (crypto : Crypto) (key : List ℕ) where
  -- The entry that a call of `send` leaves in the audit log.
  abbrev pub logged : BusRouter → MessageHeader → AuditAction → AuditLog
  logged r h action =
      Audit.append crypto r.audit h.sender action h.receiver h.msg_type h.capability_id h.sequence
        r.current_tick

  -- The envelope that a message becomes.
  abbrev pub envelope_of : MessageHeader → Option (List ℕ) → Option ArenaSlice → Envelope
  envelope_of h d slice = record {
    header = h;
    hmac = sign crypto key (signed_bytes h d);
    payload = slice;
  }

  -- A message that was sent: its envelope is the last in the receiver's inbox, has gone to the
  -- monitors, and is in the audit log; no other inbox has changed.
  pub record Sent (r : BusRouter) (h : MessageHeader) (d : Option (List ℕ))
      (slice : Option ArenaSlice) (r' : BusRouter) : Type 0 where
    pub inbox : InboxQueue
    pub known : OrdMap.lookup h.receiver r.inboxes ≡ some inbox
    pub pushed : (Queue.push inbox (envelope_of h d slice)).1 ≡ true
    pub inboxes :
        r'.inboxes ≡ OrdMap.insert h.receiver (Queue.push inbox (envelope_of h d slice)).0 r.inboxes
    pub monitors : r'.monitors ≡ Monitor.notify r.monitors (envelope_of h d slice)
    pub audit : r'.audit ≡ logged r h message_sent
    pub sent : r'.total_sent ≡ add64 r.total_sent 1
    pub rejected : r'.total_rejected ≡ r.total_rejected
    pub tick : r'.current_tick ≡ r.current_tick
    pub in_buffer : InBuffer r.arena → InBuffer r'.arena

  -- A message that was refused: it has left an entry in the audit log that does not say sent, and
  -- one more rejection; inboxes and monitors are as they were.
  pub record Refused (r : BusRouter) (h : MessageHeader) (r' : BusRouter) : Type 0 where
    pub action : AuditAction
    pub not_sent : action ≢ message_sent
    pub inboxes : r'.inboxes ≡ r.inboxes
    pub monitors : r'.monitors ≡ r.monitors
    pub audit : r'.audit ≡ logged r h action
    pub sent : r'.total_sent ≡ r.total_sent
    pub rejected : r'.total_rejected ≡ add64 r.total_rejected 1
    pub tick : r'.current_tick ≡ r.current_tick
    pub in_buffer : InBuffer r.arena → InBuffer r'.arena

  abbrev pub Effect :
      BusRouter → MessageHeader → Option (List ℕ) → BusRouter × Result (Unit {0}) BusError → Type 0
  Effect r h d out =
      ((slice : Option ArenaSlice) × (out.1 ≡ ok tt)
        × Sent r h d slice out.0
        × (InBuffer r.arena → PayloadAt out.0.arena d slice))
      ⊎ ((e : BusError) × (out.1 ≡ err e) × Refused r h out.0)

  pub reject-Refused :
      (r : BusRouter) (h : MessageHeader) (action : AuditAction)
      → action ≢ message_sent
      → Refused r h (reject crypto r h action r.current_tick)
  unfolding reject
  reject-Refused r h action ne = record {
    action = action;
    not_sent = ne;
    inboxes = refl;
    monitors = refl;
    audit = refl;
    sent = refl;
    rejected = refl;
    tick = refl;
    in_buffer = λ v. v;
  }

  deliver_room :
      (r : BusRouter) (h : MessageHeader) (d : Option (List ℕ)) (slice : Option ArenaSlice)
      (inbox : InboxQueue)
      → OrdMap.lookup h.receiver r.inboxes ≡ some inbox
      → (Queue.push inbox (envelope_of h d slice)).1 ≡ true
      → deliver crypto key r h d slice ≡ (
        record_sent crypto key
            (record r {
              inboxes =
                  OrdMap.insert h.receiver (Queue.push inbox (envelope_of h d slice)).0 r.inboxes;
            })
            h
            (envelope_of h d slice),
        ok tt,
      )
  unfolding deliver
  deliver_room r h d slice inbox known room = ground (arith, known, room)

  deliver_full :
      (r : BusRouter) (h : MessageHeader) (d : Option (List ℕ)) (slice : Option ArenaSlice)
      (inbox : InboxQueue)
      → OrdMap.lookup h.receiver r.inboxes ≡ some inbox
      → (Queue.push inbox (envelope_of h d slice)).1 ≡ false
      → deliver crypto key r h d slice
        ≡ (reject crypto r h queue_full r.current_tick, err receiver_queue_full)
  unfolding deliver
  deliver_full r h d slice inbox known full = ground (arith, known, full)

  -- `deliver` to an inbox that is there: the envelope is appended, or the inbox was full.
  pub deliver_cases :
      (r : BusRouter) (h : MessageHeader) (d : Option (List ℕ)) (slice : Option ArenaSlice)
      (inbox : InboxQueue)
      → OrdMap.lookup h.receiver r.inboxes ≡ some inbox
      → (((deliver crypto key r h d slice).1 ≡ ok tt)
          × Sent r h d slice (deliver crypto key r h d slice).0
          × ((deliver crypto key r h d slice).0.arena ≡ r.arena))
        ⊎ ((e : BusError) × ((deliver crypto key r h d slice).1 ≡ err e)
            × Refused r h (deliver crypto key r h d slice).0)
  unfolding record_sent
  deliver_cases r h d slice inbox known =
      elim (Bool-cases (Queue.push inbox (envelope_of h d slice)).1) [
        | inl room ↦ rw (deliver_room r h d slice inbox known room) (
            inl (
              refl,
              record {
                inbox = inbox;
                known = known;
                pushed = room;
                inboxes = refl;
                monitors = refl;
                audit = refl;
                sent = refl;
                rejected = refl;
                tick = refl;
                in_buffer = λ v. v;
              },
              refl,
            ))
        | inr full ↦
            rw (deliver_full r h d slice inbox known full)
              (inr (receiver_queue_full, refl, reject-Refused r h queue_full (λ e. cc)))
      ]
