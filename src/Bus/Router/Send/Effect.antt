-- ===== src/Bus/Router/Send/Effect.antt =====
-- kernel/src/bus/router.rs: what `send` does to the bus on each of its paths.
use fabric_os.Base.{ℕ, ◌≡◌, refl, inl, inr, List, Option, none, some, Option-cases, subst}
use fabric_os.Base.OrdMap
use fabric_os.Base.Results.{Result, err, Result-cases}
use fabric_os.Bus.Arena
use fabric_os.Bus.Arena.{ArenaSlice, PayloadArena}
use fabric_os.Bus.Arena.Bounds.{InBuffer, allocate-InBuffer}
use fabric_os.Bus.Arena.Payloads.{get-allocate}
use fabric_os.Bus.Queue.{InboxQueue}
use fabric_os.Bus.Router.{BusRouter, BusError, reject, arena_full, sequence_replay, sequence_gap}
use fabric_os.Bus.Router.Send.{store_payload, check_sequence, prechecks, send}
use fabric_os.Bus.Router.Send.Accept.{prechecks_ok, prechecks-ne-panic, nonempty}
use fabric_os.Bus.Sequence
use fabric_os.Bus.Sequence.{SequenceTracker, SequenceError, replay, gap}
use fabric_os.Crypto.{Crypto}
use fabric_os.Wire.Audit.{message_rejected, sequence_violation}
use fabric_os.Wire.Header.{MessageHeader}
use fabric_os.Bus.Router.Send.Outcome.{
  inbox_of, Sent, Refused, Effect, reject-Refused, deliver_cases,
}

module _ (crypto : Crypto) (key : List ℕ) where
  -- Neither outcome depends on the arena or the sequence numbers before the call.
  Refused-moved :
      (r r' : BusRouter) (h : MessageHeader) (a : PayloadArena) (t : SequenceTracker)
      → (InBuffer r.arena → InBuffer a)
      → Refused crypto key (record r { arena = a; sequences = t }) h r'
      → Refused crypto key r h r'
  Refused-moved r r' h a t keep v = record {
    action = v.action;
    not_sent = v.not_sent;
    inboxes = v.inboxes;
    monitors = v.monitors;
    audit = v.audit;
    sent = v.sent;
    rejected = v.rejected;
    tick = v.tick;
    in_buffer = λ b. v.in_buffer (keep b);
  }

  Sent-moved :
      (r r' : BusRouter) (h : MessageHeader) (d : Option (List ℕ)) (slice : Option ArenaSlice)
      (a : PayloadArena) (t : SequenceTracker)
      → (InBuffer r.arena → InBuffer a)
      → Sent crypto key (record r { arena = a; sequences = t }) h d slice r'
      → Sent crypto key r h d slice r'
  Sent-moved r r' h d slice a t keep v = record {
    inbox = v.inbox;
    known = v.known;
    pushed = v.pushed;
    inboxes = v.inboxes;
    monitors = v.monitors;
    audit = v.audit;
    sent = v.sent;
    rejected = v.rejected;
    tick = v.tick;
    in_buffer = λ b. v.in_buffer (keep b);
  }

  store_payload-Effect :
      (r : BusRouter) (h : MessageHeader) (d : Option (List ℕ)) (inbox : InboxQueue)
      → OrdMap.lookup h.receiver r.inboxes ≡ some inbox
      → Effect crypto key r h d (store_payload crypto key r h d)
  unfolding store_payload
  store_payload-Effect r h none inbox known =
      elim (deliver_cases crypto key r h none none inbox known) [
        | inl (fine, sent, _) ↦ inl (none, fine, sent, λ v. tt)
        | inr refused ↦ inr refused
      ]
  store_payload-Effect r h (some bytes) inbox known =
      elim (Option-cases (Arena.allocate r.arena bytes).1) [
        | inl failed ↦
            rw (failed, store_payload)
              (inr (
                arena_full,
                refl,
                Refused-moved r _ h (Arena.allocate r.arena bytes).0 r.sequences
                    (allocate-InBuffer r.arena bytes)
                    (reject-Refused crypto key
                      (record r { arena = (Arena.allocate r.arena bytes).0 }) h message_rejected
                      (λ e. cc)),
              ))
        | inr (s, stored) ↦
            let a = (Arena.allocate r.arena bytes).0 in
            rw (stored, store_payload)
              (elim (deliver_cases crypto key (record r { arena = a }) h (some bytes) (some s) inbox
                known) [
                  | inl (fine, sent, same) ↦ inl (
                    some s,
                    fine,
                    Sent-moved r _ h (some bytes) (some s) a r.sequences
                        (allocate-InBuffer r.arena bytes) sent,
                    λ v. rw same (get-allocate r.arena bytes s v stored),
                  )
                  | inr (e, failed, refused) ↦ inr (
                    e,
                    failed,
                    Refused-moved r _ h a r.sequences (allocate-InBuffer r.arena bytes) refused,
                  )
                ])
      ]

  sequence_refused :
      (r : BusRouter) (h : MessageHeader) (d : Option (List ℕ)) (t : SequenceTracker)
      (e : SequenceError)
      → Effect crypto key r h d (elim e as (λ x. BusRouter × Result (Unit {0}) BusError) [
        | replay ↦ (
          reject crypto (record r { sequences = t }) h sequence_violation r.current_tick,
          err sequence_replay,
        )
        | gap expected got ↦ (
          reject crypto (record r { sequences = t }) h sequence_violation r.current_tick,
          err (sequence_gap expected got),
        )
      ])
  sequence_refused r h d t replay = inr (
    sequence_replay,
    refl,
    Refused-moved r _ h r.arena t (λ b. b)
        (reject-Refused crypto key (record r { sequences = t }) h sequence_violation (λ e. cc)),
  )
  sequence_refused r h d t (gap expected got) = inr (
    sequence_gap expected got,
    refl,
    Refused-moved r _ h r.arena t (λ b. b)
        (reject-Refused crypto key (record r { sequences = t }) h sequence_violation (λ e. cc)),
  )

  check_sequence-Effect :
      (r : BusRouter) (h : MessageHeader) (d : Option (List ℕ)) (inbox : InboxQueue)
      → OrdMap.lookup h.receiver r.inboxes ≡ some inbox
      → Effect crypto key r h d (check_sequence crypto key r h d)
  unfolding check_sequence
  check_sequence-Effect r h d inbox known =
      elim (Option-cases (Sequence.check r.sequences h.sender h.sequence).1) [
        | inl fine ↦
            let t = (Sequence.check r.sequences h.sender h.sequence).0 in
            rw (fine, check_sequence)
              (elim (store_payload-Effect (record r { sequences = t }) h d inbox known) [
                | inl (slice, done, sent, reads) ↦
                    inl (slice, done, Sent-moved r _ h d slice r.arena t (λ b. b) sent, reads)
                | inr (e, failed, refused) ↦
                    inr (e, failed, Refused-moved r _ h r.arena t (λ b. b) refused)
              ])
        | inr (e, refused) ↦
            rw (refused, check_sequence)
              (sequence_refused r h d (Sequence.check r.sequences h.sender h.sequence).0 e)
      ]

  -- Every call of `send` returns, without a panic, with one of two outcomes: the message was sent, and
  -- the slice of its envelope reads its payload, or it was refused with an error.
  pub send-Effect :
      (r : BusRouter) (h : MessageHeader) (payload : Option (List ℕ)) (nonce : ℕ)
      → Effect crypto key r h (nonempty payload) (send crypto key r h payload nonce)
  unfolding send
  send-Effect r h payload nonce = elim (Result-cases (prechecks r h payload)) [
    | inl (d, e) ↦
        let (c, same) = prechecks_ok r h payload d e in
        let (inbox, known) = inbox_of r h c.receiver_known in
        rw (e, send)
          (subst (λ p. Effect crypto key r h p (check_sequence crypto key r h d)) same
            (check_sequence-Effect r h d inbox known))
    | inr (inl (x, e)) ↦
        rw (e, send) (inr (x, refl, reject-Refused crypto key r h message_rejected (λ q. cc)))
    | inr (inr e) ↦ absurd (prechecks-ne-panic r h payload e)
  ]
