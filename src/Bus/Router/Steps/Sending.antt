-- ===== src/Bus/Router/Steps/Sending.antt =====
-- kernel/src/bus/router.rs: sending and refusing keep the bus sound.
use fabric_os.Base.{
  ℕ, ◌+◌, ◌≤◌, ◌<◌, ◌≡◌, refl, sym, ap, ◌∙◌, inl, inr, List, Option, length, arith, subst,
}
use fabric_os.Base.OrdMap
use fabric_os.Base.Words.{u64_mod}
use fabric_os.Bus.Arena.{ArenaSlice}
use fabric_os.Bus.Audit
use fabric_os.Bus.Audit.{AuditLog, audit_capacity}
use fabric_os.Bus.Audit.Chain.{Logged, append-Logged, keep_last}
use fabric_os.Bus.Queue
use fabric_os.Bus.Queue.{Envelope, InboxQueue}
use fabric_os.Bus.Router.{BusRouter, reject_with_policy}
use fabric_os.Bus.Router.Send.{send}
use fabric_os.Bus.Router.Send.Accept.{nonempty}
use fabric_os.Bus.Router.Send.Effect.{send-Effect}
use fabric_os.Bus.Router.Send.Outcome.{Sent, Refused, logged, envelope_of}
use fabric_os.Bus.Router.Mail.{Mail, send-Mail}
use fabric_os.Crypto.{Crypto}
use fabric_os.Wire.Audit.{AuditEntry, AuditAction, policy_violation, message_sent}
use fabric_os.Wire.Header.{MessageHeader}
use fabric_os.Bus.Router.Steps.{IsSound}

module _ (crypto : Crypto) (key : List ℕ) where
  -- One entry more in a sound log keeps it sound.
  logged_more :
      (r : BusRouter) (es : List AuditEntry) (h : MessageHeader) (action : AuditAction)
      → Logged crypto r.audit es
      → r.audit.total_count + 1 < u64_mod
      → (fs : List AuditEntry) × Logged crypto (logged crypto key r h action) fs
        × ((logged crypto key r h action).total_count ≡ r.audit.total_count + 1)
  logged_more r es h action v fits = (
    keep_last crypto es (
        Audit.chained_entry crypto r.audit h.sender action h.receiver h.msg_type h.capability_id
          h.sequence r.current_tick),
    append-Logged crypto r.audit es h.sender action h.receiver h.msg_type h.capability_id h.sequence
        r.current_tick v fits,
    unfold Audit.append in omega arith,
  )

  unfoldable pub Fresh : BusRouter → BusRouter → Type 0
  Fresh r r' = IsSound crypto key r' × (r'.audit.total_count ≤ r.audit.total_count + 1)

  Sent-Fresh :
      (r : BusRouter) (h : MessageHeader) (d : Option (List ℕ)) (slice : Option ArenaSlice)
      (r' : BusRouter) (m : ℕ → Option (List Envelope))
      → IsSound crypto key r
      → r.audit.total_count + 1 < u64_mod
      → Mail r' m
      → Sent crypto key r h d slice r'
      → Fresh r r'
  unfolding Fresh
  Sent-Fresh r h d slice r' m v fits mail' s =
      let (fs, log', count) = logged_more r v.entries h message_sent v.log fits in
      let total = ap (λ (a : AuditLog). a.total_count) s.audit ∙ count in
      (
        record {
          waiting = m;
          mail = mail';
          in_order =
              subst (OrdMap.Keys 0) (sym s.inboxes)
                (OrdMap.insert-Keys 0 h.receiver _ r.inboxes (omega arith) v.in_order);
          few = omega (
            arith,
            v.few,
            ap (λ (l : List (ℕ × InboxQueue)). length l) s.inboxes,
            OrdMap.length-insert_known 0 h.receiver
                (Queue.push s.inbox (envelope_of crypto key h d slice)).0 s.inbox r.inboxes
                v.in_order s.known,
          );
          in_buffer = s.in_buffer v.in_buffer;
          entries = fs;
          log = subst (λ a. Logged crypto a fs) (sym s.audit) log';
          counted = omega (arith, total, s.sent, s.rejected, v.counted);
        },
        omega (arith, total),
      )

  pub Refused-Fresh :
      (r : BusRouter) (h : MessageHeader) (r' : BusRouter) (m : ℕ → Option (List Envelope))
      → IsSound crypto key r
      → r.audit.total_count + 1 < u64_mod
      → Mail r' m
      → Refused crypto key r h r'
      → Fresh r r'
  unfolding Fresh
  Refused-Fresh r h r' m v fits mail' s =
      let (fs, log', count) = logged_more r v.entries h s.action v.log fits in
      let total = ap (λ (a : AuditLog). a.total_count) s.audit ∙ count in
      (
        record {
          waiting = m;
          mail = mail';
          in_order = subst (OrdMap.Keys 0) (sym s.inboxes) v.in_order;
          few = omega (arith, v.few, ap (λ (l : List (ℕ × InboxQueue)). length l) s.inboxes);
          in_buffer = s.in_buffer v.in_buffer;
          entries = fs;
          log = subst (λ a. Logged crypto a fs) (sym s.audit) log';
          counted = omega (arith, total, s.sent, s.rejected, v.counted);
        },
        omega (arith, total),
      )

  pub send-Fresh :
      (r : BusRouter) (h : MessageHeader) (payload : Option (List ℕ)) (nonce : ℕ)
      → IsSound crypto key r
      → r.audit.total_count + 1 < u64_mod
      → Fresh r (send crypto key r h payload nonce).0
  send-Fresh r h payload nonce v fits =
      let r' = (send crypto key r h payload nonce).0 in
      let after : (m : ℕ → Option (List Envelope)) × Mail r' m =
        elim (send-Mail crypto key r v.waiting h payload nonce v.mail) [
          | inl (xs, slice, _, _, _, w) ↦ (_, w)
          | inr (e, _, w) ↦ (v.waiting, w)
        ] in
      elim (send-Effect crypto key r h payload nonce) [
        | inl (slice, _, s, _) ↦ Sent-Fresh r h (nonempty payload) slice r' after.0 v fits after.1 s
        | inr (e, _, s) ↦ Refused-Fresh r h r' after.0 v fits after.1 s
      ]

  pub denies-Refused :
      (r : BusRouter) (h : MessageHeader) → Refused crypto key r h (reject_with_policy crypto r h)
  unfolding reject_with_policy
  denies-Refused r h = record {
    action = policy_violation;
    not_sent = λ e. cc;
    inboxes = refl;
    monitors = refl;
    audit = refl;
    sent = refl;
    rejected = refl;
    tick = refl;
    in_buffer = λ b. b;
  }
