-- ===== src/Bus/Router/Steps/Keep.antt =====
-- kernel/src/bus/router.rs: the other operations keep the bus sound.
use fabric_os.Base.{
  ℕ, ◌≤◌, ◌<◌, ◌≡◌, refl, sym, ap, ◌⊎◌, inl, inr, List, [], Option, none, some, length, arith,
  subst, Option-cases, Bool-cases,
}
use fabric_os.Base.OrdMap
use fabric_os.Base.Results.{ok}
use fabric_os.Base.Slots.{update}
use fabric_os.Bus.Arena
use fabric_os.Bus.Arena.{ArenaSlice}
use fabric_os.Bus.Arena.Bounds.{InBuffer}
use fabric_os.Bus.Audit
use fabric_os.Bus.Audit.{AuditLog, audit_capacity}
use fabric_os.Bus.Audit.Chain.{Logged, new-Logged}
use fabric_os.Bus.Queue
use fabric_os.Bus.Queue.{Envelope, InboxQueue}
use fabric_os.Bus.Queue.Fifo.{popped}
use fabric_os.Bus.Router.{
  BusRouter, register_process, unregister_process, receive, clear, max_processes,
}
use fabric_os.Bus.Router.Mail.{
  Mail, MailAt, register_process-Mail, unregister_process-Mail, receive-Mail, lookup-Mail,
}
use fabric_os.Crypto.{Crypto}
use fabric_os.Bus.Router.Steps.{IsSound}
use fabric_os.Bus.Router.Steps.Sending.{Fresh}

module _ (crypto : Crypto) (key : List ℕ) where
  -- An operation that writes nothing to the audit log.
  pub quiet-Fresh :
      (r r' : BusRouter) (m : ℕ → Option (List Envelope))
      → IsSound crypto key r
      → Mail r' m
      → OrdMap.Keys 0 r'.inboxes
      → length r'.inboxes ≤ max_processes
      → InBuffer r'.arena
      → r'.audit ≡ r.audit
      → r'.total_sent ≡ r.total_sent
      → r'.total_rejected ≡ r.total_rejected
      → Fresh crypto key r r'
  unfolding Fresh
  quiet-Fresh r r' m v mail' keys small b a s j =
      let total = ap (λ (l : AuditLog). l.total_count) a in
      (
        record {
          waiting = m;
          mail = mail';
          in_order = keys;
          few = small;
          in_buffer = b;
          entries = v.entries;
          log = subst (λ l. Logged crypto l v.entries) (sym a) v.log;
          counted = omega (arith, total, s, j, v.counted);
        },
        omega (arith, total),
      )

  -- One that leaves the inboxes and the arena too.
  pub idle-Fresh :
      (r r' : BusRouter)
      → IsSound crypto key r
      → r'.inboxes ≡ r.inboxes
      → r'.arena ≡ r.arena
      → r'.audit ≡ r.audit
      → r'.total_sent ≡ r.total_sent
      → r'.total_rejected ≡ r.total_rejected
      → Fresh crypto key r r'
  idle-Fresh r r' v i b a s j =
      quiet-Fresh r r' v.waiting v
        (λ p. subst (λ l. MailAt (OrdMap.lookup p l) (v.waiting p)) (sym i) (v.mail p))
        (subst (OrdMap.Keys 0) (sym i) v.in_order)
        (omega (arith, v.few, ap (λ (l : List (ℕ × InboxQueue)). length l) i))
        (subst InBuffer (sym b) v.in_buffer) a s j

  registered :
      (r : BusRouter) (p : ℕ)
      → (register_process r p).1 ≡ ok tt
      → (length r.inboxes < max_processes)
        × ((register_process r p).0 ≡ record r { inboxes = OrdMap.insert p Queue.new r.inboxes })
  unfolding register_process
  registered r p h = ground arith

  pub register-Fresh :
      (r : BusRouter) (p : ℕ) → IsSound crypto key r → Fresh crypto key r (register_process r p).0
  register-Fresh r p v = elim (register_process-Mail r v.waiting p v.mail) [
    | inr (e, _, same) ↦
        subst (Fresh crypto key r) (sym same) (idle-Fresh r r v refl refl refl refl refl)
    | inl (fine, _, mail') ↦
        let (room, shape) = registered r p fine in
        let m = update v.waiting p (some []) in
        subst (Fresh crypto key r) (sym shape) (
          quiet-Fresh r (record r { inboxes = OrdMap.insert p Queue.new r.inboxes }) m v
            (subst (λ q. Mail q m) shape mail')
            (OrdMap.insert-Keys 0 p Queue.new r.inboxes (omega arith) v.in_order)
            (omega (arith, OrdMap.length-insert-le p Queue.new r.inboxes)) v.in_buffer refl refl
            refl)
  ]

  unregistered :
      (r : BusRouter) (p : ℕ)
      → ((unregister_process r p).0.inboxes ≡ OrdMap.remove p r.inboxes)
        ⊎ ((unregister_process r p).0.inboxes ≡ r.inboxes)
  unfolding unregister_process
  unregistered r p = elim (Bool-cases (OrdMap.contains_key p r.inboxes)) [
    | inl known ↦ inl (ground (arith, known))
    | inr unknown ↦ inr (ground (arith, unknown))
  ]

  unregistered_rest :
      (r : BusRouter) (p : ℕ)
      → let r' = (unregister_process r p).0 in
        (r'.arena ≡ r.arena)
        × (r'.audit ≡ r.audit)
        × (r'.total_sent ≡ r.total_sent)
        × (r'.total_rejected ≡ r.total_rejected)
  unfolding unregister_process
  unregistered_rest r p = (ground arith, ground arith, ground arith, ground arith)

  pub unregister-Fresh :
      (r : BusRouter) (p : ℕ) → IsSound crypto key r → Fresh crypto key r (unregister_process r p).0
  unregister-Fresh r p v =
      let r' = (unregister_process r p).0 in
      let (same_arena, same_audit, same_sent, same_rejected) = unregistered_rest r p in
      let fewer : OrdMap.Keys 0 r'.inboxes × (length r'.inboxes ≤ max_processes) =
        elim (unregistered r p) [
          | inl e ↦ rw e (
            OrdMap.remove-Keys 0 p r.inboxes v.in_order,
            omega (arith, v.few, OrdMap.length-remove-le p r.inboxes),
          )
          | inr e ↦ rw e (v.in_order, v.few)
        ] in
      quiet-Fresh r r' (update v.waiting p none) v (unregister_process-Mail r v.waiting p v.mail)
        fewer.0 fewer.1 (subst InBuffer (sym same_arena) v.in_buffer) same_audit same_sent
        same_rejected

  received :
      (r : BusRouter) (p : ℕ) (q : InboxQueue)
      → OrdMap.lookup p r.inboxes ≡ some q
      → (receive r p).0 ≡ record r { inboxes = OrdMap.insert p (Queue.pop q).0 r.inboxes }
  unfolding receive
  received r p q known = ground (arith, known)

  received_none : (r : BusRouter) (p : ℕ) → OrdMap.lookup p r.inboxes ≡ none → (receive r p).0 ≡ r
  unfolding receive
  received_none r p absent = ground (arith, absent)

  pub receive-Fresh :
      (r : BusRouter) (p : ℕ) → IsSound crypto key r → Fresh crypto key r (receive r p).0
  receive-Fresh r p v = elim (Option-cases (OrdMap.lookup p r.inboxes)) [
    | inl absent ↦
        subst (Fresh crypto key r) (sym (received_none r p absent))
          (idle-Fresh r r v refl refl refl refl refl)
    | inr (q, known) ↦
        let shape = received r p q known in
        let (xs, waiting, _) = lookup-Mail r v.waiting p q v.mail known in
        let m = update v.waiting p (some (popped xs).0) in
        subst (Fresh crypto key r) (sym shape) (
          quiet-Fresh r (record r { inboxes = OrdMap.insert p (Queue.pop q).0 r.inboxes }) m v
            (subst (λ s. Mail s m) shape (receive-Mail r v.waiting p xs v.mail waiting).1)
            (OrdMap.insert-Keys 0 p (Queue.pop q).0 r.inboxes (omega arith) v.in_order)
            (omega (
              arith,
              v.few,
              OrdMap.length-insert_known 0 p (Queue.pop q).0 q r.inboxes v.in_order known,
            ))
            v.in_buffer refl refl refl)
  ]

  pub clear-Fresh : (r : BusRouter) → Fresh crypto key r (clear r)
  unfolding Fresh clear Arena.clear Audit.clear
  clear-Fresh r = (
    record {
      waiting = λ p. none;
      mail = λ p. tt;
      in_order = tt;
      few = omega arith;
      in_buffer = omega arith;
      entries = [];
      log = unfold Audit.new in new-Logged crypto;
      counted = refl;
    },
    omega arith,
  )
