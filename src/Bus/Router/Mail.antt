-- ===== src/Bus/Router/Mail.antt =====
-- kernel/src/bus/router.rs: the bus as one first-in first-out queue for each registered process.
use fabric_os.Base.{
  ℕ, ◌≡◌, refl, sym, ◌⊎◌, inl, inr, Bool, true, false, List, [], ◌∷◌, ◌++◌, Option, none, some,
  length, arith, subst, ◌==◌, if◌then◌else◌, Option-cases, Bool-cases, ltb, leb, ltb→lt, ◌<◌,
}
use fabric_os.Base.OrdMap
use fabric_os.Base.OrdMap.{lookup-insert, lookup-remove}
use fabric_os.Base.Results.{Result, ok, err}
use fabric_os.Base.Slots.{update}
use fabric_os.Bus.Arena.{ArenaSlice}
use fabric_os.Bus.Queue
use fabric_os.Bus.Queue.{InboxQueue, Envelope, queue_capacity}
use fabric_os.Bus.Queue.Fifo.{Represents, popped, new-Represents, push-Represents, pop-Represents}
use fabric_os.Bus.Router.{
  BusRouter, BusError, invalid_sender, process_already_registered, process_limit_reached,
  register_process, unregister_process, receive, max_processes,
}
use fabric_os.Bus.Router.Send.{send}
use fabric_os.Bus.Router.Send.Accept.{nonempty}
use fabric_os.Bus.Router.Send.Effect.{send-Effect}
use fabric_os.Bus.Router.Send.Outcome.{Sent, envelope_of}
use fabric_os.Crypto.{Crypto}
use fabric_os.Wire.Header.{MessageHeader}

abbrev pub MailAt : Option InboxQueue → Option (List Envelope) → Type 0
MailAt none none = Unit {0}
MailAt none (some xs) = ⊥
MailAt (some q) none = ⊥
MailAt (some q) (some xs) = Represents q xs

-- `m` gives the waiting envelopes of each registered process, oldest first.
abbrev pub Mail : BusRouter → (ℕ → Option (List Envelope)) → Type 0
Mail r m = (p : ℕ) → MailAt (OrdMap.lookup p r.inboxes) (m p)

-- One inbox replaced.
Mail-insert :
    (inboxes : List (ℕ × InboxQueue)) (m : ℕ → Option (List Envelope)) (k : ℕ) (q : InboxQueue)
    (xs : List Envelope)
    → ((p : ℕ) → MailAt (OrdMap.lookup p inboxes) (m p))
    → Represents q xs
    → (p : ℕ) → MailAt (OrdMap.lookup p (OrdMap.insert k q inboxes)) (update m k (some xs) p)
Mail-insert inboxes m k q xs v r p = elim (Bool-cases (k == p)) [
  | inl here ↦ rw (OrdMap.lookup-insert k p q inboxes, here) r
  | inr other ↦ rw (OrdMap.lookup-insert k p q inboxes, other) (v p)
]

-- A process with an inbox has waiting envelopes.
pub lookup-Mail :
    (r : BusRouter) (m : ℕ → Option (List Envelope)) (p : ℕ) (q : InboxQueue)
    → Mail r m
    → OrdMap.lookup p r.inboxes ≡ some q
    → (xs : List Envelope) × (m p ≡ some xs) × Represents q xs
lookup-Mail r m p q v known = go (m p) refl (subst (λ o. MailAt o (m p)) known (v p))
  where
    go :
        (o : Option (List Envelope))
        → m p ≡ o
        → MailAt (some q) (m p)
        → (xs : List Envelope) × (m p ≡ some xs) × Represents q xs
    go none e h = absurd (subst (MailAt (some q)) e h)
    go (some xs) e h = (xs, e, subst (MailAt (some q)) e h)

no_mail :
    (r : BusRouter) (m : ℕ → Option (List Envelope)) (p : ℕ)
    → Mail r m
    → OrdMap.lookup p r.inboxes ≡ none
    → m p ≡ none
no_mail r m p v absent = go (m p) (subst (λ o. MailAt o (m p)) absent (v p))
  where
    go : (o : Option (List Envelope)) → MailAt none o → o ≡ none
    go none h = refl
    go (some xs) h = absurd h

-- `register_process` either gives a process without a queue an empty one, or fails and changes
-- nothing.
pub register_process-Mail :
    (r : BusRouter) (m : ℕ → Option (List Envelope)) (p : ℕ)
    → Mail r m
    → (((register_process r p).1 ≡ ok tt)
        × (m p ≡ none)
        × Mail (register_process r p).0 (update m p (some [])))
      ⊎ ((e : BusError) × ((register_process r p).1 ≡ err e) × ((register_process r p).0 ≡ r))
unfolding register_process
register_process-Mail r m p v = elim (Bool-cases (p == 0)) [
  | inl kernel ↦ inr (invalid_sender, ground (arith, kernel), ground (arith, kernel))
  | inr user ↦ elim (Option-cases (OrdMap.lookup p r.inboxes)) [
    | inr (q, known) ↦
        inr (process_already_registered, ground (arith, user, known), ground (arith, user, known))
    | inl absent ↦ elim (Bool-cases (leb max_processes (length r.inboxes))) [
      | inl full ↦ inr (
        process_limit_reached,
        ground (arith, user, absent, full),
        ground (arith, user, absent, full),
      )
      | inr room ↦ inl (
        ground (arith, user, absent, room),
        no_mail r m p v absent,
        rw (user, absent, room) (Mail-insert r.inboxes m p Queue.new [] v new-Represents),
      )
    ]
  ]
]

-- After `unregister_process` the process has no queue, and the other queues are as they were.
pub unregister_process-Mail :
    (r : BusRouter) (m : ℕ → Option (List Envelope)) (p : ℕ)
    → Mail r m
    → Mail (unregister_process r p).0 (update m p none)
unfolding unregister_process
unregister_process-Mail r m p v k = elim (Option-cases (OrdMap.lookup p r.inboxes)) [
  | inl absent ↦ elim (Bool-cases (p == k)) [
    | inl here ↦
        let e : p ≡ k = ground (arith, here) in
        rw (absent, here) (subst (λ j. MailAt (OrdMap.lookup j r.inboxes) none) e (rw absent tt))
    | inr other ↦ rw (absent, other) (v k)
  ]
  | inr (q, known) ↦ elim (Bool-cases (p == k)) [
    | inl here ↦ rw (known, OrdMap.lookup-remove p k r.inboxes, here) tt
    | inr other ↦ rw (known, OrdMap.lookup-remove p k r.inboxes, other) (v k)
  ]
]

-- For a registered process, `receive` takes the oldest envelope of its queue, if there is one, and
-- leaves the other queues.
pub receive-Mail :
    (r : BusRouter) (m : ℕ → Option (List Envelope)) (p : ℕ) (xs : List Envelope)
    → Mail r m
    → m p ≡ some xs
    → ((receive r p).1 ≡ (popped xs).1) × Mail (receive r p).0 (update m p (some (popped xs).0))
unfolding receive
receive-Mail r m p xs v known = elim (Option-cases (OrdMap.lookup p r.inboxes)) [
  | inl absent ↦ absurd (ground (arith, known, no_mail r m p v absent))
  | inr (q, found) ↦
      let (ys, waiting, held) = lookup-Mail r m p q v found in
      let same : ys ≡ xs = ground (arith, known, waiting) in
      let (left, got) = pop-Represents q xs (subst (Represents q) same held) in
      rw (found, receive) (got, Mail-insert r.inboxes m p (Queue.pop q).0 (popped xs).0 v left)
]

module _ (crypto : Crypto) (key : List ℕ) where
  Sent-Mail :
      (r : BusRouter) (m : ℕ → Option (List Envelope)) (h : MessageHeader) (d : Option (List ℕ))
      (slice : Option ArenaSlice) {out : BusRouter × Result (Unit {0}) BusError}
      → Mail r m
      → out.1 ≡ ok tt
      → Sent crypto key r h d slice out.0
      → (xs : List Envelope) × (slice' : Option ArenaSlice) × (out.1 ≡ ok tt)
        × (m h.receiver ≡ some xs)
        × (length xs < queue_capacity)
        × Mail out.0 (update m h.receiver (some (xs ++ envelope_of crypto key h d slice' ∷ [])))
  Sent-Mail r m h d slice v fine s =
      let env = envelope_of crypto key h d slice in
      let (xs, waiting, held) = lookup-Mail r m h.receiver s.inbox v s.known in
      let (after, verdict) = push-Represents s.inbox xs env held in
      let room : ltb (length xs) queue_capacity ≡ true = ground (arith, verdict, s.pushed) in
      let longer =
        subst
          (λ b.
            Represents (Queue.push s.inbox env).0
              (if◌then◌else◌ {A = List Envelope × Bool} b (xs ++ env ∷ [], true) (xs, false)).0)
          room after in
      (
        xs,
        slice,
        fine,
        waiting,
        ltb→lt _ _ room,
        λ p.
            subst (λ l. MailAt (OrdMap.lookup p l) (update m h.receiver (some (xs ++ env ∷ [])) p))
              (sym s.inboxes)
              (Mail-insert r.inboxes m h.receiver (Queue.push s.inbox env).0 (xs ++ env ∷ []) v
                longer p),
      )

  -- Seen as one queue of envelopes for each registered process, `send` either succeeds and adds
  -- the signed envelope at the end of the receiver's queue, which had room, or fails and changes
  -- no queue.
  pub send-Mail :
      (r : BusRouter) (m : ℕ → Option (List Envelope)) (h : MessageHeader)
      (payload : Option (List ℕ)) (nonce : ℕ)
      → Mail r m
      → let out = send crypto key r h payload nonce in
        ((xs : List Envelope) × (slice : Option ArenaSlice) × (out.1 ≡ ok tt)
          × (m h.receiver ≡ some xs)
          × (length xs < queue_capacity)
          × Mail out.0 (
              update m h.receiver
                (some (xs ++ envelope_of crypto key h (nonempty payload) slice ∷ []))))
        ⊎ ((e : BusError) × (out.1 ≡ err e) × Mail out.0 m)
  send-Mail r m h payload nonce v = elim (send-Effect crypto key r h payload nonce) [
    | inl (slice, fine, sent, _) ↦ inl (Sent-Mail r m h (nonempty payload) slice v fine sent)
    | inr (e, failed, refused) ↦
        inr (
          e,
          failed,
          λ p. subst (λ l. MailAt (OrdMap.lookup p l) (m p)) (sym refused.inboxes) (v p),
        )
  ]
