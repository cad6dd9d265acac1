-- ===== src/Bus/Router/Send/Accept.antt =====
-- kernel/src/bus/router.rs: which messages `send` accepts.
use fabric_os.Base.{
  ◌⊎◌, refl, ℕ, ◌≤◌, ◌<◌, ◌≡◌, ◌↔◌, ◌≢◌, inl, inr, true, false, List, Option, none, some, length,
  arith, ◌==◌, if◌then◌else◌, Option-cases, Bool-cases,
}
use fabric_os.Base.OrdMap
use fabric_os.Base.Results.{ok, panic, Result-cases}
use fabric_os.Bus.Arena
use fabric_os.Bus.Arena.{ArenaSlice, PayloadArena, max_payload_size}
use fabric_os.Bus.Queue
use fabric_os.Bus.Queue.{InboxQueue}
use fabric_os.Bus.Router.{BusRouter}
use fabric_os.Bus.Router.Send.{
  payload_data, prechecks, deliver, store_payload, check_sequence, send,
}
use fabric_os.Bus.Sequence
use fabric_os.Bus.Sequence.Order.{check_lem}
use fabric_os.Crypto.{Crypto}
use fabric_os.Wire.Header.{MessageHeader, header_version}

abbrev pub payload_length : Option (List ℕ) → ℕ
payload_length none = 0
payload_length (some bytes) = length bytes

-- The empty payload is no payload.
abbrev pub nonempty : Option (List ℕ) → Option (List ℕ)
nonempty none = none
nonempty (some bytes) = if length bytes == 0 then none else some bytes

abbrev pub HasRoom : Option InboxQueue → Type 0
HasRoom none = ⊥
HasRoom (some q) = Queue.is_full q ≡ false

payload_data_iff :
    (len : ℕ) (payload d : Option (List ℕ))
    → (payload_data len payload ≡ ok d)
      ↔ ((len ≡ payload_length payload) × (len ≤ max_payload_size) × (d ≡ nonempty payload))
unfolding payload_data
payload_data_iff len none d = (λ h. ground arith, λ h. ground arith)
payload_data_iff len (some bytes) d = (λ h. ground arith, λ h. ground arith)

-- The conditions of steps 1 to 4.
pub record Checked (r : BusRouter) (h : MessageHeader) (payload : Option (List ℕ)) : Type 0 where
  pub version : h.version ≡ header_version
  pub sender : h.sender ≢ 0
  pub sender_known : OrdMap.contains_key h.sender r.inboxes ≡ true
  pub receiver_known : OrdMap.contains_key h.receiver r.inboxes ≡ true
  pub not_self : h.sender ≢ h.receiver
  pub payload_len : h.payload_len ≡ payload_length payload
  pub payload_fits : h.payload_len ≤ max_payload_size

pub prechecks_ok :
    (r : BusRouter) (h : MessageHeader) (payload d : Option (List ℕ))
    → prechecks r h payload ≡ ok d
    → Checked r h payload × (d ≡ nonempty payload)
unfolding prechecks
prechecks_ok r h payload d e = ground (arith, payload_data_iff h.payload_len payload d)

prechecks-Checked :
    (r : BusRouter) (h : MessageHeader) (payload : Option (List ℕ))
    → Checked r h payload
    → prechecks r h payload ≡ ok (nonempty payload)
unfolding prechecks
prechecks-Checked r h payload c =
    ground (arith, payload_data_iff h.payload_len payload (nonempty payload))

pub prechecks-ne-panic :
    (r : BusRouter) (h : MessageHeader) (payload : Option (List ℕ)) → prechecks r h payload ≢ panic
unfolding prechecks payload_data
prechecks-ne-panic r h payload e = ground arith

allocate-none_iff :
    (a : PayloadArena) (bytes : List ℕ)
    → 0 < length bytes
    → length bytes ≤ max_payload_size
    → ((Arena.allocate a bytes).1 ≡ none) ↔ (Arena.is_initialized a ≡ false)
unfolding Arena.allocate Arena.is_initialized
allocate-none_iff a bytes p q = (λ h. ground arith, λ h. ground arith)

module _ (crypto : Crypto) (key : List ℕ) where
  deliver_ok :
      (r : BusRouter) (h : MessageHeader) (d : Option (List ℕ)) (s : Option ArenaSlice)
      → ((deliver crypto key r h d s).1 ≡ ok tt) ↔ HasRoom (OrdMap.lookup h.receiver r.inboxes)
  unfolding deliver Queue.push Queue.is_full
  deliver_ok r h d s = ground arith

  store_payload_ok :
      (r : BusRouter) (h : MessageHeader) (payload : Option (List ℕ))
      → payload_length payload ≤ max_payload_size
      → ((store_payload crypto key r h (nonempty payload)).1 ≡ ok tt) ↔ (
          ((payload_length payload ≡ 0) ⊎ (Arena.is_initialized r.arena ≡ true))
          × HasRoom (OrdMap.lookup h.receiver r.inboxes))
  unfolding store_payload
  store_payload_ok r h none fits =
      let e = deliver_ok r h none none in (λ o. (inl refl, e.0 o), λ c. e.1 c.1)
  store_payload_ok r h (some bytes) fits = elim (Bool-cases (length bytes == 0)) [
    | inl zero_len ↦
        let e = deliver_ok r h none none in
        rw zero_len ((λ o. (inl (ground arith), e.0 o)), λ c. e.1 c.1)
    | inr some_len ↦ elim (Option-cases (Arena.allocate r.arena bytes).1) [
      | inl failed ↦
          ground (
            arith,
            some_len,
            failed,
            (allocate-none_iff r.arena bytes (ground arith) fits).0 failed,
          )
      | inr (s, stored) ↦ ground (
        arith,
        some_len,
        stored,
        (allocate-none_iff r.arena bytes (ground arith) fits).1,
        deliver_ok (record r { arena = (Arena.allocate r.arena bytes).0 }) h (some bytes) (some s),
      )
    ]
  ]

  check_sequence_ok :
      (r : BusRouter) (h : MessageHeader) (payload : Option (List ℕ))
      → payload_length payload ≤ max_payload_size
      → ((check_sequence crypto key r h (nonempty payload)).1 ≡ ok tt) ↔ (
          (h.sequence ≡ Sequence.next_expected r.sequences h.sender)
          × ((payload_length payload ≡ 0) ⊎ (Arena.is_initialized r.arena ≡ true))
          × HasRoom (OrdMap.lookup h.receiver r.inboxes))
  unfolding check_sequence
  check_sequence_ok r h payload fits =
      elim (Option-cases (Sequence.check r.sequences h.sender h.sequence).1) [
        | inl fine ↦ ground (
          arith,
          fine,
          check_lem r.sequences h.sender h.sequence,
          store_payload_ok
              (record r { sequences = (Sequence.check r.sequences h.sender h.sequence).0 }) h
              payload fits,
        )
        | inr (e, refused) ↦ ground (arith, refused, check_lem r.sequences h.sender h.sequence)
      ]

  -- What a message has to meet to be accepted.
  pub record Acceptable (r : BusRouter) (h : MessageHeader) (payload : Option (List ℕ))
      : Type 0 where
    pub checked : Checked r h payload
    pub in_sequence : h.sequence ≡ Sequence.next_expected r.sequences h.sender
    pub arena_ready : (payload_length payload ≡ 0) ⊎ (Arena.is_initialized r.arena ≡ true)
    pub room : HasRoom (OrdMap.lookup h.receiver r.inboxes)

  send_ok-Acceptable :
      (r : BusRouter) (h : MessageHeader) (payload : Option (List ℕ)) (nonce : ℕ)
      → (send crypto key r h payload nonce).1 ≡ ok tt
      → Acceptable r h payload
  unfolding send
  send_ok-Acceptable r h payload nonce o = elim (Result-cases (prechecks r h payload)) [
    | inl (d, e) ↦
        let (c, same) = prechecks_ok r h payload d e in
        let q = check_sequence_ok r h payload (omega (arith, c.payload_len, c.payload_fits)) in
        let (sequenced, ready, room) = q.0 (ground (arith, e, same)) in
        record { checked = c; in_sequence = sequenced; arena_ready = ready; room = room }
    | inr (inl (x, e)) ↦ absurd (ground (arith, e))
    | inr (inr e) ↦ absurd (ground (arith, e))
  ]

  -- `send` accepts a message exactly when the header has version 1, no lower and no higher one,
  -- the sender is not the kernel, both ends are registered and differ, the payload has the length
  -- that the header says and at most 4096 bytes, the sequence number is the sender's next, the
  -- arena has its buffer if there is a payload, and the receiver's inbox has room.
  pub send_ok_iff :
      (r : BusRouter) (h : MessageHeader) (payload : Option (List ℕ)) (nonce : ℕ)
      → ((send crypto key r h payload nonce).1 ≡ ok tt) ↔ Acceptable r h payload
  unfolding send
  send_ok_iff r h payload nonce = (
    λ o. send_ok-Acceptable r h payload nonce o,
    λ a.
        let e = prechecks-Checked r h payload a.checked in
        let c =
          check_sequence_ok r h payload
            (omega (arith, a.checked.payload_len, a.checked.payload_fits)) in
        ground (arith, e, c.1 (a.in_sequence, a.arena_ready, a.room)),
  )
