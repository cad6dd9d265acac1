-- ===== src/Bus/Monitor/Taps.antt =====
-- kernel/src/bus/monitor.rs: a tap keeps the last 64 events that match its filter.
use fabric_os.Base.{
  ℕ, ◌+◌, ◌<◌, ◌≡◌, refl, ◌↔◌, ◌⊎◌, true, false, List, [], ◌∷◌, ◌++◌, Option, none, some, length,
  arith, ltb, leb, if◌then◌else◌, ◌==◌, Bool-cases, inl, inr, lt→ltb, drop,
}
use fabric_os.Base.Ring.{Ring, empty-Ring, Ring-push, Ring-advance, Ring-pop}
use fabric_os.Base.Words.{add64}
use fabric_os.Bus.Queue.{Envelope}
use fabric_os.Bus.Monitor.{
  MonitorTap, MonitorFilter, criterion, monitor_buffer_size, new_tap, make_room, append_event,
  push_event, pop_event, matches,
}

-- The tap stands for the list of its buffered events, oldest first.
abbrev pub Buffers : MonitorTap → List Envelope → Type 0
Buffers t xs = Ring monitor_buffer_size t.buffer t.head t.tail t.count xs

-- The last 64 events: one more event pushes the oldest of a full buffer out.
abbrev pub push_last : List Envelope → Envelope → List Envelope
push_last xs e = (if ltb (length xs) monitor_buffer_size then xs else drop 1 xs) ++ e ∷ []

pub new_tap-Buffers : (id : ℕ) (f : MonitorFilter) → Buffers (new_tap id f) []
unfolding new_tap
new_tap-Buffers id f = empty-Ring monitor_buffer_size (λ i. none) (omega arith)

criterion_iff : (o : Option ℕ) (v : ℕ) → (criterion o v ≡ true) ↔ ((o ≡ none) ⊎ (o ≡ some v))
criterion_iff none v = (λ h. inl refl, λ h. refl)
criterion_iff (some w) v = (λ h. inr (ground arith), λ h. ground arith)

-- A filter matches an envelope exactly when each of its criteria is absent or names the envelope's
-- sender, receiver or message type.
matches_iff :
    (f : MonitorFilter) (e : Envelope)
    → (matches f e ≡ true) ↔ (
        ((f.sender ≡ none) ⊎ (f.sender ≡ some e.header.sender))
        × ((f.receiver ≡ none) ⊎ (f.receiver ≡ some e.header.receiver))
        × ((f.msg_type ≡ none) ⊎ (f.msg_type ≡ some e.header.msg_type)))
unfolding matches
matches_iff f e = ground (
  arith,
  criterion_iff f.sender e.header.sender,
  criterion_iff f.receiver e.header.receiver,
  criterion_iff f.msg_type e.header.msg_type,
)

append_event-Buffers :
    (t : MonitorTap) (xs : List Envelope) (e : Envelope)
    → Buffers t xs
    → length xs < monitor_buffer_size
    → Buffers (append_event t e) (xs ++ e ∷ [])
unfolding append_event
append_event-Buffers t xs e r lt =
    let at_tail : add64 t.tail 1 ≡ t.tail + 1 = omega (arith, r.tail_at, r.head_in) in
    let at_count : add64 t.count 1 ≡ t.count + 1 = omega (arith, r.counted) in
    rw (at_tail, at_count) (Ring-push e r lt)

make_room-Buffers :
    (t : MonitorTap) (xs : List Envelope)
    → Buffers t xs
    → let ys = if ltb (length xs) monitor_buffer_size then xs else drop 1 xs in
      Buffers (make_room t) ys × (length ys < monitor_buffer_size)
unfolding make_room
make_room-Buffers t [] r =
    let z : leb monitor_buffer_size t.count ≡ false = ground (arith, r.counted) in
    rw z (r, omega arith)
make_room-Buffers t (x ∷ xs) r = elim (Bool-cases (leb monitor_buffer_size t.count)) [
  | inl full ↦
      let e : ltb (length (x ∷ xs)) monitor_buffer_size ≡ false = ground (arith, r.counted) in
      let at_head : add64 t.head 1 ≡ t.head + 1 = omega (arith, r.head_in) in
      rw (full, e, at_head) (Ring-advance r, omega (arith, r.bounded))
  | inr room ↦
      let lt : length (x ∷ xs) < monitor_buffer_size = ground (arith, r.counted) in
      rw (room, lt→ltb _ _ lt) (r, lt)
]

-- A pushed event goes to the end, and a full buffer loses its oldest event for it.
pub push_event-Buffers :
    (t : MonitorTap) (xs : List Envelope) (e : Envelope)
    → Buffers t xs
    → Buffers (push_event t e) (push_last xs e)
unfolding push_event
push_event-Buffers t xs e r =
    let (v, lt) = make_room-Buffers t xs r in append_event-Buffers (make_room t) _ e v lt

-- Draining takes the oldest event.
pop_event-Buffers :
    (t : MonitorTap) (x : Envelope) (xs : List Envelope)
    → Buffers t (x ∷ xs)
    → Buffers (pop_event t).0 xs × ((pop_event t).1 ≡ some x)
unfolding pop_event
pop_event-Buffers t x xs r =
    let ne : (t.count == 0) ≡ false = ground (arith, r.counted) in
    let at_head : add64 t.head 1 ≡ t.head + 1 = omega (arith, r.head_in) in
    rw (ne, at_head) (Ring-pop r, r.held.0)
