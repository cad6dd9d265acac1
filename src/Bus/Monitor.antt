-- ===== src/Bus/Monitor.antt =====
-- kernel/src/bus/monitor.rs: read-only taps on the traffic, at most four.
pub mod Taps
pub mod Registry
use fabric_os.Base.{
  ℕ, ◌+◌, ◌-◌, ◌%◌, Bool, true, false, ◌&&◌, List, [], ◌∷◌, Option, none, some, leb, ◌==◌,
  if◌then◌else◌, replicate,
}
use fabric_os.Base.Slots.{update}
use fabric_os.Base.Words.{add32, add64}
use fabric_os.Bus.Queue.{Envelope}

-- `MAX_MONITORS`
abbrev pub max_monitors : ℕ
max_monitors = 4

-- `MONITOR_BUFFER_SIZE`
abbrev pub monitor_buffer_size : ℕ
monitor_buffer_size = 64

pub record MonitorFilter : Type 0 where
  pub sender : Option ℕ
  pub receiver : Option ℕ
  pub msg_type : Option ℕ

-- A criterion that is `None` matches all.
abbrev pub criterion : Option ℕ → ℕ → Bool
criterion none v = true
criterion (some w) v = v == w

unfoldable pub matches : MonitorFilter → Envelope → Bool
matches f env =
    if criterion f.sender env.header.sender
    then if criterion f.receiver env.header.receiver
      then if criterion f.msg_type env.header.msg_type then true else false
      else false
    else false

pub record MonitorTap : Type 0 where
  pub id : ℕ
  pub filter : MonitorFilter
  pub buffer : ℕ → Option Envelope
  pub head : ℕ
  pub tail : ℕ
  pub count : ℕ

unfoldable pub new_tap : ℕ → MonitorFilter → MonitorTap
new_tap id filter = record {
  id = id;
  filter = filter;
  buffer = λ i. none;
  head = 0;
  tail = 0;
  count = 0;
}

-- `push` of a tap: a full buffer first gives up its oldest event.
make_room : MonitorTap → MonitorTap
make_room t =
    if leb monitor_buffer_size t.count
    then record t { head = add64 t.head 1 % monitor_buffer_size; count = t.count - 1 }
    else t

append_event : MonitorTap → Envelope → MonitorTap
append_event t env = record t {
  buffer = update t.buffer t.tail (some env);
  tail = add64 t.tail 1 % monitor_buffer_size;
  count = add64 t.count 1;
}

unfoldable pub push_event : MonitorTap → Envelope → MonitorTap
unfolding make_room append_event
push_event t env = append_event (make_room t) env

unfoldable pub pop_event : MonitorTap → MonitorTap × Option Envelope
pop_event t = if t.count == 0 then (t, none) else (
  record t {
    buffer = update t.buffer t.head none;
    head = add64 t.head 1 % monitor_buffer_size;
    count = t.count - 1;
  },
  t.buffer t.head,
)

pub record MonitorRegistry : Type 0 where
  pub taps : List (Option MonitorTap)
  pub next_id : ℕ

unfoldable pub new : MonitorRegistry
new = record { taps = replicate max_monitors none; next_id = 1 }

-- The loop of `register`: the first free slot.
register_in : List (Option MonitorTap) → MonitorTap → Option (List (Option MonitorTap))
register_in [] tap = none
register_in (none ∷ slots) tap = some (some tap ∷ slots)
register_in (some t ∷ slots) tap = elim (register_in slots tap) [
  | none ↦ none
  | some rest ↦ some (some t ∷ rest)
]

unfoldable pub register : MonitorRegistry → MonitorFilter → MonitorRegistry × Option ℕ
unfolding register_in
register r filter = elim (register_in r.taps (new_tap r.next_id filter)) [
  | none ↦ (r, none)
  | some slots ↦ (record { taps = slots; next_id = add32 r.next_id 1 }, some r.next_id)
]

-- The loop of `unregister`: the first tap with the identifier.
unregister_in : List (Option MonitorTap) → ℕ → List (Option MonitorTap) × Bool
unregister_in [] tap_id = ([], false)
unregister_in (none ∷ slots) tap_id =
    let (rest, found) = unregister_in slots tap_id in (none ∷ rest, found)
unregister_in (some t ∷ slots) tap_id =
    let (rest, found) = unregister_in slots tap_id in
    if t.id == tap_id then (none ∷ slots, true) else (some t ∷ rest, found)

unfoldable pub unregister : MonitorRegistry → ℕ → MonitorRegistry × Bool
unfolding unregister_in
unregister r tap_id =
    let (slots, found) = unregister_in r.taps tap_id in (record r { taps = slots }, found)

unfoldable pub notify_tap : Envelope → Option MonitorTap → Option MonitorTap
notify_tap env none = none
notify_tap env (some t) = if matches t.filter env then some (push_event t env) else some t

notify_in : Envelope → List (Option MonitorTap) → List (Option MonitorTap)
notify_in env [] = []
notify_in env (slot ∷ slots) = notify_tap env slot ∷ notify_in env slots

unfoldable pub notify : MonitorRegistry → Envelope → MonitorRegistry
unfolding notify_in
notify r env = record r { taps = notify_in env r.taps }

drain_in : List (Option MonitorTap) → ℕ → List (Option MonitorTap) × Option Envelope
drain_in [] tap_id = ([], none)
drain_in (none ∷ slots) tap_id = let (rest, event) = drain_in slots tap_id in (none ∷ rest, event)
drain_in (some t ∷ slots) tap_id =
    let (rest, event) = drain_in slots tap_id in
    if t.id == tap_id
    then (some (pop_event t).0 ∷ slots, (pop_event t).1)
    else (some t ∷ rest, event)

unfoldable pub drain : MonitorRegistry → ℕ → MonitorRegistry × Option Envelope
unfolding drain_in
drain r tap_id = let (slots, event) = drain_in r.taps tap_id in (record r { taps = slots }, event)

pending_in : List (Option MonitorTap) → ℕ → ℕ
pending_in [] tap_id = 0
pending_in (none ∷ slots) tap_id = pending_in slots tap_id
pending_in (some t ∷ slots) tap_id = if t.id == tap_id then t.count else pending_in slots tap_id

unfoldable pub pending_count : MonitorRegistry → ℕ → ℕ
unfolding pending_in
pending_count r tap_id = pending_in r.taps tap_id

clear_in : List (Option MonitorTap) → List (Option MonitorTap)
clear_in [] = []
clear_in (slot ∷ slots) = none ∷ clear_in slots

unfoldable pub clear : MonitorRegistry → MonitorRegistry
unfolding clear_in
clear r = record { taps = clear_in r.taps; next_id = 1 }
