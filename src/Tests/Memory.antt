-- ===== src/Tests/Memory.antt =====
-- The theorems on the arena, the sequence numbers and the monitors.
use fabric_os.Base.{ℕ, ◌≤◌, ◌≡◌, refl, List, [], ◌∷◌, none, some, length, get_elem?}
use fabric_os.Bus.Arena
use fabric_os.Bus.Arena.{PayloadArena, ArenaSlice, allocate, get, arena_capacity, is_initialized}
use fabric_os.Bus.Arena.Bounds.{allocate-bounds, init-InBuffer}
use fabric_os.Bus.Arena.Payloads.{get-allocate}
use fabric_os.Bus.Monitor
use fabric_os.Bus.Monitor.{
  MonitorFilter, MonitorTap, MonitorRegistry, register, new_tap, matches, push_event,
}
use fabric_os.Bus.Monitor.Registry.{notify_all, observe, notify_all-observe}
use fabric_os.Bus.Monitor.Taps.{Buffers, new_tap-Buffers}
use fabric_os.Bus.Queue.{Envelope}
use fabric_os.Bus.Sequence
use fabric_os.Bus.Sequence.{check, next_expected}
use fabric_os.Bus.Sequence.Order.{accepted, run_from, accepted-run_from}
use fabric_os.Tests.Data.{hello}

abbrev ready : PayloadArena
ready = Arena.init Arena.new

abbrev payload : List ℕ
payload = 7 ∷ 8 ∷ []

abbrev first_slice : ArenaSlice
first_slice = record { offset = 0; len = 2 }

ready-allocate : (allocate ready payload).1 ≡ some first_slice
unfolding allocate Arena.init
ready-allocate = refl

get-allocate_example : get (allocate ready payload).0 first_slice ≡ some payload
get-allocate_example =
    get-allocate ready payload first_slice (init-InBuffer Arena.new) ready-allocate

allocate-bounds_example :
    (2 ≡ length payload) × (2 ≤ arena_capacity) × ((allocate ready payload).0.write_cursor ≡ 2)
allocate-bounds_example =
    allocate-bounds ready payload first_slice (init-InBuffer Arena.new) ready-allocate

-- Two senders, a repeated number and a gap.
abbrev attempts : List (ℕ × ℕ)
attempts = (1, 1) ∷ (2, 1) ∷ (1, 1) ∷ (1, 3) ∷ (1, 2) ∷ []

accepted-run_from_example :
    accepted 1 Sequence.new attempts
    ≡ run_from (next_expected Sequence.new 1) (length (accepted 1 Sequence.new attempts))
accepted-run_from_example = accepted-run_from 1 Sequence.new attempts

abbrev from_one : MonitorFilter
from_one = record { sender = some 1; receiver = none; msg_type = none }

abbrev letter : Envelope
letter = record { header = hello; hmac = []; payload = none }

abbrev one_tap : MonitorRegistry
one_tap = record Monitor.new { taps = some (new_tap 1 from_one) ∷ [] }

notify_all-observe_example :
    (u : MonitorTap) × (get_elem? (notify_all one_tap (letter ∷ letter ∷ [])).taps 0
      ≡ some (some u))
    × (u.id ≡ (new_tap 1 from_one).id)
    × Buffers u (observe (new_tap 1 from_one).filter [] (letter ∷ letter ∷ []))
notify_all-observe_example =
    notify_all-observe (letter ∷ letter ∷ []) one_tap 0 (new_tap 1 from_one) [] refl
      (new_tap-Buffers 1 from_one)
