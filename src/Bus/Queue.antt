-- ===== src/Bus/Queue.antt =====
-- kernel/src/bus/queue.rs: the inbox of a process, a circular buffer of 32 envelopes.
pub mod Fifo
use fabric_os.Base.{
  ℕ, ◌+◌, ◌-◌, ◌%◌, Bool, true, false, List, Option, none, some, ltb, leb, ◌==◌, if◌then◌else◌,
}
use fabric_os.Base.Slots.{update}
use fabric_os.Base.Words.{add64}
use fabric_os.Wire.Header.{MessageHeader}
use fabric_os.Bus.Arena.{ArenaSlice}

-- `QUEUE_CAPACITY`
abbrev pub queue_capacity : ℕ
queue_capacity = 32

pub record Envelope : Type 0 where
  pub header : MessageHeader
  pub hmac : List ℕ
  pub payload : Option ArenaSlice

pub record InboxQueue : Type 0 where
  pub entries : ℕ → Option Envelope
  pub head : ℕ
  pub tail : ℕ
  pub count : ℕ

unfoldable pub new : InboxQueue
new = record { entries = λ i. none; head = 0; tail = 0; count = 0 }

unfoldable pub push : InboxQueue → Envelope → InboxQueue × Bool
push q env = if leb queue_capacity q.count then (q, false) else (
  record {
    entries = update q.entries q.tail (some env);
    head = q.head;
    tail = add64 q.tail 1 % queue_capacity;
    count = add64 q.count 1;
  },
  true,
)

-- `entries[head].take()` leaves `None` in the slot.
unfoldable pub pop : InboxQueue → InboxQueue × Option Envelope
pop q = if q.count == 0 then (q, none) else (
  record {
    entries = update q.entries q.head none;
    head = add64 q.head 1 % queue_capacity;
    tail = q.tail;
    count = q.count - 1;
  },
  q.entries q.head,
)

unfoldable pub peek : InboxQueue → Option Envelope
peek q = if q.count == 0 then none else q.entries q.head

unfoldable pub len : InboxQueue → ℕ
len q = q.count

unfoldable pub is_full : InboxQueue → Bool
is_full q = leb queue_capacity q.count

unfoldable pub is_empty : InboxQueue → Bool
is_empty q = q.count == 0

unfoldable pub clear : InboxQueue → InboxQueue
clear q = record { entries = λ i. none; head = 0; tail = 0; count = 0 }
