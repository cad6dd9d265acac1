-- ===== src/Bus/Queue/Fifo.antt =====
-- kernel/src/bus/queue.rs: an inbox is a first-in first-out queue of at most 32 envelopes.
use fabric_os.Base.{
  ◌+◌, ◌<◌, ◌≡◌, refl, Bool, true, false, List, [], ◌∷◌, ◌++◌, Option, none, some, length, arith,
  ltb, leb, if◌then◌else◌, ◌==◌, Bool-cases, inl, inr, lt→ltb,
}
use fabric_os.Base.Ring.{Ring, empty-Ring, Ring-push, Ring-pop}
use fabric_os.Base.Words.{add64}
use fabric_os.Bus.Queue.{InboxQueue, Envelope, queue_capacity, new, push, pop, peek, clear}

-- The inbox stands for the list of its envelopes, oldest first.
abbrev pub Represents : InboxQueue → List Envelope → Type 0
Represents q xs = Ring queue_capacity q.entries q.head q.tail q.count xs

-- The queue that the inbox implements.
abbrev pub pushed : List Envelope → Envelope → List Envelope × Bool
pushed xs e = if ltb (length xs) queue_capacity then (xs ++ e ∷ [], true) else (xs, false)

abbrev pub popped : List Envelope → List Envelope × Option Envelope
popped [] = ([], none)
popped (x ∷ xs) = (xs, some x)

pub new-Represents : Represents new []
unfolding new
new-Represents = empty-Ring queue_capacity (λ i. none) (omega arith)

clear-Represents : (q : InboxQueue) → Represents (clear q) []
unfolding clear
clear-Represents q = empty-Ring queue_capacity (λ i. none) (omega arith)

-- `push` of a circular buffer that stands for a list adds at the end of the list, and refuses
-- exactly when that has 32 envelopes.
pub push-Represents :
    (q : InboxQueue) (xs : List Envelope) (e : Envelope)
    → Represents q xs
    → Represents (push q e).0 (pushed xs e).0 × ((push q e).1 ≡ (pushed xs e).1)
unfolding push
push-Represents q xs e r = elim (Bool-cases (leb queue_capacity q.count)) [
  | inl full ↦ let e' : length xs ≡ queue_capacity = ground arith in rw (full, e') (r, refl)
  | inr room ↦
      let lt : length xs < queue_capacity = ground arith in
      let at_tail : add64 q.tail 1 ≡ q.tail + 1 = omega (arith, r.tail_at, r.head_in) in
      let at_count : add64 q.count 1 ≡ q.count + 1 = ground arith in
      rw (room, lt→ltb _ _ lt, at_tail, at_count) (Ring-push e r lt, refl)
]

-- `pop` of a circular buffer that stands for a list takes the first envelope of the list.
pub pop-Represents :
    (q : InboxQueue) (xs : List Envelope)
    → Represents q xs
    → Represents (pop q).0 (popped xs).0 × ((pop q).1 ≡ (popped xs).1)
unfolding pop
pop-Represents q [] r = let z : (q.count == 0) ≡ true = ground arith in rw z (r, refl)
pop-Represents q (x ∷ xs) r =
    let ne : (q.count == 0) ≡ false = ground arith in
    let at_head : add64 q.head 1 ≡ q.head + 1 = omega (arith, r.head_in) in
    rw (ne, at_head) (Ring-pop r, r.held.0)

-- Peeking shows what the next pop takes.
peek-Represents : (q : InboxQueue) (xs : List Envelope) → Represents q xs → peek q ≡ (popped xs).1
unfolding peek
peek-Represents q [] r = ground arith
peek-Represents q (x ∷ xs) r = ground (arith, r.held.0)
