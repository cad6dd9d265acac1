-- ===== src/Bus/Sequence.antt =====
-- kernel/src/bus/sequence.rs: the sequence number that each sender has to present next.
pub mod Order
use fabric_os.Base.{ℕ, ◌+◌, Bool, List, [], Option, none, some, leb, ◌==◌, if◌then◌else◌, unwrap_or}
use fabric_os.Base.OrdMap
use fabric_os.Base.Words.{add64}

pub data SequenceError : Type 0 where
  replay : SequenceError
  gap : ℕ → ℕ → SequenceError

pub record SequenceTracker : Type 0 where
  pub last_seen : List (ℕ × ℕ)

unfoldable pub new : SequenceTracker
new = record { last_seen = [] }

unfoldable pub next_expected : SequenceTracker → ℕ → ℕ
next_expected t sender = elim (OrdMap.lookup sender t.last_seen) [ none ↦ 1 | some n ↦ add64 n 1 ]

-- The option is the `Err`; `none` is `Ok(())`.
unfoldable pub check : SequenceTracker → ℕ → ℕ → SequenceTracker × Option SequenceError
unfolding next_expected
check t sender sequence =
    if sequence == next_expected t sender
    then (record { last_seen = OrdMap.insert sender sequence t.last_seen }, none)
    else if leb sequence (unwrap_or (OrdMap.lookup sender t.last_seen) 0)
    then (t, some replay)
    else (t, some (gap (next_expected t sender) sequence))

unfoldable pub remove : SequenceTracker → ℕ → SequenceTracker
remove t sender = record { last_seen = OrdMap.remove sender t.last_seen }

unfoldable pub clear : SequenceTracker → SequenceTracker
clear t = record { last_seen = [] }
