-- ===== src/Bus/Sequence/Order.antt =====
-- kernel/src/bus/sequence.rs: what is accepted of one sender is an unbroken run of numbers.
use fabric_os.Base.{
  ℕ, zero, suc, ◌≡◌, refl, ◌≢◌, List, [], ◌∷◌, none, length, arith, ◌==◌, if◌then◌else◌, is_some,
  ◌&&◌, not, ◌↔◌,
}
use fabric_os.Base.OrdMap.{lookup-insert}
use fabric_os.Base.Words.{add64}
use fabric_os.Bus.Sequence.{SequenceTracker, check, next_expected}

-- The numbers that a series of attempts, each a sender with a number, gets accepted for one sender.
pub accepted : ℕ → SequenceTracker → List (ℕ × ℕ) → List ℕ
accepted p t [] = []
accepted p t ((s, n) ∷ xs) =
    let rest = accepted p (check t s n).0 xs in
    if not (is_some (check t s n).1) && (s == p) then n ∷ rest else rest

-- `k` successive numbers from `n` on, in 64 bits.
abbrev pub run_from : ℕ → ℕ → List ℕ
run_from n zero = []
run_from n (suc k) = n ∷ run_from (add64 n 1) k

-- The verdict on a number: accepted exactly when it is the next one, a replay when it is not above
-- the last one, and a gap otherwise. A refusal changes nothing.
pub check_lem :
    (t : SequenceTracker) (s n : ℕ)
    → (((check t s n).1 ≡ none) ↔ (n ≡ next_expected t s))
      × ((check t s n).1 ≢ none → (check t s n).0 ≡ t)
unfolding check
check_lem t s n = (ground arith, ground arith)

-- An accepted number moves its own sender on by one, and no attempt moves another sender.
pub next_expected-check :
    (t : SequenceTracker) (s n p : ℕ)
    → next_expected (check t s n).0 p
      ≡ (if not (is_some (check t s n).1) && (s == p) then add64 n 1 else next_expected t p)
unfolding check next_expected
next_expected-check t s n p = ground (arith, lookup-insert s p n t.last_seen)

-- Whatever numbers all senders present, the numbers accepted of one sender are an unbroken run
-- from the number that was expected of it first.
pub accepted-run_from :
    (p : ℕ) (t : SequenceTracker) (xs : List (ℕ × ℕ))
    → accepted p t xs ≡ run_from (next_expected t p) (length (accepted p t xs))
unfolding accepted
accepted-run_from p t [] = refl
accepted-run_from p t ((s, n) ∷ xs) =
    ground
      (arith, check_lem t s n, next_expected-check t s n p, accepted-run_from p (check t s n).0 xs)
