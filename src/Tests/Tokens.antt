-- ===== src/Tests/Tokens.antt =====
-- Concrete inputs for the capability store and its slab map.
use fabric_os.Base.{
  ℕ, unwrap_or, ◌+◌, ltb, ◌||◌, ◌≡◌, ◌≢◌, ◌↔◌, refl, true, [], ◌∷◌, Option, none, some, arith,
  if◌then◌else◌, ◌==◌, ◌-◌, ◌≤◌,
}
use fabric_os.Base.Slots.{update}
use fabric_os.Wire.Token.{Budget}
use fabric_os.Capability.Slab
use fabric_os.Capability.Slab.{FixedMap, matching, spinning}
use fabric_os.Capability.Slab.Ready.{IsValid}
use fabric_os.Capability.Slab.Laws.{Inserts, insert_lem}
use fabric_os.Capability.Slab.Deletion.{Removes, remove_lem, find-Ends}
use fabric_os.Capability.Slab.Reuse.{new_map-IsValid, get_or_insert_lem}
use fabric_os.Capability.Budget
use fabric_os.Capability.Budget.{BudgetTracker, allowed, allowed-le, check_and_consume_lem}
use fabric_os.Capability.Store.{child_expires}
use fabric_os.Capability.Store.Expiry.{child_expires-le}

abbrev one_entry : FixedMap ℕ
one_entry = (Slab.insert Slab.new_map 5 7).0

one_entry-IsValid : IsValid one_entry
one_entry-IsValid = (insert_lem Slab.new_map 5 7 new_map-IsValid).0

insert_lem_example : Inserts one_entry 6 8 (Slab.insert one_entry 6 8)
insert_lem_example = insert_lem one_entry 6 8 one_entry-IsValid

remove_lem_example : Removes one_entry 5 (Slab.remove one_entry 5)
remove_lem_example = remove_lem one_entry 5 one_entry-IsValid

find-Ends_example : Slab.find one_entry 6 ≢ spinning
find-Ends_example = find-Ends one_entry 6 one_entry-IsValid

abbrev one_slots : Slab.Slots ℕ
one_slots = update (λ i. none) (Slab.fib_hash 5 16383) (some (5, 7))

one_entry-slots : one_entry.slots ≡ some one_slots
unfolding Slab.insert Slab.insert_at Slab.new_map Slab.ensure_init Slab.alloc_slots Slab.find
    Slab.probe Slab.fib_hash Slab.following Slab.set_slot
one_entry-slots = refl

one_entry-find : Slab.find one_entry 5 ≡ matching (Slab.fib_hash 5 16383) 7
unfolding Slab.insert Slab.insert_at Slab.new_map Slab.ensure_init Slab.alloc_slots Slab.find
    Slab.probe Slab.fib_hash Slab.following Slab.set_slot
one_entry-find = refl

one_entry-room : (Slab.contains_key one_entry 6 || ltb one_entry.len 12288) ≡ true
unfolding Slab.insert Slab.insert_at Slab.new_map Slab.ensure_init Slab.alloc_slots Slab.find
    Slab.probe Slab.fib_hash Slab.following Slab.set_slot Slab.get Slab.contains_key
one_entry-room = refl

get_or_insert_lem_example :
    IsValid (Slab.get_or_insert one_entry 6 9).0
    × ((Slab.get_or_insert one_entry 6 9).1 ≡ some (unwrap_or (Slab.get one_entry 6) 9))
    × ((j : ℕ)
        → Slab.get (Slab.get_or_insert one_entry 6 9).0 j
          ≡ (if 6 == j then some (unwrap_or (Slab.get one_entry 6) 9) else Slab.get one_entry j))
    × ((Slab.get_or_insert one_entry 6 9).0.len
        ≡ (if Slab.contains_key one_entry 6 then one_entry.len else one_entry.len + 1))
get_or_insert_lem_example = get_or_insert_lem one_entry 6 9 one_entry-IsValid one_entry-room

child_expires-le_example :
    (child_expires (some 9) 5 ≤ 5)
    × ((child_expires (some 9) 5 ≡ 0) ↔ (◌≡◌ {A = Option ℕ} (some 9) (some 0)))
child_expires-le_example = child_expires-le (some 9) 5 (omega arith)

-- Twice for every 100 ticks, and used once, at tick 10.
abbrev twice : Budget
twice = record { max_uses = 2; interval_ticks = 100 }

abbrev used_once : BudgetTracker
used_once = (Budget.check_and_consume Budget.new_budgets 3 twice 10).0

new_budgets-IsValid : IsValid Budget.new_budgets.usage
unfolding Budget.new_budgets
new_budgets-IsValid = new_map-IsValid

new_budgets-room :
    (Slab.contains_key Budget.new_budgets.usage 3 || ltb Budget.new_budgets.usage.len 12288) ≡ true
unfolding Budget.new_budgets Slab.new_map Slab.contains_key Slab.get Slab.find
new_budgets-room = refl

used_once-IsValid : IsValid used_once.usage
used_once-IsValid =
    (check_and_consume_lem Budget.new_budgets 3 twice 10 new_budgets-IsValid new_budgets-room).0

used_once-entry : Slab.get used_once.usage 3 ≡ some (1, 10)
unfolding Budget.check_and_consume Budget.consume_entry Budget.new_budgets Slab.get_or_insert
    Slab.contains_key Slab.get Slab.modify Slab.insert Slab.insert_at Slab.new_map Slab.ensure_init
    Slab.alloc_slots Slab.find Slab.probe Slab.fib_hash Slab.following Slab.set_slot
used_once-entry = refl

allowed-le_example : allowed used_once 3 twice (20 ∷ 30 ∷ 109 ∷ []) ≤ 2 - 1
allowed-le_example =
    allowed-le used_once 3 twice 1 10 (20 ∷ 30 ∷ 109 ∷ []) used_once-IsValid used_once-entry
      (omega arith) (omega arith) (omega arith, (omega arith, (omega arith, tt)))
