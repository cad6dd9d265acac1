-- ===== src/Tests/Locks.antt =====
-- The theorem on lock levels, with GOVERNANCE held and STORE wanted.
use fabric_os.Base.{ℕ, ◌≡◌, ◌<◌, ◌↔◌, List, [], ◌∷◌, ◌++◌, some, All, arith, not, ◌&&◌, ◌==◌}
use fabric_os.Base.Members.{elem}
use fabric_os.Sync.{max_held, push_level, pop_level, governance_level, store_level}
use fabric_os.Sync.Levels.{IsTracked, push_level-IsTracked}

abbrev governing : List ℕ
governing = governance_level ∷ []

push_level-IsTracked_example :
    ((s : List ℕ)
      → (push_level governing store_level ≡ some s) ↔ (
          (s ≡ governing ++ store_level ∷ [])
          × All (λ l. l < store_level) governing
          × (1 < max_held)))
    × ((s : List ℕ) → push_level governing store_level ≡ some s → IsTracked s)
    × IsTracked (pop_level governing store_level)
    × ((m : ℕ)
        → elem m (pop_level governing store_level) ≡ (elem m governing && not (store_level == m)))
push_level-IsTracked_example = push_level-IsTracked store_level governing ((tt, tt), omega arith)
