-- ===== src/Governance/Rules/Order.antt =====
-- kernel/src/governance/rules.rs: the rules stand by priority, and the first match is the best one.
use fabric_os.Base.{
  ℕ, zero, suc, ◌+◌, ◌≤◌, ◌≡◌, refl, inl, inr, List, [], ◌∷◌, ◌++◌, some, length, length-append,
  arith, All, take, Option-cases,
}
use fabric_os.Governance.Rules.{
  PolicyRule, RuleEngine, max_rules, sift, reverse_onto, sort_from, load_rules, add_rule,
  remove_named, remove_rule, replace_named, replace_rule,
}

-- The conditions that the rule counts are in its array.
abbrev pub IsWellFormed : PolicyRule → Type 0
IsWellFormed r = r.condition_count ≤ length r.conditions

-- Every priority of the list is at least `n`, or at most `n`.
abbrev pub AtLeast : ℕ → List PolicyRule → Type 0
AtLeast n = All (λ r. n ≤ r.priority)

abbrev pub AtMost : ℕ → List PolicyRule → Type 0
AtMost n = All (λ r. r.priority ≤ n)

-- Sorted by priority, the highest first; and, for the sorted part from its right end, the lowest.
abbrev pub IsSorted : List PolicyRule → Type 0
IsSorted [] = Unit {0}
IsSorted (r ∷ rs) = AtMost r.priority rs × IsSorted rs

abbrev pub IsRising : List PolicyRule → Type 0
IsRising [] = Unit {0}
IsRising (r ∷ rs) = AtLeast r.priority rs × IsRising rs

pub AtLeast-mono : (m n : ℕ) (rs : List PolicyRule) → m ≤ n → AtLeast n rs → AtLeast m rs
AtLeast-mono m n [] h a = tt
AtLeast-mono m n (r ∷ rs) h a = (omega arith, AtLeast-mono m n rs h a.1)

sift-AtLeast :
    (n : ℕ) (r : PolicyRule) (rs : List PolicyRule)
    → n ≤ r.priority
    → AtLeast n rs
    → AtLeast n (sift r rs)
unfolding sift
sift-AtLeast n r [] h a = (h, tt)
sift-AtLeast n r (q ∷ qs) h a = ground (arith, sift-AtLeast n r qs h a.1)

pub sift-IsRising : (r : PolicyRule) (rs : List PolicyRule) → IsRising rs → IsRising (sift r rs)
unfolding sift
sift-IsRising r [] s = (tt, tt)
sift-IsRising r (q ∷ qs) s = ground (
  arith,
  sift-IsRising r qs s.1,
  sift-AtLeast q.priority r qs,
  AtLeast-mono r.priority q.priority qs,
)

reverse_onto-IsSorted :
    (xs ys : List PolicyRule)
    → IsRising xs
    → IsSorted ys
    → All (λ x. AtMost x.priority ys) xs
    → IsSorted (reverse_onto xs ys)
reverse_onto-IsSorted [] ys s t a = t
reverse_onto-IsSorted (x ∷ xs) ys s t a =
    reverse_onto-IsSorted xs (x ∷ ys) s.1 (a.0, t) (below xs s.0 a.1)
  where
    below :
        (zs : List PolicyRule)
        → AtLeast x.priority zs
        → All (λ z. AtMost z.priority ys) zs
        → All (λ z. AtMost z.priority (x ∷ ys)) zs
    below [] p q = tt
    below (z ∷ zs) p q = ((p.0, q.0), below zs p.1 q.1)

no_bound : (xs : List PolicyRule) → All (λ x. AtMost x.priority []) xs
no_bound [] = tt
no_bound (x ∷ xs) = (tt, no_bound xs)

sort_from-IsSorted : (done rs : List PolicyRule) → IsRising done → IsSorted (sort_from done rs)
unfolding sort_from
sort_from-IsSorted done [] s = reverse_onto-IsSorted done [] s tt (no_bound done)
sort_from-IsSorted done (r ∷ rs) s = sort_from-IsSorted (sift r done) rs (sift-IsRising r done s)

length-sift : (r : PolicyRule) (rs : List PolicyRule) → length (sift r rs) ≡ suc (length rs)
unfolding sift
length-sift r [] = refl
length-sift r (q ∷ qs) = ground (arith, length-sift r qs)

length-reverse_onto :
    (xs ys : List PolicyRule) → length (reverse_onto xs ys) ≡ length xs + length ys
length-reverse_onto [] ys = omega arith
length-reverse_onto (x ∷ xs) ys = omega (arith, length-reverse_onto xs (x ∷ ys))

length-sort_from :
    (done rs : List PolicyRule) → length (sort_from done rs) ≡ length done + length rs
unfolding sort_from
length-sort_from done [] = omega (arith, length-reverse_onto done [])
length-sort_from done (r ∷ rs) =
    omega (arith, length-sort_from (sift r done) rs, length-sift r done)

-- What a rule engine keeps.
abbrev pub IsSound : RuleEngine → Type 0
IsSound e = IsSorted e.rules × (length e.rules ≤ max_rules)

length-take-le : (n : ℕ) (rs : List PolicyRule) → length (take n rs) ≤ n
length-take-le zero rs = omega arith
length-take-le (suc n) [] = omega arith
length-take-le (suc n) (r ∷ rs) = omega (arith, length-take-le n rs)

load_rules-IsSound : (e : RuleEngine) (rs : List PolicyRule) → IsSound (load_rules e rs)
unfolding load_rules
load_rules-IsSound e rs = (
  sort_from-IsSorted [] (take max_rules rs) tt,
  omega (arith, length-sort_from [] (take max_rules rs), length-take-le max_rules rs),
)

add_rule-IsSound : (e : RuleEngine) (r : PolicyRule) → IsSound e → IsSound (add_rule e r).0
unfolding add_rule
add_rule-IsSound e r s = ground (
  arith,
  sort_from-IsSorted [] (e.rules ++ r ∷ []) tt,
  length-sort_from [] (e.rules ++ r ∷ []),
  length-append e.rules (r ∷ []),
)

-- Without the first rule of a name, the rules stay below the bounds that they are below.
remove_named-AtMost :
    (n : ℕ) (name : List ℕ) (rs qs : List PolicyRule)
    → remove_named name rs ≡ some qs
    → AtMost n rs
    → AtMost n qs
unfolding remove_named
remove_named-AtMost n name [] qs e a = ground arith
remove_named-AtMost n name (r ∷ rs) qs e a = elim (Option-cases (remove_named name rs)) [
  | inl h ↦ ground (arith, h)
  | inr (ps, h) ↦ ground (arith, h, remove_named-AtMost n name rs ps h)
]

remove_named-IsSorted :
    (name : List ℕ) (rs qs : List PolicyRule)
    → remove_named name rs ≡ some qs
    → IsSorted rs
    → IsSorted qs × (suc (length qs) ≡ length rs)
unfolding remove_named
remove_named-IsSorted name [] qs e s = ground arith
remove_named-IsSorted name (r ∷ rs) qs e s = elim (Option-cases (remove_named name rs)) [
  | inl h ↦ ground (arith, h)
  | inr (ps, h) ↦
      ground
        (arith, h, remove_named-IsSorted name rs ps h, remove_named-AtMost r.priority name rs ps h)
]

remove_rule-IsSound : (e : RuleEngine) (name : List ℕ) → IsSound e → IsSound (remove_rule e name).0
unfolding remove_rule
remove_rule-IsSound e name s = elim (Option-cases (remove_named name e.rules)) [
  | inl h ↦ ground (arith, h)
  | inr (rs, h) ↦ ground (arith, h, remove_named-IsSorted name e.rules rs h s.0)
]

length-replace_named :
    (name : List ℕ) (r : PolicyRule) (rs qs : List PolicyRule)
    → replace_named name r rs ≡ some qs
    → length qs ≡ length rs
unfolding replace_named
length-replace_named name r [] qs e = ground arith
length-replace_named name r (q ∷ rs) qs e = elim (Option-cases (replace_named name r rs)) [
  | inl h ↦ ground (arith, h)
  | inr (ps, h) ↦ ground (arith, h, length-replace_named name r rs ps h)
]

replace_rule-IsSound :
    (e : RuleEngine) (name : List ℕ) (r : PolicyRule)
    → IsSound e
    → IsSound (replace_rule e name r).0
unfolding replace_rule
replace_rule-IsSound e name r s = elim (Option-cases (replace_named name r e.rules)) [
  | inl h ↦ ground (arith, h)
  | inr (rs, h) ↦ ground (
    arith,
    h,
    sort_from-IsSorted [] rs tt,
    length-sort_from [] rs,
    length-replace_named name r e.rules rs h,
  )
]

-- Loaded rules stand by priority and are at most 64, and adding, removing and replacing a rule
-- keep a sound engine so.
pub operations-IsSound :
    (e : RuleEngine) (rs : List PolicyRule) (r : PolicyRule) (name : List ℕ)
    → IsSound e
    → IsSound (load_rules e rs)
      × IsSound (add_rule e r).0
      × IsSound (remove_rule e name).0
      × IsSound (replace_rule e name r).0
operations-IsSound e rs r name s = (
  load_rules-IsSound e rs,
  add_rule-IsSound e r s,
  remove_rule-IsSound e name s,
  replace_rule-IsSound e name r s,
)
