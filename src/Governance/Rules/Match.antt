-- ===== src/Governance/Rules/Match.antt =====
-- kernel/src/governance/rules.rs: which rule decides on a message.
use fabric_os.Base.{
  ℕ, ◌≤◌, ◌<◌, ◌≡◌, refl, ap, ◌∙◌, inl, inr, zero, suc, Bool, true, false, List, [], ◌∷◌, Option,
  none, some, length, arith, ltb, if◌then◌else◌, All, unwrap_or, Bool-cases, take,
}
use fabric_os.Governance.Rules.{
  EvalContext, Condition, PolicyRule, RuleEngine, max_rules, evaluate_condition, all_hold, matches,
  sift, reverse_onto, sort_from, load_rules, first_match,
}
use fabric_os.Governance.Rules.Order.{IsWellFormed, IsRising, AtLeast, AtLeast-mono, sift-IsRising}

all_hold-some :
    (n : ℕ) (cs : List Condition) (ctx : EvalContext)
    → n ≤ length cs
    → (b : Bool) × (all_hold n cs ctx ≡ some b)
unfolding all_hold
all_hold-some zero cs ctx h = (true, refl)
all_hold-some (suc n) [] ctx h = absurd (omega arith)
all_hold-some (suc n) (c ∷ cs) ctx h = elim (Bool-cases (evaluate_condition c ctx)) [
  | inl e ↦ rw e (all_hold-some n cs ctx (omega arith))
  | inr e ↦ rw e (false, refl)
]

-- Whether the rule matches; a rule that panics does not.
abbrev pub fires : EvalContext → PolicyRule → Bool
fires ctx r = unwrap_or (matches r ctx) false

-- The better of a rule found before and the next one: the next one if it matches and the other has
-- a lower priority.
abbrev pub better : EvalContext → Option PolicyRule → PolicyRule → Option PolicyRule
better ctx none r = if fires ctx r then some r else none
better ctx (some b) r =
    if fires ctx r then (if ltb b.priority r.priority then some r else some b) else some b

-- The matching rule of the highest priority, and of those the first of the list.
unfoldable pub best : EvalContext → Option PolicyRule → List PolicyRule → Option PolicyRule
best ctx o [] = o
best ctx o (r ∷ rs) = best ctx (better ctx o r) rs

-- The last match of a list, or else `o`.
abbrev last_match : EvalContext → Option PolicyRule → List PolicyRule → Option PolicyRule
last_match ctx o [] = o
last_match ctx o (r ∷ rs) = last_match ctx (if fires ctx r then some r else o) rs

abbrev first_fires : EvalContext → List PolicyRule → Option PolicyRule
first_fires ctx [] = none
first_fires ctx (r ∷ rs) = if fires ctx r then some r else first_fires ctx rs

first_match-fires :
    (ctx : EvalContext) (rs : List PolicyRule)
    → All IsWellFormed rs
    → first_match ctx rs ≡ some (first_fires ctx rs)
unfolding first_match matches
first_match-fires ctx [] w = refl
first_match-fires ctx (r ∷ rs) w =
    ground
      (arith, all_hold-some r.condition_count r.conditions ctx w.0, first_match-fires ctx rs w.1)

first_fires-reverse_onto :
    (ctx : EvalContext) (xs ys : List PolicyRule)
    → first_fires ctx (reverse_onto xs ys) ≡ last_match ctx (first_fires ctx ys) xs
first_fires-reverse_onto ctx [] ys = refl
first_fires-reverse_onto ctx (x ∷ xs) ys = first_fires-reverse_onto ctx xs (x ∷ ys)

-- Whatever was found before has a lower priority than the rule.
abbrev IsLower : Option PolicyRule → PolicyRule → Type 0
IsLower none r = Unit {0}
IsLower (some b) r = b.priority < r.priority

better-last_match :
    (ctx : EvalContext) (r b : PolicyRule) (xs : List PolicyRule)
    → AtLeast r.priority xs
    → r.priority ≤ b.priority
    → better ctx (last_match ctx (some b) xs) r ≡ last_match ctx (some b) xs
better-last_match ctx r b [] a h = ground arith
better-last_match ctx r b (x ∷ xs) a h =
    ground (arith, better-last_match ctx r x xs a.1 a.0, better-last_match ctx r b xs a.1 h)

last_match-before :
    (ctx : EvalContext) (r : PolicyRule) (o : Option PolicyRule) (xs : List PolicyRule)
    → AtLeast r.priority xs
    → IsLower o r
    → last_match ctx (if fires ctx r then some r else o) xs ≡ better ctx (last_match ctx o xs) r
last_match-before ctx r none [] a l = refl
last_match-before ctx r (some b) [] a l = ground arith
last_match-before ctx r o (x ∷ xs) a l =
    ground (arith, last_match-before ctx r o xs a.1 l, better-last_match ctx r x xs a.1 a.0)

last_match-sift :
    (ctx : EvalContext) (r : PolicyRule) (o : Option PolicyRule) (xs : List PolicyRule)
    → IsRising xs
    → IsLower o r
    → last_match ctx o (sift r xs) ≡ better ctx (last_match ctx o xs) r
unfolding sift
last_match-sift ctx r o [] s l = last_match-before ctx r o [] tt l
last_match-sift ctx r o (x ∷ xs) s l = ground (
  arith,
  last_match-sift ctx r o xs s.1 l,
  last_match-sift ctx r (some x) xs s.1,
  last_match-before ctx r o (x ∷ xs),
  AtLeast-mono r.priority x.priority xs,
)

first_fires-sort_from :
    (ctx : EvalContext) (done rs : List PolicyRule)
    → IsRising done
    → first_fires ctx (sort_from done rs) ≡ best ctx (last_match ctx none done) rs
unfolding sort_from best
first_fires-sort_from ctx done [] s = first_fires-reverse_onto ctx done []
first_fires-sort_from ctx done (r ∷ rs) s =
    first_fires-sort_from ctx (sift r done) rs (sift-IsRising r done s)
    ∙ ap (λ o. best ctx o rs) (last_match-sift ctx r none done s tt)

sift-All :
    (P : PolicyRule → Type 0) (r : PolicyRule) (rs : List PolicyRule)
    → P r
    → All P rs
    → All P (sift r rs)
unfolding sift
sift-All P r [] p a = (p, tt)
sift-All P r (x ∷ xs) p a = ground (arith, sift-All P r xs p a.1)

reverse_onto-All :
    (P : PolicyRule → Type 0) (xs ys : List PolicyRule)
    → All P xs
    → All P ys
    → All P (reverse_onto xs ys)
reverse_onto-All P [] ys a b = b
reverse_onto-All P (x ∷ xs) ys a b = reverse_onto-All P xs (x ∷ ys) a.1 (a.0, b)

sort_from-All :
    (P : PolicyRule → Type 0) (done rs : List PolicyRule)
    → All P done
    → All P rs
    → All P (sort_from done rs)
unfolding sort_from
sort_from-All P done [] a b = reverse_onto-All P done [] a tt
sort_from-All P done (r ∷ rs) a b = sort_from-All P (sift r done) rs (sift-All P r done b.0 a) b.1

take_all : (n : ℕ) (rs : List PolicyRule) → length rs ≤ n → take n rs ≡ rs
take_all zero [] h = refl
take_all zero (r ∷ rs) h = absurd (omega arith)
take_all (suc n) [] h = refl
take_all (suc n) (r ∷ rs) h = ap (λ qs. r ∷ qs) (take_all n rs (omega arith))

-- After at most 64 well-formed rules are loaded, the rule that decides on a message is the
-- matching one of the highest priority, and among those of that priority the one loaded first.
pub first_match-load_rules :
    (ctx : EvalContext) (e : RuleEngine) (rs : List PolicyRule)
    → length rs ≤ max_rules
    → All IsWellFormed rs
    → first_match ctx (load_rules e rs).rules ≡ some (best ctx none rs)
unfolding load_rules
first_match-load_rules ctx e rs h w = rw (take_all max_rules rs h) (
    first_match-fires ctx (sort_from [] rs) (sort_from-All IsWellFormed [] rs tt w)
    ∙ ap some (first_fires-sort_from ctx [] rs tt))
