-- ===== src/Base/OrdMap.antt =====
-- `BTreeMap<K, V>` over an unsigned key: the list of its pairs, in the order of the keys.
use Prim.Native.Nat.{ℕ, suc, ◌+◌, ◌≤◌, ◌<◌}
use mathlib.Core.Path.{◌≡◌, refl}
use mathlib.Core.Bool.{Bool}
use mathlib.Core.Option.{Option, none, some}
use mathlib.Core.List.{List, [], ◌∷◌}
use native.Mathlib.Omega.{arith}
use fabric_os.Base.Tests.{ltb, ◌==◌, if◌then◌else◌, is_some}
use fabric_os.Base.Lists.{length}

module _ {ℓ} {V : Type ℓ} where
  abbrev pub lookup : ℕ → List (ℕ × V) → Option V
  lookup k [] = none
  lookup k ((j, v) ∷ m) = if j == k then some v else lookup k m

  abbrev pub contains_key : ℕ → List (ℕ × V) → Bool
  contains_key k m = is_some (lookup k m)

  unfoldable pub insert : ℕ → V → List (ℕ × V) → List (ℕ × V)
  insert k v [] = (k, v) ∷ []
  insert k v ((j, w) ∷ m) =
      if ltb k j then (k, v) ∷ (j, w) ∷ m else if j == k then (k, v) ∷ m else (j, w) ∷ insert k v m

  unfoldable pub remove : ℕ → List (ℕ × V) → List (ℕ × V)
  remove k [] = []
  remove k ((j, w) ∷ m) = if j == k then remove k m else (j, w) ∷ remove k m

  pub lookup-insert :
      (k j : ℕ) (v : V) (m : List (ℕ × V))
      → lookup j (insert k v m) ≡ (if k == j then some v else lookup j m)
  unfolding insert
  lookup-insert k j v [] = refl
  lookup-insert k j v ((i, w) ∷ m) = ground (arith, lookup-insert k j v m)

  lookup-insert_self : (k : ℕ) (v : V) (m : List (ℕ × V)) → lookup k (insert k v m) ≡ some v
  lookup-insert_self k v m = ground (arith, lookup-insert k k v m)

  pub lookup-remove :
      (k j : ℕ) (m : List (ℕ × V)) → lookup j (remove k m) ≡ (if k == j then none else lookup j m)
  unfolding remove
  lookup-remove k j [] = ground arith
  lookup-remove k j ((i, w) ∷ m) = ground (arith, lookup-remove k j m)

  pub length-insert-le : (k : ℕ) (v : V) (m : List (ℕ × V)) → length (insert k v m) ≤ length m + 1
  unfolding insert
  length-insert-le k v [] = omega arith
  length-insert-le k v ((j, w) ∷ m) = ground (arith, length-insert-le k v m)

  pub length-remove-le : (k : ℕ) (m : List (ℕ × V)) → length (remove k m) ≤ length m
  unfolding remove
  length-remove-le k [] = omega arith
  length-remove-le k ((j, w) ∷ m) = ground (arith, length-remove-le k m)

  -- The keys are in order, from `n` up, each once.
  abbrev pub Keys : ℕ → List (ℕ × V) → Type 0
  Keys n [] = Unit {0}
  Keys n ((k, v) ∷ m) = (n ≤ k) × Keys (suc k) m

  Keys-mono : (n j : ℕ) (m : List (ℕ × V)) → n ≤ j → Keys j m → Keys n m
  Keys-mono n j [] h k = tt
  Keys-mono n j ((i, w) ∷ m) h k = (omega arith, k.1)

  lookup-Keys : (n k : ℕ) (m : List (ℕ × V)) → k < n → Keys n m → lookup k m ≡ none
  lookup-Keys n k [] h s = refl
  lookup-Keys n k ((i, w) ∷ m) h s = ground (arith, lookup-Keys (suc i) k m)

  pub insert-Keys : (n k : ℕ) (v : V) (m : List (ℕ × V)) → n ≤ k → Keys n m → Keys n (insert k v m)
  unfolding insert
  insert-Keys n k v [] h s = (h, tt)
  insert-Keys n k v ((i, w) ∷ m) h s = ground (arith, insert-Keys (suc i) k v m)

  pub remove-Keys : (n k : ℕ) (m : List (ℕ × V)) → Keys n m → Keys n (remove k m)
  unfolding remove
  remove-Keys n k [] s = tt
  remove-Keys n k ((i, w) ∷ m) s =
      ground (arith, remove-Keys (suc i) k m s.1, Keys-mono n (suc i) (remove k m))

  pub length-insert_known :
      (n k : ℕ) (v w : V) (m : List (ℕ × V))
      → Keys n m
      → lookup k m ≡ some w
      → length (insert k v m) ≡ length m
  unfolding insert
  length-insert_known n k v w [] s e = cc
  length-insert_known n k v w ((i, u) ∷ m) s e =
      ground (arith, lookup-Keys (suc i) k m, length-insert_known (suc i) k v w m s.1)
