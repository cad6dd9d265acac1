-- ===== src/Base/Slots.antt =====
-- A fixed-size array `[Option<T>; N]`: the function from an index below N to what the slot holds.
-- The components prove that the indices that they use are below N.
use fabric_os.Base.Tests.{◌==◌, ==_refl, if◌then◌else◌}
use fabric_os.Base.Lists.{length}
use Prim.Native.Nat.{ℕ, suc, ◌+◌, ◌%◌, ◌<◌}
use mathlib.Core.Path.{◌≡◌, sym, ap, ◌∙◌}
use mathlib.Core.Logic.{◌≢◌}
use mathlib.Core.Option.{Option, some}
use mathlib.Core.List.{List, [], ◌∷◌, ◌++◌}
use native.Mathlib.Nat.{mod-add-mod, mod-eq_of_lt, mod-lt, add-zero}
use native.Mathlib.Omega.{arith}

-- The index `i` is none of the `n` indices going round an array of `size` slots from `h`.
abbrev pub Misses : ℕ → ℕ → ℕ → ℕ → Type 0
Misses size i h n = (d : ℕ) → d < n → (h + d) % size ≢ i

Misses-next : (size i h n : ℕ) → Misses size i h (suc n) → Misses size i ((h + 1) % size) n
Misses-next size i h n m d p e =
    m (suc d) (omega arith) (ap (λ k. k % size) shift ∙ sym (mod-add-mod (h + 1) size d) ∙ e)
  where
    shift : h + suc d ≡ h + 1 + d
    shift = omega arith

module _ {ℓ} {A : Type ℓ} where
  -- `slots[i] = v`.
  abbrev pub update : (ℕ → A) → ℕ → A → ℕ → A
  update s i v j = if i == j then v else s j

  pub update_self : (s : ℕ → A) (i : ℕ) (v : A) → update s i v i ≡ v
  update_self s i v = rw (==_refl i)

  pub update_ne : (s : ℕ → A) (i j : ℕ) (v : A) → i ≢ j → update s i v j ≡ s j
  update_ne s i j v h = ground arith

module _ {ℓ} {A : Type ℓ} where
  -- Going round an array of `size` slots from index `h`, the slots hold the items of the list.
  abbrev pub Holds : ℕ → (ℕ → Option A) → ℕ → List A → Type ℓ
  Holds size s h [] = Unit
  Holds size s h (x ∷ xs) = (s h ≡ some x) × Holds size s ((h + 1) % size) xs

  -- A write at an index that the items do not use leaves them.
  pub Holds-update :
      (size : ℕ) (s : ℕ → Option A) (i : ℕ) (v : Option A) (h : ℕ) (xs : List A)
      → h < size
      → Misses size i h (length xs)
      → Holds size s h xs
      → Holds size (update s i v) h xs
  Holds-update size s i v h [] lt m hs = tt
  Holds-update size s i v h (x ∷ xs) lt m hs = (
    update_ne s i h v (λ e. m 0 (omega arith) (rw (add-zero, mod-eq_of_lt lt) (sym e))) ∙ hs.0,
    Holds-update size s i v ((h + 1) % size) xs (mod-lt _ (omega arith))
        (Misses-next size i h (length xs) m) hs.1,
  )

  -- The slot after the last item extends them.
  pub Holds-append :
      (size : ℕ) (s : ℕ → Option A) (h : ℕ) (xs : List A) (x : A)
      → h < size
      → Holds size s h xs
      → s ((h + length xs) % size) ≡ some x
      → Holds size s h (xs ++ x ∷ [])
  Holds-append size s h [] x lt hs e = (rw (add-zero, mod-eq_of_lt lt) at e, tt)
  Holds-append size s h (y ∷ xs) x lt hs e = (
    hs.0,
    Holds-append size s ((h + 1) % size) xs x (mod-lt _ (omega arith)) hs.1
        (ap s (mod-add-mod (h + 1) size (length xs) ∙ ap (λ k. k % size) shift) ∙ e),
  )
    where
      shift : h + 1 + length xs ≡ h + length (y ∷ xs)
      shift = omega arith
