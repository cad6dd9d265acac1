-- ===== src/Base/Ring.antt =====
-- A circular buffer of `size` slots with a head, a tail and a count, as the list of its items.
use Prim.Native.Nat.{ℕ, suc, ◌+◌, ◌-◌, ◌%◌, ◌<◌, ◌≤◌}
use mathlib.Core.Path.{◌≡◌, refl, sym, ap, ◌∙◌}
use mathlib.Core.Logic.{◌≢◌}
use mathlib.Core.Option.{Option, none, some}
use mathlib.Core.List.{List, [], ◌∷◌, ◌++◌}
use native.Mathlib.Nat.{mod-add-mod, mod-eq_of_lt, mod-eq-sub-mod, mod-lt, add-zero}
use native.Mathlib.Decide.{dec_lt}
use native.Mathlib.Omega.{arith}
use fabric_os.Base.Lists.{length, length-append}
use fabric_os.Base.Slots.{update, update_self, Holds, Holds-update, Holds-append, Misses}

pub record Ring {ℓ} {A : Type ℓ} (size : ℕ) (s : ℕ → Option A) (head tail count : ℕ) (xs : List A)
    : Type ℓ where
  pub held : Holds size s head xs
  pub head_in : head < size
  pub tail_at : tail ≡ (head + length xs) % size
  pub counted : count ≡ length xs
  pub bounded : length xs ≤ size

-- Two different distances below `size` from one index lead to two indices.
mod-ne : {size h d n : ℕ} → h < size → d < n → n < size → (h + d) % size ≢ (h + n) % size
mod-ne {size} {h} {d} {n} p q r = elim (dec_lt (h + n) size) [
  | yes in_n ↦ omega (
    arith,
    mod-eq_of_lt {n = h + n} {m = size} in_n,
    mod-eq_of_lt {n = h + d} {m = size} (omega arith),
  )
  | no out_n ↦ elim (dec_lt (h + d) size) [
    | yes in_d ↦ omega (
      arith,
      mod-eq_of_lt {n = h + d} {m = size} in_d,
      mod-eq-sub-mod {n = h + n} {m = size} (omega arith),
      mod-eq_of_lt {n = h + n - size} {m = size} (omega arith),
    )
    | no out_d ↦ omega (
      arith,
      mod-eq-sub-mod {n = h + d} {m = size} (omega arith),
      mod-eq_of_lt {n = h + d - size} {m = size} (omega arith),
      mod-eq-sub-mod {n = h + n} {m = size} (omega arith),
      mod-eq_of_lt {n = h + n - size} {m = size} (omega arith),
    )
  ]
]

module _ {ℓ} {A : Type ℓ} where
  pub empty-Ring : (size : ℕ) (s : ℕ → Option A) → 0 < size → Ring size s 0 0 0 []
  empty-Ring size s p = record {
    held = tt;
    head_in = p;
    tail_at = sym (mod-eq_of_lt {n = 0} {m = size} p);
    counted = refl;
    bounded = omega arith;
  }

  -- A write at the tail of a ring with room appends.
  pub Ring-push :
      {size : ℕ} {s : ℕ → Option A} {h t c : ℕ} {xs : List A} (x : A)
      → Ring size s h t c xs
      → length xs < size
      → Ring size (update s t (some x)) h ((t + 1) % size) (c + 1) (xs ++ x ∷ [])
  Ring-push {size} {s} {h} {t} {c} {xs} x r room = record {
    held =
        Holds-append size (update s t (some x)) h xs x r.head_in
          (Holds-update size s t (some x) h xs r.head_in
            (λ d lt e. mod-ne r.head_in lt room (e ∙ r.tail_at)) r.held)
          (ap (update s t (some x)) (sym r.tail_at) ∙ update_self s t (some x));
    head_in = r.head_in;
    tail_at =
        ap (λ k. (k + 1) % size) r.tail_at
        ∙ mod-add-mod (h + length xs) size 1
        ∙ ap (λ k. k % size) (omega (arith, length-append xs (x ∷ [])));
    counted = omega (arith, length-append xs (x ∷ []), r.counted);
    bounded = omega (arith, length-append xs (x ∷ []));
  }

  -- Moving the head on drops the oldest item.
  pub Ring-advance :
      {size : ℕ} {s : ℕ → Option A} {h t c : ℕ} {x : A} {xs : List A}
      → Ring size s h t c (x ∷ xs)
      → Ring size s ((h + 1) % size) t (c - 1) xs
  Ring-advance {size} {s} {h} {t} {c} {x} {xs} r = record {
    held = r.held.1;
    head_in = mod-lt _ (omega (arith, r.head_in));
    tail_at = r.tail_at ∙ ap (λ k. k % size) (shift) ∙ sym (mod-add-mod (h + 1) size (length xs));
    counted = omega (arith, r.counted);
    bounded = omega (arith, r.bounded);
  }
    where
      shift : h + length (x ∷ xs) ≡ h + 1 + length xs
      shift = omega arith

  -- `take()` on the head's slot, and the head moves on.
  pub Ring-pop :
      {size : ℕ} {s : ℕ → Option A} {h t c : ℕ} {x : A} {xs : List A}
      → Ring size s h t c (x ∷ xs)
      → Ring size (update s h none) ((h + 1) % size) t (c - 1) xs
  Ring-pop {size} {s} {h} {t} {c} {x} {xs} r =
      let v = Ring-advance r in
      record {
        held = Holds-update size s h none ((h + 1) % size) xs v.head_in misses v.held;
        head_in = v.head_in;
        tail_at = v.tail_at;
        counted = v.counted;
        bounded = v.bounded;
      }
    where
      misses : Misses size h ((h + 1) % size) (length xs)
      misses d lt e =
          mod-ne {size = size} {h = h} {d = 0} {n = suc d} r.head_in (omega arith)
            (omega (arith, r.bounded))
            (rw (add-zero, mod-eq_of_lt r.head_in)
              (sym e ∙ mod-add-mod (h + 1) size d ∙ ap (λ k. k % size) (omega arith)))

-- The same ring, its numbers written otherwise.
pub Ring-cast {ℓ} :
    {A : Type ℓ} {size : ℕ} {s : ℕ → Option A} {h h' t t' c c' : ℕ} {xs : List A}
    → h ≡ h'
    → t ≡ t'
    → c ≡ c'
    → Ring size s h t c xs
    → Ring size s h' t' c' xs
Ring-cast p q r v = rw (← p, ← q, ← r) v
