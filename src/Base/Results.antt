-- ===== src/Base/Results.antt =====
-- `Result<T, E>` of a call that may also panic; the kernel is built with `panic = "abort"`.
use mathlib.Core.Path.{◌≡◌, refl}
use mathlib.Core.Logic.{◌⊎◌, inl, inr}

pub data Result (A E : Type 0) : Type 0 where
  ok : A → Result A E
  err : E → Result A E
  panic : Result A E

-- To split on a computed result and keep the equation.
pub Result-cases :
    {A E : Type 0} (x : Result A E)
    → ((a : A) × (x ≡ ok a)) ⊎ (((e : E) × (x ≡ err e)) ⊎ (x ≡ panic))
Result-cases (ok a) = inl (a, refl)
Result-cases (err e) = inr (inl (e, refl))
Result-cases panic = inr (inr refl)
