-- ===== src/Base.antt =====
-- What every component shares: the libraries' names passed on, Boolean tests, machine words, bytes,
-- fixed-size arrays and ordered maps. No file of the repository is modelled here but the parts of
-- Rust's core and alloc crates that kernel/src and fabric_types/src use.
mod Tests
mod Lists
pub mod Words
pub mod Slots
pub mod Results
pub mod Ring
pub mod OrdMap
pub mod Bytes
pub mod Bits
pub mod Members
pub use Tests.*
pub use Lists.*
pub use Prim.Native.Nat.{ℕ, zero, suc, ◌+◌, ◌-◌, ◌*◌, ◌/◌, ◌%◌, ◌^◌, ◌≤◌, ◌<◌, min, max}
pub use Prim.Native.Nat.{bit_and, bit_or, bit_xor}
pub use mathlib.Core.Path.{◌≡◌, refl, sym, ap, ap₂, subst, ◌∙◌, fun_ext}
pub use mathlib.Core.Logic.{◌≢◌, ◌↔◌, ◌⊎◌, inl, inr}
pub use mathlib.Core.Bool.{Bool, true, false, not, ◌&&◌, ◌||◌}
pub use mathlib.Core.Option.{Option, none, some}
pub use mathlib.Core.List.{List, [], ◌∷◌, ◌++◌, map}
pub use native.Mathlib.Omega.{arith}
