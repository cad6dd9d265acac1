-- ===== src/Capability/Nonce.antt =====
-- kernel/src/capability/nonce.rs: the highest nonce accepted for each capability.
use fabric_os.Base.{
  ℕ, ◌≡◌, refl, Bool, true, false, ◌==◌, ltb, ◌&&◌, ◌||◌, none, some, Option, arith, if◌then◌else◌,
  unwrap_or, Bool-cases, inl, inr,
}
use fabric_os.Base.Words.{add32}
use fabric_os.Capability.Slab.{FixedMap}
use fabric_os.Capability.Slab
use fabric_os.Capability.Slab.Ready.{IsValid, max_entries}
use fabric_os.Capability.Slab.Deletion.{modify_lem}
use fabric_os.Capability.Slab.Reuse.{get_or_insert_lem}
use mathlib.Core.Option.{map}

pub record NonceTracker : Type 0 where
  pub last_seen : FixedMap ℕ

unfoldable pub new_nonces : NonceTracker
new_nonces = record { last_seen = Slab.new_map }

-- The reference that `get_or_insert` returns, none where it panics.
unfoldable pub check_entry : FixedMap ℕ → ℕ → ℕ → Option ℕ → NonceTracker × Option Bool
check_entry seen cap_id nonce none = (record { last_seen = seen }, none)
check_entry seen cap_id nonce (some last) =
    if ltb last nonce
    then (record { last_seen = Slab.modify seen cap_id (λ n. nonce) }, some true)
    else (record { last_seen = seen }, some false)

unfoldable pub check_and_advance : NonceTracker → ℕ → ℕ → NonceTracker × Option Bool
check_and_advance t cap_id nonce =
    let (seen, entry) = Slab.get_or_insert t.last_seen cap_id 0 in
    check_entry seen cap_id nonce entry

unfoldable pub next_expected : NonceTracker → ℕ → ℕ
next_expected t cap_id = unwrap_or (map (λ n. add32 n 1) (Slab.get t.last_seen cap_id)) 1

unfoldable pub remove : NonceTracker → ℕ → NonceTracker
remove t cap_id = record { last_seen = (Slab.remove t.last_seen cap_id).0 }

unfoldable pub clear : NonceTracker → NonceTracker
clear t = record { last_seen = Slab.clear t.last_seen }

-- The highest nonce accepted so far, 0 at first.
abbrev pub highest : NonceTracker → ℕ → ℕ
highest t cap_id = unwrap_or (Slab.get t.last_seen cap_id) 0

-- Room for one more capability, or this one is known.
abbrev pub HasRoom : {V : Type 0} → FixedMap V → ℕ → Type 0
HasRoom m cap_id = (Slab.contains_key m cap_id || ltb m.len max_entries) ≡ true

abbrev pub Advances : NonceTracker → ℕ → ℕ → NonceTracker × Option Bool → Type 0
Advances t cap_id nonce r =
    IsValid r.0.last_seen
    × (r.1 ≡ some (ltb (highest t cap_id) nonce))
    × ((j : ℕ)
        → highest r.0 j
          ≡ (if (cap_id == j) && ltb (highest t cap_id) nonce then nonce else highest t j))
    × ((j : ℕ)
        → Slab.contains_key r.0.last_seen j ≡ ((cap_id == j) || Slab.contains_key t.last_seen j))

-- A nonce is accepted exactly when it is above all accepted before it, and then it is the highest;
-- a refused one changes none.
pub check_and_advance_lem :
    (t : NonceTracker) (cap_id nonce : ℕ)
    → IsValid t.last_seen
    → HasRoom t.last_seen cap_id
    → Advances t cap_id nonce (check_and_advance t cap_id nonce)
unfolding check_and_advance check_entry Slab.contains_key
check_and_advance_lem t cap_id nonce valid room =
    let (ok, entry, all, size) = get_or_insert_lem t.last_seen cap_id 0 valid room in
    let (ok2, all2, size2) =
      modify_lem (Slab.get_or_insert t.last_seen cap_id 0).0 cap_id (λ n. nonce) ok in
    elim (Bool-cases (ltb (highest t cap_id) nonce)) [
      | inl y ↦
          rw (check_and_advance, entry, check_entry, y)
            (
              ok2,
              refl,
              (λ j. ground (arith, all j, all cap_id, all2 j, y)),
              λ j. ground (arith, all j, all cap_id, all2 j),
            )
      | inr y ↦
          rw (check_and_advance, entry, check_entry, y)
            (ok, refl, (λ j. ground (arith, all j, y)), λ j. ground (arith, all j))
    ]
