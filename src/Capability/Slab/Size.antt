-- ===== src/Capability/Slab/Size.antt =====
-- kernel/src/capability/slab.rs: a map that holds a key is not empty.
use fabric_os.Base.{
  ℕ, ◌+◌, ◌<◌, ◌≤◌, ◌≡◌, ap, sym, ◌∙◌, inl, inr, refl, true, none, some, arith, ◌==◌, ltb,
  if◌then◌else◌,
}
use fabric_os.Capability.Slab.{FixedMap, insert, get, remove, contains_key}
use fabric_os.Capability.Slab.Probing.{differ}
use fabric_os.Capability.Slab.Occupied.{one, occupied-update}
use fabric_os.Capability.Slab.Deletion.{remove_lem, find_uninit, get-vacant}
use fabric_os.Capability.Slab.Laws.{insert_lem, and_true, or_true}
use fabric_os.Capability.Slab.Ready.{IsValid, max_entries, get_iff_Has}

module _ {V : Type 0} where
  pub get-len : (m : FixedMap V) (key : ℕ) (v : V) → IsValid m → get m key ≡ some v → 0 < m.len
  get-len m key v (inl (e, n)) h =
      absurd (differ (sym h ∙ get-vacant m key 0 (find_uninit m key e)))
  get-len m key v (inr (s, r)) h =
      let (i, p, e) = (get_iff_Has m s key v r).0 h in
      omega (arith, occupied-update 16384 i s none p, ap one e, r.counted)

  pub remove-len :
      (m : FixedMap V) (key : ℕ) (v : V)
      → IsValid m
      → get m key ≡ some v
      → (remove m key).0.len + 1 ≡ m.len
  unfolding contains_key
  remove-len m key v valid e =
      let size = (remove_lem m key valid).3 in
      let here : contains_key m key ≡ true = rw (contains_key, e) refl in
      omega (arith, rw here at size, get-len m key v valid e)

  pub len-le : (m : FixedMap V) → IsValid m → m.len ≤ max_entries
  len-le m (inl (e, n)) = omega (arith, n)
  len-le m (inr (s, r)) = r.bounded

  -- `insert` into a map that is not full.
  pub insert_room :
      (m : FixedMap V) (key : ℕ) (v : V)
      → IsValid m
      → m.len < max_entries
      → IsValid (insert m key v).0
        × ((j : ℕ) → get (insert m key v).0 j ≡ (if key == j then some v else get m j))
  insert_room m key v valid room =
      let (ok, done, all, size) = insert_lem m key v valid in
      let fits : ltb m.len max_entries ≡ true = ground (arith, room) in
      let stored : (insert m key v).1 ≡ true = done ∙ (rw fits (or_true (contains_key m key))) in
      (ok, λ j. all j ∙ (rw stored (ap (λ b. if b then some v else get m j) (and_true (key == j)))))
