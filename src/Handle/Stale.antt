-- ===== src/Handle/Stale.antt =====
-- kernel/src/handle/table.rs: generations, and how long they keep a released handle out.
use fabric_os.Base.{
  ℕ, ◌+◌, ◌%◌, ◌<◌, ◌≡◌, ◌≢◌, refl, List, [], ◌∷◌, Bool, false, not, ◌&&◌, arith, if◌then◌else◌,
  ◌==◌, inl, inr, is_some,
}
use fabric_os.Base.Words.{u16_mod}
use fabric_os.Handle.{HandleTable, found, slot, generation, fill, alloc, resolve, release}
use fabric_os.Handle.Slots.{alloc_cases, resolve_lem}

-- The calls that the owner of the table makes.
pub data Call : Type 0 where
  allocates releases : ℕ → Call

unfoldable pub run_call : HandleTable → Call → HandleTable
run_call t (allocates c) = (alloc t c).0
run_call t (releases h) = (release t h).0

unfoldable pub run_calls : HandleTable → List Call → HandleTable
run_calls t [] = t
run_calls t (c ∷ cs) = run_calls (run_call t c) cs

-- Whether the call releases slot `i`.
unfoldable pub frees : ℕ → HandleTable → Call → Bool
frees i t (allocates c) = false
frees i t (releases h) = slot h == i && not (is_some (release t h).1)

-- How often slot `i` is released in a series of calls.
unfoldable pub times_freed : ℕ → HandleTable → List Call → ℕ
times_freed i t [] = 0
times_freed i t (c ∷ cs) =
    let rest = times_freed i (run_call t c) cs in if frees i t c then rest + 1 else rest

generation-call :
    (i : ℕ) (t : HandleTable) (c : Call)
    → ((run_call t c).entries i).generation
      ≡ (if frees i t c then ((t.entries i).generation + 1) % u16_mod else (t.entries i).generation)
unfolding run_call frees
generation-call i t (allocates c) = elim (alloc_cases t c) [
  | inl (e, n) ↦ rw (e, run_call) refl
  | inr (j, f, e) ↦ rw (e, run_call) (unfold fill in ground arith)
]
generation-call i t (releases h) = unfold release in ground arith

-- The generation of a slot counts its releases, in 16 bits.
generation-calls :
    (i : ℕ) (t : HandleTable) (cs : List Call)
    → (t.entries i).generation < u16_mod
    → ((run_calls t cs).entries i).generation
      ≡ ((t.entries i).generation + times_freed i t cs) % u16_mod
unfolding run_calls times_freed
generation-calls i t [] l = omega arith
generation-calls i t (c ∷ cs) l =
    ground (arith, generation-call i t c, generation-calls i (run_call t c) cs)

-- A handle that resolved and whose slot has since been released, fewer than 65536 times, resolves
-- no more, whatever was allocated and released in between.
pub resolve-stale :
    (t : HandleTable) (h c d : ℕ) (cs : List Call)
    → resolve t h ≡ found c
    → generation h < u16_mod
    → 0 < times_freed (slot h) t cs
    → times_freed (slot h) t cs < u16_mod
    → resolve (run_calls t cs) h ≢ found d
resolve-stale t h c d cs r l lo hi e =
    let before = resolve_lem t h c r in
    let after = resolve_lem (run_calls t cs) h d e in
    let moved = generation-calls (slot h) t cs in ground (arith, before, after, moved)

-- Released 65536 times, a slot has its first generation again.
generation-wraps :
    (t : HandleTable) (i : ℕ) (cs : List Call)
    → (t.entries i).generation < u16_mod
    → times_freed i t cs ≡ u16_mod
    → ((run_calls t cs).entries i).generation ≡ (t.entries i).generation
generation-wraps t i cs l n = omega (arith, generation-calls i t cs l)
