-- ===== src/Tests/Handles.antt =====
-- The theorems on handles, at a table with one handle.
use fabric_os.Base.{◌≡◌, ◌≢◌, refl, List, [], ◌∷◌, arith}
use fabric_os.Handle
use fabric_os.Handle.{HandleTable, found, failed, table_full, max_handles, alloc, resolve}
use fabric_os.Handle.Count.{IsCounted, alloc-IsCounted}
use fabric_os.Handle.Stale.{Call, allocates, releases, run_calls, times_freed, resolve-stale}

abbrev one_handle : HandleTable
one_handle = (alloc Handle.new 7).0

one_handle-resolve : resolve one_handle 0 ≡ found 7
unfolding resolve alloc Handle.check_handle Handle.first_free Handle.fill Handle.new Handle.slot
    Handle.generation
one_handle-resolve = refl

abbrev reused : List Call
reused = releases 0 ∷ allocates 9 ∷ []

reused-times_freed : times_freed (Handle.slot 0) one_handle reused ≡ 1
unfolding times_freed alloc Handle.release Handle.check_handle Handle.first_free Handle.fill
    Handle.new Handle.slot Handle.generation fabric_os.Handle.Stale.frees
    fabric_os.Handle.Stale.run_call
reused-times_freed = refl

resolve-stale_example : resolve (run_calls one_handle reused) 0 ≢ found 9
resolve-stale_example =
    resolve-stale one_handle 0 7 9 reused one_handle-resolve
      (unfold Handle.generation in omega arith) (omega (arith, reused-times_freed))
      (omega (arith, reused-times_freed))

new-IsCounted : IsCounted Handle.new
unfolding Handle.new fabric_os.Handle.Count.active_below
new-IsCounted = refl
