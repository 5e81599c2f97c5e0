-- ===== src/Collection/Tests.antt =====
-- The collections of core/collection at concrete inputs.
use mathlib.Core.List.{foldl}
use go_zero_update.Common.{◌==◌, ==_iff, none, length, true}
use go_zero_update.Common.{ℕ, ◌≤◌, ◌≡◌, refl, false, List, [], ◌∷◌, arith, returns, keep_last}
use go_zero_update.Collection.Fifo.{new_queue}
use go_zero_update.Collection.Fifo.Runs
use go_zero_update.Collection.Cache.{new_cache}
use go_zero_update.Collection.Cache.Runs as CacheRuns
use go_zero_update.Collection.Fifo.Runs.{Call, put_call, take_call, empty_call, run, run_list}
use go_zero_update.Collection.Ring.{Ring, new_ring, add as ring_add, take_all}
use go_zero_update.Collection.Ring.Recent
use go_zero_update.Collection.Ring.Recent.{add_all as ring_add_all, IsValid}
use go_zero_update.Collection.RollingWindow.{
  BucketInterface, RollingWindow, new_rolling_window, reduce,
}
use go_zero_update.Collection.RollingWindow.Log
use go_zero_update.Common.Maps.{Eq, lookup, Distinct}
use go_zero_update.Collection.SafeMap.{new_safe_map, get, range, size}
use go_zero_update.Collection.SafeMap.Contents
use go_zero_update.Collection.SafeMap.Contents.{
  Change, set_call, del_call, run as map_run, run_function,
}
use go_zero_update.Collection.SafeMap.Sizes
use go_zero_update.Collection.RollingWindow.Log.{Event, add_all, logged, in_view_at}

-- More puts than the queue has room for.
abbrev calls : List (Call ℕ)
calls = put_call 1 ∷ put_call 2 ∷ take_call ∷ put_call 3 ∷ put_call 4 ∷ take_call ∷ empty_call ∷ []

run-new_queue_example : run 0 (new_queue 0 2) calls ≡ returns (run_list 0 [] calls)
run-new_queue_example = Runs.run-new_queue 0 2 calls (omega arith)

abbrev empty_ring : Ring ℕ
empty_ring = record { elements = 0 ∷ 0 ∷ []; index = 0 }

take_all-add_all_example :
    take_all 0 (ring_add_all 0 empty_ring (7 ∷ 8 ∷ 9 ∷ [])) ≡ keep_last 2 (7 ∷ 8 ∷ 9 ∷ [])
unfolding new_ring
take_all-add_all_example = Recent.take_all-add_all 0 2 (7 ∷ 8 ∷ 9 ∷ []) empty_ring refl

-- The add that wraps the index.
abbrev full_ring : Ring ℕ
full_ring = record { elements = 8 ∷ 9 ∷ []; index = 3 }

add-IsValid_example : IsValid (ring_add 0 full_ring 5)
add-IsValid_example =
    Recent.add-IsValid 0 full_ring 5 (record { not_empty = omega arith; index_bound = omega arith })

-- A window of two slots of ten ticks, whose buckets list the values added.
abbrev lists : BucketInterface ℕ (List ℕ)
lists = record { fresh = []; add = λ b v. v ∷ b; reset = λ b. [] }

abbrev lists_reset : (b : List ℕ) → lists.reset b ≡ lists.fresh
lists_reset b = refl

abbrev new_window : RollingWindow (List ℕ)
new_window = record {
  size = 2;
  buckets = [] ∷ [] ∷ [];
  interval = 10;
  offset = 0;
  ignore_current = false;
  last_time = 100;
}

abbrev events : List (Event lists lists_reset 100 10 2)
events =
    record { now = 101; later = 102; value = 5 } ∷ record { now = 113; later = 113; value = 6 } ∷ []

reduce-add_all_example :
    reduce lists (add_all lists lists_reset 100 10 2 new_window events) 115 (λ n b. b ∷ n) []
    ≡ foldl
        (λ n b. b ∷ n)
        []
        (in_view_at lists lists_reset 100 10 2 false
          (logged lists lists_reset 100 10 2 [] events)
          115)
unfolding new_rolling_window
reduce-add_all_example =
    Log.reduce-add_all lists lists_reset 100 10 2 false new_window events 115 (λ n b. b ∷ n) []
      (omega arith) refl
      (omega arith, omega arith, omega arith, (omega arith, omega arith, omega arith, tt))
      (omega arith)

abbrev numbers : Eq ℕ
numbers = record { beq = ◌==◌; beq_iff = ==_iff }

abbrev changes : List (Change ℕ ℕ)
changes = set_call 1 10 ∷ set_call 2 20 ∷ del_call 1 ∷ set_call 2 21 ∷ []

get-run_example :
    get numbers (map_run numbers (new_safe_map numbers) changes) 2
    ≡ run_function numbers (λ j. none) changes 2
get-run_example = Contents.get-run numbers changes 2

range-run_example :
    Distinct numbers (range numbers (map_run numbers (new_safe_map numbers) changes) (λ k v. true))
    × ((k : ℕ)
        → lookup numbers k
            (range numbers (map_run numbers (new_safe_map numbers) changes) (λ k v. true))
          ≡ get numbers (map_run numbers (new_safe_map numbers) changes) k)
    × (length (range numbers (map_run numbers (new_safe_map numbers) changes) (λ k v. true))
        ≡ size numbers (map_run numbers (new_safe_map numbers) changes))
range-run_example = Sizes.range-run numbers changes

-- A cache of two entries, of which the third call evicts the second.
abbrev cache_calls : List (CacheRuns.Call ℕ ℕ)
cache_calls =
    CacheRuns.set_call 1 10 60
    ∷ CacheRuns.set_call 2 20 60
    ∷ CacheRuns.get_call 1
    ∷ CacheRuns.set_call 3 30 60
    ∷ CacheRuns.get_call 2
    ∷ CacheRuns.del_call 3
    ∷ []

run-new_cache_example :
    ((CacheRuns.run numbers cache_calls (new_cache numbers 2)).0
      ≡ (CacheRuns.list_run numbers 2 cache_calls []).0)
    × (((k : ℕ)
          → lookup numbers k (CacheRuns.run numbers cache_calls (new_cache numbers 2)).1.data_map
            ≡ lookup numbers k (CacheRuns.list_run numbers 2 cache_calls []).1)
        × ((length (CacheRuns.run numbers cache_calls (new_cache numbers 2)).1.data_map
              ≡ length (CacheRuns.list_run numbers 2 cache_calls []).1)
            × (length (CacheRuns.run numbers cache_calls (new_cache numbers 2)).1.data_map ≤ 2)))
run-new_cache_example = CacheRuns.run-new_cache numbers 2 cache_calls (omega arith)
