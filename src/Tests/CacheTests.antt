-- ===== src/Tests/CacheTests.antt =====
-- cache/memory_store.go on small inputs.
use text.Mathlib.Text.{◌==◌ as str_eq}
use go_fast_framework.Common.{
  ℕ, ◌+◌, ◌≡◌, refl, true, false, ◌&&◌, ◌||◌, none, some, List, [], ◌∷◌, arith, ltb, if◌then◌else◌,
}
use go_fast_framework.Common.Dict
use go_fast_framework.Common.Dict.{contains}
use go_fast_framework.Cache.Memory
use go_fast_framework.Cache.Memory.{
  Value, nil, int64, string, Entry, MemoryStore, new_memory_store, expired, bytes, fnv32a,
  shard_index, get_shard, set_shard, put_item, remove_item, sweep, to_int64, bump, default,
}
use go_fast_framework.Cache.Locks.{lock, compare_and_swap, acquire}
use go_fast_framework.Cache.Tagged
use go_fast_framework.Cache.View.{IsValid, view, new_memory_store-IsValid, put-IsValid}
use go_fast_framework.Cache.Refinement.{Op, Reply, step, run, spec_run, run-refines}
use go_fast_framework.Cache.Expiry.{increments, get-put, get-gc, increments-sums}
use go_fast_framework.Cache.TagFlush.{has_tag, view-flush-put}
use go_fast_framework.Cache.Holding.{LockOp, lock_steps, acquire_excludes}

program : Unit {0}
unfolding new_memory_store expired bytes fnv32a shard_index get_shard set_shard put_item remove_item
    sweep to_int64 bump Memory.get Memory.put Memory.forget Memory.flush Memory.gc Memory.pull
    Memory.has Memory.forever Memory.increment Memory.decrement view step run lock compare_and_swap
    acquire Dict.get Dict.assign Dict.delete Dict.delete_where Dict.map_values Dict.empty
program = tt

abbrev two : MemoryStore
two = new_memory_store 2

two-IsValid : IsValid two
two-IsValid = new_memory_store-IsValid 2 (omega arith)

-- Offset basis and one round of FNV-1a, as hash/fnv documents them.
fnv_a : fnv32a 2166136261 (bytes "a") ≡ 0xe40c292c
unfolding program
fnv_a = refl

abbrev calls : List (ℕ × Op)
calls =
    (10, Op.put "a" (string "x") 5)
    ∷ (12, Op.get "a" [])
    ∷ (13, Op.increment "n" [])
    ∷ (14, Op.increment "n" (4 ∷ []))
    ∷ (15, Op.increment "a" [])
    ∷ (16, Op.get "a" (nil ∷ []))
    ∷ (17, Op.gc (λ _. 17))
    ∷ (18, Op.pull "n" [])
    ∷ (19, Op.has "n")
    ∷ []

replies :
    (run (λ f. f) calls two).0
    ≡ Reply.done
      ∷ Reply.value (string "x")
      ∷ Reply.counted (some 1)
      ∷ Reply.counted (some 5)
      ∷ Reply.counted none
      ∷ Reply.value nil
      ∷ Reply.done
      ∷ Reply.value (int64 5)
      ∷ Reply.found false
      ∷ []
unfolding program
replies = refl

run-refines_example : (run (λ f. f) calls two).0 ≡ (spec_run (λ f. f) calls (λ j. none)).0
run-refines_example = run-refines (λ f. f) 2 calls (omega arith)

get-put_example : Memory.get 16 "a" [] (Memory.put 10 "a" (string "x") 5 two) ≡ (
    if str_eq "a" "a"
    then (if ltb (10 + 5) 16 then default [] else string "x")
    else Memory.get 16 "a" [] two)
get-put_example =
    get-put 10 5 16 "a" "a" (string "x") [] two-IsValid (omega arith) (omega arith) (omega arith)
      (omega arith)

get-gc_example : Memory.get 16 "a" [] (Memory.gc (λ _. 12) two) ≡ Memory.get 16 "a" [] two
get-gc_example = get-gc (λ _. 12) 16 "a" [] two-IsValid (omega arith) (omega arith)

abbrev seven : MemoryStore
seven = Memory.put 10 "n" (int64 7) 5 two

seven-IsValid : IsValid seven
seven-IsValid = put-IsValid 10 "n" (int64 7) 5 two-IsValid

seven_at : view seven "n" ≡ some (record { value = int64 7; expire_at = 15 })
unfolding program
seven_at = refl

increments-sums_example :
    ((increments (λ f. f) "n" ((11, 1) ∷ (15, 0xffff_ffff_ffff_fff8) ∷ []) seven).0
      ≡ some 8 ∷ some 0 ∷ [])
    × (view (increments (λ f. f) "n" ((11, 1) ∷ (15, 0xffff_ffff_ffff_fff8) ∷ []) seven).1 "n"
        ≡ some (record { value = int64 0; expire_at = 15 }))
increments-sums_example =
    increments-sums (λ f. f) "n" ((11, 1) ∷ (15, 0xffff_ffff_ffff_fff8) ∷ []) 7 15 seven-IsValid
      seven_at (refl, (refl, tt))

view-flush-put_example :
    view (Tagged.flush ("t" ∷ []) (Tagged.put ("s" ∷ "t" ∷ []) 10 "n" (int64 7) 5 two)) "n" ≡ (
      if (contains "t" ("s" ∷ "t" ∷ []) && str_eq "n" "n") || has_tag two.tags "n" "t"
      then none
      else view (Tagged.put ("s" ∷ "t" ∷ []) 10 "n" (int64 7) 5 two) "n")
view-flush-put_example = view-flush-put ("s" ∷ "t" ∷ []) "t" 10 "n" "n" (int64 7) 5 two-IsValid

abbrev locked : MemoryStore
locked = lock "k" 0 two

acquired : (acquire "k" locked).0 ≡ true
unfolding program
acquired = refl

acquire_excludes_example :
    (acquire "k"
      (lock_steps (LockOp.lock_op "j" 0 ∷ LockOp.acquire_op "k" ∷ []) (acquire "k" locked).1)).0
    ≡ false
acquire_excludes_example =
    acquire_excludes "k" (LockOp.lock_op "j" 0 ∷ LockOp.acquire_op "k" ∷ []) locked acquired
      (tt, (tt, tt))
