-- ===== src/Tests/LimitTests.antt =====
-- ratelimit/ratelimit.go on small inputs, over the memory store.
use Prim.Native.String.{◌++◌}
use go_fast_framework.Common.{ℕ, String, ◌≡◌, refl, true, false, none, some, [], ◌∷◌, arith}
use go_fast_framework.Cache.Memory
use go_fast_framework.Cache.Memory.{
  int64, Entry, MemoryStore, new_memory_store, expired, bytes, fnv32a, shard_index, get_shard,
  set_shard, put_item, to_int64, bump,
}
use go_fast_framework.Cache.Hashes.{get_int64}
use go_fast_framework.Cache.View.{IsValid, view, new_memory_store-IsValid, view-new_memory_store}
use go_fast_framework.Cache.Refinement.{live}
use go_fast_framework.Common.Dict
use go_fast_framework.RateLimit.{
  CounterStore, Readings, count_key, timer_key, hit, verdict, allow, allows, attempts,
}
use go_fast_framework.RateLimit.Window.{expected, allows-expected}
use go_fast_framework.RateLimit.Races.{attempts-timer}
use go_fast_framework.RateLimit.MemoryBacked.{memory_backed}

program : Unit {0}
unfolding new_memory_store expired bytes fnv32a shard_index get_shard set_shard put_item to_int64
    bump Memory.get Memory.put Memory.has Memory.increment view get_int64 count_key timer_key hit
    verdict allow allows attempts Dict.get Dict.assign Dict.empty
program = tt

abbrev memory : CounterStore MemoryStore
memory = memory_backed (λ f. f)

abbrev two : MemoryStore
two = new_memory_store 2

two-IsValid : IsValid two
two-IsValid = new_memory_store-IsValid 2 (omega arith)

abbrev at : ℕ → Readings
at t = record { checked = t; wrote = t; timed = t; timer_wrote = t }

-- Two of three calls pass.
three_calls :
    (allows memory (at 10 ∷ at 11 ∷ at 12 ∷ []) "ip" 2 100 two).0
    ≡ (true, 1) ∷ (true, 0) ∷ (false, 0) ∷ []
unfolding program
three_calls = refl

fresh : (k : String) → live 10 (view two k) ≡ none
fresh k = rw (view-new_memory_store 2 k)

allows-expected_example :
    ((allows memory (at 10 ∷ at 11 ∷ at 12 ∷ []) "ip" 2 100 two).0
      ≡ expected 2 0 (at 10 ∷ at 11 ∷ at 12 ∷ []))
    × (attempts memory 12 "ip" (allows memory (at 10 ∷ at 11 ∷ at 12 ∷ []) "ip" 2 100 two).1 ≡ 3)
allows-expected_example =
    allows-expected memory "ip" 2 100 (omega arith) (at 10) (at 11 ∷ at 12 ∷ []) 12 two two-IsValid
      (fresh (count_key "ip")) (omega arith) (omega arith) (omega arith) (omega arith) (omega arith)
      (omega arith)

-- The window of a first call at 10 ends at 110, between the two readings of a second.
abbrev started : MemoryStore
started = Memory.put 10 (count_key "ip") (int64 1) 100 two

abbrev late : Readings
late = record { checked = 110; wrote = 111; timed = 111; timer_wrote = 111 }

abbrev one_until : Entry
one_until = record { value = int64 1; expire_at = 110 }

started_at : view started (count_key "ip") ≡ some one_until
unfolding program
started_at = refl

abbrev noon : Readings
noon = at 43_200_000_000_000

attempts-timer_example :
    attempts memory 43_200_000_000_000
      ("ip" ++ ":timer")
      (hit memory noon "ip" 60_000_000_000 two).1
    ≡ 43260
attempts-timer_example =
    attempts-timer memory "ip" 60_000_000_000 two two-IsValid noon 43_200_000_000_000
      (rw (view-new_memory_store 2 (count_key "ip"))) (omega arith) (omega arith) (omega arith)
      (omega arith)
