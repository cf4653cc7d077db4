-- ===== src/Cache/Tagged.antt =====
-- cache/memory_store.go: taggedCache.
use go_fast_framework.Common.{ℕ, String, none, some, List, [], ◌∷◌}
use go_fast_framework.Common.Dict
use go_fast_framework.Common.Dict.{Dict}
use go_fast_framework.Cache.Memory
use go_fast_framework.Cache.Memory.{Value, MemoryStore, Counted}

abbrev pub TagSets : Type 0
TagSets = Dict (Dict (Unit {0}))

-- s.tags[tag], where a missing set reads as an empty one
unfoldable pub keys_of_tag : TagSets → String → Dict (Unit {0})
keys_of_tag tags tag = elim (Dict.get tags tag) [ none ↦ Dict.empty | some keys ↦ keys ]

-- the loop of `track`
unfoldable pub track_tags : List String → String → TagSets → TagSets
track_tags [] key tags = tags
track_tags (t ∷ ts) key tags =
    track_tags ts key (Dict.assign tags t (Dict.assign (keys_of_tag tags t) key tt))

-- track
unfoldable pub track : List String → String → MemoryStore → MemoryStore
track ts key s = record s { tags = track_tags ts key s.tags }

-- Put
unfoldable pub put : List String → ℕ → String → Value → ℕ → MemoryStore → MemoryStore
put ts now key value ttl s = Memory.put now key value ttl (track ts key s)

-- Forever
unfoldable pub forever : List String → ℕ → String → Value → MemoryStore → MemoryStore
forever ts now key value s = Memory.forever now key value (track ts key s)

unfoldable pub track_all : List String → List (String × Value) → MemoryStore → MemoryStore
track_all ts [] s = s
track_all ts ((k, v) ∷ values) s = track_all ts values (track ts k s)

-- PutMany
unfoldable pub put_many : List String → ℕ → List (String × Value) → ℕ → MemoryStore → MemoryStore
put_many ts now values ttl s = Memory.put_many now values ttl (track_all ts values s)

-- Increment
unfoldable pub increment : List String → (ℕ → ℕ) → ℕ → String → List ℕ → MemoryStore → Counted
increment ts truncate now key value s = Memory.increment truncate now key value (track ts key s)

-- Decrement
unfoldable pub decrement : List String → (ℕ → ℕ) → ℕ → String → List ℕ → MemoryStore → Counted
decrement ts truncate now key value s = Memory.decrement truncate now key value (track ts key s)

-- for k := range keys { keysToDelete[k] = struct{}{} }
unfoldable pub add_keys : List String → Dict (Unit {0}) → Dict (Unit {0})
add_keys [] found = found
add_keys (k ∷ keys) found = add_keys keys (Dict.assign found k tt)

-- the first loop of Flush: the keys to delete, and the tag sets that stay
unfoldable pub collect : List String → Dict (Unit {0}) → TagSets → Dict (Unit {0}) × TagSets
collect [] found tags = (found, tags)
collect (t ∷ ts) found tags =
    collect ts (add_keys (Dict.keys (keys_of_tag tags t)) found) (Dict.delete tags t)

-- the second loop of Flush
unfoldable pub forget_all : List String → MemoryStore → MemoryStore
forget_all [] s = s
forget_all (k ∷ keys) s = forget_all keys (Memory.forget k s)

-- Flush
unfoldable pub flush : List String → MemoryStore → MemoryStore
flush ts s =
    let (found, tags) = collect ts Dict.empty s.tags in
    forget_all (Dict.keys found) (record s { tags = tags })
