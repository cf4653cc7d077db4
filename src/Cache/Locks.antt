-- ===== src/Cache/Locks.antt =====
-- cache/memory_store.go: Lock and memoryLock. A handle is the key, since LoadOrStore gives every
-- caller of a key the same lock. Block is a retry loop over the clock, and is not modelled.
use go_fast_framework.Common.{ℕ, String, Bool, true, false, none, some, ◌==◌, if◌then◌else◌}
use go_fast_framework.Common.Dict
use go_fast_framework.Common.Dict.{Dict}
use go_fast_framework.Cache.Memory.{MemoryStore}

-- Lock: LoadOrStore
unfoldable pub lock : String → ℕ → MemoryStore → MemoryStore
lock key ttl s = elim (Dict.get s.locks key) [
  | none ↦ record s { locks = Dict.assign s.locks key (record { ttl = ttl; acquired = 0 }) }
  | some l ↦ s
]

-- atomic.CompareAndSwapInt32(&l.acquired, old, new)
unfoldable pub compare_and_swap : ℕ → ℕ → String → MemoryStore → Bool × MemoryStore
compare_and_swap old new key s = elim (Dict.get s.locks key) [
  | none ↦ (false, s)
  | some l ↦
      if l.acquired == old
      then (true, record s { locks = Dict.assign s.locks key (record l { acquired = new }) })
      else (false, s)
]

-- Acquire
unfoldable pub acquire : String → MemoryStore → Bool × MemoryStore
unfolding compare_and_swap
acquire key s = compare_and_swap 0 1 key s

-- Release
unfoldable pub release : String → MemoryStore → Bool × MemoryStore
unfolding compare_and_swap
release key s = compare_and_swap 1 0 key s

-- ForceRelease
unfoldable pub force_release : String → MemoryStore → Bool × MemoryStore
force_release key s = elim (Dict.get s.locks key) [
  | none ↦ (true, s)
  | some l ↦ (true, record s { locks = Dict.assign s.locks key (record l { acquired = 0 }) })
]
