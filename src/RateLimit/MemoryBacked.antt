-- ===== src/RateLimit/MemoryBacked.antt =====
-- The memory store of the cache as the limiter's store.
use text.Mathlib.Text.{◌==◌ as str_eq}
use text.Mathlib.TextEquality.{eq_iff}
use go_fast_framework.Common.{ℕ, String, ◌≡◌, refl, Option, none, some, [], arith, if◌then◌else◌}
use go_fast_framework.Cache.Memory
use go_fast_framework.Cache.Memory.{Value, Entry, MemoryStore}
use go_fast_framework.Cache.Hashes.{get_int64}
use go_fast_framework.Cache.View.{
  IsValid, view, put-IsValid, view-put, forget-IsValid, view-forget, written-IsValid, view-written,
}
use go_fast_framework.Cache.Refinement.{
  live, count, counted_store, get-view, has-view, increment-view,
}
use go_fast_framework.RateLimit.{CounterStore, read_int64, counted, counted_entry}

counted_counted_store :
    (k : String) (c : Option (ℕ × Entry)) (s : MemoryStore) → (counted_store k s c).0 ≡ counted c
counted_counted_store k none s = refl
counted_counted_store k (some (n, e)) s = refl

module _ (truncate : ℕ → ℕ) where
  pub get_int64-view :
      (now : ℕ) (k : String) (s : MemoryStore)
      → get_int64 truncate now k [] s ≡ read_int64 truncate (live now (view s k))
  unfolding get_int64
  get_int64-view now k s = rw (get-view now k [] s, get_int64) (ground arith)

  counted_store-IsValid :
      (k : String) (c : Option (ℕ × Entry)) {s : MemoryStore}
      → IsValid s
      → IsValid (counted_store k s c).1
  counted_store-IsValid k none v = v
  counted_store-IsValid k (some (n, e)) v = written-IsValid k e v

  view-counted_store :
      (k j : String) (c : Option (ℕ × Entry)) {s : MemoryStore}
      → IsValid s
      → view (counted_store k s c).1 j
        ≡ (if str_eq k j then counted_entry (view s k) c else view s j)
  view-counted_store k j none {s} v = ground (arith, eq_iff k j)
  view-counted_store k j (some (n, e)) v = view-written k e v j

  pub increment_counted :
      (now : ℕ) (k : String) (s : MemoryStore)
      → (Memory.increment truncate now k [] s).0 ≡ counted (count truncate 1 (live now (view s k)))
  increment_counted now k s = rw (increment-view truncate now k [] s) (counted_counted_store k _ s)

  pub increment_keeps-IsValid :
      (now : ℕ) (k : String) (s : MemoryStore)
      → IsValid s
      → IsValid (Memory.increment truncate now k [] s).1
  increment_keeps-IsValid now k s v =
      rw (increment-view truncate now k [] s) (counted_store-IsValid k _ v)

  pub view-increment :
      (now : ℕ) (k j : String) (s : MemoryStore)
      → IsValid s
      → view (Memory.increment truncate now k [] s).1 j ≡ (
          if str_eq k j
          then counted_entry (view s k) (count truncate 1 (live now (view s k)))
          else view s j)
  view-increment now k j s v = rw (increment-view truncate now k [] s) (view-counted_store k j _ v)

  -- The memory store keeps the contract that the limiter relies on.
  abbrev pub memory_backed : CounterStore MemoryStore
  memory_backed = record {
    has = Memory.has;
    put = Memory.put;
    increment = λ now k s. Memory.increment truncate now k [] s;
    get_int64 = λ now k s. get_int64 truncate now k [] s;
    forget = Memory.forget;
    truncate = truncate;
    entry = view;
    Valid = IsValid;
    put-Valid = λ now k v ttl s h. put-IsValid now k v ttl h;
    increment-Valid = increment_keeps-IsValid;
    forget-Valid = λ k s h. forget-IsValid k h;
    has_lem = λ now k s h. has-view now k s;
    get_int64_lem = λ now k s h. get_int64-view now k s;
    increment_lem = λ now k s h. increment_counted now k s;
    entry-increment = view-increment;
    entry-put = λ now k j v ttl s h. view-put now k v ttl h j;
    entry-forget = λ k j s h. view-forget k h j;
  }
