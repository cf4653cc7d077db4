-- ===== src/RateLimit.antt =====
-- ratelimit/ratelimit.go: the fixed-window limiter, over any store that keeps the contract of the
-- cache. A call takes the readings of the clock that it makes, as the cache does.
pub mod Window
pub mod Keys
pub mod MemoryBacked
pub mod Races
use Prim.Native.String.{◌++◌}
use Prim.Native.Nat.{min}
use text.Mathlib.Text.{◌==◌ as str_eq}
use go_fast_framework.Common.{
  ℕ, ◌+◌, ◌-◌, ◌*◌, ◌/◌, ◌%◌, ◌^◌, String, ◌≡◌, Bool, true, false, not, Option, none, some, List,
  [], ◌∷◌, if◌then◌else◌,
}
use go_fast_framework.Common.Dict.{is_some}
use go_fast_framework.Common.Word.{add64, lt64}
use go_fast_framework.Cache.Memory.{Value, int, int64, float64, Entry}
use go_fast_framework.Cache.View.{put_entry}
use go_fast_framework.Cache.Refinement.{live, count}

-- What GetInt64 reads of a live entry.
abbrev pub int64_of : (ℕ → ℕ) → Value → ℕ
int64_of truncate (int64 n) = n
int64_of truncate (int n) = n
int64_of truncate (float64 n) = truncate n
int64_of truncate _ = 0

abbrev pub read_int64 : (ℕ → ℕ) → Option Entry → ℕ
read_int64 truncate none = 0
read_int64 truncate (some e) = int64_of truncate e.value

abbrev pub counted : Option (ℕ × Entry) → Option ℕ
counted none = none
counted (some (n, e)) = some n

abbrev pub counted_entry : Option Entry → Option (ℕ × Entry) → Option Entry
counted_entry old none = old
counted_entry old (some (n, e)) = some e

-- What the limiter uses of contracts.CacheStore, and what it relies on: the calls act on a flat map
-- of expiring entries. Increment is by 1.
pub record CounterStore (S : Type 0) : Type 1 where
  pub has : ℕ → String → S → Bool
  pub put : ℕ → String → Value → ℕ → S → S
  pub increment : ℕ → String → S → Option ℕ × S
  pub get_int64 : ℕ → String → S → ℕ
  pub forget : String → S → S
  pub truncate : ℕ → ℕ
  pub entry : S → String → Option Entry
  pub Valid : S → Type 0
  pub put-Valid :
      (now : ℕ) (k : String) (v : Value) (ttl : ℕ) (s : S) → Valid s → Valid (put now k v ttl s)
  pub increment-Valid : (now : ℕ) (k : String) (s : S) → Valid s → Valid (increment now k s).1
  pub forget-Valid : (k : String) (s : S) → Valid s → Valid (forget k s)
  pub has_lem :
      (now : ℕ) (k : String) (s : S) → Valid s → has now k s ≡ is_some (live now (entry s k))
  pub get_int64_lem :
      (now : ℕ) (k : String) (s : S)
      → Valid s
      → get_int64 now k s ≡ read_int64 truncate (live now (entry s k))
  pub increment_lem :
      (now : ℕ) (k : String) (s : S)
      → Valid s
      → (increment now k s).0 ≡ counted (count truncate 1 (live now (entry s k)))
  pub entry-increment :
      (now : ℕ) (k j : String) (s : S)
      → Valid s
      → entry (increment now k s).1 j ≡ (
          if str_eq k j
          then counted_entry (entry s k) (count truncate 1 (live now (entry s k)))
          else entry s j)
  pub entry-put :
      (now : ℕ) (k j : String) (v : Value) (ttl : ℕ) (s : S)
      → Valid s
      → entry (put now k v ttl s) j ≡ (if str_eq k j then some (put_entry now v ttl) else entry s j)
  pub entry-forget :
      (k j : String) (s : S)
      → Valid s
      → entry (forget k s) j ≡ (if str_eq k j then none else entry s j)

-- countKey and timerKey
unfoldable pub count_key : String → String
count_key key = "ratelimit:" ++ key

unfoldable pub timer_key : String → String
timer_key key = ("ratelimit:" ++ key) ++ ":timer"

-- The readings of the clock in one Hit: by Has, by the Put or the Increment of the count, by
-- time.Now, and by the Put of the deadline.
pub record Readings : Type 0 where
  pub checked : ℕ
  pub wrote : ℕ
  pub timed : ℕ
  pub timer_wrote : ℕ

-- time.Time.Unix of a time in nanoseconds
abbrev pub unix : ℕ → ℕ
unix t = t / 10 ^ 9

-- The answer of Allow to what Hit returned.
unfoldable pub verdict : ℕ → Option ℕ → Bool × ℕ
verdict limit none = (false, 0)
verdict limit (some n) =
    let remaining = (limit + 2 ^ 64 - n) % 2 ^ 64 in
    (not (lt64 limit n), if lt64 remaining 0 then 0 else remaining)

module _ {S : Type 0} (store : CounterStore S) where
  -- Hit: the count, or `none` for an error
  unfoldable pub hit : Readings → String → ℕ → S → Option ℕ × S
  hit r key window s =
      if store.has r.checked (count_key key) s then store.increment r.wrote (count_key key) s else (
        some 1,
        store.put r.timer_wrote (timer_key key) (int64 (unix (add64 r.timed window))) window
            (store.put r.wrote (count_key key) (int64 1) window s),
      )

  -- Allow
  unfoldable pub allow : Readings → String → ℕ → ℕ → S → (Bool × ℕ) × S
  allow r key limit window s = let (n, s') = hit r key window s in (verdict limit n, s')

  -- Attempts
  unfoldable pub attempts : ℕ → String → S → ℕ
  attempts now key s = store.get_int64 now (count_key key) s

  -- TooManyAttempts
  unfoldable pub too_many_attempts : ℕ → String → ℕ → S → Bool
  unfolding attempts
  too_many_attempts now key limit s = not (lt64 (attempts now key s) limit)

  -- AvailableIn, in nanoseconds; time.Until saturates
  unfoldable pub available_in : ℕ → ℕ → String → S → ℕ
  available_in now later key s =
      let deadline = store.get_int64 now (timer_key key) s in
      if lt64 0 deadline then min (deadline * 10 ^ 9 - later) (2 ^ 63 - 1) else 0

  -- Clear
  unfoldable pub clear : String → S → S
  clear key s = store.forget (timer_key key) (store.forget (count_key key) s)

  -- Calls of Allow for one key, one after the other.
  unfoldable pub allows : List Readings → String → ℕ → ℕ → S → List (Bool × ℕ) × S
  allows [] key limit window s = ([], s)
  allows (r ∷ rs) key limit window s =
      let (a, s') = allow r key limit window s in
      let (as', s'') = allows rs key limit window s' in (a ∷ as', s'')
