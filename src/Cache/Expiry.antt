-- ===== src/Cache/Expiry.antt =====
-- Times to live: what a later reader of the memory store sees.
use text.Mathlib.Text.{◌==◌ as str_eq}
use text.Mathlib.TextPositions.{eq_refl}
use go_fast_framework.Common.{
  ℕ, ◌+◌, ◌^◌, ◌≤◌, ◌<◌, String, ◌≡◌, refl, false, ◌&&◌, Option, some, List, [], ◌∷◌, arith, ltb,
  if◌then◌else◌, Bool-cases, inl, inr,
}
use go_fast_framework.Common.Word.{add64, lt64}
use go_fast_framework.Cache.Memory.{
  Value, int64, Entry, MemoryStore, expired, default, to_int64, get, put, gc, increment,
}
use go_fast_framework.Cache.View.{
  IsValid, view, put_entry, view-put, view-gc, written, written-IsValid, view-written,
}
use go_fast_framework.Cache.Refinement.{live, value_or, count, get-view, increment-view}

value_or-put_entry :
    (now ttl later : ℕ) (v : Value) (def : List Value)
    → 0 < ttl
    → 0 < now
    → now + ttl < 2 ^ 63
    → later < 2 ^ 63
    → value_or def (live later (some (put_entry now v ttl)))
      ≡ (if ltb (now + ttl) later then default def else v)
unfolding expired
value_or-put_entry now ttl later v def p n a b = ground arith

-- After Put with a positive ttl, a read of the key gives the value up to and including the instant
-- now + ttl, and the default after it; a read of any other key is not changed. (The clock and the
-- deadline stay below 2 ^ 63 nanoseconds.)
pub get-put :
    (now ttl later : ℕ) (k j : String) (v : Value) (def : List Value) {s : MemoryStore}
    → IsValid s
    → 0 < ttl
    → 0 < now
    → now + ttl < 2 ^ 63
    → later < 2 ^ 63
    → get later j def (put now k v ttl s) ≡ (
        if str_eq k j
        then (if ltb (now + ttl) later then default def else v)
        else get later j def s)
get-put now ttl later k j v def {s} valid p n a b =
    rw (get-view, get-view, view-put now k v ttl valid j)
      (elim (Bool-cases (str_eq k j)) [
        | inl same ↦ rw same (value_or-put_entry now ttl later v def p n a b)
        | inr other ↦ rw other
      ])

live-live :
    (now later : ℕ) (o : Option Entry)
    → now ≤ later
    → later < 2 ^ 63
    → live later (live now o) ≡ live later o
unfolding expired
live-live now later o h b = ground arith

-- A round of the garbage collector is not seen by a read of a key at or after the time at which the
-- round looked at that key. (The reading of the clock stays below 2 ^ 63 nanoseconds.)
pub get-gc :
    (now : String → ℕ) (later : ℕ) (k : String) (def : List Value) {s : MemoryStore}
    → IsValid s
    → now k ≤ later
    → later < 2 ^ 63
    → get later k def (gc now s) ≡ get later k def s
get-gc now later k def {s} valid h b =
    rw (get-view, get-view, view-gc valid now k, live-live (now k) later (view s k) h b)

-- Increments of one key, one after the other, each with the clock's reading: the numbers returned.
unfoldable pub increments :
    (ℕ → ℕ) → String → List (ℕ × ℕ) → MemoryStore → List (Option ℕ) × MemoryStore
increments truncate k [] s = ([], s)
increments truncate k ((now, d) ∷ calls) s =
    let (n, s') = increment truncate now k (d ∷ []) s in
    let (ns, s'') = increments truncate k calls s' in (n ∷ ns, s'')

-- The running sums from `n`, with the wrap-around of int64, and the last of them.
abbrev pub sums : ℕ → List (ℕ × ℕ) → List (Option ℕ)
sums n [] = []
sums n ((now, d) ∷ calls) = some (add64 n d) ∷ sums (add64 n d) calls

abbrev pub last_sum : ℕ → List (ℕ × ℕ) → ℕ
last_sum n [] = n
last_sum n ((now, d) ∷ calls) = last_sum (add64 n d) calls

-- No reading of the clock is after the deadline of the entry.
abbrev pub ReadsLive : ℕ → List (ℕ × ℕ) → Type 0
ReadsLive expire_at [] = Unit
ReadsLive expire_at ((now, d) ∷ calls) =
    ((lt64 0 expire_at && lt64 expire_at now) ≡ false) × ReadsLive expire_at calls

increment_live :
    (truncate : ℕ → ℕ) (now d n at : ℕ) (k : String) (s : MemoryStore)
    → view s k ≡ some (record { value = int64 n; expire_at = at })
    → (lt64 0 at && lt64 at now) ≡ false
    → increment truncate now k (d ∷ []) s
      ≡ (some (add64 n d), written k (record { value = int64 (add64 n d); expire_at = at }) s)
unfolding expired count to_int64
increment_live truncate now d n at k s h l = rw (increment-view truncate now k (d ∷ []) s, h) (rw l)

-- Increments of a live int64 return the running sums, in order and without loss, and leave the last
-- sum in the entry under the deadline that it had.
pub increments-sums :
    (truncate : ℕ → ℕ) (k : String) (calls : List (ℕ × ℕ)) (n at : ℕ) {s : MemoryStore}
    → IsValid s
    → view s k ≡ some (record { value = int64 n; expire_at = at })
    → ReadsLive at calls
    → ((increments truncate k calls s).0 ≡ sums n calls)
      × (view (increments truncate k calls s).1 k
          ≡ some (record { value = int64 (last_sum n calls); expire_at = at }))
unfolding increments
increments-sums truncate k [] n at valid h l = (refl, h)
increments-sums truncate k ((now, d) ∷ calls) n at {s} valid h l =
    let e : Entry = record { value = int64 (add64 n d); expire_at = at } in
    let (replies, final) =
      increments-sums truncate k calls (add64 n d) at (written-IsValid k e valid)
        (rw (view-written k e valid k, eq_refl)) l.1 in
    rw (increment_live truncate now d n at k s h l.0) (cc replies, final)
