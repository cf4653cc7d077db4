-- ===== src/Cache/Refinement.antt =====
-- The sharded store against its contract, a flat map from keys to entries that expire.
use text.Mathlib.Text.{◌==◌ as str_eq}
use go_fast_framework.Common.{
  ℕ, ◌<◌, ◌^◌, String, ◌≡◌, refl, Bool, Option, none, some, List, [], ◌∷◌, arith, if◌then◌else◌,
}
use go_fast_framework.Common.Dict
use go_fast_framework.Common.Dict.{keep_unless}
use go_fast_framework.Common.Word.{add64, neg64}
use go_fast_framework.Cache.Memory
use go_fast_framework.Cache.Memory.{
  Value, int64, Entry, MemoryStore, expired, default, delta, to_int64, new_memory_store,
}
use go_fast_framework.Cache.View.{
  IsValid, view, put_entry, put-IsValid, view-put, forget-IsValid, view-forget, flush-IsValid,
  view-flush, gc-IsValid, view-gc, written, written-IsValid, view-written, new_memory_store-IsValid,
  view-new_memory_store,
}

abbrev pub Flat : Type 0
Flat = String → Option Entry

-- The calls that read or change entries.
pub data Op : Type 0 where
  get pull : String → List Value → Op
  has forget : String → Op
  put : String → Value → ℕ → Op
  forever : String → Value → Op
  increment decrement : String → List ℕ → Op
  flush : Op
  -- one round, with the readings of the clock for the keys
  gc : (String → ℕ) → Op

pub data Reply : Type 0 where
  done : Reply
  value : Value → Reply
  found : Bool → Reply
  -- `none` is the error
  counted : Option ℕ → Reply

abbrev pub counted_reply : Memory.Counted → Reply × MemoryStore
counted_reply (n, s) = (counted n, s)

abbrev pub value_reply : Value × MemoryStore → Reply × MemoryStore
value_reply (v, s) = (value v, s)

-- The code's call.
unfoldable pub step : (ℕ → ℕ) → ℕ → Op → MemoryStore → Reply × MemoryStore
step truncate now (get k def) s = (value (Memory.get now k def s), s)
step truncate now (has k) s = (found (Memory.has now k s), s)
step truncate now (pull k def) s = value_reply (Memory.pull now k def s)
step truncate now (forget k) s = (done, Memory.forget k s)
step truncate now (put k v ttl) s = (done, Memory.put now k v ttl s)
step truncate now (forever k v) s = (done, Memory.forever now k v s)
step truncate now (increment k ds) s = counted_reply (Memory.increment truncate now k ds s)
step truncate now (decrement k ds) s = counted_reply (Memory.decrement truncate now k ds s)
step truncate now flush s = (done, Memory.flush s)
step truncate now (gc clock) s = (done, Memory.gc clock s)

-- The entry of a key, if it is live.
abbrev pub live : ℕ → Option Entry → Option Entry
live now o = keep_unless (λ e. expired e now) o

abbrev pub value_or : List Value → Option Entry → Value
value_or def none = default def
value_or def (some e) = e.value

-- m with another entry at k
abbrev pub update : String → Option Entry → Flat → Flat
update k o m j = if str_eq k j then o else m j

-- What a count of `d` makes of the live entry, or of none: the new entry, or an error.
unfoldable pub count : (ℕ → ℕ) → ℕ → Option Entry → Option (ℕ × Entry)
count truncate d none = some (d, record { value = int64 d; expire_at = 0 })
count truncate d (some e) = elim (to_int64 truncate e.value) [
  | none ↦ none
  | some cur ↦ some (add64 cur d, record e { value = int64 (add64 cur d) })
]

abbrev pub counted_map : String → Flat → Option (ℕ × Entry) → Reply × Flat
counted_map k m none = (counted none, m)
counted_map k m (some (n, e)) = (counted (some n), update k (some e) m)

-- The contract's call.
unfoldable pub spec_step : (ℕ → ℕ) → ℕ → Op → Flat → Reply × Flat
unfolding count
spec_step truncate now (get k def) m = (value (value_or def (live now (m k))), m)
spec_step truncate now (has k) m = (found (Dict.is_some (live now (m k))), m)
spec_step truncate now (pull k def) m = (value (value_or def (live now (m k))), update k none m)
spec_step truncate now (forget k) m = (done, update k none m)
spec_step truncate now (put k v ttl) m = (done, update k (some (put_entry now v ttl)) m)
spec_step truncate now (forever k v) m =
    (done, update k (some (record { value = v; expire_at = 0 })) m)
spec_step truncate now (increment k ds) m =
    counted_map k m (count truncate (delta ds) (live now (m k)))
spec_step truncate now (decrement k ds) m =
    counted_map k m (count truncate (neg64 (delta ds)) (live now (m k)))
spec_step truncate now flush m = (done, λ j. none)
spec_step truncate now (gc clock) m = (done, λ j. live (clock j) (m j))

pub record Agrees (s : MemoryStore) (m : Flat) : Type 0 where
  pub valid : IsValid s
  pub same : (j : String) → view s j ≡ m j

-- The code's result matches the contract's.
pub record Matches (a : Reply × MemoryStore) (b : Reply × Flat) : Type 0 where
  pub reply : a.0 ≡ b.0
  pub agrees : Agrees a.1 b.1

pub get-view :
    (now : ℕ) (k : String) (def : List Value) (s : MemoryStore)
    → Memory.get now k def s ≡ value_or def (live now (view s k))
unfolding Memory.get view
get-view now k def s = ground arith

pub has-view :
    (now : ℕ) (k : String) (s : MemoryStore)
    → Memory.has now k s ≡ Dict.is_some (live now (view s k))
unfolding Memory.has view
has-view now k s = ground arith

-- Increment, by the live entry of the key.
abbrev pub counted_store : String → MemoryStore → Option (ℕ × Entry) → Memory.Counted
counted_store k s none = (none, s)
counted_store k s (some (n, e)) = (some n, written k e s)

pub increment-view :
    (truncate : ℕ → ℕ) (now : ℕ) (k : String) (ds : List ℕ) (s : MemoryStore)
    → Memory.increment truncate now k ds s
      ≡ counted_store k s (count truncate (delta ds) (live now (view s k)))
unfolding Memory.increment Memory.bump view count
increment-view truncate now k ds s = ground arith

module _ {s : MemoryStore} {m : Flat} (h : Agrees s m) where
  counted_store-Matches :
      (k : String) (c : Option (ℕ × Entry))
      → Matches (counted_reply (counted_store k s c)) (counted_map k m c)
  counted_store-Matches k none = record { reply = refl; agrees = h }
  counted_store-Matches k (some (n, e)) = record {
    reply = refl;
    agrees = record {
      valid = written-IsValid k e h.valid;
      same = λ j. rw (view-written k e h.valid j, h.same j);
    };
  }

  increment-Matches :
      (truncate : ℕ → ℕ) (now : ℕ) (k : String) (ds : List ℕ)
      → Matches
          (counted_reply (Memory.increment truncate now k ds s))
          (counted_map k m (count truncate (delta ds) (live now (m k))))
  increment-Matches truncate now k ds =
      rw (increment-view truncate now k ds s, h.same k) (counted_store-Matches k _)

  forget-Agrees : (k : String) → Agrees (Memory.forget k s) (update k none m)
  forget-Agrees k = record {
    valid = forget-IsValid k h.valid;
    same = λ j. rw (view-forget k h.valid j, h.same j);
  }

  put-Agrees :
      (now : ℕ) (k : String) (v : Value) (ttl : ℕ)
      → Agrees (Memory.put now k v ttl s) (update k (some (put_entry now v ttl)) m)
  put-Agrees now k v ttl = record {
    valid = put-IsValid now k v ttl h.valid;
    same = λ j. rw (view-put now k v ttl h.valid j, h.same j);
  }

  -- One call has the reply of the contract, and leaves a store that agrees with the contract's map.
  pub step-Matches :
      (truncate : ℕ → ℕ) (now : ℕ) (op : Op)
      → Matches (step truncate now op s) (spec_step truncate now op m)
  unfolding step spec_step
  step-Matches truncate now (get k def) = record { reply = rw (get-view, h.same k); agrees = h }
  step-Matches truncate now (has k) = record { reply = rw (has-view, h.same k); agrees = h }
  step-Matches truncate now (pull k def) =
      unfold Memory.pull in record { reply = rw (get-view, h.same k); agrees = forget-Agrees k }
  step-Matches truncate now (forget k) = record { reply = refl; agrees = forget-Agrees k }
  step-Matches truncate now (put k v ttl) = record { reply = refl; agrees = put-Agrees now k v ttl }
  step-Matches truncate now (forever k v) =
      unfold Memory.forever in record { reply = refl; agrees = put-Agrees now k v 0 }
  step-Matches truncate now (increment k ds) = increment-Matches truncate now k ds
  step-Matches truncate now (decrement k ds) =
      unfold Memory.decrement in increment-Matches truncate now k (neg64 (delta ds) ∷ [])
  step-Matches truncate now flush = record {
    reply = refl;
    agrees = record { valid = flush-IsValid h.valid; same = view-flush h.valid };
  }
  step-Matches truncate now (gc clock) = record {
    reply = refl;
    agrees = record {
      valid = gc-IsValid h.valid clock;
      same = λ j. rw (view-gc h.valid clock j, h.same j);
    };
  }

-- Calls one after the other, each with the clock's reading: the replies, and the store.
unfoldable pub run : (ℕ → ℕ) → List (ℕ × Op) → MemoryStore → List Reply × MemoryStore
run truncate [] s = ([], s)
run truncate ((now, op) ∷ calls) s =
    let (r, s') = step truncate now op s in let (rs, s'') = run truncate calls s' in (r ∷ rs, s'')

unfoldable pub spec_run : (ℕ → ℕ) → List (ℕ × Op) → Flat → List Reply × Flat
spec_run truncate [] m = ([], m)
spec_run truncate ((now, op) ∷ calls) m =
    let (r, m') = spec_step truncate now op m in
    let (rs, m'') = spec_run truncate calls m' in (r ∷ rs, m'')

run-spec_run :
    (truncate : ℕ → ℕ) (calls : List (ℕ × Op)) {s : MemoryStore} {m : Flat}
    → Agrees s m
    → ((run truncate calls s).0 ≡ (spec_run truncate calls m).0)
      × Agrees (run truncate calls s).1 (spec_run truncate calls m).1
unfolding run spec_run
run-spec_run truncate [] h = (refl, h)
run-spec_run truncate ((now, op) ∷ calls) h =
    let one = step-Matches h truncate now op in
    let (replies, agrees) = run-spec_run truncate calls one.agrees in
    (cc (one.reply, replies), agrees)

new_memory_store-Agrees : (n : ℕ) → n < 2 ^ 32 → Agrees (new_memory_store n) (λ j. none)
new_memory_store-Agrees n h = record {
  valid = new_memory_store-IsValid n h;
  same = view-new_memory_store n;
}

-- Any sequence of calls of Get, Has, Pull, Forget, Put, Forever, Increment, Decrement and Flush, and of
-- rounds of the garbage collector, with any readings of the clock, on a new store of fewer than 2 ^ 32
-- shards, gives the replies of one flat map of expiring entries: neither the number of shards nor the
-- hash shows.
pub run-refines :
    (truncate : ℕ → ℕ) (n : ℕ) (calls : List (ℕ × Op))
    → n < 2 ^ 32
    → (run truncate calls (new_memory_store n)).0 ≡ (spec_run truncate calls (λ j. none)).0
run-refines truncate n calls h = (run-spec_run truncate calls (new_memory_store-Agrees n h)).0
