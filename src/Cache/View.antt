-- ===== src/Cache/View.antt =====
-- What a store holds, whatever its shards: the entry of a key in the key's own shard.
use text.Mathlib.Text.{◌==◌ as str_eq}
use text.Mathlib.TextEquality.{eq_iff}
use native.Mathlib.Decide.{ℕ_discrete}
use go_fast_framework.Common.{
  ℕ, ◌^◌, ◌<◌, String, ◌≡◌, ◌≢◌, ap, subst, ◌∙◌, inl, inr, false, Option, none, some, map, arith,
  length, get_or, if◌then◌else◌, Bool-cases, length-set, length-map, length-replicate,
  get_or-set_self, get_or-set_ne, get_or-map, get_or-replicate,
}
use go_fast_framework.Common.Dict
use go_fast_framework.Common.Dict.{
  dict_laws, keep_unless, delete_where-empty, get-delete_where, get-empty,
}
use go_fast_framework.Common.Word.{add64, lt64}
use go_fast_framework.Cache.Memory.{
  Value, Entry, Shard, MemoryStore, new_shard, new_memory_store, expired, shard_index, get_shard,
  set_shard, put_item, remove_item, sweep, put, forget, flush, gc,
}

-- `getShard` has a shard for every key.
pub record IsValid (s : MemoryStore) : Type 0 where
  pub sharded : 0 < s.shard_count
  pub counted : length s.shards ≡ s.shard_count

unfoldable pub view : MemoryStore → String → Option Entry
view s key = Dict.get (get_shard key s).items key

shard_index-lt : (key : String) {s : MemoryStore} → IsValid s → shard_index key s < length s.shards
unfolding shard_index
shard_index-lt key {s} v = grind arith

get_shard-set_shard :
    (k j : String) (sh : Shard) {s : MemoryStore}
    → IsValid s
    → shard_index k s ≡ shard_index j s
    → get_shard j (set_shard k sh s) ≡ sh
unfolding get_shard set_shard
get_shard-set_shard k j sh {s} v e =
    rw (← e) (get_or-set_self s.shards (shard_index k s) sh new_shard (shard_index-lt k v))

get_shard-set_shard_ne :
    (k j : String) (sh : Shard) (s : MemoryStore)
    → shard_index k s ≢ shard_index j s
    → get_shard j (set_shard k sh s) ≡ get_shard j s
unfolding get_shard set_shard
get_shard-set_shard_ne k j sh s e = get_or-set_ne s.shards sh new_shard e

same_shard :
    (k j : String) (s : MemoryStore)
    → shard_index k s ≡ shard_index j s
    → get_shard k s ≡ get_shard j s
unfolding get_shard
same_shard k j s e = rw e

str_eq_of_ne_index :
    (k j : String) (s : MemoryStore) → shard_index k s ≢ shard_index j s → str_eq k j ≡ false
str_eq_of_ne_index k j s e = elim (Bool-cases (str_eq k j)) [
  | inl same ↦ absurd (e (ap (λ x. shard_index x s) ((eq_iff k j).0 same)))
  | inr other ↦ other
]

-- A shard that differs from the key's shard at that key only changes the view there only.
module _ (k : String) (sh : Shard) (o : Option Entry) {s : MemoryStore} (v : IsValid s)
    (law : (j : String)
      → Dict.get sh.items j ≡ (if str_eq k j then o else Dict.get (get_shard k s).items j)) where
  pub view-set_shard :
      (j : String) → view (set_shard k sh s) j ≡ (if str_eq k j then o else view s j)
  unfolding view
  view-set_shard j = elim (ℕ_discrete (shard_index k s) (shard_index j s)) [
    | yes e ↦ rw (get_shard-set_shard k j sh v e) (law j ∙ rw (same_shard k j s e))
    | no e ↦ rw (get_shard-set_shard_ne k j sh s e) (rw (str_eq_of_ne_index k j s e))
  ]

set_shard-IsValid :
    (k : String) (sh : Shard) {s : MemoryStore} → IsValid s → IsValid (set_shard k sh s)
unfolding set_shard
set_shard-IsValid k sh {s} v = record {
  sharded = v.sharded;
  counted = length-set s.shards (shard_index k s) sh ∙ v.counted;
}

map-IsValid :
    (f : Shard → Shard) (s : MemoryStore)
    → IsValid s
    → IsValid (record s { shards = map f s.shards })
map-IsValid f s v = record { sharded = v.sharded; counted = length-map f s.shards ∙ v.counted }

-- NewMemoryStore makes a valid, empty store, unless the number of shards overflows a uint32.
pub new_memory_store-IsValid : (n : ℕ) → n < 2 ^ 32 → IsValid (new_memory_store n)
unfolding new_memory_store
new_memory_store-IsValid n h = record {
  sharded = ground arith;
  counted = ground (arith, length-replicate n new_shard, length-replicate 32 new_shard);
}

-- A write of one entry to the key's shard.
abbrev pub written : String → Entry → MemoryStore → MemoryStore
written k e s = set_shard k (put_item k e (get_shard k s)) s

module _ (k : String) (e : Entry) {s : MemoryStore} (v : IsValid s) where
  pub written-IsValid : IsValid (written k e s)
  written-IsValid = set_shard-IsValid k _ v

  pub view-written :
      (j : String) → view (written k e s) j ≡ (if str_eq k j then some e else view s j)
  unfolding put_item
  view-written = view-set_shard k _ _ v (λ j. simp dict_laws)

-- the entry that Put writes
abbrev pub put_entry : ℕ → Value → ℕ → Entry
put_entry now value ttl = record {
  value = value;
  expire_at = if lt64 0 ttl then add64 now ttl else 0;
}

module _ (now : ℕ) (k : String) (value : Value) (ttl : ℕ) {s : MemoryStore} (v : IsValid s) where
  pub put-IsValid : IsValid (put now k value ttl s)
  unfolding put
  put-IsValid = written-IsValid k _ v

  pub view-put :
      (j : String)
      → view (put now k value ttl s) j
        ≡ (if str_eq k j then some (put_entry now value ttl) else view s j)
  unfolding put
  view-put = view-written k _ v

module _ (k : String) {s : MemoryStore} (v : IsValid s) where
  pub forget-IsValid : IsValid (forget k s)
  unfolding forget
  forget-IsValid =
      let w = set_shard-IsValid k (remove_item k (get_shard k s)) v in
      record { sharded = w.sharded; counted = w.counted }

  pub view-forget : (j : String) → view (forget k s) j ≡ (if str_eq k j then none else view s j)
  unfolding forget view get_shard
  view-forget = view-set_shard k _ _ v (λ j. simp dict_laws)

sweep-new_shard : (now : String → ℕ) → sweep now new_shard ≡ new_shard
unfolding sweep
sweep-new_shard now = rw delete_where-empty

module _ {s : MemoryStore} (v : IsValid s) where
  pub flush-IsValid : IsValid (flush s)
  unfolding flush
  flush-IsValid =
      let w = map-IsValid (λ _. new_shard) s v in
      record { sharded = w.sharded; counted = w.counted }

  pub gc-IsValid : (now : String → ℕ) → IsValid (gc now s)
  unfolding gc
  gc-IsValid now = map-IsValid (sweep now) s v

  pub view-flush : (j : String) → view (flush s) j ≡ none
  unfolding flush view get_shard
  view-flush j = rw (get_or-map (λ _. new_shard) s.shards (shard_index j s) new_shard) (get-empty j)

  pub view-gc :
      (now : String → ℕ) (j : String)
      → view (gc now s) j ≡ keep_unless (λ e. expired e (now j)) (view s j)
  unfolding gc view get_shard
  view-gc now j =
      subst
        (λ d.
          Dict.get (get_or (map (sweep now) s.shards) (shard_index j s) d).items j
          ≡ keep_unless (λ e. expired e (now j))
              (Dict.get (get_or s.shards (shard_index j s) new_shard).items j))
        (sweep-new_shard now)
        (rw (get_or-map (sweep now) s.shards (shard_index j s) new_shard) (get-delete_where _ _ j))

pub view-new_memory_store : (n : ℕ) (j : String) → view (new_memory_store n) j ≡ none
unfolding view get_shard new_memory_store
view-new_memory_store n j = rw (get_or-replicate, get-empty)
