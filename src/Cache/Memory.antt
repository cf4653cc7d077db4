-- ===== src/Cache/Memory.antt =====
-- cache/memory_store.go: the sharded store with its key-value operations. Every operation takes the
-- readings of time.Now().UnixNano() that it makes. A map access under a shard's mutex is one step.
use Prim.Native.Char.{code}
use Prim.Native.Nat.{bit_xor}
use go_fast_framework.Common.{
  ℕ, ◌+◌, ◌*◌, ◌/◌, ◌%◌, ◌^◌, String, Bool, true, false, ◌&&◌, Option, none, some, List, [], ◌∷◌,
  ◌++◌, map, get_or, set, replicate, ltb, if◌then◌else◌,
}
use go_fast_framework.Common.Dict
use go_fast_framework.Common.Dict.{Dict}
use go_fast_framework.Common.Word.{add64, neg64, lt64, of_int32}

-- A Go `any`: the dynamic types that the cache tells apart, integers and floats as their bit
-- patterns. `other` is a value of any other type.
pub data Value : Type 0 where
  nil : Value
  bool : Bool → Value
  int int32 int64 float64 : ℕ → Value
  string : String → Value
  other : ℕ → Value

-- const defaultShardCount
abbrev pub default_shard_count : ℕ
default_shard_count = 32

-- entry; expire_at is an int64
pub record Entry : Type 0 where
  pub value : Value
  pub expire_at : ℕ

-- (*entry).expired
unfoldable pub expired : Entry → ℕ → Bool
expired e now = lt64 0 e.expire_at && lt64 e.expire_at now

-- shard
pub record Shard : Type 0 where
  pub items : Dict Entry
  pub hash : Dict (Dict Value)

-- newShard
abbrev pub new_shard : Shard
new_shard = record { items = Dict.empty; hash = Dict.empty }

-- memoryLock; `acquired` is an int32 that is 0 or 1
pub record MemoryLock : Type 0 where
  pub ttl : ℕ
  pub acquired : ℕ

-- memoryStore; `tags` maps a tag to its set of keys
pub record MemoryStore : Type 0 where
  pub shards : List Shard
  pub shard_count : ℕ
  pub tags : Dict (Dict (Unit {0}))
  pub locks : Dict MemoryLock

-- NewMemoryStore, of an int that may not be positive (the GC goroutine is the operation `gc`)
unfoldable pub new_memory_store : ℕ → MemoryStore
new_memory_store shard_count =
    let n = if lt64 0 shard_count then shard_count else default_shard_count in
    record {
      shards = replicate n new_shard;
      shard_count = n % 2 ^ 32;
      tags = Dict.empty;
      locks = Dict.empty;
    }

-- The UTF-8 bytes of a code point, and of a text.
unfoldable pub utf8_bytes : ℕ → List ℕ
utf8_bytes c =
    if ltb c 0x80
    then c ∷ []
    else if ltb c 0x800
    then (0xC0 + c / 2 ^ 6) ∷ (0x80 + c % 2 ^ 6) ∷ []
    else if ltb c 0x10000
    then (0xE0 + c / 2 ^ 12) ∷ (0x80 + c / 2 ^ 6 % 2 ^ 6) ∷ (0x80 + c % 2 ^ 6) ∷ []
    else (0xF0 + c / 2 ^ 18)
      ∷ (0x80 + c / 2 ^ 12 % 2 ^ 6)
      ∷ (0x80 + c / 2 ^ 6 % 2 ^ 6)
      ∷ (0x80 + c % 2 ^ 6)
      ∷ []

unfoldable pub bytes : String → List ℕ
unfolding utf8_bytes
bytes String.[] = []
bytes (String.◌∷◌ c s) = utf8_bytes (code c) ++ bytes s

-- hash/fnv New32a over some bytes, from a hash so far
unfoldable pub fnv32a : ℕ → List ℕ → ℕ
fnv32a h [] = h
fnv32a h (b ∷ bs) = fnv32a (bit_xor h b * 16777619 % 2 ^ 32) bs

-- h.Sum32() % s.shardCount, of getShard
unfoldable pub shard_index : String → MemoryStore → ℕ
unfolding bytes fnv32a
shard_index key s = fnv32a 2166136261 (bytes key) % s.shard_count

-- getShard. The default stands for a panic; Cache.View shows that a valid store has none.
unfoldable pub get_shard : String → MemoryStore → Shard
unfolding shard_index
get_shard key s = get_or s.shards (shard_index key s) new_shard

-- what a handler does to the shard that getShard gave it
unfoldable pub set_shard : String → Shard → MemoryStore → MemoryStore
unfolding shard_index
set_shard key sh s = record s { shards = set s.shards (shard_index key s) sh }

-- def[0] if there is one, and nil
abbrev pub default : List Value → Value
default [] = nil
default (v ∷ vs) = v

-- Get
unfoldable pub get : ℕ → String → List Value → MemoryStore → Value
unfolding get_shard expired
get now key def s = elim (Dict.get (get_shard key s).items key) [
  | none ↦ default def
  | some e ↦ if expired e now then default def else e.value
]

-- Has
unfoldable pub has : ℕ → String → MemoryStore → Bool
unfolding get_shard expired
has now key s = elim (Dict.get (get_shard key s).items key) [
  | none ↦ false
  | some e ↦ if expired e now then false else true
]

unfoldable pub put_item : String → Entry → Shard → Shard
put_item key e sh = record sh { items = Dict.assign sh.items key e }

-- Put
unfoldable pub put : ℕ → String → Value → ℕ → MemoryStore → MemoryStore
unfolding get_shard set_shard put_item
put now key value ttl s =
    let expire_at = if lt64 0 ttl then add64 now ttl else 0 in
    set_shard key (put_item key (record { value = value; expire_at = expire_at }) (get_shard key s))
      s

-- Forever
unfoldable pub forever : ℕ → String → Value → MemoryStore → MemoryStore
forever now key value s = put now key value 0 s

unfoldable pub remove_item : String → Shard → Shard
remove_item key sh = record sh { items = Dict.delete sh.items key }

-- Forget
unfoldable pub forget : String → MemoryStore → MemoryStore
unfolding get_shard set_shard remove_item
forget key s =
    let s' = set_shard key (remove_item key (get_shard key s)) s in
    record s' { tags = Dict.map_values (λ keys. Dict.delete keys key) s'.tags }

-- Flush
unfoldable pub flush : MemoryStore → MemoryStore
flush s = record s { shards = map (λ _. new_shard) s.shards; tags = Dict.empty }

-- The loop over a shard; `now k` is the clock as `expired` reads it for the entry of the key k.
unfoldable pub sweep : (String → ℕ) → Shard → Shard
unfolding expired
sweep now sh = record sh { items = Dict.delete_where (λ k e. expired e (now k)) sh.items }

-- One round of `gc`. A key is in one shard, so it has one reading of the clock in a round.
unfoldable pub gc : (String → ℕ) → MemoryStore → MemoryStore
unfolding sweep
gc now s = record s { shards = map (sweep now) s.shards }

-- Pull
unfoldable pub pull : ℕ → String → List Value → MemoryStore → Value × MemoryStore
pull now key def s = (get now key def s, forget key s)

-- value[0] if there is one, and 1
abbrev pub delta : List ℕ → ℕ
delta [] = 1
delta (d ∷ ds) = d

-- toInt64; `truncate` is the conversion of a float64 to an int64
unfoldable pub to_int64 : (ℕ → ℕ) → Value → Option ℕ
to_int64 truncate (int64 n) = some n
to_int64 truncate (int n) = some n
to_int64 truncate (int32 n) = some (of_int32 n)
to_int64 truncate (float64 n) = some (truncate n)
to_int64 truncate _ = none

-- The new number beside the store, or `none` for the error.
abbrev pub Counted : Type 0
Counted = Option ℕ × MemoryStore

module _ (truncate : ℕ → ℕ) where
  -- The live entry `e` of Increment, in the shard `sh`.
  unfoldable pub bump : String → ℕ → Entry → MemoryStore → Counted
  unfolding get_shard set_shard put_item to_int64
  bump key d e s = elim (to_int64 truncate e.value) [
    | none ↦ (none, s)
    | some cur ↦
        let n = add64 cur d in
        (some n, set_shard key (put_item key (record e { value = int64 n }) (get_shard key s)) s)
  ]

  -- Increment
  unfoldable pub increment : ℕ → String → List ℕ → MemoryStore → Counted
  unfolding get_shard set_shard put_item expired
  increment now key value s =
      let d = delta value in
      let fresh : Counted = (
        some d,
        set_shard key (put_item key (record { value = int64 d; expire_at = 0 }) (get_shard key s))
            s,
      ) in
      elim (Dict.get (get_shard key s).items key) [
        | none ↦ fresh
        | some e ↦ if expired e now then fresh else bump key d e s
      ]

  -- Decrement
  unfoldable pub decrement : ℕ → String → List ℕ → MemoryStore → Counted
  decrement now key value s = increment now key (neg64 (delta value) ∷ []) s

-- Remember: the callback may itself use the store; `none` is its error. Get and Put read the clock
-- one after the other.
unfoldable pub remember :
    ℕ
    → ℕ
    → String
    → ℕ
    → (MemoryStore → Option Value × MemoryStore)
    → MemoryStore
    → Option Value × MemoryStore
remember now later key ttl callback s = elim (get now key [] s) [
  | nil ↦
      let (result, s') = callback s in
      elim result [ none ↦ (none, s') | some v ↦ (some v, put later key v ttl s') ]
  | v ↦ (some v, s)
]

-- RememberForever
unfoldable pub remember_forever :
    ℕ
    → ℕ
    → String
    → (MemoryStore → Option Value × MemoryStore)
    → MemoryStore
    → Option Value × MemoryStore
remember_forever now later key callback s = remember now later key 0 callback s

-- Many: the result map, filled in the order of the keys
unfoldable pub many : ℕ → List String → MemoryStore → Dict Value → Dict Value
many now [] s result = result
many now (k ∷ keys) s result = many now keys s (Dict.assign result k (get now k [] s))

-- PutMany, over the map's entries in the order of the range
unfoldable pub put_many : ℕ → List (String × Value) → ℕ → MemoryStore → MemoryStore
put_many now [] ttl s = s
put_many now ((k, v) ∷ values) ttl s = put_many now values ttl (put now k v ttl s)
