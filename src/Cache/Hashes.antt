-- ===== src/Cache/Hashes.antt =====
-- cache/memory_store.go: the hash operations and the typed reads.
use go_fast_framework.Common.{
  ℕ, String, Bool, true, false, Option, none, some, List, [], ◌∷◌, ◌==◌, if◌then◌else◌,
}
use go_fast_framework.Common.Dict
use go_fast_framework.Common.Dict.{Dict}
use go_fast_framework.Cache.Memory.{
  Value, nil, bool, int, int64, float64, string, MemoryStore, get_shard, set_shard, get,
}

-- sh.hash[key], where a missing map reads as an empty one
unfoldable pub hash_of : String → MemoryStore → Dict Value
unfolding get_shard
hash_of key s = elim (Dict.get (get_shard key s).hash key) [ none ↦ Dict.empty | some m ↦ m ]

-- HSet
unfoldable pub hset : String → String → Value → MemoryStore → MemoryStore
unfolding hash_of get_shard set_shard
hset key field value s =
    let sh = get_shard key s in
    set_shard key
      (record sh { hash = Dict.assign sh.hash key (Dict.assign (hash_of key s) field value) }) s

-- HGet
unfoldable pub hget : String → String → MemoryStore → Value
unfolding get_shard
hget key field s = elim (Dict.get (get_shard key s).hash key) [
  | none ↦ nil
  | some m ↦ elim (Dict.get m field) [ none ↦ nil | some v ↦ v ]
]

remove_fields : List String → Dict Value → Dict Value
remove_fields [] m = m
remove_fields (f ∷ fields) m = remove_fields fields (Dict.delete m f)

-- HDel
unfoldable pub hdel : String → List String → MemoryStore → MemoryStore
unfolding get_shard set_shard remove_fields
hdel key fields s =
    let sh = get_shard key s in
    elim (Dict.get sh.hash key) [
      | none ↦ s
      | some m ↦
          let m' = remove_fields fields m in
          let hash =
            if Dict.size m' == 0 then Dict.delete sh.hash key else Dict.assign sh.hash key m' in
          set_shard key (record sh { hash = hash }) s
    ]

-- HExists
unfoldable pub hexists : String → String → MemoryStore → Bool
unfolding get_shard
hexists key field s = elim (Dict.get (get_shard key s).hash key) [
  | none ↦ false
  | some m ↦ elim (Dict.get m field) [ none ↦ false | some _ ↦ true ]
]

-- HGetAll; `none` is the nil map
unfoldable pub hget_all : String → MemoryStore → Option (Dict Value)
unfolding get_shard
hget_all key s = Dict.get (get_shard key s).hash key

-- HLen
unfoldable pub hlen : String → MemoryStore → ℕ
unfolding hash_of
hlen key s = Dict.size (hash_of key s)

-- HKeys; `none` is the nil slice
unfoldable pub hkeys : String → MemoryStore → Option (List String)
unfolding get_shard
hkeys key s = elim (Dict.get (get_shard key s).hash key) [
  | none ↦ none
  | some m ↦ some (Dict.keys m)
]

-- def[0] if there is one, and the zero value
abbrev pub first_or {ℓ} : {A : Type ℓ} → A → List A → A
first_or zero_value [] = zero_value
first_or zero_value (d ∷ ds) = d

-- GetBool
unfoldable pub get_bool : ℕ → String → List Bool → MemoryStore → Bool
get_bool now key def s = elim (get now key [] s) [
  | nil ↦ first_or false def
  | bool b ↦ b
  | _ ↦ false
]

-- GetInt and GetInt64 (int has 64 bits); `truncate` is the conversion of a float64
unfoldable pub get_int64 : (ℕ → ℕ) → ℕ → String → List ℕ → MemoryStore → ℕ
get_int64 truncate now key def s = elim (get now key [] s) [
  | nil ↦ first_or 0 def
  | int64 n ↦ n
  | int n ↦ n
  | float64 n ↦ truncate n
  | _ ↦ 0
]

-- GetFloat64; `of_int` is the conversion of an integer to a float64
unfoldable pub get_float64 : (ℕ → ℕ) → ℕ → String → List ℕ → MemoryStore → ℕ
get_float64 of_int now key def s = elim (get now key [] s) [
  | nil ↦ first_or 0 def
  | float64 n ↦ n
  | int64 n ↦ of_int n
  | int n ↦ of_int n
  | _ ↦ 0
]

-- GetString; `sprint` is fmt.Sprintf("%v", v)
unfoldable pub get_string : (Value → String) → ℕ → String → List String → MemoryStore → String
get_string sprint now key def s = elim (get now key [] s) [
  | nil ↦ first_or "" def
  | string t ↦ t
  | v ↦ sprint v
]
