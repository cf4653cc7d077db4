-- ===== src/Cache/TagFlush.antt =====
-- taggedCache.Flush removes the keys of its tags, and no others.
use text.Mathlib.Text.{◌==◌ as str_eq}
use text.Mathlib.TextEquality.{eq_iff}
use go_fast_framework.Common.{
  ℕ, String, ◌≡◌, refl, ◌∙◌, Bool, false, ◌&&◌, ◌||◌, none, List, [], ◌∷◌, arith, if◌then◌else◌,
}
use go_fast_framework.Common.Dict
use go_fast_framework.Common.Dict.{
  Dict, is_some, contains, contains-keys, get-delete, get-assign, get-empty,
}
use go_fast_framework.Cache.Memory
use go_fast_framework.Cache.Memory.{Value, Entry, MemoryStore}
use go_fast_framework.Cache.View.{IsValid, view, view-forget, forget-IsValid, put-IsValid}
use go_fast_framework.Cache.Tagged
use go_fast_framework.Cache.Tagged.{
  TagSets, keys_of_tag, track_tags, track, add_keys, collect, forget_all,
}

-- Whether a key carries a tag, and one of some tags.
unfoldable pub has_tag : TagSets → String → String → Bool
has_tag tags key tag = is_some (Dict.get (keys_of_tag tags tag) key)

unfoldable pub has_any_tag : TagSets → String → List String → Bool
has_any_tag tags key [] = false
has_any_tag tags key (t ∷ ts) = has_tag tags key t || has_any_tag tags key ts

has_tag-remove :
    (tags : TagSets) (t u key : String)
    → has_tag (Dict.delete tags t) key u ≡ (if str_eq t u then false else has_tag tags key u)
unfolding has_tag keys_of_tag
has_tag-remove tags t u key = ground (arith, get-delete tags t u, get-empty {V = Unit {0}} key)

-- A tag that was dealt with need not be looked at again.
has_any_tag-remove :
    (tags : TagSets) (t key : String) (ts : List String)
    → (has_tag tags key t || has_any_tag (Dict.delete tags t) key ts)
      ≡ (has_tag tags key t || has_any_tag tags key ts)
unfolding has_any_tag
has_any_tag-remove tags t key [] = refl
has_any_tag-remove tags t key (u ∷ ts) =
    ground (arith, has_any_tag-remove tags t key ts, has_tag-remove tags t u key, eq_iff t u)

is_some-add_keys :
    (keys : List String) (found : Dict (Unit {0})) (j : String)
    → is_some (Dict.get (add_keys keys found) j) ≡ (contains j keys || is_some (Dict.get found j))
unfolding add_keys contains
is_some-add_keys [] found j = refl
is_some-add_keys (k ∷ keys) found j =
    rw (is_some-add_keys keys (Dict.assign found k tt) j) (ground (arith, get-assign found k j tt))

is_some-collect :
    (ts : List String) (found : Dict (Unit {0})) (tags : TagSets) (j : String)
    → is_some (Dict.get (collect ts found tags).0 j)
      ≡ (is_some (Dict.get found j) || has_any_tag tags j ts)
unfolding collect has_any_tag
is_some-collect [] found tags j = ground arith
is_some-collect (t ∷ ts) found tags j =
    rw
      (
        is_some-collect ts (add_keys (Dict.keys (keys_of_tag tags t)) found) (Dict.delete tags t) j,
        is_some-add_keys (Dict.keys (keys_of_tag tags t)) found j,
        contains-keys (keys_of_tag tags t) j,
      )
      (unfold has_tag in ground (arith, has_any_tag-remove tags t j ts))

forget_all-view :
    (keys : List String) {s : MemoryStore} (j : String)
    → IsValid s
    → view (forget_all keys s) j ≡ (if contains j keys then none else view s j)
unfolding forget_all contains
forget_all-view [] j v = refl
forget_all-view (k ∷ keys) {s} j v =
    rw (forget_all-view keys {s = Memory.forget k s} j (forget-IsValid k v), view-forget k v j)
      (ground arith)

view-with_tags :
    (s : MemoryStore) (tags : TagSets) (j : String) → view (record s { tags = tags }) j ≡ view s j
unfolding view Memory.get_shard
view-with_tags s tags j = refl

-- Flush of a tagged cache removes exactly the entries whose keys carry one of its tags.
pub view-flush :
    (ts : List String) (j : String) {s : MemoryStore}
    → IsValid s
    → view (Tagged.flush ts s) j ≡ (if has_any_tag s.tags j ts then none else view s j)
unfolding Tagged.flush
view-flush ts j {s} v =
    let found = collect ts Dict.empty s.tags in
    let s' : MemoryStore = record s { tags = found.1 } in
    let v' : IsValid s' = record { sharded = v.sharded; counted = v.counted } in
    forget_all-view (Dict.keys found.0) {s = s'} j v'
    ∙ rw (
      contains-keys found.0 j,
      is_some-collect ts Dict.empty s.tags j,
      get-empty {V = Unit {0}} j,
      view-with_tags s found.1 j,
    )

has_tag-put :
    (tags : TagSets) (t u k j : String)
    → has_tag (Dict.assign tags t (Dict.assign (keys_of_tag tags t) k tt)) j u
      ≡ ((str_eq t u && str_eq k j) || has_tag tags j u)
unfolding has_tag keys_of_tag
has_tag-put tags t u k j = ground (
  arith,
  get-assign tags t u (Dict.assign (keys_of_tag tags t) k tt),
  get-assign (keys_of_tag tags t) k j tt,
  eq_iff t u,
)

-- track adds the key to the sets of its tags, and to no others.
has_tag-track_tags :
    (ts : List String) (k : String) (tags : TagSets) (u j : String)
    → has_tag (track_tags ts k tags) j u ≡ ((contains u ts && str_eq k j) || has_tag tags j u)
unfolding track_tags contains
has_tag-track_tags [] k tags u j = refl
has_tag-track_tags (t ∷ ts) k tags u j =
    rw
      (
        has_tag-track_tags ts k (Dict.assign tags t (Dict.assign (keys_of_tag tags t) k tt)) u j,
        has_tag-put tags t u k j,
      )
      (ground arith)

tags-put :
    (ts : List String) (now : ℕ) (k : String) (v : Value) (ttl : ℕ) (s : MemoryStore)
    → (Tagged.put ts now k v ttl s).tags ≡ track_tags ts k s.tags
unfolding Tagged.put Memory.put Memory.set_shard track
tags-put ts now k v ttl s = refl

tagged_put-IsValid :
    (ts : List String) (now : ℕ) (k : String) (v : Value) (ttl : ℕ) {s : MemoryStore}
    → IsValid s
    → IsValid (Tagged.put ts now k v ttl s)
unfolding Tagged.put track
tagged_put-IsValid ts now k v ttl {s} h =
    put-IsValid now k v ttl {s = record s { tags = track_tags ts k s.tags }}
      (record { sharded = h.sharded; counted = h.counted })

-- What was put under some tags is gone after a flush of any one of them; and a key is gone only if
-- it carried the tag before, or was put under it.
pub view-flush-put :
    (ts : List String) (t : String) (now : ℕ) (k j : String) (v : Value) (ttl : ℕ) {s : MemoryStore}
    → IsValid s
    → view (Tagged.flush (t ∷ []) (Tagged.put ts now k v ttl s)) j ≡ (
        if (contains t ts && str_eq k j) || has_tag s.tags j t
        then none
        else view (Tagged.put ts now k v ttl s) j)
unfolding has_any_tag
view-flush-put ts t now k j v ttl {s} h =
    rw
      (
        view-flush (t ∷ []) j (tagged_put-IsValid ts now k v ttl h),
        tags-put ts now k v ttl s,
        has_tag-track_tags ts k s.tags t j,
      )
      (ground arith)
