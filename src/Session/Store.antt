-- ===== src/Session/Store.antt =====
-- http/session/session.go: the store in memory; http/session/manager.go: one request. An operation
-- takes its reading of time.Now() and the id that generateID gives. A time is a number of
-- nanoseconds, and none is the zero time.
use text.Mathlib.Text.{◌==◌ as str_eq}
use go_fast_framework.Common.{
  ℕ, ◌+◌, String, [], Bool, false, not, Option, none, some, ltb, if◌then◌else◌,
}
use go_fast_framework.Common.Dict
use go_fast_framework.Common.Dict.{Dict}
use go_fast_framework.Common.Word.{lt64}
use go_fast_framework.Session.Data
use go_fast_framework.Session.Data.{Any, Heap, SessionData, new_session_data}

-- memoryEntry
pub record MemoryEntry : Type 0 where
  pub values : Dict Any
  pub expires_at : Option ℕ

-- MemoryStore, with the flash maps
pub record MemoryStore : Type 0 where
  pub entries : Dict MemoryEntry
  pub lifetime : ℕ
  pub maps : Heap

-- NewMemoryStore (the goroutine of gcLoop is the operation `gc`)
unfoldable pub new_memory_store : ℕ → MemoryStore
new_memory_store lifetime = record { entries = Dict.empty; lifetime = lifetime; maps = [] }

-- !expiresAt.IsZero() && now.After(expiresAt)
abbrev pub passed : ℕ → Option ℕ → Bool
passed now none = false
passed now (some t) = ltb t now

unfoldable pub is_over : ℕ → MemoryEntry → Bool
is_over now e = passed now e.expires_at

-- The entry that New finds for the id.
abbrev pub not_over : ℕ → Option MemoryEntry → Option MemoryEntry
not_over now none = none
not_over now (some e) = if is_over now e then none else some e

-- newSessionData as New calls it, with the maps of the store
abbrev pub with_maps : SessionData × Heap → MemoryStore → SessionData × MemoryStore
with_maps (s, maps) st = (s, record st { maps = maps })

-- New
unfoldable pub new_session : ℕ → String → String → MemoryStore → SessionData × MemoryStore
new_session now generated id st =
    elim (if str_eq id "" then none else not_over now (Dict.get st.entries id)) [
      | none ↦ with_maps (new_session_data generated Dict.empty st.maps) st
      | some e ↦ with_maps (new_session_data id e.values st.maps) st
    ]

-- save, and SaveSession
unfoldable pub save : ℕ → SessionData → MemoryStore → SessionData × MemoryStore
save now s st =
    if not s.dirty
    then (s, st)
    else let (s', maps) = Data.save s st.maps in
      if s'.destroyed
      then (s', record st { entries = Dict.delete st.entries s'.id; maps = maps })
      else let expires_at = if lt64 0 st.lifetime then some (now + st.lifetime) else none in
        (
          s',
          record st {
            entries =
                Dict.assign st.entries s'.id
                  (record { values = s'.values; expires_at = expires_at });
            maps = maps;
          },
        )

-- Delete
unfoldable pub delete : String → MemoryStore → MemoryStore
delete id st = record st { entries = Dict.delete st.entries id }

-- GC
unfoldable pub gc : ℕ → MemoryStore → MemoryStore
gc now st = record st { entries = Dict.delete_if (is_over now) st.entries }
