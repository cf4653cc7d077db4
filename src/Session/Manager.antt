-- ===== src/Session/Manager.antt =====
-- http/session/manager.go: the session of a request, and what the middleware does after its handler.
-- The cookie that a request has and the session that its context keeps are arguments.
use text.Mathlib.Text.{◌==◌ as str_eq}
use go_fast_framework.Common.{ℕ, ◌*◌, ◌-◌, ◌^◌, ◌/◌, String, Option, none, some, if◌then◌else◌}
use go_fast_framework.Common.Word.{lt64}
use go_fast_framework.Session.Data.{SessionData}
use go_fast_framework.Session.Store
use go_fast_framework.Session.Store.{MemoryStore, new_memory_store, new_session}

-- A cookie that is set, with the option that the code changes.
pub record Cookie : Type 0 where
  pub name : String
  pub value : String
  pub max_age : ℕ

-- Manager; of the cookie options only MaxAge, in seconds
pub record Manager : Type 0 where
  pub store : MemoryStore
  pub cookie_name : String
  pub max_age : ℕ
  pub lifetime : ℕ

-- NewManager, of a duration in nanoseconds
unfoldable pub new_manager : ℕ → String → Manager
new_manager lifetime cookie_name =
    let l = if lt64 0 lifetime then lifetime else 7200 * 10 ^ 9 in
    record {
      store = new_memory_store l;
      cookie_name = if str_eq cookie_name "" then "go_fast_session" else cookie_name;
      max_age = l / 10 ^ 9;
      lifetime = l;
    }

-- Session
unfoldable pub session : ℕ → String → String → Option SessionData → Manager → SessionData × Manager
session now generated cookie (some s) m = (s, m)
session now generated cookie none m =
    let (s, st) = new_session now generated cookie m.store in (s, record m { store = st })

-- What the middleware returns, and the cookie that it sets.
pub record Reply : Type 0 where
  pub error : Option ℕ
  pub cookie : Option Cookie

-- Middleware, after the handler has returned an error or nil
unfoldable pub middleware : ℕ → Option ℕ → Option SessionData → Manager → Reply × Manager
middleware now (some e) loaded m = (record { error = some e; cookie = none }, m)
middleware now none none m = (record { error = none; cookie = none }, m)
middleware now none (some s) m =
    let (s', st) = Store.save now s m.store in
    let cookie =
      if s'.destroyed
      then record { name = m.cookie_name; value = ""; max_age = 2 ^ 64 - 1 }
      else record { name = m.cookie_name; value = s'.id; max_age = m.max_age } in
    (record { error = none; cookie = some cookie }, record m { store = st })
