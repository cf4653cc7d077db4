-- ===== src/Session/Visits.antt =====
-- One visit and the next.
use text.Mathlib.Text.{◌==◌ as str_eq}
use text.Mathlib.TextPositions.{eq_refl}
use go_fast_framework.Common.{
  ℕ, ◌+◌, ◌≤◌, ◌<◌, String, ◌≡◌, refl, ◌∙◌, true, false, none, some, [], ◌∷◌, length, if◌then◌else◌,
  arith, length-append,
}
use go_fast_framework.Common.Dict
use go_fast_framework.Common.Dict.{get-assign, get-empty}
use go_fast_framework.Common.Word.{lt64}
use go_fast_framework.Session.Data
use go_fast_framework.Session.Data.{
  Any, nil, SessionData, new_session_data, flash_key, get, set_value, or_nil,
}
use go_fast_framework.Session.Store
use go_fast_framework.Session.Store.{MemoryStore, new_session, with_maps}
use go_fast_framework.Session.Manager.{Manager, Reply, session, middleware}
use go_fast_framework.Session.RoundTrip.{new_session-save}

-- A visitor without a cookie, whose handler sets one key and returns nil.
unfoldable pub first_visit : ℕ → ℕ → String → String → Any → Manager → Reply × Manager
first_visit now saved_at generated key v m =
    let (s, m') = session now generated "" none m in
    middleware saved_at none (some (set_value key v s)) m'

get-set_value : (key : String) (v : Any) (s : SessionData) → get key (set_value key v s) ≡ v
unfolding get set_value
get-set_value key v s = rw (get-assign s.values key key v, eq_refl key)

-- A visitor without a cookie gets a session, whose id is generated and is not empty; the handler sets a
-- key other than "__flash__" in it. The middleware sets the cookie to the id; and in a later request
-- with this cookie, before the lifetime ends, the session has the value at the key.
pub first_visit_remembered :
    (now saved_at later : ℕ) (generated again key : String) (v : Any) (m : Manager)
    → str_eq generated "" ≡ false
    → str_eq flash_key key ≡ false
    → (lt64 0 m.store.lifetime ≡ true → later ≤ saved_at + m.store.lifetime)
    → ((first_visit now saved_at generated key v m).0.cookie
        ≡ some (record { name = m.cookie_name; value = generated; max_age = m.max_age }))
      × (get key
            (session later again generated none (first_visit now saved_at generated key v m).1).0
          ≡ v)
unfolding first_visit session middleware new_session new_session_data set_value Store.save Data.save
first_visit_remembered now saved_at later generated again key v m named plain lives =
    let (s, st) = with_maps (new_session_data generated Dict.empty m.store.maps) m.store in
    let inside : (set_value key v s).flash < length st.maps =
      rw (get-empty {V = Any} flash_key)
        (omega (arith, length-append {0} m.store.maps (Dict.empty {V = Any} ∷ []))) in
    let kept =
      new_session-save saved_at later again (set_value key v s) st key refl refl named inside
        lives in
    let shown : (if str_eq flash_key key then nil else get key (set_value key v s)) ≡ v =
      rw plain (get-set_value key v s) in
    (refl, kept.1.0 ∙ shown)
