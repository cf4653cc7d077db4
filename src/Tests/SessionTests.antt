-- ===== src/Tests/SessionTests.antt =====
-- http/session/session.go on small inputs.
use text.Mathlib.Text.{◌==◌ as str_eq}
use go_fast_framework.Common.{◌≡◌, refl, true, none, some, arith, if◌then◌else◌}
use go_fast_framework.Common.Dict
use go_fast_framework.Session.Data
use go_fast_framework.Session.Data.{
  Any, nil, int, bool, SessionData, new_session_data, flash_key, get, set_value, put_flash,
  get_flash, regenerate, destroy, delete_all,
}
use go_fast_framework.Session.Store.{
  MemoryEntry, MemoryStore, is_over, new_memory_store, with_maps, new_session, save, gc,
}
use go_fast_framework.Session.RoundTrip.{new_session-save}
use go_fast_framework.Session.Flashes.{read_one, read_one_again}
use go_fast_framework.Session.Ends.{new_session-gc, new_session-destroy, new_session-regenerate}
use go_fast_framework.Session.Manager.{Manager, new_manager, session}
use go_fast_framework.Session.Visits.{first_visit, first_visit_remembered}

program : Unit {0}
unfolding new_session_data get set_value put_flash get_flash regenerate destroy delete_all Data.save
    is_over new_memory_store new_session save gc read_one Dict.get Dict.assign Dict.empty
    Dict.delete Dict.keys Dict.size Dict.contains
program = tt

-- A visitor with no cookie, whose session gets the id "a1".
abbrev opened : SessionData × MemoryStore
opened = new_session 5 "a1" "" (new_memory_store 100)

abbrev flashed : SessionData × MemoryStore
flashed =
    with_maps (put_flash "ok" (bool true) (set_value "user" (int 7) opened.0) opened.1.maps)
      opened.1

abbrev stored : MemoryStore
stored = (save 10 flashed.0 flashed.1).1

reads_user : get "user" (new_session 110 "b2" "a1" stored).0 ≡ int 7
unfolding program
reads_user = refl

is_too_late : (new_session 111 "b2" "a1" stored).0.id ≡ "b2"
unfolding program
is_too_late = refl

reads_flash : (read_one 20 21 "b2" "a1" "ok" stored).0 ≡ bool true
unfolding program
reads_flash = refl

abbrev entry : MemoryEntry
entry = record {
  values =
      Dict.assign (Dict.assign (Dict.delete Dict.empty flash_key) "user" (int 7)) flash_key
        (Any.flash_map 0);
  expires_at = some 110;
}

stored_at : Dict.get stored.entries "a1" ≡ some entry
unfolding program
stored_at = refl

new_session-save_example :
    ((new_session 110 "b2" flashed.0.id (save 10 flashed.0 flashed.1).1).0.id ≡ flashed.0.id)
    × ((get "user" (new_session 110 "b2" flashed.0.id (save 10 flashed.0 flashed.1).1).0
          ≡ (if str_eq flash_key "user" then nil else get "user" flashed.0))
        × ((get_flash "user"
              (new_session 110 "b2" flashed.0.id (save 10 flashed.0 flashed.1).1).0
              (new_session 110 "b2" flashed.0.id (save 10 flashed.0 flashed.1).1).1.maps).0
            ≡ (if Dict.is_some (Dict.get flashed.0.read_flash "user")
                then nil
                else (get_flash "user" flashed.0 flashed.1.maps).0)))
unfolding program
new_session-save_example =
    new_session-save 10 110 "b2" flashed.0 flashed.1 "user" refl refl refl (omega arith)
      (λ limited. omega arith)

read_one_again_example :
    (read_one 30 31 "c3" "a1" "ok" (read_one 20 21 "c3" "a1" "ok" stored).1).0
    ≡ (read_one 20 21 "c3" "a1" "ok" stored).0
read_one_again_example =
    read_one_again "c3" "a1" "ok" entry stored 20 21 30 31 refl stored_at refl refl

new_session-gc_example :
    ((new_session 120 "b2" "a1" (gc 115 stored)).0 ≡ (new_session 120 "b2" "a1" stored).0)
    × ((new_session 120 "b2" "a1" (gc 115 stored)).1.maps
        ≡ (new_session 120 "b2" "a1" stored).1.maps)
new_session-gc_example = new_session-gc 115 120 "b2" "a1" stored (omega arith)

new_session-destroy_example :
    (let (s', maps) = destroy flashed.0 stored.maps in
      let r = new_session 30 "b2" flashed.0.id (save 20 s' (record stored { maps = maps })).1 in
      (r.0.id ≡ "b2") × ((get "user" r.0 ≡ nil) × ((get_flash "user" r.0 r.1.maps).0 ≡ nil)))
new_session-destroy_example = new_session-destroy 20 30 "b2" "user" flashed.0 stored

new_session-regenerate_example :
    (let (s, st') = new_session 20 "b2" "a1" stored in
      let r = new_session 40 "b2" "a1" (save 30 (regenerate "c3" s) st').1 in
      (r.0.id ≡ "a1") × (get "user" r.0 ≡ get "user" s))
new_session-regenerate_example =
    new_session-regenerate "b2" "c3" "a1" "user" entry stored 20 30 40 refl stored_at refl refl refl

-- A manager with the default lifetime.
abbrev manager : Manager
manager = new_manager 0 "sid"

default_age : manager.max_age ≡ 7200
unfolding new_manager new_memory_store
default_age = refl

first_visit_remembered_example :
    ((first_visit 5 6 "a1" "user" (int 7) manager).0.cookie
      ≡ some (record { name = manager.cookie_name; value = "a1"; max_age = manager.max_age }))
    × (get "user" (session 100 "b2" "a1" none (first_visit 5 6 "a1" "user" (int 7) manager).1).0
        ≡ int 7)
unfolding new_manager new_memory_store
first_visit_remembered_example =
    first_visit_remembered 5 6 100 "a1" "b2" "user" (int 7) manager refl refl
      (λ limited. omega arith)
