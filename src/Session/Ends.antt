-- ===== src/Session/Ends.antt =====
-- Sessions that end: Destroy, Regenerate and GC.
use text.Mathlib.Text.{◌==◌ as str_eq}
use text.Mathlib.TextPositions.{eq_refl}
use go_fast_framework.Common.{
  ℕ, ◌≤◌, String, ◌≡◌, refl, ap, ◌∙◌, Bool, true, false, Option, none, some, if◌then◌else◌,
  Bool-cases, Option-cases, inl, inr, arith, get_or-last,
}
use go_fast_framework.Common.Dict
use go_fast_framework.Common.Dict.{
  Dict, get-assign, get-delete, get-delete_if, get-empty, keep_unless,
}
use go_fast_framework.Session.Data
use go_fast_framework.Session.Data.{
  Any, nil, Heap, SessionData, new_session_data, flash_key, map_at, or_nil, get, get_flash,
  regenerate, destroy,
}
use go_fast_framework.Session.Store.{
  MemoryEntry, MemoryStore, is_over, not_over, passed, with_maps, new_session, save, gc,
}
use go_fast_framework.Session.RoundTrip.{new_session-found}

or_nil_if : (b : Bool) → or_nil (if b then none else none) ≡ nil
or_nil_if true = refl
or_nil_if false = refl

passed_on :
    (now later : ℕ) (t : Option ℕ) → now ≤ later → passed now t ≡ true → passed later t ≡ true
passed_on now later none h over = absurd cc
passed_on now later (some t) h over = ground arith

not_over-gc :
    (now later : ℕ) (o : Option MemoryEntry)
    → now ≤ later
    → not_over later (keep_unless (is_over now) o) ≡ not_over later o
unfolding is_over
not_over-gc now later none h = refl
not_over-gc now later (some e) h = elim (Bool-cases (passed now e.expires_at)) [
  | inl over ↦ rw (over, passed_on now later e.expires_at h over)
  | inr lives ↦ rw lives
]

-- GC at one time, and New at that time or later: the session that New opens, and the maps of the
-- flashes, are those that it would have opened without GC.
pub new_session-gc :
    (now later : ℕ) (generated id : String) (st : MemoryStore)
    → now ≤ later
    → ((new_session later generated id (gc now st)).0 ≡ (new_session later generated id st).0)
      × ((new_session later generated id (gc now st)).1.maps
          ≡ (new_session later generated id st).1.maps)
unfolding gc new_session
new_session-gc now later generated id st h =
    let found =
      ap (not_over later) (get-delete_if (is_over now) st.entries id)
      ∙ not_over-gc now later (Dict.get st.entries id) h in
    elim (Bool-cases (str_eq id "")) [
      | inl unnamed ↦ (rw (unnamed, new_session), rw (unnamed, new_session))
      | inr named ↦ elim (Option-cases (not_over later (Dict.get st.entries id))) [
        | inl none_there ↦
            let e = found ∙ none_there in
            (rw (named, new_session, e, none_there), rw (named, new_session, e, none_there))
        | inr (entry, there) ↦
            let e = found ∙ there in
            (rw (named, new_session, e, there), rw (named, new_session, e, there))
      ]
    ]

-- New makes a session for an id that has no entry.
new_session-missing :
    (now : ℕ) (generated id : String) (st : MemoryStore)
    → Dict.get st.entries id ≡ none
    → new_session now generated id st ≡ with_maps (new_session_data generated Dict.empty st.maps) st
unfolding new_session
new_session-missing now generated id st missing = elim (Bool-cases (str_eq id "")) [
  | inl unnamed ↦ rw (unnamed, new_session)
  | inr named ↦ rw (named, new_session, missing)
]

-- A session that is made has no data and no flash.
get-new_session_data :
    (id k : String) (heap : Heap)
    → (get k (new_session_data id Dict.empty heap).0 ≡ nil)
      × ((get_flash k
            (new_session_data id Dict.empty heap).0
            (new_session_data id Dict.empty heap).1).0
          ≡ nil)
unfolding get get_flash new_session_data
get-new_session_data id k heap = (
  rw (get-delete (Dict.empty {V = Any}) flash_key k, get-empty {V = Any} k)
      (or_nil_if (str_eq flash_key k)),
  rw (
    get-empty {V = Any} flash_key,
    get_or-last heap (Dict.empty {V = Any}) Dict.empty,
    get-empty {V = Any} k,
  ),
)

-- A session that is destroyed and saved: New for its id gives a new session, with the id that is
-- generated, in which Get and GetFlash give nil for every key.
pub new_session-destroy :
    (now later : ℕ) (generated k : String) (s : SessionData) (st : MemoryStore)
    → (let (s', maps) = destroy s st.maps in
        let r = new_session later generated s.id (save now s' (record st { maps = maps })).1 in
        (r.0.id ≡ generated) × ((get k r.0 ≡ nil) × ((get_flash k r.0 r.1.maps).0 ≡ nil)))
unfolding destroy save Data.save new_session_data
new_session-destroy now later generated k s st =
    let (s', maps) = destroy s st.maps in
    let st' = (save now s' (record st { maps = maps })).1 in
    let e : new_session later generated s.id st'
        ≡ with_maps (new_session_data generated Dict.empty st'.maps) st' =
      new_session-missing later generated s.id st'
        (get-delete st.entries s.id s.id ∙ rw (eq_refl s.id)) in
    let fresh = get-new_session_data generated k st'.maps in (rw e, (rw e fresh.0, rw e fresh.1))

-- A session is opened by its id, before it is over; its id is regenerated, it is saved under the
-- new id, which is another, and the entry of the old id still opens: New for the old id, before that entry is over, gives a session with
-- the old id in which Get gives for each key what it gave.
pub new_session-regenerate :
    (generated new_id id k : String) (e : MemoryEntry) (st : MemoryStore) (now later again : ℕ)
    → str_eq id "" ≡ false
    → Dict.get st.entries id ≡ some e
    → passed now e.expires_at ≡ false
    → passed again e.expires_at ≡ false
    → str_eq new_id id ≡ false
    → (let (s, st') = new_session now generated id st in
        let r = new_session again generated id (save later (regenerate new_id s) st').1 in
        (r.0.id ≡ id) × (get k r.0 ≡ get k s))
unfolding regenerate save Data.save new_session_data get
new_session-regenerate generated new_id id k e st now later again named found lives lives' new =
    let first = new_session-found now generated id e st named found lives in
    let (s, st') = with_maps (new_session_data id e.values st.maps) st in
    let st'' = (save later (regenerate new_id s) st').1 in
    let kept : Dict.get st''.entries id ≡ some e =
      get-assign st.entries new_id id _ ∙ rw new found in
    let second = new_session-found again generated id e st'' named kept lives' in
    rw first (rw second, rw second)
