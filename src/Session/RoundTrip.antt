-- ===== src/Session/RoundTrip.antt =====
-- A session that is saved and opened again.
use text.Mathlib.Text.{◌==◌ as str_eq}
use text.Mathlib.TextPositions.{eq_refl}
use go_fast_framework.Common.{
  ℕ, ◌+◌, ◌<◌, ◌≤◌, String, ◌≡◌, refl, sym, ap, ◌∙◌, Bool, true, false, Option, none, some, List,
  [], ◌∷◌, length, set, ltb, if◌then◌else◌, Bool-cases, inl, inr, arith, get_or-set_self,
  length-set, get_or-append, get_or-last,
}
use go_fast_framework.Common.Dict
use go_fast_framework.Common.Dict.{
  Dict, get-assign, get-delete, get-size_zero, contains-keys, is_some, get-empty,
}
use go_fast_framework.Common.Word.{lt64}
use go_fast_framework.Session.Data
use go_fast_framework.Session.Data.{
  Any, nil, flash_map, Heap, SessionData, new_session_data, flash_key, flash_at, map_at, or_nil,
  delete_all, get, get_flash,
}
use go_fast_framework.Session.Store.{
  MemoryEntry, MemoryStore, is_over, passed, with_maps, new_session, save,
}

pub get-delete_all :
    (ks : List String) (m : Dict Any) (j : String)
    → Dict.get (delete_all ks m) j ≡ (if Dict.contains j ks then none else Dict.get m j)
unfolding delete_all Dict.contains
get-delete_all [] m j = refl
get-delete_all (k ∷ ks) m j =
    ground (arith, get-delete_all ks (Dict.delete m k) j, get-delete m k j)

-- The data that Save leaves for the map of the flashes at an address.
abbrev pub stored : Dict Any → ℕ → Dict Any → Dict Any
stored values a m =
    if ltb 0 (Dict.size m)
    then Dict.assign values flash_key (flash_map a)
    else Dict.delete values flash_key

pub reopened-values :
    (id : String) (values : Dict Any) (a : ℕ) (m : Dict Any) (heap : Heap) (k : String)
    → Dict.get (new_session_data id (stored values a m) heap).0.values k
      ≡ (if str_eq flash_key k then none else Dict.get values k)
unfolding new_session_data
reopened-values id values a m heap k = elim (Bool-cases (ltb 0 (Dict.size m))) [
  | inl some_left ↦ rw some_left (
      ground (
        arith,
        get-delete (Dict.assign values flash_key (flash_map a)) flash_key k,
        get-assign values flash_key k (flash_map a),
      ))
  | inr none_left ↦ rw none_left (
      ground (
        arith,
        get-delete (Dict.delete values flash_key) flash_key k,
        get-delete values flash_key k,
      ))
]

pub reopened-flash :
    (id : String) (values : Dict Any) (a : ℕ) {m : Dict Any} (heap : Heap) (k : String)
    → a < length heap
    → map_at heap a ≡ m
    → Dict.get
        (map_at
          (new_session_data id (stored values a m) heap).1
          (new_session_data id (stored values a m) heap).0.flash)
        k
      ≡ Dict.get m k
unfolding new_session_data
reopened-flash id values a {m} heap k inside here = elim (Bool-cases (ltb 0 (Dict.size m))) [
  | inl some_left ↦
      let found : Dict.get (Dict.assign values flash_key (flash_map a)) flash_key
          ≡ some (flash_map a) =
        get-assign values flash_key flash_key (flash_map a) in
      rw (some_left, found, get_or-append heap (Dict.empty ∷ []) a Dict.empty inside, here)
  | inr none_left ↦
      let found : Dict.get (Dict.delete values flash_key) flash_key ≡ none =
        get-delete values flash_key flash_key in
      rw (none_left, found, get_or-last heap Dict.empty Dict.empty)
        (get-empty k ∙ sym (get-size_zero m k none_left))
]

-- The store after a session that was changed and not destroyed is saved.
abbrev pub saved : ℕ → SessionData → MemoryStore → MemoryStore
saved now s st =
    let m = delete_all (Dict.keys s.read_flash) (map_at st.maps s.flash) in
    let expires_at = if lt64 0 st.lifetime then some (now + st.lifetime) else none in
    record st {
      entries =
          Dict.assign st.entries s.id
            (record { values = stored s.values s.flash m; expires_at = expires_at });
      maps = set st.maps s.flash m;
    }

pub save-saved :
    (now : ℕ) (s : SessionData) (st : MemoryStore)
    → s.dirty ≡ true
    → s.destroyed ≡ false
    → (save now s st).1 ≡ saved now s st
unfolding save Data.save
save-saved now s st changed kept = rw (changed, kept)

-- What New opens for the id of an entry that is not over.
pub new_session-found :
    (now : ℕ) (generated id : String) (e : MemoryEntry) (st : MemoryStore)
    → str_eq id "" ≡ false
    → Dict.get st.entries id ≡ some e
    → passed now e.expires_at ≡ false
    → new_session now generated id st ≡ with_maps (new_session_data id e.values st.maps) st
unfolding new_session is_over
new_session-found now generated id e st named found lives =
    rw (named, new_session, found, is_over, lives)

ltb_of_le : {a b : ℕ} → a ≤ b → ltb b a ≡ false
ltb_of_le h = ground arith

or_nil-if :
    (b : Bool) (o : Option Any) → or_nil (if b then none else o) ≡ (if b then nil else or_nil o)
or_nil-if true o = refl
or_nil-if false o = refl

module _ (now later : ℕ) (generated : String) (s : SessionData) (st : MemoryStore) (k : String)
    (changed : s.dirty ≡ true) (kept : s.destroyed ≡ false) (named : str_eq s.id "" ≡ false)
    (inside : s.flash < length st.maps)
    (lives : lt64 0 st.lifetime ≡ true → later ≤ now + st.lifetime) where
  not_passed : passed later (if lt64 0 st.lifetime then some (now + st.lifetime) else none) ≡ false
  not_passed = elim (Bool-cases (lt64 0 st.lifetime)) [
    | inl limited ↦ rw limited (ltb_of_le (lives limited))
    | inr unlimited ↦ rw unlimited
  ]

  abbrev left : Dict Any
  left = delete_all (Dict.keys s.read_flash) (map_at st.maps s.flash)

  left_at : map_at (set st.maps s.flash left) s.flash ≡ left
  left_at = get_or-set_self st.maps s.flash left Dict.empty inside

  inside' : s.flash < length (saved now s st).maps
  inside' = omega (arith, length-set {0} st.maps s.flash left, inside)

  unread :
      Dict.get left k
      ≡ (if is_some (Dict.get s.read_flash k) then none else Dict.get (map_at st.maps s.flash) k)
  unread =
      get-delete_all (Dict.keys s.read_flash) (map_at st.maps s.flash) k
      ∙ rw (contains-keys s.read_flash k)

  reopened :
      new_session later generated s.id (save now s st).1
      ≡ with_maps
          (new_session_data s.id (stored s.values s.flash left) (saved now s st).maps)
          (saved now s st)
  reopened = rw (save-saved now s st changed kept) (
      new_session-found later generated s.id _ (saved now s st) named
        (get-assign st.entries s.id s.id _ ∙ rw (eq_refl s.id)) not_passed)

  -- A session that was changed and not destroyed, whose id is not empty and whose flashes have a
  -- map in the store, is saved, and then opened by its id before its lifetime ends (whenever, if it
  -- does not). The session that is opened has the id; Get gives for every key but "__flash__" what
  -- it gave before, and GetFlash gives what it gave, except that the flashes that had been read are
  -- gone.
  pub new_session-save :
      ((new_session later generated s.id (save now s st).1).0.id ≡ s.id)
      × ((get k (new_session later generated s.id (save now s st).1).0
            ≡ (if str_eq flash_key k then nil else get k s))
          × ((get_flash k
                (new_session later generated s.id (save now s st).1).0
                (new_session later generated s.id (save now s st).1).1.maps).0
              ≡ (if is_some (Dict.get s.read_flash k) then nil else (get_flash k s st.maps).0)))
  unfolding get get_flash new_session_data
  new_session-save = (
    ap (λ r. r.0.id) reopened,
    (
      rw (reopened, reopened-values s.id s.values s.flash left (saved now s st).maps k)
          (or_nil-if (str_eq flash_key k) (Dict.get s.values k)),
      ap (λ r. or_nil (Dict.get (map_at r.1.maps r.0.flash) k)) reopened
          ∙ ap or_nil (reopened-flash s.id s.values s.flash (saved now s st).maps k inside' left_at)
          ∙ ap or_nil unread
          ∙ or_nil-if (is_some (Dict.get s.read_flash k)) (Dict.get (map_at st.maps s.flash) k),
    ),
  )
