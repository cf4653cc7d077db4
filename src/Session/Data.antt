-- ===== src/Session/Data.antt =====
-- http/session/session.go: the data of one session. The map of the flash values is shared with the
-- store: it goes by its address in a heap of such maps. The other maps are copied when they pass
-- between a session and the store, and are values here.
use go_fast_framework.Common.{
  ℕ, String, Bool, true, false, Option, none, some, List, [], ◌∷◌, ◌++◌, length, get_or, set, ltb,
  if◌then◌else◌,
}
use go_fast_framework.Common.Dict
use go_fast_framework.Common.Dict.{Dict}

-- A Go `any` in a session, the integers and floats as bit patterns; `flash_map` is a map[string]any
-- and `other` a value of any other type.
pub data Any : Type 0 where
  nil : Any
  string : String → Any
  int int64 float64 : ℕ → Any
  bool : Bool → Any
  flash_map : ℕ → Any
  other : ℕ → Any

abbrev pub Heap : Type 0
Heap = List (Dict Any)

-- sessionData
pub record SessionData : Type 0 where
  pub id : String
  pub values : Dict Any
  pub flash : ℕ
  pub read_flash : Dict (Unit {0})
  pub dirty : Bool
  pub destroyed : Bool

abbrev pub flash_key : String
flash_key = "__flash__"

abbrev pub flash_at : Option Any → ℕ → ℕ
flash_at (some (flash_map a)) fresh = a
flash_at _ fresh = fresh

-- newSessionData; the map that is made is garbage when the data has one
unfoldable pub new_session_data : String → Dict Any → Heap → SessionData × Heap
new_session_data id existed heap = (
  record {
    id = id;
    values = Dict.delete existed flash_key;
    flash = flash_at (Dict.get existed flash_key) (length heap);
    read_flash = Dict.empty;
    dirty = false;
    destroyed = false;
  },
  heap ++ Dict.empty ∷ [],
)

-- m[key] of a map[string]any
abbrev pub or_nil : Option Any → Any
or_nil none = nil
or_nil (some v) = v

-- Get
unfoldable pub get : String → SessionData → Any
get key s = or_nil (Dict.get s.values key)

abbrev pub string_or : String → Any → String
string_or def (string v) = v
string_or def _ = def

abbrev pub bool_or : Bool → Any → Bool
bool_or def (bool b) = b
bool_or def _ = def

-- the conversion of a float64 to an int is `truncate`
abbrev pub int_or : (ℕ → ℕ) → ℕ → Any → ℕ
int_or truncate def (int n) = n
int_or truncate def (int64 n) = n
int_or truncate def (float64 n) = truncate n
int_or truncate def _ = def

-- GetString, GetInt and GetBool; the default is the zero value when none is passed
unfoldable pub get_string : String → String → SessionData → String
unfolding get
get_string key def s = string_or def (get key s)

unfoldable pub get_int : (ℕ → ℕ) → String → ℕ → SessionData → ℕ
unfolding get
get_int truncate key def s = int_or truncate def (get key s)

unfoldable pub get_bool : String → Bool → SessionData → Bool
unfolding get
get_bool key def s = bool_or def (get key s)

-- Set
unfoldable pub set_value : String → Any → SessionData → SessionData
set_value key v s = record s { values = Dict.assign s.values key v; dirty = true }

-- Has
unfoldable pub has : String → SessionData → Bool
has key s = Dict.is_some (Dict.get s.values key)

-- Delete
unfoldable pub delete : String → SessionData → SessionData
delete key s = record s { values = Dict.delete s.values key; dirty = true }

-- the map at an address
abbrev pub map_at : Heap → ℕ → Dict Any
map_at heap a = get_or heap a Dict.empty

-- Flash
unfoldable pub put_flash : String → Any → SessionData → Heap → SessionData × Heap
put_flash key v s heap =
    (record s { dirty = true }, set heap s.flash (Dict.assign (map_at heap s.flash) key v))

-- GetFlash
unfoldable pub get_flash : String → SessionData → Heap → Any × SessionData
get_flash key s heap = (
  or_nil (Dict.get (map_at heap s.flash) key),
  record s { read_flash = Dict.assign s.read_flash key tt },
)

-- Regenerate, of the new id
unfoldable pub regenerate : String → SessionData → SessionData
regenerate id s = record s { id = id; dirty = true }

-- Destroy
unfoldable pub destroy : SessionData → Heap → SessionData × Heap
destroy s heap = (
  record s { values = Dict.empty; flash = length heap; destroyed = true; dirty = true },
  heap ++ Dict.empty ∷ [],
)

-- for k := range keys { delete(m, k) }
unfoldable pub delete_all : List String → Dict Any → Dict Any
delete_all [] m = m
delete_all (k ∷ ks) m = delete_all ks (Dict.delete m k)

-- Save
unfoldable pub save : SessionData → Heap → SessionData × Heap
unfolding delete_all
save s heap =
    let m = delete_all (Dict.keys s.read_flash) (map_at heap s.flash) in
    (
      record s {
        values =
            if ltb 0 (Dict.size m)
            then Dict.assign s.values flash_key (flash_map s.flash)
            else Dict.delete s.values flash_key;
      },
      set heap s.flash m,
    )
