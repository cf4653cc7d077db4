-- ===== src/Session/Flashes.antt =====
-- What a request that changes nothing leaves in the store.
use text.Mathlib.Text.{◌==◌ as str_eq}
use go_fast_framework.Common.{
  ℕ, zero, suc, String, ◌≡◌, refl, sym, ap, ◌∙◌, false, Option, none, some, List, [], ◌∷◌, ◌++◌,
  length, get_or,
}
use go_fast_framework.Common.Dict
use go_fast_framework.Common.Dict.{Dict}
use go_fast_framework.Session.Data.{
  Any, nil, string, int, int64, float64, bool, other, flash_map, Heap, SessionData,
  new_session_data, flash_key, flash_at, map_at, or_nil, get_flash,
}
use go_fast_framework.Session.Store.{MemoryEntry, MemoryStore, passed, with_maps, new_session, save}
use go_fast_framework.Session.RoundTrip.{new_session-found}

get_or-default {ℓ} :
    {A : Type ℓ} (xs : List A) (i : ℕ) (d : A) → get_or (xs ++ d ∷ []) i d ≡ get_or xs i d
get_or-default [] zero d = refl
get_or-default [] (suc i) d = refl
get_or-default (x ∷ xs) zero d = refl
get_or-default (x ∷ xs) (suc i) d = get_or-default xs i d

get_or-past {ℓ} : {A : Type ℓ} (xs : List A) (d : A) → get_or xs (length xs) d ≡ d
get_or-past [] d = refl
get_or-past (x ∷ xs) d = get_or-past xs d

-- A map that is made for the session has no flash.
map_at-flash_at :
    (o : Option Any) (heap : Heap)
    → map_at (heap ++ Dict.empty ∷ []) (flash_at o (length (heap ++ Dict.empty ∷ [])))
      ≡ map_at heap (flash_at o (length heap))
map_at-flash_at none heap =
    get_or-past (heap ++ Dict.empty ∷ []) Dict.empty ∙ sym (get_or-past heap Dict.empty)
map_at-flash_at (some (flash_map a)) heap = get_or-default heap a Dict.empty
map_at-flash_at (some nil) heap =
    get_or-past (heap ++ Dict.empty ∷ []) Dict.empty ∙ sym (get_or-past heap Dict.empty)
map_at-flash_at (some (string v)) heap =
    get_or-past (heap ++ Dict.empty ∷ []) Dict.empty ∙ sym (get_or-past heap Dict.empty)
map_at-flash_at (some (int v)) heap =
    get_or-past (heap ++ Dict.empty ∷ []) Dict.empty ∙ sym (get_or-past heap Dict.empty)
map_at-flash_at (some (int64 v)) heap =
    get_or-past (heap ++ Dict.empty ∷ []) Dict.empty ∙ sym (get_or-past heap Dict.empty)
map_at-flash_at (some (float64 v)) heap =
    get_or-past (heap ++ Dict.empty ∷ []) Dict.empty ∙ sym (get_or-past heap Dict.empty)
map_at-flash_at (some (bool v)) heap =
    get_or-past (heap ++ Dict.empty ∷ []) Dict.empty ∙ sym (get_or-past heap Dict.empty)
map_at-flash_at (some (other v)) heap =
    get_or-past (heap ++ Dict.empty ∷ []) Dict.empty ∙ sym (get_or-past heap Dict.empty)

-- A request that opens a session and reads one flash, and saves the session.
unfoldable pub read_one : ℕ → ℕ → String → String → String → MemoryStore → Any × MemoryStore
read_one now later generated id key st =
    let (s, st') = new_session now generated id st in
    let (v, s') = get_flash key s st'.maps in (v, (save later s' st').1)

module _ (generated id key : String) (e : MemoryEntry) (st : MemoryStore)
    (named : str_eq id "" ≡ false) (found : Dict.get st.entries id ≡ some e) where
  abbrev opened : SessionData × MemoryStore
  opened = with_maps (new_session_data id e.values st.maps) st

  read_one-opened :
      (now later : ℕ)
      → passed now e.expires_at ≡ false
      → read_one now later generated id key st ≡ (
        or_nil (
            Dict.get
              (map_at st.maps (flash_at (Dict.get e.values flash_key) (length st.maps)))
              key),
        opened.1,
      )
  unfolding read_one new_session_data get_flash save
  read_one-opened now later lives = rw (
    new_session-found now generated id e st named found lives,
    get_or-default st.maps (flash_at (Dict.get e.values flash_key) (length st.maps)) Dict.empty,
  )

-- A request opens a session that the store has and that is not over, reads a flash by GetFlash,
-- changes nothing and saves the session. A second such request, before the session is over, reads
-- the same value again: the flash was not deleted.
pub read_one_again :
    (generated id key : String) (e : MemoryEntry) (st : MemoryStore) (now later now' later' : ℕ)
    → str_eq id "" ≡ false
    → Dict.get st.entries id ≡ some e
    → passed now e.expires_at ≡ false
    → passed now' e.expires_at ≡ false
    → (read_one now' later' generated id key (read_one now later generated id key st).1).0
      ≡ (read_one now later generated id key st).0
unfolding new_session_data
read_one_again generated id key e st now later now' later' named found lives lives' =
    let first = read_one-opened generated id key e st named found now later lives in
    let between = (with_maps (new_session_data id e.values st.maps) st).1 in
    let second = read_one-opened generated id key e between named found now' later' lives' in
    rw first (
      ap (λ r. r.0) second
      ∙ ap (λ m. or_nil (Dict.get m key)) (map_at-flash_at (Dict.get e.values flash_key) st.maps))
