-- ===== src/Common/Dict.antt =====
-- Go's `map[string]V` as an association list. The representation stays private: clients have
-- `dict_laws`. A range over a map is a list of its entries in the order of the association list.
use Prim.Native.String.{String}
use Prim.Native.Nat.{ℕ}
use mathlib.Core.Path.{◌≡◌, refl}
use mathlib.Core.Bool.{Bool, true, false}
use mathlib.Core.Option.{Option, none, some}
use mathlib.Core.List.{List, [], ◌∷◌}
use native.Mathlib.Omega.{arith}
use text.Mathlib.Text.{◌==◌}
use text.Mathlib.TextEquality.{eq_iff}
use go_fast_framework.Common.Lists.{length}
use go_fast_framework.Common.Tests.{ltb, if◌then◌else◌}

-- Whether a key is among some keys.
unfoldable pub contains : String → List String → Bool
contains j [] = false
contains j (k ∷ l) = if k == j then true else contains j l

pub record Dict {ℓ} (V : Type ℓ) : Type ℓ where
  pub pairs : List (String × V)

-- Lists of pairs: the value of the first pair with the key, and the list with no such pair.
module _ {ℓ} {V : Type ℓ} where
  find_pair : List (String × V) → String → Option V
  find_pair [] key = none
  find_pair ((k, v) ∷ rest) key = if k == key then some v else find_pair rest key

  unset : List (String × V) → String → List (String × V)
  unset [] key = []
  unset ((k, v) ∷ rest) key =
      let others = unset rest key in if k == key then others else (k, v) ∷ others

  find_pair-unset :
      (pairs : List (String × V)) (gone key : String)
      → find_pair (unset pairs gone) key ≡ (if gone == key then none else find_pair pairs key)
  unfolding find_pair unset
  find_pair-unset [] gone key = ground arith
  find_pair-unset ((k, v) ∷ rest) gone key =
      let ih = find_pair-unset rest gone key in
      ground (arith, ih, eq_iff gone key, eq_iff k key, eq_iff k gone)

-- var m map[string]V, with nothing in it
unfoldable pub empty {ℓ} : {V : Type ℓ} → Dict V
empty = record { pairs = [] }

-- v, ok := m[key]
unfoldable pub get {ℓ} : {V : Type ℓ} → Dict V → String → Option V
unfolding find_pair
get m key = find_pair m.pairs key

-- m[key] = v
unfoldable pub assign {ℓ} : {V : Type ℓ} → Dict V → String → V → Dict V
unfolding unset
assign m key v = record { pairs = (key, v) ∷ unset m.pairs key }

-- delete(m, key)
unfoldable pub delete {ℓ} : {V : Type ℓ} → Dict V → String → Dict V
unfolding unset
delete m key = record { pairs = unset m.pairs key }

module _ {ℓ} {V : Type ℓ} (m : Dict V) (at j : String) where
  pub get-assign : (v : V) → get (assign m at v) j ≡ (if at == j then some v else get m j)
  unfolding get assign
  get-assign v = rw (find_pair-unset m.pairs at j) (ground arith)

  pub get-delete : get (delete m at) j ≡ (if at == j then none else get m j)
  unfolding get delete
  get-delete = find_pair-unset m.pairs at j

module _ {ℓ} {V : Type ℓ} where
  delete_entries : (String → V → Bool) → List (String × V) → List (String × V)
  delete_entries p [] = []
  delete_entries p ((k, v) ∷ l) =
      let rest = unset (delete_entries p l) k in if p k v then rest else (k, v) ∷ rest

  -- for k, v := range m { if p(k, v) { delete(m, k) } }
  unfoldable pub delete_where : (String → V → Bool) → Dict V → Dict V
  unfolding delete_entries unset
  delete_where p d = record { pairs = delete_entries p d.pairs }

  -- for k, v := range m { if p(v) { delete(m, k) } }
  unfoldable pub delete_if : (V → Bool) → Dict V → Dict V
  unfolding delete_where
  delete_if p d = delete_where (λ _. p) d

  abbrev pub keep_unless : (V → Bool) → Option V → Option V
  keep_unless p none = none
  keep_unless p (some v) = if p v then none else some v

  find_pair-delete_entries :
      (p : String → V → Bool) (j : String) (l : List (String × V))
      → find_pair (delete_entries p l) j ≡ keep_unless (p j) (find_pair l j)
  unfolding find_pair delete_entries
  find_pair-delete_entries p j [] = refl
  find_pair-delete_entries p j ((k, v) ∷ l) =
      ground (
        arith,
        find_pair-delete_entries p j l,
        find_pair-unset (delete_entries p l) k j,
        eq_iff k j,
      )

  pub get-delete_where :
      (p : String → V → Bool) (d : Dict V) (j : String)
      → get (delete_where p d) j ≡ keep_unless (p j) (get d j)
  unfolding get delete_where
  get-delete_where p d j = find_pair-delete_entries p j d.pairs

  pub get-delete_if :
      (p : V → Bool) (d : Dict V) (j : String) → get (delete_if p d) j ≡ keep_unless p (get d j)
  unfolding delete_if
  get-delete_if p d j = get-delete_where (λ _. p) d j

  pub delete_where-empty : (p : String → V → Bool) → delete_where p empty ≡ empty
  unfolding delete_where empty
  delete_where-empty p = refl

  find_pair-length_zero :
      (l : List (String × V)) (j : String) → ltb 0 (length l) ≡ false → find_pair l j ≡ none
  unfolding find_pair
  find_pair-length_zero [] j h = refl
  find_pair-length_zero (p ∷ l) j h = ground arith

  keys_of : List (String × V) → List String
  keys_of [] = []
  keys_of ((k, v) ∷ l) = k ∷ keys_of l

  -- the keys of a map, as a range over it gives them
  unfoldable pub keys : Dict V → List String
  unfolding keys_of
  keys d = keys_of d.pairs

  -- len(m)
  unfoldable pub size : Dict V → ℕ
  size d = length d.pairs

  -- A map of length 0 has no key.
  pub get-size_zero : (d : Dict V) (j : String) → ltb 0 (size d) ≡ false → get d j ≡ none
  unfolding get size
  get-size_zero d j h = find_pair-length_zero d.pairs j h

  abbrev pub is_some : Option V → Bool
  is_some none = false
  is_some (some v) = true

  contains-keys_of :
      (j : String) (l : List (String × V)) → contains j (keys_of l) ≡ is_some (find_pair l j)
  unfolding find_pair keys_of contains
  contains-keys_of j [] = refl
  contains-keys_of j ((k, v) ∷ l) = ground (arith, contains-keys_of j l)

  -- The keys are those that can be looked up.
  pub contains-keys : (d : Dict V) (j : String) → contains j (keys d) ≡ is_some (get d j)
  unfolding get keys
  contains-keys d j = contains-keys_of j d.pairs

module _ {ℓ κ} {V : Type ℓ} {W : Type κ} where
  map_entries : (V → W) → List (String × V) → List (String × W)
  map_entries f [] = []
  map_entries f ((k, v) ∷ l) = (k, f v) ∷ map_entries f l

  -- a loop over a map that changes each value in place
  unfoldable pub map_values : (V → W) → Dict V → Dict W
  unfolding map_entries
  map_values f d = record { pairs = map_entries f d.pairs }

  abbrev pub map_option : (V → W) → Option V → Option W
  map_option f none = none
  map_option f (some v) = some (f v)

  find_pair-map_entries :
      (f : V → W) (j : String) (l : List (String × V))
      → find_pair (map_entries f l) j ≡ map_option f (find_pair l j)
  unfolding find_pair map_entries
  find_pair-map_entries f j [] = refl
  find_pair-map_entries f j ((k, v) ∷ l) = ground (arith, find_pair-map_entries f j l)

  pub get-map_values :
      (f : V → W) (d : Dict V) (j : String) → get (map_values f d) j ≡ map_option f (get d j)
  unfolding get map_values
  get-map_values f d j = find_pair-map_entries f j d.pairs

pub get-empty {ℓ} : {V : Type ℓ} (k : String) → get (empty {V = V}) k ≡ none
unfolding get empty
get-empty k = refl

pub ruleset dict_laws =
    (get-empty, get-assign, get-delete, get-delete_if, get-delete_where, get-map_values)
