-- ===== src/OrmTag/Ext.antt =====
-- contracts/ormtag/ext.go: parseExtTag. An int64 is its bit pattern below 2 ^ 64.
use go_fast_framework.Common.{
  ℕ, ◌+◌, ◌-◌, ◌*◌, ◌^◌, String, Bool, true, false, ◌&&◌, List, [], ◌∷◌, ◌++◌, Option, none, some,
  ◌==◌, ltb, leb, if◌then◌else◌,
}
use go_fast_framework.Common.Word.{neg64}
use go_fast_framework.Cache.Memory.{bytes}
use go_fast_framework.OrmTag.Text.{Text, trim_space, to_lower, text_eq}
use go_fast_framework.OrmTag.Sections.{GormSection, is_empty, split_gorm_sections, split_field_list}

-- ExtMeta
pub record ExtMeta : Type 0 where
  pub check : Text
  pub index_options : Text
  pub auto_increment_increment : ℕ
  pub ignore_migration : Bool
  pub time_precision : Text
  pub perm_create_only : Bool
  pub perm_update_only : Bool
  pub unknown_keys : List Text

abbrev pub no_ext : ExtMeta
no_ext = record {
  check = [];
  index_options = [];
  auto_increment_increment = 0;
  ignore_migration = false;
  time_precision = [];
  perm_create_only = false;
  perm_update_only = false;
  unknown_keys = [];
}

-- the digits of strconv.ParseInt in base 10, from the number so far
unfoldable pub digits_from : ℕ → Text → Option ℕ
digits_from n [] = some n
digits_from n (b ∷ bs) =
    let rest = digits_from (10 * n + (b - 48)) bs in if leb 48 b && leb b 57 then rest else none

unfoldable pub digits : Text → Option ℕ
unfolding digits_from
digits s = if is_empty s then none else digits_from 0 s

abbrev pub positive : Option ℕ → Option ℕ
positive none = none
positive (some n) = if ltb n (2 ^ 63) then some n else none

abbrev pub negative : Option ℕ → Option ℕ
negative none = none
negative (some n) = if leb n (2 ^ 63) then some (neg64 n) else none

-- strconv.ParseInt(s, 10, 64); none is an error
unfoldable pub parse_int : Text → Option ℕ
unfolding digits
parse_int [] = none
parse_int (b ∷ bs) =
    if b == 43
    then positive (digits bs)
    else if b == 45
    then negative (digits bs)
    else positive (digits (b ∷ bs))

-- The cases of the switch on a key.
pub data ExtKey : Type 0 where
  e_check e_index e_increment e_migration e_precision e_perm e_unknown : ExtKey

abbrev pub ext_keys : List (String × ExtKey)
ext_keys =
    ("check", e_check)
    ∷ ("index", e_index)
    ∷ ("autoincrementincrement", e_increment)
    ∷ ("migration", e_migration)
    ∷ ("timeprecision", e_precision)
    ∷ ("perm", e_perm)
    ∷ []

unfoldable pub find_key : Text → List (String × ExtKey) → ExtKey
unfolding bytes text_eq
find_key key [] = e_unknown
find_key key ((w, k) ∷ ws) = let rest = find_key key ws in if text_eq key (bytes w) then k else rest

-- the loop over the permissions
unfoldable pub permit : List Text → ExtMeta → ExtMeta
unfolding bytes text_eq to_lower
permit [] m = m
permit (p ∷ ps) m =
    let name = to_lower p in
    permit ps (
      if text_eq name (bytes "create")
      then record m { perm_create_only = true }
      else if text_eq name (bytes "update")
      then record m { perm_update_only = true }
      else m)

abbrev pub set_increment : Option ℕ → ExtMeta → Option ExtMeta
set_increment none m = none
set_increment (some n) m = some (record m { auto_increment_increment = n })

-- the body of a case; none is the error of autoIncrementIncrement
unfoldable pub on_ext_key : ExtKey → GormSection → ExtMeta → Option ExtMeta
unfolding parse_int permit split_field_list bytes text_eq to_lower trim_space
on_ext_key e_check s m = some (record m { check = s.value })
on_ext_key e_index s m = some (record m { index_options = s.value })
on_ext_key e_increment s m = set_increment (parse_int s.value) m
on_ext_key e_migration s m = some (
    if text_eq (to_lower (trim_space s.value)) (bytes "false")
    then record m { ignore_migration = true }
    else m)
on_ext_key e_precision s m = some (record m { time_precision = s.value })
on_ext_key e_perm s m = some (permit (split_field_list s.value) m)
on_ext_key e_unknown s m = some (record m { unknown_keys = m.unknown_keys ++ s.key ∷ [] })

-- What parseExtTag returns: the meta data so far, and the value that is no int64.
pub record ExtParsed : Type 0 where
  pub meta : ExtMeta
  pub error : Option Text

-- the loop of parseExtTag
unfoldable pub ext_sections : List GormSection → ExtMeta → ExtParsed
unfolding find_key on_ext_key to_lower
ext_sections [] m = record { meta = m; error = none }
ext_sections (s ∷ ss) m = elim (on_ext_key (find_key (to_lower s.key) ext_keys) s m) [
  | none ↦ record { meta = m; error = some s.value }
  | some m' ↦ ext_sections ss m'
]

-- parseExtTag
unfoldable pub parse_ext_tag : Text → ExtParsed
unfolding split_gorm_sections ext_sections
parse_ext_tag tag = ext_sections (split_gorm_sections tag) no_ext
