-- ===== src/OrmTag/Relations.antt =====
-- contracts/ormtag/rel.go: parseRelTag, parseGormAssocTag and validateRelPair. An error keeps the two
-- lengths of its message.
use go_fast_framework.Common.{
  ℕ, String, Bool, true, false, not, ◌&&◌, List, [], ◌∷◌, Option, none, some, ◌==◌, ltb, length,
  if◌then◌else◌,
}
use go_fast_framework.Cache.Memory.{bytes}
use go_fast_framework.OrmTag.Text.{Text, trim_space, to_lower, text_eq}
use go_fast_framework.OrmTag.Field.{is_among}
use go_fast_framework.OrmTag.Sections.{GormSection, is_empty, split_gorm_sections, split_field_list}

-- RelMeta
pub record RelMeta : Type 0 where
  pub foreign_keys : List Text
  pub references : List Text
  pub many2many : Text
  pub join_foreign_key : Text
  pub join_references : Text
  pub polymorphic : Text
  pub polymorphic_value : Text
  pub constraint : Text

abbrev pub no_rel : RelMeta
no_rel = record {
  foreign_keys = [];
  references = [];
  many2many = [];
  join_foreign_key = [];
  join_references = [];
  polymorphic = [];
  polymorphic_value = [];
  constraint = [];
}

-- The cases of the switches on a key.
pub data RelKey : Type 0 where
  r_foreign_key r_references r_many2many r_join_foreign_key r_join_references : RelKey
  r_polymorphic r_polymorphic_value r_constraint r_other : RelKey

abbrev pub rel_keys : List (String × RelKey)
rel_keys =
    ("foreignkey", r_foreign_key)
    ∷ ("references", r_references)
    ∷ ("many2many", r_many2many)
    ∷ ("joinforeignkey", r_join_foreign_key)
    ∷ ("joinreferences", r_join_references)
    ∷ ("polymorphic", r_polymorphic)
    ∷ ("polymorphicvalue", r_polymorphic_value)
    ∷ ("constraint", r_constraint)
    ∷ []

unfoldable pub find_key : Text → List (String × RelKey) → RelKey
unfolding bytes text_eq
find_key key [] = r_other
find_key key ((w, k) ∷ ws) = let rest = find_key key ws in if text_eq key (bytes w) then k else rest

-- the case of a section's key
unfoldable pub rel_key_of : GormSection → RelKey
unfolding find_key to_lower
rel_key_of s = find_key (to_lower s.key) rel_keys

-- the body of a case
unfoldable pub on_rel_key : RelKey → Text → RelMeta → RelMeta
unfolding split_field_list
on_rel_key r_foreign_key v m = record m { foreign_keys = split_field_list v }
on_rel_key r_references v m = record m { references = split_field_list v }
on_rel_key r_many2many v m = record m { many2many = v }
on_rel_key r_join_foreign_key v m = record m { join_foreign_key = v }
on_rel_key r_join_references v m = record m { join_references = v }
on_rel_key r_polymorphic v m = record m { polymorphic = v }
on_rel_key r_polymorphic_value v m = record m { polymorphic_value = v }
on_rel_key r_constraint v m = record m { constraint = v }
on_rel_key r_other v m = m

-- The error of validateRelPair, with the two lengths.
pub data PairError : Type 0 where
  unequal : ℕ → ℕ → PairError

-- validateRelPair
unfoldable pub validate_rel_pair : RelMeta → Option PairError
validate_rel_pair m =
    let f = length m.foreign_keys in
    let r = length m.references in
    if ltb 0 f && (ltb 0 r && not (f == r)) then some (unequal f r) else none

-- the loop of parseRelTag
unfoldable pub rel_sections : List GormSection → RelMeta → RelMeta
unfolding rel_key_of on_rel_key
rel_sections [] m = m
rel_sections (s ∷ ss) m = rel_sections ss (on_rel_key (rel_key_of s) s.value m)

-- parseRelTag
unfoldable pub parse_rel_tag : Text → RelMeta × Option PairError
unfolding split_gorm_sections rel_sections validate_rel_pair
parse_rel_tag tag =
    let meta = rel_sections (split_gorm_sections tag) no_rel in (meta, validate_rel_pair meta)

-- gormAssocKeySet
abbrev pub gorm_assoc_key_set : List String
gorm_assoc_key_set =
    "foreignkey" ∷ "references" ∷ "many2many" ∷ "joinforeignkey" ∷ "joinreferences" ∷ "polymorphic"
    ∷ "polymorphicvalue" ∷ []

-- The cases of the second switch.
abbrev pub gorm_keys : List (String × RelKey)
gorm_keys =
    ("foreignkey", r_foreign_key)
    ∷ ("references", r_references)
    ∷ ("many2many", r_many2many)
    ∷ ("joinforeignkey", r_join_foreign_key)
    ∷ ("joinreferences", r_join_references)
    ∷ ("polymorphic", r_polymorphic)
    ∷ ("polymorphicvalue", r_polymorphic_value)
    ∷ []

-- the body of a case of the second switch, which has no case for a constraint
unfoldable pub on_gorm_key : RelKey → Text → RelMeta → RelMeta
unfolding split_field_list
on_gorm_key r_foreign_key v m = record m { foreign_keys = split_field_list v }
on_gorm_key r_references v m = record m { references = split_field_list v }
on_gorm_key r_many2many v m = record m { many2many = v }
on_gorm_key r_join_foreign_key v m = record m { join_foreign_key = v }
on_gorm_key r_join_references v m = record m { join_references = v }
on_gorm_key r_polymorphic v m = record m { polymorphic = v }
on_gorm_key r_polymorphic_value v m = record m { polymorphic_value = v }
on_gorm_key r_constraint v m = m
on_gorm_key r_other v m = m

-- the loop of parseGormAssocTag: the meta data and ok
unfoldable pub gorm_sections : List GormSection → RelMeta → Bool → RelMeta × Bool
unfolding find_key on_gorm_key to_lower is_among
gorm_sections [] m ok = (m, ok)
gorm_sections (s ∷ ss) m ok = elim (is_among (to_lower s.key) gorm_assoc_key_set) [
  | true ↦ gorm_sections ss (on_gorm_key (find_key (to_lower s.key) gorm_keys) s.value m) true
  | false ↦ gorm_sections ss m ok
]

-- What parseGormAssocTag returns.
pub record Assoc : Type 0 where
  pub meta : RelMeta
  pub ok : Bool
  pub error : Option PairError

abbrev pub no_assoc : Assoc
no_assoc = record { meta = no_rel; ok = false; error = none }

-- parseGormAssocTag
unfoldable pub parse_gorm_assoc_tag : Text → Assoc
unfolding split_gorm_sections gorm_sections validate_rel_pair trim_space
parse_gorm_assoc_tag tag =
    let (meta, ok) = gorm_sections (split_gorm_sections tag) no_rel false in
    if is_empty (trim_space tag)
    then no_assoc
    else if not ok
    then no_assoc
    else record { meta = meta; ok = true; error = validate_rel_pair meta }
