-- ===== src/OrmTag/Sections.antt =====
-- contracts/ormtag/rel.go: tags of sections `key:value` between semicolons, and lists of names.
use go_fast_framework.Common.{ℕ, Bool, true, false, List, [], ◌∷◌, ◌==◌, if◌then◌else◌}
use go_fast_framework.OrmTag.Text.{Text, trim_space}

abbrev pub push_first : ℕ → List Text → List Text
push_first b [] = (b ∷ []) ∷ []
push_first b (t ∷ ts) = (b ∷ t) ∷ ts

-- strings.Split(s, sep) for a separator of one byte
unfoldable pub split_on : ℕ → Text → List Text
split_on sep [] = [] ∷ []
split_on sep (b ∷ bs) =
    let rest = split_on sep bs in if b == sep then [] ∷ rest else push_first b rest

-- part[:idx] for the idx of the first ":", the whole part when there is none
unfoldable pub before_colon : Text → Text
before_colon [] = []
before_colon (b ∷ bs) = let rest = before_colon bs in if b == 58 then [] else b ∷ rest

-- part[idx+1:], "" when there is none
unfoldable pub after_colon : Text → Text
after_colon [] = []
after_colon (b ∷ bs) = let rest = after_colon bs in if b == 58 then bs else rest

abbrev pub is_empty : Text → Bool
is_empty [] = true
is_empty (b ∷ bs) = false

-- gormSection
pub record GormSection : Type 0 where
  pub key : Text
  pub value : Text

-- the loop of splitGormSections
unfoldable pub sections_of : List Text → List GormSection
unfolding before_colon after_colon trim_space
sections_of [] = []
sections_of (p ∷ ps) =
    let part = trim_space p in
    let key = trim_space (before_colon part) in
    let value = trim_space (after_colon part) in
    let rest = sections_of ps in
    if is_empty part
    then rest
    else if is_empty key
    then rest
    else record { key = key; value = value } ∷ rest

-- splitGormSections
unfoldable pub split_gorm_sections : Text → List GormSection
unfolding sections_of split_on
split_gorm_sections tag = sections_of (split_on 59 tag)

-- the loop of splitFieldList
unfoldable pub names_of : List Text → List Text
unfolding trim_space
names_of [] = []
names_of (p ∷ ps) =
    let item = trim_space p in let rest = names_of ps in if is_empty item then rest else item ∷ rest

-- splitFieldList
unfoldable pub split_field_list : Text → List Text
unfolding names_of split_on
split_field_list value = names_of (split_on 44 value)
