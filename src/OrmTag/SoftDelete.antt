-- ===== src/OrmTag/SoftDelete.antt =====
-- contracts/ormtag/parser.go: parseSdTag, and meta.go: SdMeta with its conditions and values. Of
-- reflect.Type there is what the code asks for.
use go_fast_framework.Common.{
  ℕ, Bool, true, false, not, ◌&&◌, ◌||◌, List, [], ◌∷◌, ◌++◌, Option, none, some, leb,
  if◌then◌else◌,
}
use go_fast_framework.Cache.Memory.{bytes}
use go_fast_framework.OrmTag.Text.{Text, trim_space, to_lower, text_eq}

-- SdMode
pub data SdMode : Type 0 where
  sec milli nano flag time : SdMode

-- SdMeta
pub record SdMeta : Type 0 where
  pub mode : SdMode
  pub field_index : List ℕ
  pub time_based : Bool

-- the type of a field: time.Time, a type of some other reflect.Kind, or a pointer
pub data GoType : Type 0 where
  time_type : GoType
  of_kind : ℕ → GoType
  pointer : GoType → GoType

-- the loop over fieldType.Elem()
abbrev pub deref : GoType → GoType
deref time_type = time_type
deref (of_kind k) = of_kind k
deref (pointer t) = deref t

-- deref == reflect.TypeOf(time.Time{})
abbrev pub is_time_type : GoType → Bool
is_time_type time_type = true
is_time_type _ = false

-- reflect.Int to reflect.Int64 are 2 to 6, and reflect.Uint to reflect.Uint64 are 7 to 11
abbrev pub is_int_type : GoType → Bool
is_int_type (of_kind k) = (leb 2 k && leb k 6) || (leb 7 k && leb k 11)
is_int_type _ = false

-- the mode of a tag, none when it is unknown
unfoldable pub mode_of : Text → Option SdMode
unfolding trim_space to_lower text_eq bytes
mode_of tag =
    let m = to_lower (trim_space tag) in
    if text_eq m []
    then some sec
    else if text_eq m (bytes "sec")
    then some sec
    else if text_eq m (bytes "milli")
    then some milli
    else if text_eq m (bytes "nano")
    then some nano
    else if text_eq m (bytes "flag")
    then some flag
    else if text_eq m (bytes "time")
    then some time
    else none

abbrev pub is_time : SdMode → Bool
is_time time = true
is_time _ = false

pub data SdError : Type 0 where
  unknown_mode needs_time time_field needs_integer : SdError

pub data SdResult : Type 0 where
  sd_meta : SdMeta → SdResult
  sd_error : SdError → SdResult

-- the checks of a mode against a type
abbrev pub check_mode : SdMode → Bool → Bool → List ℕ → SdResult
check_mode mode time_based int_based index =
    if is_time mode && not time_based
    then sd_error needs_time
    else if not (is_time mode) && time_based
    then sd_error time_field
    else if not (is_time mode) && not int_based
    then sd_error needs_integer
    else sd_meta (record { mode = mode; field_index = index; time_based = time_based })

-- parseSdTag
unfoldable pub parse_sd_tag : Text → GoType → List ℕ → SdResult
unfolding mode_of
parse_sd_tag tag typ index = elim (mode_of tag) [
  | none ↦ sd_error unknown_mode
  | some mode ↦ check_mode mode (is_time_type (deref typ)) (is_int_type (deref typ)) index
]

-- A condition and its arguments, int64 values.
pub record Condition : Type 0 where
  pub sql : Text
  pub args : List ℕ

-- The values of a column: NULL, an int64, or a time.
pub data Value : Type 0 where
  null : Value
  number : ℕ → Value
  instant : ℕ → Value

-- AliveCond
unfoldable pub alive_cond : SdMeta → Text → Condition
unfolding bytes
alive_cond m column =
    if m.time_based
    then record { sql = column ++ bytes " IS NULL"; args = [] }
    else record { sql = column ++ bytes " = ?"; args = 0 ∷ [] }

abbrev pub is_flag : SdMode → Bool
is_flag flag = true
is_flag _ = false

-- TrashedCond
unfoldable pub trashed_cond : SdMeta → Text → Condition
unfolding bytes
trashed_cond m column =
    if m.time_based
    then record { sql = column ++ bytes " IS NOT NULL"; args = [] }
    else if is_flag m.mode
    then record { sql = column ++ bytes " = ?"; args = 1 ∷ [] }
    else record { sql = column ++ bytes " <> ?"; args = 0 ∷ [] }

-- AliveValue
unfoldable pub alive_value : SdMeta → Value
alive_value m = if m.time_based then null else number 0

-- the readings of a time.Time: the time itself, Unix, UnixMilli and UnixNano
pub record Moment : Type 0 where
  pub self : ℕ
  pub unix : ℕ
  pub unix_milli : ℕ
  pub unix_nano : ℕ

-- DeletedValue
unfoldable pub deleted_value : SdMeta → Moment → Value
deleted_value m now = elim m.mode [
  | milli ↦ number now.unix_milli
  | nano ↦ number now.unix_nano
  | flag ↦ number 1
  | time ↦ instant now.self
  | sec ↦ number now.unix
]
