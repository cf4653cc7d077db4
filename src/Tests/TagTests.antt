-- ===== src/Tests/TagTests.antt =====
-- Ext and sd tags on small inputs.
use go_fast_framework.Common.{◌^◌, ◌-◌, ◌≡◌, refl, false, some, [], ◌∷◌, arith}
use go_fast_framework.Cache.Memory.{bytes}
use go_fast_framework.OrmTag.Text.{Text, trim_space, to_lower, text_eq}
use go_fast_framework.OrmTag.Sections.{
  split_gorm_sections, sections_of, split_on, before_colon, after_colon, names_of, split_field_list,
}
use go_fast_framework.OrmTag.Ext.{
  digits_from, digits, parse_int, find_key, permit, on_ext_key, ext_sections, parse_ext_tag,
}
use go_fast_framework.OrmTag.SoftDelete.{
  SdMeta, flag, of_kind, pointer, time_type, mode_of, parse_sd_tag, sd_error, time_field,
  alive_cond, trashed_cond, alive_value, deleted_value,
}
use go_fast_framework.OrmTag.Trashed.{Separates, parse_sd_tag-Separates}

program : Unit {0}
unfolding bytes trim_space to_lower text_eq split_gorm_sections sections_of split_on before_colon
    after_colon names_of split_field_list digits_from digits parse_int find_key permit on_ext_key
    ext_sections parse_ext_tag mode_of parse_sd_tag
program = tt

abbrev ext : Text
ext = bytes "color:red; perm:create,update;color:blue;autoIncrementIncrement:-5"

-- A key that is not known is listed as often as it is there.
unknown_twice : (parse_ext_tag ext).meta.unknown_keys ≡ bytes "color" ∷ bytes "color" ∷ []
unfolding program
unknown_twice = refl

minus_five : (parse_ext_tag ext).meta.auto_increment_increment ≡ 2 ^ 64 - 5
unfolding program
minus_five = refl

too_large :
    (parse_ext_tag (bytes "autoIncrementIncrement:9223372036854775808")).error
    ≡ some (bytes "9223372036854775808")
unfolding program
too_large = refl

wrong_type : parse_sd_tag (bytes " Milli ") (pointer time_type) [] ≡ sd_error time_field
unfolding program
wrong_type = refl

abbrev by_flag : SdMeta
by_flag = record { mode = flag; field_index = 2 ∷ []; time_based = false }

parse_sd_tag-Separates_example :
    Separates
      (bytes "gone")
      (alive_cond by_flag (bytes "gone"))
      (trashed_cond by_flag (bytes "gone"))
      (alive_value by_flag)
      (deleted_value by_flag
        (record { self = 9; unix = 1; unix_milli = 1000; unix_nano = 1000000000 }))
unfolding program
parse_sd_tag-Separates_example =
    parse_sd_tag-Separates (bytes "FLAG") (of_kind 8) (2 ∷ []) by_flag (bytes "gone")
      (record { self = 9; unix = 1; unix_milli = 1000; unix_nano = 1000000000 }) refl
      (λ e. omega arith) (λ e. omega arith) (λ e. omega arith)
