-- ===== src/Tests/OrmTagTests.antt =====
-- contracts/ormtag/ on small tags.
use go_fast_framework.Common.{◌≡◌, ◌≢◌, ◌↔◌, refl, true, false, none, some, List, [], ◌∷◌, map}
use go_fast_framework.Cache.Memory.{bytes}
use go_fast_framework.OrmTag.Text.{Text, trim_space, to_upper, to_lower, text_eq, slice}
use go_fast_framework.OrmTag.Split.{
  RawToken, got, failed, panicked, comma_position, open_quote, on_byte, on_quote, on_space,
  on_comma, on_open, on_close, on_other, append_child, flush, scan, finish, split_tag, unquote,
  unquote_param, replace_quotes, strip_quotes,
}
use go_fast_framework.OrmTag.Field.{
  parse_tokens, parse_field_tag, on_token, on_kind, kind_of, find_word, is_among, is_null_word,
  no_meta, deleted_forbidden,
}
use go_fast_framework.OrmTag.Bounds.{split_tag_ends}
use go_fast_framework.OrmTag.Printed.{
  Token, word, quoted, call, escape, print_params, print_token, print_tokens, meant,
}
use go_fast_framework.OrmTag.Tokens.{split_tag-print_tokens}
use go_fast_framework.OrmTag.Grammar.{Accepted}
use go_fast_framework.OrmTag.Accepts.{parse_tokens-Accepted}
use go_fast_framework.OrmTag.Sections.{
  split_gorm_sections, sections_of, split_on, before_colon, after_colon, names_of, split_field_list,
}
use go_fast_framework.OrmTag.Relations.{
  find_key, rel_key_of, on_rel_key, on_gorm_key, rel_sections, gorm_sections, validate_rel_pair,
  unequal, parse_rel_tag, parse_gorm_assoc_tag,
}
use go_fast_framework.OrmTag.Fallback.{has_assoc_key, fallback, parse_gorm_assoc_tag_lem}

program : Unit {0}
unfolding bytes trim_space to_upper to_lower text_eq slice on_byte on_quote on_space on_comma
    on_open on_close on_other append_child flush scan finish split_tag unquote unquote_param
    replace_quotes strip_quotes parse_tokens parse_field_tag on_token on_kind kind_of find_word
    is_among is_null_word escape print_params print_token print_tokens split_gorm_sections
    sections_of split_on before_colon after_colon names_of split_field_list find_key rel_key_of
    on_rel_key on_gorm_key rel_sections gorm_sections validate_rel_pair parse_rel_tag
    parse_gorm_assoc_tag has_assoc_key
program = tt

-- pk 'a b' decimal(10,2)
abbrev tokens : List Token
tokens =
    quoted (97 ∷ 32 ∷ 39 ∷ 98 ∷ []) ∷ call 100 (101 ∷ 99 ∷ []) (49 ∷ 48 ∷ []) ((50 ∷ []) ∷ []) ∷ []

written : print_tokens (word 112 (107 ∷ [])) tokens ≡ bytes "pk 'a ''b' dec(10,2)"
unfolding program
written = refl

split_tag-print_tokens_example :
    split_tag (print_tokens (word 112 (107 ∷ [])) tokens)
    ≡ got (map meant (word 112 (107 ∷ []) ∷ tokens))
split_tag-print_tokens_example = split_tag-print_tokens (word 112 (107 ∷ [])) tokens (
  ((refl, (refl, (refl, (refl, refl)))), ((refl, (refl, (refl, (refl, refl)))), tt)),
  (
    tt,
    (
      (
        (
          (refl, (refl, (refl, (refl, refl)))),
          ((refl, (refl, (refl, (refl, refl)))), ((refl, (refl, (refl, (refl, refl)))), tt)),
        ),
        (
          ((refl, (refl, (refl, (refl, refl)))), ((refl, (refl, (refl, (refl, refl)))), tt)),
          (((refl, (refl, (refl, (refl, refl)))), tt), tt),
        ),
      ),
      tt,
    ),
  ),
)

split_tag_ends_example : split_tag (bytes "'name'(10) (x") ≢ panicked
split_tag_ends_example = split_tag_ends (bytes "'name'(10) (x")

comma : split_tag (bytes "pk,notnull") ≡ failed (comma_position 2)
unfolding program
comma = refl

unclosed : split_tag (bytes "comment('it") ≡ failed open_quote
unfolding program
unclosed = refl

-- Text after a closing quote is dropped from the name, and no error is given.
glued :
    split_tag (bytes "'name'pk")
    ≡ got (
        record {
          name = bytes "name";
          quoted = true;
          params = [];
          raw = bytes "'name'pk";
          has_cond = false;
        }
        ∷ [])
unfolding program
glued = refl

-- A space inside parentheses starts the parameter again.
lost_word :
    split_tag (bytes "comment(hello world)")
    ≡ got (
        record {
          name = bytes "comment";
          quoted = false;
          params = bytes "world" ∷ [];
          raw = bytes "comment(hello world)";
          has_cond = true;
        }
        ∷ [])
unfolding program
lost_word = refl

abbrev raw : Text → RawToken
raw name = record { name = name; quoted = false; params = []; raw = name; has_cond = false }

parse_tokens-Accepted_example :
    ((parse_tokens false
        (raw (bytes "pk") ∷ raw (bytes "default") ∷ raw (bytes "deleted") ∷ [])
        (no_meta [])).error
      ≡ none)
    ↔ Accepted (raw (bytes "pk") ∷ raw (bytes "default") ∷ raw (bytes "deleted") ∷ [])
parse_tokens-Accepted_example =
    parse_tokens-Accepted (raw (bytes "pk") ∷ raw (bytes "default") ∷ raw (bytes "deleted") ∷ [])
      (no_meta [])

a_value :
    (parse_tokens false
      (raw (bytes "pk") ∷ raw (bytes "default") ∷ raw (bytes "deleted") ∷ [])
      (no_meta [])).error
    ≡ none
unfolding program
a_value = refl

forbidden :
    (parse_tokens false (raw (bytes "deleted") ∷ []) (no_meta [])).error ≡ some deleted_forbidden
unfolding program
forbidden = refl

abbrev gorm_tag : Text
gorm_tag = bytes "column:x; foreignKey:A,B; references:C;constraint:OnDelete:CASCADE"

pair_error : (parse_gorm_assoc_tag gorm_tag).error ≡ some (unequal 2 1)
unfolding program
pair_error = refl

kept_constraint : (parse_rel_tag gorm_tag).0.constraint ≡ bytes "OnDelete:CASCADE"
unfolding program
kept_constraint = refl

parse_gorm_assoc_tag_lem_example :
    parse_gorm_assoc_tag gorm_tag
    ≡ fallback (has_assoc_key (split_gorm_sections gorm_tag)) (parse_rel_tag gorm_tag).0
parse_gorm_assoc_tag_lem_example = parse_gorm_assoc_tag_lem gorm_tag
