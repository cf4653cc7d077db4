-- ===== src/OrmTag/Field.antt =====
-- contracts/ormtag/parser.go: parseFieldTag, ParseField and the list of SQL types. An error keeps what
-- its message is about; the names of the field and the tag in messages are left out.
use go_fast_framework.Common.{
  String, Bool, true, false, not, ◌||◌, List, [], ◌∷◌, Option, none, some, if◌then◌else◌,
}
use go_fast_framework.Cache.Memory.{bytes}
use go_fast_framework.OrmTag.Text.{Text, trim_space, to_upper, text_eq}
use go_fast_framework.OrmTag.Split.{
  RawToken, SyntaxError, Result, got, failed, panicked, unquote_param, split_tag,
}

-- FieldMeta, without FieldIndex
pub record FieldMeta : Type 0 where
  pub field_name : Text
  pub column_name : Text
  pub ignore : Bool
  pub primary_key : Bool
  pub auto_increment : Bool
  pub typ : Text
  pub not_null : Bool
  pub is_null : Bool
  pub unique : Bool
  pub unique_name : Text
  pub index : Bool
  pub index_name : Text
  pub default_value : Text
  pub has_default : Bool
  pub comment : Text
  pub created : Bool
  pub updated : Bool
  pub version : Bool
  pub extends : Bool
  pub extends_prefix : Text
  pub unsigned : Bool
  pub collate : Text
  pub json : Bool
  pub utc : Bool
  pub local : Bool
  pub read_only : Bool
  pub write_only : Bool
  pub raw_tag : Text

-- FieldMeta{RawTag: tag}
abbrev pub no_meta : Text → FieldMeta
no_meta tag = record {
  field_name = [];
  column_name = [];
  ignore = false;
  primary_key = false;
  auto_increment = false;
  typ = [];
  not_null = false;
  is_null = false;
  unique = false;
  unique_name = [];
  index = false;
  index_name = [];
  default_value = [];
  has_default = false;
  comment = [];
  created = false;
  updated = false;
  version = false;
  extends = false;
  extends_prefix = [];
  unsigned = false;
  collate = [];
  json = false;
  utc = false;
  local = false;
  read_only = false;
  write_only = false;
  raw_tag = tag;
}

-- The cases of the switch on a bare token.
pub data Kind : Type 0 where
  k_ignore k_read_only k_write_only k_pk k_autoincr k_notnull k_null k_not k_index k_unique : Kind
  k_default k_comment k_created k_updated k_deleted k_version k_utc k_local k_extends : Kind
  k_unsigned k_collate k_json k_cache k_type k_unknown : Kind

-- sqlTypeWhitelist
abbrev pub sql_types : List String
sql_types =
    "BIT" ∷ "TINYINT" ∷ "SMALLINT" ∷ "MEDIUMINT" ∷ "INT" ∷ "INTEGER" ∷ "BIGINT" ∷ "NUMBER" ∷ "INT8"
    ∷ "ENUM" ∷ "SET" ∷ "XML" ∷ "CHAR" ∷ "NCHAR" ∷ "VARCHAR" ∷ "VARCHAR2" ∷ "NVARCHAR" ∷ "TINYTEXT"
    ∷ "TEXT" ∷ "NTEXT" ∷ "MEDIUMTEXT" ∷ "LONGTEXT" ∷ "UUID" ∷ "CLOB" ∷ "SYSNAME" ∷ "DATE"
    ∷ "DATETIME" ∷ "TIME" ∷ "TIMESTAMP" ∷ "TIMESTAMPZ" ∷ "SMALLDATETIME" ∷ "YEAR" ∷ "DECIMAL"
    ∷ "NUMERIC" ∷ "REAL" ∷ "FLOAT" ∷ "DOUBLE" ∷ "MONEY" ∷ "SMALLMONEY" ∷ "BINARY" ∷ "VARBINARY"
    ∷ "TINYBLOB" ∷ "BLOB" ∷ "MEDIUMBLOB" ∷ "LONGBLOB" ∷ "BYTEA" ∷ "UNIQUEIDENTIFIER" ∷ "BOOL"
    ∷ "BOOLEAN" ∷ "SERIAL" ∷ "BIGSERIAL" ∷ "ARRAY" ∷ []

-- Whether a name is among some words.
unfoldable pub is_among : Text → List String → Bool
unfolding bytes text_eq
is_among name [] = false
is_among name (w ∷ ws) =
    let rest = is_among name ws in if text_eq name (bytes w) then true else rest

-- the words of the switch, in its order
abbrev pub words : List (String × Kind)
words =
    ("-", k_ignore)
    ∷ ("<-", k_read_only)
    ∷ ("->", k_write_only)
    ∷ ("PK", k_pk)
    ∷ ("AUTOINCR", k_autoincr)
    ∷ ("NOTNULL", k_notnull)
    ∷ ("NULL", k_null)
    ∷ ("NOT", k_not)
    ∷ ("INDEX", k_index)
    ∷ ("UNIQUE", k_unique)
    ∷ ("DEFAULT", k_default)
    ∷ ("COMMENT", k_comment)
    ∷ ("CREATED", k_created)
    ∷ ("UPDATED", k_updated)
    ∷ ("DELETED", k_deleted)
    ∷ ("VERSION", k_version)
    ∷ ("UTC", k_utc)
    ∷ ("LOCAL", k_local)
    ∷ ("EXTENDS", k_extends)
    ∷ ("UNSIGNED", k_unsigned)
    ∷ ("COLLATE", k_collate)
    ∷ ("JSON", k_json)
    ∷ ("JSONB", k_json)
    ∷ ("CACHE", k_cache)
    ∷ ("NOCACHE", k_cache)
    ∷ []

unfoldable pub find_word : Text → List (String × Kind) → Kind
unfolding bytes text_eq is_among
find_word name [] = if is_among name sql_types then k_type else k_unknown
find_word name ((w, k) ∷ ws) =
    let rest = find_word name ws in if text_eq name (bytes w) then k else rest

-- the case that a token's name takes
unfoldable pub kind_of : Text → Kind
unfolding find_word to_upper
kind_of name = find_word (to_upper name) words

-- The errors of parseFieldTag.
pub data FieldError : Type 0 where
  syntax_error : SyntaxError → FieldError
  quoted_params not_alone default_missing collate_missing : FieldError
  deleted_forbidden : FieldError
  cache_forbidden unknown_token : Text → FieldError

-- One round of the loop: the meta data, and whether the next token was used as well; or an error.
pub data Step : Type 0 where
  next : FieldMeta → Bool → Step
  stop : FieldMeta → FieldError → Step

-- tok.params[0] when tok.hasCond
abbrev pub first_param : List Text → Option Text
first_param [] = none
first_param (p ∷ ps) = some (unquote_param p)

-- what a value is without and with parentheses
abbrev pub or_old : Text → Option Text → Text
or_old old none = old
or_old old (some p) = p

-- strings.EqualFold(name, "null")
unfoldable pub is_null_word : Text → Bool
unfolding to_upper text_eq bytes
is_null_word name = text_eq (to_upper name) (bytes "NULL")

abbrev pub on_not : List RawToken → FieldMeta → Step
on_not [] m = stop m not_alone
on_not (t ∷ ts) m =
    if t.quoted || not (is_null_word t.name)
    then stop m not_alone
    else next (record m { not_null = true }) true

abbrev pub on_default : List Text → List RawToken → FieldMeta → Step
on_default (p ∷ ps) ts m =
    next (record m { default_value = unquote_param p; has_default = true }) false
on_default [] [] m = stop m default_missing
on_default [] (t ∷ ts) m = next (record m { default_value = t.name; has_default = true }) true

abbrev pub on_collate : List Text → List RawToken → FieldMeta → Step
on_collate (p ∷ ps) ts m = next (record m { collate = unquote_param p }) false
on_collate [] [] m = stop m collate_missing
on_collate [] (t ∷ ts) m = next (record m { collate = t.name }) true

-- The switch; `ts` are the tokens that follow.
unfoldable pub on_kind : Kind → RawToken → List RawToken → FieldMeta → Step
unfolding unquote_param is_null_word
on_kind k_ignore t ts m = next (record m { ignore = true }) false
on_kind k_read_only t ts m = next (record m { read_only = true }) false
on_kind k_write_only t ts m = next (record m { write_only = true }) false
on_kind k_pk t ts m = next (record m { primary_key = true }) false
on_kind k_autoincr t ts m = next (record m { auto_increment = true }) false
on_kind k_notnull t ts m = next (record m { not_null = true }) false
on_kind k_null t ts m = next (record m { is_null = true }) false
on_kind k_not t ts m = on_not ts m
on_kind k_index t ts m =
    next (record m { index = true; index_name = or_old m.index_name (first_param t.params) }) false
on_kind k_unique t ts m =
    next (record m { unique = true; unique_name = or_old m.unique_name (first_param t.params) })
      false
on_kind k_default t ts m = on_default t.params ts m
on_kind k_comment t ts m =
    next (record m { comment = or_old m.comment (first_param t.params) }) false
on_kind k_created t ts m = next (record m { created = true }) false
on_kind k_updated t ts m = next (record m { updated = true }) false
on_kind k_deleted t ts m = stop m deleted_forbidden
on_kind k_version t ts m = next (record m { version = true }) false
on_kind k_utc t ts m = next (record m { utc = true }) false
on_kind k_local t ts m = next (record m { local = true }) false
on_kind k_extends t ts m =
    next
      (record m { extends = true; extends_prefix = or_old m.extends_prefix (first_param t.params) })
      false
on_kind k_unsigned t ts m = next (record m { unsigned = true }) false
on_kind k_collate t ts m = on_collate t.params ts m
on_kind k_json t ts m = next (record m { json = true }) false
on_kind k_cache t ts m = stop m (cache_forbidden t.name)
on_kind k_type t ts m = next (record m { typ = t.raw }) false
on_kind k_unknown t ts m = stop m (unknown_token t.raw)

-- The body of the loop.
unfoldable pub on_token : RawToken → List RawToken → FieldMeta → Step
unfolding on_kind kind_of
on_token t ts m =
    if t.quoted
    then (if t.has_cond
        then stop m quoted_params
        else next (record m { column_name = t.name }) false)
    else on_kind (kind_of t.name) t ts m

-- What parseFieldTag returns: the meta data so far, and the error or none.
pub record Parsed : Type 0 where
  pub meta : FieldMeta
  pub error : Option FieldError

-- The loop over the tokens; the flag is that of an `i++` in the body.
unfoldable pub parse_tokens : Bool → List RawToken → FieldMeta → Parsed
unfolding on_token
parse_tokens skip [] m = record { meta = m; error = none }
parse_tokens true (t ∷ ts) m = parse_tokens false ts m
parse_tokens false (t ∷ ts) m = elim (on_token t ts m) [
  | next m' skip ↦ parse_tokens skip ts m'
  | stop m' e ↦ record { meta = m'; error = some e }
]

abbrev pub parse_split : Text → Result (List RawToken) → Option Parsed
parse_split tag (got ts) = some (parse_tokens false ts (no_meta tag))
parse_split tag (failed e) = some (record { meta = no_meta tag; error = some (syntax_error e) })
parse_split tag panicked = none

-- parseFieldTag; none is a panic
unfoldable pub parse_field_tag : Text → Option Parsed
unfolding parse_tokens split_tag trim_space
parse_field_tag tag_str = let tag = trim_space tag_str in parse_split tag (split_tag tag)
