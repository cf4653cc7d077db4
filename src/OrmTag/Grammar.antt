-- ===== src/OrmTag/Grammar.antt =====
-- Which sequences of tokens parseFieldTag accepts.
use go_fast_framework.Common.{
  String, subst, ap, ◌∙◌, ◌≡◌, refl, Bool, true, false, not, ◌||◌, List, [], ◌∷◌, if◌then◌else◌,
}
use go_fast_framework.Cache.Memory.{bytes}
use go_fast_framework.OrmTag.Text.{to_upper, text_eq, Text}
use go_fast_framework.OrmTag.Split.{RawToken}
use go_fast_framework.OrmTag.Field.{
  FieldMeta, FieldError, Kind, k_ignore, k_read_only, k_write_only, k_pk, k_autoincr, k_notnull,
  k_null, k_not, k_index, k_unique, k_default, k_comment, k_created, k_updated, k_deleted,
  k_version, k_utc, k_local, k_extends, k_unsigned, k_collate, k_json, k_cache, k_type, k_unknown,
  words, sql_types, is_among, find_word, kind_of, is_null_word, Step, next, stop, not_alone,
  quoted_params, on_not, on_default, on_collate, on_kind, on_token,
}

-- How many tokens a bare token takes: itself, itself and a value, the NULL after NOT, or none at all.
pub data Use : Type 0 where
  alone with_value before_null never : Use

abbrev pub use_of : Kind → Use
use_of k_not = before_null
use_of k_default = with_value
use_of k_collate = with_value
use_of k_deleted = never
use_of k_cache = never
use_of k_unknown = never
use_of _ = alone

-- The words of tags, in upper case, and how they are used.
abbrev pub grammar : List (String × Use)
grammar =
    ("-", alone)
    ∷ ("<-", alone)
    ∷ ("->", alone)
    ∷ ("PK", alone)
    ∷ ("AUTOINCR", alone)
    ∷ ("NOTNULL", alone)
    ∷ ("NULL", alone)
    ∷ ("NOT", before_null)
    ∷ ("INDEX", alone)
    ∷ ("UNIQUE", alone)
    ∷ ("DEFAULT", with_value)
    ∷ ("COMMENT", alone)
    ∷ ("CREATED", alone)
    ∷ ("UPDATED", alone)
    ∷ ("DELETED", never)
    ∷ ("VERSION", alone)
    ∷ ("UTC", alone)
    ∷ ("LOCAL", alone)
    ∷ ("EXTENDS", alone)
    ∷ ("UNSIGNED", alone)
    ∷ ("COLLATE", with_value)
    ∷ ("JSON", alone)
    ∷ ("JSONB", alone)
    ∷ ("CACHE", never)
    ∷ ("NOCACHE", never)
    ∷ []

-- A word that is not among them is a SQL type, or is not accepted.
unfoldable pub find_use : Text → List (String × Use) → Use
unfolding bytes text_eq is_among
find_use name [] = if is_among name sql_types then alone else never
find_use name ((w, u) ∷ ws) =
    let rest = find_use name ws in if text_eq name (bytes w) then u else rest

-- How a bare token is used.
abbrev pub reading : Text → Use
reading name = find_use (to_upper name) grammar

abbrev pub is_null : Text → Bool
is_null name = text_eq (to_upper name) (bytes "NULL")

-- The grammar of tags.
pub data Accepted : List RawToken → Type 0 where
  nothing : Accepted []
  column :
      (t : RawToken) (ts : List RawToken)
      → t.quoted ≡ true
      → t.has_cond ≡ false
      → Accepted ts
      → Accepted (t ∷ ts)
  flag :
      (t : RawToken) (ts : List RawToken)
      → t.quoted ≡ false
      → reading t.name ≡ alone
      → Accepted ts
      → Accepted (t ∷ ts)
  not_null :
      (t u : RawToken) (ts : List RawToken)
      → t.quoted ≡ false
      → reading t.name ≡ before_null
      → u.quoted ≡ false
      → is_null u.name ≡ true
      → Accepted ts
      → Accepted (t ∷ u ∷ ts)
  value_inside :
      (t : RawToken) (p : Text) (ps : List Text) (ts : List RawToken)
      → t.quoted ≡ false
      → reading t.name ≡ with_value
      → t.params ≡ p ∷ ps
      → Accepted ts
      → Accepted (t ∷ ts)
  value_after :
      (t u : RawToken) (ts : List RawToken)
      → t.quoted ≡ false
      → reading t.name ≡ with_value
      → t.params ≡ []
      → Accepted ts
      → Accepted (t ∷ u ∷ ts)

-- What the switch does on a kind, by its use: a round that goes on, or an error.
pub data Round : Use → RawToken → List RawToken → Step → Type 0 where
  goes_on : (t : RawToken) (ts : List RawToken) (m : FieldMeta) → Round alone t ts (next m false)
  takes_inside :
      (t : RawToken) (p : Text) (ps : List Text) (ts : List RawToken) (m : FieldMeta)
      → t.params ≡ p ∷ ps
      → Round with_value t ts (next m false)
  takes_next :
      (t u : RawToken) (ts : List RawToken) (m : FieldMeta)
      → t.params ≡ []
      → Round with_value t (u ∷ ts) (next m true)
  lacks_value :
      (t : RawToken) (m : FieldMeta) (e : FieldError)
      → t.params ≡ []
      → Round with_value t [] (stop m e)
  takes_null :
      (t u : RawToken) (ts : List RawToken) (m : FieldMeta)
      → u.quoted ≡ false
      → is_null_word u.name ≡ true
      → Round before_null t (u ∷ ts) (next m true)
  lacks_null :
      (t u : RawToken) (ts : List RawToken) (m : FieldMeta) (e : FieldError)
      → (u.quoted || not (is_null_word u.name)) ≡ true
      → Round before_null t (u ∷ ts) (stop m e)
  ends_early : (t : RawToken) (m : FieldMeta) (e : FieldError) → Round before_null t [] (stop m e)
  refuses :
      (t : RawToken) (ts : List RawToken) (m : FieldMeta) (e : FieldError)
      → Round never t ts (stop m e)

default-Round :
    (t : RawToken) (ps : List Text) (ts : List RawToken) (m : FieldMeta)
    → t.params ≡ ps
    → Round with_value t ts (on_default ps ts m)
default-Round t [] [] m e = lacks_value t m _ e
default-Round t [] (u ∷ us) m e = takes_next t u us _ e
default-Round t (p ∷ ps) ts m e = takes_inside t p ps ts _ e

collate-Round :
    (t : RawToken) (ps : List Text) (ts : List RawToken) (m : FieldMeta)
    → t.params ≡ ps
    → Round with_value t ts (on_collate ps ts m)
collate-Round t [] [] m e = lacks_value t m _ e
collate-Round t [] (u ∷ us) m e = takes_next t u us _ e
collate-Round t (p ∷ ps) ts m e = takes_inside t p ps ts _ e

or_not-false : (a b : Bool) → (a || not b) ≡ false → (a ≡ false) × (b ≡ true)
or_not-false false true e = (refl, refl)
or_not-false true b e = absurd cc
or_not-false false false e = absurd cc

not-Round :
    (t : RawToken) (ts : List RawToken) (m : FieldMeta) → Round before_null t ts (on_not ts m)
not-Round t [] m = ends_early t m _
not-Round t (u ∷ us) m = by_test (u.quoted || not (is_null_word u.name)) refl
  where
    by_test :
        (b : Bool)
        → (u.quoted || not (is_null_word u.name)) ≡ b
        → Round before_null t
            (u ∷ us)
            (if b then stop m not_alone else next (record m { not_null = true }) true)
    by_test true e = lacks_null t u us m _ e
    by_test false e =
        let both = or_not-false u.quoted (is_null_word u.name) e in
        takes_null t u us _ both.0 both.1

on_kind-Round :
    (k : Kind) (t : RawToken) (ts : List RawToken) (m : FieldMeta)
    → Round (use_of k) t ts (on_kind k t ts m)
unfolding on_kind
on_kind-Round k_ignore t ts m = goes_on t ts _
on_kind-Round k_read_only t ts m = goes_on t ts _
on_kind-Round k_write_only t ts m = goes_on t ts _
on_kind-Round k_pk t ts m = goes_on t ts _
on_kind-Round k_autoincr t ts m = goes_on t ts _
on_kind-Round k_notnull t ts m = goes_on t ts _
on_kind-Round k_null t ts m = goes_on t ts _
on_kind-Round k_not t ts m = not-Round t ts m
on_kind-Round k_index t ts m = goes_on t ts _
on_kind-Round k_unique t ts m = goes_on t ts _
on_kind-Round k_default t ts m = default-Round t t.params ts m refl
on_kind-Round k_comment t ts m = goes_on t ts _
on_kind-Round k_created t ts m = goes_on t ts _
on_kind-Round k_updated t ts m = goes_on t ts _
on_kind-Round k_deleted t ts m = refuses t ts m _
on_kind-Round k_version t ts m = goes_on t ts _
on_kind-Round k_utc t ts m = goes_on t ts _
on_kind-Round k_local t ts m = goes_on t ts _
on_kind-Round k_extends t ts m = goes_on t ts _
on_kind-Round k_unsigned t ts m = goes_on t ts _
on_kind-Round k_collate t ts m = collate-Round t t.params ts m refl
on_kind-Round k_json t ts m = goes_on t ts _
on_kind-Round k_cache t ts m = refuses t ts m _
on_kind-Round k_type t ts m = goes_on t ts _
on_kind-Round k_unknown t ts m = refuses t ts m _

-- The words of some cases of the switch, with the uses of their kinds.
abbrev uses_of : List (String × Kind) → List (String × Use)
uses_of [] = []
uses_of ((w, k) ∷ ws) = (w, use_of k) ∷ uses_of ws

use_of-find_word :
    (name : Text) (ws : List (String × Kind))
    → use_of (find_word name ws) ≡ find_use name (uses_of ws)
unfolding find_word find_use
use_of-find_word name [] = by_test (is_among name sql_types)
  where
    by_test : (b : Bool) → use_of (if b then k_type else k_unknown) ≡ (if b then alone else never)
    by_test true = refl
    by_test false = refl
use_of-find_word name ((w, k) ∷ ws) = by_test (text_eq name (bytes w)) (use_of-find_word name ws)
  where
    by_test :
        (b : Bool)
        → use_of (find_word name ws) ≡ find_use name (uses_of ws)
        → use_of (if b then k else find_word name ws)
          ≡ (if b then use_of k else find_use name (uses_of ws))
    by_test true ih = refl
    by_test false ih = ih

-- The cases of the switch use the words as the grammar does.
uses_of-words : uses_of words ≡ grammar
uses_of-words = refl

use_of-kind_of : (name : Text) → use_of (kind_of name) ≡ reading name
unfolding kind_of
use_of-kind_of name =
    use_of-find_word (to_upper name) words ∙ ap (find_use (to_upper name)) uses_of-words

-- The round that takes a bare token, by the use of its kind.
pub on_token-Round :
    (t : RawToken) (ts : List RawToken) (m : FieldMeta)
    → t.quoted ≡ false
    → (s : Step) × ((on_token t ts m ≡ s) × Round (reading t.name) t ts s)
unfolding on_token
on_token-Round t ts m e = (
  on_kind (kind_of t.name) t ts m,
  (
    bare _ (on_kind (kind_of t.name) t ts m) t.quoted e,
    subst (λ u. Round u t ts (on_kind (kind_of t.name) t ts m)) (use_of-kind_of t.name)
        (on_kind-Round (kind_of t.name) t ts m),
  ),
)
  where
    bare : (s' s : Step) (b : Bool) → b ≡ false → (if b then s' else s) ≡ s
    bare s' s b e = rw e

pub on_token_quoted :
    (t : RawToken) (ts : List RawToken) (m : FieldMeta)
    → t.quoted ≡ true
    → on_token t ts m ≡ (
        if t.has_cond then stop m quoted_params else next (record m { column_name = t.name }) false)
unfolding on_token
on_token_quoted t ts m e = held _ _ t.quoted e
  where
    held : (s s' : Step) (b : Bool) → b ≡ true → (if b then s else s') ≡ s
    held s s' b e = rw e
