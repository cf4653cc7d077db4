-- ===== src/OrmTag/Trashed.antt =====
-- Rows that are deleted softly and restored, by the conditions that the queries use.
use go_fast_framework.Common.{
  ℕ, ◌≡◌, ◌≢◌, refl, sym, ap, subst, ◌∙◌, Bool, true, false, not, ◌&&◌, List, [], ◌∷◌, ◌++◌, Option,
  none, some, ◌==◌, ==_iff, length, drop, if◌then◌else◌, Bool-cases, inl, inr,
}
use go_fast_framework.Cache.Memory.{bytes}
use go_fast_framework.OrmTag.Text.{Text, text_eq}
use go_fast_framework.OrmTag.Printed.{drop-append}
use go_fast_framework.OrmTag.SoftDelete.{
  SdMode, sec, milli, nano, flag, time, SdMeta, GoType, deref, is_time_type, is_int_type, mode_of,
  is_time, unknown_mode, needs_time, time_field, needs_integer, SdResult, sd_meta, sd_error,
  check_mode, parse_sd_tag, Condition, Value, null, number, instant, alive_cond, trashed_cond,
  alive_value, Moment, deleted_value,
}

-- What a database makes of a condition on a column: of `IS NULL`, `IS NOT NULL`, `= ?` and `<> ?`, the
-- last two of which do not hold for NULL.
abbrev is_null : Value → Bool
is_null null = true
is_null _ = false

abbrev equals : List ℕ → Value → Bool
equals (n ∷ []) (number k) = n == k
equals _ _ = false

abbrev differs : List ℕ → Value → Bool
differs (n ∷ []) (number k) = not (n == k)
differs _ _ = false

unfoldable pub holds_for : Text → List ℕ → Value → Bool
unfolding bytes text_eq
holds_for operator args v =
    if text_eq operator (bytes " IS NULL")
    then is_null v
    else if text_eq operator (bytes " IS NOT NULL")
    then not (is_null v)
    else if text_eq operator (bytes " = ?")
    then equals args v
    else if text_eq operator (bytes " <> ?")
    then differs args v
    else false

unfoldable pub holds : Text → Condition → Value → Bool
unfolding holds_for
holds column c v = holds_for (drop (length column) c.sql) c.args v

holds_at :
    (column operator : Text) (args : List ℕ) (v : Value)
    → holds column (record { sql = column ++ operator; args = args }) v ≡ holds_for operator args v
unfolding holds
holds_at column operator args v = ap (λ x. holds_for x args v) (drop-append column operator)

abbrev IsConsistent : SdResult → Type 0
IsConsistent (sd_error e) = Unit
IsConsistent (sd_meta m) = m.time_based ≡ is_time m.mode

check_mode-IsConsistent :
    (mode : SdMode) (time_based int_based : Bool) (index : List ℕ)
    → IsConsistent (check_mode mode time_based int_based index)
check_mode-IsConsistent mode time_based int_based index =
    by_test (is_time mode) time_based int_based refl
  where
    by_test :
        (t tb ib : Bool)
        → is_time mode ≡ t
        → IsConsistent (
            if t && not tb
            then sd_error needs_time
            else if not t && tb
            then sd_error time_field
            else if not t && not ib
            then sd_error needs_integer
            else sd_meta (record { mode = mode; field_index = index; time_based = tb }))
    by_test true true ib e = sym e
    by_test true false ib e = tt
    by_test false true ib e = tt
    by_test false false true e = sym e
    by_test false false false e = tt

parse_sd_tag-IsConsistent :
    (tag : Text) (typ : GoType) (index : List ℕ) → IsConsistent (parse_sd_tag tag typ index)
unfolding parse_sd_tag
parse_sd_tag-IsConsistent tag typ index = by_mode (mode_of tag)
  where
    by_mode :
        (o : Option SdMode)
        → IsConsistent (elim o [
          | none ↦ sd_error unknown_mode
          | some mode ↦ check_mode mode (is_time_type (deref typ)) (is_int_type (deref typ)) index
        ])
    by_mode none = tt
    by_mode (some mode) =
        check_mode-IsConsistent mode (is_time_type (deref typ)) (is_int_type (deref typ)) index

-- The two conditions on a value of a row that is alive and one that is deleted.
abbrev pub Separates : Text → Condition → Condition → Value → Value → Type 0
Separates column alive trashed kept deleted =
    ((holds column alive kept ≡ true) × (holds column trashed kept ≡ false))
    × ((holds column alive deleted ≡ false) × (holds column trashed deleted ≡ true))

abbrev sql_at : Text → Text → List ℕ → Condition
sql_at column operator args = record { sql = column ++ operator; args = args }

by_time :
    (column : Text) (t : ℕ)
    → Separates column
        (sql_at column (bytes " IS NULL") [])
        (sql_at column (bytes " IS NOT NULL") [])
        null
        (instant t)
unfolding holds_for bytes
by_time column t = (
  (holds_at column (bytes " IS NULL") [] null, holds_at column (bytes " IS NOT NULL") [] null),
  (
    holds_at column (bytes " IS NULL") [] (instant t),
    holds_at column (bytes " IS NOT NULL") [] (instant t),
  ),
)

not_zero : (n : ℕ) → n ≢ 0 → (0 == n) ≡ false
not_zero n h = elim (Bool-cases (0 == n)) [
  | inl e ↦ absurd (h (sym ((==_iff 0 n).0 e)))
  | inr e ↦ e
]

by_number :
    (column : Text) (n : ℕ)
    → n ≢ 0
    → Separates column
        (sql_at column (bytes " = ?") (0 ∷ []))
        (sql_at column (bytes " <> ?") (0 ∷ []))
        (number 0)
        (number n)
unfolding holds_for bytes
by_number column n h =
    let z = not_zero n h in
    (
      (
        holds_at column (bytes " = ?") (0 ∷ []) (number 0),
        holds_at column (bytes " <> ?") (0 ∷ []) (number 0),
      ),
      (
        holds_at column (bytes " = ?") (0 ∷ []) (number n) ∙ z,
        holds_at column (bytes " <> ?") (0 ∷ []) (number n) ∙ ap not z,
      ),
    )

by_flag :
    (column : Text)
    → Separates column
        (sql_at column (bytes " = ?") (0 ∷ []))
        (sql_at column (bytes " = ?") (1 ∷ []))
        (number 0)
        (number 1)
unfolding holds_for bytes
by_flag column = (
  (
    holds_at column (bytes " = ?") (0 ∷ []) (number 0),
    holds_at column (bytes " = ?") (1 ∷ []) (number 0),
  ),
  (
    holds_at column (bytes " = ?") (0 ∷ []) (number 1),
    holds_at column (bytes " = ?") (1 ∷ []) (number 1),
  ),
)

meta-Separates :
    (mode : SdMode) (index : List ℕ) (tb : Bool) (column : Text) (now : Moment)
    → tb ≡ is_time mode
    → now.unix ≢ 0
    → now.unix_milli ≢ 0
    → now.unix_nano ≢ 0
    → (m : SdMeta) → m ≡ record { mode = mode; field_index = index; time_based = tb }
    → Separates column
        (alive_cond m column)
        (trashed_cond m column)
        (alive_value m)
        (deleted_value m now)
unfolding alive_cond trashed_cond alive_value deleted_value
meta-Separates sec index false column now e s m n x same = rw same (by_number column now.unix s)
meta-Separates milli index false column now e s m n x same =
    rw same (by_number column now.unix_milli m)
meta-Separates nano index false column now e s m n x same =
    rw same (by_number column now.unix_nano n)
meta-Separates flag index false column now e s m n x same = rw same (by_flag column)
meta-Separates time index true column now e s m n x same = rw same (by_time column now.self)
meta-Separates sec index true column now e s m n x same = absurd cc
meta-Separates milli index true column now e s m n x same = absurd cc
meta-Separates nano index true column now e s m n x same = absurd cc
meta-Separates flag index true column now e s m n x same = absurd cc
meta-Separates time index false column now e s m n x same = absurd cc

-- For every sd tag that is accepted, the values and the conditions agree: a row with the value of
-- Restore is alive and not trashed, and a row with the value of Delete is trashed and not alive, under
-- the conditions that AliveCond and TrashedCond give to the queries. The time of the deletion is not
-- the Unix epoch in any of its units, and a database compares and tests for NULL as usual.
pub parse_sd_tag-Separates :
    (tag : Text) (typ : GoType) (index : List ℕ) (m : SdMeta) (column : Text) (now : Moment)
    → parse_sd_tag tag typ index ≡ sd_meta m
    → now.unix ≢ 0
    → now.unix_milli ≢ 0
    → now.unix_nano ≢ 0
    → Separates column
        (alive_cond m column)
        (trashed_cond m column)
        (alive_value m)
        (deleted_value m now)
parse_sd_tag-Separates tag typ index m column now h s l n =
    meta-Separates m.mode m.field_index m.time_based column now
      (subst IsConsistent h (parse_sd_tag-IsConsistent tag typ index)) s l n m refl
