-- ===== src/Schedule/Fields.antt =====
-- The fields of normalized cron expressions.
use go_fast_framework.Common.{
  ℕ, ◌≡◌, refl, ap, ◌∙◌, Bool, true, false, List, [], ◌∷◌, ◌++◌, ◌==◌, length, if◌then◌else◌,
  Bool-cases, inl, inr, ◌⊎◌,
}
use go_fast_framework.OrmTag.Text.{Text, is_space, trim_space, trim_left, trim_right, keep_before}
use go_fast_framework.Schedule.Cron.{fields_from, fields, is_descriptor, normalize_cron}
use go_fast_framework.Schedule.Normal.{fields-prefix, normalize_cron_again}

-- White space at the ends of a text is in none of its fields.
fields_from-keep_before :
    (field : Text) (b : ℕ) (t : Text)
    → fields_from field (keep_before b t) ≡ fields_from field (b ∷ t)
unfolding fields_from
fields_from-keep_before field b [] = elim (Bool-cases (is_space b)) [
  | inl e ↦ rw (e, fields_from)
  | inr e ↦ let kept : keep_before b [] ≡ b ∷ [] = rw e in ap (fields_from field) kept
]
fields_from-keep_before field b (c ∷ cs) = refl

fields_from-trim_right : (field t : Text) → fields_from field (trim_right t) ≡ fields_from field t
unfolding fields_from trim_right
fields_from-trim_right field [] = refl
fields_from-trim_right field (b ∷ bs) =
    fields_from-keep_before field b (trim_right bs)
    ∙ rw (fields_from, fields_from-trim_right [] bs, fields_from-trim_right (field ++ b ∷ []) bs)

trim_left_kept : (b : ℕ) (bs : Text) → is_space b ≡ false → trim_left (b ∷ bs) ≡ b ∷ bs
unfolding trim_left
trim_left_kept b bs e = rw (trim_left, e)

fields-trim_left : (t : Text) → fields (trim_left t) ≡ fields t
unfolding fields fields_from trim_left
fields-trim_left [] = refl
fields-trim_left (b ∷ bs) = elim (Bool-cases (is_space b)) [
  | inl e ↦ rw (trim_left, fields_from, e) (fields-trim_left bs)
  | inr e ↦ ap fields (trim_left_kept b bs e)
]

fields-trim_space : (t : Text) → fields (trim_space t) ≡ fields t
unfolding fields trim_space
fields-trim_space t = fields_from-trim_right [] (trim_left t) ∙ fields-trim_left t

keep_before_begins :
    (b : ℕ) (t : Text) → is_space b ≡ false → (cs : Text) × (keep_before b t ≡ b ∷ cs)
keep_before_begins b [] e = ([], rw e)
keep_before_begins b (c ∷ cs) e = (c ∷ cs, refl)

-- A trimmed text is empty or begins with a byte that is not white space.
abbrev Begins : Text → Type 0
Begins t = (b : ℕ) × ((bs : Text) × ((t ≡ b ∷ bs) × (is_space b ≡ false)))

trim_space-cases : (t : Text) → (trim_space t ≡ []) ⊎ Begins (trim_space t)
unfolding trim_space trim_left trim_right
trim_space-cases [] = inl refl
trim_space-cases (b ∷ bs) = elim (Bool-cases (is_space b)) [
  | inl e ↦ rw (trim_space, trim_left, e) (trim_space-cases bs)
  | inr e ↦
      let (cs, kept) = keep_before_begins b (trim_right bs) e in
      inr (b, (cs, (ap trim_right (trim_left_kept b bs e) ∙ kept, e)))
]

-- Whether the first field begins with "@".
abbrev pub begins_at : List Text → Bool
begins_at [] = false
begins_at (f ∷ fs) = is_descriptor f

begins_at-fields_from : (b : ℕ) (f bs : Text) → begins_at (fields_from (b ∷ f) bs) ≡ (b == 64)
unfolding fields_from
begins_at-fields_from b f [] = refl
begins_at-fields_from b f (c ∷ cs) = elim (Bool-cases (is_space c)) [
  | inl e ↦ rw (fields_from, e)
  | inr e ↦ rw (fields_from, e) (begins_at-fields_from b (f ++ c ∷ []) cs)
]

begins_at-fields :
    (b : ℕ) (bs : Text) → is_space b ≡ false → begins_at (fields (b ∷ bs)) ≡ is_descriptor (b ∷ bs)
unfolding fields fields_from
begins_at-fields b bs e = rw (fields_from, e) (begins_at-fields_from b [] bs)

-- The fields that the cron library is to get: those of the expression, with 0 for the seconds before
-- them when there are five and the first does not begin with "@".
abbrev pub with_zero : List Text → List Text
with_zero fs = if begins_at fs then fs else if length fs == 5 then (48 ∷ []) ∷ fs else fs

with_zero-fields :
    (b : ℕ) (bs : Text)
    → is_space b ≡ false
    → fields (
        if is_descriptor (b ∷ bs)
        then b ∷ bs
        else if length (fields (b ∷ bs)) == 5
        then 48 ∷ 32 ∷ b ∷ bs
        else b ∷ bs)
      ≡ with_zero (fields (b ∷ bs))
with_zero-fields b bs e =
    by_test (is_descriptor (b ∷ bs)) (begins_at (fields (b ∷ bs))) (length (fields (b ∷ bs)) == 5)
      (begins_at-fields b bs e)
  where
    by_test :
        (d at five : Bool)
        → at ≡ d
        → fields (if d then b ∷ bs else if five then 48 ∷ 32 ∷ b ∷ bs else b ∷ bs) ≡ (
            if at
            then fields (b ∷ bs)
            else if five
            then (48 ∷ []) ∷ fields (b ∷ bs)
            else fields (b ∷ bs))
    by_test true true five same = refl
    by_test false false true same = fields-prefix (b ∷ bs)
    by_test false false false same = refl
    by_test true false five same = absurd cc
    by_test false true five same = absurd cc

fields-normalize :
    (s t : Text)
    → trim_space s ≡ t
    → (t ≡ []) ⊎ Begins t
    → fields (normalize_cron s) ≡ with_zero (fields t)
unfolding normalize_cron
fields-normalize s t e (inl empty) = rw (normalize_cron, e, empty)
fields-normalize s t e (inr (b, (bs, (begins, solid)))) =
    rw (normalize_cron, e, begins) (with_zero-fields b bs solid)

-- normalizeCron puts the field 0 for the seconds before an expression of five fields whose first does
-- not begin with "@", and changes the fields of no other expression; and a normalized expression is
-- left as it is, so that the field is added once.
pub fields-normalize_cron :
    (s : Text)
    → (fields (normalize_cron s) ≡ (
        if begins_at (fields s)
        then fields s
        else if length (fields s) == 5
        then (48 ∷ []) ∷ fields s
        else fields s))
      × (normalize_cron (normalize_cron s) ≡ normalize_cron s)
fields-normalize_cron s = (
  fields-normalize s (trim_space s) refl (trim_space-cases s) ∙ ap with_zero (fields-trim_space s),
  normalize_cron_again s,
)
