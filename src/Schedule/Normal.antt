-- ===== src/Schedule/Normal.antt =====
-- Normalized cron expressions.
use go_fast_framework.Common.{
  ℕ, suc, ◌≡◌, refl, ap, ◌∙◌, Bool, true, false, [], ◌∷◌, ◌==◌, ==_iff, length, if◌then◌else◌,
  Bool-cases, inl, inr,
}
use go_fast_framework.OrmTag.Text.{Text, is_space, trim_space, trim_left, trim_right, keep_before}
use go_fast_framework.Schedule.Task.{is_no_text}
use go_fast_framework.Schedule.Cron.{fields_from, fields, is_descriptor, normalize_cron}

keep_before-kept :
    (b : ℕ) (t : Text) → trim_right t ≡ t → trim_right (keep_before b t) ≡ keep_before b t
unfolding trim_right
keep_before-kept b [] h = elim (Bool-cases (is_space b)) [
  | inl e ↦ rw e
  | inr e ↦ rw (e, trim_right, e)
]
keep_before-kept b (c ∷ cs) h = ap (keep_before b) h

trim_right_again : (t : Text) → trim_right (trim_right t) ≡ trim_right t
unfolding trim_right
trim_right_again [] = refl
trim_right_again (b ∷ bs) = keep_before-kept b (trim_right bs) (trim_right_again bs)

keep_before_left :
    (b : ℕ) (t : Text) → is_space b ≡ false → trim_left (keep_before b t) ≡ keep_before b t
unfolding trim_left
keep_before_left b [] e = rw (e, trim_left, e)
keep_before_left b (c ∷ cs) e = rw (trim_left, e)

trim_left-trim : (t : Text) → trim_left (trim_space t) ≡ trim_space t
unfolding trim_space trim_left trim_right
trim_left-trim [] = refl
trim_left-trim (b ∷ bs) = elim (Bool-cases (is_space b)) [
  | inl e ↦ rw (trim_space, trim_left, e) (trim_left-trim bs)
  | inr e ↦ rw (trim_space, trim_left, e, trim_right) (keep_before_left b (trim_right bs) e)
]

-- strings.TrimSpace twice is once.
pub trim_space_again : (t : Text) → trim_space (trim_space t) ≡ trim_space t
unfolding trim_space
trim_space_again t = ap trim_right (trim_left-trim t) ∙ trim_right_again (trim_left t)

trim_space-prefix :
    (t : Text)
    → is_no_text t ≡ false
    → trim_space t ≡ t
    → trim_right t ≡ t
    → trim_space (48 ∷ 32 ∷ t) ≡ 48 ∷ 32 ∷ t
unfolding trim_space trim_left trim_right
trim_space-prefix [] h e r = absurd cc
trim_space-prefix (b ∷ bs) h e r = ap (λ x. keep_before 48 (keep_before 32 x)) r

trim_right_kept : (t : Text) → trim_right (trim_space t) ≡ trim_space t
unfolding trim_space
trim_right_kept t = trim_right_again (trim_left t)

pub fields-prefix : (t : Text) → fields (48 ∷ 32 ∷ t) ≡ (48 ∷ []) ∷ fields t
unfolding fields fields_from
fields-prefix t = refl

abbrev with_seconds : Text → Text
with_seconds expr =
    if is_no_text expr
    then []
    else if is_descriptor expr
    then expr
    else if length (fields expr) == 5
    then 48 ∷ 32 ∷ expr
    else expr

-- A normalized expression is left as it is by normalizeCron: the field for the seconds is added once.
pub normalize_cron_again : (s : Text) → normalize_cron (normalize_cron s) ≡ normalize_cron s
unfolding normalize_cron
normalize_cron_again s = by_empty (trim_space s) (trim_space_again s) (trim_right_kept s)
  where
    by_fields :
        (t : Text)
        → trim_space t ≡ t
        → trim_right t ≡ t
        → is_no_text t ≡ false
        → is_descriptor t ≡ false
        → (five : Bool) → (length (fields t) == 5) ≡ five
        → with_seconds (trim_space (if five then 48 ∷ 32 ∷ t else t))
          ≡ (if five then 48 ∷ 32 ∷ t else t)
    by_fields t e r n d true f =
        let six : (length (fields (48 ∷ 32 ∷ t)) == 5) ≡ false =
          let l : length (fields t) ≡ 5 = (==_iff (length (fields t)) 5).0 f in
          ap (λ x. length x == 5) (fields-prefix t) ∙ ap (λ n. suc n == 5) l in
        rw (trim_space-prefix t n e r, six)
    by_fields t e r n d false f = rw (e, n, d, f)

    by_descriptor :
        (t : Text)
        → trim_space t ≡ t
        → trim_right t ≡ t
        → is_no_text t ≡ false
        → (d : Bool) → is_descriptor t ≡ d
        → with_seconds
            (trim_space (if d then t else if length (fields t) == 5 then 48 ∷ 32 ∷ t else t))
          ≡ (if d then t else if length (fields t) == 5 then 48 ∷ 32 ∷ t else t)
    by_descriptor t e r n true d = rw (e, n, d)
    by_descriptor t e r n false d = by_fields t e r n d (length (fields t) == 5) refl

    by_empty :
        (t : Text)
        → trim_space t ≡ t
        → trim_right t ≡ t
        → with_seconds (trim_space (with_seconds t)) ≡ with_seconds t
    by_empty [] e r = rw e
    by_empty (b ∷ bs) e r = by_descriptor (b ∷ bs) e r refl (is_descriptor (b ∷ bs)) refl
