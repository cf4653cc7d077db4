-- ===== src/OrmTag/Fallback.antt =====
-- The gorm tag that stands in for a rel tag.
use go_fast_framework.Common.{
  ℕ, String, ◌++◌, ◌≡◌, ◌≢◌, refl, sym, ap, ◌∙◌, Bool, true, false, not, ◌||◌, List, [], ◌∷◌, ◌==◌,
  if◌then◌else◌, arith, Bool-cases, inl, inr,
}
use go_fast_framework.Cache.Memory.{bytes}
use go_fast_framework.OrmTag.Field.{is_among}
use go_fast_framework.OrmTag.Text.{
  Text, to_lower, text_eq, is_space, trim_space, trim_left, trim_right, keep_before,
}
use go_fast_framework.OrmTag.Sections.{
  GormSection, is_empty, split_on, sections_of, split_gorm_sections,
}
use go_fast_framework.OrmTag.Relations.{
  RelMeta, no_rel, RelKey, r_foreign_key, r_references, r_many2many, r_join_foreign_key,
  r_join_references, r_polymorphic, r_polymorphic_value, r_constraint, r_other, rel_key_of,
  rel_keys, gorm_keys, find_key, on_rel_key, on_gorm_key, validate_rel_pair, rel_sections,
  parse_rel_tag, gorm_sections, Assoc, no_assoc, parse_gorm_assoc_tag,
}

-- The keys of relations that a gorm tag may have.
abbrev pub seven_keys : List String
seven_keys =
    "foreignkey" ∷ "references" ∷ "many2many" ∷ "joinforeignkey" ∷ "joinreferences" ∷ "polymorphic"
    ∷ "polymorphicvalue" ∷ []

-- Whether a section has one of them.
unfoldable pub has_assoc_key : List GormSection → Bool
unfolding is_among to_lower
has_assoc_key [] = false
has_assoc_key (s ∷ ss) = is_among (to_lower s.key) seven_keys || has_assoc_key ss

abbrev pub without_constraint : RelMeta → RelMeta
without_constraint m = record m { constraint = [] }

abbrev is_assoc_key : RelKey → Bool
is_assoc_key r_constraint = false
is_assoc_key r_other = false
is_assoc_key _ = true

-- The two switches do the same but for the constraint.
on_gorm_key_lem :
    (k : RelKey) (v : Text) (m : RelMeta)
    → is_assoc_key k ≡ true
    → on_gorm_key k v (without_constraint m) ≡ without_constraint (on_rel_key k v m)
unfolding on_rel_key on_gorm_key
on_gorm_key_lem r_foreign_key v m h = refl
on_gorm_key_lem r_references v m h = refl
on_gorm_key_lem r_many2many v m h = refl
on_gorm_key_lem r_join_foreign_key v m h = refl
on_gorm_key_lem r_join_references v m h = refl
on_gorm_key_lem r_polymorphic v m h = refl
on_gorm_key_lem r_polymorphic_value v m h = refl
on_gorm_key_lem r_constraint v m h = absurd cc
on_gorm_key_lem r_other v m h = absurd cc

abbrev names : List (String × RelKey) → List String
names [] = []
names ((w, k) ∷ ws) = w ∷ names ws

abbrev AllAssoc : List (String × RelKey) → Type 0
AllAssoc [] = Unit
AllAssoc ((w, k) ∷ ws) = (is_assoc_key k ≡ true) × AllAssoc ws

-- A key of a table is found at its place, with more words behind the table or without.
find_key_among :
    (n : Text) (ws more : List (String × RelKey))
    → AllAssoc ws
    → is_among n (names ws) ≡ true
    → (find_key n (ws ++ more) ≡ find_key n ws) × (is_assoc_key (find_key n ws) ≡ true)
unfolding find_key is_among
find_key_among n [] more a h = absurd cc
find_key_among n ((w, k) ∷ ws) more a h = elim (Bool-cases (text_eq n (bytes w))) [
  | inl e ↦ (rw (find_key, e), rw (find_key, e) a.0)
  | inr e ↦
      let h' : is_among n (names ws) ≡ true = rw (is_among, e) at h in
      let ih = find_key_among n ws more a.1 h' in (rw (find_key, e) ih.0, rw (find_key, e) ih.1)
]

find_key_not_among :
    (n : Text) (ws more : List (String × RelKey))
    → is_among n (names ws) ≡ false
    → find_key n (ws ++ more) ≡ find_key n more
unfolding find_key is_among
find_key_not_among n [] more h = refl
find_key_not_among n ((w, k) ∷ ws) more h = elim (Bool-cases (text_eq n (bytes w))) [
  | inl e ↦ let clash : true ≡ false = rw (is_among, e) at h in absurd cc
  | inr e ↦
      let h' : is_among n (names ws) ≡ false = rw (is_among, e) at h in
      rw (find_key, e) (find_key_not_among n ws more h')
]

on_other_key :
    (n v : Text) (m : RelMeta)
    → without_constraint m
      ≡ without_constraint (on_rel_key (find_key n (("constraint", r_constraint) ∷ [])) v m)
unfolding find_key on_rel_key
on_other_key n v m = by_test (text_eq n (bytes "constraint"))
  where
    by_test :
        (b : Bool)
        → without_constraint m
          ≡ without_constraint (on_rel_key (if b then r_constraint else r_other) v m)
    by_test true = refl
    by_test false = refl

or_true : (a b : Bool) → true ≡ (a || (true || b))
or_true true b = refl
or_true false b = refl

or_false : (a : Bool) → a ≡ (a || false)
or_false true = refl
or_false false = refl

gorm_sections_lem :
    (ss : List GormSection) (m : RelMeta) (ok : Bool)
    → gorm_sections ss (without_constraint m) ok
      ≡ (without_constraint (rel_sections ss m), ok || has_assoc_key ss)
unfolding gorm_sections rel_sections has_assoc_key rel_key_of
gorm_sections_lem [] m ok = ap (λ b. (without_constraint m, b)) (or_false ok)
gorm_sections_lem (s ∷ ss) m ok =
    by_key (is_among (to_lower s.key) seven_keys) refl (λ m ok. gorm_sections_lem ss m ok)
  where
    by_key :
        (b : Bool)
        → is_among (to_lower s.key) seven_keys ≡ b
        → ((m : RelMeta) (ok : Bool)
            → gorm_sections ss (without_constraint m) ok
              ≡ (without_constraint (rel_sections ss m), ok || has_assoc_key ss))
        → ◌≡◌ {A = RelMeta × Bool}
            (elim b [
              | true ↦
                  gorm_sections ss
                    (on_gorm_key
                      (find_key (to_lower s.key) gorm_keys)
                      s.value
                      (without_constraint m))
                    true
              | false ↦ gorm_sections ss (without_constraint m) ok
            ])
            (
              without_constraint
                  (rel_sections ss (on_rel_key (find_key (to_lower s.key) rel_keys) s.value m)),
              ok || (b || has_assoc_key ss),
            )
    by_key true e ih =
        let n = to_lower s.key in
        let k = find_key n gorm_keys in
        let (same, assoc) =
          find_key_among n gorm_keys (("constraint", r_constraint) ∷ [])
            (refl, (refl, (refl, (refl, (refl, (refl, (refl, tt))))))) e in
        let m' = on_rel_key k s.value m in
        ap (λ x. gorm_sections ss x true) (on_gorm_key_lem k s.value m assoc)
        ∙ (ih m' true
            ∙ ap (λ x. (without_constraint (rel_sections ss m'), x))
                (or_true ok (has_assoc_key ss)))
        ∙ ap
            (λ x. (
              without_constraint (rel_sections ss (on_rel_key x s.value m)),
              ok || (true || has_assoc_key ss),
            ))
            (sym same)
    by_key false e ih =
        let n = to_lower s.key in
        let c = find_key n (("constraint", r_constraint) ∷ []) in
        ap (λ x. gorm_sections ss x ok) (on_other_key n s.value m)
        ∙ ih (on_rel_key c s.value m) ok
        ∙ ap
            (λ x. (
              without_constraint (rel_sections ss (on_rel_key x s.value m)),
              ok || has_assoc_key ss,
            ))
            (sym (find_key_not_among n gorm_keys (("constraint", r_constraint) ∷ []) e))

keep_before_not_nil : (b : ℕ) (t : Text) → is_space b ≡ false → keep_before b t ≢ []
keep_before_not_nil b [] e h = let h' : ◌≡◌ {A = Text} (b ∷ []) [] = sym (rw e) ∙ h in absurd cc
keep_before_not_nil b (c ∷ cs) e h = absurd cc

-- A tag of white space has no sections.
trim_left_kept : (t : Text) → trim_space t ≡ [] → trim_left t ≡ []
unfolding trim_space trim_left trim_right
trim_left_kept [] h = refl
trim_left_kept (b ∷ bs) h = elim (Bool-cases (is_space b)) [
  | inl e ↦
      let h' : trim_space bs ≡ [] = rw (e, trim_left) at h in
      rw (trim_left, e) (trim_left_kept bs h')
  | inr e ↦
      let h' : keep_before b (trim_right bs) ≡ [] = rw (e, trim_left) at h in
      absurd (keep_before_not_nil b (trim_right bs) e h')
]

split_on-space : (t : Text) → trim_left t ≡ [] → split_on 59 t ≡ t ∷ []
unfolding trim_left split_on
split_on-space [] h = refl
split_on-space (b ∷ bs) h = elim (Bool-cases (is_space b)) [
  | inl e ↦
      let h' : trim_left bs ≡ [] = rw (e, trim_left) at h in
      let not_semicolon : (b == 59) ≡ false = ground arith in
      rw (split_on, not_semicolon, split_on-space bs h')
  | inr e ↦ let h' : ◌≡◌ {A = Text} (b ∷ bs) [] = rw (e, trim_left) at h in absurd cc
]

split_gorm_sections_space : (t : Text) → trim_space t ≡ [] → split_gorm_sections t ≡ []
unfolding split_gorm_sections sections_of
split_gorm_sections_space t h = rw (split_on-space t (trim_left_kept t h), sections_of, h)

is_empty_iff : (t : Text) → is_empty t ≡ true → t ≡ []
is_empty_iff [] h = refl
is_empty_iff (b ∷ bs) h = absurd cc

-- What the gorm tag gives when its sections are `ss` and the rel tag of the same text gives `m`.
abbrev pub fallback : Bool → RelMeta → Assoc
fallback false m = no_assoc
fallback true m = record { meta = without_constraint m; ok = true; error = validate_rel_pair m }

verdict :
    (b : Bool) (m : RelMeta)
    → (if not b then no_assoc else record {
      meta = without_constraint m;
      ok = true;
      error = validate_rel_pair (without_constraint m);
    })
      ≡ fallback b m
unfolding validate_rel_pair
verdict true m = refl
verdict false m = refl

-- A gorm tag is read as the rel tag of the same text, with the same check that the composite keys have
-- one length, but for the constraint, which is left out. It counts only when one of its keys is one of
-- the seven keys of relations; a constraint alone does not make it count.
pub parse_gorm_assoc_tag_lem :
    (tag : Text)
    → parse_gorm_assoc_tag tag
      ≡ fallback (has_assoc_key (split_gorm_sections tag)) (parse_rel_tag tag).0
unfolding parse_gorm_assoc_tag parse_rel_tag validate_rel_pair has_assoc_key rel_sections
parse_gorm_assoc_tag_lem tag = elim (Bool-cases (is_empty (trim_space tag))) [
  | inl e ↦
      rw (parse_gorm_assoc_tag, e, split_gorm_sections_space tag (is_empty_iff (trim_space tag) e))
  | inr e ↦
      let ss = split_gorm_sections tag in
      rw (parse_gorm_assoc_tag, e, gorm_sections_lem ss no_rel false)
        (verdict (has_assoc_key ss) (rel_sections ss no_rel))
]
