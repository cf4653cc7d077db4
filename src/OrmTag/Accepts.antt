-- ===== src/OrmTag/Accepts.antt =====
-- parseFieldTag gives no error exactly for the tokens of the grammar.
use go_fast_framework.Common.{
  ◌≡◌, refl, sym, ap, ◌∙◌, ◌↔◌, Bool, true, false, not, ◌||◌, List, [], ◌∷◌, none, some, inl, inr,
  Bool-cases, if◌then◌else◌,
}
use go_fast_framework.OrmTag.Text.{Text}
use go_fast_framework.OrmTag.Split.{RawToken}
use go_fast_framework.OrmTag.Field.{
  FieldMeta, FieldError, is_null_word, Step, next, stop, quoted_params, on_token, Parsed,
  parse_tokens,
}
use go_fast_framework.OrmTag.Grammar.{
  Use, alone, with_value, before_null, reading, Accepted, nothing, column, flag, not_null,
  value_inside, value_after, Round, goes_on, takes_inside, takes_next, lacks_value, takes_null,
  lacks_null, ends_early, refuses, on_token-Round, on_token_quoted,
}

abbrev IsFree : Parsed → Type 0
IsFree p = p.error ≡ none

abbrev run_step : List RawToken → Step → Parsed
run_step ts (next m skip) = parse_tokens skip ts m
run_step ts (stop m e) = record { meta = m; error = some e }

parse_step :
    (t : RawToken) (ts : List RawToken) (m : FieldMeta)
    → parse_tokens false (t ∷ ts) m ≡ run_step ts (on_token t ts m)
unfolding parse_tokens
parse_step t ts m = by_step (on_token t ts m)
  where
    by_step :
        (s : Step)
        → elim s [
          | next m' skip ↦ parse_tokens skip ts m'
          | stop m' e ↦ record { meta = m'; error = some e }
        ]
          ≡ run_step ts s
    by_step (next m' skip) = refl
    by_step (stop m' e) = refl

goes :
    (t : RawToken) (ts : List RawToken) (m m' : FieldMeta) (skip : Bool)
    → on_token t ts m ≡ next m' skip
    → IsFree (parse_tokens skip ts m')
    → IsFree (parse_tokens false (t ∷ ts) m)
goes t ts m m' skip e h = rw (parse_step t ts m, e) h

-- The tokens left are accepted, after one is skipped or not.
abbrev AcceptedFrom : Bool → List RawToken → Type 0
AcceptedFrom false ts = Accepted ts
AcceptedFrom true [] = Unit
AcceptedFrom true (t ∷ ts) = Accepted ts

accept_bare :
    (way : Use) (t : RawToken) (ts : List RawToken) (s : Step)
    → Round way t ts s
    → t.quoted ≡ false
    → reading t.name ≡ way
    → ((skip : Bool) (m : FieldMeta) → IsFree (parse_tokens skip ts m) → AcceptedFrom skip ts)
    → IsFree (run_step ts s)
    → Accepted (t ∷ ts)
unfolding is_null_word
accept_bare _ _ _ _ (goes_on t ts m) q u ih h = flag t ts q u (ih false m h)
accept_bare _ _ _ _ (takes_inside t p ps ts m e) q u ih h =
    value_inside t p ps ts q u e (ih false m h)
accept_bare _ _ _ _ (takes_next t v ts m e) q u ih h = value_after t v ts q u e (ih true m h)
accept_bare _ _ _ _ (lacks_value t m e' e) q u ih h = absurd cc
accept_bare _ _ _ _ (takes_null t v ts m e n) q u ih h = not_null t v ts q u e n (ih true m h)
accept_bare _ _ _ _ (lacks_null t v ts m e' e) q u ih h = absurd cc
accept_bare _ _ _ _ (ends_early t m e) q u ih h = absurd cc
accept_bare _ _ _ _ (refuses t ts m e) q u ih h = absurd cc

accept_quoted :
    (t : RawToken) (ts : List RawToken) (m m' : FieldMeta) (e : FieldError)
    → t.quoted ≡ true
    → ((m : FieldMeta) → IsFree (parse_tokens false ts m) → Accepted ts)
    → (cond : Bool) → t.has_cond ≡ cond
    → IsFree (run_step ts (if cond then stop m e else next m' false))
    → Accepted (t ∷ ts)
accept_quoted t ts m m' e q ih true c h = absurd cc
accept_quoted t ts m m' e q ih false c h = column t ts q c (ih m' h)

tokens-Accepted :
    (skip : Bool) (ts : List RawToken) (m : FieldMeta)
    → IsFree (parse_tokens skip ts m)
    → AcceptedFrom skip ts
unfolding parse_tokens
tokens-Accepted true [] m h = tt
tokens-Accepted true (t ∷ ts) m h = tokens-Accepted false ts m h
tokens-Accepted false [] m h = nothing
tokens-Accepted false (t ∷ ts) m h = elim (Bool-cases t.quoted) [
  | inl q ↦
      let h' : IsFree (run_step ts (on_token t ts m)) = rw⁻¹ (parse_step t ts m) h in
      accept_quoted t ts m (record m { column_name = t.name }) quoted_params q
        (tokens-Accepted false ts) t.has_cond refl (rw⁻¹ (on_token_quoted t ts m q) h')
  | inr q ↦
      let (s, (e, r)) = on_token-Round t ts m q in
      let h' : IsFree (run_step ts (on_token t ts m)) = rw⁻¹ (parse_step t ts m) h in
      accept_bare (reading t.name) t ts s r q refl (λ skip. tokens-Accepted skip ts) (rw⁻¹ e h')
]

-- What a round gives for each use.
alone_next :
    (way : Use) (t : RawToken) (ts : List RawToken) (s : Step)
    → Round way t ts s
    → way ≡ alone
    → (m : FieldMeta) × (s ≡ next m false)
alone_next _ _ _ _ (goes_on t ts m) u = (m, refl)
alone_next _ _ _ _ (takes_inside t p ps ts m e) u = absurd cc
alone_next _ _ _ _ (takes_next t v ts m e) u = absurd cc
alone_next _ _ _ _ (lacks_value t m e' e) u = absurd cc
alone_next _ _ _ _ (takes_null t v ts m e n) u = absurd cc
alone_next _ _ _ _ (lacks_null t v ts m e' e) u = absurd cc
alone_next _ _ _ _ (ends_early t m e) u = absurd cc
alone_next _ _ _ _ (refuses t ts m e) u = absurd cc

abbrev has_any : List Text → Bool
has_any [] = false
has_any (p ∷ ps) = true

value_next :
    (way : Use) (t : RawToken) (ts : List RawToken) (s : Step)
    → Round way t ts s
    → way ≡ with_value
    → has_any t.params ≡ true
    → (m : FieldMeta) × (s ≡ next m false)
value_next _ _ _ _ (takes_inside t p ps ts m e) u h = (m, refl)
value_next _ _ _ _ (takes_next t v ts m e) u h =
    let clash : false ≡ true = sym (ap has_any e) ∙ h in absurd cc
value_next _ _ _ _ (lacks_value t m e' e) u h =
    let clash : false ≡ true = sym (ap has_any e) ∙ h in absurd cc
value_next _ _ _ _ (goes_on t ts m) u h = absurd cc
value_next _ _ _ _ (takes_null t v ts m e n) u h = absurd cc
value_next _ _ _ _ (lacks_null t v ts m e' e) u h = absurd cc
value_next _ _ _ _ (ends_early t m e) u h = absurd cc
value_next _ _ _ _ (refuses t ts m e) u h = absurd cc

after_next :
    (way : Use) (t v : RawToken) (ts : List RawToken) (s : Step)
    → Round way t (v ∷ ts) s
    → way ≡ with_value
    → has_any t.params ≡ false
    → (m : FieldMeta) × (s ≡ next m true)
after_next _ _ _ _ _ (takes_inside t p ps ts m e) u h =
    let clash : false ≡ true = sym h ∙ ap has_any e in absurd cc
after_next _ _ _ _ _ (takes_next t v ts m e) u h = (m, refl)
after_next _ _ _ _ _ (goes_on t ts m) u h = absurd cc
after_next _ _ _ _ _ (takes_null t v ts m e n) u h = absurd cc
after_next _ _ _ _ _ (lacks_null t v ts m e' e) u h = absurd cc
after_next _ _ _ _ _ (refuses t ts m e) u h = absurd cc

null_next :
    (way : Use) (t v : RawToken) (ts : List RawToken) (s : Step)
    → Round way t (v ∷ ts) s
    → way ≡ before_null
    → (v.quoted || not (is_null_word v.name)) ≡ false
    → (m : FieldMeta) × (s ≡ next m true)
null_next _ _ _ _ _ (takes_null t v ts m e n) u h = (m, refl)
null_next _ _ _ _ _ (lacks_null t v ts m e' e) u h = absurd cc
null_next _ _ _ _ _ (takes_inside t p ps ts m e) u h = absurd cc
null_next _ _ _ _ _ (takes_next t v ts m e) u h = absurd cc
null_next _ _ _ _ _ (goes_on t ts m) u h = absurd cc
null_next _ _ _ _ _ (refuses t ts m e) u h = absurd cc

parse-Accepted :
    {ts : List RawToken} → Accepted ts → (m : FieldMeta) → IsFree (parse_tokens false ts m)
unfolding parse_tokens is_null_word
parse-Accepted nothing m = refl
parse-Accepted (column t ts q c a) m =
    goes t ts m (record m { column_name = t.name }) false
      (on_token_quoted t ts m q ∙ free _ _ t.has_cond c) (parse-Accepted a _)
  where
    free : (s s' : Step) (b : Bool) → b ≡ false → (if b then s else s') ≡ s'
    free s s' b e = rw e
parse-Accepted (flag t ts q u a) m =
    let (s, (e, r)) = on_token-Round t ts m q in
    let (m', n) = alone_next _ t ts s r u in goes t ts m m' false (e ∙ n) (parse-Accepted a m')
parse-Accepted (not_null t v ts q u vq vn a) m =
    let (s, (e, r)) = on_token-Round t (v ∷ ts) m q in
    let (m', n) = null_next _ t v ts s r u (plain v.quoted (is_null_word v.name) vq vn) in
    goes t (v ∷ ts) m m' true (e ∙ n) (parse-Accepted a m')
  where
    plain : (a b : Bool) → a ≡ false → b ≡ true → (a || not b) ≡ false
    plain a b e f = rw (e, f)
parse-Accepted (value_inside t p ps ts q u e' a) m =
    let (s, (e, r)) = on_token-Round t ts m q in
    let (m', n) = value_next _ t ts s r u (ap has_any e') in
    goes t ts m m' false (e ∙ n) (parse-Accepted a m')
parse-Accepted (value_after t v ts q u e' a) m =
    let (s, (e, r)) = on_token-Round t (v ∷ ts) m q in
    let (m', n) = after_next _ t v ts s r u (ap has_any e') in
    goes t (v ∷ ts) m m' true (e ∙ n) (parse-Accepted a m')

-- parseFieldTag returns no error for the tokens of a tag exactly when they are read by the grammar:
-- column names in quotes, words that stand alone, NOT before NULL, and DEFAULT and COLLATE with a
-- value in parentheses or the next token as the value. Every other token is an error, the forbidden
-- words (deleted, cache, nocache) and the unknown ones first of all.
pub parse_tokens-Accepted :
    (ts : List RawToken) (m : FieldMeta) → ((parse_tokens false ts m).error ≡ none) ↔ Accepted ts
parse_tokens-Accepted ts m = (λ h. tokens-Accepted false ts m h, λ a. parse-Accepted a m)
