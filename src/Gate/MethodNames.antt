-- ===== src/Gate/MethodNames.antt =====
-- The names under which a policy's method is looked up.
use go_fast_framework.Common.{
  append_nil, ℕ, ◌≡◌, refl, sym, ap, subst, ==_iff, ◌∙◌, Bool, true, false, Option, none, List, [],
  ◌∷◌, ◌++◌, ◌==◌, if◌then◌else◌, Bool-cases, Option-cases, inl, inr, arith,
}
use go_fast_framework.Common.Action.{returned}
use go_fast_framework.Gate.Policy.{
  Method, split_dash, to_upper, capitalize, capitalize_all, ability_to_method_name, fallback_name,
  find_method,
}

-- Whether a name has the byte "-", which no name of a Go method has.
unfoldable pub has_dash : List ℕ → Bool
has_dash [] = false
has_dash (b ∷ bs) = if b == 45 then true else has_dash bs

split_dash_lem : (a : List ℕ) → has_dash a ≡ false → split_dash a ≡ a ∷ []
unfolding split_dash has_dash
split_dash_lem [] h = refl
split_dash_lem (b ∷ bs) h = elim (Bool-cases (b == 45)) [
  | inl dash ↦ absurd (ground arith)
  | inr other ↦ rw (other, split_dash_lem bs (rw other at h))
]

has_dash-append : (xs ys : List ℕ) → has_dash ys ≡ true → has_dash (xs ++ ys) ≡ true
unfolding has_dash
has_dash-append [] ys h = h
has_dash-append (x ∷ xs) ys h = let ih = has_dash-append xs ys h in ground arith

has_dash-capitalize : (a : List ℕ) → has_dash a ≡ true → has_dash (capitalize a) ≡ true
unfolding has_dash capitalize to_upper
has_dash-capitalize [] h = h
has_dash-capitalize (b ∷ bs) h = elim (Bool-cases (b == 45)) [
  | inl dash ↦ subst (λ c. has_dash (to_upper c ++ bs) ≡ true) (sym ((==_iff b 45).0 dash)) refl
  | inr other ↦ has_dash-append (to_upper b) bs (rw other at h)
]

ability_to_method_name_lem :
    (a : List ℕ) → has_dash a ≡ false → ability_to_method_name a ≡ capitalize a
unfolding ability_to_method_name capitalize_all
ability_to_method_name_lem a h = rw (split_dash_lem a h) (append_nil (capitalize a))

-- For an ability that is not empty and a policy whose method names have no "-": the second attempt
-- at the look-up changes nothing. The method that is found is the one under abilityToMethodName.
pub find_method_lem :
    {W : Type 0} (policy : List ℕ → Option (Method W)) (b : ℕ) (bs : List ℕ) (w : W)
    → ((name : List ℕ) → has_dash name ≡ true → policy name ≡ none)
    → find_method policy (b ∷ bs) w ≡ (returned (policy (ability_to_method_name (b ∷ bs))), w)
unfolding find_method fallback_name
find_method_lem policy b bs w names =
    elim (Option-cases (policy (ability_to_method_name (b ∷ bs)))) [
      | inr (method, found) ↦ rw (found, find_method)
      | inl missing ↦ elim (Bool-cases (has_dash (b ∷ bs))) [
        | inl dash ↦
            rw (
              missing,
              find_method,
              names (capitalize (b ∷ bs)) (has_dash-capitalize (b ∷ bs) dash),
            )
        | inr no_dash ↦
            let same = ability_to_method_name_lem (b ∷ bs) no_dash in
            rw (missing, find_method) (ap (λ n. (returned n, w)) (ap policy (sym same) ∙ missing))
      ]
    ]
