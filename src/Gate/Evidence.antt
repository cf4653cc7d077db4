-- ===== src/Gate/Evidence.antt =====
-- What a policy answers and with what its methods are found and called, apart from the code that decides.
use go_fast_framework.Common.{
  ℕ, ◌+◌, ◌≡◌, refl, subst, ◌∙◌, String, Bool, true, false, ◌&&◌, ◌++◌, ◌==◌, if◌then◌else◌, arith,
  Option, none, some, List, [], ◌∷◌,
}
use go_fast_framework.Common.Action.{Action, returned, and_then, pure}
use go_fast_framework.Gate.Response.{Response}
use go_fast_framework.Gate.Policy.{
  Arg, Out, Param, Passed, Method, to_upper, capitalize, fallback_name, ability_to_method_name,
  arguments, response_of, find_model, find_method,
}

-- A result of a policy method that says yes: true, or a response that allows, in the first place.
pub data SaysYes : List Out → Type 0 where
  yes_bool : (outs : List Out) → SaysYes (Out.bool true ∷ outs)
  yes_response :
      (r : Response) (outs : List Out) → r.allowed ≡ true → SaysYes (Out.response r ∷ outs)

pub response_of-SaysYes : (outs : List Out) → (response_of outs).allowed ≡ true → SaysYes outs
unfolding response_of
response_of-SaysYes [] h = absurd cc
response_of-SaysYes (Out.bool true ∷ outs) h = yes_bool outs
response_of-SaysYes (Out.bool false ∷ outs) h = absurd cc
response_of-SaysYes (Out.response r ∷ outs) h = yes_response r outs h
response_of-SaysYes (Out.error v ∷ outs) h = absurd cc
response_of-SaysYes (Out.nil ∷ outs) h = absurd cc
response_of-SaysYes (Out.other ∷ outs) h = absurd cc

-- The first argument that is not nil is the model m of a type.
pub data FirstModel (typ : String) (m : ℕ) : List Arg → Type 0 where
  here : (args : List Arg) → FirstModel typ m (Arg.arg typ m ∷ args)
  past_nil : (args : List Arg) → FirstModel typ m args → FirstModel typ m (Arg.nil ∷ args)

pub find_model-FirstModel :
    (typ : String) (m : ℕ) (args : List Arg)
    → find_model args ≡ some (typ, m)
    → FirstModel typ m args
unfolding find_model
find_model-FirstModel typ m [] h = absurd cc
find_model-FirstModel typ m (Arg.nil ∷ args) h = past_nil args (find_model-FirstModel typ m args h)
find_model-FirstModel typ m (Arg.arg typ' m' ∷ args) h =
    let same : ◌≡◌ {A = String × ℕ} (typ', m') (typ, m) = cc in
    subst (λ x. FirstModel x.0 x.1 (Arg.arg typ' m' ∷ args)) same (here args)

-- What is passed for the parameters: the context for a first parameter that takes it, and the model
-- for every other one, whose type takes the model's.
pub data Fits (typ : String) (m : ℕ) : Bool → List Param → List Passed → Type 0 where
  fits_none : (first : Bool) → Fits typ m first [] []
  fits_context :
      (p : Param) (ps : List Param) (passed : List Passed)
      → p.is_context ≡ true
      → Fits typ m false ps passed
      → Fits typ m true (p ∷ ps) (Passed.context ∷ passed)
  fits_model :
      (first : Bool) (p : Param) (ps : List Param) (passed : List Passed)
      → (first && p.is_context) ≡ false
      → p.takes typ ≡ true
      → Fits typ m false ps passed
      → Fits typ m first (p ∷ ps) (Passed.model m ∷ passed)

prepend :
    (a : Passed) (o : Option (List Passed)) (passed : List Passed)
    → (elim o [ none ↦ none | some in' ↦ some (a ∷ in') ]) ≡ some passed
    → (rest : List Passed) × ((o ≡ some rest) × (a ∷ rest ≡ passed))
prepend a none passed h = absurd cc
prepend a (some rest) passed h = (rest, (refl, cc))

pub arguments-Fits :
    (i : ℕ) (ps : List Param) (typ : String) (m : ℕ) (passed : List Passed)
    → arguments i ps typ m ≡ some passed
    → Fits typ m (i == 0) ps passed
unfolding arguments
arguments-Fits i [] typ m passed h =
    let same : [] ≡ passed = cc in subst (λ x. Fits typ m (i == 0) [] x) same (fits_none (i == 0))
arguments-Fits i (p ∷ ps) typ m passed h =
    by_test (i == 0) p.is_context refl refl (p.takes typ) refl h (λ rest e.
      let later : ((i + 1) == 0) ≡ false = ground arith in
      subst (λ x. Fits typ m x ps rest) later (arguments-Fits (i + 1) ps typ m rest e))
  where
    by_test :
        (first context : Bool)
        → (i == 0) ≡ first
        → p.is_context ≡ context
        → (takes : Bool) → p.takes typ ≡ takes
        → (if first && context
            then (elim (arguments (i + 1) ps typ m) [
              | none ↦ none
              | some in' ↦ some (Passed.context ∷ in')
            ])
            else if takes
            then (elim (arguments (i + 1) ps typ m) [
              | none ↦ none
              | some in' ↦ some (Passed.model m ∷ in')
            ])
            else none)
          ≡ some passed
        → ((rest : List Passed) → arguments (i + 1) ps typ m ≡ some rest → Fits typ m false ps rest)
        → Fits typ m first (p ∷ ps) passed
    by_test true true f c takes t h ih =
        let (rest, (e, same)) = prepend Passed.context (arguments (i + 1) ps typ m) passed h in
        subst (λ x. Fits typ m true (p ∷ ps) x) same (fits_context p ps rest c (ih rest e))
    by_test true false f c true t h ih =
        let (rest, (e, same)) = prepend (Passed.model m) (arguments (i + 1) ps typ m) passed h in
        subst (λ x. Fits typ m true (p ∷ ps) x) same (fits_model true p ps rest c t (ih rest e))
    by_test false context f c true t h ih =
        let (rest, (e, same)) = prepend (Passed.model m) (arguments (i + 1) ps typ m) passed h in
        subst (λ x. Fits typ m false (p ∷ ps) x) same
          (fits_model false p ps rest refl t (ih rest e))
    by_test true false f c false t h ih = absurd cc
    by_test false context f c false t h ih = absurd cc

-- A policy has the method of an ability: under the name made of the parts of the ability, or else
-- under the ability with its first letter in upper case.
pub data HasMethod {W : Type 0} (policy : List ℕ → Option (Method W)) (ability : List ℕ)
    (method : Method W) : Type 0 where
  by_parts : policy (ability_to_method_name ability) ≡ some method → HasMethod policy ability method
  by_whole :
      (b : ℕ) (bs : List ℕ)
      → ability ≡ b ∷ bs
      → policy (ability_to_method_name ability) ≡ none
      → policy (to_upper b ++ bs) ≡ some method
      → HasMethod policy ability method

pub find_method-HasMethod :
    {W : Type 0} (policy : List ℕ → Option (Method W)) (ability : List ℕ) (method : Method W)
    (w : W)
    → (find_method policy ability w).0 ≡ returned (some method)
    → HasMethod policy ability method × ((find_method policy ability w).1 ≡ w)
unfolding find_method fallback_name capitalize
find_method-HasMethod {W} policy ability method w h =
    by_parts_first (policy (ability_to_method_name ability)) refl h
  where
    second :
        (a : List ℕ)
        → ability ≡ a
        → policy (ability_to_method_name ability) ≡ none
        → (and_then (fallback_name a) (λ name. pure (policy name)) w).0 ≡ returned (some method)
        → HasMethod policy ability method
          × ((and_then (fallback_name a) (λ name. pure (policy name)) w).1 ≡ w)
    second [] e missing h = absurd cc
    second (b ∷ bs) e missing h = (by_whole b bs e missing cc, refl)

    by_parts_first :
        (o : Option (Method W))
        → policy (ability_to_method_name ability) ≡ o
        → ((elim o as (λ _. Action W (Option (Method W))) [
          | some found ↦ pure (some found)
          | none ↦ and_then (fallback_name ability) (λ name. pure (policy name))
        ])
            w).0
          ≡ returned (some method)
        → HasMethod policy ability method
          × (((elim o as (λ _. Action W (Option (Method W))) [
            | some found ↦ pure (some found)
            | none ↦ and_then (fallback_name ability) (λ name. pure (policy name))
          ])
                w).1
              ≡ w)
    by_parts_first (some found) e h =
        let same : some found ≡ some method = cc in (by_parts (e ∙ same), refl)
    by_parts_first none e h = second ability refl e h
