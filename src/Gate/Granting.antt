-- ===== src/Gate/Granting.antt =====
-- What grants a check, and that the code after the Before callbacks allows only that.
use mathlib.Core.Bool.{false≢true}
use go_fast_framework.Common.{
  ℕ, ◌≡◌, ◌≢◌, refl, sym, ap, ◌∙◌, String, true, false, Option, none, some, List, [], ◌∷◌, inl, inr,
  Option-cases,
}
use go_fast_framework.Common.Dict
use go_fast_framework.Common.Dict.{Dict}
use go_fast_framework.Cache.Memory.{bytes}
use go_fast_framework.Common.Action.{Outcome-cases, returned, panicked, and_then, pure}
use go_fast_framework.Gate.Response.{Response, new_response}
use go_fast_framework.Gate.Policy.{
  Arg, Out, Passed, Method, arguments, response_of, call_policy_method, find_model, find_method,
  call_found, resolve,
}
use go_fast_framework.Gate.Evidence.{
  SaysYes, response_of-SaysYes, FirstModel, find_model-FirstModel, Fits, arguments-Fits, HasMethod,
  find_method-HasMethod,
}
use go_fast_framework.Gate.Inspect.{
  Callback, BeforeCallback, Gate, denies_at_once, or_deny, decide, ask, allows,
}

pub denial_of :
    (res : Option Response)
    → denies_at_once res ≡ true
    → (r : Response) × ((res ≡ some r) × (r.denied ≡ true))
denial_of none h = absurd cc
denial_of (some r) h = (r, (refl, h))

pub allowed_of :
    (r : Response) {r' : Response}
    → returned (some r) ≡ returned (some r')
    → r'.allowed ≡ true
    → r.allowed ≡ true
allowed_of r h allowed = cc

refused :
    (text : String) {r : Response}
    → returned (some (new_response false text)) ≡ returned (some r)
    → r.allowed ≢ true
refused text h allowed = false≢true (allowed_of (new_response false text) h allowed)

pub asked :
    {W : Type 0} (res : Option Response) (w : W)
    → (ask (λ r. r.allowed) res w).0 ≡ returned true
    → (r : Response) × ((res ≡ some r) × (r.allowed ≡ true))
asked none w h = absurd cc
asked (some r) w h = (r, (refl, cc))

-- The call of a method that was found, when it allows.
called :
    {W : Type 0} (typ : String) (m : ℕ) (method : Method W) (w : W) (r : Response)
    → (and_then (call_found typ m (some method)) (λ found. pure (or_deny found)) w).0
      ≡ returned (some r)
    → r.allowed ≡ true
    → (passed : List Passed) × ((outs : List Out) × ((arguments 0 method.params typ m ≡ some passed)
          × (((method.call passed w).0 ≡ returned outs) × ((response_of outs).allowed ≡ true))))
unfolding call_found call_policy_method
called typ m method w r h allowed = elim (Option-cases (arguments 0 method.params typ m)) [
  | inl mismatch ↦ absurd (
      refused "policy method parameter mismatch"
        (sym (rw (call_found, call_policy_method, mismatch)) ∙ h) allowed)
  | inr (passed, fits) ↦ elim (Outcome-cases (method.call passed w).0) [
    | inl panics ↦
        let nil_response : returned none ≡ returned (some r) =
          sym (rw (call_found, call_policy_method, fits, panics)) ∙ h in
        absurd cc
    | inr (outs, gives) ↦ (
      passed,
      (
        outs,
        (
          fits,
          (
            gives,
            allowed_of (response_of outs)
                (sym (rw (call_found, call_policy_method, fits, gives)) ∙ h) allowed,
          ),
        ),
      ),
    )
  ]
]

-- Responses of Before callbacks that deny do not allow.
abbrev pub IsProper : {W : Type 0} → BeforeCallback W → Type 0
IsProper {W} f =
    (ability : String) (args : List Arg) (w : W) (r : Response)
    → (f ability args w).0 ≡ returned (some r)
    → r.denied ≡ true
    → r.allowed ≡ false

abbrev pub AllProper : {W : Type 0} → List (BeforeCallback W) → Type 0
AllProper [] = Unit
AllProper (f ∷ fs) = IsProper f × AllProper fs

module _ {W : Type 0} (ability : String) (args : List Arg) where
  -- The Before callbacks ran one after the other, from one state to another, and none denied.
  pub data Passes : List (BeforeCallback W) → W → W → Type 0 where
    pass_none : (w : W) → Passes [] w w
    pass :
        (f : BeforeCallback W) (fs : List (BeforeCallback W)) (res : Option Response) (w w' : W)
        → (f ability args w).0 ≡ returned res
        → denies_at_once res ≡ false
        → Passes fs (f ability args w).1 w'
        → Passes (f ∷ fs) w w'

  -- What allows in a state: the ability's callback, or for an ability that is not defined the method of
  -- the policy of the model's type.
  pub data Granted (g : Gate W) (w : W) : Type 0 where
    by_ability :
        (callback : Callback W)
        → Dict.get g.abilities ability ≡ some callback
        → (callback args w).0 ≡ returned true
        → Granted g w
    by_policy :
        (typ : String) (m : ℕ) (policy : List ℕ → Option (Method W)) (method : Method W)
        (passed : List Passed) (outs : List Out)
        → Dict.get g.abilities ability ≡ none
        → FirstModel typ m args
        → Dict.get g.policies.policies typ ≡ some policy
        → HasMethod policy (bytes ability) method
        → Fits typ m true method.params passed
        → (method.call passed w).0 ≡ returned outs
        → SaysYes outs
        → Granted g w

  resolved :
      (g : Gate W) (w : W) (r : Response)
      → Dict.get g.abilities ability ≡ none
      → (and_then (resolve ability args g.policies) (λ found. pure (or_deny found)) w).0
        ≡ returned (some r)
      → r.allowed ≡ true
      → Granted g w
  unfolding resolve call_found
  resolved g w r undefined h allowed = elim (Option-cases (find_model args)) [
    | inl no_model ↦
        absurd (refused "ability not defined" (sym (rw (no_model, resolve)) ∙ h) allowed)
    | inr ((typ, m), has_model) ↦ elim (Option-cases (Dict.get g.policies.policies typ)) [
      | inl no_policy ↦
          absurd
            (refused "ability not defined" (sym (rw (has_model, resolve, no_policy)) ∙ h) allowed)
      | inr (policy, has_policy) ↦ elim (Outcome-cases (find_method policy (bytes ability) w).0) [
        | inl panics ↦
            let never : panicked ≡ returned (some r) =
              sym (rw (has_model, resolve, has_policy, panics)) ∙ h in
            absurd cc
        | inr (none, missing) ↦ absurd (
            refused "ability not defined" (sym (rw (has_model, resolve, has_policy, missing)) ∙ h)
              allowed)
        | inr (some method, found) ↦
            let (passed, (outs, (fits, (gives, allows)))) =
              called typ m method (find_method policy (bytes ability) w).1 r
                (sym (rw (has_model, resolve, has_policy, found)) ∙ h) allowed in
            let (has_method, same) = find_method-HasMethod policy (bytes ability) method w found in
            Granted.by_policy typ m policy method passed outs undefined
              (find_model-FirstModel typ m args has_model) has_policy has_method
              (arguments-Fits 0 method.params typ m passed fits)
              (ap (λ x. (method.call passed x).0) (sym same) ∙ gives)
              (response_of-SaysYes outs allows)
      ]
    ]
  ]

  pub decide-Granted :
      (g : Gate W) (w : W) (r : Response)
      → (decide ability args g w).0 ≡ returned (some r)
      → r.allowed ≡ true
      → Granted g w
  unfolding decide
  decide-Granted g w r gives allowed = elim (Option-cases (Dict.get g.abilities ability)) [
    | inl undefined ↦ resolved g w r undefined (sym (rw (undefined, decide)) ∙ gives) allowed
    | inr (callback, defined) ↦
        let h : (and_then (callback args) (λ a. pure (some (new_response a ""))) w).0
            ≡ returned (some r) =
          sym (rw (defined, decide)) ∙ gives in
        elim (Outcome-cases (callback args w).0) [
          | inl panics ↦ let never : panicked ≡ returned (some r) = sym (rw panics) ∙ h in absurd cc
          | inr (answer, answers) ↦
              let same = allowed_of (new_response answer "") (sym (rw answers) ∙ h) allowed in
              Granted.by_ability callback defined (answers ∙ ap returned same)
        ]
  ]
