-- ===== src/Gate/Policy.antt =====
-- gate/policy.go. A type goes by its name and a model by a number; what reflection tells of a
-- policy, and what a call of a method does, are parameters.
use go_fast_framework.Common.{
  ℕ, ◌+◌, ◌-◌, String, Bool, false, ◌&&◌, Option, none, some, List, [], ◌∷◌, ◌++◌, leb, ltb, ◌==◌,
  if◌then◌else◌,
}
use go_fast_framework.Common.Dict
use go_fast_framework.Common.Dict.{Dict}
use go_fast_framework.Cache.Memory.{bytes}
use go_fast_framework.Common.Action.{Outcome, returned, panicked, Action, and_then, pure, panic}
use go_fast_framework.Gate.Response.{Response, new_response}

-- An argument of a check: nil, or a value of a type.
pub data Arg : Type 0 where
  nil : Arg
  arg : String → ℕ → Arg

-- What a policy method gives back in one place: what the type switch finds in it.
pub data Out : Type 0 where
  bool : Bool → Out
  response : Response → Out
  error : String → Out
  nil : Out
  other : Out

-- A parameter of a method: whether its type implements contracts.Context, and which types convert
-- or may be assigned to it.
pub record Param : Type 0 where
  pub is_context : Bool
  pub takes : String → Bool

-- What is passed for a parameter.
pub data Passed : Type 0 where
  context : Passed
  model : ℕ → Passed

-- A method by reflection: its parameters, and what a call of it does.
pub record Method (W : Type 0) : Type 0 where
  pub params : List Param
  pub call : List Passed → Action W (List Out)

-- policyResolver; a policy is its methods by name
pub record PolicyResolver (W : Type 0) : Type 0 where
  pub policies : Dict (List ℕ → Option (Method W))

-- register
unfoldable pub register :
    {W : Type 0} → String → (List ℕ → Option (Method W)) → PolicyResolver W → PolicyResolver W
register typ policy pr = record { policies = Dict.assign pr.policies typ policy }

-- strings.Split by "-"
unfoldable pub split_dash : List ℕ → List (List ℕ)
split_dash [] = [] ∷ []
split_dash (b ∷ bs) =
    let rest = split_dash bs in
    if b == 45
    then [] ∷ rest
    else elim rest [ [] ↦ (b ∷ []) ∷ [] | part ∷ parts ↦ (b ∷ part) ∷ parts ]

-- strings.ToUpper of one byte; a byte that begins no character of one byte becomes U+FFFD
unfoldable pub to_upper : ℕ → List ℕ
to_upper b =
    if ltb b 128 then (if leb 97 b && leb b 122 then b - 32 else b) ∷ [] else 239 ∷ 191 ∷ 189 ∷ []

-- strings.ToUpper(p[:1]) + p[1:], of a p that is not empty
unfoldable pub capitalize : List ℕ → List ℕ
capitalize [] = []
capitalize (b ∷ bs) = to_upper b ++ bs

unfoldable pub capitalize_all : List (List ℕ) → List ℕ
unfolding capitalize
capitalize_all [] = []
capitalize_all (p ∷ ps) = capitalize p ++ capitalize_all ps

-- abilityToMethodName
unfoldable pub ability_to_method_name : List ℕ → List ℕ
unfolding split_dash capitalize_all
ability_to_method_name ability = capitalize_all (split_dash ability)

-- strings.ToUpper(ability[:1]) + ability[1:], which panics on ""
unfoldable pub fallback_name : {W : Type 0} → List ℕ → Action W (List ℕ)
unfolding capitalize
fallback_name [] = panic
fallback_name (b ∷ bs) = pure (capitalize (b ∷ bs))

-- The loop of callPolicyMethod over the parameters, from the one at i; none is a mismatch.
unfoldable pub arguments : ℕ → List Param → String → ℕ → Option (List Passed)
arguments i [] typ m = some []
arguments i (p ∷ ps) typ m =
    let rest = arguments (i + 1) ps typ m in
    if (i == 0) && p.is_context
    then elim rest [ none ↦ none | some in' ↦ some (context ∷ in') ]
    else if p.takes typ
    then elim rest [ none ↦ none | some in' ↦ some (model m ∷ in') ]
    else none

-- The type switch on what the method gave back.
unfoldable pub response_of : List Out → Response
response_of [] = new_response false "policy method returned no value"
response_of (bool v ∷ outs) = new_response v ""
response_of (response v ∷ outs) = v
response_of (error v ∷ outs) = new_response false v
response_of (nil ∷ outs) = new_response false "policy method returned unsupported type"
response_of (other ∷ outs) = new_response false "policy method returned unsupported type"

-- the deferred recover, after which the response is nil
abbrev pub recovered : Outcome (List Out) → Option Response
recovered (returned outs) = some (response_of outs)
recovered panicked = none

-- callPolicyMethod: none is nil
unfoldable pub call_policy_method :
    {W : Type 0} → Method W → String → ℕ → Action W (Option Response)
unfolding response_of arguments
call_policy_method method typ m w = elim (arguments 0 method.params typ m) [
  | none ↦ (returned (some (new_response false "policy method parameter mismatch")), w)
  | some in' ↦ let (out, w') = method.call in' w in (returned (recovered out), w')
]

-- the first argument that is not nil
unfoldable pub find_model : List Arg → Option (String × ℕ)
find_model [] = none
find_model (nil ∷ args) = find_model args
find_model (arg typ m ∷ args) = some (typ, m)

-- the look-up of a method, with the second attempt
unfoldable pub find_method :
    {W : Type 0} → (List ℕ → Option (Method W)) → List ℕ → Action W (Option (Method W))
unfolding ability_to_method_name fallback_name
find_method policy ability = elim (policy (ability_to_method_name ability)) [
  | some method ↦ pure (some method)
  | none ↦ and_then (fallback_name ability) (λ name. pure (policy name))
]

-- the end of resolve: the call of the method that was found
unfoldable pub call_found :
    {W : Type 0} → String → ℕ → Option (Method W) → Action W (Option (Option Response))
unfolding call_policy_method
call_found typ m none = pure none
call_found typ m (some method) = and_then (call_policy_method method typ m) (λ res. pure (some res))

-- resolve; the outer none is found = false
unfoldable pub resolve :
    {W : Type 0} → String → List Arg → PolicyResolver W → Action W (Option (Option Response))
unfolding find_model find_method call_found bytes
resolve ability args pr = elim (find_model args) [
  | none ↦ pure none
  | some (typ, m) ↦ elim (Dict.get pr.policies typ) [
    | none ↦ pure none
    | some policy ↦ and_then (find_method policy (bytes ability)) (call_found typ m)
  ]
]
