-- ===== src/Tests/GateTests.antt =====
-- gate/ on small inputs: the state is a log of the callbacks that ran.
use go_fast_framework.Common.{
  ℕ, ◌≡◌, refl, true, false, Option, none, some, List, [], ◌∷◌, if◌then◌else◌,
}
use go_fast_framework.Common.Dict
use go_fast_framework.Cache.Memory.{utf8_bytes, bytes}
use go_fast_framework.Common.Action.{returned, panicked, Action}
use go_fast_framework.Gate.Policy
use go_fast_framework.Gate.Policy.{
  Arg, arg, Out, Param, Passed, Method, split_dash, to_upper, capitalize, capitalize_all,
  ability_to_method_name, fallback_name, arguments, response_of, call_policy_method, find_model,
  find_method, call_found, resolve,
}
use go_fast_framework.Gate.Inspect
use go_fast_framework.Gate.Inspect.{
  BeforeCallback, AfterCallback, Gate, new_gate, define, policy, run_before, decide, run_after,
  inspect, allows, denies,
}
use go_fast_framework.Gate.Faults.{Reaches, inspect_panicked}
use go_fast_framework.Gate.MethodNames.{has_dash, find_method_lem}

program : Unit {0}
unfolding utf8_bytes bytes split_dash to_upper capitalize capitalize_all ability_to_method_name
    fallback_name arguments response_of call_policy_method find_model find_method call_found resolve
    Policy.register new_gate define policy Inspect.before Inspect.after run_before decide run_after
    inspect allows denies has_dash Dict.get Dict.assign Dict.empty
program = tt

-- A policy whose methods all do the same, with a context and a post as parameters.
abbrev method_of : Action (List ℕ) (List Out) → Method (List ℕ)
method_of run = record {
  params =
      record { is_context = true; takes = λ typ. false }
      ∷ record { is_context = false; takes = λ typ. true }
      ∷ [];
  call = λ passed. run;
}

abbrev policy_of : Action (List ℕ) (List Out) → List ℕ → Option (Method (List ℕ))
policy_of run name = if has_dash name then none else some (method_of run)

-- A Before callback that has no opinion, and an After callback.
abbrev looks : BeforeCallback (List ℕ)
looks ability args log = (returned none, 1 ∷ log)

abbrev notes : AfterCallback (List ℕ)
notes ability res args log = (returned tt, 3 ∷ log)

abbrev gate_of : Action (List ℕ) (List Out) → Gate (List ℕ)
gate_of run = Inspect.after notes (Inspect.before looks (policy "Post" (policy_of run) new_gate))

abbrev allowing : Action (List ℕ) (List Out)
allowing log = (returned (Out.bool true ∷ []), 2 ∷ log)

abbrev panicking : Action (List ℕ) (List Out)
panicking log = (panicked, 2 ∷ log)

abbrev giving_nil : Action (List ℕ) (List Out)
giving_nil log = (returned (Out.nil ∷ []), 2 ∷ log)

abbrev post : List Arg
post = Arg.nil ∷ arg "Post" 9 ∷ []

abbrev both : List Passed
both = Passed.context ∷ Passed.model 9 ∷ []

name_of_update_post : ability_to_method_name (bytes "update-post") ≡ bytes "UpdatePost"
unfolding program
name_of_update_post = refl

is_allowed : allows "update-post" post (gate_of allowing) [] ≡ (returned true, 3 ∷ 2 ∷ 1 ∷ [])
unfolding program
is_allowed = refl

is_undefined : allows "update-post" [] (gate_of allowing) [] ≡ (returned false, 3 ∷ 1 ∷ [])
unfolding program
is_undefined = refl

method_of-Reaches :
    (run : Action (List ℕ) (List Out))
    → Reaches "update-post" post (gate_of run) (1 ∷ []) (method_of run) both
unfolding program
method_of-Reaches run = record {
  typ = "Post";
  m = 9;
  policy = policy_of run;
  undefined = refl;
  has_model = refl;
  has_policy = refl;
  found = refl;
  fits = refl;
}

inspect_panicked_example :
    ((inspect "update-post" post (gate_of panicking) []).0 ≡ returned none)
    × (((allows "update-post" post (gate_of panicking) []).0 ≡ panicked)
        × ((denies "update-post" post (gate_of panicking) []).0 ≡ panicked))
unfolding program
inspect_panicked_example =
    inspect_panicked "update-post" post (gate_of panicking) [] (1 ∷ []) (method_of panicking) both
      refl (method_of-Reaches panicking) refl refl

find_method_lem_example :
    find_method (policy_of allowing) (118 ∷ 105 ∷ 101 ∷ 119 ∷ []) (4 ∷ [])
    ≡ (returned (policy_of allowing (ability_to_method_name (118 ∷ 105 ∷ 101 ∷ 119 ∷ []))), 4 ∷ [])
find_method_lem_example =
    find_method_lem (policy_of allowing) 118 (105 ∷ 101 ∷ 119 ∷ []) (4 ∷ []) (λ name dash. rw dash)
