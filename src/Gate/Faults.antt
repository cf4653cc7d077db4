-- ===== src/Gate/Faults.antt =====
-- What the gate makes of a policy method that panics, or that returns a nil error.
use go_fast_framework.Common.{ℕ, ◌≡◌, String, false, Option, none, some, List, ◌∷◌}
use go_fast_framework.Common.Dict
use go_fast_framework.Common.Dict.{Dict}
use go_fast_framework.Cache.Memory.{bytes}
use go_fast_framework.Common.Action.{returned, panicked}
use go_fast_framework.Gate.Policy.{
  Arg, Out, Passed, Method, arguments, response_of, recovered, call_policy_method, find_model,
  find_method, call_found, resolve,
}
use go_fast_framework.Gate.Inspect.{Gate, run_before, decide, run_after, inspect, allows, denies}

-- The check, in a state, comes to this method of the policy of the model's type, with these arguments.
pub record Reaches {W : Type 0} (ability : String) (args : List Arg) (g : Gate W) (w : W)
    (method : Method W) (passed : List Passed) : Type 0 where
  pub typ : String
  pub m : ℕ
  pub policy : List ℕ → Option (Method W)
  pub undefined : Dict.get g.abilities ability ≡ none
  pub has_model : find_model args ≡ some (typ, m)
  pub has_policy : Dict.get g.policies.policies typ ≡ some policy
  pub found : find_method policy (bytes ability) w ≡ (returned (some method), w)
  pub fits : arguments 0 method.params typ m ≡ some passed

module _ {W : Type 0} (ability : String) (args : List Arg) (g : Gate W) (first w : W)
    (method : Method W) (passed : List Passed)
    (none_denied : run_before g.before ability args first ≡ (returned none, w))
    (reaches : Reaches ability args g w method passed) where
  decide_reached :
      decide ability args g w
      ≡ (returned (recovered (method.call passed w).0), (method.call passed w).1)
  unfolding decide resolve call_found call_policy_method
  decide_reached = rw (
    reaches.undefined, decide, reaches.has_model, resolve, reaches.has_policy, reaches.found,
    call_found, call_policy_method, reaches.fits,
  )

  -- No Before callback denies, the ability has no callback, and the policy method of the model's
  -- type is called and panics. When the After callbacks return, Inspect returns a nil response, and Allows
  -- and Denies panic.
  pub inspect_panicked :
      (method.call passed w).0 ≡ panicked
      → (run_after g.after ability none args (method.call passed w).1).0 ≡ returned tt
      → ((inspect ability args g first).0 ≡ returned none)
        × (((allows ability args g first).0 ≡ panicked)
            × ((denies ability args g first).0 ≡ panicked))
  unfolding inspect allows denies
  inspect_panicked panics ends = (
    rw (none_denied, decide_reached, panics, ends),
    (
      rw (inspect, none_denied, decide_reached, panics, ends),
      rw (inspect, none_denied, decide_reached, panics, ends),
    ),
  )

  -- No Before callback denies, the ability has no callback, and the policy method of the model's
  -- type returns a nil error. When the After callbacks return, Allows gives false.
  pub allows_nil :
      (outs : List Out)
      → (method.call passed w).0 ≡ returned (Out.nil ∷ outs)
      → (run_after g.after ability
          (some (response_of (Out.nil ∷ outs)))
          args
          (method.call passed w).1).0
        ≡ returned tt
      → (allows ability args g first).0 ≡ returned false
  unfolding inspect allows response_of
  allows_nil outs gives ends = rw (inspect, none_denied, decide_reached, gives, ends)
