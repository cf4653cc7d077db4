-- ===== src/Gate/Inspect.antt =====
-- gate/gate.go. A callback is an action on the state of the program; the context of the check is
-- part of that state. The texts of responses that the code formats are shortened.
use go_fast_framework.Common.{
  ℕ, String, Bool, false, not, Option, none, some, List, [], ◌∷◌, ◌++◌, if◌then◌else◌,
}
use go_fast_framework.Common.Dict
use go_fast_framework.Common.Dict.{Dict}
use go_fast_framework.Common.Action.{Action, and_then, pure, panic}
use go_fast_framework.Gate.Response.{Response, new_response}
use go_fast_framework.Gate.Policy
use go_fast_framework.Gate.Policy.{Arg, Method, PolicyResolver, resolve}

-- GateCallback, GateBeforeCallback and GateAfterCallback, without the context
abbrev pub Callback : Type 0 → Type 0
Callback W = List Arg → Action W Bool

abbrev pub BeforeCallback : Type 0 → Type 0
BeforeCallback W = String → List Arg → Action W (Option Response)

abbrev pub AfterCallback : Type 0 → Type 0
AfterCallback W = String → Option Response → List Arg → Action W (Unit {0})

-- gate
pub record Gate (W : Type 0) : Type 0 where
  pub abilities : Dict (Callback W)
  pub before : List (BeforeCallback W)
  pub after : List (AfterCallback W)
  pub policies : PolicyResolver W

-- Whether a Before callback decides: res != nil && res.Denied()
abbrev pub denies_at_once : Option Response → Bool
denies_at_once none = false
denies_at_once (some r) = r.denied

-- the default: what Inspect takes when no policy decides
abbrev pub or_deny : Option (Option Response) → Option Response
or_deny (some res) = res
or_deny none = some (new_response false "ability not defined")

module _ {W : Type 0} where
  -- NewGate and newPolicyResolver
  unfoldable pub new_gate : Gate W
  new_gate = record {
    abilities = Dict.empty;
    before = [];
    after = [];
    policies = record { policies = Dict.empty };
  }

  -- Define
  unfoldable pub define : String → Callback W → Gate W → Gate W
  define ability callback g = record g { abilities = Dict.assign g.abilities ability callback }

  -- Policy
  unfoldable pub policy : String → (List ℕ → Option (Method W)) → Gate W → Gate W
  policy typ p g = record g { policies = Policy.register typ p g.policies }

  -- Before
  unfoldable pub before : BeforeCallback W → Gate W → Gate W
  before callback g = record g { before = g.before ++ callback ∷ [] }

  -- After
  unfoldable pub after : AfterCallback W → Gate W → Gate W
  after callback g = record g { after = g.after ++ callback ∷ [] }

  -- The loop over the Before callbacks: the response of the first that denies.
  unfoldable pub run_before :
      List (BeforeCallback W) → String → List Arg → Action W (Option Response)
  run_before [] ability args = pure none
  run_before (f ∷ fs) ability args =
      let rest = run_before fs ability args in
      and_then (f ability args) (λ res. if denies_at_once res then pure res else rest)

  -- The response that Inspect comes to after that loop.
  unfoldable pub decide : String → List Arg → Gate W → Action W (Option Response)
  unfolding resolve
  decide ability args g = elim (Dict.get g.abilities ability) [
    | some callback ↦ and_then (callback args) (λ allowed. pure (some (new_response allowed "")))
    | none ↦ and_then (resolve ability args g.policies) (λ found. pure (or_deny found))
  ]

  abbrev pub unless_denied :
      Action W (Option Response) → Option Response → Action W (Option Response)
  unless_denied next (some res) = pure (some res)
  unless_denied next none = next

  -- runAfter
  unfoldable pub run_after :
      List (AfterCallback W) → String → Option Response → List Arg → Action W (Unit {0})
  run_after [] ability res args = pure tt
  run_after (f ∷ fs) ability res args =
      let rest = run_after fs ability res args in and_then (f ability res args) (λ done. rest)

  -- Inspect
  unfoldable pub inspect : String → List Arg → Gate W → Action W (Option Response)
  inspect ability args g =
      and_then (and_then (run_before g.before ability args) (unless_denied (decide ability args g)))
        (λ res. and_then (run_after g.after ability res args) (λ done. pure res))

  -- a method call on a response, which panics on nil
  abbrev pub ask : (Response → Bool) → Option Response → Action W Bool
  ask method none = panic
  ask method (some r) = pure (method r)

  -- Allows and Denies
  unfoldable pub allows : String → List Arg → Gate W → Action W Bool
  allows ability args g = and_then (inspect ability args g) (ask (λ r. r.allowed))

  unfoldable pub denies : String → List Arg → Gate W → Action W Bool
  denies ability args g = and_then (inspect ability args g) (ask (λ r. r.denied))

  -- Denies of a GateUser, whose Allows is that of the gate for a context that has only the user
  unfoldable pub user_denies : String → List Arg → Gate W → Action W Bool
  user_denies ability args g = and_then (allows ability args g) (λ allowed. pure (not allowed))
