-- ===== src/Gate/Decision.antt =====
-- When Allows says yes.
use go_fast_framework.Common.{◌≡◌, String, false, none, some, List, ◌⊎◌}
use go_fast_framework.Common.Action.{returned, panicked}
use go_fast_framework.Gate.Response.{Response}
use go_fast_framework.Gate.Policy.{Arg}
use go_fast_framework.Gate.Inspect.{BeforeCallback, Gate, run_before}
use go_fast_framework.Gate.Granting.{Passes}

module _ {W : Type 0} (ability : String) (args : List Arg) where
  -- The three ends of the loop over the Before callbacks.
  abbrev Ends : List (BeforeCallback W) → W → Type 0
  Ends fs w =
      (((run_before fs ability args w).0 ≡ returned none)
        × Passes ability args fs w (run_before fs ability args w).1)
      ⊎ (((run_before fs ability args w).0 ≡ panicked)
          ⊎ ((r : Response) × (((run_before fs ability args w).0 ≡ returned (some r))
                × (r.allowed ≡ false))))
