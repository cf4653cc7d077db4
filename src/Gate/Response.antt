-- ===== src/Gate/Response.antt =====
-- gate/response.go.
use go_fast_framework.Common.{String, Bool, not}

-- A value of contracts.GateResponse that is not nil: what its three methods return. Programs may
-- have their own.
pub record Response : Type 0 where
  pub allowed : Bool
  pub denied : Bool
  pub message : String

-- newResponse
abbrev pub new_response : Bool → String → Response
new_response allowed message = record { allowed = allowed; denied = not allowed; message = message }
