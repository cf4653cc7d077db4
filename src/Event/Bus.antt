-- ===== src/Event/Bus.antt =====
-- event/event.go. The Handle of an event and of a listener are actions on the state of the program.
-- The queue that may be attached is its Dispatch of a listener; a goroutine that is started and a
-- line of the log are the parameters `spawn` and `log_error`.
use go_fast_framework.Common.{
  ℕ, String, Bool, Option, none, some, List, [], ◌∷◌, ◌++◌, map, if◌then◌else◌,
}
use go_fast_framework.Common.Action.{returned, Action, and_then, pure}
use go_fast_framework.Common.Dict
use go_fast_framework.Common.Dict.{Dict}

-- contracts.EventArg, whose type is only a description
pub record EventArg : Type 0 where
  pub type : String
  pub value : ℕ

-- contracts.EventQueue: how a listener wants to run
pub record EventQueue : Type 0 where
  pub enable : Bool
  pub queue : String
  pub connection : String

-- A listener. Queue and Handle get the slice of the arguments itself, whose elements they may write: each
-- returns with what it leaves there.
pub record EventListener (W : Type 0) : Type 0 where
  pub signature : String
  pub wants : List ℕ → Action W (EventQueue × List ℕ)
  pub handle : List ℕ → Action W (Option ℕ × List ℕ)

-- An event with its eventKey; Handle returns the arguments and an error.
pub record Eventer (W : Type 0) : Type 0 where
  pub key : String
  pub handle : List EventArg → Action W (List EventArg × Option ℕ)

-- Dispatch of a listenerJob on a queue and a connection: the error, or none. Its arguments are copied
-- into new ones, so that it does not write to the slice.
abbrev pub Queue : Type 0 → Type 0
Queue W = EventListener W → List ℕ → String → String → Action W (Option ℕ)

-- manager, without its log
pub record EventManager (W : Type 0) : Type 0 where
  pub handlers : Dict (List (EventListener W))
  pub events : Dict (Eventer W)
  pub queue_mgr : Option (Queue W)

pub data EventError : Type 0 where
  event_error : String → ℕ → EventError
  listener_error : String → ℕ → EventError

-- a nil slice for a missing key
abbrev pub or_empty {ℓ} : {A : Type ℓ} → Option (List A) → List A
or_empty none = []
or_empty (some l) = l

module _ {W : Type 0} where
  -- New
  unfoldable pub new_event_manager : EventManager W
  new_event_manager = record { handlers = Dict.empty; events = Dict.empty; queue_mgr = none }

  -- SetQueue
  unfoldable pub set_queue : Queue W → EventManager W → EventManager W
  set_queue q m = record m { queue_mgr = some q }

  -- Register, of a map as the list of its entries in the order of the range
  unfoldable pub register :
      List (Eventer W × List (EventListener W)) → EventManager W → EventManager W
  register [] m = m
  register ((e, listeners) ∷ rest) m = register rest (record m {
    events = Dict.assign m.events e.key e;
    handlers = Dict.assign m.handlers e.key (or_empty (Dict.get m.handlers e.key) ++ listeners);
  })

  module _ (spawn : EventListener W → List ℕ → W → W) (log_error : String → ℕ → W → W) where
    -- after the queue's Dispatch: an error is only logged
    abbrev pub log_failure : String → Option ℕ → Action W (Unit {0})
    log_failure signature none w = (returned tt, w)
    log_failure signature (some e) w = (returned tt, log_error signature e w)

    -- a listener with Enable
    unfoldable pub hand_over :
        Option (Queue W) → EventListener W → List ℕ → String → String → Action W (Unit {0})
    hand_over (some dispatch_job) l args queue connection =
        and_then (dispatch_job l args queue connection) (log_failure l.signature)
    hand_over none l args queue connection = λ w. (returned tt, spawn l args w)

    abbrev pub unless_failed :
        String
        → (List ℕ → Action W (Option EventError))
        → Option ℕ × List ℕ
        → Action W (Option EventError)
    unless_failed signature rest (none, args) = rest args
    unless_failed signature rest (some e, args) = pure (some (listener_error signature e))

    -- The loop over the listeners, which share the slice of the arguments. A goroutine that is started
    -- gets it as it is then.
    unfoldable pub run_listeners :
        Option (Queue W) → List (EventListener W) → List ℕ → Action W (Option EventError)
    unfolding hand_over
    run_listeners q [] args = pure none
    run_listeners q (l ∷ ls) args =
        let rest = run_listeners q ls in
        and_then (l.wants args) (λ wanted.
          if wanted.0.enable
          then and_then (hand_over q l wanted.1 wanted.0.queue wanted.0.connection)
              (λ done. rest wanted.1)
          else and_then (l.handle wanted.1) (unless_failed l.signature rest))

    abbrev pub after_handle :
        EventManager W → String → List EventArg × Option ℕ → Action W (Option EventError)
    after_handle m key (processed, some e) = pure (some (event_error key e))
    after_handle m key (processed, none) =
        run_listeners m.queue_mgr (or_empty (Dict.get m.handlers key))
          (map (λ a. a.value) processed)

    -- dispatch
    unfoldable pub dispatch :
        Eventer W → List EventArg → EventManager W → Action W (Option EventError)
    unfolding run_listeners
    dispatch e args m = and_then (e.handle args) (after_handle m e.key)
