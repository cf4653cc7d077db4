-- ===== src/Tests/EventTests.antt =====
-- event/event.go on small inputs: the state is a log of the listeners that ran or were started. A listener
-- adds one to each argument in the slice.
use go_fast_framework.Common.{
  ℕ, ◌+◌, ◌≡◌, refl, String, Bool, true, false, Option, none, some, List, [], ◌∷◌, ◌++◌, map,
}
use go_fast_framework.Common.Action.{returned}
use go_fast_framework.Common.Dict
use go_fast_framework.Event.Bus.{
  EventArg, EventListener, Eventer, EventManager, listener_error, or_empty, new_event_manager,
  register, hand_over, run_listeners, dispatch,
}
use go_fast_framework.Event.Delivery.{Delivers, dispatch-Delivers}

program : Unit {0}
unfolding new_event_manager register hand_over run_listeners dispatch Dict.get Dict.assign
    Dict.empty
program = tt

abbrev Log : Type 0
Log = List ℕ

abbrev spawn : EventListener Log → List ℕ → Log → Log
spawn l args log = 100 ∷ log

abbrev log_error : String → ℕ → Log → Log
log_error signature e log = log

abbrev listener : String → Bool → Option ℕ → EventListener Log
listener name async err = record {
  signature = name;
  wants =
      λ args log. (returned (record { enable = async; queue = ""; connection = "" }, args), log);
  handle = λ args log. (returned (err, map (λ n. n + 1) args), args ++ log);
}

-- An event that hands on its arguments.
abbrev ordered : Eventer Log
ordered = record { key = "shop.Ordered"; handle = λ args log. (returned (args, none), log) }

abbrev registrations : List (Eventer Log × List (EventListener Log))
registrations =
    (ordered, listener "mail" true none ∷ listener "stock" false none ∷ [])
    ∷ (ordered, listener "bill" false (some 9) ∷ listener "never" false none ∷ [])
    ∷ []

abbrev bus : EventManager Log
bus = register registrations new_event_manager

abbrev numbered : List EventArg
numbered = record { type = "int"; value = 3 } ∷ []

stops_at_bill :
    dispatch spawn log_error ordered numbered bus []
    ≡ (returned (some (listener_error "bill" 9)), 4 ∷ 3 ∷ 100 ∷ [])
unfolding program
stops_at_bill = refl

stops :
    (dispatch spawn log_error ordered numbered bus []).0 ≡ returned (some (listener_error "bill" 9))
unfolding program
stops = refl

dispatch-Delivers_example :
    Delivers spawn log_error bus.queue_mgr
      (map (λ a. a.value) numbered)
      (or_empty (Dict.get bus.handlers "shop.Ordered"))
      []
      (some (listener_error "bill" 9))
      (dispatch spawn log_error ordered numbered bus []).1
dispatch-Delivers_example =
    dispatch-Delivers spawn log_error ordered numbered numbered bus []
      (some (listener_error "bill" 9)) refl stops
