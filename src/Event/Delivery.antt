-- ===== src/Event/Delivery.antt =====
-- Which listeners an event reaches.
use text.Mathlib.Text.{◌==◌ as str_eq}
use text.Mathlib.TextEquality.{eq_iff}
use go_fast_framework.Common.{
  ℕ, ◌≡◌, refl, sym, ap, subst, ◌∙◌, String, true, false, Option, none, some, List, [], ◌∷◌, ◌++◌,
  map, if◌then◌else◌, Bool-cases, inl, inr, append_assoc, append_nil,
}
use go_fast_framework.Common.Action.{Outcome-cases, returned, panicked}
use go_fast_framework.Common.Dict
use go_fast_framework.Common.Dict.{Dict, get-assign}
use go_fast_framework.Event.Bus.{
  EventArg, EventQueue, EventListener, Eventer, Queue, EventManager, EventError, listener_error,
  or_empty, register, hand_over, run_listeners, dispatch,
}

-- The listeners that some registrations give for a key, in order.
abbrev pub listeners_for :
    {W : Type 0} → String → List (Eventer W × List (EventListener W)) → List (EventListener W)
listeners_for k [] = []
listeners_for k ((e, listeners) ∷ rest) =
    let others = listeners_for k rest in if str_eq e.key k then listeners ++ others else others

-- After Register the listeners of a key are those that it had, followed by those that the
-- registrations give for it, in their order.
pub handlers-register :
    {W : Type 0} (regs : List (Eventer W × List (EventListener W))) (m : EventManager W)
    (k : String)
    → or_empty (Dict.get (register regs m).handlers k)
      ≡ or_empty (Dict.get m.handlers k) ++ listeners_for k regs
unfolding register
handlers-register [] m k = sym (append_nil (or_empty (Dict.get m.handlers k)))
handlers-register ((e, listeners) ∷ rest) m k =
    let m' = record m {
      events = Dict.assign m.events e.key e;
      handlers = Dict.assign m.handlers e.key (or_empty (Dict.get m.handlers e.key) ++ listeners);
    } in
    let ih = handlers-register rest m' k in
    let at = get-assign m.handlers e.key k (or_empty (Dict.get m.handlers e.key) ++ listeners) in
    elim (Bool-cases (str_eq e.key k)) [
      | inl same ↦
          let others = listeners_for k rest in
          ih
          ∙ rw (at, same)
              (append_assoc (or_empty (Dict.get m.handlers e.key)) listeners others
                ∙ ap (λ j. or_empty (Dict.get m.handlers j) ++ (listeners ++ others))
                    ((eq_iff e.key k).0 same))
      | inr other ↦ ih ∙ rw (at, other)
    ]

returned_same : {A : Type 0} {a b : A} → returned a ≡ returned b → a ≡ b
returned_same h = cc

module _ {W : Type 0} (spawn : EventListener W → List ℕ → W → W)
    (log_error : String → ℕ → W → W) where
  -- An error of the queue is logged.
  abbrev pub logged : String → Option ℕ → W → W
  logged signature none w = w
  logged signature (some e) w = log_error signature e w

  -- What becomes of a listener that is handed over: the queue's Dispatch gets it with the queue and the
  -- connection that it wants, or without a queue a goroutine is started.
  pub data HandedOver (q : Option (Queue W)) (l : EventListener W) (args : List ℕ)
      (wanted : EventQueue) (w : W) : W → Type 0 where
    queued :
        (dispatch_job : Queue W) (result : Option ℕ)
        → q ≡ some dispatch_job
        → (dispatch_job l args wanted.queue wanted.connection w).0 ≡ returned result
        → HandedOver q l args wanted w
            (logged l.signature result (dispatch_job l args wanted.queue wanted.connection w).1)
    started : q ≡ none → HandedOver q l args wanted w (spawn l args w)

  hand_over-HandedOver :
      (q : Option (Queue W)) (l : EventListener W) (args : List ℕ) (wanted : EventQueue) (w : W)
      → (hand_over spawn log_error q l args wanted.queue wanted.connection w).0 ≡ returned tt
      → HandedOver q l args wanted w
          (hand_over spawn log_error q l args wanted.queue wanted.connection w).1
  unfolding hand_over
  hand_over-HandedOver none l args wanted w h = HandedOver.started refl
  hand_over-HandedOver (some d) l args wanted w h =
      elim (Outcome-cases (d l args wanted.queue wanted.connection w).0) [
        | inl panics ↦ let never : panicked ≡ returned tt = sym (rw panics) ∙ h in absurd cc
        | inr (none, gives) ↦ rw gives (HandedOver.queued d none refl gives)
        | inr (some e, gives) ↦ rw gives (HandedOver.queued d (some e) refl gives)
      ]

module _ {W : Type 0} (spawn : EventListener W → List ℕ → W → W) (log_error : String → ℕ → W → W)
    (q : Option (Queue W)) where
  -- The listeners from a state on, with the answer and the state at the end. A listener that does
  -- not want a queue runs at once, and an error of it is the answer; one that does is handed over,
  -- and the next follows. Each gets the arguments as the one before it left them.
  pub data Delivers : List ℕ → List (EventListener W) → W → Option EventError → W → Type 0 where
    nobody : (args : List ℕ) (w : W) → Delivers args [] w none w
    fails :
        (l : EventListener W) (ls : List (EventListener W)) (wanted : EventQueue) (e : ℕ)
        (args seen left : List ℕ) (w : W)
        → (l.wants args w).0 ≡ returned (wanted, seen)
        → wanted.enable ≡ false
        → (l.handle seen (l.wants args w).1).0 ≡ returned (some e, left)
        → Delivers args
            (l ∷ ls)
            w
            (some (listener_error l.signature e))
            (l.handle seen (l.wants args w).1).1
    handles :
        (l : EventListener W) (ls : List (EventListener W)) (wanted : EventQueue)
        (o : Option EventError) (args seen left : List ℕ) (w w' : W)
        → (l.wants args w).0 ≡ returned (wanted, seen)
        → wanted.enable ≡ false
        → (l.handle seen (l.wants args w).1).0 ≡ returned (none, left)
        → Delivers left ls (l.handle seen (l.wants args w).1).1 o w'
        → Delivers args (l ∷ ls) w o w'
    hands_over :
        (l : EventListener W) (ls : List (EventListener W)) (wanted : EventQueue)
        (o : Option EventError) (args seen : List ℕ) (w w1 w' : W)
        → (l.wants args w).0 ≡ returned (wanted, seen)
        → wanted.enable ≡ true
        → HandedOver spawn log_error q l seen wanted (l.wants args w).1 w1
        → Delivers seen ls w1 o w'
        → Delivers args (l ∷ ls) w o w'

  run_listeners-Delivers :
      (ls : List (EventListener W)) (args : List ℕ) (w : W) (o : Option EventError)
      → (run_listeners spawn log_error q ls args w).0 ≡ returned o
      → Delivers args ls w o (run_listeners spawn log_error q ls args w).1
  unfolding run_listeners
  run_listeners-Delivers [] args w o h =
      let e : none ≡ o = returned_same h in
      subst (λ x. Delivers args [] w x w) e (Delivers.nobody args w)
  run_listeners-Delivers (l ∷ ls) args w o h = elim (Outcome-cases (l.wants args w).0) [
    | inl panics ↦ let never : panicked ≡ returned o = sym (rw panics) ∙ h in absurd cc
    | inr ((wanted, seen), wants) ↦
        let w1 = (l.wants args w).1 in
        elim (Bool-cases wanted.enable) [
          | inl later ↦
              elim (Outcome-cases
                (hand_over spawn log_error q l seen wanted.queue wanted.connection w1).0) [
                  | inl panics ↦
                      let never : panicked ≡ returned o = sym (rw (wants, later, panics)) ∙ h in
                      absurd cc
                  | inr (done, handed) ↦
                      rw (wants, later, handed)
                        (Delivers.hands_over l ls wanted o args seen w _ _ wants later
                          (hand_over-HandedOver spawn log_error q l seen wanted w1 handed)
                          (run_listeners-Delivers ls seen
                            (hand_over spawn log_error q l seen wanted.queue wanted.connection w1).1
                            o (sym (rw (wants, later, handed)) ∙ h)))
                ]
          | inr at_once ↦ elim (Outcome-cases (l.handle seen w1).0) [
            | inl panics ↦
                let never : panicked ≡ returned o = sym (rw (wants, at_once, panics)) ∙ h in
                absurd cc
            | inr ((none, left), gives) ↦
                rw (wants, at_once, gives)
                  (Delivers.handles l ls wanted o args seen left w _ wants at_once gives (
                    run_listeners-Delivers ls left (l.handle seen w1).1 o
                      (sym (rw (wants, at_once, gives)) ∙ h)))
            | inr ((some e, left), gives) ↦
                let same : some (listener_error l.signature e) ≡ o =
                  returned_same (sym (rw (wants, at_once, gives)) ∙ h) in
                rw (wants, at_once, gives)
                  (subst (λ x. Delivers args (l ∷ ls) w x (l.handle seen w1).1) same
                    (Delivers.fails l ls wanted e args seen left w wants at_once gives))
          ]
        ]
  ]

-- The Handle of an event returns arguments and no error, and dispatch returns: then the listeners
-- that are registered for the event were run or handed over in their order, from the state that
-- Handle left, the first on the values of those arguments and each other on what the one before it
-- left in the slice, up to the first that runs at once and fails, whose error is
-- the answer; without one, all of them were, and the answer is nil. A listener is handed
-- over with the arguments as they are then, to the Dispatch of the queue, whose error is only logged, or
-- without a queue to a goroutine; this never ends the propagation.
pub dispatch-Delivers :
    {W : Type 0} (spawn : EventListener W → List ℕ → W → W) (log_error : String → ℕ → W → W)
    (e : Eventer W) (args processed : List EventArg) (m : EventManager W) (w : W)
    (o : Option EventError)
    → (e.handle args w).0 ≡ returned (processed, none)
    → (dispatch spawn log_error e args m w).0 ≡ returned o
    → Delivers spawn log_error m.queue_mgr
        (map (λ a. a.value) processed)
        (or_empty (Dict.get m.handlers e.key))
        (e.handle args w).1
        o
        (dispatch spawn log_error e args m w).1
unfolding dispatch
dispatch-Delivers spawn log_error e args processed m w o handled h = rw handled (
    run_listeners-Delivers spawn log_error m.queue_mgr (or_empty (Dict.get m.handlers e.key))
      (map (λ a. a.value) processed) (e.handle args w).1 o (sym (rw handled) ∙ h))
