-- ===== src/Foundation/Follows.antt =====
-- Runs of the phases of Boot: a phase is left out exactly when the service that it needs is not bound.
use go_fast_framework.Common.{
  ◌≡◌, refl, ap, ◌∙◌, String, Bool, true, false, ◌&&◌, ◌||◌, Option, none, some, List, [], ◌∷◌,
  ◌++◌, if◌then◌else◌,
}
use go_fast_framework.Common.Dict
use go_fast_framework.Foundation.Container
use go_fast_framework.Foundation.Application.{
  Ending, returned, panicked, blocked, starved, App, Act, resume, bound,
}
use go_fast_framework.Foundation.Script.{Event, is_returned, Ran, all_logged}

-- A phase: the key that it needs, what it does, and the events that it is to have.
pub record Phase (W : Type 0) : Type 0 where
  pub needs : Option String
  pub act : Act W (Unit {0})
  pub events : List Event

-- Whether the key is one of a deferred provider or of the container.
abbrev pub has_needed : {W : Type 0} → Option String → App W → Bool
has_needed none c = true
has_needed (some key) c =
    Dict.is_some (Dict.get c.app.deferred_map key) || Dict.is_some (Dict.get c.bindings key)

-- A run of phases from a state. A phase whose key is there either returns with all its events, and the
-- next one starts where it stopped, or ends the run with a first part of them; a phase whose key is not
-- there is left out, and changes nothing.
pub data Follows {W : Type 0} (log : W → List Event)
    : App W → List (Phase W) → Ending (Unit {0}) × App W → Type 0 where
  finished : {c : App W} → Follows log c [] (returned tt, c)
  whole :
      {c d : App W} {ph : Phase W} {phs : List (Phase W)} {r : Ending (Unit {0}) × App W}
      → has_needed ph.needs c ≡ true
      → ph.act c ≡ (returned tt, d)
      → log d.app.world ≡ log c.app.world ++ ph.events
      → Follows log d phs r
      → Follows log c (ph ∷ phs) r
  skipped :
      {c : App W} {ph : Phase W} {phs : List (Phase W)} {r : Ending (Unit {0}) × App W}
      → has_needed ph.needs c ≡ false
      → Follows log c phs r
      → Follows log c (ph ∷ phs) r
  ended :
      {c d : App W} {ph : Phase W} {phs : List (Phase W)} (o : Ending (Unit {0}))
      (logged left : List Event)
      → has_needed ph.needs c ≡ true
      → ph.act c ≡ (o, d)
      → is_returned o ≡ false
      → logged ++ left ≡ ph.events
      → log d.app.world ≡ log c.app.world ++ logged
      → Follows log c (ph ∷ phs) (o, d)

module _ {W : Type 0} where
  -- Bound asks for the key that a phase needs.
  pub bound-has_needed : (key : String) (c : App W) → has_needed (some key) c ≡ bound key c
  unfolding bound Container.bound
  bound-has_needed key c = by_test (Dict.is_some (Dict.get c.app.deferred_map key))
    where
      by_test :
          (t : Bool)
          → (t || Dict.is_some (Dict.get c.bindings key))
            ≡ (if t then true else Dict.is_some (Dict.get c.bindings key))
      by_test true = refl
      by_test false = refl

module _ {W : Type 0} (log : W → List Event) (ph : Phase W) (phs : List (Phase W)) where
  -- What follows an ending is left out with it.
  pub last-Follows :
      {c : App W} (r : Ending (Unit {0}) × App W)
      → Follows log c (ph ∷ phs) (resume (λ u d. (returned u, d)) r.0 r.1)
      → Follows log c (ph ∷ phs) r
  last-Follows (returned a, d) f = f
  last-Follows (panicked, d) f = f
  last-Follows (blocked, d) f = f
  last-Follows (starved, d) f = f

  module _ (f : Unit {0} → Act W (Unit {0})) (c : App W) where
    -- The phases after this one follow, from each state in which it can return.
    abbrev Goes : Type 0
    Goes = (d : App W) → d.app.deferred_map ≡ c.app.deferred_map → Follows log d phs (f tt d)

    ended_early :
        {d : App W} (o : Ending (Unit {0}))
        → ph.act c ≡ (o, d)
        → is_returned o ≡ false
        → has_needed ph.needs c ≡ true
        → Ran log c ph.events (o, d)
        → Follows log c (ph ∷ phs) (o, d)
    ended_early o e h needed ran = ended o ran.logged ran.left needed e h ran.split ran.in_log

    pub phase-Follows :
        (r : Ending (Unit {0}) × App W)
        → ph.act c ≡ r
        → has_needed ph.needs c ≡ true
        → Ran log c ph.events r
        → Goes
        → Follows log c (ph ∷ phs) (resume f r.0 r.1)
    phase-Follows (returned a, d) e needed ran k =
        whole needed e
          (ran.in_log ∙ ap (λ l. log c.app.world ++ l) (all_logged log ph.events _ ran refl))
          (k d ran.same_map)
    phase-Follows (panicked, d) e needed ran k = ended_early panicked e refl needed ran
    phase-Follows (blocked, d) e needed ran k = ended_early blocked e refl needed ran
    phase-Follows (starved, d) e needed ran k = ended_early starved e refl needed ran

    -- A phase that asks for its key first.
    pub guarded-Follows :
        (t : Bool) (r : Ending (Unit {0}) × App W)
        → ph.act c ≡ (if t then r else (returned tt, c))
        → has_needed ph.needs c ≡ t
        → Ran log c ph.events r
        → Goes
        → Follows log c
            (ph ∷ phs)
            (resume f (if t then r else (returned tt, c)).0 (if t then r else (returned tt, c)).1)
    guarded-Follows true r e needed ran k = phase-Follows r e needed ran k
    guarded-Follows false r e needed ran k = skipped needed (k c refl)

    -- A phase that also asks whether it has anything to do.
    pub if_any-Follows :
        (h t : Bool) (r : Ending (Unit {0}) × App W)
        → ph.act c ≡ (if h && t then r else (returned tt, c))
        → has_needed ph.needs c ≡ t
        → (h ≡ false → Ran log c ph.events (returned tt, c))
        → Ran log c ph.events r
        → Goes
        → Follows log c (ph ∷ phs) (
            resume f
              (if h && t then r else (returned tt, c)).0
              (if h && t then r else (returned tt, c)).1)
    if_any-Follows true t r e needed idle ran k = guarded-Follows t r e needed ran k
    if_any-Follows false true r e needed idle ran k =
        phase-Follows (returned tt, c) e needed (idle refl) k
    if_any-Follows false false r e needed idle ran k = skipped needed (k c refl)
