-- ===== src/Foundation/Phases.antt =====
-- Boot follows its phases.
use go_fast_framework.Common.{
  ◌≡◌, String, Bool, true, false, ◌||◌, Option, none, some, List, [], ◌∷◌,
}
use go_fast_framework.Common.Dict
use go_fast_framework.Common.Dict.{Dict}
use go_fast_framework.Foundation.Application.{Provider, App, Behaviour}
use go_fast_framework.Foundation.Boot.{
  defer_all, having, each, set_all_defaults, boot_all, migrate_all, route_all,
}
use go_fast_framework.Foundation.Script.{
  Event, registered, defaulted, booted, migrated, routed, events_of,
}
use go_fast_framework.Foundation.Follows.{Phase, Follows}
use go_fast_framework.Foundation.BootOrder.{AllImmediate, IsLogged}

-- Whether a deferred provider offers a key.
abbrev pub offered : String → Option (List String) → Bool
offered key none = false
offered key (some keys) = Dict.contains key keys

unfoldable pub offers : String → List Provider → Bool
unfolding Dict.contains
offers key [] = false
offers key (p ∷ ps) = offered key p.deferred_services || offers key ps

-- The phases of Boot, in their order, each with the key without which it is left out.
abbrev pub phases : {W : Type 0} → Behaviour W → List Provider → List Provider → List (Phase W)
phases b ps configured =
    record { needs = none; act = each b.register ps; events = events_of (λ p. registered p.id) ps }
    ∷ record {
      needs = some "config";
      act = set_all_defaults b configured;
      events = events_of (λ p. defaulted p.id) configured;
    }
    ∷ record { needs = none; act = boot_all b ps; events = events_of (λ p. booted p.id) ps }
    ∷ record {
      needs = some "db";
      act = migrate_all b ps;
      events = events_of (λ p. migrated p.id) (having (λ p. p.is_migrator) ps);
    }
    ∷ record {
      needs = some "route";
      act = route_all b ps;
      events = events_of (λ p. routed p.id) (having (λ p. p.is_registrar) ps);
    }
    ∷ []

-- The state in which the first phase begins: marked as booted, with the deferred providers set aside.
abbrev pub set_aside : {W : Type 0} → App W → App W
set_aside c = record c {
  app = defer_all c.app.providers (record c.app { booted = true; deferred_map = Dict.empty });
}

module _ {W : Type 0} (log : W → List Event) (b : Behaviour W) (logged : IsLogged log b) where
  abbrev NotMapped : App W → Type 0
  NotMapped c =
      (Dict.get c.app.deferred_map "config" ≡ none)
      × ((Dict.get c.app.deferred_map "db" ≡ none) × (Dict.get c.app.deferred_map "route" ≡ none))

  module _ (ps configured : List Provider) (a : AllImmediate ps) where
    abbrev routing : List (Phase W)
    routing =
        record {
          needs = some "route";
          act = route_all b ps;
          events = events_of (λ p. routed p.id) (having (λ p. p.is_registrar) ps);
        }
        ∷ []

    abbrev migrating : List (Phase W)
    migrating =
        record {
          needs = some "db";
          act = migrate_all b ps;
          events = events_of (λ p. migrated p.id) (having (λ p. p.is_migrator) ps);
        }
        ∷ routing

    abbrev booting : List (Phase W)
    booting =
        record { needs = none; act = boot_all b ps; events = events_of (λ p. booted p.id) ps }
        ∷ migrating
