-- ===== src/Tests/ApplicationTests.antt =====
-- foundation/application.go on small applications.
use go_fast_framework.Common.{ℕ, ◌≡◌, refl, true, false, none, some, List, [], ◌∷◌, ◌++◌}
use go_fast_framework.Common.Dict
use go_fast_framework.Foundation.Container
use go_fast_framework.Foundation.Application.{
  returned, blocked, Provider, App, Act, Behaviour, new_application, set_providers, bound,
  migrate_deferred, route_deferred, run_deferred_lifecycle_hooks, initialize, boot_deferred_with,
  must_make_with, boot_deferred_if_needed, or_panic, entry_at, make, must_make, on_shutdown,
  run_hooks, shutdown, flush,
}
use go_fast_framework.Foundation.Boot.{
  defer_all, immediate, having, each, set_all_defaults, boot_all, migrate_all, route_all,
  run_phases, boot_providers, boot,
}
use go_fast_framework.Foundation.Later.{Later, Later-refl}
use go_fast_framework.Foundation.Calm.{IsCalm, is_starved}
use go_fast_framework.Foundation.Deferred.{make-Fine, boot_deferred_if_needed_once}
use go_fast_framework.Foundation.Waits.{make_waits}
use go_fast_framework.Foundation.Script.{Event, registered, defaulted, booted, migrated, routed}
use go_fast_framework.Foundation.Container.{gave}
use go_fast_framework.Foundation.Follows.{Follows}
use go_fast_framework.Foundation.Phases.{offers}

program : Unit {0}
unfolding Dict.get Dict.assign Dict.empty Dict.delete Dict.contains Container.put_binding
    Container.instance_of Container.bound Container.make Container.make_binding
    Container.make_singleton Container.singleton new_application set_providers bound
    migrate_deferred route_deferred run_deferred_lifecycle_hooks initialize boot_deferred_with
    must_make_with boot_deferred_if_needed make must_make on_shutdown run_hooks shutdown defer_all
    immediate having each set_all_defaults boot_all migrate_all route_all run_phases boot_providers
    boot offers flush
program = tt

abbrev note : {A : Type 0} → Event → A → Act (List Event) A
note e a c = (returned a, record c { app = record c.app { world = c.app.world ++ e ∷ [] } })

-- Providers that succeed and are logged.
abbrev logging : Behaviour (List Event)
logging = record {
  factory = λ f c. (gave (record { value = f; error = none }), c);
  app_setter = λ c. (returned tt, c);
  register = λ p. note (registered p.id) tt;
  boot_provider = λ p. note (booted p.id) none;
  migrate_db = λ p v. note (migrated p.id) none;
  register_routes = λ p v. note (routed p.id) tt;
  set_defaults = λ p v. note (defaulted p.id) tt;
  hook = λ h. note (routed h) tt;
  is_config = λ v. true;
  is_db = λ v. true;
  is_route = λ v. true;
}

logging-IsCalm : IsCalm logging
logging-IsCalm = record {
  factory_calm = λ f c. Later-refl c;
  register_calm =
      λ p c. (record { same_map = refl; entries_later = (Later-refl c).entries_later }, refl);
  boot_calm =
      λ p c. (record { same_map = refl; entries_later = (Later-refl c).entries_later }, refl);
  migrate_calm =
      λ p v c. (record { same_map = refl; entries_later = (Later-refl c).entries_later }, refl);
  routes_calm =
      λ p v c. (record { same_map = refl; entries_later = (Later-refl c).entries_later }, refl);
}

abbrev plain : ℕ → Provider
plain n = record {
  id = n;
  deferred_services = none;
  has_defaults = true;
  is_migrator = true;
  is_registrar = false;
}

abbrev mail : Provider
mail = record {
  id = 3;
  deferred_services = some ("mail" ∷ []);
  has_defaults = true;
  is_migrator = false;
  is_registrar = false;
}

abbrev database : Provider
database = record {
  id = 4;
  deferred_services = some ("db" ∷ []);
  has_defaults = false;
  is_migrator = true;
  is_registrar = false;
}

abbrev three : App (List Event)
three = Container.instance_of "config" 7 (
    Container.instance_of "db" 9
      (set_providers (plain 1 ∷ mail ∷ plain 2 ∷ []) (new_application [] "." 1)))

boot_log :
    (boot logging three).1.app.world
    ≡ registered 1
      ∷ registered 2
      ∷ defaulted 1
      ∷ defaulted 3
      ∷ defaulted 2
      ∷ booted 1
      ∷ booted 2
      ∷ migrated 1
      ∷ migrated 2
      ∷ []
unfolding program
boot_log = refl

boot_again : boot logging (boot logging three).1 ≡ (returned tt, (boot logging three).1)
unfolding program
boot_again = refl

abbrev with_mail : App (List Event)
with_mail = (boot logging three).1

mail_once :
    (make logging "mail" (make logging "mail" with_mail).1).1.app.world
    ≡ with_mail.app.world ++ registered 3 ∷ booted 3 ∷ []
unfolding program
mail_once = refl

make-Fine_example :
    Later with_mail (make logging "mail" with_mail).1
    × (is_starved (make logging "mail" with_mail).0 ≡ false)
make-Fine_example = make-Fine logging logging-IsCalm "mail" with_mail

boot_deferred_if_needed_once_example :
    boot_deferred_if_needed logging "mail" (boot_deferred_if_needed logging "mail" with_mail).1
    ≡ or_panic logging
        (entry_at 0 (boot_deferred_if_needed logging "mail" with_mail).1).err
        (boot_deferred_if_needed logging "mail" with_mail).1
unfolding program
boot_deferred_if_needed_once_example =
    boot_deferred_if_needed_once logging logging-IsCalm "mail" 0 with_mail
      (boot_deferred_if_needed logging "mail" with_mail).1 refl refl
      (Later-refl (boot_deferred_if_needed logging "mail" with_mail).1)

abbrev bare : App (List Event)
bare = set_providers (database ∷ []) (new_application [] "." 1)

-- Phase 3 of Boot asks for "db".
boot_hangs : (boot logging bare).0 ≡ blocked
unfolding program
boot_hangs = refl

abbrev deferred : App (List Event)
deferred = record bare { app = defer_all (database ∷ []) bare.app }

make_waits_example : (make logging "db" deferred).0 ≡ blocked
unfolding program
make_waits_example =
    make_waits logging logging-IsCalm deferred 0 refl refl refl (λ d. refl) (λ d. refl)

hooks :
    (shutdown logging (on_shutdown 2 (on_shutdown 1 three))).1.app.world ≡ routed 2 ∷ routed 1 ∷ []
unfolding program
hooks = refl
