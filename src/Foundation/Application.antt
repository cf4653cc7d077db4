-- ===== src/Foundation/Application.antt =====
-- foundation/application.go: the application without Boot, and the deferred providers. What providers,
-- factories and services do is the `Behaviour`, which may change the whole application.
use go_fast_framework.Common.{
  ℕ, zero, suc, String, Bool, true, false, ◌&&◌, Option, none, some, List, [], ◌∷◌, ◌++◌, length,
  get_or, set, if◌then◌else◌,
}
use go_fast_framework.Common.Dict
use go_fast_framework.Common.Dict.{Dict}
use go_fast_framework.Foundation.Container.{
  Container, Outcome, Made, made, not_found, failed, make_panicked, make_blocked,
}
use go_fast_framework.Foundation.Container

-- How a call ends: it returns, panics, waits for itself for ever, or uses up the fuel of the model.
pub data Ending {ℓ} (A : Type ℓ) : Type ℓ where
  returned : A → Ending A
  panicked blocked starved : Ending A

-- ServiceProvider, with the optional interfaces that it implements; DeferredServices when it is deferred
pub record Provider : Type 0 where
  pub id : ℕ
  pub deferred_services : Option (List String)
  pub has_defaults : Bool
  pub is_migrator : Bool
  pub is_registrar : Bool

-- sync.Once
pub data Once : Type 0 where
  fresh running done : Once

-- deferredEntry
pub record DeferredEntry : Type 0 where
  pub provider : Provider
  pub once : Once
  pub err : Option ℕ

-- the fields of application next to the container, with the entries that were ever made and the
-- `world` that providers and hooks act on
pub record Rest (W : Type 0) : Type 0 where
  pub world : W
  pub base_path : String
  pub providers : List Provider
  pub booted : Bool
  pub shutdown_hooks : List ℕ
  pub deferred_map : Dict ℕ
  pub entries : List DeferredEntry

-- application
abbrev pub App : Type 0 → Type 0
App W = Container (Rest W)

-- Code that acts on the application.
abbrev pub Act : Type 0 → Type 0 → Type 0
Act W A = App W → Ending A × App W

abbrev pub resume : {W A B : Type 0} → (A → Act W B) → Ending A → App W → Ending B × App W
resume f (returned a) c = f a c
resume f panicked c = (panicked, c)
resume f blocked c = (blocked, c)
resume f starved c = (starved, c)

abbrev pub and_then : {W A B : Type 0} → Act W A → (A → Act W B) → Act W B
and_then m f c = resume f (m c).0 (m c).1

abbrev pub pure : {W A : Type 0} → A → Act W A
pure a c = (returned a, c)

-- What the application calls and this repository's users write.
pub record Behaviour (W : Type 0) : Type 0 where
  pub factory : ℕ → App W → Outcome × App W
  pub app_setter : Act W (Unit {0})
  pub register : Provider → Act W (Unit {0})
  pub boot_provider : Provider → Act W (Option ℕ)
  pub migrate_db : Provider → ℕ → Act W (Option ℕ)
  pub register_routes : Provider → ℕ → Act W (Unit {0})
  pub set_defaults : Provider → ℕ → Act W (Unit {0})
  pub hook : ℕ → Act W (Unit {0})
  pub is_config : ℕ → Bool
  pub is_db : ℕ → Bool
  pub is_route : ℕ → Bool

-- NewApplication; the container holds the application itself as `app`
unfoldable pub new_application : {W : Type 0} → W → String → ℕ → App W
unfolding Container.instance_of
new_application world base_path self = Container.instance_of "app" self (
    Container.new_container (record {
      world = world;
      base_path = base_path;
      providers = [];
      booted = false;
      shutdown_hooks = [];
      deferred_map = Dict.empty;
      entries = [];
    }))

-- SetProviders
unfoldable pub set_providers : {W : Type 0} → List Provider → App W → App W
set_providers ps c = record c { app = record c.app { providers = ps } }

abbrev pub no_provider : Provider
no_provider = record {
  id = 0;
  deferred_services = none;
  has_defaults = false;
  is_migrator = false;
  is_registrar = false;
}

abbrev pub no_entry : DeferredEntry
no_entry = record { provider = no_provider; once = done; err = none }

abbrev pub entry_at : {W : Type 0} → ℕ → App W → DeferredEntry
entry_at i c = get_or c.app.entries i no_entry

abbrev pub set_entry : {W : Type 0} → ℕ → DeferredEntry → App W → App W
set_entry i e c = record c { app = record c.app { entries = set c.app.entries i e } }

-- Bound
unfoldable pub bound : {W : Type 0} → String → App W → Bool
unfolding Container.bound
bound key c = if Dict.is_some (Dict.get c.app.deferred_map key) then true else Container.bound key c

-- Flush
unfoldable pub flush : {W : Type 0} → App W → App W
unfolding Container.flush
flush c =
    let c' = Container.flush c in
    record c' { app = record c'.app { deferred_map = Dict.empty; booted = false } }

-- IsBooted
abbrev pub is_booted : {W : Type 0} → App W → Bool
is_booted c = c.app.booted

-- OnShutdown
unfoldable pub on_shutdown : {W : Type 0} → ℕ → App W → App W
on_shutdown h c = record c {
  app = record c.app { shutdown_hooks = c.app.shutdown_hooks ++ h ∷ [] };
}

module _ {W : Type 0} (b : Behaviour W) where
  -- the loop of Shutdown, from the last hook to the first
  unfoldable pub run_hooks : List ℕ → Act W (Unit {0})
  run_hooks [] c = (returned tt, c)
  run_hooks (h ∷ hs) c = and_then (run_hooks hs) (λ _. b.hook h) c

  -- Shutdown
  unfoldable pub shutdown : Act W (Unit {0})
  unfolding run_hooks
  shutdown c = run_hooks c.app.shutdown_hooks c

  -- an `if err != nil { panic }`
  abbrev pub or_panic : Option ℕ → Act W (Unit {0})
  or_panic none c = (returned tt, c)
  or_panic (some e) c = (panicked, c)

  -- the rest of MustMake: the value that Make gives, or the panic
  abbrev pub value_or_panic : Made × App W → Ending ℕ × App W
  value_or_panic (made v, c) = (returned v, c)
  value_or_panic (not_found, c) = (panicked, c)
  value_or_panic (failed e, c) = (panicked, c)
  value_or_panic (make_panicked, c) = (panicked, c)
  value_or_panic (make_blocked, c) = (blocked, c)

  -- a type assertion
  abbrev pub assert_type : Bool → ℕ → Act W ℕ
  assert_type true v c = (returned v, c)
  assert_type false v c = (panicked, c)

  -- bootDeferredIfNeeded, runDeferredLifecycleHooks and the function that once.Do gets, which call
  -- MustMake again: on fuel.
  module _ (must : String → Act W ℕ) where
    -- the part for DBMigrator
    unfoldable pub migrate_deferred : Provider → Act W (Unit {0})
    unfolding bound
    migrate_deferred p c =
        if bound "db" c && p.is_migrator
        then and_then (must "db")
            (λ v.
              and_then (assert_type (b.is_db v) v) (λ db. and_then (b.migrate_db p db) or_panic))
            c
        else (returned tt, c)

    -- the part for RouteRegistrar
    unfoldable pub route_deferred : Provider → Act W (Unit {0})
    unfolding bound
    route_deferred p c =
        if bound "route" c && p.is_registrar
        then and_then (must "route")
            (λ v. and_then (assert_type (b.is_route v) v) (b.register_routes p)) c
        else (returned tt, c)

    -- runDeferredLifecycleHooks
    unfoldable pub run_deferred_lifecycle_hooks : Provider → Act W (Unit {0})
    unfolding migrate_deferred route_deferred
    run_deferred_lifecycle_hooks p = and_then (migrate_deferred p) (λ _. route_deferred p)

    -- what follows `entry.err = …`
    abbrev pub after_boot : ℕ → Provider → Option ℕ → Act W (Unit {0})
    after_boot i p none c =
        run_deferred_lifecycle_hooks p (set_entry i (record (entry_at i c) { err = none }) c)
    after_boot i p (some e) c =
        (returned tt, set_entry i (record (entry_at i c) { err = some e }) c)

    -- the function of once.Do
    unfoldable pub initialize : ℕ → Provider → Act W (Unit {0})
    unfolding run_deferred_lifecycle_hooks
    initialize i p = and_then (b.register p) (λ _. and_then (b.boot_provider p) (after_boot i p))

    -- the end of once.Do, also when its function panics
    abbrev pub mark_done : ℕ → Ending (Unit {0}) × App W → Ending (Unit {0}) × App W
    mark_done i (returned u, c) =
        (returned u, set_entry i (record (entry_at i c) { once = done }) c)
    mark_done i (panicked, c) = (panicked, set_entry i (record (entry_at i c) { once = done }) c)
    mark_done i (blocked, c) = (blocked, c)
    mark_done i (starved, c) = (starved, c)

    -- entry.once.Do
    abbrev pub once_do : Once → ℕ → Act W (Unit {0})
    once_do done i c = (returned tt, c)
    once_do running i c = (blocked, c)
    once_do fresh i c =
        let p = (entry_at i c).provider in
        mark_done i (initialize i p (set_entry i (record (entry_at i c) { once = running }) c))

    abbrev pub boot_entry : ℕ → Act W (Unit {0})
    boot_entry i c =
        and_then (λ d. once_do (entry_at i d).once i d) (λ _ d. or_panic (entry_at i d).err d) c

    -- bootDeferredIfNeeded
    unfoldable pub boot_deferred_with : String → Act W (Unit {0})
    unfolding initialize
    boot_deferred_with key c = elim (Dict.get c.app.deferred_map key) [
      | none ↦ (returned tt, c)
      | some i ↦ boot_entry i c
    ]

  -- MustMake on fuel
  unfoldable pub must_make_with : ℕ → String → Act W ℕ
  unfolding boot_deferred_with Container.make
  must_make_with zero key c = (starved, c)
  must_make_with (suc n) key c =
      and_then (boot_deferred_with (must_make_with n) key)
        (λ _ d. value_or_panic (Container.make b.factory key d)) c

  -- One more than the entries, since each nested call starts one.
  abbrev pub fuel : App W → ℕ
  fuel c = suc (length c.app.entries)

  -- bootDeferredIfNeeded
  unfoldable pub boot_deferred_if_needed : String → Act W (Unit {0})
  unfolding boot_deferred_with must_make_with
  boot_deferred_if_needed key c = boot_deferred_with (must_make_with (fuel c)) key c

  abbrev pub as_returned : Made × App W → Ending Made × App W
  as_returned (make_panicked, c) = (panicked, c)
  as_returned (make_blocked, c) = (blocked, c)
  as_returned (m, c) = (returned m, c)

  -- Make
  unfoldable pub make : String → Act W Made
  unfolding boot_deferred_if_needed Container.make
  make key =
      and_then (boot_deferred_if_needed key) (λ _ d. as_returned (Container.make b.factory key d))

  abbrev pub made_or_panic : Made → Act W ℕ
  made_or_panic m c = value_or_panic (m, c)

  -- MustMake
  unfoldable pub must_make : String → Act W ℕ
  unfolding make
  must_make key = and_then (make key) made_or_panic

  -- Config, Log, Cache and the other typed services: MustMake of the key and the type assertion
  unfoldable pub typed_service : String → (ℕ → Bool) → Act W ℕ
  unfolding must_make
  typed_service key is_service = and_then (must_make key) (λ v. assert_type (is_service v) v)
