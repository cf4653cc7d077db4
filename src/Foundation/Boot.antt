-- ===== src/Foundation/Boot.antt =====
-- foundation/application.go: Boot.
use go_fast_framework.Common.{
  ℕ, String, Bool, true, false, ◌&&◌, Option, none, some, List, [], ◌∷◌, ◌++◌, length,
  if◌then◌else◌,
}
use go_fast_framework.Common.Dict
use go_fast_framework.Common.Dict.{Dict}
use go_fast_framework.Foundation.Application.{
  returned, Provider, fresh, Rest, Act, and_then, Behaviour, bound, or_panic, assert_type,
  must_make,
}

-- the assignments of one deferred provider's keys
abbrev pub defer_keys : List String → ℕ → Dict ℕ → Dict ℕ
defer_keys [] i d = d
defer_keys (k ∷ ks) i d = defer_keys ks i (Dict.assign d k i)

abbrev pub is_deferred : Provider → Bool
is_deferred p = Dict.is_some p.deferred_services

abbrev pub defer_one : {W : Type 0} → Provider → Option (List String) → Rest W → Rest W
defer_one p none r = r
defer_one p (some keys) r = record r {
  deferred_map = defer_keys keys (length r.entries) r.deferred_map;
  entries = r.entries ++ record { provider = p; once = fresh; err = none } ∷ [];
}

-- the loop over the providers that fills deferredMap
unfoldable pub defer_all : {W : Type 0} → List Provider → Rest W → Rest W
defer_all [] r = r
defer_all (p ∷ ps) r = defer_all ps (defer_one p p.deferred_services r)

-- the providers that are not deferred, in their order
unfoldable pub immediate : List Provider → List Provider
immediate [] = []
immediate (p ∷ ps) = let rest = immediate ps in if is_deferred p then rest else p ∷ rest

-- the providers with some optional interface
unfoldable pub having : (Provider → Bool) → List Provider → List Provider
having has [] = []
having has (p ∷ ps) = let rest = having has ps in if has p then p ∷ rest else rest

abbrev pub has_provider : List Provider → Bool
has_provider [] = false
has_provider (p ∷ ps) = true

-- One call for each provider of a list.
unfoldable pub each :
    {W : Type 0} → (Provider → Act W (Unit {0})) → List Provider → Act W (Unit {0})
each f [] c = (returned tt, c)
each f (p ∷ ps) c = and_then (f p) (λ _. each f ps) c

module _ {W : Type 0} (b : Behaviour W) where
  -- Phase 1.5
  unfoldable pub set_all_defaults : List Provider → Act W (Unit {0})
  unfolding each bound must_make
  set_all_defaults configured c =
      if has_provider configured && bound "config" c
      then and_then (must_make b "config")
          (λ v.
            and_then (assert_type b (b.is_config v) v)
              (λ cfg. each (λ p. b.set_defaults p cfg) configured))
          c
      else (returned tt, c)

  -- Phase 2
  unfoldable pub boot_all : List Provider → Act W (Unit {0})
  unfolding each
  boot_all ps = each (λ p. and_then (b.boot_provider p) (or_panic b)) ps

  -- Phase 3
  unfoldable pub migrate_all : List Provider → Act W (Unit {0})
  unfolding each bound must_make having
  migrate_all ps c =
      if bound "db" c
      then and_then (must_make b "db")
          (λ v. and_then (assert_type b (b.is_db v) v) (λ db.
            each (λ p. and_then (b.migrate_db p db) (or_panic b)) (having (λ p. p.is_migrator) ps)))
          c
      else (returned tt, c)

  -- Phase 4
  unfoldable pub route_all : List Provider → Act W (Unit {0})
  unfolding each bound must_make having
  route_all ps c =
      if bound "route" c
      then and_then (must_make b "route")
          (λ v.
            and_then (assert_type b (b.is_route v) v)
              (λ r. each (λ p. b.register_routes p r) (having (λ p. p.is_registrar) ps)))
          c
      else (returned tt, c)

  -- The phases, once the deferred providers are set aside.
  unfoldable pub run_phases : List Provider → List Provider → Act W (Unit {0})
  unfolding each set_all_defaults boot_all migrate_all route_all
  run_phases ps configured = and_then (each b.register ps) (λ _.
      and_then (set_all_defaults configured)
        (λ _. and_then (boot_all ps) (λ _. and_then (migrate_all ps) (λ _. route_all ps))))

  -- what follows AppSetter
  unfoldable pub boot_providers : Act W (Unit {0})
  unfolding defer_all immediate having run_phases
  boot_providers c =
      let ps = c.app.providers in
      run_phases (immediate ps) (having (λ p. p.has_defaults) ps)
        (record c { app = defer_all ps (record c.app { deferred_map = Dict.empty }) })

  -- Boot
  unfoldable pub boot : Act W (Unit {0})
  unfolding boot_providers
  boot c =
      if c.app.booted
      then (returned tt, c)
      else and_then b.app_setter (λ _. boot_providers)
          (record c { app = record c.app { booted = true } })
