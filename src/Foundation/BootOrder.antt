-- ===== src/Foundation/BootOrder.antt =====
-- The order in which Boot uses the providers.
use go_fast_framework.Common.{
  ℕ, ◌≡◌, refl, String, Bool, true, false, Option, none, some, List, [], ◌∷◌, if◌then◌else◌,
}
use go_fast_framework.Common.Dict
use go_fast_framework.Common.Dict.{Dict}
use go_fast_framework.Foundation.Container.{
  Container, Made, made, not_found, failed, make_panicked, make_blocked,
}
use go_fast_framework.Foundation.Container
use go_fast_framework.Foundation.Kept.{make-kept}
use go_fast_framework.Foundation.Application.{
  Ending, returned, panicked, Provider, App, Act, resume, and_then, Behaviour, or_panic,
  as_returned, made_or_panic, assert_type, boot_deferred_with, boot_deferred_if_needed, make,
  must_make,
}
use go_fast_framework.Foundation.Boot.{is_deferred, immediate, having, each}
use go_fast_framework.Foundation.Script.{
  Event, registered, defaulted, booted, migrated, routed, Notes, Quiet, Ran, Quiet-Ran, resume-Ran,
  AllNote, events_of, each-Ran,
}

-- Providers that log what is done with them, and leave the map of the deferred providers alone; so do
-- factories, which log nothing.
pub record IsLogged {W : Type 0} (log : W → List Event) (b : Behaviour W) : Type 0 where
  pub factory_quiet : (f : ℕ) (c : App W) → Quiet log c (b.factory f c).1
  pub registers :
      (p : Provider)
      → is_deferred p ≡ false
      → (c : App W) → Notes log c (registered p.id) (b.register p c)
  pub defaults :
      (p : Provider) (v : ℕ) (c : App W) → Notes log c (defaulted p.id) (b.set_defaults p v c)
  pub boots :
      (p : Provider)
      → is_deferred p ≡ false
      → (c : App W) → Notes log c (booted p.id) (b.boot_provider p c)
  pub migrates :
      (p : Provider) (v : ℕ)
      → is_deferred p ≡ false
      → (c : App W) → Notes log c (migrated p.id) (b.migrate_db p v c)
  pub routes :
      (p : Provider) (v : ℕ)
      → is_deferred p ≡ false
      → (c : App W) → Notes log c (routed p.id) (b.register_routes p v c)

abbrev pub AllImmediate : List Provider → Type 0
AllImmediate [] = Unit
AllImmediate (p ∷ ps) = (is_deferred p ≡ false) × AllImmediate ps

pub immediate-AllImmediate : (ps : List Provider) → AllImmediate (immediate ps)
unfolding immediate
immediate-AllImmediate [] = tt
immediate-AllImmediate (p ∷ ps) = by_test (is_deferred p) refl (immediate-AllImmediate ps)
  where
    by_test :
        (d : Bool)
        → is_deferred p ≡ d
        → AllImmediate (immediate ps)
        → AllImmediate (if d then immediate ps else p ∷ immediate ps)
    by_test true e h = h
    by_test false e h = (e, h)

having-AllImmediate :
    (has : Provider → Bool) (ps : List Provider) → AllImmediate ps → AllImmediate (having has ps)
unfolding having
having-AllImmediate has [] h = tt
having-AllImmediate has (p ∷ ps) h = by_test (has p) (having-AllImmediate has ps h.1)
  where
    by_test :
        (t : Bool)
        → AllImmediate (having has ps)
        → AllImmediate (if t then p ∷ having has ps else having has ps)
    by_test true k = (h.0, k)
    by_test false k = k

module _ {W : Type 0} (log : W → List Event) (b : Behaviour W) (logged : IsLogged log b) where
  pub all-AllNote :
      {A : Type 0} (event : Provider → Event) (f : Provider → Act W A) (ps : List Provider)
      → ((p : Provider) → is_deferred p ≡ false → (c : App W) → Notes log c (event p) (f p c))
      → AllImmediate ps
      → AllNote log event f ps
  all-AllNote event f [] h a = tt
  all-AllNote event f (p ∷ ps) h a = (h p a.0, all-AllNote event f ps h a.1)

  AllNote-any :
      {A : Type 0} (event : Provider → Event) (f : Provider → Act W A) (ps : List Provider)
      → ((p : Provider) (c : App W) → Notes log c (event p) (f p c))
      → AllNote log event f ps
  AllNote-any event f [] h = tt
  AllNote-any event f (p ∷ ps) h = (h p, AllNote-any event f ps h)

  pub or_panic-Notes :
      (c : App W) (e : Event) (r : Ending (Option ℕ) × App W)
      → Notes log c e r
      → Notes log c e (resume (or_panic b) r.0 r.1)
  or_panic-Notes c e (returned none, d) n = n
  or_panic-Notes c e (returned (some x), d) n = n
  or_panic-Notes c e (panicked, d) n = n
  or_panic-Notes c e (Ending.blocked, d) n = n
  or_panic-Notes c e (Ending.starved, d) n = n

  -- A key that no deferred provider offers is made by the container.
  make-Quiet : (key : String) (c : App W) → Quiet log c (Container.make b.factory key c).1
  make-Quiet key c =
      make-kept b.factory
        (λ r. (log r.world ≡ log c.app.world) × (r.deferred_map ≡ c.app.deferred_map)) c
        (refl, refl) (λ f heap. logged.factory_quiet f (record c { heap = heap })) key

  value-Ran :
      {c : App W} (r : Made × App W)
      → Quiet log c r.1
      → Ran log c [] (resume (made_or_panic b) (as_returned b r).0 (as_returned b r).1)
  value-Ran (made v, d) q = Quiet-Ran log _ q
  value-Ran (not_found, d) q = Quiet-Ran log _ q
  value-Ran (failed e, d) q = Quiet-Ran log _ q
  value-Ran (make_panicked, d) q = Quiet-Ran log _ q
  value-Ran (make_blocked, d) q = Quiet-Ran log _ q

  must_make-Ran :
      (key : String) (c : App W)
      → Dict.get c.app.deferred_map key ≡ none
      → Ran log c [] (must_make b key c)
  unfolding must_make make boot_deferred_if_needed boot_deferred_with
  must_make-Ran key c e =
      rw (boot_deferred_with, e) (value-Ran (Container.make b.factory key c) (make-Quiet key c))

  -- A service that is asked for and used for each provider.
  use-Ran :
      (key : String) (is_service : ℕ → Bool) (event : Provider → Event)
      (f : ℕ → Provider → Act W (Unit {0})) (ps : List Provider) (c : App W)
      → Dict.get c.app.deferred_map key ≡ none
      → ((v : ℕ) → AllNote log event (f v) ps)
      → Ran log c (events_of event ps) (
          and_then
            (must_make b key)
            (λ v. and_then (assert_type b (is_service v) v) (λ s. each (f s) ps))
            c)
  use-Ran key is_service event f ps c e h =
      resume-Ran log [] (events_of event ps) _ (must_make b key c) (must_make-Ran key c e)
        (λ v d m. asserted (is_service v) v d)
    where
      asserted :
          (t : Bool) (v : ℕ) (d : App W)
          → Ran log d (events_of event ps) (and_then (assert_type b t v) (λ s. each (f s) ps) d)
      asserted true v d = each-Ran log event (f v) ps d (h v)
      asserted false v d =
          resume-Ran log [] (events_of event ps) _ (panicked, d) (Quiet-Ran log _ (refl, refl))
            (λ a x m. each-Ran log event (f a) ps x (h a))

  module _ (ps configured : List Provider) (a : AllImmediate ps) where
    pub defaults-Ran :
        (c : App W)
        → Dict.get c.app.deferred_map "config" ≡ none
        → Ran log c (events_of (λ p. defaulted p.id) configured) (
            and_then
              (must_make b "config")
              (λ v.
                and_then
                  (assert_type b (b.is_config v) v)
                  (λ cfg. each (λ p. b.set_defaults p cfg) configured))
              c)
    defaults-Ran c e =
        use-Ran "config" b.is_config (λ p. defaulted p.id) (λ v p. b.set_defaults p v) configured c
          e
          (λ v.
            AllNote-any (λ p. defaulted p.id) (λ p. b.set_defaults p v) configured
              (λ p. logged.defaults p v))

    pub migrate-Ran :
        (c : App W)
        → Dict.get c.app.deferred_map "db" ≡ none
        → Ran log c (events_of (λ p. migrated p.id) (having (λ p. p.is_migrator) ps)) (
            and_then
              (must_make b "db")
              (λ v. and_then (assert_type b (b.is_db v) v) (λ db.
                each
                  (λ p. and_then (b.migrate_db p db) (or_panic b))
                  (having (λ p. p.is_migrator) ps)))
              c)
    migrate-Ran c e =
        let ms = having (λ p. p.is_migrator) ps in
        use-Ran "db" b.is_db (λ p. migrated p.id) (λ v p. and_then (b.migrate_db p v) (or_panic b))
          ms c e
          (λ v.
            all-AllNote (λ p. migrated p.id) (λ p. and_then (b.migrate_db p v) (or_panic b)) ms
              (λ p i d.
                or_panic-Notes d (migrated p.id) (b.migrate_db p v d) (logged.migrates p v i d))
              (having-AllImmediate (λ p. p.is_migrator) ps a))

    pub route-Ran :
        (c : App W)
        → Dict.get c.app.deferred_map "route" ≡ none
        → Ran log c (events_of (λ p. routed p.id) (having (λ p. p.is_registrar) ps)) (
            and_then
              (must_make b "route")
              (λ v.
                and_then
                  (assert_type b (b.is_route v) v)
                  (λ r. each (λ p. b.register_routes p r) (having (λ p. p.is_registrar) ps)))
              c)
    route-Ran c e =
        let rs = having (λ p. p.is_registrar) ps in
        use-Ran "route" b.is_route (λ p. routed p.id) (λ v p. b.register_routes p v) rs c e
          (λ v.
            all-AllNote (λ p. routed p.id) (λ p. b.register_routes p v) rs
              (λ p i. logged.routes p v i) (having-AllImmediate (λ p. p.is_registrar) ps a))
