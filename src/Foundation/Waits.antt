-- ===== src/Foundation/Waits.antt =====
-- A deferred provider that waits for itself.
use go_fast_framework.Common.{
  ℕ, zero, suc, ◌≡◌, refl, ap, ◌∙◌, String, true, false, none, some, List, [], ◌∷◌, length, get_or,
  set,
}
use go_fast_framework.Common.Dict
use go_fast_framework.Common.Dict.{Dict}
use go_fast_framework.Foundation.Application.{
  Ending, returned, panicked, blocked, starved, Once, fresh, running, done, DeferredEntry, Provider,
  App, Act, resume, Behaviour, entry_at, set_entry, no_entry, bound, migrate_deferred,
  run_deferred_lifecycle_hooks, initialize, mark_done, once_do, boot_deferred_with, must_make_with,
  boot_deferred_if_needed, make,
}
use go_fast_framework.Foundation.Later.{is_started, get_or-EntryLater, Later, Later-trans}
use go_fast_framework.Foundation.Calm.{IsCalm}

get_or-set_fresh :
    (es : List DeferredEntry) (i : ℕ) (e : DeferredEntry)
    → is_started (get_or es i no_entry).once ≡ false
    → get_or (set es i e) i no_entry ≡ e
get_or-set_fresh [] i e h = absurd cc
get_or-set_fresh (f ∷ fs) zero e h = refl
get_or-set_fresh (f ∷ fs) (suc i) e h = get_or-set_fresh fs i e h

get_or-set_running :
    (es : List DeferredEntry) (i : ℕ) (e : DeferredEntry)
    → (get_or es i no_entry).once ≡ running
    → e.once ≡ running
    → (get_or (set es i e) i no_entry).once ≡ running
get_or-set_running [] i e h k = absurd cc
get_or-set_running (f ∷ fs) zero e h k = k
get_or-set_running (f ∷ fs) (suc i) e h k = get_or-set_running fs i e h k

module _ {W : Type 0} where
  resume-blocked :
      {A B : Type 0} (f : A → Act W B) (r : Ending A × App W)
      → r.0 ≡ blocked
      → (resume f r.0 r.1).0 ≡ blocked
  resume-blocked f r h = rw h

  resume-returned :
      {A B : Type 0} (f : A → Act W B) (r : Ending A × App W) (a : A)
      → r.0 ≡ returned a
      → resume f r.0 r.1 ≡ f a r.1
  resume-returned f r a h = rw h

  mark_done-blocked :
      (b : Behaviour W) (must : String → Act W ℕ) (i : ℕ) (r : Ending (Unit {0}) × App W)
      → r.0 ≡ blocked
      → (mark_done b must i r).0 ≡ blocked
  mark_done-blocked b must i (returned u, d) h = absurd cc
  mark_done-blocked b must i (panicked, d) h = absurd cc
  mark_done-blocked b must i (blocked, d) h = refl
  mark_done-blocked b must i (starved, d) h = absurd cc

module _ {W : Type 0} (b : Behaviour W) (calm : IsCalm b) where
  -- A key of a provider that is being started cannot be made.
  must_make_running :
      (n : ℕ) (key : String) (i : ℕ) (d : App W)
      → Dict.get d.app.deferred_map key ≡ some i
      → (entry_at i d).once ≡ running
      → (must_make_with b (suc n) key d).0 ≡ blocked
  unfolding must_make_with boot_deferred_with
  must_make_running n key i d e r = rw (must_make_with, boot_deferred_with, e, r)

  bound_deferred :
      (key : String) (i : ℕ) (d : App W)
      → Dict.get d.app.deferred_map key ≡ some i
      → bound key d ≡ true
  unfolding bound
  bound_deferred key i d e = rw e

  module _ (i n : ℕ) (p : Provider) (is_migrator : p.is_migrator ≡ true) (d : App W)
      (mapped : Dict.get d.app.deferred_map "db" ≡ some i)
      (runs : (entry_at i d).once ≡ running) where
    hooks_wait : (run_deferred_lifecycle_hooks b (must_make_with b (suc n)) p d).0 ≡ blocked
    unfolding run_deferred_lifecycle_hooks migrate_deferred
    hooks_wait = resume-blocked _ (migrate_deferred b (must_make_with b (suc n)) p d) (
        rw (migrate_deferred, bound_deferred "db" i d mapped, is_migrator)
          (resume-blocked _ (must_make_with b (suc n) "db" d)
            (must_make_running n "db" i d mapped runs)))

  -- The provider of the entry i, which is deferred for "db", migrates and starts without an error.
  module _ (c : App W) (i : ℕ) (mapped : Dict.get c.app.deferred_map "db" ≡ some i)
      (at_rest : (entry_at i c).once ≡ fresh)
      (is_migrator : (entry_at i c).provider.is_migrator ≡ true)
      (registers : (d : App W) → (b.register (entry_at i c).provider d).0 ≡ returned tt)
      (boots : (d : App W) → (b.boot_provider (entry_at i c).provider d).0 ≡ returned none) where
    abbrev started : App W
    started = set_entry i (record (entry_at i c) { once = running }) c

    abbrev registered : App W
    registered = (b.register (entry_at i c).provider started).1

    abbrev booted : App W
    booted = (b.boot_provider (entry_at i c).provider registered).1

    abbrev after : App W
    after = set_entry i (record (entry_at i booted) { err = none }) booted

    started-Later : Later started booted
    started-Later =
        Later-trans (calm.register_calm (entry_at i c).provider started).0
          (calm.boot_calm (entry_at i c).provider registered).0

    booted_runs : entry_at i booted ≡ record (entry_at i c) { once = running }
    booted_runs =
        let here =
          get_or-set_fresh c.app.entries i (record (entry_at i c) { once = running })
            (ap is_started at_rest) in
        (get_or-EntryLater started-Later.entries_later i).kept (ap (λ x. is_started x.once) here)
        ∙ here

    after_runs : (entry_at i after).once ≡ running
    after_runs =
        let runs = ap (λ x. x.once) booted_runs in
        get_or-set_running booted.app.entries i (record (entry_at i booted) { err = none }) runs
          runs

    initialize_waits :
        (n : ℕ)
        → (initialize b (must_make_with b (suc n)) i (entry_at i c).provider started).0 ≡ blocked
    unfolding initialize
    initialize_waits n =
        let p = (entry_at i c).provider in
        let mapped_after : Dict.get after.app.deferred_map "db" ≡ some i =
          ap (λ m. Dict.get m "db") started-Later.same_map ∙ mapped in
        ap (λ r. r.0)
          (resume-returned _ (b.register p started) tt (registers started)
            ∙ resume-returned _ (b.boot_provider p registered) none (boots registered))
        ∙ hooks_wait i n p is_migrator after mapped_after after_runs

    once_do_waits :
        (n : ℕ) (o : Once) → o ≡ fresh → (once_do b (must_make_with b (suc n)) o i c).0 ≡ blocked
    once_do_waits n fresh e =
        mark_done-blocked b (must_make_with b (suc n)) i _ (initialize_waits n)
    once_do_waits n running e = absurd cc
    once_do_waits n done e = absurd cc

    -- Where factories and providers leave alone the deferred entries that have started: a deferred
    -- provider that is mapped to the key "db", has not started and migrates waits for itself. Once its
    -- Register and Boot have succeeded, runDeferredLifecycleHooks asks for "db" inside the once.Do that is running,
    -- and the first Make of "db" never ends.
    pub make_waits : (make b "db" c).0 ≡ blocked
    unfolding make boot_deferred_if_needed boot_deferred_with initialize
    make_waits =
        let n = length c.app.entries in
        resume-blocked _ (boot_deferred_if_needed b "db" c) (
          rw (boot_deferred_with, mapped)
            (resume-blocked _ (once_do b (must_make_with b (suc n)) (entry_at i c).once i c)
              (once_do_waits n (entry_at i c).once at_rest)))
