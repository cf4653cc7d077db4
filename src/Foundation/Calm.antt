-- ===== src/Foundation/Calm.antt =====
-- MustMake when providers, factories and services leave the deferred entries to the application.
use go_fast_framework.Common.{
  ℕ, zero, suc, ◌<◌, ◌≡◌, refl, ap, ◌∙◌, String, Bool, true, false, ◌&&◌, Option, none, some,
  if◌then◌else◌, arith, Option-cases, inl, inr,
}
use go_fast_framework.Common.Dict
use go_fast_framework.Common.Dict.{Dict}
use go_fast_framework.Foundation.Container.{
  BindingType, bind_factory, bind_singleton, bind_instance, Binding, no_binding, Container, Product,
  Made, made, not_found, failed, make_panicked, make_blocked,
}
use go_fast_framework.Foundation.Container
use go_fast_framework.Foundation.Kept.{make-kept}
use go_fast_framework.Foundation.Application.{
  Ending, returned, panicked, blocked, starved, Once, fresh, running, done, Provider, App, Act,
  resume, Behaviour, entry_at, set_entry, bound, or_panic, value_or_panic, as_returned, assert_type,
  migrate_deferred, route_deferred, run_deferred_lifecycle_hooks, after_boot, initialize, mark_done,
  once_do, boot_entry, boot_deferred_with, must_make_with,
}
use go_fast_framework.Foundation.Later.{
  is_started, EntriesLater, fresh_count, get_or-EntryLater, fresh_count-EntriesLater,
  fresh_count-set, fresh_count-start, get_or-set_started, Later, Later-refl, Later-trans,
  set_entry-Later,
}

abbrev pub is_starved : {A : Type 0} → Ending A → Bool
is_starved starved = true
is_starved _ = false

-- The end of a call from `c`: what has started is as it was, and the model's fuel was enough.
abbrev pub Fine : {W A : Type 0} → App W → Ending A × App W → Type 0
Fine c r = Later c r.1 × (is_starved r.0 ≡ false)

-- Behaviour that leaves the entries that have started alone.
pub record IsCalm {W : Type 0} (b : Behaviour W) : Type 0 where
  pub factory_calm : (f : ℕ) (c : App W) → Later c (b.factory f c).1
  pub register_calm : (p : Provider) (c : App W) → Fine c (b.register p c)
  pub boot_calm : (p : Provider) (c : App W) → Fine c (b.boot_provider p c)
  pub migrate_calm : (p : Provider) (v : ℕ) (c : App W) → Fine c (b.migrate_db p v c)
  pub routes_calm : (p : Provider) (v : ℕ) (c : App W) → Fine c (b.register_routes p v c)

module _ {W : Type 0} where
  pub resume-Fine :
      {A B : Type 0} {c : App W} (f : A → Act W B) (r : Ending A × App W)
      → Fine c r
      → ((a : A) (d : App W) → Later c d → Fine c (f a d))
      → Fine c (resume f r.0 r.1)
  resume-Fine f (returned a, d) h k = k a d h.0
  resume-Fine f (panicked, d) h k = (h.0, refl)
  resume-Fine f (blocked, d) h k = (h.0, refl)
  resume-Fine f (starved, d) h k = absurd cc

  pub Fine-trans :
      {A : Type 0} {c d : App W} (r : Ending A × App W) → Later c d → Fine d r → Fine c r
  Fine-trans r l h = (Later-trans l h.0, h.1)

  -- The first call leaves `d` alone, the second one may change what had not started in `c`.
  pub resume-Fine_from :
      {A B : Type 0} {c d : App W} (f : A → Act W B) (r : Ending A × App W)
      → Later c d
      → Fine d r
      → ((a : A) (e : App W) → Later d e → Fine c (f a e))
      → Fine c (resume f r.0 r.1)
  resume-Fine_from f (returned a, e) l h k = k a e h.0
  resume-Fine_from f (panicked, e) l h k = (Later-trans l h.0, refl)
  resume-Fine_from f (blocked, e) l h k = (Later-trans l h.0, refl)
  resume-Fine_from f (starved, e) l h k = absurd cc

  module _ (b : Behaviour W) (calm : IsCalm b) where
    pub make-Later : (key : String) (c : App W) → Later c (Container.make b.factory key c).1
    make-Later key c =
        let (m, l) =
          make-kept b.factory
            (λ r. (r.deferred_map ≡ c.app.deferred_map) × EntriesLater c.app.entries r.entries) c
            (refl, (Later-refl c).entries_later)
            (λ f heap.
              let l = calm.factory_calm f (record c { heap = heap }) in
              (l.same_map, l.entries_later))
            key in
        record { same_map = m; entries_later = l }

    pub as_returned-Fine : {c : App W} (r : Made × App W) → Later c r.1 → Fine c (as_returned b r)
    as_returned-Fine (made v, d) l = (l, refl)
    as_returned-Fine (not_found, d) l = (l, refl)
    as_returned-Fine (failed e, d) l = (l, refl)
    as_returned-Fine (make_panicked, d) l = (l, refl)
    as_returned-Fine (make_blocked, d) l = (l, refl)

    value_or_panic-Fine : {c : App W} (r : Made × App W) → Later c r.1 → Fine c (value_or_panic b r)
    value_or_panic-Fine (made v, d) l = (l, refl)
    value_or_panic-Fine (not_found, d) l = (l, refl)
    value_or_panic-Fine (failed e, d) l = (l, refl)
    value_or_panic-Fine (make_panicked, d) l = (l, refl)
    value_or_panic-Fine (make_blocked, d) l = (l, refl)

    or_panic-Fine : {c : App W} (e : Option ℕ) (d : App W) → Later c d → Fine c (or_panic b e d)
    or_panic-Fine none d l = (l, refl)
    or_panic-Fine (some e) d l = (l, refl)

    assert_type-Fine :
        {c : App W} (t : Bool) (v : ℕ) (d : App W) → Later c d → Fine c (assert_type b t v d)
    assert_type-Fine true v d l = (l, refl)
    assert_type-Fine false v d l = (l, refl)

    -- What a nested MustMake is to do while fewer than n entries have not started.
    abbrev MustIsFine : ℕ → (String → Act W ℕ) → Type 0
    MustIsFine n must =
        (key : String) (c : App W) → fresh_count c.app.entries < n → Fine c (must key c)

    module _ (must : String → Act W ℕ) (n : ℕ) (must_fine : MustIsFine n must) where
      if_Fine :
          {c : App W} (t : Bool) (x y : Ending (Unit {0}) × App W)
          → Fine c x
          → Fine c y
          → Fine c (if t then x else y)
      if_Fine true x y h k = h
      if_Fine false x y h k = k

      migrate-Fine :
          (p : Provider) (c : App W)
          → fresh_count c.app.entries < n
          → Fine c (migrate_deferred b must p c)
      unfolding migrate_deferred
      migrate-Fine p c h =
          if_Fine (bound "db" c && p.is_migrator) _ _
            (resume-Fine _ (must "db" c) (must_fine "db" c h) (λ v d l.
              resume-Fine _ (assert_type b (b.is_db v) v d) (assert_type-Fine (b.is_db v) v d l)
                (λ db e k.
                  resume-Fine _ (b.migrate_db p db e) (Fine-trans _ k (calm.migrate_calm p db e))
                    (λ r f m. or_panic-Fine r f m))))
            (Later-refl c, refl)

      route-Fine :
          (p : Provider) (c : App W)
          → fresh_count c.app.entries < n
          → Fine c (route_deferred b must p c)
      unfolding route_deferred
      route-Fine p c h =
          if_Fine (bound "route" c && p.is_registrar) _ _
            (resume-Fine _ (must "route" c) (must_fine "route" c h) (λ v d l.
              resume-Fine _ (assert_type b (b.is_route v) v d)
                (assert_type-Fine (b.is_route v) v d l)
                (λ r e k. Fine-trans _ k (calm.routes_calm p r e))))
            (Later-refl c, refl)

      fewer :
          {c d : App W} → Later c d → fresh_count c.app.entries < n → fresh_count d.app.entries < n
      fewer l h = let le = fresh_count-EntriesLater l.entries_later in omega arith

      hooks-Fine :
          (p : Provider) (c : App W)
          → fresh_count c.app.entries < n
          → Fine c (run_deferred_lifecycle_hooks b must p c)
      unfolding run_deferred_lifecycle_hooks
      hooks-Fine p c h =
          resume-Fine _ (migrate_deferred b must p c) (migrate-Fine p c h)
            (λ _ d l. Fine-trans _ l (route-Fine p d (fewer l h)))

      -- The entry i of `c` has not started, and in `d` it runs.
      module _ (c : App W) (i : ℕ) (at_rest : is_started (entry_at i c).once ≡ false) where
        mark_done-Fine : (r : Ending (Unit {0}) × App W) → Fine c r → Fine c (mark_done b must i r)
        mark_done-Fine (returned u, d) h = (
          set_entry-Later i _ h.0 at_rest (get_or-EntryLater h.0.entries_later i).same_provider,
          refl,
        )
        mark_done-Fine (panicked, d) h = (
          set_entry-Later i _ h.0 at_rest (get_or-EntryLater h.0.entries_later i).same_provider,
          refl,
        )
        mark_done-Fine (blocked, d) h = (h.0, refl)
        mark_done-Fine (starved, d) h = absurd cc

        after_boot-Fine :
            (p : Provider) (e : Option ℕ) (d : App W)
            → Later c d
            → is_started (entry_at i d).once ≡ true
            → fresh_count d.app.entries < n
            → Fine c (after_boot b must i p e d)
        after_boot-Fine p none d l r h =
            let same = (get_or-EntryLater l.entries_later i).same_provider in
            let e' = record (entry_at i d) { err = none } in
            let le = fresh_count-set d.app.entries i e' r in
            Fine-trans _ (set_entry-Later i e' l at_rest same)
              (hooks-Fine p (set_entry i e' d) (omega arith))
        after_boot-Fine p (some e) d l r h = (
          set_entry-Later i _ l at_rest (get_or-EntryLater l.entries_later i).same_provider,
          refl,
        )

        initialize-Fine :
            (p : Provider) (d : App W)
            → Later c d
            → is_started (entry_at i d).once ≡ true
            → fresh_count d.app.entries < n
            → Fine c (initialize b must i p d)
        unfolding initialize
        initialize-Fine p d l r h =
            let runs : (e : App W) → Later d e → is_started (entry_at i e).once ≡ true = λ e k.
              ap (λ x. is_started x.once) ((get_or-EntryLater k.entries_later i).kept r) ∙ r in
            resume-Fine_from _ (b.register p d) l (calm.register_calm p d) (λ _ e k.
              resume-Fine_from _ (b.boot_provider p e) (Later-trans l k) (calm.boot_calm p e)
                (λ err x m.
                  let whole = Later-trans k m in
                  after_boot-Fine p err x (Later-trans l whole) (runs x whole) (fewer whole h)))

      once_do-Fine :
          (o : Once) (i : ℕ) (c : App W)
          → (entry_at i c).once ≡ o
          → fresh_count c.app.entries < suc n
          → Fine c (once_do b must o i c)
      once_do-Fine done i c e h = (Later-refl c, refl)
      once_do-Fine running i c e h = (Later-refl c, refl)
      once_do-Fine fresh i c e h =
          let at_rest : is_started (entry_at i c).once ≡ false = ap is_started e in
          let started = record (entry_at i c) { once = running } in
          let less = fresh_count-start c.app.entries i started refl at_rest in
          let l = set_entry-Later i started (Later-refl c) at_rest refl in
          mark_done-Fine c i at_rest _ (
            initialize-Fine c i at_rest (entry_at i c).provider (set_entry i started c) l
              (get_or-set_started c.app.entries i started refl) (omega arith))

      boot_entry-Fine :
          (i : ℕ) (c : App W) → fresh_count c.app.entries < suc n → Fine c (boot_entry b must i c)
      boot_entry-Fine i c h =
          resume-Fine _ (once_do b must (entry_at i c).once i c)
            (once_do-Fine (entry_at i c).once i c refl h)
            (λ _ d l. or_panic-Fine (entry_at i d).err d l)

      pub boot_deferred_with-Fine :
          (key : String) (c : App W)
          → fresh_count c.app.entries < suc n
          → Fine c (boot_deferred_with b must key c)
      unfolding boot_deferred_with
      boot_deferred_with-Fine key c h = elim (Option-cases (Dict.get c.app.deferred_map key)) [
        | inl e ↦ rw (boot_deferred_with, e) (Later-refl c, refl)
        | inr (i, e) ↦ rw (boot_deferred_with, e) (boot_entry-Fine i c h)
      ]

    pub must_make_with-Fine : (n : ℕ) → MustIsFine n (must_make_with b n)
    unfolding must_make_with
    must_make_with-Fine zero key c h = elim h [ ]
    must_make_with-Fine (suc n) key c h =
        resume-Fine _ (boot_deferred_with b (must_make_with b n) key c)
          (boot_deferred_with-Fine (must_make_with b n) n (must_make_with-Fine n) key c h)
          (λ _ d l.
            value_or_panic-Fine (Container.make b.factory key d) (Later-trans l (make-Later key d)))
