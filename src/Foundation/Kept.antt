-- ===== src/Foundation/Kept.antt =====
-- What Make of the container does to the rest of the application: what the factories do.
use go_fast_framework.Common.{
  ℕ, String, ◌≡◌, refl, Bool, true, false, Option-cases, inl, inr, get_or, List,
}
use go_fast_framework.Common.Dict
use go_fast_framework.Foundation.Container.{
  BindingType, bind_factory, bind_singleton, bind_instance, Binding, no_binding, Container, Outcome,
  gave, factory_panicked, factory_blocked, after_factory, make, make_binding, make_singleton,
}

module _ {R : Type 0} (call : ℕ → Container R → Outcome × Container R) (P : R → Type 0)
    (c : Container R) (here : P c.app)
    (called : (f : ℕ) (heap : List Binding) → P (call f (record c { heap = heap })).1.app) where
  of_outcome : (id : ℕ) (r : Outcome × Container R) → P r.1.app → P (after_factory id r).1.app
  unfolding after_factory
  of_outcome id (gave p, d) h = h
  of_outcome id (factory_panicked, d) h = h
  of_outcome id (factory_blocked, d) h = h

  of_singleton :
      (id : ℕ) (b : Binding) (l i : Bool)
      → b.locked ≡ l
      → b.initialized ≡ i
      → P (make_singleton call id b c).1.app
  unfolding make_singleton
  of_singleton id b true i h e = rw (make_singleton, h) here
  of_singleton id b false true h e = rw (make_singleton, h, e) here
  of_singleton id b false false h e =
      rw (make_singleton, h, e) (of_outcome id _ (called b.factory _))

  of_type :
      (id : ℕ) (b : Binding) (t : BindingType) → b.typ ≡ t → P (make_binding call id b c).1.app
  unfolding make_binding
  of_type id b bind_instance e = rw (make_binding, e) here
  of_type id b bind_factory e = rw (make_binding, e) (called b.factory c.heap)
  of_type id b bind_singleton e =
      rw (make_binding, e) (of_singleton id b b.locked b.initialized refl refl)

  pub make-kept : (key : String) → P (make call key c).1.app
  unfolding make
  make-kept key = elim (Option-cases (Dict.get c.bindings key)) [
    | inl e ↦ rw (make, e) here
    | inr (id, e) ↦ let b = get_or c.heap id no_binding in rw (make, e) (of_type id b b.typ refl)
  ]
