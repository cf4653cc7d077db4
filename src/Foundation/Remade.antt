-- ===== src/Foundation/Remade.antt =====
-- Make of a singleton after any other use of the container.
use text.Mathlib.TextPositions.{eq_refl}
use go_fast_framework.Common.{
  get_or-last, ℕ, ◌<◌, String, ◌≡◌, ◌≢◌, refl, sym, ap, subst, ◌∙◌, false, Option, none, some, List,
  [], ◌∷◌, arith, length, get_or, length-append, length-set, get_or-set_self, Bool-cases, inl, inr,
}
use go_fast_framework.Common.Dict
use go_fast_framework.Common.Dict.{get-assign, get-delete}
use go_fast_framework.Foundation.Container.{
  BindingType, bind_factory, bind_singleton, bind_instance, Container, Outcome, gave,
  factory_panicked, factory_blocked, Product, made, failed, make_blocked, no_binding, put_binding,
  bind, singleton, instance_of, result, passed_on, set_binding, lock, settle, after_factory,
  make_singleton, make_binding, make, unbind,
}
use go_fast_framework.Foundation.Singleton.{
  Holds, put_binding-Holds, str_eq_of_ne, make-Holds, make-made, runs_factory,
}

-- What the users of the container may do between two calls of Make for the key.
pub data Op : Type 0 where
  bind_op singleton_op instance_op : String → ℕ → Op
  make_op unbind_op : String → Op

abbrev pub Spares : String → Op → Type 0
Spares key (bind_op j f) = j ≢ key
Spares key (singleton_op j f) = j ≢ key
Spares key (instance_op j v) = j ≢ key
Spares key (unbind_op j) = j ≢ key
Spares key (make_op j) = Unit

abbrev pub AllSpare : String → List Op → Type 0
AllSpare key [] = Unit
AllSpare key (op ∷ ops) = Spares key op × AllSpare key ops

-- The key is bound to the singleton at this place of the heap.
pub record Registered {R : Type 0} (key : String) (id factory : ℕ) (c : Container R) : Type 0 where
  pub at : Dict.get c.bindings key ≡ some id
  pub allocated : id < length c.heap
  pub is_singleton : (get_or c.heap id no_binding).typ ≡ BindingType.bind_singleton
  pub has_factory : (get_or c.heap id no_binding).factory ≡ factory

result_made : (v w : ℕ) (e : Option ℕ) → result v e ≡ made w → (v ≡ w) × (e ≡ none)
result_made v w none h = (cc, refl)
result_made v w (some e) h = absurd cc

-- After Singleton the key is registered.
pub singleton-Registered :
    {R : Type 0} (key : String) (f : ℕ) (c : Container R)
    → Registered key (length c.heap) f (singleton key f c)
unfolding singleton put_binding
singleton-Registered key f c =
    let e =
      get_or-last c.heap (record no_binding { typ = BindingType.bind_singleton; factory = f })
        no_binding in
    record {
      at = get-assign c.bindings key key (length c.heap) ∙ rw (eq_refl key);
      allocated = omega (
        arith,
        length-append {0} c.heap
            (record no_binding { typ = BindingType.bind_singleton; factory = f } ∷ []),
      );
      is_singleton = rw e;
      has_factory = rw e;
    }

unbind-Holds :
    {R : Type 0} {key : String} {id value : ℕ} (j : String) {c : Container R}
    → j ≢ key
    → Holds key id value c
    → Holds key id value (unbind j c)
unfolding unbind
unbind-Holds {key} j {c} ne h = record {
  at = get-delete c.bindings j key ∙ rw (str_eq_of_ne j key ne) h.at;
  allocated = h.allocated;
  is_singleton = h.is_singleton;
  is_initialized = h.is_initialized;
  has_value = h.has_value;
  no_error = h.no_error;
  is_unlocked = h.is_unlocked;
}

-- The container while the factory of a singleton runs.
abbrev pub locking : {R : Type 0} → ℕ → Container R → Container R
locking id c = set_binding id (lock (get_or c.heap id no_binding)) c

locking-Registered :
    {R : Type 0} {key : String} {id g : ℕ} {c : Container R}
    → Registered key id g c
    → Registered key id g (locking id c)
locking-Registered {id} {c = c} r =
    let b = lock (get_or c.heap id no_binding) in
    let e = get_or-set_self c.heap id b no_binding r.allocated in
    record {
      at = r.at;
      allocated = omega (arith, length-set {0} c.heap id b, r.allocated);
      is_singleton = rw e r.is_singleton;
      has_factory = rw e r.has_factory;
    }

-- A factory that gave an instance leaves it held.
after_factory-made :
    {R : Type 0} {key : String} {id g value : ℕ} (r : Outcome × Container R)
    → Registered key id g r.1
    → (after_factory id r).0 ≡ made value
    → Holds key id value (after_factory id r).1
unfolding after_factory
after_factory-made {id} {value} (gave p, c) r h =
    let same = result_made p.value value p.error h in
    let settled = settle p (get_or c.heap id no_binding) in
    let e = get_or-set_self c.heap id settled no_binding r.allocated in
    record {
      at = r.at;
      allocated = omega (arith, length-set {0} c.heap id settled, r.allocated);
      is_singleton = rw e r.is_singleton;
      is_initialized = rw (e, same.1);
      has_value = rw e same.0;
      no_error = rw e same.1;
      is_unlocked = rw e;
    }
after_factory-made (factory_panicked, c) r h = absurd cc
after_factory-made (factory_blocked, c) r h = absurd cc

passed_on-after_factory :
    {R : Type 0} (id : ℕ) (r : Outcome × Container R) → (after_factory id r).0 ≡ passed_on r.0
unfolding after_factory
passed_on-after_factory id (gave p, c) = refl
passed_on-after_factory id (factory_panicked, c) = refl
passed_on-after_factory id (factory_blocked, c) = refl

of_singleton :
    {A : Type 0} (t : BindingType) (x y z : A)
    → t ≡ BindingType.bind_singleton
    → (elim t [ bind_instance ↦ x | bind_factory ↦ y | bind_singleton ↦ z ]) ≡ z
of_singleton t x y z e = rw e

module _ {R : Type 0} (call : ℕ → Container R → Outcome × Container R) where
  -- One use of the container, and a list of them.
  unfoldable pub use_container : Op → Container R → Container R
  use_container (bind_op j f) c = bind j f c
  use_container (singleton_op j f) c = singleton j f c
  use_container (instance_op j v) c = instance_of j v c
  use_container (unbind_op j) c = unbind j c
  use_container (make_op j) c = (make call j c).1

  unfoldable pub use_all : List Op → Container R → Container R
  use_all [] c = c
  use_all (op ∷ ops) c = use_all ops (use_container op c)

  -- Factories leave the key at its binding, and a singleton that was made as it is.
  abbrev pub Leaves : String → Type 0
  Leaves key =
      ((id value f : ℕ) (c : Container R) → Holds key id value c → Holds key id value (call f c).1)
      × ((id g f : ℕ) (c : Container R) → Registered key id g c → Registered key id g (call f c).1)

  make-Registered :
      {key : String} {id g : ℕ} {c : Container R}
      → Registered key id g c
      → make call key c ≡ make_singleton call id (get_or c.heap id no_binding) c
  unfolding make make_binding
  make-Registered r = rw (r.at, make) (of_singleton _ _ _ _ r.is_singleton)

  make_unmade :
      {key : String} {id g : ℕ} {c : Container R}
      → Registered key id g c
      → (get_or c.heap id no_binding).locked ≡ false
      → (get_or c.heap id no_binding).initialized ≡ false
      → make call key c ≡ after_factory id (call g (locking id c))
  make_unmade {key} {id} {c = c} r free not_yet =
      subst (λ f. make call key c ≡ after_factory id (call f (locking id c))) r.has_factory
        (make-Registered r ∙ runs_factory call id (get_or c.heap id no_binding) c free not_yet)

  -- A registered singleton whose last Make failed, or that was never made, and that no other Make is
  -- making: when its factory fails, Make gives the error, and the next Make runs the factory again and
  -- passes on what it then does. The failing factory is to leave its own key bound to the same singleton,
  -- with the same factory and not yet initialised.
  pub make-retries :
      (key : String) (id g e : ℕ) (p : Product) (c c' : Container R)
      → Registered key id g c
      → (get_or c.heap id no_binding).locked ≡ false
      → (get_or c.heap id no_binding).initialized ≡ false
      → call g (locking id c) ≡ (gave p, c')
      → p.error ≡ some e
      → Registered key id g c'
      → (get_or c'.heap id no_binding).initialized ≡ false
      → ((make call key c).0 ≡ failed e)
        × ((make call key (make call key c).1).0
            ≡ passed_on (call g (locking id (make call key c).1)).0)
  unfolding after_factory
  make-retries key id g e p c c' r free not_yet ran fails r' still =
      let once = make_unmade r free not_yet ∙ ap (after_factory id) ran in
      let settled = settle p (get_or c'.heap id no_binding) in
      let at_id = get_or-set_self c'.heap id settled no_binding r'.allocated in
      let after = ap (λ m. m.1) once in
      let r'' : Registered key id g (set_binding id settled c') = record {
        at = r'.at;
        allocated = omega (arith, length-set {0} c'.heap id settled, r'.allocated);
        is_singleton = rw at_id r'.is_singleton;
        has_factory = rw at_id r'.has_factory;
      } in
      let registered = subst (λ d. Registered key id g d) (sym after) r'' in
      let not_made : (get_or (make call key c).1.heap id no_binding).initialized ≡ false =
        rw (after, at_id, fails) still in
      let unlocked : (get_or (make call key c).1.heap id no_binding).locked ≡ false =
        rw (after, at_id) in
      (
        rw (once, fails),
        ap (λ m. m.0) (make_unmade registered unlocked not_made)
            ∙ passed_on-after_factory id (call g (locking id (make call key c).1)),
      )

  module _ {key : String} (leaves : Leaves key) where
    use_container-Holds :
        (op : Op) {id value : ℕ} {c : Container R}
        → Spares key op
        → Holds key id value c
        → Holds key id value (use_container op c)
    unfolding use_container bind singleton instance_of
    use_container-Holds (bind_op j f) ne h = put_binding-Holds j _ ne h
    use_container-Holds (singleton_op j f) ne h = put_binding-Holds j _ ne h
    use_container-Holds (instance_op j v) ne h = put_binding-Holds j _ ne h
    use_container-Holds (unbind_op j) ne h = unbind-Holds j ne h
    use_container-Holds (make_op j) {id} {value} ne h = make-Holds call (leaves.0 id value) j h

    use_all-Holds :
        (ops : List Op) {id value : ℕ} {c : Container R}
        → AllSpare key ops
        → Holds key id value c
        → Holds key id value (use_all ops c)
    unfolding use_all
    use_all-Holds [] spare h = h
    use_all-Holds (op ∷ ops) spare h = use_all-Holds ops spare.1 (use_container-Holds op spare.0 h)

    made_singleton-Holds :
        {id g : ℕ} (value : ℕ) {c : Container R}
        → Registered key id g c
        → (make_singleton call id (get_or c.heap id no_binding) c).0 ≡ made value
        → Holds key id value (make_singleton call id (get_or c.heap id no_binding) c).1
    unfolding make_singleton
    made_singleton-Holds {id} {g} value {c} r h =
        let b = get_or c.heap id no_binding in
        elim (Bool-cases b.locked) [
          | inl waits ↦
              let clash : make_blocked ≡ made value = sym (rw (waits, make_singleton)) ∙ h in
              absurd cc
          | inr free ↦ elim (Bool-cases b.initialized) [
            | inl done ↦
                let same =
                  result_made b.instance_value value b.err
                    (sym (rw (free, done, make_singleton)) ∙ h) in
                rw (free, done, make_singleton)
                  (record {
                    at = r.at;
                    allocated = r.allocated;
                    is_singleton = r.is_singleton;
                    is_initialized = done;
                    has_value = same.0;
                    no_error = same.1;
                    is_unlocked = free;
                  })
            | inr not_yet ↦
                let e = runs_factory call id b c free not_yet in
                subst (λ m. Holds key id value m.1) (sym e)
                  (after_factory-made _
                    (leaves.1 id g b.factory (locking id c) (locking-Registered r))
                    (ap (λ m. m.0) (sym e) ∙ h))
          ]
        ]

    -- A Make of the registered key that gives a value leaves it held.
    made-Holds :
        {id g : ℕ} (value : ℕ) {c : Container R}
        → Registered key id g c
        → (make call key c).0 ≡ made value
        → Holds key id value (make call key c).1
    made-Holds {id} value {c} r h =
        let e = make-Registered r in rw e (made_singleton-Holds value r (ap (λ m. m.0) (sym e) ∙ h))

    -- A singleton, registered under a key that no factory takes away or rebinds, and which no factory
    -- changes or leaves locked once it was made: when a Make of the key has given a value, then after any
    -- Bind, Singleton, Instance and Unbind of other keys and any Make of any key, a Make of the key gives
    -- the same value and runs no factory: the container is as it was.
    pub make-use_all :
        (id g value : ℕ) (ops : List Op) (c : Container R)
        → Registered key id g c
        → (make call key c).0 ≡ made value
        → AllSpare key ops
        → make call key (use_all ops (make call key c).1)
          ≡ (made value, use_all ops (make call key c).1)
    make-use_all id g value ops c r first spare =
        make-made call (leaves.0 id value) (use_all-Holds ops spare (made-Holds value r first))
