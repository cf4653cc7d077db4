-- ===== src/Foundation/Singleton.antt =====
-- Singletons: made once, and made again only after an error.
use text.Mathlib.Text.{◌==◌ as str_eq}
use text.Mathlib.TextEquality.{eq_iff}
use mathlib.Core.Bool.{true≢false}
use mathlib.Core.Path.{ap}
use go_fast_framework.Common.{
  get_or-append, ℕ, ◌<◌, String, ◌≡◌, ◌≢◌, refl, sym, ◌∙◌, true, false, none, some, [], ◌∷◌, Bool,
  subst, if◌then◌else◌, arith, length, get_or, length-append, length-set, get_or-set_ne, Bool-cases,
  Option-cases, inl, inr,
}
use go_fast_framework.Common.Dict
use go_fast_framework.Common.Dict.{get-assign, get-delete}
use go_fast_framework.Foundation.Container.{
  BindingType, Binding, Container, Outcome, gave, factory_panicked, factory_blocked, made,
  no_binding, put_binding, set_binding, lock, settle, after_factory, make_singleton, make_binding,
  make,
}

-- The key is bound to the singleton at this place of the heap, which has been made, with this value.
pub record Holds {R : Type 0} (key : String) (id value : ℕ) (c : Container R) : Type 0 where
  pub at : Dict.get c.bindings key ≡ some id
  pub allocated : id < length c.heap
  pub is_singleton : (get_or c.heap id no_binding).typ ≡ BindingType.bind_singleton
  pub is_initialized : (get_or c.heap id no_binding).initialized ≡ true
  pub has_value : (get_or c.heap id no_binding).instance_value ≡ value
  pub no_error : (get_or c.heap id no_binding).err ≡ none
  pub is_unlocked : (get_or c.heap id no_binding).locked ≡ false

pub str_eq_of_ne : (j k : String) → j ≢ k → str_eq j k ≡ false
str_eq_of_ne j k ne = elim (Bool-cases (str_eq j k)) [
  | inl e ↦ absurd (ne ((eq_iff j k).0 e))
  | inr e ↦ e
]

pub put_binding-Holds :
    {R : Type 0} {key : String} {id value : ℕ} (j : String) (b : Binding) {c : Container R}
    → j ≢ key
    → Holds key id value c
    → Holds key id value (put_binding j b c)
unfolding put_binding
put_binding-Holds {key} {id} j b {c} ne h =
    let e = get_or-append c.heap (b ∷ []) id no_binding h.allocated in
    record {
      at = get-assign c.bindings j key (length c.heap) ∙ rw (str_eq_of_ne j key ne) h.at;
      allocated = omega (arith, length-append {0} c.heap (b ∷ []), h.allocated);
      is_singleton = rw e h.is_singleton;
      is_initialized = rw e h.is_initialized;
      has_value = rw e h.has_value;
      no_error = rw e h.no_error;
      is_unlocked = rw e h.is_unlocked;
    }

-- A write to another binding.
set_binding-Holds :
    {R : Type 0} {key : String} {id value : ℕ} (i : ℕ) (b : Binding) {c : Container R}
    → i ≢ id
    → Holds key id value c
    → Holds key id value (set_binding i b c)
set_binding-Holds i b {c} ne h =
    let e = get_or-set_ne c.heap b no_binding ne in
    record {
      at = h.at;
      allocated = omega (arith, length-set {0} c.heap i b, h.allocated);
      is_singleton = rw e h.is_singleton;
      is_initialized = rw e h.is_initialized;
      has_value = rw e h.has_value;
      no_error = rw e h.no_error;
      is_unlocked = rw e h.is_unlocked;
    }

neither :
    {A : Type 0} (l i : Bool) (x y z : A)
    → l ≡ false
    → i ≡ false
    → (if l then x else if i then y else z) ≡ z
neither l i x y z h e = rw (h, e)

-- Make of a singleton that is not locked and not initialised runs its factory.
pub runs_factory :
    {R : Type 0} (call : ℕ → Container R → Outcome × Container R) (id : ℕ) (b : Binding)
    (c : Container R)
    → b.locked ≡ false
    → b.initialized ≡ false
    → make_singleton call id b c ≡ after_factory id (call b.factory (set_binding id (lock b) c))
unfolding make_singleton
runs_factory call id b c h e = neither b.locked b.initialized _ _ _ h e

after_factory-Holds :
    {R : Type 0} {key : String} {id value : ℕ} (i : ℕ) (r : Outcome × Container R)
    → i ≢ id
    → Holds key id value r.1
    → Holds key id value (after_factory i r).1
unfolding after_factory
after_factory-Holds i (gave p, c) ne h =
    set_binding-Holds i (settle p (get_or c.heap i no_binding)) ne h
after_factory-Holds i (factory_panicked, c) ne h = h
after_factory-Holds i (factory_blocked, c) ne h = h

module _ {R : Type 0} (call : ℕ → Container R → Outcome × Container R) {key : String} {id value : ℕ}
    (tame : (f : ℕ) (c : Container R)
      → Holds key id value c
      → Holds key id value (call f c).1) where
  make_singleton-Holds :
      (i : ℕ) {c : Container R}
      → Holds key id value c
      → Holds key id value (make_singleton call i (get_or c.heap i no_binding) c).1
  unfolding make_singleton
  make_singleton-Holds i {c} h =
      let b = get_or c.heap i no_binding in
      elim (Bool-cases b.locked) [
        | inl waits ↦ rw (waits, make_singleton) h
        | inr free ↦ elim (Bool-cases b.initialized) [
          | inl done ↦ rw (free, done, make_singleton) h
          | inr not_yet ↦
              let other : i ≢ id = λ e. true≢false (
                sym h.is_initialized
                ∙ ap (λ n. (get_or c.heap n no_binding).initialized) (sym e)
                ∙ not_yet) in
              subst (λ r. Holds key id value r.1) (sym (runs_factory call i b c free not_yet))
                (after_factory-Holds i _ other
                  (tame b.factory _ (set_binding-Holds i (lock b) other h)))
        ]
      ]

  make_binding-Holds :
      (i : ℕ) (t : BindingType) {c : Container R}
      → (get_or c.heap i no_binding).typ ≡ t
      → Holds key id value c
      → Holds key id value (make_binding call i (get_or c.heap i no_binding) c).1
  unfolding make_binding
  make_binding-Holds i BindingType.bind_factory {c} e h =
      rw (e, make_binding) (tame (get_or c.heap i no_binding).factory c h)
  make_binding-Holds i BindingType.bind_instance e h = rw (e, make_binding) h
  make_binding-Holds i BindingType.bind_singleton e h =
      rw (e, make_binding) (make_singleton-Holds i h)

  pub make-Holds :
      (j : String) {c : Container R} → Holds key id value c → Holds key id value (make call j c).1
  unfolding make
  make-Holds j {c} h = elim (Option-cases (Dict.get c.bindings j)) [
    | inl none_here ↦ rw (none_here, make) h
    | inr (i, here) ↦ rw (here, make) (make_binding-Holds i _ refl h)
  ]

  -- Make of the key gives the value, and runs nothing.
  pub make-made : {c : Container R} → Holds key id value c → make call key c ≡ (made value, c)
  unfolding make make_binding make_singleton
  make-made {c} h = rw (
    h.at, make, h.is_singleton, make_binding, h.is_unlocked, h.is_initialized, make_singleton,
    h.has_value, h.no_error,
  )
