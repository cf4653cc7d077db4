-- ===== src/Foundation/Container.antt =====
-- foundation/container.go. Factories and instances are closures and objects of the program that
-- uses the container: they go by numbers, and `call` is what a factory does. A `*binding` is a
-- position in the heap, so that a factory that rebinds its own key meets the code's aliasing.
use go_fast_framework.Common.{
  ℕ, String, Bool, true, false, Option, none, some, List, [], ◌∷◌, ◌++◌, length, get_or, set,
  if◌then◌else◌,
}
use go_fast_framework.Common.Dict
use go_fast_framework.Common.Dict.{Dict}

-- bindingType
pub data BindingType : Type 0 where
  bind_factory bind_singleton bind_instance : BindingType

-- binding; `err` is none for nil, and `locked` is the mutex mu
pub record Binding : Type 0 where
  pub typ : BindingType
  pub factory : ℕ
  pub instance_value : ℕ
  pub initialized : Bool
  pub err : Option ℕ
  pub locked : Bool

-- container, with the bindings that were ever made; `app` is the rest of the Application that the
-- container is embedded in, whose state factories may change
pub record Container (R : Type 0) : Type 0 where
  pub app : R
  pub bindings : Dict ℕ
  pub heap : List Binding

-- newContainer
abbrev pub new_container : {R : Type 0} → R → Container R
new_container app = record { app = app; bindings = Dict.empty; heap = [] }

-- the zero value of a binding
abbrev pub no_binding : Binding
no_binding = record {
  typ = BindingType.bind_factory;
  factory = 0;
  instance_value = 0;
  initialized = false;
  err = none;
  locked = false;
}

-- c.bindings[key] = &binding{…}
unfoldable pub put_binding : {R : Type 0} → String → Binding → Container R → Container R
put_binding key b c = record c {
  bindings = Dict.assign c.bindings key (length c.heap);
  heap = c.heap ++ b ∷ [];
}

-- Bind
unfoldable pub bind : {R : Type 0} → String → ℕ → Container R → Container R
unfolding put_binding
bind key factory c =
    put_binding key (record no_binding { typ = BindingType.bind_factory; factory = factory }) c

-- Singleton
unfoldable pub singleton : {R : Type 0} → String → ℕ → Container R → Container R
unfolding put_binding
singleton key factory c =
    put_binding key (record no_binding { typ = BindingType.bind_singleton; factory = factory }) c

-- Instance
unfoldable pub instance_of : {R : Type 0} → String → ℕ → Container R → Container R
unfolding put_binding
instance_of key value c =
    put_binding key (record no_binding { typ = BindingType.bind_instance; instance_value = value })
      c

-- What Make returns, or how it does not: it panics with its factory, or waits for ever, in its factory
-- or for a mutex.
pub data Made : Type 0 where
  made : ℕ → Made
  not_found : Made
  failed : ℕ → Made
  make_panicked make_blocked : Made

-- What a factory returns: an instance and an error.
pub record Product : Type 0 where
  pub value : ℕ
  pub error : Option ℕ

-- How the call of a factory ends.
pub data Outcome : Type 0 where
  gave : Product → Outcome
  factory_panicked factory_blocked : Outcome

abbrev pub result : ℕ → Option ℕ → Made
result value none = made value
result value (some e) = failed e

-- what Make passes on of a factory's call
abbrev pub passed_on : Outcome → Made
passed_on (gave p) = result p.value p.error
passed_on factory_panicked = make_panicked
passed_on factory_blocked = make_blocked

-- the assignments to the binding after the factory of a singleton has returned, with b.mu.Unlock()
abbrev pub settle : Product → Binding → Binding
settle p b = record b {
  instance_value = p.value;
  err = p.error;
  initialized = elim p.error [ none ↦ true | some _ ↦ b.initialized ];
  locked = false;
}

-- what is written through the pointer to a binding
abbrev pub set_binding : {R : Type 0} → ℕ → Binding → Container R → Container R
set_binding id b c = record c { heap = set c.heap id b }

-- b.mu.Lock() on a mutex that is free
abbrev pub lock : Binding → Binding
lock b = record b { locked = true }

-- What follows the factory of a singleton. The unlock is not deferred, so that a factory that does not
-- return leaves the mutex locked.
unfoldable pub after_factory : {R : Type 0} → ℕ → Outcome × Container R → Made × Container R
after_factory id (gave p, c) =
    let b = settle p (get_or c.heap id no_binding) in
    (result b.instance_value b.err, set_binding id b c)
after_factory id (factory_panicked, c) = (make_panicked, c)
after_factory id (factory_blocked, c) = (make_blocked, c)

module _ {R : Type 0} (call : ℕ → Container R → Outcome × Container R) where
  -- the case of a singleton in Make
  unfoldable pub make_singleton : ℕ → Binding → Container R → Made × Container R
  unfolding after_factory
  make_singleton id b c =
      if b.locked
      then (make_blocked, c)
      else if b.initialized
      then (result b.instance_value b.err, c)
      else after_factory id (call b.factory (set_binding id (lock b) c))

  unfoldable pub make_binding : ℕ → Binding → Container R → Made × Container R
  unfolding make_singleton
  make_binding id b c = elim b.typ [
    | bind_instance ↦ (made b.instance_value, c)
    | bind_factory ↦ let (o, c') = call b.factory c in (passed_on o, c')
    | bind_singleton ↦ make_singleton id b c
  ]

  -- Make
  unfoldable pub make : String → Container R → Made × Container R
  unfolding make_binding
  make key c = elim (Dict.get c.bindings key) [
    | none ↦ (not_found, c)
    | some id ↦ make_binding id (get_or c.heap id no_binding) c
  ]

-- Bound
unfoldable pub bound : {R : Type 0} → String → Container R → Bool
bound key c = Dict.is_some (Dict.get c.bindings key)

-- Unbind
unfoldable pub unbind : {R : Type 0} → String → Container R → Container R
unbind key c = record c { bindings = Dict.delete c.bindings key }

-- Flush
unfoldable pub flush : {R : Type 0} → Container R → Container R
flush c = record c { bindings = Dict.empty }
