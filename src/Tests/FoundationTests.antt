-- ===== src/Tests/FoundationTests.antt =====
-- foundation/container.go on small inputs.
use text.Mathlib.TextEquality.{eq_iff}
use text.Mathlib.Text.{◌==◌ as str_eq}
use mathlib.Core.Bool.{true≢false}
use go_fast_framework.Common.{
  ℕ, ◌*◌, String, ◌≡◌, ◌≢◌, refl, sym, ◌∙◌, false, none, some, List, [], ◌∷◌, get_or, arith,
  if◌then◌else◌,
}
use go_fast_framework.Common.Dict
use go_fast_framework.Foundation.Container.{
  Container, Product, no_binding, made, not_found, failed, new_container, put_binding, bind,
  singleton, instance_of, make, make_binding, make_singleton, after_factory, Outcome, gave,
  factory_panicked, factory_blocked, make_panicked, make_blocked, passed_on, bound, unbind,
}
use go_fast_framework.Foundation.Remade.{
  Registered, locking, Op, bind_op, make_op, unbind_op, singleton-Registered, use_container,
  use_all, make-use_all, make-retries,
}

program : Unit {0}
unfolding put_binding bind singleton instance_of make make_binding make_singleton after_factory
    bound unbind use_container use_all Dict.get Dict.assign Dict.empty Dict.delete
program = tt

-- Factories that need the configuration, and do nothing else to the container.
abbrev call : ℕ → Container (Unit {0}) → Outcome × Container (Unit {0})
call f c =
    (gave (record { value = 10 * f; error = if bound "config" c then none else some 404 }), c)

abbrev configured : Container (Unit {0})
configured = singleton "db" 1 (instance_of "config" 5 (new_container tt))

abbrev bare : Container (Unit {0})
bare = singleton "db" 1 (new_container tt)

missing : (make call "log" bare).0 ≡ not_found
unfolding program
missing = refl

ne : (j k : String) → str_eq j k ≡ false → j ≢ k
ne j k h e = true≢false (sym ((eq_iff j k).1 e) ∙ h)

abbrev uses : List Op
uses = bind_op "log" 2 ∷ make_op "log" ∷ unbind_op "config" ∷ []

made_first : (make call "db" configured).0 ≡ made 10
unfolding program
made_first = refl

-- What the failing factory returns.
abbrev no_config : Product
no_config = record { value = 10; error = some 404 }

fails : call 1 (locking 0 bare) ≡ (gave no_config, locking 0 bare)
unfolding program
fails = refl

still_not : (get_or bare.heap 0 no_binding).initialized ≡ false
unfolding program
still_not = refl

still_not_locked : (get_or (locking 0 bare).heap 0 no_binding).initialized ≡ false
unfolding program
still_not_locked = refl

free : (get_or bare.heap 0 no_binding).locked ≡ false
unfolding program
free = refl

bare-Registered_locked : Registered "db" 0 1 (locking 0 bare)
unfolding program
bare-Registered_locked = record {
  at = refl;
  allocated = omega arith;
  is_singleton = refl;
  has_factory = refl;
}

-- A factory that panics, and leaves the mutex locked: the next Make of its key waits for ever.
abbrev panics : ℕ → Container (Unit {0}) → Outcome × Container (Unit {0})
panics f c = (factory_panicked, c)

first_panics : (make panics "db" bare).0 ≡ make_panicked
unfolding program
first_panics = refl

then_waits : (make call "db" (make panics "db" bare).1).0 ≡ make_blocked
unfolding program
then_waits = refl

-- A factory that makes its own key waits for itself.
abbrev own_key : ℕ → Container (Unit {0}) → Outcome × Container (Unit {0})
own_key f c = (
  elim (make call "db" c).0 [ made v ↦ gave no_config | _ ↦ factory_blocked ],
  (make call "db" c).1,
)

waits_for_itself : (make own_key "db" configured).0 ≡ make_blocked
unfolding program
waits_for_itself = refl

bare-Registered : Registered "db" 0 1 bare
bare-Registered = singleton-Registered "db" 1 (new_container tt)

make-use_all_example :
    make call "db" (use_all call uses (make call "db" configured).1)
    ≡ (made 10, use_all call uses (make call "db" configured).1)
unfolding instance_of
make-use_all_example =
    make-use_all call (λ id value f c h. h, λ id g f c h. h) 1 1 10 uses configured
      (singleton-Registered "db" 1 (instance_of "config" 5 (new_container tt))) made_first
      (ne "log" "db" refl, (tt, (ne "config" "db" refl, tt)))

make-retries_example :
    ((make call "db" bare).0 ≡ failed 404)
    × ((make call "db" (make call "db" bare).1).0
        ≡ passed_on (call 1 (locking 0 (make call "db" bare).1)).0)
make-retries_example =
    make-retries call "db" 0 1 404 no_config bare (locking 0 bare) bare-Registered free still_not
      fails refl bare-Registered_locked still_not_locked
