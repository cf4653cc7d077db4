-- ===== src/Foundation/Script.antt =====
-- What Boot makes providers do, and the calls that do a part of it.
use go_fast_framework.Common.{
  ℕ, ◌≡◌, refl, sym, ap, ◌∙◌, Bool, true, false, List, [], ◌∷◌, ◌++◌, append_assoc, append_nil,
}
use go_fast_framework.Foundation.Application.{
  Ending, returned, panicked, blocked, starved, Provider, App, Act, resume,
}
use go_fast_framework.Foundation.Boot.{each}

-- What is done with the provider of an id.
pub data Event : Type 0 where
  registered defaulted booted migrated routed : ℕ → Event

abbrev pub is_returned : {A : Type 0} → Ending A → Bool
is_returned (returned a) = true
is_returned _ = false

-- The same event for each provider.
abbrev pub events_of : (Provider → Event) → List Provider → List Event
events_of event [] = []
events_of event (p ∷ ps) = event p ∷ events_of event ps

module _ {W : Type 0} (log : W → List Event) where
  -- One event is logged, and the map of the deferred providers is left alone.
  abbrev pub Notes : {A : Type 0} → App W → Event → Ending A × App W → Type 0
  Notes c e r =
      (log r.1.app.world ≡ log c.app.world ++ e ∷ []) × (r.1.app.deferred_map ≡ c.app.deferred_map)

  -- No event is logged.
  abbrev pub Quiet : App W → App W → Type 0
  Quiet c d = (log d.app.world ≡ log c.app.world) × (d.app.deferred_map ≡ c.app.deferred_map)

  -- A call from `c` that logs the first of the events, and all of them when it returns.
  pub record Ran {A : Type 0} (c : App W) (events : List Event) (r : Ending A × App W)
      : Type 0 where
    pub logged : List Event
    pub left : List Event
    pub split : logged ++ left ≡ events
    pub in_log : log r.1.app.world ≡ log c.app.world ++ logged
    pub complete : is_returned r.0 ≡ true → left ≡ []
    pub same_map : r.1.app.deferred_map ≡ c.app.deferred_map

  pub Quiet-Ran : {A : Type 0} {c : App W} (r : Ending A × App W) → Quiet c r.1 → Ran c [] r
  Quiet-Ran {c = c} r q = record {
    logged = [];
    left = [];
    split = refl;
    in_log = q.0 ∙ sym (append_nil (log c.app.world));
    complete = λ _. refl;
    same_map = q.1;
  }

  pub note-Ran :
      {A : Type 0} {c : App W} (e : Event) (r : Ending A × App W) → Notes c e r → Ran c (e ∷ []) r
  note-Ran e r n = record {
    logged = e ∷ [];
    left = [];
    split = refl;
    in_log = n.0;
    complete = λ _. refl;
    same_map = n.1;
  }

  -- A call that ended early has run a part of any longer list.
  ended-Ran :
      {A B : Type 0} {c : App W} (events more : List Event) (r : Ending A × App W) (o : Ending B)
      → is_returned o ≡ false
      → Ran c events r
      → Ran c (events ++ more) (o, r.1)
  ended-Ran events more r o h ran = record {
    logged = ran.logged;
    left = ran.left ++ more;
    split = sym (append_assoc ran.logged ran.left more) ∙ ap (λ l. l ++ more) ran.split;
    in_log = ran.in_log;
    complete = λ t. let clash : false ≡ true = sym h ∙ t in absurd cc;
    same_map = ran.same_map;
  }

  after-Ran :
      {A : Type 0} {c d : App W} (events more logged : List Event) (r : Ending A × App W)
      → logged ≡ events
      → log d.app.world ≡ log c.app.world ++ logged
      → d.app.deferred_map ≡ c.app.deferred_map
      → Ran d more r
      → Ran c (events ++ more) r
  after-Ran {c = c} events more logged r e l m ran = record {
    logged = logged ++ ran.logged;
    left = ran.left;
    split =
        append_assoc logged ran.logged ran.left
        ∙ (ap (λ x. x ++ (ran.logged ++ ran.left)) e ∙ ap (λ x. events ++ x) ran.split);
    in_log =
        ran.in_log
        ∙ (ap (λ x. x ++ ran.logged) l ∙ append_assoc (log c.app.world) logged ran.logged);
    complete = ran.complete;
    same_map = ran.same_map ∙ m;
  }

  pub all_logged :
      {A : Type 0} {c : App W} (events : List Event) (r : Ending A × App W)
      → (ran : Ran c events r) → is_returned r.0 ≡ true
      → ran.logged ≡ events
  all_logged events r ran h =
      sym (append_nil ran.logged) ∙ (ap (λ x. ran.logged ++ x) (sym (ran.complete h)) ∙ ran.split)

  -- One call after the other.
  pub resume-Ran :
      {A B : Type 0} {c : App W} (events more : List Event) (f : A → Act W B) (r : Ending A × App W)
      → Ran c events r
      → ((a : A) (d : App W) → d.app.deferred_map ≡ c.app.deferred_map → Ran d more (f a d))
      → Ran c (events ++ more) (resume f r.0 r.1)
  resume-Ran events more f (returned a, d) ran k =
      after-Ran events more ran.logged (f a d) (all_logged events _ ran refl) ran.in_log
        ran.same_map (k a d ran.same_map)
  resume-Ran events more f (panicked, d) ran k = ended-Ran events more _ panicked refl ran
  resume-Ran events more f (blocked, d) ran k = ended-Ran events more _ blocked refl ran
  resume-Ran events more f (starved, d) ran k = ended-Ran events more _ starved refl ran

  -- One call for each provider, where each logs its event.
  abbrev pub AllNote :
      {A : Type 0} → (Provider → Event) → (Provider → Act W A) → List Provider → Type 0
  AllNote event f [] = Unit
  AllNote event f (p ∷ ps) = ((c : App W) → Notes c (event p) (f p c)) × AllNote event f ps

  pub each-Ran :
      (event : Provider → Event) (f : Provider → Act W (Unit {0})) (ps : List Provider) (c : App W)
      → AllNote event f ps
      → Ran c (events_of event ps) (each f ps c)
  unfolding each
  each-Ran event f [] c h = Quiet-Ran _ (refl, refl)
  each-Ran event f (p ∷ ps) c h =
      resume-Ran (event p ∷ []) (events_of event ps) _ (f p c) (note-Ran (event p) (f p c) (h.0 c))
        (λ _ d m. each-Ran event f ps d h.1)
