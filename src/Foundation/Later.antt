-- ===== src/Foundation/Later.antt =====
-- What providers, factories and services leave alone in the deferred entries of an application: the
-- map, the providers, and every entry that has started.
use go_fast_framework.Common.{
  ℕ, zero, suc, ◌≤◌, ◌<◌, ◌≡◌, refl, sym, ap, ◌∙◌, Bool, true, false, List, [], ◌∷◌, length, get_or,
  set, if◌then◌else◌, arith, Bool-cases, inl, inr,
}
use go_fast_framework.Foundation.Application.{
  Once, fresh, running, done, DeferredEntry, App, entry_at, set_entry, no_entry,
}

abbrev pub is_started : Once → Bool
is_started fresh = false
is_started running = true
is_started done = true

-- An entry, and the same entry later.
pub record EntryLater (e f : DeferredEntry) : Type 0 where
  pub same_provider : f.provider ≡ e.provider
  pub kept : is_started e.once ≡ true → f ≡ e

pub data EntriesLater : List DeferredEntry → List DeferredEntry → Type 0 where
  later_nil : EntriesLater [] []
  later_cons :
      {e f : DeferredEntry} {es fs : List DeferredEntry}
      → EntryLater e f
      → EntriesLater es fs
      → EntriesLater (e ∷ es) (f ∷ fs)

-- The entries that have not started.
unfoldable pub fresh_count : List DeferredEntry → ℕ
fresh_count [] = 0
fresh_count (e ∷ es) = let rest = fresh_count es in if is_started e.once then rest else suc rest

abbrev pub EntryLater-refl : (e : DeferredEntry) → EntryLater e e
EntryLater-refl e = record { same_provider = refl; kept = λ _. refl }

pub EntriesLater-refl : (es : List DeferredEntry) → EntriesLater es es
EntriesLater-refl [] = later_nil
EntriesLater-refl (e ∷ es) = later_cons (EntryLater-refl e) (EntriesLater-refl es)

EntryLater-trans : {e f g : DeferredEntry} → EntryLater e f → EntryLater f g → EntryLater e g
EntryLater-trans a b = record {
  same_provider = b.same_provider ∙ a.same_provider;
  kept = λ s. let same = a.kept s in b.kept (ap (λ x. is_started x.once) same ∙ s) ∙ same;
}

pub EntriesLater-trans :
    {es fs gs : List DeferredEntry} → EntriesLater es fs → EntriesLater fs gs → EntriesLater es gs
EntriesLater-trans later_nil later_nil = later_nil
EntriesLater-trans (later_cons a more) (later_cons b bs) =
    later_cons (EntryLater-trans a b) (EntriesLater-trans more bs)

pub get_or-EntryLater :
    {es fs : List DeferredEntry}
    → EntriesLater es fs
    → (i : ℕ) → EntryLater (get_or es i no_entry) (get_or fs i no_entry)
get_or-EntryLater later_nil i = EntryLater-refl no_entry
get_or-EntryLater (later_cons a more) zero = a
get_or-EntryLater (later_cons a more) (suc i) = get_or-EntryLater more i

-- The owner of an entry that had not started may change it.
pub set-EntriesLater :
    {es fs : List DeferredEntry}
    → EntriesLater es fs
    → (i : ℕ) (e : DeferredEntry) → is_started (get_or es i no_entry).once ≡ false
    → e.provider ≡ (get_or es i no_entry).provider
    → EntriesLater es (set fs i e)
set-EntriesLater later_nil i e h p = later_nil
set-EntriesLater (later_cons a more) zero e h p =
    later_cons
      (record { same_provider = p; kept = λ s. let clash : false ≡ true = sym h ∙ s in absurd cc })
      more
set-EntriesLater (later_cons a more) (suc i) e h p = later_cons a (set-EntriesLater more i e h p)

fresh_count-cons :
    (e : DeferredEntry) (es : List DeferredEntry) (b : Bool)
    → is_started e.once ≡ b
    → fresh_count (e ∷ es) ≡ (if b then fresh_count es else suc (fresh_count es))
unfolding fresh_count
fresh_count-cons e es b h = ap (λ x. if x then fresh_count es else suc (fresh_count es)) h

pub fresh_count-EntriesLater :
    {es fs : List DeferredEntry} → EntriesLater es fs → fresh_count fs ≤ fresh_count es
unfolding fresh_count
fresh_count-EntriesLater later_nil = omega arith
fresh_count-EntriesLater (later_cons {e = e} {f = f} {es = es} {fs = fs} a more) =
    let ih = fresh_count-EntriesLater more in
    elim (Bool-cases (is_started e.once)) [
      | inl s ↦
          let s' = ap (λ x. is_started x.once) (a.kept s) ∙ s in
          omega (arith, fresh_count-cons e es true s, fresh_count-cons f fs true s')
      | inr s ↦ elim (Bool-cases (is_started f.once)) [
        | inl t ↦ omega (arith, fresh_count-cons e es false s, fresh_count-cons f fs true t)
        | inr t ↦ omega (arith, fresh_count-cons e es false s, fresh_count-cons f fs false t)
      ]
    ]

pub fresh_count-set :
    (es : List DeferredEntry) (i : ℕ) (e : DeferredEntry)
    → is_started e.once ≡ true
    → fresh_count (set es i e) ≤ fresh_count es
unfolding fresh_count
fresh_count-set [] i e s = omega arith
fresh_count-set (f ∷ fs) zero e s = elim (Bool-cases (is_started f.once)) [
  | inl t ↦ omega (arith, fresh_count-cons e fs true s, fresh_count-cons f fs true t)
  | inr t ↦ omega (arith, fresh_count-cons e fs true s, fresh_count-cons f fs false t)
]
fresh_count-set (f ∷ fs) (suc i) e s =
    let ih = fresh_count-set fs i e s in
    elim (Bool-cases (is_started f.once)) [
      | inl t ↦ omega (arith, fresh_count-cons f fs true t, fresh_count-cons f (set fs i e) true t)
      | inr t ↦
          omega (arith, fresh_count-cons f fs false t, fresh_count-cons f (set fs i e) false t)
    ]

-- Starting an entry leaves fewer that have not started.
pub fresh_count-start :
    (es : List DeferredEntry) (i : ℕ) (e : DeferredEntry)
    → is_started e.once ≡ true
    → is_started (get_or es i no_entry).once ≡ false
    → fresh_count (set es i e) < fresh_count es
unfolding fresh_count
fresh_count-start [] i e s h = absurd cc
fresh_count-start (f ∷ fs) zero e s h =
    omega (arith, fresh_count-cons e fs true s, fresh_count-cons f fs false h)
fresh_count-start (f ∷ fs) (suc i) e s h =
    let ih = fresh_count-start fs i e s h in
    elim (Bool-cases (is_started f.once)) [
      | inl t ↦ omega (arith, fresh_count-cons f fs true t, fresh_count-cons f (set fs i e) true t)
      | inr t ↦
          omega (arith, fresh_count-cons f fs false t, fresh_count-cons f (set fs i e) false t)
    ]

pub fresh_count-length : (es : List DeferredEntry) → fresh_count es ≤ length es
unfolding fresh_count
fresh_count-length [] = omega arith
fresh_count-length (e ∷ es) =
    let ih = fresh_count-length es in
    elim (Bool-cases (is_started e.once)) [
      | inl t ↦ omega (arith, fresh_count-cons e es true t)
      | inr t ↦ omega (arith, fresh_count-cons e es false t)
    ]

-- What is found where an entry was written; outside the list there is `no_entry`, which is done.
pub get_or-set_started :
    (es : List DeferredEntry) (i : ℕ) (e : DeferredEntry)
    → is_started e.once ≡ true
    → is_started (get_or (set es i e) i no_entry).once ≡ true
get_or-set_started [] i e h = refl
get_or-set_started (f ∷ fs) zero e h = h
get_or-set_started (f ∷ fs) (suc i) e h = get_or-set_started fs i e h

pub get_or-set_done :
    (es : List DeferredEntry) (i : ℕ) (e : DeferredEntry)
    → e.once ≡ done
    → (get_or (set es i e) i no_entry).once ≡ done
get_or-set_done [] i e h = refl
get_or-set_done (f ∷ fs) zero e h = h
get_or-set_done (f ∷ fs) (suc i) e h = get_or-set_done fs i e h

module _ {W : Type 0} where
  -- An application, and the application later.
  pub record Later (c d : App W) : Type 0 where
    pub same_map : d.app.deferred_map ≡ c.app.deferred_map
    pub entries_later : EntriesLater c.app.entries d.app.entries

  pub Later-refl : (c : App W) → Later c c
  Later-refl c = record { same_map = refl; entries_later = EntriesLater-refl c.app.entries }

  pub Later-trans : {c d e : App W} → Later c d → Later d e → Later c e
  Later-trans a b = record {
    same_map = b.same_map ∙ a.same_map;
    entries_later = EntriesLater-trans a.entries_later b.entries_later;
  }

  pub set_entry-Later :
      {c d : App W} (i : ℕ) (e : DeferredEntry)
      → Later c d
      → is_started (entry_at i c).once ≡ false
      → e.provider ≡ (entry_at i c).provider
      → Later c (set_entry i e d)
  set_entry-Later i e l h p = record {
    same_map = l.same_map;
    entries_later = set-EntriesLater l.entries_later i e h p;
  }
