-- ===== src/Foundation/Deferred.antt =====
-- Deferred providers: Make ends, starts each of them once, and may wait for itself.
use go_fast_framework.Common.{
  ℕ, suc, ◌≡◌, refl, sym, ap, ◌∙◌, String, Bool, true, false, Option, none, some, length, arith,
}
use go_fast_framework.Common.Dict
use go_fast_framework.Common.Dict.{Dict}
use go_fast_framework.Foundation.Container
use go_fast_framework.Foundation.Application.{
  Ending, returned, panicked, blocked, starved, Once, fresh, running, done, App, Act, resume,
  Behaviour, entry_at, or_panic, mark_done, once_do, boot_entry, boot_deferred_with, must_make_with,
  fuel, boot_deferred_if_needed, make,
}
use go_fast_framework.Foundation.Later.{
  is_started, get_or-EntryLater, fresh_count-length, get_or-set_done, Later, Later-trans,
}
use go_fast_framework.Foundation.Calm.{
  is_starved, Fine, IsCalm, resume-Fine, make-Later, as_returned-Fine, boot_deferred_with-Fine,
  must_make_with-Fine,
}

abbrev pub is_blocked : {A : Type 0} → Ending A → Bool
is_blocked blocked = true
is_blocked _ = false

module _ {W : Type 0} (b : Behaviour W) (calm : IsCalm b) where
  pub boot_deferred_if_needed-Fine :
      (key : String) (c : App W) → Fine c (boot_deferred_if_needed b key c)
  unfolding boot_deferred_if_needed
  boot_deferred_if_needed-Fine key c =
      let n = length c.app.entries in
      let le = fresh_count-length c.app.entries in
      boot_deferred_with-Fine b calm (must_make_with b (suc n)) (suc n)
        (must_make_with-Fine b calm (suc n)) key c (omega arith)

  -- When factories and providers leave alone the deferred entries that have started, so does Make, and
  -- its nested calls of deferred providers need no more fuel than there are entries: Make returns,
  -- panics, or waits for ever (for a provider that is being started, for a singleton that is being made,
  -- or in a factory), whatever was registered.
  pub make-Fine :
      (key : String) (c : App W) → Later c (make b key c).1 × (is_starved (make b key c).0 ≡ false)
  unfolding make
  make-Fine key c =
      resume-Fine _ (boot_deferred_if_needed b key c) (boot_deferred_if_needed-Fine key c) (λ _ d l.
        as_returned-Fine b calm (Container.make b.factory key d)
          (Later-trans l (make-Later b calm key d)))

  -- An entry is done when once.Do is over.
  mark_done_over :
      (must : String → Act W ℕ) (i : ℕ) (r : Ending (Unit {0}) × App W)
      → is_blocked (mark_done b must i r).0 ≡ false
      → is_starved (mark_done b must i r).0 ≡ false
      → (entry_at i (mark_done b must i r).1).once ≡ done
  mark_done_over must i (returned u, d) h s = get_or-set_done d.app.entries i _ refl
  mark_done_over must i (panicked, d) h s = get_or-set_done d.app.entries i _ refl
  mark_done_over must i (blocked, d) h s = absurd cc
  mark_done_over must i (starved, d) h s = absurd cc

  once_do_over :
      (must : String → Act W ℕ) (o : Once) (i : ℕ) (c : App W)
      → (entry_at i c).once ≡ o
      → is_blocked (once_do b must o i c).0 ≡ false
      → is_starved (once_do b must o i c).0 ≡ false
      → (entry_at i (once_do b must o i c).1).once ≡ done
  once_do_over must done i c e h s = e
  once_do_over must running i c e h s = absurd cc
  once_do_over must fresh i c e h s = mark_done_over must i _ h s

  -- The end of a call that checks the entry's error afterwards.
  checked_over :
      (i : ℕ) (r : Ending (Unit {0}) × App W)
      → (is_blocked r.0 ≡ false → is_starved r.0 ≡ false → (entry_at i r.1).once ≡ done)
      → is_blocked (resume (λ _ d. or_panic b (entry_at i d).err d) r.0 r.1).0 ≡ false
      → is_starved (resume (λ _ d. or_panic b (entry_at i d).err d) r.0 r.1).0 ≡ false
      → (entry_at i (resume (λ _ d. or_panic b (entry_at i d).err d) r.0 r.1).1).once ≡ done
  checked_over i (returned u, d) k h s = same (entry_at i d).err
    where
      same : (e : Option ℕ) → (entry_at i (or_panic b e d).1).once ≡ done
      same none = k refl refl
      same (some x) = k refl refl
  checked_over i (panicked, d) k h s = k refl refl
  checked_over i (blocked, d) k h s = absurd cc
  checked_over i (starved, d) k h s = absurd cc

  with_entry :
      (key : String) (i : ℕ) (c : App W)
      → Dict.get c.app.deferred_map key ≡ some i
      → boot_deferred_if_needed b key c ≡ boot_entry b (must_make_with b (fuel b c)) i c
  unfolding boot_deferred_if_needed boot_deferred_with
  with_entry key i c e = rw (boot_deferred_with, e)

  entry_over :
      (key : String) (i : ℕ) (c : App W)
      → Dict.get c.app.deferred_map key ≡ some i
      → is_blocked (boot_deferred_if_needed b key c).0 ≡ false
      → (entry_at i (boot_deferred_if_needed b key c).1).once ≡ done
  entry_over key i c e h =
      let fine = boot_deferred_if_needed-Fine key c in
      let must = must_make_with b (fuel b c) in
      let same = with_entry key i c e in
      let h' : is_blocked (boot_entry b must i c).0 ≡ false =
        ap (λ r. is_blocked r.0) (sym same) ∙ h in
      let s' : is_starved (boot_entry b must i c).0 ≡ false =
        ap (λ r. is_starved r.0) (sym same) ∙ fine.1 in
      ap (λ r. (entry_at i r.1).once) same
      ∙ checked_over i (once_do b must (entry_at i c).once i c)
          (once_do_over must (entry_at i c).once i c refl) h' s'

  done_entry :
      (must : String → Act W ℕ) (o : Once) (i : ℕ) (c : App W)
      → o ≡ done
      → resume
          (λ _ d. or_panic b (entry_at i d).err d)
          (once_do b must o i c).0
          (once_do b must o i c).1
        ≡ or_panic b (entry_at i c).err c
  done_entry must done i c e = refl
  done_entry must fresh i c e = absurd cc
  done_entry must running i c e = absurd cc

  -- Where factories and providers leave alone the deferred entries that have started, also between the
  -- calls: a deferred provider is started at most once. Once the first Make of one of its keys has ended, by
  -- returning or by a panic, no later Make of the key runs its Register, Boot or hooks again: the
  -- application stays as it is, and the call returns, or panics again if Boot gave an error. So a
  -- provider whose Register, migration or routes panicked counts as started.
  pub boot_deferred_if_needed_once :
      (key : String) (i : ℕ) (c d : App W)
      → Dict.get c.app.deferred_map key ≡ some i
      → is_blocked (boot_deferred_if_needed b key c).0 ≡ false
      → Later (boot_deferred_if_needed b key c).1 d
      → boot_deferred_if_needed b key d
        ≡ or_panic b (entry_at i (boot_deferred_if_needed b key c).1).err d
  boot_deferred_if_needed_once key i c d e h l =
      let fine = boot_deferred_if_needed-Fine key c in
      let over = entry_over key i c e h in
      let kept : entry_at i d ≡ entry_at i (boot_deferred_if_needed b key c).1 =
        (get_or-EntryLater l.entries_later i).kept (ap is_started over) in
      let e' : Dict.get d.app.deferred_map key ≡ some i =
        ap (λ m. Dict.get m key) (l.same_map ∙ fine.0.same_map) ∙ e in
      with_entry key i d e'
      ∙ done_entry (must_make_with b (fuel b d)) (entry_at i d).once i d
          (ap (λ x. x.once) kept ∙ over)
      ∙ ap (λ x. or_panic b x.err d) kept
