-- ===== src/Schedule/Running.antt =====
-- The guards of SkipIfStillRunning and DelayIfStillRunning.
use go_fast_framework.Common.{
  ℕ, zero, suc, ◌+◌, ◌≤◌, ◌≡◌, refl, sym, ◌∙◌, Bool, true, false, ◌||◌, List, [], ◌∷◌, ◌++◌, ◌==◌,
  ==_iff, if◌then◌else◌, arith,
}
use go_fast_framework.Schedule.Task.{
  Task, Phase, entering, guarded, working, unlocking, leaving, over, Shared, Services, needs_flag,
  needs_lock, enter, take_lock, advance, Runs, Step, starts, goes_on, changes, Steps, no_step,
  then_step,
}

-- Whether a run is between the guard of the flag and the reset of the flag.
abbrev pub inside : Phase → ℕ
inside entering = 0
inside guarded = 1
inside working = 1
inside unlocking = 1
inside leaving = 1
inside over = 0

unfoldable pub count_inside : List Phase → ℕ
count_inside [] = 0
count_inside (p ∷ ps) = inside p + count_inside ps

count_inside-append :
    (ps qs : List Phase) (p : Phase)
    → count_inside (ps ++ p ∷ qs) ≡ inside p + (count_inside ps + count_inside qs)
unfolding count_inside
count_inside-append [] qs p = omega arith
count_inside-append (q ∷ ps) qs p = let ih = count_inside-append ps qs p in omega arith

module _ {L W : Type 0} (services : Services L W) (e : Task)
    (guards : needs_flag services e ≡ true) where
  -- A step moves the flag with the number of the runs inside, of which n are other runs.
  abbrev Balanced : ℕ → Phase × Shared L W → Type 0
  Balanced n r = (inside r.0 + n ≡ r.1.running) × (r.1.running ≤ 1)

  -- The guard, by the two flags of the task and whether `running` is 0.
  abbrev entered : Bool → Bool → Bool → Shared L W → Phase × Shared L W
  entered skip delay free s =
      if skip
      then (if free then (guarded, record s { running = 1 }) else (over, s))
      else if delay
      then (if free then (guarded, record s { running = 1 }) else (entering, s))
      else (guarded, s)

  entered-Balanced :
      (n : ℕ) (s : Shared L W) (skip delay free : Bool)
      → (skip || delay) ≡ true
      → (s.running == 0) ≡ free
      → n ≡ s.running
      → s.running ≤ 1
      → Balanced n (entered skip delay free s)
  entered-Balanced n s true delay true g f h le =
      let z : s.running ≡ 0 = (==_iff s.running 0).0 f in (omega arith, omega arith)
  entered-Balanced n s true delay false g f h le = (omega arith, le)
  entered-Balanced n s false true true g f h le =
      let z : s.running ≡ 0 = (==_iff s.running 0).0 f in (omega arith, omega arith)
  entered-Balanced n s false true false g f h le = (omega arith, le)
  entered-Balanced n s false false free g f h le = absurd cc

  locked-Balanced :
      (n : ℕ) (s : Shared L W) (l : L) (lock acquired : Bool)
      → 1 + n ≡ s.running
      → s.running ≤ 1
      → Balanced n (
          if lock
          then (if acquired then working else leaving, record s { lock = l })
          else (working, s))
  locked-Balanced n s l true true h le = (h, le)
  locked-Balanced n s l true false h le = (h, le)
  locked-Balanced n s l false acquired h le = (h, le)

  worked-Balanced :
      (n : ℕ) (s : Shared L W) (lock : Bool)
      → 1 + n ≡ s.running
      → s.running ≤ 1
      → Balanced n (if lock then unlocking else leaving, s)
  worked-Balanced n s true h le = (h, le)
  worked-Balanced n s false h le = (h, le)

  left-Balanced :
      (n : ℕ) (s : Shared L W) (flag : Bool)
      → flag ≡ true
      → 1 + n ≡ s.running
      → s.running ≤ 1
      → Balanced n (over, if flag then record s { running = 0 } else s)
  left-Balanced n s true g h le = (omega arith, omega arith)
  left-Balanced n s false g h le = absurd cc

  advance-Balanced :
      (p : Phase) (n : ℕ) (s : Shared L W)
      → inside p + n ≡ s.running
      → s.running ≤ 1
      → Balanced n (advance services e p s)
  unfolding advance enter take_lock
  advance-Balanced entering n s h le =
      entered-Balanced n s e.skip_if_run e.delay_if_run (s.running == 0) guards refl (omega arith)
        le
  advance-Balanced guarded n s h le = locked-Balanced n s _ (needs_lock services e) _ h le
  advance-Balanced working n s h le =
      worked-Balanced n (record s { world = (advance services e working s).1.world })
        (needs_lock services e) h le
  advance-Balanced unlocking n s h le = (h, le)
  advance-Balanced leaving n s h le = left-Balanced n s (needs_flag services e) guards h le
  advance-Balanced over n s h le = (h, le)

  -- As many runs are inside as the flag says, which is one at most.
  abbrev pub IsGuarded : Runs L W → Type 0
  IsGuarded r = (count_inside r.phases ≡ r.shared.running) × (r.shared.running ≤ 1)

  step-IsGuarded : {r s : Runs L W} → Step services e r s → IsGuarded r → IsGuarded s
  unfolding count_inside
  step-IsGuarded (starts ps s) g = (omega arith, g.1)
  step-IsGuarded (changes ps s l w) g = (g.0, g.1)
  step-IsGuarded (goes_on ps qs p s) g =
      let n = count_inside ps + count_inside qs in
      let split = count_inside-append ps qs p in
      let h : inside p + n ≡ s.running = sym split ∙ g.0 in
      let b = advance-Balanced p n s h g.1 in
      (count_inside-append ps qs (advance services e p s).0 ∙ b.0, b.1)

  -- In every order of the steps of the runs of a task that skips or delays, from a state in which it is
  -- so: the number of the runs between the guard and the end is `running`, which is at most 1, so that two of them never work at once, and the flag
  -- is 0 again when none is there, also after runs that did not get the lock or whose body panicked.
  pub Steps-IsGuarded : {r s : Runs L W} → Steps services e r s → IsGuarded r → IsGuarded s
  Steps-IsGuarded (no_step r) g = g
  Steps-IsGuarded (then_step steps step) g = step-IsGuarded step (Steps-IsGuarded steps g)

  -- A run by its own steps alone.
  unfoldable pub drive : ℕ → Phase × Shared L W → Phase × Shared L W
  unfolding advance
  drive zero r = r
  drive (suc n) r = drive n (advance services e r.0 r.1)

  abbrev Ended : Phase × Shared L W → Type 0
  Ended r = (r.0 ≡ over) × ((enter services e r.1).0 ≡ guarded)

  free_to_enter :
      (s : Shared L W) (skip delay : Bool)
      → (skip || delay) ≡ true
      → (entered skip delay true s).0 ≡ guarded
  free_to_enter s true delay g = refl
  free_to_enter s false true g = refl
  free_to_enter s false false g = absurd cc

  over-Ended :
      (n : ℕ) (s : Shared L W) → (enter services e s).0 ≡ guarded → Ended (drive n (over, s))
  unfolding drive advance
  over-Ended zero s h = (refl, h)
  over-Ended (suc n) s h = over-Ended n s h

  leaving-Ended : (n : ℕ) (s : Shared L W) → Ended (drive (suc n) (leaving, s))
  unfolding drive advance enter
  leaving-Ended n s = by_flag (needs_flag services e) guards
    where
      by_flag :
          (b : Bool) → b ≡ true → Ended (drive n (over, if b then record s { running = 0 } else s))
      by_flag true g =
          over-Ended n (record s { running = 0 })
            (free_to_enter (record s { running = 0 }) e.skip_if_run e.delay_if_run guards)
      by_flag false g = absurd cc

  unlocking-Ended : (n : ℕ) (s : Shared L W) → Ended (drive (suc (suc n)) (unlocking, s))
  unfolding drive advance
  unlocking-Ended n s = leaving-Ended n _

  working-Ended : (n : ℕ) (s : Shared L W) → Ended (drive (suc (suc (suc n))) (working, s))
  unfolding drive advance
  working-Ended n s = by_lock (needs_lock services e) _
    where
      by_lock :
          (b : Bool) (t : Shared L W)
          → Ended (drive (suc (suc n)) (if b then unlocking else leaving, t))
      by_lock true t = unlocking-Ended n t
      by_lock false t = leaving-Ended (suc n) t

  guarded-Ended : (n : ℕ) (s : Shared L W) → Ended (drive (suc (suc (suc (suc n)))) (guarded, s))
  unfolding drive advance take_lock
  guarded-Ended n s = by_lock (needs_lock services e) _ _
    where
      by_lock :
          (lock acquired : Bool) (l : L)
          → Ended (
              drive (suc (suc (suc n))) (
                if lock
                then (if acquired then working else leaving, record s { lock = l })
                else (working, s)))
      by_lock true true l = working-Ended n (record s { lock = l })
      by_lock true false l = leaving-Ended (suc (suc n)) (record s { lock = l })
      by_lock false acquired l = working-Ended n s

  -- A task that skips or delays never stays blocked: a run that is past the guard ends after four steps
  -- of its own, whether or not it gets the lock and whether or not its body panics, and the next run
  -- that tries the guard then passes it. The calls of the lock and of the body are taken to end.
  pub drive-Ended :
      (p : Phase) (s : Shared L W)
      → inside p ≡ 1
      → ((drive 4 (p, s)).0 ≡ over) × ((enter services e (drive 4 (p, s)).1).0 ≡ guarded)
  drive-Ended entering s h = absurd cc
  drive-Ended guarded s h = guarded-Ended 0 s
  drive-Ended working s h = working-Ended 1 s
  drive-Ended unlocking s h = unlocking-Ended 2 s
  drive-Ended leaving s h = leaving-Ended 3 s
  drive-Ended over s h = absurd cc
