-- ===== src/Tests/ScheduleTests.antt =====
-- schedule/ on small tasks.
use go_fast_framework.Common.{
  ℕ, ◌+◌, ◌≤◌, ◌≡◌, refl, Bool, true, false, not, none, List, [], ◌∷◌, arith,
}
use go_fast_framework.Common.Action.{returned, panicked}
use go_fast_framework.Cache.Memory.{bytes}
use go_fast_framework.OrmTag.Text.{trim_space}
use go_fast_framework.Schedule.Task.{
  Task, new_event, cron, skip_if_still_running, with_name, Phase, entering, guarded, over, Shared,
  Services, work, enter, take_lock, advance, Runs, Steps, starts, goes_on, no_step, then_step,
}
use go_fast_framework.Schedule.Running.{
  count_inside, IsGuarded, Steps-IsGuarded, drive, drive-Ended,
}
use go_fast_framework.Schedule.Cron.{
  fields_from, fields, normalize_cron, new_scheduler, register_events, add_events, start,
}
use go_fast_framework.Schedule.Fields.{fields-normalize_cron}

program : Unit {0}
unfolding bytes trim_space work enter take_lock advance count_inside drive fields_from fields
    normalize_cron register_events add_events start
program = tt

-- A lock that is held or not, and a callback that counts and panics.
abbrev counting : Services Bool ℕ
counting = record {
  acquire = λ key held. (not held, true);
  release = λ key held. false;
  callback = λ w. (panicked, w + 1);
  kernel_call = λ command w. (returned tt, w);
  log_panic = λ n w. w;
  print_panic = λ n w. w + 10;
  print_no_kernel = λ n w. w;
}

abbrev report : Task
report =
    skip_if_still_running
      (with_name (bytes "report") (cron (bytes "*/5 * * * *") (new_event true [])))

abbrev idle : Shared Bool ℕ
idle = record { running = 0; lock = false; world = 0 }

abbrev one_inside : Shared Bool ℕ
one_inside = record { running = 1; lock = false; world = 0 }

abbrev at : List Phase → Shared Bool ℕ → Runs Bool ℕ
at ps s = record { phases = ps; shared = s }

two_runs : Steps counting report (at [] idle) (at (guarded ∷ over ∷ []) one_inside)
unfolding program
two_runs =
    then_step
      (then_step
        (then_step (then_step (no_step (at [] idle)) (starts [] idle))
          (starts (entering ∷ []) idle))
        (goes_on [] (entering ∷ []) entering idle))
      (goes_on (guarded ∷ []) [] entering one_inside)

idle-IsGuarded : IsGuarded counting report refl (at [] idle)
unfolding program
idle-IsGuarded = (refl, omega arith)

Steps-IsGuarded_example : (count_inside (guarded ∷ over ∷ []) ≡ 1) × (1 ≤ 1)
Steps-IsGuarded_example = Steps-IsGuarded counting report refl two_runs idle-IsGuarded

drive-Ended_example :
    ((drive counting report refl 4 (guarded, one_inside)).0 ≡ over)
    × ((enter counting report (drive counting report refl 4 (guarded, one_inside)).1).0 ≡ guarded)
drive-Ended_example = drive-Ended counting report refl guarded one_inside refl

panics_counted : (drive counting report refl 4 (guarded, one_inside)).1.world ≡ 11
unfolding program
panics_counted = refl

five_fields : normalize_cron (bytes " */5 * * * * ") ≡ bytes "0 */5 * * * *"
unfolding program
five_fields = refl

fields-normalize_cron_example :
    (fields (normalize_cron (bytes " */5 * * * * ")) ≡ (bytes "0") ∷ fields (bytes " */5 * * * * "))
    × (normalize_cron (normalize_cron (bytes " */5 * * * * "))
        ≡ normalize_cron (bytes " */5 * * * * "))
unfolding program
fields-normalize_cron_example = fields-normalize_cron (bytes " */5 * * * * ")

skips_empty :
    (start
      (λ expr e c. (none, c + 1))
      (register_events (report ∷ new_event true [] ∷ []) (new_scheduler 0))).1.cron
    ≡ 1
unfolding program
skips_empty = refl
