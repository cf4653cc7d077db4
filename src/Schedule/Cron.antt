-- ===== src/Schedule/Cron.antt =====
-- schedule/scheduler.go: normalizeCron, RegisterEvents and Start. The cron library is a parameter; the
-- warning about a skipped task is left out.
use go_fast_framework.Common.{
  ℕ, Bool, true, false, List, [], ◌∷◌, ◌++◌, Option, none, some, ◌==◌, length, if◌then◌else◌,
}
use go_fast_framework.OrmTag.Text.{Text, is_space, trim_space}
use go_fast_framework.Schedule.Task.{Task, is_no_text}

-- strings.Fields, with the bytes of the field that was begun
unfoldable pub fields_from : Text → Text → List Text
fields_from field [] = if is_no_text field then [] else field ∷ []
fields_from field (b ∷ bs) =
    let ends = fields_from [] bs in
    let goes_on = fields_from (field ++ b ∷ []) bs in
    if is_space b then (if is_no_text field then ends else field ∷ ends) else goes_on

unfoldable pub fields : Text → List Text
unfolding fields_from
fields s = fields_from [] s

-- strings.HasPrefix(expr, "@")
abbrev pub is_descriptor : Text → Bool
is_descriptor [] = false
is_descriptor (b ∷ bs) = b == 64

-- normalizeCron
unfoldable pub normalize_cron : Text → Text
unfolding trim_space fields
normalize_cron s =
    let expr = trim_space s in
    if is_no_text expr
    then []
    else if is_descriptor expr
    then expr
    else if length (fields expr) == 5
    then 48 ∷ 32 ∷ expr
    else expr

-- Scheduler, with the state of the cron library
pub record Scheduler (C : Type 0) : Type 0 where
  pub cron : C
  pub is_started : Bool
  pub events : List Task
  pub has_cache : Bool
  pub has_kernel : Bool
  pub has_log : Bool

-- New
abbrev pub new_scheduler : {C : Type 0} → C → Scheduler C
new_scheduler cron = record {
  cron = cron;
  is_started = false;
  events = [];
  has_cache = false;
  has_kernel = false;
  has_log = false;
}

-- RegisterEvents
unfoldable pub register_events : {C : Type 0} → List Task → Scheduler C → Scheduler C
register_events es s = record s { events = s.events ++ es }

-- the services that Start injects
abbrev pub inject : {C : Type 0} → Scheduler C → Task → Task
inject s e = record e { has_cache = s.has_cache; has_kernel = s.has_kernel; has_log = s.has_log }

module _ {C : Type 0} (add_func : Text → Task → C → Option ℕ × C) where
  -- the loop of Start: the error of a task that the library refuses, the tasks after the loop, and the
  -- library's state
  unfoldable pub add_events : Scheduler C → List Task → C → Option ℕ × (List Task × C)
  unfolding normalize_cron
  add_events s [] c = (none, ([], c))
  add_events s (e ∷ es) c =
      let ev = inject s e in
      let expr = normalize_cron ev.cron_expr in
      let (refused, c') = add_func expr ev c in
      let (err, (rest, d)) = add_events s es c' in
      let (err_skipped, (rest_skipped, d_skipped)) = add_events s es c in
      if is_no_text expr
      then (err_skipped, (ev ∷ rest_skipped, d_skipped))
      else elim refused [ none ↦ (err, (ev ∷ rest, d)) | some x ↦ (some x, (ev ∷ es, c')) ]

  -- Start
  unfoldable pub start : Scheduler C → Option ℕ × Scheduler C
  unfolding add_events
  start s =
      let (err, (es, c)) = add_events s s.events s.cron in
      elim err [
        | none ↦ (none, record s { events = es; cron = c; is_started = true })
        | some x ↦ (some x, record s { events = es; cron = c })
      ]
