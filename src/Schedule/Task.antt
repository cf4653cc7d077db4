-- ===== src/Schedule/Task.antt =====
-- schedule/event.go: a task and its run, in the steps at which other runs of the task may interleave.
-- The task is `event` in the code, the cache lock, the callback and the kernel are parameters.
use go_fast_framework.Common.{
  ℕ, Bool, true, false, ◌&&◌, ◌||◌, List, [], ◌∷◌, ◌++◌, ◌==◌, if◌then◌else◌,
}
use go_fast_framework.Common.Action.{Outcome, returned, panicked}
use go_fast_framework.Cache.Memory.{bytes}
use go_fast_framework.OrmTag.Text.{Text}

-- event; a callback, a command and the injected services are kept as whether they are there
pub record Task : Type 0 where
  pub name : Text
  pub cron_expr : Text
  pub has_callback : Bool
  pub command : Text
  pub has_kernel : Bool
  pub skip_if_run : Bool
  pub delay_if_run : Bool
  pub on_one_server : Bool
  pub has_cache : Bool
  pub has_log : Bool

-- newEvent
abbrev pub new_event : Bool → Text → Task
new_event has_callback command = record {
  name = [];
  cron_expr = [];
  has_callback = has_callback;
  command = command;
  has_kernel = false;
  skip_if_run = false;
  delay_if_run = false;
  on_one_server = false;
  has_cache = false;
  has_log = false;
}

-- Cron, SkipIfStillRunning, DelayIfStillRunning, OnOneServer and Name
abbrev pub cron : Text → Task → Task
cron expression e = record e { cron_expr = expression }

abbrev pub skip_if_still_running : Task → Task
skip_if_still_running e = record e { skip_if_run = true }

abbrev pub delay_if_still_running : Task → Task
delay_if_still_running e = record e { delay_if_run = true }

abbrev pub only_one_server : Task → Task
only_one_server e = record e { on_one_server = true }

abbrev pub with_name : Text → Task → Task
with_name n e = record e { name = n }

-- Where a run of a task stands: before the guard of the flag, after it, after the lock, after the
-- body with the lock or without it, before the flag is reset, and at the end.
pub data Phase : Type 0 where
  entering guarded working unlocking leaving over : Phase

-- What runs of one task share: `running`, the lock and the rest of the program.
pub record Shared (L W : Type 0) : Type 0 where
  pub running : ℕ
  pub lock : L
  pub world : W

-- The services that a run calls.
pub record Services (L W : Type 0) : Type 0 where
  pub acquire : Text → L → Bool × L
  pub release : Text → L → L
  pub callback : W → Outcome (Unit {0}) × W
  pub kernel_call : Text → W → Outcome (Unit {0}) × W
  pub log_panic : Text → W → W
  pub print_panic : Text → W → W
  pub print_no_kernel : Text → W → W

abbrev pub is_no_text : Text → Bool
is_no_text [] = true
is_no_text (b ∷ bs) = false

abbrev pub lock_key : Task → Text
lock_key e = bytes "schedule:lock:" ++ e.name

module _ {L W : Type 0} (services : Services L W) (e : Task) where
  -- the deferred recover
  abbrev pub recovered : Outcome (Unit {0}) × W → W
  recovered (returned u, w) = w
  recovered (panicked, w) =
      if e.has_log then services.log_panic e.name w else services.print_panic e.name w

  -- the body of run, with its recover
  unfoldable pub work : W → W
  work w =
      if e.has_callback
      then recovered (services.callback w)
      else if is_no_text e.command
      then w
      else if e.has_kernel
      then recovered (services.kernel_call e.command w)
      else services.print_no_kernel e.name w

  abbrev pub needs_flag : Bool
  needs_flag = e.skip_if_run || e.delay_if_run

  abbrev pub needs_lock : Bool
  needs_lock = e.on_one_server && e.has_cache

  -- the guard of the flag: its CompareAndSwap
  unfoldable pub enter : Shared L W → Phase × Shared L W
  enter s =
      if e.skip_if_run
      then (if s.running == 0 then (guarded, record s { running = 1 }) else (over, s))
      else if e.delay_if_run
      then (if s.running == 0 then (guarded, record s { running = 1 }) else (entering, s))
      else (guarded, s)

  -- the lock of OnOneServer
  unfoldable pub take_lock : Shared L W → Phase × Shared L W
  unfolding bytes
  take_lock s =
      let (acquired, l) = services.acquire (lock_key e) s.lock in
      if needs_lock
      then (if acquired then working else leaving, record s { lock = l })
      else (working, s)

  -- One step of a run.
  unfoldable pub advance : Phase → Shared L W → Phase × Shared L W
  unfolding enter take_lock work bytes
  advance entering s = enter s
  advance guarded s = take_lock s
  advance working s = (if needs_lock then unlocking else leaving, record s { world = work s.world })
  advance unlocking s = (leaving, record s { lock = services.release (lock_key e) s.lock })
  advance leaving s = (over, if needs_flag then record s { running = 0 } else s)
  advance over s = (over, s)

-- The runs of a task that the scheduler has started, and what they share.
pub record Runs (L W : Type 0) : Type 0 where
  pub phases : List Phase
  pub shared : Shared L W

-- The steps of the program: the scheduler starts a run, or one of the runs goes on, while other code
-- may change the lock and the rest of the program.
pub data Step {L W : Type 0} (services : Services L W) (e : Task)
    : Runs L W → Runs L W → Type 0 where
  starts :
      (ps : List Phase) (s : Shared L W)
      → Step services e
          (record { phases = ps; shared = s })
          (record { phases = entering ∷ ps; shared = s })
  goes_on :
      (ps qs : List Phase) (p : Phase) (s : Shared L W)
      → Step services e
          (record { phases = ps ++ p ∷ qs; shared = s })
          (record {
            phases = ps ++ (advance services e p s).0 ∷ qs;
            shared = (advance services e p s).1;
          })
  changes :
      (ps : List Phase) (s : Shared L W) (l : L) (w : W)
      → Step services e
          (record { phases = ps; shared = s })
          (record { phases = ps; shared = record s { lock = l; world = w } })

pub data Steps {L W : Type 0} (services : Services L W) (e : Task)
    : Runs L W → Runs L W → Type 0 where
  no_step : (r : Runs L W) → Steps services e r r
  then_step : {r s t : Runs L W} → Steps services e r s → Step services e s t → Steps services e r t
