-- ===== src/Tests/QueueTests.antt =====
-- queue/manager.go on small inputs: the state is a log, of jobs as their numbers, of waits as 0.
use go_fast_framework.Common.{ℕ, suc, ◌≡◌, refl, true, none, some, List, [], ◌∷◌, length, arith}
use go_fast_framework.Common.Action.{returned, panicked}
use go_fast_framework.Queue.Exec.{
  QueueChain, JobError, job_failed, args_to_any, retry_backoff, signatures, execute_chain,
  exec_chain_with_recover, back_off, warn_again, retry_loop, exec_with_retry,
}
use go_fast_framework.Queue.Retries.{Ends, exec_with_retry-Ends}
use go_fast_framework.Queue.Counts.{exec_with_retry_failed}
use go_fast_framework.Queue.Closing.{
  Channels, new_channels, enter, send, receive, Steps, here, then,
}
use go_fast_framework.Queue.Accepted.{received_accepted, enqueue_crashes}

program : Unit {0}
unfolding args_to_any retry_backoff signatures execute_chain exec_chain_with_recover back_off
    warn_again retry_loop exec_with_retry new_channels
program = tt

abbrev Log : Type 0
Log = List ℕ

abbrev sleep : ℕ → Log → Log
sleep d log = log

abbrev warn : ℕ → JobError → Log → Log
warn k e log = log

-- A job that notes its number and fails.
abbrev failing : QueueChain Log
failing = record {
  signature = "mail";
  handle = λ args log. (returned (some 5), 1 ∷ log);
  args = [];
}

-- A job that notes its number and, the first time, panics.
abbrev flaky : QueueChain Log
flaky = record {
  signature = "sync";
  handle =
      λ args log. elim log [ [] ↦ (panicked, 2 ∷ []) | n ∷ rest ↦ (returned none, 2 ∷ n ∷ rest) ];
  args = [];
}

recovers : exec_with_retry sleep warn (flaky ∷ []) 3 [] ≡ (none, 2 ∷ 2 ∷ [])
unfolding program
recovers = refl

exec_with_retry-Ends_example :
    Ends sleep warn
      (flaky ∷ [])
      4
      1
      []
      (exec_with_retry sleep warn (flaky ∷ []) 3 []).0
      (exec_with_retry sleep warn (flaky ∷ []) 3 []).1
exec_with_retry-Ends_example = exec_with_retry-Ends sleep warn (flaky ∷ []) 3 [] (omega arith)

fails_always : (exec_with_retry sleep warn (failing ∷ []) 2 []).0 ≡ some (job_failed "mail" 5)
unfolding program
fails_always = refl

runs_once : (log : Log) → length (exec_chain_with_recover (failing ∷ []) log).1 ≡ suc (length log)
unfolding program
runs_once log = refl

exec_with_retry_failed_example : length (exec_with_retry sleep warn (failing ∷ []) 2 []).1 ≡ 3
exec_with_retry_failed_example =
    exec_with_retry_failed sleep warn (failing ∷ []) length runs_once (λ d log. refl)
      (λ k e log. refl) 2 [] (job_failed "mail" 5) (omega arith) fails_always

-- Task 4 is sent and received.
abbrev entered : Channels
entered = record (new_channels 2) { between = 4 ∷ [] }

abbrev sent : Channels
sent = record entered { between = []; buffer = 4 ∷ []; accepted = 4 ∷ [] }

abbrev served : Channels
served = record sent { buffer = []; received = 4 ∷ [] }

to_served : Steps (new_channels 2) served
unfolding program
to_served = then (new_channels 2) entered served (enter 4 refl) (
    then entered sent served (send 4 [] [] refl refl (omega arith))
      (then sent served served (receive 4 [] refl) (here served)))

received_accepted_example : served.received ≡ served.accepted
received_accepted_example = received_accepted 2 served to_served refl

enqueue_crashes_example : Steps entered (record entered {
  stopped = true;
  stop_closed = true;
  job_closed = true;
  between = [];
  crashed = 4 ∷ [];
})
unfolding program
enqueue_crashes_example = enqueue_crashes entered 4 [] [] refl refl refl refl
