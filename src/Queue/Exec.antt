-- ===== src/Queue/Exec.antt =====
-- queue/manager.go: how a task runs. A job's Handle is an action on the state of the program; so are
-- time.Sleep and the warning of the logger, which are the parameters `sleep` and `warn`. Goroutines
-- and channels are not here.
use go_fast_framework.Common.{
  ℕ, zero, suc, ◌-◌, ◌*◌, ◌%◌, ◌^◌, ltb, String, true, false, Option, none, some, List, [], ◌∷◌,
  map, if◌then◌else◌,
}
use go_fast_framework.Common.Action.{Outcome, returned, panicked, Action, and_then, pure}
use go_fast_framework.Common.Word.{add64, neg64, lt64}

-- contracts.QueueArg: its type, which is only a description, and its value
pub record QueueArg : Type 0 where
  pub type : String
  pub value : ℕ

-- An element of a chain: the job's Signature, what its Handle does with some arguments (the
-- error, or none for nil), and its arguments.
pub record QueueChain (W : Type 0) : Type 0 where
  pub signature : String
  pub handle : List ℕ → Action W (Option ℕ)
  pub args : List QueueArg

-- The errors that a chain ends with.
pub data JobError : Type 0 where
  job_failed : String → ℕ → JobError
  job_panic : List String → JobError

-- argsToAny
unfoldable pub args_to_any : List QueueArg → List ℕ
args_to_any args = map (λ a. a.value) args

-- retryBackoff, in nanoseconds
unfoldable pub retry_backoff : ℕ → ℕ
retry_backoff attempt = (add64 attempt (neg64 1) * 100_000_000) % 2 ^ 64

-- pendingTask, without its queue, its connection and its manager; a delay of none is the zero time
pub record PendingTask (W : Type 0) : Type 0 where
  pub jobs : List (QueueChain W)
  pub delay : Option ℕ
  pub retry : ℕ

module _ {W : Type 0} where
  -- signatures
  unfoldable pub signatures : List (QueueChain W) → List String
  signatures jobs = map (λ c. c.signature) jobs

  abbrev pub unless_failed :
      String → Action W (Option JobError) → Option ℕ → Action W (Option JobError)
  unless_failed signature rest none = rest
  unless_failed signature rest (some e) = pure (some (job_failed signature e))

  -- executeChain
  unfoldable pub execute_chain : List (QueueChain W) → Action W (Option JobError)
  unfolding args_to_any
  execute_chain [] = pure none
  execute_chain (c ∷ cs) =
      let rest = execute_chain cs in
      and_then (c.handle (args_to_any c.args)) (unless_failed c.signature rest)

  abbrev pub recovered : List (QueueChain W) → Outcome (Option JobError) → Option JobError
  recovered jobs (returned e) = e
  recovered jobs panicked = some (job_panic (signatures jobs))

  -- execChainWithRecover
  unfoldable pub exec_chain_with_recover : List (QueueChain W) → W → Option JobError × W
  unfolding execute_chain signatures
  exec_chain_with_recover jobs w = let (o, w') = execute_chain jobs w in (recovered jobs o, w')

  module _ (sleep : ℕ → W → W) (warn : ℕ → JobError → W → W) (jobs : List (QueueChain W)) where
    -- the wait before an attempt
    unfoldable pub back_off : ℕ → W → W
    back_off attempt w = if lt64 1 attempt then sleep (retry_backoff attempt) w else w

    -- the warning after an attempt that failed
    unfoldable pub warn_again : ℕ → ℕ → JobError → W → W
    warn_again attempt attempts e w = if lt64 attempt attempts then warn attempt e w else w

    -- The loop of execWithRetry from an attempt, with fuel.
    unfoldable pub retry_loop : ℕ → ℕ → ℕ → Option JobError → W → Option JobError × W
    retry_loop zero attempt attempts err w = (err, w)
    retry_loop (suc fuel) attempt attempts err w = elim (lt64 attempts attempt) [
      | true ↦ (err, w)
      | false ↦
          let (e, w') = exec_chain_with_recover jobs (back_off attempt w) in
          elim e [
            | none ↦ (none, w')
            | some x ↦
                retry_loop fuel (add64 attempt 1) attempts (some x)
                  (warn_again attempt attempts x w')
          ]
    ]

    -- execWithRetry, with an int for the number of retries; the fuel is one more than the attempts
    unfoldable pub exec_with_retry : ℕ → W → Option JobError × W
    exec_with_retry retry w =
        let attempts = add64 retry 1 in
        retry_loop (if lt64 0 attempts then suc attempts else 1) 1 attempts none w

  -- Job, Chain, Delay and Retry
  unfoldable pub chain : List (QueueChain W) → PendingTask W
  chain jobs = record { jobs = jobs; delay = none; retry = 0 }

  unfoldable pub delay_until : ℕ → PendingTask W → PendingTask W
  delay_until t p = record p { delay = some t }

  unfoldable pub retry_times : ℕ → PendingTask W → PendingTask W
  retry_times times p = record p { retry = times }

  module _ (sleep : ℕ → W → W) (warn : ℕ → JobError → W → W) where
    abbrev pub wait_until : ℕ → Option ℕ → W → W
    wait_until now none w = w
    wait_until now (some t) w = if ltb now t then sleep (t - now) w else w

    -- DispatchSync, and run
    unfoldable pub dispatch_sync : PendingTask W → W → Option JobError × W
    dispatch_sync p w = exec_with_retry sleep warn p.jobs p.retry w

    unfoldable pub run : ℕ → PendingTask W → W → Option JobError × W
    run now p w = exec_with_retry sleep warn p.jobs p.retry (wait_until now p.delay w)
