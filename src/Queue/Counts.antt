-- ===== src/Queue/Counts.antt =====
-- How often the jobs of a task run, and chains that are put together.
use go_fast_framework.Common.{
  ℕ, suc, ◌+◌, ◌^◌, ◌≤◌, ◌<◌, ◌≡◌, refl, ap, ◌∙◌, Option, none, some, List, [], ◌∷◌, ◌++◌, arith,
  Bool-cases, inl, inr,
}
use go_fast_framework.Common.Action.{Outcome, returned, panicked, Action, and_then, pure, resume}
use go_fast_framework.Common.Word.{lt64}
use go_fast_framework.Queue.Exec.{
  QueueChain, JobError, args_to_any, unless_failed, execute_chain, exec_chain_with_recover,
  retry_backoff, back_off, exec_with_retry,
}
use go_fast_framework.Queue.Retries.{
  attempt_run, Ends, succeeds, gives_up, tries_again, exec_with_retry-Ends,
}

module _ {W : Type 0} (sleep : ℕ → W → W) (warn : ℕ → JobError → W → W) (jobs : List (QueueChain W))
    (ran : W → ℕ) (counts : (w : W) → ran (exec_chain_with_recover jobs w).1 ≡ suc (ran w))
    (sleep_quiet : (d : ℕ) (w : W) → ran (sleep d w) ≡ ran w)
    (warn_quiet : (k : ℕ) (e : JobError) (w : W) → ran (warn k e w) ≡ ran w) where
  attempt_run-count : (k : ℕ) (w : W) → ran (attempt_run sleep warn jobs k w).1 ≡ suc (ran w)
  unfolding back_off
  attempt_run-count k w = elim (Bool-cases (lt64 1 k)) [
    | inl later ↦
        rw (later, back_off)
          (counts (sleep (retry_backoff k) w) ∙ ap suc (sleep_quiet (retry_backoff k) w))
    | inr first ↦ rw (first, back_off) (counts w)
  ]

  Ends-count :
      {attempts k : ℕ} {w : W} {o : Option JobError} {w' : W} (e : JobError)
      → Ends sleep warn jobs attempts k w o w'
      → o ≡ some e
      → k ≤ attempts
      → ran w' + k ≡ ran w + suc attempts
  Ends-count e (succeeds k w done) failed le = absurd cc
  Ends-count e (gives_up k w x last failed) same le = omega (arith, attempt_run-count k w, last)
  Ends-count e (tries_again k w x o w' more failed rest) same le = omega (
    arith,
    Ends-count e rest same (omega arith),
    attempt_run-count k w,
    warn_quiet k x (attempt_run sleep warn jobs k w).1,
  )

  -- A run of the chain counts one, and waits and warnings count nothing: when execWithRetry, with
  -- retries from 0 to 2 ^ 63 - 3, gives an error, the chain has run exactly retry + 1 times.
  pub exec_with_retry_failed :
      (retry : ℕ) (w : W) (e : JobError)
      → suc (suc retry) < 2 ^ 63
      → (exec_with_retry sleep warn jobs retry w).0 ≡ some e
      → ran (exec_with_retry sleep warn jobs retry w).1 ≡ ran w + suc retry
  exec_with_retry_failed retry w e small failed = omega (
    arith,
    Ends-count e (exec_with_retry-Ends sleep warn jobs retry w small) failed (omega arith),
  )

-- The rest of a chain after a part that ended without an error.
abbrev pub unless_error :
    {W : Type 0} → Action W (Option JobError) → Option JobError → Action W (Option JobError)
unless_error rest none = rest
unless_error rest (some e) = pure (some e)

-- Two chains one after the other are one chain: the second runs, in the state that the first leaves,
-- only if the first returns nil; an error or a panic of the first is that of the whole.
pub execute_chain-append :
    {W : Type 0} (xs ys : List (QueueChain W)) (w : W)
    → execute_chain (xs ++ ys) w ≡ and_then (execute_chain xs) (unless_error (execute_chain ys)) w
unfolding execute_chain
execute_chain-append [] ys w = refl
execute_chain-append {W} (c ∷ xs) ys w =
    after (c.handle (args_to_any c.args) w).0 (c.handle (args_to_any c.args) w).1
      (execute_chain-append xs ys (c.handle (args_to_any c.args) w).1)
  where
    after :
        (o : Outcome (Option ℕ)) (w' : W)
        → execute_chain (xs ++ ys) w'
          ≡ and_then (execute_chain xs) (unless_error (execute_chain ys)) w'
        → resume (unless_failed c.signature (execute_chain (xs ++ ys))) o w'
          ≡ resume
              (unless_error (execute_chain ys))
              (resume (unless_failed c.signature (execute_chain xs)) o w').0
              (resume (unless_failed c.signature (execute_chain xs)) o w').1
    after panicked w' rest = refl
    after (returned none) w' rest = rest
    after (returned (some e)) w' rest = refl
