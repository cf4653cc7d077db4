-- ===== src/Queue/Retries.antt =====
-- The attempts of a task.
use go_fast_framework.Common.{
  ℕ, zero, suc, ◌+◌, ◌^◌, ◌≤◌, ◌<◌, ◌≡◌, refl, ◌∙◌, true, false, Option, none, some, List,
  if◌then◌else◌, arith, Option-cases, ltb, inl, inr, ◌⊎◌,
}
use go_fast_framework.Common.Word.{add64, lt64, lt64-eq-ltb}
use go_fast_framework.Queue.Exec.{
  QueueChain, JobError, exec_chain_with_recover, back_off, warn_again, retry_loop, exec_with_retry,
}

lt64_of_le : {a b : ℕ} → a ≤ b → b < 2 ^ 63 → lt64 b a ≡ false
lt64_of_le {a} {b} h k = lt64-eq-ltb b a k (omega arith) ∙ ltb_of_le h
  where
    ltb_of_le : {a b : ℕ} → a ≤ b → ltb b a ≡ false
    ltb_of_le h = ground arith

lt64_of_lt : {a b : ℕ} → a < b → b < 2 ^ 63 → lt64 a b ≡ true
lt64_of_lt {a} {b} h k = lt64-eq-ltb a b (omega arith) k ∙ ltb_of_lt h
  where
    ltb_of_lt : {a b : ℕ} → a < b → ltb a b ≡ true
    ltb_of_lt h = ground arith

add64-suc : {k n : ℕ} → k ≤ n → n < 2 ^ 63 → add64 k 1 ≡ suc k
add64-suc h l = omega arith

module _ {W : Type 0} (sleep : ℕ → W → W) (warn : ℕ → JobError → W → W)
    (jobs : List (QueueChain W)) where
  -- One attempt: the wait before it and the run of the chain.
  abbrev pub attempt_run : ℕ → W → Option JobError × W
  attempt_run k w = exec_chain_with_recover jobs (back_off sleep warn jobs k w)

  -- The attempts from one on, of so many, from a state to an answer and a state: they end with the
  -- first that succeeds or with the last.
  pub data Ends (attempts : ℕ) : ℕ → W → Option JobError → W → Type 0 where
    succeeds :
        (k : ℕ) (w : W) → (attempt_run k w).0 ≡ none → Ends attempts k w none (attempt_run k w).1
    gives_up :
        (k : ℕ) (w : W) (e : JobError)
        → k ≡ attempts
        → (attempt_run k w).0 ≡ some e
        → Ends attempts k w (some e) (attempt_run k w).1
    tries_again :
        (k : ℕ) (w : W) (e : JobError) (o : Option JobError) (w' : W)
        → k < attempts
        → (attempt_run k w).0 ≡ some e
        → Ends attempts (suc k) (warn k e (attempt_run k w).1) o w'
        → Ends attempts k w o w'

  -- The loop after the last attempt.
  retry_loop-over :
      (fuel k attempts : ℕ) (err : Option JobError) (w : W)
      → lt64 attempts k ≡ true
      → retry_loop sleep warn jobs fuel k attempts err w ≡ (err, w)
  unfolding retry_loop
  retry_loop-over zero k attempts err w over = refl
  retry_loop-over (suc fuel) k attempts err w over = rw (retry_loop, over)

  retry_loop-Ends :
      (fuel k attempts : ℕ) (err : Option JobError) (w : W)
      → k ≤ attempts
      → suc attempts < 2 ^ 63
      → attempts < k + fuel
      → Ends attempts k w
          (retry_loop sleep warn jobs fuel k attempts err w).0
          (retry_loop sleep warn jobs fuel k attempts err w).1
  unfolding retry_loop warn_again
  retry_loop-Ends zero k attempts err w le small enough = absurd (omega arith)
  retry_loop-Ends (suc fuel) k attempts err w le small enough =
      let inside : lt64 attempts k ≡ false = lt64_of_le le (omega arith) in
      elim (Option-cases (attempt_run k w).0) [
        | inl done ↦ rw (retry_loop, inside, done) (Ends.succeeds k w done)
        | inr (e, failed) ↦ elim (le_cases le) [
          | inl last ↦
              let over : lt64 attempts (suc k) ≡ true = lt64_of_lt (omega arith) (omega arith) in
              let silent : lt64 k attempts ≡ false = lt64_of_le (omega arith) (omega arith) in
              rw
                (
                  retry_loop,
                  inside,
                  failed,
                  add64-suc le (omega arith),
                  warn_again,
                  silent,
                  retry_loop-over fuel (suc k) attempts (some e) (attempt_run k w).1 over,
                )
                (Ends.gives_up k w e last failed)
          | inr more ↦
              rw
                (
                  retry_loop,
                  inside,
                  failed,
                  add64-suc le (omega arith),
                  warn_again,
                  lt64_of_lt more (omega arith),
                )
                (Ends.tries_again k w e _ _ more failed (
                  retry_loop-Ends fuel (suc k) attempts (some e) (warn k e (attempt_run k w).1)
                    (omega arith) small (omega arith)))
        ]
      ]
    where
      le_cases : {a b : ℕ} → a ≤ b → (a ≡ b) ⊎ (a < b)
      le_cases h = ground arith

  -- execWithRetry with a number of retries from 0 to 2 ^ 63 - 3: the attempts are made one after the
  -- other from the first on, each after the wait before it and a warning after the one before, until
  -- one succeeds or all retry + 1 have failed; the answer is nil if the last one that was made
  -- succeeded, and its error otherwise.
  pub exec_with_retry-Ends :
      (retry : ℕ) (w : W)
      → suc (suc retry) < 2 ^ 63
      → Ends
          (suc retry)
          1
          w
          (exec_with_retry sleep warn jobs retry w).0
          (exec_with_retry sleep warn jobs retry w).1
  unfolding exec_with_retry
  exec_with_retry-Ends retry w small =
      let e : add64 retry 1 ≡ suc retry = omega arith in
      let positive : lt64 0 (suc retry) ≡ true =
        lt64_of_lt {a = 0} {b = suc retry} (omega arith) (omega arith) in
      rw (exec_with_retry, e, positive)
        (retry_loop-Ends (suc (suc retry)) 1 (suc retry) none w (omega arith) small (omega arith))

  -- With a negative number of retries execWithRetry runs no job and returns nil.
  pub exec_with_retry_negative :
      (retry : ℕ) (w : W)
      → lt64 retry 0 ≡ true
      → retry < 2 ^ 64
      → exec_with_retry sleep warn jobs retry w ≡ (none, w)
  unfolding exec_with_retry
  exec_with_retry_negative retry w negative range =
      retry_loop-over (if lt64 0 (add64 retry 1) then suc (add64 retry 1) else 1) 1 (add64 retry 1)
        none w (never_starts negative range)
    where
      never_starts : {n : ℕ} → lt64 n 0 ≡ true → n < 2 ^ 64 → lt64 (add64 n 1) 1 ≡ true
      never_starts h r = ground arith
