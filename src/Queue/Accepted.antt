-- ===== src/Queue/Accepted.antt =====
-- What becomes of tasks when the queue is stopped.
use go_fast_framework.Common.{
  append_assoc, append_nil, ℕ, ◌≡◌, refl, sym, ap, ◌∙◌, true, false, List, [], ◌∷◌, ◌++◌,
}
use go_fast_framework.Queue.Closing.{
  Channels, new_channels, Step, enter, refuse_at_once, send, send_on_closed, refuse, stop,
  close_stop, close_jobs, receive, Steps, here, then,
}

-- The accepted tasks, in their order, are those received and then those in the buffer.
abbrev IsKept : Channels → Type 0
IsKept c = c.accepted ≡ c.received ++ c.buffer

Step-IsKept : (c d : Channels) → Step c d → IsKept c → IsKept d
Step-IsKept c _ (enter t e) kept = kept
Step-IsKept c _ (refuse_at_once t e) kept = kept
Step-IsKept c _ (send t before after e open_ room) kept =
    ap (λ l. l ++ t ∷ []) kept ∙ append_assoc c.received c.buffer (t ∷ [])
Step-IsKept c _ (send_on_closed t before after e closed) kept = kept
Step-IsKept c _ (refuse t before after e closed) kept = kept
Step-IsKept c _ (stop e) kept = kept
Step-IsKept c _ (close_stop e f) kept = kept
Step-IsKept c _ (close_jobs e f) kept = kept
Step-IsKept c _ (receive t rest e) kept =
    kept ∙ ap (λ l. c.received ++ l) e ∙ sym (append_assoc c.received (t ∷ []) rest)

Steps-IsKept : {c d : Channels} → Steps c d → IsKept c → IsKept d
Steps-IsKept (here c) kept = kept
Steps-IsKept (then a b c step rest) kept = Steps-IsKept rest (Step-IsKept a b step kept)

-- In every order of the steps of enqueue, Stop and the workers from a new queue: when the buffer is
-- empty, the workers have received the tasks whose enqueue returned nil, each once and in the order
-- in which they were sent.
pub received_accepted :
    (capacity : ℕ) (c : Channels)
    → Steps (new_channels capacity) c
    → c.buffer ≡ []
    → c.received ≡ c.accepted
unfolding new_channels
received_accepted capacity c steps drained =
    sym (Steps-IsKept steps refl ∙ ap (λ l. c.received ++ l) drained ∙ append_nil c.received)

-- A queue that is not stopped, on whose channels nothing is closed, and a task whose enqueue has
-- passed its first select: the steps of Stop and then the second select lead to a state in which
-- the enqueue of the task has panicked.
pub enqueue_crashes :
    (c : Channels) (t : ℕ) (before after : List ℕ)
    → c.between ≡ before ++ t ∷ after
    → c.stopped ≡ false
    → c.stop_closed ≡ false
    → c.job_closed ≡ false
    → Steps c (record c {
      stopped = true;
      stop_closed = true;
      job_closed = true;
      between = before ++ after;
      crashed = t ∷ c.crashed;
    })
enqueue_crashes c t before after waits running stop_open job_open =
    let c1 = record c { stopped = true } in
    let c2 = record c1 { stop_closed = true } in
    let c3 = record c2 { job_closed = true } in
    let c4 = record c3 { between = before ++ after; crashed = t ∷ c.crashed } in
    then c c1 c4 (stop running) (
      then c1 c2 c4 (close_stop refl stop_open) (
        then c2 c3 c4 (close_jobs refl job_open)
          (then c3 c4 c4 (send_on_closed t before after waits refl) (here c4))))
