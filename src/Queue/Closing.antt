-- ===== src/Queue/Closing.antt =====
-- queue/manager.go: enqueue, Stop and the workers' reads of jobCh, as the steps that goroutines may
-- take in any order. Stop holds a mutex that enqueue does not take.
use go_fast_framework.Common.{ℕ, ◌<◌, ◌≡◌, Bool, true, false, List, [], ◌∷◌, ◌++◌, length}

-- The two channels and the flag of Stop; `between` are the tasks whose enqueue has passed its first
-- select and not its second. The other lists are what came of tasks: sent with nil returned,
-- refused with an error, ended by a panic, received by a worker.
pub record Channels : Type 0 where
  pub stopped : Bool
  pub stop_closed : Bool
  pub job_closed : Bool
  pub capacity : ℕ
  pub buffer : List ℕ
  pub between : List ℕ
  pub accepted : List ℕ
  pub refused : List ℕ
  pub crashed : List ℕ
  pub received : List ℕ

-- New, with the size of the buffer
unfoldable pub new_channels : ℕ → Channels
new_channels capacity = record {
  stopped = false;
  stop_closed = false;
  job_closed = false;
  capacity = capacity;
  buffer = [];
  between = [];
  accepted = [];
  refused = [];
  crashed = [];
  received = [];
}

pub data Step (c : Channels) : Channels → Type 0 where
  -- the first select of enqueue
  enter : (t : ℕ) → c.stop_closed ≡ false → Step c (record c { between = t ∷ c.between })
  refuse_at_once : (t : ℕ) → c.stop_closed ≡ true → Step c (record c { refused = t ∷ c.refused })
  -- the second select: a send is ready when there is room, and a send on a closed channel panics
  send :
      (t : ℕ) (before after : List ℕ)
      → c.between ≡ before ++ t ∷ after
      → c.job_closed ≡ false
      → length c.buffer < c.capacity
      → Step c (record c {
        between = before ++ after;
        buffer = c.buffer ++ t ∷ [];
        accepted = c.accepted ++ t ∷ [];
      })
  send_on_closed :
      (t : ℕ) (before after : List ℕ)
      → c.between ≡ before ++ t ∷ after
      → c.job_closed ≡ true
      → Step c (record c { between = before ++ after; crashed = t ∷ c.crashed })
  refuse :
      (t : ℕ) (before after : List ℕ)
      → c.between ≡ before ++ t ∷ after
      → c.stop_closed ≡ true
      → Step c (record c { between = before ++ after; refused = t ∷ c.refused })
  -- Stop, of which the first call takes three steps
  stop : c.stopped ≡ false → Step c (record c { stopped = true })
  close_stop : c.stopped ≡ true → c.stop_closed ≡ false → Step c (record c { stop_closed = true })
  close_jobs : c.stop_closed ≡ true → c.job_closed ≡ false → Step c (record c { job_closed = true })
  -- a worker's receive, which a closed channel with tasks in it still serves
  receive :
      (t : ℕ) (rest : List ℕ)
      → c.buffer ≡ t ∷ rest
      → Step c (record c { buffer = rest; received = c.received ++ t ∷ [] })

pub data Steps : Channels → Channels → Type 0 where
  here : (c : Channels) → Steps c c
  then : (a b c : Channels) → Step a b → Steps b c → Steps a c
