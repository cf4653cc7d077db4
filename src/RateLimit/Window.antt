-- ===== src/RateLimit/Window.antt =====
-- A window of the limiter: its first calls pass, the others do not.
use text.Mathlib.TextPositions.{eq_refl}
use go_fast_framework.Common.{
  ℕ, suc, ◌+◌, ◌-◌, ◌^◌, ◌≤◌, ◌<◌, String, ◌≡◌, refl, ap, ◌∙◌, Bool, none, some, List, [], ◌∷◌,
  arith, length, leb,
}
use go_fast_framework.Common.Word.{add64}
use go_fast_framework.Cache.Memory.{int64, Entry, expired, to_int64}
use go_fast_framework.Cache.View.{put_entry}
use go_fast_framework.Cache.Refinement.{live, count}
use go_fast_framework.RateLimit.{
  CounterStore, Readings, count_key, timer_key, hit, verdict, allow, allows, attempts,
}
use go_fast_framework.RateLimit.Keys.{timer-ne-count}

-- The entry of a count that ends at a deadline.
abbrev pub count_entry : ℕ → ℕ → Entry
count_entry n deadline = record { value = int64 n; expire_at = deadline }

module _ {S : Type 0} (store : CounterStore S) (key : String) (window : ℕ) where
  -- The count of the key, and its deadline.
  pub record Counting (n deadline : ℕ) (s : S) : Type 0 where
    pub valid : store.Valid s
    pub at : store.entry s (count_key key) ≡ some (count_entry n deadline)

  module _ {n deadline : ℕ} (s : S) (c : Counting n deadline s) where
    -- Inside the window a Hit adds one to the count, and leaves the deadline.
    hit_counts :
        (r : Readings)
        → live r.checked (some (count_entry n deadline)) ≡ some (count_entry n deadline)
        → live r.wrote (some (count_entry n deadline)) ≡ some (count_entry n deadline)
        → ((hit store r key window s).0 ≡ some (add64 n 1))
          × Counting (add64 n 1) deadline (hit store r key window s).1
    unfolding hit count to_int64
    hit_counts r a b =
        rw (store.has_lem r.checked (count_key key) s c.valid, c.at, a)
          (
            store.increment_lem r.wrote (count_key key) s c.valid ∙ rw (c.at, b),
            record {
              valid = store.increment-Valid r.wrote (count_key key) s c.valid;
              at =
                  store.entry-increment r.wrote (count_key key) (count_key key) s c.valid
                  ∙ rw (eq_refl, c.at, b);
            },
          )

  module _ (s : S) (valid : store.Valid s) where
    -- With no live count a Hit starts one, and a window from then on.
    hit_starts :
        (r : Readings)
        → live r.checked (store.entry s (count_key key)) ≡ none
        → ((hit store r key window s).0 ≡ some 1)
          × (store.Valid (hit store r key window s).1)
          × (store.entry (hit store r key window s).1 (count_key key)
              ≡ some (put_entry r.wrote (int64 1) window))
    unfolding hit
    hit_starts r fresh =
        let started = store.put r.wrote (count_key key) (int64 1) window s in
        let ok = store.put-Valid r.wrote (count_key key) (int64 1) window s valid in
        rw (store.has_lem r.checked (count_key key) s valid, fresh)
          (
            refl,
            store.put-Valid r.timer_wrote (timer_key key) _ window started ok,
            rw (
              store.entry-put r.timer_wrote (timer_key key) (count_key key) _ window started ok,
              timer-ne-count key,
              store.entry-put r.wrote (count_key key) (count_key key) (int64 1) window s valid,
              eq_refl,
            ),
          )

-- The answers of a limiter that has counted `n` calls to the calls that follow.
abbrev pub expected : ℕ → ℕ → List Readings → List (Bool × ℕ)
expected limit n [] = []
expected limit n (r ∷ rs) = (leb (suc n) limit, limit - suc n) ∷ expected limit (suc n) rs

-- The readings by which the calls look at the count are not after the deadline.
abbrev pub InWindow : ℕ → List Readings → Type 0
InWindow deadline [] = Unit
InWindow deadline (r ∷ rs) = (r.checked ≤ deadline) × (r.wrote ≤ deadline) × InWindow deadline rs

live_count :
    (n deadline now : ℕ)
    → now ≤ deadline
    → deadline < 2 ^ 63
    → live now (some (count_entry n deadline)) ≡ some (count_entry n deadline)
unfolding expired
live_count n deadline now h b = ground arith

verdict_small :
    (limit n : ℕ) → limit < 2 ^ 62 → n < 2 ^ 62 → verdict limit (some n) ≡ (leb n limit, limit - n)
unfolding verdict
verdict_small limit n a b = ground arith

put_entry_small :
    (wrote window : ℕ)
    → 0 < wrote
    → 0 < window
    → wrote + window < 2 ^ 63
    → put_entry wrote (int64 1) window ≡ count_entry 1 (wrote + window)
put_entry_small wrote window w p b = ground arith

module _ {S : Type 0} (store : CounterStore S) (key : String) (limit window : ℕ)
    (small : limit < 2 ^ 62) where
  allows-Counting :
      (rs : List Readings) (n deadline : ℕ) (s : S)
      → Counting store key window n deadline s
      → deadline < 2 ^ 63
      → InWindow deadline rs
      → n + length rs < 2 ^ 62
      → ((allows store rs key limit window s).0 ≡ expected limit n rs)
        × Counting store key window (n + length rs) deadline (allows store rs key limit window s).1
  unfolding allows allow
  allows-Counting [] n deadline s c b inside fit = let e : n + 0 ≡ n = omega arith in (refl, rw e c)
  allows-Counting (r ∷ rs) n deadline s c b inside fit =
      let s' = (hit store r key window s).1 in
      let (answer, c') =
        hit_counts store key window s c r (live_count n deadline r.checked inside.0 b)
          (live_count n deadline r.wrote inside.1 b) in
      let e : add64 n 1 ≡ suc n = omega arith in
      let next : Counting store key window (suc n) deadline s' = rw (← e) c' in
      let (answers, final) = allows-Counting rs (suc n) deadline s' next b inside.2 (omega arith) in
      let shift : n + suc (length rs) ≡ suc n + length rs = omega arith in
      (rw (answer, e, verdict_small limit (suc n) small (omega arith)) (cc answers), rw shift final)

  -- Where there is no live count, the calls of Allow from then on, as long as their readings are
  -- not after the first call's writing of the count plus the window, are let through exactly up to
  -- the limit, and each is told how many are left; and Attempts then gives the number of the calls.
  pub allows-expected :
      (r : Readings) (rs : List Readings) (now : ℕ) (s : S)
      → store.Valid s
      → live r.checked (store.entry s (count_key key)) ≡ none
      → 0 < r.wrote
      → 0 < window
      → r.wrote + window < 2 ^ 63
      → InWindow (r.wrote + window) rs
      → suc (length rs) < 2 ^ 62
      → now ≤ r.wrote + window
      → ((allows store (r ∷ rs) key limit window s).0 ≡ expected limit 0 (r ∷ rs))
        × (attempts store now key (allows store (r ∷ rs) key limit window s).1 ≡ suc (length rs))
  unfolding allows allow attempts
  allows-expected r rs now s valid fresh w p b inside fit read =
      let s' = (hit store r key window s).1 in
      let deadline = r.wrote + window in
      let (answer, valid', at) = hit_starts store key window s valid r fresh in
      let first : Counting store key window 1 deadline s' = record {
        valid = valid';
        at = at ∙ ap some (put_entry_small r.wrote window w p b);
      } in
      let (answers, final) = allows-Counting rs 1 deadline s' first b inside (omega arith) in
      (
        rw (answer, verdict_small limit 1 small (omega arith)) (cc answers),
        store.get_int64_lem now (count_key key) _ final.valid
            ∙ rw (final.at, live_count (1 + length rs) deadline now read b) (omega arith),
      )
