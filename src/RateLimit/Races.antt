-- ===== src/RateLimit/Races.antt =====
-- Where the fixed window of the limiter is not kept: a window that ends inside a Hit, and a key
-- that ends in ":timer".
use Prim.Native.String.{◌++◌}
use text.Mathlib.TextPositions.{eq_refl}
use go_fast_framework.Common.{ℕ, ◌+◌, ◌^◌, ◌≤◌, ◌<◌, String, ◌≡◌, ◌∙◌, none, some, arith}
use go_fast_framework.Common.Word.{add64}
use go_fast_framework.Cache.Memory.{int64, Entry, expired}
use go_fast_framework.Cache.View.{put_entry}
use go_fast_framework.Cache.Refinement.{live, count}
use go_fast_framework.RateLimit.{CounterStore, Readings, count_key, timer_key, unix, hit, attempts}
use go_fast_framework.RateLimit.Keys.{count_key-timer}
use go_fast_framework.RateLimit.Window.{count_entry}

live_forever : (n now : ℕ) → live now (some (count_entry n 0)) ≡ some (count_entry n 0)
unfolding expired
live_forever n now = ground arith

live_timer :
    (wrote window v now : ℕ)
    → 0 < wrote
    → 0 < window
    → wrote + window < 2 ^ 63
    → now ≤ wrote + window
    → live now (some (put_entry wrote (int64 v) window)) ≡ some (put_entry wrote (int64 v) window)
unfolding expired
live_timer wrote window v now w p b r = ground arith

module _ {S : Type 0} (store : CounterStore S) (key : String) (window : ℕ) (s : S)
    (valid : store.Valid s) where
  -- If the count is live when Hit checks for it and has expired when Hit increments it, the count
  -- starts again at 1 and never expires: every later read, at whatever time, gives 1.
  pub hit_without_window :
      (r : Readings) (e : Entry) (now : ℕ)
      → store.entry s (count_key key) ≡ some e
      → live r.checked (some e) ≡ some e
      → live r.wrote (some e) ≡ none
      → attempts store now key (hit store r key window s).1 ≡ 1
  unfolding hit attempts count
  hit_without_window r e now at checked gone =
      let s' = (store.increment r.wrote (count_key key) s).1 in
      let valid' = store.increment-Valid r.wrote (count_key key) s valid in
      let entry' : store.entry s' (count_key key) ≡ some (count_entry 1 0) =
        store.entry-increment r.wrote (count_key key) (count_key key) s valid
        ∙ rw (eq_refl, at, gone) in
      rw (store.has_lem r.checked (count_key key) s valid, at, checked)
        (store.get_int64_lem now (count_key key) s' valid' ∙ rw (entry', live_forever 1 now))

  -- A first Hit of `key` makes the number of seconds of its deadline the count of the key with
  -- ":timer" behind it, which nobody hit.
  pub attempts-timer :
      (r : Readings) (now : ℕ)
      → live r.checked (store.entry s (count_key key)) ≡ none
      → 0 < r.timer_wrote
      → 0 < window
      → r.timer_wrote + window < 2 ^ 63
      → now ≤ r.timer_wrote + window
      → attempts store now (key ++ ":timer") (hit store r key window s).1
        ≡ unix (add64 r.timed window)
  unfolding hit attempts
  attempts-timer r now fresh w p b read =
      let v = unix (add64 r.timed window) in
      let started = store.put r.wrote (count_key key) (int64 1) window s in
      let ok = store.put-Valid r.wrote (count_key key) (int64 1) window s valid in
      let s' = store.put r.timer_wrote (timer_key key) (int64 v) window started in
      let ok' = store.put-Valid r.timer_wrote (timer_key key) (int64 v) window started ok in
      rw (store.has_lem r.checked (count_key key) s valid, fresh, count_key-timer key, attempts)
        (store.get_int64_lem now (timer_key key) s' ok'
          ∙ rw (
            store.entry-put r.timer_wrote (timer_key key) (timer_key key) (int64 v) window started
                ok,
            eq_refl,
            live_timer r.timer_wrote window v now w p b read,
          ))
