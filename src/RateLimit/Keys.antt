-- ===== src/RateLimit/Keys.antt =====
-- The two keys of the limiter.
use Prim.Native.String.{◌++◌, count}
use text.Mathlib.TextLemmas.{length-append, append_assoc}
use text.Mathlib.Text.{◌==◌ as str_eq}
use text.Mathlib.TextEquality.{eq_iff}
use go_fast_framework.Common.{String, ◌≡◌, ◌≢◌, false, ap, sym, arith, Bool-cases, inl, inr}
use go_fast_framework.RateLimit.{count_key, timer_key}

-- The key of the count and the key of the deadline are different.
pub count_key-ne-timer_key : (k : String) → count_key k ≢ timer_key k
unfolding count_key timer_key
count_key-ne-timer_key k e =
    let sizes : count ("ratelimit:" ++ k) ≡ count (("ratelimit:" ++ k) ++ ":timer") = ap count e in
    omega (arith, sizes, length-append ("ratelimit:" ++ k) ":timer")

-- The deadline of `k` is kept where the count of `k` with ":timer" behind it is.
pub count_key-timer : (k : String) → count_key (k ++ ":timer") ≡ timer_key k
unfolding count_key timer_key
count_key-timer k = sym (append_assoc "ratelimit:" k ":timer")

pub timer-ne-count : (k : String) → str_eq (timer_key k) (count_key k) ≡ false
timer-ne-count k = elim (Bool-cases (str_eq (timer_key k) (count_key k))) [
  | inl e ↦ absurd (count_key-ne-timer_key k (sym ((eq_iff _ _).0 e)))
  | inr e ↦ e
]
