-- ===== src/IdGen/Accepted.antt =====
-- What Parse accepts: only what New could have built.
use native.Mathlib.Nat.{pow-suc}
use go_fast_framework.Common.{
  ℕ, zero, suc, ◌+◌, ◌-◌, ◌*◌, ◌/◌, ◌%◌, ◌^◌, ◌≤◌, ◌<◌, ◌≡◌, refl, ap, inl, inr, some, List, [],
  ◌∷◌, arith, length, get_or, ◌==◌, Bool-cases, Option-cases,
}
use go_fast_framework.IdGen.Digits.{div-lt-pow}
use go_fast_framework.IdGen.{
  charset, index_of, char_to_val, char_of, encode_digits, unix_milli, normalize, parse_digits,
  parse,
}

index_of-eq-some :
    (i c : ℕ) (xs : List ℕ) (k : ℕ)
    → index_of i c xs ≡ some k
    → (i ≤ k) × (k < i + length xs) × (get_or xs (k - i) 0 ≡ c)
unfolding index_of
index_of-eq-some i c [] k h = ground arith
index_of-eq-some i c (x ∷ xs) k h = elim (Bool-cases (x == c)) [
  | inl here ↦
      let e : k ≡ i = ground arith in
      (omega arith, omega arith, let z : k - i ≡ 0 = omega arith in rw z (ground arith))
  | inr other ↦
      let (le, lt, at) = index_of-eq-some (suc i) c xs k (ground arith) in
      (omega arith, omega arith, let z : k - i ≡ suc (k - suc i) = omega arith in rw z at)
]

char_of_of_char_to_val : (c k : ℕ) → char_to_val c ≡ some k → (k < 32) × (char_of k ≡ c)
unfolding char_to_val char_of
char_of_of_char_to_val c k h =
    let (le, lt, at) = index_of-eq-some 0 c charset k h in
    (omega arith, let z : k % 32 ≡ k - 0 = omega arith in rw z at)

char_of_congr : (n m : ℕ) → n % 32 ≡ m % 32 → char_of n ≡ char_of m
unfolding char_of
char_of_congr n m e = rw e

-- A leading digit.
encode_digits-cons :
    (count d n : ℕ) (b : List ℕ)
    → d < 32
    → n < 32 ^ count
    → encode_digits (suc count) (d * 32 ^ count + n) b ≡ char_of d ∷ encode_digits count n b
unfolding encode_digits
encode_digits-cons zero d n b p q = ap (λ c. c ∷ b) (char_of_congr _ _ (omega arith))
encode_digits-cons (suc count) d n b p q =
    let split : d * 32 ^ suc count ≡ d * 32 ^ count * 32 =
      omega (arith, ap (λ (p : ℕ). d * p) (pow-suc 32 count)) in
    let high : (d * 32 ^ suc count + n) / 32 ≡ d * 32 ^ count + n / 32 = omega arith in
    let low : char_of (d * 32 ^ suc count + n) ≡ char_of n = char_of_congr _ _ (omega arith) in
    rw (high, low) (encode_digits-cons count d (n / 32) (char_of n ∷ b) p (div-lt-pow count n q))

digit_below : (k n p : ℕ) → k < 32 → n < p → k * p + n < 32 * p
digit_below k n p h l = grind arith

-- What the loop has read are the digits of what it adds to `ts`.
parse_digits-eq_unix_milli :
    (count i ts u : ℕ) (v : List ℕ)
    → count ≤ length v
    → parse_digits count i ts v ≡ unix_milli u
    → (n : ℕ) × (rest : List ℕ) × (n < 32 ^ count)
      × (u ≡ ts * 32 ^ count + n)
      × (v ≡ encode_digits count n rest)
unfolding parse_digits
parse_digits-eq_unix_milli zero i ts u v le h =
    (0, v, omega arith, ground arith, unfold encode_digits in refl)
parse_digits-eq_unix_milli (suc count) i ts u [] le h = absurd (omega arith)
parse_digits-eq_unix_milli (suc count) i ts u (c ∷ v) le h = elim (Option-cases (char_to_val c)) [
  | inl unknown ↦ absurd (ground arith)
  | inr (k, known) ↦
      let (small, at) = char_of_of_char_to_val c k known in
      let (n, rest, fits, sum, digits) =
        parse_digits-eq_unix_milli count (suc i) (ts * 32 + k) u v (omega arith) (ground arith) in
      (
        k * 32 ^ count + n,
        rest,
        omega (arith, digit_below k n (32 ^ count) small fits, pow-suc 32 count),
        omega (arith, sum, ap (λ (p : ℕ). ts * p) (pow-suc 32 count)),
        rw (encode_digits-cons count k n rest small fits, at, digits),
      )
]

-- Parse accepts a text only if it normalizes to 16 bytes of which the first ten are the digits of
-- the timestamp that it returns, which then fits 50 bits.
pub digits_of_parse :
    (v : List ℕ) (t : ℕ)
    → parse v ≡ unix_milli t
    → (t < 2 ^ 50)
      × (length (normalize v) ≡ 16)
      × (rest : List ℕ) × (normalize v ≡ encode_digits 10 t rest)
unfolding parse
digits_of_parse v t h =
    let full : length (normalize v) ≡ 16 = ground arith in
    let (n, rest, fits, sum, digits) =
      parse_digits-eq_unix_milli 10 0 0 t (normalize v) (omega arith) (ground arith) in
    let e : n ≡ t = omega arith in (omega arith, full, rest, rw (← e) digits)
