-- ===== src/IdGen/Digits.antt =====
-- The digits of `encode`: the table of characters, the length, and the order of encodings.
use native.Mathlib.Nat.{pow-suc}
use go_fast_framework.Common.{
  ℕ, zero, suc, ◌+◌, ◌/◌, ◌%◌, ◌^◌, ◌<◌, ◌≡◌, refl, Bool, true, false, not, List, ◌∷◌, ◌++◌, arith,
  length, get_or, ltb, if◌then◌else◌, holds_below, holds_below_at,
}
use go_fast_framework.IdGen.{charset, char_of, encode_digits, str_lt}

same : Bool → Bool → Bool
same true b = b
same false b = not b

same-eq : (a b : Bool) → same a b ≡ true → a ≡ b
unfolding same
same-eq true b h = ground arith
same-eq a b h = ground arith

charset_sorted :
    holds_below
      (λ i. holds_below (λ j. same (ltb (get_or charset i 0) (get_or charset j 0)) (ltb i j)) 32)
      32
    ≡ true
unfolding holds_below same
charset_sorted = refl

-- The characters are in the order of their values.
pub ltb-char_of : (n m : ℕ) → ltb (char_of n) (char_of m) ≡ ltb (n % 32) (m % 32)
unfolding char_of
ltb-char_of n m = same-eq _ _ (
    holds_below_at _ 32 (m % 32) (holds_below_at _ 32 (n % 32) charset_sorted (omega arith))
      (omega arith))

pub length-encode_digits :
    (count n : ℕ) (b : List ℕ) → length (encode_digits count n b) ≡ count + length b
unfolding encode_digits
length-encode_digits zero n b = omega arith
length-encode_digits (suc count) n b =
    omega (arith, length-encode_digits count (n / 32) (char_of n ∷ b))

pub encode_digits-append :
    (count n : ℕ) (b c : List ℕ) → encode_digits count n b ++ c ≡ encode_digits count n (b ++ c)
unfolding encode_digits
encode_digits-append zero n b c = refl
encode_digits-append (suc count) n b c = encode_digits-append count (n / 32) (char_of n ∷ b) c

pub div-lt-pow : (count n : ℕ) → n < 32 ^ suc count → n / 32 < 32 ^ count
div-lt-pow count n h = omega (arith, pow-suc 32 count)

-- Numbers that fit are ordered as their digits, and where they agree the rest decides.
pub str_lt-encode_digits :
    (count n m : ℕ) (b c : List ℕ)
    → n < 32 ^ count
    → m < 32 ^ count
    → str_lt (encode_digits count n b) (encode_digits count m c)
      ≡ (if ltb n m then true else if ltb m n then false else str_lt b c)
unfolding encode_digits str_lt
str_lt-encode_digits zero n m b c h k = ground arith
str_lt-encode_digits (suc count) n m b c h k =
    rw
      (str_lt-encode_digits count (n / 32) (m / 32) (char_of n ∷ b) (char_of m ∷ c)
        (div-lt-pow count n h) (div-lt-pow count m k))
      (ground (arith, ltb-char_of n m, ltb-char_of m n))
