-- ===== src/IdGen/Parsing.antt =====
-- Parse after New: the timestamp comes back, also from a text that was retyped in upper case and
-- split by hyphens.
use native.Mathlib.Nat.{pow-suc}
use go_fast_framework.Common.{
  ℕ, zero, suc, ◌+◌, ◌-◌, ◌*◌, ◌/◌, ◌%◌, ◌^◌, ◌≤◌, ◌<◌, ◌≡◌, refl, ap, ◌⊎◌, Bool, true, false, ◌||◌,
  Option, none, some, List, [], ◌∷◌, arith, length, get_or, ltb, ◌==◌, holds_below, holds_below_at,
  length-append,
}
use go_fast_framework.IdGen.{
  charset, char_to_val, char_of, encode, encode_digits, unix_milli, normalize_byte, normalize,
  parse_digits, parse,
}
use go_fast_framework.IdGen.Digits.{div-lt-pow, length-encode_digits, encode_digits-append}

val_is : ℕ → Option ℕ → Bool
val_is i none = false
val_is i (some j) = j == i

val_is-eq : (i : ℕ) (o : Option ℕ) → val_is i o ≡ true → o ≡ some i
unfolding val_is
val_is-eq i none h = ground arith
val_is-eq i (some j) h = ground arith

values : holds_below (λ i. val_is i (char_to_val (get_or charset i 0))) 32 ≡ true
unfolding holds_below val_is char_to_val
values = refl

-- charToVal undoes charset.
pub char_to_val-char_of : (n : ℕ) → char_to_val (char_of n) ≡ some (n % 32)
unfolding char_of
char_to_val-char_of n = val_is-eq _ _ (holds_below_at _ 32 (n % 32) values (omega arith))

same_call :
    (rest : ℕ) (b : List ℕ) {i j ts us : ℕ}
    → i ≡ j
    → ts ≡ us
    → parse_digits rest i ts b ≡ parse_digits rest j us b
same_call rest b p q = cc

-- The loop reads `count` digits and goes on with what follows them.
parse_digits-encode_digits :
    (count n rest total i ts : ℕ) (b : List ℕ)
    → total ≡ count + rest
    → n < 32 ^ count
    → parse_digits total i ts (encode_digits count n b)
      ≡ parse_digits rest (i + count) (ts * 32 ^ count + n) b
unfolding encode_digits parse_digits
parse_digits-encode_digits zero n rest total i ts b t h =
    let e : total ≡ rest = omega arith in rw e (same_call rest b (omega arith) (omega arith))
parse_digits-encode_digits (suc count) n rest total i ts b t h =
    rw
      (
        parse_digits-encode_digits count (n / 32) (suc rest) total i ts (char_of n ∷ b)
            (omega arith) (div-lt-pow count n h),
        char_to_val-char_of n,
        parse_digits,
      )
      (same_call rest b (omega arith) (omega (arith, ap (λ (p : ℕ). ts * p) (pow-suc 32 count))))

one_is : ℕ → List ℕ → Bool
one_is d [] = false
one_is d (c ∷ []) = c == d
one_is d (c ∷ c' ∷ v) = false

one_is-eq : (d : ℕ) (v : List ℕ) → one_is d v ≡ true → v ≡ d ∷ []
unfolding one_is
one_is-eq d [] h = ground arith
one_is-eq d (c ∷ []) h = ground arith
one_is-eq d (c ∷ c' ∷ v) h = ground arith

-- One byte is read as one character.
reads_as : ℕ → ℕ → Bool
reads_as c d = one_is d (normalize_byte c)

-- A character as people write it down: as it is, in upper case, or as a letter that is not in the
-- alphabet and looks like 1 or 0.
pub data Alike : ℕ → ℕ → Type 0 where
  exact : (n : ℕ) → Alike (char_of n) (char_of n)
  upper : (n : ℕ) → 10 ≤ n % 32 → Alike (char_of n - 32) (char_of n)
  like_one : {c d : ℕ} → (c ≡ b'I') ⊎ (c ≡ b'i') ⊎ (c ≡ b'L') ⊎ (c ≡ b'l') → d ≡ b'1' → Alike c d
  like_zero : {c d : ℕ} → (c ≡ b'O') ⊎ (c ≡ b'o') → d ≡ b'0' → Alike c d

-- A text as people write it down: with hyphens anywhere.
pub data Spelling : List ℕ → List ℕ → Type 0 where
  done : Spelling [] []
  hyphen : {c : ℕ} {v w : List ℕ} → c ≡ b'-' → Spelling v w → Spelling (c ∷ v) w
  char : {c d : ℕ} {v w : List ℕ} → Alike c d → Spelling v w → Spelling (c ∷ v) (d ∷ w)

plain_table : holds_below (λ i. reads_as (get_or charset i 0) (get_or charset i 0)) 32 ≡ true
unfolding holds_below reads_as one_is normalize_byte
plain_table = refl

upper_table :
    holds_below (λ i. ltb i 10 || reads_as (get_or charset i 0 - 32) (get_or charset i 0)) 32 ≡ true
unfolding holds_below reads_as one_is normalize_byte
upper_table = refl

normalize_byte-Alike : {c d : ℕ} → Alike c d → normalize_byte c ≡ d ∷ []
unfolding char_of reads_as
normalize_byte-Alike (exact n) =
    one_is-eq _ _ (holds_below_at _ 32 (n % 32) plain_table (omega arith))
normalize_byte-Alike (upper n h) =
    one_is-eq _ _ (ground (arith, holds_below_at _ 32 (n % 32) upper_table (omega arith)))
normalize_byte-Alike (like_one e f) = unfold normalize_byte in ground arith
normalize_byte-Alike (like_zero e f) = unfold normalize_byte in ground arith

normalize_byte-hyphen : normalize_byte b'-' ≡ []
unfolding normalize_byte
normalize_byte-hyphen = refl

-- Whatever the spelling, normalization gives the text back.
pub normalize-Spelling : {v w : List ℕ} → Spelling v w → normalize v ≡ w
unfolding normalize
normalize-Spelling done = refl
normalize-Spelling (hyphen e s) = rw (e, normalize_byte-hyphen) (normalize-Spelling s)
normalize-Spelling (char a s) = rw (normalize_byte-Alike a, normalize-Spelling s)

pub length-encode : (t r : ℕ) → length (encode t r) ≡ 16
unfolding encode
length-encode t r = omega (
  arith,
  length-append {0} (encode_digits 10 t []) (encode_digits 6 r []),
  length-encode_digits 10 t [],
  length-encode_digits 6 r [],
)

-- Parse gives back the timestamp of 50 bits that an ID was built from, also if the ID was written
-- down in another spelling: in upper case, with look-alike letters, or with hyphens.
pub parse-Spelling :
    {v : List ℕ} (t r : ℕ) → t < 2 ^ 50 → Spelling v (encode t r) → parse v ≡ unix_milli t
unfolding parse
parse-Spelling t r h s =
    rw (normalize-Spelling s, length-encode)
      (unfold encode parse_digits in
        rw
          (
            encode_digits-append 10 t [] (encode_digits 6 r []),
            parse_digits-encode_digits 10 t 0 10 0 0 (encode_digits 6 r []) refl h,
          )
          (ap unix_milli (omega arith)))
