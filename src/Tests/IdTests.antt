-- ===== src/Tests/IdTests.antt =====
-- id/id.go on small inputs.
use go_fast_framework.Common.{
  ℕ, ◌^◌, ◌<◌, ◌≡◌, refl, inl, inr, true, false, some, List, [], ◌∷◌, arith, length, ltb,
  if◌then◌else◌,
}
use go_fast_framework.IdGen.{
  Entropy, initial, codes, char_to_val, char_of, encode, encode_digits, advance, id_of, new_id,
  new_ids, normalize, normalize_byte, parse, parse_digits, unix_milli, bad_length, bad_char, str_lt,
}
use go_fast_framework.IdGen.Order.{InRange, IsAscending, str_lt-encode, new_ids-IsAscending}
use go_fast_framework.IdGen.Parsing.{Spelling, Alike, parse-Spelling}
use go_fast_framework.IdGen.Accepted.{digits_of_parse}

program : Unit {0}
unfolding char_to_val char_of encode encode_digits advance id_of new_id new_ids parse parse_digits
    str_lt normalize normalize_byte
program = tt

abbrev ones : Entropy
ones = record { bytes = some (0, 0, 0, 1); unix_nano = 0 }

-- The clock stands still, goes back, and goes on.
abbrev readings : List (ℕ × Entropy)
readings = (1000, ones) ∷ (1000, ones) ∷ (7, ones) ∷ (1001, ones) ∷ []

four_ids :
    new_ids readings initial
    ≡ codes "00000000z8000001"
      ∷ codes "00000000z8000002"
      ∷ codes "00000000z8000003"
      ∷ codes "00000000z9000001"
      ∷ []
unfolding program
four_ids = refl

parse_first : parse (codes "0000-0000-Z800-0001") ≡ unix_milli 1000
unfolding program
parse_first = refl

parse_errors :
    (parse (codes "0123") ≡ bad_length 4) × (parse (codes "00u0000000000000") ≡ bad_char 2 b'u')
unfolding program
parse_errors = (refl, refl)

initial-InRange : InRange initial
initial-InRange = record { seq_fits = omega arith }

new_ids-IsAscending_example : IsAscending (new_ids readings initial)
new_ids-IsAscending_example =
    new_ids-IsAscending readings initial 1001 initial-InRange (omega arith) (omega arith)
      (omega arith)

str_lt-encode_example :
    str_lt (encode 7 9) (encode 8 1)
    ≡ (if ltb 7 8 then true else if ltb 8 7 then false else ltb 9 1)
str_lt-encode_example =
    str_lt-encode 7 8 9 1 (omega arith) (omega arith) (omega arith) (omega arith)

-- one more 0 in front
spell_zero : {v w : List ℕ} → Spelling v w → Spelling (b'0' ∷ v) (b'0' ∷ w)
unfolding program
spell_zero s = Spelling.char (Alike.exact 0) s

written_down : Spelling (codes "0000-00000zO0000l") (encode 31 1)
unfolding program
written_down =
    let one = Spelling.char (Alike.like_one (inr (inr (inr refl))) refl) Spelling.done in
    let low =
      Spelling.char (Alike.like_zero (inl refl) refl)
        (spell_zero (spell_zero (spell_zero (spell_zero one)))) in
    let high =
      spell_zero
        (spell_zero (spell_zero (spell_zero (spell_zero (Spelling.char (Alike.exact 31) low))))) in
    spell_zero (spell_zero (spell_zero (spell_zero (Spelling.hyphen refl high))))

parse-Spelling_example : parse (codes "0000-00000zO0000l") ≡ unix_milli 31
parse-Spelling_example = parse-Spelling 31 1 (omega arith) written_down

digits_of_parse_example :
    (1000 < 2 ^ 50)
    × (length (normalize (codes "0000-0000-Z800-0001")) ≡ 16)
    × (rest : List ℕ) × (normalize (codes "0000-0000-Z800-0001") ≡ encode_digits 10 1000 rest)
digits_of_parse_example = digits_of_parse (codes "0000-0000-Z800-0001") 1000 parse_first
