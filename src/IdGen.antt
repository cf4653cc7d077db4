-- ===== src/IdGen.antt =====
-- id/id.go: the time-ordered ID generator. A text is the list of its bytes, which are ASCII; a
-- clock reading is a number of milliseconds since 1970; the bytes of crypto/rand are an argument.
pub mod Digits
pub mod Order
pub mod Parsing
pub mod Accepted
use Prim.Native.Char.{code}
use go_fast_framework.Common.{
  ℕ, zero, suc, ◌+◌, ◌*◌, ◌/◌, ◌%◌, ◌^◌, ◌<◌, String, ◌≡◌, Bool, true, false, ◌&&◌, ◌||◌, Option,
  none, some, List, [], ◌∷◌, ◌++◌, length, get_or, ltb, leb, ◌==◌, if◌then◌else◌,
}

-- The bytes of an ASCII text.
abbrev pub codes : String → List ℕ
codes String.[] = []
codes (String.◌∷◌ c s) = code c ∷ codes s

-- const Size
abbrev pub size : ℕ
size = 16

-- const charset: Crockford Base32 in lower case.
abbrev pub charset : List ℕ
charset = codes "0123456789abcdefghjkmnpqrstvwxyz"

-- The position of a byte in a table.
unfoldable pub index_of : ℕ → ℕ → List ℕ → Option ℕ
index_of i c [] = none
index_of i c (x ∷ xs) = if x == c then some i else index_of (suc i) c xs

-- charToVal, as `init` fills it: -1 is `none`.
unfoldable pub char_to_val : ℕ → Option ℕ
unfolding index_of
char_to_val c = index_of 0 c charset

-- charset[n & 0x1F]
unfoldable pub char_of : ℕ → ℕ
char_of n = get_or charset (n % 32) 0

-- for i := …; i >= …; i-- { b[i] = charset[n&0x1F]; n >>= 5 }, for `count` rounds
unfoldable pub encode_digits : ℕ → ℕ → List ℕ → List ℕ
encode_digits zero n b = b
encode_digits (suc count) n b = encode_digits count (n / 32) (char_of n ∷ b)

-- encode
unfoldable pub encode : ℕ → ℕ → List ℕ
encode ts50 r30 = encode_digits 10 ts50 [] ++ encode_digits 6 r30 []

-- What crypto/rand and the clock give to one call: the four bytes, if the read succeeds.
pub record Entropy : Type 0 where
  pub bytes : Option (ℕ × ℕ × ℕ × ℕ)
  pub unix_nano : ℕ

-- randUint30
unfoldable pub rand_uint30 : Entropy → ℕ
rand_uint30 e = elim e.bytes [
  | none ↦ e.unix_nano % 2 ^ 32 % 2 ^ 30
  | some b ↦ (b.0 * 2 ^ 24 + b.1 * 2 ^ 16 + b.2 * 2 ^ 8 + b.3) % 2 ^ 30
]

-- The package variables lastMs and seq.
pub record Generator : Type 0 where
  pub last_ms : ℕ
  pub seq : ℕ

abbrev pub initial : Generator
initial = record { last_ms = 0; seq = 0 }

-- The critical section of New: the variables after it.
unfoldable pub advance : ℕ → Entropy → Generator → Generator
unfolding rand_uint30
advance now e g =
    if ltb g.last_ms now
    then record { last_ms = now; seq = rand_uint30 e }
    else let seq = (g.seq + 1) % 2 ^ 30 in
      if seq == 0
      then record { last_ms = g.last_ms + 1; seq = rand_uint30 e }
      else record g { seq = seq }

-- The ID that is built from the variables: ts is lastMs cut to 50 bits.
unfoldable pub id_of : Generator → List ℕ
id_of g = encode (g.last_ms % 2 ^ 50) g.seq

-- New
unfoldable pub new_id : ℕ → Entropy → Generator → List ℕ × Generator
new_id now e g = let g' = advance now e g in (id_of g', g')

-- Calls of New one after the other, with the clock reading and the entropy of each.
unfoldable pub new_ids : List (ℕ × Entropy) → Generator → List (List ℕ)
new_ids [] g = []
new_ids ((now, e) ∷ calls) g = let (v, g') = new_id now e g in v ∷ new_ids calls g'

-- normalizeReplacer on one byte, followed by strings.ToLower.
unfoldable pub normalize_byte : ℕ → List ℕ
normalize_byte c =
    if c == b'-'
    then []
    else if (c == b'I' || c == b'i') || (c == b'L' || c == b'l')
    then b'1' ∷ []
    else if c == b'O' || c == b'o'
    then b'0' ∷ []
    else if leb b'A' c && leb c b'Z'
    then (c + 32) ∷ []
    else c ∷ []

unfoldable pub normalize : List ℕ → List ℕ
normalize [] = []
normalize (c ∷ v) = normalize_byte c ++ normalize v

-- What Parse returns: the milliseconds, or one of its two errors.
pub data Parsed : Type 0 where
  unix_milli : ℕ → Parsed
  bad_length : ℕ → Parsed
  bad_char : ℕ → ℕ → Parsed

-- The loop of Parse at position `i`, over the bytes that are left, of which it reads `count`.
unfoldable pub parse_digits : ℕ → ℕ → ℕ → List ℕ → Parsed
parse_digits zero i ts v = unix_milli ts
parse_digits (suc count) i ts [] = unix_milli ts
parse_digits (suc count) i ts (c ∷ v) = elim (char_to_val c) [
  | none ↦ bad_char i c
  | some idx ↦ parse_digits count (suc i) (ts * 32 + idx) v
]

-- Parse
unfoldable pub parse : List ℕ → Parsed
parse v =
    let w = normalize v in if length w == size then parse_digits 10 0 0 w else bad_length (length w)

-- The order of Go strings, byte by byte.
unfoldable pub str_lt : List ℕ → List ℕ → Bool
str_lt [] [] = false
str_lt [] (y ∷ ys) = true
str_lt (x ∷ xs) [] = false
str_lt (x ∷ xs) (y ∷ ys) = if ltb x y then true else if ltb y x then false else str_lt xs ys
