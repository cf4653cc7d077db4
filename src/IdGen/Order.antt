-- ===== src/IdGen/Order.antt =====
-- The order of generated IDs is the order of generation.
use go_fast_framework.Common.{
  ℕ, ◌+◌, ◌*◌, ◌%◌, ◌^◌, ◌≤◌, ◌<◌, ◌≡◌, true, false, List, [], ◌∷◌, arith, length, ltb,
  if◌then◌else◌,
}
use go_fast_framework.IdGen.{
  Entropy, Generator, encode, encode_digits, str_lt, rand_uint30, advance, id_of, new_id, new_ids,
}
use go_fast_framework.IdGen.Digits.{encode_digits-append, str_lt-encode_digits}

-- For a timestamp of 50 bits and a sequence number of 30 bits, the byte order of two encodings is
-- the order of the timestamps, and of the sequence numbers where the timestamps are equal.
pub str_lt-encode :
    (t u r s : ℕ)
    → t < 2 ^ 50
    → u < 2 ^ 50
    → r < 2 ^ 30
    → s < 2 ^ 30
    → str_lt (encode t r) (encode u s)
      ≡ (if ltb t u then true else if ltb u t then false else ltb r s)
unfolding encode str_lt
str_lt-encode t u r s ht hu hr hs =
    rw
      (
        encode_digits-append 10 t [] (encode_digits 6 r []),
        encode_digits-append 10 u [] (encode_digits 6 s []),
        str_lt-encode_digits 10 t u (encode_digits 6 r []) (encode_digits 6 s []) ht hu,
        str_lt-encode_digits 6 r s [] [] hr hs,
      )
      (ground arith)

-- The place of a generator's state in the order of generation.
pub position : Generator → ℕ
position g = g.last_ms * 2 ^ 30 + g.seq

pub record InRange (g : Generator) : Type 0 where
  pub seq_fits : g.seq < 2 ^ 30

rand_uint30-lt : (e : Entropy) → rand_uint30 e < 2 ^ 30
unfolding rand_uint30
rand_uint30-lt e = ground arith

pub advance-InRange :
    (now : ℕ) (e : Entropy) {g : Generator} → InRange g → InRange (advance now e g)
unfolding advance
advance-InRange now e {g} h = record { seq_fits = ground (arith, rand_uint30-lt e) }

-- Whatever the clock reads, also if it went back, the state moves forward.
pub position-lt-advance :
    (now : ℕ) (e : Entropy) {g : Generator} → InRange g → position g < position (advance now e g)
unfolding advance position
position-lt-advance now e {g} h = ground (arith, rand_uint30-lt e)

-- The virtual clock passes the reading and its own last value by at most a millisecond.
pub last_ms-advance :
    (now : ℕ) (e : Entropy) (g : Generator) {limit : ℕ}
    → now ≤ limit
    → g.last_ms ≤ limit
    → (g.last_ms ≤ (advance now e g).last_ms) × ((advance now e g).last_ms ≤ limit + 1)
unfolding advance
last_ms-advance now e g n h = ground arith

pub str_lt-id_of :
    {g g' : Generator}
    → InRange g
    → InRange g'
    → g.last_ms < 2 ^ 50
    → g'.last_ms < 2 ^ 50
    → position g < position g'
    → str_lt (id_of g) (id_of g') ≡ true
unfolding id_of position
str_lt-id_of {g} {g'} h h' b b' lt =
    rw
      (str_lt-encode (g.last_ms % 2 ^ 50) (g'.last_ms % 2 ^ 50) g.seq g'.seq (omega arith)
        (omega arith) h.seq_fits h'.seq_fits)
      (ground arith)

-- An ID is greater than the one before it, in the order of strings, whatever the clock and the
-- entropy give, as long as the timestamp fits its 50 bits.
pub id_of-lt-new_id :
    (now : ℕ) (e : Entropy) {g : Generator}
    → InRange g
    → (new_id now e g).1.last_ms < 2 ^ 50
    → str_lt (id_of g) (new_id now e g).0 ≡ true
unfolding new_id
id_of-lt-new_id now e {g} h b =
    str_lt-id_of h (advance-InRange now e h)
      (omega
        (arith, (last_ms-advance now e g {limit = now + g.last_ms} (omega arith) (omega arith)).0))
      b (position-lt-advance now e h)

-- Every text of the list is greater than `v`.
abbrev pub AllAbove : List ℕ → List (List ℕ) → Type 0
AllAbove v [] = Unit
AllAbove v (w ∷ ws) = (str_lt v w ≡ true) × AllAbove v ws

-- Each text is smaller than all those after it.
abbrev pub IsAscending : List (List ℕ) → Type 0
IsAscending [] = Unit
IsAscending (v ∷ vs) = AllAbove v vs × IsAscending vs

-- No clock reading of the calls is above the limit.
abbrev pub ReadsBelow : ℕ → List (ℕ × Entropy) → Type 0
ReadsBelow limit [] = Unit
ReadsBelow limit ((now, e) ∷ calls) = (now ≤ limit) × ReadsBelow limit calls

ReadsBelow-suc :
    (limit : ℕ) (calls : List (ℕ × Entropy)) → ReadsBelow limit calls → ReadsBelow (limit + 1) calls
ReadsBelow-suc limit [] h = tt
ReadsBelow-suc limit ((now, e) ∷ calls) h = (omega arith, ReadsBelow-suc limit calls h.1)

module _ (first : Generator) (fits : InRange first) (bound : first.last_ms < 2 ^ 50) where
  new_ids-AllAbove :
      (calls : List (ℕ × Entropy)) (g : Generator) (limit : ℕ)
      → InRange g
      → position first ≤ position g
      → g.last_ms ≤ limit
      → ReadsBelow limit calls
      → limit + length calls < 2 ^ 50
      → AllAbove (id_of first) (new_ids calls g)
  unfolding new_ids new_id
  new_ids-AllAbove [] g limit r p l reads fit = tt
  new_ids-AllAbove ((now, e) ∷ calls) g limit r p l reads fit =
      let g' = advance now e g in
      let r' = advance-InRange now e r in
      let step = position-lt-advance now e r in
      let near = last_ms-advance now e g {limit = limit} reads.0 l in
      (
        str_lt-id_of fits r' bound (omega (arith, near.1)) (omega (arith, step)),
        new_ids-AllAbove calls g' (limit + 1) r' (omega (arith, step)) near.1
            (ReadsBelow-suc limit calls reads.1) (omega arith),
      )

-- The IDs of any number of calls are ascending as strings, each before all later ones (so they are
-- all different), if no reading of the clock passes a limit that the timestamp holds with room for
-- one millisecond a call. The clock may stand still or go back.
pub new_ids-IsAscending :
    (calls : List (ℕ × Entropy)) (g : Generator) (limit : ℕ)
    → InRange g
    → g.last_ms ≤ limit
    → ReadsBelow limit calls
    → limit + length calls < 2 ^ 50
    → IsAscending (new_ids calls g)
unfolding new_ids new_id
new_ids-IsAscending [] g limit r l reads fit = tt
new_ids-IsAscending ((now, e) ∷ calls) g limit r l reads fit =
    let g' = advance now e g in
    let r' = advance-InRange now e r in
    let near = last_ms-advance now e g {limit = limit} reads.0 l in
    let later = ReadsBelow-suc limit calls reads.1 in
    (
      new_ids-AllAbove g' r' (omega (arith, near.1)) calls g' (limit + 1) r' (omega arith) near.1
          later (omega arith),
      new_ids-IsAscending calls g' (limit + 1) r' near.1 later (omega arith),
    )
