-- ===== src/OrmTag/Bounds.antt =====
-- splitTag as a state machine with five states, in which it slices only inside the tag.
use mathlib.Core.Bool.{true≢false}
use go_fast_framework.Common.{
  ℕ, suc, ◌+◌, ◌-◌, ◌≤◌, ◌<◌, ◌≡◌, ◌≢◌, Bool, true, false, List, [], ◌∷◌, Option, none, some, ◌==◌,
  length, take, drop, arith, Bool-cases, inl, inr,
}
use go_fast_framework.OrmTag.Text.{Text, trim_space, slice}
use go_fast_framework.OrmTag.Split.{
  RawToken, Result, got, failed, panicked, bind_result, Cursor, start, append_child, flush,
  on_quote, on_space, on_comma, on_open, on_close, on_other, on_byte, next_is_quote, scan, finish,
  split_tag,
}

pub slice_inside :
    (s : Text) {a b : ℕ} → a ≤ b → b ≤ length s → slice s a b ≡ some (take (b - a) (drop a s))
unfolding slice
slice_inside s h k = ground arith

-- The states between two bytes, before the one at i, for values of cur_start and param_start; the
-- indices are haveName, curQuoted, inQuote, inParen and nameEnd.
pub data Shape (i cs ps : ℕ) : Bool → Bool → Bool → Bool → Option ℕ → Type 0 where
  idle : Shape i cs ps false false false false none
  in_word : cs ≤ i → Shape i cs ps true false false false none
  in_name : cs ≤ i → Shape i cs ps true true true false none
  named : (q : Bool) (n : ℕ) → cs ≤ n → n ≤ i → Shape i cs ps true q false false (some n)
  in_params :
      (q iq : Bool) (n : ℕ) → cs ≤ n → n ≤ i → ps ≤ i → Shape i cs ps true q iq true (some n)

abbrev pub IsShaped : ℕ → Cursor → Type 0
IsShaped i c =
    Shape i c.cur_start c.param_start c.have_name c.cur_quoted c.in_quote c.in_paren c.name_end

abbrev IsFine : ℕ → Result Cursor → Type 0
IsFine i (got c) = IsShaped i c
IsFine i (failed e) = Unit
IsFine i panicked = true ≡ false

abbrev Returns : Result (List RawToken) → Type 0
Returns (got ts) = Unit
Returns (failed e) = Unit
Returns panicked = true ≡ false

abbrev with_shape : Cursor → Bool → Bool → Bool → Bool → Option ℕ → Cursor
with_shape c hn q iq ip ne = record c {
  have_name = hn;
  cur_quoted = q;
  in_quote = iq;
  in_paren = ip;
  name_end = ne;
}

later :
    {i cs ps : ℕ} {hn q iq ip : Bool} {ne : Option ℕ}
    → Shape i cs ps hn q iq ip ne
    → Shape (suc i) cs ps hn q iq ip ne
later idle = idle
later (in_word h) = in_word (omega arith)
later (in_name h) = in_name (omega arith)
later (named q n h k) = named q n h (omega arith)
later (in_params q iq n h k p) = in_params q iq n h (omega arith) (omega arith)

module _ (tag : Text) where
  on_quote-IsFine :
      (next : Bool) (i : ℕ) (c : Cursor) {hn q iq ip : Bool} {ne : Option ℕ}
      → Shape i c.cur_start c.param_start hn q iq ip ne
      → IsFine (suc i) (on_quote tag next i (with_shape c hn q iq ip ne))
  unfolding on_quote
  on_quote-IsFine next i c idle = in_name (omega arith)
  on_quote-IsFine next i c (in_word h) = tt
  on_quote-IsFine true i c (in_name h) = in_name (omega arith)
  on_quote-IsFine false i c (in_name h) = named true (i + 1) (omega arith) (omega arith)
  on_quote-IsFine next i c (named q n h k) = tt
  on_quote-IsFine next i c (in_params q false n h k p) =
      in_params q true n h (omega arith) (omega arith)
  on_quote-IsFine true i c (in_params q true n h k p) =
      in_params q true n h (omega arith) (omega arith)
  on_quote-IsFine false i c (in_params q true n h k p) =
      in_params q false n h (omega arith) (omega arith)

  on_space-IsFine :
      (i : ℕ) (c : Cursor) {hn q iq ip : Bool} {ne : Option ℕ}
      → i < length tag
      → Shape i c.cur_start c.param_start hn q iq ip ne
      → IsFine (suc i) (on_space tag i (with_shape c hn q iq ip ne))
  unfolding on_space flush
  on_space-IsFine i c l idle = idle
  on_space-IsFine i c l (in_word h) =
      rw (flush, slice_inside tag {a = c.cur_start} {b = i} h (omega arith)) idle
  on_space-IsFine i c l (in_name h) = in_name (omega arith)
  on_space-IsFine i c l (named q n h k) =
      rw
        (
          flush,
          slice_inside tag {a = c.cur_start} {b = n} h (omega arith),
          slice_inside tag {a = c.cur_start} {b = i} (omega arith) (omega arith),
        )
        idle
  on_space-IsFine i c l (in_params q true n h k p) =
      in_params q true n h (omega arith) (omega arith)
  on_space-IsFine i c l (in_params q false n h k p) =
      in_params q false n h (omega arith) (omega arith)

  on_comma-IsFine :
      (i : ℕ) (c : Cursor) {hn q iq ip : Bool} {ne : Option ℕ}
      → i < length tag
      → Shape i c.cur_start c.param_start hn q iq ip ne
      → IsFine (suc i) (on_comma tag i (with_shape c hn q iq ip ne))
  unfolding on_comma append_child
  on_comma-IsFine i c l idle = tt
  on_comma-IsFine i c l (in_word h) = tt
  on_comma-IsFine i c l (in_name h) = in_name (omega arith)
  on_comma-IsFine i c l (named q n h k) = tt
  on_comma-IsFine i c l (in_params q true n h k p) =
      in_params q true n h (omega arith) (omega arith)
  on_comma-IsFine i c l (in_params q false n h k p) =
      rw (slice_inside tag {a = c.param_start} {b = i} p (omega arith))
        (in_params q false n h (omega arith) (omega arith))

  on_open-IsFine :
      (i : ℕ) (c : Cursor) {hn q iq ip : Bool} {ne : Option ℕ}
      → Shape i c.cur_start c.param_start hn q iq ip ne
      → IsFine (suc i) (on_open tag i (with_shape c hn q iq ip ne))
  unfolding on_open
  on_open-IsFine i c (in_name h) = in_name (omega arith)
  on_open-IsFine i c (in_params q true n h k p) = in_params q true n h (omega arith) (omega arith)
  on_open-IsFine i c (in_params q false n h k p) = tt
  on_open-IsFine i c idle = elim (Bool-cases c.seen_paren) [
    | inl again ↦ rw again tt
    | inr first ↦ rw first (in_params false false i (omega arith) (omega arith) (omega arith))
  ]
  on_open-IsFine i c (in_word h) = elim (Bool-cases c.seen_paren) [
    | inl again ↦ rw again tt
    | inr first ↦ rw first (in_params false false i h (omega arith) (omega arith))
  ]
  on_open-IsFine i c (named q n h k) = elim (Bool-cases c.seen_paren) [
    | inl again ↦ rw again tt
    | inr first ↦ rw first (in_params q false n h (omega arith) (omega arith))
  ]

  on_close-IsFine :
      (i : ℕ) (c : Cursor) {hn q iq ip : Bool} {ne : Option ℕ}
      → i < length tag
      → Shape i c.cur_start c.param_start hn q iq ip ne
      → IsFine (suc i) (on_close tag i (with_shape c hn q iq ip ne))
  unfolding on_close append_child
  on_close-IsFine i c l idle = tt
  on_close-IsFine i c l (in_word h) = tt
  on_close-IsFine i c l (in_name h) = in_name (omega arith)
  on_close-IsFine i c l (named q n h k) = tt
  on_close-IsFine i c l (in_params q true n h k p) =
      in_params q true n h (omega arith) (omega arith)
  on_close-IsFine i c l (in_params q false n h k p) =
      rw (slice_inside tag {a = c.param_start} {b = i} p (omega arith)) (named q n h (omega arith))

  on_other-IsFine :
      (i : ℕ) (c : Cursor) {hn q iq ip : Bool} {ne : Option ℕ}
      → Shape i c.cur_start c.param_start hn q iq ip ne
      → IsFine (suc i) (on_other tag i (with_shape c hn q iq ip ne))
  unfolding on_other
  on_other-IsFine i c idle = in_word (omega arith)
  on_other-IsFine i c (in_word h) = in_word (omega arith)
  on_other-IsFine i c (in_name h) = in_name (omega arith)
  on_other-IsFine i c (named q n h k) = named q n h (omega arith)
  on_other-IsFine i c (in_params q true n h k p) = in_params q true n h (omega arith) (omega arith)
  on_other-IsFine i c (in_params q false n h k p) =
      in_params q false n h (omega arith) (omega arith)

  on_byte-IsFine :
      (b : ℕ) (next : Bool) (i : ℕ) (c : Cursor)
      → i < length tag
      → IsShaped i c
      → IsFine (suc i) (on_byte tag b next i c)
  unfolding on_byte
  on_byte-IsFine b next i c l sh = elim (Bool-cases (b == 39)) [
    | inl e ↦ rw (e, on_byte) (on_quote-IsFine next i c sh)
    | inr e1 ↦ elim (Bool-cases (b == 32)) [
      | inl e ↦ rw (e1, on_byte, e) (on_space-IsFine i c l sh)
      | inr e2 ↦ elim (Bool-cases (b == 44)) [
        | inl e ↦ rw (e1, on_byte, e2, e) (on_comma-IsFine i c l sh)
        | inr e3 ↦ elim (Bool-cases (b == 40)) [
          | inl e ↦ rw (e1, on_byte, e2, e3, e) (on_open-IsFine i c sh)
          | inr e4 ↦ elim (Bool-cases (b == 41)) [
            | inl e ↦ rw (e1, on_byte, e2, e3, e4, e) (on_close-IsFine i c l sh)
            | inr e5 ↦ rw (e1, on_byte, e2, e3, e4, e5) (on_other-IsFine i c sh)
          ]
        ]
      ]
    ]
  ]

  -- One round of the loop, and the loop.
  and_then-IsFine :
      (i : ℕ) (r : Result Cursor) (f : Cursor → Result Cursor)
      → IsFine i r
      → ((c : Cursor) → IsShaped i c → IsFine (length tag) (f c))
      → IsFine (length tag) (bind_result r f)
  and_then-IsFine i (got c) f h k = k c h
  and_then-IsFine i (failed e) f h k = tt
  and_then-IsFine i panicked f h k = h

  scan-IsFine :
      (rest : Text) (i : ℕ) (c : Cursor)
      → i + length rest ≡ length tag
      → IsShaped i c
      → IsFine (length tag) (scan tag rest i c)
  unfolding scan
  scan-IsFine [] i c e sh = let at : i ≡ length tag = omega arith in rw (← at) sh
  scan-IsFine (b ∷ bs) i c e sh = elim (Bool-cases c.skip) [
    | inl skips ↦
        rw (scan, skips)
          (scan-IsFine bs (suc i) (record c { skip = false }) (omega arith) (later sh))
    | inr reads ↦
        rw (scan, reads)
          (and_then-IsFine (suc i) (on_byte tag b (next_is_quote bs) i c) (scan tag bs (suc i))
            (on_byte-IsFine b (next_is_quote bs) i c (omega arith) sh)
            (λ c' sh'. scan-IsFine bs (suc i) c' (omega arith) sh'))
  ]

  finish_fine :
      (c : Cursor) {hn q iq ip : Bool} {ne : Option ℕ}
      → Shape (length tag) c.cur_start c.param_start hn q iq ip ne
      → Returns (finish tag (with_shape c hn q iq ip ne))
  unfolding finish flush
  finish_fine c idle = tt
  finish_fine c (in_name l) = tt
  finish_fine c (in_params q true n l k p) = tt
  finish_fine c (in_params q false n l k p) = tt
  finish_fine c (in_word l) =
      rw (flush, slice_inside tag {a = c.cur_start} {b = length tag} l (omega arith)) tt
  finish_fine c (named q n l k) =
      rw
        (
          flush,
          slice_inside tag {a = c.cur_start} {b = n} l k,
          slice_inside tag {a = c.cur_start} {b = length tag} (omega arith) (omega arith),
        )
        tt

  finished : (r : Result Cursor) → IsFine (length tag) r → Returns (bind_result r (finish tag))
  finished (got c) sh = finish_fine c sh
  finished (failed e) sh = tt
  finished panicked sh = sh

returned : (r : Result (List RawToken)) → Returns r → r ≢ panicked
returned (got ts) h e = absurd cc
returned (failed x) h e = absurd cc
returned panicked h e = true≢false h

-- splitTag never slices out of the bounds of the tag, whatever the tag is: it gives tokens or an error.
pub split_tag_ends : (tag : Text) → split_tag tag ≢ panicked
unfolding split_tag
split_tag_ends tag =
    let t = trim_space tag in
    returned (split_tag tag)
      (finished t (scan t t 0 start) (scan-IsFine t t 0 start (omega arith) idle))
