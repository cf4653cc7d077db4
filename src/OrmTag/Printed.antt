-- ===== src/OrmTag/Printed.antt =====
-- Tags written from their tokens: the inverse of splitTag on the tags that need no more care.
use go_fast_framework.Common.{
  ℕ, ◌+◌, ◌-◌, ◌≡◌, refl, sym, ap, ◌∙◌, true, false, List, [], ◌∷◌, ◌++◌, some, ◌==◌, ==_iff,
  length, take, drop, if◌then◌else◌, arith, Bool-cases, inl, inr, length-append,
}
use go_fast_framework.OrmTag.Text.{
  Text, is_space, trim_space, trim_left, trim_right, keep_before, slice,
}
use go_fast_framework.OrmTag.Bounds.{slice_inside}
use go_fast_framework.OrmTag.Split.{
  RawToken, unquote, replace_quotes, strip_quotes, but_last, last_byte,
}

-- A byte with no meaning of its own in a tag.
abbrev pub IsPlain : ℕ → Type 0
IsPlain b =
    (is_space b ≡ false)
    × (((b == 39) ≡ false) × (((b == 44) ≡ false) × (((b == 40) ≡ false) × ((b == 41) ≡ false))))

abbrev pub AllPlain : Text → Type 0
AllPlain [] = Unit
AllPlain (b ∷ bs) = IsPlain b × AllPlain bs

-- A token as it is meant: a word, a text in quotes, or a word with parameters, of which there is one
-- at least.
pub data Token : Type 0 where
  word : ℕ → Text → Token
  quoted : Text → Token
  call : ℕ → Text → Text → List Text → Token

-- A quote in a quoted text is written twice.
unfoldable pub escape : Text → Text
escape [] = []
escape (b ∷ bs) = let rest = escape bs in if b == 39 then 39 ∷ 39 ∷ rest else b ∷ rest

-- the parameters up to the closing parenthesis
unfoldable pub print_params : Text → List Text → Text
print_params p [] = p ++ 41 ∷ []
print_params p (q ∷ qs) = p ++ 44 ∷ print_params q qs

unfoldable pub print_token : Token → Text
unfolding escape print_params
print_token (word b w) = b ∷ w
print_token (quoted q) = 39 ∷ escape q ++ 39 ∷ []
print_token (call b w p ps) = b ∷ w ++ 40 ∷ print_params p ps

unfoldable pub print_tokens : Token → List Token → Text
unfolding print_token
print_tokens t [] = print_token t
print_tokens t (u ∷ us) = print_token t ++ 32 ∷ print_tokens u us

abbrev pub AllPlainTexts : List Text → Type 0
AllPlainTexts [] = Unit
AllPlainTexts (p ∷ ps) = AllPlain p × AllPlainTexts ps

abbrev pub IsWritable : Token → Type 0
IsWritable (word b w) = AllPlain (b ∷ w)
IsWritable (quoted q) = Unit
IsWritable (call b w p ps) = AllPlain (b ∷ w) × AllPlainTexts (p ∷ ps)

abbrev pub AllWritable : List Token → Type 0
AllWritable [] = Unit
AllWritable (t ∷ ts) = IsWritable t × AllWritable ts

-- The token that splitTag is to give.
abbrev pub meant : Token → RawToken
meant (word b w) = record {
  name = b ∷ w;
  quoted = false;
  params = [];
  raw = print_token (word b w);
  has_cond = false;
}
meant (quoted q) = record {
  name = q;
  quoted = true;
  params = [];
  raw = print_token (quoted q);
  has_cond = false;
}
meant (call b w p ps) = record {
  name = b ∷ w;
  quoted = false;
  params = p ∷ ps;
  raw = print_token (call b w p ps);
  has_cond = true;
}

-- Slices of a text that is put together.
pub drop-append : (xs ys : Text) → drop (length xs) (xs ++ ys) ≡ ys
drop-append [] ys = refl
drop-append (x ∷ xs) ys = drop-append xs ys

pub take-append : (xs ys : Text) → take (length xs) (xs ++ ys) ≡ xs
take-append [] ys = refl
take-append (x ∷ xs) ys = ap (λ l. x ∷ l) (take-append xs ys)

pub slice_append :
    (pre mid post tag : Text)
    → tag ≡ pre ++ (mid ++ post)
    → (a b : ℕ) → a ≡ length pre
    → b ≡ length pre + length mid
    → slice tag a b ≡ some mid
slice_append pre mid post tag e a b ea eb =
    let l : length tag ≡ length pre + (length mid + length post) =
      ap length e
      ∙ (length-append {0} pre (mid ++ post)
          ∙ ap (λ n. length pre + n) (length-append {0} mid post)) in
    let d : b - a ≡ length mid = omega arith in
    slice_inside tag {a = a} {b = b} (omega arith) (omega arith)
    ∙ rw (d, ea, e, drop-append pre (mid ++ post), take-append mid post)

-- Plain texts are not changed by TrimSpace.
pub trim_right_plain : (s : Text) → AllPlain s → trim_right s ≡ s
unfolding trim_right
trim_right_plain [] h = refl
trim_right_plain (b ∷ bs) h = rw (trim_right_plain bs h.1) (kept b bs h.0.0)
  where
    kept : (b : ℕ) (bs : Text) → is_space b ≡ false → keep_before b bs ≡ b ∷ bs
    kept b [] h = rw h
    kept b (c ∷ cs) h = refl

pub trim_space_plain : (s : Text) → AllPlain s → trim_space s ≡ s
unfolding trim_space trim_left trim_right
trim_space_plain [] h = refl
trim_space_plain (b ∷ bs) h = rw (h.0.0, trim_left) (trim_right_plain (b ∷ bs) h)

replace_quotes-other :
    (b : ℕ) (l : Text) → (b == 39) ≡ false → replace_quotes (b ∷ l) ≡ b ∷ replace_quotes l
unfolding replace_quotes
replace_quotes-other b [] e = refl
replace_quotes-other b (c ∷ cs) e = rw (replace_quotes, e)

last_byte-append : (y : ℕ) (ys : Text) (z : ℕ) → last_byte y (ys ++ z ∷ []) ≡ z
last_byte-append y [] z = refl
last_byte-append y (x ∷ xs) z = last_byte-append x xs z

but_last-append : (y : ℕ) (ys : Text) (z : ℕ) → but_last y (ys ++ z ∷ []) ≡ y ∷ ys
but_last-append y [] z = refl
but_last-append y (x ∷ xs) z = ap (λ l. y ∷ l) (but_last-append x xs z)

strip_quotes-append : (x : Text) → strip_quotes (39 ∷ (x ++ 39 ∷ [])) ≡ x
unfolding strip_quotes
strip_quotes-append [] = refl
strip_quotes-append (y ∷ ys) = rw (last_byte-append y ys 39) (but_last-append y ys 39)

-- What unquote makes of an escaped text in quotes.
pub replace_quotes-escape : (q : Text) → replace_quotes (escape q) ≡ q
unfolding replace_quotes escape
replace_quotes-escape [] = refl
replace_quotes-escape (b ∷ bs) = elim (Bool-cases (b == 39)) [
  | inl e ↦ rw (e, escape, replace_quotes-escape bs) (ap (λ c. c ∷ bs) (sym ((==_iff b 39).0 e)))
  | inr e ↦ rw (e, escape, replace_quotes-other b (escape bs) e, replace_quotes-escape bs)
]

pub unquote-escape : (q : Text) → unquote (39 ∷ (escape q ++ 39 ∷ [])) ≡ q
unfolding unquote
unquote-escape q = rw (strip_quotes-append (escape q)) (replace_quotes-escape q)
