-- ===== src/OrmTag/Tokens.antt =====
-- splitTag of a printed tag gives back the tokens it was printed from.
use go_fast_framework.Common.{
  ℕ, suc, ◌+◌, ◌≡◌, refl, sym, ap, ◌∙◌, false, List, [], ◌∷◌, ◌++◌, length, arith, append_assoc,
  append_nil, length-append, map,
}
use go_fast_framework.OrmTag.Text.{Text, is_space, trim_space, trim_left, trim_right, keep_before}
use go_fast_framework.OrmTag.Split.{
  RawToken, got, bind_result, next_is_quote, scan, finish, split_tag,
}
use go_fast_framework.OrmTag.Printed.{
  AllPlain, Token, word, quoted, call, escape, print_params, print_token, print_tokens, IsWritable,
  AllWritable, meant,
}
use go_fast_framework.OrmTag.RoundTrip.{fresh, Scanned, word-Scanned, quoted-Scanned}
use go_fast_framework.OrmTag.Calls.{call-Scanned}

token-Scanned :
    (tag : Text) (t : Token) (pre rest : Text) (acc : List RawToken) (cs ps i j : ℕ)
    → IsWritable t
    → tag ≡ pre ++ (print_token t ++ rest)
    → next_is_quote rest ≡ false
    → i ≡ length pre
    → j ≡ length pre + length (print_token t)
    → Scanned tag t rest acc cs ps i j
unfolding print_token
token-Scanned tag (word b w) pre rest acc cs ps i j h e q ei ej =
    word-Scanned tag b w pre rest acc cs ps i j h e ei ej
token-Scanned tag (quoted x) pre rest acc cs ps i j h e q ei ej =
    quoted-Scanned tag x pre rest acc cs ps i j e q ei ej
token-Scanned tag (call b w p qs) pre rest acc cs ps i j h e q ei ej =
    call-Scanned tag b w p qs pre rest acc cs ps i j h e ei ej

scan_tokens :
    (tag : Text) (t : Token) (ts : List Token) (pre : Text) (acc : List RawToken) (cs ps i : ℕ)
    → AllWritable (t ∷ ts)
    → tag ≡ pre ++ print_tokens t ts
    → i ≡ length pre
    → bind_result (scan tag (print_tokens t ts) i (fresh acc cs ps)) (finish tag)
      ≡ got (acc ++ map meant (t ∷ ts))
unfolding scan print_tokens
scan_tokens tag t [] pre acc cs ps i h e ei =
    let e' : tag ≡ pre ++ (print_token t ++ []) = e ∙ rw (append_nil (print_token t)) in
    let l : length tag ≡ length pre + length (print_token t) =
      ap length e ∙ length-append {0} pre (print_token t) in
    let s = token-Scanned tag t pre [] acc cs ps i (length tag) h.0 e' refl ei l in
    let through =
      ap (λ x. scan tag x i (fresh acc cs ps)) (sym (append_nil (print_token t))) ∙ s.scanned in
    rw through (s.ended refl)
scan_tokens tag t (u ∷ us) pre acc cs ps i h e ei =
    let rest = print_tokens u us in
    let j = length pre + length (print_token t) in
    let s = token-Scanned tag t pre (32 ∷ rest) acc cs ps i j h.0 e refl ei refl in
    let split : tag ≡ (pre ++ (print_token t ++ 32 ∷ [])) ++ rest =
      e
      ∙ rw (
        append_assoc pre (print_token t ++ 32 ∷ []) rest,
        append_assoc (print_token t) (32 ∷ []) rest,
      ) in
    let more =
      scan_tokens tag u us (pre ++ (print_token t ++ 32 ∷ [])) (acc ++ meant t ∷ []) (j + 1)
        s.last_param (suc j) h.1 split
        (omega (
          arith,
          length-append {0} pre (print_token t ++ 32 ∷ []),
          length-append {0} (print_token t) (32 ∷ []),
        )) in
    rw (s.scanned, s.spaced rest)
      (more ∙ ap got (append_assoc acc (meant t ∷ []) (map meant (u ∷ us))))

-- A text whose last byte is not white space.
record EndsSolid (s : Text) : Type 0 where
  before : Text
  final : ℕ
  whole : s ≡ before ++ final ∷ []
  solid : is_space final ≡ false

append-EndsSolid : (xs ys : Text) → EndsSolid ys → EndsSolid (xs ++ ys)
append-EndsSolid xs ys h = record {
  before = xs ++ h.before;
  final = h.final;
  whole = ap (λ l. xs ++ l) h.whole ∙ sym (append_assoc xs h.before (h.final ∷ []));
  solid = h.solid;
}

plain-EndsSolid : (b : ℕ) (w : Text) → AllPlain (b ∷ w) → EndsSolid (b ∷ w)
plain-EndsSolid b [] h = record { before = []; final = b; whole = refl; solid = h.0.0 }
plain-EndsSolid b (c ∷ cs) h = append-EndsSolid (b ∷ []) (c ∷ cs) (plain-EndsSolid c cs h.1)

print_params-EndsSolid : (p : Text) (ps : List Text) → EndsSolid (print_params p ps)
unfolding print_params
print_params-EndsSolid p [] = record { before = p; final = 41; whole = refl; solid = refl }
print_params-EndsSolid p (q ∷ qs) =
    append-EndsSolid p (44 ∷ print_params q qs)
      (append-EndsSolid (44 ∷ []) (print_params q qs) (print_params-EndsSolid q qs))

print_token-EndsSolid : (t : Token) → IsWritable t → EndsSolid (print_token t)
unfolding print_token
print_token-EndsSolid (word b w) h = plain-EndsSolid b w h
print_token-EndsSolid (quoted q) h = record {
  before = 39 ∷ escape q;
  final = 39;
  whole = refl;
  solid = refl;
}
print_token-EndsSolid (call b w p ps) h =
    append-EndsSolid (b ∷ w) (40 ∷ print_params p ps)
      (append-EndsSolid (40 ∷ []) (print_params p ps) (print_params-EndsSolid p ps))

print_tokens-EndsSolid :
    (t : Token) (ts : List Token) → AllWritable (t ∷ ts) → EndsSolid (print_tokens t ts)
unfolding print_tokens
print_tokens-EndsSolid t [] h = print_token-EndsSolid t h.0
print_tokens-EndsSolid t (u ∷ us) h =
    append-EndsSolid (print_token t) (32 ∷ print_tokens u us)
      (append-EndsSolid (32 ∷ []) (print_tokens u us) (print_tokens-EndsSolid u us h.1))

keep_before-append : (x : ℕ) (xs : Text) (z : ℕ) → keep_before x (xs ++ z ∷ []) ≡ x ∷ (xs ++ z ∷ [])
keep_before-append x [] z = refl
keep_before-append x (y ∷ ys) z = refl

trim_right_solid :
    (xs : Text) (z : ℕ) → is_space z ≡ false → trim_right (xs ++ z ∷ []) ≡ xs ++ z ∷ []
unfolding trim_right
trim_right_solid [] z h = rw h
trim_right_solid (x ∷ xs) z h = rw (trim_right_solid xs z h) (keep_before-append x xs z)

trim_left-print_tokens :
    (t : Token) (ts : List Token)
    → AllWritable (t ∷ ts)
    → trim_left (print_tokens t ts) ≡ print_tokens t ts
unfolding trim_left print_tokens print_token
trim_left-print_tokens (word b w) [] h = rw (trim_left, h.0.0.0)
trim_left-print_tokens (quoted q) [] h = refl
trim_left-print_tokens (call b w p ps) [] h = rw (trim_left, h.0.0.0.0)
trim_left-print_tokens (word b w) (u ∷ us) h = rw (trim_left, h.0.0.0)
trim_left-print_tokens (quoted q) (u ∷ us) h = refl
trim_left-print_tokens (call b w p ps) (u ∷ us) h = rw (trim_left, h.0.0.0.0)

trim_space-print_tokens :
    (t : Token) (ts : List Token)
    → AllWritable (t ∷ ts)
    → trim_space (print_tokens t ts) ≡ print_tokens t ts
unfolding trim_space
trim_space-print_tokens t ts h =
    let end = print_tokens-EndsSolid t ts h in
    rw (trim_left-print_tokens t ts h)
      (rw (end.whole) (trim_right_solid end.before end.final end.solid))

-- Splitting a tag gives back the tokens it was printed from: words and calls of bytes with no meaning of
-- their own, and quoted texts of any bytes at all, quotes, spaces and commas included.
pub split_tag-print_tokens :
    (t : Token) (ts : List Token)
    → AllWritable (t ∷ ts)
    → split_tag (print_tokens t ts) ≡ got (map meant (t ∷ ts))
unfolding split_tag
split_tag-print_tokens t ts h =
    rw (trim_space-print_tokens t ts h)
      (scan_tokens (print_tokens t ts) t ts [] [] 0 0 0 h refl refl)
