-- ===== src/OrmTag/RoundTrip.antt =====
-- splitTag of a printed tag gives the tokens.
use go_fast_framework.Common.{
  ℕ, suc, ◌+◌, ◌≡◌, refl, ◌∙◌, true, false, List, [], ◌∷◌, ◌++◌, some, length, arith, append_assoc,
  length-append,
}
use go_fast_framework.OrmTag.Text.{Text}
use go_fast_framework.OrmTag.Split.{
  RawToken, got, Cursor, start, flush, on_quote, on_space, on_other, on_byte, next_is_quote, scan,
  finish,
}
use go_fast_framework.OrmTag.Printed.{
  AllPlain, Token, word, quoted, escape, print_token, meant, slice_append, unquote-escape,
}
use go_fast_framework.OrmTag.Scanning.{scan_step, on_byte_plain, scan_plain, scan-escape}

-- The cursor between two tokens.
abbrev pub fresh : List RawToken → ℕ → ℕ → Cursor
fresh acc cs ps = record start { tokens = acc; cur_start = cs; param_start = ps }

-- What the loop does with a printed token from i to j.
pub record Scanned (tag : Text) (t : Token) (rest : Text) (acc : List RawToken) (cs ps i j : ℕ)
    : Type 0 where
  pub last : Cursor
  pub last_param : ℕ
  pub scanned : scan tag (print_token t ++ rest) i (fresh acc cs ps) ≡ scan tag rest j last
  pub spaced :
      (r : Text)
      → scan tag (32 ∷ r) j last
        ≡ scan tag r (suc j) (fresh (acc ++ meant t ∷ []) (j + 1) last_param)
  pub ended : j ≡ length tag → finish tag last ≡ got (acc ++ meant t ∷ [])

module _ (tag : Text) where
  -- The rest of a word after its first byte.
  pub scan_word :
      (b : ℕ) (w rest : Text) (i j : ℕ) (acc : List RawToken) (cs ps : ℕ)
      → AllPlain (b ∷ w)
      → suc i + length w ≡ j
      → scan tag (b ∷ (w ++ rest)) i (fresh acc cs ps)
        ≡ scan tag rest j (record (fresh acc i ps) { have_name = true })
  unfolding on_other
  scan_word b w rest i j acc cs ps h e =
      scan_step tag b (w ++ rest) i (fresh acc cs ps)
      ∙ rw (on_byte_plain tag b (next_is_quote (w ++ rest)) i (fresh acc cs ps) h.0)
          (scan_plain tag w rest (suc i) j (record (fresh acc i ps) { have_name = true }) h.1 e)

  pub word-Scanned :
      (b : ℕ) (w pre rest : Text) (acc : List RawToken) (cs ps i j : ℕ)
      → AllPlain (b ∷ w)
      → tag ≡ pre ++ ((b ∷ w) ++ rest)
      → i ≡ length pre
      → j ≡ length pre + length (b ∷ w)
      → Scanned tag (word b w) rest acc cs ps i j
  unfolding scan on_byte on_space flush finish print_token
  word-Scanned b w pre rest acc cs ps i j h e ei ej =
      let whole = slice_append pre (b ∷ w) rest tag e i j ei ej in
      record {
        last = record (fresh acc i ps) { have_name = true };
        last_param = ps;
        scanned = scan_word b w rest i j acc cs ps h (omega arith);
        spaced = λ r. rw (flush, whole);
        ended = λ end. rw (flush, ← end, whole);
      }

  -- The quote that closes a quoted token.
  scan_closing :
      (rest : Text) (k j : ℕ) (c : Cursor)
      → next_is_quote rest ≡ false
      → j ≡ k + 1
      → scan tag
          (39 ∷ rest)
          k
          (record c { skip = false; in_quote = true; in_paren = false; cur_quoted = true })
        ≡ scan tag rest j (record c {
          skip = false;
          in_quote = false;
          in_paren = false;
          cur_quoted = true;
          name_end = some j;
        })
  unfolding on_byte on_quote
  scan_closing rest k j c no_quote e =
      let e' : suc k ≡ j = omega arith in
      scan_step tag 39 rest k (record c { in_quote = true; in_paren = false; cur_quoted = true })
      ∙ rw (on_byte, on_quote, no_quote, ← e, e')

  pub quoted-Scanned :
      (q pre rest : Text) (acc : List RawToken) (cs ps i j : ℕ)
      → tag ≡ pre ++ (print_token (quoted q) ++ rest)
      → next_is_quote rest ≡ false
      → i ≡ length pre
      → j ≡ length pre + length (print_token (quoted q))
      → Scanned tag (quoted q) rest acc cs ps i j
  unfolding scan on_byte on_space on_quote flush finish print_token
  quoted-Scanned q pre rest acc cs ps i j e no_quote ei ej =
      let whole = slice_append pre (print_token (quoted q)) rest tag e i j ei ej in
      let opened = record (fresh acc i ps) { have_name = true; cur_quoted = true } in
      let here : j ≡ (suc i + length (escape q)) + 1 =
        omega (arith, length-append {0} (escape q) (39 ∷ [])) in
      record {
        last = record (fresh acc i ps) { have_name = true; cur_quoted = true; name_end = some j };
        last_param = ps;
        scanned = rw (append_assoc (escape q) (39 ∷ []) rest) (
            scan-escape tag q (39 ∷ rest) (suc i) (suc i + length (escape q)) opened refl
            ∙ scan_closing rest (suc i + length (escape q)) j opened no_quote here);
        spaced = λ r. rw (flush, whole, unquote-escape q);
        ended = λ end. rw (flush, ← end, whole, unquote-escape q);
      }
