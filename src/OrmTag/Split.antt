-- ===== src/OrmTag/Split.antt =====
-- contracts/ormtag/parser.go: splitTag, which cuts a tag into tokens, and unquote. The loop's
-- `i++` past an escaped quote is the flag `skip` for the next round.
use go_fast_framework.Common.{
  ℕ, suc, ◌+◌, Bool, true, false, not, ◌&&◌, ◌||◌, List, [], ◌∷◌, ◌++◌, Option, none, some, ◌==◌,
  length, if◌then◌else◌,
}
use go_fast_framework.OrmTag.Text.{Text, trim_space, slice}

-- rawToken
pub record RawToken : Type 0 where
  pub name : Text
  pub quoted : Bool
  pub params : List Text
  pub raw : Text
  pub has_cond : Bool

-- The errors of splitTag, with the offset where the message has one.
pub data SyntaxError : Type 0 where
  quote_position comma_position nested_parenthesis extra_parenthesis : ℕ → SyntaxError
  open_quote open_parenthesis : SyntaxError

-- What code that slices may do: give a value, an error, or panic.
pub data Result {ℓ} (A : Type ℓ) : Type ℓ where
  got : A → Result A
  failed : SyntaxError → Result A
  panicked : Result A

abbrev pub bind_result {ℓ} : {A B : Type ℓ} → Result A → (A → Result B) → Result B
bind_result (got a) f = f a
bind_result (failed e) f = failed e
bind_result panicked f = panicked

abbrev pub with_slice {ℓ} : {A : Type ℓ} → Option Text → (Text → Result A) → Result A
with_slice (some t) f = f t
with_slice none f = panicked

-- the variables of splitTag; `params` are cur.params, and a name_end of none is -1
pub record Cursor : Type 0 where
  pub tokens : List RawToken
  pub params : List Text
  pub cur_start : ℕ
  pub param_start : ℕ
  pub in_quote : Bool
  pub in_paren : Bool
  pub cur_quoted : Bool
  pub seen_paren : Bool
  pub name_end : Option ℕ
  pub have_name : Bool
  pub skip : Bool

abbrev pub start : Cursor
start = record {
  tokens = [];
  params = [];
  cur_start = 0;
  param_start = 0;
  in_quote = false;
  in_paren = false;
  cur_quoted = false;
  seen_paren = false;
  name_end = none;
  have_name = false;
  skip = false;
}

-- strings.ReplaceAll(s, "''", "'")
unfoldable pub replace_quotes : Text → Text
replace_quotes [] = []
replace_quotes (a ∷ []) = a ∷ []
replace_quotes (a ∷ b ∷ r) = elim ((a == 39) && (b == 39)) [
  | true ↦ 39 ∷ replace_quotes r
  | false ↦ a ∷ replace_quotes (b ∷ r)
]

-- the last byte of a text that is not empty, and the text without it
abbrev pub last_byte : ℕ → Text → ℕ
last_byte a [] = a
last_byte a (b ∷ bs) = last_byte b bs

abbrev pub but_last : ℕ → Text → Text
but_last a [] = []
but_last a (b ∷ bs) = a ∷ but_last b bs

-- s[1 : len(s)-1] when s has two quotes at its ends
unfoldable pub strip_quotes : Text → Text
strip_quotes [] = []
strip_quotes (a ∷ []) = a ∷ []
strip_quotes (a ∷ b ∷ s) = if (a == 39) && (last_byte b s == 39) then but_last b s else a ∷ b ∷ s

-- unquote
unfoldable pub unquote : Text → Text
unfolding replace_quotes strip_quotes
unquote s = replace_quotes (strip_quotes s)

-- unquoteParam
unfoldable pub unquote_param : Text → Text
unfolding unquote trim_space
unquote_param s = unquote (trim_space s)

abbrev pub has_params : List Text → Bool
has_params [] = false
has_params (p ∷ ps) = true

abbrev pub next_is_quote : Text → Bool
next_is_quote [] = false
next_is_quote (b ∷ bs) = b == 39

module _ (tag : Text) where
  -- appendChild
  unfoldable pub append_child : Text → Cursor → Cursor
  append_child raw c = record c { params = c.params ++ trim_space raw ∷ [] }

  -- the name in flush: -1 as a bound of a slice panics
  abbrev pub name_of : ℕ → Cursor → Result Text
  name_of end c = elim c.name_end [
    | none ↦ if c.cur_quoted then panicked else with_slice (slice tag c.cur_start end) got
    | some n ↦
        with_slice (slice tag c.cur_start n)
          (λ name. got (if c.cur_quoted then unquote name else name))
  ]

  -- flush
  unfoldable pub flush : ℕ → Cursor → Result Cursor
  flush end c = bind_result (name_of end c) (λ name. with_slice (slice tag c.cur_start end) (λ raw.
      got (record c {
        tokens =
            c.tokens
            ++ record {
              name = name;
              quoted = c.cur_quoted;
              params = c.params;
              raw = raw;
              has_cond = has_params c.params;
            }
              ∷ [];
        params = [];
        cur_quoted = false;
        have_name = false;
        seen_paren = false;
        name_end = none;
      })))

  -- case '\''; `next` is whether the next byte is a quote too
  unfoldable pub on_quote : Bool → ℕ → Cursor → Result Cursor
  on_quote next i c =
      if c.in_quote
      then (if next
          then got (record c { skip = true })
          else got (record c {
            in_quote = false;
            name_end = if not c.in_paren && c.cur_quoted then some (i + 1) else c.name_end;
          }))
      else if c.in_paren
      then got (record c { in_quote = true })
      else if c.have_name
      then failed (quote_position i)
      else got (record c { in_quote = true; cur_quoted = true; have_name = true; cur_start = i })

  -- case ' '
  unfoldable pub on_space : ℕ → Cursor → Result Cursor
  unfolding flush
  on_space i c =
      if c.in_quote
      then got c
      else if c.in_paren
      then got (record c { param_start = i + 1 })
      else bind_result (if c.have_name then flush i c else got c)
          (λ c'. got (record c' { cur_start = i + 1 }))

  -- case ','
  unfoldable pub on_comma : ℕ → Cursor → Result Cursor
  unfolding append_child
  on_comma i c =
      if not c.in_quote && not c.in_paren
      then failed (comma_position i)
      else if not c.in_quote && c.in_paren
      then with_slice (slice tag c.param_start i)
          (λ raw. got (record (append_child raw c) { param_start = i + 1 }))
      else got c

  -- case '('
  unfoldable pub on_open : ℕ → Cursor → Result Cursor
  on_open i c =
      if c.in_quote
      then got c
      else if c.in_paren || c.seen_paren
      then failed (nested_parenthesis i)
      else got (record c {
        in_paren = true;
        seen_paren = true;
        have_name = true;
        cur_start = if c.have_name then c.cur_start else i;
        name_end =
            if c.have_name then elim c.name_end [ none ↦ some i | some n ↦ some n ] else some i;
        param_start = i + 1;
      })

  -- case ')'
  unfoldable pub on_close : ℕ → Cursor → Result Cursor
  unfolding append_child
  on_close i c =
      if c.in_quote
      then got c
      else if not c.in_paren
      then failed (extra_parenthesis i)
      else with_slice (slice tag c.param_start i)
          (λ raw. got (append_child raw (record c { in_paren = false })))

  -- default
  unfoldable pub on_other : ℕ → Cursor → Result Cursor
  on_other i c =
      if not c.in_quote && not c.have_name
      then got (record c { have_name = true; cur_start = i })
      else got c

  -- the switch on the byte at i
  unfoldable pub on_byte : ℕ → Bool → ℕ → Cursor → Result Cursor
  unfolding on_quote on_space on_comma on_open on_close on_other
  on_byte b next i c =
      if b == 39
      then on_quote next i c
      else if b == 32
      then on_space i c
      else if b == 44
      then on_comma i c
      else if b == 40
      then on_open i c
      else if b == 41
      then on_close i c
      else on_other i c

  -- The loop over the bytes from i on.
  unfoldable pub scan : Text → ℕ → Cursor → Result Cursor
  unfolding on_byte
  scan [] i c = got c
  scan (b ∷ bs) i c = elim c.skip [
    | true ↦ scan bs (suc i) (record c { skip = false })
    | false ↦ bind_result (on_byte b (next_is_quote bs) i c) (scan bs (suc i))
  ]

  -- the checks after the loop
  unfoldable pub finish : Cursor → Result (List RawToken)
  unfolding flush
  finish c =
      if c.in_quote
      then failed open_quote
      else if c.in_paren
      then failed open_parenthesis
      else if c.have_name
      then bind_result (flush (length tag) c) (λ c'. got c'.tokens)
      else got c.tokens

-- splitTag
unfoldable pub split_tag : Text → Result (List RawToken)
unfolding scan finish trim_space
split_tag tag_str = let tag = trim_space tag_str in bind_result (scan tag tag 0 start) (finish tag)
