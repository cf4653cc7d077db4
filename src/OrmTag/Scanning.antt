-- ===== src/OrmTag/Scanning.antt =====
-- The loop of splitTag over the pieces of a printed tag.
use go_fast_framework.Common.{
  ℕ, suc, ◌+◌, ◌≡◌, refl, ◌∙◌, Bool, true, false, [], ◌∷◌, ◌++◌, ◌==◌, length, arith, Bool-cases,
  inl, inr,
}
use go_fast_framework.OrmTag.Text.{Text, is_space}
use go_fast_framework.OrmTag.Split.{
  got, bind_result, Cursor, on_quote, on_space, on_comma, on_open, on_close, on_other, on_byte,
  next_is_quote, scan,
}
use go_fast_framework.OrmTag.Printed.{IsPlain, AllPlain, escape}

not_space : (b : ℕ) → is_space b ≡ false → (b == 32) ≡ false
not_space b h = ground arith

-- A cursor inside a token, and inside a quote.
abbrev pub in_token : Cursor → Cursor
in_token c = record c { skip = false; in_quote = false; have_name = true }

abbrev pub in_text : Cursor → Cursor
in_text c = record c { skip = false; in_quote = true }

module _ (tag : Text) where
  pub scan_step :
      (b : ℕ) (bs : Text) (i : ℕ) (c : Cursor)
      → scan tag (b ∷ bs) i (record c { skip = false })
        ≡ bind_result
            (on_byte tag b (next_is_quote bs) i (record c { skip = false }))
            (scan tag bs (suc i))
  unfolding scan
  scan_step b bs i c = refl

  pub on_byte_plain :
      (b : ℕ) (next : Bool) (i : ℕ) (c : Cursor)
      → IsPlain b
      → on_byte tag b next i c ≡ on_other tag i c
  unfolding on_byte
  on_byte_plain b next i c h = rw (on_byte, h.1.0, not_space b h.0, h.1.1.0, h.1.1.1.0, h.1.1.1.1)

  on_byte-in_text :
      (b : ℕ) (next : Bool) (i : ℕ) (c : Cursor)
      → (b == 39) ≡ false
      → on_byte tag b next i (in_text c) ≡ got (in_text c)
  unfolding on_byte on_space on_comma on_open on_close on_other
  on_byte-in_text b next i c e = elim (Bool-cases (b == 32)) [
    | inl s ↦ rw (on_byte, e, s)
    | inr e2 ↦ elim (Bool-cases (b == 44)) [
      | inl s ↦ rw (on_byte, e, e2, s)
      | inr e3 ↦ elim (Bool-cases (b == 40)) [
        | inl s ↦ rw (on_byte, e, e2, e3, s)
        | inr e4 ↦ elim (Bool-cases (b == 41)) [
          | inl s ↦ rw (on_byte, e, e2, e3, e4, s)
          | inr e5 ↦ rw (on_byte, e, e2, e3, e4, e5)
        ]
      ]
    ]
  ]

  -- Plain bytes inside a token change nothing.
  pub scan_plain :
      (w rest : Text) (i j : ℕ) (c : Cursor)
      → AllPlain w
      → i + length w ≡ j
      → scan tag (w ++ rest) i (in_token c) ≡ scan tag rest j (in_token c)
  unfolding on_other
  scan_plain [] rest i j c h e = let same : i ≡ j = omega arith in rw same
  scan_plain (b ∷ bs) rest i j c h e =
      scan_step b (bs ++ rest) i (in_token c)
      ∙ rw (on_byte_plain b (next_is_quote (bs ++ rest)) i (in_token c) h.0)
          (scan_plain bs rest (suc i) j c h.1 (omega arith))

  -- A quote that is written twice.
  scan_escaped :
      (rest : Text) (i : ℕ) (c : Cursor)
      → scan tag (39 ∷ 39 ∷ rest) i (in_text c) ≡ scan tag rest (suc (suc i)) (in_text c)
  unfolding scan on_byte on_quote
  scan_escaped rest i c = refl

  -- A quoted text, up to its closing quote.
  pub scan-escape :
      (q rest : Text) (i j : ℕ) (c : Cursor)
      → i + length (escape q) ≡ j
      → scan tag (escape q ++ rest) i (in_text c) ≡ scan tag rest j (in_text c)
  unfolding escape
  scan-escape [] rest i j c e = let same : i ≡ j = omega arith in rw same
  scan-escape (b ∷ bs) rest i j c e = elim (Bool-cases (b == 39)) [
    | inl quote ↦
        let e' : i + length (39 ∷ 39 ∷ escape bs) ≡ j = rw quote at e in
        rw (quote, escape)
          (scan_escaped (escape bs ++ rest) i c
            ∙ scan-escape bs rest (suc (suc i)) j c (omega arith))
    | inr other ↦
        let e' : i + length (b ∷ escape bs) ≡ j = rw other at e in
        rw (other, escape)
          (scan_step b (escape bs ++ rest) i (in_text c)
            ∙ rw (on_byte-in_text b (next_is_quote (escape bs ++ rest)) i c other)
                (scan-escape bs rest (suc i) j c (omega arith)))
  ]
