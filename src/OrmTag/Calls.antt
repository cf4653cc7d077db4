-- ===== src/OrmTag/Calls.antt =====
-- The loop of splitTag over a token with parameters.
use go_fast_framework.Common.{
  ℕ, suc, ◌+◌, ◌≡◌, refl, ap, ◌∙◌, true, false, List, [], ◌∷◌, ◌++◌, some, length, arith,
  append_assoc, length-append,
}
use go_fast_framework.OrmTag.Text.{Text, slice}
use go_fast_framework.OrmTag.Split.{
  RawToken, Cursor, append_child, flush, on_space, on_comma, on_open, on_close, on_byte, scan,
  finish,
}
use go_fast_framework.OrmTag.Printed.{
  AllPlain, AllPlainTexts, call, print_params, print_token, trim_space_plain, slice_append,
}
use go_fast_framework.OrmTag.Scanning.{scan_step, scan_plain}
use go_fast_framework.OrmTag.RoundTrip.{fresh, Scanned, scan_word}

-- The cursor in the parameters of a token from i on, whose name ends at n, and after them.
abbrev in_call : List RawToken → ℕ → ℕ → List Text → ℕ → Cursor
in_call acc i n done ps = record (fresh acc i ps) {
  params = done;
  in_paren = true;
  seen_paren = true;
  name_end = some n;
  have_name = true;
}

abbrev after_call : List RawToken → ℕ → ℕ → List Text → ℕ → Cursor
after_call acc i n done ps = record (in_call acc i n done ps) { in_paren = false }

-- Where the last parameter starts.
abbrev last_start : ℕ → Text → List Text → ℕ
last_start k p [] = k
last_start k p (q ∷ qs) = last_start (k + length p + 1) q qs

module _ (tag : Text) (acc : List RawToken) (i n : ℕ) where
  scan_comma :
      (p rest : Text) (k m : ℕ) (done : List Text)
      → AllPlain p
      → slice tag k m ≡ some p
      → scan tag (44 ∷ rest) m (in_call acc i n done k)
        ≡ scan tag rest (suc m) (in_call acc i n (done ++ p ∷ []) (m + 1))
  unfolding on_byte on_comma append_child
  scan_comma p rest k m done h e =
      scan_step tag 44 rest m (in_call acc i n done k)
      ∙ rw (on_byte, on_comma, e, append_child, trim_space_plain p h)

  scan_close :
      (p rest : Text) (k m : ℕ) (done : List Text)
      → AllPlain p
      → slice tag k m ≡ some p
      → scan tag (41 ∷ rest) m (in_call acc i n done k)
        ≡ scan tag rest (suc m) (after_call acc i n (done ++ p ∷ []) k)
  unfolding on_byte on_close append_child
  scan_close p rest k m done h e =
      scan_step tag 41 rest m (in_call acc i n done k)
      ∙ rw (on_byte, on_close, e, append_child, trim_space_plain p h)

  scan-print_params :
      (p : Text) (qs : List Text) (pre rest : Text) (k j : ℕ) (done : List Text)
      → AllPlainTexts (p ∷ qs)
      → tag ≡ pre ++ (print_params p qs ++ rest)
      → k ≡ length pre
      → j ≡ k + length (print_params p qs)
      → scan tag (print_params p qs ++ rest) k (in_call acc i n done k)
        ≡ scan tag rest j (after_call acc i n (done ++ p ∷ qs) (last_start k p qs))
  unfolding print_params
  scan-print_params p [] pre rest k j done h e ek ej =
      let e' : tag ≡ pre ++ (p ++ (41 ∷ rest)) = e ∙ rw (append_assoc p (41 ∷ []) rest) in
      let here = slice_append pre p (41 ∷ rest) tag e' k (k + length p) ek (omega arith) in
      let last : suc (k + length p) ≡ j = omega (arith, length-append {0} p (41 ∷ [])) in
      rw (append_assoc p (41 ∷ []) rest) (
        scan_plain tag p (41 ∷ rest) k (k + length p) (in_call acc i n done k) h.0 refl
        ∙ scan_close p rest k (k + length p) done h.0 here
        ∙ rw last)
  scan-print_params p (q ∷ qs) pre rest k j done h e ek ej =
      let more = print_params q qs in
      let e' : tag ≡ pre ++ (p ++ (44 ∷ (more ++ rest))) =
        e ∙ rw (append_assoc p (44 ∷ more) rest) in
      let here =
        slice_append pre p (44 ∷ (more ++ rest)) tag e' k (k + length p) ek (omega arith) in
      let m = k + length p in
      let next : suc m ≡ m + 1 = omega arith in
      let split : tag ≡ (pre ++ (p ++ 44 ∷ [])) ++ (more ++ rest) =
        e'
        ∙ rw (
          append_assoc pre (p ++ 44 ∷ []) (more ++ rest),
          append_assoc p (44 ∷ []) (more ++ rest),
        ) in
      let rest_scanned =
        scan-print_params q qs (pre ++ (p ++ 44 ∷ [])) rest (m + 1) j (done ++ p ∷ []) h.1 split
          (omega (arith, length-append {0} pre (p ++ 44 ∷ []), length-append {0} p (44 ∷ [])))
          (omega (arith, length-append {0} p (44 ∷ more))) in
      rw (append_assoc p (44 ∷ more) rest) (
        scan_plain tag p (44 ∷ (more ++ rest)) k m (in_call acc i n done k) h.0 refl
        ∙ scan_comma p (more ++ rest) k m done h.0 here
        ∙ rw next (
            rest_scanned
            ∙ ap (λ l. scan tag rest j (after_call acc i n l (last_start (m + 1) q qs)))
                (append_assoc done (p ∷ []) (q ∷ qs))))

pub call-Scanned :
    (tag : Text) (b : ℕ) (w p : Text) (ps : List Text) (pre rest : Text) (acc : List RawToken)
    (cs ps' i j : ℕ)
    → AllPlain (b ∷ w) × AllPlainTexts (p ∷ ps)
    → tag ≡ pre ++ (print_token (call b w p ps) ++ rest)
    → i ≡ length pre
    → j ≡ length pre + length (print_token (call b w p ps))
    → Scanned tag (call b w p ps) rest acc cs ps' i j
unfolding scan on_byte on_space on_open flush finish print_token
call-Scanned tag b w p ps pre rest acc cs ps' i j h e ei ej =
    let params = print_params p ps in
    let n = suc i + length w in
    let whole = slice_append pre (print_token (call b w p ps)) rest tag e i j ei ej in
    let e' : tag ≡ pre ++ ((b ∷ w) ++ (40 ∷ (params ++ rest))) =
      e ∙ rw (append_assoc (b ∷ w) (40 ∷ params) rest) in
    let name = slice_append pre (b ∷ w) (40 ∷ (params ++ rest)) tag e' i n ei (omega arith) in
    let split : tag ≡ (pre ++ ((b ∷ w) ++ 40 ∷ [])) ++ (params ++ rest) =
      e'
      ∙ rw (
        append_assoc pre ((b ∷ w) ++ 40 ∷ []) (params ++ rest),
        append_assoc (b ∷ w) (40 ∷ []) (params ++ rest),
      ) in
    let start_at : suc n ≡ n + 1 = omega arith in
    let inner =
      scan-print_params tag acc i n p ps (pre ++ ((b ∷ w) ++ 40 ∷ [])) rest (n + 1) j [] h.1 split
        (omega (arith, length-append {0} pre ((b ∷ w) ++ 40 ∷ []), length-append {0} w (40 ∷ [])))
        (omega (arith, length-append {0} w (40 ∷ params))) in
    record {
      last = after_call acc i n (p ∷ ps) (last_start (n + 1) p ps);
      last_param = last_start (n + 1) p ps;
      scanned = rw (append_assoc w (40 ∷ params) rest) (
          scan_word tag b w (40 ∷ (params ++ rest)) i n acc cs ps' h.0 refl
          ∙ scan_step tag 40 (params ++ rest) n (record (fresh acc i ps') { have_name = true })
          ∙ rw (on_byte, on_open, start_at) inner);
      spaced = λ r. rw (flush, name, whole);
      ended = λ end. rw (flush, ← end, name, whole);
    }
