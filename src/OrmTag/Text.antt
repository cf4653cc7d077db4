-- ===== src/OrmTag/Text.antt =====
-- The functions of package strings that contracts/ormtag/ uses, on texts as lists of bytes. White
-- space and letters are ASCII.
use go_fast_framework.Common.{
  ℕ, ◌+◌, ◌-◌, Bool, true, false, ◌&&◌, ◌||◌, List, [], ◌∷◌, Option, none, some, ◌==◌, leb, length,
  take, drop, if◌then◌else◌,
}

abbrev pub Text : Type 0
Text = List ℕ

-- " ", and the bytes from "\t" to "\r"
abbrev pub is_space : ℕ → Bool
is_space b = (b == 32) || (leb 9 b && leb b 13)

unfoldable pub trim_left : Text → Text
trim_left [] = []
trim_left (b ∷ bs) = let rest = trim_left bs in if is_space b then rest else b ∷ bs

abbrev pub keep_before : ℕ → Text → Text
keep_before b [] = if is_space b then [] else b ∷ []
keep_before b (t ∷ ts) = b ∷ t ∷ ts

unfoldable pub trim_right : Text → Text
trim_right [] = []
trim_right (b ∷ bs) = keep_before b (trim_right bs)

-- strings.TrimSpace
unfoldable pub trim_space : Text → Text
unfolding trim_left trim_right
trim_space s = trim_right (trim_left s)

abbrev pub upper_byte : ℕ → ℕ
upper_byte b = if leb 97 b && leb b 122 then b - 32 else b

abbrev pub lower_byte : ℕ → ℕ
lower_byte b = if leb 65 b && leb b 90 then b + 32 else b

-- strings.ToUpper and strings.ToLower
unfoldable pub to_upper : Text → Text
to_upper [] = []
to_upper (b ∷ bs) = upper_byte b ∷ to_upper bs

unfoldable pub to_lower : Text → Text
to_lower [] = []
to_lower (b ∷ bs) = lower_byte b ∷ to_lower bs

-- s == t
unfoldable pub text_eq : Text → Text → Bool
text_eq [] [] = true
text_eq [] (c ∷ cs) = false
text_eq (b ∷ bs) [] = false
text_eq (b ∷ bs) (c ∷ cs) = (b == c) && text_eq bs cs

-- s[a:b]; none is the panic for bounds out of range
unfoldable pub slice : Text → ℕ → ℕ → Option Text
slice s a b = if leb a b && leb b (length s) then some (take (b - a) (drop a s)) else none
