-- ===== src/Text.antt =====
-- What the program uses of Python's `str`: blanks, `strip`, `lower`, lengths and decimal numerals.
-- A text is the native `String`, a sequence of characters that are read by their code points.
pub mod Strip
use Prim.Native.Char.{Char, code}
use Prim.Native.Nat.{Ordering}
use Prim.Native.String.{compare}
use flyrank_capstone_widgetp.Base.{
  ℕ, zero, suc, ◌+◌, ◌-◌, ◌*◌, ◌/◌, ◌%◌, String, Bool, true, false, ◌&&◌, ◌||◌, List, [], ◌∷◌, ltb,
  leb, ◌==◌, str_eq, length, any, if◌then◌else◌,
}

abbrev pub codes : String → List ℕ
codes String.[] = []
codes (String.◌∷◌ c s) = code c ∷ codes s

-- `str.isspace` of one character, which is also `\s` of a regular expression.
unfoldable pub is_space : ℕ → Bool
is_space c =
    (leb 9 c && leb c 13)
    || (leb 28 c && leb c 32)
    || c == 133
    || c == 160
    || c == 5760
    || (leb 8192 c && leb c 8202)
    || c == 8232
    || c == 8233
    || c == 8239
    || c == 8287
    || c == 12288

unfoldable pub lstrip : String → String
lstrip String.[] = String.[]
lstrip (String.◌∷◌ c s) = let rest = lstrip s in if is_space (code c) then rest else String.◌∷◌ c s

-- A blank character that nothing follows is dropped.
unfoldable pub put_char : Char → String → String
put_char c rest = if is_space (code c) && str_eq rest "" then String.[] else String.◌∷◌ c rest

unfoldable pub rstrip : String → String
unfolding put_char
rstrip String.[] = String.[]
rstrip (String.◌∷◌ c s) = put_char c (rstrip s)

-- `s.strip()`
unfoldable pub strip : String → String
unfolding lstrip rstrip
strip s = rstrip (lstrip s)

-- `not s.strip()`
abbrev pub is_blank : String → Bool
is_blank s = str_eq (strip s) ""

-- `s.lower()` on the letters that the program's own words are made of.
abbrev pub lower_code : ℕ → ℕ
lower_code c = if leb b'A' c && leb c b'Z' then c + 32 else c

abbrev pub lower : List ℕ → List ℕ
lower [] = []
lower (c ∷ cs) = lower_code c ∷ lower cs

abbrev pub same_codes : List ℕ → List ℕ → Bool
same_codes [] [] = true
same_codes (c ∷ cs) (d ∷ ds) = c == d && same_codes cs ds
same_codes _ _ = false

-- `text in words`
abbrev pub is_word : List ℕ → List String → Bool
is_word cs words = any (λ w. same_codes cs (codes w)) words

-- `len(s)`
abbrev pub text_length : String → ℕ
text_length s = length (codes s)

-- `sorted(names)[0]`
abbrev pub least : String → List String → String
least s [] = s
least s (t ∷ ts) = elim (compare t s) [ Ordering.lt ↦ least t ts | _ ↦ least s ts ]
