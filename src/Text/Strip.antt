-- ===== src/Text/Strip.antt =====
-- Laws of `strip`.
use Prim.Native.Char.{Char, code}
use flyrank_capstone_widgetp.Base.{
  String, ◌≡◌, refl, ◌∙◌, ap, false, str_eq, Bool-cases, inl, inr, ◌&&◌,
}
use flyrank_capstone_widgetp.Text.{is_space, lstrip, rstrip, put_char, strip}

-- A text that is empty or begins with no blank.
abbrev pub NoBlankStart : String → Type 0
NoBlankStart String.[] = Unit {0}
NoBlankStart (String.◌∷◌ c s) = is_space (code c) ≡ false

lstrip-NoBlankStart : (s : String) → NoBlankStart (lstrip s)
unfolding lstrip
lstrip-NoBlankStart String.[] = tt
lstrip-NoBlankStart (String.◌∷◌ c s) = elim (Bool-cases (is_space (code c))) [
  | inl e ↦ rw e (lstrip-NoBlankStart s)
  | inr e ↦ rw e e
]

lstrip_of_NoBlankStart : (s : String) → NoBlankStart s → lstrip s ≡ s
unfolding lstrip
lstrip_of_NoBlankStart String.[] h = refl
lstrip_of_NoBlankStart (String.◌∷◌ c s) h = rw h

put_char-NoBlankStart :
    (c : Char) (s : String) → is_space (code c) ≡ false → NoBlankStart (put_char c s)
unfolding put_char
put_char-NoBlankStart c s h = rw h h

rstrip-NoBlankStart : (s : String) → NoBlankStart s → NoBlankStart (rstrip s)
unfolding rstrip
rstrip-NoBlankStart String.[] h = tt
rstrip-NoBlankStart (String.◌∷◌ c s) h = put_char-NoBlankStart c (rstrip s) h

rstrip-put_char : (c : Char) (s : String) → rstrip s ≡ s → rstrip (put_char c s) ≡ put_char c s
unfolding put_char
rstrip-put_char c s h = elim (Bool-cases (is_space (code c) && str_eq s "")) [
  | inl e ↦ rw e (unfold rstrip in refl)
  | inr e ↦ rw e (unfold rstrip put_char in rw (h, e))
]

rstrip-rstrip : (s : String) → rstrip (rstrip s) ≡ rstrip s
unfolding rstrip
rstrip-rstrip String.[] = refl
rstrip-rstrip (String.◌∷◌ c s) = rstrip-put_char c (rstrip s) (rstrip-rstrip s)

-- A stripped text is not changed by stripping it again.
pub strip-strip : (s : String) → strip (strip s) ≡ strip s
unfolding strip
strip-strip s =
    ap rstrip (
      lstrip_of_NoBlankStart (rstrip (lstrip s))
        (rstrip-NoBlankStart (lstrip s) (lstrip-NoBlankStart s)))
    ∙ rstrip-rstrip (lstrip s)
