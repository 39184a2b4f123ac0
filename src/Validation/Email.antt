-- ===== src/Validation/Email.antt =====
-- app/services/validation.py: `EMAIL_PATTERN`.
pub mod Shape
use flyrank_capstone_widgetp.Base.{
  ℕ, Bool, true, false, not, ◌&&◌, ◌||◌, List, [], ◌∷◌, ◌==◌, if◌then◌else◌,
}
use flyrank_capstone_widgetp.Text.{is_space}

-- `[^@\s]`
abbrev pub is_plain : ℕ → Bool
is_plain c = not (c == b'@') && not (is_space c)

-- `[^@\s]{n,}$` after `n` characters are read; `$` also stands before a newline that ends the text.
unfoldable pub match_end : List ℕ → Bool
match_end [] = true
match_end (c ∷ []) = is_plain c || c == 10
match_end (c ∷ cs) = is_plain c && match_end cs

unfoldable pub match_tld : List ℕ → Bool
unfolding match_end
match_tld (c ∷ d ∷ cs) = is_plain c && is_plain d && match_end cs
match_tld _ = false

-- `[^@\s.]*\.`: the first dot ends the domain.
unfoldable pub match_domain : List ℕ → Bool
unfolding match_tld
match_domain [] = false
match_domain (c ∷ cs) =
    let rest = match_domain cs in if c == b'.' then match_tld cs else is_plain c && rest

unfoldable pub match_domain_start : List ℕ → Bool
unfolding match_domain
match_domain_start [] = false
match_domain_start (c ∷ cs) = is_plain c && not (c == b'.') && match_domain cs

-- `[^@\s]*@`: the first at sign ends the local part.
unfoldable pub match_local : List ℕ → Bool
unfolding match_domain_start
match_local [] = false
match_local (c ∷ cs) =
    let rest = match_local cs in if c == b'@' then match_domain_start cs else is_plain c && rest

-- `EMAIL_PATTERN.match(text)`
unfoldable pub is_email : List ℕ → Bool
unfolding match_local
is_email [] = false
is_email (c ∷ cs) = is_plain c && match_local cs
