-- ===== src/Validation/Email/Shape.antt =====
-- app/services/validation.py: the matcher of `EMAIL_PATTERN` against the texts that the regular
-- expression describes.
use flyrank_capstone_widgetp.Base.{
  ℕ, true, false, ◌≡◌, refl, ap, ◌⊎◌, inl, inr, ◌↔◌, List, [], ◌∷◌, ◌++◌, arith, All, Bool-cases,
  ◌==◌,
}
use flyrank_capstone_widgetp.Validation.Email.{
  is_plain, match_end, match_tld, match_domain, match_domain_start, match_local, is_email,
}

abbrev Plain : ℕ → Type 0
Plain c = is_plain c ≡ true

abbrev PlainNoDot : ℕ → Type 0
PlainNoDot c = (is_plain c ≡ true) × ((c == b'.') ≡ false)

-- The end of the text, or one newline before it.
abbrev pub IsEnd : List ℕ → Type 0
IsEnd rest = (rest ≡ []) ⊎ (rest ≡ 10 ∷ [])

-- `[^@\s]{2}$`
pub record Tld (cs : List ℕ) : Type 0 where
  pub first : ℕ
  pub second : ℕ
  pub more : List ℕ
  pub rest : List ℕ
  pub plain : Plain first × Plain second × All Plain more
  pub ends : IsEnd rest
  pub parts : cs ≡ first ∷ second ∷ (more ++ rest)

-- `[^@\s.]*\.` and a `Tld`
pub record Domain (cs : List ℕ) : Type 0 where
  pub name : List ℕ
  pub tld : List ℕ
  pub plain : All PlainNoDot name
  pub top : Tld tld
  pub parts : cs ≡ name ++ b'.' ∷ tld

-- `^[^@\s]+@[^@\s.]+\.[^@\s]{2}$`
pub record EmailShape (cs : List ℕ) : Type 0 where
  pub start : ℕ
  pub local : List ℕ
  pub host : ℕ
  pub domain : List ℕ
  pub plain : Plain start × All Plain local × PlainNoDot host
  pub rest : Domain domain
  pub parts : cs ≡ start ∷ (local ++ b'@' ∷ host ∷ domain)

-- A plain character is no at sign.
Plain-no_at : (c : ℕ) → Plain c → (c == b'@') ≡ false
Plain-no_at c h = ground arith

match_end_sound :
    (cs : List ℕ)
    → match_end cs ≡ true
    → (more : List ℕ) × (rest : List ℕ) × All Plain more × IsEnd rest × (cs ≡ more ++ rest)
unfolding match_end
match_end_sound [] h = ([], [], tt, inl refl, refl)
match_end_sound (c ∷ []) h = elim (Bool-cases (is_plain c)) [
  | inl p ↦ (c ∷ [], [], (p, tt), inl refl, refl)
  | inr p ↦ ([], c ∷ [], tt, inr (ground arith), refl)
]
match_end_sound (c ∷ d ∷ cs) h =
    let found = match_end_sound (d ∷ cs) (ground arith) in
    (c ∷ found.0, found.1, (ground arith, found.2), found.3, ap (◌∷◌ c) found.4)

match_end_complete :
    (more rest : List ℕ) → All Plain more → IsEnd rest → match_end (more ++ rest) ≡ true
unfolding match_end
match_end_complete [] rest h e = ground arith
match_end_complete (c ∷ []) rest h e = ground arith
match_end_complete (c ∷ d ∷ more) rest h e =
    ground (arith, match_end_complete (d ∷ more) rest h.1 e)

match_tld_sound : (cs : List ℕ) → match_tld cs ≡ true → Tld cs
unfolding match_tld
match_tld_sound [] h = cc
match_tld_sound (c ∷ []) h = cc
match_tld_sound (c ∷ d ∷ cs) h =
    let found = match_end_sound cs (ground arith) in
    record {
      first = c;
      second = d;
      more = found.0;
      rest = found.1;
      plain = (ground arith, ground arith, found.2);
      ends = found.3;
      parts = ap (λ t. c ∷ d ∷ t) found.4;
    }

match_tld_complete : (cs : List ℕ) → Tld cs → match_tld cs ≡ true
unfolding match_tld
match_tld_complete cs t =
    rw t.parts (ground (arith, match_end_complete t.more t.rest t.plain.2 t.ends))

match_domain_sound : (cs : List ℕ) → match_domain cs ≡ true → Domain cs
unfolding match_domain
match_domain_sound [] h = cc
match_domain_sound (c ∷ cs) h = elim (Bool-cases (c == b'.')) [
  | inl e ↦ record {
    name = [];
    tld = cs;
    plain = tt;
    top = match_tld_sound cs (ground arith);
    parts = ap (λ x. x ∷ cs) (ground arith);
  }
  | inr e ↦
      let found = match_domain_sound cs (ground arith) in
      record {
        name = c ∷ found.name;
        tld = found.tld;
        plain = ((ground arith, e), found.plain);
        top = found.top;
        parts = ap (◌∷◌ c) found.parts;
      }
]

match_domain_complete :
    (name tld : List ℕ) → All PlainNoDot name → Tld tld → match_domain (name ++ b'.' ∷ tld) ≡ true
unfolding match_domain
match_domain_complete [] tld h t = match_tld_complete tld t
match_domain_complete (c ∷ name) tld h t = rw (h.0.1, h.0.0) (match_domain_complete name tld h.1 t)

match_local_complete :
    (local : List ℕ) (host : ℕ) (domain : List ℕ)
    → All Plain local
    → PlainNoDot host
    → Domain domain
    → match_local (local ++ b'@' ∷ host ∷ domain) ≡ true
unfolding match_local match_domain_start
match_local_complete [] host domain h p d =
    rw (p.0, p.1, d.parts) (match_domain_complete d.name d.tld d.plain d.top)
match_local_complete (c ∷ local) host domain h p d =
    ground (arith, Plain-no_at c h.0, match_local_complete local host domain h.1 p d)

match_local_sound :
    (cs : List ℕ)
    → match_local cs ≡ true
    → (local : List ℕ) × (host : ℕ) × (domain : List ℕ) × All Plain local
      × PlainNoDot host
      × Domain domain
      × (cs ≡ local ++ b'@' ∷ host ∷ domain)
unfolding match_local match_domain_start
match_local_sound [] h = cc
match_local_sound (c ∷ []) h = ground arith
match_local_sound (c ∷ d ∷ cs) h = elim (Bool-cases (c == b'@')) [
  | inl e ↦ (
    [],
    d,
    cs,
    tt,
    (ground arith, ground arith),
    match_domain_sound cs (ground arith),
    ap (λ x. x ∷ d ∷ cs) (ground arith),
  )
  | inr e ↦
      let found = match_local_sound (d ∷ cs) (ground arith) in
      (c ∷ found.0, found.1, found.2, (ground arith, found.3), found.4, found.5, ap (◌∷◌ c) found.6)
]

-- The matcher accepts exactly the texts of the shape that the pattern describes: a local part, one at
-- sign, a name with no dot, a dot, and two or more characters, none of them blank or an at sign,
-- with at most a newline behind them.
pub is_email-EmailShape : (cs : List ℕ) → (is_email cs ≡ true) ↔ EmailShape cs
unfolding is_email
is_email-EmailShape [] = (λ h. cc, λ s. cc (s.parts))
is_email-EmailShape (c ∷ cs) = (
  λ h.
      let found = match_local_sound cs (ground arith) in
      record {
        start = c;
        local = found.0;
        host = found.1;
        domain = found.2;
        plain = (ground arith, found.3, found.4);
        rest = found.5;
        parts = ap (◌∷◌ c) found.6;
      },
  λ s. ground (
    arith,
    s.parts,
    s.plain.0,
    match_local_complete s.local s.host s.domain s.plain.1 s.plain.2 s.rest,
  ),
)
