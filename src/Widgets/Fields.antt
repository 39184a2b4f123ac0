-- ===== src/Widgets/Fields.antt =====
-- app/services/widgets.py: `check_fields` against a description of a usable list of fields.
use flyrank_capstone_widgetp.Base.{
  ◌≤◌, String, Bool, true, false, ◌≡◌, ◌≢◌, refl, ◌↔◌, List, [], ◌∷◌, arith, select, find, any,
  count, ltb, All, Option, none, some, str_eq, eq_iff, eq_refl, Bool-cases, inl, inr,
}
use flyrank_capstone_widgetp.Config.{Config}
use flyrank_capstone_widgetp.Http.{ok, >>=-eq-ok}
use flyrank_capstone_widgetp.Schema.{Field}
use flyrank_capstone_widgetp.Widgets.{
  duplicates, check_unique, check_reserved, check_selects, is_bare_select, names_of, check_fields,
}

-- No name comes again.
abbrev pub Unique : List String → Type 0
Unique [] = Unit {0}
Unique (n ∷ ns) = (any (str_eq n) ns ≡ false) × Unique ns

-- Fields that make a usable form: there is one, no two share a name, none has the honeypot's name,
-- and every select has options.
pub record IsUsable (cfg : Config) (fields : List Field) : Type 0 where
  pub some_field : fields ≢ []
  pub unique : Unique (names_of fields)
  pub free : any (str_eq cfg.honeypot_field) (names_of fields) ≡ false
  pub optioned : All (λ f. is_bare_select f ≡ false) fields

count_none : (n : String) (ns : List String) → any (str_eq n) ns ≡ false → count (str_eq n) ns ≡ 0
count_none n [] h = refl
count_none n (m ∷ ms) h = ground (arith, count_none n ms)

any_none : (n : String) (ns : List String) → count (str_eq n) ns ≡ 0 → any (str_eq n) ns ≡ false
any_none n [] h = refl
any_none n (m ∷ ms) h = ground (arith, any_none n ms)

-- Of different names none is counted twice.
count-Unique : (n : String) (ns : List String) → Unique ns → count (str_eq n) ns ≤ 1
count-Unique n [] u = omega arith
count-Unique n (m ∷ ms) u = elim (Bool-cases (str_eq n m)) [
  | inl e ↦
      let same : n ≡ m = ground (arith, eq_iff n m) in
      rw e (omega (arith, count_none n ms (rw same u.0)))
  | inr e ↦ rw e (count-Unique n ms u.1)
]

-- No name of `ns` is counted twice among `all`.
abbrev Once : List String → List String → Type 0
Once all ns = All (λ n. count (str_eq n) all ≤ 1) ns

Once-tail : (m : String) (ms ns : List String) → Once (m ∷ ms) ns → Once ms ns
Once-tail m ms [] h = tt
Once-tail m ms (n ∷ ns) h = (ground (arith, h.0), Once-tail m ms ns h.1)

Unique-Once : (ns : List String) → Once ns ns → Unique ns
Unique-Once [] h = tt
Unique-Once (n ∷ ns) h =
    (any_none n ns (ground (arith, eq_refl n, h.0)), Unique-Once ns (Once-tail n ns ns h.1))

none_selected :
    (all ns : List String) → select (λ n. ltb 1 (count (str_eq n) all)) ns ≡ [] → Once all ns
none_selected all [] h = tt
none_selected all (n ∷ ns) h = elim (Bool-cases (ltb 1 (count (str_eq n) all))) [
  | inl e ↦ cc (rw e at h)
  | inr e ↦ (ground arith, none_selected all ns (rw e at h))
]

Unique-selected :
    (all ns : List String) → Unique all → select (λ n. ltb 1 (count (str_eq n) all)) ns ≡ []
Unique-selected all [] u = refl
Unique-selected all (n ∷ ns) u = ground (arith, count-Unique n all u, Unique-selected all ns u)

find_is_none :
    (fields : List Field)
    → find is_bare_select fields ≡ none
    → All (λ f. is_bare_select f ≡ false) fields
find_is_none [] h = tt
find_is_none (f ∷ fs) h = elim (Bool-cases (is_bare_select f)) [
  | inl e ↦ cc (rw e at h)
  | inr e ↦ (e, find_is_none fs (rw e at h))
]

All-find :
    (fields : List Field)
    → All (λ f. is_bare_select f ≡ false) fields
    → find is_bare_select fields ≡ none
All-find [] h = refl
All-find (f ∷ fs) h = rw (h.0, All-find fs h.1)

check_unique-eq-ok : (ns : List String) → check_unique ns ≡ ok tt → ns ≡ []
check_unique-eq-ok [] h = refl
check_unique-eq-ok (n ∷ ns) h = cc

check_reserved-eq-ok : (b : Bool) → check_reserved b ≡ ok tt → b ≡ false
check_reserved-eq-ok true h = cc
check_reserved-eq-ok false h = refl

check_selects-eq-ok : (o : Option Field) → check_selects o ≡ ok tt → o ≡ none
check_selects-eq-ok none h = refl
check_selects-eq-ok (some f) h = cc

-- The check of a widget's fields passes exactly on the usable lists.
pub check_fields-IsUsable :
    (cfg : Config) (fields : List Field) → (check_fields cfg fields ≡ ok tt) ↔ IsUsable cfg fields
unfolding check_fields
check_fields-IsUsable cfg [] = (λ h. cc, λ u. absurd (u.some_field refl))
check_fields-IsUsable cfg (f ∷ fs) = (
  λ h.
      let names = names_of (f ∷ fs) in
      let one = >>=-eq-ok (check_unique (duplicates names)) _ h in
      let two = >>=-eq-ok (check_reserved (any (str_eq cfg.honeypot_field) names)) _ one.2 in
      record {
        some_field = λ e. cc;
        unique = Unique-Once names (none_selected names names (check_unique-eq-ok _ one.1));
        free = check_reserved-eq-ok _ two.1;
        optioned = find_is_none (f ∷ fs) (check_selects-eq-ok _ two.2);
      },
  λ u.
      let names = names_of (f ∷ fs) in
      rw (Unique-selected names names u.unique, u.free, All-find (f ∷ fs) u.optioned),
)
