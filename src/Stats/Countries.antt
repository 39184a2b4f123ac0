-- ===== src/Stats/Countries.antt =====
-- app/repositories/stats.py: the totals per country.
use flyrank_capstone_widgetp.Base.{
  ℕ, suc, ◌+◌, ◌≤◌, String, ◌&&◌, ◌≡◌, refl, ◌∙◌, List, [], ◌∷◌, map, arith, select, take, length,
  length-select, Bool-cases, inl, inr, zero,
}
use flyrank_capstone_widgetp.Json.{Json}
use flyrank_capstone_widgetp.Schema.{Submission}
use flyrank_capstone_widgetp.Database.{Database}
use flyrank_capstone_widgetp.Dashboard.{overview}
use flyrank_capstone_widgetp.Stats.{
  CountryTotal, same_text, add_to_group, group_rows, country_name, insert_country, rank_countries,
  ranks_before, is_lead_of, all_countries, by_country,
}

abbrev pub sum_groups : List CountryTotal → ℕ
sum_groups [] = 0
sum_groups (g ∷ gs) = g.total + sum_groups gs

abbrev pub sum_shown : List (String × Json × ℕ) → ℕ
sum_shown [] = 0
sum_shown (e ∷ es) = e.2 + sum_shown es

sum_add :
    (country code : Json) (gs : List CountryTotal)
    → sum_groups (add_to_group country code gs) ≡ suc (sum_groups gs)
sum_add country code [] = refl
sum_add country code (g ∷ gs) =
    elim (Bool-cases (same_text g.country country && same_text g.country_code code)) [
      | inl e ↦ rw e (omega arith)
      | inr e ↦ rw e (omega (arith, sum_add country code gs))
    ]

sum_group_rows : (rows : List Submission) → sum_groups (group_rows rows) ≡ length rows
sum_group_rows [] = refl
sum_group_rows (s ∷ rows) = omega (
  arith,
  sum_add s.location.country s.location.country_code (group_rows rows),
  sum_group_rows rows,
)

sum_insert :
    (g : CountryTotal) (gs : List CountryTotal)
    → sum_groups (insert_country g gs) ≡ g.total + sum_groups gs
sum_insert g [] = refl
sum_insert g (h ∷ hs) =
    elim (Bool-cases
      (ranks_before g.total (country_name g.country) h.total (country_name h.country))) [
        | inl e ↦ rw e refl
        | inr e ↦ rw e (omega (arith, sum_insert g hs))
      ]

sum_rank : (gs : List CountryTotal) → sum_groups (rank_countries gs) ≡ sum_groups gs
sum_rank [] = refl
sum_rank (g ∷ gs) = omega (arith, sum_insert g (rank_countries gs), sum_rank gs)

length-insert_country :
    (g : CountryTotal) (gs : List CountryTotal) → length (insert_country g gs) ≡ suc (length gs)
length-insert_country g [] = refl
length-insert_country g (h ∷ hs) = ground (arith, length-insert_country g hs)

sum_take_le :
    (n : ℕ) (gs : List CountryTotal)
    → sum_shown (map (λ g. (country_name g.country, g.country_code, g.total)) (take n gs))
      ≤ sum_groups gs
sum_take_le zero gs = omega arith
sum_take_le (suc n) [] = omega arith
sum_take_le (suc n) (g ∷ gs) = omega (arith, sum_take_le n gs)

sum_take_all :
    (n : ℕ) (gs : List CountryTotal)
    → length gs ≤ n
    → sum_shown (map (λ g. (country_name g.country, g.country_code, g.total)) (take n gs))
      ≡ sum_groups gs
sum_take_all zero [] h = refl
sum_take_all zero (g ∷ gs) h = absurd (omega arith)
sum_take_all (suc n) [] h = refl
sum_take_all (suc n) (g ∷ gs) h = omega (arith, sum_take_all n gs (omega arith))

sum_all_countries :
    (now tenant : ℕ) (db : Database)
    → sum_groups (all_countries tenant db) ≡ (overview now tenant db).total
unfolding overview
sum_all_countries now tenant db =
    let leads = select (is_lead_of tenant) db.submissions in
    sum_rank (group_rows leads)
    ∙ (sum_group_rows leads ∙ length-select (is_lead_of tenant) db.submissions)

-- The countries that are shown never count more leads than the headline total.
pub by_country_adds_up :
    (now tenant limit : ℕ) (db : Database)
    → sum_shown (by_country tenant limit db) ≤ (overview now tenant db).total
unfolding by_country
by_country_adds_up now tenant limit db =
    omega (arith, sum_take_le limit (all_countries tenant db), sum_all_countries now tenant db)

-- The countries that are shown count exactly the leads of the headline total, where all of them are
-- shown: where there are at most as many as the limit.
pub by_country_complete :
    (now tenant limit : ℕ) (db : Database)
    → length (all_countries tenant db) ≤ limit
    → sum_shown (by_country tenant limit db) ≡ (overview now tenant db).total
unfolding by_country
by_country_complete now tenant limit db h =
    sum_take_all limit (all_countries tenant db) h ∙ sum_all_countries now tenant db
