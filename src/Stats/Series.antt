-- ===== src/Stats/Series.antt =====
-- app/repositories/stats.py: the totals per day.
use flyrank_capstone_widgetp.Base.{
  ℕ, zero, suc, ◌+◌, ◌-◌, ◌≤◌, Bool, ◌&&◌, ◌≡◌, refl, ap, List, [], ◌∷◌, map, arith, count, length,
  leb, ltb, ◌==◌, Bool-cases, inl, inr,
}
use flyrank_capstone_widgetp.Json.{ℤ, pos, negsuc}
use flyrank_capstone_widgetp.Schema.{Submission}
use flyrank_capstone_widgetp.Database.{Database}
use flyrank_capstone_widgetp.Stats.{
  is_lead_of, day_of, days_from, total_on, timeseries, day_limit, series,
}

abbrev pub sum_totals : List (ℕ × ℕ) → ℕ
sum_totals [] = 0
sum_totals (e ∷ es) = e.1 + sum_totals es

length-days_from : (f : ℕ → ℕ × ℕ) (first n : ℕ) → length (map f (days_from first n)) ≡ n
length-days_from f first zero = refl
length-days_from f first (suc n) = ap suc (length-days_from f (suc first) n)

-- A lead of a tenant whose day is in a stretch of days.
abbrev pub is_within : ℕ → ℕ → ℕ → Submission → Bool
is_within tenant first n s =
    is_lead_of tenant s
    && (leb first (day_of s.created_at) && ltb (day_of s.created_at) (first + n))

count_none : (tenant first : ℕ) (rows : List Submission) → count (is_within tenant first 0) rows ≡ 0
count_none tenant first [] = refl
count_none tenant first (s ∷ rows) = ground (arith, count_none tenant first rows)

-- A stretch is its first day and the rest.
count_day :
    (tenant first n : ℕ) (rows : List Submission)
    → count (λ s. is_lead_of tenant s && day_of s.created_at == first) rows
        + count (is_within tenant (suc first) n) rows
      ≡ count (is_within tenant first (suc n)) rows
count_day tenant first n [] = refl
count_day tenant first n (s ∷ rows) = elim (Bool-cases (is_lead_of tenant s)) [
  | inl e ↦ rw e (ground (arith, count_day tenant first n rows))
  | inr e ↦ rw e (count_day tenant first n rows)
]

sum_days :
    (tenant first n : ℕ) (db : Database)
    → sum_totals (map (λ day. (day, total_on tenant db day)) (days_from first n))
      ≡ count (is_within tenant first n) db.submissions
sum_days tenant first zero db = rw (count_none tenant first db.submissions) refl
sum_days tenant first (suc n) db =
    omega (arith, sum_days tenant (suc first) n db, count_day tenant first n db.submissions)

day_limit_bounds : (days : ℤ) → (1 ≤ day_limit days) × (day_limit days ≤ 90)
day_limit_bounds (pos n) = (omega arith, omega arith)
day_limit_bounds (negsuc n) = (omega arith, omega arith)

-- The chart has one entry for each of 1 to 90 days, whatever is asked for, quiet days included, and
-- its totals add up to the tenant's leads of these days, today the last of them: no lead of the
-- stretch is missed and none is counted twice.
pub series_adds_up :
    (now tenant : ℕ) (days : ℤ) (db : Database)
    → let n = day_limit days in
      (1 ≤ n)
      × (n ≤ 90)
      × (length (series now tenant days db) ≡ n)
      × (sum_totals (series now tenant days db)
          ≡ count (is_within tenant (suc (day_of now) - n) n) db.submissions)
unfolding series timeseries
series_adds_up now tenant days db =
    let n = day_limit days in
    let first = suc (day_of now) - n in
    (
      (day_limit_bounds days).0,
      (day_limit_bounds days).1,
      length-days_from (λ day. (day, total_on tenant db day)) first n,
      sum_days tenant first n db,
    )
