-- ===== src/Dashboard/Counts.antt =====
-- app/services/dashboard.py: the headline counts.
use flyrank_capstone_widgetp.Base.{
  ℕ, ◌+◌, ◌*◌, ◌/◌, ◌%◌, ◌≤◌, ◌<◌, Bool, true, not, ◌&&◌, ◌≡◌, refl, List, [], ◌∷◌, arith, count,
  ltb, ◌==◌, Bool-cases, inl, inr, ◌⊎◌, str_eq,
}
use native.Mathlib.Nat.{le-div_iff_mul-le, div-add-mod', mul-div_cancel_left}
use flyrank_capstone_widgetp.Schema.{Submission}
use flyrank_capstone_widgetp.Database.{Database}
use flyrank_capstone_widgetp.Dashboard.{percent, round_ratio, overview, is_since}

module _ (p q : Submission → Bool) where
  count_le :
      (rows : List Submission)
      → ((r : Submission) → p r ≡ true → q r ≡ true)
      → count p rows ≤ count q rows
  count_le [] h = omega arith
  count_le (r ∷ rows) h = elim (Bool-cases (p r)) [
    | inl e ↦ rw (e, h r e) (omega (arith, count_le rows h))
    | inr e ↦ ground (arith, e, count_le rows h)
  ]

count_split :
    (tenant : ℕ) (rows : List Submission)
    → count (λ r. r.tenant_id == tenant && not r.is_spam) rows
        + count (λ r. r.tenant_id == tenant && r.is_spam) rows
      ≡ count (λ r. r.tenant_id == tenant) rows
count_split tenant [] = refl
count_split tenant (r ∷ rows) = ground (arith, count_split tenant rows)

quotient_cases : (q : ℕ) → (q ≤ 99) ⊎ (100 ≤ q)
quotient_cases q = elim (Bool-cases (ltb q 100)) [
  | inl e ↦ inl (ground arith)
  | inr e ↦ inr (ground arith)
]

-- A ratio of at least a hundred to one leaves nothing over.
full_ratio : (e t : ℕ) → e ≤ t → 0 < t → 100 ≤ e * 100 / t → (e * 100 / t ≡ 100) × (e * 100 % t ≡ 0)
full_ratio e t h p q =
    let at_least : 100 * t ≤ e * 100 = (le-div_iff_mul-le p).0 q in
    let same : e ≡ t = omega arith in
    let one : e * 100 / t ≡ 100 = rw same (mul-div_cancel_left 100 p) in
    let whole = div-add-mod' (e * 100) t in (one, omega (arith, rw one at whole))

round_ratio-le : (e t : ℕ) → e ≤ t → 0 < t → round_ratio (e * 100) t ≤ 100
round_ratio-le e t h p = elim (quotient_cases (e * 100 / t)) [
  | inl q ↦ ground arith
  | inr q ↦ let f = full_ratio e t h p q in ground (arith, f.0, f.1)
]

pub percent_le : (e t : ℕ) → e ≤ t → percent e t ≤ 100
percent_le e t h = elim (Bool-cases (t == 0)) [
  | inl z ↦ rw z (omega arith)
  | inr z ↦ rw z (round_ratio-le e t h (ground arith))
]

-- The headline counts: what the last day brought is part of what the last week brought, that is part
-- of the total, and the located leads are part of it too; the percentage is at most 100; and the total
-- and the spam make up all rows of the tenant.
pub overview_adds_up :
    (now tenant : ℕ) (db : Database)
    → let o = overview now tenant db in
      (o.last_24_hours ≤ o.last_7_days)
      × (o.last_7_days ≤ o.total)
      × (o.enriched ≤ o.total)
      × (o.enriched_percent ≤ 100)
      × (o.total + o.spam_blocked ≡ count (λ r. r.tenant_id == tenant) db.submissions)
unfolding overview
overview_adds_up now tenant db =
    let enriched_part =
      count_le (λ r. r.tenant_id == tenant && (not r.is_spam && str_eq r.location.geo_status "ok"))
        (λ r. r.tenant_id == tenant && not r.is_spam) db.submissions (λ r h. ground arith) in
    (
      count_le (λ r. r.tenant_id == tenant && (not r.is_spam && is_since now 86400 r))
          (λ r. r.tenant_id == tenant && (not r.is_spam && is_since now 604800 r)) db.submissions
          (λ r h. ground arith),
      count_le (λ r. r.tenant_id == tenant && (not r.is_spam && is_since now 604800 r))
          (λ r. r.tenant_id == tenant && not r.is_spam) db.submissions (λ r h. ground arith),
      enriched_part,
      percent_le _ _ enriched_part,
      count_split tenant db.submissions,
    )
