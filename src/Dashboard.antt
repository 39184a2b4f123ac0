-- ===== src/Dashboard.antt =====
-- app/services/dashboard.py, and what it reads by app/repositories/submissions.py and
-- app/repositories/stats.py: the list of submissions and the headline counts. Where two rows have the
-- same instant the database may return them in either order; here the older row comes later.
pub mod Pages
pub mod Counts
mod Tests
use flyrank_capstone_widgetp.Base.{
  ℕ, ◌+◌, ◌*◌, ◌/◌, ◌%◌, min, max, String, Bool, true, false, not, ◌&&◌, ◌||◌, Option, none, some,
  List, [], ◌∷◌, map, select, take, drop, count, ltb, leb, ◌==◌, str_eq, if◌then◌else◌,
}
use flyrank_capstone_widgetp.Json.{Json, ℤ, pos, negsuc}
use flyrank_capstone_widgetp.Schema.{Submission}
use flyrank_capstone_widgetp.Database.{Database}

abbrev pub max_page_size : ℕ
max_page_size = 100

-- `if widget_id:`
abbrev pub of_widget : Option String → Submission → Bool
of_widget none row = true
of_widget (some widget_id) row = str_eq widget_id "" || str_eq row.widget_id widget_id

-- `filters`: the clauses of the WHERE.
abbrev pub passes : ℕ → Option String → Bool → Submission → Bool
passes tenant_id widget_id include_spam row =
    row.tenant_id == tenant_id && (of_widget widget_id row && (include_spam || not row.is_spam))

-- `ORDER BY created_at DESC`
abbrev pub insert_row : Submission → List Submission → List Submission
insert_row r [] = r ∷ []
insert_row r (s ∷ rows) =
    let rest = insert_row r rows in if ltb r.created_at s.created_at then s ∷ rest else r ∷ s ∷ rows

abbrev pub by_newest : List Submission → List Submission
by_newest [] = []
by_newest (r ∷ rows) = insert_row r (by_newest rows)

-- `list_for_tenant`
unfoldable pub list_rows : ℕ → Option String → ℕ → ℕ → Bool → Database → List Submission
list_rows tenant_id widget_id limit offset include_spam db =
    take limit
      (drop offset (by_newest (select (passes tenant_id widget_id include_spam) db.submissions)))

-- `count_for_tenant`
unfoldable pub count_rows : ℕ → Option String → Bool → Database → ℕ
count_rows tenant_id widget_id include_spam db =
    count (passes tenant_id widget_id include_spam) db.submissions

-- `public_row`
pub record PublicRow : Type 0 where
  pub id : ℕ
  pub widget_id : String
  pub entries : List (String × Json)
  pub country : Json
  pub country_code : Json
  pub city : Json
  pub geo_status : String
  pub is_spam : Bool
  pub created_at : ℕ

abbrev pub public_row : Submission → PublicRow
public_row row = record {
  id = row.id;
  widget_id = row.widget_id;
  entries = row.entries;
  country = row.location.country;
  country_code = row.location.country_code;
  city = row.location.city;
  geo_status = row.location.geo_status;
  is_spam = row.is_spam;
  created_at = row.created_at;
}

-- `max(1, min(limit, MAX_PAGE_SIZE))`
abbrev pub page_limit : ℤ → ℕ
page_limit (pos n) = max 1 (min n max_page_size)
page_limit (negsuc n) = 1

-- `max(0, offset)`
abbrev pub page_offset : ℤ → ℕ
page_offset (pos n) = n
page_offset (negsuc n) = 0

pub record Page : Type 0 where
  pub items : List PublicRow
  pub total : ℕ
  pub limit : ℕ
  pub offset : ℕ

-- `list_submissions`: the rows and their number are read by two statements, each on a connection of
-- its own, so that the second one may see `later` tables.
unfoldable pub list_submissions : ℕ → Option String → ℤ → ℤ → Bool → Database → Database → Page
unfolding list_rows count_rows
list_submissions tenant_id widget_id limit offset include_spam db later = record {
  items =
      map public_row
        (list_rows tenant_id widget_id (page_limit limit) (page_offset offset) include_spam db);
  total = count_rows tenant_id widget_id include_spam later;
  limit = page_limit limit;
  offset = page_offset offset;
}

-- The counts of `StatsRepository.overview`, and the percentage that the service adds.
pub record Overview : Type 0 where
  pub total : ℕ
  pub last_7_days : ℕ
  pub last_24_hours : ℕ
  pub spam_blocked : ℕ
  pub enriched : ℕ
  pub enriched_percent : ℕ

-- The rows of a tenant that a FILTER counts.
abbrev pub count_where : ℕ → (Submission → Bool) → Database → ℕ
count_where tenant_id p db = count (λ r. r.tenant_id == tenant_id && p r) db.submissions

-- `created_at >= now() - interval`
abbrev pub is_since : ℕ → ℕ → Submission → Bool
is_since now seconds r = leb now (r.created_at + seconds)

-- `round(a / b)` of Python, which rounds a half to the even number.
abbrev pub round_ratio : ℕ → ℕ → ℕ
round_ratio a b =
    let q = a / b in
    let twice = 2 * (a % b) in
    if ltb twice b then q else if ltb b twice then q + 1 else if q % 2 == 0 then q else q + 1

-- `round(enriched * 100 / total) if total else 0`
abbrev pub percent : ℕ → ℕ → ℕ
percent enriched total = if total == 0 then 0 else round_ratio (enriched * 100) total

-- `overview`
unfoldable pub overview : ℕ → ℕ → Database → Overview
overview now tenant_id db =
    let total = count_where tenant_id (λ r. not r.is_spam) db in
    let enriched =
      count_where tenant_id (λ r. not r.is_spam && str_eq r.location.geo_status "ok") db in
    record {
      total = total;
      last_7_days = count_where tenant_id (λ r. not r.is_spam && is_since now 604800 r) db;
      last_24_hours = count_where tenant_id (λ r. not r.is_spam && is_since now 86400 r) db;
      spam_blocked = count_where tenant_id (λ r. r.is_spam) db;
      enriched = enriched;
      enriched_percent = percent enriched total;
    }
