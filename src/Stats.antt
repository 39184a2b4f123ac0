-- ===== src/Stats.antt =====
-- app/repositories/stats.py: the totals per widget, per country and per day. Days are counted in the
-- database's time zone, which is taken to be UTC; `now` is its clock, at least ninety days after 1970.
pub mod Series
pub mod Countries
mod Tests
use Prim.Native.Nat.{Ordering}
use Prim.Native.String.{compare}
use flyrank_capstone_widgetp.Base.{
  ℕ, zero, suc, ◌+◌, ◌-◌, ◌/◌, min, max, String, Bool, true, false, not, ◌&&◌, ◌||◌, List, [], ◌∷◌,
  map, select, count, take, ltb, ◌==◌, str_eq, if◌then◌else◌,
}
use flyrank_capstone_widgetp.Json.{Json, null, str, ℤ, pos, negsuc}
use flyrank_capstone_widgetp.Schema.{Widget, Submission}
use flyrank_capstone_widgetp.Database.{Database}

abbrev pub text_le : String → String → Bool
text_le s t = elim (compare s t) [ Ordering.gt ↦ false | _ ↦ true ]

-- `ORDER BY total DESC, name`
abbrev pub ranks_before : ℕ → String → ℕ → String → Bool
ranks_before total name other_total other_name =
    ltb other_total total || (total == other_total && text_le name other_name)

pub record WidgetTotal : Type 0 where
  pub widget_id : String
  pub title : String
  pub kind : String
  pub active : Bool
  pub total : ℕ
  pub spam : ℕ

-- One row of the LEFT JOIN, grouped.
abbrev pub widget_total : Database → Widget → WidgetTotal
widget_total db w = record {
  widget_id = w.id;
  title = w.title;
  kind = w.kind;
  active = w.active;
  total = count (λ s. str_eq s.widget_id w.id && not s.is_spam) db.submissions;
  spam = count (λ s. str_eq s.widget_id w.id && s.is_spam) db.submissions;
}

abbrev pub insert_widget_total : WidgetTotal → List WidgetTotal → List WidgetTotal
insert_widget_total t [] = t ∷ []
insert_widget_total t (u ∷ us) =
    let rest = insert_widget_total t us in
    if ranks_before t.total t.title u.total u.title then t ∷ u ∷ us else u ∷ rest

abbrev pub rank_widgets : List WidgetTotal → List WidgetTotal
rank_widgets [] = []
rank_widgets (t ∷ ts) = insert_widget_total t (rank_widgets ts)

-- `by_widget`, without the newest instant, which is passed on
unfoldable pub by_widget : ℕ → Database → List WidgetTotal
by_widget tenant_id db =
    rank_widgets (map (widget_total db) (select (λ w. w.tenant_id == tenant_id) db.widgets))

pub record CountryTotal : Type 0 where
  pub country : Json
  pub country_code : Json
  pub total : ℕ

-- Two values of a column of text that GROUP BY takes for the same.
abbrev pub same_text : Json → Json → Bool
same_text null null = true
same_text (str s) (str t) = str_eq s t
same_text _ _ = false

-- The groups, with one row more.
abbrev pub add_to_group : Json → Json → List CountryTotal → List CountryTotal
add_to_group country code [] = record { country = country; country_code = code; total = 1 } ∷ []
add_to_group country code (g ∷ gs) =
    let rest = add_to_group country code gs in
    if same_text g.country country && same_text g.country_code code
    then record g { total = suc g.total } ∷ gs
    else g ∷ rest

abbrev pub group_rows : List Submission → List CountryTotal
group_rows [] = []
group_rows (s ∷ rows) = add_to_group s.location.country s.location.country_code (group_rows rows)

-- `COALESCE(country, 'Unknown')`
abbrev pub country_name : Json → String
country_name (str s) = s
country_name _ = "Unknown"

abbrev pub insert_country : CountryTotal → List CountryTotal → List CountryTotal
insert_country g [] = g ∷ []
insert_country g (h ∷ hs) =
    let rest = insert_country g hs in
    if ranks_before g.total (country_name g.country) h.total (country_name h.country)
    then g ∷ h ∷ hs
    else h ∷ rest

abbrev pub rank_countries : List CountryTotal → List CountryTotal
rank_countries [] = []
rank_countries (g ∷ gs) = insert_country g (rank_countries gs)

abbrev pub is_lead_of : ℕ → Submission → Bool
is_lead_of tenant_id s = s.tenant_id == tenant_id && not s.is_spam

-- All groups in their order; `by_country` shows the first of them.
abbrev pub all_countries : ℕ → Database → List CountryTotal
all_countries tenant_id db =
    rank_countries (group_rows (select (is_lead_of tenant_id) db.submissions))

-- `by_country`
unfoldable pub by_country : ℕ → ℕ → Database → List (String × Json × ℕ)
by_country tenant_id limit db =
    map (λ g. (country_name g.country, g.country_code, g.total))
      (take limit (all_countries tenant_id db))

abbrev pub day_of : ℕ → ℕ
day_of instant = instant / 86400

-- `generate_series`: so many days from a first one on
abbrev pub days_from : ℕ → ℕ → List ℕ
days_from first zero = []
days_from first (suc n) = first ∷ days_from (suc first) n

abbrev pub total_on : ℕ → Database → ℕ → ℕ
total_on tenant_id db day =
    count (λ s. is_lead_of tenant_id s && day_of s.created_at == day) db.submissions

-- `StatsRepository.timeseries`
unfoldable pub timeseries : ℕ → ℕ → ℕ → Database → List (ℕ × ℕ)
timeseries now tenant_id days db =
    map (λ day. (day, total_on tenant_id db day)) (days_from (suc (day_of now) - days) days)

-- `max(1, min(days, 90))`
abbrev pub day_limit : ℤ → ℕ
day_limit (pos n) = max 1 (min n 90)
day_limit (negsuc n) = 1

-- `DashboardService.timeseries`
unfoldable pub series : ℕ → ℕ → ℤ → Database → List (ℕ × ℕ)
unfolding timeseries
series now tenant_id days db = timeseries now tenant_id (day_limit days) db
