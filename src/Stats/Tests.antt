-- ===== src/Stats/Tests.antt =====
-- app/repositories/stats.py: the theorems at tables that meet their hypotheses.
use flyrank_capstone_widgetp.Base.{◌≤◌, ◌-◌, suc, ◌≡◌, length, count}
use flyrank_capstone_widgetp.Json.{pos}
use flyrank_capstone_widgetp.Samples.{tables_with_lead}
use flyrank_capstone_widgetp.Stats.{day_of, series}
use flyrank_capstone_widgetp.Stats.Series.{sum_totals, is_within, series_adds_up}

series_adds_up_example :
    (1 ≤ 30)
    × (30 ≤ 90)
    × (length (series 8640000 1 (pos 30) tables_with_lead) ≡ 30)
    × (sum_totals (series 8640000 1 (pos 30) tables_with_lead)
        ≡ count (is_within 1 (suc (day_of 8640000) - 30) 30) tables_with_lead.submissions)
series_adds_up_example = series_adds_up 8640000 1 (pos 30) tables_with_lead
