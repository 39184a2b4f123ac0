-- ===== src/Dashboard/Tests.antt =====
-- app/services/dashboard.py: the theorems at tables that meet their hypotheses.
use flyrank_capstone_widgetp.Base.{◌+◌, ◌-◌, ◌≤◌, min, false, ◌≡◌, none, All, length, count, ◌==◌}
use flyrank_capstone_widgetp.Json.{pos, negsuc}
use flyrank_capstone_widgetp.Samples.{tables_with_lead, shared_tables}
use flyrank_capstone_widgetp.Dashboard.{passes, list_submissions, list_rows, overview}
use flyrank_capstone_widgetp.Dashboard.Pages.{
  list_submissions_counts, IsVisible, list_rows-IsVisible,
}
use flyrank_capstone_widgetp.Dashboard.Counts.{overview_adds_up}

-- The lead is read, and its widget is deleted before the rows are counted.
list_submissions_counts_example :
    let page = list_submissions 1 none (pos 500) (negsuc 2) false tables_with_lead shared_tables in
    (1 ≤ page.limit)
    × (page.limit ≤ 100)
    × (length page.items
        ≡ min page.limit (count (passes 1 none false) tables_with_lead.submissions - page.offset))
    × (page.total ≡ count (passes 1 none false) shared_tables.submissions)
list_submissions_counts_example =
    list_submissions_counts 1 none (pos 500) (negsuc 2) false tables_with_lead shared_tables

list_rows-IsVisible_example : All (IsVisible 1 false) (list_rows 1 none 5 0 false tables_with_lead)
list_rows-IsVisible_example = list_rows-IsVisible 1 5 0 none false tables_with_lead

overview_adds_up_example :
    let o = overview 90000 1 tables_with_lead in
    (o.last_24_hours ≤ o.last_7_days)
    × (o.last_7_days ≤ o.total)
    × (o.enriched ≤ o.total)
    × (o.enriched_percent ≤ 100)
    × (o.total + o.spam_blocked ≡ count (λ r. r.tenant_id == 1) tables_with_lead.submissions)
overview_adds_up_example = overview_adds_up 90000 1 tables_with_lead
