-- ===== src/Admin/Shows.antt =====
-- app/api/widgets.py: what the answers to a tenant hold and name.
use flyrank_capstone_widgetp.Base.{ℕ, ◌≡◌, All}
use flyrank_capstone_widgetp.Config.{Config}
use flyrank_capstone_widgetp.Http.{Outcome, ok, http, crash}
use flyrank_capstone_widgetp.Database.{Database}
use flyrank_capstone_widgetp.Accounts.{Accounts}
use flyrank_capstone_widgetp.Admin.Holds.{HasWidget, HasSubmission}
use flyrank_capstone_widgetp.Admin.{
  Answer, widget, widgets, embed, nothing, page, headline, per_widget, per_country, per_day,
}

-- What an answer names is the tenant's: a widget that it holds, the widget of a snippet or of a
-- total, and the submissions of a page. The other answers hold numbers and names of countries.
abbrev pub IsOwn : ℕ → Database → Answer → Type 0
IsOwn tenant db (widget w) = w.tenant_id ≡ tenant
IsOwn tenant db (widgets ws) = All (λ w. w.tenant_id ≡ tenant) ws
IsOwn tenant db (embed snippet) = HasWidget tenant db snippet.0
IsOwn tenant db (per_widget ts) = All (λ t. HasWidget tenant db t.widget_id) ts
IsOwn tenant db (page p) = All (λ item. HasSubmission tenant db item.id) p.items
IsOwn tenant db nothing = Unit {0}
IsOwn tenant db (headline o) = Unit {0}
IsOwn tenant db (per_country cs) = Unit {0}
IsOwn tenant db (per_day ds) = Unit {0}

abbrev AnswersOwn : ℕ → Database → Outcome Answer → Type 0
AnswersOwn tenant db (ok a) = IsOwn tenant db a
AnswersOwn tenant db (http e) = Unit {0}
AnswersOwn tenant db (crash x) = Unit {0}
