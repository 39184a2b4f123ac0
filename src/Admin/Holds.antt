-- ===== src/Admin/Holds.antt =====
-- app/services/dashboard.py and app/repositories/stats.py: what the lists that a tenant is shown name
-- is in the tables under this tenant.
use flyrank_capstone_widgetp.Base.{
  ℕ, String, Bool, true, ◌&&◌, ◌≡◌, refl, Option, some, List, [], ◌∷◌, arith, any, map, select,
  find, ◌==◌, str_eq, eq_refl, All, Bool-cases, inl, inr,
}
use flyrank_capstone_widgetp.Json.{ℤ}
use flyrank_capstone_widgetp.Schema.{Widget, Submission}
use flyrank_capstone_widgetp.Database.{Database}
use flyrank_capstone_widgetp.Widgets.{is_owned}
use flyrank_capstone_widgetp.Dashboard.{passes, public_row, list_rows, list_submissions, PublicRow}
use flyrank_capstone_widgetp.Dashboard.Pages.{All-by_newest, All-take_rows, All-drop_rows}
use flyrank_capstone_widgetp.Stats.{
  WidgetTotal, widget_total, ranks_before, insert_widget_total, rank_widgets, by_widget,
}

-- The tables have a widget of the tenant with this id, or a submission.
abbrev pub HasWidget : ℕ → Database → String → Type 0
HasWidget tenant db id = any (λ w. str_eq w.id id && w.tenant_id == tenant) db.widgets ≡ true

abbrev pub HasSubmission : ℕ → Database → ℕ → Type 0
HasSubmission tenant db id = any (λ s. s.id == id && s.tenant_id == tenant) db.submissions ≡ true

pub owned_there :
    (id : String) (tenant : ℕ) (ws : List Widget) (w : Widget)
    → find (is_owned id tenant) ws ≡ some w
    → any (λ w. str_eq w.id id && w.tenant_id == tenant) ws ≡ true
owned_there id tenant [] w h = cc
owned_there id tenant (v ∷ ws) w h = elim (Bool-cases (is_owned id tenant v)) [
  | inl o ↦ rw o refl
  | inr o ↦ rw o (owned_there id tenant ws w (rw o at h))
]

-- What is selected is found among the rows by its own key.
module _ {ℓ κ} {A : Type ℓ} (p : A → Bool) (q : A → A → Bool)
    (by_key : (r : A) → p r ≡ true → q r r ≡ true) where
  selected_there :
      (rows : List A) (P : A → Type κ)
      → ((r : A) → any (q r) rows ≡ true → P r)
      → All P (select p rows)
  selected_there [] P h = tt
  selected_there (r ∷ rows) P h = elim (Bool-cases (p r)) [
    | inl e ↦
        rw e (
          h r (rw (by_key r e) refl),
          selected_there rows P (λ x there. h x (ground (arith, there))),
        )
    | inr e ↦ rw e (selected_there rows P (λ x there. h x (ground (arith, there))))
  ]

module _ {κ} (P : WidgetTotal → Type κ) where
  All-insert_widget_total :
      (t : WidgetTotal) (us : List WidgetTotal) → P t → All P us → All P (insert_widget_total t us)
  All-insert_widget_total t [] p h = (p, tt)
  All-insert_widget_total t (u ∷ us) p h =
      elim (Bool-cases (ranks_before t.total t.title u.total u.title)) [
        | inl e ↦ rw e (p, h)
        | inr e ↦ rw e (h.0, All-insert_widget_total t us p h.1)
      ]

  All-rank_widgets : (ts : List WidgetTotal) → All P ts → All P (rank_widgets ts)
  All-rank_widgets [] h = tt
  All-rank_widgets (t ∷ ts) h = All-insert_widget_total t _ h.0 (All-rank_widgets ts h.1)

  All-widget_total :
      (db : Database) (ws : List Widget)
      → All (λ w. P (widget_total db w)) ws
      → All P (map (widget_total db) ws)
  All-widget_total db [] h = tt
  All-widget_total db (w ∷ ws) h = (h.0, All-widget_total db ws h.1)

pub totals_there :
    (tenant : ℕ) (db : Database) → All (λ t. HasWidget tenant db t.widget_id) (by_widget tenant db)
unfolding by_widget
totals_there tenant db =
    let P : WidgetTotal → Type 0 = λ t. HasWidget tenant db t.widget_id in
    All-rank_widgets P _ (
      All-widget_total P db _ (
        selected_there (λ w. w.tenant_id == tenant)
          (λ w v. str_eq v.id w.id && v.tenant_id == tenant) (λ w own. rw (own, eq_refl w.id) refl)
          db.widgets _ (λ w there. there)))

All-public_row {κ} :
    (P : PublicRow → Type κ) (rows : List Submission)
    → All (λ r. P (public_row r)) rows
    → All P (map public_row rows)
All-public_row P [] h = tt
All-public_row P (r ∷ rows) h = (h.0, All-public_row P rows h.1)

pub page_there :
    (tenant : ℕ) (widget : Option String) (limit offset : ℤ) (spam : Bool) (db later : Database)
    → All
        (λ item. HasSubmission tenant db item.id)
        (list_submissions tenant widget limit offset spam db later).items
unfolding list_submissions list_rows
page_there tenant widget limit offset spam db later =
    let P : Submission → Type 0 = λ r. HasSubmission tenant db r.id in
    All-public_row (λ item. HasSubmission tenant db item.id) _
      (All-take_rows P _ _ (
        All-drop_rows P _ _ (
          All-by_newest P _ (
            selected_there (passes tenant widget spam)
              (λ r s. s.id == r.id && s.tenant_id == tenant) (λ r own. ground (arith, own))
              db.submissions P (λ r there. there)))))
