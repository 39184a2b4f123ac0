-- ===== src/System/Calls.antt =====
-- app/api/widgets.py: a call of the admin API keeps the tables consistent.
use flyrank_capstone_widgetp.Base.{
  ℕ, ◌<◌, String, not, ◌≡◌, refl, Option, List, [], ◌∷◌, any, select, str_eq, Bool-cases,
  Option-cases, inl, inr,
}
use flyrank_capstone_widgetp.Config.{Config}
use flyrank_capstone_widgetp.Http.{Outcome, ok, http, crash}
use flyrank_capstone_widgetp.Schema.{Widget, Job}
use flyrank_capstone_widgetp.Database.{Database}
use flyrank_capstone_widgetp.Notifications.Batches.{Distinct-select}
use flyrank_capstone_widgetp.Notifications.Budget.{InBudget}
use flyrank_capstone_widgetp.Accounts.{Accounts, Tenant, Credentials, Digest, require_tenant}
use flyrank_capstone_widgetp.Widgets.{
  WidgetSpec, Change, is_owned, is_submission_of, insert_widget, update_widget, get_for_tenant,
  assign_all, delete_widget, check_fields, check_changes, create_widget, change_widget,
  remove_widget,
}
use flyrank_capstone_widgetp.Widgets.Tenants.{run}
use flyrank_capstone_widgetp.Admin.{AdminCall, admin}
use flyrank_capstone_widgetp.Admin.Access.{serve_writes}
use flyrank_capstone_widgetp.System.Deletes.{All-kept, Distinct-numbers, delete_widget-IsValid}
use flyrank_capstone_widgetp.System.Rows.{AreRows}

module _ (cfg : Config) (limit : ℕ) where
  AreRows-widgets :
      (db : Database) (ws : List Widget)
      → AreRows limit db
      → AreRows limit (record db { widgets = ws })
  AreRows-widgets db ws v = record {
    valid = record {
      keyed = v.valid.keyed;
      fresh = v.valid.fresh;
      served = v.valid.served;
      owned = v.valid.owned;
    };
    single = v.single;
    distinct = v.distinct;
    below = v.below;
    budget = v.budget;
  }

  insert_widget-AreRows :
      (now tenant : ℕ) (id : String) (spec : WidgetSpec) (db : Database)
      → AreRows limit db
      → AreRows limit (insert_widget now id tenant spec db).0
  unfolding insert_widget
  insert_widget-AreRows now tenant id spec db v =
      elim (Bool-cases (any (λ w. str_eq w.id id) db.widgets)) [
        | inl e ↦ rw (e, insert_widget) v
        | inr e ↦ rw (e, insert_widget) (AreRows-widgets db _ v)
      ]

  create_widget-AreRows :
      (now tenant : ℕ) (id : String) (spec : WidgetSpec) (db : Database)
      → AreRows limit db
      → AreRows limit (create_widget cfg now id tenant spec db).0
  unfolding create_widget
  create_widget-AreRows now tenant id spec db v = go (check_fields cfg spec.fields) refl
    where
      go :
          (r : Outcome (Unit {0}))
          → check_fields cfg spec.fields ≡ r
          → AreRows limit (create_widget cfg now id tenant spec db).0
      go (ok u) e = rw (e, create_widget) (insert_widget-AreRows now tenant id spec db v)
      go (http x) e = rw (e, create_widget) v
      go (crash x) e = rw (e, create_widget) v

  update_widget-AreRows :
      (now tenant : ℕ) (id : String) (cs : List Change) (db : Database)
      → AreRows limit db
      → AreRows limit (update_widget now id tenant cs db).0
  unfolding update_widget
  update_widget-AreRows now tenant id cs db v = elim (Option-cases (get_for_tenant id tenant db)) [
    | inl n ↦ rw (n, update_widget) v
    | inr (w, e) ↦ elim (Option-cases (assign_all cs w)) [
      | inl n ↦ rw (e, n, update_widget) v
      | inr (x, f) ↦ rw (e, f, update_widget) (AreRows-widgets db _ v)
    ]
  ]

  change_widget-AreRows :
      (now tenant : ℕ) (id : String) (cs : List Change) (db : Database)
      → AreRows limit db
      → AreRows limit (change_widget cfg now id tenant cs db).0
  unfolding change_widget
  change_widget-AreRows now tenant id [] db v = v
  change_widget-AreRows now tenant id (c ∷ cs) db v = go (check_changes cfg (c ∷ cs)) refl
    where
      go :
          (r : Outcome (Unit {0}))
          → check_changes cfg (c ∷ cs) ≡ r
          → AreRows limit (change_widget cfg now id tenant (c ∷ cs) db).0
      go (ok u) e = rw (e, change_widget) (update_widget-AreRows now tenant id (c ∷ cs) db v)
      go (http x) e = rw (e, change_widget) v
      go (crash x) e = rw (e, change_widget) v

  delete_widget-AreRows :
      (tenant : ℕ) (id : String) (db : Database)
      → AreRows limit db
      → AreRows limit (delete_widget id tenant db).0
  unfolding delete_widget
  delete_widget-AreRows tenant id db v =
      let q = λ (j : Job).
        not (is_submission_of (select (λ s. str_eq s.widget_id id) db.submissions) j) in
      let kept = delete_widget-IsValid id tenant db v.single v.valid in
      elim (Bool-cases (any (is_owned id tenant) db.widgets)) [
        | inr e ↦ rw (e, delete_widget) v
        | inl e ↦
            rw (e, delete_widget)
              (record {
                valid = rw (e, delete_widget) at kept;
                single =
                    Distinct-numbers (λ s. not (str_eq s.widget_id id)) db.submissions v.single;
                distinct = Distinct-select q db.jobs v.distinct;
                below = All-kept (λ j. j.id < db.next_job) q db.jobs v.below;
                budget = All-kept (InBudget limit) q db.jobs v.budget;
              })
      ]

  -- A call of whoever, however it ends.
  pub admin-AreRows :
      (hash_key : Digest) (c : Option Credentials) (call : AdminCall) (a : Accounts) (db : Database)
      → AreRows limit db
      → AreRows limit (admin cfg hash_key c call a db).0
  unfolding admin run remove_widget
  admin-AreRows hash_key c call a db v = go (require_tenant hash_key c a) refl
    where
      go :
          (r : Outcome Tenant)
          → require_tenant hash_key c a ≡ r
          → AreRows limit (admin cfg hash_key c call a db).0
      go (http e) k = rw (k, admin) v
      go (crash x) k = rw (k, admin) v
      go (ok t) k =
          rw (k, admin)
            (serve_writes cfg (AreRows limit) t.id call db v
              (λ now id spec. create_widget-AreRows now t.id id spec db v)
              (λ now id cs. change_widget-AreRows now t.id id cs db v)
              (λ id. delete_widget-AreRows t.id id db v))
