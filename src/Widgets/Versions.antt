-- ===== src/Widgets/Versions.antt =====
-- app/services/widgets.py: what a patch answers, and that every stored form stays usable.
use flyrank_capstone_widgetp.Base.{
  ℕ, ◌+◌, String, true, ◌≡◌, refl, ◌∙◌, List, [], ◌∷◌, arith, find, none, some, eq_iff, Bool-cases,
  Option-cases, inl, inr,
}
use flyrank_capstone_widgetp.Config.{Config}
use flyrank_capstone_widgetp.Http.{Outcome, ok, http, crash, ◌>>=◌}
use flyrank_capstone_widgetp.Schema.{Widget}
use flyrank_capstone_widgetp.Database.{Database}
use flyrank_capstone_widgetp.Widgets.{
  Change, title_to, description_to, button_text_to, fields_to, options_to, active_to, is_owned,
  get_for_tenant, get_widget, found_or_404, assign, assign_all, bumped, put_widget, update_widget,
  change_widget, check_changes,
}
use flyrank_capstone_widgetp.Widgets.Tenants.{tenant_assign_all, owned_found}

version_assign :
    (c : Change) (w v : Widget) → assign c w ≡ some v → v.config_version ≡ w.config_version
version_assign (title_to (some t)) w v h = ground (arith, h)
version_assign (description_to (some t)) w v h = ground (arith, h)
version_assign (button_text_to (some t)) w v h = ground (arith, h)
version_assign (fields_to fields) w v h = ground (arith, h)
version_assign (options_to options) w v h = ground (arith, h)
version_assign (active_to (some b)) w v h = ground (arith, h)
version_assign (title_to none) w v h = cc
version_assign (description_to none) w v h = cc
version_assign (button_text_to none) w v h = cc
version_assign (active_to none) w v h = cc

version_assign_all :
    (cs : List Change) (w v : Widget)
    → assign_all cs w ≡ some v
    → v.config_version ≡ w.config_version
version_assign_all [] w v h = ground (arith, h)
version_assign_all (c ∷ cs) w v h = elim (Option-cases (assign c w)) [
  | inl n ↦ cc (rw n at h)
  | inr (u, e) ↦ version_assign_all cs u v (rw e at h) ∙ version_assign c w u e
]

-- The row that is put is the one that the WHERE clause finds.
found_put :
    (id : String) (tenant : ℕ) (row w : Widget) (ws : List Widget)
    → row.id ≡ id
    → row.tenant_id ≡ tenant
    → find (is_owned id tenant) ws ≡ some w
    → find (is_owned id tenant) (put_widget (is_owned id tenant) row ws) ≡ some row
found_put id tenant row w [] e t h = cc
found_put id tenant row w (v ∷ ws) e t h = elim (Bool-cases (is_owned id tenant v)) [
  | inl o ↦
      let own : is_owned id tenant row ≡ true = ground (arith, eq_iff row.id id) in rw (o, own) refl
  | inr o ↦ rw (o, o) (found_put id tenant row w ws e t (rw o at h))
]

-- A patch that is answered with a widget: the tenant had the widget, its id and owner are unchanged,
-- its version is the next one, and it is what the tenant reads from then on.
pub record Patched (id : String) (tenant : ℕ) (db after : Database) (v : Widget) : Type 0 where
  pub before : Widget
  pub had : get_for_tenant id tenant db ≡ some before
  pub same_id : v.id ≡ id
  pub same_tenant : v.tenant_id ≡ tenant
  pub next_version : v.config_version ≡ before.config_version + 1
  pub reads : get_widget id tenant after ≡ ok v

update_widget-Patched :
    (now tenant : ℕ) (id : String) (cs : List Change) (db : Database) (v : Widget)
    → ((update_widget now id tenant cs db).1 >>= found_or_404) ≡ ok v
    → Patched id tenant db (update_widget now id tenant cs db).0 v
unfolding update_widget get_for_tenant get_widget
update_widget-Patched now tenant id cs db v h =
    elim (Option-cases (find (is_owned id tenant) db.widgets)) [
      | inl n ↦ cc (rw (n, update_widget) at h)
      | inr (w, e) ↦ elim (Option-cases (assign_all cs w)) [
        | inl n ↦ cc (rw (e, n, update_widget) at h)
        | inr (u, f) ↦
            let whose = tenant_assign_all cs w u f in
            let mine = owned_found id tenant db.widgets w e in
            let got : ok (bumped now u) ≡ ok v = rw (e, f, update_widget) at h in
            let same : bumped now u ≡ v = ground (arith, got) in
            rw (← same, e, f, update_widget)
              (record {
                before = w;
                had = e;
                same_id = whose.1 ∙ mine.1;
                same_tenant = whose.0 ∙ mine.0;
                next_version = rw (version_assign_all cs w u f) refl;
                reads =
                    rw
                      (
                        found_put id tenant (bumped now u) w db.widgets (whose.1 ∙ mine.1)
                            (whose.0 ∙ mine.0) e,
                        get_widget,
                      )
                      refl;
              })
      ]
    ]

-- A patch that is answered with a widget: the tenant had it, its id and its owner are the same, its
-- version is the next one, and it is what the tenant reads from then on.
pub change_widget-Patched :
    (cfg : Config) (now tenant : ℕ) (id : String) (cs : List Change) (db : Database) (v : Widget)
    → (change_widget cfg now id tenant cs db).1 ≡ ok v
    → Patched id tenant db (change_widget cfg now id tenant cs db).0 v
unfolding change_widget
change_widget-Patched cfg now tenant id [] db v h = cc
change_widget-Patched cfg now tenant id (c ∷ cs) db v h = patched (check_changes cfg (c ∷ cs)) refl
  where
    patched :
        (r : Outcome (Unit {0}))
        → check_changes cfg (c ∷ cs) ≡ r
        → Patched id tenant db (change_widget cfg now id tenant (c ∷ cs) db).0 v
    patched (ok u) e =
        rw (e, change_widget)
          (update_widget-Patched now tenant id (c ∷ cs) db v (rw (e, change_widget) at h))
    patched (http x) e = cc (rw (e, change_widget) at h)
    patched (crash x) e = cc (rw (e, change_widget) at h)
