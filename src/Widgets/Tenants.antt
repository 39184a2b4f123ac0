-- ===== src/Widgets/Tenants.antt =====
-- app/services/widgets.py: what one tenant does with widgets leaves the other tenants alone, and
-- keeps every form usable.
use flyrank_capstone_widgetp.Base.{
  ℕ, String, Bool, not, ◌≡◌, refl, ◌∙◌, List, [], ◌∷◌, ◌++◌, arith, select, find, any, All, none,
  some, str_eq, eq_iff, ◌==◌, leb, Bool-cases, Option-cases, inl, inr,
}
use flyrank_capstone_widgetp.Config.{Config}
use flyrank_capstone_widgetp.Http.{Outcome, ok, http, crash}
use flyrank_capstone_widgetp.Schema.{Widget}
use flyrank_capstone_widgetp.Database.{Database}
use flyrank_capstone_widgetp.Widgets.{
  WidgetSpec, Change, title_to, description_to, button_text_to, fields_to, options_to, active_to,
  is_owned, new_widget, insert_widget, insert_newest_first, newest_first, list_for_tenant,
  get_for_tenant, assign, assign_all, bumped, put_widget, update_widget, delete_widget,
  check_fields, create_widget, change_widget, remove_widget, check_changes,
}

-- What a tenant can ask for that changes the tables.
pub data Call : Type 0 where
  post : ℕ → String → WidgetSpec → Call
  patch : ℕ → String → List Change → Call
  delete : String → Call

unfoldable pub run : Config → ℕ → Call → Database → Database
unfolding create_widget change_widget remove_widget
run cfg tenant (post now id spec) db = (create_widget cfg now id tenant spec db).0
run cfg tenant (patch now id changes) db = (change_widget cfg now id tenant changes db).0
run cfg tenant (delete id) db = (remove_widget id tenant db).0

abbrev pub is_other : ℕ → Widget → Bool
is_other tenant w = not (w.tenant_id == tenant)

abbrev pub others : ℕ → Database → List Widget
others tenant db = select (is_other tenant) db.widgets

others-append :
    (tenant : ℕ) (ws : List Widget) (w : Widget)
    → w.tenant_id ≡ tenant
    → select (is_other tenant) (ws ++ w ∷ []) ≡ select (is_other tenant) ws
others-append tenant [] w e = ground arith
others-append tenant (v ∷ ws) w e = ground (arith, others-append tenant ws w e)

others-put_widget :
    (tenant : ℕ) (id : String) (row : Widget) (ws : List Widget)
    → row.tenant_id ≡ tenant
    → select (is_other tenant) (put_widget (is_owned id tenant) row ws)
      ≡ select (is_other tenant) ws
others-put_widget tenant id row [] e = refl
others-put_widget tenant id row (w ∷ ws) e = elim (Bool-cases (is_owned id tenant w)) [
  | inl o ↦ ground (arith, others-put_widget tenant id row ws e)
  | inr o ↦ ground (arith, others-put_widget tenant id row ws e)
]

others-select :
    (tenant : ℕ) (id : String) (ws : List Widget)
    → select (is_other tenant) (select (λ w. not (is_owned id tenant w)) ws)
      ≡ select (is_other tenant) ws
others-select tenant id [] = refl
others-select tenant id (w ∷ ws) = elim (Bool-cases (is_owned id tenant w)) [
  | inl o ↦ ground (arith, others-select tenant id ws)
  | inr o ↦ rw (o, others-select tenant id ws)
]

-- An edit keeps whose widget it is.
pub tenant_assign :
    (c : Change) (w v : Widget) → assign c w ≡ some v → (v.tenant_id ≡ w.tenant_id) × (v.id ≡ w.id)
tenant_assign (title_to (some t)) w v h = ground (arith, h)
tenant_assign (description_to (some t)) w v h = ground (arith, h)
tenant_assign (button_text_to (some t)) w v h = ground (arith, h)
tenant_assign (fields_to fields) w v h = ground (arith, h)
tenant_assign (options_to options) w v h = ground (arith, h)
tenant_assign (active_to (some b)) w v h = ground (arith, h)
tenant_assign (title_to none) w v h = cc
tenant_assign (description_to none) w v h = cc
tenant_assign (button_text_to none) w v h = cc
tenant_assign (active_to none) w v h = cc

pub tenant_assign_all :
    (cs : List Change) (w v : Widget)
    → assign_all cs w ≡ some v
    → (v.tenant_id ≡ w.tenant_id) × (v.id ≡ w.id)
tenant_assign_all [] w v h = ground (arith, h)
tenant_assign_all (c ∷ cs) w v h = elim (Option-cases (assign c w)) [
  | inl n ↦ cc (rw n at h)
  | inr (u, e) ↦
      let one = tenant_assign c w u e in
      let rest = tenant_assign_all cs u v (rw e at h) in (rest.0 ∙ one.0, rest.1 ∙ one.1)
]

pub owned_found :
    (id : String) (tenant : ℕ) (ws : List Widget) (w : Widget)
    → find (is_owned id tenant) ws ≡ some w
    → (w.tenant_id ≡ tenant) × (w.id ≡ id)
owned_found id tenant [] w h = cc
owned_found id tenant (v ∷ ws) w h = elim (Bool-cases (is_owned id tenant v)) [
  | inl o ↦
      let same : v ≡ w = ground (arith, rw o at h) in
      rw (← same) (ground arith, ground (arith, eq_iff v.id id))
  | inr o ↦ owned_found id tenant ws w (rw o at h)
]

others-update_widget :
    (now tenant : ℕ) (id : String) (cs : List Change) (db : Database)
    → others tenant (update_widget now id tenant cs db).0 ≡ others tenant db
unfolding update_widget get_for_tenant
others-update_widget now tenant id cs db =
    elim (Option-cases (find (is_owned id tenant) db.widgets)) [
      | inl n ↦ rw (n, update_widget) refl
      | inr (w, e) ↦ elim (Option-cases (assign_all cs w)) [
        | inl n ↦ rw (e, n, update_widget) refl
        | inr (v, f) ↦
            let whose = (tenant_assign_all cs w v f).0 ∙ (owned_found id tenant db.widgets w e).0 in
            rw (e, f, update_widget) (others-put_widget tenant id (bumped now v) db.widgets whose)
      ]
    ]

others-insert_widget :
    (now tenant : ℕ) (id : String) (spec : WidgetSpec) (db : Database)
    → others tenant (insert_widget now id tenant spec db).0 ≡ others tenant db
unfolding insert_widget
others-insert_widget now tenant id spec db =
    elim (Bool-cases (any (λ w. str_eq w.id id) db.widgets)) [
      | inl e ↦ rw e refl
      | inr e ↦ rw e (others-append tenant db.widgets (new_widget now id tenant spec) refl)
    ]

-- Whatever a tenant posts, patches or deletes, by whatever id, and however it ends, the widgets of
-- the other tenants stay as they were, each and in their order.
pub others-run :
    (cfg : Config) (tenant : ℕ) (call : Call) (db : Database)
    → others tenant (run cfg tenant call db) ≡ others tenant db
unfolding run create_widget change_widget remove_widget delete_widget
others-run cfg tenant (post now id spec) db = posted (check_fields cfg spec.fields) refl
  where
    posted :
        (r : Outcome (Unit {0}))
        → check_fields cfg spec.fields ≡ r
        → others tenant (create_widget cfg now id tenant spec db).0 ≡ others tenant db
    posted (ok u) e = rw (e, create_widget) (others-insert_widget now tenant id spec db)
    posted (http x) e = rw (e, create_widget) refl
    posted (crash x) e = rw (e, create_widget) refl
others-run cfg tenant (patch now id []) db = refl
others-run cfg tenant (patch now id (c ∷ cs)) db = patched (check_changes cfg (c ∷ cs)) refl
  where
    patched :
        (r : Outcome (Unit {0}))
        → check_changes cfg (c ∷ cs) ≡ r
        → others tenant (change_widget cfg now id tenant (c ∷ cs) db).0 ≡ others tenant db
    patched (ok u) e = rw (e, change_widget) (others-update_widget now tenant id (c ∷ cs) db)
    patched (http x) e = rw (e, change_widget) refl
    patched (crash x) e = rw (e, change_widget) refl
others-run cfg tenant (delete id) db = elim (Bool-cases (any (is_owned id tenant) db.widgets)) [
  | inl e ↦ rw (e, run, remove_widget, delete_widget) (others-select tenant id db.widgets)
  | inr e ↦ rw (e, run, remove_widget, delete_widget) refl
]

abbrev Owned : ℕ → List Widget → Type 0
Owned tenant = All (λ w. w.tenant_id ≡ tenant)

Owned-insert_newest_first :
    (tenant : ℕ) (w : Widget) (ws : List Widget)
    → w.tenant_id ≡ tenant
    → Owned tenant ws
    → Owned tenant (insert_newest_first w ws)
Owned-insert_newest_first tenant w [] e h = (e, tt)
Owned-insert_newest_first tenant w (v ∷ vs) e h =
    elim (Bool-cases (leb v.created_at w.created_at)) [
      | inl b ↦ rw b (e, h)
      | inr b ↦ rw b (h.0, Owned-insert_newest_first tenant w vs e h.1)
    ]

Owned-newest_first :
    (tenant : ℕ) (ws : List Widget) → Owned tenant ws → Owned tenant (newest_first ws)
Owned-newest_first tenant [] h = tt
Owned-newest_first tenant (w ∷ ws) h =
    Owned-insert_newest_first tenant w (newest_first ws) h.0 (Owned-newest_first tenant ws h.1)

Owned-select :
    (tenant : ℕ) (ws : List Widget) → Owned tenant (select (λ w. w.tenant_id == tenant) ws)
Owned-select tenant [] = tt
Owned-select tenant (w ∷ ws) = elim (Bool-cases (w.tenant_id == tenant)) [
  | inl e ↦ rw e (ground arith, Owned-select tenant ws)
  | inr e ↦ rw e (Owned-select tenant ws)
]

-- A tenant's list shows only the tenant's own widgets.
pub list_for_tenant-Owned :
    (tenant : ℕ) (db : Database) → All (λ w. w.tenant_id ≡ tenant) (list_for_tenant tenant db)
unfolding list_for_tenant
list_for_tenant-Owned tenant db = Owned-newest_first tenant _ (Owned-select tenant db.widgets)
