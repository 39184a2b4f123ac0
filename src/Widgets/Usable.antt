-- ===== src/Widgets/Usable.antt =====
-- app/services/widgets.py and app/services/validation.py: every stored form is usable, and a usable
-- form is validated by each of its fields.
use flyrank_capstone_widgetp.Base.{
  ℕ, String, Bool, ◌≡◌, refl, List, [], ◌∷◌, arith, select, find, any, All, All-append, none, some,
  str_eq, Bool-cases, Option-cases, inl, inr,
}
use flyrank_capstone_widgetp.Config.{Config}
use flyrank_capstone_widgetp.Http.{Outcome, ok, http, crash, >>=-eq-ok}
use flyrank_capstone_widgetp.Schema.{Widget}
use flyrank_capstone_widgetp.Database.{Database}
use flyrank_capstone_widgetp.Widgets.{
  WidgetSpec, Change, title_to, description_to, button_text_to, fields_to, options_to, active_to,
  is_owned, insert_widget, get_for_tenant, assign, assign_all, bumped, put_widget, update_widget,
  delete_widget, check_fields, create_widget, change_widget, remove_widget, check_changes,
}
use flyrank_capstone_widgetp.Widgets.Fields.{IsUsable, check_fields-IsUsable}
use flyrank_capstone_widgetp.Widgets.Tenants.{Call, post, patch, delete, run}

abbrev pub AllUsable : Config → List Widget → Type 0
AllUsable cfg = All (λ w. IsUsable cfg w.fields)

module _ (cfg : Config) where
  assign-IsUsable :
      (c : Change) (cs : List Change) (w v : Widget)
      → assign c w ≡ some v
      → check_changes cfg (c ∷ cs) ≡ ok tt
      → IsUsable cfg w.fields
      → IsUsable cfg v.fields × (check_changes cfg cs ≡ ok tt)
  assign-IsUsable (fields_to fields) cs w v h k u =
      let same : record w { fields = fields } ≡ v = ground (arith, h) in
      let first = >>=-eq-ok (check_fields cfg fields) _ k in
      (rw (← same) ((check_fields-IsUsable cfg fields).0 first.1), first.2)
  assign-IsUsable (title_to (some t)) cs w v h k u =
      let same : record w { title = t } ≡ v = ground (arith, h) in (rw (← same) u, k)
  assign-IsUsable (description_to (some t)) cs w v h k u =
      let same : record w { description = t } ≡ v = ground (arith, h) in (rw (← same) u, k)
  assign-IsUsable (button_text_to (some t)) cs w v h k u =
      let same : record w { button_text = t } ≡ v = ground (arith, h) in (rw (← same) u, k)
  assign-IsUsable (options_to options) cs w v h k u =
      let same : record w { options = options } ≡ v = ground (arith, h) in (rw (← same) u, k)
  assign-IsUsable (active_to (some b)) cs w v h k u =
      let same : record w { active = b } ≡ v = ground (arith, h) in (rw (← same) u, k)
  assign-IsUsable (title_to none) cs w v h k u = cc
  assign-IsUsable (description_to none) cs w v h k u = cc
  assign-IsUsable (button_text_to none) cs w v h k u = cc
  assign-IsUsable (active_to none) cs w v h k u = cc

  assign_all-IsUsable :
      (cs : List Change) (w v : Widget)
      → assign_all cs w ≡ some v
      → check_changes cfg cs ≡ ok tt
      → IsUsable cfg w.fields
      → IsUsable cfg v.fields
  assign_all-IsUsable [] w v h k u = let same : w ≡ v = ground (arith, h) in rw (← same) u
  assign_all-IsUsable (c ∷ cs) w v h k u = elim (Option-cases (assign c w)) [
    | inl n ↦ cc (rw n at h)
    | inr (x, e) ↦
        let one = assign-IsUsable c cs w x e k u in
        assign_all-IsUsable cs x v (rw e at h) one.1 one.0
  ]

  found-IsUsable :
      (p : Widget → Bool) (ws : List Widget) (w : Widget)
      → find p ws ≡ some w
      → AllUsable cfg ws
      → IsUsable cfg w.fields
  found-IsUsable p [] w h a = cc
  found-IsUsable p (v ∷ ws) w h a = elim (Bool-cases (p v)) [
    | inl e ↦ let same : v ≡ w = ground (arith, rw e at h) in rw (← same) a.0
    | inr e ↦ found-IsUsable p ws w (rw e at h) a.1
  ]

  put_widget-AllUsable :
      (p : Widget → Bool) (row : Widget) (ws : List Widget)
      → IsUsable cfg row.fields
      → AllUsable cfg ws
      → AllUsable cfg (put_widget p row ws)
  put_widget-AllUsable p row [] u a = tt
  put_widget-AllUsable p row (w ∷ ws) u a = elim (Bool-cases (p w)) [
    | inl e ↦ rw e (u, put_widget-AllUsable p row ws u a.1)
    | inr e ↦ rw e (a.0, put_widget-AllUsable p row ws u a.1)
  ]

  select-AllUsable :
      (p : Widget → Bool) (ws : List Widget) → AllUsable cfg ws → AllUsable cfg (select p ws)
  select-AllUsable p [] a = tt
  select-AllUsable p (w ∷ ws) a = elim (Bool-cases (p w)) [
    | inl e ↦ rw e (a.0, select-AllUsable p ws a.1)
    | inr e ↦ rw e (select-AllUsable p ws a.1)
  ]

  insert_widget-AllUsable :
      (now tenant : ℕ) (id : String) (spec : WidgetSpec) (db : Database)
      → IsUsable cfg spec.fields
      → AllUsable cfg db.widgets
      → AllUsable cfg (insert_widget now id tenant spec db).0.widgets
  unfolding insert_widget
  insert_widget-AllUsable now tenant id spec db u a =
      elim (Bool-cases (any (λ w. str_eq w.id id) db.widgets)) [
        | inl e ↦ rw (e, insert_widget) a
        | inr e ↦
            rw (e, insert_widget) (All-append (λ w. IsUsable cfg w.fields) db.widgets _ a (u, tt))
      ]

  update_widget-AllUsable :
      (now tenant : ℕ) (id : String) (cs : List Change) (db : Database)
      → check_changes cfg cs ≡ ok tt
      → AllUsable cfg db.widgets
      → AllUsable cfg (update_widget now id tenant cs db).0.widgets
  unfolding get_for_tenant update_widget
  update_widget-AllUsable now tenant id cs db k a =
      elim (Option-cases (find (is_owned id tenant) db.widgets)) [
        | inl n ↦ rw (n, update_widget) a
        | inr (w, e) ↦ elim (Option-cases (assign_all cs w)) [
          | inl n ↦ rw (e, n, update_widget) a
          | inr (v, f) ↦
              rw (e, f, update_widget)
                (put_widget-AllUsable (is_owned id tenant) (bumped now v) db.widgets
                  (assign_all-IsUsable cs w v f k (found-IsUsable _ db.widgets w e a)) a)
        ]
      ]

  -- Whatever a tenant posts, patches or deletes, and however it ends, if every stored widget had a
  -- usable list of fields then every stored widget has one.
  pub run-AllUsable :
      (tenant : ℕ) (call : Call) (db : Database)
      → AllUsable cfg db.widgets
      → AllUsable cfg (run cfg tenant call db).widgets
  unfolding run create_widget change_widget remove_widget delete_widget
  run-AllUsable tenant (post now id spec) db a = posted (check_fields cfg spec.fields) refl
    where
      posted :
          (r : Outcome (Unit {0}))
          → check_fields cfg spec.fields ≡ r
          → AllUsable cfg (create_widget cfg now id tenant spec db).0.widgets
      posted (ok u) e =
          rw (e, create_widget)
            (insert_widget-AllUsable now tenant id spec db
              ((check_fields-IsUsable cfg spec.fields).0 e) a)
      posted (http x) e = rw (e, create_widget) a
      posted (crash x) e = rw (e, create_widget) a
  run-AllUsable tenant (patch now id []) db a = unfold change_widget in a
  run-AllUsable tenant (patch now id (c ∷ cs)) db a = patched (check_changes cfg (c ∷ cs)) refl
    where
      patched :
          (r : Outcome (Unit {0}))
          → check_changes cfg (c ∷ cs) ≡ r
          → AllUsable cfg (change_widget cfg now id tenant (c ∷ cs) db).0.widgets
      patched (ok u) e =
          rw (e, change_widget) (update_widget-AllUsable now tenant id (c ∷ cs) db e a)
      patched (http x) e = rw (e, change_widget) a
      patched (crash x) e = rw (e, change_widget) a
  run-AllUsable tenant (delete id) db a = elim (Bool-cases (any (is_owned id tenant) db.widgets)) [
    | inl e ↦ rw (e, run, remove_widget, delete_widget) (select-AllUsable _ db.widgets a)
    | inr e ↦ rw (e, run, remove_widget, delete_widget) a
  ]
