-- ===== src/Public/Caching.antt =====
-- app/api/public.py: what a browser that holds an older configuration is answered.
use text.Mathlib.TextLemmas.{append_cancel_left, append_cancel_right}
use Prim.Native.String.{◌++◌ as str_append}
use flyrank_capstone_widgetp.Base.{
  ℕ, ◌+◌, String, true, ◌≡◌, ◌≢◌, refl, ◌∙◌, arith, some, List, [], ◌∷◌, find, str_eq, str_eq-ne,
  eq_refl, ap, sym, ◌==◌, Bool-cases, Option-cases, inl, inr,
}
use flyrank_capstone_widgetp.Json.{Python, pos}
use flyrank_capstone_widgetp.Config.{Config}
use flyrank_capstone_widgetp.Http.{Outcome, ok, http, crash, ◌>>=◌}
use flyrank_capstone_widgetp.Schema.{Widget}
use flyrank_capstone_widgetp.Database.{Database, get_public}
use flyrank_capstone_widgetp.Delivery.{get_active, public_config, config_etag}
use flyrank_capstone_widgetp.Public.{widget_config}
use flyrank_capstone_widgetp.Widgets.{
  Change, is_owned, put_widget, bumped, assign_all, get_for_tenant, update_widget, change_widget,
  check_changes, found_or_404,
}
use flyrank_capstone_widgetp.Widgets.Tenants.{tenant_assign_all, owned_found}
use flyrank_capstone_widgetp.Widgets.Versions.{change_widget-Patched}

-- The row of an id, when its owner's row is put in its place.
public_put :
    (id : String) (tenant : ℕ) (row w : Widget) (ws : List Widget)
    → row.id ≡ id
    → w.tenant_id ≡ tenant
    → find (λ v. str_eq v.id id) ws ≡ some w
    → find (λ v. str_eq v.id id) (put_widget (is_owned id tenant) row ws) ≡ some row
public_put id tenant row w [] e t h = cc
public_put id tenant row w (v ∷ ws) e t h = elim (Bool-cases (str_eq v.id id)) [
  | inl o ↦
      let same : v ≡ w = ground (arith, rw o at h) in
      let own : (v.tenant_id == tenant) ≡ true = rw same (ground arith) in
      let id_there : str_eq row.id id ≡ true = rw e (eq_refl id) in rw (o, own, id_there) refl
  | inr o ↦ rw (o, o) (public_put id tenant row w ws e t (rw o at h))
]

-- Two versions of a widget have different tags, if numbers are printed differently.
config_etag_differs :
    (p : Python) (v w : Widget)
    → ((m n : ℕ) → p.int_text (pos m) ≡ p.int_text (pos n) → m ≡ n)
    → v.id ≡ w.id
    → v.config_version ≡ w.config_version + 1
    → config_etag p w ≢ config_etag p v
unfolding config_etag
config_etag_differs p v w injective same next e =
    let tail_of : Widget → String =
      λ x. str_append "-" (str_append (p.int_text (pos x.config_version)) "\"") in
    let one =
      append_cancel_left "W/\"" (str_append w.id (tail_of w)) (str_append v.id (tail_of v)) e in
    let two = append_cancel_left w.id (tail_of w) (tail_of v) (rw same at one) in
    let three = append_cancel_left "-" _ _ two in
    let four = append_cancel_right _ _ "\"" three in omega (arith, injective _ _ four)

-- The row of an id that a tenant owns is what the tenant finds under it.
owned_of_public :
    (id : String) (tenant : ℕ) (w : Widget) (ws : List Widget)
    → w.tenant_id ≡ tenant
    → find (λ v. str_eq v.id id) ws ≡ some w
    → find (is_owned id tenant) ws ≡ some w
owned_of_public id tenant w [] t h = cc
owned_of_public id tenant w (v ∷ ws) t h = elim (Bool-cases (str_eq v.id id)) [
  | inl o ↦
      let same : v ≡ w = ground (arith, rw o at h) in
      let own : (v.tenant_id == tenant) ≡ true = rw same (ground arith) in
      rw (o, own) (ap some same)
  | inr o ↦ rw o (owned_of_public id tenant w ws t (rw o at h))
]

public_update_widget :
    (now tenant : ℕ) (id : String) (cs : List Change) (db : Database) (v w : Widget)
    → find (λ x. str_eq x.id id) db.widgets ≡ some w
    → w.tenant_id ≡ tenant
    → ((update_widget now id tenant cs db).1 >>= found_or_404) ≡ ok v
    → find (λ x. str_eq x.id id) (update_widget now id tenant cs db).0.widgets ≡ some v
unfolding update_widget get_for_tenant
public_update_widget now tenant id cs db v w f t h =
    let e = owned_of_public id tenant w db.widgets t f in
    elim (Option-cases (assign_all cs w)) [
      | inl n ↦ cc (rw (e, n, update_widget) at h)
      | inr (u, a) ↦
          let got : ok (bumped now u) ≡ ok v = rw (e, a, update_widget) at h in
          let same : bumped now u ≡ v = ground (arith, got) in
          let mine = (tenant_assign_all cs w u a).1 ∙ (owned_found id tenant db.widgets w e).1 in
          rw (← same, e, a, update_widget)
            (public_put id tenant (bumped now u) w db.widgets mine t f)
    ]

public_change_widget :
    (cfg : Config) (now tenant : ℕ) (id : String) (cs : List Change) (db : Database) (v w : Widget)
    → find (λ x. str_eq x.id id) db.widgets ≡ some w
    → w.tenant_id ≡ tenant
    → (change_widget cfg now id tenant cs db).1 ≡ ok v
    → find (λ x. str_eq x.id id) (change_widget cfg now id tenant cs db).0.widgets ≡ some v
unfolding change_widget
public_change_widget cfg now tenant id [] db v w f t h = cc
public_change_widget cfg now tenant id (c ∷ cs) db v w f t h = go (check_changes cfg (c ∷ cs)) refl
  where
    go :
        (r : Outcome (Unit {0}))
        → check_changes cfg (c ∷ cs) ≡ r
        → find (λ x. str_eq x.id id) (change_widget cfg now id tenant (c ∷ cs) db).0.widgets
          ≡ some v
    go (ok u) e =
        rw (e, change_widget)
          (public_update_widget now tenant id (c ∷ cs) db v w f t (rw (e, change_widget) at h))
    go (http x) e = cc (rw (e, change_widget) at h)
    go (crash x) e = cc (rw (e, change_widget) at h)

-- The row that is read, where the server takes the id.
get_public-eq-ok :
    (id : String) (db : Database) (w : Widget)
    → get_public id db ≡ ok (some w)
    → (db.takes id ≡ true) × (find (λ w. str_eq w.id id) db.widgets ≡ some w)
unfolding get_public
get_public-eq-ok id db w h = elim (Bool-cases (db.takes id)) [
  | inr bad ↦ cc (rw bad at h)
  | inl good ↦ (good, ground (arith, (rw good at h)))
]

takes-update_widget :
    (now tenant : ℕ) (id : String) (cs : List Change) (db : Database)
    → (update_widget now id tenant cs db).0.takes ≡ db.takes
unfolding update_widget
takes-update_widget now tenant id cs db = elim (Option-cases (get_for_tenant id tenant db)) [
  | inl n ↦ rw (n, update_widget) refl
  | inr (w, e) ↦ elim (Option-cases (assign_all cs w)) [
    | inl n ↦ rw (e, n, update_widget) refl
    | inr (v, f) ↦ rw (e, f, update_widget) refl
  ]
]

takes-change_widget :
    (cfg : Config) (now tenant : ℕ) (id : String) (cs : List Change) (db : Database)
    → (change_widget cfg now id tenant cs db).0.takes ≡ db.takes
unfolding change_widget
takes-change_widget cfg now tenant id [] db = refl
takes-change_widget cfg now tenant id (c ∷ cs) db = checked (check_changes cfg (c ∷ cs)) refl
  where
    checked :
        (r : Outcome (Unit {0}))
        → check_changes cfg (c ∷ cs) ≡ r
        → (change_widget cfg now id tenant (c ∷ cs) db).0.takes ≡ db.takes
    checked (ok u) e = rw (e, change_widget) (takes-update_widget now tenant id (c ∷ cs) db)
    checked (http x) e = rw (e, change_widget) refl
    checked (crash x) e = rw (e, change_widget) refl

-- A browser that holds the configuration of before a patch is sent the new one: if the owner's patch
-- of a widget is answered with a widget that is active, a request that names the old ETag is answered
-- with 200 and the new configuration, not with 304. Numbers are supposed to be printed differently.
pub widget_config-change_widget :
    (cfg : Config) (p : Python) (now tenant : ℕ) (id : String) (cs : List Change) (db : Database)
    (v w : Widget)
    → ((m n : ℕ) → p.int_text (pos m) ≡ p.int_text (pos n) → m ≡ n)
    → get_public id db ≡ ok (some w)
    → w.tenant_id ≡ tenant
    → (change_widget cfg now id tenant cs db).1 ≡ ok v
    → v.active ≡ true
    → widget_config cfg p id (some (config_etag p w)) (change_widget cfg now id tenant cs db).0
      ≡ ok (record {
        status = 200;
        etag = config_etag p v;
        max_age = cfg.config_max_age;
        body = some (public_config cfg v);
      })
unfolding widget_config get_active get_public
widget_config-change_widget cfg p now tenant id cs db v w injective public t h active =
    let (sent, f) = get_public-eq-ok id db w public in
    let still : (change_widget cfg now id tenant cs db).0.takes id ≡ true =
      rw (takes-change_widget cfg now tenant id cs db) sent in
    let after = public_change_widget cfg now tenant id cs db v w f t h in
    let patched = change_widget-Patched cfg now tenant id cs db v h in
    let e = owned_of_public id tenant w db.widgets t f in
    let had : get_for_tenant id tenant db ≡ some w = unfold get_for_tenant in e in
    let both : some patched.before ≡ some w = sym patched.had ∙ had in
    let before : patched.before ≡ w = ground (arith, both) in
    let same : v.id ≡ w.id = patched.same_id ∙ sym (owned_found id tenant db.widgets w e).1 in
    let next : v.config_version ≡ w.config_version + 1 = rw before at patched.next_version in
    let differ =
      str_eq-ne (config_etag p w) (config_etag p v)
        (config_etag_differs p v w injective same next) in
    rw (still, after, active, differ) refl
