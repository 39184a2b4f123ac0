-- ===== src/Admin/Access.antt =====
-- app/api/deps.py with app/api/widgets.py and app/api/dashboard.py: what the admin API does for
-- whom.
use flyrank_capstone_widgetp.Base.{
  ℕ, String, ◌&&◌, ◌||◌, not, ◌≡◌, refl, Option, none, some, List, arith, str_eq, Bool-cases, inl,
  inr,
}
use flyrank_capstone_widgetp.Config.{Config}
use flyrank_capstone_widgetp.Http.{Outcome, ok, http, crash, HttpError, Exception}
use flyrank_capstone_widgetp.Text.{codes, lower, same_codes}
use flyrank_capstone_widgetp.Database.{Database}
use flyrank_capstone_widgetp.Accounts.{
  Accounts, Tenant, Credentials, Digest, known_or_401, find_tenant_by_key_hash, require_tenant,
}
use flyrank_capstone_widgetp.Widgets.{WidgetSpec, Change}
use flyrank_capstone_widgetp.Widgets.Tenants.{post, patch, delete, run, others, others-run}
use flyrank_capstone_widgetp.Widgets.Usable.{AllUsable, run-AllUsable}
use flyrank_capstone_widgetp.Admin.{
  AdminCall, post_widget, patch_widget, delete_widget, read_widget, read_embed, read_widgets,
  read_submissions, read_overview, read_by_widget, read_geo, read_series, changes_of, patch_with,
  is_widget_create, is_widget_update, is_between, is_natural, serve, admin,
}

known-ne-crash : (o : Option Tenant) (x : Exception) → ¬ (known_or_401 o ≡ crash x)
known-ne-crash none x h = cc
known-ne-crash (some t) x h = cc

require_tenant-ne-crash :
    (hash_key : Digest) (c : Option Credentials) (a : Accounts) (x : Exception)
    → ¬ (require_tenant hash_key c a ≡ crash x)
unfolding require_tenant
require_tenant-ne-crash hash_key none a x h = cc
require_tenant-ne-crash hash_key (some c) a x h =
    elim (Bool-cases
      (not (same_codes (lower (codes c.scheme)) (codes "bearer")) || str_eq c.credentials "")) [
        | inl e ↦ cc (rw e at h)
        | inr e ↦ known-ne-crash (find_tenant_by_key_hash (hash_key c.credentials) a) x (rw e at h)
      ]

status-require_tenant :
    (hash_key : Digest) (c : Option Credentials) (a : Accounts) (e : HttpError)
    → require_tenant hash_key c a ≡ http e
    → e.status ≡ 401
unfolding require_tenant
status-require_tenant hash_key none a e h = ground arith
status-require_tenant hash_key (some c) a e h =
    elim (Bool-cases
      (not (same_codes (lower (codes c.scheme)) (codes "bearer")) || str_eq c.credentials "")) [
        | inl b ↦ ground (arith, rw b at h)
        | inr b ↦ known (find_tenant_by_key_hash (hash_key c.credentials) a) (rw b at h)
      ]
  where
    known : (o : Option Tenant) → known_or_401 o ≡ http e → e.status ≡ 401
    known none k = ground arith
    known (some t) k = cc

-- A request without a key, or with one whose digest no tenant has.
abbrev pub IsUnknown : Digest → Accounts → Option Credentials → Type 0
IsUnknown hash_key a none = Unit {0}
IsUnknown hash_key a (some c) = find_tenant_by_key_hash (hash_key c.credentials) a ≡ none

unknown-ne-ok :
    (hash_key : Digest) (c : Option Credentials) (a : Accounts) (t : Tenant)
    → IsUnknown hash_key a c
    → ¬ (require_tenant hash_key c a ≡ ok t)
unfolding require_tenant
unknown-ne-ok hash_key none a t absent k = cc
unknown-ne-ok hash_key (some c) a t absent k =
    elim (Bool-cases
      (not (same_codes (lower (codes c.scheme)) (codes "bearer")) || str_eq c.credentials "")) [
        | inl b ↦ cc (rw (b, require_tenant) at k)
        | inr b ↦ cc (rw (b, absent, require_tenant) at k)
      ]

-- Without the key of a tenant nothing of the admin API is reached: if a request carries no key, or one
-- whose digest is stored for nobody, every call is answered with 401 and leaves the tables as they
-- were.
pub admin_unauthorized :
    (cfg : Config) (hash_key : Digest) (c : Option Credentials) (call : AdminCall) (a : Accounts)
    (db : Database)
    → IsUnknown hash_key a c
    → (e : HttpError) × (admin cfg hash_key c call a db ≡ (db, http e)) × (e.status ≡ 401)
unfolding admin
admin_unauthorized cfg hash_key c call a db absent = go (require_tenant hash_key c a) refl
  where
    go :
        (r : Outcome Tenant)
        → require_tenant hash_key c a ≡ r
        → (e : HttpError) × (admin cfg hash_key c call a db ≡ (db, http e)) × (e.status ≡ 401)
    go (http e) k = (e, rw (k, admin) refl, status-require_tenant hash_key c a e k)
    go (crash x) k = absurd (require_tenant-ne-crash hash_key c a x k)
    go (ok t) k = absurd (unknown-ne-ok hash_key c a t absent k)

module _ (cfg : Config) where
  -- What a call leaves of the tables is what one of the three calls that write leaves, or all.
  pub serve_writes :
      (P : Database → Type 0) (tenant : ℕ) (call : AdminCall) (db : Database)
      → P db
      → ((now : ℕ) (id : String) (spec : WidgetSpec) → P (run cfg tenant (post now id spec) db))
      → ((now : ℕ) (id : String) (cs : List Change) → P (run cfg tenant (patch now id cs) db))
      → ((id : String) → P (run cfg tenant (delete id) db))
      → P (serve cfg tenant call db).0
  unfolding serve run
  serve_writes P tenant (post_widget now token spec) db same posted patched deleted =
      elim (Bool-cases (is_widget_create spec)) [
        | inl e ↦ rw (e, serve) (posted now _ spec)
        | inr e ↦ rw (e, serve) same
      ]
  serve_writes P tenant (patch_widget now id edits) db same posted patched deleted =
      elim (Bool-cases (is_widget_update edits)) [
        | inl e ↦ rw (e, serve) (patching (changes_of edits))
        | inr e ↦ rw (e, serve) same
      ]
    where
      patching : (r : Outcome (List Change)) → P (patch_with cfg now id tenant r db).0
      patching (ok cs) = patched now id cs
      patching (http e) = same
      patching (crash x) = same
  serve_writes P tenant (delete_widget id) db same posted patched deleted = deleted id
  serve_writes P tenant (read_widget id) db same posted patched deleted = same
  serve_writes P tenant (read_embed id) db same posted patched deleted = same
  serve_writes P tenant read_widgets db same posted patched deleted = same
  serve_writes P tenant (read_submissions w limit offset spam later) db same posted patched
        deleted =
      elim (Bool-cases (is_between 1 100 limit && is_natural offset)) [
        | inl e ↦ rw (e, serve) same
        | inr e ↦ rw (e, serve) same
      ]
  serve_writes P tenant (read_overview now) db same posted patched deleted = same
  serve_writes P tenant read_by_widget db same posted patched deleted = same
  serve_writes P tenant read_geo db same posted patched deleted = same
  serve_writes P tenant (read_series now days) db same posted patched deleted =
      elim (Bool-cases (is_between 1 90 days)) [
        | inl e ↦ rw (e, serve) same
        | inr e ↦ rw (e, serve) same
      ]

  pub admin_serves :
      (P : Database → Type 0) (hash_key : Digest) (c : Option Credentials) (call : AdminCall)
      (a : Accounts) (db : Database) (t : Tenant)
      → require_tenant hash_key c a ≡ ok t
      → P (serve cfg t.id call db).0
      → P (admin cfg hash_key c call a db).0
  unfolding admin
  admin_serves P hash_key c call a db t k h = rw (k, admin) h

  -- Whoever calls the admin API, whatever the call and however it ends, the widgets of all tenants
  -- but the one that the key belongs to stay as they were, each and in their order.
  pub admin_isolated :
      (hash_key : Digest) (c : Option Credentials) (call : AdminCall) (a : Accounts) (db : Database)
      (t : Tenant)
      → require_tenant hash_key c a ≡ ok t
      → others t.id (admin cfg hash_key c call a db).0 ≡ others t.id db
  admin_isolated hash_key c call a db t k =
      admin_serves (λ d. others t.id d ≡ others t.id db) hash_key c call a db t k
        (serve_writes (λ d. others t.id d ≡ others t.id db) t.id call db refl
          (λ now id spec. others-run cfg t.id (post now id spec) db)
          (λ now id cs. others-run cfg t.id (patch now id cs) db)
          (λ id. others-run cfg t.id (delete id) db))

  -- Whoever calls the admin API, if every stored widget had a usable list of fields then every
  -- stored widget has one afterwards.
  pub admin-AllUsable :
      (hash_key : Digest) (c : Option Credentials) (call : AdminCall) (a : Accounts) (db : Database)
      → AllUsable cfg db.widgets
      → AllUsable cfg (admin cfg hash_key c call a db).0.widgets
  unfolding admin
  admin-AllUsable hash_key c call a db u = go (require_tenant hash_key c a) refl
    where
      go :
          (r : Outcome Tenant)
          → require_tenant hash_key c a ≡ r
          → AllUsable cfg (admin cfg hash_key c call a db).0.widgets
      go (http e) k = rw (k, admin) u
      go (crash x) k = rw (k, admin) u
      go (ok t) k =
          admin_serves (λ d. AllUsable cfg d.widgets) hash_key c call a db t k
            (serve_writes (λ d. AllUsable cfg d.widgets) t.id call db u
              (λ now id spec. run-AllUsable cfg t.id (post now id spec) db u)
              (λ now id cs. run-AllUsable cfg t.id (patch now id cs) db u)
              (λ id. run-AllUsable cfg t.id (delete id) db u))
