-- ===== src/Admin/Tests.antt =====
-- app/api/widgets.py and app/api/dashboard.py: the theorems at calls that meet their hypotheses.
use flyrank_capstone_widgetp.Base.{String, none, ◌≡◌, refl, some, [], ◌∷◌}
use flyrank_capstone_widgetp.Config.{defaults}
use flyrank_capstone_widgetp.Http.{HttpError, ok, http}
use flyrank_capstone_widgetp.Samples.{acme, one_key, shared_tables}
use flyrank_capstone_widgetp.Accounts.{require_tenant, find_tenant_by_key_hash}
use flyrank_capstone_widgetp.Accounts.Keys.{bearer}
use flyrank_capstone_widgetp.Widgets.Tenants.{others}
use flyrank_capstone_widgetp.Admin.{AdminCall, delete_widget, patch_widget, new_title, admin}
use flyrank_capstone_widgetp.Admin.Access.{admin_unauthorized, admin_isolated}

admin_unauthorized_example :
    (e : HttpError) × (admin defaults
        (λ k. k)
        (some (bearer "wpk_x"))
        (delete_widget "wgt_1")
        one_key
        shared_tables
      ≡ (shared_tables, http e))
    × (e.status ≡ 401)
unfolding find_tenant_by_key_hash
admin_unauthorized_example =
    admin_unauthorized defaults (λ k. k) (some (bearer "wpk_x")) (delete_widget "wgt_1") one_key
      shared_tables refl

enters : require_tenant (λ k. k) (some (bearer "wpk_a")) one_key ≡ ok acme
unfolding require_tenant find_tenant_by_key_hash
enters = refl

admin_isolated_example :
    others 1
      (admin defaults
        (λ k. k)
        (some (bearer "wpk_a"))
        (delete_widget "wgt_1")
        one_key
        shared_tables).0
    ≡ others 1 shared_tables
admin_isolated_example =
    admin_isolated defaults (λ k. k) (some (bearer "wpk_a")) (delete_widget "wgt_1") one_key
      shared_tables acme enters

abbrev snippet : String × String
snippet = ("wgt_1", "<script src=\"http://localhost:8000/widget.js?id=wgt_1\" async></script>")

-- A PATCH with a null for the title.
abbrev no_title : AdminCall
no_title = patch_widget 5 "wgt_1" (new_title none ∷ [])
