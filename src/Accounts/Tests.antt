-- ===== src/Accounts/Tests.antt =====
-- app/repositories/tenants.py and app/api/deps.py: the theorems at keys that meet their hypotheses.
use flyrank_capstone_widgetp.Base.{◌≡◌, refl, some}
use flyrank_capstone_widgetp.Http.{ok}
use flyrank_capstone_widgetp.Samples.{acme, one_key}
use flyrank_capstone_widgetp.Accounts.{require_tenant, add_api_key}
use flyrank_capstone_widgetp.Accounts.Keys.{bearer, require_tenant-add_api_key}

require_tenant-add_api_key_example :
    require_tenant (λ k. k) (some (bearer "wpk_ab")) (add_api_key 1 "wpk_ab" "seed" one_key).0
    ≡ ok acme
require_tenant-add_api_key_example =
    require_tenant-add_api_key (λ k. k) one_key acme "wpk_ab" "seed" refl refl (λ e. cc e)
