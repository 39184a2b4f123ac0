-- ===== src/Accounts.antt =====
-- app/repositories/tenants.py, app/core/ids.py and app/api/deps.py: tenants, their keys, and who a
-- request comes from. Random tokens (secrets) and the digest (sha256) are parameters.
pub mod Keys
mod Tests
use Prim.Native.String.{◌++◌ as str_append}
use flyrank_capstone_widgetp.Base.{
  ℕ, ◌+◌, String, Bool, true, false, not, ◌&&◌, ◌||◌, Option, none, some, List, [], ◌∷◌, ◌++◌, map,
  find, any, ◌==◌, str_eq, if◌then◌else◌,
}
use flyrank_capstone_widgetp.Text.{codes, lower, same_codes}
use flyrank_capstone_widgetp.Http.{Outcome, ok, crash, raise, ◌>>=◌, message, foreign_key_violation}

pub record Tenant : Type 0 where
  pub id : ℕ
  pub name : String

pub record ApiKey : Type 0 where
  pub id : ℕ
  pub tenant_id : ℕ
  pub key_hash : String
  pub label : String

-- The tables `tenants` and `api_keys`, with their sequences.
pub record Accounts : Type 0 where
  pub tenants : List Tenant
  pub keys : List ApiKey
  pub next_tenant : ℕ
  pub next_key : ℕ

-- `new_widget_id` and `new_api_key`, of a random token
abbrev pub new_widget_id : String → String
new_widget_id token = str_append "wgt_" token

abbrev pub new_api_key : String → String
new_api_key token = str_append "wpk_" token

-- `create_tenant`
unfoldable pub create_tenant : String → Accounts → Accounts × Tenant
create_tenant name a =
    let row : Tenant = record { id = a.next_tenant; name = name } in
    (record a { tenants = a.tenants ++ row ∷ []; next_tenant = a.next_tenant + 1 }, row)

-- `find_by_name`
unfoldable pub find_by_name : String → Accounts → Option Tenant
find_by_name name a = find (λ t. str_eq t.name name) a.tenants

abbrev pub has_hash : String → ApiKey → Bool
has_hash key_hash k = str_eq k.key_hash key_hash

-- `add_api_key`: a digest that is stored already only gets the new label.
unfoldable pub add_api_key : ℕ → String → String → Accounts → Accounts × Outcome (Option ApiKey)
add_api_key tenant_id key_hash label a =
    let row : ApiKey = record {
      id = a.next_key;
      tenant_id = tenant_id;
      key_hash = key_hash;
      label = label;
    } in
    let drawn = record a { next_key = a.next_key + 1 } in
    let relabelled =
      map (λ k. if has_hash key_hash k then record k { label = label } else k) a.keys in
    if any (has_hash key_hash) a.keys
    then (record drawn { keys = relabelled }, ok (find (has_hash key_hash) relabelled))
    else if any (λ t. t.id == tenant_id) a.tenants
    then (record drawn { keys = a.keys ++ row ∷ [] }, ok (some row))
    else (drawn, crash foreign_key_violation)

abbrev pub tenant_of_key : Accounts → Option ApiKey → Option Tenant
tenant_of_key a none = none
tenant_of_key a (some k) = find (λ t. t.id == k.tenant_id) a.tenants

-- `find_tenant_by_key_hash`
unfoldable pub find_tenant_by_key_hash : String → Accounts → Option Tenant
find_tenant_by_key_hash key_hash a = tenant_of_key a (find (has_hash key_hash) a.keys)

-- What HTTPBearer reads of the header Authorization.
pub record Credentials : Type 0 where
  pub scheme : String
  pub credentials : String

-- `hash_key`, the digest of a key
abbrev pub Digest : Type 0
Digest = String → String

abbrev pub known_or_401 : Option Tenant → Outcome Tenant
known_or_401 none = raise 401 (message "Invalid API key")
known_or_401 (some tenant) = ok tenant

-- `require_tenant`
unfoldable pub require_tenant : Digest → Option Credentials → Accounts → Outcome Tenant
unfolding find_tenant_by_key_hash
require_tenant hash_key none a = raise 401 (message "API key required")
require_tenant hash_key (some c) a =
    if not (same_codes (lower (codes c.scheme)) (codes "bearer")) || str_eq c.credentials ""
    then raise 401 (message "API key required")
    else known_or_401 (find_tenant_by_key_hash (hash_key c.credentials) a)
