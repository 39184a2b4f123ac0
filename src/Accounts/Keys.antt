-- ===== src/Accounts/Keys.antt =====
-- app/repositories/tenants.py and app/api/deps.py: a key that is issued lets its tenant in, and
-- nobody else's key is touched by that.
use flyrank_capstone_widgetp.Base.{
  ℕ, String, true, false, ◌≡◌, ◌≢◌, refl, ap, Option, none, some, List, [], ◌∷◌, ◌++◌, map, find,
  any, ◌==◌, str_eq-ne, eq_refl, Bool-cases, inl, inr, if◌then◌else◌,
}
use flyrank_capstone_widgetp.Http.{ok}
use flyrank_capstone_widgetp.Accounts.{
  Tenant, ApiKey, Accounts, has_hash, add_api_key, tenant_of_key, find_tenant_by_key_hash,
  Credentials, Digest, require_tenant,
}

-- A bearer token, as a client sends it.
abbrev pub bearer : String → Credentials
bearer key = record { scheme = "Bearer"; credentials = key }

find_appended :
    (h : String) (ks : List ApiKey) (k : ApiKey)
    → any (has_hash h) ks ≡ false
    → find (has_hash h) (ks ++ k ∷ []) ≡ (if has_hash h k then some k else none)
find_appended h [] k n = refl
find_appended h (j ∷ ks) k n = elim (Bool-cases (has_hash h j)) [
  | inl e ↦ cc (rw e at n)
  | inr e ↦ rw e (find_appended h ks k (rw e at n))
]

any_of_find :
    (id : ℕ) (ts : List Tenant) (t : Tenant)
    → find (λ x. x.id == id) ts ≡ some t
    → any (λ x. x.id == id) ts ≡ true
any_of_find id [] t h = cc
any_of_find id (x ∷ ts) t h = elim (Bool-cases (x.id == id)) [
  | inl e ↦ rw e refl
  | inr e ↦ rw e (any_of_find id ts t (rw e at h))
]

-- A key whose digest is new, issued to a tenant that exists, lets its bearer in as that tenant.
pub require_tenant-add_api_key :
    (hash_key : Digest) (a : Accounts) (tenant : Tenant) (key label : String)
    → find (λ t. t.id == tenant.id) a.tenants ≡ some tenant
    → any (has_hash (hash_key key)) a.keys ≡ false
    → key ≢ ""
    → require_tenant hash_key (some (bearer key)) (add_api_key tenant.id (hash_key key) label a).0
      ≡ ok tenant
unfolding require_tenant add_api_key find_tenant_by_key_hash
require_tenant-add_api_key hash_key a tenant key label there new given =
    let row : ApiKey = record {
      id = a.next_key;
      tenant_id = tenant.id;
      key_hash = hash_key key;
      label = label;
    } in
    let own : has_hash (hash_key key) row ≡ true = eq_refl (hash_key key) in
    let found : find (has_hash (hash_key key)) (a.keys ++ row ∷ []) ≡ some row =
      rw own at (find_appended (hash_key key) a.keys row new) in
    rw (str_eq-ne key "" given, new, any_of_find tenant.id a.tenants tenant there, found, there)
      refl

abbrev owner_of : Option ApiKey → Option ℕ
owner_of none = none
owner_of (some k) = some k.tenant_id

abbrev tenant_of_id : List Tenant → Option ℕ → Option Tenant
tenant_of_id ts none = none
tenant_of_id ts (some id) = find (λ t. t.id == id) ts

tenant_of_owner :
    (a : Accounts) (o : Option ApiKey) → tenant_of_key a o ≡ tenant_of_id a.tenants (owner_of o)
tenant_of_owner a none = refl
tenant_of_owner a (some k) = refl

-- A new label changes no owner.
owner_relabelled :
    (g h label : String) (ks : List ApiKey)
    → owner_of
        (find (has_hash g) (map (λ k. if has_hash h k then record k { label = label } else k) ks))
      ≡ owner_of (find (has_hash g) ks)
owner_relabelled g h label [] = refl
owner_relabelled g h label (k ∷ ks) = elim (Bool-cases (has_hash h k)) [
  | inl e ↦ elim (Bool-cases (has_hash g k)) [
    | inl f ↦ rw (e, f) refl
    | inr f ↦ rw (e, f) (owner_relabelled g h label ks)
  ]
  | inr e ↦ elim (Bool-cases (has_hash g k)) [
    | inl f ↦ rw (e, f) refl
    | inr f ↦ rw (e, f) (owner_relabelled g h label ks)
  ]
]

find_other :
    (g : String) (ks : List ApiKey) (k : ApiKey)
    → has_hash g k ≡ false
    → find (has_hash g) (ks ++ k ∷ []) ≡ find (has_hash g) ks
find_other g [] k n = rw n refl
find_other g (j ∷ ks) k n = elim (Bool-cases (has_hash g j)) [
  | inl e ↦ rw e refl
  | inr e ↦ rw e (find_other g ks k n)
]

tenant_add_api_key :
    (a : Accounts) (tenant_id : ℕ) (g h label : String)
    → h ≢ g
    → find_tenant_by_key_hash g (add_api_key tenant_id h label a).0 ≡ find_tenant_by_key_hash g a
unfolding find_tenant_by_key_hash add_api_key
tenant_add_api_key a tenant_id g h label differ = elim (Bool-cases (any (has_hash h) a.keys)) [
  | inl old ↦
      rw (old, tenant_of_owner, tenant_of_owner)
        (ap (tenant_of_id a.tenants) (owner_relabelled g h label a.keys))
  | inr new ↦ elim (Bool-cases (any (λ t. t.id == tenant_id) a.tenants)) [
    | inr gone ↦ rw (new, gone) refl
    | inl there ↦
        rw
          (
            new,
            there,
            find_other g a.keys
                (record { id = a.next_key; tenant_id = tenant_id; key_hash = h; label = label })
                (str_eq-ne h g differ),
          )
          refl
  ]
]

-- Issuing a key, to whichever tenant, changes for no bearer of a key of another digest who they are.
pub add_api_key_others :
    (hash_key : Digest) (a : Accounts) (tenant_id : ℕ) (h label : String) (c : Credentials)
    → h ≢ hash_key c.credentials
    → require_tenant hash_key (some c) (add_api_key tenant_id h label a).0
      ≡ require_tenant hash_key (some c) a
unfolding require_tenant
add_api_key_others hash_key a tenant_id h label c differ =
    rw (tenant_add_api_key a tenant_id (hash_key c.credentials) h label differ) refl
