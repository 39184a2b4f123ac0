-- ===== src/Seed/Turns.antt =====
-- scripts/seed.py: the turn of a tenant, what it stores and what it finds.
use flyrank_capstone_widgetp.Base.{
  ℕ, String, true, ◌≡◌, refl, ◌∙◌, Option, none, some, List, [], ◌∷◌, map, any, find, arith, ◌==◌,
  str_eq, eq_refl, Bool-cases, inl, inr, if◌then◌else◌,
}
use flyrank_capstone_widgetp.Http.{Outcome, ok, http, crash}
use flyrank_capstone_widgetp.Schema.{Widget}
use flyrank_capstone_widgetp.Database.{Database}
use flyrank_capstone_widgetp.Accounts.{
  Accounts, Tenant, ApiKey, Digest, has_hash, create_tenant, find_by_name, add_api_key, new_api_key,
}
use flyrank_capstone_widgetp.Seed.{
  Stored, DemoWidget, DemoTenant, found_or_new, with_widgets, seed_tenant,
}
use flyrank_capstone_widgetp.Seed.Stores.{
  find_kept, find_added, any_found, KeepsWidgets, Found, Found-KeepsWidgets,
  seed_widgets-KeepsWidgets, seed_widgets-Found, seed_widgets_again,
}

-- The tenant that a name finds stays what it is, as do the widgets of all tenants.
pub record Keeps (s t : Stored) : Type 0 where
  pub tenants_kept :
      (name : String) (owner : Tenant)
      → find_by_name name s.accounts ≡ some owner
      → find_by_name name t.accounts ≡ some owner
  pub widgets_kept : KeepsWidgets s.db t.db

-- No key changes the tenants.
tenants-add_api_key :
    (tenant : ℕ) (h label : String) (a : Accounts)
    → (add_api_key tenant h label a).0.tenants ≡ a.tenants
unfolding add_api_key
tenants-add_api_key tenant h label a = elim (Bool-cases (any (has_hash h) a.keys)) [
  | inl e ↦ rw (e, add_api_key) refl
  | inr e ↦ elim (Bool-cases (any (λ t. t.id == tenant) a.tenants)) [
    | inl f ↦ rw (e, f, add_api_key) refl
    | inr f ↦ rw (e, f, add_api_key) refl
  ]
]

-- A tenant that is there is given its key.
ok-add_api_key :
    (tenant : ℕ) (h label : String) (a : Accounts)
    → any (λ t. t.id == tenant) a.tenants ≡ true
    → (k : Option ApiKey) × ((add_api_key tenant h label a).1 ≡ ok k)
unfolding add_api_key
ok-add_api_key tenant h label a there = elim (Bool-cases (any (has_hash h) a.keys)) [
  | inl e ↦ (
    find (has_hash h) (map (λ k. if has_hash h k then record k { label = label } else k) a.keys),
    rw (e, add_api_key) refl,
  )
  | inr e ↦ (
    some (record { id = a.next_key; tenant_id = tenant; key_hash = h; label = label }),
    rw (e, there, add_api_key) refl,
  )
]

-- The turn of a tenant: the tenant is there, and so are its widgets.
found_name :
    (name : String) (a : Accounts) (o : Option Tenant)
    → find_by_name name a ≡ o
    → find_by_name name (found_or_new name a o).0 ≡ some (found_or_new name a o).1
unfolding find_by_name create_tenant
found_name name a (some t) e = e
found_name name a none e = find_added (λ t. str_eq t.name name) a.tenants _ e (eq_refl name)

tenants_of_found :
    (name other : String) (a : Accounts) (o : Option Tenant) (t : Tenant)
    → find_by_name other a ≡ some t
    → find_by_name other (found_or_new name a o).0 ≡ some t
unfolding find_by_name create_tenant
tenants_of_found name other a (some u) t h = h
tenants_of_found name other a none t h = find_kept (λ t. str_eq t.name other) a.tenants _ t h

find_by_name-add_api_key :
    (tenant : ℕ) (h label name : String) (a : Accounts)
    → find_by_name name (add_api_key tenant h label a).0 ≡ find_by_name name a
unfolding find_by_name
find_by_name-add_api_key tenant h label name a = rw (tenants-add_api_key tenant h label a) refl

module _ (now tenant : ℕ) (specs : List DemoWidget) (db : Database) where
  accounts-with_widgets {ℓ} :
      {K : Type ℓ} (r : Accounts × Outcome K)
      → (with_widgets now tenant specs db r).0.accounts ≡ r.0
  accounts-with_widgets (a, ok k) = refl
  accounts-with_widgets (a, http e) = refl
  accounts-with_widgets (a, crash x) = refl

  KeepsWidgets-with_widgets {ℓ} :
      {K : Type ℓ} (r : Accounts × Outcome K)
      → KeepsWidgets db (with_widgets now tenant specs db r).0.db
  unfolding KeepsWidgets
  KeepsWidgets-with_widgets (a, ok k) = seed_widgets-KeepsWidgets now tenant specs db
  KeepsWidgets-with_widgets (a, http e) = λ id owner w h. h
  KeepsWidgets-with_widgets (a, crash x) = λ id owner w h. h

  Found-with_widgets {ℓ} :
      {K : Type ℓ} (r : Accounts × Outcome K) (ws : List Widget)
      → (with_widgets now tenant specs db r).1 ≡ ok ws
      → Found tenant specs ws (with_widgets now tenant specs db r).0.db
  Found-with_widgets (a, ok k) ws h = seed_widgets-Found now tenant specs db ws h
  Found-with_widgets (a, http e) ws h = cc
  Found-with_widgets (a, crash x) ws h = cc

  with_widgets_again {ℓ} :
      {K : Type ℓ} (r : Accounts × Outcome K) (k : K) (ws : List Widget)
      → r.1 ≡ ok k
      → Found tenant specs ws db
      → with_widgets now tenant specs db r ≡ (record { accounts = r.0; db = db }, ok ws)
  with_widgets_again (a, o) k ws h f = rw h (rw (seed_widgets_again now tenant specs ws db f) refl)

-- A tenant of the demo data is there, with its widgets.
pub record There (spec : DemoTenant) (ws : List Widget) (s : Stored) : Type 0 where
  pub owner : Tenant
  pub named : find_by_name spec.name s.accounts ≡ some owner
  pub widgets_there : Found owner.id spec.widgets ws s.db

abbrev pub Seeded : List DemoTenant → List (List Widget) → Stored → Type 0
Seeded [] [] s = Unit {0}
Seeded (spec ∷ specs) (ws ∷ wss) s = There spec ws s × Seeded specs wss s
Seeded _ _ s = ⊥

pub Seeded-Keeps :
    (specs : List DemoTenant) (wss : List (List Widget)) (s t : Stored)
    → Keeps s t
    → Seeded specs wss s
    → Seeded specs wss t
Seeded-Keeps [] [] s t k h = tt
Seeded-Keeps [] (ws ∷ wss) s t k h = absurd h
Seeded-Keeps (spec ∷ specs) [] s t k h = absurd h
Seeded-Keeps (spec ∷ specs) (ws ∷ wss) s t k h = (
  record {
    owner = h.0.owner;
    named = k.tenants_kept spec.name h.0.owner h.0.named;
    widgets_there =
        Found-KeepsWidgets h.0.owner.id spec.widgets ws s.db t.db k.widgets_kept h.0.widgets_there;
  },
  Seeded-Keeps specs wss s t k h.1,
)

module _ (hash_key : Digest) (now : ℕ) (token : String) (spec : DemoTenant) (s : Stored) where
  pub seed_tenant-Keeps : Keeps s (seed_tenant hash_key now token spec s).0
  unfolding seed_tenant
  seed_tenant-Keeps =
      let found = found_or_new spec.name s.accounts (find_by_name spec.name s.accounts) in
      let r = add_api_key found.1.id (hash_key (new_api_key token)) "seed" found.0 in
      record {
        tenants_kept = λ name owner h.
            rw (accounts-with_widgets now found.1.id spec.widgets s.db r) (
              find_by_name-add_api_key found.1.id (hash_key (new_api_key token)) "seed" name found.0
              ∙ tenants_of_found spec.name name s.accounts (find_by_name spec.name s.accounts) owner
                  h);
        widgets_kept = KeepsWidgets-with_widgets now found.1.id spec.widgets s.db r;
      }

  pub seed_tenant-There :
      (ws : List Widget)
      → (seed_tenant hash_key now token spec s).1 ≡ ok ws
      → There spec ws (seed_tenant hash_key now token spec s).0
  unfolding seed_tenant
  seed_tenant-There ws h =
      let found = found_or_new spec.name s.accounts (find_by_name spec.name s.accounts) in
      let r = add_api_key found.1.id (hash_key (new_api_key token)) "seed" found.0 in
      record {
        owner = found.1;
        named = rw (accounts-with_widgets now found.1.id spec.widgets s.db r) (
            find_by_name-add_api_key found.1.id (hash_key (new_api_key token)) "seed" spec.name
              found.0
            ∙ found_name spec.name s.accounts (find_by_name spec.name s.accounts) refl);
        widgets_there = Found-with_widgets now found.1.id spec.widgets s.db r ws h;
      }

  any_named :
      (t : Tenant)
      → find_by_name spec.name s.accounts ≡ some t
      → any (λ u. u.id == t.id) s.accounts.tenants ≡ true
  unfolding find_by_name
  any_named t h =
      any_found (λ u. str_eq u.name spec.name) (λ u. u.id == t.id) s.accounts.tenants t h
        (ground arith)

  pub seed_tenant_again :
      (ws : List Widget)
      → There spec ws s
      → ((seed_tenant hash_key now token spec s).1 ≡ ok ws)
        × ((seed_tenant hash_key now token spec s).0.db ≡ s.db)
        × ((seed_tenant hash_key now token spec s).0.accounts.tenants ≡ s.accounts.tenants)
  unfolding seed_tenant
  seed_tenant_again ws h =
      let h_key = hash_key (new_api_key token) in
      let given = ok-add_api_key h.owner.id h_key "seed" s.accounts (any_named h.owner h.named) in
      let whole =
        with_widgets_again now h.owner.id spec.widgets s.db
          (add_api_key h.owner.id h_key "seed" s.accounts) given.0 ws given.1 h.widgets_there in
      rw (h.named, whole) (refl, refl, tenants-add_api_key h.owner.id h_key "seed" s.accounts)
