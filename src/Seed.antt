-- ===== src/Seed.antt =====
-- scripts/seed.py: the demo data, and the run that stores it. Random tokens, one for each key that is
-- issued, and the digest are parameters; printed lines are left out.
pub mod Stores
pub mod Turns
pub mod Again
mod Tests
use flyrank_capstone_widgetp.Base.{
  ℕ, zero, suc, String, Bool, true, false, Option, none, some, List, [], ◌∷◌,
}
use flyrank_capstone_widgetp.Json.{str, obj, end, member, Json}
use flyrank_capstone_widgetp.Http.{Outcome, ok, http, crash, ◌>>=◌}
use flyrank_capstone_widgetp.Schema.{Field, Widget}
use flyrank_capstone_widgetp.Database.{Database}
use flyrank_capstone_widgetp.Accounts.{
  Accounts, Tenant, Digest, create_tenant, find_by_name, add_api_key, new_api_key,
}
use flyrank_capstone_widgetp.Widgets.{WidgetSpec, get_for_tenant, insert_widget}

-- The tables that the script writes.
pub record Stored : Type 0 where
  pub accounts : Accounts
  pub db : Database

-- An entry of a tenant's "widgets": its fixed id and the rest.
abbrev pub DemoWidget : Type 0
DemoWidget = String × WidgetSpec

pub record DemoTenant : Type 0 where
  pub name : String
  pub widgets : List DemoWidget

abbrev demo_field : String → String → String → Bool → Option ℕ → Field
demo_field name label kind required max_length = record {
  name = name;
  label = label;
  kind = kind;
  required = required;
  max_length = max_length;
  options = none;
}

abbrev demo_options : String → String → Json
demo_options layout success_message = obj (
    member "theme" (str "auto")
      (member "layout" (str layout) (member "success_message" (str success_message) end)))

abbrev pub demo_signup : DemoWidget
demo_signup = (
  "wgt_demo_signup",
  record {
    kind = "signup_form";
    title = "Join the Acme beta";
    description = "Weekly product notes. One click to leave, always.";
    fields =
        demo_field "email" "Email" "email" true none
        ∷ demo_field "name" "Name" "text" false (some 80)
        ∷ record (demo_field "role" "What do you do?" "select" false none) {
          options = some ("Engineering" ∷ "Design" ∷ "Product" ∷ "Something else" ∷ []);
        }
        ∷ [];
    button_text = "Request access";
    options = demo_options "inline" "You're on the list.";
  },
)

abbrev pub demo_contact : DemoWidget
demo_contact = (
  "wgt_demo_contact",
  record {
    kind = "contact_form";
    title = "Talk to us";
    description = "We answer every message within one business day.";
    fields =
        demo_field "email" "Email" "email" true none
        ∷ demo_field "message" "Message" "textarea" true (some 1000)
        ∷ [];
    button_text = "Send message";
    options = demo_options "popover" "Message received.";
  },
)

abbrev pub demo_globex : DemoWidget
demo_globex = (
  "wgt_demo_globex",
  record {
    kind = "cta";
    title = "Book a Globex demo";
    description = "Thirty minutes, your data, no slides.";
    fields =
        demo_field "email" "Work email" "email" true none
        ∷ demo_field "company" "Company" "text" true (some 120)
        ∷ [];
    button_text = "Book a slot";
    options = demo_options "inline" "We'll be in touch.";
  },
)

-- `TENANTS`
abbrev pub demo_tenants : List DemoTenant
demo_tenants =
    record { name = "Acme Analytics"; widgets = demo_signup ∷ demo_contact ∷ [] }
    ∷ record { name = "Globex Industrial"; widgets = demo_globex ∷ [] }
    ∷ []

-- `existing or widgets.create(…)`
abbrev pub existing_or_new :
    ℕ → ℕ → DemoWidget → Database → Option Widget → Database × Outcome Widget
existing_or_new now tenant_id spec db (some existing) = (db, ok existing)
existing_or_new now tenant_id spec db none = insert_widget now spec.0 tenant_id spec.1 db

abbrev pub seed_widget : ℕ → ℕ → DemoWidget → Database → Database × Outcome Widget
seed_widget now tenant_id spec db =
    existing_or_new now tenant_id spec db (get_for_tenant spec.0 tenant_id db)

abbrev pub then_seed {ℓ} :
    {S T : Type ℓ} → S × Outcome T → (S → S × Outcome (List T)) → S × Outcome (List T)
then_seed (s, ok t) rest = let r = rest s in (r.0, r.1 >>= λ ts. ok (t ∷ ts))
then_seed (s, http e) rest = (s, http e)
then_seed (s, crash x) rest = (s, crash x)

-- The inner loop, over a tenant's widgets.
unfoldable pub seed_widgets : ℕ → ℕ → List DemoWidget → Database → Database × Outcome (List Widget)
seed_widgets now tenant_id [] db = (db, ok [])
seed_widgets now tenant_id (spec ∷ specs) db =
    then_seed (seed_widget now tenant_id spec db) (seed_widgets now tenant_id specs)

-- `tenants.find_by_name(…) or tenants.create_tenant(…)`
abbrev pub found_or_new : String → Accounts → Option Tenant → Accounts × Tenant
found_or_new name accounts (some tenant) = (accounts, tenant)
found_or_new name accounts none = create_tenant name accounts

-- What follows the key: the widgets, unless the key was refused.
abbrev pub with_widgets {ℓ} :
    {K : Type ℓ}
    → ℕ
    → ℕ
    → List DemoWidget
    → Database
    → Accounts × Outcome K
    → Stored × Outcome (List Widget)
with_widgets now tenant_id specs db (accounts, ok key) =
    let r = seed_widgets now tenant_id specs db in (record { accounts = accounts; db = r.0 }, r.1)
with_widgets now tenant_id specs db (accounts, http e) =
    (record { accounts = accounts; db = db }, http e)
with_widgets now tenant_id specs db (accounts, crash x) =
    (record { accounts = accounts; db = db }, crash x)

-- The body of the loop over the tenants, with the random token of the key.
unfoldable pub seed_tenant :
    Digest → ℕ → String → DemoTenant → Stored → Stored × Outcome (List Widget)
unfolding find_by_name add_api_key seed_widgets
seed_tenant hash_key now token spec s =
    let found = found_or_new spec.name s.accounts (find_by_name spec.name s.accounts) in
    with_widgets now found.1.id spec.widgets s.db
      (add_api_key found.1.id (hash_key (new_api_key token)) "seed" found.0)

-- The loop of `seed`, from the `i`th key on.
unfoldable pub seed_all :
    Digest → ℕ → (ℕ → String) → ℕ → List DemoTenant → Stored → Stored × Outcome (List (List Widget))
unfolding seed_tenant
seed_all hash_key now tokens i [] s = (s, ok [])
seed_all hash_key now tokens i (spec ∷ specs) s =
    then_seed (seed_tenant hash_key now (tokens i) spec s)
      (seed_all hash_key now tokens (suc i) specs)

-- `seed`
unfoldable pub seed : Digest → ℕ → (ℕ → String) → Stored → Stored × Outcome (List (List Widget))
unfolding seed_all
seed hash_key now tokens s = seed_all hash_key now tokens 0 demo_tenants s
